-- ===== src/Engine/Batch.antt =====
-- query_engine.py: `recommend_batch`, several text queries at once. Redis' answers come in the order of
-- the queries, and so do the vector store's: the first failure of them is the one that is raised.
mod Hits
pub mod Run
pub mod Shares
pub mod Answers
use recommendation_engine.Base.{
  ℕ, zero, suc, ◌+◌, ◌/◌, ◌%◌, String, Bool, true, false, not, ◌&&◌, Option, none, some, List, [],
  ◌∷◌, max, map, keep, take, length, is_some, ltb, if◌then◌else◌,
}
use recommendation_engine.Base.Number.{Num, lt}
use recommendation_engine.Base.Dict.{Dict, lookup, put, member, keys}
use recommendation_engine.Base.Result.{Result, ok, err, ◌>>=◌}
use recommendation_engine.Filter.{Value, Condition, build_pinecone_filter}
use recommendation_engine.Ranking.{Match}
use recommendation_engine.Ranking.Feedback.{
  WorkspaceStats, candidate_count, workspace_stats, has_data, rerank,
}
use recommendation_engine.Ranking.Format.{Ranked, format_results}
use recommendation_engine.Ranking.Llm.{RerankResult, Verdicts}
use recommendation_engine.Ranking.Variant.{RankingVariant, control, reranked, assign_variant}
use recommendation_engine.Personal.{Taste}
use recommendation_engine.Usage.{Usage, no_usage, record_embedding_usage, Source}
use recommendation_engine.Engine.{
  QueryType, CacheStatus, hit, miss, UpstreamError, unexpected, ApiError, bad_filters, internal,
  api_error, Call, Config, Workspace, QueryInput, Near, vector, Llm, World, Cache, State,
  Recommendation,
}
use recommendation_engine.Engine.Results.{key, get, set}
use recommendation_engine.Engine.Search.{
  and_then, returned, values, keyword_weight, history, taste, hybrid, leaning,
}
use recommendation_engine.Engine.Stage.{Judged, llm_candidates, llm_rerank_many}
use recommendation_engine.Engine.Answer.{
  filters_or, personal, has_any, tokens_of, fallback_of, cached_of,
}

pub record BatchQuery (N : Type 0) : Type 0 where
  pub id : String
  pub query : String
  pub filters : Option (Dict (Value N))

-- A query that the cache did not answer, with its vector and its matches so far.
pub record Missed (N : Type 0) : Type 0 where
  pub query : BatchQuery N
  pub vector : List N
  pub matches : List (Match N)

-- `base + (i < extra)` for each of `n` queries from `i` on
pub shares_from : ℕ → ℕ → ℕ → ℕ → List ℕ
shares_from base extra i zero = []
shares_from base extra i (suc n) =
    (base + (if ltb i extra then 1 else 0)) ∷ shares_from base extra (i + 1) n

-- `divmod(usage.tokens, len(misses))` and the parts made of it
unfoldable pub shares : ℕ → ℕ → List ℕ
unfolding shares_from
shares tokens zero = []
shares tokens (suc n) = shares_from (tokens / suc n) (tokens % suc n) 0 (suc n)

-- `{q.id: ... for i, q in enumerate(misses)}`
pub tokens_by_id : {N : Type 0} → List (BatchQuery N) → List ℕ → Dict ℕ → Dict ℕ
tokens_by_id (q ∷ qs) (n ∷ ns) d = tokens_by_id qs ns (put q.id n d)
tokens_by_id _ _ d = d

-- What a batch has settled before the search, and the cache's answers.
pub record BatchSettled (N : Type 0) : Type 0 where
  pub filters : Dict (Dict (Condition N))
  pub config : Config N
  pub variant : RankingVariant
  pub history : List String
  pub hits : Dict (List (Ranked N))

-- The results of the misses.
pub record Fresh (N : Type 0) : Type 0 where
  pub results : Dict (List (Ranked N))
  pub outcomes : Dict (RerankResult N)
  pub tokens : Dict ℕ
  pub personalized : Bool

abbrev pub Batched : Type 0 → Type 0
Batched N = Result ApiError (Dict (Recommendation N)) × State N

abbrev is_reranked : RankingVariant → Bool
is_reranked control = false
is_reranked reranked = true

abbrev pub found_or {ℓ} : {A : Type ℓ} → Option A → A → A
found_or none a = a
found_or (some b) a = b

module _ {N : Type 0} ⦃num : Num N⦄ where
  -- `pinecone_filters`: the first query with invalid filters is named
  pub filters_from :
      List String
      → List (BatchQuery N)
      → Dict (Dict (Condition N))
      → Result ApiError (Dict (Dict (Condition N)))
  filters_from allowed [] d = ok d
  filters_from allowed (q ∷ qs) d = elim (build_pinecone_filter q.filters allowed) [
    | err es ↦ err (bad_filters (some q.id) es)
    | ok f ↦ filters_from allowed qs (put q.id f d)
  ]

module _ {N : Type 0} where
  -- `pinecone_filters[q.id]`
  pub filter_of : Dict (Dict (Condition N)) → BatchQuery N → Dict (Condition N)
  filter_of d q = found_or (lookup q.id d) []

  -- `hits`, and the cache after the reads
  pub read_all :
      ℕ
      → (BatchQuery N → String)
      → List (BatchQuery N)
      → Dict (List (Ranked N))
      → Cache N
      → Dict (List (Ranked N)) × Cache N
  read_all now k [] hits c = (hits, c)
  read_all now k (q ∷ qs) hits c =
      let g = get now (k q) c in
      read_all now k qs (elim g.0 [ none ↦ hits | some r ↦ put q.id r hits ]) g.1

  -- `misses`
  pub misses : Dict (List (Ranked N)) → List (BatchQuery N) → List (BatchQuery N)
  misses hits = keep (λ (q : BatchQuery N). not (member q.id (keys hits)))

  pub set_all :
      ℕ → (BatchQuery N → String) → List (BatchQuery N) → Dict (List (Ranked N)) → Cache N → Cache N
  set_all now k [] fresh c = c
  set_all now k (q ∷ qs) fresh c =
      set_all now k qs fresh (elim (lookup q.id fresh) [ none ↦ c | some r ↦ set now (k q) r c ])

module _ {N : Type 0} ⦃num : Num N⦄ (w : World N) (tenant : Workspace N) where
  pub batch_key : Option String → ℕ → BatchSettled N → BatchQuery N → String
  unfolding filter_of
  batch_key user top_k st q = key w.digest tenant.id (record {
    query_type = QueryType.text;
    variant = st.variant;
    ranking = st.config;
    user = personal st.history user;
    query_input = QueryInput.query q.query;
    filters = filter_of st.filters q;
    top_k = top_k;
  })

  -- The vector searches of the misses; `zip(..., strict=True)` raises where a vector is missing.
  index_all :
      ℕ
      → (BatchQuery N → Dict (Condition N))
      → List (BatchQuery N)
      → List (List N)
      → Call (List (Missed N))
  index_all fetch_k filter [] [] = returned []
  index_all fetch_k filter (q ∷ qs) (v ∷ vs) =
      and_then (w.search_index (vector v) fetch_k (filter q)) (λ ms.
        and_then (index_all fetch_k filter qs vs)
          (λ rest. returned (record { query = q; vector = v; matches = ms } ∷ rest)))
  index_all _ _ _ _ = (no_usage, err unexpected)

  -- Whether the batch is re-ranked by feedback.
  pub feedback_applies : RankingVariant → Bool
  feedback_applies variant = is_reranked variant && has_data (workspace_stats (values w.stats))

  -- `keep_k`, and `fetch_k`
  pub keep_size : ℕ → BatchSettled N → ℕ
  keep_size top_k st = max top_k (llm_candidates w.llm st.config st.variant)

  pub fetch_size : ℕ → BatchSettled N → ℕ
  unfolding keep_size feedback_applies
  fetch_size top_k st =
      if feedback_applies st.variant
      then candidate_count (keep_size top_k st)
      else keep_size top_k st

  -- One OpenAI call for all misses, then the vector searches; and whether there was a taste.
  pub search_all : ℕ → BatchSettled N → List (BatchQuery N) → Call (Bool × List (Missed N))
  unfolding index_all fetch_size filter_of
  search_all top_k st qs = and_then (taste w tenant st.config st.history) (λ t.
      and_then (w.embed_batch (map (λ (q : BatchQuery N). q.query) qs)) (λ vectors.
        and_then
          (index_all (fetch_size top_k st) (filter_of st.filters) qs
            (map (leaning w tenant t) vectors))
          (λ found. returned (is_some t, found))))
