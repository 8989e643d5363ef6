-- ===== src/Engine/Batch/Run.antt =====
-- query_engine.py: `recommend_batch` from the ranking of the misses to the answers.
pub mod Made
use recommendation_engine.Base.{
  ℕ, suc, String, Bool, false, Option, none, some, List, [], ◌∷◌, take, length, if◌then◌else◌,
}
use recommendation_engine.Base.Number.{Num, lt}
use recommendation_engine.Base.Dict.{Dict, lookup, put}
use recommendation_engine.Base.Result.{Result, ok, err, ◌>>=◌}
use recommendation_engine.Filter.{Condition}
use recommendation_engine.Ranking.{Match}
use recommendation_engine.Ranking.Feedback.{workspace_stats, rerank}
use recommendation_engine.Ranking.Format.{Ranked, format_results}
use recommendation_engine.Ranking.Llm.{RerankResult, Verdicts}
use recommendation_engine.Ranking.Variant.{assign_variant}
use recommendation_engine.Usage.{record_embedding_usage, Source}
use recommendation_engine.Engine.{
  QueryType, CacheStatus, hit, miss, UpstreamError, ApiError, internal, api_error, Workspace,
  QueryInput, Llm, World, Cache, State, Recommendation,
}
use recommendation_engine.Engine.Search.{values, keyword_weight, history, hybrid}
use recommendation_engine.Engine.Stage.{Judged, llm_candidates, llm_rerank_many}
use recommendation_engine.Engine.Answer.{filters_or, has_any, tokens_of, fallback_of, cached_of}
use recommendation_engine.Engine.Batch.{
  BatchQuery, Missed, BatchSettled, Fresh, Batched, shares, tokens_by_id, filters_from, filter_of,
  read_all, misses, set_all, batch_key, feedback_applies, keep_size, fetch_size, search_all,
  found_or,
}

module _ {N : Type 0} ⦃num : Num N⦄ (w : World N) (tenant : Workspace N) where
  -- The body of the loop over the misses: keyword matches fused in, then the feedback.
  pub rank_one : ℕ → BatchSettled N → Missed N → Result UpstreamError (List (Match N))
  rank_one top_k st m =
      let weight = keyword_weight st.config st.variant in
      let fused : Result UpstreamError (List (Match N)) =
        if lt num.zero weight
        then (hybrid w tenant m.query.query m.vector m.matches (filter_of st.filters m.query)
            (fetch_size w tenant top_k st) weight).1
        else ok m.matches in
      fused >>= λ ms. ok (
        if feedback_applies w tenant st.variant
        then rerank (λ id. lookup id w.stats) ms (keep_size w tenant top_k st) st.config.weights
            (workspace_stats (values w.stats))
        else ms)

  rank_all : ℕ → BatchSettled N → List (Missed N) → Result UpstreamError (List (Missed N))
  unfolding rank_one
  rank_all top_k st [] = ok []
  rank_all top_k st (m ∷ ms) = rank_one top_k st m >>= λ found.
      rank_all top_k st ms >>= λ rest. ok (record m { matches = found } ∷ rest)

  to_judge : List (Missed N) → List (Judged N)
  to_judge [] = []
  to_judge (m ∷ ms) =
      record { id = m.query.id; text = m.query.query; matches = m.matches } ∷ to_judge ms

  -- `if llm_n: judged = ...`
  pub judged_all :
      Option Llm
      → ℕ
      → List (Missed N)
      → Dict Verdicts
      → Option (Dict (RerankResult N)) × Dict Verdicts
  unfolding to_judge
  judged_all (some llm) (suc n) ms v = llm_rerank_many w tenant llm (to_judge ms) (suc n) v
  judged_all _ _ ms v = (some [], v)

  -- `ranked[qid]` once the outcomes are in
  pub ranked_of : Dict (RerankResult N) → Missed N → List (Match N)
  ranked_of outcomes m = elim (lookup m.query.id outcomes) [ none ↦ m.matches | some o ↦ o.matches ]

  pub format_all :
      ℕ → Dict (RerankResult N) → List (Missed N) → Dict (List (Ranked N)) → Dict (List (Ranked N))
  unfolding ranked_of
  format_all top_k outcomes [] d = d
  format_all top_k outcomes (m ∷ ms) d = format_all top_k outcomes ms (
      put m.query.id
        (format_results w.round4 tenant.thresholds tenant.filter_fields false []
          (take top_k (ranked_of outcomes m)))
        d)

  -- What is made of the misses' matches: the results, and the cache of verdicts.
  finish_misses :
      ℕ
      → BatchSettled N
      → List (BatchQuery N)
      → Bool
      → ℕ
      → Result UpstreamError (List (Missed N))
      → Dict Verdicts
      → Result ApiError (Fresh N) × Dict Verdicts
  unfolding judged_all format_all
  finish_misses top_k st qs leaned tokens (err e) v = (err (api_error e), v)
  finish_misses top_k st qs leaned tokens (ok ms) v =
      let judged = judged_all w.llm (llm_candidates w.llm st.config st.variant) ms v in
      (
        elim judged.0 [
          | none ↦ err internal
          | some outcomes ↦ ok (record {
            results = format_all top_k outcomes ms [];
            outcomes = outcomes;
            tokens = tokens_by_id qs (shares tokens (length qs)) [];
            personalized = leaned;
          })
        ],
        judged.1,
      )

  ranked_misses :
      ℕ
      → BatchSettled N
      → List (BatchQuery N)
      → ℕ
      → Result UpstreamError (Bool × List (Missed N))
      → Dict Verdicts
      → Result ApiError (Fresh N) × Dict Verdicts
  unfolding finish_misses rank_all
  ranked_misses top_k st qs tokens (err e) v = (err (api_error e), v)
  ranked_misses top_k st qs tokens (ok (leaned, ms)) v =
      finish_misses top_k st qs leaned tokens (rank_all top_k st ms) v

  -- `if misses:`
  pub answer_misses :
      ℕ
      → Option String
      → BatchSettled N
      → List (BatchQuery N)
      → State N
      → Result ApiError (Fresh N) × State N
  unfolding ranked_misses
  answer_misses top_k user st [] s =
      (ok (record { results = []; outcomes = []; tokens = []; personalized = false }), s)
  answer_misses top_k user st (q ∷ qs) s =
      let found = search_all w tenant top_k st (q ∷ qs) in
      let done = ranked_misses top_k st (q ∷ qs) found.0.tokens found.1 s.verdicts in
      (
        done.0,
        record s {
          token_usage =
              record_embedding_usage w.embedding_model w.usage_fails tenant.id w.day Source.query
                found.0 s.token_usage;
          verdicts = done.1;
          cache = elim done.0 [
            | err e ↦ s.cache
            | ok fresh ↦
                set_all w.now (batch_key w tenant user top_k st) (q ∷ qs) fresh.results s.cache
          ];
        },
      )

  unfoldable pub batch_recommendation :
      BatchSettled N → Fresh N → BatchQuery N → CacheStatus → List (Ranked N) → Recommendation N
  batch_recommendation st fresh q status results = record {
    query_type = QueryType.text;
    query_input = QueryInput.query q.query;
    filters = filters_or q.filters;
    results = results;
    cache_status = status;
    embedding_tokens = found_or (lookup q.id fresh.tokens) 0;
    ranking_variant = st.variant;
    personalized = elim status [ hit ↦ has_any st.history | _ ↦ fresh.personalized ];
    rerank_tokens = tokens_of (lookup q.id fresh.outcomes);
    rerank_fallback = fallback_of (lookup q.id fresh.outcomes);
    rerank_cached = cached_of (lookup q.id fresh.outcomes);
  }

  -- `hits[q.id] if q.id in hits else fresh[q.id]`; a missing id is a KeyError
  unfoldable pub batch_result : BatchSettled N → Fresh N → BatchQuery N → Option (Recommendation N)
  unfolding batch_recommendation
  batch_result st fresh q = elim (lookup q.id st.hits) [
    | some r ↦ some (batch_recommendation st fresh q hit r)
    | none ↦ elim (lookup q.id fresh.results) [
      | some r ↦ some (batch_recommendation st fresh q miss r)
      | none ↦ none
    ]
  ]

  -- The dict of the answers.
  unfoldable pub collect :
      BatchSettled N
      → Fresh N
      → List (BatchQuery N)
      → Dict (Recommendation N)
      → Result ApiError (Dict (Recommendation N))
  unfolding batch_result
  collect st fresh [] d = ok d
  collect st fresh (q ∷ qs) d = elim (batch_result st fresh q) [
    | none ↦ err internal
    | some r ↦ collect st fresh qs (put q.id r d)
  ]

  unfoldable pub collected :
      BatchSettled N → List (BatchQuery N) → Result ApiError (Fresh N) × State N → Batched N
  unfolding collect
  collected st qs (err e, s) = (err e, s)
  collected st qs (ok fresh, s) = (collect st fresh qs [], s)

  -- From the filters on.
  unfoldable pub batch_settled :
      ℕ
      → Option String
      → Dict (Dict (Condition N))
      → List (BatchQuery N)
      → Cache N
      → BatchSettled N × Cache N
  batch_settled top_k user filters qs c =
      let config = tenant.ranking in
      let variant = assign_variant config.enabled config.control_share w.hash_user w.random user in
      let st : BatchSettled N = record {
        filters = filters;
        config = config;
        variant = variant;
        history = history w tenant config variant user;
        hits = [];
      } in
      let r = read_all w.now (batch_key w tenant user top_k st) qs [] c in
      (record st { hits = r.0 }, r.1)

  unfoldable pub answer_batch :
      ℕ → Option String → List (BatchQuery N) → BatchSettled N × Cache N → State N → Batched N
  unfolding collected answer_misses
  answer_batch top_k user qs (st, c) s =
      collected st qs (answer_misses top_k user st (misses st.hits qs) (record s { cache = c }))

  -- `recommend_batch`
  unfoldable pub recommend_batch : List (BatchQuery N) → ℕ → Option String → State N → Batched N
  unfolding batch_settled answer_batch
  recommend_batch qs top_k user s = elim (filters_from tenant.filter_fields qs []) [
    | err e ↦ (err e, s)
    | ok filters ↦ answer_batch top_k user qs (batch_settled top_k user filters qs s.cache) s
  ]
