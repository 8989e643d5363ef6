-- ===== src/Engine/Answer.antt =====
-- query_engine.py: `_recommend`, the path of every query, and the three kinds of query.
mod Asked
pub mod Ways
pub mod Repeat
pub mod Kept
pub mod Spent
pub mod Size
pub mod Other
unfoldable pub use Asked.*
use recommendation_engine.Base.{
  ℕ, zero, suc, ◌+◌, String, Bool, true, false, not, ◌&&◌, ◌||◌, Option, none, some, List, [], ◌∷◌,
  max, map, take, str_eq, ◌==◌, if◌then◌else◌,
}
use recommendation_engine.Base.Number.{Num}
use recommendation_engine.Base.Dict.{Dict, lookup, put}
use recommendation_engine.Base.Result.{Result, ok, err}
use recommendation_engine.Filter.{Value, dict, Fields, field, end, Condition, build_pinecone_filter}
use recommendation_engine.Ranking.{Match}
use recommendation_engine.Ranking.Format.{Ranked, format_results}
use recommendation_engine.Ranking.Llm.{Fallback, RerankResult, Verdicts}
use recommendation_engine.Ranking.Variant.{RankingVariant, assign_variant}
use recommendation_engine.Personal.{Taste}
use recommendation_engine.Usage.{Usage, no_usage, record_embedding_usage, Source}
use recommendation_engine.Engine.{
  QueryType, CacheStatus, hit, miss, bypass, UpstreamError, ApiError, bad_filters, empty_profile,
  internal, api_error, Call, Config, Workspace, QueryInput, KeyParts, SearchPlan, Llm, World, Cache,
  State, Recommendation,
}
use recommendation_engine.Engine.Results.{key, get, set}
use recommendation_engine.Engine.Search.{
  and_then, keyword_weight, history, taste, ranked_search, search_text, search_similar,
  embedded_item,
}
use recommendation_engine.Engine.Stage.{Judged, llm_candidates, llm_rerank_many, raw_data}

module _ {N : Type 0} ⦃num : Num N⦄ (w : World N) (tenant : Workspace N) where
  unfoldable pub settle : Query N → Request N → Dict (Condition N) → Settled N
  settle q r filter =
      let config = config_or r.ranking tenant.ranking in
      let variant =
        assign_variant config.enabled config.control_share w.hash_user w.random r.user_id in
      record {
        filter = filter;
        config = config;
        variant = variant;
        history = history w tenant config variant r.user_id;
        llm_n = if is_nonempty q.llm_query then llm_candidates w.llm config variant else 0;
      }

  -- `self._cache.key(...)`
  unfoldable pub key_of : Query N → Request N → Settled N → String
  key_of q r st = key w.digest tenant.id (record {
    query_type = q.query_type;
    variant = st.variant;
    ranking = st.config;
    user = personal st.history r.user_id;
    query_input = q.query_input;
    filters = st.filter;
    top_k = r.top_k;
  })

  -- `done`
  pub recommendation :
      Query N
      → Request N
      → Settled N
      → List (Ranked N)
      → CacheStatus
      → ℕ
      → Option (RerankResult N)
      → Recommendation N
  recommendation q r st results status tokens outcome = record {
    query_type = q.query_type;
    query_input = q.query_input;
    filters = filters_or r.filters;
    results = results;
    cache_status = status;
    embedding_tokens = tokens;
    ranking_variant = st.variant;
    personalized = has_any st.history;
    rerank_tokens = tokens_of outcome;
    rerank_fallback = fallback_of outcome;
    rerank_cached = cached_of outcome;
  }

  -- The search within `_upstream_errors`.
  unfoldable pub searched : Query N → Request N → Settled N → Call (List (Match N))
  searched q r st = and_then (taste w tenant st.config st.history) (λ t.
      ranked_search w tenant (max r.top_k st.llm_n) st.config st.variant (λ k.
        q.search st.filter k (record { taste = t; keyword = keyword_weight st.config st.variant })))

  -- `record_embedding_usage(self._session, tenant.id, UsageSource.QUERY, usage)`
  abbrev pub recorded : Usage → State N → State N
  recorded u s = record s {
    token_usage =
        record_embedding_usage w.embedding_model w.usage_fails tenant.id w.day Source.query u
          s.token_usage;
  }

  -- `judged["query"]`
  judgement :
      Option (Dict (RerankResult N)) × Dict Verdicts
      → Option (List (Match N) × Option (RerankResult N)) × Dict Verdicts
  judgement (none, v) = (none, v)
  judgement (some d, v) = elim (lookup "query" d) [
    | none ↦ (none, v)
    | some o ↦ (some (o.matches, some o), v)
  ]

  pub staged :
      Option Llm
      → Option String
      → ℕ
      → List (Match N)
      → Dict Verdicts
      → Option (List (Match N) × Option (RerankResult N)) × Dict Verdicts
  unfolding judgement
  staged (some llm) (some text) (suc n) matches v = judgement (
      llm_rerank_many w tenant llm (record { id = "query"; text = text; matches = matches } ∷ [])
        (suc n) v)
  staged _ _ _ matches v = (some (matches, none), v)

  -- From the cut to `top_k` to the formatted results.
  unfoldable pub formatted : Request N → List (Match N) → List (Ranked N)
  unfolding as_values
  formatted r matches =
      let top = take r.top_k matches in
      format_results w.round4 tenant.thresholds tenant.filter_fields r.include_raw_data
        (if r.include_raw_data then as_values (raw_data w tenant top) else []) top

  -- The end: where there is a key, the results are cached.
  pub finished :
      Query N
      → Request N
      → Settled N
      → Option String
      → ℕ
      → Option (List (Match N) × Option (RerankResult N))
      → State N
      → Answered N
  finished q r st k tokens none s = (err internal, s)
  finished q r st none tokens (some (matches, outcome)) s =
      (ok (recommendation q r st (formatted r matches) bypass tokens outcome), s)
  finished q r st (some k) tokens (some (matches, outcome)) s = (
    ok (recommendation q r st (formatted r matches) miss tokens outcome),
    record s { cache = set w.now k (formatted r matches) s.cache },
  )

  -- What follows the search, once its usage is recorded.
  pub after_search :
      Query N
      → Request N
      → Settled N
      → Option String
      → ℕ
      → Result UpstreamError (List (Match N))
      → State N
      → Answered N
  unfolding finished staged
  after_search q r st k tokens (err e) s = (err (api_error e), s)
  after_search q r st k tokens (ok matches) s =
      let judged = staged w.llm q.llm_query st.llm_n matches s.verdicts in
      finished q r st k tokens judged.0 (record s { verdicts = judged.1 })

  -- A query that the cache does not answer.
  pub fresh : Query N → Request N → Settled N → Option String → State N → Answered N
  unfolding searched after_search
  fresh q r st k s =
      let found = searched q r st in
      after_search q r st k found.0.tokens found.1 (recorded found.0 s)

  -- `if (cached := await self._cache.get(key)) is not None`
  pub looked_up :
      Query N
      → Request N
      → Settled N
      → String
      → State N
      → Option (List (Ranked N)) × Cache N
      → Answered N
  unfolding fresh
  looked_up q r st k s (some results, c) =
      (ok (recommendation q r st results hit 0 none), record s { cache = c })
  looked_up q r st k s (none, c) = fresh q r st (some k) (record s { cache = c })

  -- With a key, the cache is asked first.
  pub answered : Query N → Request N → Settled N → State N → Answered N
  unfolding key_of looked_up
  answered q r st s =
      let k = key_of q r st in
      if r.use_cache && not r.include_raw_data
      then looked_up q r st k s (get w.now k s.cache)
      else fresh q r st none s

  -- `_recommend`
  unfoldable pub recommend : Query N → Request N → State N → Answered N
  unfolding settle answered
  recommend q r s = elim (build_pinecone_filter r.filters tenant.filter_fields) [
    | err es ↦ (err (bad_filters none es), s)
    | ok filter ↦ answered q r (settle q r filter) s
  ]

  -- `recommend_by_text`
  unfoldable pub text_query : String → Query N
  text_query text = record {
    query_type = QueryType.text;
    query_input = QueryInput.query text;
    llm_query = some text;
    search = λ filter k plan. search_text w tenant text k filter plan;
  }

  unfoldable pub recommend_by_text : String → Request N → State N → Answered N
  recommend_by_text text = recommend (text_query text)

  -- `recommend_by_item_id`, for the item's pinecone id
  unfoldable pub item_query : String → String → Query N
  item_query external id = record {
    query_type = QueryType.item_id;
    query_input = QueryInput.external_id external;
    llm_query = none;
    search = λ filter k plan. search_similar w tenant id k filter plan.taste;
  }

  unfoldable pub recommend_by_item_id : String → Request N → State N → Answered N
  recommend_by_item_id external r s = elim (embedded_item w tenant external) [
    | err e ↦ (err e, s)
    | ok id ↦ recommend (item_query external id) r s
  ]

  -- `recommend_by_profile`
  unfoldable pub profile_query : Dict (Value N) → String → Query N
  profile_query profile text = record {
    query_type = QueryType.profile;
    query_input = QueryInput.profile profile;
    llm_query = some text;
    search = λ filter k plan. search_text w tenant text k filter plan;
  }

  unfoldable pub recommend_by_profile : Dict (Value N) → Request N → State N → Answered N
  recommend_by_profile profile r s =
      let text = w.profile_text profile in
      if str_eq text "" then (err empty_profile, s) else recommend (profile_query profile text) r s

  -- `embed_queries`
  unfoldable pub embed_queries : List String → State N → Result ApiError (Unit {0}) × State N
  embed_queries texts s =
      let embedded = w.embed_batch texts in
      (elim embedded.1 [ ok vectors ↦ ok tt | err e ↦ err (api_error e) ], recorded embedded.0 s)
