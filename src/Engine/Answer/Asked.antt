-- ===== src/Engine/Answer/Asked.antt =====
-- query_engine.py: what a query is asked with and what is settled before it is searched.
use recommendation_engine.Base.{
  ℕ, ◌+◌, String, Bool, true, false, not, Option, none, some, List, [], ◌∷◌, str_eq,
}
use recommendation_engine.Base.Dict.{Dict}
use recommendation_engine.Base.Result.{Result}
use recommendation_engine.Filter.{Value, dict, Fields, field, end, Condition}
use recommendation_engine.Ranking.{Match}
use recommendation_engine.Ranking.Llm.{Fallback, RerankResult}
use recommendation_engine.Ranking.Variant.{RankingVariant}
use recommendation_engine.Engine.{
  QueryType, ApiError, Call, Config, QueryInput, SearchPlan, State, Recommendation,
}

-- The arguments that every kind of query has.
pub record Request (N : Type 0) : Type 0 where
  pub top_k : ℕ
  pub filters : Option (Dict (Value N))
  pub include_raw_data : Bool
  pub user_id : Option String
  pub ranking : Option (Config N)
  pub use_cache : Bool

-- Those that tell the kinds apart.
pub record Query (N : Type 0) : Type 0 where
  pub query_type : QueryType
  pub query_input : QueryInput N
  pub llm_query : Option String
  pub search : Dict (Condition N) → ℕ → SearchPlan N → Call (List (Match N))

-- `config = ranking or ranking_config(...)`
abbrev pub config_or : {N : Type 0} → Option (Config N) → Config N → Config N
config_or none c = c
config_or (some c) d = c

-- `filters or {}`
abbrev pub filters_or : {N : Type 0} → Option (Dict (Value N)) → Dict (Value N)
filters_or none = []
filters_or (some f) = f

-- `if llm_query`
abbrev pub is_nonempty : Option String → Bool
is_nonempty none = false
is_nonempty (some t) = not (str_eq t "")

-- `{"user": user_id} if history else {}`
abbrev pub personal : List String → Option String → Option String
personal [] user = none
personal (h ∷ hs) user = user

-- `bool(history)`
abbrev pub has_any : {A : Type 0} → List A → Bool
has_any [] = false
has_any (x ∷ xs) = true

-- What `_recommend` has settled before it looks for matches.
pub record Settled (N : Type 0) : Type 0 where
  pub filter : Dict (Condition N)
  pub config : Config N
  pub variant : RankingVariant
  pub history : List String
  pub llm_n : ℕ

abbrev pub Answered : Type 0 → Type 0
Answered N = Result ApiError (Recommendation N) × State N

module _ {N : Type 0} where
  fields_of : Dict (Value N) → Fields N
  fields_of [] = end
  fields_of ((k, v) ∷ d) = field k v (fields_of d)

  -- The rows of `_raw_data`, as the formatter reads them.
  unfoldable pub as_values : Dict (Dict (Value N)) → Dict (Value N)
  unfolding fields_of
  as_values [] = []
  as_values ((k, d) ∷ ds) = (k, dict (fields_of d)) ∷ as_values ds

  -- `_rerank_fields`
  abbrev pub tokens_of : Option (RerankResult N) → ℕ
  tokens_of none = 0
  tokens_of (some r) = r.prompt_tokens + r.completion_tokens

  abbrev pub fallback_of : Option (RerankResult N) → Option Fallback
  fallback_of none = none
  fallback_of (some r) = r.fallback

  abbrev pub cached_of : Option (RerankResult N) → Bool
  cached_of none = false
  cached_of (some r) = r.cached
