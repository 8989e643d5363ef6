-- ===== src/Engine.antt =====
-- services/recommendation/query_engine.py and cache.py: what a query is made of, the services that the
-- engine calls, and the cache of results. Engine/Search finds the matches, Engine/Stage is the LLM
-- stage, Engine/Answer the path that every query takes, Engine/Batch several queries at once.
pub mod Results
pub mod Search
pub mod Stage
pub mod Answer
pub mod Control
pub mod Batch
use recommendation_engine.Base.{
  ℕ, ◌+◌, String, Bool, true, false, not, ◌&&◌, Option, none, some, List, [], ◌∷◌, ltb, str_eq,
  if◌then◌else◌,
}
use recommendation_engine.Base.Dict.{Dict, lookup, put}
use recommendation_engine.Base.Result.{Result, ok, err}
use recommendation_engine.Filter.{Value, Condition, FieldError}
use recommendation_engine.Limits.{next_fails, later}
use recommendation_engine.Pipeline.{Item}
use recommendation_engine.Ranking.{Match}
use recommendation_engine.Ranking.Feedback.{ItemStats, Weights}
use recommendation_engine.Ranking.Format.{Ranked}
use recommendation_engine.Ranking.Hybrid.{KeywordMatch}
use recommendation_engine.Ranking.Llm.{Candidate, Fallback, Reply, Verdicts}
use recommendation_engine.Ranking.Variant.{RankingVariant}
use recommendation_engine.Personal.{Taste, UserFeedback}
use recommendation_engine.Usage.{Usage, no_usage, add_usage, Row}

pub data QueryType : Type 0 where
  text item_id profile : QueryType

pub data CacheStatus : Type 0 where
  hit miss bypass : CacheStatus

-- The exceptions of the embedder and of the vector store.
pub data UpstreamError : Type 0 where
  store_timeout store_unavailable embedding_unavailable : UpstreamError
  query_rejected input_rejected : String → UpstreamError
  -- any other exception, which is not mapped
  unexpected : UpstreamError

pub data ApiError : Type 0 where
  -- 503, with what failed
  unavailable : UpstreamError → ApiError
  -- 400
  bad_query bad_text : String → ApiError
  bad_filters : Option String → List (String × FieldError) → ApiError
  empty_profile : ApiError
  -- 404 and 409
  not_found not_embedded : String → ApiError
  -- an exception that nothing handles
  internal : ApiError

-- `_upstream_errors` and `_unavailable`
pub api_error : UpstreamError → ApiError
api_error (query_rejected m) = ApiError.bad_query m
api_error (input_rejected m) = ApiError.bad_text m
api_error unexpected = ApiError.internal
api_error e = ApiError.unavailable e

-- A call of a service: what it spent on embeddings, and what it returned or raised.
abbrev pub Call : Type 0 → Type 0
Call A = Usage × Result UpstreamError A

-- RankingConfig
pub record Config (N : Type 0) : Type 0 where
  pub enabled : Bool
  pub weights : Weights N
  pub personalization : N
  pub keyword : N
  pub llm_rerank : Bool
  pub llm_candidates : ℕ
  pub control_share : N

-- The workspace, with what the engine reads of its `domain_config`.
pub record Workspace (N : Type 0) : Type 0 where
  pub id : String
  pub filter_fields : List String
  pub ranking : Config N
  pub thresholds : N × N × N

-- `query_input`
pub data QueryInput (N : Type 0) : Type 0 where
  query external_id : String → QueryInput N
  profile : Dict (Value N) → QueryInput N

-- What the cache key is computed from.
pub record KeyParts (N : Type 0) : Type 0 where
  pub query_type : QueryType
  pub variant : RankingVariant
  pub ranking : Config N
  pub user : Option String
  pub query_input : QueryInput N
  pub filters : Dict (Condition N)
  pub top_k : ℕ

-- SearchPlan
pub record SearchPlan (N : Type 0) : Type 0 where
  pub taste : Option (Taste N)
  pub keyword : N

-- What the vector store looks for the neighbours of.
pub data Near (N : Type 0) : Type 0 where
  vector : List N → Near N
  stored : String → Near N

-- The LLM re-ranker: whether its client is configured, the key of a prompt in its cache, the model's
-- reply, and the clipping of its reasons.
pub record Llm : Type 0 where
  pub configured : Bool
  pub key : String → List Candidate → String
  pub reply : String → List Candidate → Reply
  pub clip : String → String

-- What a request meets: the services, the tables as they are while it runs, and its luck.
pub record World (N : Type 0) : Type 0 where
  pub now : ℕ
  pub day : ℕ
  -- the embedder and the vector store, for one workspace
  pub embed_text : String → Call (List N)
  pub embed_batch : List String → Call (List (List N))
  pub search_index : Near N → ℕ → Dict (Condition N) → Call (List (Match N))
  pub fetch_vectors : List String → Call (Dict (List N))
  -- `KeywordSearch.search`
  pub search_keywords : String → Dict (Condition N) → ℕ → List (KeywordMatch N)
  -- tables
  pub items : List (Item (Value N))
  pub feedback : List UserFeedback
  pub stats : Dict (ItemStats N)
  -- `ITEM_STATS_WINDOW_DAYS`, in the time's unit
  pub stats_window : ℕ
  pub usage_fails : Bool
  pub embedding_model : String
  -- the TextBuilder
  pub embedding_text : Dict (Value N) → String
  pub profile_text : Dict (Value N) → String
  pub llm : Option Llm
  -- of the experiment: the hash of a user id, and a fresh random number
  pub hash_user : String → N
  pub random : N
  -- `hashlib.sha256(json.dumps(...))`
  pub digest : KeyParts N → String
  pub round4 : N → N

-- The entries with the time they expire at; `connected` is `redis is not None`. A call of Redis
-- fails as `outages` says.
pub record Cache (N : Type 0) : Type 0 where
  pub connected : Bool
  pub entries : Dict (ℕ × List (Ranked N))
  pub outages : List Bool

pub record State (N : Type 0) : Type 0 where
  pub cache : Cache N
  pub token_usage : List Row
  -- the LLM re-ranker's cache
  pub verdicts : Dict Verdicts

-- `Recommendation`; the cost in dollars is left to the price list.
pub record Recommendation (N : Type 0) : Type 0 where
  pub query_type : QueryType
  pub query_input : QueryInput N
  pub filters : Dict (Value N)
  pub results : List (Ranked N)
  pub cache_status : CacheStatus
  pub embedding_tokens : ℕ
  pub ranking_variant : RankingVariant
  pub personalized : Bool
  pub rerank_tokens : ℕ
  pub rerank_fallback : Option Fallback
  pub rerank_cached : Bool
