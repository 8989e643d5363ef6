-- ===== src/Tests/Search.antt =====
-- Examples for the search: usage, keyword search, personalization and the query engine.
use recommendation_engine.Base.{
  ℕ, ◌≤◌, ◌≡◌, refl, inl, inr, String, Bool, true, false, none, some, List, [], ◌∷◌, arith, str_eq,
  leb, All, Bool-cases, if◌then◌else◌, length,
}
use recommendation_engine.Base.Number.{nat_num}
use recommendation_engine.Base.Dict.{Dict}
use recommendation_engine.Base.Result.{ok}
use recommendation_engine.Filter.{Value, Scalar, scalar, Condition}
use recommendation_engine.Pipeline.{Item, Status}
use recommendation_engine.Ranking.{Match, external_id}
use recommendation_engine.Usage.{Usage, Row, Source}
use recommendation_engine.Keywords.{in_python, search}
use recommendation_engine.Keywords.Laws.{IsFound, search-IsFound}
use recommendation_engine.Personal.{UserFeedback, FeedbackType, liked_items}
use recommendation_engine.Personal.Laws.{IsHistory, liked_items-IsHistory}
use recommendation_engine.Engine.{Call, Config, Workspace, World, State, Near}
use recommendation_engine.Engine.Search.{returned, embedded_item}
use recommendation_engine.Engine.{SearchPlan}
use recommendation_engine.Engine.Search.{search_text, history}
use recommendation_engine.Engine.Stage.{llm_candidates}
use recommendation_engine.Ranking.Variant.{assign_variant}
use recommendation_engine.Engine.Answer.Kept.{Keeps, recommend-Keeps}
use recommendation_engine.Engine.Answer.Size.{Sized, recommend-Sized}
use recommendation_engine.Engine.Answer.Spent.{IsHonest, Charges, recommend-Charges}
use recommendation_engine.Engine.Answer.Other.{Agrees, LeavesOut, recommend_by_item_id-LeavesOut}
use recommendation_engine.Engine.Answer.Repeat.{Repeats, recommend-Repeats}
use recommendation_engine.Engine.Control.{st, nearest, searched-control}
use recommendation_engine.Engine.Batch.{BatchQuery, shares}
use recommendation_engine.Engine.Batch.Shares.{sum, sum-shares}
use recommendation_engine.Engine.Answer.{
  Request, text_query, recommend, recommend_by_item_id, settle, searched, key_of,
}

abbrev row : Row
row = record {
  tenant = "acme";
  day = 3;
  source = Source.query;
  model = "small";
  tokens = 5;
  api_calls = 1;
  texts = 1;
  cache_hits = 0;
}

abbrev used : Usage
used = record { tokens = 7; api_calls = 1; texts = 2; cache_hits = 0; model = none }

abbrev item : String → String → Item (Value ℕ)
item name text = record {
  id = name;
  tenant_id = "acme";
  batch_id = none;
  external_id = name;
  raw_data = ("title", scalar (Scalar.text text)) ∷ [];
  embedding_status = Status.done;
  pinecone_id = some name;
  item_metadata = [];
  search_text = some text;
  created_at = 0;
  updated_at = 0;
}

abbrev table : List (Item (Value ℕ))
table = item "a" "python" ∷ item "b" "rust" ∷ []

-- One word to a text.
abbrev one_word : String → List String
one_word t = if str_eq t "" then [] else t ∷ []

abbrev any_order : String → String → Bool
any_order a b = true

search-IsFound_example :
    let found = search one_word (in_python one_word any_order "acme" table) "python" [] 5 in
    (length found ≤ 5) × All (IsFound one_word "acme" table "python" []) found
search-IsFound_example = search-IsFound one_word any_order "acme" table "python" [] 5

abbrev likes : List UserFeedback
likes =
    record {
      tenant_id = "acme";
      external_item_id = "b";
      feedback_type = FeedbackType.click;
      end_user_id = some "eve";
      created_at = 9;
    }
    ∷ []

liked_items-IsHistory_example :
    All (IsHistory "acme" "eve" 5 likes table) (liked_items 5 10 "acme" "eve" likes table)
    × (length (liked_items 5 10 "acme" "eve" likes table) ≤ 20)
liked_items-IsHistory_example = liked_items-IsHistory 5 10 "acme" "eve" likes table

abbrev config : Config ℕ
config = record {
  enabled = true;
  weights = record { engagement = 1; conversion = 1; negative = 1; popularity = 0 };
  personalization = 0;
  keyword = 0;
  llm_rerank = false;
  llm_candidates = 10;
  control_share = 0;
}

abbrev shop : Workspace ℕ
shop = record { id = "acme"; filter_fields = []; ranking = config; thresholds = (9, 5, 2) }

abbrev near : String → ℕ → Match ℕ
near id score = record {
  id = id;
  score = score;
  external = some id;
  metadata = [];
  retrieval = none;
  ranking = none;
  position = none;
  llm_score = none;
  llm_reason = none;
}

abbrev embedded : String → Call (List ℕ)
embedded t = (used, ok (1 ∷ []))

abbrev embedded_all : List String → List (List ℕ)
embedded_all [] = []
embedded_all (t ∷ ts) = (1 ∷ []) ∷ embedded_all ts

abbrev indexed : Near ℕ → ℕ → Dict (Condition ℕ) → Call (List (Match ℕ))
indexed n k f = returned (near "a" 8 ∷ near "b" 6 ∷ [])

abbrev world : World ℕ
world = record {
  now = 100;
  day = 3;
  embed_text = embedded;
  embed_batch = λ ts. (used, ok (embedded_all ts));
  search_index = indexed;
  fetch_vectors = λ ids. returned [];
  search_keywords = λ t f k. [];
  items = table;
  feedback = likes;
  stats = [];
  stats_window = 30;
  usage_fails = false;
  embedding_model = "small";
  embedding_text = λ d. "text";
  profile_text = λ d. "profile";
  llm = none;
  hash_user = λ u. 1;
  random = 1;
  digest = λ parts. "digest";
  round4 = λ n. n;
}

abbrev asked : Request ℕ
asked = record {
  top_k = 1;
  filters = none;
  include_raw_data = false;
  user_id = none;
  ranking = none;
  use_cache = true;
}

abbrev start : State ℕ
start = record {
  cache = record { connected = true; entries = []; outages = [] };
  token_usage = row ∷ [];
  verdicts = [];
}

-- A minute later, with another index.
abbrev later_world : World ℕ
later_world = record world { now = 160; search_index = λ n k f. returned [] }

recommend-Keeps_example :
    Keeps world shop
      (text_query world shop "python")
      asked
      start
      (recommend world shop (text_query world shop "python") asked start)
recommend-Keeps_example = recommend-Keeps world shop (text_query world shop "python") asked start

recommend-Sized_example :
    Sized world shop
      (text_query world shop "python")
      asked
      start
      (recommend world shop (text_query world shop "python") asked start)
recommend-Sized_example = recommend-Sized world shop (text_query world shop "python") asked start

honest_fetch : (ids : List String) → IsHonest (world.fetch_vectors ids)
honest_fetch ids e = refl

honest_search :
    (f : Dict (Condition ℕ)) (k : ℕ) (plan : SearchPlan ℕ)
    → IsHonest ((text_query world shop "python").search f k plan)
unfolding text_query search_text
honest_search f k plan e = elim (Bool-cases (leb plan.keyword 0)) [
  | inl h ↦ absurd (ground (arith, h, e))
  | inr h ↦ absurd (ground (arith, h, e))
]

recommend-Charges_example :
    Charges world shop
      (text_query world shop "python")
      asked
      start
      refl
      honest_fetch
      honest_search
      (recommend world shop (text_query world shop "python") asked start)
recommend-Charges_example =
    recommend-Charges world shop (text_query world shop "python") asked start refl honest_fetch
      honest_search

agreeing : Agrees world shop "a" "a"
unfolding external_id
agreeing n k f = ((λ e. refl), ((λ e. e), tt))

recommend_by_item_id-LeavesOut_example :
    LeavesOut world shop "a" "a" agreeing asked start
      (recommend_by_item_id world shop "a" asked start)
recommend_by_item_id-LeavesOut_example =
    recommend_by_item_id-LeavesOut world shop "a" "a" agreeing asked start
      (unfold embedded_item in refl)

abbrev controlled : Workspace ℕ
controlled = record shop { ranking = record config { control_share = 1 } }

searched-control_example :
    ((st world controlled "python" asked []).history ≡ [])
    × ((st world controlled "python" asked []).llm_n ≡ 0)
    × ((searched world controlled
          (text_query world controlled "python")
          asked
          (st world controlled "python" asked [])).1
        ≡ (nearest world controlled "python" 1 []).1)
searched-control_example =
    searched-control world controlled "python" asked []
      (unfold settle in unfold assign_variant in refl)

sum-shares_example :
    (sum (shares 11 3) ≡ 11)
    × (length (shares 11 3) ≡ 3)
    × All (λ x. (3 ≤ x) × (x ≤ 4)) (shares 11 3)
sum-shares_example = sum-shares 11 3 (omega arith)

abbrev batch : List (BatchQuery ℕ)
batch =
    record { id = "q1"; query = "python"; filters = none }
    ∷ record { id = "q2"; query = "rust"; filters = none }
    ∷ []

same_key :
    (f : Dict (Condition ℕ))
    → key_of later_world shop
        (text_query later_world shop "python")
        asked
        (settle later_world shop (text_query later_world shop "python") asked f)
      ≡ key_of world shop
          (text_query world shop "python")
          asked
          (settle world shop (text_query world shop "python") asked f)
unfolding text_query key_of settle history llm_candidates
same_key f = refl

recommend-Repeats_example :
    Repeats world later_world shop
      (text_query world shop "python")
      (text_query later_world shop "python")
      asked
      start
      refl
      refl
      (omega arith)
      same_key
      (recommend world shop (text_query world shop "python") asked start)
recommend-Repeats_example =
    recommend-Repeats world later_world shop (text_query world shop "python")
      (text_query later_world shop "python") asked start refl refl (omega arith) same_key
