-- ===== src/Engine/Batch/Answers.antt =====
-- A batch is answered as a whole or not at all.
use recommendation_engine.Base.{ℕ, ◌≡◌, String, Option, none, some, List, All, ◌⊎◌}
use recommendation_engine.Base.Number.{Num}
use recommendation_engine.Base.Dict.{Dict, lookup, Distinct, Entries}
use recommendation_engine.Base.Result.{Result}
use recommendation_engine.Filter.{Condition}
use recommendation_engine.Engine.{QueryInput, hit, miss, Workspace, World, State, Recommendation}
use recommendation_engine.Engine.Answer.{filters_or}
use recommendation_engine.Engine.Results.{Held}
use recommendation_engine.Engine.Batch.{BatchQuery, BatchSettled, Fresh, misses, batch_key}
use recommendation_engine.Engine.Batch.Hits.{query_ids, FromCache}
use recommendation_engine.Engine.Batch.Run.{batch_result, batch_settled}
use recommendation_engine.Engine.Batch.Run.Made.{IsMade, Made}

module _ {N : Type 0} where
  -- The batch has an answer to this query, by its id.
  abbrev pub IsAnswered :
      (BatchQuery N → Recommendation N → Type 0) → Dict (Recommendation N) → BatchQuery N → Type 0
  IsAnswered P recs q = (r : Recommendation N) × (lookup q.id recs ≡ some r) × P q r

module _ {N : Type 0} ⦃num : Num N⦄ (w : World N) (tenant : Workspace N) where
  -- An answer to this query: from the cache, what it held under the query's key, or made for it.
  abbrev pub IsAnswerTo :
      ℕ
      → Option String
      → State N
      → List (BatchQuery N)
      → BatchSettled N
      → BatchQuery N
      → Recommendation N
      → Type 0
  IsAnswerTo top_k user s qs st q r =
      (r.query_input ≡ QueryInput.query q.query)
      × (r.filters ≡ filters_or q.filters)
      × ((r.cache_status ≡ hit) × Held w.now (batch_key w tenant user top_k st q) s.cache r.results
          ⊎ (r.cache_status ≡ miss)
            × IsMade w tenant top_k st s.verdicts (misses st.hits qs) q r.results)

  module _ (P : BatchQuery N → Recommendation N → Type 0) (st : BatchSettled N)
      (fresh : Fresh N) where
    abbrev Holds : BatchQuery N → Option (Recommendation N) → Type 0
    Holds q none = Unit
    Holds q (some r) = P q r

    abbrev AllHold : List (BatchQuery N) → Type 0
    AllHold qs = All (λ q. Holds q (batch_result w tenant st fresh q)) qs

  module _ (top_k : ℕ) (user : Option String) (s : State N) (qs : List (BatchQuery N))
      (st : BatchSettled N) (distinct_ids : Distinct (query_ids qs))
      (from_cache : Entries
        (FromCache w.now (batch_key w tenant user top_k st) s.cache qs)
        st.hits) where
    abbrev Answer : BatchQuery N → Recommendation N → Type 0
    Answer = IsAnswerTo top_k user s qs st

  -- What the batch settles before its search, for the filters of its queries.
  abbrev pub settled_for :
      ℕ → Option String → List (BatchQuery N) → State N → Dict (Dict (Condition N)) → BatchSettled N
  settled_for top_k user qs s f = (batch_settled w tenant top_k user f qs s.cache).0
