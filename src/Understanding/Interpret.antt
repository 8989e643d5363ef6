-- ===== src/Understanding/Interpret.antt =====
-- What `interpret` promises its caller, and the one way in which understood filters are refused.
use text.Mathlib.TextPositions.{eq_refl}
use recommendation_engine.Base.{
  String, ◌≡◌, refl, ◌⊎◌, inl, inr, Bool, true, false, Option, none, some, List, [], ◌∷◌,
}
use recommendation_engine.Base.Number.{Num, lt as less}
use recommendation_engine.Base.Dict.{Dict, member, lookup}
use recommendation_engine.Base.Result.{Result, ok, err, Result-cases}
use recommendation_engine.Filter.{
  num, Value, scalar, dict, end, field, Condition, build_pinecone_filter,
}
use recommendation_engine.Filter.Match.{between}
use recommendation_engine.Understanding.{
  Kind, FieldProfile, RawFilter, raw_question, Answer, AskError, Reply, Interpretation, checked,
  use_answer, after_ask, interpret, merge, merge_with, add_number, by_kind, Note, to_filters,
  add_filter,
}

module _ {N : Type 0} ⦃number : Num N⦄ (strip casefold : String → String) where
  -- What a caller may rely on: the filters build, and a fallback means the question as it stands.
  abbrev pub IsUsable : List String → String → Interpretation N → Type 0
  IsUsable allowed question i =
      ((r : Dict (Condition N)) × (build_pinecone_filter (some i.filters) allowed ≡ ok r))
      × (i.question ≡ question)
      × ((i.fallback ≡ none) ⊎ (i.search_text ≡ question) × (i.filters ≡ []))

  checked-builds :
      (allowed : List String) (filters : Dict (Value N))
      → (r : Dict (Condition N)) × (build_pinecone_filter (some (checked allowed filters).0) allowed
          ≡ ok r)
  unfolding checked
  checked-builds allowed filters =
      elim (Result-cases (build_pinecone_filter (some filters) allowed)) [
        | inl (r, e) ↦ (r, rw (e, checked) e)
        | inr (p, e) ↦ ([], rw (e, checked) (unfold build_pinecone_filter in refl))
      ]

  use_answer-IsUsable :
      (allowed : List String) (profiles : Dict FieldProfile) (answer : Answer N)
      (i : Interpretation N)
      → i.fallback ≡ none
      → IsUsable allowed i.question (use_answer strip casefold profiles allowed answer i)
  unfolding use_answer
  use_answer-IsUsable allowed profiles answer i e =
      (checked-builds allowed (to_filters strip casefold profiles answer.filters).0, refl, inl e)

  after_ask-IsUsable :
      (allowed : List String) (profiles : Dict FieldProfile) (r : Result AskError (Answer N))
      (i : Interpretation N)
      → i.fallback ≡ none
      → i.search_text ≡ i.question
      → i.filters ≡ []
      → IsUsable allowed i.question (after_ask strip casefold profiles allowed r i).0
  unfolding after_ask
  after_ask-IsUsable allowed profiles (ok answer) i e s f =
      use_answer-IsUsable allowed profiles answer i e
  after_ask-IsUsable allowed profiles (err x) i e s f =
      (([], rw f (unfold build_pinecone_filter in refl)), refl, inr (s, f))

  -- `interpret` returns a usable interpretation on every path: with no client, from the cache, from
  -- an answer, and after a timeout or any other failure of the call.
  pub interpret-IsUsable :
      (configured : Bool) (question : String) (profiles : Dict FieldProfile) (allowed : List String)
      (cached : Option (Answer N)) (reply : Reply N)
      → IsUsable allowed question
          (interpret strip casefold configured question profiles allowed cached reply).0
  unfolding interpret
  interpret-IsUsable false question profiles allowed cached reply =
      (([], (unfold build_pinecone_filter in refl)), refl, inr (refl, refl))
  interpret-IsUsable true question profiles allowed (some answer) reply =
      use_answer-IsUsable allowed profiles answer
        (record (raw_question strip casefold question) { cached = true }) refl
  interpret-IsUsable true question profiles allowed none reply =
      after_ask-IsUsable allowed profiles reply.answer _ refl refl refl

  -- Two range conditions of a chat model's answer.
  abbrev pub bounds : String → N → N → List (RawFilter N)
  bounds name a b =
      record { name = name; op = "gte"; text_values = []; number = scalar (num a) }
      ∷ record { name = name; op = "lte"; text_values = []; number = scalar (num b) }
      ∷ []

  add_filter-number :
      (profiles : Dict FieldProfile) (raw : RawFilter N) (acc : Dict (Value N) × List Note)
      {p : FieldProfile}
      → lookup raw.name profiles ≡ some p
      → p.kind ≡ Kind.number
      → add_filter strip casefold profiles raw acc ≡ add_number raw acc
  unfolding add_filter by_kind
  add_filter-number profiles raw acc {p} found kind = rw (found, add_filter) (rw (kind, by_kind))

  merge-range :
      (name : String) (a b : N)
      → merge name
          (dict (field "lte" (scalar (num b)) end))
          (merge name (dict (field "gte" (scalar (num a)) end)) ([], []))
        ≡ ((name, between a b) ∷ [], [])
  unfolding merge
  merge-range name a b = rw (eq_refl name, merge_with) (rw (eq_refl name))

  -- Two bounds on one number field are combined into one range, without a note.
  pub to_filters-bounds :
      (profiles : Dict FieldProfile) (name : String) (a b : N) {p : FieldProfile}
      → lookup name profiles ≡ some p
      → p.kind ≡ Kind.number
      → to_filters strip casefold profiles (bounds name a b) ≡ ((name, between a b) ∷ [], [])
  unfolding to_filters
  to_filters-bounds profiles name a b found kind =
      rw
        (
          add_filter-number profiles
              (record { name = name; op = "gte"; text_values = []; number = scalar (num a) })
              ([], []) found kind,
          add_filter-number profiles
              (record { name = name; op = "lte"; text_values = []; number = scalar (num b) }) _
              found kind,
        )
        (unfold add_number in merge-range name a b)

  checked-reversed :
      (name : String) (allowed : List String) (a b : N)
      → member name allowed ≡ true
      → less b a ≡ true
      → checked allowed ((name, between a b) ∷ []) ≡ ([], true)
  unfolding checked build_pinecone_filter
  checked-reversed name allowed a b ok_name rev = rw (ok_name, checked) (rw (rev, checked))

  -- A cached answer whose filters are a lower bound and then a smaller upper bound on one number
  -- field, which is a filter field, and nothing else, loses its filters: `interpret` reports them
  -- refused and has no note on an ignored condition.
  interpret-drops_reversed_bounds :
      (question words name : String) (profiles : Dict FieldProfile) (allowed : List String)
      (a b : N) (reply : Reply N) {p : FieldProfile}
      → lookup name profiles ≡ some p
      → p.kind ≡ Kind.number
      → member name allowed ≡ true
      → less b a ≡ true
      → let i =
          (interpret strip casefold true question profiles allowed
            (some (record { search_text = words; filters = bounds name a b }))
            reply).0 in
        (i.filters ≡ []) × (i.rejected ≡ true) × (i.ignored ≡ [])
  unfolding interpret
  interpret-drops_reversed_bounds question words name profiles allowed a b reply found kind ok_name
        rev =
      rw
        (
          to_filters-bounds profiles name a b found kind,
          checked-reversed name allowed a b ok_name rev,
        )
        (refl, refl, refl)
