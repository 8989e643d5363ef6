-- ===== src/Understanding.antt =====
-- app/services/recommendation/query_understanding.py: the chat model's reading of a question,
-- checked and turned into filters. `strip` and `casefold` are Python's methods of those names.

pub mod Interpret
pub mod Safe
use recommendation_engine.Base.{
  ℕ, String, Bool, true, false, not, ◌&&◌, ◌||◌, Option, none, some, is_some, List, [], ◌∷◌, ◌++◌,
  str_eq, any_of, keep, if◌then◌else◌,
}
use recommendation_engine.Base.Number.{Num}
use recommendation_engine.Base.Dict.{Dict, member, lookup, put, keys}
use recommendation_engine.Base.Result.{Result, ok, err}
use recommendation_engine.Filter.{
  Scalar, Value, null, scalar, list, dict, Items, nil, cons, Fields, end, field, entries,
  build_pinecone_filter,
}

pub data Kind : Type 0 where
  text number : Kind

-- What a filter field holds across the workspace's items. (`minimum` and `maximum` are only shown
-- to the chat model.)
pub record FieldProfile : Type 0 where
  pub kind : Kind
  pub values : List String

-- One filter of the model's answer, which its JSON schema constrains.
pub record RawFilter (N : Type 0) : Type 0 where
  pub name : String
  pub op : String
  pub text_values : List String
  pub number : Value N

-- Why a condition was dropped.
pub data Note : Type 0 where
  not_a_filter_field needs_number_range is_text more_than_one : String → Note
  no_items : String → String → Note

abbrev pub text_ops : List String
text_ops = "eq" ∷ "ne" ∷ "in" ∷ "nin" ∷ []

abbrev pub range_ops : List String
range_ops = "gt" ∷ "gte" ∷ "lt" ∷ "lte" ∷ []

-- `list(dict.fromkeys(values))`
dedupe : List String → List String
dedupe [] = []
dedupe (v ∷ vs) = v ∷ keep (λ w. not (str_eq v w)) (dedupe vs)

module _ {N : Type 0} where
  pub is_number : Value N → Bool
  is_number (scalar (Scalar.num _)) = true
  is_number _ = false

  abbrev pub pack : Dict (Value N) → Fields N
  pack [] = end
  pack ((k, v) ∷ d) = field k v (pack d)

  abbrev pub texts : List String → Items N
  texts [] = nil
  texts (s ∷ ss) = cons (scalar (Scalar.text s)) (texts ss)

  -- `current.update(condition)`
  pub update : Dict (Value N) → Dict (Value N) → Dict (Value N)
  update current [] = current
  update current ((k, v) ∷ d) = update (put k v current) d

  combine : String → Value N → Value N → Dict (Value N) × List Note → Dict (Value N) × List Note
  unfolding update
  combine name (dict current) (dict condition) (filters, ignored) =
      if any_of (λ k. member k (keys (entries current))) (keys (entries condition))
      then (filters, ignored ++ more_than_one name ∷ [])
      else (put name (dict (pack (update (entries current) (entries condition)))) filters, ignored)
  combine name _ _ (filters, ignored) = (filters, ignored ++ more_than_one name ∷ [])

  merge_with :
      Option (Value N) → String → Value N → Dict (Value N) × List Note → Dict (Value N) × List Note
  unfolding combine
  merge_with none name condition (filters, ignored) = (put name condition filters, ignored)
  merge_with (some current) name condition acc = combine name current condition acc

  -- `_merge`
  pub merge : String → Value N → Dict (Value N) × List Note → Dict (Value N) × List Note
  unfolding merge_with
  merge name condition acc = merge_with (lookup name acc.0) name condition acc

  -- A condition on a number field.
  pub add_number : RawFilter N → Dict (Value N) × List Note → Dict (Value N) × List Note
  unfolding merge is_number
  add_number raw acc =
      if is_number raw.number && (member raw.op range_ops || str_eq raw.op "eq")
      then merge raw.name
          (if str_eq raw.op "eq" then raw.number else dict (field raw.op raw.number end)) acc
      else (acc.0, acc.1 ++ needs_number_range raw.name ∷ [])

  -- `values[0] if len(values) == 1 else values`, for `values` not empty
  abbrev one_or_list : String → List String → Value N
  one_or_list v [] = scalar (Scalar.text v)
  one_or_list v (w ∷ vs) = list (texts (v ∷ w ∷ vs))

  add_values : RawFilter N → List String → Dict (Value N) × List Note → Dict (Value N) × List Note
  unfolding merge
  add_values raw [] acc = acc
  add_values raw (v ∷ vs) acc =
      merge raw.name
        (if str_eq raw.op "eq" || str_eq raw.op "in"
          then one_or_list v vs
          else dict (field "nin" (list (texts (v ∷ vs))) end))
        acc

module _ (strip casefold : String → String) where
  -- `{v.casefold(): v for v in profile.values}`
  known_values : List String → Dict String → Dict String
  known_values [] known = known
  known_values (v ∷ vs) known = known_values vs (put (casefold v) v known)

  -- One wanted text: the value that the workspace has for it, or a note.
  pub match_text : String → Dict String → String → List String × List Note → List String × List Note
  match_text name known wanted (values, ignored) = elim (lookup (casefold (strip wanted)) known) [
    | some v ↦ (values ++ v ∷ [], ignored)
    | none ↦ elim known [
      | [] ↦ (values ++ strip wanted ∷ [], ignored)
      | _ ∷ _ ↦ (values, ignored ++ no_items name wanted ∷ [])
    ]
  ]

  match_texts :
      String → Dict String → List String → List String × List Note → List String × List Note
  unfolding match_text
  match_texts name known [] acc = acc
  match_texts name known (t ∷ ts) acc = match_texts name known ts (match_text name known t acc)

module _ {N : Type 0} (strip casefold : String → String) where
  -- A condition on a text field.
  pub add_text :
      FieldProfile → RawFilter N → Dict (Value N) × List Note → Dict (Value N) × List Note
  unfolding add_values match_texts known_values dedupe
  add_text profile raw (filters, ignored) =
      if member raw.op text_ops
      then (let (values, notes) =
            match_texts strip casefold raw.name (known_values strip casefold profile.values [])
              raw.text_values ([], ignored) in
          add_values raw (dedupe (keep (λ v. not (str_eq v "")) values)) (filters, notes))
      else (filters, ignored ++ is_text raw.name ∷ [])

  by_kind :
      Kind → FieldProfile → RawFilter N → Dict (Value N) × List Note → Dict (Value N) × List Note
  unfolding add_number add_text
  by_kind Kind.number profile raw acc = add_number raw acc
  by_kind Kind.text profile raw acc = add_text profile raw acc

  -- The body of the loop of `to_filters`.
  pub add_filter :
      Dict FieldProfile → RawFilter N → Dict (Value N) × List Note → Dict (Value N) × List Note
  unfolding by_kind
  add_filter profiles raw acc = elim (lookup raw.name profiles) [
    | none ↦ (acc.0, acc.1 ++ not_a_filter_field raw.name ∷ [])
    | some profile ↦ by_kind profile.kind profile raw acc
  ]

  pub to_filters_from :
      Dict FieldProfile
      → List (RawFilter N)
      → Dict (Value N) × List Note
      → Dict (Value N) × List Note
  unfolding add_filter
  to_filters_from profiles [] acc = acc
  to_filters_from profiles (raw ∷ raws) acc =
      to_filters_from profiles raws (add_filter profiles raw acc)

  unfoldable pub to_filters : Dict FieldProfile → List (RawFilter N) → Dict (Value N) × List Note
  unfolding to_filters_from
  to_filters profiles raws = to_filters_from profiles raws ([], [])

-- What the chat model answers.
pub record Answer (N : Type 0) : Type 0 where
  pub search_text : String
  pub filters : List (RawFilter N)

-- How a call of the chat model ends: `TimeoutError`, or any other exception.
pub data AskError : Type 0 where
  timeout error : AskError

pub data Fallback : Type 0 where
  not_configured timeout error : Fallback

-- The tokens of a call are recorded also where the answer is then refused.
pub record Reply (N : Type 0) : Type 0 where
  pub prompt_tokens : ℕ
  pub completion_tokens : ℕ
  pub answer : Result AskError (Answer N)

pub record Interpretation (N : Type 0) : Type 0 where
  pub question : String
  pub search_text : String
  pub filters : Dict (Value N)
  pub ignored : List Note
  pub rejected : Bool
  pub prompt_tokens : ℕ
  pub completion_tokens : ℕ
  pub cached : Bool
  pub fallback : Option Fallback

abbrev fallback_of : AskError → Fallback
fallback_of AskError.timeout = Fallback.timeout
fallback_of AskError.error = Fallback.error

module _ {N : Type 0} ⦃number : Num N⦄ where
  -- The filters that `interpret` keeps, and whether they were refused ("filters could not be
  -- applied").
  unfoldable pub checked : List String → Dict (Value N) → Dict (Value N) × Bool
  checked allowed filters = elim (build_pinecone_filter (some filters) allowed) [
    | ok _ ↦ (filters, false)
    | err _ ↦ ([], true)
  ]

module _ {N : Type 0} ⦃number : Num N⦄ (strip casefold : String → String) where
  -- `Interpretation(question, question)`
  abbrev raw_question : String → Interpretation N
  raw_question question = record {
    question = question;
    search_text = question;
    filters = [];
    ignored = [];
    rejected = false;
    prompt_tokens = 0;
    completion_tokens = 0;
    cached = false;
    fallback = none;
  }

  pub use_answer : Dict FieldProfile → List String → Answer N → Interpretation N → Interpretation N
  use_answer profiles allowed answer result =
      let (filters, ignored) = to_filters strip casefold profiles answer.filters in
      let (kept, rejected) = checked allowed filters in
      let words = strip answer.search_text in
      record result {
        search_text = if str_eq words "" then result.question else words;
        filters = kept;
        ignored = ignored;
        rejected = rejected;
      }

  after_ask :
      Dict FieldProfile
      → List String
      → Result AskError (Answer N)
      → Interpretation N
      → Interpretation N × Option (Answer N)
  unfolding use_answer
  after_ask profiles allowed (ok answer) result =
      (use_answer profiles allowed answer result, some answer)
  after_ask profiles allowed (err e) result =
      (record result { fallback = some (fallback_of e) }, none)

  interpret_with :
      Dict FieldProfile
      → List String
      → Option (Answer N)
      → Reply N
      → Interpretation N
      → Interpretation N × Option (Answer N)
  unfolding after_ask
  interpret_with profiles allowed (some answer) reply result =
      (use_answer profiles allowed answer (record result { cached = true }), none)
  interpret_with profiles allowed none reply result =
      after_ask profiles allowed reply.answer (record result {
        prompt_tokens = reply.prompt_tokens;
        completion_tokens = reply.completion_tokens;
      })

  -- `interpret`, given what the cache holds for the prompt and what the chat model would reply.
  -- Beside the interpretation comes the answer that is written to the cache, if any.
  unfoldable pub interpret :
      Bool
      → String
      → Dict FieldProfile
      → List String
      → Option (Answer N)
      → Reply N
      → Interpretation N × Option (Answer N)
  unfolding interpret_with
  interpret configured question profiles allowed cached reply =
      if configured
      then interpret_with profiles allowed cached reply (raw_question question)
      else (record (raw_question question) { fallback = some Fallback.not_configured }, none)
