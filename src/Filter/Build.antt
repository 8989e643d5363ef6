-- ===== src/Filter/Build.antt =====
-- `build_pinecone_filter` against a description of it that looks at one field at a time.
use mathlib.Core.List.{append-nil, append_assoc}
use recommendation_engine.Base.{
  String, ◌≡◌, ◌≢◌, refl, sym, ◌∙◌, ap, ◌⊎◌, inl, inr, Bool, true, false, Option, none, some, List,
  [], ◌∷◌, ◌++◌, arith, str_eq, eq_iff, Bool-cases, All, All-append, or_else, if◌then◌else◌,
}
use recommendation_engine.Base.Number.{Num}
use recommendation_engine.Base.Dict.{Dict, member, lookup, keys, Distinct, Entries, lookup-put}
use recommendation_engine.Base.Result.{Result, ok, err, Result-cases}
use recommendation_engine.Filter.Good.{Good, condition_of-Good}
use recommendation_engine.Filter.{
  Value, Condition, ConditionError, FieldError, unknown_filter, empty_range, invalid_filter,
  condition_of, collect, add_field, build_from, finish, build_pinecone_filter,
}

module _ {N : Type 0} ⦃number : Num N⦄ (allowed : List String) where
  -- What is wrong with one field of a request, if anything.
  problem : String → Value N → List (String × FieldError)
  problem name v =
      if member name allowed
      then elim (condition_of v) [ ok _ ↦ [] | err e ↦ (name, invalid_filter e) ∷ [] ]
      else (name, unknown_filter) ∷ []

  -- What is wrong with the fields of a request, in the order of the request.
  unfoldable pub problems : Dict (Value N) → List (String × FieldError)
  unfolding problem
  problems [] = []
  problems ((name, v) ∷ d) = problem name v ++ problems d

  to_condition : Bool → Result ConditionError (Condition N) → Option (Condition N)
  to_condition true (ok c) = some c
  to_condition _ _ = none

  of_field : String → Option (Value N) → Option (Condition N)
  unfolding to_condition
  of_field name none = none
  of_field name (some v) = to_condition (member name allowed) (condition_of v)

  -- The condition that a field of a request gets: that of its value, if the field is allowed.
  unfoldable pub expected : Dict (Value N) → String → Option (Condition N)
  unfolding of_field
  expected d name = of_field name (lookup name d)

  module _ (name : String) (v : Value N)
      (acc : List (String × FieldError) × Dict (Condition N)) where
    errors-add_field : (add_field allowed name v acc).0 ≡ acc.0 ++ problem name v
    unfolding add_field problem collect
    errors-add_field = elim (Bool-cases (member name allowed)) [
      | inl e ↦ elim (Result-cases (condition_of v)) [
        | inl (c, p) ↦ rw (e, p, collect) (sym (append-nil _))
        | inr (c, p) ↦ rw (e, p, collect)
      ]
      | inr e ↦ rw e
    ]

    lookup-add_field :
        (f : String)
        → lookup f (add_field allowed name v acc).1 ≡ (
            if str_eq name f
            then or_else (of_field name (some v)) (lookup f acc.1)
            else lookup f acc.1)
    unfolding add_field of_field collect
    lookup-add_field f = elim (Bool-cases (member name allowed)) [
      | inl e ↦ elim (Result-cases (condition_of v)) [
        | inl (c, p) ↦ rw (e, p, collect) (lookup-put name f c acc.1)
        | inr (c, p) ↦ rw (e, p, collect) (ground arith)
      ]
      | inr e ↦ rw e (ground arith)
    ]

  errors-build_from :
      (d : Dict (Value N)) (acc : List (String × FieldError) × Dict (Condition N))
      → (build_from allowed d acc).0 ≡ acc.0 ++ problems d
  unfolding build_from problems
  errors-build_from [] acc = sym (append-nil _)
  errors-build_from ((name, v) ∷ d) acc =
      errors-build_from d (add_field allowed name v acc)
      ∙ ap (λ l. l ++ problems d) (errors-add_field name v acc)
      ∙ append_assoc acc.0 (problem name v) (problems d)

  lookup-not_member :
      (k : String) (d : Dict (Value N)) → member k (keys d) ≡ false → lookup k d ≡ none
  lookup-not_member k [] h = refl
  lookup-not_member k ((j, v) ∷ d) h = ground (arith, lookup-not_member k d)

  lookup-build_from :
      (d : Dict (Value N)) (acc : List (String × FieldError) × Dict (Condition N)) (f : String)
      → Distinct (keys d)
      → lookup f (build_from allowed d acc).1 ≡ or_else (expected d f) (lookup f acc.1)
  unfolding build_from expected of_field
  lookup-build_from [] acc f h = refl
  lookup-build_from ((name, v) ∷ d) acc f h = ground (
    arith,
    lookup-build_from d (add_field allowed name v acc) f h.1,
    lookup-add_field name v acc f,
    lookup-not_member name d h.0,
    eq_iff name f,
  )

  finish_cases :
      (acc : List (String × FieldError) × Dict (Condition N))
      → (acc.0 ≡ []) × (finish acc ≡ ok acc.1) ⊎ (acc.0 ≢ []) × (finish acc ≡ err acc.0)
  unfolding finish
  finish_cases ([], r) = inl (refl, refl)
  finish_cases (e ∷ es, r) = inr ((λ h. cc), refl)

  -- The two ways for a build to end.
  pub build_pinecone_filter-cases :
      (d : Dict (Value N))
      → ((r : Dict (Condition N)) × (build_pinecone_filter (some d) allowed ≡ ok r))
        ⊎ (build_pinecone_filter (some d) allowed ≡ err (problems d))
  unfolding build_pinecone_filter
  build_pinecone_filter-cases [] = inl ([], refl)
  build_pinecone_filter-cases (e ∷ d) =
      let acc = build_from allowed (e ∷ d) ([], []) in
      elim (finish_cases acc) [
        | inl (none_found, p) ↦ inl (acc.1, p)
        | inr (found, p) ↦ inr (p ∙ ap err (errors-build_from (e ∷ d) ([], [])))
      ]

  problem-Good :
      (name : String) (v : Value N)
      → member name allowed ≡ true
      → Good v
      → All (λ e. e.1 ≡ invalid_filter empty_range) (problem name v)
  unfolding problem
  problem-Good name v k g = elim (condition_of-Good v g) [
    | inl (cs, e) ↦ rw (k, e) tt
    | inr e ↦ rw (k, e) (refl, tt)
  ]

  -- Good values on allowed fields have no problem but empty ranges.
  pub problems-Good :
      (d : Dict (Value N))
      → Entries (λ name v. (member name allowed ≡ true) × Good v) d
      → All (λ e. e.1 ≡ invalid_filter empty_range) (problems d)
  unfolding problems
  problems-Good [] h = tt
  problems-Good ((name, v) ∷ d) ((k, g), h) =
      All-append (λ e. e.1 ≡ invalid_filter empty_range) (problem name v) (problems d)
        (problem-Good name v k g) (problems-Good d h)

  refused-problem :
      (name : String) (v : Value N) (e : ConditionError) (rest : List (String × FieldError))
      → condition_of v ≡ err e
      → problem name v ++ rest ≢ []
  unfolding problem
  refused-problem name v e rest r = elim (Bool-cases (member name allowed)) [
    | inl k ↦ rw (k, r) (λ h. absurd (cc))
    | inr k ↦ rw k (λ h. absurd (cc))
  ]

  -- A field whose value is refused is a problem.
  pub problems-refused :
      (name : String) (v : Value N) (e : ConditionError) (d : Dict (Value N))
      → lookup name d ≡ some v
      → condition_of v ≡ err e
      → problems d ≢ []
  unfolding problems
  problems-refused name v e [] found r h = cc
  problems-refused name v e ((k, x) ∷ d) found r h = elim (Bool-cases (str_eq k name)) [
    | inl s ↦
        let same : x ≡ v = ground (arith, s, found) in
        refused-problem k x e (problems d) (ap condition_of same ∙ r) h
    | inr s ↦
        problems-refused name v e d (ground (arith, s, found)) r
          (append_empty (problem k x) (problems d) h)
  ]
    where
      append_empty : (l m : List (String × FieldError)) → l ++ m ≡ [] → m ≡ []
      append_empty [] m h = h
      append_empty (y ∷ l) m h = absurd (cc)

  -- A request with distinct fields and no problem gets a filter that has, for every field, the
  -- condition of the field's value, and nothing for any other field.
  pub build_pinecone_filter-accepts :
      (d : Dict (Value N))
      → Distinct (keys d)
      → problems d ≡ []
      → (r : Dict (Condition N)) × (build_pinecone_filter (some d) allowed ≡ ok r)
        × ((f : String) → lookup f r ≡ expected d f)
  unfolding build_pinecone_filter
  build_pinecone_filter-accepts [] h p = ([], refl, λ f. (unfold expected of_field in refl))
  build_pinecone_filter-accepts (e ∷ d) h p =
      let acc = build_from allowed (e ∷ d) ([], []) in
      (
        acc.1,
        ground (arith, finish_cases acc, errors-build_from (e ∷ d) ([], [])),
        λ f. lookup-build_from (e ∷ d) ([], []) f h ∙ or_else-none (expected (e ∷ d) f),
      )
    where
      or_else-none : (o : Option (Condition N)) → or_else o none ≡ o
      or_else-none none = refl
      or_else-none (some c) = refl

  -- A request with a problem is refused with the list of all its problems, in the request's order.
  pub build_pinecone_filter-reports :
      (d : Dict (Value N))
      → problems d ≢ []
      → build_pinecone_filter (some d) allowed ≡ err (problems d)
  unfolding build_pinecone_filter
  build_pinecone_filter-reports [] p = absurd (p (unfold problems in refl))
  build_pinecone_filter-reports (e ∷ d) p =
      let acc = build_from allowed (e ∷ d) ([], []) in
      ground (arith, finish_cases acc, errors-build_from (e ∷ d) ([], []))
