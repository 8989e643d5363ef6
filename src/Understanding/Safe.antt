-- ===== src/Understanding/Safe.antt =====
-- What `to_filters` builds is in order for `build_pinecone_filter`, but for one thing.
use mathlib.Core.Path.{subst}
use recommendation_engine.Base.{
  String, ◌≡◌, ◌≢◌, refl, sym, ap, inl, inr, Bool, true, false, Option, none, some, List, [], ◌∷◌,
  map, arith, str_eq, Bool-cases, Option-cases, if◌then◌else◌, any_of, All, ◌&&◌, ◌||◌,
}
use recommendation_engine.Base.Number.{Num}
use recommendation_engine.Base.Dict.{
  Dict, member, lookup, put, keys, Entries, put-Entries, lookup-Entries,
}
use recommendation_engine.Base.Result.{Result, ok, err}
use recommendation_engine.Filter.{
  Scalar, Value, null, scalar, list, dict, Items, cons, Fields, end, field, entries, scalars,
  Condition, empty_range, FieldError, invalid_filter, build_pinecone_filter,
}
use recommendation_engine.Filter.Build.{build_pinecone_filter-cases, problems-Good}
use recommendation_engine.Filter.Good.{
  GoodOperator, Good, range-GoodOperator, nin-GoodOperator, scalar_list-scalars,
}
use recommendation_engine.Understanding.{
  Kind, FieldProfile, RawFilter, Note, range_ops, text_ops, is_number, pack, texts, update, combine,
  merge_with, merge, add_number, one_or_list, add_values, add_text, by_kind, add_filter,
  to_filters_from, to_filters,
}

module _ {N : Type 0} where
  entries-pack : (d : Dict (Value N)) → entries (pack d) ≡ d
  entries-pack [] = refl
  entries-pack ((k, v) ∷ d) = ap (◌∷◌ (k, v)) (entries-pack d)

  texts-eq-scalars : (ss : List String) → texts {N = N} ss ≡ scalars (map Scalar.text ss)
  texts-eq-scalars [] = refl
  texts-eq-scalars (s ∷ ss) = ap (cons (scalar (Scalar.text s))) (texts-eq-scalars ss)

  update-Entries :
      (P : String → Value N → Type 0) (c d : Dict (Value N))
      → Entries P c
      → Entries P d
      → Entries P (update c d)
  unfolding update
  update-Entries P c [] hc hd = hc
  update-Entries P c ((k, v) ∷ d) hc hd =
      update-Entries P (put k v c) d (put-Entries P k v c hd.0 hc) hd.1

  put-ne-nil : (k : String) (v : Value N) (c : Dict (Value N)) → put k v c ≢ []
  put-ne-nil k v [] e = cc
  put-ne-nil k v ((j, w) ∷ c) e = ground arith

  update-ne-nil : (c d : Dict (Value N)) → c ≢ [] → update c d ≢ []
  unfolding update
  update-ne-nil c [] h = h
  update-ne-nil c ((k, v) ∷ d) h = update-ne-nil (put k v c) d (put-ne-nil k v c)

  Good-update :
      (c d : Fields N)
      → Good (dict c)
      → Good (dict d)
      → Good (dict (pack (update (entries c) (entries d))))
  Good-update c d (nc, hc) (nd, hd) = rw (entries-pack (update (entries c) (entries d))) (
    update-ne-nil (entries c) (entries d) nc,
    update-Entries GoodOperator (entries c) (entries d) hc hd,
  )

  Good-texts : (v : String) (vs : List String) → Good {N = N} (list (texts (v ∷ vs)))
  Good-texts v vs =
      rw (texts-eq-scalars vs) (_, scalar_list-scalars (Scalar.text v) (map Scalar.text vs))

module _ (N : Type 0) where
  Good-one_or_list : (v : String) (vs : List String) → Good {N = N} (one_or_list v vs)
  Good-one_or_list v [] = tt
  Good-one_or_list v (w ∷ vs) = Good-texts v (w ∷ vs)

  Good-values :
      (v : String) (vs : List String) (short : Bool)
      → Good {N = N}
          (if short then one_or_list v vs else dict (field "nin" (list (texts (v ∷ vs))) end))
  Good-values v vs true = Good-one_or_list v vs
  Good-values v vs false = (
    (λ p. cc),
    (
      subst (λ (l : Items N). GoodOperator "nin" (list (cons (scalar (Scalar.text v)) l)))
          (sym (texts-eq-scalars vs)) (nin-GoodOperator (Scalar.text v) (map Scalar.text vs)),
      tt,
    ),
  )

module _ {N : Type 0} where
  module _ (fields : List String) where
    -- The filters so far: good conditions on known fields.
    abbrev pub IsGood : Dict (Value N) × List Note → Type 0
    IsGood acc = Entries (λ name v. (member name fields ≡ true) × Good v) acc.0

    combine-IsGood :
        (name : String) (c d : Value N) (acc : Dict (Value N) × List Note)
        → member name fields ≡ true
        → Good c
        → Good d
        → IsGood acc
        → IsGood (combine name c d acc)
    unfolding combine
    combine-IsGood name (dict c) (dict d) acc k gc gd h =
        elim (Bool-cases (any_of (λ j. member j (keys (entries c))) (keys (entries d)))) [
          | inl e ↦ rw e h
          | inr e ↦ rw e (
              put-Entries (λ n v. (member n fields ≡ true) × Good v) name _ acc.0
                (k, Good-update c d gc gd) h)
        ]
    combine-IsGood name c d acc k gc gd h = h

    merge_with-IsGood :
        (o : Option (Value N)) (name : String) (d : Value N) (acc : Dict (Value N) × List Note)
        → member name fields ≡ true
        → Good d
        → ((c : Value N) → o ≡ some c → Good c)
        → IsGood acc
        → IsGood (merge_with o name d acc)
    unfolding merge_with
    merge_with-IsGood none name d acc k gd gc h =
        put-Entries (λ n v. (member n fields ≡ true) × Good v) name d acc.0 (k, gd) h
    merge_with-IsGood (some c) name d acc k gd gc h = combine-IsGood name c d acc k (gc c refl) gd h

    merge-IsGood :
        (name : String) (d : Value N) (acc : Dict (Value N) × List Note)
        → member name fields ≡ true
        → Good d
        → IsGood acc
        → IsGood (merge name d acc)
    unfolding merge
    merge-IsGood name d acc k gd h =
        merge_with-IsGood (lookup name acc.0) name d acc k gd
          (λ c e. (lookup-Entries (λ n v. (member n fields ≡ true) × Good v) name acc.0 h e).1) h

    Good-number :
        (op : String) (v : Value N)
        → (is_number v && (member op range_ops || str_eq op "eq")) ≡ true
        → Good (if str_eq op "eq" then v else dict (field op v end))
    unfolding is_number
    Good-number op (scalar (Scalar.num n)) t = elim (Bool-cases (str_eq op "eq")) [
      | inl e ↦ rw e tt
      | inr e ↦ rw e ((λ p. cc), (range-GoodOperator op n (ground arith), tt))
    ]
    Good-number op null t = cc
    Good-number op (scalar (Scalar.bool b)) t = cc
    Good-number op (scalar (Scalar.text s)) t = cc
    Good-number op (list vs) t = cc
    Good-number op (dict d) t = cc

    add_number-IsGood :
        (raw : RawFilter N) (acc : Dict (Value N) × List Note)
        → member raw.name fields ≡ true
        → IsGood acc
        → IsGood (add_number raw acc)
    unfolding add_number
    add_number-IsGood raw acc k h =
        elim (Bool-cases
          (is_number raw.number && (member raw.op range_ops || str_eq raw.op "eq"))) [
            | inl e ↦ rw e (merge-IsGood raw.name _ acc k (Good-number raw.op raw.number e) h)
            | inr e ↦ rw e h
          ]

    add_values-IsGood :
        (raw : RawFilter N) (vs : List String) (acc : Dict (Value N) × List Note)
        → member raw.name fields ≡ true
        → IsGood acc
        → IsGood (add_values raw vs acc)
    unfolding add_values
    add_values-IsGood raw [] acc k h = h
    add_values-IsGood raw (v ∷ vs) acc k h =
        merge-IsGood raw.name _ acc k
          (Good-values N v vs (str_eq raw.op "eq" || str_eq raw.op "in")) h

    module _ (strip casefold : String → String) where
      add_text-IsGood :
          (profile : FieldProfile) (raw : RawFilter N) (acc : Dict (Value N) × List Note)
          → member raw.name fields ≡ true
          → IsGood acc
          → IsGood (add_text strip casefold profile raw acc)
      unfolding add_text
      add_text-IsGood profile raw acc k h = elim (Bool-cases (member raw.op text_ops)) [
        | inl e ↦ rw e (add_values-IsGood raw _ _ k h)
        | inr e ↦ rw e h
      ]

      by_kind-IsGood :
          (kind : Kind) (profile : FieldProfile) (raw : RawFilter N)
          (acc : Dict (Value N) × List Note)
          → member raw.name fields ≡ true
          → IsGood acc
          → IsGood (by_kind strip casefold kind profile raw acc)
      unfolding by_kind
      by_kind-IsGood Kind.number profile raw acc k h = add_number-IsGood raw acc k h
      by_kind-IsGood Kind.text profile raw acc k h = add_text-IsGood profile raw acc k h

      module _ (profiles : Dict FieldProfile)
          (known : Entries (λ n p. member n fields ≡ true) profiles) where
        add_filter-IsGood :
            (raw : RawFilter N) (acc : Dict (Value N) × List Note)
            → IsGood acc
            → IsGood (add_filter strip casefold profiles raw acc)
        unfolding add_filter
        add_filter-IsGood raw acc h = elim (Option-cases (lookup raw.name profiles)) [
          | inl e ↦ rw (e, add_filter) h
          | inr (p, e) ↦
              rw (e, add_filter)
                (by_kind-IsGood p.kind p raw acc
                  (lookup-Entries (λ n p. member n fields ≡ true) raw.name profiles known e) h)
        ]

        to_filters_from-IsGood :
            (raws : List (RawFilter N)) (acc : Dict (Value N) × List Note)
            → IsGood acc
            → IsGood (to_filters_from strip casefold profiles raws acc)
        unfolding to_filters_from
        to_filters_from-IsGood [] acc h = h
        to_filters_from-IsGood (raw ∷ raws) acc h =
            to_filters_from-IsGood raws (add_filter strip casefold profiles raw acc)
              (add_filter-IsGood raw acc h)

        pub to_filters-IsGood :
            (raws : List (RawFilter N)) → IsGood (to_filters strip casefold profiles raws)
        unfolding to_filters
        to_filters-IsGood raws = to_filters_from-IsGood raws ([], []) tt

-- A build that succeeds, or fails for empty ranges alone.
abbrev pub OnlyEmptyRanges :
    {N : Type 0} → Result (List (String × FieldError)) (Dict (Condition N)) → Type 0
OnlyEmptyRanges (ok _) = Unit
OnlyEmptyRanges (err problems) = All (λ e. e.1 ≡ invalid_filter empty_range) problems

module _ {N : Type 0} ⦃number : Num N⦄ (strip casefold : String → String) where
  -- Whatever the chat model answers, the filters made of it are accepted by `build_pinecone_filter`,
  -- or refused for an empty range and for nothing else. (The profiled fields are filter fields.)
  pub to_filters-OnlyEmptyRanges :
      (allowed : List String) (profiles : Dict FieldProfile) (raws : List (RawFilter N))
      → Entries (λ name p. member name allowed ≡ true) profiles
      → OnlyEmptyRanges
          (build_pinecone_filter (some (to_filters strip casefold profiles raws).0) allowed)
  to_filters-OnlyEmptyRanges allowed profiles raws known =
      let filters = (to_filters strip casefold profiles raws).0 in
      elim (build_pinecone_filter-cases allowed filters) [
        | inl (r, e) ↦ rw e tt
        | inr e ↦ rw e (
            problems-Good allowed filters
              (to_filters-IsGood allowed strip casefold profiles known raws))
      ]
