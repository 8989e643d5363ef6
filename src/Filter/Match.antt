-- ===== src/Filter/Match.antt =====
-- What the forms of a filter mean for an item's metadata.
use recommendation_engine.Base.{
  String, ◌≡◌, refl, sym, ◌∙◌, ap, ◌⊎◌, inl, inr, Bool, true, false, not, ◌&&◌, ◌||◌, List, [], ◌∷◌,
  any_of, any_of-or, any_of-false, any_of-cong, all_of-not, Bool-cases,
}
use recommendation_engine.Base.Number.{Num, lt as less}
use recommendation_engine.Base.Result.{ok, err}
use recommendation_engine.Filter.Good.{scalar_list-scalars}
use recommendation_engine.Filter.{
  Scalar, num, Value, scalar, list, dict, end, field, Clause, empty_range, scalars, condition_of,
  values, equals, passes,
}

and_true : (b : Bool) → (b && true) ≡ b
and_true true = refl
and_true false = refl

module _ {N : Type 0} ⦃number : Num N⦄ where
  -- An operator object with one or with two operators.
  abbrev pub operator : String → Value N → Value N
  operator op v = dict (field op v end)

  abbrev pub between : N → N → Value N
  between a b = dict (field "gte" (scalar (num a)) (field "lte" (scalar (num b)) end))

  any_of-swap :
      (vs : List (Value N)) (ss : List (Scalar N))
      → any_of (λ w. any_of (equals w) ss) vs ≡ any_of (λ s. any_of (λ w. equals w s) vs) ss
  any_of-swap vs [] = any_of-false vs
  any_of-swap vs (s ∷ ss) =
      any_of-or (λ w. equals w s) (λ w. any_of (equals w) ss) vs
      ∙ ap (λ b. any_of (λ w. equals w s) vs || b) (any_of-swap vs ss)

  condition_of-list :
      (s : Scalar N) (ss : List (Scalar N))
      → condition_of (list (scalars (s ∷ ss))) ≡ ok (Clause.isin (s ∷ ss) ∷ [])
  unfolding condition_of
  condition_of-list s ss = rw (scalar_list-scalars s ss)

  passes-scalar :
      (s : Scalar N) (v : Value N) → passes (scalar s) v ≡ any_of (λ w. equals w s) (values v)
  unfolding passes
  passes-scalar s v = and_true _

  passes-isin :
      (s : Scalar N) (ss : List (Scalar N)) (v : Value N)
      → passes (list (scalars (s ∷ ss))) v ≡ any_of (λ w. any_of (equals w) (s ∷ ss)) (values v)
  unfolding passes
  passes-isin s ss v = rw (scalar_list-scalars s ss, passes) (and_true _)

  -- A list of wanted values passes exactly what one of its values passes on its own.
  pub passes-list :
      (s : Scalar N) (ss : List (Scalar N)) (v : Value N)
      → passes (list (scalars (s ∷ ss))) v ≡ any_of (λ t. passes (scalar t) v) (s ∷ ss)
  passes-list s ss v =
      passes-isin s ss v
      ∙ any_of-swap (values v) (s ∷ ss)
      ∙ any_of-cong (λ t. any_of (λ w. equals w t) (values v)) (λ t. passes (scalar t) v)
          (λ t. sym (passes-scalar t v)) (s ∷ ss)

  passes-nin :
      (s : Scalar N) (ss : List (Scalar N)) (v : Value N)
      → passes (operator "nin" (list (scalars (s ∷ ss)))) v
        ≡ not (any_of (λ w. any_of (equals w) (s ∷ ss)) (values v))
  unfolding passes
  passes-nin s ss v =
      rw (scalar_list-scalars s ss, passes)
        (and_true _ ∙ all_of-not (λ w. any_of (equals w) (s ∷ ss)) (values v))

  -- The operators `eq` and `in` ask for what the short forms ask for, `ne` and `nin` for all else
  -- (written here with the `$` or without).
  pub passes-operators :
      (s : Scalar N) (ss : List (Scalar N)) (v : Value N)
      → (passes (operator "eq" (scalar s)) v ≡ passes (scalar s) v)
        × (passes (operator "$in" (list (scalars (s ∷ ss)))) v ≡ passes (list (scalars (s ∷ ss))) v)
        × (passes (operator "$ne" (scalar s)) v ≡ not (passes (scalar s) v))
        × (passes (operator "nin" (list (scalars (s ∷ ss)))) v
            ≡ not (passes (list (scalars (s ∷ ss))) v))
  passes-operators s ss v = (
    (unfold passes in refl),
    (unfold passes in rw (scalar_list-scalars s ss, passes)),
    (unfold passes in and_true _ ∙ ap not (sym (and_true _))),
    passes-nin s ss v ∙ ap not (sym (passes-isin s ss v)),
  )

  -- The numbers from `a` to `b`.
  abbrev pub in_range : N → N → Value N → Bool
  in_range a b (scalar (num x)) = number.le a x && number.le x b
  in_range a b _ = false

  passes-in_range :
      (a b : N) (v : Value N) → less b a ≡ false → passes (between a b) v ≡ in_range a b v
  unfolding passes
  passes-in_range a b (scalar (num x)) e =
      rw (e, passes) (ap (λ t. number.le a x && t) (and_true _))
  passes-in_range a b v e = rw (e, passes)

  -- A range passes exactly the numbers between its bounds, ends included, and no text, boolean,
  -- list or missing value; with the bounds the wrong way round it is refused.
  pub passes-between :
      (a b : N) (v : Value N)
      → (less b a ≡ true) × (condition_of (between a b) ≡ err empty_range)
        ⊎ (less b a ≡ false) × (passes (between a b) v ≡ in_range a b v)
  passes-between a b v = elim (Bool-cases (less b a)) [
    | inl e ↦ inl (e, (unfold condition_of in rw e))
    | inr e ↦ inr (e, passes-in_range a b v e)
  ]
