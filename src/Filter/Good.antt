-- ===== src/Filter/Good.antt =====
-- Values of a request that are in order, except perhaps for a range with its bounds the wrong way
-- round: what a generator of filters has to produce.
use mathlib.Core.Path.{subst}
use mathlib.Core.Bool.{false≢true}
use recommendation_engine.Base.{
  String, ◌≡◌, ◌≢◌, refl, ◌⊎◌, inl, inr, true, Option, none, some, List, [], ◌∷◌, Bool-cases,
}
use recommendation_engine.Base.Number.{Num, lt as less}
use recommendation_engine.Base.Dict.{Dict, member, Entries, member-cases}
use recommendation_engine.Base.Result.{Result, ok, err, ◌>>=◌}
use recommendation_engine.Filter.{
  Scalar, num, Value, null, scalar, list, dict, items, entries, scalars, FilterOp, Clause,
  Condition, ConditionError, empty_range, parse_op, clause_of, scalar_list, all_scalars,
  operators_from, operators, check_range, condition_of, low, high, put_clause,
}

module _ {N : Type 0} where
  all_scalars-scalars : (ss : List (Scalar N)) → all_scalars (items (scalars ss)) ≡ ok ss
  unfolding all_scalars
  all_scalars-scalars [] = refl
  all_scalars-scalars (s ∷ ss) = rw (all_scalars-scalars ss)

  pub scalar_list-scalars :
      (s : Scalar N) (ss : List (Scalar N)) → scalar_list (items (scalars (s ∷ ss))) ≡ ok (s ∷ ss)
  unfolding scalar_list
  scalar_list-scalars s ss = all_scalars-scalars (s ∷ ss)

  -- An operator that is known, with an operand that it takes.
  abbrev pub GoodOperator : String → Value N → Type 0
  GoodOperator raw v =
      (op : FilterOp) × (c : Clause N) × (parse_op raw ≡ some op) × (clause_of op v ≡ ok c)

  abbrev pub Good : Value N → Type 0
  Good null = ⊥
  Good (scalar s) = Unit
  Good (list vs) = (ss : List (Scalar N)) × (scalar_list (items vs) ≡ ok ss)
  Good (dict d) = (entries d ≢ []) × Entries GoodOperator (entries d)

  -- A range operator takes a number, `nin` a list of scalars.
  pub range-GoodOperator :
      (op : String) (n : N)
      → member op ("gt" ∷ "gte" ∷ "lt" ∷ "lte" ∷ []) ≡ true
      → GoodOperator op (scalar (num n))
  unfolding parse_op clause_of
  range-GoodOperator op n h = elim (member-cases op "gt" ("gte" ∷ "lt" ∷ "lte" ∷ []) h) [
    | inl e ↦ as_operator e (FilterOp.gt, Clause.gt n, refl, refl)
    | inr h ↦ elim (member-cases op "gte" ("lt" ∷ "lte" ∷ []) h) [
      | inl e ↦ as_operator e (FilterOp.gte, Clause.gte n, refl, refl)
      | inr h ↦ elim (member-cases op "lt" ("lte" ∷ []) h) [
        | inl e ↦ as_operator e (FilterOp.lt, Clause.lt n, refl, refl)
        | inr h ↦ elim (member-cases op "lte" [] h) [
          | inl e ↦ as_operator e (FilterOp.lte, Clause.lte n, refl, refl)
          | inr none_left ↦ absurd (false≢true none_left)
        ]
      ]
    ]
  ]
    where
      as_operator :
          {raw : String}
          → raw ≡ op
          → GoodOperator raw (scalar (num n))
          → GoodOperator op (scalar (num n))
      as_operator e g = subst (λ (r : String). GoodOperator r (scalar (num n))) e g

  pub nin-GoodOperator :
      (s : Scalar N) (ss : List (Scalar N)) → GoodOperator "nin" (list (scalars (s ∷ ss)))
  unfolding parse_op clause_of
  nin-GoodOperator s ss = (FilterOp.nin, Clause.nin (s ∷ ss), refl, rw (scalar_list-scalars s ss))

  operators_from-Good :
      (d : Dict (Value N)) (acc : Condition N)
      → Entries GoodOperator d
      → (cs : Condition N) × (operators_from d acc ≡ ok cs)
  unfolding operators_from
  operators_from-Good [] acc h = (acc, refl)
  operators_from-Good ((raw, v) ∷ d) acc ((op, c, p, q), h) =
      rw (p, q) (operators_from-Good d (put_clause c acc) h)

module _ {N : Type 0} ⦃number : Num N⦄ where
  check_range-cases :
      (l h : Option N) (cs : Condition N)
      → ((cs' : Condition N) × (check_range l h cs ≡ ok cs'))
        ⊎ (check_range l h cs ≡ err empty_range)
  unfolding check_range
  check_range-cases (some l) (some h) cs = elim (Bool-cases (less h l)) [
    | inl e ↦ inr (rw e)
    | inr e ↦ inl (cs, rw e)
  ]
  check_range-cases (some l) none cs = inl (cs, refl)
  check_range-cases none h cs = inl (cs, refl)

  operators-Good :
      (d : Dict (Value N))
      → d ≢ []
      → Entries GoodOperator d
      → ((cs : Condition N) × (operators d ≡ ok cs)) ⊎ (operators d ≡ err empty_range)
  unfolding operators
  operators-Good [] ne h = absurd (ne refl)
  operators-Good (e ∷ d) ne h =
      let (cs, p) = operators_from-Good (e ∷ d) [] h in after (operators_from (e ∷ d) []) cs p
    where
      after :
          (r : Result ConditionError (Condition N)) (cs : Condition N)
          → r ≡ ok cs
          → ((cs' : Condition N) × ((r >>= λ c. check_range (low c) (high c) c) ≡ ok cs'))
            ⊎ ((r >>= λ c. check_range (low c) (high c) c) ≡ err empty_range)
      after r cs p = rw p (check_range-cases (low cs) (high cs) cs)

  -- A good value has a condition, unless it is an empty range.
  pub condition_of-Good :
      (v : Value N)
      → Good v
      → ((cs : Condition N) × (condition_of v ≡ ok cs)) ⊎ (condition_of v ≡ err empty_range)
  unfolding condition_of
  condition_of-Good null h = absurd h
  condition_of-Good (scalar s) h = inl (Clause.eq s ∷ [], refl)
  condition_of-Good (list vs) (ss, e) = inl (Clause.isin ss ∷ [], rw e)
  condition_of-Good (dict d) (ne, h) = operators-Good (entries d) ne h
