-- ===== src/Filter.antt =====
-- app/services/recommendation/filter_builder.py: the filters of a request, turned into metadata
-- filters, and the test of an item's metadata against one.
pub mod Build
pub mod Good
pub mod Match
use recommendation_engine.Base.{
  ℕ, String, Bool, true, false, not, ◌&&◌, ◌||◌, Option, none, some, List, [], ◌∷◌, ◌++◌, ◌==◌,
  str_eq, all_of, any_of, if◌then◌else◌,
}
use recommendation_engine.Base.Number.{Num, num_eq, num_max, num_min, lt as less}
use recommendation_engine.Base.Dict.{Dict, member, lookup, put}
use recommendation_engine.Base.Result.{Result, ok, err, ◌>>=◌, or_raise}

-- `Scalar = str | int | float | bool`
pub data Scalar (N : Type 0) : Type 0 where
  bool : Bool → Scalar N
  num : N → Scalar N
  text : String → Scalar N

-- A decoded JSON value.
mutual
  pub data Value (N : Type 0) : Type 0 where
    null : Value N
    scalar : Scalar N → Value N
    list : Items N → Value N
    dict : Fields N → Value N

  pub data Items (N : Type 0) : Type 0 where
    nil : Items N
    cons : Value N → Items N → Items N

  pub data Fields (N : Type 0) : Type 0 where
    end : Fields N
    field : String → Value N → Fields N → Fields N

pub data FilterOp : Type 0 where
  gt gte lt lte eq ne isin nin : FilterOp

-- One operator of a condition with its operand: `condition["$gte"] = 3` is `Clause.gte 3`.
pub data Clause (N : Type 0) : Type 0 where
  gt gte lt lte : N → Clause N
  eq ne : Scalar N → Clause N
  isin nin : List (Scalar N) → Clause N

pub data ConditionError : Type 0 where
  bad_value empty_operator empty_list list_values empty_range : ConditionError
  unknown_operator : String → ConditionError
  needs_number needs_single needs_list : FilterOp → ConditionError

pub data FieldError : Type 0 where
  unknown_filter : FieldError
  invalid_filter : ConditionError → FieldError

abbrev pub Condition : Type 0 → Type 0
Condition N = List (Clause N)

module _ {N : Type 0} where
  abbrev pub items : Items N → List (Value N)
  items nil = []
  items (cons v vs) = v ∷ items vs

  abbrev pub entries : Fields N → Dict (Value N)
  entries end = []
  entries (field k v d) = (k, v) ∷ entries d

  abbrev pub op_of : Clause N → FilterOp
  op_of (Clause.gt _) = FilterOp.gt
  op_of (Clause.gte _) = FilterOp.gte
  op_of (Clause.lt _) = FilterOp.lt
  op_of (Clause.lte _) = FilterOp.lte
  op_of (Clause.eq _) = FilterOp.eq
  op_of (Clause.ne _) = FilterOp.ne
  op_of (Clause.isin _) = FilterOp.isin
  op_of (Clause.nin _) = FilterOp.nin

-- Scalars as the list that a request spells.
abbrev pub scalars : {N : Type 0} → List (Scalar N) → Items N
scalars [] = nil
scalars (s ∷ ss) = cons (scalar s) (scalars ss)

abbrev op_code : FilterOp → ℕ
op_code FilterOp.gt = 0
op_code FilterOp.gte = 1
op_code FilterOp.lt = 2
op_code FilterOp.lte = 3
op_code FilterOp.eq = 4
op_code FilterOp.ne = 5
op_code FilterOp.isin = 6
op_code FilterOp.nin = 7

-- `raw_op.removeprefix("$")`, looked up in `_ALL_OPS`
pub parse_op : String → Option FilterOp
parse_op raw =
    if str_eq raw "gt" || str_eq raw "$gt"
    then some FilterOp.gt
    else if str_eq raw "gte" || str_eq raw "$gte"
    then some FilterOp.gte
    else if str_eq raw "lt" || str_eq raw "$lt"
    then some FilterOp.lt
    else if str_eq raw "lte" || str_eq raw "$lte"
    then some FilterOp.lte
    else if str_eq raw "eq" || str_eq raw "$eq"
    then some FilterOp.eq
    else if str_eq raw "ne" || str_eq raw "$ne"
    then some FilterOp.ne
    else if str_eq raw "in" || str_eq raw "$in"
    then some FilterOp.isin
    else if str_eq raw "nin" || str_eq raw "$nin"
    then some FilterOp.nin
    else none

module _ {N : Type 0} where
  all_scalars : List (Value N) → Result ConditionError (List (Scalar N))
  all_scalars [] = ok []
  all_scalars (scalar s ∷ vs) = do rest ← all_scalars vs; ok (s ∷ rest)
  all_scalars (_ ∷ vs) = err list_values

  -- `_scalar_list`
  pub scalar_list : List (Value N) → Result ConditionError (List (Scalar N))
  unfolding all_scalars
  scalar_list [] = err empty_list
  scalar_list (v ∷ vs) = all_scalars (v ∷ vs)

  -- The checks of one operator's operand.
  pub clause_of : FilterOp → Value N → Result ConditionError (Clause N)
  unfolding scalar_list
  clause_of FilterOp.gt (scalar (num n)) = ok (Clause.gt n)
  clause_of FilterOp.gte (scalar (num n)) = ok (Clause.gte n)
  clause_of FilterOp.lt (scalar (num n)) = ok (Clause.lt n)
  clause_of FilterOp.lte (scalar (num n)) = ok (Clause.lte n)
  clause_of FilterOp.eq (scalar s) = ok (Clause.eq s)
  clause_of FilterOp.ne (scalar s) = ok (Clause.ne s)
  clause_of FilterOp.isin (list vs) = do ss ← scalar_list (items vs); ok (Clause.isin ss)
  clause_of FilterOp.nin (list vs) = do ss ← scalar_list (items vs); ok (Clause.nin ss)
  clause_of FilterOp.eq _ = err (needs_single FilterOp.eq)
  clause_of FilterOp.ne _ = err (needs_single FilterOp.ne)
  clause_of FilterOp.isin _ = err (needs_list FilterOp.isin)
  clause_of FilterOp.nin _ = err (needs_list FilterOp.nin)
  clause_of op _ = err (needs_number op)

  -- `condition[f"${op}"] = operand`
  pub put_clause : Clause N → Condition N → Condition N
  put_clause c [] = c ∷ []
  put_clause c (d ∷ cs) =
      let rest = put_clause c cs in
      if op_code (op_of d) == op_code (op_of c) then c ∷ cs else d ∷ rest

  -- The loop of `_operators` over the operator object.
  pub operators_from : Dict (Value N) → Condition N → Result ConditionError (Condition N)
  unfolding parse_op clause_of put_clause
  operators_from [] condition = ok condition
  operators_from ((raw, operand) ∷ spec) condition = do
    op ← or_raise (parse_op raw) (unknown_operator raw)
    c ← clause_of op operand
    operators_from spec (put_clause c condition)

module _ {N : Type 0} ⦃number : Num N⦄ where
  pick : (N → N → N) → Option N → Option N → Option N
  pick f none b = b
  pick f (some a) none = some a
  pick f (some a) (some b) = some (f a b)

  -- `low` and `high`: the bounds among `$gt`, `$gte` and among `$lt`, `$lte`
  pub low : Condition N → Option N
  unfolding pick
  low [] = none
  low (Clause.gt n ∷ cs) = pick num_max (some n) (low cs)
  low (Clause.gte n ∷ cs) = pick num_max (some n) (low cs)
  low (_ ∷ cs) = low cs

  pub high : Condition N → Option N
  unfolding pick
  high [] = none
  high (Clause.lt n ∷ cs) = pick num_min (some n) (high cs)
  high (Clause.lte n ∷ cs) = pick num_min (some n) (high cs)
  high (_ ∷ cs) = high cs

  unfoldable pub check_range :
      Option N → Option N → Condition N → Result ConditionError (Condition N)
  check_range (some l) (some h) cs = if less h l then err empty_range else ok cs
  check_range _ _ cs = ok cs

  unfoldable pub operators : Dict (Value N) → Result ConditionError (Condition N)
  unfolding operators_from low high check_range
  operators [] = err empty_operator
  operators (e ∷ spec) = do
    condition ← operators_from (e ∷ spec) []
    check_range (low condition) (high condition) condition

  -- `_condition`
  unfoldable pub condition_of : Value N → Result ConditionError (Condition N)
  unfolding scalar_list operators
  condition_of (list vs) = do ss ← scalar_list (items vs); ok (Clause.isin ss ∷ [])
  condition_of (dict spec) = operators (entries spec)
  condition_of (scalar s) = ok (Clause.eq s ∷ [])
  condition_of null = err bad_value

  collect :
      String
      → Result ConditionError (Condition N)
      → List (String × FieldError) × Dict (Condition N)
      → List (String × FieldError) × Dict (Condition N)
  collect name (ok c) (errors, result) = (errors, put name c result)
  collect name (err e) (errors, result) = (errors ++ (name, invalid_filter e) ∷ [], result)

  -- The body of the loop of `build_pinecone_filter`: what one field adds to `errors` and `result`.
  pub add_field :
      List String
      → String
      → Value N
      → List (String × FieldError) × Dict (Condition N)
      → List (String × FieldError) × Dict (Condition N)
  unfolding condition_of collect
  add_field allowed name value acc =
      if member name allowed
      then collect name (condition_of value) acc
      else (acc.0 ++ (name, unknown_filter) ∷ [], acc.1)

  pub build_from :
      List String
      → Dict (Value N)
      → List (String × FieldError) × Dict (Condition N)
      → List (String × FieldError) × Dict (Condition N)
  unfolding add_field
  build_from allowed [] acc = acc
  build_from allowed ((name, value) ∷ fields) acc =
      build_from allowed fields (add_field allowed name value acc)

  finish :
      List (String × FieldError) × Dict (Condition N)
      → Result (List (String × FieldError)) (Dict (Condition N))
  finish ([], result) = ok result
  finish (e ∷ errors, result) = err (e ∷ errors)

  -- `not filters_input` holds of None and of the empty object.
  unfoldable pub build_pinecone_filter :
      Option (Dict (Value N))
      → List String
      → Result (List (String × FieldError)) (Dict (Condition N))
  unfolding build_from finish
  build_pinecone_filter none allowed = ok []
  build_pinecone_filter (some []) allowed = ok []
  build_pinecone_filter (some (f ∷ fields)) allowed =
      finish (build_from allowed (f ∷ fields) ([], []))

  truth : Bool → N
  truth b = if b then number.one else number.zero

  -- Python's `==` between scalars: booleans are the numbers 0 and 1.
  pub same : Scalar N → Scalar N → Bool
  unfolding truth
  same (bool a) (bool b) = num_eq (truth a) (truth b)
  same (bool a) (num n) = num_eq (truth a) n
  same (num n) (bool b) = num_eq n (truth b)
  same (num n) (num m) = num_eq n m
  same (text s) (text t) = str_eq s t
  same _ _ = false

  pub equals : Value N → Scalar N → Bool
  unfolding same
  equals (scalar t) s = same t s
  equals _ s = false

  -- `value if isinstance(value, list) else [value]`
  abbrev pub values : Value N → List (Value N)
  values (list vs) = items vs
  values v = v ∷ []

  abbrev number_of : Value N → Option N
  number_of (scalar (num n)) = some n
  number_of _ = none

  range_test : (N → Bool) → Value N → Bool
  range_test test v = elim (number_of v) [ none ↦ false | some n ↦ test n ]

  -- `_check`
  pub check : Clause N → Value N → Bool
  unfolding equals range_test
  check (Clause.eq s) v = any_of (λ w. equals w s) (values v)
  check (Clause.ne s) v = not (any_of (λ w. equals w s) (values v))
  check (Clause.isin ss) v = any_of (λ w. any_of (equals w) ss) (values v)
  check (Clause.nin ss) v = all_of (λ w. not (any_of (equals w) ss)) (values v)
  check (Clause.gt n) v = range_test (λ x. less n x) v
  check (Clause.gte n) v = range_test (λ x. number.le n x) v
  check (Clause.lt n) v = range_test (λ x. less x n) v
  check (Clause.lte n) v = range_test (λ x. number.le x n) v

  -- `metadata.get(field)`
  value_at : Option (Value N) → Value N
  value_at none = null
  value_at (some v) = v

  unfoldable pub matches_filter : Dict (Value N) → Dict (Condition N) → Bool
  unfolding check value_at
  matches_filter metadata [] = true
  matches_filter metadata ((name, condition) ∷ fs) =
      let rest = matches_filter metadata fs in
      all_of (λ c. check c (value_at (lookup name metadata))) condition && rest

  -- Whether a metadata value passes the condition that a request's value stands for.
  unfoldable pub passes : Value N → Value N → Bool
  unfolding check condition_of
  passes wanted v = elim (condition_of wanted) [
    | ok cs ↦ all_of (λ c. check c v) cs
    | err _ ↦ false
  ]
