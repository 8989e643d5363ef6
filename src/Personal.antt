-- ===== src/Personal.antt =====
-- services/recommendation/personalization.py: a user's taste, and the query that leans toward it.
pub mod Laws
use recommendation_engine.Base.{
  ℕ, ◌-◌, ◌≤◌, ◌≡◌, inl, inr, ◌⊎◌, String, Bool, true, false, not, ◌&&◌, Option, none, some, List,
  [], ◌∷◌, map, keep, arith, str_eq, is_some, leb, max, min, length, take, if◌then◌else◌, All,
  Bool-cases, length-take, All-map, take-All,
}
use recommendation_engine.Base.Number.{Num, num_eq}
use recommendation_engine.Base.Sort.{sort_by, IsTopK, take-sort_by-IsTopK, sort_by-All}
use recommendation_engine.Pipeline.{Item, Status, same_status}

module _ {N : Type 0} ⦃num : Num N⦄ where
  -- `sum(x * x for x in vector)`
  sum_squares : N → List N → N
  sum_squares acc [] = acc
  sum_squares acc (x ∷ xs) = sum_squares (num.add acc (num.mul x x)) xs

  pub normalize : List N → List N
  unfolding sum_squares
  normalize v =
      let norm = num.sqrt (sum_squares num.zero v) in
      if num_eq norm num.zero then v else map (λ x. num.div x norm) v

  -- Two vectors, entry by entry: `zip(..., strict=True)`, as the vectors of one index have one length.
  abbrev zip_with : (N → N → N) → List N → List N → List N
  zip_with f (x ∷ xs) (y ∷ ys) = f x y ∷ zip_with f xs ys
  zip_with f _ _ = []

  -- `sum(column)` of each column
  column_sums : List N → List (List N) → List N
  column_sums acc [] = acc
  column_sums acc (v ∷ vs) = column_sums (zip_with num.add acc v) vs

pub record Taste (N : Type 0) : Type 0 where
  pub vector : List N
  pub weight : N

module _ {N : Type 0} ⦃num : Num N⦄ where
  -- `Taste.from_vectors`
  unfoldable pub from_vectors : List (List N) → N → Option (Taste N)
  unfolding column_sums normalize
  from_vectors [] weight = none
  from_vectors (v ∷ vs) weight =
      let n = num.of_nat (length (v ∷ vs)) in
      let sums = column_sums (map (num.add num.zero) v) vs in
      some (record { vector = normalize (map (λ x. num.div x n) sums); weight = weight })

  -- `Taste.apply`
  unfoldable pub apply : Taste N → List N → List N
  unfolding normalize
  apply t query = normalize (
      zip_with (λ a b. num.add (num.mul (num.sub num.one t.weight) a) (num.mul t.weight b))
        (normalize query) t.vector)

-- models/user_feedback.py
pub data FeedbackType : Type 0 where
  click thumbs_up thumbs_down purchase apply_for ignore : FeedbackType

pub record UserFeedback : Type 0 where
  pub tenant_id : String
  pub external_item_id : String
  pub feedback_type : FeedbackType
  pub end_user_id : Option String
  pub created_at : ℕ

-- `fb.feedback_type.in_(LIKED)`
abbrev pub is_liking : FeedbackType → Bool
is_liking click = true
is_liking thumbs_up = true
is_liking purchase = true
is_liking apply_for = true
is_liking thumbs_down = false
is_liking ignore = false

abbrev pub history_size : ℕ
history_size = 20

abbrev pub is_text : Option String → String → Bool
is_text none b = false
is_text (some a) b = str_eq a b

-- `func.max(fb.created_at)` of a group; none is a group that there is not
pub last_of : List UserFeedback → Option ℕ
last_of [] = none
last_of (fb ∷ fbs) = elim (last_of fbs) [
  | none ↦ some fb.created_at
  | some t ↦ some (max fb.created_at t)
]

module _ {V : Type 0} where
  -- The join and the conditions on the feedback.
  abbrev pub is_like : String → String → ℕ → Item V → UserFeedback → Bool
  is_like tenant user since i fb =
      str_eq fb.tenant_id i.tenant_id
      && str_eq fb.external_item_id i.external_id
      && str_eq fb.tenant_id tenant
      && is_text fb.end_user_id user
      && is_liking fb.feedback_type
      && leb since fb.created_at

  -- The conditions on the item.
  abbrev pub is_embedded : Item V → Bool
  is_embedded i = same_status i.embedding_status Status.done && is_some i.pinecone_id

  -- The groups: a liked item and the time it was last liked. Items have pinecone ids of their own.
  pub groups : String → String → ℕ → List UserFeedback → List (Item V) → List (Item V × ℕ)
  unfolding last_of
  groups tenant user since fbs [] = []
  groups tenant user since fbs (i ∷ is) =
      let rest = groups tenant user since fbs is in
      elim (last_of (keep (is_like tenant user since i) fbs)) [
        | none ↦ rest
        | some t ↦ if is_embedded i then (i, t) ∷ rest else rest
      ]

  -- `order_by(last_liked.desc())`
  abbrev pub newer : Item V × ℕ → Item V × ℕ → Bool
  newer a b = leb b.1 a.1

  -- The rows of the statement.
  unfoldable pub newest :
      String → String → ℕ → List UserFeedback → List (Item V) → List (Item V × ℕ)
  unfolding groups
  newest tenant user since fbs is =
      take history_size (sort_by newer (groups tenant user since fbs is))

  -- `[pinecone_id for pinecone_id in rows.scalars() if pinecone_id]`
  pub ids_of : List (Item V × ℕ) → List String
  ids_of [] = []
  ids_of ((i, t) ∷ is) =
      let rest = ids_of is in
      elim i.pinecone_id [ none ↦ rest | some p ↦ if str_eq p "" then rest else p ∷ rest ]

  -- `liked_items`, for a window in the time's unit
  unfoldable pub liked_items :
      ℕ → ℕ → String → String → List UserFeedback → List (Item V) → List String
  unfolding newest ids_of
  liked_items window now tenant user fbs is = ids_of (newest tenant user (now - window) fbs is)
