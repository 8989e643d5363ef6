-- ===== src/Base/Sort.antt =====
-- Python's `sorted`: stable, by a test `before a b` ("a may stand before b"). Insertion from the
-- right puts an element in front of its equals, as the stable sort does.
use mathlib.Core.Path.{◌≡◌, refl, sym, subst}
use mathlib.Core.Logic.{◌⊎◌, inl, inr}
use mathlib.Core.Bool.{Bool, true}
use mathlib.Core.List.{List, [], ◌∷◌, ◌++◌, Perm}
use mathlib.Core.List.Perm
use Prim.Native.Nat.{ℕ, min}
use native.Mathlib.Omega.{arith}
use recommendation_engine.Base.Tests.{if◌then◌else◌, Bool-cases}
use recommendation_engine.Base.Lists.{
  length, take, drop, All, All-append_inv, All-map, take-append-drop, length-take,
}

module _ {ℓ} {A : Type ℓ} (before : A → A → Bool) where
  pub insert : A → List A → List A
  insert x [] = x ∷ []
  insert x (y ∷ l) = let rest = insert x l in if before x y then x ∷ y ∷ l else y ∷ rest

  unfoldable pub sort_by : List A → List A
  unfolding insert
  sort_by [] = []
  sort_by (x ∷ l) = insert x (sort_by l)

  abbrev pub IsSorted : List A → Type 0
  IsSorted [] = Unit
  IsSorted (x ∷ l) = All (λ y. before x y ≡ true) l × IsSorted l

-- What a top-k selection promises of its output: in order, nothing lost or made up, nothing left
-- out that should stand before something kept, and as long as it can be.
pub record IsTopK {ℓ} {A : Type ℓ} (before : A → A → Bool) (k : ℕ) (input output : List A)
    : Type ℓ where
  pub left_out : List A
  pub perm : Perm (output ++ left_out) input
  pub sorted : IsSorted before output
  pub best : All (λ x. All (λ y. before x y ≡ true) left_out) output
  pub size : length output ≡ min k (length input)

module _ {ℓ} {A : Type ℓ} (before : A → A → Bool) where
  length-insert : (x : A) (l : List A) → length (insert before x l) ≡ length (x ∷ l)
  unfolding insert
  length-insert x [] = refl
  length-insert x (y ∷ l) = ground (arith, length-insert x l)

  pub length-sort_by : (l : List A) → length (sort_by before l) ≡ length l
  unfolding sort_by
  length-sort_by [] = refl
  length-sort_by (x ∷ l) = omega (arith, length-insert x (sort_by before l), length-sort_by l)

  insert-perm : (x : A) (l : List A) → Perm (insert before x l) (x ∷ l)
  unfolding insert
  insert-perm x [] = Perm.refl (x ∷ [])
  insert-perm x (y ∷ l) = elim (Bool-cases (before x y)) [
    | inl e ↦ rw e (Perm.refl (x ∷ y ∷ l))
    | inr e ↦ rw e (Perm.trans (Perm.cons y (insert-perm x l)) (Perm.swap x y l))
  ]

  -- Sorting moves elements and changes none.
  pub sort_by-perm : (l : List A) → Perm (sort_by before l) l
  unfolding sort_by
  sort_by-perm [] = Perm.refl []
  sort_by-perm (x ∷ l) =
      Perm.trans (insert-perm x (sort_by before l)) (Perm.cons x (sort_by-perm l))

  insert-All {κ} : (P : A → Type κ) (x : A) (l : List A) → P x → All P l → All P (insert before x l)
  unfolding insert
  insert-All P x [] p h = (p, tt)
  insert-All P x (y ∷ l) p h = elim (Bool-cases (before x y)) [
    | inl e ↦ rw e (p, h)
    | inr e ↦ rw e (h.0, insert-All P x l p h.1)
  ]

  pub sort_by-All {κ} : (P : A → Type κ) (l : List A) → All P l → All P (sort_by before l)
  unfolding sort_by
  sort_by-All P [] h = tt
  sort_by-All P (x ∷ l) h = insert-All P x (sort_by before l) h.0 (sort_by-All P l h.1)

  split-IsSorted :
      (xs ys : List A)
      → IsSorted before (xs ++ ys)
      → IsSorted before xs × All (λ x. All (λ y. before x y ≡ true) ys) xs
  split-IsSorted [] ys h = (tt, tt)
  split-IsSorted (x ∷ xs) ys h =
      let r = split-IsSorted xs ys h.1 in
      let a = All-append_inv (λ y. before x y ≡ true) xs ys h.0 in ((a.0, r.0), (a.1, r.1))

  -- A list in order already is left as it is: the sort is stable.
  pub sort_by_sorted : (l : List A) → IsSorted before l → sort_by before l ≡ l
  unfolding sort_by insert
  sort_by_sorted [] h = refl
  sort_by_sorted (x ∷ []) h = refl
  sort_by_sorted (x ∷ y ∷ l) h = rw (sort_by_sorted (y ∷ l) h.1) (ground (arith, h.0.0))

  module _ (total : (a b : A) → (before a b ≡ true) ⊎ (before b a ≡ true))
      (trans : (a b c : A) → before a b ≡ true → before b c ≡ true → before a c ≡ true) where
    insert-IsSorted : (x : A) (l : List A) → IsSorted before l → IsSorted before (insert before x l)
    unfolding insert
    insert-IsSorted x [] h = (tt, tt)
    insert-IsSorted x (y ∷ l) h = elim (Bool-cases (before x y)) [
      | inl e ↦ rw e (
        (e, All-map (λ z. before y z ≡ true) (λ z. before x z ≡ true) (λ z. trans x y z e) l h.0),
        h,
      )
      | inr e ↦ rw e (
        insert-All (λ z. before y z ≡ true) x l (ground (arith, total x y)) h.0,
        insert-IsSorted x l h.1,
      )
    ]

    pub sort_by-IsSorted : (l : List A) → IsSorted before (sort_by before l)
    unfolding sort_by
    sort_by-IsSorted [] = tt
    sort_by-IsSorted (x ∷ l) = insert-IsSorted x (sort_by before l) (sort_by-IsSorted l)

    -- `sorted(l)[:k]` is a top-k selection.
    pub take-sort_by-IsTopK : (k : ℕ) (l : List A) → IsTopK before k l (take k (sort_by before l))
    take-sort_by-IsTopK k l =
        let s = sort_by before l in
        let parts = take-append-drop k s in
        let halves =
          split-IsSorted (take k s) (drop k s)
            (subst (IsSorted before) (sym parts) (sort_by-IsSorted l)) in
        record {
          left_out = drop k s;
          perm = subst (λ m. Perm m l) (sym parts) (sort_by-perm l);
          sorted = halves.0;
          best = halves.1;
          size = omega (arith, length-take k s, length-sort_by l);
        }
