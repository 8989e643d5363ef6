-- ===== src/Limits/Capacity.antt =====
-- workspace_limits.py: the cap on the items of a workspace (`ensure_item_capacity`). A workspace's
-- items are given by their external ids, each once.
use mathlib.Core.Path.{subst}
use recommendation_engine.Base.{
  ℕ, zero, suc, ◌+◌, ◌-◌, ◌≤◌, ◌≡◌, refl, sym, ap, ◌∙◌, inl, inr, String, true, false, Option, none,
  some, List, [], ◌∷◌, ◌++◌, ltb, arith, length, take, drop, keep, take-append-drop, Bool-cases,
  if◌then◌else◌, eq_iff,
}
use recommendation_engine.Base.Dict.{member, Distinct}
use recommendation_engine.Base.Result.{Result, ok, err}
use recommendation_engine.Limits.{LimitError}

-- `dict.fromkeys(external_ids)`: each id where it comes first
unique_from : List String → List String → List String
unique_from seen [] = []
unique_from seen (x ∷ xs) =
    if member x seen then unique_from seen xs else x ∷ unique_from (x ∷ seen) xs

-- `external_id IN (chunk)`, counted
pub existing_in : List String → List String → ℕ
existing_in stored chunk = length (keep (λ i. member i chunk) stored)

-- `for start in range(0, len(unique_ids), chunk)`, on fuel: one step for each chunk, so that the number
-- of ids is enough.
pub existing_from : ℕ → ℕ → List String → List String → ℕ
unfolding existing_in
existing_from zero size stored ids = 0
existing_from (suc fuel) size stored [] = 0
existing_from (suc fuel) size stored (i ∷ ids) =
    existing_in stored (take size (i ∷ ids)) + existing_from fuel size stored (drop size (i ∷ ids))

unfoldable pub ensure_item_capacity :
    Option ℕ → List String → List String → Result LimitError (Unit {0})
unfolding unique_from existing_from
ensure_item_capacity none stored external_ids = ok tt
ensure_item_capacity (some limit) stored external_ids =
    let ids = unique_from [] external_ids in
    let existing = existing_from (length ids) 1000 stored ids in
    if ltb limit (length stored + (length ids - existing)) then err LimitError.item_limit else ok tt

-- The ids of a workspace after the upload: those that are not there yet are added.
abbrev pub upload : List String → List String → List String
upload stored [] = stored
upload stored (x ∷ xs) = upload (if member x stored then stored else x ∷ stored) xs

-- The ids that are stored already, and those that are not, counted one by one.
abbrev known : List String → List String → ℕ
known stored [] = 0
known stored (x ∷ xs) = (if member x stored then 1 else 0) + known stored xs

abbrev fresh : List String → List String → ℕ
fresh stored [] = 0
fresh stored (x ∷ xs) = (if member x stored then 0 else 1) + fresh stored xs

known-fresh : (stored ids : List String) → known stored ids + fresh stored ids ≡ length ids
known-fresh stored [] = omega arith
known-fresh stored (x ∷ ids) = ground (arith, known-fresh stored ids)

known-append : (stored a b : List String) → known stored (a ++ b) ≡ known stored a + known stored b
known-append stored [] b = omega arith
known-append stored (x ∷ a) b = omega (arith, known-append stored a b)

existing_in-nil : (stored : List String) → existing_in stored [] ≡ 0
unfolding existing_in
existing_in-nil [] = refl
existing_in-nil (i ∷ stored) = existing_in-nil stored

existing_in-cons :
    (x : String) (stored ids : List String)
    → Distinct stored
    → member x ids ≡ false
    → existing_in stored (x ∷ ids) ≡ (if member x stored then 1 else 0) + existing_in stored ids
unfolding existing_in
existing_in-cons x [] ids u n = omega arith
existing_in-cons x (i ∷ stored) ids u n =
    ground (arith, eq_iff x i, eq_iff i x, existing_in-cons x stored ids u.1 n)

existing_in-known :
    (stored ids : List String)
    → Distinct stored
    → Distinct ids
    → existing_in stored ids ≡ known stored ids
existing_in-known stored [] u d = existing_in-nil stored
existing_in-known stored (x ∷ ids) u d =
    omega (arith, existing_in-cons x stored ids u d.0, existing_in-known stored ids u d.1)

member-append :
    (x : String) (a b : List String)
    → member x (a ++ b) ≡ false
    → (member x a ≡ false) × (member x b ≡ false)
member-append x [] b h = (refl, h)
member-append x (y ∷ a) b h = ground (arith, member-append x a b)

Distinct-append : (a b : List String) → Distinct (a ++ b) → Distinct a × Distinct b
Distinct-append [] b d = (tt, d)
Distinct-append (x ∷ a) b d =
    let r = Distinct-append a b d.1 in (((member-append x a b d.0).0, r.0), r.1)

drop-le : (n : ℕ) (ids : List String) (m : ℕ) → length ids ≤ m → length (drop n ids) ≤ m
drop-le zero ids m h = h
drop-le (suc n) [] m h = omega arith
drop-le (suc n) (x ∷ ids) m h = drop-le n ids m (omega arith)

-- Chunk by chunk, the same ids are counted as all at once.
existing_from-known :
    (fuel size : ℕ) (stored ids : List String)
    → Distinct stored
    → Distinct ids
    → length ids ≤ fuel
    → existing_from fuel (suc size) stored ids ≡ known stored ids
unfolding existing_from
existing_from-known zero size stored [] u d h = refl
existing_from-known zero size stored (i ∷ ids) u d h = absurd (omega arith)
existing_from-known (suc fuel) size stored [] u d h = refl
existing_from-known (suc fuel) size stored (i ∷ ids) u d h =
    let parts = take-append-drop (suc size) (i ∷ ids) in
    let halves =
      Distinct-append (take (suc size) (i ∷ ids)) (drop (suc size) (i ∷ ids))
        (subst Distinct (sym parts) d) in
    let a = existing_in-known stored (take (suc size) (i ∷ ids)) u halves.0 in
    let b =
      existing_from-known fuel size stored (drop (suc size) (i ∷ ids)) u halves.1
        (drop-le size ids fuel (omega arith)) in
    let c = known-append stored (take (suc size) (i ∷ ids)) (drop (suc size) (i ∷ ids)) in
    rw (a, b) (sym c ∙ ap (known stored) parts)

member-unique_from :
    (x : String) (seen xs : List String)
    → member x seen ≡ true
    → member x (unique_from seen xs) ≡ false
unfolding unique_from
member-unique_from x seen [] h = refl
member-unique_from x seen (y ∷ xs) h =
    ground (arith, eq_iff y x, member-unique_from x seen xs, member-unique_from x (y ∷ seen) xs)

unique_from-Distinct : (seen xs : List String) → Distinct (unique_from seen xs)
unfolding unique_from
unique_from-Distinct seen [] = tt
unique_from-Distinct seen (x ∷ xs) = elim (Bool-cases (member x seen)) [
  | inl e ↦ rw e (unique_from-Distinct seen xs)
  | inr e ↦ rw e (
    member-unique_from x (x ∷ seen) xs (ground (arith, eq_iff x x)),
    unique_from-Distinct (x ∷ seen) xs,
  )
]

length-upload :
    (stored now seen xs : List String)
    → ((i : String) → member i now ≡ (if member i stored then true else member i seen))
    → length (upload now xs) ≡ length now + fresh stored (unique_from seen xs)
unfolding unique_from
length-upload stored now seen [] h = omega arith
length-upload stored now seen (x ∷ xs) h = elim (Bool-cases (member x seen)) [
  | inl e ↦
      let m : member x now ≡ true = ground (arith, h x) in
      rw (e, m) (length-upload stored now seen xs h)
  | inr e ↦ elim (Bool-cases (member x stored)) [
    | inl s ↦
        let m : member x now ≡ true = ground (arith, h x) in
        let r = length-upload stored now (x ∷ seen) xs (λ i. ground (arith, h i, eq_iff x i)) in
        rw (e, m, s) (omega (arith, r))
    | inr s ↦
        let m : member x now ≡ false = ground (arith, h x) in
        let r =
          length-upload stored (x ∷ now) (x ∷ seen) xs (λ i. ground (arith, h i, eq_iff x i)) in
        rw (e, m, s) (omega (arith, r))
  ]
]

-- An upload that `ensure_item_capacity` lets through leaves a workspace, whose item ids are
-- distinct, within its limit.
pub ensure_item_capacity-upload :
    (limit : ℕ) (stored external_ids : List String)
    → Distinct stored
    → ensure_item_capacity (some limit) stored external_ids ≡ ok tt
    → length (upload stored external_ids) ≤ limit
unfolding ensure_item_capacity
ensure_item_capacity-upload limit stored external_ids u h =
    let ids = unique_from [] external_ids in
    let d = unique_from-Distinct [] external_ids in
    let e = existing_from-known (length ids) 999 stored ids u d (omega arith) in
    let n = length-upload stored stored [] external_ids (λ i. ground arith) in
    let k = known-fresh stored ids in
    let fits : length stored + (length ids - existing_from (length ids) 1000 stored ids) ≤ limit =
      ground (arith, h) in
    omega (arith, e, n, k, fits)
