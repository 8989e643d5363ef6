-- ===== src/Personal/Laws.antt =====
-- What a user's history consists of.
use recommendation_engine.Base.{
  ℕ, ◌-◌, ◌≤◌, ◌≡◌, refl, inl, inr, String, true, some, List, [], ◌∷◌, keep, arith, str_eq, length,
  take, All, All-map, take-All, In, Bool-cases, Option-cases, length-take,
}
use recommendation_engine.Base.Sort.{sort_by, sort_by-All, IsTopK, take-sort_by-IsTopK}
use recommendation_engine.Pipeline.{Item}
use recommendation_engine.Personal.{
  UserFeedback, is_like, is_embedded, last_of, groups, newer, newest, ids_of, liked_items,
  history_size,
}

module _ {V : Type 0} (tenant user : String) (since : ℕ) (fbs : List UserFeedback) where
  -- An item of the table that the user liked, in the window, and that is embedded; with the time it
  -- was last liked.
  abbrev pub IsLiked : List (Item V) → Item V × ℕ → Type 0
  IsLiked db (i, t) =
      In i db × (is_embedded i ≡ true) × (last_of (keep (is_like tenant user since i) fbs) ≡ some t)

  groups-IsLiked : (db : List (Item V)) → All (IsLiked db) (groups tenant user since fbs db)
  unfolding groups
  groups-IsLiked [] = tt
  groups-IsLiked (i ∷ db) =
      let rest =
        All-map (IsLiked db) (IsLiked (i ∷ db)) (λ (j, t) (k, e, l). (inr k, e, l))
          (groups tenant user since fbs db) (groups-IsLiked db) in
      elim (Option-cases (last_of (keep (is_like tenant user since i) fbs))) [
        | inl n ↦ rw (n, groups) rest
        | inr (t, n) ↦ elim (Bool-cases (is_embedded i)) [
          | inl e ↦ rw (n, e, groups) ((inl refl, e, n), rest)
          | inr e ↦ rw (n, e, groups) rest
        ]
      ]

  -- The rows are the newest 20 of the user's liked items, the latest liked first.
  pub newest-IsTopK :
      (db : List (Item V))
      → IsTopK newer history_size
          (groups tenant user since fbs db)
          (newest tenant user since fbs db)
  unfolding newest
  newest-IsTopK db =
      take-sort_by-IsTopK newer (λ a b. ground arith) (λ a b c p q. ground arith) history_size
        (groups tenant user since fbs db)

  -- An id of the history belongs to such an item.
  abbrev pub IsHistory : List (Item V) → String → Type 0
  IsHistory db p = (i : Item V) × (t : ℕ) × IsLiked db (i, t) × (i.pinecone_id ≡ some p)

  ids_of-IsHistory :
      (db : List (Item V)) (is : List (Item V × ℕ))
      → All (IsLiked db) is
      → All (IsHistory db) (ids_of is) × (length (ids_of is) ≤ length is)
  unfolding ids_of
  ids_of-IsHistory db [] h = (tt, omega arith)
  ids_of-IsHistory db ((i, t) ∷ is) h =
      let rest = ids_of-IsHistory db is h.1 in
      elim (Option-cases i.pinecone_id) [
        | inl n ↦ rw n (rest.0, omega (arith, rest.1))
        | inr (p, n) ↦ elim (Bool-cases (str_eq p "")) [
          | inl e ↦ rw (n, e) (rest.0, omega (arith, rest.1))
          | inr e ↦ rw (n, e) (((i, t, h.0, n), rest.0), omega (arith, rest.1))
        ]
      ]

-- A user's history has at most 20 ids, each the vector of an embedded item of the table that the
-- user, in this workspace and within the window, clicked, liked, bought or applied to.
pub liked_items-IsHistory :
    {V : Type 0} (window now : ℕ) (tenant user : String) (fbs : List UserFeedback)
    (db : List (Item V))
    → All (IsHistory tenant user (now - window) fbs db) (liked_items window now tenant user fbs db)
      × (length (liked_items window now tenant user fbs db) ≤ 20)
unfolding liked_items newest
liked_items-IsHistory window now tenant user fbs db =
    let rows = groups tenant user (now - window) fbs db in
    let sorted = sort_by newer rows in
    let r = ids_of-IsHistory tenant user (now - window) fbs db (take history_size sorted) (
      take-All (IsLiked tenant user (now - window) fbs db) history_size sorted (
        sort_by-All newer (IsLiked tenant user (now - window) fbs db) rows
          (groups-IsLiked tenant user (now - window) fbs db))) in
    (r.0, omega (arith, r.1, length-take history_size sorted))
