-- ===== src/Pipeline/Loop/Counts.antt =====
-- pipeline.py: what one turn of `process_batch` does to the number of pending items, and to the ids.
use mathlib.Core.Path.{subst, ap₂}
use mathlib.Core.Bool.{false≢true}
use recommendation_engine.Base.{
  ℕ, ◌+◌, ◌≤◌, ◌≡◌, refl, sym, ap, ◌∙◌, ◌⊎◌, inl, inr, String, Bool, true, false, ◌&&◌, List, [],
  ◌∷◌, map, keep, arith, str_eq, eq_iff, length, All, take, take-All, length-take, In, All-In,
  keep-All, Bool-cases, List-cases, if◌then◌else◌,
}
use recommendation_engine.Base.Dict.{member, Distinct}
use recommendation_engine.Base.Sort.{sort_by, sort_by-All, length-sort_by}
use recommendation_engine.Pipeline.{Status, same_status, Item}
use recommendation_engine.Pipeline.Process.{IsFinal}
use recommendation_engine.Pipeline.Queue.{
  ids, is_pending, is_claimable, older, candidates, count_status,
}
use recommendation_engine.Pipeline.Loop.{written, save, rows_of}

IsFinal-pending : (s : Status) → IsFinal s → same_status s Status.pending ≡ false
IsFinal-pending s (inl e) = rw e refl
IsFinal-pending s (inr e) = rw e refl

module _ {V : Type 0} where
  abbrev pub pending : List (Item V) → ℕ
  pending = count_status Status.pending

  abbrev pub taken : ℕ → List String → Item V → Item V
  taken now mine i =
      if is_claimable mine i
      then record i { embedding_status = Status.processing; updated_at = now }
      else i

  -- Each claimed id is a pending item less.
  pub pending-claim :
      (now : ℕ) (chosen : List String) (db : List (Item V))
      → pending (map (taken now chosen) db) + length (ids (keep (is_claimable chosen) db))
        ≡ pending db
  unfolding ids
  pending-claim now chosen [] = refl
  pending-claim now chosen (i ∷ db) = elim (Bool-cases (is_claimable chosen i)) [
    | inl e ↦ rw e (ground (arith, pending-claim now chosen db, e))
    | inr e ↦ rw e (ground (arith, pending-claim now chosen db))
  ]

  written-pending :
      (items : List (Item V)) (row : Item V)
      → All (λ i. IsFinal i.embedding_status) items
      → (is_pending (written items row) ≡ false) ⊎ (written items row ≡ row)
  unfolding written
  written-pending [] row h = inr refl
  written-pending (i ∷ is) row h = elim (Bool-cases (str_eq i.id row.id)) [
    | inl e ↦ rw e (inl (IsFinal-pending i.embedding_status h.0))
    | inr e ↦ rw e (written-pending is row h.1)
  ]

  pub pending-save :
      (items db : List (Item V))
      → All (λ i. IsFinal i.embedding_status) items
      → pending (save items db) ≤ pending db
  unfolding save
  pending-save items [] h = omega arith
  pending-save items (row ∷ db) h = elim (written-pending items row h) [
    | inl e ↦ ground (arith, e, pending-save items db h)
    | inr e ↦ rw e (omega (arith, pending-save items db h))
  ]

  id-written : (items : List (Item V)) (row : Item V) → (written items row).id ≡ row.id
  unfolding written
  id-written [] row = refl
  id-written (i ∷ is) row = elim (Bool-cases (str_eq i.id row.id)) [
    | inl e ↦ rw e ((eq_iff i.id row.id).0 e)
    | inr e ↦ rw e (id-written is row)
  ]

  pub ids-save : (items db : List (Item V)) → ids (save items db) ≡ ids db
  unfolding save ids
  ids-save items [] = refl
  ids-save items (row ∷ db) = ap₂ ◌∷◌ (id-written items row) (ids-save items db)

  pub ids-taken :
      (now : ℕ) (chosen : List String) (db : List (Item V))
      → ids (map (taken now chosen) db) ≡ ids db
  unfolding ids
  ids-taken now chosen [] = refl
  ids-taken now chosen (i ∷ db) = elim (Bool-cases (is_claimable chosen i)) [
    | inl e ↦ rw e (ap (◌∷◌ i.id) (ids-taken now chosen db))
    | inr e ↦ rw e (ap (◌∷◌ i.id) (ids-taken now chosen db))
  ]

  not_head :
      (x : String) (db : List (Item V))
      → member x (ids db) ≡ false
      → All (λ (i : Item V). str_eq x i.id ≡ false) db
  unfolding ids
  not_head x [] h = tt
  not_head x (i ∷ db) h =
      (ground (arith, eq_iff x i.id, eq_iff i.id x), not_head x db (ground arith))

  member-kept :
      (x : String) (p : Item V → Bool) (db : List (Item V))
      → member x (ids db) ≡ false
      → member x (ids (keep p db)) ≡ false
  unfolding ids
  member-kept x p [] h = refl
  member-kept x p (i ∷ db) h = elim (Bool-cases (p i)) [
    | inl e ↦ rw e (ground (arith, member-kept x p db))
    | inr e ↦ rw e (member-kept x p db (ground arith))
  ]

  -- An item whose id was claimed is one that could be claimed.
  abbrev Claims : List String → List String → Item V → Type 0
  Claims chosen got i = (member i.id got ≡ false) ⊎ (is_claimable chosen i ≡ true)

  Claims-more :
      (chosen : List String) (x : String) (got : List String) (db : List (Item V))
      → All (λ (i : Item V). str_eq x i.id ≡ false) db
      → All (Claims chosen got) db
      → All (Claims chosen (x ∷ got)) db
  Claims-more chosen x got [] h k = tt
  Claims-more chosen x got (i ∷ db) h k =
      (ground (arith, h.0, k.0), Claims-more chosen x got db h.1 k.1)

  pub claim-Claims :
      (chosen : List String) (db : List (Item V))
      → Distinct (ids db)
      → All (Claims chosen (ids (keep (is_claimable chosen) db))) db
  unfolding ids
  claim-Claims chosen [] h = tt
  claim-Claims chosen (i ∷ db) h = elim (Bool-cases (is_claimable chosen i)) [
    | inl e ↦
        let k : keep (is_claimable chosen) (i ∷ db) ≡ i ∷ keep (is_claimable chosen) db =
          rw e refl in
        subst (λ l. All (Claims chosen (ids l)) (i ∷ db)) (sym k)
          (
            inr e,
            Claims-more chosen i.id (ids (keep (is_claimable chosen) db)) db (not_head i.id db h.0)
                (claim-Claims chosen db h.1),
          )
    | inr e ↦
        let k : keep (is_claimable chosen) (i ∷ db) ≡ keep (is_claimable chosen) db = rw e refl in
        subst (λ l. All (Claims chosen (ids l)) (i ∷ db)) (sym k)
          (inl (member-kept i.id (is_claimable chosen) db h.0), claim-Claims chosen db h.1)
  ]

  pub rows-Processing :
      (now : ℕ) (chosen got : List String) (db : List (Item V))
      → All (Claims chosen got) db
      → All (λ i. i.embedding_status ≡ Status.processing) (rows_of got (map (taken now chosen) db))
  unfolding rows_of
  rows-Processing now chosen got [] h = tt
  rows-Processing now chosen got (i ∷ db) h = elim (Bool-cases (is_claimable chosen i)) [
    | inl e ↦ elim (Bool-cases (member i.id got)) [
      | inl m ↦ rw (e, m) (refl, rows-Processing now chosen got db h.1)
      | inr m ↦ rw (e, m) (rows-Processing now chosen got db h.1)
    ]
    | inr e ↦
        let m : member i.id got ≡ false = ground (arith, h.0, e) in
        rw (e, m) (rows-Processing now chosen got db h.1)
  ]

  -- A pending item that is chosen is claimed.
  In-claimed :
      (chosen : List String) (i : Item V) (db : List (Item V))
      → In i db
      → is_claimable chosen i ≡ true
      → 1 ≤ length (ids (keep (is_claimable chosen) db))
  unfolding ids
  In-claimed chosen i [] h k = elim h [ ]
  In-claimed chosen i (j ∷ db) h k = elim (Bool-cases (is_claimable chosen j)) [
    | inl e ↦ rw e (omega arith)
    | inr e ↦ rw e (elim h [
      | inl s ↦ absurd (false≢true (sym e ∙ subst (λ x. is_claimable chosen x ≡ true) s k))
      | inr m ↦ In-claimed chosen i db m k
    ])
  ]

  pub nothing_taken :
      (now : ℕ) (chosen : List String) (db : List (Item V))
      → ids (keep (is_claimable chosen) db) ≡ []
      → map (taken now chosen) db ≡ db
  unfolding ids
  nothing_taken now chosen [] h = refl
  nothing_taken now chosen (i ∷ db) h = elim (Bool-cases (is_claimable chosen i)) [
    | inl e ↦
        let k : ids (keep (is_claimable chosen) (i ∷ db))
            ≡ i.id ∷ ids (keep (is_claimable chosen) db) =
          rw e refl in
        absurd (omega (arith, ap length (sym k ∙ h)))
    | inr e ↦
        let k : ids (keep (is_claimable chosen) (i ∷ db)) ≡ ids (keep (is_claimable chosen) db) =
          rw e refl in
        rw e (ap (◌∷◌ i) (nothing_taken now chosen db (sym k ∙ h)))
  ]

  pending-keep :
      (where_ : Item V → Bool) (db : List (Item V))
      → pending (keep where_ db) ≡ length (keep (λ j. is_pending j && where_ j) db)
  pending-keep where_ [] = refl
  pending-keep where_ (i ∷ db) = ground (arith, pending-keep where_ db)

  module _ (id_order : String → String → Bool) (where_ : Item V → Bool) (limit : ℕ)
      (some_limit : 1 ≤ limit) where
    unfoldable pub chosen : List (Item V) → List String
    chosen db = candidates id_order where_ limit db

    -- Where an item is pending, one is claimed.
    claims_one :
        (i : Item V) (rest db : List (Item V))
        → take limit (sort_by (older id_order) (keep (λ j. is_pending j && where_ j) db)) ≡ i ∷ rest
        → 1 ≤ length (ids (keep (is_claimable (chosen db)) db))
    unfolding chosen candidates ids
    claims_one i rest db e =
        let wanted = λ (j : Item V). is_pending j && where_ j in
        let all : All (λ j. In j db × (wanted j ≡ true))
            (take limit (sort_by (older id_order) (keep wanted db))) =
          take-All (λ j. In j db × (wanted j ≡ true)) limit _
            (sort_by-All (older id_order) (λ j. In j db × (wanted j ≡ true)) _
              (keep-All (λ j. In j db) wanted db (All-In db))) in
        let first : In i db × (wanted i ≡ true) =
          (subst (All (λ j. In j db × (wanted j ≡ true))) e all).0 in
        let c : is_claimable (chosen db) i ≡ true =
          let m : member i.id (chosen db) ≡ true =
            ap (λ l. member i.id (ids l)) e ∙ ground (arith, eq_iff i.id i.id) in
          ground (arith, m, first.1) in
        In-claimed (chosen db) i db first.0 c

    pub none_left :
        (db : List (Item V))
        → length (ids (keep (is_claimable (chosen db)) db)) ≡ 0
        → pending (keep where_ db) ≡ 0
    none_left db h =
        let sorted = sort_by (older id_order) (keep (λ j. is_pending j && where_ j) db) in
        elim (List-cases (take limit sorted)) [
          | inl e ↦ omega (
            arith,
            some_limit,
            ap length e,
            length-take limit sorted,
            length-sort_by (older id_order) (keep (λ j. is_pending j && where_ j) db),
            pending-keep where_ db,
          )
          | inr (i, rest, e) ↦ absurd (omega (arith, h, claims_one i rest db e))
        ]
