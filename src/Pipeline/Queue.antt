-- ===== src/Pipeline/Queue.antt =====
-- pipeline.py: claiming and handing back items, and the progress of a batch. Each function is the
-- statement it sends to the database, on the table of items.
use recommendation_engine.Base.{
  ℕ, ◌+◌, ◌-◌, ◌≡◌, refl, sym, inl, inr, String, Bool, true, false, ◌&&◌, ◌||◌, Option, none, some,
  List, [], ◌∷◌, map, keep, length, ltb, ◌==◌, arith, str_eq, eq_iff, Bool-cases, if◌then◌else◌,
  take,
}
use recommendation_engine.Base.Dict.{member}
use recommendation_engine.Base.Sort.{sort_by}
use recommendation_engine.Pipeline.{Status, same_status, Item}

module _ {V : Type 0} where
  abbrev pub is_pending : Item V → Bool
  is_pending i = same_status i.embedding_status Status.pending

  abbrev pub is_processing : Item V → Bool
  is_processing i = same_status i.embedding_status Status.processing

  unfoldable pub ids : List (Item V) → List String
  ids [] = []
  ids (i ∷ is) = i.id ∷ ids is

  -- `order_by(Item.created_at, Item.id)`, for the database's order of ids
  abbrev pub older : (String → String → Bool) → Item V → Item V → Bool
  older id_order a b =
      ltb a.created_at b.created_at || (a.created_at == b.created_at && id_order a.id b.id)

  -- The first statement of `claim_items`
  unfoldable pub candidates :
      (String → String → Bool) → (Item V → Bool) → ℕ → List (Item V) → List String
  unfolding ids
  candidates id_order where_ limit db =
      ids (take limit (sort_by (older id_order) (keep (λ i. is_pending i && where_ i) db)))

  -- Its second: the claimed ids, and the table after it.
  abbrev pub is_claimable : List String → Item V → Bool
  is_claimable chosen i = member i.id chosen && is_pending i

  unfoldable pub claim : ℕ → List String → List (Item V) → List String × List (Item V)
  unfolding ids
  claim now chosen db = (
    ids (keep (is_claimable chosen) db),
    map
        (λ (i : Item V).
          if is_claimable chosen i
          then record i { embedding_status = Status.processing; updated_at = now }
          else i)
        db,
  )

  -- `release_items`
  unfoldable pub release_items : ℕ → List String → List (Item V) → List (Item V)
  release_items now item_ids db =
      map
        (λ (i : Item V).
          if member i.id item_ids && is_processing i
          then record i { embedding_status = Status.pending; updated_at = now }
          else i)
        db

  abbrev pub is_stale : ℕ → Item V → Bool
  is_stale cutoff i = is_processing i && ltb i.updated_at cutoff

  -- `release_stale_items`: how many it released, and the table
  unfoldable pub release_stale_items : ℕ → ℕ → List (Item V) → ℕ × List (Item V)
  release_stale_items now stale_after db = (
    length (keep (is_stale (now - stale_after)) db),
    map
        (λ (i : Item V).
          if is_stale (now - stale_after) i
          then record i { embedding_status = Status.pending; updated_at = now }
          else i)
        db,
  )

-- models/item_batch.py
pub data BatchStatus : Type 0 where
  pending processing done partial_fail : BatchStatus

pub record ItemBatch : Type 0 where
  pub id : String
  pub total_items : ℕ
  pub processed_items : ℕ
  pub failed_items : ℕ
  pub status : BatchStatus
  pub completed_at : Option ℕ

abbrev pub is_complete : BatchStatus → Bool
is_complete BatchStatus.done = true
is_complete BatchStatus.partial_fail = true
is_complete BatchStatus.pending = false
is_complete BatchStatus.processing = false

module _ {V : Type 0} where
  -- `Item.batch_id == batch.id`
  abbrev pub in_batch : String → Item V → Bool
  in_batch b i = elim i.batch_id [ none ↦ false | some c ↦ str_eq c b ]

  -- `SELECT embedding_status, count(*) ... GROUP BY embedding_status`, at one status
  abbrev pub count_status : Status → List (Item V) → ℕ
  count_status s [] = 0
  count_status s (i ∷ is) = (if same_status i.embedding_status s then 1 else 0) + count_status s is

  counted : ℕ → List (Item V) → ItemBatch → ItemBatch
  counted now is b =
      let n_done = count_status Status.done is in
      let n_failed = count_status Status.failed is in
      let n_processing = count_status Status.processing is in
      let c = record b { processed_items = n_done; failed_items = n_failed } in
      if count_status Status.pending is + n_processing == 0
      then record c {
        status = if n_failed == 0 then BatchStatus.done else BatchStatus.partial_fail;
        completed_at = some now;
      }
      else if n_done == 0 && n_failed == 0 && n_processing == 0
      then c
      else record c { status = BatchStatus.processing }

  unfoldable pub refresh_batch : ℕ → List (Item V) → ItemBatch → ItemBatch
  unfolding counted
  refresh_batch now db b =
      if is_complete b.status then b else counted now (keep (in_batch b.id) db) b

  member-claimed :
      (x : String) (mine : List String) (db : List (Item V))
      → member x (ids (keep (is_claimable mine) db)) ≡ true
      → member x mine ≡ true
  unfolding ids
  member-claimed x mine [] h = absurd (cc)
  member-claimed x mine (i ∷ db) h = elim (Bool-cases (is_claimable mine i)) [
    | inl e ↦ elim (Bool-cases (str_eq i.id x)) [
      | inl s ↦ rw (sym ((eq_iff i.id x).0 s)) (ground arith)
      | inr s ↦ member-claimed x mine db (ground arith)
    ]
    | inr e ↦ member-claimed x mine db (ground arith)
  ]

  abbrev taken : ℕ → List String → Item V → Item V
  taken now mine i =
      if is_claimable mine i
      then record i { embedding_status = Status.processing; updated_at = now }
      else i

  not_claimable-taken :
      (now : ℕ) (mine yours : List String) (i : Item V)
      → is_claimable mine i ≡ true
      → is_claimable yours (taken now mine i) ≡ false
  not_claimable-taken now mine yours i e = rw (e, taken) (ground arith)

  not_first :
      (i : Item V) (x : String) (mine yours : List String)
      → member x mine ≡ true
      → is_claimable mine i ≡ false
      → is_claimable yours i ≡ true
      → str_eq i.id x ≡ false
  not_first i x mine yours h e f = elim (Bool-cases (str_eq i.id x)) [
    | inl s ↦
        let p : is_pending i ≡ true = ground arith in
        let m : member i.id mine ≡ true = rw ((eq_iff i.id x).0 s) h in absurd (ground arith)
    | inr s ↦ s
  ]

  member-taken :
      (now : ℕ) (x : String) (mine yours : List String) (db : List (Item V))
      → member x mine ≡ true
      → member x (ids (keep (is_claimable yours) (map (taken now mine) db))) ≡ false
  unfolding ids
  member-taken now x mine yours [] h = refl
  member-taken now x mine yours (i ∷ db) h = elim (Bool-cases (is_claimable mine i)) [
    | inl e ↦ rw (not_claimable-taken now mine yours i e) (member-taken now x mine yours db h)
    | inr e ↦
        let k : taken now mine i ≡ i = rw (e, taken) refl in
        rw k (elim (Bool-cases (is_claimable yours i)) [
          | inr f ↦ rw f (member-taken now x mine yours db h)
          | inl f ↦
              rw f (rw (member-taken now x mine yours db h, not_first i x mine yours h e f) refl)
        ])
  ]

  -- An item that one claim chose cannot be claimed by another after it, whatever the other chose and
  -- whenever it looked for candidates.
  pub claim-disjoint :
      (now later : ℕ) (mine yours : List String) (db : List (Item V)) (x : String)
      → member x (claim now mine db).0 ≡ true
      → member x (claim later yours (claim now mine db).1).0 ≡ false
  unfolding claim
  claim-disjoint now later mine yours db x h =
      member-taken now x mine yours db (member-claimed x mine db h)

  counted_complete :
      (now : ℕ) (items : List (Item V)) (b : ItemBatch)
      → is_complete b.status ≡ false
      → (is_complete (counted now items b).status
          ≡ (count_status Status.pending items + count_status Status.processing items == 0))
        × ((counted now items b).processed_items ≡ count_status Status.done items)
        × ((counted now items b).failed_items ≡ count_status Status.failed items)
  unfolding counted
  counted_complete now items b h =
      let outstanding =
        count_status Status.pending items + count_status Status.processing items == 0 in
      elim (Bool-cases outstanding) [
        | inl e ↦ rw e (ground arith, refl, refl)
        | inr e ↦
            elim (Bool-cases (
              count_status Status.done items == 0
              && count_status Status.failed items == 0
              && count_status Status.processing items == 0)) [
                | inl f ↦ rw (e, f) (h, refl, refl)
                | inr f ↦ rw (e, f) (refl, refl, refl)
              ]
      ]

  -- A batch that is not complete becomes complete exactly when none of its items is pending or
  -- being processed, and its counters become those of its done and failed items.
  pub refresh_batch_complete :
      (now : ℕ) (db : List (Item V)) (b : ItemBatch)
      → is_complete b.status ≡ false
      → let items = keep (in_batch b.id) db in
        let after = refresh_batch now db b in
        (is_complete after.status
          ≡ (count_status Status.pending items + count_status Status.processing items == 0))
        × (after.processed_items ≡ count_status Status.done items)
        × (after.failed_items ≡ count_status Status.failed items)
  unfolding refresh_batch counted
  refresh_batch_complete now db b h = rw h (counted_complete now (keep (in_batch b.id) db) b h)
