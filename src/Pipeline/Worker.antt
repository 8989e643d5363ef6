-- ===== src/Pipeline/Worker.antt =====
-- pipeline.py: `process_pending`, the worker's turn: stale work is taken back, then one chunk of any
-- workspace's items is processed.
pub mod Laws
use recommendation_engine.Base.{
  ℕ, String, Bool, true, false, Option, none, some, List, [], ◌∷◌, ◌++◌, map, length, any_of, not,
  ◌&&◌, str_eq, if◌then◌else◌,
}
use recommendation_engine.Base.Dict.{Dict, member, lookup, put}
use recommendation_engine.Base.Result.{Result, ok, err}
use recommendation_engine.Pipeline.{
  Item, PipelineError, wrong_length, embedding_unavailable, store_unavailable, Services,
  process_items,
}
use recommendation_engine.Pipeline.Queue.{
  ids, candidates, claim, ItemBatch, is_complete, refresh_batch, release_items, release_stale_items,
}
use recommendation_engine.Pipeline.Loop.{save, rows_of}

-- The tables that the worker writes.
pub record Tables (V : Type 0) : Type 0 where
  pub items : List (Item V)
  pub batches : List ItemBatch

module _ {V : Type 0} where
  found_or_empty : Option (List (Item V)) → List (Item V)
  found_or_empty none = []
  found_or_empty (some is) = is

  -- `by_tenant`
  by_tenant : List (Item V) → Dict (List (Item V)) → Dict (List (Item V))
  unfolding found_or_empty
  by_tenant [] d = d
  by_tenant (i ∷ is) d =
      by_tenant is (put i.tenant_id (found_or_empty (lookup i.tenant_id d) ++ i ∷ []) d)

  -- `{i.batch_id for i in items if i.batch_id}`
  batch_ids : List (Item V) → List String
  batch_ids [] = []
  batch_ids (i ∷ is) =
      let rest = batch_ids is in elim i.batch_id [ none ↦ rest | some b ↦ b ∷ rest ]

  -- Whether the `finally` refreshes a batch, and so commits.
  pub refreshes : List (Item V) → List ItemBatch → Bool
  unfolding batch_ids
  refreshes items =
      any_of (λ (b : ItemBatch). member b.id (batch_ids items) && not (is_complete b.status))

  -- The `finally`
  refreshed : ℕ → List (Item V) → Tables V → Tables V
  unfolding batch_ids
  refreshed now items t = record t {
    batches =
        map
          (λ (b : ItemBatch).
            if member b.id (batch_ids items) then refresh_batch now t.items b else b)
          t.batches;
  }

module _ {V W : Type 0} (svc : String → Option (Services V W))
    (id_order : String → String → Bool) where
  -- What a workspace's items leave of the table, and what ended the work. After a ValueError the
  -- session is committed only by the refresh of a batch (`kept`).
  committed :
      Bool
      → List (Item V)
      → List (Item V) × Option PipelineError
      → List (Item V) × Option PipelineError
  committed kept db (items, none) = (save items db, none)
  committed kept db (items, some wrong_length) =
      (if kept then save items db else db, some wrong_length)
  committed kept db (items, some embedding_unavailable) =
      (save items db, some embedding_unavailable)
  committed kept db (items, some store_unavailable) = (save items db, some store_unavailable)

  -- The body of the loop: the items of a workspace that is gone are passed over.
  pub one_tenant :
      Bool
      → Option (Services V W)
      → List (Item V)
      → List (Item V)
      → List (Item V) × Option PipelineError
  unfolding committed
  one_tenant kept none items db = (db, none)
  one_tenant kept (some s) items db = committed kept db (process_items s items)

  -- The loop over the workspaces, left at the first exception.
  pub each_tenant :
      Bool → Dict (List (Item V)) → List (Item V) → List (Item V) × Option PipelineError
  unfolding one_tenant
  each_tenant kept [] db = (db, none)
  each_tenant kept ((tenant, items) ∷ groups) db =
      let r = one_tenant kept (svc tenant) items db in
      let rest = each_tenant kept groups r.0 in elim r.1 [ none ↦ rest | some e ↦ (r.0, some e) ]

  -- The `except`: the claimed items that are still being processed are handed back.
  pub handed_back : ℕ → List String → List (Item V) × Option PipelineError → List (Item V)
  handed_back now claimed (db, none) = db
  handed_back now claimed (db, some wrong_length) = db
  handed_back now claimed (db, some embedding_unavailable) = release_items now claimed db
  handed_back now claimed (db, some store_unavailable) = release_items now claimed db

  abbrev pub outcome : ℕ → Option PipelineError → Result PipelineError ℕ
  outcome n none = ok n
  outcome n (some e) = err e

  -- The worker's turn once its chunk is claimed.
  pub work_chunk : ℕ → List String → Tables V → Result PipelineError ℕ × Tables V
  unfolding each_tenant handed_back by_tenant refreshed
  work_chunk now claimed t =
      let items = rows_of claimed t.items in
      let r = each_tenant (refreshes items t.batches) (by_tenant items []) t.items in
      (
        outcome (length items) r.1,
        refreshed now items (record t { items = handed_back now claimed r }),
      )

  unfoldable pub process_pending : ℕ → ℕ → ℕ → Tables V → Result PipelineError ℕ × Tables V
  unfolding work_chunk
  process_pending now stale_after limit t =
      let released = (release_stale_items now stale_after t.items).1 in
      let c = claim now (candidates id_order (λ i. true) limit released) released in
      work_chunk now c.0 (record t { items = c.1 })
