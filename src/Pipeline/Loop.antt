-- ===== src/Pipeline/Loop.antt =====
-- pipeline.py: `process_batch`, which claims a batch's items chunk by chunk until none is pending, and
-- `process_pending`, one chunk of any workspace's items.
mod Counts
pub mod Ends
use recommendation_engine.Base.{
  ℕ, zero, suc, ◌+◌, String, Bool, true, false, not, ◌&&◌, Option, none, some, List, [], ◌∷◌, map,
  keep, str_eq, length, if◌then◌else◌,
}
use recommendation_engine.Base.Dict.{member}
use recommendation_engine.Base.Result.{Result, ok, err}
use recommendation_engine.Pipeline.{
  Status, Item, PipelineError, wrong_length, embedding_unavailable, store_unavailable, Services,
  process_items,
}
use recommendation_engine.Pipeline.Queue.{
  candidates, claim, in_batch, ItemBatch, BatchStatus, refresh_batch, release_items,
  release_stale_items,
}

module _ {V : Type 0} where
  -- The row of an item that was worked on, as it is written back.
  pub written : List (Item V) → Item V → Item V
  written [] row = row
  written (i ∷ is) row = let rest = written is row in if str_eq i.id row.id then i else rest

  -- `session.commit()`
  pub save : List (Item V) → List (Item V) → List (Item V)
  unfolding written
  save items db = map (written items) db

  -- The end of `claim_items`: the claimed rows, as they are now.
  pub rows_of : List String → List (Item V) → List (Item V)
  rows_of chosen = keep (λ (i : Item V). member i.id chosen)

-- What a batch's table and progress are.
pub record Progress (V : Type 0) : Type 0 where
  pub items : List (Item V)
  pub batch : ItemBatch

-- How the loop ends: no item is left to claim, or an upstream failure paused it, or an exception that
-- `process_batch` does not handle left it.
pub data Ending : Type 0 where
  drained : Ending
  paused crashed : PipelineError → Ending

module _ {V W : Type 0} (svc : Services V W) (id_order : String → String → Bool)
    (limit now : ℕ) where
  -- What a round leaves: the items written back and the batch recounted, where nothing was raised.
  pub after_items :
      List (Item V) → ItemBatch → List (Item V) × Option PipelineError → Progress V × Option Ending
  unfolding save
  after_items db b (items, none) =
      let saved = save items db in
      (record { items = saved; batch = refresh_batch now saved b }, none)
  after_items db b (items, some wrong_length) =
      (record { items = db; batch = b }, some (crashed wrong_length))
  after_items db b (items, some embedding_unavailable) =
      (record { items = save items db; batch = b }, some (paused embedding_unavailable))
  after_items db b (items, some store_unavailable) =
      (record { items = save items db; batch = b }, some (paused store_unavailable))

  -- `claim_items`: the claimed items, and the table
  abbrev pub claimed : (Item V → Bool) → List (Item V) → List String × List (Item V)
  claimed where_ db = claim now (candidates id_order where_ limit db) db

  pub work_on : ItemBatch → List String × List (Item V) → Progress V × Option Ending
  unfolding after_items rows_of
  work_on b ([], db) = (record { items = db; batch = b }, some drained)
  work_on b (i ∷ chosen, db) = after_items db b (process_items svc (rows_of (i ∷ chosen) db))

  -- One turn of the `while`
  pub turn : Progress V → Progress V × Option Ending
  unfolding work_on
  turn p = work_on p.batch (claimed (in_batch p.batch.id) p.items)

  pub ended_or :
      Progress V × Option Ending → Option (Progress V × Ending) → Option (Progress V × Ending)
  ended_or (p, none) rest = rest
  ended_or (p, some e) rest = some (p, e)

  -- The `while` with its `except`; none is a loop that has not ended within `fuel` turns.
  pub turns : ℕ → Progress V → Option (Progress V × Ending)
  unfolding turn ended_or
  turns zero p = none
  turns (suc fuel) p = let r = turn p in let rest = turns fuel r.0 in ended_or r rest

  -- The `refresh_batch` after the loop, but for an exception that leaves the function.
  pub finish : Progress V × Ending → Progress V × Ending
  finish (p, crashed e) = (p, crashed e)
  finish (p, drained) = (record p { batch = refresh_batch now p.items p.batch }, drained)
  finish (p, paused e) = (record p { batch = refresh_batch now p.items p.batch }, paused e)

  pub finished : Option (Progress V × Ending) → Option (Progress V × Ending)
  unfolding finish
  finished none = none
  finished (some r) = some (finish r)

  -- `process_batch`, once the batch and its workspace are found
  unfoldable pub process_batch : ℕ → Progress V → Option (Progress V × Ending)
  unfolding turns finished
  process_batch fuel p = finished (turns fuel p)
