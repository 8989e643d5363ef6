-- ===== src/Pipeline/Loop/Ends.antt =====
-- `process_batch` comes to an end, and leaves no item of its batch to be claimed.
use mathlib.Core.Path.{subst}
use recommendation_engine.Base.{
  ℕ, zero, suc, ◌+◌, ◌≤◌, ◌<◌, ◌≡◌, refl, sym, ap, ◌∙◌, String, Bool, Option, none, some, List, [],
  ◌∷◌, map, keep, arith, length, All,
}
use recommendation_engine.Base.Dict.{Distinct}
use recommendation_engine.Pipeline.{
  Status, Item, PipelineError, wrong_length, embedding_unavailable, store_unavailable, Services,
  process_items,
}
use recommendation_engine.Pipeline.Process.{Settled, process_items-Settled}
use recommendation_engine.Pipeline.Queue.{
  ids, is_claimable, candidates, claim, in_batch, ItemBatch, refresh_batch,
}
use recommendation_engine.Pipeline.Loop.{
  rows_of, Progress, Ending, drained, paused, crashed, after_items, work_on, turn, turns, ended_or,
  finish, finished, process_batch,
}
use recommendation_engine.Pipeline.Loop.Counts.{
  chosen, none_left, pending, taken, pending-claim, pending-save, ids-save, ids-taken, claim-Claims,
  rows-Processing, nothing_taken,
}

-- What has come of a batch: nothing of it is left to claim, or something was raised.
abbrev pub Drained : {V : Type 0} → Progress V × Ending → Type 0
Drained (p, drained) = pending (keep (in_batch p.batch.id) p.items) ≡ 0
Drained (p, paused e) = Unit
Drained (p, crashed e) = Unit

id-refresh_batch :
    {V : Type 0} (now : ℕ) (db : List (Item V)) (b : ItemBatch) → (refresh_batch now db b).id ≡ b.id
unfolding refresh_batch
id-refresh_batch now db b = ground arith

module _ {V W : Type 0} (svc : Services V W) (id_order : String → String → Bool) (limit now : ℕ)
    (some_limit : 1 ≤ limit) where
  -- What a turn leaves: less to do, or the end.
  abbrev Turned : Progress V → Progress V × Option Ending → Type 0
  Turned p (q, none) = (pending q.items < pending p.items) × Distinct (ids q.items)
  Turned p (q, some e) = Drained (q, e)

  after_items-Turned :
      (p : Progress V) (db : List (Item V)) (r : List (Item V) × Option PipelineError)
      → Settled r
      → pending db < pending p.items
      → Distinct (ids db)
      → Turned p (after_items svc id_order limit now db p.batch r)
  unfolding after_items
  after_items-Turned p db (items, none) h l d =
      (omega (arith, l, pending-save items db h), subst Distinct (sym (ids-save items db)) d)
  after_items-Turned p db (items, some wrong_length) h l d = tt
  after_items-Turned p db (items, some embedding_unavailable) h l d = tt
  after_items-Turned p db (items, some store_unavailable) h l d = tt

  work_on-Turned :
      (p : Progress V) (got : List String) (db : List (Item V))
      → (got ≡ [] → Drained (record { items = db; batch = p.batch }, drained))
      → All (λ i. i.embedding_status ≡ Status.processing) (rows_of got db)
      → pending db + length got ≤ pending p.items
      → Distinct (ids db)
      → Turned p (work_on svc id_order limit now p.batch (got, db))
  unfolding work_on
  work_on-Turned p [] db n h l d = n refl
  work_on-Turned p (x ∷ got) db n h l d =
      after_items-Turned p db (process_items svc (rows_of (x ∷ got) db))
        (process_items-Settled svc (rows_of (x ∷ got) db) h) (omega (arith, l)) d

  turn-Turned : (p : Progress V) → Distinct (ids p.items) → Turned p (turn svc id_order limit now p)
  unfolding turn claim chosen candidates
  turn-Turned p d =
      let where_ = in_batch p.batch.id in
      let c = candidates id_order where_ limit p.items in
      let got = ids (keep (is_claimable c) p.items) in
      work_on-Turned p got (map (taken now c) p.items)
        (λ e.
          subst (λ l. pending (keep where_ l) ≡ 0) (sym (nothing_taken now c p.items e))
            (none_left id_order where_ limit some_limit p.items (ap length e)))
        (rows-Processing now c got p.items (claim-Claims c p.items d))
        (omega (arith, pending-claim now c p.items))
        (subst Distinct (sym (ids-taken now c p.items)) d)

  Finishes : Option (Progress V × Ending) → Type 0
  Finishes o = (r : Progress V × Ending) × (o ≡ some r) × Drained r

  turns_next :
      (fuel : ℕ) (p : Progress V) (r : Progress V × Option Ending)
      → turn svc id_order limit now p ≡ r
      → Turned p r
      → pending p.items < suc fuel
      → ((q : Progress V)
          → Distinct (ids q.items)
          → pending q.items < fuel
          → Finishes (turns svc id_order limit now fuel q))
      → Finishes (turns svc id_order limit now (suc fuel) p)
  unfolding turns ended_or Finishes
  turns_next fuel p (q, some e) k t l h = (
    (q, e),
    ap (λ r. ended_or svc id_order limit now r (turns svc id_order limit now fuel r.0)) k,
    t,
  )
  turns_next fuel p (q, none) k t l h =
      let later = h q t.1 (omega (arith, t.0, l)) in
      (
        later.0,
        ap (λ r. ended_or svc id_order limit now r (turns svc id_order limit now fuel r.0)) k
            ∙ later.1,
        later.2,
      )

  turns-Finishes :
      (fuel : ℕ) (p : Progress V)
      → Distinct (ids p.items)
      → pending p.items < fuel
      → Finishes (turns svc id_order limit now fuel p)
  turns-Finishes zero p d l = absurd (omega (arith, l))
  turns-Finishes (suc fuel) p d l =
      turns_next fuel p (turn svc id_order limit now p) refl (turn-Turned p d) l
        (turns-Finishes fuel)

  Drained-finish : (r : Progress V × Ending) → Drained r → Drained (finish svc id_order limit now r)
  unfolding finish
  Drained-finish (p, drained) h =
      subst (λ b. pending (keep (in_batch b) p.items) ≡ 0)
        (sym (id-refresh_batch now p.items p.batch)) h
  Drained-finish (p, paused e) h = tt
  Drained-finish (p, crashed e) h = tt

  -- Processing a batch comes to an end, within as many turns as items are pending and one: then none
  -- of its items is pending, or it was paused by a failure of OpenAI or Pinecone, or left by an
  -- exception. Item ids are distinct, and a chunk has at least one item.
  pub process_batch-Drained :
      (fuel : ℕ) (p : Progress V)
      → Distinct (ids p.items)
      → pending p.items < fuel
      → (r : Progress V × Ending) × (process_batch svc id_order limit now fuel p ≡ some r)
        × Drained r
  unfolding process_batch finished Finishes
  process_batch-Drained fuel p d l =
      let t = turns-Finishes fuel p d l in
      (
        finish svc id_order limit now t.0,
        ap (finished svc id_order limit now) t.1,
        Drained-finish t.0 t.2,
      )
