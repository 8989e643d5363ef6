-- ===== src/Pipeline/Worker/Laws.antt =====
-- What the worker leaves of a chunk.
use recommendation_engine.Base.{
  ℕ, ◌≡◌, inl, inr, String, Bool, false, ◌&&◌, Option, none, some, List, [], ◌∷◌, arith, All,
  Bool-cases,
}
use recommendation_engine.Base.Dict.{member}
use recommendation_engine.Base.Result.{Result, ok, err}
use recommendation_engine.Pipeline.{
  Item, PipelineError, wrong_length, embedding_unavailable, store_unavailable, Services,
}
use recommendation_engine.Pipeline.Queue.{is_processing, release_items}
use recommendation_engine.Pipeline.Worker.{Tables, outcome, handed_back, work_chunk}

module _ {V W : Type 0} (svc : String → Option (Services V W))
    (id_order : String → String → Bool) where
  -- An item of the chunk that is not in work any more.
  abbrev pub IsBack : List String → Item V → Type 0
  IsBack claimed i = (member i.id claimed && is_processing i) ≡ false

  release-IsBack :
      (now : ℕ) (claimed : List String) (db : List (Item V))
      → All (IsBack claimed) (release_items now claimed db)
  unfolding release_items
  release-IsBack now claimed [] = tt
  release-IsBack now claimed (i ∷ db) = (
    elim (Bool-cases (member i.id claimed && is_processing i)) [
      | inl e ↦ rw e (ground arith)
      | inr e ↦ rw e e
    ],
    release-IsBack now claimed db,
  )

  -- Where an upstream failure ended the work, the chunk is back.
  abbrev pub Back : List String → Result PipelineError ℕ × List (Item V) → Type 0
  Back claimed (err embedding_unavailable, db) = All (IsBack claimed) db
  Back claimed (err store_unavailable, db) = All (IsBack claimed) db
  Back claimed (err wrong_length, db) = Unit
  Back claimed (ok n, db) = Unit

  handed_back-Back :
      (now n : ℕ) (claimed : List String) (r : List (Item V) × Option PipelineError)
      → Back claimed (outcome svc id_order n r.1, handed_back svc id_order now claimed r)
  unfolding handed_back
  handed_back-Back now n claimed (db, none) = tt
  handed_back-Back now n claimed (db, some wrong_length) = tt
  handed_back-Back now n claimed (db, some embedding_unavailable) = release-IsBack now claimed db
  handed_back-Back now n claimed (db, some store_unavailable) = release-IsBack now claimed db

  -- Where OpenAI or Pinecone is down, no item of the worker's chunk stays in PROCESSING, be it of the
  -- workspace that the failure hit or of one that was not reached.
  pub work_chunk-Back :
      (now : ℕ) (claimed : List String) (t : Tables V)
      → let r = work_chunk svc id_order now claimed t in Back claimed (r.0, r.1.items)
  unfolding work_chunk
  work_chunk-Back now claimed t = handed_back-Back now _ claimed _
