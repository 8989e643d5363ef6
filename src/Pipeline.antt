-- ===== src/Pipeline.antt =====
-- services/embedding/pipeline.py: claimed items are embedded and stored, with models/item.py and
-- models/item_batch.py. `V` is a value of an item's JSON, `W` a vector. What is mutated in place is
-- returned: the items as they are when the code returns or raises, and what it raised. The statement
-- that records the tokens spent is left out: it never raises, and writes another table.
mod Cover
pub mod Queue
pub mod Process
pub mod Loop
pub mod Worker
use recommendation_engine.Base.{
  ℕ, ◌≡◌, String, Bool, true, false, not, Option, none, some, List, [], ◌∷◌, map, keep, is_some,
  str_eq, if◌then◌else◌,
}
use recommendation_engine.Base.Dict.{Dict, member, lookup, put}
use recommendation_engine.Base.Result.{Result, ok, err}

pub data Status : Type 0 where
  pending processing done failed : Status

abbrev pub same_status : Status → Status → Bool
same_status pending pending = true
same_status processing processing = true
same_status done done = true
same_status failed failed = true
same_status _ _ = false

pub record Item (V : Type 0) : Type 0 where
  pub id : String
  pub tenant_id : String
  pub batch_id : Option String
  pub external_id : String
  pub raw_data : Dict V
  pub embedding_status : Status
  pub pinecone_id : Option String
  pub item_metadata : Dict V
  pub search_text : Option String
  pub created_at : ℕ
  pub updated_at : ℕ

-- `EmbeddingInputError`, `EmbeddingUnavailableError`
pub data EmbedError : Type 0 where
  rejected : String → EmbedError
  unavailable : EmbedError

-- What ends the work on a chunk: a dependency that is down, or as many vectors as texts not
-- returned (the ValueError of `zip(..., strict=True)`).
pub data PipelineError : Type 0 where
  embedding_unavailable store_unavailable wrong_length : PipelineError

-- What the pipeline uses: the texts of the TextBuilder, the embedder, the vector store; and of the
-- values what `build_metadata` asks (`blank` is `in (None, "", [])`) and makes.
-- `no_text` and `refusal` are the messages of the two `_fail` calls that name no store.
pub record Services (V W : Type 0) : Type 0 where
  pub blank : V → Bool
  pub of_text : String → V
  pub filter_fields : List String
  pub no_text : String
  pub refusal : String → String
  pub embedding_text : Dict V → String
  pub keyword_text : Dict V → String
  pub embed_batch : List String → Result EmbedError (List W)
  pub embed_text : String → Result EmbedError W
  pub ensure_index : Result PipelineError (Unit {0})
  pub upsert_batch : List (String × W × Dict V) → Result PipelineError (List String)

-- What `_embed` has by the time it returns or raises: the vectors, and the errors it marked items
-- with, by item.
pub record Embedded (W : Type 0) : Type 0 where
  pub vectors : Dict W
  pub errors : Dict String
  pub raised : Option PipelineError

module _ {V : Type 0} where
  -- `if item.embedding_status is EmbeddingStatus.PROCESSING: ... = PENDING`
  abbrev pub hand_back : Item V → Item V
  hand_back i =
      if same_status i.embedding_status processing
      then record i { embedding_status = pending }
      else i

  -- What `process_items` leaves: an upstream failure hands the items back and is raised again; a
  -- ValueError is no upstream failure.
  pub ended : List (Item V) × Option PipelineError → List (Item V) × Option PipelineError
  ended (items, none) = (items, none)
  ended (items, some wrong_length) = (items, some wrong_length)
  ended (items, some embedding_unavailable) = (map hand_back items, some embedding_unavailable)
  ended (items, some store_unavailable) = (map hand_back items, some store_unavailable)

module _ {V W : Type 0} (svc : Services V W) where
  add_field : String → Option V → Dict V → Dict V
  add_field name none d = d
  add_field name (some v) d = if svc.blank v then d else put name v d

  add_fields : List String → Dict V → Dict V → Dict V
  unfolding add_field
  add_fields [] raw d = d
  add_fields (name ∷ names) raw d = add_fields names raw (add_field name (lookup name raw) d)

  unfoldable pub build_metadata : Item V → Dict V
  unfolding add_fields
  build_metadata i =
      add_fields svc.filter_fields i.raw_data
        (("external_id", svc.of_text i.external_id) ∷ ("tenant_id", svc.of_text i.tenant_id) ∷ [])

  -- `_fail`
  abbrev pub fail : String → Item V → Item V
  fail error i = record i {
    embedding_status = failed;
    item_metadata = put "error" (svc.of_text error) (build_metadata i);
  }

  abbrev pub has_text : Item V → Bool
  has_text i = not (str_eq (svc.embedding_text i.raw_data) "")

  -- The first loop of `_embed_and_store`
  abbrev pub checked : Item V → Item V
  checked i = if has_text i then i else fail svc.no_text i

  -- `{item.id: vector for item, vector in zip(items, embedded, strict=True)}`
  pub zip_strict : List (Item V) → List W → Dict W → Embedded W
  zip_strict [] [] d = record { vectors = d; errors = []; raised = none }
  zip_strict [] (w ∷ ws) d = record { vectors = []; errors = []; raised = some wrong_length }
  zip_strict (i ∷ is) [] d = record { vectors = []; errors = []; raised = some wrong_length }
  zip_strict (i ∷ is) (w ∷ ws) d = zip_strict is ws (put i.id w d)

  -- The last loop of `_embed`, one text at a time
  pub after_one :
      Item V
      → Result EmbedError W
      → (Dict W → Dict String → Embedded W)
      → Dict W
      → Dict String
      → Embedded W
  after_one i (ok w) rest d e = rest (put i.id w d) e
  after_one i (err (rejected m)) rest d e = rest d (put i.id m e)
  after_one i (err unavailable) rest d e = record {
    vectors = d;
    errors = e;
    raised = some embedding_unavailable;
  }

  pub embed_each : List (Item V) → Dict W → Dict String → Embedded W
  unfolding after_one
  embed_each [] d e = record { vectors = d; errors = e; raised = none }
  embed_each (i ∷ is) d e =
      after_one i (svc.embed_text (svc.embedding_text i.raw_data)) (embed_each is) d e

  -- One bad input rejects the whole request.
  one_by_one : String → List (Item V) → Embedded W
  unfolding embed_each
  one_by_one m (i ∷ []) = record { vectors = []; errors = (i.id, m) ∷ []; raised = none }
  one_by_one m items = embed_each items [] []

  embedded_by : List (Item V) → Result EmbedError (List W) → Embedded W
  unfolding one_by_one zip_strict
  embedded_by items (ok ws) = zip_strict items ws []
  embedded_by items (err (rejected m)) = one_by_one m items
  embedded_by items (err unavailable) = record {
    vectors = [];
    errors = [];
    raised = some embedding_unavailable;
  }

  -- `_embed`
  unfoldable pub embed : List (Item V) → Embedded W
  unfolding embedded_by
  embed items =
      embedded_by items
        (svc.embed_batch (map (λ (i : Item V). svc.embedding_text i.raw_data) items))

  refused_with : Option String → Item V → Item V
  refused_with none i = i
  refused_with (some m) i = fail (svc.refusal m) i

  -- The calls of `_fail` in `_embed`
  pub refuse : Dict String → Item V → Item V
  unfolding refused_with
  refuse errors i = refused_with (lookup i.id errors) i

  -- The last loop of `_embed_and_store`
  abbrev pub stored : List String → Item V → Item V
  stored failed_ids i =
      if member i.id failed_ids then fail "Pinecone upsert failed" i else record i {
        embedding_status = done;
        pinecone_id = some i.id;
        item_metadata = build_metadata i;
        search_text = some (svc.keyword_text i.raw_data);
      }

  abbrev pub store : Dict W → List String → Item V → Item V
  store vectors failed_ids i = if is_some (lookup i.id vectors) then stored failed_ids i else i

  payload : Dict W → List (Item V) → List (String × W × Dict V)
  payload vectors [] = []
  payload vectors (i ∷ is) =
      let rest = payload vectors is in
      elim (lookup i.id vectors) [ none ↦ rest | some w ↦ (i.id, w, build_metadata i) ∷ rest ]

  pub after_upsert :
      Dict W
      → Result PipelineError (List String)
      → List (Item V)
      → List (Item V) × Option PipelineError
  after_upsert vectors (err e) items = (items, some e)
  after_upsert vectors (ok failed_ids) items = (map (store vectors failed_ids) items, none)

  -- `ensure_index_exists`, then `upsert_batch`
  pub after_index :
      Dict W
      → List (Item V)
      → Result PipelineError (Unit {0})
      → List (Item V)
      → List (Item V) × Option PipelineError
  unfolding after_upsert payload
  after_index vectors ready (err e) items = (items, some e)
  after_index vectors ready (ok u) items =
      after_upsert vectors (svc.upsert_batch (payload vectors ready)) items

  pub upserted : Dict W → List (Item V) → List (Item V) → List (Item V) × Option PipelineError
  unfolding after_index
  upserted vectors [] items = (items, none)
  upserted vectors (i ∷ is) items = after_index vectors (i ∷ is) svc.ensure_index items

  pub after_embed :
      List (Item V) → Embedded W → List (Item V) → List (Item V) × Option PipelineError
  unfolding upserted
  after_embed embeddable e items = elim e.raised [
    | some x ↦ (items, some x)
    | none ↦
        upserted e.vectors (keep (λ (i : Item V). is_some (lookup i.id e.vectors)) embeddable) items
  ]

  pub embed_from : List (Item V) → List (Item V) → List (Item V) × Option PipelineError
  unfolding after_embed refuse
  embed_from [] items = (items, none)
  embed_from (i ∷ is) items =
      let e = embed (i ∷ is) in after_embed (i ∷ is) e (map (refuse e.errors) items)

  -- `_embed_and_store`
  unfoldable pub embed_and_store : List (Item V) → List (Item V) × Option PipelineError
  unfolding embed_from
  embed_and_store items = embed_from (keep has_text items) (map checked items)

  -- `process_items`
  unfoldable pub process_items : List (Item V) → List (Item V) × Option PipelineError
  unfolding ended
  process_items [] = ([], none)
  process_items (i ∷ is) = ended (embed_and_store (i ∷ is))
