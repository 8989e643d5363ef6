-- ===== src/Items/Uploads.antt =====
-- services/item_service.py: uploads of items, batches and re-embedding.
use recommendation_engine.Base.{
  ℕ, ◌==◌, ◌≡◌, refl, String, Bool, false, ◌&&◌, Option, none, some, List, [], ◌∷◌, map, keep,
  length, or_else, sym, ◌∙◌, ap, arith, str_eq, eq_iff, if◌then◌else◌,
}
use recommendation_engine.Base.Dict.{
  Dict, keys, lookup, put, member, Distinct, put-Distinct, lookup-put,
}
use recommendation_engine.Pipeline.{Status, Item, Services, build_metadata}
use recommendation_engine.Pipeline.Queue.{BatchStatus, ItemBatch}
use recommendation_engine.Items.Vectors.{of_tenant}

-- What every row of one upload shares, and the ids drawn for its rows.
pub record Upload : Type 0 where
  pub tenant_id : String
  pub batch_id : Option String
  pub status : Status
  pub now : ℕ
  pub new_id : String → String

-- `{item["external_id"]: item for item in items}`
abbrev pub unique_from : {V : Type 0} → List (String × Dict V) → Dict (Dict V) → Dict (Dict V)
unique_from [] d = d
unique_from ((e, raw) ∷ items) d = unique_from items (put e raw d)

module _ {V W : Type 0} (svc : Services V W) (u : Upload) where
  bare_row : String → Dict V → Item V
  bare_row e raw = record {
    id = u.new_id e;
    tenant_id = u.tenant_id;
    batch_id = u.batch_id;
    external_id = e;
    raw_data = raw;
    embedding_status = u.status;
    pinecone_id = none;
    item_metadata = [];
    search_text = none;
    created_at = u.now;
    updated_at = u.now;
  }

  unfoldable pub row_of : String → Dict V → Item V
  unfolding bare_row
  row_of e raw = record (bare_row e raw) { item_metadata = build_metadata svc (bare_row e raw) }

module _ {V : Type 0} where
  -- `on_conflict_do_update`: `r` is the row that was to be inserted
  abbrev pub updated : Item V → Item V → Item V
  updated r i = record i {
    batch_id = r.batch_id;
    raw_data = r.raw_data;
    item_metadata = r.item_metadata;
    embedding_status = r.embedding_status;
    updated_at = r.updated_at;
  }

  abbrev pub conflicts : Item V → Item V → Bool
  conflicts r i = str_eq i.tenant_id r.tenant_id && str_eq i.external_id r.external_id

  abbrev pub upsert_row : Item V → List (Item V) → List (Item V)
  upsert_row r [] = r ∷ []
  upsert_row r (i ∷ db) =
      let rest = upsert_row r db in if conflicts r i then updated r i ∷ db else i ∷ rest

module _ {V W : Type 0} (svc : Services V W) (u : Upload) where
  abbrev pub upsert_rows : Dict (Dict V) → List (Item V) → List (Item V)
  upsert_rows [] db = db
  upsert_rows ((e, raw) ∷ d) db = upsert_rows d (upsert_row (row_of svc u e raw) db)

  -- The part of `upsert_items` that changes the table
  unfoldable pub upsert_items : List (String × Dict V) → List (Item V) → List (Item V)
  upsert_items items db = upsert_rows (unique_from items []) db

-- `create_batch`, for the id that is drawn
unfoldable pub create_batch : ℕ → String → ℕ → ItemBatch
create_batch now id total = record {
  id = id;
  total_items = total;
  processed_items = 0;
  failed_items = 0;
  status = if total == 0 then BatchStatus.done else BatchStatus.pending;
  completed_at = if total == 0 then some now else none;
}

module _ {V W : Type 0} (svc : Services V W) where
  -- `ingest_async`
  unfoldable pub ingest_async :
      String
      → ℕ
      → String
      → (String → String)
      → List (String × Dict V)
      → List (Item V)
      → ItemBatch × List (Item V)
  ingest_async t now id new_id items db = (
    create_batch now id (length (unique_from items [])),
    upsert_items svc
        (record {
          tenant_id = t;
          batch_id = some id;
          status = Status.pending;
          now = now;
          new_id = new_id;
        })
        items db,
  )

module _ {V : Type 0} where
  -- `rebuild`
  unfoldable pub rebuild : String → ℕ → String → List (Item V) → ItemBatch × List (Item V)
  rebuild t now id db = (
    create_batch now id (length (keep (of_tenant t) db)),
    map
        (λ (i : Item V).
          if of_tenant t i
          then record i { embedding_status = Status.pending; batch_id = some id; updated_at = now }
          else i)
        db,
  )

  -- The view of a workspace as a map from external ids to data.
  abbrev pub data_of : String → List (Item V) → String → Option (Dict V)
  data_of t [] e = none
  data_of t (i ∷ db) e =
      let rest = data_of t db e in
      if str_eq i.tenant_id t && str_eq i.external_id e then some i.raw_data else rest

  -- What the upload says of an id: its last mention, else what was there.
  abbrev pub overlay :
      List (String × Dict V) → (String → Option (Dict V)) → String → Option (Dict V)
  overlay [] before e = before e
  overlay ((k, raw) ∷ items) before e =
      overlay items (λ x. if str_eq k x then some raw else before x) e

  data_of-upsert_row :
      (r : Item V) (t : String) (db : List (Item V)) (e : String)
      → r.tenant_id ≡ t
      → data_of t (upsert_row r db) e
        ≡ (if str_eq r.external_id e then some r.raw_data else data_of t db e)
  data_of-upsert_row r t [] e h = ground (arith, eq_iff r.tenant_id t)
  data_of-upsert_row r t (i ∷ db) e h = ground (
    arith,
    eq_iff r.tenant_id t,
    eq_iff i.tenant_id t,
    eq_iff i.tenant_id r.tenant_id,
    eq_iff i.external_id r.external_id,
    eq_iff i.external_id e,
    eq_iff r.external_id e,
    data_of-upsert_row r t db e h,
  )

  lookup-absent : (k : String) (d : Dict (Dict V)) → member k (keys d) ≡ false → lookup k d ≡ none
  lookup-absent k [] h = refl
  lookup-absent k ((j, raw) ∷ d) h = ground (arith, lookup-absent k d)

  unique_from-Distinct :
      (items : List (String × Dict V)) (d : Dict (Dict V))
      → Distinct (keys d)
      → Distinct (keys (unique_from items d))
  unique_from-Distinct [] d h = h
  unique_from-Distinct ((e, raw) ∷ items) d h =
      unique_from-Distinct items (put e raw d) (put-Distinct e raw d h)

  overlaid :
      (items : List (String × Dict V)) (d : Dict (Dict V)) (before base : String → Option (Dict V))
      (e : String)
      → ((x : String) → before x ≡ or_else (lookup x d) (base x))
      → overlay items before e ≡ or_else (lookup e (unique_from items d)) (base e)
  overlaid [] d before base e h = h e
  overlaid ((k, raw) ∷ items) d before base e h =
      overlaid items (put k raw d) (λ x. if str_eq k x then some raw else before x) base e
        (λ x. ground (arith, lookup-put k x raw d, h x))

  put_first :
      (k e : String) (raw : Dict V) (d : Dict (Dict V)) (o : Option (Dict V))
      → member k (keys d) ≡ false
      → or_else (lookup e d) (if str_eq k e then some raw else o)
        ≡ or_else (lookup e ((k, raw) ∷ d)) o
  put_first k e raw d o h = ground (arith, eq_iff k e, lookup-absent k d h)

module _ {V W : Type 0} (svc : Services V W) (u : Upload) where
  row_of_lem :
      (e : String) (raw : Dict V)
      → ((row_of svc u e raw).tenant_id ≡ u.tenant_id)
        × ((row_of svc u e raw).external_id ≡ e)
        × ((row_of svc u e raw).raw_data ≡ raw)
  unfolding row_of
  row_of_lem e raw = (refl, refl, refl)

  data_of-upsert_rows :
      (d : Dict (Dict V)) (db : List (Item V)) (e : String)
      → Distinct (keys d)
      → data_of u.tenant_id (upsert_rows svc u d db) e
        ≡ or_else (lookup e d) (data_of u.tenant_id db e)
  data_of-upsert_rows [] db e h = refl
  data_of-upsert_rows ((k, raw) ∷ d) db e h =
      let r = row_of svc u k raw in
      let f = row_of_lem k raw in
      data_of-upsert_rows d (upsert_row r db) e h.1
      ∙ ap (or_else (lookup e d)) (data_of-upsert_row r u.tenant_id db e f.0 ∙ rw (f.1, f.2) refl)
      ∙ put_first k e raw d (data_of u.tenant_id db e) h.0

  -- Seen as a map from external ids to data, the workspace after an upload is the workspace before
  -- it with each of the uploaded items put in turn, so that the last of a repeated id wins.
  pub upsert_items-Overlay :
      (items : List (String × Dict V)) (db : List (Item V)) (e : String)
      → data_of u.tenant_id (upsert_items svc u items db) e
        ≡ overlay items (data_of u.tenant_id db) e
  unfolding upsert_items
  upsert_items-Overlay items db e =
      data_of-upsert_rows (unique_from items []) db e (unique_from-Distinct items [] tt)
      ∙ sym (overlaid items [] (data_of u.tenant_id db) (data_of u.tenant_id db) e (λ x. refl))
