-- ===== src/Tests/Uploads.antt =====
-- Examples for uploads and deletions of items.
use recommendation_engine.Base.{
  ℕ, ◌≡◌, refl, String, true, false, not, Option, none, some, List, [], ◌∷◌, keep, arith, length,
  str_eq, eq_iff, Bool-cases, inl, inr,
}
use recommendation_engine.Base.Dict.{Dict, member}
use recommendation_engine.Base.Result.{ok, err}
use recommendation_engine.Pipeline.{Status, Item, Services, EmbedError, PipelineError}
use recommendation_engine.Items.Uploads.{
  Upload, upsert_items, row_of, overlay, data_of, upsert_items-Overlay,
}
use recommendation_engine.Items.Vectors.{
  Client, delete_item, delete_items, delete_vectors, delete_chunks,
}
use recommendation_engine.Items.Orphans.{Documented, NoOrphan, delete_items-NoOrphan}

abbrev an_item : String → String → Option String → Item String
an_item id external_id vector = record {
  id = id;
  tenant_id = "shop";
  batch_id = none;
  external_id = external_id;
  raw_data = ("name", "old") ∷ [];
  embedding_status = Status.done;
  pinecone_id = vector;
  item_metadata = [];
  search_text = none;
  created_at = 1;
  updated_at = 1;
}

abbrev table : List (Item String)
table = an_item "a" "shoe" (some "a") ∷ an_item "b" "hat" (some "b") ∷ an_item "c" "bag" none ∷ []

-- A Pinecone that does what it is told to.
abbrev client : Client
client = record {
  open_index = λ s. ok tt;
  delete = λ ids s. (ok tt, keep (λ x. not (member x ids)) s);
}

member-kept :
    (ids s : List String) (v : String)
    → member v (keep (λ x. not (member x ids)) s) ≡ true
    → (member v s ≡ true) × (member v ids ≡ false)
member-kept ids [] v h = absurd (ground arith)
member-kept ids (x ∷ s) v h = elim (Bool-cases (str_eq x v)) [
  | inl e ↦ elim (Bool-cases (member x ids)) [
    | inl f ↦ let r = member-kept ids s v (ground arith) in (ground (arith, r.0), r.1)
    | inr f ↦ (ground arith, rw (← (eq_iff x v).0 e) f)
  ]
  | inr e ↦ let r = member-kept ids s v (ground arith) in (ground (arith, r.0), r.1)
]

documented : Documented client
documented = record { deletes = λ ids s v m. member-kept ids s v m; opens = λ s v m. (m, refl) }

delete_items-NoOrphan_example :
    let after = delete_items client "shop" (some ("hat" ∷ "cap" ∷ [])) table ("a" ∷ "b" ∷ []) in
    NoOrphan "shop" after.items after.vectors
delete_items-NoOrphan_example =
    delete_items-NoOrphan client "shop" (some ("hat" ∷ "cap" ∷ [])) table ("a" ∷ "b" ∷ [])
      documented (λ v m. m)

delete_items_test :
    (delete_items client "shop" (some ("hat" ∷ "cap" ∷ [])) table ("a" ∷ "b" ∷ [])).result
    ≡ ok (1, "cap" ∷ [])
unfolding delete_items delete_vectors delete_chunks
delete_items_test = refl

delete_item_test : (delete_item client "shop" "shoe" table ("a" ∷ "b" ∷ [])).vectors ≡ "b" ∷ []
unfolding delete_item delete_vectors delete_chunks
delete_item_test = refl

abbrev services : Services String ℕ
services = record {
  blank = λ v. false;
  of_text = λ s. s;
  filter_fields = "name" ∷ [];
  no_text = "no text";
  refusal = λ m. m;
  embedding_text = λ d. "";
  keyword_text = λ d. "";
  embed_batch = λ texts. err EmbedError.unavailable;
  embed_text = λ text. err EmbedError.unavailable;
  ensure_index = ok tt;
  upsert_batch = λ vectors. err PipelineError.store_unavailable;
}

abbrev upload : Upload
upload = record {
  tenant_id = "shop";
  batch_id = some "batch";
  status = Status.pending;
  now = 5;
  new_id = λ e. e;
}

abbrev uploaded : List (String × Dict String)
uploaded =
    ("hat", ("name", "new") ∷ [])
    ∷ ("belt", ("name", "belt") ∷ [])
    ∷ ("hat", ("name", "newer") ∷ [])
    ∷ []

upsert_items-Overlay_example :
    data_of "shop" (upsert_items services upload uploaded table) "hat"
    ≡ overlay uploaded (data_of "shop" table) "hat"
upsert_items-Overlay_example = upsert_items-Overlay services upload uploaded table "hat"

upsert_items_test : length (upsert_items services upload uploaded table) ≡ 4
unfolding upsert_items row_of
upsert_items_test = refl
