-- ===== src/Items/Vectors.antt =====
-- services/embedding/pinecone_service.py: deletion of vectors from a workspace's namespace, and
-- item_service.py: deletion of items, vectors first.
use recommendation_engine.Base.{
  ℕ, zero, suc, String, Bool, true, false, not, ◌&&◌, Option, none, some, List, [], ◌∷◌, keep,
  length, take, drop, str_eq, if◌then◌else◌,
}
use recommendation_engine.Base.Dict.{member}
use recommendation_engine.Base.Result.{Result, ok, err}
use recommendation_engine.Pipeline.{Item}

-- Why a call of Pinecone raises: no index or namespace, not reachable, or anything else.
pub data Fault : Type 0 where
  missing unreachable other : Fault

-- The client of Pinecone, on the ids of one namespace: `_index()`, and `index.delete`, which may
-- have deleted some when it raises.
pub record Client : Type 0 where
  pub open_index : List String → Result Fault (Unit {0})
  pub delete : List String → List String → Result Fault (Unit {0}) × List String

abbrev pub delete_chunk_size : ℕ
delete_chunk_size = 1000

-- Ends the loop where the call raised.
abbrev pub after_chunk :
    Result Fault (Unit {0}) × List String
    → (List String → Result Fault (Unit {0}) × List String)
    → Result Fault (Unit {0}) × List String
after_chunk (ok _, s) k = k s
after_chunk (err e, s) k = (err e, s)

-- The `except` clauses of `delete_items`
abbrev pub caught : Result Fault (Unit {0}) × List String → Result Fault Bool × List String
caught (ok _, s) = (ok true, s)
caught (err Fault.missing, s) = (ok true, s)
caught (err Fault.unreachable, s) = (err Fault.unreachable, s)
caught (err Fault.other, s) = (ok false, s)

module _ (p : Client) where
  -- The loop over the chunks; each turn takes at least one id, so as many turns as ids suffice.
  unfoldable pub delete_chunks :
      ℕ → List String → List String → Result Fault (Unit {0}) × List String
  delete_chunks zero ids s = (ok tt, s)
  delete_chunks (suc n) [] s = (ok tt, s)
  delete_chunks (suc n) (x ∷ xs) s =
      after_chunk (p.delete (take delete_chunk_size (x ∷ xs)) s)
        (delete_chunks n (drop delete_chunk_size (x ∷ xs)))

  abbrev pub opened :
      Result Fault (Unit {0}) → List String → List String → Result Fault (Unit {0}) × List String
  opened (err e) ids s = (err e, s)
  opened (ok _) ids s = delete_chunks (length ids) ids s

  unfoldable pub delete_vectors : List String → List String → Result Fault Bool × List String
  delete_vectors [] s = (ok true, s)
  delete_vectors (x ∷ xs) s = caught (opened (p.open_index s) (x ∷ xs) s)

pub data DeleteError : Type 0 where
  not_found unavailable not_deleted : DeleteError

abbrev add_id : Option String → List String → List String
add_id none ids = ids
add_id (some v) ids = if str_eq v "" then ids else v ∷ ids

-- `[e for e in dict.fromkeys(external_ids or []) if e not in found]`
abbrev pub missing_from : List String → List String → List String
missing_from found [] = []
missing_from found (e ∷ es) =
    let rest = missing_from found es in
    if member e found then rest else e ∷ keep (λ x. not (str_eq e x)) rest

abbrev pub asked_ids : Option (List String) → List String
asked_ids none = []
asked_ids (some ids) = ids

module _ {V : Type 0} where
  -- `Item.tenant_id == self._tenant.id`, and the ids of the request if there are any
  abbrev pub of_tenant : String → Item V → Bool
  of_tenant t i = str_eq i.tenant_id t

  abbrev pub is_asked : Option (List String) → Item V → Bool
  is_asked none i = true
  is_asked (some ids) i = member i.external_id ids

  abbrev pub is_chosen : String → Option (List String) → Item V → Bool
  is_chosen t asked i = of_tenant t i && is_asked asked i

  -- `[item.pinecone_id for item in items if item.pinecone_id]`
  abbrev pub pinecone_ids : List (Item V) → List String
  pinecone_ids [] = []
  pinecone_ids (i ∷ is) = let rest = pinecone_ids is in add_id i.pinecone_id rest

  -- `{item.external_id for item in items}`
  abbrev pub external_ids : List (Item V) → List String
  external_ids [] = []
  external_ids (i ∷ is) = i.external_id ∷ external_ids is

-- What a deletion leaves: its result, the vectors of the namespace and the table.
pub record Left (V A : Type 0) : Type 0 where
  pub result : Result DeleteError A
  pub vectors : List String
  pub items : List (Item V)

module _ {V A : Type 0} where
  -- Both deletions remove the items `gone` only if the store says that the vectors are gone.
  abbrev pub committed :
      (Item V → Bool) → A → List (Item V) → Result Fault Bool × List String → Left V A
  committed gone a db (err _, s) = record {
    result = err DeleteError.unavailable;
    vectors = s;
    items = db;
  }
  committed gone a db (ok false, s) = record {
    result = err DeleteError.not_deleted;
    vectors = s;
    items = db;
  }
  committed gone a db (ok true, s) = record {
    result = ok a;
    vectors = s;
    items = keep (λ i. not (gone i)) db;
  }

module _ {V : Type 0} (p : Client) where
  -- ItemService.delete_items
  unfoldable pub delete_items :
      String → Option (List String) → List (Item V) → List String → Left V (ℕ × List String)
  delete_items t asked db s =
      let items = keep (is_chosen t asked) db in
      committed (is_chosen t asked)
        (length items, missing_from (external_ids items) (asked_ids asked)) db
        (delete_vectors p (pinecone_ids items) s)

  abbrev pub is_item : String → String → Item V → Bool
  is_item t e i = is_chosen t (some (e ∷ [])) i

  -- ItemService.delete_item: the first item that `get_item` finds; no vector, no call.
  unfoldable pub delete_item : String → String → List (Item V) → List String → Left V (Unit {0})
  delete_item t e db s = elim (keep (is_chosen t (some (e ∷ []))) db) [
    | [] ↦ record { result = err DeleteError.not_found; vectors = s; items = db }
    | i ∷ _ ↦
        committed (λ (j : Item V). str_eq j.id i.id) tt db
          (delete_vectors p (pinecone_ids (i ∷ [])) s)
  ]
