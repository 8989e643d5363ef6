-- ===== src/Items/Orphans.antt =====
-- item_service.py and pinecone_service.py: vectors without an item after a deletion.
use recommendation_engine.Base.{
  ℕ, zero, suc, ◌≤◌, ◌≡◌, refl, inl, inr, String, Bool, true, false, not, ◌||◌, Option, List, [],
  ◌∷◌, ◌++◌, keep, length, take, drop, take-append-drop, arith, Bool-cases, Option-cases,
}
use mathlib.Core.Path.{subst}
use recommendation_engine.Base.Dict.{member}
use recommendation_engine.Base.Result.{Result, ok, err}
use recommendation_engine.Pipeline.{Item}
use recommendation_engine.Items.Vectors.{
  Fault, Client, after_chunk, caught, delete_chunks, opened, delete_vectors, of_tenant, is_chosen,
  pinecone_ids, committed, delete_items, delete_chunk_size,
}

-- No vector of `after` is new.
abbrev pub Within : List String → List String → Type 0
Within before after = (v : String) → member v after ≡ true → member v before ≡ true

-- What a call that deletes `ids` leaves: without them if it returned, without any vector if there
-- is no namespace, and in any case nothing new.
abbrev pub Deleted : List String → List String → Result Fault (Unit {0}) × List String → Type 0
Deleted ids before (ok _, after) =
    (v : String) → member v after ≡ true → (member v before ≡ true) × (member v ids ≡ false)
Deleted ids before (err Fault.missing, after) = (v : String) → member v after ≡ false
Deleted ids before (err Fault.unreachable, after) = Within before after
Deleted ids before (err Fault.other, after) = Within before after

-- Pinecone deletes what it is told to when it answers, and has no vectors where it has no index or
-- no namespace.
pub record Documented (p : Client) : Type 0 where
  pub deletes : (ids s : List String) → Deleted ids s (p.delete ids s)
  pub opens : (s : List String) → Deleted [] s (p.open_index s, s)

member-append :
    (v : String) (xs ys : List String) → member v (xs ++ ys) ≡ (member v xs || member v ys)
member-append v [] ys = refl
member-append v (x ∷ xs) ys = ground (arith, member-append v xs ys)

-- The vectors are gone in two steps.
Deleted-both :
    (xs ys s t : List String) (r : Result Fault (Unit {0}) × List String)
    → Deleted xs s (ok tt, t)
    → Deleted ys t r
    → Deleted (xs ++ ys) s r
Deleted-both xs ys s t (ok _, after) h k = λ v m.
    let b = k v m in let a = h v b.0 in (a.0, ground (arith, member-append v xs ys, a.1, b.1))
Deleted-both xs ys s t (err Fault.missing, after) h k = k
Deleted-both xs ys s t (err Fault.unreachable, after) h k = λ v m. (h v (k v m)).0
Deleted-both xs ys s t (err Fault.other, after) h k = λ v m. (h v (k v m)).0

Deleted-after_chunk :
    (xs ys s : List String) (r : Result Fault (Unit {0}) × List String)
    (k : List String → Result Fault (Unit {0}) × List String)
    → Deleted xs s r
    → ((t : List String) → Deleted ys t (k t))
    → Deleted (xs ++ ys) s (after_chunk r k)
Deleted-after_chunk xs ys s (ok _, t) k h f = Deleted-both xs ys s t (k t) h (f t)
Deleted-after_chunk xs ys s (err Fault.missing, t) k h f = h
Deleted-after_chunk xs ys s (err Fault.unreachable, t) k h f = h
Deleted-after_chunk xs ys s (err Fault.other, t) k h f = h

module _ (p : Client) (doc : Documented p) where
  length-drop_chunk : (n : ℕ) (xs : List String) → length (drop n xs) ≤ length xs
  length-drop_chunk zero xs = omega arith
  length-drop_chunk (suc n) [] = omega arith
  length-drop_chunk (suc n) (x ∷ xs) = omega (arith, length-drop_chunk n xs)

  delete_chunks-Deleted :
      (fuel : ℕ) (ids s : List String)
      → length ids ≤ fuel
      → Deleted ids s (delete_chunks p fuel ids s)
  unfolding delete_chunks
  delete_chunks-Deleted zero [] s h = λ v m. (m, refl)
  delete_chunks-Deleted zero (x ∷ xs) s h = absurd (omega arith)
  delete_chunks-Deleted (suc n) [] s h = λ v m. (m, refl)
  delete_chunks-Deleted (suc n) (x ∷ xs) s h =
      let first = take delete_chunk_size (x ∷ xs) in
      let rest = drop delete_chunk_size (x ∷ xs) in
      let r =
        Deleted-after_chunk first rest s (p.delete first s) (delete_chunks p n rest)
          (doc.deletes first s)
          (λ t. delete_chunks-Deleted n rest t (omega (arith, length-drop_chunk 999 xs))) in
      subst (λ l. Deleted l s (after_chunk (p.delete first s) (delete_chunks p n rest)))
        (take-append-drop delete_chunk_size (x ∷ xs)) r

-- What `delete_items` of the store leaves.
abbrev Removed : List String → List String → Result Fault Bool × List String → Type 0
Removed ids before (ok true, after) = Deleted ids before (ok tt, after)
Removed ids before (ok false, after) = Within before after
Removed ids before (err _, after) = Within before after

Removed-caught :
    (ids s : List String) (r : Result Fault (Unit {0}) × List String)
    → Deleted ids s r
    → Removed ids s (caught r)
Removed-caught ids s (ok _, after) h = h
Removed-caught ids s (err Fault.missing, after) h = λ v m. absurd (ground (arith, h v))
Removed-caught ids s (err Fault.unreachable, after) h = h
Removed-caught ids s (err Fault.other, after) h = h

-- Without an index there is nothing to delete.
Deleted-closed :
    (ids s : List String) (e : Fault) → Deleted [] s (err e, s) → Deleted ids s (err e, s)
Deleted-closed ids s Fault.missing h = h
Deleted-closed ids s Fault.unreachable h = h
Deleted-closed ids s Fault.other h = h

module _ (p : Client) (doc : Documented p) where
  opened-Deleted :
      (r : Result Fault (Unit {0})) (ids s : List String)
      → Deleted [] s (r, s)
      → Deleted ids s (opened p r ids s)
  opened-Deleted (err e) ids s h = Deleted-closed ids s e h
  opened-Deleted (ok _) ids s h = delete_chunks-Deleted p doc (length ids) ids s (omega arith)

  delete_vectors-Removed : (ids s : List String) → Removed ids s (delete_vectors p ids s)
  unfolding delete_vectors
  delete_vectors-Removed [] s = λ v m. (m, refl)
  delete_vectors-Removed (x ∷ xs) s =
      Removed-caught (x ∷ xs) s (opened p (p.open_index s) (x ∷ xs) s)
        (opened-Deleted (p.open_index s) (x ∷ xs) s (doc.opens s))

module _ {V : Type 0} where
  -- Every vector of the workspace's namespace is that of one of its items.
  abbrev pub NoOrphan : String → List (Item V) → List String → Type 0
  NoOrphan t db s =
      (v : String) → member v s ≡ true → member v (pinecone_ids (keep (of_tenant t) db)) ≡ true

  kept_owner :
      (t : String) (q : Item V → Bool) (v : String) (db : List (Item V))
      → member v (pinecone_ids (keep (of_tenant t) db)) ≡ true
      → member v (pinecone_ids (keep q db)) ≡ false
      → member v (pinecone_ids (keep (of_tenant t) (keep (λ i. not (q i)) db))) ≡ true
  kept_owner t q v [] h k = h
  kept_owner t q v (i ∷ db) h k = elim (Bool-cases (q i)) [
    | inl e ↦ elim (Option-cases i.pinecone_id) [
      | inl o ↦ rw e (kept_owner t q v db (ground (arith, o, e, h)) (ground (arith, o, e, k)))
      | inr (w, o) ↦
          rw e (kept_owner t q v db (ground (arith, o, e, h, k)) (ground (arith, o, e, k)))
    ]
    | inr e ↦ elim (Bool-cases (of_tenant t i)) [
      | inl f ↦ elim (Option-cases i.pinecone_id) [
        | inl o ↦ ground (arith, kept_owner t q v db)
        | inr (w, o) ↦ ground (arith, kept_owner t q v db)
      ]
      | inr f ↦ ground (arith, kept_owner t q v db)
    ]
  ]

  committed-NoOrphan :
      {A : Type 0} (t : String) (q : Item V → Bool) (a : A) (db : List (Item V)) (s : List String)
      (r : Result Fault Bool × List String)
      → NoOrphan t db s
      → Removed (pinecone_ids (keep q db)) s r
      → let after = committed q a db r in NoOrphan t after.items after.vectors
  committed-NoOrphan t q a db s (err _, after) h k = λ v m. h v (k v m)
  committed-NoOrphan t q a db s (ok false, after) h k = λ v m. h v (k v m)
  committed-NoOrphan t q a db s (ok true, after) h k =
      λ v m. let g = k v m in kept_owner t q v db (h v g.0) g.1

  -- If every vector of a workspace was that of one of its items, it still is after the items with
  -- some external ids, or all items, were deleted, however the deletion ends and however many of the
  -- vectors Pinecone deleted.
  pub delete_items-NoOrphan :
      (p : Client) (t : String) (asked : Option (List String)) (db : List (Item V))
      (s : List String)
      → Documented p
      → NoOrphan t db s
      → let after = delete_items p t asked db s in NoOrphan t after.items after.vectors
  unfolding delete_items
  delete_items-NoOrphan p t asked db s doc h =
      committed-NoOrphan t (is_chosen t asked) _ db s
        (delete_vectors p (pinecone_ids (keep (is_chosen t asked) db)) s) h
        (delete_vectors-Removed p doc (pinecone_ids (keep (is_chosen t asked) db)) s)
