-- ===== src/Pipeline/Process.antt =====
-- What becomes of the items that `process_items` is given.
use mathlib.Core.Path.{subst}
use mathlib.Core.Bool.{false≢true}
use recommendation_engine.Base.{
  ◌≡◌, refl, sym, ◌∙◌, ◌⊎◌, inl, inr, String, Bool, true, false, Option, none, some, List, [], ◌∷◌,
  map, keep, arith, is_some, All, All-both, Bool-cases, Option-cases,
}
use recommendation_engine.Base.Dict.{Dict, member, lookup}
use recommendation_engine.Base.Result.{Result, ok, err}
use recommendation_engine.Pipeline.{
  Status, Item, PipelineError, Services, Embedded, has_text, checked, embed, refuse, refused_with,
  store, stored, after_upsert, after_index, upserted, after_embed, embed_from, embed_and_store,
  hand_back, ended, process_items,
}
use recommendation_engine.Pipeline.Cover.{Covered, embed-Covered}

abbrev pub IsFinal : Status → Type 0
IsFinal s = (s ≡ Status.done) ⊎ (s ≡ Status.failed)

module _ {V : Type 0} where
  -- Every item ends done or failed, unless a dependency was down: then it is pending or failed. (Where
  -- the embedder returned a wrong number of vectors, nothing is said: the session is not committed.)
  abbrev pub Settled : List (Item V) × Option PipelineError → Type 0
  Settled (items, none) = All (λ i. IsFinal i.embedding_status) items
  Settled (items, some PipelineError.wrong_length) = Unit
  Settled (items, some PipelineError.embedding_unavailable) =
      All (λ i. (i.embedding_status ≡ Status.pending) ⊎ (i.embedding_status ≡ Status.failed)) items
  Settled (items, some PipelineError.store_unavailable) =
      All (λ i. (i.embedding_status ≡ Status.pending) ⊎ (i.embedding_status ≡ Status.failed)) items

  abbrev InWork : Item V → Type 0
  InWork i = (i.embedding_status ≡ Status.processing) ⊎ (i.embedding_status ≡ Status.failed)

  abbrev Left : List (Item V) × Option PipelineError → Type 0
  Left (items, none) = All (λ i. IsFinal i.embedding_status) items
  Left (items, some x) = All InWork items

  keep-cons :
      (q : Item V → Bool) (i : Item V) (l : List (Item V))
      → q i ≡ true
      → keep q (i ∷ l) ≡ i ∷ keep q l
  keep-cons q i l e = rw e refl

  keep-skip :
      (q : Item V → Bool) (i : Item V) (l : List (Item V)) → q i ≡ false → keep q (i ∷ l) ≡ keep q l
  keep-skip q i l e = rw e refl

  All-keep :
      (P : Item V → Type 0) (q : Item V → Bool) (l : List (Item V))
      → All P (keep q l)
      → All (λ i. q i ≡ true → P i) l
  All-keep P q [] h = tt
  All-keep P q (i ∷ l) h = elim (Bool-cases (q i)) [
    | inl e ↦
        let g = keep-cons q i l e in let k = subst (All P) g h in (λ u. k.0, All-keep P q l k.1)
    | inr e ↦
        (λ u. absurd (false≢true (sym e ∙ u)), All-keep P q l (subst (All P) (keep-skip q i l e) h))
  ]

  All-map_to :
      (P Q : Item V → Type 0) (f : Item V → Item V) (l : List (Item V))
      → ((i : Item V) → P i → Q (f i))
      → All P l
      → All Q (map f l)
  All-map_to P Q f [] k h = tt
  All-map_to P Q f (i ∷ l) k h = (k i h.0, All-map_to P Q f l k h.1)

  hand_back-InWork :
      (i : Item V)
      → InWork i
      → ((hand_back i).embedding_status ≡ Status.pending)
        ⊎ ((hand_back i).embedding_status ≡ Status.failed)
  hand_back-InWork i (inl e) = inl (rw e refl)
  hand_back-InWork i (inr e) = inr (rw e refl)

module _ {V W : Type 0} (svc : Services V W) where
  -- An item after `_embed`: failed already, or with a vector.
  abbrev Ready : Dict W → Item V → Type 0
  Ready vectors i = IsFinal i.embedding_status ⊎ (is_some (lookup i.id vectors) ≡ true)

  id-checked : (i : Item V) → (checked svc i).id ≡ i.id
  id-checked i = ground arith

  id-refuse : (errors : Dict String) (i : Item V) → (refuse svc errors i).id ≡ i.id
  unfolding refuse refused_with
  id-refuse errors i = elim (Option-cases (lookup i.id errors)) [
    | inl n ↦ rw n refl
    | inr (m, e) ↦ rw e refl
  ]

  checked-InWork : (i : Item V) → i.embedding_status ≡ Status.processing → InWork (checked svc i)
  checked-InWork i h = elim (Bool-cases (has_text svc i)) [
    | inl e ↦ rw e (inl h)
    | inr e ↦ rw e (inr refl)
  ]

  refuse-InWork : (errors : Dict String) (i : Item V) → InWork i → InWork (refuse svc errors i)
  unfolding refuse refused_with
  refuse-InWork errors i h = elim (Option-cases (lookup i.id errors)) [
    | inl n ↦ rw n h
    | inr (m, e) ↦ rw e (inr refl)
  ]

  refuse-failed :
      (errors : Dict String) (i : Item V)
      → (i.embedding_status ≡ Status.failed) ⊎ (is_some (lookup i.id errors) ≡ true)
      → (refuse svc errors i).embedding_status ≡ Status.failed
  unfolding refuse refused_with
  refuse-failed errors i h = elim (Option-cases (lookup i.id errors)) [
    | inl n ↦ rw n (ground (arith, n, h))
    | inr (m, e) ↦ rw e refl
  ]

  -- After the loops of `_embed_and_store` and `_embed`, given what `_embed` covers.
  ready :
      (e : Embedded W) (i : Item V)
      → (has_text svc i ≡ true
          → (is_some (lookup i.id e.vectors) ≡ true) ⊎ (is_some (lookup i.id e.errors) ≡ true))
      → Ready e.vectors (refuse svc e.errors (checked svc i))
  ready e i h = elim (Bool-cases (has_text svc i)) [
    | inr n ↦ inl (inr (refuse-failed e.errors (checked svc i) (inl (rw n refl))))
    | inl t ↦ elim (h t) [
      | inl v ↦ inr (rw (id-refuse e.errors (checked svc i), id-checked i) v)
      | inr x ↦ inl (inr (refuse-failed e.errors (checked svc i) (inr (rw (id-checked i) x))))
    ]
  ]

  store-IsFinal :
      (vectors : Dict W) (failed_ids : List String) (i : Item V)
      → Ready vectors i
      → IsFinal (store svc vectors failed_ids i).embedding_status
  store-IsFinal vectors failed_ids i h = elim (Bool-cases (is_some (lookup i.id vectors))) [
    | inl v ↦ rw v (stored-IsFinal i)
    | inr v ↦ rw v (elim h [ inl f ↦ f | inr w ↦ absurd (false≢true (sym v ∙ w)) ])
  ]
    where
      stored-IsFinal : (i : Item V) → IsFinal (stored svc failed_ids i).embedding_status
      stored-IsFinal i = elim (Bool-cases (member i.id failed_ids)) [
        | inl m ↦ rw m (inr refl)
        | inr m ↦ rw m (inl refl)
      ]

  after_upsert-Left :
      (vectors : Dict W) (r : Result PipelineError (List String)) (items : List (Item V))
      → All InWork items
      → All (Ready vectors) items
      → Left (after_upsert svc vectors r items)
  unfolding after_upsert
  after_upsert-Left vectors (err x) items a b = a
  after_upsert-Left vectors (ok failed_ids) items a b =
      All-map_to (Ready vectors) (λ i. IsFinal i.embedding_status) (store svc vectors failed_ids)
        items (store-IsFinal vectors failed_ids) b

  after_index-Left :
      (vectors : Dict W) (chosen : List (Item V)) (r : Result PipelineError (Unit {0}))
      (items : List (Item V))
      → All InWork items
      → All (Ready vectors) items
      → Left (after_index svc vectors chosen r items)
  unfolding after_index
  after_index-Left vectors chosen (err x) items a b = a
  after_index-Left vectors chosen (ok u) items a b = after_upsert-Left vectors _ items a b

  upserted-Left :
      (vectors : Dict W) (chosen items : List (Item V))
      → All InWork items
      → All (Ready vectors) items
      → (chosen ≡ [] → All (λ i. IsFinal i.embedding_status) items)
      → Left (upserted svc vectors chosen items)
  unfolding upserted
  upserted-Left vectors [] items a b c = c refl
  upserted-Left vectors (i ∷ is) items a b c =
      after_index-Left vectors (i ∷ is) svc.ensure_index items a b

  abbrev Claimed : List (Item V) → Type 0
  Claimed = All (λ i. i.embedding_status ≡ Status.processing)

  worked-All :
      (P Q : Item V → Type 0) (errors : Dict String) (items : List (Item V))
      → ((i : Item V) → P i → Q (refuse svc errors (checked svc i)))
      → All P items
      → All Q (map (refuse svc errors) (map (checked svc) items))
  worked-All P Q errors [] k h = tt
  worked-All P Q errors (i ∷ is) k h = (k i h.0, worked-All P Q errors is k h.1)

  none_kept : (q : Item V → Bool) (l : List (Item V)) → keep q l ≡ [] → All (λ i. q i ≡ false) l
  none_kept q [] h = tt
  none_kept q (i ∷ l) h = elim (Bool-cases (q i)) [
    | inl e ↦ absurd (ground (arith, keep-cons q i l e, h))
    | inr e ↦ (e, none_kept q l (sym (keep-skip q i l e) ∙ h))
  ]

  abbrev has_vector : Dict W → Item V → Bool
  has_vector vectors i = is_some (lookup i.id vectors)

  unready :
      (e : Embedded W) (i : Item V)
      → ((has_text svc i ≡ true)
          → (has_vector e.vectors i ≡ true) ⊎ (is_some (lookup i.id e.errors) ≡ true))
        × ((has_text svc i ≡ true) → has_vector e.vectors i ≡ false)
      → IsFinal (refuse svc e.errors (checked svc i)).embedding_status
  unready e i h = elim (Bool-cases (has_text svc i)) [
    | inr n ↦ inr (refuse-failed e.errors (checked svc i) (inl (rw n refl)))
    | inl t ↦ elim (h.0 t) [
      | inl v ↦ absurd (false≢true (sym (h.1 t) ∙ v))
      | inr x ↦ inr (refuse-failed e.errors (checked svc i) (inr (rw (id-checked i) x)))
    ]
  ]

  after_embed-Left :
      (items : List (Item V)) (e : Embedded W)
      → Claimed items
      → (e.raised ≡ none → Covered svc (keep (has_text svc) items) e)
      → Left (
          after_embed svc
            (keep (has_text svc) items)
            e
            (map (refuse svc e.errors) (map (checked svc) items)))
  unfolding after_embed
  after_embed-Left items e h c = elim (Option-cases e.raised) [
    | inr (x, r) ↦ rw r (in_work e.errors)
    | inl r ↦
        let covered =
          All-keep (λ i. (has_vector e.vectors i ≡ true) ⊎ (is_some (lookup i.id e.errors) ≡ true))
            (has_text svc) items (c r) in
        rw r (
          upserted-Left e.vectors (keep (has_vector e.vectors) (keep (has_text svc) items))
            (map (refuse svc e.errors) (map (checked svc) items)) (in_work e.errors)
            (worked-All _ (Ready e.vectors) e.errors items (ready e) covered)
            (λ n.
              worked-All _ (λ i. IsFinal i.embedding_status) e.errors items (unready e)
                (All-both _ _ items covered (
                  All-keep (λ i. has_vector e.vectors i ≡ false) (has_text svc) items
                    (none_kept (has_vector e.vectors) (keep (has_text svc) items) n)))))
  ]
    where
      in_work :
          (errors : Dict String) → All InWork (map (refuse svc errors) (map (checked svc) items))
      in_work errors =
          worked-All (λ i. i.embedding_status ≡ Status.processing) InWork errors items
            (λ i p. refuse-InWork errors (checked svc i) (checked-InWork i p)) h

  checked-IsFinal : (i : Item V) → has_text svc i ≡ false → IsFinal (checked svc i).embedding_status
  checked-IsFinal i h = rw h (inr refl)

  embed_from-Left :
      (items embeddable : List (Item V))
      → keep (has_text svc) items ≡ embeddable
      → Claimed items
      → Left (embed_from svc embeddable (map (checked svc) items))
  unfolding embed_from
  embed_from-Left items [] p h =
      All-map_to (λ i. has_text svc i ≡ false) (λ i. IsFinal i.embedding_status) (checked svc) items
        checked-IsFinal (none_kept (has_text svc) items p)
  embed_from-Left items (i ∷ is) p h =
      subst
        (λ c. Left (
          after_embed svc c (embed svc c)
            (map (refuse svc (embed svc c).errors) (map (checked svc) items))))
        p
        (after_embed-Left items (embed svc (keep (has_text svc) items)) h
          (embed-Covered svc (keep (has_text svc) items)))

  ended-Settled : (r : List (Item V) × Option PipelineError) → Left r → Settled (ended r)
  unfolding ended
  ended-Settled (items, none) h = h
  ended-Settled (items, some PipelineError.wrong_length) h = tt
  ended-Settled (items, some PipelineError.embedding_unavailable) h =
      All-map_to InWork _ hand_back items hand_back-InWork h
  ended-Settled (items, some PipelineError.store_unavailable) h =
      All-map_to InWork _ hand_back items hand_back-InWork h

  -- No claimed item is left in PROCESSING: after `process_items` every item is DONE or FAILED, and
  -- where OpenAI or Pinecone was down, every item is back in PENDING or FAILED. This holds whatever the
  -- services answer, provided that the embedder returns a vector for each text of a batch.
  pub process_items-Settled :
      (items : List (Item V))
      → All (λ i. i.embedding_status ≡ Status.processing) items
      → Settled (process_items svc items)
  unfolding process_items embed_and_store
  process_items-Settled [] h = tt
  process_items-Settled (i ∷ is) h =
      ended-Settled (embed_and_store svc (i ∷ is))
        (embed_from-Left (i ∷ is) (keep (has_text svc) (i ∷ is)) refl h)
