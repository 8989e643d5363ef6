-- ===== src/Engine/Batch/Hits.antt =====
-- query_engine.py: the queries of a batch that the cache answers.
use mathlib.Core.Path.{subst}
use mathlib.Core.Bool.{false≢true}
use recommendation_engine.Base.{
  ℕ, ap, ◌≡◌, refl, sym, ◌∙◌, inl, inr, String, Bool, true, Option, none, some, List, [], ◌∷◌, keep,
  arith, eq_iff, All, In, Bool-cases,
}
use recommendation_engine.Base.Dict.{Dict, lookup, put, member, Distinct, Entries, put-Entries}
use recommendation_engine.Ranking.Format.{Ranked}
use recommendation_engine.Engine.{Cache}
use recommendation_engine.Engine.Results.{get, Held, get-Held, entries-get}
use recommendation_engine.Engine.Batch.{BatchQuery, read_all, misses}

In-keep : {A : Type 0} (p : A → Bool) (l : List A) (x : A) → In x (keep p l) → In x l
In-keep p [] x i = absurd i
In-keep p (y ∷ l) x i = elim (Bool-cases (p y)) [
  | inl e ↦ elim (subst (In x) {y = y ∷ keep p l} (rw e refl) i) [
    | inl same ↦ inl same
    | inr j ↦ inr (In-keep p l x j)
  ]
  | inr e ↦ inr (In-keep p l x (subst (In x) {y = keep p l} (rw e refl) i))
]

module _ {N : Type 0} where
  abbrev pub query_ids : List (BatchQuery N) → List String
  query_ids [] = []
  query_ids (q ∷ qs) = q.id ∷ query_ids qs

  id_listed :
      (qs : List (BatchQuery N)) (q : BatchQuery N) → In q qs → member q.id (query_ids qs) ≡ true
  id_listed [] q i = absurd i
  id_listed (p ∷ qs) q (inl e) = rw e (ground (arith, eq_iff p.id p.id))
  id_listed (p ∷ qs) q (inr i) = ground (arith, id_listed qs q i)

  -- A query of a batch is known by its id.
  pub same_query :
      (qs : List (BatchQuery N)) (p q : BatchQuery N)
      → Distinct (query_ids qs)
      → In p qs
      → In q qs
      → p.id ≡ q.id
      → p ≡ q
  same_query [] p q d i j e = absurd i
  same_query (x ∷ qs) p q d (inl a) (inl b) e = a ∙ sym b
  same_query (x ∷ qs) p q d (inr a) (inr b) e = same_query qs p q d.1 a b e
  same_query (x ∷ qs) p q d (inl a) (inr b) e = absurd (
      false≢true (
        sym d.0
        ∙ subst (λ i. member i (query_ids qs) ≡ true)
            (sym (ap (λ (y : BatchQuery N). y.id) (sym a) ∙ e)) (id_listed qs q b)))
  same_query (x ∷ qs) p q d (inr a) (inl b) e = absurd (
      false≢true (
        sym d.0
        ∙ subst (λ i. member i (query_ids qs) ≡ true) (e ∙ ap (λ (y : BatchQuery N). y.id) b)
            (id_listed qs p a)))

  pub In-misses :
      (hits : Dict (List (Ranked N))) (qs : List (BatchQuery N)) (q : BatchQuery N)
      → In q (misses hits qs)
      → In q qs
  unfolding misses
  In-misses hits qs q i = In-keep _ qs q i

  module _ (now : ℕ) (k : BatchQuery N → String) (c : Cache N) (all : List (BatchQuery N)) where
    -- Results that the cache holds for a query with this id.
    abbrev pub FromCache : String → List (Ranked N) → Type 0
    FromCache id results = (q : BatchQuery N) × In q all × (q.id ≡ id) × Held now (k q) c results

    answered :
        (o : Option (List (Ranked N))) (q : BatchQuery N) (hits : Dict (List (Ranked N)))
        → ((r : List (Ranked N)) → o ≡ some r → FromCache q.id r)
        → Entries FromCache hits
        → Entries FromCache (elim o [ none ↦ hits | some r ↦ put q.id r hits ])
    answered none q hits f h = h
    answered (some r) q hits f h = put-Entries FromCache q.id r hits (f r refl) h

    pub read_all-FromCache :
        (qs : List (BatchQuery N)) (hits : Dict (List (Ranked N))) (now_c : Cache N)
        → All (λ q. In q all) qs
        → now_c.entries ≡ c.entries
        → Entries FromCache hits
        → Entries FromCache (read_all now k qs hits now_c).0
    unfolding read_all
    read_all-FromCache [] hits d a e h = h
    read_all-FromCache (q ∷ qs) hits d a e h =
        read_all-FromCache qs _ (get now (k q) d).1 a.1 (entries-get now (k q) d ∙ e) (
          answered (get now (k q) d).0 q hits
            (λ r n.
              let (expires, found, valid) = get-Held now (k q) d r n in
              (q, a.0, refl, (expires, ap (lookup (k q)) (sym e) ∙ found, valid)))
            h)
