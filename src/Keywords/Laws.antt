-- ===== src/Keywords/Laws.antt =====
-- What keyword search promises.
use mathlib.Core.Path.{subst}
use mathlib.Core.Option.{none-ne-some, some-injective}
use recommendation_engine.Base.{
  ℕ, ◌≤◌, ◌≡◌, refl, inl, inr, String, Bool, true, ◌&&◌, some, List, [], ◌∷◌, keep, arith, str_eq,
  length, take, All, All-map, take-All, In, Bool-cases, Option-cases, length-take, keep-All,
  List-cases, sym, ◌==◌, false, none, Option, is_some, ap, ◌∙◌, eq_iff,
}
use recommendation_engine.Base.Number.{Num}
use recommendation_engine.Base.Dict.{Dict, member}
use recommendation_engine.Base.Sort.{sort_by-All}
use recommendation_engine.Filter.{Value, Condition, matches_filter}
use recommendation_engine.Pipeline.{Item, Status, same_status}
use recommendation_engine.Ranking.Hybrid.{KeywordMatch}
use recommendation_engine.Keywords.{
  hits_in, occurrences, text_or_empty, text_score, distinct, is_searchable, match_of, matches_from,
  better, in_python, search, fetch_size,
}

In-distinct : (ws : List String) (w : String) → In w (distinct ws) → In w ws
unfolding distinct
In-distinct [] w h = absurd h
In-distinct (v ∷ ws) w h = elim (Bool-cases (member v ws)) [
  | inl e ↦ inr (In-distinct ws w (subst (In w) {y = distinct ws} (rw e refl) h))
  | inr e ↦ In-first v ws w (In-distinct ws w) (subst (In w) {y = v ∷ distinct ws} (rw e refl) h)
]
  where
    In-first :
        (v : String) (ws : List String) (w : String)
        → (In w (distinct ws) → In w ws)
        → In w (v ∷ distinct ws)
        → In w (v ∷ ws)
    In-first v ws w f (inl e) = inl e
    In-first v ws w f (inr i) = inr (f i)

-- A word that is counted occurs.
occurs : (w : String) (text : List String) → occurrences w text == 0 ≡ false → In w text
occurs w [] h = absurd (ground arith)
occurs w (v ∷ text) h = elim (Bool-cases (str_eq v w)) [
  | inl e ↦ inl (sym ((eq_iff v w).0 e))
  | inr e ↦ inr (occurs w text (ground (arith, e, h)))
]

-- A word of both texts.
abbrev pub Shared : List String → List String → Type 0
Shared query text = (w : String) × In w query × In w text

hits_in-Shared :
    (query text : List String) (n : ℕ) (ns : List ℕ)
    → hits_in query text ≡ n ∷ ns
    → Shared query text
unfolding hits_in
hits_in-Shared [] text n ns h = absurd (cc)
hits_in-Shared (w ∷ query) text n ns h = elim (Bool-cases (occurrences w text == 0)) [
  | inl e ↦ let (v, i, j) = hits_in-Shared query text n ns (ground (arith, e, h)) in (v, inr i, j)
  | inr e ↦ (w, inl refl, occurs w text e)
]

done_only : (s : Status) → same_status s Status.done ≡ true → s ≡ Status.done
done_only Status.done h = refl
done_only Status.pending h = absurd (ground (arith, h))
done_only Status.processing h = absurd (ground (arith, h))
done_only Status.failed h = absurd (ground (arith, h))

present : (o : Option String) → is_some o ≡ true → (t : String) × (o ≡ some t)
present none h = absurd (ground (arith, h))
present (some t) h = (t, refl)

module _ {N : Type 0} ⦃num : Num N⦄ (words : String → List String) where
  -- A hit: one of the workspace's embedded items, whose search text has a word of the text in it.
  abbrev pub IsHit : String → String → List (Item (Value N)) → KeywordMatch N → Type 0
  IsHit tenant text db m =
      (i : Item (Value N)) × In i db
      × (i.tenant_id ≡ tenant)
      × (i.embedding_status ≡ Status.done)
      × (i.pinecone_id ≡ some m.pinecone_id)
      × (m.external_id ≡ i.external_id)
      × (m.metadata ≡ i.item_metadata)
      × (t : String) × (i.search_text ≡ some t)
      × Shared (words text) (words t)

  IsHit-later :
      (tenant text : String) (i : Item (Value N)) (db : List (Item (Value N))) (m : KeywordMatch N)
      → IsHit tenant text db m
      → IsHit tenant text (i ∷ db) m
  IsHit-later tenant text i db m (j, k, a, b, c, d, e, t, f, g) = (j, inr k, a, b, c, d, e, t, f, g)

  -- What a row that makes a match is.
  match_of-some :
      (query : List String) (i : Item (Value N)) (p t : String) (m : KeywordMatch N)
      → i.pinecone_id ≡ some p
      → i.search_text ≡ some t
      → match_of words query i ≡ some m
      → (p ≡ m.pinecone_id)
        × (m.external_id ≡ i.external_id)
        × (m.metadata ≡ i.item_metadata)
        × Shared query (words t)
  unfolding match_of
  match_of-some query i p t m has_id has_text e = elim (List-cases (hits_in query (words t))) [
    | inl n ↦
        let nothing : match_of words query i ≡ none = rw (has_text, n, match_of) refl in
        absurd (none-ne-some m (sym nothing ∙ e))
    | inr (h, hs, n) ↦
        let made : KeywordMatch N = record {
          external_id = i.external_id;
          pinecone_id = text_or_empty i.pinecone_id;
          score = text_score (h ∷ hs) (words (text_or_empty i.search_text));
          metadata = i.item_metadata;
        } in
        let hit : hits_in query (words (text_or_empty i.search_text)) ≡ h ∷ hs = rw has_text n in
        let found : match_of words query i ≡ some made = rw (hit, match_of) refl in
        let same : made ≡ m = some-injective made m (sym found ∙ e) in
        (
          subst (λ (k : KeywordMatch N). p ≡ k.pinecone_id) same (rw has_id refl),
          ap (λ (k : KeywordMatch N). k.external_id) (sym same),
          ap (λ (k : KeywordMatch N). k.metadata) (sym same),
          hits_in-Shared query (words t) h hs n,
        )
  ]

  row-IsHit :
      (tenant text : String) (i : Item (Value N)) (db : List (Item (Value N))) (m : KeywordMatch N)
      → str_eq i.tenant_id tenant && is_searchable i ≡ true
      → match_of words (distinct (words text)) i ≡ some m
      → IsHit tenant text (i ∷ db) m
  row-IsHit tenant text i db m h e =
      let (p, has_id) = present i.pinecone_id (ground (arith, h)) in
      let (t, has_text) = present i.search_text (ground (arith, h)) in
      let (same_id, same_external, same_metadata, (w, a, b)) =
        match_of-some (distinct (words text)) i p t m has_id has_text e in
      (
        i,
        inl refl,
        (eq_iff i.tenant_id tenant).0 (ground (arith, h)),
        done_only i.embedding_status (ground (arith, h)),
        has_id ∙ ap some same_id,
        same_external,
        same_metadata,
        t,
        has_text,
        (w, In-distinct (words text) w a, b),
      )

  matches_from-IsHit :
      (tenant text : String) (db : List (Item (Value N)))
      → All (IsHit tenant text db) (matches_from words tenant (distinct (words text)) db)
  unfolding matches_from
  matches_from-IsHit tenant text [] = tt
  matches_from-IsHit tenant text (i ∷ db) =
      let query = distinct (words text) in
      let rest =
        All-map (IsHit tenant text db) (IsHit tenant text (i ∷ db)) (IsHit-later tenant text i db)
          (matches_from words tenant query db) (matches_from-IsHit tenant text db) in
      elim (Bool-cases (str_eq i.tenant_id tenant && is_searchable i)) [
        | inl e ↦ elim (Option-cases (match_of words query i)) [
          | inl n ↦ rw (e, n) rest
          | inr (m, n) ↦ rw (e, n) (row-IsHit tenant text i db m e n, rest)
        ]
        | inr e ↦ rw e rest
      ]

  -- A hit that passes the filter.
  abbrev pub IsFound :
      String → List (Item (Value N)) → String → Dict (Condition N) → KeywordMatch N → Type 0
  IsFound tenant db text filter m =
      IsHit tenant text db m × (matches_filter m.metadata filter ≡ true)

  search-nonempty :
      (backend : String → ℕ → List (KeywordMatch N)) (text : String) (filter : Dict (Condition N))
      (k : ℕ) (w : String) (ws : List String)
      → words text ≡ w ∷ ws
      → search words backend text filter k
        ≡ take k (
            keep
              (λ (m : KeywordMatch N). matches_filter m.metadata filter)
              (backend text (fetch_size filter k)))
  unfolding search
  search-nonempty backend text filter k w ws e = rw (e, search) refl

  search-empty :
      (backend : String → ℕ → List (KeywordMatch N)) (text : String) (filter : Dict (Condition N))
      (k : ℕ)
      → words text ≡ []
      → search words backend text filter k ≡ []
  unfolding search
  search-empty backend text filter k e = rw (e, search) refl

  -- Keyword search on the backend that ranks in Python returns at most `k` matches; each is an embedded
  -- item of the workspace, by its ids and its metadata, whose search text has a word of the query, and
  -- passes the filter.
  pub search-IsFound :
      (id_order : String → String → Bool) (tenant : String) (db : List (Item (Value N)))
      (text : String) (filter : Dict (Condition N)) (k : ℕ)
      → let found = search words (in_python words id_order tenant db) text filter k in
        (length found ≤ k) × All (IsFound tenant db text filter) found
  unfolding in_python
  search-IsFound id_order tenant db text filter k = elim (List-cases (words text)) [
    | inl e ↦
        subst
          (λ (l : List (KeywordMatch N)). (length l ≤ k) × All (IsFound tenant db text filter) l)
          (sym (search-empty (in_python words id_order tenant db) text filter k e))
          (omega arith, tt)
    | inr (w, ws, e) ↦
        let query = distinct (words text) in
        let backend = in_python words id_order tenant db text (fetch_size filter k) in
        let passing = keep (λ (m : KeywordMatch N). matches_filter m.metadata filter) backend in
        let shape = search-nonempty (in_python words id_order tenant db) text filter k w ws e in
        (
          subst (λ (l : List (KeywordMatch N)). length l ≤ k) (sym shape)
              (omega (arith, length-take k passing)),
          subst (All (IsFound tenant db text filter)) (sym shape) (
              take-All (IsFound tenant db text filter) k passing (
                keep-All (IsHit tenant text db) _ backend (
                  take-All (IsHit tenant text db) _ _ (
                    sort_by-All (better id_order) (IsHit tenant text db)
                      (matches_from words tenant query db) (matches_from-IsHit tenant text db))))),
        )
  ]
