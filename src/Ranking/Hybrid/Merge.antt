-- ===== src/Ranking/Hybrid/Merge.antt =====
-- hybrid.py: the list into which `fuse` merges both searches: each item once, and where it comes from.
use mathlib.Core.Path.{subst}
use recommendation_engine.Base.{
  String, ◌≡◌, sym, ◌⊎◌, inl, inr, some, ◌∙◌, arith, true, false, str_eq, eq_iff, List, [], ◌∷◌,
  Bool-cases, Option-cases, All, All-map, In,
}
use recommendation_engine.Base.Number.{Num}
use recommendation_engine.Base.Dict.{
  Dict, member, lookup, put, keys, Distinct, put-Distinct, member-put, Entries, put-Entries,
}
use recommendation_engine.Ranking.{Match}
use mathlib.Core.Bool.{false≢true}
use recommendation_engine.Ranking.Hybrid.{
  KeywordMatch, by_id, keyword_candidate, add_keyword, add_keywords,
}

module _ {N : Type 0} ⦃num : Num N⦄ where
  pub by_id-Distinct :
      (ms : List (Match N)) (d : Dict (Match N)) → Distinct (keys d) → Distinct (keys (by_id ms d))
  unfolding by_id
  by_id-Distinct [] d h = h
  by_id-Distinct (m ∷ ms) d h = by_id-Distinct ms (put m.id m d) (put-Distinct m.id m d h)

  module _ (vectors : Dict (List N)) (q : List N) where
    add_keyword-Distinct :
        (k : KeywordMatch N) (d : Dict (Match N))
        → Distinct (keys d)
        → Distinct (keys (add_keyword vectors q k d))
    unfolding add_keyword
    add_keyword-Distinct k d h = elim (Bool-cases (member k.pinecone_id (keys d))) [
      | inl e ↦ rw (e, add_keyword) h
      | inr e ↦ elim (Option-cases (lookup k.pinecone_id vectors)) [
        | inl n ↦ rw (e, n, add_keyword) h
        | inr (v, n) ↦ rw (e, n, add_keyword) (put-Distinct k.pinecone_id _ d h)
      ]
    ]

    pub add_keywords-Distinct :
        (ks : List (KeywordMatch N)) (d : Dict (Match N))
        → Distinct (keys d)
        → Distinct (keys (add_keywords vectors q ks d))
    unfolding add_keywords
    add_keywords-Distinct [] d h = h
    add_keywords-Distinct (k ∷ ks) d h =
        add_keywords-Distinct ks (add_keyword vectors q k d) (add_keyword-Distinct k d h)

  -- Every match of the vector search has its place.
  abbrev Listed : List (Match N) → Dict (Match N) → Type 0
  Listed vm d = All (λ (m : Match N). member m.id (keys d) ≡ true) vm

  -- The vector search did not find the item.
  abbrev pub IsUnfound : List (Match N) → String → Type 0
  IsUnfound vm id = All (λ (m : Match N). str_eq m.id id ≡ false) vm

  Listed-put :
      (vm : List (Match N)) (id : String) (m : Match N) (d : Dict (Match N))
      → Listed vm d
      → Listed vm (put id m d)
  Listed-put vm id m d =
      All-map (λ (x : Match N). member x.id (keys d) ≡ true) _
        (λ x h. ground (arith, member-put id x.id m d, h)) vm

  Listed-IsUnfound :
      (vm : List (Match N)) (id : String) (d : Dict (Match N))
      → member id (keys d) ≡ false
      → Listed vm d
      → IsUnfound vm id
  Listed-IsUnfound vm id d h =
      All-map (λ (x : Match N). member x.id (keys d) ≡ true) _
        (λ x g. elim (Bool-cases (str_eq x.id id)) [
          | inl e ↦
              absurd (
                false≢true (sym h ∙ subst (λ i. member i (keys d) ≡ true) ((eq_iff x.id id).0 e) g))
          | inr e ↦ e
        ])
        vm

  member-by_id :
      (ms : List (Match N)) (j : String) (d : Dict (Match N))
      → member j (keys d) ≡ true
      → member j (keys (by_id ms d)) ≡ true
  unfolding by_id
  member-by_id [] j d h = h
  member-by_id (m ∷ ms) j d h =
      member-by_id ms j (put m.id m d) (ground (arith, member-put m.id j m d, h))

  pub by_id-Listed : (ms : List (Match N)) (d : Dict (Match N)) → Listed ms (by_id ms d)
  unfolding by_id
  by_id-Listed [] d = tt
  by_id-Listed (m ∷ ms) d = (
    member-by_id ms m.id (put m.id m d)
        (ground (arith, member-put m.id m.id m d, eq_iff m.id m.id)),
    by_id-Listed ms (put m.id m d),
  )

  module _ (vectors : Dict (List N)) (q : List N) where
    member-add_keyword :
        (k : KeywordMatch N) (j : String) (d : Dict (Match N))
        → member j (keys d) ≡ true
        → member j (keys (add_keyword vectors q k d)) ≡ true
    unfolding add_keyword
    member-add_keyword k j d h = elim (Bool-cases (member k.pinecone_id (keys d))) [
      | inl e ↦ rw (e, add_keyword) h
      | inr e ↦ elim (Option-cases (lookup k.pinecone_id vectors)) [
        | inl n ↦ rw (e, n, add_keyword) h
        | inr (v, n) ↦
            rw (e, n, add_keyword)
              (ground (arith, member-put k.pinecone_id j (keyword_candidate q k v) d, h))
      ]
    ]

    pub member-add_keywords :
        (ks : List (KeywordMatch N)) (j : String) (d : Dict (Match N))
        → member j (keys d) ≡ true
        → member j (keys (add_keywords vectors q ks d)) ≡ true
    unfolding add_keywords
    member-add_keywords [] j d h = h
    member-add_keywords (k ∷ ks) j d h =
        member-add_keywords ks j (add_keyword vectors q k d) (member-add_keyword k j d h)

    -- A keyword hit with a stored vector has its place.
    own-add_keyword :
        (k : KeywordMatch N) (d : Dict (Match N)) (v : List N)
        → lookup k.pinecone_id vectors ≡ some v
        → member k.pinecone_id (keys (add_keyword vectors q k d)) ≡ true
    unfolding add_keyword
    own-add_keyword k d v n = elim (Bool-cases (member k.pinecone_id (keys d))) [
      | inl e ↦ rw (e, add_keyword) e
      | inr e ↦
          rw (e, n, add_keyword)
            (ground (
              arith,
              member-put k.pinecone_id k.pinecone_id (keyword_candidate q k v) d,
              eq_iff k.pinecone_id k.pinecone_id,
            ))
    ]

    pub add_keywords-Placed :
        (ks : List (KeywordMatch N)) (d : Dict (Match N))
        → All
            (λ (k : KeywordMatch N).
              (v : List N)
              → lookup k.pinecone_id vectors ≡ some v
              → member k.pinecone_id (keys (add_keywords vectors q ks d)) ≡ true)
            ks
    unfolding add_keywords
    add_keywords-Placed [] d = tt
    add_keywords-Placed (k ∷ ks) d = (
      λ v n.
          member-add_keywords ks k.pinecone_id (add_keyword vectors q k d)
            (own-add_keyword k d v n),
      add_keywords-Placed ks (add_keyword vectors q k d),
    )

  -- Where a candidate comes from: the vector search, or a keyword hit that the vector search did not
  -- find and that has a stored vector, whose cosine with the query is then its score.
  abbrev pub Origin :
      List (Match N) → List (KeywordMatch N) → Dict (List N) → List N → Match N → Type 0
  Origin vm km vectors q m =
      In m vm
      ⊎ (k : KeywordMatch N) × (v : List N) × In k km
        × IsUnfound vm k.pinecone_id
        × (lookup k.pinecone_id vectors ≡ some v)
        × (m ≡ keyword_candidate q k v)

  module _ (P : String → Match N → Type 0) where
    pub by_id-Entries :
        (ms : List (Match N)) (d : Dict (Match N))
        → All (λ m. P m.id m) ms
        → Entries P d
        → Entries P (by_id ms d)
    unfolding by_id
    by_id-Entries [] d a h = h
    by_id-Entries (m ∷ ms) d a h =
        by_id-Entries ms (put m.id m d) a.1 (put-Entries P m.id m d a.0 h)

    module _ (vectors : Dict (List N)) (q : List N) (vm : List (Match N)) where
      abbrev pub IsWelcome : KeywordMatch N → Type 0
      IsWelcome k =
          (v : List N)
          → lookup k.pinecone_id vectors ≡ some v
          → IsUnfound vm k.pinecone_id
          → P k.pinecone_id (keyword_candidate q k v)

      add_keyword-Entries :
          (k : KeywordMatch N) (d : Dict (Match N))
          → IsWelcome k
          → Listed vm d
          → Entries P d
          → Entries P (add_keyword vectors q k d)
      unfolding add_keyword
      add_keyword-Entries k d w l h = elim (Bool-cases (member k.pinecone_id (keys d))) [
        | inl e ↦ rw (e, add_keyword) h
        | inr e ↦ elim (Option-cases (lookup k.pinecone_id vectors)) [
          | inl n ↦ rw (e, n, add_keyword) h
          | inr (v, n) ↦
              rw (e, n, add_keyword)
                (put-Entries P k.pinecone_id _ d (w v n (Listed-IsUnfound vm k.pinecone_id d e l))
                  h)
        ]
      ]

      pub add_keywords-Entries :
          (ks : List (KeywordMatch N)) (d : Dict (Match N))
          → All IsWelcome ks
          → Listed vm d
          → Entries P d
          → Entries P (add_keywords vectors q ks d)
      unfolding add_keywords
      add_keywords-Entries [] d w l h = h
      add_keywords-Entries (k ∷ ks) d w l h =
          add_keywords-Entries ks (add_keyword vectors q k d) w.1
            (All-map (λ (x : Match N). member x.id (keys d) ≡ true) _
              (λ x g. member-add_keyword vectors q k x.id d g) vm l)
            (add_keyword-Entries k d w.0 l h)
