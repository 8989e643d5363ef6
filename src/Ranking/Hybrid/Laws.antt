-- ===== src/Ranking/Hybrid/Laws.antt =====
-- What the fusion of vector and keyword matches promises.
use mathlib.Core.List.{Nodup}
use mathlib.Core.Path.{ap₂, subst}
use recommendation_engine.Base.{
  ℕ, String, ◌≡◌, refl, sym, inl, inr, some, true, List, [], ◌∷◌, map, All, All-map, In, All-In,
}
use recommendation_engine.Base.Number.{Num}
use recommendation_engine.Base.Dict.{Dict, member, lookup, keys, Distinct, Entries, Distinct-Nodup}
use recommendation_engine.Base.Sort.{IsTopK, take-sort_by-IsTopK}
use recommendation_engine.Ranking.{
  Match, descending, descending_total, descending_trans, retrieval_score,
}
use recommendation_engine.Ranking.Hybrid.Shares.{IsShare, boosts-IsShare}
use recommendation_engine.Ranking.Hybrid.{
  KeywordMatch, by_id, add_keywords, with_retrieval, boost_of, boosts, candidates, fuse,
}
use recommendation_engine.Ranking.Hybrid.Merge.{
  by_id-Distinct, add_keywords-Distinct, by_id-Listed, member-add_keywords, add_keywords-Placed,
  Origin, by_id-Entries, IsWelcome, add_keywords-Entries,
}

module _ {N : Type 0} ⦃num : Num N⦄ where
  -- A candidate that has an origin, with its score and its weighted share of the best keyword score
  -- added up.
  abbrev pub IsFused :
      List (Match N) → List (KeywordMatch N) → Dict (List N) → List N → N → Match N → Type 0
  IsFused vm km vectors q w r =
      (m : Match N) × Origin vm km vectors q m
      × (share : N) × IsShare km m.id share
      × (r ≡ record m { retrieval = some (num.add m.score (num.mul w share)) })

  abbrev pub ids_of : List (Match N) → List String
  ids_of = map (λ (m : Match N). m.id)

  module _ (vm : List (Match N)) (km : List (KeywordMatch N)) (vectors : Dict (List N)) (q : List N)
      (w : N) where
    merged : Dict (Match N)
    merged = add_keywords vectors q km (by_id vm [])

    abbrev Placed : String → Match N → Type 0
    Placed id m = (m.id ≡ id) × Origin vm km vectors q m

    merged-Placed : Entries Placed merged
    unfolding merged
    merged-Placed =
        add_keywords-Entries Placed vectors q vm km (by_id vm [])
          (All-map (λ k. In k km) (IsWelcome Placed vectors q vm)
            (λ k i v e u. (refl, inr (k, v, i, u, e, refl))) km (All-In km))
          (by_id-Listed vm [])
          (by_id-Entries Placed vm []
            (All-map (λ m. In m vm) (λ m. Placed m.id m) (λ m i. (refl, inl i)) vm (All-In vm)) tt)

    merged-Distinct : Distinct (keys merged)
    unfolding merged
    merged-Distinct = add_keywords-Distinct vectors q km (by_id vm []) (by_id-Distinct vm [] tt)

    with_retrieval-IsFused :
        (d : Dict (Match N))
        → Entries Placed d
        → All (IsFused vm km vectors q w) (with_retrieval w (boosts km) d)
    unfolding with_retrieval
    with_retrieval-IsFused [] h = tt
    with_retrieval-IsFused ((id, m) ∷ d) ((e, o), h) = (
      (m, o, boost_of (lookup m.id (boosts km)), boosts-IsShare km m.id, rw e),
      with_retrieval-IsFused d h,
    )

    ids-with_retrieval :
        (d : Dict (Match N))
        → Entries Placed d
        → map (λ (m : Match N). m.id) (with_retrieval w (boosts km) d) ≡ keys d
    unfolding with_retrieval
    ids-with_retrieval [] h = refl
    ids-with_retrieval ((id, m) ∷ d) ((e, o), h) = ap₂ ◌∷◌ e (ids-with_retrieval d h)

    candidates-Nodup : Nodup (map (λ (m : Match N). m.id) (candidates vm km vectors q w))
    unfolding candidates merged
    candidates-Nodup =
        subst Nodup (sym (ids-with_retrieval merged merged-Placed))
          (Distinct-Nodup (keys merged) merged-Distinct)

    ids-candidates : ids_of (candidates vm km vectors q w) ≡ keys merged
    unfolding candidates merged
    ids-candidates = ids-with_retrieval merged merged-Placed

    candidates-Listed :
        All (λ (m : Match N). member m.id (ids_of (candidates vm km vectors q w)) ≡ true) vm
    unfolding merged
    candidates-Listed =
        subst (λ l. All (λ (m : Match N). member m.id l ≡ true) vm) (sym ids-candidates)
          (All-map (λ (m : Match N). member m.id (keys (by_id vm [])) ≡ true) _
            (λ m h. member-add_keywords vectors q km m.id (by_id vm []) h) vm (by_id-Listed vm []))

    candidates-Placed :
        All
          (λ (k : KeywordMatch N).
            (v : List N)
            → lookup k.pinecone_id vectors ≡ some v
            → member k.pinecone_id (ids_of (candidates vm km vectors q w)) ≡ true)
          km
    unfolding merged
    candidates-Placed =
        subst
          (λ l.
            All
              (λ (k : KeywordMatch N).
                (v : List N)
                → lookup k.pinecone_id vectors ≡ some v
                → member k.pinecone_id l ≡ true)
              km)
          (sym ids-candidates) (add_keywords-Placed vectors q km (by_id vm []))

    candidates-IsFused : All (IsFused vm km vectors q w) (candidates vm km vectors q w)
    unfolding candidates merged
    candidates-IsFused = with_retrieval-IsFused merged merged-Placed

  -- A fusion: the `k` best, in order, of candidates that are, once each, all that the vector search
  -- found and all keyword hits with a stored vector.
  pub record IsFusion (vm : List (Match N)) (km : List (KeywordMatch N)) (vectors : Dict (List N))
      (q : List N) (w : N) (k : ℕ) (result : List (Match N)) : Type 0 where
    pub all : List (Match N)
    pub once : Nodup (ids_of all)
    pub fused : All (IsFused vm km vectors q w) all
    pub vector_found : All (λ (m : Match N). member m.id (ids_of all) ≡ true) vm
    pub keyword_found :
        All
          (λ (h : KeywordMatch N).
            (v : List N)
            → lookup h.pinecone_id vectors ≡ some v
            → member h.pinecone_id (ids_of all) ≡ true)
          km
    pub top : IsTopK (descending retrieval_score) k all result

  -- `fuse` returns, in order, the `k` best by retrieval score of these candidates, each once: what the
  -- vector search found, and the other keyword hits with a stored vector, scored by its cosine with the
  -- query; their retrieval score is the score and the weighted share of the best keyword score.
  pub fuse-IsFusion :
      (vm : List (Match N)) (km : List (KeywordMatch N)) (vectors : Dict (List N)) (q : List N)
      (w : N) (k : ℕ)
      → IsFusion vm km vectors q w k (fuse vm km vectors q w k)
  unfolding fuse
  fuse-IsFusion vm km vectors q w k = record {
    all = candidates vm km vectors q w;
    once = candidates-Nodup vm km vectors q w;
    fused = candidates-IsFused vm km vectors q w;
    vector_found = candidates-Listed vm km vectors q w;
    keyword_found = candidates-Placed vm km vectors q w;
    top =
        take-sort_by-IsTopK (descending retrieval_score) (descending_total retrieval_score)
          (descending_trans retrieval_score) k (candidates vm km vectors q w);
  }
