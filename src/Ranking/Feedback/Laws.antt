-- ===== src/Ranking/Feedback/Laws.antt =====
-- What re-ranking by feedback promises.
use recommendation_engine.Base.{
  ℕ, ◌≤◌, String, ◌≡◌, refl, ap, true, Option, none, some, List, [], ◌∷◌, map, arith, take, All,
  All-map, ◌*◌,
}
use recommendation_engine.Base.Number.{Num}
use recommendation_engine.Base.Sort.{IsSorted, IsTopK, take-sort_by-IsTopK, sort_by_sorted}
use recommendation_engine.Ranking.{
  Match, descending, descending_total, descending_trans, external_id, retrieval_score,
}
use recommendation_engine.Ranking.Feedback.{
  candidate_count, ItemStats, WorkspaceStats, Weights, adjustment, with_ranking, ranking_score,
  rerank,
}

-- For every count of results up to the cap of 200, at least as many candidates are fetched, at most
-- four times as many, and never more than the cap.
pub candidate_count_bounds :
    (top_k : ℕ)
    → top_k ≤ 200
    → (top_k ≤ candidate_count top_k)
      × (candidate_count top_k ≤ 4 * top_k)
      × (candidate_count top_k ≤ 200)
unfolding candidate_count
candidate_count_bounds top_k h = omega arith

module _ {N : Type 0} ⦃num : Num N⦄ where
  adjustment-unshown :
      (o : Option (ItemStats N)) (config : Weights N) (prior : WorkspaceStats N)
      → ((s : ItemStats N) → o ≡ some s → num.le s.impressions num.zero ≡ true)
      → adjustment o config prior ≡ num.zero
  unfolding adjustment
  adjustment-unshown none config prior h = refl
  adjustment-unshown (some s) config prior h = rw (h s refl)

module _ {N : Type 0} ⦃num : Num N⦄ (stats : String → Option (ItemStats N)) (config : Weights N)
    (prior : WorkspaceStats N) where
  -- `rerank` returns the best `top_k` of the candidates by ranking score, in order.
  pub rerank-IsTopK :
      (matches : List (Match N)) (top_k : ℕ)
      → IsTopK
          (descending ranking_score)
          top_k
          (map (with_ranking stats config prior) matches)
          (rerank stats matches top_k config prior)
  unfolding rerank
  rerank-IsTopK matches top_k =
      take-sort_by-IsTopK (descending ranking_score) (descending_total ranking_score)
        (descending_trans ranking_score) top_k (map (with_ranking stats config prior) matches)

  -- An item with no row, or never shown, keeps its retrieval score.
  abbrev pub IsUnshown : Match N → Type 0
  IsUnshown m =
      (s : ItemStats N) → stats (external_id m) ≡ some s → num.le s.impressions num.zero ≡ true

  ranking_score-unshown :
      (m : Match N)
      → IsUnshown m
      → ranking_score (with_ranking stats config prior m) ≡ retrieval_score m
  unfolding with_ranking
  ranking_score-unshown m h =
      rw (adjustment-unshown (stats (external_id m)) config prior h)
        (num.add_zero (retrieval_score m))

  below :
      (m : Match N) (ms : List (Match N))
      → IsUnshown m
      → All IsUnshown ms
      → All (λ n. descending retrieval_score m n ≡ true) ms
      → All
          (λ n. descending ranking_score (with_ranking stats config prior m) n ≡ true)
          (map (with_ranking stats config prior) ms)
  unfolding with_ranking
  below m [] h hs s = tt
  below m (n ∷ ms) h hs s =
      (rw (ranking_score-unshown m h, ranking_score-unshown n hs.0) s.0, below m ms h hs.1 s.1)

  map-IsSorted :
      (ms : List (Match N))
      → All IsUnshown ms
      → IsSorted (descending retrieval_score) ms
      → IsSorted (descending ranking_score) (map (with_ranking stats config prior) ms)
  map-IsSorted [] h s = tt
  map-IsSorted (m ∷ ms) h s = (below m ms h.0 h.1 s.0, map-IsSorted ms h.1 s.1)

  -- Items that nobody was shown stay in the order of the search: if that holds of every candidate and
  -- the candidates come best first, `rerank` keeps the first `top_k`, with their scores.
  pub rerank-unshown :
      (matches : List (Match N)) (top_k : ℕ)
      → All IsUnshown matches
      → IsSorted (descending retrieval_score) matches
      → rerank stats matches top_k config prior
          ≡ take top_k (map (with_ranking stats config prior) matches)
        × All (λ m. ranking_score (with_ranking stats config prior m) ≡ retrieval_score m) matches
  unfolding rerank
  rerank-unshown matches top_k h s = (
    ap (take top_k) (sort_by_sorted (descending ranking_score) _ (map-IsSorted matches h s)),
    All-map IsUnshown (λ m. ranking_score (with_ranking stats config prior m) ≡ retrieval_score m)
        ranking_score-unshown matches h,
  )
