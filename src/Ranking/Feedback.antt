-- ===== src/Ranking/Feedback.antt =====
-- reranker.py and the rates of item_stats.py: candidates re-ranked by what people did with them.

pub mod Laws
use recommendation_engine.Base.{
  ℕ, ◌*◌, String, Bool, Option, none, some, List, [], ◌∷◌, min, max, map, take, if◌then◌else◌,
}
use recommendation_engine.Base.Number.{Num, lt, num_max, num_min}
use recommendation_engine.Base.Sort.{sort_by}
use recommendation_engine.Ranking.{Match, descending, external_id, or_default, retrieval_score}

abbrev pub candidate_multiplier : ℕ
candidate_multiplier = 4

abbrev pub max_candidates : ℕ
max_candidates = 200

unfoldable pub candidate_count : ℕ → ℕ
candidate_count top_k = min (max (top_k * candidate_multiplier) top_k) max_candidates

-- A row of item_stats.
pub record ItemStats (N : Type 0) : Type 0 where
  pub impressions : N
  pub clicks : N
  pub positives : N
  pub negatives : N
  pub conversions : N

pub record WorkspaceStats (N : Type 0) : Type 0 where
  pub impressions : N
  pub engagement : N
  pub conversion : N
  pub negative : N
  pub max_impressions : N

-- The weights of `domain_config.ranking`.
pub record Weights (N : Type 0) : Type 0 where
  pub engagement : N
  pub conversion : N
  pub negative : N
  pub popularity : N

module _ {N : Type 0} ⦃num : Num N⦄ where
  pub has_data : WorkspaceStats N → Bool
  has_data s = lt num.zero s.impressions

  -- `PRIOR_STRENGTH = 20.0`
  prior_strength : N
  prior_strength = num.of_nat 20

  unfoldable pub smoothed_rate : N → N → N → N → N
  smoothed_rate successes trials prior strength =
      num.div (num.add successes (num.mul prior strength)) (num.add trials strength)

  total : (ItemStats N → N) → List (ItemStats N) → N
  total f [] = num.zero
  total f (s ∷ rows) = num.add (f s) (total f rows)

  most : List (ItemStats N) → N
  most [] = num.zero
  most (s ∷ rows) = num_max s.impressions (most rows)

  -- `_capped`
  capped : N → N → N
  capped successes impressions = if lt impressions successes then impressions else successes

  no_stats : WorkspaceStats N
  no_stats = record {
    impressions = num.zero;
    engagement = num.zero;
    conversion = num.zero;
    negative = num.zero;
    max_impressions = num.zero;
  }

  -- `workspace_stats`, over the workspace's rows
  pub workspace_stats : List (ItemStats N) → WorkspaceStats N
  unfolding total most capped no_stats
  workspace_stats rows =
      let shown = total (λ s. s.impressions) rows in
      if num.le shown num.zero then no_stats else record {
        impressions = shown;
        engagement =
            num.div (total (λ s. capped (num.add s.clicks s.positives) s.impressions) rows) shown;
        conversion = num.div (total (λ s. capped s.conversions s.impressions) rows) shown;
        negative = num.div (total (λ s. capped s.negatives s.impressions) rows) shown;
        max_impressions = most rows;
      }

  lift : N → N → N → N
  unfolding smoothed_rate prior_strength
  lift successes shown average =
      num.sub (smoothed_rate (num_min successes shown) shown average prior_strength) average

  popularity : N → N → N
  popularity shown most_shown =
      if lt num.zero most_shown then num.div (num.log1p shown) (num.log1p most_shown) else num.zero

  weighted : ItemStats N → Weights N → WorkspaceStats N → N
  unfolding lift popularity
  weighted item config prior =
      num.add
        (num.sub
          (num.add
            (num.mul config.engagement
              (lift (num.add item.clicks item.positives) item.impressions prior.engagement))
            (num.mul config.conversion (lift item.conversions item.impressions prior.conversion)))
          (num.mul config.negative (lift item.negatives item.impressions prior.negative)))
        (num.mul config.popularity (popularity item.impressions prior.max_impressions))

  -- `_adjustment`
  pub adjustment : Option (ItemStats N) → Weights N → WorkspaceStats N → N
  unfolding weighted
  adjustment none config prior = num.zero
  adjustment (some item) config prior =
      if num.le item.impressions num.zero then num.zero else weighted item config prior

  -- A match with its `ranking_score`. `stats` finds the workspace's row for an external id.
  unfoldable pub with_ranking :
      (String → Option (ItemStats N)) → Weights N → WorkspaceStats N → Match N → Match N
  unfolding adjustment
  with_ranking stats config prior m = record m {
    ranking = some (num.add (retrieval_score m) (adjustment (stats (external_id m)) config prior));
  }

  -- `m["ranking_score"]`, which `rerank` sets on every match
  abbrev pub ranking_score : Match N → N
  ranking_score m = or_default m.ranking (retrieval_score m)

  unfoldable pub rerank :
      (String → Option (ItemStats N))
      → List (Match N)
      → ℕ
      → Weights N
      → WorkspaceStats N
      → List (Match N)
  rerank stats matches top_k config prior =
      take top_k
        (sort_by (descending ranking_score) (map (with_ranking stats config prior) matches))
