-- ===== src/Ranking/Format.antt =====
-- result_formatter.py: the matches as the ranked results of the API. `round4` is
-- `round(score, 4)`.
pub mod Laws
use recommendation_engine.Base.{
  ℕ, ◌+◌, String, Bool, true, false, ◌&&◌, Option, none, some, is_some, List, [], ◌∷◌, all_of, leb,
  map, str_eq, if◌then◌else◌,
}
use recommendation_engine.Base.Number.{Num, lt}
use recommendation_engine.Base.Dict.{Dict, member, lookup}
use recommendation_engine.Base.Sort.{sort_by}
use recommendation_engine.Filter.{Value}
use recommendation_engine.Ranking.{Match, descending, external_id, or_default, retrieval_score}

-- `LABELS` and `LOWEST_LABEL`
pub data Label : Type 0 where
  excellent good fair weak : Label

-- One result, `raw_data` as the JSON that was uploaded.
pub record Ranked (N : Type 0) : Type 0 where
  pub rank : ℕ
  pub external_id : String
  pub score : N
  pub score_label : Label
  pub metadata : Dict (Value N)
  pub reason : Option String
  pub raw_data : Option (Option (Value N))

module _ {N : Type 0} ⦃num : Num N⦄ where
  unfoldable pub score_label : N × N × N → N → Label
  score_label (t1, t2, t3) score =
      if lt t1 score
      then excellent
      else if lt t2 score
      then good
      else if lt t3 score
      then fair
      else weak

  -- The key of the sort by score.
  abbrev pub order_score : Match N → N
  order_score m = or_default m.ranking (retrieval_score m)

abbrev position_or_zero : Option ℕ → ℕ
position_or_zero none = 0
position_or_zero (some p) = p

-- `if match.get("llm_reason")`
reason_of : Option String → Option String
reason_of none = none
reason_of (some r) = if str_eq r "" then none else some r

module _ {N : Type 0} where
  -- `{k: v for k, v in metadata.items() if k in filter_fields}`
  pub only_fields : List String → Dict (Value N) → Dict (Value N)
  only_fields fields [] = []
  only_fields fields ((k, v) ∷ d) =
      let rest = only_fields fields d in if member k fields then (k, v) ∷ rest else rest

  abbrev has_position : Match N → Bool
  has_position m = is_some m.position

  abbrev pub by_position : Match N → Match N → Bool
  by_position a b = leb (position_or_zero a.position) (position_or_zero b.position)

  -- The end of `_llm_rerank_many` of query_engine.py: `match["position"] = position`.
  pub positions_from : ℕ → List (Match N) → List (Match N)
  positions_from i [] = []
  positions_from i (m ∷ ms) = record m { position = some i } ∷ positions_from (i + 1) ms

module _ {N : Type 0} ⦃num : Num N⦄ where
  pub ordered : List (Match N) → List (Match N)
  ordered [] = []
  ordered (m ∷ ms) =
      if all_of has_position (m ∷ ms)
      then sort_by by_position (m ∷ ms)
      else sort_by (descending order_score) (m ∷ ms)

  pub format_match :
      (N → N) → N × N × N → List String → Bool → Dict (Value N) → ℕ → Match N → Ranked N
  unfolding only_fields reason_of
  format_match round4 thresholds fields include_raw raw rank m = record {
    rank = rank;
    external_id = external_id m;
    score = round4 m.score;
    score_label = score_label thresholds m.score;
    metadata = only_fields fields m.metadata;
    reason = reason_of m.llm_reason;
    raw_data = if include_raw then some (lookup (external_id m) raw) else none;
  }

  -- `enumerate(ordered, start=1)`
  pub format_from :
      (N → N)
      → N × N × N
      → List String
      → Bool
      → Dict (Value N)
      → ℕ
      → List (Match N)
      → List (Ranked N)
  unfolding format_match
  format_from round4 thresholds fields include_raw raw rank [] = []
  format_from round4 thresholds fields include_raw raw rank (m ∷ ms) =
      format_match round4 thresholds fields include_raw raw rank m
      ∷ format_from round4 thresholds fields include_raw raw (rank + 1) ms

  unfoldable pub format_results :
      (N → N) → N × N × N → List String → Bool → Dict (Value N) → List (Match N) → List (Ranked N)
  unfolding format_from ordered
  format_results round4 thresholds fields include_raw raw matches =
      format_from round4 thresholds fields include_raw raw 1 (ordered matches)
