-- ===== src/Ranking/Format/Laws.antt =====
-- What `score_label` and `format_results` promise.
use recommendation_engine.Base.{
  ℕ, ◌+◌, ◌≤◌, String, ◌≡◌, refl, inl, inr, Bool, true, some, List, [], ◌∷◌, map, arith, all_of,
  is_some, ap, ◌∙◌, Bool-cases, length, Perm, All,
}
use mathlib.Core.List.Perm
use recommendation_engine.Base.Number.{Num}
use recommendation_engine.Base.Dict.{Dict}
use recommendation_engine.Base.Sort.{sort_by_sorted, sort_by-perm, length-sort_by, IsSorted}
use recommendation_engine.Filter.{Value}
use recommendation_engine.Ranking.{Match, external_id, descending}
use recommendation_engine.Ranking.Format.{
  Label, Ranked, score_label, by_position, order_score, positions_from, ordered, format_from,
  format_results,
}

-- The place of a label, the best first.
abbrev pub place : Label → ℕ
place Label.excellent = 0
place Label.good = 1
place Label.fair = 2
place Label.weak = 3

-- The numbers from `i` on, as many as the list is long.
abbrev pub count_from {ℓ} : {A : Type ℓ} → ℕ → List A → List ℕ
count_from i [] = []
count_from i (x ∷ l) = i ∷ count_from (i + 1) l

module _ {N : Type 0} ⦃num : Num N⦄ where
  -- A better score never has a worse label, whatever the thresholds.
  pub score_label-monotone :
      (thresholds : N × N × N) (s t : N)
      → num.le s t ≡ true
      → place (score_label thresholds t) ≤ place (score_label thresholds s)
  unfolding score_label
  score_label-monotone (a, b, c) s t h =
      ground (arith, num.le_trans s t a, num.le_trans s t b, num.le_trans s t c)

  module _ (round4 : N → N) (thresholds : N × N × N) (fields : List String) (include_raw : Bool)
      (raw : Dict (Value N)) where
    ranks-format_from :
        (i : ℕ) (ms : List (Match N))
        → map (λ (r : Ranked N). r.rank) (format_from round4 thresholds fields include_raw raw i ms)
          ≡ count_from i ms
    unfolding format_from
    ranks-format_from i [] = refl
    ranks-format_from i (m ∷ ms) = ap (◌∷◌ i) (ranks-format_from (i + 1) ms)

    ids-format_from :
        (i : ℕ) (ms : List (Match N))
        → map
            (λ (r : Ranked N). r.external_id)
            (format_from round4 thresholds fields include_raw raw i ms)
          ≡ map (λ (m : Match N). external_id m) ms
    unfolding format_from
    ids-format_from i [] = refl
    ids-format_from i (m ∷ ms) = ap (◌∷◌ (external_id m)) (ids-format_from (i + 1) ms)

  count_from-cong :
      (i : ℕ) (ms ns : List (Match N)) → length ms ≡ length ns → count_from i ms ≡ count_from i ns
  count_from-cong i [] [] h = refl
  count_from-cong i [] (n ∷ ns) h = absurd (omega arith)
  count_from-cong i (m ∷ ms) [] h = absurd (omega arith)
  count_from-cong i (m ∷ ms) (n ∷ ns) h = ap (◌∷◌ i) (count_from-cong (i + 1) ms ns (omega arith))

  length-ordered : (ms : List (Match N)) → length (ordered ms) ≡ length ms
  unfolding ordered
  length-ordered [] = refl
  length-ordered (m ∷ ms) = elim (Bool-cases (all_of (λ n. is_some n.position) (m ∷ ms))) [
    | inl e ↦ rw e (length-sort_by by_position (m ∷ ms))
    | inr e ↦ rw e (length-sort_by (descending order_score) (m ∷ ms))
  ]

  ordered-perm : (ms : List (Match N)) → Perm (ordered ms) ms
  unfolding ordered
  ordered-perm [] = Perm.refl []
  ordered-perm (m ∷ ms) = elim (Bool-cases (all_of (λ n. is_some n.position) (m ∷ ms))) [
    | inl e ↦ rw e (sort_by-perm by_position (m ∷ ms))
    | inr e ↦ rw e (sort_by-perm (descending order_score) (m ∷ ms))
  ]

  module _ (round4 : N → N) (thresholds : N × N × N) (fields : List String) (include_raw : Bool)
      (raw : Dict (Value N)) where
    -- The results are the matches, none lost and none twice, ranked 1, 2, 3 and so on in the order
    -- they are listed.
    pub format_results-IsRanking :
        (ms : List (Match N))
        → (map
              (λ (r : Ranked N). r.rank)
              (format_results round4 thresholds fields include_raw raw ms)
            ≡ count_from 1 ms)
          × Perm
              (map
                (λ (r : Ranked N). r.external_id)
                (format_results round4 thresholds fields include_raw raw ms))
              (map (λ (m : Match N). external_id m) ms)
    unfolding format_results
    format_results-IsRanking ms = (
      ranks-format_from round4 thresholds fields include_raw raw 1 (ordered ms)
          ∙ count_from-cong 1 (ordered ms) ms (length-ordered ms),
      rw (ids-format_from round4 thresholds fields include_raw raw 1 (ordered ms))
          (Perm.map (λ (m : Match N). external_id m) (ordered-perm ms)),
    )

  positions_from-bounds :
      (i j : ℕ) (m : Match N) (ms : List (Match N))
      → i ≤ j
      → All (λ n. by_position (record m { position = some i }) n ≡ true) (positions_from j ms)
  unfolding positions_from
  positions_from-bounds i j m [] h = tt
  positions_from-bounds i j m (n ∷ ms) h =
      (ground arith, positions_from-bounds i (j + 1) m ms (omega arith))

  positions_from-IsSorted :
      (i : ℕ) (ms : List (Match N)) → IsSorted by_position (positions_from i ms)
  unfolding positions_from
  positions_from-IsSorted i [] = tt
  positions_from-IsSorted i (m ∷ ms) =
      (positions_from-bounds i (i + 1) m ms (omega arith), positions_from-IsSorted (i + 1) ms)

  all_of-positions_from :
      (i : ℕ) (ms : List (Match N)) → all_of (λ n. is_some n.position) (positions_from i ms) ≡ true
  unfolding positions_from
  all_of-positions_from i [] = refl
  all_of-positions_from i (m ∷ ms) = all_of-positions_from (i + 1) ms

  ordered-positions_from :
      (i : ℕ) (ms : List (Match N)) → ordered (positions_from i ms) ≡ positions_from i ms
  unfolding ordered positions_from
  ordered-positions_from i [] = refl
  ordered-positions_from i (m ∷ ms) =
      rw (all_of-positions_from i (m ∷ ms)) (
        sort_by_sorted by_position (positions_from i (m ∷ ms)) (positions_from-IsSorted i (m ∷ ms)))

  ids-positions_from :
      (i : ℕ) (ms : List (Match N))
      → map (λ (m : Match N). external_id m) (positions_from i ms)
        ≡ map (λ (m : Match N). external_id m) ms
  unfolding positions_from external_id
  ids-positions_from i [] = refl
  ids-positions_from i (m ∷ ms) = ap (◌∷◌ (external_id m)) (ids-positions_from (i + 1) ms)

  -- Where the LLM stage numbered the matches, the results are in exactly its order, whatever the
  -- scores say.
  pub format_results-keeps_positions :
      (round4 : N → N) (thresholds : N × N × N) (fields : List String) (include_raw : Bool)
      (raw : Dict (Value N)) (ms : List (Match N))
      → map
          (λ (r : Ranked N). r.external_id)
          (format_results round4 thresholds fields include_raw raw (positions_from 0 ms))
        ≡ map (λ (m : Match N). external_id m) ms
  unfolding format_results
  format_results-keeps_positions round4 thresholds fields include_raw raw ms =
      ids-format_from round4 thresholds fields include_raw raw 1 (ordered (positions_from 0 ms))
      ∙ ap (map (λ (m : Match N). external_id m)) (ordered-positions_from 0 ms)
      ∙ ids-positions_from 0 ms
