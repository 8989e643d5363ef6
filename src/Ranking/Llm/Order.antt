-- ===== src/Ranking/Llm/Order.antt =====
-- The order that `_reorder` gives.
use mathlib.Core.List.Perm
use mathlib.Core.Path.{subst}
use recommendation_engine.Base.{
  ℕ, ◌+◌, ◌≤◌, ◌≡◌, refl, ap, ◌∙◌, ◌⊎◌, inl, inr, true, Option, none, some, List, [], ◌∷◌, map,
  Perm, arith, All,
}
use recommendation_engine.Base.Dict.{Dict}
use recommendation_engine.Base.Sort.{
  sort_by, IsSorted, sort_by-perm, sort_by-IsSorted, sort_by_sorted,
}
use recommendation_engine.Ranking.{Match}
use recommendation_engine.Ranking.Llm.{Verdict, judge, judged_from, precedes, may_precede, reorder}

precedes_total :
    (s : Option ℕ) (i : ℕ) (t : Option ℕ) (j : ℕ)
    → (precedes s i t j ≡ true) ⊎ (precedes t j s i ≡ true)
precedes_total (some s) i (some t) j = ground arith
precedes_total (some s) i none j = inl refl
precedes_total none i (some t) j = inr refl
precedes_total none i none j = ground arith

precedes_trans :
    (s : Option ℕ) (i : ℕ) (t : Option ℕ) (j : ℕ) (u : Option ℕ) (k : ℕ)
    → precedes s i t j ≡ true
    → precedes t j u k ≡ true
    → precedes s i u k ≡ true
precedes_trans s i t j u k p q = ground arith

module _ {N : Type 0} where
  -- The judged matches come first, the best score first; equals, and the rest, stay in order.
  abbrev pub IsJudgedOrder : List (ℕ × Match N) → Type 0
  IsJudgedOrder = IsSorted may_precede

  ids-judged_from :
      (i : ℕ) (verdicts : Dict Verdict) (ms : List (Match N))
      → map (λ (p : ℕ × Match N). p.1) (judged_from i verdicts ms) ≡ map (judge verdicts) ms
  unfolding judged_from
  ids-judged_from i verdicts [] = refl
  ids-judged_from i verdicts (m ∷ ms) =
      ap (◌∷◌ (judge verdicts m)) (ids-judged_from (i + 1) verdicts ms)

  -- `_reorder` loses no match and makes none up, and it puts them in the order of the verdicts:
  -- judged before unjudged, higher score first, and equals in the order they had.
  pub reorder-perm-IsSorted :
      (ms : List (Match N)) (verdicts : Dict Verdict)
      → Perm (reorder ms verdicts) (map (judge verdicts) ms)
        × ((placed : List (ℕ × Match N)) × (reorder ms verdicts
              ≡ map (λ (p : ℕ × Match N). p.1) placed)
            × Perm placed (judged_from 0 verdicts ms)
            × IsSorted may_precede placed)
  unfolding reorder
  reorder-perm-IsSorted ms verdicts =
      let l = judged_from 0 verdicts ms in
      let p = sort_by-perm may_precede l in
      (
        subst (Perm (reorder ms verdicts)) (ids-judged_from 0 verdicts ms)
            (Perm.map (λ (p : ℕ × Match N). p.1) p),
        (
          sort_by may_precede l,
          refl,
          p,
          sort_by-IsSorted may_precede (λ a b. precedes_total a.1.llm_score a.0 b.1.llm_score b.0)
              (λ a b c. precedes_trans a.1.llm_score a.0 b.1.llm_score b.0 c.1.llm_score c.0) l,
        ),
      )

  -- Ascending positions in front of matches that nobody judged are in order.
  unjudged_after :
      (i j : ℕ) (m : Match N) (ms : List (Match N))
      → i ≤ j
      → m.llm_score ≡ none
      → All (λ n. n.llm_score ≡ none) ms
      → All (λ b. may_precede (i, m) b ≡ true) (judged_from j [] ms)
  unfolding judged_from
  unjudged_after i j m [] h e es = tt
  unjudged_after i j m (n ∷ ms) h e es =
      (rw (e, es.0) (ground arith), unjudged_after i (j + 1) m ms (omega arith) e es.1)

  unjudged-IsSorted :
      (i : ℕ) (ms : List (Match N))
      → All (λ n. n.llm_score ≡ none) ms
      → IsSorted may_precede (judged_from i [] ms)
  unfolding judged_from
  unjudged-IsSorted i [] h = tt
  unjudged-IsSorted i (m ∷ ms) h =
      (unjudged_after i (i + 1) m ms (omega arith) h.0 h.1, unjudged-IsSorted (i + 1) ms h.1)

  map-judge_nil : (ms : List (Match N)) → map (judge []) ms ≡ ms
  unfolding judge
  map-judge_nil [] = refl
  map-judge_nil (m ∷ ms) = ap (◌∷◌ m) (map-judge_nil ms)

  -- Without a verdict the order is the one before. (Fresh matches have no score of the chat model.)
  pub reorder-nil : (ms : List (Match N)) → All (λ n. n.llm_score ≡ none) ms → reorder ms [] ≡ ms
  unfolding reorder
  reorder-nil ms h =
      rw (sort_by_sorted may_precede (judged_from 0 [] ms) (unjudged-IsSorted 0 ms h))
        (ids-judged_from 0 [] ms ∙ map-judge_nil ms)
