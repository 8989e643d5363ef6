-- ===== src/Engine/Answer/Size.antt =====
-- How many results a query has, and which.
use recommendation_engine.Base.{
  ◌+◌, ◌≤◌, ◌≡◌, ◌⊎◌, refl, sym, ap, ◌∙◌, inl, inr, String, true, Option, none, some, List, ℕ,
  arith, [], ◌∷◌, length, map, suc, length-map, take, length-take, if◌then◌else◌,
}
use recommendation_engine.Base.Number.{Num}
use recommendation_engine.Base.Result.{ok, err}
use recommendation_engine.Ranking.{Match}
use recommendation_engine.Ranking.Format.{Ranked, format_results}
use recommendation_engine.Ranking.Format.Laws.{count_from, format_results-IsRanking}
use recommendation_engine.Ranking.Llm.{RerankResult}
use recommendation_engine.Engine.{Workspace, World, State}
use recommendation_engine.Engine.Stage.{raw_data}
use recommendation_engine.Engine.Answer.{
  Request, Query, Settled, Answered, settle, recommendation, formatted, finished, recommend,
  as_values,
}
use recommendation_engine.Engine.Answer.Ways.{Way, refused, found, failed, ended, recommend-Way}
use recommendation_engine.Engine.Answer.Repeat.{is_hit}

length-count_from : {A : Type 0} (i : ℕ) (l : List A) → length (count_from i l) ≡ length l
length-count_from i [] = refl
length-count_from i (x ∷ l) = ap suc (length-count_from (i + 1) l)

count_from_same :
    {A B : Type 0} (i : ℕ) (l : List A) (m : List B)
    → length l ≡ length m
    → count_from i l ≡ count_from i m
count_from_same i [] [] h = refl
count_from_same i [] (y ∷ m) h = absurd (omega (arith, h))
count_from_same i (x ∷ l) [] h = absurd (omega (arith, h))
count_from_same i (x ∷ l) (y ∷ m) h = ap (◌∷◌ i) (count_from_same (i + 1) l m (omega (arith, h)))

module _ {N : Type 0} ⦃num : Num N⦄ (w : World N) (tenant : Workspace N) (q : Query N)
    (r : Request N) (s : State N) where
  -- At most `top_k` results, ranked 1, 2, 3, ...
  abbrev pub IsFull : List (Ranked N) → Type 0
  IsFull results =
      (length results ≤ r.top_k) × (map (λ (x : Ranked N). x.rank) results ≡ count_from 1 results)

  formatted-IsFull : (matches : List (Match N)) → IsFull (formatted w tenant r matches)
  unfolding formatted
  formatted-IsFull matches =
      let top = take r.top_k matches in
      let raw = if r.include_raw_data then as_values (raw_data w tenant top) else [] in
      let results =
        format_results w.round4 tenant.thresholds tenant.filter_fields r.include_raw_data raw top in
      let ranks =
        (format_results-IsRanking w.round4 tenant.thresholds tenant.filter_fields r.include_raw_data
          raw top).0 in
      let same : length results ≡ length top =
        sym (length-map (λ (x : Ranked N). x.rank) results)
        ∙ ap length ranks
        ∙ length-count_from 1 top in
      (
        omega (arith, same, length-take r.top_k matches),
        ranks ∙ count_from_same 1 top results (sym same),
      )

  abbrev pub Sized : Answered N → Type 0
  Sized (err e, s2) = Unit
  Sized (ok rec, s2) = (is_hit rec.cache_status ≡ true) ⊎ IsFull rec.results

  finished-Sized :
      (st : Settled N) (k : Option String) (tokens : ℕ)
      (o : Option (List (Match N) × Option (RerankResult N))) (s1 : State N)
      → Sized (finished w tenant q r st k tokens o s1)
  unfolding finished recommendation
  finished-Sized st k tokens none s1 = tt
  finished-Sized st none tokens (some (matches, outcome)) s1 = inr (formatted-IsFull matches)
  finished-Sized st (some k) tokens (some (matches, outcome)) s1 = inr (formatted-IsFull matches)

  Way-Sized : (a : Answered N) → Way w tenant q r s a → Sized a
  unfolding recommendation
  Way-Sized a (refused es b) = tt
  Way-Sized a (found f results c b u g) = inl refl
  Way-Sized a (failed f k c e b u x) = tt
  Way-Sized a (ended f k c matches b u x) = finished-Sized (settle w tenant q r f) k _ _ _

  -- An answer that is not from the cache has at most `top_k` results, ranked from 1 without gaps.
  pub recommend-Sized : Sized (recommend w tenant q r s)
  recommend-Sized = Way-Sized (recommend w tenant q r s) (recommend-Way w tenant q r s)
