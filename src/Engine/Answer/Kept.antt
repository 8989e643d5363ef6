-- ===== src/Engine/Answer/Kept.antt =====
-- What a query leaves of the cached results.
use recommendation_engine.Base.{
  ◌+◌, ◌≡◌, ◌⊎◌, refl, sym, ap, ◌∙◌, inl, inr, String, true, not, ◌&&◌, Option, none, some, List, ℕ,
  arith,
}
use recommendation_engine.Base.Number.{Num}
use recommendation_engine.Base.Dict.{Dict, put}
use recommendation_engine.Base.Result.{ok, err}
use recommendation_engine.Filter.{Condition, build_pinecone_filter}
use recommendation_engine.Ranking.{Match}
use recommendation_engine.Ranking.Format.{Ranked}
use recommendation_engine.Ranking.Llm.{RerankResult}
use recommendation_engine.Engine.{Workspace, World, Cache, State}
use recommendation_engine.Engine.Results.{set, cache_ttl_seconds}
use recommendation_engine.Engine.Answer.{
  Request, Query, Settled, Answered, settle, key_of, recommendation, formatted, finished, recommend,
}
use recommendation_engine.Engine.Answer.Ways.{
  Unanswered, not_asked, nothing, Way, refused, found, failed, ended, recommend-Way,
}
use recommendation_engine.Engine.Answer.Repeat.{is_miss, entries-get}

entries-set :
    {N : Type 0} (now : ℕ) (k : String) (results : List (Ranked N)) (c : Cache N)
    → ((set now k results c).entries ≡ c.entries)
      ⊎ ((set now k results c).entries ≡ put k (now + cache_ttl_seconds, results) c.entries)
unfolding set
entries-set now k results c = ground arith

module _ {N : Type 0} ⦃num : Num N⦄ (w : World N) (tenant : Workspace N) (q : Query N)
    (r : Request N) (s : State N) where
  -- The cached results are as before but for those of a MISS, which stand under the question's key.
  abbrev pub Keeps : Answered N → Type 0
  Keeps (err e, s2) = s2.cache.entries ≡ s.cache.entries
  Keeps (ok rec, s2) =
      (s2.cache.entries ≡ s.cache.entries)
      ⊎ (f : Dict (Condition N)) × (build_pinecone_filter r.filters tenant.filter_fields ≡ ok f)
        × (r.use_cache && not r.include_raw_data ≡ true)
        × (is_miss rec.cache_status ≡ true)
        × (s2.cache.entries
            ≡ put (key_of w tenant q r (settle w tenant q r f))
                (w.now + cache_ttl_seconds, rec.results) s.cache.entries)

  entries-Unanswered :
      (st : Settled N) (k : Option String) (c : Cache N)
      → Unanswered w tenant q r s st k c
      → c.entries ≡ s.cache.entries
  entries-Unanswered st k c (not_asked a) = refl
  entries-Unanswered st k c (nothing d a g) =
      sym (ap (λ x. x.1.entries) g) ∙ entries-get w.now (key_of w tenant q r st) s.cache

  finished-Keeps :
      (f : Dict (Condition N)) (k : Option String) (c : Cache N) (tokens : ℕ)
      (o : Option (List (Match N) × Option (RerankResult N))) (s1 : State N)
      → build_pinecone_filter r.filters tenant.filter_fields ≡ ok f
      → Unanswered w tenant q r s (settle w tenant q r f) k c
      → s1.cache ≡ c
      → Keeps (finished w tenant q r (settle w tenant q r f) k tokens o s1)
  unfolding finished recommendation
  finished-Keeps f k c tokens none s1 b u e =
      ap (λ (x : Cache N). x.entries) e ∙ entries-Unanswered (settle w tenant q r f) k c u
  finished-Keeps f k c tokens (some (matches, outcome)) s1 b (not_asked a) e =
      inl (ap (λ (x : Cache N). x.entries) e)
  finished-Keeps f k c tokens (some (matches, outcome)) s1 b (nothing d a g) e =
      let st = settle w tenant q r f in
      let before : s1.cache.entries ≡ s.cache.entries =
        ap (λ (x : Cache N). x.entries) e ∙ entries-Unanswered st k c (nothing d a g) in
      elim (entries-set w.now (key_of w tenant q r st) (formatted w tenant r matches) s1.cache) [
        | inl h ↦ inl (h ∙ before)
        | inr h ↦ inr (f, b, a, refl, h ∙ ap (put _ _) before)
      ]

  Way-Keeps : (a : Answered N) → Way w tenant q r s a → Keeps a
  Way-Keeps a (refused es b) = refl
  Way-Keeps a (found f results c b u g) =
      inl (sym (ap (λ x. x.1.entries) g) ∙ entries-get w.now _ s.cache)
  Way-Keeps a (failed f k c e b u x) = entries-Unanswered (settle w tenant q r f) k c u
  Way-Keeps a (ended f k c matches b u x) = finished-Keeps f k c _ _ _ b u refl

  -- A query that fails, that asks for raw data or that is told not to use the cache leaves the cached
  -- results as they were; any other either does too or adds its own results under its own key.
  pub recommend-Keeps : Keeps (recommend w tenant q r s)
  recommend-Keeps = Way-Keeps (recommend w tenant q r s) (recommend-Way w tenant q r s)
