-- ===== src/Engine/Answer/Repeat.antt =====
-- What a query does to the cache of results.
use mathlib.Core.Path.{subst, ap₂}
use recommendation_engine.Base.{
  ℕ, ◌+◌, ◌<◌, ◌≡◌, ◌⊎◌, refl, sym, ap, ◌∙◌, inl, inr, String, Bool, true, false, not, ◌&&◌, Option,
  none, some, List, [], arith, ltb, eq_iff,
}
use recommendation_engine.Base.Number.{Num}
use recommendation_engine.Base.Dict.{Dict, lookup, put, lookup-put}
use recommendation_engine.Base.Result.{ok, err}
use recommendation_engine.Filter.{Condition, build_pinecone_filter}
use recommendation_engine.Ranking.{Match}
use recommendation_engine.Ranking.Format.{Ranked}
use recommendation_engine.Ranking.Llm.{RerankResult}
use recommendation_engine.Engine.{
  CacheStatus, hit, miss, bypass, Workspace, World, Cache, State, Recommendation,
}
use recommendation_engine.Engine.Results.{get, set, cache_ttl_seconds}
use recommendation_engine.Engine.Answer.{
  Request, Query, Answered, settle, key_of, recommendation, finished, formatted, recommend,
}
use recommendation_engine.Engine.Answer.Ways.{
  Unanswered, not_asked, nothing, Way, refused, found, failed, ended, recommend-Way,
  recommend_found,
}

abbrev pub is_hit : CacheStatus → Bool
is_hit hit = true
is_hit miss = false
is_hit bypass = false

abbrev pub is_miss : CacheStatus → Bool
is_miss hit = false
is_miss miss = true
is_miss bypass = false

module _ {N : Type 0} where
  -- A cache whose Redis answers.
  abbrev up : Dict (ℕ × List (Ranked N)) → Cache N
  up d = record { connected = true; entries = d; outages = [] }

  is_up : (c : Cache N) → c.connected ≡ true → c.outages ≡ [] → c ≡ up c.entries
  is_up c h o = ap₂ (λ b l. record { connected = b; entries = c.entries; outages = l }) h o

  get-up : (now : ℕ) (k : String) (d : Dict (ℕ × List (Ranked N))) → (get now k (up d)).1 ≡ up d
  unfolding get
  get-up now k d = refl

  -- An entry that was set is got, until it expires.
  get-set :
      (now later_on : ℕ) (k : String) (results : List (Ranked N)) (d : Dict (ℕ × List (Ranked N)))
      → later_on < now + cache_ttl_seconds
      → get later_on k (set now k results (up d)) ≡ (some results, set now k results (up d))
  unfolding get set
  get-set now later_on k results d l =
      let e : lookup k (put k (now + cache_ttl_seconds, results) d)
          ≡ some (now + cache_ttl_seconds, results) =
        lookup-put k k (now + cache_ttl_seconds, results) d ∙ ground (arith, eq_iff k k) in
      let t : ltb later_on (now + cache_ttl_seconds) ≡ true = ground arith in rw (e, t) refl

  pub entries-get : (now : ℕ) (k : String) (c : Cache N) → (get now k c).1.entries ≡ c.entries
  unfolding get
  entries-get now k c = ground arith

module _ {N : Type 0} ⦃num : Num N⦄ (w w2 : World N) (tenant : Workspace N) (q q2 : Query N)
    (r : Request N) (s : State N) where
  -- The same question, asked of the state that an answer left, has the same results from the cache.
  abbrev pub IsRepeated : Recommendation N → State N → Type 0
  IsRepeated rec s2 =
      (rec2 : Recommendation N) × (recommend w2 tenant q2 r s2 ≡ (ok rec2, s2))
      × (rec2.results ≡ rec.results)
      × (is_hit rec2.cache_status ≡ true)
      × (rec2.embedding_tokens ≡ 0)

  module _ (up_now : s.cache.connected ≡ true) (answers : s.cache.outages ≡ [])
      (soon : w2.now < w.now + cache_ttl_seconds)
      (same : (f : Dict (Condition N))
        → key_of w2 tenant q2 r (settle w2 tenant q2 r f)
          ≡ key_of w tenant q r (settle w tenant q r f)) where
    -- What is asked again: an answer that was a MISS.
    abbrev pub Repeats : Answered N → Type 0
    Repeats (err e, s2) = Unit
    Repeats (ok rec, s2) = (is_miss rec.cache_status ≡ false) ⊎ IsRepeated rec s2

    -- What is left of the cache by a lookup that had nothing.
    left_by : (k : String) (c : Cache N) → get w.now k s.cache ≡ (none, c) → c ≡ up s.cache.entries
    left_by k c e =
        let u = is_up s.cache up_now answers in
        sym (ap (λ g. g.1) e) ∙ ap (λ x. (get w.now k x).1) u ∙ get-up w.now k s.cache.entries

    module _ (f : Dict (Condition N)) (k : String) (c : Cache N)
        (b : build_pinecone_filter r.filters tenant.filter_fields ≡ ok f)
        (a : r.use_cache && not r.include_raw_data ≡ true)
        (key_is : key_of w tenant q r (settle w tenant q r f) ≡ k)
        (g : get w.now k s.cache ≡ (none, c)) where
      finished-Repeats :
          (tokens : ℕ) (o : Option (List (Match N) × Option (RerankResult N))) (s1 : State N)
          → s1.cache ≡ c
          → Repeats (finished w tenant q r (settle w tenant q r f) (some k) tokens o s1)
      unfolding finished
      finished-Repeats tokens none s1 e = tt
      finished-Repeats tokens (some (matches, outcome)) s1 e =
          let results = formatted w tenant r matches in
          let s2 : State N = record s1 { cache = set w.now k results s1.cache } in
          let hits : get w2.now k s2.cache ≡ (some results, s2.cache) =
            subst
              (λ x. get w2.now k (set w.now k results x) ≡ (some results, set w.now k results x))
              (sym (e ∙ left_by k c g)) (get-set w.now w2.now k results s.cache.entries soon) in
          inr (
            recommendation w2 tenant q2 r (settle w2 tenant q2 r f) results hit 0 none,
            recommend_found w2 tenant q2 r s2 f results s2.cache b a (
                subst (λ j. get w2.now j s2.cache ≡ (some results, s2.cache))
                  (sym (same f ∙ key_is)) hits),
            unfold recommendation in refl,
            unfold recommendation in refl,
            unfold recommendation in refl,
          )

    Unanswered-Repeats :
        (f : Dict (Condition N)) (k : Option String) (c : Cache N) (tokens : ℕ)
        (o : Option (List (Match N) × Option (RerankResult N))) (s1 : State N)
        → build_pinecone_filter r.filters tenant.filter_fields ≡ ok f
        → Unanswered w tenant q r s (settle w tenant q r f) k c
        → s1.cache ≡ c
        → Repeats (finished w tenant q r (settle w tenant q r f) k tokens o s1)
    Unanswered-Repeats f k c tokens none s1 b (not_asked a) e = unfold finished in tt
    Unanswered-Repeats f k c tokens (some (matches, outcome)) s1 b (not_asked a) e =
        unfold finished recommendation in inl refl
    Unanswered-Repeats f k c tokens o s1 b (nothing d a g) e =
        finished-Repeats f _ d b a refl g tokens o s1 e

    Way-Repeats : (a : Answered N) → Way w tenant q r s a → Repeats a
    Way-Repeats a (refused es b) = tt
    Way-Repeats a (found f results c b u g) = unfold recommendation in inl refl
    Way-Repeats a (failed f k c e b u x) = tt
    Way-Repeats a (ended f k c matches b u x) = Unanswered-Repeats f k c _ _ _ b u refl

    -- A question that was answered with a MISS is answered from the cache when it is asked again within
    -- five minutes, with the same results and without spending tokens, as long as Redis answers and
    -- what the key is made of is the same.
    pub recommend-Repeats : Repeats (recommend w tenant q r s)
    recommend-Repeats = Way-Repeats (recommend w tenant q r s) (recommend-Way w tenant q r s)
