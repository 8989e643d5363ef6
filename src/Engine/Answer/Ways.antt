-- ===== src/Engine/Answer/Ways.antt =====
-- The ways that `_recommend` can go, for the proofs about it.
use mathlib.Core.Path.{subst}
use recommendation_engine.Base.{
  ◌≡◌, refl, sym, inl, inr, String, true, false, not, ◌&&◌, Option, none, some, List, Bool-cases,
}
use recommendation_engine.Base.Number.{Num}
use recommendation_engine.Base.Dict.{Dict}
use recommendation_engine.Base.Result.{ok, err, Result-cases}
use recommendation_engine.Filter.{Condition, FieldError, build_pinecone_filter}
use recommendation_engine.Ranking.{Match}
use recommendation_engine.Ranking.Format.{Ranked}
use recommendation_engine.Engine.{
  hit, UpstreamError, bad_filters, api_error, Workspace, World, Cache, State,
}
use recommendation_engine.Engine.Results.{get}
use recommendation_engine.Engine.Answer.{
  Request, Query, Settled, Answered, settle, key_of, recommendation, searched, recorded, staged,
  finished, after_search, fresh, looked_up, answered, recommend,
}

module _ {N : Type 0} ⦃num : Num N⦄ (w : World N) (tenant : Workspace N) (q : Query N)
    (r : Request N) (s : State N) where
  -- A query that the cache does not answer: it was not asked, or had nothing.
  pub data Unanswered (st : Settled N) : Option String → Cache N → Type 0 where
    not_asked : (r.use_cache && not r.include_raw_data ≡ false) → Unanswered st none s.cache
    nothing :
        (c : Cache N)
        → (r.use_cache && not r.include_raw_data ≡ true)
        → (get w.now (key_of w tenant q r st) s.cache ≡ (none, c))
        → Unanswered st (some (key_of w tenant q r st)) c

  -- The state once the search is over.
  abbrev pub searched_state : Settled N → Cache N → State N
  searched_state st c = recorded w tenant (searched w tenant q r st).0 (record s { cache = c })

  -- What follows a search that found the matches.
  abbrev pub ending : Settled N → Option String → Cache N → List (Match N) → Answered N
  ending st k c matches =
      let s1 = searched_state st c in
      let judged = staged w tenant w.llm q.llm_query st.llm_n matches s1.verdicts in
      finished w tenant q r st k (searched w tenant q r st).0.tokens judged.0
        (record s1 { verdicts = judged.1 })

  pub data Way : Answered N → Type 0 where
    refused :
        (es : List (String × FieldError))
        → (build_pinecone_filter r.filters tenant.filter_fields ≡ err es)
        → Way (err (bad_filters none es), s)
    found :
        (f : Dict (Condition N)) (results : List (Ranked N)) (c : Cache N)
        → (build_pinecone_filter r.filters tenant.filter_fields ≡ ok f)
        → (r.use_cache && not r.include_raw_data ≡ true)
        → (get w.now (key_of w tenant q r (settle w tenant q r f)) s.cache ≡ (some results, c))
        → Way (
          ok (recommendation w tenant q r (settle w tenant q r f) results hit 0 none),
          record s { cache = c },
        )
    failed :
        (f : Dict (Condition N)) (k : Option String) (c : Cache N) (e : UpstreamError)
        → (build_pinecone_filter r.filters tenant.filter_fields ≡ ok f)
        → Unanswered (settle w tenant q r f) k c
        → ((searched w tenant q r (settle w tenant q r f)).1 ≡ err e)
        → Way (err (api_error e), searched_state (settle w tenant q r f) c)
    ended :
        (f : Dict (Condition N)) (k : Option String) (c : Cache N) (matches : List (Match N))
        → (build_pinecone_filter r.filters tenant.filter_fields ≡ ok f)
        → Unanswered (settle w tenant q r f) k c
        → ((searched w tenant q r (settle w tenant q r f)).1 ≡ ok matches)
        → Way (ending (settle w tenant q r f) k c matches)

  fresh-Way :
      (f : Dict (Condition N)) (k : Option String) (c : Cache N)
      → (build_pinecone_filter r.filters tenant.filter_fields ≡ ok f)
      → Unanswered (settle w tenant q r f) k c
      → Way (fresh w tenant q r (settle w tenant q r f) k (record s { cache = c }))
  unfolding fresh after_search
  fresh-Way f k c b u =
      let st = settle w tenant q r f in
      let s1 = searched_state st c in
      elim (Result-cases (searched w tenant q r st).1) [
        | inl (matches, e) ↦
            subst
              (λ x. Way (after_search w tenant q r st k (searched w tenant q r st).0.tokens x s1))
              (sym e) (ended f k c matches b u e)
        | inr (x, e) ↦
            subst
              (λ x. Way (after_search w tenant q r st k (searched w tenant q r st).0.tokens x s1))
              (sym e) (failed f k c x b u e)
      ]

  looked_up-Way :
      (f : Dict (Condition N)) (g : Option (List (Ranked N)) × Cache N)
      → (build_pinecone_filter r.filters tenant.filter_fields ≡ ok f)
      → (r.use_cache && not r.include_raw_data ≡ true)
      → (get w.now (key_of w tenant q r (settle w tenant q r f)) s.cache ≡ g)
      → Way (
          looked_up w tenant q r
            (settle w tenant q r f)
            (key_of w tenant q r (settle w tenant q r f))
            s
            g)
  unfolding looked_up
  looked_up-Way f (none, c) b a e = fresh-Way f _ c b (nothing c a e)
  looked_up-Way f (some results, c) b a e = found f results c b a e

  answered-Way :
      (f : Dict (Condition N))
      → (build_pinecone_filter r.filters tenant.filter_fields ≡ ok f)
      → Way (answered w tenant q r (settle w tenant q r f) s)
  unfolding answered
  answered-Way f b = elim (Bool-cases (r.use_cache && not r.include_raw_data)) [
    | inl e ↦
        rw e (
          looked_up-Way f (get w.now (key_of w tenant q r (settle w tenant q r f)) s.cache) b e
            refl)
    | inr e ↦ rw e (fresh-Way f none s.cache b (not_asked e))
  ]

  -- Every query goes one of these ways.
  pub recommend-Way : Way (recommend w tenant q r s)
  unfolding recommend
  recommend-Way = elim (Result-cases (build_pinecone_filter r.filters tenant.filter_fields)) [
    | inl (f, e) ↦ rw (e, recommend) (answered-Way f e)
    | inr (es, e) ↦ rw (e, recommend) (refused es e)
  ]

  looked_up_found :
      (f : Dict (Condition N)) (results : List (Ranked N)) (c : Cache N)
      (g : Option (List (Ranked N)) × Cache N)
      → g ≡ (some results, c)
      → looked_up w tenant q r
          (settle w tenant q r f)
          (key_of w tenant q r (settle w tenant q r f))
          s
          g
        ≡ (
          ok (recommendation w tenant q r (settle w tenant q r f) results hit 0 none),
          record s { cache = c },
        )
  unfolding looked_up
  looked_up_found f results c g e = rw e refl

  answered_found :
      (f : Dict (Condition N)) (results : List (Ranked N)) (c : Cache N)
      → (r.use_cache && not r.include_raw_data ≡ true)
      → (get w.now (key_of w tenant q r (settle w tenant q r f)) s.cache ≡ (some results, c))
      → answered w tenant q r (settle w tenant q r f) s ≡ (
        ok (recommendation w tenant q r (settle w tenant q r f) results hit 0 none),
        record s { cache = c },
      )
  unfolding answered
  answered_found f results c a g = rw a (
      looked_up_found f results c (get w.now (key_of w tenant q r (settle w tenant q r f)) s.cache)
        g)

  -- A query whose key the cache holds is answered from it.
  pub recommend_found :
      (f : Dict (Condition N)) (results : List (Ranked N)) (c : Cache N)
      → (build_pinecone_filter r.filters tenant.filter_fields ≡ ok f)
      → (r.use_cache && not r.include_raw_data ≡ true)
      → (get w.now (key_of w tenant q r (settle w tenant q r f)) s.cache ≡ (some results, c))
      → recommend w tenant q r s ≡ (
        ok (recommendation w tenant q r (settle w tenant q r f) results hit 0 none),
        record s { cache = c },
      )
  unfolding recommend
  recommend_found f results c b a g = rw (b, recommend) (answered_found f results c a g)
