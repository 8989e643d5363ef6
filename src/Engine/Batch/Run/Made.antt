-- ===== src/Engine/Batch/Run/Made.antt =====
-- query_engine.py: what `recommend_batch` makes of the queries that the cache did not answer.
use mathlib.Core.Path.{subst}
use recommendation_engine.Base.{
  ℕ, ◌≡◌, refl, inl, inr, String, Bool, false, Option, some, List, [], ◌∷◌, take, All, All-map, In,
  All-In, map, is_some, All-both, Option-cases,
}
use recommendation_engine.Base.Number.{Num}
use recommendation_engine.Base.Dict.{Dict, Entries, put-Entries}
use recommendation_engine.Base.Result.{Result, ok, err, Then, Then-bind, Result-cases}
use recommendation_engine.Ranking.{Match}
use recommendation_engine.Ranking.Format.{Ranked, format_results}
use recommendation_engine.Ranking.Llm.{RerankResult, Verdicts}
use recommendation_engine.Personal.{Taste}
use recommendation_engine.Engine.{UpstreamError, Call, Workspace, World, State, vector}
use recommendation_engine.Engine.Search.{and_then, returned, taste, leaning}
use recommendation_engine.Engine.Stage.{llm_candidates}
use recommendation_engine.Engine.Batch.{
  BatchQuery, Missed, BatchSettled, filter_of, fetch_size, index_all, search_all,
}
use recommendation_engine.Engine.Batch.Run.{
  rank_one, rank_all, judged_all, ranked_of, format_all, finish_misses, ranked_misses,
  answer_misses,
}

and_then-Then :
    {A B : Type 0} (Q : B → Type 0) (c : Call A) (f : A → Call B)
    → ((a : A) → c.1 ≡ ok a → Then Q (f a).1)
    → Then Q (and_then c f).1
and_then-Then Q (u, err e) f h = tt
and_then-Then Q (u, ok a) f h = h a refl

module _ {N : Type 0} ⦃num : Num N⦄ (w : World N) (tenant : Workspace N) (top_k : ℕ)
    (st : BatchSettled N) where
  -- What the index found for a query of the batch, under the query's own filters.
  abbrev IsSearched : List (BatchQuery N) → Missed N → Type 0
  IsSearched qs m =
      In m.query qs
      × ((w.search_index (vector m.vector) (fetch_size w tenant top_k st)
            (filter_of st.filters m.query)).1
          ≡ ok m.matches)

  -- The same, ranked.
  abbrev pub IsRanked : List (BatchQuery N) → Missed N → Type 0
  IsRanked qs m =
      (found : Missed N) × IsSearched qs found
      × (found.query ≡ m.query)
      × (rank_one w tenant top_k st found ≡ ok m.matches)

  -- Results made for a query: the first `top_k` of the matches that the index found for it, ranked and
  -- judged, formatted.
  abbrev pub IsMade : Dict Verdicts → List (BatchQuery N) → BatchQuery N → List (Ranked N) → Type 0
  IsMade v qs q results =
      (ms : List (Missed N)) × (outcomes : Dict (RerankResult N)) × (m : Missed N) × All
        (IsRanked qs) ms
      × ((judged_all w tenant w.llm (llm_candidates w.llm st.config st.variant) ms v).0
          ≡ some outcomes)
      × In m ms
      × (m.query ≡ q)
      × (results
          ≡ format_results w.round4 tenant.thresholds tenant.filter_fields false []
              (take top_k (ranked_of w tenant outcomes m)))

  abbrev pub Made : Dict Verdicts → List (BatchQuery N) → String → List (Ranked N) → Type 0
  Made v qs id results = (q : BatchQuery N) × In q qs × (q.id ≡ id) × IsMade v qs q results

  index_all-IsSearched :
      (all qs : List (BatchQuery N)) (vs : List (List N))
      → All (λ q. In q all) qs
      → Then
          (All (IsSearched all))
          (index_all w tenant (fetch_size w tenant top_k st) (filter_of st.filters) qs vs).1
  unfolding index_all
  index_all-IsSearched all [] [] h = tt
  index_all-IsSearched all [] (v ∷ vs) h = tt
  index_all-IsSearched all (q ∷ qs) [] h = tt
  index_all-IsSearched all (q ∷ qs) (v ∷ vs) h =
      let size = fetch_size w tenant top_k st in
      let later = index_all w tenant size (filter_of st.filters) qs vs in
      let row : List (Match N) → Missed N = λ ms. record { query = q; vector = v; matches = ms } in
      let joined : List (Match N) → List (Missed N) → Call (List (Missed N)) =
        λ ms rest. returned (row ms ∷ rest) in
      and_then-Then (All (IsSearched all)) (w.search_index (vector v) size (filter_of st.filters q))
        (λ ms. and_then later (joined ms))
        (λ ms found. and_then-Then (All (IsSearched all)) later (joined ms) (λ rest e. (
          (h.0, found),
          subst (Then (All (IsSearched all))) e (index_all-IsSearched all qs vs h.1),
        )))

  search_all-IsSearched :
      (qs : List (BatchQuery N))
      → Then (λ r. All (IsSearched qs) r.1) (search_all w tenant top_k st qs).1
  unfolding search_all
  search_all-IsSearched qs =
      let Q = λ (r : Bool × List (Missed N)). All (IsSearched qs) r.1 in
      let embedded = w.embed_batch (map (λ (q : BatchQuery N). q.query) qs) in
      let found : Option (Taste N) → List (List N) → Call (List (Missed N)) = λ t vectors.
        index_all w tenant (fetch_size w tenant top_k st) (filter_of st.filters) qs
          (map (leaning w tenant t) vectors) in
      let told : Option (Taste N) → List (Missed N) → Call (Bool × List (Missed N)) =
        λ t ms. returned (is_some t, ms) in
      and_then-Then Q (taste w tenant st.config st.history)
        (λ t. and_then embedded (λ vectors. and_then (found t vectors) (told t)))
        (λ t et.
          and_then-Then Q embedded (λ vectors. and_then (found t vectors) (told t))
            (λ vectors ev. and_then-Then Q (found t vectors) (told t) (λ ms e.
              subst (Then (All (IsSearched qs))) e
                (index_all-IsSearched qs qs (map (leaning w tenant t) vectors) (All-In qs)))))

  rank_all-IsRanked :
      (qs : List (BatchQuery N)) (ms : List (Missed N))
      → All (IsSearched qs) ms
      → Then (All (IsRanked qs)) (rank_all w tenant top_k st ms)
  unfolding rank_all
  rank_all-IsRanked qs [] h = tt
  rank_all-IsRanked qs (m ∷ ms) h = elim (Result-cases (rank_one w tenant top_k st m)) [
    | inr (e, n) ↦ rw (n, rank_all) tt
    | inl (found, n) ↦
        rw (n, rank_all)
          (Then-bind (All (IsRanked qs)) (All (IsRanked qs)) (rank_all w tenant top_k st ms) _
            (rank_all-IsRanked qs ms h.1) (λ rest r. ((m, h.0, refl, n), r)))
  ]

  format_all-Entries :
      (P : String → List (Ranked N) → Type 0) (outcomes : Dict (RerankResult N))
      (ms : List (Missed N)) (d : Dict (List (Ranked N)))
      → All
          (λ (m : Missed N). P m.query.id (
            format_results w.round4 tenant.thresholds tenant.filter_fields false []
              (take top_k (ranked_of w tenant outcomes m))))
          ms
      → Entries P d
      → Entries P (format_all w tenant top_k outcomes ms d)
  unfolding format_all
  format_all-Entries P outcomes [] d a h = h
  format_all-Entries P outcomes (m ∷ ms) d a h =
      format_all-Entries P outcomes ms _ a.1 (put-Entries P m.query.id _ d a.0 h)

  made :
      (v : Dict Verdicts) (qs : List (BatchQuery N)) (ms : List (Missed N))
      (outcomes : Dict (RerankResult N))
      → All (IsRanked qs) ms
      → (judged_all w tenant w.llm (llm_candidates w.llm st.config st.variant) ms v).0
        ≡ some outcomes
      → Entries (Made v qs) (format_all w tenant top_k outcomes ms [])
  made v qs ms outcomes h e =
      format_all-Entries (Made v qs) outcomes ms []
        (All-map (λ m. In m ms × IsRanked qs m) _
          (λ m (i, (found, (j, searched), same, ranked)).
            (m.query, subst (λ q. In q qs) same j, refl, (ms, outcomes, m, h, e, i, refl, refl)))
          ms (All-both (λ m. In m ms) (IsRanked qs) ms (All-In ms) h))
        tt

  finished-Made :
      (qs : List (BatchQuery N)) (leaned : Bool) (tokens : ℕ)
      (r : Result UpstreamError (List (Missed N))) (v : Dict Verdicts)
      → Then (All (IsRanked qs)) r
      → Then
          (λ fresh. Entries (Made v qs) fresh.results)
          (finish_misses w tenant top_k st qs leaned tokens r v).0
  unfolding finish_misses
  finished-Made qs leaned tokens (err e) v h = tt
  finished-Made qs leaned tokens (ok ms) v h =
      elim (Option-cases
        (judged_all w tenant w.llm (llm_candidates w.llm st.config st.variant) ms v).0) [
          | inl n ↦ rw (n, finish_misses) tt
          | inr (outcomes, n) ↦ rw (n, finish_misses) (made v qs ms outcomes h n)
        ]

  ranked-Made :
      (qs : List (BatchQuery N)) (tokens : ℕ) (r : Result UpstreamError (Bool × List (Missed N)))
      (v : Dict Verdicts)
      → Then (λ x. All (IsSearched qs) x.1) r
      → Then
          (λ fresh. Entries (Made v qs) fresh.results)
          (ranked_misses w tenant top_k st qs tokens r v).0
  unfolding ranked_misses
  ranked-Made qs tokens (err e) v h = tt
  ranked-Made qs tokens (ok (leaned, ms)) v h =
      finished-Made qs leaned tokens (rank_all w tenant top_k st ms) v (rank_all-IsRanked qs ms h)

  -- The results of every query that was answered were made for it.
  pub answer_misses-Made :
      (user : Option String) (qs : List (BatchQuery N)) (s : State N)
      → Then
          (λ fresh. Entries (Made s.verdicts qs) fresh.results)
          (answer_misses w tenant top_k user st qs s).0
  unfolding answer_misses
  answer_misses-Made user [] s = tt
  answer_misses-Made user (q ∷ qs) s =
      ranked-Made (q ∷ qs) _ (search_all w tenant top_k st (q ∷ qs)).1 s.verdicts
        (search_all-IsSearched (q ∷ qs))
