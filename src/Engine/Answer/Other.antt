-- ===== src/Engine/Answer/Other.antt =====
-- `recommend_by_item_id`: what is similar to an item, the item itself left out.
use mathlib.Core.Logic.Or
use mathlib.Core.Path.{subst}
use mathlib.Core.List.{Mem, mem-cons, not-mem-nil}
use mathlib.Core.List.Perm
use recommendation_engine.Base.{
  ◌+◌, ◌≡◌, ◌≢◌, ◌⊎◌, refl, sym, inl, inr, String, true, not, Option, none, some, List, ℕ, arith,
  [], ◌∷◌, Bool-cases, str_eq, eq_iff, All, All-map, take-All, map, take, keep-All,
}
use recommendation_engine.Base.Number.{Num}
use recommendation_engine.Base.Dict.{Dict, lookup}
use recommendation_engine.Base.Result.{Result, ok, err, Then}
use recommendation_engine.Base.Sort.{sort_by-All}
use recommendation_engine.Filter.{Condition}
use recommendation_engine.Ranking.{Match, external_id, descending}
use recommendation_engine.Ranking.Feedback.{
  candidate_count, has_data, workspace_stats, rerank, with_ranking, ranking_score, ItemStats,
  Weights, WorkspaceStats,
}
use recommendation_engine.Ranking.Format.{Ranked}
use recommendation_engine.Ranking.Format.Laws.{format_results-IsRanking}
use recommendation_engine.Ranking.Llm.{RerankResult, Verdicts}
use recommendation_engine.Ranking.Variant.{RankingVariant, control, reranked}
use recommendation_engine.Personal.{Taste}
use recommendation_engine.Engine.{Call, UpstreamError, Llm, Near, Workspace, World, State, Config}
use recommendation_engine.Engine.Search.{
  and_then, taste, ranked_search, values, search_similar, near_item, stored_of, embedded_item,
}
use recommendation_engine.Engine.Answer.{
  Request, Query, Settled, Answered, settle, recommendation, formatted, finished, recommend,
  searched, staged, item_query, recommend_by_item_id,
}
use recommendation_engine.Engine.Answer.Ways.{Way, refused, found, failed, ended, recommend-Way}
use recommendation_engine.Engine.Answer.Repeat.{is_hit}

-- What holds of a call's result holds of what is made of it.
pub and_then-Then {κ μ} :
    {A B : Type 0} (P : A → Type κ) (Q : B → Type μ) (c : Call A) (f : A → Call B)
    → Then P c.1
    → ((a : A) → P a → Then Q (f a).1)
    → Then Q (and_then c f).1
and_then-Then P Q (u, err e) f h k = tt
and_then-Then P Q (u, ok a) f h k = k a h

Then-any : {A : Type 0} (r : Result UpstreamError A) → Then (λ a. Unit {0}) r
Then-any (ok a) = tt
Then-any (err e) = tt

module _ {N : Type 0} ⦃num : Num N⦄ where
  -- The match is of another item than the one with this external id.
  abbrev pub IsOther : String → Match N → Type 0
  IsOther external m = external_id m ≢ external

  not_mem-IsOther :
      (external : String) (ms : List (Match N))
      → All (IsOther external) ms
      → ¬ Mem external (map (λ (m : Match N). external_id m) ms)
  not_mem-IsOther external [] h m = not-mem-nil m
  not_mem-IsOther external (x ∷ ms) h m =
      Or.elim (λ a b. absurd a) (mem-cons.0 m) (λ e. h.0 (sym e)) (not_mem-IsOther external ms h.1)

  with_ranking-IsOther :
      (external : String) (stats : String → Option (ItemStats N)) (config : Weights N)
      (prior : WorkspaceStats N) (ms : List (Match N))
      → All (IsOther external) ms
      → All (IsOther external) (map (with_ranking stats config prior) ms)
  unfolding with_ranking external_id
  with_ranking-IsOther external stats config prior [] h = tt
  with_ranking-IsOther external stats config prior (m ∷ ms) h =
      (h.0, with_ranking-IsOther external stats config prior ms h.1)

  rerank-IsOther :
      (external : String) (stats : String → Option (ItemStats N)) (config : Weights N)
      (prior : WorkspaceStats N) (ms : List (Match N)) (k : ℕ)
      → All (IsOther external) ms
      → All (IsOther external) (rerank stats ms k config prior)
  unfolding rerank
  rerank-IsOther external stats config prior ms k h = take-All (IsOther external) k _ (
      sort_by-All (descending ranking_score) (IsOther external)
        (map (with_ranking stats config prior) ms)
        (with_ranking-IsOther external stats config prior ms h))

  module _ (w : World N) (tenant : Workspace N) (external id : String) where
    abbrev Others : Call (List (Match N)) → Type 0
    Others c = Then (All (IsOther external)) c.1

    ranked_search-Others :
        (k : ℕ) (config : Config N) (variant : RankingVariant) (search : ℕ → Call (List (Match N)))
        → ((n : ℕ) → Others (search n))
        → Others (ranked_search w tenant k config variant search)
    unfolding ranked_search
    ranked_search-Others k config control search h = h k
    ranked_search-Others k config reranked search h =
        let prior = workspace_stats (values w.stats) in
        elim (Bool-cases (has_data prior)) [
          | inl e ↦ rw e (
              and_then-Then (All (IsOther external)) (All (IsOther external))
                (search (candidate_count k)) _ (h (candidate_count k))
                (λ ms a.
                  rerank-IsOther external (λ i. lookup i w.stats) config.weights prior ms k a))
          | inr e ↦ rw e (h k)
        ]

    -- The index knows the item under no other id: a match with its external id has its pinecone id.
    abbrev pub Agrees : Type 0
    Agrees =
        (near : Near N) (k : ℕ) (f : Dict (Condition N))
        → Then (All (λ m. external_id m ≡ external → m.id ≡ id)) (w.search_index near k f).1

    not_same :
        (m : Match N)
        → (external_id m ≡ external → m.id ≡ id) × (not (str_eq m.id id) ≡ true)
        → IsOther external m
    not_same m (h, n) e = ground (arith, h e, eq_iff m.id id)

    module _ (agrees : Agrees) where
      search_similar-Others :
          (k : ℕ) (f : Dict (Condition N)) (t : Option (Taste N))
          → Others (search_similar w tenant id k f t)
      unfolding search_similar
      search_similar-Others k f t =
          and_then-Then (λ a. Unit {0}) (All (IsOther external)) (stored_of w tenant id t) _
            (Then-any (stored_of w tenant id t).1)
            (λ stored u.
              and_then-Then (All (λ m. external_id m ≡ external → m.id ≡ id))
                (All (IsOther external)) (w.search_index (near_item w tenant id t stored) (k + 1) f)
                _ (agrees (near_item w tenant id t stored) (k + 1) f)
                (λ ms a. take-All (IsOther external) k _ (
                  All-map
                    (λ m. (external_id m ≡ external → m.id ≡ id) × (not (str_eq m.id id) ≡ true))
                    (IsOther external) not_same _
                    (keep-All (λ m. external_id m ≡ external → m.id ≡ id)
                      (λ m. not (str_eq m.id id)) ms a))))

      searched-Others :
          (r : Request N) (st : Settled N)
          → Others (searched w tenant (item_query w tenant external id) r st)
      unfolding searched item_query
      searched-Others r st =
          and_then-Then (λ a. Unit {0}) (All (IsOther external))
            (taste w tenant st.config st.history) _
            (Then-any (taste w tenant st.config st.history).1)
            (λ t u.
              ranked_search-Others _ st.config st.variant _
                (λ k. search_similar-Others k st.filter t))

  module _ (w : World N) (tenant : Workspace N) (external id : String)
      (agrees : Agrees w tenant external id) (r : Request N) (s : State N) where
    q : Query N
    q = item_query w tenant external id

    -- Not one of the results is the item.
    abbrev pub LeavesOut : Answered N → Type 0
    LeavesOut (err e, s2) = Unit
    LeavesOut (ok rec, s2) =
        (is_hit rec.cache_status ≡ true)
        ⊎ (¬ Mem external (map (λ (x : Ranked N). x.external_id) rec.results))

    formatted-others :
        (ms : List (Match N))
        → All (IsOther external) ms
        → ¬ Mem external (map (λ (x : Ranked N). x.external_id) (formatted w tenant r ms))
    unfolding formatted
    formatted-others ms h = λ m.
        not_mem-IsOther external (take r.top_k ms) (take-All (IsOther external) r.top_k ms h) (
          (Perm.mem_iff
              (format_results-IsRanking w.round4 tenant.thresholds tenant.filter_fields
                r.include_raw_data _ (take r.top_k ms)).1).0
            m)

    -- Queries by item have no LLM stage.
    staged-none :
        (llm : Option Llm) (n : ℕ) (ms : List (Match N)) (v : Dict Verdicts)
        → (staged w tenant llm none n ms v).0 ≡ some (ms, none)
    unfolding staged
    staged-none none n ms v = refl
    staged-none (some llm) n ms v = refl

    finished-LeavesOut :
        (st : Settled N) (k : Option String) (tokens : ℕ) (s1 : State N) (ms : List (Match N))
        → All (IsOther external) ms
        → LeavesOut (finished w tenant q r st k tokens (some (ms, none)) s1)
    unfolding finished recommendation
    finished-LeavesOut st none tokens s1 ms h = inr (formatted-others ms h)
    finished-LeavesOut st (some k) tokens s1 ms h = inr (formatted-others ms h)

    ending-LeavesOut :
        (st : Settled N) (k : Option String) (tokens : ℕ) (s1 : State N) (ms : List (Match N))
        (o : Option (List (Match N) × Option (RerankResult N)))
        → o ≡ some (ms, none)
        → All (IsOther external) ms
        → LeavesOut (finished w tenant q r st k tokens o s1)
    ending-LeavesOut st k tokens s1 ms o e h =
        subst (λ x. LeavesOut (finished w tenant q r st k tokens x s1)) (sym e)
          (finished-LeavesOut st k tokens s1 ms h)

    Way-LeavesOut : (a : Answered N) → Way w tenant q r s a → LeavesOut a
    unfolding recommendation q item_query
    Way-LeavesOut a (refused es b) = tt
    Way-LeavesOut a (found f results c b u g) = inl refl
    Way-LeavesOut a (failed f k c e b u x) = tt
    Way-LeavesOut a (ended f k c ms b u x) =
        let others : All (IsOther external) ms =
          subst (Then (All (IsOther external))) x
            (searched-Others w tenant external id agrees r (settle w tenant q r f)) in
        ending-LeavesOut (settle w tenant q r f) k _ _ ms _
          (staged-none w.llm (settle w tenant q r f).llm_n ms _) others

    -- The items recommended for an item, where they do not come from the cache, never contain the
    -- item itself, as long as the index knows it by its pinecone id alone.
    pub recommend_by_item_id-LeavesOut :
        embedded_item w tenant external ≡ ok id
        → LeavesOut (recommend_by_item_id w tenant external r s)
    unfolding recommend_by_item_id q
    recommend_by_item_id-LeavesOut e =
        rw (e, recommend_by_item_id)
          (Way-LeavesOut (recommend w tenant q r s) (recommend-Way w tenant q r s))
