-- ===== src/Engine/Answer/Spent.antt =====
-- What a query is charged for.
use recommendation_engine.Base.{
  ◌+◌, ◌≡◌, ◌⊎◌, refl, inl, inr, String, true, false, Option, none, some, List, ℕ, arith, [], ◌∷◌,
  Bool-cases, str_eq, if◌then◌else◌,
}
use recommendation_engine.Base.Number.{Num}
use recommendation_engine.Base.Dict.{Dict}
use recommendation_engine.Base.Result.{ok, err}
use recommendation_engine.Filter.{Condition, build_pinecone_filter}
use recommendation_engine.Ranking.{Match}
use recommendation_engine.Ranking.Llm.{RerankResult}
use recommendation_engine.Ranking.Variant.{RankingVariant, control, reranked}
use recommendation_engine.Usage.{is_empty, spent, spent-record_embedding_usage, Source}
use recommendation_engine.Engine.{Call, Workspace, World, Cache, State, SearchPlan, Config}
use recommendation_engine.Engine.Search.{and_then, taste, ranked_search, values}
use recommendation_engine.Ranking.Feedback.{candidate_count, has_data, workspace_stats}
use recommendation_engine.Engine.Answer.{
  Request, Query, Settled, Answered, settle, recommendation, finished, recommend, searched,
}
use recommendation_engine.Engine.Answer.Ways.{
  Way, refused, found, failed, ended, recommend-Way, searched_state,
}

-- A service that reports tokens reports the call that they were for.
abbrev pub IsHonest : {A : Type 0} → Call A → Type 0
IsHonest c = is_empty c.0 ≡ true → c.0.tokens ≡ 0

and_then-IsHonest :
    {A B : Type 0} (c : Call A) (f : A → Call B)
    → IsHonest c
    → ((a : A) → IsHonest (f a))
    → IsHonest (and_then c f)
and_then-IsHonest (u, err e) f h k = h
and_then-IsHonest (u, ok a) f h k = λ e. ground (arith, h, k a)

module _ {N : Type 0} ⦃num : Num N⦄ (w : World N) (tenant : Workspace N) where
  taste-IsHonest :
      (config : Config N) (history : List String)
      → ((ids : List String) → IsHonest (w.fetch_vectors ids))
      → IsHonest (taste w tenant config history)
  unfolding taste
  taste-IsHonest config [] h = λ e. refl
  taste-IsHonest config (x ∷ xs) h =
      and_then-IsHonest (w.fetch_vectors (x ∷ xs)) _ (h (x ∷ xs)) (λ v e. refl)

  ranked_search-IsHonest :
      (top_k : ℕ) (config : Config N) (variant : RankingVariant)
      (search : ℕ → Call (List (Match N)))
      → ((k : ℕ) → IsHonest (search k))
      → IsHonest (ranked_search w tenant top_k config variant search)
  unfolding ranked_search
  ranked_search-IsHonest top_k config control search h = h top_k
  ranked_search-IsHonest top_k config reranked search h =
      elim (Bool-cases (has_data (workspace_stats (values w.stats)))) [
        | inl e ↦ rw e (
            and_then-IsHonest (search (candidate_count top_k)) _ (h (candidate_count top_k))
              (λ c e. refl))
        | inr e ↦ rw e (h top_k)
      ]

  searched-IsHonest :
      (q : Query N) (r : Request N) (st : Settled N)
      → ((ids : List String) → IsHonest (w.fetch_vectors ids))
      → ((f : Dict (Condition N)) (k : ℕ) (plan : SearchPlan N) → IsHonest (q.search f k plan))
      → IsHonest (searched w tenant q r st)
  unfolding searched
  searched-IsHonest q r st fetch search =
      and_then-IsHonest (taste w tenant st.config st.history) _
        (taste-IsHonest st.config st.history fetch)
        (λ t. ranked_search-IsHonest _ st.config st.variant _ (λ k. search st.filter k _))

module _ {N : Type 0} ⦃num : Num N⦄ (w : World N) (tenant : Workspace N) (q : Query N)
    (r : Request N) (s : State N) (works : w.usage_fails ≡ false)
    (fetch : (ids : List String) → IsHonest (w.fetch_vectors ids))
    (search : (f : Dict (Condition N)) (k : ℕ) (plan : SearchPlan N)
      → IsHonest (q.search f k plan)) where
  -- Every workspace is charged what it spent: the one that asked `tokens`, any other nothing.
  abbrev pub IsCharged : ℕ → State N → Type 0
  IsCharged tokens s2 =
      (t : String)
      → spent t s2.token_usage ≡ (if str_eq tenant.id t then tokens else 0) + spent t s.token_usage

  searched-IsCharged :
      (st : Settled N) (c : Cache N)
      → IsCharged (searched w tenant q r st).0.tokens (searched_state w tenant q r s st c)
  searched-IsCharged st c = λ t. ground (
    arith,
    works,
    searched-IsHonest w tenant q r st fetch search,
    spent-record_embedding_usage w.embedding_model w.usage_fails tenant.id w.day Source.query
        (searched w tenant q r st).0 t s.token_usage,
  )

  abbrev pub Charges : Answered N → Type 0
  Charges (err e, s2) =
      (s2 ≡ s)
      ⊎ (f : Dict (Condition N)) × (build_pinecone_filter r.filters tenant.filter_fields ≡ ok f)
        × IsCharged (searched w tenant q r (settle w tenant q r f)).0.tokens s2
  Charges (ok rec, s2) = IsCharged rec.embedding_tokens s2

  finished-Charges :
      (f : Dict (Condition N)) (k : Option String)
      (o : Option (List (Match N) × Option (RerankResult N))) (s1 : State N)
      → build_pinecone_filter r.filters tenant.filter_fields ≡ ok f
      → let st = settle w tenant q r f in
        let tokens = (searched w tenant q r st).0.tokens in
        IsCharged tokens s1 → Charges (finished w tenant q r st k tokens o s1)
  unfolding finished recommendation
  finished-Charges f k none s1 b h = inr (f, b, h)
  finished-Charges f none (some (matches, outcome)) s1 b h = h
  finished-Charges f (some k) (some (matches, outcome)) s1 b h = h

  Way-Charges : (a : Answered N) → Way w tenant q r s a → Charges a
  unfolding recommendation
  Way-Charges a (refused es b) = inl refl
  Way-Charges a (found f results c b u g) = λ t. ground arith
  Way-Charges a (failed f k c e b u x) = inr (f, b, searched-IsCharged (settle w tenant q r f) c)
  Way-Charges a (ended f k c matches b u x) =
      finished-Charges f k _ _ b (searched-IsCharged (settle w tenant q r f) c)

  -- The tokens that an answer states are what its workspace is charged for it in the database, and no
  -- other workspace is charged; an answer from the cache is free. A query that fails is charged what its
  -- search spent, or leaves everything as it was.
  pub recommend-Charges : Charges (recommend w tenant q r s)
  recommend-Charges = Way-Charges (recommend w tenant q r s) (recommend-Way w tenant q r s)
