-- ===== src/Engine/Control.antt =====
-- The control group of an experiment: similarity to the query alone.
use mathlib.Core.Path.{subst}
use recommendation_engine.Base.{
  ◌≡◌, refl, sym, String, Bool, true, false, Option, none, some, List, ℕ, arith, zero, suc, [], ◌∷◌,
  max, if◌then◌else◌,
}
use recommendation_engine.Base.Number.{Num, le_refl}
use recommendation_engine.Base.Dict.{Dict}
use recommendation_engine.Base.Result.{ok, err}
use recommendation_engine.Filter.{Condition}
use recommendation_engine.Ranking.{Match}
use recommendation_engine.Ranking.Variant.{RankingVariant, control, reranked}
use recommendation_engine.Engine.{Call, Llm, vector, Workspace, World, Config}
use recommendation_engine.Engine.Search.{
  and_then, taste, ranked_search, search_text, history, keyword_weight,
}
use recommendation_engine.Engine.Stage.{llm_candidates}
use recommendation_engine.Engine.Answer.{
  Request, Settled, settle, searched, text_query, is_nonempty,
}

result-and_then :
    {A B : Type 0} (c : Call A) (f g : A → Call B)
    → ((a : A) → (f a).1 ≡ (g a).1)
    → (and_then c f).1 ≡ (and_then c g).1
result-and_then (u, err e) f g h = refl
result-and_then (u, ok a) f g h = h a

result-and_then_ok :
    {A : Type 0} (c : Call A) (f : A → Call A) → ((a : A) → (f a).1 ≡ ok a) → (and_then c f).1 ≡ c.1
result-and_then_ok (u, err e) f h = refl
result-and_then_ok (u, ok a) f h = h a

module _ {N : Type 0} ⦃num : Num N⦄ (w : World N) (tenant : Workspace N) where
  history-control :
      (config : Config N) (user : Option String) → history w tenant config control user ≡ []
  unfolding history
  history-control config user = ground arith

  llm_candidates-control :
      (llm : Option Llm) (config : Config N) → llm_candidates llm config control ≡ 0
  unfolding llm_candidates
  llm_candidates-control none config = refl
  llm_candidates-control (some llm) config = refl

  llm_off :
      (asked : Bool) (llm : Option Llm) (config : Config N)
      → (if asked then llm_candidates llm config control else 0) ≡ 0
  llm_off true llm config = llm_candidates-control llm config
  llm_off false llm config = refl

  -- The nearest `k` items, as the index ranks them.
  abbrev pub nearest : String → ℕ → Dict (Condition N) → Call (List (Match N))
  nearest text k f = and_then (w.embed_text text) (λ v. w.search_index (vector v) k f)

  search_text-plain :
      (text : String) (k : ℕ) (f : Dict (Condition N))
      → (search_text w tenant text k f (record { taste = none; keyword = num.zero })).1
        ≡ (nearest text k f).1
  unfolding search_text
  search_text-plain text k f =
      result-and_then (w.embed_text text) _ _ (λ v.
        result-and_then_ok (w.search_index (vector v) k f) _ (λ ms. rw (le_refl num.zero) refl))

  searched-plain :
      (text : String) (r : Request N) (f : Dict (Condition N)) (config : Config N)
      (variant : RankingVariant) (liked : List String) (n : ℕ)
      → variant ≡ control
      → liked ≡ []
      → n ≡ 0
      → (searched w tenant
          (text_query w tenant text)
          r
          (record { filter = f; config = config; variant = variant; history = liked; llm_n = n })).1
        ≡ (nearest text r.top_k f).1
  unfolding searched taste ranked_search keyword_weight text_query
  searched-plain text r f config control [] zero v h n =
      let k : max r.top_k 0 ≡ r.top_k = omega arith in
      subst
        (λ m.
          (search_text w tenant text m f (record { taste = none; keyword = num.zero })).1
          ≡ (nearest text r.top_k f).1)
        (sym k) (search_text-plain text r.top_k f)
  searched-plain text r f config control [] (suc m) v h n = absurd (omega (arith, n))
  searched-plain text r f config control (x ∷ xs) m v h n = absurd (cc)
  searched-plain text r f config reranked xs m v h n = absurd (cc)

  module _ (text : String) (r : Request N) (f : Dict (Condition N)) where
    abbrev pub st : Settled N
    st = settle w tenant (text_query w tenant text) r f

    -- A request of the control group looks at no one's history, has no LLM stage, and finds exactly
    -- what the index says is nearest to the text: no taste, no keywords, no feedback.
    pub searched-control :
        st.variant ≡ control
        → (st.history ≡ [])
          × (st.llm_n ≡ 0)
          × ((searched w tenant (text_query w tenant text) r st).1 ≡ (nearest text r.top_k f).1)
    unfolding settle text_query
    searched-control v =
        let h : st.history ≡ [] = rw v (history-control _ r.user_id) in
        let n : st.llm_n ≡ 0 = rw v (llm_off (is_nonempty (some text)) w.llm st.config) in
        (h, n, searched-plain text r f st.config st.variant st.history st.llm_n v h n)
