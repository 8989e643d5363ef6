-- ===== src/Engine/Search.antt =====
-- query_engine.py: how the matches of a query are found, from `_keyword_weight` to `_search_similar`.
use recommendation_engine.Base.{
  ℕ, ◌+◌, String, Bool, true, false, not, ◌&&◌, ◌||◌, Option, none, some, List, [], ◌∷◌, keep, take,
  str_eq, if◌then◌else◌,
}
use recommendation_engine.Base.Number.{Num}
use recommendation_engine.Base.Dict.{Dict, lookup}
use recommendation_engine.Base.Result.{Result, ok, err}
use recommendation_engine.Filter.{Value, Condition}
use recommendation_engine.Pipeline.{Item, Status, same_status}
use recommendation_engine.Ranking.{Match}
use recommendation_engine.Ranking.Feedback.{candidate_count, workspace_stats, has_data, rerank}
use recommendation_engine.Ranking.Hybrid.{keyword_only_ids, fuse}
use recommendation_engine.Ranking.Variant.{RankingVariant, control, reranked}
use recommendation_engine.Personal.{Taste, from_vectors, apply, liked_items}
use recommendation_engine.Usage.{no_usage, add_usage}
use recommendation_engine.Engine.{
  Call, Config, Workspace, SearchPlan, Near, vector, stored, World, ApiError, not_found,
  not_embedded,
}

-- A call, and then another that uses its result; what was spent adds up.
abbrev pub and_then : {A B : Type 0} → Call A → (A → Call B) → Call B
and_then (u, err e) f = (u, err e)
and_then (u, ok a) f = let rest = f a in (add_usage u rest.0, rest.1)

abbrev pub returned : {A : Type 0} → A → Call A
returned a = (no_usage, ok a)

-- `dict.values()`
abbrev pub values : {V : Type 0} → Dict V → List V
values [] = []
values ((k, v) ∷ d) = v ∷ values d

abbrev is_control : RankingVariant → Bool
is_control control = true
is_control reranked = false

-- `not user_id`
abbrev no_user : Option String → Bool
no_user none = true
no_user (some u) = str_eq u ""

abbrev text_of : Option String → String
text_of none = ""
text_of (some u) = u

module _ {N : Type 0} ⦃num : Num N⦄ where
  -- `_keyword_weight`
  unfoldable pub keyword_weight : Config N → RankingVariant → N
  keyword_weight config control = num.zero
  keyword_weight config reranked = config.keyword

  module _ (w : World N) (tenant : Workspace N) where
    -- `_history`
    unfoldable pub history : Config N → RankingVariant → Option String → List String
    history config variant user_id =
        if no_user user_id || is_control variant || num.le config.personalization num.zero
        then []
        else liked_items w.stats_window w.now tenant.id (text_of user_id) w.feedback w.items

    -- `_taste`
    unfoldable pub taste : Config N → List String → Call (Option (Taste N))
    taste config [] = returned none
    taste config (h ∷ hs) =
        and_then (w.fetch_vectors (h ∷ hs))
          (λ vectors. returned (from_vectors (values vectors) config.personalization))

    -- `_ranked_search`
    unfoldable pub ranked_search :
        ℕ → Config N → RankingVariant → (ℕ → Call (List (Match N))) → Call (List (Match N))
    ranked_search top_k config control search = search top_k
    ranked_search top_k config reranked search =
        let prior = workspace_stats (values w.stats) in
        if has_data prior
        then and_then (search (candidate_count top_k)) (λ candidates.
          returned (rerank (λ id. lookup id w.stats) candidates top_k config.weights prior))
        else search top_k

    -- `await self._vector_store.fetch_vectors(tenant.id, missing) if missing else {}`
    vectors_of : List String → Call (Dict (List N))
    vectors_of [] = returned []
    vectors_of (m ∷ ms) = w.fetch_vectors (m ∷ ms)

    -- `_hybrid`
    unfoldable pub hybrid :
        String → List N → List (Match N) → Dict (Condition N) → ℕ → N → Call (List (Match N))
    unfolding vectors_of
    hybrid text query_vector vector_matches filter k weight =
        let keyword_matches = w.search_keywords text filter k in
        and_then (vectors_of (keyword_only_ids vector_matches keyword_matches))
          (λ vectors. returned (fuse vector_matches keyword_matches vectors query_vector weight k))

    -- `plan.taste.apply(vector)` where there is a taste
    abbrev pub leaning : Option (Taste N) → List N → List N
    leaning none v = v
    leaning (some t) v = apply t v

    -- `_search_text`
    unfoldable pub search_text :
        String → ℕ → Dict (Condition N) → SearchPlan N → Call (List (Match N))
    search_text text top_k filter plan = and_then (w.embed_text text) (λ embedded.
        let query = leaning plan.taste embedded in
        and_then (w.search_index (vector query) top_k filter) (λ matches.
          if num.le plan.keyword num.zero
          then returned matches
          else hybrid text query matches filter top_k plan.keyword))

    -- What the stored vector is blended to, where there is a taste and a stored vector.
    pub near_item : String → Option (Taste N) → Dict (List N) → Near N
    near_item id none found = stored id
    near_item id (some t) found = elim (lookup id found) [
      | none ↦ stored id
      | some v ↦ vector (apply t v)
    ]

    -- `fetch_vectors(tenant.id, [item.pinecone_id]) if taste is not None else {}`
    pub stored_of : String → Option (Taste N) → Call (Dict (List N))
    stored_of id none = returned []
    stored_of id (some t) = w.fetch_vectors (id ∷ [])

    -- `_search_similar`, for the item's pinecone id
    unfoldable pub search_similar :
        String → ℕ → Dict (Condition N) → Option (Taste N) → Call (List (Match N))
    unfolding near_item stored_of
    search_similar id top_k filter t = and_then (stored_of id t) (λ found.
        and_then (w.search_index (near_item id t found) (top_k + 1) filter)
          (λ matches. returned (take top_k (keep (λ (m : Match N). not (str_eq m.id id)) matches))))

  -- The row of `_embedded_item`'s statement.
  item_row : String → String → List (Item (Value N)) → Option (Item (Value N))
  item_row tenant external [] = none
  item_row tenant external (i ∷ is) =
      let rest = item_row tenant external is in
      if str_eq i.tenant_id tenant && str_eq i.external_id external then some i else rest

  -- Its checks; the pinecone id of the item.
  checked_item : String → Option (Item (Value N)) → Result ApiError String
  checked_item external none = err (not_found external)
  checked_item external (some i) = elim i.pinecone_id [
    | none ↦ err (not_embedded external)
    | some p ↦
        if not (same_status i.embedding_status Status.done) || str_eq p ""
        then err (not_embedded external)
        else ok p
  ]

  -- `_embedded_item`
  unfoldable pub embedded_item : World N → Workspace N → String → Result ApiError String
  unfolding item_row checked_item
  embedded_item w tenant external = checked_item external (item_row tenant.id external w.items)
