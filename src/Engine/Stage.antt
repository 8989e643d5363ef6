-- ===== src/Engine/Stage.antt =====
-- query_engine.py: the LLM stage, `_llm_candidates`, `_raw_data` and `_llm_rerank_many`.
use recommendation_engine.Base.{
  ℕ, String, ◌&&◌, Option, none, some, List, [], ◌∷◌, ◌++◌, take, str_eq, if◌then◌else◌,
}
use recommendation_engine.Base.Dict.{Dict, lookup, put, member}
use recommendation_engine.Filter.{Value}
use recommendation_engine.Pipeline.{Item}
use recommendation_engine.Ranking.{Match, external_id}
use recommendation_engine.Ranking.Format.{positions_from}
use recommendation_engine.Ranking.Llm.{Candidate, RerankResult, Verdicts, rerank}
use recommendation_engine.Ranking.Variant.{RankingVariant, control, reranked}
use recommendation_engine.Engine.{Config, Workspace, Llm, World}

-- A query that is to be judged.
pub record Judged (N : Type 0) : Type 0 where
  pub id : String
  pub text : String
  pub matches : List (Match N)

store_verdicts : String → Option Verdicts → Dict Verdicts → Dict Verdicts
store_verdicts k none d = d
store_verdicts k (some v) d = put k v d

module _ {N : Type 0} where
  -- `_llm_candidates`
  unfoldable pub llm_candidates : Option Llm → Config N → RankingVariant → ℕ
  llm_candidates none config variant = 0
  llm_candidates (some llm) config control = 0
  llm_candidates (some llm) config reranked = if config.llm_rerank then config.llm_candidates else 0

  external_ids : List (Match N) → List String
  external_ids [] = []
  external_ids (m ∷ ms) = external_id m ∷ external_ids ms

  -- The statement's rows, as a dict.
  raw_rows :
      String → List String → List (Item (Value N)) → Dict (Dict (Value N)) → Dict (Dict (Value N))
  raw_rows tenant ids [] found = found
  raw_rows tenant ids (i ∷ is) found = raw_rows tenant ids is (
      if str_eq i.tenant_id tenant && member i.external_id ids
      then put i.external_id i.raw_data found
      else found)

  -- `_raw_data`
  unfoldable pub raw_data : World N → Workspace N → List (Match N) → Dict (Dict (Value N))
  unfolding external_ids raw_rows
  raw_data w tenant [] = []
  raw_data w tenant (m ∷ ms) = raw_rows tenant.id (external_ids (m ∷ ms)) w.items []

  -- `candidates`
  unfoldable pub candidates :
      (Dict (Value N) → String) → Dict (Dict (Value N)) → List (Match N) → List Candidate
  candidates build raw [] = []
  candidates build raw (m ∷ ms) =
      let rest = candidates build raw ms in
      elim (lookup (external_id m) raw) [
        | none ↦ rest
        | some fields ↦ record { key = m.id; text = build fields } ∷ rest
      ]

  -- `[m for ms in top.values() for m in ms]`
  pub all_top : ℕ → List (Judged N) → List (Match N)
  all_top n [] = []
  all_top n (q ∷ qs) = take n q.matches ++ all_top n qs

  -- `match["position"] = position`
  abbrev pub positioned : RerankResult N → RerankResult N
  positioned r = record r { matches = positions_from 0 r.matches }

  outcomes :
      Llm
      → (List (Match N) → List Candidate)
      → Dict Verdicts
      → List (Judged N)
      → Option (Dict (RerankResult N)) × Dict Verdicts
      → Option (Dict (RerankResult N)) × Dict Verdicts
  unfolding store_verdicts
  outcomes llm found cached [] acc = acc
  outcomes llm found cached (q ∷ qs) (done, written) =
      let cs = found q.matches in
      let k = llm.key q.text cs in
      let r = rerank llm.clip llm.configured q.matches cs (lookup k cached) (llm.reply q.text cs) in
      outcomes llm found cached qs (
        elim r.0 [
          | none ↦ none
          | some result ↦ elim done [ none ↦ none | some d ↦ some (put q.id (positioned result) d) ]
        ],
        store_verdicts k r.1 written,
      )

  -- `_llm_rerank_many`: the result for each query, none where a call raised, and the cache of
  -- verdicts. The calls run at once: each reads the cache as it is before any of them writes.
  unfoldable pub llm_rerank_many :
      World N
      → Workspace N
      → Llm
      → List (Judged N)
      → ℕ
      → Dict Verdicts
      → Option (Dict (RerankResult N)) × Dict Verdicts
  unfolding all_top outcomes
  llm_rerank_many w tenant llm queries n cached =
      let raw = raw_data w tenant (all_top n queries) in
      outcomes llm (λ ms. candidates w.embedding_text raw (take n ms)) cached queries
        (some [], cached)
