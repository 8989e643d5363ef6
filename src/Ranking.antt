-- ===== src/Ranking.antt =====
-- What the ranking stages share: a match, as the stages pass it on
-- (app/services/recommendation: hybrid.py, reranker.py, llm_reranker.py, result_formatter.py).
pub mod Hybrid
pub mod Feedback
pub mod Llm
pub mod Format
pub mod Variant
use recommendation_engine.Base.{
  ℕ, String, ◌≡◌, ◌⊎◌, Bool, true, Option, none, some, str_eq, if◌then◌else◌,
}
use recommendation_engine.Base.Number.{Num}
use recommendation_engine.Base.Dict.{Dict}
use recommendation_engine.Filter.{Value}

-- The match dicts of Pinecone and the keys that the stages add. `external` is the metadata's
-- `external_id`, which the upload stores as a text.
pub record Match (N : Type 0) : Type 0 where
  pub id : String
  pub score : N
  pub external : Option String
  pub metadata : Dict (Value N)
  pub retrieval : Option N
  pub ranking : Option N
  pub position : Option ℕ
  pub llm_score : Option ℕ
  pub llm_reason : Option String

-- `x or y` for texts
abbrev pub text_or : Option String → String → String
text_or none y = y
text_or (some x) y = if str_eq x "" then y else x

module _ {N : Type 0} where
  -- `external_id` of reranker.py and `_external_id` of query_engine.py
  unfoldable pub external_id : Match N → String
  external_id m = text_or m.external m.id

  abbrev pub or_default : Option N → N → N
  or_default none d = d
  or_default (some x) d = x

  -- `retrieval_score` of reranker.py
  unfoldable pub retrieval_score : Match N → N
  retrieval_score m = or_default m.retrieval m.score

-- Best first: `sorted(matches, key=key, reverse=True)` keeps equals in order.
abbrev pub descending : {N : Type 0} ⦃num : Num N⦄ → (Match N → N) → Match N → Match N → Bool
descending ⦃num⦄ key a b = num.le (key b) (key a)

module _ {N : Type 0} ⦃num : Num N⦄ (key : Match N → N) where
  pub descending_total : (a b : Match N) → (descending key a b ≡ true) ⊎ (descending key b a ≡ true)
  descending_total a b = num.le_total (key b) (key a)

  pub descending_trans :
      (a b c : Match N)
      → descending key a b ≡ true
      → descending key b c ≡ true
      → descending key a c ≡ true
  descending_trans a b c p q = num.le_trans (key c) (key b) (key a) q p
