-- ===== src/Ranking/Hybrid.antt =====
-- hybrid.py: vector matches and keyword matches in one candidate list.

mod Shares
mod Merge
pub mod Laws
use recommendation_engine.Base.{
  ℕ, String, Bool, true, false, Option, none, some, List, [], ◌∷◌, str_eq, take, if◌then◌else◌,
}
use recommendation_engine.Base.Number.{Num, lt, num_eq, num_max}
use recommendation_engine.Base.Dict.{Dict, member, lookup, put, keys}
use recommendation_engine.Base.Sort.{sort_by}
use recommendation_engine.Filter.{Scalar, Value, scalar}
use recommendation_engine.Ranking.{Match, descending, retrieval_score}

pub record KeywordMatch (N : Type 0) : Type 0 where
  pub external_id : String
  pub pinecone_id : String
  pub score : N
  pub metadata : Dict (Value N)

module _ {N : Type 0} ⦃num : Num N⦄ where
  -- `sum(x * y for x, y in zip(a, b))`, from the left
  dot_from : N → List N → List N → N
  dot_from acc (x ∷ xs) (y ∷ ys) = dot_from (num.add acc (num.mul x y)) xs ys
  dot_from acc _ _ = acc

  dot : List N → List N → N
  unfolding dot_from
  dot = dot_from num.zero

  norm : List N → N
  unfolding dot
  norm a = num.sqrt (dot a a)

  -- The vectors of one index have one length.
  pub cosine : List N → List N → N
  unfolding norm
  cosine a b =
      let n = num.mul (norm a) (norm b) in
      if num_eq n num.zero then num.zero else num.div (dot a b) n

  vector_ids : List (Match N) → List String
  vector_ids [] = []
  vector_ids (m ∷ ms) = m.id ∷ vector_ids ms

  pub missing_from : List String → List (KeywordMatch N) → List String
  missing_from found [] = []
  missing_from found (k ∷ ks) =
      let rest = missing_from found ks in
      if member k.pinecone_id found then rest else k.pinecone_id ∷ rest

  pub keyword_only_ids : List (Match N) → List (KeywordMatch N) → List String
  unfolding vector_ids missing_from
  keyword_only_ids vector_matches = missing_from (vector_ids vector_matches)

  -- `max((m.score for m in keyword_matches), default=0.0)`
  pub best_score : List (KeywordMatch N) → N
  best_score [] = num.zero
  best_score (m ∷ []) = m.score
  best_score (m ∷ k ∷ ks) = num_max m.score (best_score (k ∷ ks))

  boosts_from : N → List (KeywordMatch N) → Dict N → Dict N
  boosts_from best [] d = d
  boosts_from best (m ∷ ms) d = boosts_from best ms (put m.pinecone_id (num.div m.score best) d)

  -- `boost`
  pub boosts : List (KeywordMatch N) → Dict N
  unfolding boosts_from best_score
  boosts ms = let best = best_score ms in if lt num.zero best then boosts_from best ms [] else []

  pub by_id : List (Match N) → Dict (Match N) → Dict (Match N)
  by_id [] d = d
  by_id (m ∷ ms) d = by_id ms (put m.id m d)

  -- A keyword hit as a match, its score the cosine with its stored vector.
  abbrev pub keyword_candidate : List N → KeywordMatch N → List N → Match N
  keyword_candidate query_vector k vector = record {
    id = k.pinecone_id;
    score = cosine query_vector vector;
    external = some k.external_id;
    metadata = put "external_id" (scalar (Scalar.text k.external_id)) k.metadata;
    retrieval = none;
    ranking = none;
    position = none;
    llm_score = none;
    llm_reason = none;
  }

  -- The body of the loop over the keyword matches.
  pub add_keyword : Dict (List N) → List N → KeywordMatch N → Dict (Match N) → Dict (Match N)
  add_keyword vectors query_vector k merged =
      if member k.pinecone_id (keys merged) then merged else elim (lookup k.pinecone_id vectors) [
        | none ↦ merged
        | some vector ↦ put k.pinecone_id (keyword_candidate query_vector k vector) merged
      ]

  pub add_keywords :
      Dict (List N) → List N → List (KeywordMatch N) → Dict (Match N) → Dict (Match N)
  unfolding add_keyword
  add_keywords vectors query_vector [] merged = merged
  add_keywords vectors query_vector (k ∷ ks) merged =
      add_keywords vectors query_vector ks (add_keyword vectors query_vector k merged)

  abbrev boost_of : Option N → N
  boost_of none = num.zero
  boost_of (some b) = b

  -- `candidate["retrieval_score"] = candidate["score"] + weight * boost.get(pinecone_id, 0.0)`
  pub with_retrieval : N → Dict N → Dict (Match N) → List (Match N)
  with_retrieval weight boost [] = []
  with_retrieval weight boost ((id, m) ∷ d) =
      record m { retrieval = some (num.add m.score (num.mul weight (boost_of (lookup id boost)))) }
      ∷ with_retrieval weight boost d

  -- The merged candidates with their retrieval scores, before the sort and the cut.
  unfoldable pub candidates :
      List (Match N) → List (KeywordMatch N) → Dict (List N) → List N → N → List (Match N)
  unfolding with_retrieval add_keywords by_id boosts
  candidates vector_matches keyword_matches keyword_vectors query_vector weight =
      with_retrieval weight (boosts keyword_matches)
        (add_keywords keyword_vectors query_vector keyword_matches (by_id vector_matches []))

  unfoldable pub fuse :
      List (Match N) → List (KeywordMatch N) → Dict (List N) → List N → N → ℕ → List (Match N)
  fuse vector_matches keyword_matches keyword_vectors query_vector weight k = take k (
      sort_by (descending retrieval_score)
        (candidates vector_matches keyword_matches keyword_vectors query_vector weight))
