-- ===== src/Keywords.antt =====
-- services/recommendation/keyword_search.py: full-text search over a workspace's embedded items.
-- `words` is the `\w+` of a text in lower case. Postgres' own ranking is a parameter; `in_python` is
-- the other backend. `id_order` is the order of texts.
pub mod Laws
use recommendation_engine.Base.{
  ℕ, ◌+◌, ◌*◌, ◌≤◌, ◌≡◌, String, Bool, true, false, not, ◌&&◌, ◌||◌, Option, none, some, List, [],
  ◌∷◌, keep, arith, str_eq, is_some, min, length, take, ltb, ◌==◌, if◌then◌else◌,
}
use recommendation_engine.Base.Number.{Num, lt, num_eq}
use recommendation_engine.Base.Dict.{Dict, member}
use recommendation_engine.Base.Sort.{sort_by}
use recommendation_engine.Filter.{Value, Condition, matches_filter}
use recommendation_engine.Pipeline.{Item, Status, same_status}
use recommendation_engine.Ranking.Hybrid.{KeywordMatch}

abbrev pub overfetch : ℕ
overfetch = 10

abbrev pub max_fetch : ℕ
max_fetch = 500

-- `fetch`: with a filter, more than asked for
unfoldable pub fetch_size : {A : Type 0} → List A → ℕ → ℕ
fetch_size [] k = k
fetch_size (f ∷ fs) k = min (k * overfetch) max_fetch

-- `set(words)`, as a list
pub distinct : List String → List String
distinct [] = []
distinct (w ∷ ws) = let rest = distinct ws in if member w ws then rest else w ∷ rest

-- `Counter(words)[w]`
abbrev pub occurrences : String → List String → ℕ
occurrences w [] = 0
occurrences w (v ∷ vs) = (if str_eq v w then 1 else 0) + occurrences w vs

-- `[counts[w] for w in query if counts[w]]`
pub hits_in : List String → List String → List ℕ
hits_in [] text = []
hits_in (w ∷ query) text =
    let n = occurrences w text in let rest = hits_in query text in if n == 0 then rest else n ∷ rest

abbrev text_or_empty : Option String → String
text_or_empty none = ""
text_or_empty (some t) = t

abbrev sum : List ℕ → ℕ
sum [] = 0
sum (n ∷ ns) = n + sum ns

module _ {N : Type 0} ⦃num : Num N⦄ where
  -- `len(hits) + sum(hits) / (10 * math.sqrt(sum(counts.values())))`
  unfoldable pub text_score : List ℕ → List String → N
  text_score hits text = num.add (num.of_nat (length hits)) (
      num.div (num.of_nat (sum hits))
        (num.mul (num.of_nat 10) (num.sqrt (num.of_nat (length text)))))

  -- The statement's conditions, all but the workspace.
  abbrev pub is_searchable : Item (Value N) → Bool
  is_searchable i =
      same_status i.embedding_status Status.done && is_some i.pinecone_id && is_some i.search_text

  -- What the loop body makes of a row: a match, where a word of the query occurs.
  unfoldable pub match_of :
      (String → List String) → List String → Item (Value N) → Option (KeywordMatch N)
  unfolding hits_in text_score
  match_of words query i =
      let text = words (text_or_empty i.search_text) in
      elim (hits_in query text) [
        | [] ↦ none
        | h ∷ hs ↦ some (record {
          external_id = i.external_id;
          pinecone_id = text_or_empty i.pinecone_id;
          score = text_score (h ∷ hs) text;
          metadata = i.item_metadata;
        })
      ]

  unfoldable pub matches_from :
      (String → List String) → String → List String → List (Item (Value N)) → List (KeywordMatch N)
  unfolding match_of
  matches_from words tenant query [] = []
  matches_from words tenant query (i ∷ is) =
      let rest = matches_from words tenant query is in
      if str_eq i.tenant_id tenant && is_searchable i
      then elim (match_of words query i) [ none ↦ rest | some m ↦ m ∷ rest ]
      else rest

  -- `matches.sort(key=lambda m: (-m.score, m.external_id))`
  abbrev pub better : (String → String → Bool) → KeywordMatch N → KeywordMatch N → Bool
  better id_order a b =
      lt b.score a.score || (num_eq a.score b.score && id_order a.external_id b.external_id)

  unfoldable pub in_python :
      (String → List String)
      → (String → String → Bool)
      → String
      → List (Item (Value N))
      → String
      → ℕ
      → List (KeywordMatch N)
  unfolding distinct matches_from
  in_python words id_order tenant db text limit =
      take limit (sort_by (better id_order) (matches_from words tenant (distinct (words text)) db))

  -- `search`, by the backend's matches for a text and a limit.
  unfoldable pub search :
      (String → List String)
      → (String → ℕ → List (KeywordMatch N))
      → String
      → Dict (Condition N)
      → ℕ
      → List (KeywordMatch N)
  unfolding fetch_size
  search words backend text filter k = elim (words text) [
    | [] ↦ []
    | w ∷ ws ↦ take k (
        keep (λ (m : KeywordMatch N). matches_filter m.metadata filter)
          (backend text (fetch_size filter k)))
  ]
