-- ===== src/Ranking/Llm.antt =====
-- llm_reranker.py: the chat model's verdicts on the top results, and the order that they give.
-- `clip` is `str(reason).strip()[:200]`.
pub mod Order
pub mod Verdicts
use recommendation_engine.Base.{
  ℕ, zero, suc, ◌+◌, ◌-◌, String, Bool, true, false, ◌&&◌, Option, none, some, List, [], ◌∷◌, map,
  min, length, get_elem?, get_last?, ◌++◌, ltb, leb, ◌==◌, if◌then◌else◌,
}
use recommendation_engine.Base.Int.{ℤ, pos, negsuc}
use recommendation_engine.Base.Dict.{Dict, lookup, put}
use recommendation_engine.Base.Result.{Result, ok, err, ◌>>=◌, or_raise}
use recommendation_engine.Base.Sort.{sort_by}
use recommendation_engine.Ranking.{Match}

-- One entry of the answer. `number` and `score` are none where Python's `int` refuses the text.
pub record Entry : Type 0 where
  pub number : Option ℤ
  pub score : Option ℤ
  pub reason : String

-- One result to judge: its Pinecone id and its text.
pub record Candidate : Type 0 where
  pub key : String
  pub text : String

pub record Verdict : Type 0 where
  pub score : ℕ
  pub reason : String

-- Candidate number (from 1) to verdict.
abbrev pub Verdicts : Type 0
Verdicts = List (ℕ × Verdict)

-- How a call of the chat model fails.
pub data AskError : Type 0 where
  timeout malformed : AskError

abbrev pub has_number : ℕ → Verdicts → Bool
has_number n [] = false
has_number n ((m, _) ∷ vs) = let rest = has_number n vs in if m == n then true else rest

-- `min(max(score, 0), 10)`
pub clamp_score : ℤ → ℕ
clamp_score (pos n) = min n 10
clamp_score (negsuc n) = 0

-- `1 <= number <= count and number not in verdicts`
pub is_new : ℤ → ℕ → Verdicts → Bool
is_new (negsuc n) count vs = false
is_new (pos n) count vs = leb 1 n && leb n count && (if has_number n vs then false else true)

abbrev number_of : ℤ → ℕ
number_of (pos n) = n
number_of (negsuc n) = 0

module _ (clip : String → String) where
  put_verdict : ℕ → Entry → Verdicts → Result AskError Verdicts
  unfolding clamp_score
  put_verdict number entry verdicts = do
    score ← or_raise entry.score malformed
    ok (verdicts ++ (number, record { score = clamp_score score; reason = clip entry.reason }) ∷ [])

  -- The loop body of `parse_verdicts`; the score is read only for a number that counts.
  pub add_entry : ℕ → Entry → Verdicts → Result AskError Verdicts
  unfolding is_new put_verdict
  add_entry count entry verdicts = do
    number ← or_raise entry.number malformed
    if is_new number count verdicts
        then put_verdict (number_of number) entry verdicts
        else ok verdicts

  pub parse_from : ℕ → List Entry → Verdicts → Result AskError Verdicts
  parse_from count [] verdicts = ok verdicts
  parse_from count (e ∷ es) verdicts = add_entry count e verdicts >>= parse_from count es

  -- `none` stands for content that is no such JSON object.
  unfoldable pub parse_verdicts : Option (List Entry) → ℕ → Result AskError Verdicts
  unfolding parse_from
  parse_verdicts none count = err malformed
  parse_verdicts (some entries) count = parse_from count entries []

-- The key `(llm_score is None, -llm_score, position)`, compared.
abbrev pub precedes : Option ℕ → ℕ → Option ℕ → ℕ → Bool
precedes (some s) i none j = true
precedes none i (some t) j = false
precedes none i none j = leb i j
precedes (some s) i (some t) j = if s == t then leb i j else ltb t s

module _ {N : Type 0} where
  pub judge : Dict Verdict → Match N → Match N
  judge verdicts m = elim (lookup m.id verdicts) [
    | none ↦ m
    | some v ↦ record m { llm_score = some v.score; llm_reason = some v.reason }
  ]

  -- `enumerate(matches)` with the verdicts put in
  pub judged_from : ℕ → Dict Verdict → List (Match N) → List (ℕ × Match N)
  unfolding judge
  judged_from i verdicts [] = []
  judged_from i verdicts (m ∷ ms) = (i, judge verdicts m) ∷ judged_from (i + 1) verdicts ms

  abbrev pub may_precede : ℕ × Match N → ℕ × Match N → Bool
  may_precede a b = precedes a.1.llm_score a.0 b.1.llm_score b.0

  -- `_reorder`
  unfoldable pub reorder : List (Match N) → Dict Verdict → List (Match N)
  unfolding judged_from
  reorder matches verdicts =
      map (λ (p : ℕ × Match N). p.1) (sort_by may_precede (judged_from 0 verdicts matches))

-- `candidates[number - 1]`; none is an IndexError.
candidate_at : List Candidate → ℕ → Option Candidate
candidate_at cs zero = get_last? cs
candidate_at cs (suc i) = get_elem? cs i

-- `by_key`
pub by_key : List Candidate → Verdicts → Dict Verdict → Option (Dict Verdict)
unfolding candidate_at
by_key cs [] d = some d
by_key cs ((number, v) ∷ vs) d = elim (candidate_at cs number) [
  | none ↦ none
  | some c ↦ by_key cs vs (put c.key v d)
]

pub data Fallback : Type 0 where
  not_configured timeout error : Fallback

-- What the chat model replies: the tokens are recorded also where the content is then refused.
pub record Reply : Type 0 where
  pub prompt_tokens : ℕ
  pub completion_tokens : ℕ
  pub content : Result AskError (Option (List Entry))

pub record RerankResult (N : Type 0) : Type 0 where
  pub matches : List (Match N)
  pub prompt_tokens : ℕ
  pub completion_tokens : ℕ
  pub cached : Bool
  pub fallback : Option Fallback
  pub verdicts : Dict Verdict

abbrev fallback_of : AskError → Fallback
fallback_of AskError.timeout = Fallback.timeout
fallback_of AskError.malformed = Fallback.error

module _ {N : Type 0} where
  -- `LLMRerankResult(matches)`
  abbrev pub untouched : List (Match N) → RerankResult N
  untouched matches = record {
    matches = matches;
    prompt_tokens = 0;
    completion_tokens = 0;
    cached = false;
    fallback = none;
    verdicts = [];
  }

  -- The end of `rerank`, once there are verdicts; `none` is an IndexError.
  pub apply_verdicts : List Candidate → Verdicts → RerankResult N → Option (RerankResult N)
  unfolding by_key
  apply_verdicts candidates verdicts result = elim (by_key candidates verdicts []) [
    | none ↦ none
    | some found ↦ some (record result { verdicts = found; matches = reorder result.matches found })
  ]

  asked :
      List Candidate
      → Result AskError Verdicts
      → RerankResult N
      → Option (RerankResult N) × Option Verdicts
  unfolding apply_verdicts
  asked candidates (ok verdicts) result = (apply_verdicts candidates verdicts result, some verdicts)
  asked candidates (err e) result = (some (record result { fallback = some (fallback_of e) }), none)

  judged_by :
      (String → String)
      → List Candidate
      → Option Verdicts
      → Reply
      → List (Match N)
      → Option (RerankResult N) × Option Verdicts
  unfolding asked
  judged_by clip candidates (some verdicts) reply matches =
      (apply_verdicts candidates verdicts (record (untouched matches) { cached = true }), none)
  judged_by clip candidates none reply matches =
      asked candidates
        (reply.content >>= λ content. parse_verdicts clip content (length candidates))
        (record (untouched matches) {
          prompt_tokens = reply.prompt_tokens;
          completion_tokens = reply.completion_tokens;
        })

  -- `rerank`, given the cached verdicts for its prompt and the reply of the chat model. Beside the
  -- result come the verdicts that are written to the cache, if any.
  unfoldable pub rerank :
      (String → String)
      → Bool
      → List (Match N)
      → List Candidate
      → Option Verdicts
      → Reply
      → Option (RerankResult N) × Option Verdicts
  unfolding judged_by
  rerank clip configured matches [] cached reply = (some (untouched matches), none)
  rerank clip configured matches (c ∷ cs) cached reply =
      if configured
      then judged_by clip (c ∷ cs) cached reply matches
      else (some (record (untouched matches) { fallback = some Fallback.not_configured }), none)
