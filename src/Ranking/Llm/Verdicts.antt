-- ===== src/Ranking/Llm/Verdicts.antt =====
-- What `parse_verdicts` and `rerank` promise whatever the chat model answers.
use mathlib.Core.List.Perm
use mathlib.Core.Path.{subst, ap₂}
use recommendation_engine.Base.{
  ℕ, zero, suc, ◌≤◌, ◌<◌, String, ◌≡◌, refl, ◌⊎◌, inl, inr, Bool, true, false, Option, none, some,
  List, [], ◌∷◌, ◌++◌, map, Perm, arith, All, All-append, length, get_elem?, Bool-cases,
  Option-cases, if◌then◌else◌, ◌==◌,
}
use recommendation_engine.Base.Int.{ℤ, pos, negsuc}
use recommendation_engine.Base.Dict.{Dict, put}
use recommendation_engine.Base.Result.{Result, ok, err, ◌>>=◌, Then, Then-bind}
use recommendation_engine.Ranking.{Match}
use recommendation_engine.Ranking.Llm.Order.{reorder-perm-IsSorted}
use recommendation_engine.Ranking.Llm.{
  Entry, Candidate, Verdict, Verdicts, AskError, has_number, clamp_score, is_new, number_of,
  put_verdict, add_entry, parse_from, parse_verdicts, judge, reorder, candidate_at, by_key, Reply,
  RerankResult, untouched, apply_verdicts, asked, rerank,
}

-- Verdicts on candidates 1 to `count`, scored at most 10, at most one for each.
abbrev pub InRange : ℕ → Verdicts → Type 0
InRange count = All (λ (p : ℕ × Verdict). (1 ≤ p.0) × (p.0 ≤ count) × (p.1.score ≤ 10))

abbrev pub DistinctNumbers : Verdicts → Type 0
DistinctNumbers [] = Unit
DistinctNumbers ((n, _) ∷ vs) = (has_number n vs ≡ false) × DistinctNumbers vs

abbrev pub IsValid : ℕ → Verdicts → Type 0
IsValid count vs = InRange count vs × DistinctNumbers vs

has_number-append :
    (m n : ℕ) (v : Verdict) (vs : Verdicts)
    → has_number m (vs ++ (n, v) ∷ []) ≡ (if has_number m vs then true else n == m)
has_number-append m n v [] = ground arith
has_number-append m n v ((k, w) ∷ vs) = ground (arith, has_number-append m n v vs)

DistinctNumbers-append :
    (n : ℕ) (v : Verdict) (vs : Verdicts)
    → has_number n vs ≡ false
    → DistinctNumbers vs
    → DistinctNumbers (vs ++ (n, v) ∷ [])
DistinctNumbers-append n v [] h d = (refl, tt)
DistinctNumbers-append n v ((k, w) ∷ vs) h d =
    ground (arith, has_number-append k n v vs, DistinctNumbers-append n v vs)

clamp_score-le : (s : ℤ) → clamp_score s ≤ 10
unfolding clamp_score
clamp_score-le (pos n) = omega arith
clamp_score-le (negsuc n) = omega arith

is_new_bounds :
    (z : ℤ) (count : ℕ) (vs : Verdicts)
    → is_new z count vs ≡ true
    → (1 ≤ number_of z) × (number_of z ≤ count) × (has_number (number_of z) vs ≡ false)
unfolding is_new
is_new_bounds (pos n) count vs h = ground arith
is_new_bounds (negsuc n) count vs h = cc

module _ (clip : String → String) (count : ℕ) where
  put_verdict-IsValid :
      (n : ℕ) (e : Entry) (vs : Verdicts)
      → (1 ≤ n) × (n ≤ count) × (has_number n vs ≡ false)
      → IsValid count vs
      → Then (IsValid count) (put_verdict clip n e vs)
  unfolding put_verdict
  put_verdict-IsValid n e vs b v = elim (Option-cases e.score) [
    | inl none_read ↦ rw none_read tt
    | inr (s, r) ↦ rw r (
      All-append (λ (p : ℕ × Verdict). (1 ≤ p.0) × (p.0 ≤ count) × (p.1.score ≤ 10)) vs _ v.0
          ((b.0, b.1, clamp_score-le s), tt),
      DistinctNumbers-append n _ vs b.2 v.1,
    )
  ]

  add_entry-IsValid :
      (e : Entry) (vs : Verdicts)
      → IsValid count vs
      → Then (IsValid count) (add_entry clip count e vs)
  unfolding add_entry
  add_entry-IsValid e vs v = elim (Option-cases e.number) [
    | inl none_read ↦ rw none_read tt
    | inr (z, r) ↦ elim (Bool-cases (is_new z count vs)) [
      | inl new ↦
          rw (r, new) (put_verdict-IsValid (number_of z) e vs (is_new_bounds z count vs new) v)
      | inr old ↦ rw (r, old) v
    ]
  ]

  parse_from-IsValid :
      (es : List Entry) (vs : Verdicts)
      → IsValid count vs
      → Then (IsValid count) (parse_from clip count es vs)
  unfolding parse_from
  parse_from-IsValid [] vs v = v
  parse_from-IsValid (e ∷ es) vs v =
      Then-bind (IsValid count) (IsValid count) (add_entry clip count e vs)
        (parse_from clip count es) (add_entry-IsValid e vs v) (λ mid w. parse_from-IsValid es mid w)

  -- Whatever the chat model answers, the verdicts that are accepted are on known candidates, at most
  -- one on each, and scored from 0 to 10.
  pub parse_verdicts-IsValid :
      (content : Option (List Entry)) → Then (IsValid count) (parse_verdicts clip content count)
  unfolding parse_verdicts
  parse_verdicts-IsValid none = tt
  parse_verdicts-IsValid (some es) = parse_from-IsValid es [] (tt, tt)

get_elem?-lt : {A : Type 0} (l : List A) (i : ℕ) → i < length l → (x : A) × (get_elem? l i ≡ some x)
get_elem?-lt [] i h = absurd (omega arith)
get_elem?-lt (x ∷ l) zero h = (x, refl)
get_elem?-lt (x ∷ l) (suc i) h = get_elem?-lt l i (omega arith)

candidate_at-InRange :
    (cs : List Candidate) (n : ℕ)
    → 1 ≤ n
    → n ≤ length cs
    → (c : Candidate) × (candidate_at cs n ≡ some c)
unfolding candidate_at
candidate_at-InRange cs zero h k = absurd (omega arith)
candidate_at-InRange cs (suc i) h k = get_elem?-lt cs i k

by_key-InRange :
    (cs : List Candidate) (vs : Verdicts) (d : Dict Verdict)
    → InRange (length cs) vs
    → (found : Dict Verdict) × (by_key cs vs d ≡ some found)
unfolding by_key
by_key-InRange cs [] d h = (d, refl)
by_key-InRange cs ((n, v) ∷ vs) d (b, h) =
    let (c, e) = candidate_at-InRange cs n b.0 b.1 in
    rw (e, by_key) (by_key-InRange cs vs (put c.key v d) h)

IsValid-content :
    (clip : String → String) (reply : Reply) (count : ℕ)
    → Then (IsValid count) (reply.content >>= λ content. parse_verdicts clip content count)
IsValid-content clip reply count =
    Then-bind (λ content. Unit {0}) (IsValid count) reply.content
      (λ content. parse_verdicts clip content count) (any reply.content)
      (λ content u. parse_verdicts-IsValid clip count content)
  where
    any : (r : Result AskError (Option (List Entry))) → Then (λ content. Unit {0}) r
    any (ok a) = tt
    any (err e) = tt

module _ {N : Type 0} where
  -- How `rerank` may end: with the same matches, perhaps in another order, and in the same order if
  -- it fell back.
  abbrev pub IsSafe : List (Match N) → Option (RerankResult N) → Type 0
  IsSafe ms none = ⊥
  IsSafe ms (some r) =
      Perm (map (λ (m : Match N). m.id) r.matches) (map (λ (m : Match N). m.id) ms)
      × ((r.fallback ≡ none) ⊎ (r.matches ≡ ms))

  id-judge : (d : Dict Verdict) (m : Match N) → (judge d m).id ≡ m.id
  unfolding judge
  id-judge d m = ground arith

  ids-judge :
      (verdicts : Dict Verdict) (ms : List (Match N))
      → map (λ (m : Match N). m.id) (map (judge verdicts) ms) ≡ map (λ (m : Match N). m.id) ms
  ids-judge verdicts [] = refl
  ids-judge verdicts (m ∷ ms) = ap₂ ◌∷◌ (id-judge verdicts m) (ids-judge verdicts ms)

  apply_verdicts-IsSafe :
      (cs : List Candidate) (vs : Verdicts) (r : RerankResult N)
      → InRange (length cs) vs
      → r.fallback ≡ none
      → IsSafe r.matches (apply_verdicts cs vs r)
  unfolding apply_verdicts
  apply_verdicts-IsSafe cs vs r h e =
      let (found, p) = by_key-InRange cs vs [] h in
      rw (p, apply_verdicts)
        (
          subst (Perm (map (λ (m : Match N). m.id) (reorder r.matches found)))
              (ids-judge found r.matches)
              (Perm.map (λ (m : Match N). m.id) (reorder-perm-IsSorted r.matches found).0),
          inl e,
        )

  asked-IsSafe :
      (cs : List Candidate) (o : Result AskError Verdicts) (r : RerankResult N)
      → Then (IsValid (length cs)) o
      → r.fallback ≡ none
      → IsSafe r.matches (asked cs o r).0
  unfolding asked
  asked-IsSafe cs (ok vs) r h e = apply_verdicts-IsSafe cs vs r h.0 e
  asked-IsSafe cs (err x) r h e = (Perm.refl _, inr refl)

  -- `rerank` never raises and never loses or invents a result: its matches are those it was given,
  -- and where the chat model failed, was slow or is not configured, also their order. This holds for
  -- any reply, and for cached verdicts that are on known candidates.
  pub rerank-IsSafe :
      (clip : String → String) (configured : Bool) (ms : List (Match N)) (cs : List Candidate)
      (cached : Option Verdicts) (reply : Reply)
      → ((vs : Verdicts) → cached ≡ some vs → InRange (length cs) vs)
      → IsSafe ms (rerank clip configured ms cs cached reply).0
  unfolding rerank
  rerank-IsSafe clip configured ms [] cached reply h = (Perm.refl _, inr refl)
  rerank-IsSafe clip false ms (c ∷ cs) cached reply h = (Perm.refl _, inr refl)
  rerank-IsSafe clip true ms (c ∷ cs) (some vs) reply h =
      apply_verdicts-IsSafe (c ∷ cs) vs (record (untouched ms) { cached = true }) (h vs refl) refl
  rerank-IsSafe clip true ms (c ∷ cs) none reply h =
      asked-IsSafe (c ∷ cs) _
        (record (untouched ms) {
          prompt_tokens = reply.prompt_tokens;
          completion_tokens = reply.completion_tokens;
        })
        (IsValid-content clip reply (length (c ∷ cs))) refl
