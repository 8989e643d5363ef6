-- ===== src/Limits/Demo.antt =====
-- workspace_limits.py: the caps of the public demo (`_consume_demo`), which fail closed.
use recommendation_engine.Base.{
  ℕ, ◌+◌, ◌≤◌, ◌≡◌, refl, inl, inr, String, Option, List, [], ◌∷◌, ◌++◌, ltb, arith, Bool-cases,
  if◌then◌else◌,
}
use recommendation_engine.Base.Result.{Result, ok, err}
use recommendation_engine.Limits.Quota.{same_key_refl}
use recommendation_engine.Limits.{
  Key, demo_session, demo_day, Redis, RedisError, LimitError, Outcome, incrby, decrby, count_of,
  set_counter, next_fails, later,
}

-- A failure of Redis refuses the query.
pub answered : Result RedisError ℕ × Redis → (ℕ → Redis → Outcome) → Outcome
answered (err e, r) rest = (err LimitError.demo_unavailable, r)
answered (ok n, r) rest = rest n r

-- `for done in counted: await self._redis.decrby(done, count)`, then the refusal
pub give_back : List Key → ℕ → Redis → Outcome
unfolding decrby answered
give_back [] count r = (err LimitError.demo_limit, r)
give_back (k ∷ ks) count r = answered (decrby k count r) (λ n after. give_back ks count after)

-- `for key, limit, ttl, message in caps`
pub consume_from : List (Key × ℕ) → List Key → ℕ → Redis → Outcome
unfolding incrby give_back
consume_from [] counted count r = (ok tt, r)
consume_from ((k, limit) ∷ caps) counted count r = answered (incrby k count r) (λ used after.
    let done = counted ++ k ∷ [] in
    if ltb limit used then give_back done count after else consume_from caps done count after)

-- `_consume_demo`, for the two settings, the session's key, the tenant and the day
unfoldable pub consume_demo : ℕ → ℕ → String → String → ℕ → ℕ → Redis → Outcome
unfolding consume_from
consume_demo per_session per_day session tenant day count r =
    consume_from ((demo_session session, per_session) ∷ (demo_day tenant day, per_day) ∷ []) []
      count r

-- A query of the demo that is let through was counted, in both counters, and is within both caps.
abbrev pub Counted : ℕ → ℕ → Key → Key → ℕ → (Key → Option ℕ) → Outcome → Type 0
Counted per_session per_day s d count before (err e, r) = Unit
Counted per_session per_day s d count before (ok u, r) =
    (count_of (r.counters s) ≡ count_of (before s) + count)
    × (count_of (r.counters d) ≡ count_of (before d) + count)
    × (count_of (r.counters s) ≤ per_session)
    × (count_of (r.counters d) ≤ per_day)

abbrev Refused : Outcome → Type 0
Refused (ok u, r) = ⊥
Refused (err e, r) = Unit

give_back-Refused : (ks : List Key) (count : ℕ) (r : Redis) → Refused (give_back ks count r)
unfolding give_back answered decrby
give_back-Refused [] count r = tt
give_back-Refused (k ∷ ks) count r = elim (Bool-cases (next_fails r.outages)) [
  | inl f ↦ rw f tt
  | inr f ↦ rw f (give_back-Refused ks count _)
]

Refused-Counted :
    (per_session per_day : ℕ) (s d : Key) (count : ℕ) (before : Key → Option ℕ) (o : Outcome)
    → Refused o
    → Counted per_session per_day s d count before o
Refused-Counted per_session per_day s d count before (ok u, r) h = absurd h
Refused-Counted per_session per_day s d count before (err e, r) h = tt

abbrev raised : Key → ℕ → Redis → Redis
raised k n r = record {
  counters = set_counter k (count_of (r.counters k) + n) r.counters;
  outages = later r.outages;
}

-- The demo fails closed: whichever calls of Redis fail, a query that is let through was counted for
-- the session and for the day, and neither cap is passed.
pub consume_demo-Counted :
    (per_session per_day : ℕ) (session tenant : String) (day count : ℕ) (r : Redis)
    → Counted per_session per_day
        (demo_session session)
        (demo_day tenant day)
        count
        r.counters
        (consume_demo per_session per_day session tenant day count r)
unfolding consume_demo
consume_demo-Counted per_session per_day session tenant day count r =
    let s = demo_session session in
    let d = demo_day tenant day in
    let refused : (ks : List Key) (after : Redis)
        → Counted per_session per_day s d count r.counters (give_back ks count after) =
      λ ks after.
        Refused-Counted per_session per_day s d count r.counters (give_back ks count after)
          (give_back-Refused ks count after) in
    elim (Bool-cases (next_fails r.outages)) [
      | inl f ↦ rw f tt
      | inr f ↦ elim (Bool-cases (ltb per_session (count_of (r.counters s) + count))) [
        | inl o ↦ rw (f, o) (refused (s ∷ []) (raised s count r))
        | inr o ↦
            rw (f, o)
              (elim (Bool-cases (next_fails (later r.outages))) [
                | inl g ↦ rw g tt
                | inr g ↦ elim (Bool-cases (ltb per_day (count_of (r.counters d) + count))) [
                  | inl p ↦ rw (g, p) (refused (s ∷ d ∷ []) (raised d count (raised s count r)))
                  | inr p ↦
                      rw (g, p)
                        (rw (same_key_refl d, same_key_refl s)
                          (refl, refl, ground arith, ground arith))
                ]
              ])
      ]
    ]
