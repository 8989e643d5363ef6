-- ===== src/Limits/Queries.antt =====
-- workspace_limits.py: the recommendations of a month (`consume_queries`), which fail open.
use mathlib.Core.Path.{subst}
use recommendation_engine.Base.{
  sym, ℕ, inl, inr, String, Bool, true, false, Option, none, some, [], is_some, Bool-cases,
  if◌then◌else◌,
}
use recommendation_engine.Base.Result.{Result, ok, err}
use recommendation_engine.Billing.{Tenant, allowance}
use recommendation_engine.Limits.{
  Key, queries, Redis, RedisError, unreachable, next_fails, later, set_counter, LimitError, Outcome,
  incrby, within,
}
use recommendation_engine.Limits.Quota.{Reserved, within-Reserved}
use recommendation_engine.Limits.Demo.{consume_demo}

-- Redis' EXISTS, and SET with `nx=True`, which leaves a counter that is there.
exists : Key → Redis → Result RedisError Bool × Redis
exists k r = (
  if next_fails r.outages then err unreachable else ok (is_some (r.counters k)),
  record r { outages = later r.outages },
)

abbrev pub seeded : Key → ℕ → (Key → Option ℕ) → Key → Option ℕ
seeded k n f = if is_some (f k) then f else set_counter k n f

set_nx : Key → ℕ → Redis → Result RedisError (Unit {0}) × Redis
set_nx k n r =
    if next_fails r.outages
    then (err unreachable, record r { outages = later r.outages })
    else (ok tt, record { counters = seeded k n r.counters; outages = later r.outages })

after_incr : Key → ℕ → ℕ → Result RedisError ℕ × Redis → Outcome
after_incr key count limit (err e, r) = (ok tt, r)
after_incr key count limit (ok used, r) = within key count limit LimitError.monthly_limit used r

spend : Key → ℕ → ℕ → Redis → Outcome
unfolding after_incr incrby
spend key count limit r = after_incr key count limit (incrby key count r)

after_set : Key → ℕ → ℕ → Result RedisError (Unit {0}) × Redis → Outcome
unfolding spend
after_set key count limit (err e, r) = (ok tt, r)
after_set key count limit (ok u, r) = spend key count limit r

after_exists : Key → ℕ → ℕ → ℕ → Result RedisError Bool × Redis → Outcome
unfolding after_set set_nx
after_exists key count limit served (err e, r) = (ok tt, r)
after_exists key count limit served (ok true, r) = spend key count limit r
after_exists key count limit served (ok false, r) = after_set key count limit (set_nx key served r)

-- The monthly part, `served` being the month's log entries.
unfoldable pub consume_month : Key → ℕ → ℕ → ℕ → Redis → Outcome
unfolding after_exists exists
consume_month key count limit served r = after_exists key count limit served (exists key r)

-- What a visitor of the demo is counted by: two settings, the session's key and the day.
pub record Visit : Type 0 where
  pub per_session : ℕ
  pub per_day : ℕ
  pub session : String
  pub day : ℕ

demo_part : Option Visit → String → ℕ → Redis → Outcome
demo_part none tenant count r = (ok tt, r)
demo_part (some v) tenant count r =
    consume_demo v.per_session v.per_day v.session tenant v.day count r

monthly : Option ℕ → Key → ℕ → ℕ → Redis → Outcome
monthly none key count served r = (ok tt, r)
monthly (some limit) key count served r = consume_month key count limit served r

after_demo : Option ℕ → Key → ℕ → ℕ → Outcome → Outcome
unfolding monthly
after_demo limit key count served (err e, r) = (err e, r)
after_demo limit key count served (ok u, r) = monthly limit key count served r

-- `consume_queries`, for `settings.BILLING_ENABLED`, the time, the month and its log entries
unfoldable pub consume_queries : Bool → ℕ → Tenant → Option Visit → ℕ → ℕ → ℕ → Redis → Outcome
unfolding after_demo demo_part
consume_queries enabled now t visit month served count r =
    after_demo (allowance enabled now t).monthly_queries (queries t.id month) count served
      (demo_part visit t.id count r)

spend-Reserved :
    (key : Key) (count limit : ℕ) (counters : Key → Option ℕ)
    → Reserved count limit counters key
        (spend key count limit (record { counters = counters; outages = [] }))
unfolding spend after_incr
spend-Reserved key count limit counters =
    within-Reserved key count limit counters LimitError.monthly_limit

-- While Redis answers, the month's quota is counted exactly if it suffices, and else the request is
-- refused and nothing is counted. A counter that was lost starts at the number of the month's log
-- entries.
pub consume_month-Reserved :
    (key : Key) (count limit served : ℕ) (counters : Key → Option ℕ)
    → Reserved count limit
        (seeded key served counters)
        key
        (consume_month key count limit served (record { counters = counters; outages = [] }))
unfolding consume_month after_exists after_set set_nx exists
consume_month-Reserved key count limit served counters =
    elim (Bool-cases (is_some (counters key))) [
      | inl e ↦ rw (e, seeded) (spend-Reserved key count limit counters)
      | inr e ↦
          subst
            (λ b. Reserved count limit (seeded key served counters) key (
              after_exists key count limit served
                (ok b, record { counters = counters; outages = [] })))
            (sym e) (spend-Reserved key count limit (seeded key served counters))
    ]
