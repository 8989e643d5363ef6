-- ===== src/Limits.antt =====
-- middleware/rate_limit.py and services/workspace_limits.py: the counters in Redis, and the limits on
-- requests, uploads and recommendations. A call of Redis may fail: `outages` says of each of the next
-- calls whether it does (none does after its end). Keys are kept apart by what they are made of: a
-- name and a minute, a tenant and a day, a tenant and a month, and so on.
pub mod Capacity
pub mod Quota
pub mod Demo
pub mod Queries
use recommendation_engine.Base.{
  ℕ, ◌+◌, ◌-◌, ◌/◌, ◌%◌, ◌≡◌, String, Bool, true, false, not, ◌&&◌, Option, none, some, List, [],
  ◌∷◌, ltb, zero, suc, ◌==◌, str_eq, if◌then◌else◌, min, max,
}
use recommendation_engine.Base.Result.{Result, ok, err}
use Prim.Native.String.{◌++◌ as text_append}

pub data Key : Type 0 where
  requests items queries demo_day : String → ℕ → Key
  failed demo_session : String → Key

abbrev pub same_key : Key → Key → Bool
same_key (requests a m) (requests b n) = str_eq a b && m == n
same_key (items a m) (items b n) = str_eq a b && m == n
same_key (queries a m) (queries b n) = str_eq a b && m == n
same_key (demo_day a m) (demo_day b n) = str_eq a b && m == n
same_key (failed a) (failed b) = str_eq a b
same_key (demo_session a) (demo_session b) = str_eq a b
same_key _ _ = false

pub record Redis : Type 0 where
  pub counters : Key → Option ℕ
  pub outages : List Bool

pub data RedisError : Type 0 where
  unreachable : RedisError

-- Whether the next call fails, and what is left of `outages`.
abbrev pub next_fails : List Bool → Bool
next_fails [] = false
next_fails (b ∷ bs) = b

abbrev pub later : List Bool → List Bool
later [] = []
later (b ∷ bs) = bs

abbrev pub count_of : Option ℕ → ℕ
count_of none = 0
count_of (some n) = n

abbrev pub set_counter : Key → ℕ → (Key → Option ℕ) → Key → Option ℕ
set_counter k n f j = if same_key k j then some n else f j

-- Redis' INCRBY, DECRBY and EXISTS, and EXPIRE for what it does to the counters here: nothing, as a
-- key outlives the window that is part of it.
pub incrby : Key → ℕ → Redis → Result RedisError ℕ × Redis
incrby k n r =
    let after = count_of (r.counters k) + n in
    if next_fails r.outages
    then (err unreachable, record r { outages = later r.outages })
    else (ok after, record { counters = set_counter k after r.counters; outages = later r.outages })

pub decrby : Key → ℕ → Redis → Result RedisError ℕ × Redis
decrby k n r =
    let after = count_of (r.counters k) - n in
    if next_fails r.outages
    then (err unreachable, record r { outages = later r.outages })
    else (ok after, record { counters = set_counter k after r.counters; outages = later r.outages })

pub expire : Redis → Result RedisError (Unit {0}) × Redis
expire r = (
  if next_fails r.outages then err unreachable else ok tt,
  record r { outages = later r.outages },
)

-- `limit or settings....`: 0 counts as no limit of one's own
pub or_setting : Option ℕ → ℕ → ℕ
or_setting none setting = setting
or_setting (some zero) setting = setting
or_setting (some (suc n)) setting = suc n

-- What a request that is refused is told.
pub data LimitError : Type 0 where
  rate_limit : (retry_after : ℕ) → LimitError
  daily_limit : (remaining : ℕ) → LimitError
  monthly_limit item_limit demo_limit demo_unavailable : LimitError

abbrev pub Outcome : Type 0
Outcome = Result LimitError (Unit {0}) × Redis

-- The end of `hit`
after_hit : ℕ → ℕ → Result RedisError ℕ × Redis → Outcome
after_hit limit now (err e, r) = (ok tt, r)
after_hit limit now (ok count, r) =
    (if ltb limit count then err (LimitError.rate_limit (60 - now % 60)) else ok tt, r)

-- `RateLimiter.hit` at the time `now`, in seconds
unfoldable pub hit : String → ℕ → ℕ → Redis → Outcome
unfolding incrby after_hit
hit name limit now r = after_hit limit now (incrby (requests name (now / 60)) 1 r)

unfoldable pub hit_request : ℕ → String → Option ℕ → ℕ → Redis → Outcome
unfolding or_setting
hit_request setting api_key limit now r =
    hit (text_append "req:" api_key) (or_setting limit setting) now r

-- The end of `consume_items` and of `consume_queries`: what is over the limit is given back. A failure
-- of Redis lets the request through.
given_back : LimitError → Result RedisError ℕ × Redis → Outcome
given_back e (err x, r) = (ok tt, r)
given_back e (ok n, r) = (err e, r)

pub within : Key → ℕ → ℕ → LimitError → ℕ → Redis → Outcome
unfolding decrby given_back
within key count limit e used r =
    if ltb limit used then given_back e (decrby key count r) else (ok tt, r)

expired : Result RedisError (Unit {0}) × Redis → (Redis → Outcome) → Outcome
expired (err e, r) rest = (ok tt, r)
expired (ok u, r) rest = rest r

first_use : Key → ℕ → ℕ → ℕ → Redis → Outcome
unfolding within expire expired
first_use key count limit used r =
    let rest = within key count limit (LimitError.daily_limit (limit - (used - count))) used in
    if used == count then expired (expire r) rest else rest r

reserved : Key → ℕ → ℕ → Result RedisError ℕ × Redis → Outcome
unfolding first_use
reserved key count limit (err e, r) = (ok tt, r)
reserved key count limit (ok used, r) = first_use key count limit used r

-- `RateLimiter.consume_items` on the day `day`
unfoldable pub consume_items : ℕ → String → ℕ → Option ℕ → ℕ → Redis → Outcome
unfolding reserved or_setting incrby
consume_items setting tenant count limit day r =
    let key = items tenant day in reserved key count (or_setting limit setting) (incrby key count r)

-- `daily_item_limit`, for the three settings
unfoldable pub daily_item_limit : Bool → ℕ → ℕ → Bool → ℕ
daily_item_limit require_verification unverified_limit limit email_verified =
    if require_verification && not email_verified then min unverified_limit limit else limit

-- `failures`, `record_failure` and `clear_failures`: the failed attempts to sign in under a name
abbrev pub count_or_zero : Result RedisError ℕ → ℕ
count_or_zero (ok n) = n
count_or_zero (err e) = 0

unfoldable pub record_failure : String → Redis → ℕ × Redis
unfolding incrby
record_failure name r = let (n, after) = incrby (failed name) 1 r in (count_or_zero n, after)

unfoldable pub failures : String → Redis → ℕ × Redis
failures name r = (
  if next_fails r.outages then 0 else count_of (r.counters (failed name)),
  record r { outages = later r.outages },
)

-- `retry_after`, for the seconds that the key has to live, and `clear_failures`
unfoldable pub retry_after : ℕ → Redis → ℕ × Redis
retry_after ttl r =
    (if next_fails r.outages then 60 else max ttl 1, record r { outages = later r.outages })

abbrev cleared : Key → (Key → Option ℕ) → Key → Option ℕ
cleared k f j = if same_key k j then none else f j

unfoldable pub clear_failures : String → Redis → Redis
clear_failures name r =
    let before = r.counters in
    if next_fails r.outages
    then record r { outages = later r.outages }
    else record { counters = cleared (failed name) before; outages = later r.outages }
