-- ===== src/Limits/Quota.antt =====
-- What the counters of rate_limit.py promise.
use recommendation_engine.Base.{
  ℕ, ◌+◌, ◌-◌, ◌/◌, ◌≤◌, ◌<◌, ◌≡◌, refl, inl, inr, String, true, false, Option, [], ltb, ◌==◌,
  arith, eq_iff, Bool-cases,
}
use recommendation_engine.Base.Result.{Result, ok, err}
use recommendation_engine.Limits.{
  Key, items, requests, same_key, Redis, count_of, set_counter, LimitError, Outcome, or_setting,
  hit, after_hit, incrby, decrby, given_back, within, first_use, expire, expired, consume_items,
}

-- How `consume_items` ends while Redis answers.
abbrev pub Reserved : ℕ → ℕ → (Key → Option ℕ) → Key → Outcome → Type 0
Reserved count limit before key (ok u, r) =
    (count_of (before key) + count ≤ limit)
    × (count_of (r.counters key) ≡ count_of (before key) + count)
    × ((j : Key) → same_key key j ≡ false → r.counters j ≡ before j)
Reserved count limit before key (err e, r) =
    (limit < count_of (before key) + count)
    × (count_of (r.counters key) ≡ count_of (before key))
    × ((j : Key) → same_key key j ≡ false → r.counters j ≡ before j)

pub same_key_refl : (k : Key) → same_key k k ≡ true
same_key_refl (items a m) = ground (arith, eq_iff a a)
same_key_refl (requests a m) = ground (arith, eq_iff a a)
same_key_refl (Key.queries a m) = ground (arith, eq_iff a a)
same_key_refl (Key.demo_day a m) = ground (arith, eq_iff a a)
same_key_refl (Key.failed a) = ground (arith, eq_iff a a)
same_key_refl (Key.demo_session a) = ground (arith, eq_iff a a)

abbrev pub counted : Key → ℕ → (Key → Option ℕ) → Redis
counted key count counters = record {
  counters = set_counter key (count_of (counters key) + count) counters;
  outages = [];
}

pub within-Reserved :
    (key : Key) (count limit : ℕ) (counters : Key → Option ℕ) (e : LimitError)
    → Reserved count limit counters key
        (within key count limit e (count_of (counters key) + count) (counted key count counters))
unfolding within decrby given_back
within-Reserved key count limit counters e =
    elim (Bool-cases (ltb limit (count_of (counters key) + count))) [
      | inl o ↦ rw o (ground arith, rw (same_key_refl key) (omega arith), λ j n. rw n refl)
      | inr o ↦ rw o (ground arith, rw (same_key_refl key) refl, λ j n. rw n refl)
    ]

-- While Redis answers, the day's quota is reserved exactly if it suffices; if not, the upload is
-- refused and the counter is what it was. No other counter changes.
pub consume_items-Reserved :
    (setting : ℕ) (tenant : String) (count : ℕ) (limit : Option ℕ) (day : ℕ)
    (counters : Key → Option ℕ)
    → Reserved count (or_setting limit setting) counters (items tenant day) (
        consume_items setting tenant count limit day (record { counters = counters; outages = [] }))
unfolding consume_items first_use expire expired
consume_items-Reserved setting tenant count limit day counters =
    let key = items tenant day in
    let used = count_of (counters key) + count in
    let done =
      within-Reserved key count (or_setting limit setting) counters
        (LimitError.daily_limit (or_setting limit setting - (used - count))) in
    elim (Bool-cases (used == count)) [
      | inl e ↦ rw (e, first_use) done
      | inr e ↦ rw (e, first_use) done
    ]

abbrev pub HitAnswer : ℕ → ℕ → Result LimitError (Unit {0}) → Type 0
HitAnswer limit made (ok u) = made < limit
HitAnswer limit made (err (LimitError.rate_limit after)) =
    (limit ≤ made) × (1 ≤ after) × (after ≤ 60)
HitAnswer limit made (err e) = ⊥

-- While Redis answers, a request is let through exactly if fewer than `limit` were made before in
-- that minute, it is counted either way, and a refused one is told to come back within the
-- minute.
pub hit-bounds :
    (name : String) (limit now : ℕ) (counters : Key → Option ℕ)
    → let out = hit name limit now (record { counters = counters; outages = [] }) in
      let made = count_of (counters (requests name (now / 60))) in
      (count_of (out.1.counters (requests name (now / 60))) ≡ made + 1) × HitAnswer limit made out.0
unfolding hit incrby after_hit
hit-bounds name limit now counters =
    let key = requests name (now / 60) in
    (
      rw (same_key_refl key) refl,
      elim (Bool-cases (ltb limit (count_of (counters key) + 1))) [
        | inl o ↦ rw o (ground arith, omega arith, omega arith)
        | inr o ↦ rw o (ground arith)
      ],
    )
