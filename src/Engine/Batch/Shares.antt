-- ===== src/Engine/Batch/Shares.antt =====
-- How the tokens of a batch are split among its queries.
use native.Mathlib.Nat.{div-add-mod, mod-lt}
use recommendation_engine.Base.{
  ℕ, zero, suc, ◌+◌, ◌*◌, ◌/◌, ◌%◌, ◌≤◌, ◌≡◌, min, refl, List, [], ◌∷◌, arith, length, All,
}
use recommendation_engine.Engine.Batch.{shares, shares_from}

abbrev pub sum : List ℕ → ℕ
sum [] = 0
sum (n ∷ ns) = n + sum ns

module _ (base extra : ℕ) where
  -- Each of `n` shares from `i` on has the base, and one more for each index below `extra`.
  sum-shares_from :
      (i n : ℕ) → sum (shares_from base extra i n) + min i extra ≡ n * base + min (i + n) extra
  unfolding shares_from
  sum-shares_from i zero = omega arith
  sum-shares_from i (suc n) = ground (arith, sum-shares_from (i + 1) n)

  shares_from-fair : (i n : ℕ) → All (λ x. (base ≤ x) × (x ≤ base + 1)) (shares_from base extra i n)
  unfolding shares_from
  shares_from-fair i zero = tt
  shares_from-fair i (suc n) = (ground arith, shares_from-fair (i + 1) n)

  length-shares_from : (i n : ℕ) → length (shares_from base extra i n) ≡ n
  unfolding shares_from
  length-shares_from i zero = refl
  length-shares_from i (suc n) = omega (arith, length-shares_from (i + 1) n)

-- The tokens of a batch are split among its `n` misses so that the parts add up to them, and no two
-- parts differ by more than one.
pub sum-shares :
    (tokens n : ℕ)
    → 1 ≤ n
    → (sum (shares tokens n) ≡ tokens)
      × (length (shares tokens n) ≡ n)
      × All (λ x. (tokens / n ≤ x) × (x ≤ tokens / n + 1)) (shares tokens n)
unfolding shares
sum-shares tokens zero h = absurd (omega (arith, h))
sum-shares tokens (suc n) h = (
  grind (
    arith,
    sum-shares_from (tokens / suc n) (tokens % suc n) 0 (suc n),
    div-add-mod tokens (suc n),
    mod-lt tokens {m = suc n} (omega arith),
  ),
  length-shares_from (tokens / suc n) (tokens % suc n) 0 (suc n),
  shares_from-fair (tokens / suc n) (tokens % suc n) 0 (suc n),
)
