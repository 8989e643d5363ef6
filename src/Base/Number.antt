-- ===== src/Base/Number.antt =====
-- Python's `int | float` values, NaN left out, as an interface: arithmetic that the program calls
-- and does not define, with the few laws of it that the program relies on.
use Prim.Native.Nat.{ℕ, ◌+◌, ◌-◌, ◌*◌, ◌/◌}
use mathlib.Core.Path.{◌≡◌}
use mathlib.Core.Logic.{◌⊎◌}
use mathlib.Core.Bool.{Bool, true, false, not}
use native.Mathlib.Nat.{add-zero}
use native.Mathlib.Omega.{arith}
use recommendation_engine.Base.Tests.{leb, if◌then◌else◌}

pub record Num (N : Type 0) : Type 0 where
  pub zero : N
  pub one : N
  pub add : N → N → N
  pub sub : N → N → N
  pub mul : N → N → N
  pub div : N → N → N
  pub sqrt : N → N
  -- math.log1p
  pub log1p : N → N
  pub of_nat : ℕ → N
  -- `a <= b`
  pub le : N → N → Bool
  pub le_total : (a b : N) → (le a b ≡ true) ⊎ (le b a ≡ true)
  pub le_trans : (a b c : N) → le a b ≡ true → le b c ≡ true → le a c ≡ true
  pub le_antisymm : (a b : N) → le a b ≡ true → le b a ≡ true → a ≡ b
  pub add_zero : (a : N) → add a zero ≡ a
  pub mul_zero : (a : N) → mul a zero ≡ zero

module _ {N : Type 0} ⦃num : Num N⦄ where
  -- `a < b`
  abbrev pub lt : N → N → Bool
  lt a b = not (num.le b a)

  -- `a == b`
  abbrev pub num_eq : N → N → Bool
  num_eq a b = let second = num.le b a in if num.le a b then second else false

  -- `max(a, b)` and `min(a, b)`: the first argument on a tie
  abbrev pub num_max : N → N → N
  num_max a b = if num.le b a then a else b

  abbrev pub num_min : N → N → N
  num_min a b = if num.le a b then a else b

  pub le_refl : (a : N) → num.le a a ≡ true
  le_refl a = ground (arith, num.le_total a a)

pub nat_le_total : (a b : ℕ) → (leb a b ≡ true) ⊎ (leb b a ≡ true)
nat_le_total a b = ground arith

pub nat_le_trans : (a b c : ℕ) → leb a b ≡ true → leb b c ≡ true → leb a c ≡ true
nat_le_trans a b c = ground arith

pub nat_le_antisymm : (a b : ℕ) → leb a b ≡ true → leb b a ≡ true → a ≡ b
nat_le_antisymm a b = ground arith

pub nat_mul_zero : (a : ℕ) → a * 0 ≡ 0
nat_mul_zero a = omega arith

-- An instance, for the examples: the native numbers, with truncated subtraction.
instance abbrev pub nat_num : Num ℕ
nat_num = record {
  zero = 0;
  one = 1;
  add = ◌+◌;
  sub = ◌-◌;
  mul = ◌*◌;
  div = ◌/◌;
  sqrt = λ a. a;
  log1p = λ a. a;
  of_nat = λ a. a;
  le = leb;
  le_total = nat_le_total;
  le_trans = nat_le_trans;
  le_antisymm = nat_le_antisymm;
  add_zero = add-zero;
  mul_zero = nat_mul_zero;
}
