-- ===== src/Base/Bits/Step.antt =====
-- The equation of each bit operation for the lowest digit. The native operations recur on binary
-- digits with a count of digits to go; any count that is large enough gives the same result.
use Prim.Native.Nat.{
  ℕ, zero, suc, ◌+◌, ◌*◌, ◌/◌, ◌%◌, ◌≤◌, ◌<◌, min, max, digits, bit_and, bit_or, bit_and-bitwise,
  bit_or-bitwise,
}
use mathlib.Core.Path.{◌≡◌, refl}
use native.Mathlib.Omega.{arith}

module _ (ended : ℕ → ℕ) (digit : ℕ → ℕ → ℕ) where
  abbrev op : ℕ → ℕ → ℕ
  op a b = digits ended digit a a b

  enough_below : (k a n b : ℕ) → a < k → a ≤ n → digits ended digit n a b ≡ op a b
  enough_below zero a n b small fits = absurd (omega arith)
  enough_below (suc k) zero zero b small fits = refl
  enough_below (suc k) zero (suc n) b small fits = refl
  enough_below (suc k) (suc a) zero b small fits = absurd (omega arith)
  enough_below (suc k) (suc a) (suc n) b small fits =
      let half = suc a / 2 in
      rw
        (
          enough_below k half n (b / 2) (omega arith) (omega arith),
          enough_below k half a (b / 2) (omega arith) (omega arith),
        )
        refl

  op-suc : (a b : ℕ) → op (suc a) b ≡ op (suc a / 2) (b / 2) * 2 + digit (suc a % 2) (b % 2)
  op-suc a b = rw (enough_below (suc a) (suc a / 2) a (b / 2) (omega arith) (omega arith)) refl

-- One equation for each operation, the digit before the rest.
pub bit_and_step : (x y : ℕ) → bit_and x y ≡ min (x % 2) (y % 2) + bit_and (x / 2) (y / 2) * 2
bit_and_step zero y = simp bit_and-bitwise (omega arith)
bit_and_step (suc x) y = let step = op-suc (λ _. 0) min x y in simp bit_and-bitwise (omega arith)

pub bit_or_step : (x y : ℕ) → bit_or x y ≡ max (x % 2) (y % 2) + bit_or (x / 2) (y / 2) * 2
bit_or_step zero y = simp bit_or-bitwise (omega arith)
bit_or_step (suc x) y = let step = op-suc (λ k. k) max x y in simp bit_or-bitwise (omega arith)
