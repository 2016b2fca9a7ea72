-- ===== src/Base/Bits.antt =====
-- Laws of `bit_and` and `bit_or` at variables, by induction on the number of digits.
mod Step
use Prim.Native.Nat.{
  ℕ, zero, suc, ◌+◌, ◌-◌, ◌*◌, ◌/◌, ◌%◌, ◌^◌, ◌≤◌, ◌<◌, min, max, bit_and, bit_or, bit_xor,
  bit_and-bitwise,
}
use mathlib.Core.Path.{◌≡◌, refl, ap, sym, ◌∙◌}
use native.Mathlib.Nat.{pow-suc, pow-succ', one-le-pow, div-div-eq-div-mul}
use native.Mathlib.Omega.{arith}
use Step.{bit_and_step, bit_or_step}

-- A law that holds at halves holds everywhere: `n` bounds the numbers that are halved.
bit_and-zero_below : (n a : ℕ) → a ≤ n → bit_and a 0 ≡ 0
bit_and-zero_below n zero h = refl
bit_and-zero_below zero (suc a) h = absurd (omega arith)
bit_and-zero_below (suc n) (suc a) h =
    omega (arith, bit_and_step (suc a) 0, bit_and-zero_below n (suc a / 2) (omega arith))

pub bit_and-zero : (a : ℕ) → bit_and a 0 ≡ 0
bit_and-zero a = bit_and-zero_below a a (omega arith)

pub zero-bit_and : (b : ℕ) → bit_and 0 b ≡ 0
zero-bit_and b = bit_and-bitwise 0 b

bit_or-zero_below : (n a : ℕ) → a ≤ n → bit_or a 0 ≡ a
bit_or-zero_below n zero h = refl
bit_or-zero_below zero (suc a) h = absurd (omega arith)
bit_or-zero_below (suc n) (suc a) h =
    omega (arith, bit_or_step (suc a) 0, bit_or-zero_below n (suc a / 2) (omega arith))

pub bit_or-zero : (a : ℕ) → bit_or a 0 ≡ a
bit_or-zero a = bit_or-zero_below a a (omega arith)

twice_pow : (q k : ℕ) → q * 2 ^ suc k ≡ 2 * (q * 2 ^ k)
twice_pow q k = omega (arith, ap (λ (t : ℕ). q * t) (pow-suc 2 k))

-- A mask of `k` low ones is the remainder by `2 ^ k`.
masked : (k q r : ℕ) → r < 2 ^ k → bit_and (q * 2 ^ k + r) (2 ^ k - 1) ≡ r
masked zero q r h = rw bit_and-zero (omega arith)
masked (suc k) q r h =
    let e = twice_pow q k in
    let here = bit_and_step (q * 2 ^ suc k + r) (2 ^ suc k - 1) in
    ground (arith, here, e, pow-suc 2 k, one-le-pow k 2, masked k q (r / 2) (omega arith))

pub bit_and_mask : (k a : ℕ) → bit_and a (2 ^ k - 1) ≡ a % 2 ^ k
bit_and_mask k a = ground (arith, one-le-pow k 2, masked k (a / 2 ^ k) (a % 2 ^ k))

-- `(q << k) | r` is a sum when `r` has `k` digits.
pub bit_or_sum : (k q r : ℕ) → r < 2 ^ k → bit_or (q * 2 ^ k) r ≡ q * 2 ^ k + r
bit_or_sum zero q r h = ground (arith, bit_or-zero q)
bit_or_sum (suc k) q r h =
    let here = bit_or_step (q * 2 ^ suc k) r in
    ground (arith, here, twice_pow q k, pow-suc 2 k, bit_or_sum k q (r / 2) (omega arith))

-- One bit, tested in place.
pub bit_and_bit : (k a : ℕ) → bit_and a (2 ^ k) ≡ a / 2 ^ k % 2 * 2 ^ k
bit_and_bit zero a = omega (arith, bit_and_step a 1, bit_and-zero (a / 2))
bit_and_bit (suc k) a =
    let here = bit_and_step a (2 ^ suc k) in
    let halved : a / 2 ^ suc k ≡ a / 2 / 2 ^ k =
      rw pow-succ' (sym (div-div-eq-div-mul a 2 (2 ^ k))) in
    rw halved
      (ground (arith, here, pow-suc 2 k, twice_pow (a / 2 / 2 ^ k % 2) k, bit_and_bit k (a / 2)))

-- `a & ~1` at 64 bits.
pub bit_and_even : (a : ℕ) → a < 2 ^ 64 → bit_and a (2 ^ 64 - 2) ≡ a / 2 * 2
bit_and_even a h = omega (arith, bit_and_step a (2 ^ 64 - 2), bit_and_mask 63 (a / 2))

bit_and_comm_below : (n a b : ℕ) → a + b ≤ n → bit_and a b ≡ bit_and b a
bit_and_comm_below zero a b h =
    let e : a ≡ 0 = omega arith in let f : b ≡ 0 = omega arith in rw (e, f)
bit_and_comm_below (suc n) a b h = ground (
  arith,
  bit_and_step a b,
  bit_and_step b a,
  bit_and_comm_below n (a / 2) (b / 2),
  bit_and-zero a,
  bit_and-zero b,
)

pub bit_and_comm : (a b : ℕ) → bit_and a b ≡ bit_and b a
bit_and_comm a b = bit_and_comm_below (a + b) a b (omega arith)

bit_or_comm_below : (n a b : ℕ) → a + b ≤ n → bit_or a b ≡ bit_or b a
bit_or_comm_below zero a b h =
    let e : a ≡ 0 = omega arith in let f : b ≡ 0 = omega arith in rw (e, f)
bit_or_comm_below (suc n) a b h = ground (
  arith,
  bit_or_step a b,
  bit_or_step b a,
  bit_or_comm_below n (a / 2) (b / 2),
  bit_or-zero a,
  bit_or-zero b,
)

pub bit_or_comm : (a b : ℕ) → bit_or a b ≡ bit_or b a
bit_or_comm a b = bit_or_comm_below (a + b) a b (omega arith)

pub bit_or_above : (k q r : ℕ) → r < 2 ^ k → bit_or r (q * 2 ^ k) ≡ q * 2 ^ k + r
bit_or_above k q r h = bit_or_comm r (q * 2 ^ k) ∙ bit_or_sum k q r h

bit_and_half : (a b : ℕ) → bit_and a b / 2 ≡ bit_and (a / 2) (b / 2)
bit_and_half a b = omega (arith, bit_and_step a b)

bit_and_low : (a b : ℕ) → bit_and a b % 2 ≡ min (a % 2) (b % 2)
bit_and_low a b = omega (arith, bit_and_step a b)

bit_and_assoc_below : (n a b c : ℕ) → a ≤ n → bit_and (bit_and a b) c ≡ bit_and a (bit_and b c)
bit_and_assoc_below n zero b c h = simp zero-bit_and
bit_and_assoc_below zero (suc a) b c h = absurd (omega arith)
bit_and_assoc_below (suc n) (suc a) b c h =
    let half = suc a / 2 in
    rw (bit_and_step (bit_and (suc a) b) c, bit_and_step (suc a) (bit_and b c))
      (rw (bit_and_half, bit_and_low, bit_and_half, bit_and_low)
        (omega (arith, bit_and_assoc_below n half (b / 2) (c / 2) (omega arith))))

pub bit_and_assoc : (a b c : ℕ) → bit_and (bit_and a b) c ≡ bit_and a (bit_and b c)
bit_and_assoc a b c = bit_and_assoc_below a a b c (omega arith)
