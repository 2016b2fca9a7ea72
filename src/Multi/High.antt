-- ===== src/Multi/High.antt =====
-- The results of multi.h are the upper 64 bits of the exact product.
use mathlib.Core.Path.{ap₂}
use native.Mathlib.Nat.{mul-le-mul}
use riscv_isa_simulator.Base.{
  ℕ, ◌+◌, ◌-◌, ◌*◌, ◌/◌, ◌%◌, ◌^◌, ◌≤◌, ◌<◌, ◌≡◌, sym, ap, u64, shl64, add64, not64, ◌∙◌, arith,
  bit_or, ltb, if◌then◌else◌, ◌==◌, to_nat, Bool-cases, ltb→lt, ltb-false→le, inl, inr, neg64,
  mul64,
}
use riscv_isa_simulator.Base.Bits.{bit_or_sum}
use riscv_isa_simulator.Multi.{mulhu, negated, mulh, mulhsu}

product_bound : (x y : ℕ) → x < 2 ^ 32 → y < 2 ^ 32 → x * y ≤ (2 ^ 32 - 1) * (2 ^ 32 - 1)
product_bound x y p q =
    mul-le-mul {n₁ = x} {m₁ = y} {n₂ = 2 ^ 32 - 1} {m₂ = 2 ^ 32 - 1} (omega arith) (omega arith)

-- The upper word of `mulhu`, from the four partial products.
upper : ℕ → ℕ → ℕ → ℕ → ℕ
upper p q r s =
    let t = add64 (u64 q) (u64 p / 2 ^ 32) in
    let t' = add64 (u64 r) (t % 2 ^ 32) in add64 (add64 (u64 s) (t / 2 ^ 32 % 2 ^ 32)) (t' / 2 ^ 32)

upper_lem :
    (p q r s : ℕ)
    → p ≤ (2 ^ 32 - 1) * (2 ^ 32 - 1)
    → q ≤ (2 ^ 32 - 1) * (2 ^ 32 - 1)
    → r ≤ (2 ^ 32 - 1) * (2 ^ 32 - 1)
    → s ≤ (2 ^ 32 - 1) * (2 ^ 32 - 1)
    → upper p q r s ≡ (s * 2 ^ 64 + (q + r) * 2 ^ 32 + p) / 2 ^ 64
unfolding upper
upper_lem p q r s hp hq hr hs = omega arith

joined : (t : ℕ) → t < 2 ^ 64 → bit_or (shl64 (t / 2 ^ 32 % 2 ^ 32) 32) (t % 2 ^ 32) ≡ t
joined t h =
    let e : shl64 (t / 2 ^ 32 % 2 ^ 32) 32 ≡ t / 2 ^ 32 * 2 ^ 32 = omega arith in
    rw e (bit_or_sum 32 (t / 2 ^ 32) (t % 2 ^ 32) (omega arith) ∙ omega arith)

product_halves :
    (a b : ℕ)
    → a * b
      ≡ a / 2 ^ 32 * (b / 2 ^ 32) * 2 ^ 64
        + (a / 2 ^ 32 * (b % 2 ^ 32) + a % 2 ^ 32 * (b / 2 ^ 32)) * 2 ^ 32
        + a % 2 ^ 32 * (b % 2 ^ 32)
product_halves a b =
    let ea : a ≡ a / 2 ^ 32 * 2 ^ 32 + a % 2 ^ 32 = omega arith in
    let eb : b ≡ b / 2 ^ 32 * 2 ^ 32 + b % 2 ^ 32 = omega arith in
    ap₂ (λ (x y : ℕ). x * y) ea eb ∙ omega arith

-- `mulhu` of two 64-bit patterns is the upper 64 bits of their product.
pub mulhu_lem : (a b : ℕ) → a < 2 ^ 64 → b < 2 ^ 64 → mulhu a b ≡ a * b / 2 ^ 64
unfolding mulhu upper
mulhu_lem a b ha hb =
    let a0 = a % 2 ^ 32 in
    let a1 = a / 2 ^ 32 in
    let b0 = b % 2 ^ 32 in
    let b1 = b / 2 ^ 32 in
    joined (upper (a0 * b0) (a1 * b0) (a0 * b1) (a1 * b1)) (omega arith)
    ∙ upper_lem (a0 * b0) (a1 * b0) (a0 * b1) (a1 * b1)
        (product_bound a0 b0 (omega arith) (omega arith))
        (product_bound a1 b0 (omega arith) (omega arith))
        (product_bound a0 b1 (omega arith) (omega arith))
        (product_bound a1 b1 (omega arith) (omega arith))
    ∙ ap (λ (t : ℕ). t / 2 ^ 64) (sym (product_halves a b))

-- The upper half of the 128-bit pattern of -n.
negate_high :
    (n : ℕ)
    → n < 2 ^ 127 + 1
    → add64 (not64 (n / 2 ^ 64)) (to_nat (n % 2 ^ 64 == 0)) ≡ (2 ^ 128 - n) % 2 ^ 128 / 2 ^ 64
negate_high n h = ground arith

-- An int64_t pattern, extended to 128 bits.
abbrev pub signed128 : ℕ → ℕ
signed128 a = if ltb a (2 ^ 63) then a else a + (2 ^ 128 - 2 ^ 64)

-- A negated result: `p` is the product of the magnitudes, `u` and `v` are -`p` modulo 2 ^ 64 and
-- modulo 2 ^ 128.
negated_high :
    (p u v k l : ℕ)
    → p ≤ 2 ^ 127
    → u + p ≡ 2 ^ 64 * k
    → v + p ≡ 2 ^ 128 * l
    → add64 (not64 (p / 2 ^ 64)) (to_nat (u % 2 ^ 64 == 0)) ≡ v % 2 ^ 128 / 2 ^ 64
negated_high p u v k l small e f =
    let same : (2 ^ 128 - p) % 2 ^ 128 ≡ v % 2 ^ 128 = omega arith in
    let low : u % 2 ^ 64 == 0 ≡ (p % 2 ^ 64 == 0) = ground arith in
    rw low (negate_high p (omega arith) ∙ ap (λ (t : ℕ). t / 2 ^ 64) same)

abbrev Half : ℕ → Type 0
Half a = a ≤ 2 ^ 63

half_product : (a b : ℕ) → a ≤ 2 ^ 63 → b < 2 ^ 64 → a * b ≤ 2 ^ 127
half_product a b h k =
    omega (arith, mul-le-mul {n₁ = a} {m₁ = b} {n₂ = 2 ^ 63} {m₂ = 2 ^ 64} h (omega arith))

module _ (a b : ℕ) (ha : a < 2 ^ 64) (hb : b < 2 ^ 64) where
  plain : mulhu a b ≡ a * b % 2 ^ 128 / 2 ^ 64
  plain =
      let wide : a * b ≤ (2 ^ 64 - 1) * (2 ^ 64 - 1) =
        mul-le-mul {n₁ = a} {m₁ = b} {n₂ = 2 ^ 64 - 1} {m₂ = 2 ^ 64 - 1} (omega arith)
          (omega arith) in
      mulhu_lem a b ha hb ∙ omega arith

  -- The first argument is negative, or the second.
  first_negative :
      2 ^ 63 ≤ a
      → add64 (not64 (mulhu (neg64 a) b)) (to_nat (mul64 a b == 0))
        ≡ (a + (2 ^ 128 - 2 ^ 64)) * b % 2 ^ 128 / 2 ^ 64
  first_negative h =
      let n = neg64 a in
      rw (mulhu_lem n b (omega arith) hb) (
        negated_high (n * b) (a * b) ((a + (2 ^ 128 - 2 ^ 64)) * b) b b
          (half_product n b (omega arith) hb) (omega (arith, ap (λ (t : ℕ). t * b) (exact64 h)))
          (omega (arith, ap (λ (t : ℕ). t * b) (exact64 h))))
    where
      exact64 : 2 ^ 63 ≤ a → a + neg64 a ≡ 2 ^ 64
      exact64 h = omega arith

  second_negative :
      a < 2 ^ 63
      → 2 ^ 63 ≤ b
      → add64 (not64 (mulhu a (neg64 b))) (to_nat (mul64 a b == 0))
        ≡ a * (b + (2 ^ 128 - 2 ^ 64)) % 2 ^ 128 / 2 ^ 64
  second_negative l h =
      let n = neg64 b in
      rw (mulhu_lem a n ha (omega arith)) (
        negated_high (a * n) (a * b) (a * (b + (2 ^ 128 - 2 ^ 64))) a a
          (half_product a n (omega arith) (omega arith))
          (omega (arith, ap (λ (t : ℕ). a * t) (exact64 h)))
          (omega (arith, ap (λ (t : ℕ). a * t) (exact64 h))))
    where
      exact64 : 2 ^ 63 ≤ b → b + neg64 b ≡ 2 ^ 64
      exact64 h = omega arith

  both_negative :
      2 ^ 63 ≤ a
      → 2 ^ 63 ≤ b
      → mulhu (neg64 a) (neg64 b)
        ≡ (a + (2 ^ 128 - 2 ^ 64)) * (b + (2 ^ 128 - 2 ^ 64)) % 2 ^ 128 / 2 ^ 64
  both_negative h k =
      let n = neg64 a in
      let l = neg64 b in
      let y = b + (2 ^ 128 - 2 ^ 64) in
      let small = half_product n l (omega arith) (omega arith) in
      let e : a + n ≡ 2 ^ 64 = omega arith in
      let f : b + l ≡ 2 ^ 64 = omega arith in
      mulhu_lem n l (omega arith) (omega arith)
      ∙ ap (λ (t : ℕ). t / 2 ^ 64) (omega (arith, ap (λ (t : ℕ). t * y) e, ap (λ (t : ℕ). n * t) f))

  -- `mulhsu` of two 64-bit patterns is the upper half of the 128-bit pattern of the product of the
  -- first, as a signed number, and the second.
  pub mulhsu_lem : mulhsu a b ≡ signed128 a * b % 2 ^ 128 / 2 ^ 64
  unfolding mulhsu negated
  mulhsu_lem = elim (Bool-cases (ltb a (2 ^ 63))) [
    | inl low ↦ rw low plain
    | inr high ↦ rw high (first_negative (ltb-false→le a (2 ^ 63) high))
  ]

  -- `mulh` of two 64-bit patterns is the upper half of the 128-bit pattern of the product of both
  -- as signed numbers.
  pub mulh_lem : mulh a b ≡ signed128 a * signed128 b % 2 ^ 128 / 2 ^ 64
  unfolding mulh negated
  mulh_lem = elim (Bool-cases (ltb a (2 ^ 63))) [
    | inl low ↦ elim (Bool-cases (ltb b (2 ^ 63))) [
      | inl low' ↦ rw (low, low') plain
      | inr high' ↦
          rw (low, high') (second_negative (ltb→lt _ _ low) (ltb-false→le b (2 ^ 63) high'))
    ]
    | inr high ↦ elim (Bool-cases (ltb b (2 ^ 63))) [
      | inl low' ↦ rw (high, low') (first_negative (ltb-false→le a (2 ^ 63) high))
      | inr high' ↦
          rw (high, high')
            (both_negative (ltb-false→le a (2 ^ 63) high) (ltb-false→le b (2 ^ 63) high'))
    ]
  ]
