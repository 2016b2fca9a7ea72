-- ===== src/Func/Integer/Shift.antt =====
-- Arithmetic right shifts divide and round down; sign-extended words stay sign-extended.
use native.Mathlib.Nat.{div-le_self, div-mul-le_self, div-add-mod', mod-lt, one-le-pow}
use native.Mathlib.Numerals.{unary_clauses}
use mathlib.Core.Path.{subst}
use riscv_isa_simulator.Base.{
  ap, sym, ◌∙◌, ℕ, suc, ◌+◌, ◌-◌, ◌*◌, ◌/◌, ◌%◌, ◌^◌, ◌≤◌, ◌<◌, ◌≡◌, arith, inl, inr, Bool-cases,
  ltb, ltb→lt, ltb-false→le, sar64, not64, sext32,
}
use riscv_isa_simulator.Base.Int.{ℤ, pos, negsuc, signed64}
use riscv_isa_simulator.Func.Integer.{Is64, IsWord, Floor, IsFloor}

pub sext32-IsWord : (x : ℕ) → IsWord (sext32 x)
unfolding sext32
sext32-IsWord x = elim (Bool-cases (ltb (x % 2 ^ 32) (2 ^ 31))) [
  | inl low ↦ rw low (inl (ltb→lt _ _ low))
  | inr high ↦ rw high (inr (omega (arith, ltb-false→le _ _ high), omega arith))
]

pub sext32_same : (x : ℕ) → IsWord x → sext32 x ≡ x
unfolding sext32
sext32_same x (inl h) = ground arith
sext32_same x (inr h) = ground arith

-- Division by `q` as a product.
div_between : (n q : ℕ) → 0 < q → (n / q * q ≤ n) × (n < n / q * q + q)
div_between n q h = (div-mul-le_self n q, omega (arith, div-add-mod' n q, mod-lt n h))

low_part : (x : ℕ) → x < 2 ^ 63 → signed64 x ≡ pos x
low_part x h = ground arith

high_part : (x : ℕ) → 2 ^ 63 ≤ x → signed64 x ≡ negsuc (2 ^ 64 - 1 - x)
high_part x h = ground arith

suc_product :
    (d q n : ℕ)
    → d * q ≤ n
    → n < d * q + q
    → (0 * q + suc n ≤ 0 + suc d * q) × (0 + suc d * q < 0 * q + suc n + q)
suc_product d q n le lt = (simp unary_clauses (omega arith), simp unary_clauses (omega arith))

sar64_low : (a k : ℕ) → a < 2 ^ 63 → sar64 a k ≡ a / 2 ^ k
unfolding sar64
sar64_low a k h = ground arith

sar64_high : (a k : ℕ) → 2 ^ 63 ≤ a → sar64 a k ≡ not64 (not64 a / 2 ^ k)
unfolding sar64
sar64_high a k h = ground arith

Floor-same : (q : ℕ) (x y x' y' : ℤ) → x ≡ x' → y ≡ y' → Floor x' q y' → Floor x q y
Floor-same q x y x' y' e f h = subst (λ t. Floor t q y) (sym e) (subst (Floor x' q) (sym f) h)

pub sar64-IsFloor : (a k : ℕ) → Is64 a → IsFloor a (2 ^ k) (sar64 a k)
sar64-IsFloor a k h =
    let q = 2 ^ k in
    let pos_q : 0 < q = one-le-pow k 2 (omega arith) in
    elim (Bool-cases (ltb a (2 ^ 63))) [
      | inl low ↦
          let small = ltb→lt _ _ low in
          let (le, lt) = div_between a q pos_q in
          let r_low : a / q < 2 ^ 63 = omega (arith, div-le_self a q, small) in
          Floor-same q (signed64 a) (signed64 (sar64 a k)) (pos a) (pos (a / q)) (low_part a small)
            (ap signed64 (sar64_low a k small) ∙ low_part (a / q) r_low) (omega arith, omega arith)
      | inr high ↦
          let big = ltb-false→le _ _ high in
          let n = 2 ^ 64 - 1 - a in
          let d = n / q in
          let (le, lt) = div_between n q pos_q in
          let r_high : 2 ^ 63 ≤ not64 d = omega (arith, div-le_self n q, big) in
          let back : 2 ^ 64 - 1 - not64 d ≡ d = omega (arith, div-le_self n q, big) in
          Floor-same q (signed64 a) (signed64 (sar64 a k)) (negsuc n) (negsuc d) (high_part a big)
            (ap signed64 (sar64_high a k big) ∙ high_part (not64 d) r_high ∙ ap negsuc back)
            (suc_product d q n le lt)
    ]

pub sar64-IsWord : (a k : ℕ) → IsWord a → IsWord (sar64 a k)
sar64-IsWord a k (inl h) =
    let e = sar64_low a k (omega arith) in inl (omega (arith, e, div-le_self a (2 ^ k)))
sar64-IsWord a k (inr h) =
    let e = sar64_high a k (omega arith) in
    let n = 2 ^ 64 - 1 - a in
    inr (
      omega (arith, e, div-le_self n (2 ^ k), h.0, h.1),
      omega (arith, e, div-le_self n (2 ^ k), h.0, h.1),
    )
