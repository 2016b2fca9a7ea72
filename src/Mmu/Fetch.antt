-- ===== src/Mmu/Fetch.antt =====
-- `load_insn`: the four bytes at the program counter, lowest first, as a sign-extended word.
use native.Mathlib.Nat.{pow-le-pow_right, mul-le-mul}
use riscv_isa_simulator.Base.{
  ℕ, zero, suc, ◌+◌, ◌-◌, ◌*◌, ◌/◌, ◌%◌, ◌^◌, ◌≤◌, ◌<◌, ◌≡◌, refl, ap, ◌∙◌, arith, bit_or, add64,
  shl64, sext32, ltb, if◌then◌else◌, ok, trap, none, invalid_address,
}
use riscv_isa_simulator.Base.Bits.{bit_or_above}
use riscv_isa_simulator.Mmu.{Mmu, load_insn_loop, load_insn}
use riscv_isa_simulator.Mmu.StdMap.{Map, find}
use riscv_isa_simulator.Mmu.Access.{Stores}

-- The bytes of the shifts by 0, 8 and 16 stay below the sign bit of an `int`.
low_byte : (k b : ℕ) → b < 2 ^ 8 → k ≤ 16 → sext32 (shl64 b k) ≡ b * 2 ^ k
unfolding sext32
low_byte k b h fits =
    let top : 2 ^ k ≤ 2 ^ 16 = pow-le-pow_right (omega arith) fits in
    let wide : b * 2 ^ k ≤ (2 ^ 8 - 1) * 2 ^ 16 = mul-le-mul {n₂ = 2 ^ 8 - 1} (omega arith) top in
    ground arith

-- The byte of the shift by 24 brings the sign into the upper half.
top_byte :
    (b : ℕ)
    → b < 2 ^ 8
    → sext32 (shl64 b 24) ≡ (if ltb b 128 then b else b + (2 ^ 40 - 2 ^ 8)) * 2 ^ 24
unfolding sext32
top_byte b h = ground arith

word_bytes :
    (w : ℕ)
    → w < 2 ^ 32
    → let b₃ = w / 2 ^ 24 % 2 ^ 8 in
      (if ltb b₃ 128 then b₃ else b₃ + (2 ^ 40 - 2 ^ 8)) * 2 ^ 24
        + (w / 2 ^ 16 % 2 ^ 8 * 2 ^ 16 + (w / 2 ^ 8 % 2 ^ 8 * 2 ^ 8 + w % 2 ^ 8))
      ≡ sext32 w
unfolding sext32
word_bytes w h = ground arith

or_bytes :
    (b₀ b₁ b₂ q : ℕ)
    → b₀ < 2 ^ 8
    → b₁ < 2 ^ 8
    → b₂ < 2 ^ 8
    → bit_or (bit_or (bit_or (bit_or 0 (b₀ * 2 ^ 0)) (b₁ * 2 ^ 8)) (b₂ * 2 ^ 16)) (q * 2 ^ 24)
      ≡ q * 2 ^ 24 + (b₂ * 2 ^ 16 + (b₁ * 2 ^ 8 + b₀))
or_bytes b₀ b₁ b₂ q h₀ h₁ h₂ =
    let e₀ : bit_or 0 (b₀ * 2 ^ 0) ≡ b₀ = bit_or_above 0 b₀ 0 (omega arith) ∙ omega arith in
    rw e₀ (
      rw (bit_or_above 8 b₁ b₀ h₀) (
        rw (bit_or_above 16 b₂ (b₁ * 2 ^ 8 + b₀) (omega arith))
          (bit_or_above 24 q (b₂ * 2 ^ 16 + (b₁ * 2 ^ 8 + b₀)) (omega arith))))

-- Where a word is mapped at `pc`, `load_insn` returns it, sign-extended to 64 bits.
pub load_insn-Stores :
    (m : Mmu) (pc word : ℕ)
    → word < 2 ^ 32
    → Stores m.mem pc 4 word
    → load_insn m pc ≡ ok (sext32 word)
unfolding load_insn
load_insn-Stores m pc word small s =
    let b₀ = word % 2 ^ 8 in
    let b₁ = word / 2 ^ 8 % 2 ^ 8 in
    let b₂ = word / 2 ^ 8 / 2 ^ 8 % 2 ^ 8 in
    let b₃ = word / 2 ^ 8 / 2 ^ 8 / 2 ^ 8 % 2 ^ 8 in
    let e₀ = low_byte 0 b₀ (omega arith) (omega arith) in
    let e₁ = low_byte 8 b₁ (omega arith) (omega arith) in
    let e₂ = low_byte 16 b₂ (omega arith) (omega arith) in
    let e₃ = top_byte b₃ (omega arith) in
    let q = if ltb b₃ 128 then b₃ else b₃ + (2 ^ 40 - 2 ^ 8) in
    let d₂ : b₂ ≡ word / 2 ^ 16 % 2 ^ 8 = omega arith in
    let d₃ : b₃ ≡ word / 2 ^ 24 % 2 ^ 8 = omega arith in
    rw (s.0, s.1.0, s.1.1.0, s.1.1.1.0, load_insn_loop)
      (rw (e₀, e₁, e₂, e₃)
        (ap ok (
          or_bytes b₀ b₁ b₂ q (omega arith) (omega arith) (omega arith)
          ∙ rw (d₂, d₃) (word_bytes word small))))

load_insn_loop-unmapped :
    (mem : Map) (pc rounds n cur v retval shift : ℕ)
    → n < rounds
    → cur < 2 ^ 64
    → Stores mem cur n v
    → find mem ((cur + n) % 2 ^ 64) ≡ none
    → load_insn_loop mem pc rounds cur retval shift ≡ trap (invalid_address pc ((cur + n) % 2 ^ 64))
unfolding load_insn_loop
load_insn_loop-unmapped mem pc zero n cur v retval shift lt h s e = absurd (omega arith)
load_insn_loop-unmapped mem pc (suc rounds) zero cur v retval shift lt h s e =
    let here : (cur + 0) % 2 ^ 64 ≡ cur = omega arith in
    rw here (rw (rw here at e, load_insn_loop) refl)
load_insn_loop-unmapped mem pc (suc rounds) (suc n) cur v retval shift lt h s e =
    let there : (cur + suc n) % 2 ^ 64 ≡ (add64 cur 1 + n) % 2 ^ 64 = omega arith in
    rw there (
      rw (s.0, load_insn_loop)
        (load_insn_loop-unmapped mem pc rounds n (add64 cur 1) (v / 2 ^ 8) _ _ (omega arith)
          (omega arith) s.1 (rw there at e)))

-- Where the byte `n` places above `pc` is the first that is not mapped, `load_insn` throws
-- `invalid_address` with that address.
pub load_insn-unmapped :
    (m : Mmu) (pc n v : ℕ)
    → n < 4
    → pc < 2 ^ 64
    → Stores m.mem pc n v
    → find m.mem ((pc + n) % 2 ^ 64) ≡ none
    → load_insn m pc ≡ trap (invalid_address pc ((pc + n) % 2 ^ 64))
unfolding load_insn
load_insn-unmapped m pc n v lt h s e = load_insn_loop-unmapped m.mem pc 4 n pc v 0 0 lt h s e
