-- ===== src/Func/Integer/Immediate.antt =====
-- func.h: the shifts by an immediate amount, on the words that decode as them.
use native.Mathlib.Nat.{div-le_self}
use mathlib.Core.Path.{subst}
use riscv_isa_simulator.Base.{
  ap, sym, ◌∙◌, ℕ, ◌*◌, ◌/◌, ◌%◌, ◌^◌, ◌<◌, ◌≡◌, refl, arith, bit_and, ltb, if◌then◌else◌, xlen,
  sext_xlen, shl64, shr, sar64, sext32, zext32, sext32-lt, sext32_low, Result, ok,
}
use riscv_isa_simulator.Base.Bits.{bit_and_bit, bit_and_assoc}
use riscv_isa_simulator.Structs.{Insn, i_imm, shamt}
use riscv_isa_simulator.Structs.Fields.{shamt_lem}
use riscv_isa_simulator.Cpu.{Cpu, InsnFunc, next_pc, rs1_of, write_rd}
use riscv_isa_simulator.Encoding.{
  Encoding, slli_encoding, srli_encoding, srai_encoding, slliw_encoding, srliw_encoding,
  sraiw_encoding,
}
use riscv_isa_simulator.Func.AluImm.{rv64_slli, rv64_srli, rv64_srai}
use riscv_isa_simulator.Func.Word.{rv64_slliw, rv64_srliw, rv64_sraiw}
use riscv_isa_simulator.Func.Integer.{Is64, IsWord, IsFloor}
use riscv_isa_simulator.Func.Integer.Shift.{sext32-IsWord, sext32_same, sar64-IsFloor, sar64-IsWord}
use riscv_isa_simulator.Func.Integer.Law.{sll_value, srl_value, sra_value}

pub data ShiftOp : Type 0 where
  slli srli srai slliw srliw sraiw : ShiftOp

abbrev pub encoding : ShiftOp → Encoding
encoding slli = slli_encoding
encoding srli = srli_encoding
encoding srai = srai_encoding
encoding slliw = slliw_encoding
encoding srliw = srliw_encoding
encoding sraiw = sraiw_encoding

-- Whether the word decodes as the instruction.
abbrev pub Decodes : ShiftOp → Insn → Type 0
Decodes op insn = bit_and insn (encoding op).mask ≡ (encoding op).match

-- The amount in the word: six bits from bit 20 on, and five of the 32-bit instructions.
abbrev pub amount_of : ShiftOp → Insn → ℕ
amount_of slli insn = insn / 2 ^ 20 % 2 ^ 6
amount_of srli insn = insn / 2 ^ 20 % 2 ^ 6
amount_of srai insn = insn / 2 ^ 20 % 2 ^ 6
amount_of _ insn = insn / 2 ^ 20 % 2 ^ 5

-- What the instruction writes for the number `a` in RS1 and the amount `k`.
abbrev pub Shifted : ShiftOp → ℕ → ℕ → ℕ → Type 0
Shifted slli a k r = r ≡ a * 2 ^ k % 2 ^ 64
Shifted srli a k r = r ≡ a / 2 ^ k
Shifted srai a k r = (r < 2 ^ 64) × IsFloor a (2 ^ k) r
Shifted slliw a k r = IsWord r × (r % 2 ^ 32 ≡ a * 2 ^ k % 2 ^ 32)
Shifted srliw a k r = IsWord r × (r % 2 ^ 32 ≡ a % 2 ^ 32 / 2 ^ k)
Shifted sraiw a k r = IsWord r × IsFloor (sext32 a) (2 ^ k) r

slliw_value : (a k : ℕ) → Shifted slliw a k (sext32 (shl64 a k))
slliw_value a k = (sext32-IsWord _, sext32_low (shl64 a k) ∙ omega arith)

srliw_value : (a k : ℕ) → Shifted srliw a k (sext32 (shr (zext32 a) k))
srliw_value a k =
    let d = zext32 a / 2 ^ k in
    let e : d % 2 ^ 32 ≡ d = omega (arith, div-le_self (zext32 a) (2 ^ k)) in
    (sext32-IsWord _, sext32_low d ∙ e)

sraiw_value : (a k : ℕ) → Shifted sraiw a k (sext32 (sar64 (sext32 a) k))
sraiw_value a k =
    let e = sext32_same (sar64 (sext32 a) k) (sar64-IsWord (sext32 a) k (sext32-IsWord a)) in
    (
      sext32-IsWord _,
      subst (IsFloor (sext32 a) (2 ^ k)) (sym e) (sar64-IsFloor (sext32 a) k (sext32-lt a)),
    )

-- The bits of the amount in the immediate.
i_imm_low : (insn : Insn) → Is64 insn → i_imm insn % 64 ≡ insn / 2 ^ 20 % 2 ^ 6
unfolding i_imm sar64
i_imm_low insn h = ground arith

shamt_bits : (insn : Insn) → Is64 insn → shamt insn ≡ insn / 2 ^ 20 % 2 ^ 6
shamt_bits insn h = shamt_lem insn ∙ i_imm_low insn h

-- A mask with bit 25 fixes that bit.
clear_bit :
    (insn mask match : ℕ)
    → bit_and mask (2 ^ 25) ≡ 2 ^ 25
    → bit_and match (2 ^ 25) ≡ 0
    → bit_and insn mask ≡ match
    → insn / 2 ^ 25 % 2 ≡ 0
clear_bit insn mask match in_mask out h =
    let e : bit_and insn (2 ^ 25) ≡ 0 =
      ap (bit_and insn) (sym in_mask)
      ∙ sym (bit_and_assoc insn mask (2 ^ 25))
      ∙ ap (λ t. bit_and t (2 ^ 25)) h
      ∙ out in
    omega (arith, bit_and_bit 25 insn, e)

word_shamt :
    (insn mask match : ℕ)
    → Is64 insn
    → bit_and mask (2 ^ 25) ≡ 2 ^ 25
    → bit_and match (2 ^ 25) ≡ 0
    → bit_and insn mask ≡ match
    → shamt insn ≡ insn / 2 ^ 20 % 2 ^ 5
word_shamt insn mask match fits in_mask out h =
    omega (arith, shamt_bits insn fits, clear_bit insn mask match in_mask out h)

module _ {W : Type 0} where
  abbrev pub shift : ShiftOp → InsnFunc W
  shift slli = rv64_slli
  shift srli = rv64_srli
  shift srai = rv64_srai
  shift slliw = rv64_slliw
  shift srliw = rv64_srliw
  shift sraiw = rv64_sraiw

  module _ (p : Cpu W) (insn : Insn) (pc : ℕ) where
    -- `require(SHAMT < xlen)` holds.
    required : (r s : Result (ℕ × Cpu W)) → (if ltb (shamt insn) xlen then r else s) ≡ r
    required r s = ground (arith, shamt_lem insn)

    -- On a word that decodes as a shift by an immediate, `rv64_slli`, `rv64_srli`, `rv64_srai`,
    -- `rv64_slliw`, `rv64_srliw` and `rv64_sraiw` go to the next instruction, never to the trap, and
    -- write RS1 shifted by the amount in the word: a product modulo 2 ^ 64, a quotient, or a signed
    -- quotient rounded down, and for the last three the same on the low 32 bits, sign-extended. The
    -- amount is the six bits of the word from bit 20 on; for the last three it is the five, as their
    -- masks fix the sixth to 0, and no 32-bit number is shifted by 32 or more. The word and RS1 are
    -- 64-bit numbers.
    pub shift_lem :
        (op : ShiftOp)
        → Is64 insn
        → Is64 (rs1_of p insn)
        → Decodes op insn
        → (r : ℕ) × (shift op p insn pc ≡ ok (next_pc pc, write_rd p insn r))
          × (shamt insn ≡ amount_of op insn)
          × Shifted op (rs1_of p insn) (amount_of op insn) r
    unfolding rv64_slli rv64_srli rv64_srai rv64_slliw rv64_srliw rv64_sraiw shamt
    shift_lem slli fits ha d =
        let a = rs1_of p insn in
        (
          _,
          required _ _,
          shamt_bits insn fits,
          sll_value a (i_imm insn) ∙ ap (shl64 a) (i_imm_low insn fits),
        )
    shift_lem srli fits ha d =
        let a = rs1_of p insn in
        (
          _,
          required _ _,
          shamt_bits insn fits,
          srl_value a (i_imm insn) ha ∙ ap (shr a) (i_imm_low insn fits),
        )
    shift_lem srai fits ha d =
        let a = rs1_of p insn in
        let r = sext_xlen (sar64 (sext_xlen a) (shamt insn)) in
        let (small, floor) = sra_value a (i_imm insn) ha in
        (
          r,
          required _ _,
          shamt_bits insn fits,
          (small, subst (λ k. IsFloor a (2 ^ k) r) (i_imm_low insn fits) floor),
        )
    shift_lem slliw fits ha d =
        let a = rs1_of p insn in
        let e = word_shamt insn slliw_encoding.mask slliw_encoding.match fits refl refl d in
        (
          _,
          refl,
          e,
          subst (λ k. Shifted slliw a k (sext32 (shl64 a (shamt insn)))) e (slliw_value a _),
        )
    shift_lem srliw fits ha d =
        let a = rs1_of p insn in
        let e = word_shamt insn srliw_encoding.mask srliw_encoding.match fits refl refl d in
        (
          _,
          refl,
          e,
          subst (λ k. Shifted srliw a k (sext32 (shr (zext32 a) (shamt insn)))) e (srliw_value a _),
        )
    shift_lem sraiw fits ha d =
        let a = rs1_of p insn in
        let e = word_shamt insn sraiw_encoding.mask sraiw_encoding.match fits refl refl d in
        (
          _,
          refl,
          e,
          subst (λ k. Shifted sraiw a k (sext32 (sar64 (sext32 a) (shamt insn)))) e
              (sraiw_value a _),
        )
