-- ===== src/Func/Integer/Law.antt =====
-- Thirteen integer instructions of func.h, those of `Op`, do what the instruction set says.
use native.Mathlib.Nat.{div-le_self, add_comm}
use mathlib.Core.Path.{subst}
use riscv_isa_simulator.Base.{
  ap, sym, ◌∙◌, ℕ, ◌-◌, ◌/◌, ◌%◌, ◌^◌, ◌≡◌, refl, arith, inl, inr, Bool-cases, ltb→lt, ltb-false→le,
  to_nat, bit_and, xlen, add64, sub64, shl64, shr, sar64, sext32, zext32, sext_xlen, zext_xlen,
  sext_xlen_lem, zext_xlen_lem, sar64-lt, sext_xlen-lt, sext32-lt, sext32_low, ok,
}
use riscv_isa_simulator.Base.Bits.{bit_and_mask}
use riscv_isa_simulator.Base.Int.{ltb_signed}
use riscv_isa_simulator.Structs.{Insn, i_imm}
use riscv_isa_simulator.Func.AluImm.{rv64_addi, rv64_slti}
use riscv_isa_simulator.Func.Word.{rv64_addiw, rv64_addw, rv64_subw, rv64_srlw, rv64_sraw}
use riscv_isa_simulator.Func.Integer.{
  Is64, operand, addi, slti, addiw, Op, add, sub, sll, slt, srl, sra, addw, subw, srlw, sraw,
  IsFloor, Gives, perform,
}
use riscv_isa_simulator.Cpu.{Cpu, next_pc, rs1_of, rs2_of, write_rd}
use riscv_isa_simulator.Func.Alu.{rv64_add, rv64_sub, rv64_sll, rv64_slt, rv64_srl, rv64_sra}
use riscv_isa_simulator.Func.Integer.Shift.{sext32-IsWord, sext32_same, sar64-IsFloor, sar64-IsWord}

add_value : (a b : ℕ) → Is64 a → Is64 b → Gives add a b (sext_xlen (add64 a b))
add_value a b ha hb = sext_xlen_lem (add64 a b) (omega arith)

sub_value : (a b : ℕ) → Is64 a → Is64 b → Gives sub a b (sext_xlen (sub64 a b))
sub_value a b ha hb =
    (sext_xlen-lt _, let e = sext_xlen_lem (sub64 a b) (omega arith) in omega arith)

-- The shift amount of the 64-bit shifts, and of the 32-bit ones.
amount : (b : ℕ) → bit_and b (xlen - 1) ≡ b % 64
amount b = bit_and_mask 6 b

word_amount : (b : ℕ) → bit_and b 0x1F ≡ b % 32
word_amount b = bit_and_mask 5 b

pub sll_value : (a b : ℕ) → Gives sll a b (sext_xlen (shl64 a (bit_and b (xlen - 1))))
sll_value a b =
    sext_xlen_lem (shl64 a (bit_and b (xlen - 1))) (omega arith) ∙ ap (shl64 a) (amount b)

slt_value : (a b : ℕ) → Gives slt a b (to_nat (ltb_signed a b))
slt_value a b = elim (Bool-cases (ltb_signed a b)) [
  | inl less ↦ inl (ap to_nat less, ltb→lt _ _ less)
  | inr not_less ↦
      inr (ap to_nat not_less, λ h. absurd (omega (arith, ltb-false→le _ _ not_less, h)))
]

pub srl_value :
    (a b : ℕ) → Is64 a → Gives srl a b (sext_xlen (shr (zext_xlen a) (bit_and b (xlen - 1))))
srl_value a b ha =
    let s = bit_and b (xlen - 1) in
    let e = zext_xlen_lem a ha in
    ap (λ t. sext_xlen (shr t s)) e
    ∙ sext_xlen_lem (shr a s) (omega (arith, div-le_self a (2 ^ s)))
    ∙ ap (shr a) (amount b)

pub sra_value :
    (a b : ℕ) → Is64 a → Gives sra a b (sext_xlen (sar64 (sext_xlen a) (bit_and b (xlen - 1))))
sra_value a b ha =
    let s = bit_and b (xlen - 1) in
    let e : sext_xlen (sar64 (sext_xlen a) s) ≡ sar64 a (b % 64) =
      ap (λ t. sext_xlen (sar64 t s)) (sext_xlen_lem a ha)
      ∙ sext_xlen_lem (sar64 a s) (sar64-lt a s ha)
      ∙ ap (sar64 a) (amount b) in
    (sext_xlen-lt _, subst (IsFloor a (2 ^ (b % 64))) (sym e) (sar64-IsFloor a (b % 64) ha))

addw_value : (a b : ℕ) → Gives addw a b (sext32 (add64 a b))
addw_value a b = (sext32-IsWord _, sext32_low (add64 a b) ∙ omega arith)

subw_value : (a b : ℕ) → Is64 a → Is64 b → Gives subw a b (sext32 (sub64 a b))
subw_value a b ha hb = (sext32-IsWord _, let e = sext32_low (sub64 a b) in omega arith)

srlw_value : (a b : ℕ) → Gives srlw a b (sext32 (shr (zext32 a) (bit_and b 0x1F)))
srlw_value a b =
    let s = bit_and b 0x1F in
    let d = zext32 a / 2 ^ s in
    let e : d % 2 ^ 32 ≡ d = omega (arith, div-le_self (zext32 a) (2 ^ s)) in
    (sext32-IsWord _, sext32_low d ∙ e ∙ ap (shr (zext32 a)) (word_amount b))

sraw_value : (a b : ℕ) → Gives sraw a b (sext32 (sar64 (sext32 a) (bit_and b 0x1F)))
sraw_value a b =
    let s = bit_and b 0x1F in
    let e : sext32 (sar64 (sext32 a) s) ≡ sar64 (sext32 a) (b % 32) =
      sext32_same (sar64 (sext32 a) s) (sar64-IsWord (sext32 a) s (sext32-IsWord a))
      ∙ ap (sar64 (sext32 a)) (word_amount b) in
    (
      sext32-IsWord _,
      subst (IsFloor (sext32 a) (2 ^ (b % 32))) (sym e)
          (sar64-IsFloor (sext32 a) (b % 32) (sext32-lt a)),
    )

module _ {W : Type 0} where
  -- For 64-bit operands `add`, `sub`, `sll`, `slt`, `srl`, `sra`, `addw`, `subw`, `srlw`, `sraw` and, with the
  -- immediate as the second operand, `addi`, `slti` and `addiw` go to the next instruction and write
  -- what the instruction set gives for the two: sums and differences modulo 2 ^ 64, the signed
  -- comparison, shifts as products and quotients by the low 6 bits, rounded down where they are
  -- signed; and the same on the low 32 bits, sign-extended.
  pub integer_lem :
      (op : Op) (p : Cpu W) (insn : Insn) (pc : ℕ)
      → Is64 (rs1_of p insn)
      → Is64 (operand op p insn)
      → (r : ℕ) × (perform op p insn pc ≡ ok (next_pc pc, write_rd p insn r))
        × Gives op (rs1_of p insn) (operand op p insn) r
  unfolding rv64_addi rv64_slti rv64_addiw rv64_add rv64_sub rv64_sll rv64_slt rv64_srl rv64_sra
      rv64_addw rv64_subw rv64_srlw rv64_sraw
  integer_lem add p insn pc ha hb = (_, refl, add_value (rs1_of p insn) (rs2_of p insn) ha hb)
  integer_lem sub p insn pc ha hb = (_, refl, sub_value (rs1_of p insn) (rs2_of p insn) ha hb)
  integer_lem sll p insn pc ha hb = (_, refl, sll_value (rs1_of p insn) (rs2_of p insn))
  integer_lem slt p insn pc ha hb = (_, refl, slt_value (rs1_of p insn) (rs2_of p insn))
  integer_lem srl p insn pc ha hb = (_, refl, srl_value (rs1_of p insn) (rs2_of p insn) ha)
  integer_lem sra p insn pc ha hb = (_, refl, sra_value (rs1_of p insn) (rs2_of p insn) ha)
  integer_lem addw p insn pc ha hb = (_, refl, addw_value (rs1_of p insn) (rs2_of p insn))
  integer_lem subw p insn pc ha hb = (_, refl, subw_value (rs1_of p insn) (rs2_of p insn) ha hb)
  integer_lem srlw p insn pc ha hb = (_, refl, srlw_value (rs1_of p insn) (rs2_of p insn))
  integer_lem sraw p insn pc ha hb = (_, refl, sraw_value (rs1_of p insn) (rs2_of p insn))
  integer_lem addi p insn pc ha hb = (_, refl, add_value (rs1_of p insn) (i_imm insn) ha hb)
  integer_lem slti p insn pc ha hb = (_, refl, slt_value (rs1_of p insn) (i_imm insn))
  integer_lem addiw p insn pc ha hb =
      let (word, low) = addw_value (i_imm insn) (rs1_of p insn) in
      (_, refl, (word, low ∙ ap (λ n. n % 2 ^ 32) (add_comm (i_imm insn) (rs1_of p insn))))
