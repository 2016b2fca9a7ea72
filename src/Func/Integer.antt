-- ===== src/Func/Integer.antt =====
-- What the instruction set says of the integer instructions, as arithmetic on the numbers in the
-- registers. `sltu` and `sllw` do something else (Func/Defects).
pub mod Shift
pub mod Law
pub mod Immediate
use native.Mathlib.Nat.{div-le_self, div-mul-le_self, div-add-mod', mod-lt, one-le-pow}
use native.Mathlib.Numerals.{unary_clauses}
use mathlib.Core.Path.{subst}
use riscv_isa_simulator.Base.{
  ap, sym, ◌∙◌, ℕ, zero, suc, ◌+◌, ◌-◌, ◌*◌, ◌/◌, ◌%◌, ◌^◌, ◌≤◌, ◌<◌, ◌≡◌, refl, arith, ◌⊎◌, inl,
  inr, Bool, true, false, Bool-cases, ltb, ltb→lt, ltb-false→le, to_nat, if◌then◌else◌, bit_and,
  xlen, add64, sub64, shl64, shr, sar64, not64, sext32, zext32, sext_xlen, zext_xlen, sext_xlen_lem,
  zext_xlen_lem, sar64-lt, sext_xlen-lt, sext32-lt, sext32_low, ok,
}
use riscv_isa_simulator.Base.Bits.{bit_and_mask}
use riscv_isa_simulator.Base.Int.{ℤ, pos, negsuc, pos_part, neg_part, signed64, ltb_signed, ◌<ℤ◌}
use riscv_isa_simulator.Structs.{Insn, i_imm}
use riscv_isa_simulator.Cpu.{Cpu, InsnFunc, next_pc, rs1_of, rs2_of, write_rd}
use riscv_isa_simulator.Func.AluImm.{rv64_addi, rv64_slti}
use riscv_isa_simulator.Func.Word.{rv64_addiw, rv64_addw, rv64_subw, rv64_srlw, rv64_sraw}
use riscv_isa_simulator.Func.Alu.{rv64_add, rv64_sub, rv64_sll, rv64_slt, rv64_srl, rv64_sra}

abbrev pub Is64 : ℕ → Type 0
Is64 v = v < 2 ^ 64

pub data Op : Type 0 where
  add sub sll slt srl sra addw subw srlw sraw addi slti addiw : Op

-- A 32-bit number, sign-extended.
abbrev pub IsWord : ℕ → Type 0
IsWord r = (r < 2 ^ 31) ⊎ ((2 ^ 64 - 2 ^ 31 ≤ r) × (r < 2 ^ 64))

-- The signed number `r` is the signed number `a` divided by `q`, rounded down.
abbrev pub Floor : ℤ → ℕ → ℤ → Type 0
Floor x q y =
    (pos_part y * q + neg_part x ≤ pos_part x + neg_part y * q)
    × (pos_part x + neg_part y * q < pos_part y * q + neg_part x + q)

abbrev pub IsFloor : ℕ → ℕ → ℕ → Type 0
IsFloor a q r = Floor (signed64 a) q (signed64 r)

-- What the instruction writes, for the operands `a` and `b`.
abbrev pub Gives : Op → ℕ → ℕ → ℕ → Type 0
Gives add a b r = r ≡ (a + b) % 2 ^ 64
Gives sub a b r = (r < 2 ^ 64) × ((r + b) % 2 ^ 64 ≡ a)
Gives sll a b r = r ≡ a * 2 ^ (b % 64) % 2 ^ 64
Gives slt a b r = ((r ≡ 1) × (signed64 a <ℤ signed64 b)) ⊎ ((r ≡ 0) × ¬ (signed64 a <ℤ signed64 b))
Gives srl a b r = r ≡ a / 2 ^ (b % 64)
Gives sra a b r = (r < 2 ^ 64) × IsFloor a (2 ^ (b % 64)) r
Gives addw a b r = IsWord r × (r % 2 ^ 32 ≡ (a + b) % 2 ^ 32)
Gives subw a b r = IsWord r × ((r + b) % 2 ^ 32 ≡ a % 2 ^ 32)
Gives srlw a b r = IsWord r × (r % 2 ^ 32 ≡ a % 2 ^ 32 / 2 ^ (b % 32))
Gives sraw a b r = IsWord r × IsFloor (sext32 a) (2 ^ (b % 32)) r
Gives addi a b r = r ≡ (a + b) % 2 ^ 64
Gives slti a b r = ((r ≡ 1) × (signed64 a <ℤ signed64 b)) ⊎ ((r ≡ 0) × ¬ (signed64 a <ℤ signed64 b))
Gives addiw a b r = IsWord r × (r % 2 ^ 32 ≡ (a + b) % 2 ^ 32)

module _ {W : Type 0} where
  abbrev pub perform : Op → InsnFunc W
  perform add = rv64_add
  perform sub = rv64_sub
  perform sll = rv64_sll
  perform slt = rv64_slt
  perform srl = rv64_srl
  perform sra = rv64_sra
  perform addw = rv64_addw
  perform subw = rv64_subw
  perform srlw = rv64_srlw
  perform sraw = rv64_sraw
  perform addi = rv64_addi
  perform slti = rv64_slti
  perform addiw = rv64_addiw

  -- The second operand: a register or the immediate.
  abbrev pub operand : Op → Cpu W → Insn → ℕ
  operand addi p insn = i_imm insn
  operand slti p insn = i_imm insn
  operand addiw p insn = i_imm insn
  operand _ p insn = rs2_of p insn
