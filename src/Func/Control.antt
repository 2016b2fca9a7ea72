-- ===== src/Func/Control.antt =====
-- Where branches and `jal` go, for words of the B and J formats.
use riscv_isa_simulator.Base.{
  ℕ, ◌+◌, ◌%◌, ◌^◌, ◌<◌, ◌≡◌, arith, Bool, true, false, ◌==◌, Bool-cases, inl, inr, if◌then◌else◌,
  add64, bit_and, sext_xlen_lem, ok, trap, trap_instruction_address_misaligned,
}
use riscv_isa_simulator.Base.Bits.{bit_and_bit}
use riscv_isa_simulator.Structs.Encode.{IsSigned, Fixed, IsFixed, b_type, j_type}
use riscv_isa_simulator.Structs.Fields.{sb_imm-b_type, uj_imm-j_type}
use riscv_isa_simulator.Cpu.{Cpu, next_pc, set_pc, branch_target, jump_target, write_reg, write_rd}
use riscv_isa_simulator.Func.Branch.{branch, jump, rv64_jal}

-- `set_pc` on an even target.
set_pc_lem :
    (x : ℕ)
    → x < 2 ^ 64
    → x % 2 ≡ 0
    → set_pc x ≡ (if x % 4 == 0 then ok x else trap (trap_instruction_address_misaligned x))
unfolding set_pc
set_pc_lem x h even =
    let bit = bit_and_bit 1 x in
    elim (Bool-cases (x % 4 == 0)) [
      | inl aligned ↦
          let clear : (bit_and x 2 == 0) ≡ true = ground arith in
          rw (clear, aligned, sext_xlen_lem x h)
      | inr misaligned ↦ let set : (bit_and x 2 == 0) ≡ false = ground arith in rw (set, misaligned)
    ]

next_pc_lem : (pc : ℕ) → next_pc pc ≡ (pc + 4) % 2 ^ 64
unfolding next_pc
next_pc_lem pc = sext_xlen_lem (add64 pc 4) (omega arith)

module _ {W : Type 0} (p : Cpu W) (pc : ℕ) (f : Fixed) (v : IsFixed f) (imm : ℕ) where
  -- From a program counter that is a multiple of 4, a conditional branch of the B format, with an
  -- even offset of 13 bits, goes to `pc + imm` if it is taken and that is a multiple of 4, throws
  -- if it is taken and that is not, and goes to `pc + 4` otherwise; the state stays.
  pub branch_lem :
      (taken : Bool)
      → pc % 4 ≡ 0
      → IsSigned 12 imm
      → imm % 2 ≡ 0
      → branch taken p (b_type f imm) pc ≡ (
          if taken
          then (if imm % 4 == 0
              then ok ((pc + imm) % 2 ^ 64, p)
              else trap (trap_instruction_address_misaligned ((pc + imm) % 2 ^ 64)))
          else ok ((pc + 4) % 2 ^ 64, p))
  unfolding branch branch_target
  branch_lem true aligned h even =
      let target = (pc + imm) % 2 ^ 64 in
      let same : (target % 4 == 0) ≡ (imm % 4 == 0) = ground arith in
      rw ((sb_imm-b_type f v imm h even).0, set_pc_lem target (omega arith) (omega arith), same)
        (elim (Bool-cases (imm % 4 == 0)) [ inl t ↦ rw t | inr t ↦ rw t ])
  branch_lem false aligned h even = rw (next_pc_lem pc)

  -- From a program counter that is a multiple of 4, `rv64_jal` on a word of the J format, with an
  -- even offset of 21 bits, goes to `pc + imm` and writes `pc + 4` to the register of the word, if
  -- the offset is a multiple of 4, and throws without a write if it is not.
  pub rv64_jal_lem :
      pc % 4 ≡ 0
      → IsSigned 20 imm
      → imm % 2 ≡ 0
      → rv64_jal p (j_type f imm) pc ≡ (
          if imm % 4 == 0
          then ok ((pc + imm) % 2 ^ 64, write_reg p f.rd ((pc + 4) % 2 ^ 64))
          else trap (trap_instruction_address_misaligned ((pc + imm) % 2 ^ 64)))
  unfolding rv64_jal jump jump_target write_rd
  rv64_jal_lem aligned h even =
      let target = (pc + imm) % 2 ^ 64 in
      let same : (target % 4 == 0) ≡ (imm % 4 == 0) = ground arith in
      let (offset, number) = uj_imm-j_type f v imm h even in
      rw (offset, number, set_pc_lem target (omega arith) (omega arith), same, next_pc_lem pc)
        (elim (Bool-cases (imm % 4 == 0)) [ inl t ↦ rw t | inr t ↦ rw t ])
