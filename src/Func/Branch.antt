-- ===== src/Func/Branch.antt =====
-- The branches and jumps of func.h, and `fence`.
use riscv_isa_simulator.Base.{
  ℕ, Bool, not, ◌==◌, if◌then◌else◌, ltb, bit_and, add64, not64, ok, ◌>>=◌,
}
use riscv_isa_simulator.Base.Int.{ltb_signed}
use riscv_isa_simulator.Structs.{i_imm}
use riscv_isa_simulator.Cpu.{
  InsnFunc, next_pc, set_pc, rs1_of, rs2_of, write_rd, branch_target, jump_target,
}

module _ {W : Type 0} where
  -- `if (taken) set_pc(BRANCH_TARGET);` and the return of `npc`
  unfoldable pub branch : Bool → InsnFunc W
  branch taken p insn pc = do
    npc ← if taken then set_pc (branch_target pc insn) else ok (next_pc pc)
    ok (npc, p)

  -- `set_pc(target); WRITE_RD(tmp);` with the address of the next instruction in `tmp`
  unfoldable pub jump : ℕ → InsnFunc W
  jump target p insn pc = do
    let tmp = next_pc pc
    npc ← set_pc target
    ok (npc, write_rd p insn tmp)

module _ {W : Type 0} where
  unfoldable pub rv64_beq : InsnFunc W
  unfolding branch
  rv64_beq p insn pc = branch (rs1_of p insn == rs2_of p insn) p insn pc

  unfoldable pub rv64_bne : InsnFunc W
  unfolding branch
  rv64_bne p insn pc = branch (not (rs1_of p insn == rs2_of p insn)) p insn pc

  unfoldable pub rv64_blt : InsnFunc W
  unfolding branch
  rv64_blt p insn pc = branch (ltb_signed (rs1_of p insn) (rs2_of p insn)) p insn pc

  unfoldable pub rv64_bge : InsnFunc W
  unfolding branch
  rv64_bge p insn pc = branch (not (ltb_signed (rs1_of p insn) (rs2_of p insn))) p insn pc

  unfoldable pub rv64_bltu : InsnFunc W
  unfolding branch
  rv64_bltu p insn pc = branch (ltb (rs1_of p insn) (rs2_of p insn)) p insn pc

  unfoldable pub rv64_bgeu : InsnFunc W
  unfolding branch
  rv64_bgeu p insn pc = branch (not (ltb (rs1_of p insn) (rs2_of p insn))) p insn pc

  unfoldable pub rv64_jal : InsnFunc W
  unfolding jump
  rv64_jal p insn pc = jump (jump_target pc insn) p insn pc

  unfoldable pub rv64_jalr : InsnFunc W
  unfolding jump
  rv64_jalr p insn pc = jump (bit_and (add64 (rs1_of p insn) (i_imm insn)) (not64 1)) p insn pc

  unfoldable pub rv64_fence : InsnFunc W
  rv64_fence p insn pc = ok (next_pc pc, p)
