-- ===== src/Func/Word.antt =====
-- The 32-bit instructions of func.h. The shift of an `int32_t` or `uint32_t` by 32 or more, which C++
-- leaves undefined, is taken as the shift of the same number at 64 bits.
use riscv_isa_simulator.Base.{
  ◌-◌, bit_and, xlen, add64, sub64, shl64, shr, sar64, sext32, zext32, sext_xlen, ok,
}
use riscv_isa_simulator.Structs.{i_imm, shamt}
use riscv_isa_simulator.Cpu.{InsnFunc, next_pc, rs1_of, rs2_of, write_rd}

module _ {W : Type 0} where
  unfoldable pub rv64_addw : InsnFunc W
  rv64_addw p insn pc =
      ok (next_pc pc, write_rd p insn (sext32 (add64 (rs1_of p insn) (rs2_of p insn))))

  unfoldable pub rv64_subw : InsnFunc W
  rv64_subw p insn pc =
      ok (next_pc pc, write_rd p insn (sext32 (sub64 (rs1_of p insn) (rs2_of p insn))))

  unfoldable pub rv64_sllw : InsnFunc W
  rv64_sllw p insn pc = ok (
    next_pc pc,
    write_rd p insn (sext_xlen (shl64 (rs1_of p insn) (bit_and (rs2_of p insn) (xlen - 1)))),
  )

  unfoldable pub rv64_srlw : InsnFunc W
  rv64_srlw p insn pc = ok (
    next_pc pc,
    write_rd p insn (sext32 (shr (zext32 (rs1_of p insn)) (bit_and (rs2_of p insn) 0x1F))),
  )

  unfoldable pub rv64_sraw : InsnFunc W
  rv64_sraw p insn pc = ok (
    next_pc pc,
    write_rd p insn (sext32 (sar64 (sext32 (rs1_of p insn)) (bit_and (rs2_of p insn) 0x1F))),
  )

  unfoldable pub rv64_addiw : InsnFunc W
  rv64_addiw p insn pc =
      ok (next_pc pc, write_rd p insn (sext32 (add64 (i_imm insn) (rs1_of p insn))))

  unfoldable pub rv64_slliw : InsnFunc W
  rv64_slliw p insn pc =
      ok (next_pc pc, write_rd p insn (sext32 (shl64 (rs1_of p insn) (shamt insn))))

  unfoldable pub rv64_srliw : InsnFunc W
  rv64_srliw p insn pc =
      ok (next_pc pc, write_rd p insn (sext32 (shr (zext32 (rs1_of p insn)) (shamt insn))))

  unfoldable pub rv64_sraiw : InsnFunc W
  rv64_sraiw p insn pc =
      ok (next_pc pc, write_rd p insn (sext32 (sar64 (sext32 (rs1_of p insn)) (shamt insn))))
