-- ===== src/Func/AluImm.antt =====
-- The register-immediate instructions of func.h, with `lui` and `auipc`.
use riscv_isa_simulator.Base.{
  if◌then◌else◌, ltb, to_nat, bit_and, bit_or, bit_xor, xlen, add64, shl64, shr, sar64, sext_xlen,
  zext_xlen, ok, trap, trap_illegal_instruction,
}
use riscv_isa_simulator.Base.Int.{ltb_signed}
use riscv_isa_simulator.Structs.{i_imm, u_imm, shamt}
use riscv_isa_simulator.Cpu.{InsnFunc, next_pc, rs1_of, write_rd}

module _ {W : Type 0} where
  unfoldable pub rv64_addi : InsnFunc W
  rv64_addi p insn pc =
      ok (next_pc pc, write_rd p insn (sext_xlen (add64 (rs1_of p insn) (i_imm insn))))

  unfoldable pub rv64_slli : InsnFunc W
  rv64_slli p insn pc =
      if ltb (shamt insn) xlen
      then ok (next_pc pc, write_rd p insn (sext_xlen (shl64 (rs1_of p insn) (shamt insn))))
      else trap trap_illegal_instruction

  unfoldable pub rv64_slti : InsnFunc W
  rv64_slti p insn pc =
      ok (next_pc pc, write_rd p insn (to_nat (ltb_signed (rs1_of p insn) (i_imm insn))))

  unfoldable pub rv64_sltiu : InsnFunc W
  rv64_sltiu p insn pc =
      ok (next_pc pc, write_rd p insn (to_nat (ltb (rs1_of p insn) (i_imm insn))))

  unfoldable pub rv64_xori : InsnFunc W
  rv64_xori p insn pc = ok (next_pc pc, write_rd p insn (bit_xor (i_imm insn) (rs1_of p insn)))

  unfoldable pub rv64_srli : InsnFunc W
  rv64_srli p insn pc =
      if ltb (shamt insn) xlen
      then ok
          (next_pc pc, write_rd p insn (sext_xlen (shr (zext_xlen (rs1_of p insn)) (shamt insn))))
      else trap trap_illegal_instruction

  unfoldable pub rv64_srai : InsnFunc W
  rv64_srai p insn pc =
      if ltb (shamt insn) xlen
      then ok
          (next_pc pc, write_rd p insn (sext_xlen (sar64 (sext_xlen (rs1_of p insn)) (shamt insn))))
      else trap trap_illegal_instruction

  unfoldable pub rv64_ori : InsnFunc W
  rv64_ori p insn pc = ok (next_pc pc, write_rd p insn (bit_or (i_imm insn) (rs1_of p insn)))

  unfoldable pub rv64_andi : InsnFunc W
  rv64_andi p insn pc = ok (next_pc pc, write_rd p insn (bit_and (i_imm insn) (rs1_of p insn)))

  unfoldable pub rv64_auipc : InsnFunc W
  rv64_auipc p insn pc = ok (next_pc pc, write_rd p insn (sext_xlen (add64 (u_imm insn) pc)))

  unfoldable pub rv64_lui : InsnFunc W
  rv64_lui p insn pc = ok (next_pc pc, write_rd p insn (u_imm insn))
