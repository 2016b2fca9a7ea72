-- ===== src/Func/Alu.antt =====
-- The register-register instructions of func.h.
use riscv_isa_simulator.Base.{
  ◌-◌, ltb, to_nat, bit_and, bit_or, bit_xor, xlen, add64, sub64, shl64, shr, sar64, sext_xlen,
  zext_xlen, ok,
}
use riscv_isa_simulator.Base.Int.{ltb_signed}
use riscv_isa_simulator.Structs.{i_imm}
use riscv_isa_simulator.Cpu.{InsnFunc, next_pc, rs1_of, rs2_of, write_rd}

module _ {W : Type 0} where
  unfoldable pub rv64_add : InsnFunc W
  rv64_add p insn pc =
      ok (next_pc pc, write_rd p insn (sext_xlen (add64 (rs1_of p insn) (rs2_of p insn))))

  unfoldable pub rv64_sub : InsnFunc W
  rv64_sub p insn pc =
      ok (next_pc pc, write_rd p insn (sext_xlen (sub64 (rs1_of p insn) (rs2_of p insn))))

  unfoldable pub rv64_sll : InsnFunc W
  rv64_sll p insn pc = ok (
    next_pc pc,
    write_rd p insn (sext_xlen (shl64 (rs1_of p insn) (bit_and (rs2_of p insn) (xlen - 1)))),
  )

  unfoldable pub rv64_slt : InsnFunc W
  rv64_slt p insn pc =
      ok (next_pc pc, write_rd p insn (to_nat (ltb_signed (rs1_of p insn) (rs2_of p insn))))

  unfoldable pub rv64_sltu : InsnFunc W
  rv64_sltu p insn pc = ok (next_pc pc, write_rd p insn (to_nat (ltb (rs1_of p insn) (i_imm insn))))

  unfoldable pub rv64_xor : InsnFunc W
  rv64_xor p insn pc = ok (next_pc pc, write_rd p insn (bit_xor (rs1_of p insn) (rs2_of p insn)))

  unfoldable pub rv64_srl : InsnFunc W
  rv64_srl p insn pc = ok (
    next_pc pc,
    write_rd p insn
        (sext_xlen (shr (zext_xlen (rs1_of p insn)) (bit_and (rs2_of p insn) (xlen - 1)))),
  )

  unfoldable pub rv64_sra : InsnFunc W
  rv64_sra p insn pc = ok (
    next_pc pc,
    write_rd p insn
        (sext_xlen (sar64 (sext_xlen (rs1_of p insn)) (bit_and (rs2_of p insn) (xlen - 1)))),
  )

  unfoldable pub rv64_or : InsnFunc W
  rv64_or p insn pc = ok (next_pc pc, write_rd p insn (bit_or (rs1_of p insn) (rs2_of p insn)))

  unfoldable pub rv64_and : InsnFunc W
  rv64_and p insn pc = ok (next_pc pc, write_rd p insn (bit_and (rs1_of p insn) (rs2_of p insn)))
