-- ===== src/Func/Memory.antt =====
-- The loads and stores of func.h.
use riscv_isa_simulator.Base.{add64, ok, ◌>>=◌}
use riscv_isa_simulator.Structs.{i_imm, s_imm}
use riscv_isa_simulator.Mmu
use riscv_isa_simulator.Cpu.{InsnFunc, next_pc, rs1_of, rs2_of, frs2_of, write_rd, write_frd}
use riscv_isa_simulator.Cpu.Host.{Host}

module _ {W : Type 0} (host : Host W) where
  unfoldable pub rv64_lb : InsnFunc W
  rv64_lb p insn pc = do
    value ← Mmu.read_int8 host.end_key p.mmu (add64 (rs1_of p insn) (i_imm insn))
    ok (next_pc pc, write_rd p insn value)

  unfoldable pub rv64_lh : InsnFunc W
  rv64_lh p insn pc = do
    value ← Mmu.read_int16 host.end_key p.mmu (add64 (rs1_of p insn) (i_imm insn))
    ok (next_pc pc, write_rd p insn value)

  unfoldable pub rv64_lw : InsnFunc W
  rv64_lw p insn pc = do
    value ← Mmu.read_int32 host.end_key p.mmu (add64 (rs1_of p insn) (i_imm insn))
    ok (next_pc pc, write_rd p insn value)

  unfoldable pub rv64_ld : InsnFunc W
  rv64_ld p insn pc = do
    value ← Mmu.read_int64 host.end_key p.mmu (add64 (rs1_of p insn) (i_imm insn))
    ok (next_pc pc, write_rd p insn value)

  unfoldable pub rv64_lbu : InsnFunc W
  rv64_lbu p insn pc = do
    value ← Mmu.read_uint8 host.end_key p.mmu (add64 (rs1_of p insn) (i_imm insn))
    ok (next_pc pc, write_rd p insn value)

  unfoldable pub rv64_lhu : InsnFunc W
  rv64_lhu p insn pc = do
    value ← Mmu.read_uint16 host.end_key p.mmu (add64 (rs1_of p insn) (i_imm insn))
    ok (next_pc pc, write_rd p insn value)

  unfoldable pub rv64_lwu : InsnFunc W
  rv64_lwu p insn pc = do
    value ← Mmu.read_uint32 host.end_key p.mmu (add64 (rs1_of p insn) (i_imm insn))
    ok (next_pc pc, write_rd p insn value)

  unfoldable pub rv64_sb : InsnFunc W
  rv64_sb p insn pc = do
    mmu' ← Mmu.write_8 host.end_key p.mmu (add64 (rs1_of p insn) (s_imm insn)) (rs2_of p insn)
    ok (next_pc pc, record p { mmu = mmu' })

  unfoldable pub rv64_sh : InsnFunc W
  rv64_sh p insn pc = do
    mmu' ← Mmu.write_16 host.end_key p.mmu (add64 (rs1_of p insn) (s_imm insn)) (rs2_of p insn)
    ok (next_pc pc, record p { mmu = mmu' })

  unfoldable pub rv64_sw : InsnFunc W
  rv64_sw p insn pc = do
    mmu' ← Mmu.write_32 host.end_key p.mmu (add64 (rs1_of p insn) (s_imm insn)) (rs2_of p insn)
    ok (next_pc pc, record p { mmu = mmu' })

  unfoldable pub rv64_sd : InsnFunc W
  rv64_sd p insn pc = do
    mmu' ← Mmu.write_64 host.end_key p.mmu (add64 (rs1_of p insn) (s_imm insn)) (rs2_of p insn)
    ok (next_pc pc, record p { mmu = mmu' })

  unfoldable pub rv64_fld : InsnFunc W
  rv64_fld p insn pc = do
    value ← Mmu.read_int64 host.end_key p.mmu (add64 (rs1_of p insn) (i_imm insn))
    ok (next_pc pc, write_frd p insn value)

  unfoldable pub rv64_flw : InsnFunc W
  rv64_flw p insn pc = do
    value ← Mmu.read_uint32 host.end_key p.mmu (add64 (rs1_of p insn) (i_imm insn))
    ok (next_pc pc, write_frd p insn value)

  unfoldable pub rv64_fsd : InsnFunc W
  rv64_fsd p insn pc = do
    mmu' ← Mmu.write_64 host.end_key p.mmu (add64 (rs1_of p insn) (s_imm insn)) (frs2_of p insn)
    ok (next_pc pc, record p { mmu = mmu' })

  unfoldable pub rv64_fsw : InsnFunc W
  rv64_fsw p insn pc = do
    mmu' ← Mmu.write_32 host.end_key p.mmu (add64 (rs1_of p insn) (s_imm insn)) (frs2_of p insn)
    ok (next_pc pc, record p { mmu = mmu' })
