-- ===== src/Func/Float.antt =====
-- The floating-point instructions of func.h. Registers hold 64-bit patterns; `freg_f32` takes the
-- low 32 bits, and `f32_freg` gives a pattern below 2 ^ 32.
use riscv_isa_simulator.Base.{
  ℕ, ◌^◌, ◌==◌, if◌then◌else◌, to_nat, bit_and, bit_or, not64, sext32, zext32, ok,
}
use riscv_isa_simulator.Structs.{rm}
use riscv_isa_simulator.Cpu.{
  InsnFunc, next_pc, rs1_of, frs1_of, frs2_of, frs3_of, write_rd, write_frd,
}
use riscv_isa_simulator.Cpu.Host.{Fpu}

module _ (f : Fpu) where
  -- double d_Rounding(double a, int rm)
  unfoldable pub d_rounding : ℕ → ℕ → ℕ
  d_rounding a rm =
      if rm == 0
      then f.rint a
      else if rm == 1
      then f.trunc a
      else if rm == 2
      then f.floor a
      else if rm == 3
      then f.ceil a
      else a

module _ {W : Type 0} (f : Fpu) where
  unfoldable pub rv64_fmul_d : InsnFunc W
  rv64_fmul_d p insn pc =
      ok (next_pc pc, write_frd p insn (f.mul_d (frs1_of p insn) (frs2_of p insn)))

  unfoldable pub rv64_fdiv_d : InsnFunc W
  rv64_fdiv_d p insn pc =
      ok (next_pc pc, write_frd p insn (f.div_d (frs1_of p insn) (frs2_of p insn)))

  unfoldable pub rv64_fmul_s : InsnFunc W
  rv64_fmul_s p insn pc =
      ok
        (next_pc pc, write_frd p insn (f.mul_s (zext32 (frs1_of p insn)) (zext32 (frs2_of p insn))))

  unfoldable pub rv64_fdiv_s : InsnFunc W
  rv64_fdiv_s p insn pc =
      ok
        (next_pc pc, write_frd p insn (f.div_s (zext32 (frs1_of p insn)) (zext32 (frs2_of p insn))))

  unfoldable pub rv64_fmadd_d : InsnFunc W
  rv64_fmadd_d p insn pc = ok (
    next_pc pc,
    write_frd p insn (f.add_d (f.mul_d (frs1_of p insn) (frs2_of p insn)) (frs3_of p insn)),
  )

  unfoldable pub rv64_fmv_s_x : InsnFunc W
  rv64_fmv_s_x p insn pc = ok (next_pc pc, write_frd p insn (zext32 (rs1_of p insn)))

  unfoldable pub rv64_fcvt_d_l : InsnFunc W
  rv64_fcvt_d_l p insn pc = ok (next_pc pc, write_frd p insn (f.d_of_i64 (rs1_of p insn)))

  unfoldable pub rv64_fcvt_l_d : InsnFunc W
  rv64_fcvt_l_d p insn pc = ok (
    next_pc pc,
    write_rd p insn (f.i64_of_d (d_rounding f (f.d_of_u64 (rs1_of p insn)) (rm insn))),
  )

  unfoldable pub rv64_fcvt_d_s : InsnFunc W
  rv64_fcvt_d_s p insn pc = ok (next_pc pc, write_frd p insn (f.d_of_s (zext32 (frs1_of p insn))))

  unfoldable pub rv64_fcvt_d_w : InsnFunc W
  rv64_fcvt_d_w p insn pc = ok (next_pc pc, write_frd p insn (f.d_of_i32 (zext32 (rs1_of p insn))))

  unfoldable pub rv64_fcvt_d_wu : InsnFunc W
  rv64_fcvt_d_wu p insn pc = ok (next_pc pc, write_frd p insn (f.d_of_i32 (zext32 (rs1_of p insn))))

  unfoldable pub rv64_fcvt_s_d : InsnFunc W
  rv64_fcvt_s_d p insn pc = ok (next_pc pc, write_frd p insn (f.s_of_d (frs1_of p insn)))

  unfoldable pub rv64_fcvt_s_l : InsnFunc W
  rv64_fcvt_s_l p insn pc = ok (next_pc pc, write_frd p insn (f.s_of_i64 (rs1_of p insn)))

  unfoldable pub rv64_fcvt_s_w : InsnFunc W
  rv64_fcvt_s_w p insn pc = ok (next_pc pc, write_frd p insn (f.s_of_i32 (zext32 (rs1_of p insn))))

  unfoldable pub rv64_fcvt_w_d : InsnFunc W
  rv64_fcvt_w_d p insn pc = ok (next_pc pc, write_rd p insn (sext32 (f.i32_of_d (frs1_of p insn))))

  unfoldable pub rv64_fcvt_wu_d : InsnFunc W
  rv64_fcvt_wu_d p insn pc = ok (next_pc pc, write_rd p insn (f.u32_of_d (frs1_of p insn)))

  unfoldable pub rv64_fmv_x_d : InsnFunc W
  rv64_fmv_x_d p insn pc = ok (next_pc pc, write_rd p insn (frs1_of p insn))

  unfoldable pub rv64_fmv_d_x : InsnFunc W
  rv64_fmv_d_x p insn pc = ok (next_pc pc, write_frd p insn (rs1_of p insn))

  unfoldable pub rv64_fadd_s : InsnFunc W
  rv64_fadd_s p insn pc =
      ok
        (next_pc pc, write_frd p insn (f.add_s (zext32 (frs1_of p insn)) (zext32 (frs2_of p insn))))

  unfoldable pub rv64_fadd_d : InsnFunc W
  rv64_fadd_d p insn pc =
      ok (next_pc pc, write_frd p insn (f.add_d (frs1_of p insn) (frs2_of p insn)))

  unfoldable pub rv64_fsub_s : InsnFunc W
  rv64_fsub_s p insn pc =
      ok
        (next_pc pc, write_frd p insn (f.sub_s (zext32 (frs1_of p insn)) (zext32 (frs2_of p insn))))

  unfoldable pub rv64_fsub_d : InsnFunc W
  rv64_fsub_d p insn pc =
      ok (next_pc pc, write_frd p insn (f.sub_d (frs1_of p insn) (frs2_of p insn)))

  unfoldable pub rv64_fsgnj_d : InsnFunc W
  rv64_fsgnj_d p insn pc = ok (
    next_pc pc,
    write_frd p insn
        (bit_or (bit_and (frs1_of p insn) (not64 (2 ^ 63))) (bit_and (frs2_of p insn) (2 ^ 63))),
  )

  unfoldable pub rv64_feq_d : InsnFunc W
  rv64_feq_d p insn pc =
      ok (next_pc pc, write_rd p insn (to_nat (f.eq_d (frs1_of p insn) (frs2_of p insn))))

  unfoldable pub rv64_fle_d : InsnFunc W
  rv64_fle_d p insn pc =
      ok (next_pc pc, write_rd p insn (to_nat (f.le_d (frs1_of p insn) (frs2_of p insn))))

  unfoldable pub rv64_flt_d : InsnFunc W
  rv64_flt_d p insn pc =
      ok (next_pc pc, write_rd p insn (to_nat (f.lt_d (frs1_of p insn) (frs2_of p insn))))
