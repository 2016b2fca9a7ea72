-- ===== src/Func/MulDiv.antt =====
-- Multiplication and division of func.h.
use riscv_isa_simulator.Base.{
  ℕ, ◌-◌, ◌/◌, ◌%◌, ◌^◌, ◌&&◌, ◌==◌, if◌then◌else◌, xlen, mul64, shr, sar64, sdiv64, srem64, sext32,
  zext32, sext_xlen, zext_xlen, ok,
}
use riscv_isa_simulator.Multi.{mulh, mulhu, mulhsu}
use riscv_isa_simulator.Cpu.{InsnFunc, next_pc, rs1_of, rs2_of, write_rd}

-- What `rv64_div` to `rv64_remuw` write, from `lhs` and `rhs`.
unfoldable pub div_value : ℕ → ℕ → ℕ
div_value lhs rhs =
    if rhs == 0
    then 2 ^ 64 - 1
    else if lhs == 2 ^ 63 && rhs == 2 ^ 64 - 1
    then lhs
    else sext_xlen (sdiv64 lhs rhs)

unfoldable pub divu_value : ℕ → ℕ → ℕ
divu_value lhs rhs = if rhs == 0 then 2 ^ 64 - 1 else sext_xlen (lhs / rhs)

unfoldable pub divw_value : ℕ → ℕ → ℕ
divw_value lhs rhs = if rhs == 0 then 2 ^ 64 - 1 else sext32 (sdiv64 lhs rhs)

unfoldable pub divuw_value : ℕ → ℕ → ℕ
divuw_value lhs rhs = if rhs == 0 then 2 ^ 64 - 1 else sext32 (lhs / rhs)

unfoldable pub rem_value : ℕ → ℕ → ℕ
rem_value lhs rhs =
    if rhs == 0
    then lhs
    else if lhs == 2 ^ 63 && rhs == 2 ^ 64 - 1
    then 0
    else sext_xlen (srem64 lhs rhs)

-- The third argument is RS1.
unfoldable pub remu_value : ℕ → ℕ → ℕ → ℕ
remu_value lhs rhs rs1 = if rhs == 0 then sext_xlen rs1 else sext_xlen (lhs % rhs)

unfoldable pub remw_value : ℕ → ℕ → ℕ
remw_value lhs rhs = if rhs == 0 then lhs else sext32 (srem64 lhs rhs)

unfoldable pub remuw_value : ℕ → ℕ → ℕ
remuw_value lhs rhs = if rhs == 0 then sext32 lhs else sext32 (lhs % rhs)

module _ {W : Type 0} where
  unfoldable pub rv64_mul : InsnFunc W
  rv64_mul p insn pc =
      ok (next_pc pc, write_rd p insn (sext_xlen (mul64 (rs1_of p insn) (rs2_of p insn))))

  unfoldable pub rv64_mulw : InsnFunc W
  rv64_mulw p insn pc =
      ok (next_pc pc, write_rd p insn (sext32 (mul64 (rs1_of p insn) (rs2_of p insn))))

  unfoldable pub rv64_mulh : InsnFunc W
  rv64_mulh p insn pc =
      let value =
        if xlen == 64
        then mulh (rs1_of p insn) (rs2_of p insn)
        else sext32 (sar64 (mul64 (sext32 (rs1_of p insn)) (sext32 (rs2_of p insn))) 32) in
      ok (next_pc pc, write_rd p insn value)

  unfoldable pub rv64_mulhu : InsnFunc W
  rv64_mulhu p insn pc =
      let value =
        if xlen == 64
        then mulhu (rs1_of p insn) (rs2_of p insn)
        else sext32 (shr (mul64 (zext32 (rs1_of p insn)) (zext32 (rs2_of p insn))) 32) in
      ok (next_pc pc, write_rd p insn value)

  unfoldable pub rv64_mulhsu : InsnFunc W
  rv64_mulhsu p insn pc =
      let value =
        if xlen == 64
        then mulhsu (rs1_of p insn) (rs2_of p insn)
        else sext32 (sar64 (mul64 (sext32 (rs1_of p insn)) (zext32 (rs2_of p insn))) 32) in
      ok (next_pc pc, write_rd p insn value)

  unfoldable pub rv64_div : InsnFunc W
  rv64_div p insn pc = ok (
    next_pc pc,
    write_rd p insn (div_value (sext_xlen (rs1_of p insn)) (sext_xlen (rs2_of p insn))),
  )

  unfoldable pub rv64_divu : InsnFunc W
  rv64_divu p insn pc = ok (
    next_pc pc,
    write_rd p insn (divu_value (zext_xlen (rs1_of p insn)) (zext_xlen (rs2_of p insn))),
  )

  unfoldable pub rv64_divw : InsnFunc W
  rv64_divw p insn pc =
      ok
        (next_pc pc, write_rd p insn (divw_value (sext32 (rs1_of p insn)) (sext32 (rs2_of p insn))))

  unfoldable pub rv64_divuw : InsnFunc W
  rv64_divuw p insn pc =
      ok (
        next_pc pc,
        write_rd p insn (divuw_value (zext32 (rs1_of p insn)) (zext32 (rs2_of p insn))),
      )

  unfoldable pub rv64_rem : InsnFunc W
  rv64_rem p insn pc = ok (
    next_pc pc,
    write_rd p insn (rem_value (sext_xlen (rs1_of p insn)) (sext_xlen (rs2_of p insn))),
  )

  unfoldable pub rv64_remu : InsnFunc W
  rv64_remu p insn pc = ok (
    next_pc pc,
    write_rd p insn
        (remu_value (zext_xlen (rs1_of p insn)) (zext_xlen (rs2_of p insn)) (rs1_of p insn)),
  )

  unfoldable pub rv64_remw : InsnFunc W
  rv64_remw p insn pc =
      ok
        (next_pc pc, write_rd p insn (remw_value (sext32 (rs1_of p insn)) (sext32 (rs2_of p insn))))

  unfoldable pub rv64_remuw : InsnFunc W
  rv64_remuw p insn pc =
      ok (
        next_pc pc,
        write_rd p insn (remuw_value (zext32 (rs1_of p insn)) (zext32 (rs2_of p insn))),
      )
