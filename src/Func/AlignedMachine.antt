-- ===== src/Func/AlignedMachine.antt =====
-- Branches, jumps, loads, stores, floating point and system calls keep the program counter aligned.
use riscv_isa_simulator.Cpu.Host.{Host, Fpu}
use riscv_isa_simulator.Func.Align.{
  IsAligned, next_pc-mod, then-IsAligned, branch-IsAligned, jal-IsAligned, jalr-IsAligned,
}
use riscv_isa_simulator.Func.Scall.{rv64_scall}
use riscv_isa_simulator.Func.Branch.{
  rv64_beq, rv64_bne, rv64_blt, rv64_bge, rv64_bltu, rv64_bgeu, rv64_jal, rv64_jalr, rv64_fence,
}
use riscv_isa_simulator.Func.Memory.{
  rv64_lb, rv64_lh, rv64_lw, rv64_ld, rv64_lbu, rv64_lhu, rv64_lwu, rv64_sb, rv64_sh, rv64_sw,
  rv64_sd, rv64_fld, rv64_flw, rv64_fsd, rv64_fsw,
}
use riscv_isa_simulator.Func.Float.{
  rv64_fmul_d, rv64_fdiv_d, rv64_fmul_s, rv64_fdiv_s, rv64_fmadd_d, rv64_fmv_s_x, rv64_fcvt_d_l,
  rv64_fcvt_l_d, rv64_fcvt_d_s, rv64_fcvt_d_w, rv64_fcvt_d_wu, rv64_fcvt_s_d, rv64_fcvt_s_l,
  rv64_fcvt_s_w, rv64_fcvt_w_d, rv64_fcvt_wu_d, rv64_fmv_x_d, rv64_fmv_d_x, rv64_fadd_s,
  rv64_fadd_d, rv64_fsub_s, rv64_fsub_d, rv64_fsgnj_d, rv64_feq_d, rv64_fle_d, rv64_flt_d,
}

module _ {W : Type 0} where
  pub branches-IsAligned :
      IsAligned (rv64_beq {W = W})
      × IsAligned (rv64_bne {W = W})
      × IsAligned (rv64_blt {W = W})
      × IsAligned (rv64_bge {W = W})
      × IsAligned (rv64_bltu {W = W})
      × IsAligned (rv64_bgeu {W = W})
      × IsAligned (rv64_jal {W = W})
      × IsAligned (rv64_jalr {W = W})
      × IsAligned (rv64_fence {W = W})
  unfolding rv64_beq rv64_bne rv64_blt rv64_bge rv64_bltu rv64_bgeu rv64_jal rv64_jalr rv64_fence
  branches-IsAligned = (
    branch-IsAligned _,
    branch-IsAligned _,
    branch-IsAligned _,
    branch-IsAligned _,
    branch-IsAligned _,
    branch-IsAligned _,
    jal-IsAligned,
    jalr-IsAligned _ _,
    λ _ _ pc h. next_pc-mod pc h,
  )

  pub memory-IsAligned :
      (host : Host W)
      → IsAligned (rv64_lb host)
        × IsAligned (rv64_lh host)
        × IsAligned (rv64_lw host)
        × IsAligned (rv64_ld host)
        × IsAligned (rv64_lbu host)
        × IsAligned (rv64_lhu host)
        × IsAligned (rv64_lwu host)
        × IsAligned (rv64_sb host)
        × IsAligned (rv64_sh host)
        × IsAligned (rv64_sw host)
        × IsAligned (rv64_sd host)
        × IsAligned (rv64_fld host)
        × IsAligned (rv64_flw host)
        × IsAligned (rv64_fsd host)
        × IsAligned (rv64_fsw host)
  unfolding rv64_lb rv64_lh rv64_lw rv64_ld rv64_lbu rv64_lhu rv64_lwu rv64_sb rv64_sh rv64_sw
      rv64_sd rv64_fld rv64_flw rv64_fsd rv64_fsw
  memory-IsAligned host = (
    then-IsAligned _ _,
    then-IsAligned _ _,
    then-IsAligned _ _,
    then-IsAligned _ _,
    then-IsAligned _ _,
    then-IsAligned _ _,
    then-IsAligned _ _,
    then-IsAligned _ _,
    then-IsAligned _ _,
    then-IsAligned _ _,
    then-IsAligned _ _,
    then-IsAligned _ _,
    then-IsAligned _ _,
    then-IsAligned _ _,
    then-IsAligned _ _,
  )

  pub float-IsAligned :
      (f : Fpu)
      → IsAligned (rv64_fmul_d {W = W} f)
        × IsAligned (rv64_fdiv_d {W = W} f)
        × IsAligned (rv64_fmul_s {W = W} f)
        × IsAligned (rv64_fdiv_s {W = W} f)
        × IsAligned (rv64_fmadd_d {W = W} f)
        × IsAligned (rv64_fmv_s_x {W = W} f)
        × IsAligned (rv64_fcvt_d_l {W = W} f)
        × IsAligned (rv64_fcvt_l_d {W = W} f)
        × IsAligned (rv64_fcvt_d_s {W = W} f)
        × IsAligned (rv64_fcvt_d_w {W = W} f)
        × IsAligned (rv64_fcvt_d_wu {W = W} f)
        × IsAligned (rv64_fcvt_s_d {W = W} f)
        × IsAligned (rv64_fcvt_s_l {W = W} f)
        × IsAligned (rv64_fcvt_s_w {W = W} f)
        × IsAligned (rv64_fcvt_w_d {W = W} f)
        × IsAligned (rv64_fcvt_wu_d {W = W} f)
        × IsAligned (rv64_fmv_x_d {W = W} f)
        × IsAligned (rv64_fmv_d_x {W = W} f)
        × IsAligned (rv64_fadd_s {W = W} f)
        × IsAligned (rv64_fadd_d {W = W} f)
        × IsAligned (rv64_fsub_s {W = W} f)
        × IsAligned (rv64_fsub_d {W = W} f)
        × IsAligned (rv64_fsgnj_d {W = W} f)
        × IsAligned (rv64_feq_d {W = W} f)
        × IsAligned (rv64_fle_d {W = W} f)
        × IsAligned (rv64_flt_d {W = W} f)
  unfolding rv64_fmul_d rv64_fdiv_d rv64_fmul_s rv64_fdiv_s rv64_fmadd_d rv64_fmv_s_x rv64_fcvt_d_l
      rv64_fcvt_l_d rv64_fcvt_d_s rv64_fcvt_d_w rv64_fcvt_d_wu rv64_fcvt_s_d rv64_fcvt_s_l
      rv64_fcvt_s_w rv64_fcvt_w_d rv64_fcvt_wu_d rv64_fmv_x_d rv64_fmv_d_x rv64_fadd_s rv64_fadd_d
      rv64_fsub_s rv64_fsub_d rv64_fsgnj_d rv64_feq_d rv64_fle_d rv64_flt_d
  float-IsAligned f = (
    λ _ _ pc h. next_pc-mod pc h,
    λ _ _ pc h. next_pc-mod pc h,
    λ _ _ pc h. next_pc-mod pc h,
    λ _ _ pc h. next_pc-mod pc h,
    λ _ _ pc h. next_pc-mod pc h,
    λ _ _ pc h. next_pc-mod pc h,
    λ _ _ pc h. next_pc-mod pc h,
    λ _ _ pc h. next_pc-mod pc h,
    λ _ _ pc h. next_pc-mod pc h,
    λ _ _ pc h. next_pc-mod pc h,
    λ _ _ pc h. next_pc-mod pc h,
    λ _ _ pc h. next_pc-mod pc h,
    λ _ _ pc h. next_pc-mod pc h,
    λ _ _ pc h. next_pc-mod pc h,
    λ _ _ pc h. next_pc-mod pc h,
    λ _ _ pc h. next_pc-mod pc h,
    λ _ _ pc h. next_pc-mod pc h,
    λ _ _ pc h. next_pc-mod pc h,
    λ _ _ pc h. next_pc-mod pc h,
    λ _ _ pc h. next_pc-mod pc h,
    λ _ _ pc h. next_pc-mod pc h,
    λ _ _ pc h. next_pc-mod pc h,
    λ _ _ pc h. next_pc-mod pc h,
    λ _ _ pc h. next_pc-mod pc h,
    λ _ _ pc h. next_pc-mod pc h,
    λ _ _ pc h. next_pc-mod pc h,
  )

  pub scall-IsAligned : (host : Host W) → IsAligned (rv64_scall host)
  unfolding rv64_scall
  scall-IsAligned host = then-IsAligned _ _
