-- ===== src/Func/FramedMachine.antt =====
-- Branches, jumps, loads, stores and floating point are framed.
use riscv_isa_simulator.Base.{
  ℕ, Bool, refl, if◌then◌else◌, ok, Result, ◌>>=◌, Keeps-bind, Keeps-then,
}
use riscv_isa_simulator.Structs.{Insn}
use riscv_isa_simulator.Mmu
use riscv_isa_simulator.Mmu.{Mmu}
use riscv_isa_simulator.Cpu.{Cpu, next_pc, set_pc, branch_target, write_rd, write_frd}
use riscv_isa_simulator.Cpu.Host.{Host, Fpu}
use riscv_isa_simulator.Func.Frame.{
  Frame, IsFramed, Frame-refl, write_rd-Frame, write_frd-Frame, write-SameMmu, SameMmu,
}
use riscv_isa_simulator.Func.Branch.{
  rv64_beq, rv64_bne, rv64_blt, rv64_bge, rv64_bltu, rv64_bgeu, rv64_jal, rv64_jalr, rv64_fence,
  branch, jump,
}
use riscv_isa_simulator.Func.Memory.{
  rv64_lb, rv64_lh, rv64_lw, rv64_ld, rv64_lbu, rv64_lhu, rv64_lwu, rv64_sb, rv64_sh, rv64_sw,
  rv64_sd, rv64_fld, rv64_flw, rv64_fsd, rv64_fsw,
}
use riscv_isa_simulator.Func.Float.{
  rv64_fmul_d, rv64_fdiv_d, rv64_fmul_s, rv64_fdiv_s, rv64_fmadd_d, rv64_fmv_s_x, rv64_fcvt_d_l,
  rv64_fcvt_l_d, rv64_fcvt_d_s, rv64_fcvt_d_w, rv64_fcvt_d_wu, rv64_fcvt_s_d, rv64_fcvt_s_l,
  rv64_fcvt_s_w, rv64_fcvt_w_d, rv64_fcvt_wu_d, rv64_fmv_x_d, rv64_fmv_d_x, rv64_fadd_s,
  rv64_fadd_d, rv64_fsub_s, rv64_fsub_d, rv64_fsgnj_d, rv64_feq_d, rv64_fle_d, rv64_flt_d,
}
use riscv_isa_simulator.Func.Framed.{rd-IsFramed, frd-IsFramed}

module _ {W : Type 0} where
  branch-IsFramed :
      (taken : Cpu W → Insn → ℕ → Bool) → IsFramed (λ p insn pc. branch (taken p insn pc) p insn pc)
  unfolding branch
  branch-IsFramed taken p insn pc =
      Keeps-then (λ (r : ℕ × Cpu W). Frame p r.1)
        (if taken p insn pc then set_pc (branch_target pc insn) else ok (next_pc pc))
        (λ npc. ok (npc, p)) (λ npc. Frame-refl p)

  jump-IsFramed :
      (target : Cpu W → Insn → ℕ → ℕ) → IsFramed (λ p insn pc. jump (target p insn pc) p insn pc)
  unfolding jump
  jump-IsFramed target p insn pc =
      Keeps-then (λ (r : ℕ × Cpu W). Frame p r.1) (set_pc (target p insn pc))
        (λ npc. ok (npc, write_rd p insn (next_pc pc))) (λ npc. write_rd-Frame p insn _)

  pub branches-IsFramed :
      IsFramed (rv64_beq {W = W})
      × IsFramed (rv64_bne {W = W})
      × IsFramed (rv64_blt {W = W})
      × IsFramed (rv64_bge {W = W})
      × IsFramed (rv64_bltu {W = W})
      × IsFramed (rv64_bgeu {W = W})
      × IsFramed (rv64_jal {W = W})
      × IsFramed (rv64_jalr {W = W})
      × IsFramed (rv64_fence {W = W})
  unfolding rv64_beq rv64_bne rv64_blt rv64_bge rv64_bltu rv64_bgeu rv64_jal rv64_jalr rv64_fence
  branches-IsFramed = (
    branch-IsFramed _,
    branch-IsFramed _,
    branch-IsFramed _,
    branch-IsFramed _,
    branch-IsFramed _,
    branch-IsFramed _,
    jump-IsFramed _,
    jump-IsFramed _,
    λ p _ _. Frame-refl p,
  )

module _ {W : Type 0} where
  mmu-Frame : (p : Cpu W) (m : Mmu) → SameMmu p.mmu m → Frame p (record p { mmu = m })
  mmu-Frame p m h = record {
    zero_reg = refl;
    xpr_size = refl;
    fpr_size = refl;
    forbid = h.0;
    entry = h.1;
    fflags = refl;
    frm = refl;
    insn_count = refl;
  }

  store-IsFramed :
      (host : Host W) (addr reg : Cpu W → Insn → ℕ) (len : ℕ)
      → IsFramed (λ p insn pc. Mmu.write host.end_key p.mmu (addr p insn) (reg p insn) len >>= λ m.
          ok (next_pc pc, record p { mmu = m }))
  store-IsFramed host addr reg len p insn pc =
      Keeps-bind (SameMmu p.mmu) (λ (r : ℕ × Cpu W). Frame p r.1)
        (Mmu.write host.end_key p.mmu (addr p insn) (reg p insn) len)
        (λ m. ok (next_pc pc, record p { mmu = m }))
        (write-SameMmu host.end_key p.mmu (addr p insn) (reg p insn) len) (λ m h. mmu-Frame p m h)

  load-IsFramed :
      (value : Cpu W → Insn → Result ℕ)
      → IsFramed (λ p insn pc. value p insn >>= λ v. ok (next_pc pc, write_rd p insn v))
  load-IsFramed value p insn pc =
      Keeps-then (λ (r : ℕ × Cpu W). Frame p r.1) (value p insn)
        (λ v. ok (next_pc pc, write_rd p insn v)) (λ v. write_rd-Frame p insn v)

  fload-IsFramed :
      (value : Cpu W → Insn → Result ℕ)
      → IsFramed (λ p insn pc. value p insn >>= λ v. ok (next_pc pc, write_frd p insn v))
  fload-IsFramed value p insn pc =
      Keeps-then (λ (r : ℕ × Cpu W). Frame p r.1) (value p insn)
        (λ v. ok (next_pc pc, write_frd p insn v)) (λ v. write_frd-Frame p insn v)

  pub memory-IsFramed :
      (host : Host W)
      → IsFramed (rv64_lb host)
        × IsFramed (rv64_lh host)
        × IsFramed (rv64_lw host)
        × IsFramed (rv64_ld host)
        × IsFramed (rv64_lbu host)
        × IsFramed (rv64_lhu host)
        × IsFramed (rv64_lwu host)
        × IsFramed (rv64_sb host)
        × IsFramed (rv64_sh host)
        × IsFramed (rv64_sw host)
        × IsFramed (rv64_sd host)
        × IsFramed (rv64_fld host)
        × IsFramed (rv64_flw host)
        × IsFramed (rv64_fsd host)
        × IsFramed (rv64_fsw host)
  unfolding rv64_lb rv64_lh rv64_lw rv64_ld rv64_lbu rv64_lhu rv64_lwu rv64_sb rv64_sh rv64_sw
      rv64_sd rv64_fld rv64_flw rv64_fsd rv64_fsw Mmu.write_8 Mmu.write_16 Mmu.write_32 Mmu.write_64
  memory-IsFramed host = (
    load-IsFramed _,
    load-IsFramed _,
    load-IsFramed _,
    load-IsFramed _,
    load-IsFramed _,
    load-IsFramed _,
    load-IsFramed _,
    store-IsFramed host _ _ 1,
    store-IsFramed host _ _ 2,
    store-IsFramed host _ _ 4,
    store-IsFramed host _ _ 8,
    fload-IsFramed _,
    fload-IsFramed _,
    store-IsFramed host _ _ 8,
    store-IsFramed host _ _ 4,
  )

  pub float-IsFramed :
      (f : Fpu)
      → IsFramed (rv64_fmul_d {W = W} f)
        × IsFramed (rv64_fdiv_d {W = W} f)
        × IsFramed (rv64_fmul_s {W = W} f)
        × IsFramed (rv64_fdiv_s {W = W} f)
        × IsFramed (rv64_fmadd_d {W = W} f)
        × IsFramed (rv64_fmv_s_x {W = W} f)
        × IsFramed (rv64_fcvt_d_l {W = W} f)
        × IsFramed (rv64_fcvt_l_d {W = W} f)
        × IsFramed (rv64_fcvt_d_s {W = W} f)
        × IsFramed (rv64_fcvt_d_w {W = W} f)
        × IsFramed (rv64_fcvt_d_wu {W = W} f)
        × IsFramed (rv64_fcvt_s_d {W = W} f)
        × IsFramed (rv64_fcvt_s_l {W = W} f)
        × IsFramed (rv64_fcvt_s_w {W = W} f)
        × IsFramed (rv64_fcvt_w_d {W = W} f)
        × IsFramed (rv64_fcvt_wu_d {W = W} f)
        × IsFramed (rv64_fmv_x_d {W = W} f)
        × IsFramed (rv64_fmv_d_x {W = W} f)
        × IsFramed (rv64_fadd_s {W = W} f)
        × IsFramed (rv64_fadd_d {W = W} f)
        × IsFramed (rv64_fsub_s {W = W} f)
        × IsFramed (rv64_fsub_d {W = W} f)
        × IsFramed (rv64_fsgnj_d {W = W} f)
        × IsFramed (rv64_feq_d {W = W} f)
        × IsFramed (rv64_fle_d {W = W} f)
        × IsFramed (rv64_flt_d {W = W} f)
  unfolding rv64_fmul_d rv64_fdiv_d rv64_fmul_s rv64_fdiv_s rv64_fmadd_d rv64_fmv_s_x rv64_fcvt_d_l
      rv64_fcvt_l_d rv64_fcvt_d_s rv64_fcvt_d_w rv64_fcvt_d_wu rv64_fcvt_s_d rv64_fcvt_s_l
      rv64_fcvt_s_w rv64_fcvt_w_d rv64_fcvt_wu_d rv64_fmv_x_d rv64_fmv_d_x rv64_fadd_s rv64_fadd_d
      rv64_fsub_s rv64_fsub_d rv64_fsgnj_d rv64_feq_d rv64_fle_d rv64_flt_d
  float-IsFramed f = (
    frd-IsFramed _,
    frd-IsFramed _,
    frd-IsFramed _,
    frd-IsFramed _,
    frd-IsFramed _,
    frd-IsFramed _,
    frd-IsFramed _,
    rd-IsFramed _,
    frd-IsFramed _,
    frd-IsFramed _,
    frd-IsFramed _,
    frd-IsFramed _,
    frd-IsFramed _,
    frd-IsFramed _,
    rd-IsFramed _,
    rd-IsFramed _,
    rd-IsFramed _,
    frd-IsFramed _,
    frd-IsFramed _,
    frd-IsFramed _,
    frd-IsFramed _,
    frd-IsFramed _,
    frd-IsFramed _,
    rd-IsFramed _,
    rd-IsFramed _,
    rd-IsFramed _,
  )
