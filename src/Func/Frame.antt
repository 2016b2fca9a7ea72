-- ===== src/Func/Frame.antt =====
-- What no instruction changes, shown for each: register 0, the sizes of the register files, the
-- forbidden blocks, the entry point, the status registers that the program never uses, and the
-- counts.
use riscv_isa_simulator.Base.{
  ℕ, ◌≡◌, refl, true, false, List, ◌||◌, Bool-cases, inl, inr, length, add64, sub64, Keeps,
  Keeps-then,
}
use riscv_isa_simulator.Structs.{Insn}
use riscv_isa_simulator.Structs.Regfile
use riscv_isa_simulator.Structs.Regfile.{read-write_zero, length-write}
use riscv_isa_simulator.Mmu
use riscv_isa_simulator.Mmu.{Mmu}
use riscv_isa_simulator.Mmu.StdMap.{Map}
use riscv_isa_simulator.Cpu.{Cpu, InsnFunc, write_reg, write_freg, write_rd, write_frd}

-- The new state `q` agrees with `p` on what stays.
pub record Frame {W : Type 0} (p q : Cpu W) : Type 0 where
  pub zero_reg : Regfile.read q.xpr 0 ≡ Regfile.read p.xpr 0
  pub xpr_size : length q.xpr ≡ length p.xpr
  pub fpr_size : length q.fpr ≡ length p.fpr
  pub forbid : q.mmu.forbid ≡ p.mmu.forbid
  pub entry : q.mmu.entry ≡ p.mmu.entry
  pub fflags : q.fflags ≡ p.fflags
  pub frm : q.frm ≡ p.frm
  pub insn_count : q.insn_count ≡ p.insn_count

module _ {W : Type 0} where
  -- Every state that the function returns is framed by the one it was given.
  abbrev pub IsFramed : InsnFunc W → Type 0
  IsFramed f =
      (p : Cpu W) (insn : Insn) (pc : ℕ) → Keeps (λ (r : ℕ × Cpu W). Frame p r.1) (f p insn pc)

  pub Frame-refl : (p : Cpu W) → Frame p p
  Frame-refl p = record {
    zero_reg = refl;
    xpr_size = refl;
    fpr_size = refl;
    forbid = refl;
    entry = refl;
    fflags = refl;
    frm = refl;
    insn_count = refl;
  }

  pub write_reg-Frame : (p : Cpu W) (i v : ℕ) → Frame p (write_reg p i v)
  unfolding write_reg
  write_reg-Frame p i v = record {
    zero_reg = read-write_zero p.xpr i v;
    xpr_size = length-write true p.xpr i v;
    fpr_size = refl;
    forbid = refl;
    entry = refl;
    fflags = refl;
    frm = refl;
    insn_count = refl;
  }

  pub write_freg-Frame : (p : Cpu W) (i v : ℕ) → Frame p (write_freg p i v)
  unfolding write_freg
  write_freg-Frame p i v = record {
    zero_reg = refl;
    xpr_size = refl;
    fpr_size = length-write false p.fpr i v;
    forbid = refl;
    entry = refl;
    fflags = refl;
    frm = refl;
    insn_count = refl;
  }

  pub write_rd-Frame : (p : Cpu W) (insn : Insn) (v : ℕ) → Frame p (write_rd p insn v)
  unfolding write_rd
  write_rd-Frame p insn v = write_reg-Frame p _ v

  pub write_frd-Frame : (p : Cpu W) (insn : Insn) (v : ℕ) → Frame p (write_frd p insn v)
  unfolding write_frd
  write_frd-Frame p insn v = write_freg-Frame p _ v

abbrev pub SameMmu : Mmu → Mmu → Type 0
SameMmu m m' = (m'.forbid ≡ m.forbid) × (m'.entry ≡ m.entry)

module _ (end_key : Map → ℕ) where
  pub write-SameMmu :
      (m : Mmu) (addr reg len : ℕ) → Keeps (SameMmu m) (Mmu.write end_key m addr reg len)
  unfolding Mmu.write
  write-SameMmu m addr reg len =
      elim (Bool-cases (Mmu.ban m.forbid addr || Mmu.ban m.forbid (sub64 (add64 addr len) 1))) [
        | inl banned ↦ rw banned tt
        | inr free ↦
            rw free
              (Keeps-then _ (Mmu.write_loop end_key len addr reg m.mem) _ (λ mem'. (refl, refl)))
      ]

  pub write_bare-SameMmu :
      (m : Mmu) (addr : ℕ) (val : List ℕ) (len : ℕ)
      → Keeps (SameMmu m) (Mmu.write_bare end_key m addr val len)
  unfolding Mmu.write_bare
  write_bare-SameMmu m addr val len =
      let last = sub64 (add64 addr len) 1 in
      elim (Bool-cases (Mmu.ban m.forbid addr || Mmu.ban m.forbid last)) [
        | inl banned ↦ rw banned tt
        | inr free ↦
            rw free
              (Keeps-then _ (Mmu.write_bare_loop end_key val addr m.mem) _ (λ mem'. (refl, refl)))
      ]
