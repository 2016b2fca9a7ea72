-- ===== src/Step/Frame.antt =====
-- What a step of the processor keeps, for every word that it may fetch.
use Prim.Native.String.{String}
use riscv_isa_simulator.Base.{ℕ, List, Keeps, Keeps-bind, Keeps-then, ◌≡◌, length}
use riscv_isa_simulator.Mmu
use riscv_isa_simulator.Structs.Regfile
use riscv_isa_simulator.Cpu.{Cpu}
use riscv_isa_simulator.Cpu.Host.{Host}
use riscv_isa_simulator.Decode.Unique.{decode_insn_total}
use riscv_isa_simulator.Decode.Table.{In-IsFramed}
use riscv_isa_simulator.Func.Frame.{Frame}
use riscv_isa_simulator.Step.{increment, step_once}

-- What stays from one round to a later one.
pub record StepFrame {W : Type 0} (p q : Cpu W) : Type 0 where
  pub zero_reg : Regfile.read q.xpr 0 ≡ Regfile.read p.xpr 0
  pub xpr_size : length q.xpr ≡ length p.xpr
  pub fpr_size : length q.fpr ≡ length p.fpr
  pub forbid : q.mmu.forbid ≡ p.mmu.forbid
  pub entry : q.mmu.entry ≡ p.mmu.entry
  pub fflags : q.fflags ≡ p.fflags
  pub frm : q.frm ≡ p.frm

module _ {W : Type 0} (host : Host W) where
  -- The program counter, the fetched word and the counts are not framed.
  Frame-StepFrame :
      {p q : Cpu W} {insn npc : ℕ} {counts : List (String × ℕ)}
      → Frame (record p { c_insn = insn; insn_count = counts }) q
      → StepFrame p (record q { pc = npc })
  Frame-StepFrame f = record {
    zero_reg = f.zero_reg;
    xpr_size = f.xpr_size;
    fpr_size = f.fpr_size;
    forbid = f.forbid;
    entry = f.entry;
    fflags = f.fflags;
    frm = f.frm;
  }

  -- Register 0, the sizes of the register files, the forbidden blocks, the entry point, `fflags`
  -- and `frm` stay through every step that does not trap.
  pub step_once-StepFrame : (p : Cpu W) → Keeps (StepFrame p) (step_once host p)
  unfolding step_once
  step_once-StepFrame p = Keeps-then (StepFrame p) (Mmu.load_insn p.mmu p.pc) _ λ insn.
      let (d, run, (m, i)) = decode_insn_total host insn in
      rw run (
        Keeps-then (StepFrame p) (increment d.name p.insn_count) _ λ counts.
          Keeps-bind
            (λ (r : ℕ × Cpu W). Frame (record p { c_insn = insn; insn_count = counts }) r.1)
            (StepFrame p) (d.rv64 (record p { c_insn = insn; insn_count = counts }) insn p.pc) _
            (In-IsFramed host d i _ insn p.pc) (λ r h. Frame-StepFrame h))
