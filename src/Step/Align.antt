-- ===== src/Step/Align.antt =====
-- The program counter of the simulated processor, from a start at a multiple of 4.
use riscv_isa_simulator.Base.{ℕ, zero, suc, ◌%◌, ◌≡◌, Keeps, Keeps-bind, Keeps-then}
use riscv_isa_simulator.Mmu
use riscv_isa_simulator.Cpu.{Cpu}
use riscv_isa_simulator.Cpu.Host.{Host}
use riscv_isa_simulator.Decode.Unique.{decode_insn_total}
use riscv_isa_simulator.Decode.Table.{In-IsAligned}
use riscv_isa_simulator.Step.{increment, step_once}
use riscv_isa_simulator.Step.Run.{run}

module _ {W : Type 0} (host : Host W) where
  -- From a program counter that is a multiple of 4, a step that does not trap leads to one,
  -- whatever the fetched word, the registers and the memory.
  pub step_once-mod : (p : Cpu W) → p.pc % 4 ≡ 0 → Keeps (λ q. q.pc % 4 ≡ 0) (step_once host p)
  unfolding step_once
  step_once-mod p h =
      Keeps-then (λ (q : Cpu W). q.pc % 4 ≡ 0) (Mmu.load_insn p.mmu p.pc) _
        λ insn.
          let (d, decoded, (m, i)) = decode_insn_total host insn in
          rw decoded (
            Keeps-then (λ (q : Cpu W). q.pc % 4 ≡ 0) (increment d.name p.insn_count) _
              λ counts.
                Keeps-bind (λ (r : ℕ × Cpu W). r.0 % 4 ≡ 0) (λ (q : Cpu W). q.pc % 4 ≡ 0)
                  (d.rv64 (record p { c_insn = insn; insn_count = counts }) insn p.pc) _
                  (In-IsAligned host d i _ insn p.pc h) (λ r e. e))

  -- From a program counter that is a multiple of 4, any number of steps that do not trap lead to
  -- one.
  pub run-mod : (n : ℕ) (p : Cpu W) → p.pc % 4 ≡ 0 → Keeps (λ q. q.pc % 4 ≡ 0) (run host n p)
  unfolding run
  run-mod zero p h = h
  run-mod (suc n) p h =
      Keeps-bind (λ (q : Cpu W). q.pc % 4 ≡ 0) (λ (q : Cpu W). q.pc % 4 ≡ 0) (step_once host p)
        (run host n) (step_once-mod p h) (λ q e. run-mod n q e)
