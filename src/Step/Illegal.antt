-- ===== src/Step/Illegal.antt =====
-- What the simulator does with a word that is no instruction.
use Prim.Native.String.{String}
use riscv_isa_simulator.Base.{ℕ, ◌≡◌, refl, List, All, ok}
use riscv_isa_simulator.Mmu
use riscv_isa_simulator.Cpu.{Cpu}
use riscv_isa_simulator.Cpu.Host.{Host}
use riscv_isa_simulator.Decode.{Matches, defined, illegal_instruction}
use riscv_isa_simulator.Decode.Unique.{decode_insn-illegal}
use riscv_isa_simulator.Step.{increment, step_once}

module _ {W : Type 0} (host : Host W) where
  -- A step on a fetched word that matches no defined instruction, with an entry "illegal" to
  -- count, does not trap: it sets the program counter to 0 and keeps the registers and the memory.
  pub step_once-illegal :
      (p : Cpu W) (insn : ℕ) (counts : List (String × ℕ))
      → Mmu.load_insn p.mmu p.pc ≡ ok insn
      → All (λ d. ¬ Matches d insn) (defined host)
      → increment "illegal" p.insn_count ≡ ok counts
      → step_once host p ≡ ok (record p { pc = 0; c_insn = insn; insn_count = counts })
  unfolding step_once illegal_instruction
  step_once-illegal p insn counts fetched unmatched counted =
      rw (fetched, decode_insn-illegal host insn unmatched, counted) refl
