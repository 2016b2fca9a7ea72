-- ===== src/Decode/Table.antt =====
-- Facts about every entry of the table of instructions.
use mathlib.Core.Path.{subst}
use riscv_isa_simulator.Base.{refl, sym, inl, inr, List, [], ◌∷◌, ◌++◌, All}
use riscv_isa_simulator.Cpu.Host.{Host}
use riscv_isa_simulator.Decode.{InsnDesc, defined, instructions, illegal, illegal_instruction}
use riscv_isa_simulator.Decode.Unique.{In}
use riscv_isa_simulator.Func.Frame.{IsFramed, Frame-refl}
use riscv_isa_simulator.Func.Framed.{
  alu-IsFramed, alu_imm-IsFramed, word-IsFramed, mul_div-IsFramed,
}
use riscv_isa_simulator.Func.FramedMachine.{branches-IsFramed, memory-IsFramed, float-IsFramed}
use riscv_isa_simulator.Func.ScallFrame.{scall-IsFramed}
use riscv_isa_simulator.Func.Align.{IsAligned}
use riscv_isa_simulator.Func.Aligned.{
  alu-IsAligned, alu_imm-IsAligned, word-IsAligned, mul_div-IsAligned,
}
use riscv_isa_simulator.Func.AlignedMachine.{
  branches-IsAligned, memory-IsAligned, float-IsAligned, scall-IsAligned,
}

module _ {W : Type 0} (host : Host W) where
  defined-IsFramed : All (λ d. IsFramed d.rv64) (defined host)
  unfolding defined
  defined-IsFramed = assumption (
    alu-IsFramed {W = W},
    alu_imm-IsFramed {W = W},
    word-IsFramed {W = W},
    mul_div-IsFramed {W = W},
    branches-IsFramed {W = W},
    memory-IsFramed host,
    float-IsFramed {W = W} host.fpu,
    scall-IsFramed host,
  )

  defined-IsAligned : All (λ d. IsAligned d.rv64) (defined host)
  unfolding defined
  defined-IsAligned = assumption (
    alu-IsAligned {W = W},
    alu_imm-IsAligned {W = W},
    word-IsAligned {W = W},
    mul_div-IsAligned {W = W},
    branches-IsAligned {W = W},
    memory-IsAligned host,
    float-IsAligned {W = W} host.fpu,
    scall-IsAligned host,
  )

  All-append_one :
      (P : InsnDesc W → Type 0) (xs : List (InsnDesc W)) (d : InsnDesc W)
      → All P xs
      → P d
      → All P (xs ++ d ∷ [])
  All-append_one P [] d h p = (p, tt)
  All-append_one P (x ∷ xs) d h p = (h.0, All-append_one P xs d h.1 p)

  All-In :
      (P : InsnDesc W → Type 0) (xs : List (InsnDesc W)) (d : InsnDesc W) → All P xs → In d xs → P d
  All-In P [] d h i = absurd i
  All-In P (x ∷ xs) d h (inl same) = subst P (sym same) h.0
  All-In P (x ∷ xs) d h (inr i) = All-In P xs d h.1 i

  instructions-IsFramed : All (λ d. IsFramed d.rv64) (instructions host)
  unfolding instructions illegal_instruction
  instructions-IsFramed =
      All-append_one (λ d. IsFramed d.rv64) (defined host) illegal defined-IsFramed
        (λ p _ _. Frame-refl p)

  -- Every instruction that `decode_insn` can return is framed.
  pub In-IsFramed : (d : InsnDesc W) → In d (instructions host) → IsFramed d.rv64
  In-IsFramed d i = All-In (λ d. IsFramed d.rv64) (instructions host) d instructions-IsFramed i

  instructions-IsAligned : All (λ d. IsAligned d.rv64) (instructions host)
  unfolding instructions illegal_instruction
  instructions-IsAligned =
      All-append_one (λ d. IsAligned d.rv64) (defined host) illegal defined-IsAligned
        (λ p _ _ h. refl)

  -- Every instruction that `decode_insn` can return keeps the program counter aligned.
  pub In-IsAligned : (d : InsnDesc W) → In d (instructions host) → IsAligned d.rv64
  In-IsAligned d i = All-In (λ d. IsAligned d.rv64) (instructions host) d instructions-IsAligned i
