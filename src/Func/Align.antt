-- ===== src/Func/Align.antt =====
-- The program counter stays a multiple of 4: the shapes that the bodies of func.h have.
use riscv_isa_simulator.Base.{
  ℕ, Bool, ◌%◌, ◌^◌, ◌<◌, ◌≡◌, arith, ◌==◌, ltb, xlen, if◌then◌else◌, bit_and, add64, not64,
  sext_xlen_lem, Bool-cases, inl, inr, ok, Result, ◌>>=◌, Keeps, Keeps-bind, Keeps-then,
}
use riscv_isa_simulator.Base.Bits.{bit_and_bit, bit_and_even}
use riscv_isa_simulator.Structs.{Insn, shamt}
use riscv_isa_simulator.Structs.Fields.{sb_imm_sum, uj_imm_sum}
use riscv_isa_simulator.Structs.Regfile.{if_either}
use riscv_isa_simulator.Cpu.{Cpu, InsnFunc, next_pc, set_pc, branch_target, jump_target, write_rd}
use riscv_isa_simulator.Func.Branch.{branch, jump}

pub next_pc-mod : (pc : ℕ) → pc % 4 ≡ 0 → next_pc pc % 4 ≡ 0
unfolding next_pc
next_pc-mod pc h = rw (sext_xlen_lem (add64 pc 4) (omega arith)) (omega arith)

set_pc-mod : (x : ℕ) → x < 2 ^ 64 → x % 2 ≡ 0 → Keeps (λ (npc : ℕ). npc % 4 ≡ 0) (set_pc x)
unfolding set_pc
set_pc-mod x h even = elim (Bool-cases (bit_and x 2 == 0)) [
  | inl clear ↦ rw (clear, sext_xlen_lem x h) (ground (arith, bit_and_bit 1 x))
  | inr misaligned ↦ rw misaligned tt
]

module _ {W : Type 0} where
  -- From an aligned program counter, the next one is aligned.
  abbrev pub IsAligned : InsnFunc W → Type 0
  IsAligned f =
      (p : Cpu W) (insn : Insn) (pc : ℕ)
      → pc % 4 ≡ 0
      → Keeps (λ (r : ℕ × Cpu W). r.0 % 4 ≡ 0) (f p insn pc)

  pub then-IsAligned :
      {A : Type 0} (r : Cpu W → Insn → ℕ → Result A) (q : Cpu W → Insn → ℕ → A → Cpu W)
      → IsAligned (λ p insn pc. r p insn pc >>= λ v. ok (next_pc pc, q p insn pc v))
  then-IsAligned r q p insn pc h =
      Keeps-then (λ (t : ℕ × Cpu W). t.0 % 4 ≡ 0) (r p insn pc)
        (λ v. ok (next_pc pc, q p insn pc v)) (λ v. next_pc-mod pc h)

  pub required-IsAligned :
      (f g : InsnFunc W)
      → IsAligned f
      → IsAligned g
      → IsAligned (λ p insn pc. if ltb (shamt insn) xlen then f p insn pc else g p insn pc)
  required-IsAligned f g h k p insn pc a =
      if_either (Keeps (λ (r : ℕ × Cpu W). r.0 % 4 ≡ 0)) _ (h p insn pc a) (k p insn pc a)

  pub branch-IsAligned :
      (taken : Cpu W → Insn → ℕ → Bool)
      → IsAligned (λ p insn pc. branch (taken p insn pc) p insn pc)
  unfolding branch branch_target
  branch-IsAligned taken p insn pc h =
      Keeps-bind (λ (npc : ℕ). npc % 4 ≡ 0) (λ (r : ℕ × Cpu W). r.0 % 4 ≡ 0)
        (if taken p insn pc then set_pc (branch_target pc insn) else ok (next_pc pc))
        (λ npc. ok (npc, p))
        (if_either (Keeps (λ (npc : ℕ). npc % 4 ≡ 0)) (taken p insn pc) {t = ok (next_pc pc)}
          (set_pc-mod (branch_target pc insn) (omega arith) (omega (arith, sb_imm_sum insn)))
          (next_pc-mod pc h))
        (λ npc a. a)

  jump-IsAligned :
      (target : Cpu W → Insn → ℕ → ℕ)
      → ((p : Cpu W) (insn : Insn) (pc : ℕ)
          → pc % 4 ≡ 0
          → (target p insn pc < 2 ^ 64) × (target p insn pc % 2 ≡ 0))
      → IsAligned (λ p insn pc. jump (target p insn pc) p insn pc)
  unfolding jump
  jump-IsAligned target even p insn pc h =
      let (small, low) = even p insn pc h in
      Keeps-bind (λ (npc : ℕ). npc % 4 ≡ 0) (λ (r : ℕ × Cpu W). r.0 % 4 ≡ 0)
        (set_pc (target p insn pc)) (λ npc. ok (npc, write_rd p insn (next_pc pc)))
        (set_pc-mod (target p insn pc) small low) (λ npc a. a)

  pub jal-IsAligned : IsAligned (λ p insn pc. jump (jump_target pc insn) p insn pc)
  unfolding jump_target
  jal-IsAligned = jump-IsAligned _ (λ p insn pc h. (omega arith, omega (arith, uj_imm_sum insn)))

  pub jalr-IsAligned :
      (base : Cpu W → Insn → ℕ) (offset : Insn → ℕ)
      → IsAligned
          (λ p insn pc. jump (bit_and (add64 (base p insn) (offset insn)) (not64 1)) p insn pc)
  jalr-IsAligned base offset = jump-IsAligned _ λ p insn pc h.
      let sum = add64 (base p insn) (offset insn) in
      let e = bit_and_even sum (omega arith) in (omega arith, omega arith)
