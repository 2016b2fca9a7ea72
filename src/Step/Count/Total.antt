-- ===== src/Step/Count/Total.antt =====
-- The counts add up to the number of instructions that were executed.
use Prim.Native.String.{String}
use text.Mathlib.Text.{◌==◌ as str_eq}
use riscv_isa_simulator.Base.{
  ℕ, zero, suc, ◌+◌, ◌≡◌, ap, ◌∙◌, arith, Bool-cases, inl, inr, List, [], ◌∷◌, ok, trap, undefined,
  ltb, ◌^◌, ◌-◌, Keeps, Keeps-bind, Keeps-then, Keeps-weaken,
}
use riscv_isa_simulator.Structs.Regfile.{if_either}
use riscv_isa_simulator.Mmu
use riscv_isa_simulator.Cpu.{Cpu}
use riscv_isa_simulator.Cpu.Host.{Host}
use riscv_isa_simulator.Decode.Unique.{decode_insn_total}
use riscv_isa_simulator.Decode.Table.{In-IsFramed}
use riscv_isa_simulator.Func.Frame.{Frame}
use riscv_isa_simulator.Step.{increment, step_once}
use riscv_isa_simulator.Step.Run.{run}

-- The sum of the counts.
abbrev pub total : List (String × ℕ) → ℕ
total [] = 0
total ((name, n) ∷ rest) = n + total rest

increment-total :
    (name : String) (counts : List (String × ℕ))
    → Keeps (λ counts'. total counts' ≡ total counts + 1) (increment name counts)
unfolding increment
increment-total name [] = tt
increment-total name ((other, n) ∷ rest) = elim (Bool-cases (str_eq other name)) [
  | inl hit ↦ rw hit (
      if_either (Keeps (λ counts'. total counts' ≡ n + total rest + 1)) (ltb n (2 ^ 31 - 1))
        {s = ok ((other, n + 1) ∷ rest)} {t = trap undefined} (omega arith) tt)
  | inr miss ↦ rw miss (
      Keeps-bind (λ counts'. total counts' ≡ total rest + 1)
        (λ counts'. total counts' ≡ n + total rest + 1) (increment name rest)
        (λ rest'. ok ((other, n) ∷ rest')) (increment-total name rest) (λ rest' h. omega arith))
]

module _ {W : Type 0} (host : Host W) where
  abbrev More : ℕ → Cpu W → Cpu W → Type 0
  More n p q = total q.insn_count ≡ total p.insn_count + n

  step_once-More : (p : Cpu W) → Keeps (More 1 p) (step_once host p)
  unfolding step_once
  step_once-More p = Keeps-then (More 1 p) (Mmu.load_insn p.mmu p.pc) _ λ insn.
      let (d, decoded, (m, i)) = decode_insn_total host insn in
      rw decoded (
        Keeps-bind (λ counts. total counts ≡ total p.insn_count + 1) (More 1 p)
          (increment d.name p.insn_count) _ (increment-total d.name p.insn_count)
          λ counts one.
            Keeps-bind
              (λ (r : ℕ × Cpu W). Frame (record p { c_insn = insn; insn_count = counts }) r.1)
              (More 1 p) (d.rv64 (record p { c_insn = insn; insn_count = counts }) insn p.pc) _
              (In-IsFramed host d i _ insn p.pc) (λ r f. ap total f.insn_count ∙ one))

  -- `n` rounds that do not trap, as the overflow of a count does, raise the sum of the counts by `n`.
  pub run-More :
      (n : ℕ) (p : Cpu W) → Keeps (λ q. total q.insn_count ≡ total p.insn_count + n) (run host n p)
  unfolding run
  run-More zero p = omega arith
  run-More (suc n) p =
      Keeps-bind (More 1 p) (More (suc n) p) (step_once host p) (run host n) (step_once-More p)
        (λ q one.
          Keeps-weaken (More n q) (More (suc n) p) (run host n q) (λ r more. omega arith)
            (run-More n q))
