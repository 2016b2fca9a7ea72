-- ===== src/Step/Run.antt =====
-- The loop of `step`: how many rounds it makes, and what holds through all of them.
use riscv_isa_simulator.Base.{
  ℕ, zero, suc, true, false, ◌+◌, ◌≡◌, ◌≢◌, ◌<◌, refl, arith, Option, some, ltb, ◌==◌, ◌||◌, Result,
  ok, trap, ◌>>=◌, ◌∙◌, Keeps, Keeps-bind, Keeps-weaken,
}
use riscv_isa_simulator.Cpu.{Cpu}
use riscv_isa_simulator.Cpu.Host.{Host}
use riscv_isa_simulator.Step.{step_once, step_loop}
use riscv_isa_simulator.Step.Frame.{StepFrame, step_once-StepFrame}

module _ {W : Type 0} (host : Host W) where
  -- `n` rounds, one after the other.
  unfoldable pub run : ℕ → Cpu W → Result (Cpu W)
  run zero p = ok p
  run (suc n) p = step_once host p >>= run n

  rest_runs :
      (fuel steps step left : ℕ) (r : Result (Cpu W))
      → ((q : Cpu W) → step_loop host fuel steps step q ≡ some (run left q))
      → (elim r as (λ _. Option (Result (Cpu W))) [
        | ok q ↦ step_loop host fuel steps step q
        | trap e ↦ some (trap e)
      ])
        ≡ some (r >>= run left)
  rest_runs fuel steps step left (ok q) h = h q
  rest_runs fuel steps step left (trap e) h = refl

  rest_endless :
      (fuel step : ℕ) (r : Result (Cpu W)) (q : Cpu W)
      → ((p : Cpu W) → step_loop host fuel 0 step p ≢ some (ok q))
      → (elim r as (λ _. Option (Result (Cpu W))) [
        | ok p ↦ step_loop host fuel 0 step p
        | trap e ↦ some (trap e)
      ])
        ≢ some (ok q)
  rest_endless fuel step (ok p) q h = h p
  rest_endless fuel step (trap e) q h = λ e'. cc

  step_loop-run_from :
      (left step steps fuel : ℕ) (p : Cpu W)
      → step + left ≡ steps
      → 0 < steps
      → left < fuel
      → step_loop host fuel steps step p ≡ some (run left p)
  unfolding step_loop run
  step_loop-run_from left step steps zero p e pos enough = absurd (omega arith)
  step_loop-run_from zero step steps (suc fuel) p e pos enough =
      let done : (steps == 0 || ltb step steps) ≡ false = ground arith in rw done
  step_loop-run_from (suc left) step steps (suc fuel) p e pos enough =
      let more : (steps == 0 || ltb step steps) ≡ true = ground arith in
      rw more (
        rest_runs fuel steps (step + 1) left (step_once host p)
          (λ q. step_loop-run_from left (step + 1) steps fuel q (omega arith) pos (omega arith)))

  -- With `steps` above 0 and fuel for one more round the loop ends, with the result of `steps` rounds
  -- in a row.
  pub step_loop-run :
      (steps : ℕ) (p : Cpu W)
      → 0 < steps
      → step_loop host (suc steps) steps 0 p ≡ some (run steps p)
  step_loop-run steps p pos =
      step_loop-run_from steps 0 steps (suc steps) p (omega arith) pos (omega arith)

  -- With `steps` at 0 the loop does not end with a state, whatever the fuel and the round.
  pub step_loop_endless : (fuel step : ℕ) (p q : Cpu W) → step_loop host fuel 0 step p ≢ some (ok q)
  unfolding step_loop
  step_loop_endless zero step p q = λ e. cc
  step_loop_endless (suc fuel) step p q =
      rest_endless fuel (step + 1) (step_once host p) q
        (λ p'. step_loop_endless fuel (step + 1) p' q)

  StepFrame-refl : (p : Cpu W) → StepFrame p p
  StepFrame-refl p = record {
    zero_reg = refl;
    xpr_size = refl;
    fpr_size = refl;
    forbid = refl;
    entry = refl;
    fflags = refl;
    frm = refl;
  }

  StepFrame-trans : {p q r : Cpu W} → StepFrame p q → StepFrame q r → StepFrame p r
  StepFrame-trans f g = record {
    zero_reg = g.zero_reg ∙ f.zero_reg;
    xpr_size = g.xpr_size ∙ f.xpr_size;
    fpr_size = g.fpr_size ∙ f.fpr_size;
    forbid = g.forbid ∙ f.forbid;
    entry = g.entry ∙ f.entry;
    fflags = g.fflags ∙ f.fflags;
    frm = g.frm ∙ f.frm;
  }

  -- After any number of rounds that do not trap register 0, the sizes of the register files, the
  -- forbidden blocks, the entry point, `fflags` and `frm` are what they were.
  pub run-StepFrame : (n : ℕ) (p : Cpu W) → Keeps (StepFrame p) (run n p)
  unfolding run
  run-StepFrame zero p = StepFrame-refl p
  run-StepFrame (suc n) p =
      Keeps-bind (StepFrame p) (StepFrame p) (step_once host p) (run n) (step_once-StepFrame host p)
        (λ q f.
          Keeps-weaken (StepFrame q) (StepFrame p) (run n q) (λ r g. StepFrame-trans f g)
            (run-StepFrame n q))
