-- ===== src/Step.antt =====
-- The constructor of `cpu_t` and its method `step`: fetch, decode, count and execute.
pub mod Frame
pub mod Run
pub mod Start
pub mod Align
pub mod Illegal
pub mod Count
use Prim.Native.String.{String}
use text.Mathlib.Text.{◌==◌ as str_eq}
use riscv_isa_simulator.Base.{
  ℕ, zero, suc, ◌+◌, ◌-◌, ◌^◌, true, ◌||◌, List, [], ◌∷◌, Option, none, some, ltb, ◌==◌,
  if◌then◌else◌, Result, ok, trap, ◌>>=◌, map, undefined,
}
use riscv_isa_simulator.Structs.Regfile
use riscv_isa_simulator.Structs.Regfile.{Regfile}
use riscv_isa_simulator.Mmu
use riscv_isa_simulator.Mmu.{Mmu}
use riscv_isa_simulator.Cpu.{Cpu}
use riscv_isa_simulator.Cpu.Host.{Host}
use riscv_isa_simulator.Decode.{InsnDesc, decode_insn, instructions}

-- `iter->second = iter->second + 1` at the entry of `name`; the number is an `int`, and its overflow is
-- undefined.
unfoldable pub increment : String → List (String × ℕ) → Result (List (String × ℕ))
increment name [] = trap undefined
increment name ((other, n) ∷ rest) =
    let later = increment name rest in
    if str_eq other name
    then if ltb n (2 ^ 31 - 1) then ok ((other, n + 1) ∷ rest) else trap undefined
    else (later >>= λ rest'. ok ((other, n) ∷ rest'))

-- const reg_t SP_INIT
abbrev pub sp_init : ℕ
sp_init = 0xfffffffffefffb50

module _ {W : Type 0} (host : Host W) where
  -- `insn_count` after `register_instructions`
  unfoldable pub no_counts : List (String × ℕ)
  no_counts = map (λ (d : InsnDesc W). (d.name, 0)) (instructions host)

  -- cpu_t(const char * path), from the memory that `mmu_t(path)` loads. What the registers hold
  -- before is not set by the program: it is the argument `raw`.
  unfoldable pub new_cpu : Cpu W → Mmu → Result (Cpu W)
  unfolding no_counts
  new_cpu raw m = do
    mmu' ← Mmu.write_64 host.end_key m sp_init 0
    ok (record raw {
      pc = Mmu.start_addr m;
      xpr = Regfile.write true raw.xpr 2 sp_init;
      mmu = mmu';
      insn_count = no_counts;
    })

  -- One round of the loop of `step`.
  unfoldable pub step_once : Cpu W → Result (Cpu W)
  step_once p = do
    insn ← Mmu.load_insn p.mmu p.pc
    desc ← decode_insn (instructions host) insn
    counts ← increment desc.name p.insn_count
    (npc, p') ← desc.rv64 (record p { c_insn = insn; insn_count = counts }) insn p.pc
    ok (record p' { pc = npc })

  -- `while (steps == 0 || step < steps)`; `none` means that the fuel ran out. `step` is a number without
  -- bound: where the loop's condition reads the `int` of the program, it is at most `steps`; with
  -- `steps` at 0 the condition does not read it, and its overflow is not modelled.
  unfoldable pub step_loop : ℕ → ℕ → ℕ → Cpu W → Option (Result (Cpu W))
  step_loop zero steps step p = none
  step_loop (suc fuel) steps step p =
      let next : Option (Result (Cpu W)) = elim (step_once p) [
        | ok p' ↦ step_loop fuel steps (step + 1) p'
        | trap e ↦ some (trap e)
      ] in
      if steps == 0 || ltb step steps then next else some (ok p)
