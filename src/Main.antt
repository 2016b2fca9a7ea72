-- ===== src/Main.antt =====
-- riscv-simulator.cpp: `main`, which takes the path of a program, loads it and runs it. The file system
-- is the argument `fopen`: the stream that `fopen` opens at a path for reading, if it does.
pub mod Boot
use riscv_isa_simulator.Base.{
  ℕ, List, [], ◌∷◌, Option, none, some, length, ltb, if◌then◌else◌, Result, ok, trap, ◌>>=◌,
  undefined,
}
use riscv_isa_simulator.Cpu.{Cpu}
use riscv_isa_simulator.Cpu.Host.{Host}
use riscv_isa_simulator.Elf.{Buffer, new_mmu}
use riscv_isa_simulator.Elf.Stream.{File}
use riscv_isa_simulator.Step.{new_cpu, step_loop}

-- The word that `scanf` puts into `new char[100]`; when there is none, the array is printed and
-- opened without a value.
unfoldable pub typed_path : Option (List ℕ) → Result (List ℕ)
typed_path none = trap undefined
typed_path (some word) = if ltb (length word) 100 then ok word else trap undefined

-- `argc < 2` or not, from the list `argv` of `argc` strings.
unfoldable pub choose_path : List (List ℕ) → Option (List ℕ) → Result (List ℕ)
unfolding typed_path
choose_path [] typed = typed_path typed
choose_path (program ∷ []) typed = typed_path typed
choose_path (program ∷ path ∷ rest) typed = ok path

module _ {W : Type 0} (host : Host W) (raw : Buffer → ℕ → ℕ) (raw_cpu : Cpu W)
    (fopen : List ℕ → Option File) where
  -- new cpu_t(path)
  unfoldable pub boot : List ℕ → Result (Cpu W)
  boot path = new_mmu raw (fopen path) >>= new_cpu host raw_cpu

  -- int main(int argc, char *argv[]), with fuel for the loop of `step(0)`.
  unfoldable pub main : ℕ → List (List ℕ) → Option (List ℕ) → Option (Result (Cpu W))
  unfolding boot choose_path
  main fuel argv typed = elim (choose_path argv typed >>= boot) [
    | ok cpu ↦ step_loop host fuel 0 0 cpu
    | trap e ↦ some (trap e)
  ]
