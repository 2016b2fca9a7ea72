-- ===== src/Main/Boot.antt =====
-- `main` on an ELF file: the processor that it starts.
use riscv_isa_simulator.Base.{
  ℕ, ◌+◌, ◌^◌, ◌≤◌, ◌<◌, ◌≡◌, ◌≢◌, refl, ◌∙◌, arith, List, Option, none, some, length, get_elem?,
  add64, ◌⊎◌, Result, ok, trap, ◌>>=◌, >>=-ok,
}
use riscv_isa_simulator.Mmu.StdMap.{Map, find}
use riscv_isa_simulator.Mmu.Access.{EndApart, offset}
use mathlib.Core.Path.{subst}
use riscv_isa_simulator.Mmu.Permission.{HasBlock, ban_above}
use riscv_isa_simulator.Structs.Regfile
use riscv_isa_simulator.Cpu.{Cpu}
use riscv_isa_simulator.Cpu.Host.{Host}
use riscv_isa_simulator.Elf.{Buffer}
use riscv_isa_simulator.Elf.Stream.{File}
use riscv_isa_simulator.Elf.Tables.{Shdr}
use riscv_isa_simulator.Elf.Image.{range_byte, image}
use riscv_isa_simulator.Elf.Layout.{header_of, segments_of, sections_of, at}
use riscv_isa_simulator.Elf.Start.{IsElf, new_mmu_lem, image_there}
use riscv_isa_simulator.Func.Roundtrip.{IsFree}
use riscv_isa_simulator.Step.{sp_init, step_loop}
use riscv_isa_simulator.Step.Run.{step_loop_endless}
use riscv_isa_simulator.Step.Start.{new_cpu_lem}
use riscv_isa_simulator.Main.{choose_path, boot, main}

module _ {W : Type 0} (host : Host W) (raw : Buffer → ℕ → ℕ) (raw_cpu : Cpu W)
    (fopen : List ℕ → Option File) where
  started :
      (fuel : ℕ) (r : Result (Cpu W)) (q : Cpu W)
      → (elim r as (λ _. Option (Result (Cpu W))) [
        | ok cpu ↦ step_loop host fuel 0 0 cpu
        | trap e ↦ some (trap e)
      ])
        ≢ some (ok q)
  started fuel (ok p) q = step_loop_endless host fuel 0 p q
  started fuel (trap e) q = λ e'. cc

  -- Whatever the arguments, the input and the files, `main` does not come to its `return 0`: it ends by
  -- an exception, by `exit`, in undefined behaviour, or not at all.
  pub main_endless :
      (fuel : ℕ) (argv : List (List ℕ)) (typed : Option (List ℕ)) (q : Cpu W)
      → main host raw raw_cpu fopen fuel argv typed ≢ some (ok q)
  unfolding main
  main_endless fuel argv typed q =
      started fuel (choose_path argv typed >>= boot host raw raw_cpu fopen) q

  main_starts :
      (fuel : ℕ) (argv : List (List ℕ)) (typed : Option (List ℕ)) (path : List ℕ) (p : Cpu W)
      → choose_path argv typed ≡ ok path
      → boot host raw raw_cpu fopen path ≡ ok p
      → main host raw raw_cpu fopen fuel argv typed ≡ step_loop host fuel 0 0 p
  unfolding main
  main_starts fuel argv typed path p chosen booted =
      rw (>>=-ok (choose_path argv typed) (boot host raw raw_cpu fopen) chosen booted, main) refl

  module _ (bytes : List ℕ) (names str sym : Shdr) (i j : ℕ)
      (v : IsElf bytes names str sym i j) where
    -- On the path of an ELF file whose first four sections end below the stack pointer, `main` starts the
    -- loop of `step` with the entry point of the file in the program counter and the stack pointer in
    -- register 2. At an address outside the eight bytes from the stack pointer on, where the first
    -- four sections agree with the segments, memory holds the byte of the first segment that
    -- covers it, and nothing if none does. The register file has 32 entries, and the end iterator's
    -- key is no address of the eight bytes.
    pub main-image :
        (fuel : ℕ) (argv : List (List ℕ)) (typed : Option (List ℕ)) (path : List ℕ) (a : ℕ)
        → choose_path argv typed ≡ ok path
        → fopen path ≡ some (at bytes 0)
        → length raw_cpu.xpr ≡ 32
        → ((mem : Map) → EndApart host.end_key mem sp_init 8)
        → ((k : ℕ) (s : Shdr)
            → k < 4
            → get_elem? (sections_of bytes) k ≡ some s
            → add64 s.sh_addr s.sh_size < sp_init)
        → a < 2 ^ 64
        → 8 ≤ offset sp_init a
        → ((k : ℕ) (s : Shdr)
            → k < 4
            → get_elem? (sections_of bytes) k ≡ some s
            → let b = range_byte bytes s.sh_offset s.sh_addr s.sh_size a in
              (b ≡ none) ⊎ (b ≡ image bytes (segments_of bytes) a))
        → (p : Cpu W) × (main host raw raw_cpu fopen fuel argv typed ≡ step_loop host fuel 0 0 p)
          × (p.pc ≡ (header_of bytes).e_entry)
          × (Regfile.read p.xpr 2 ≡ sp_init)
          × (find p.mmu.mem a ≡ image bytes (segments_of bytes) a)
    unfolding boot
    main-image fuel argv typed path a chosen opened size apart below fits outside agree =
        let (m, made, (entry, mem, loaded, found)) = new_mmu_lem raw bytes names str sym i j v in
        let under : (f e : ℕ) → HasBlock m.forbid f e → e < sp_init = λ f e h.
          let (k, s, lt, at_k, p, q) = loaded.blocks f e h in
          subst (λ t. t < sp_init) q (below k s lt at_k) in
        let free : IsFree host.end_key m sp_init 8 = record {
          first = ban_above m.forbid sp_init under;
          last = ban_above m.forbid (sp_init + 7) (λ f e h. omega (arith, under f e h));
          apart = apart m.mem;
        } in
        let (p, run, (pc, sp, _, _, _, kept)) =
          new_cpu_lem host raw_cpu m 1 a size (omega arith) fits outside free in
        (
          p,
          main_starts fuel argv typed path p chosen (rw opened (>>=-ok _ _ made run)),
          pc ∙ entry,
          sp,
          kept ∙ image_there raw bytes names str sym i j v m mem a loaded (found a fits) fits agree,
        )
