-- ===== src/Tests/Boot.antt =====
-- The theorems on loading and on `main` with the small ELF file.
use riscv_isa_simulator.Base.{
  ℕ, ◌<◌, ◌≡◌, ◌≢◌, refl, arith, List, [], ◌∷◌, Option, none, some, get_elem?, add64, ◌⊎◌, inl, ok,
  Returns,
}
use riscv_isa_simulator.Structs.Regfile
use riscv_isa_simulator.Mmu.StdMap.{find}
use riscv_isa_simulator.Mmu.Permission.{HasBlock}
use riscv_isa_simulator.Cpu.{Cpu}
use riscv_isa_simulator.Cpu.Host.{Host}
use riscv_isa_simulator.Elf.Stream.{File}
use riscv_isa_simulator.Elf.Tables.{Shdr, array_of}
use riscv_isa_simulator.Elf.{new_mmu}
use riscv_isa_simulator.Elf.Image.{range_byte, image}
use riscv_isa_simulator.Elf.Layout.{header_of, segments_of, sections_of, at}
use riscv_isa_simulator.Elf.Start.{new_mmu-image, new_mmu_blocks}
use riscv_isa_simulator.Step.{sp_init, step_loop}
use riscv_isa_simulator.Main.{choose_path, main}
use riscv_isa_simulator.Main.Boot.{main-image, main_endless}
use riscv_isa_simulator.Tests.Elf.{elf, elf-IsElf, raw, symtab, strtab, shstrtab, first_four}
use riscv_isa_simulator.Tests.Machine.{host, cpu}

-- No section of the first four reaches the code.
abbrev Apart : Shdr → Type 0
Apart s =
    let b = range_byte elf s.sh_offset s.sh_addr s.sh_size 0x10004 in
    (b ≡ none) ⊎ (b ≡ image elf (segments_of elf) 0x10004)

sections-Apart : (k : ℕ) (s : Shdr) → k < 4 → get_elem? (sections_of elf) k ≡ some s → Apart s
sections-Apart k s lt e = first_four Apart k s (inl refl) (inl refl) (inl refl) (inl refl) lt e

new_mmu-image_example : Returns (new_mmu raw (some (at elf 0))) λ m.
    (m.entry ≡ (header_of elf).e_entry) × (find m.mem 0x10004 ≡ image elf (segments_of elf) 0x10004)
new_mmu-image_example =
    new_mmu-image raw elf shstrtab strtab symtab 2 1 elf-IsElf 0x10004 (omega arith) sections-Apart

-- The image is the code.
image_code : image elf (segments_of elf) 0x10004 ≡ some 0x33
unfolding array_of
image_code = refl

-- `.rodata`, the fifth section, is not forbidden.
abbrev NotRodata : Shdr → Type 0
NotRodata s = (s.sh_addr ≢ 0x20000) ⊎ (add64 s.sh_addr s.sh_size ≢ 0x20008)

zero_elsewhere : (n : ℕ) → n ≡ 0 → n ≢ 0x20000
zero_elsewhere n e = λ f. absurd (omega arith)

elsewhere : (k : ℕ) (s : Shdr) → k < 4 → get_elem? (sections_of elf) k ≡ some s → NotRodata s
elsewhere k s lt e =
    let off = zero_elsewhere 0 refl in
    first_four NotRodata k s (inl off) (inl off) (inl off) (inl off) lt e

new_mmu_blocks_example :
    Returns (new_mmu raw (some (at elf 0))) (λ m. ¬ HasBlock m.forbid 0x20000 0x20008)
new_mmu_blocks_example =
    new_mmu_blocks raw elf shstrtab strtab symtab 2 1 elf-IsElf 0x20000 0x20008 elsewhere

-- A host whose end node shows address 0.
abbrev narrow : Host ℕ
narrow = record host { end_key = λ m. 0 }

-- The file lies at every path.
abbrev disk : List ℕ → Option File
disk path = some (at elf 0)

main_endless_example :
    main narrow raw cpu disk 100 ((b'x' ∷ []) ∷ (b'a' ∷ []) ∷ []) none ≢ some (ok cpu)
main_endless_example =
    main_endless narrow raw cpu disk 100 ((b'x' ∷ []) ∷ (b'a' ∷ []) ∷ []) none cpu

abbrev Low : Shdr → Type 0
Low s = add64 s.sh_addr s.sh_size < sp_init

sections-Low : (k : ℕ) (s : Shdr) → k < 4 → get_elem? (sections_of elf) k ≡ some s → Low s
sections-Low k s lt e =
    first_four Low k s (omega arith) (omega arith) (omega arith) (omega arith) lt e

main-image_example :
    (p : Cpu ℕ) × (main narrow raw cpu disk 100 ((b'x' ∷ []) ∷ (b'a' ∷ []) ∷ []) none
      ≡ step_loop narrow 100 0 0 p)
    × (p.pc ≡ (header_of elf).e_entry)
    × (Regfile.read p.xpr 2 ≡ sp_init)
    × (find p.mmu.mem 0x10004 ≡ image elf (segments_of elf) 0x10004)
unfolding choose_path
main-image_example =
    main-image narrow raw cpu disk elf shstrtab strtab symtab 2 1 elf-IsElf 100
      ((b'x' ∷ []) ∷ (b'a' ∷ []) ∷ []) none (b'a' ∷ []) 0x10004 refl refl refl
      (λ mem m more most. omega arith) sections-Low (omega arith) (omega arith) sections-Apart
