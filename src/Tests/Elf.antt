-- ===== src/Tests/Elf.antt =====
-- A small ELF file: one segment, and five sections of which the last is `.rodata`.
use mathlib.Core.Path.{subst}
use riscv_isa_simulator.Base.{
  ℕ, zero, suc, ◌+◌, ◌≤◌, ◌<◌, ◌^◌, ◌≡◌, refl, arith, Bool, true, false, ◌||◌, ◌==◌, List, [], ◌∷◌,
  ◌++◌, some, replicate, get_elem?, drop,
}
use riscv_isa_simulator.Elf.Tables.{Ehdr, Phdr, Shdr, array_of}
use riscv_isa_simulator.Elf.{Buffer, find_tables, note_table, is_named, strcmp_eq}
use riscv_isa_simulator.Elf.Image.{InFile}
use riscv_isa_simulator.Elf.Sections.{IsTerminated}
use riscv_isa_simulator.Elf.Layout.{sections_of}
use riscv_isa_simulator.Elf.Start.{IsElf}
use riscv_isa_simulator.Elf.Format.{print_elf}

abbrev pub ehdr : Ehdr
ehdr = record {
  e_ident = 0x7f ∷ b'E' ∷ b'L' ∷ b'F' ∷ replicate 12 1;
  e_type = 2;
  e_machine = 243;
  e_version = 1;
  e_entry = 0x10000;
  e_phoff = 72;
  e_shoff = 136;
  e_flags = 0;
  e_ehsize = 64;
  e_phentsize = 56;
  e_phnum = 1;
  e_shentsize = 64;
  e_shnum = 5;
  e_shstrndx = 3;
}

abbrev pub text : Phdr
text = record {
  p_type = 1;
  p_flags = 5;
  p_offset = 456;
  p_vaddr = 0x10000;
  p_paddr = 0x10000;
  p_filesz = 12;
  p_memsz = 12;
  p_align = 4;
}

abbrev pub section : ℕ → ℕ → ℕ → ℕ → ℕ → Shdr
section name addr offset size entsize = record {
  sh_name = name;
  sh_type = 1;
  sh_flags = 0;
  sh_addr = addr;
  sh_offset = offset;
  sh_size = size;
  sh_link = 0;
  sh_info = 0;
  sh_addralign = 1;
  sh_entsize = entsize;
}

abbrev pub no_section : Shdr
no_section = section 0 0 0 0 0

abbrev pub symtab : Shdr
symtab = section 1 0 468 0 24

abbrev pub strtab : Shdr
strtab = section 9 0 468 4 0

abbrev pub shstrtab : Shdr
shstrtab = section 17 0 468 35 0

abbrev rodata : Shdr
rodata = section 27 0x20000 503 8 0

abbrev pub shdrs : List Shdr
shdrs = no_section ∷ symtab ∷ strtab ∷ shstrtab ∷ rodata ∷ []

-- addi x5, x5, -1; add x6, x6, x5; bne x5, x0, -8
abbrev pub code : List ℕ
code = 0x93 ∷ 0x82 ∷ 0xf2 ∷ 0xff ∷ 0x33 ∷ 0x03 ∷ 0x53 ∷ 0x00 ∷ 0xe3 ∷ 0x9c ∷ 0x02 ∷ 0xfe ∷ []

abbrev pub section_names : List ℕ
section_names =
    0 ∷ b'.' ∷ b's' ∷ b'y' ∷ b'm' ∷ b't' ∷ b'a' ∷ b'b' ∷ 0 ∷ b'.' ∷ b's' ∷ b't' ∷ b'r' ∷ b't' ∷ b'a'
    ∷ b'b' ∷ 0 ∷ b'.' ∷ b's' ∷ b'h' ∷ b's' ∷ b't' ∷ b'r' ∷ b't' ∷ b'a' ∷ b'b' ∷ 0 ∷ b'.' ∷ b'r'
    ∷ b'o' ∷ b'd' ∷ b'a' ∷ b't' ∷ b'a' ∷ 0 ∷ []

-- What stands in front of each table.
abbrev pub padding : List ℕ
padding = replicate 8 0xee

abbrev pub body : List ℕ
body = code ++ (section_names ++ replicate 8 7)

abbrev pub elf : List ℕ
elf = print_elf ehdr padding (text ∷ []) padding shdrs body

-- What is where no initialiser puts a value.
abbrev pub raw : Buffer → ℕ → ℕ
raw b i = 0xcd

-- A name ends before the table does.
abbrev has_zero : List ℕ → Bool
has_zero [] = false
has_zero (b ∷ text) = (b == 0) || has_zero text

pub has_zero-IsTerminated : (text : List ℕ) → has_zero text ≡ true → IsTerminated text
has_zero-IsTerminated [] h = cc
has_zero-IsTerminated (b ∷ text) h = ground (arith, has_zero-IsTerminated text)

pub InFile-elf :
    (start addr size : ℕ) → start + size ≤ 511 → addr < 2 ^ 64 → InFile elf start addr size
InFile-elf start addr size h a = record {
  start_fits = omega arith;
  addr_fits = a;
  size_fits = omega arith;
  within = h;
}

-- One of the first four sections.
pub first_four :
    (P : Shdr → Type 0) (k : ℕ) (s : Shdr)
    → P no_section
    → P symtab
    → P strtab
    → P shstrtab
    → k < 4
    → get_elem? (sections_of elf) k ≡ some s
    → P s
unfolding array_of
first_four P zero s a b c d lt e = let same : no_section ≡ s = (cc) in subst P same a
first_four P (suc zero) s a b c d lt e = let same : symtab ≡ s = (cc) in subst P same b
first_four P (suc (suc zero)) s a b c d lt e = let same : strtab ≡ s = (cc) in subst P same c
first_four P (suc (suc (suc zero))) s a b c d lt e =
    let same : shstrtab ≡ s = (cc) in subst P same d
first_four P (suc (suc (suc (suc k)))) s a b c d lt e = absurd (omega arith)

pub elf-IsElf : IsElf elf shstrtab strtab symtab 2 1
unfolding array_of find_tables note_table is_named strcmp_eq
elf-IsElf = record {
  header = omega arith;
  progs_low = omega arith;
  progs = omega arith;
  sections_low = omega arith;
  sections = omega arith;
  names_at = refl;
  names_low = omega arith;
  names_within = omega arith;
  tables = refl;
  str_at = refl;
  sym_at = refl;
  entsize = λ e. absurd (omega arith);
  symbols = omega arith;
  has_sections = record {
    four = omega arith;
    named = (
      has_zero-IsTerminated (drop 0 section_names) refl,
      (
        has_zero-IsTerminated (drop 1 section_names) refl,
        (
          has_zero-IsTerminated (drop 9 section_names) refl,
          (
            has_zero-IsTerminated (drop 17 section_names) refl,
            (has_zero-IsTerminated (drop 27 section_names) refl, tt),
          ),
        ),
      ),
    );
    in_file = λ j s lt e.
        first_four (λ s. InFile elf s.sh_offset s.sh_addr s.sh_size) j s
          (InFile-elf 0 0 0 (omega arith) (omega arith))
          (InFile-elf 468 0 0 (omega arith) (omega arith))
          (InFile-elf 468 0 4 (omega arith) (omega arith))
          (InFile-elf 468 0 35 (omega arith) (omega arith)) lt e;
  };
  segments = (InFile-elf 456 0x10000 12 (omega arith) (omega arith), tt);
}
