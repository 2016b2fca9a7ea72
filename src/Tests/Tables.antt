-- ===== src/Tests/Tables.antt =====
-- The theorems on the tables of the small ELF file, and on that file without a symbol table.
use riscv_isa_simulator.Base.{
  ℕ, ◌<◌, ◌^◌, ◌≡◌, refl, arith, List, [], ◌∷◌, ◌++◌, some, replicate, drop, All, trap, exited, inr,
  none, Returns, ◌>>=◌,
}
use riscv_isa_simulator.Elf.Tables.{array_of}
use riscv_isa_simulator.Elf.{
  Loader, read_elf_header, read_prog_headers, read_sec_headers, is_named, strcmp_eq, new_mmu,
  s_symtab,
}
use riscv_isa_simulator.Elf.Layout.{slice, sections_of, at, names_of}
use riscv_isa_simulator.Elf.Refuse.{HasTables, Lacks, new_mmu_refuses}
use riscv_isa_simulator.Elf.Entries.{IsEhdr, IsPhdr, IsShdr}
use riscv_isa_simulator.Elf.Format.{print_elf, tables-print_elf}
use riscv_isa_simulator.Tests.Elf.{
  padding, body, ehdr, text, section, shdrs, code, section_names, elf, raw, shstrtab,
  has_zero-IsTerminated,
}

ehdr-IsEhdr : IsEhdr ehdr
ehdr-IsEhdr = record {
  e_ident = refl;
  e_type = omega arith;
  e_machine = omega arith;
  e_version = omega arith;
  e_entry = omega arith;
  e_phoff = omega arith;
  e_shoff = omega arith;
  e_flags = omega arith;
  e_ehsize = omega arith;
  e_phentsize = omega arith;
  e_phnum = omega arith;
  e_shentsize = omega arith;
  e_shnum = omega arith;
  e_shstrndx = omega arith;
}

text-IsPhdr : IsPhdr text
text-IsPhdr = record {
  p_type = omega arith;
  p_flags = omega arith;
  p_offset = omega arith;
  p_vaddr = omega arith;
  p_paddr = omega arith;
  p_filesz = omega arith;
  p_memsz = omega arith;
  p_align = omega arith;
}

section-IsShdr :
    (name addr offset size entsize : ℕ)
    → name < 2 ^ 32
    → addr < 2 ^ 64
    → offset < 2 ^ 64
    → size < 2 ^ 64
    → entsize < 2 ^ 64
    → IsShdr (section name addr offset size entsize)
section-IsShdr name addr offset size entsize n a o s e = record {
  sh_name = n;
  sh_type = omega arith;
  sh_flags = omega arith;
  sh_addr = a;
  sh_offset = o;
  sh_size = s;
  sh_link = omega arith;
  sh_info = omega arith;
  sh_addralign = omega arith;
  sh_entsize = e;
}

shdrs-IsShdr : All IsShdr shdrs
shdrs-IsShdr = (
  section-IsShdr 0 0 0 0 0 (omega arith) (omega arith) (omega arith) (omega arith) (omega arith),
  (
    section-IsShdr 1 0 468 0 24 (omega arith) (omega arith) (omega arith) (omega arith)
        (omega arith),
    (
      section-IsShdr 9 0 468 4 0 (omega arith) (omega arith) (omega arith) (omega arith)
          (omega arith),
      (
        section-IsShdr 17 0 468 35 0 (omega arith) (omega arith) (omega arith) (omega arith)
            (omega arith),
        (
          section-IsShdr 27 0x20000 503 8 0 (omega arith) (omega arith) (omega arith) (omega arith)
              (omega arith),
          tt,
        ),
      ),
    ),
  ),
)

-- A loader that has read nothing yet.
abbrev blank : Loader
blank = record {
  file = at [] 0;
  mem = [];
  forbid = [];
  header = record ehdr { e_phoff = 0; e_phnum = 0; e_shoff = 0; e_shnum = 0 };
  progs = [];
  sections = [];
  names = [];
  strings = [];
  symbols = [];
  index_strtab = none;
  index_symtab = none;
}

tables-print_elf_example :
    Returns
      (read_elf_header raw (record blank { file = at elf 0 }) >>= λ l₁.
        read_sec_headers raw (read_prog_headers raw l₁))
      λ l'.
        (l'.header ≡ ehdr)
        × (l'.progs ≡ text ∷ [])
        × (l'.sections ≡ shdrs)
        × (l'.names ≡ slice elf shstrtab.sh_offset shstrtab.sh_size)
tables-print_elf_example =
    tables-print_elf ehdr padding (text ∷ []) padding shdrs body raw blank shstrtab ehdr-IsEhdr
      (text-IsPhdr, tt) shdrs-IsShdr refl refl refl refl (omega arith) refl (omega arith)
      (omega arith)

-- The file with the name `.symtab` made `.symtbb`.
abbrev other_names : List ℕ
other_names = 0 ∷ b'.' ∷ b's' ∷ b'y' ∷ b'm' ∷ b't' ∷ b'b' ∷ b'b' ∷ drop 8 section_names

abbrev no_symtab : List ℕ
no_symtab =
    print_elf ehdr padding (text ∷ []) padding shdrs (code ++ (other_names ++ replicate 8 7))

no_symtab-HasTables : HasTables no_symtab shstrtab
unfolding array_of
no_symtab-HasTables = record {
  header = omega arith;
  progs_low = omega arith;
  progs = omega arith;
  sections_low = omega arith;
  sections = omega arith;
  names_at = refl;
  names_low = omega arith;
  names_within = omega arith;
  named = (
    has_zero-IsTerminated (drop 0 other_names) refl,
    (
      has_zero-IsTerminated (drop 1 other_names) refl,
      (
        has_zero-IsTerminated (drop 9 other_names) refl,
        (
          has_zero-IsTerminated (drop 17 other_names) refl,
          (has_zero-IsTerminated (drop 27 other_names) refl, tt),
        ),
      ),
    ),
  );
}

no_symtab-Lacks : Lacks s_symtab (names_of no_symtab shstrtab) (sections_of no_symtab)
unfolding array_of is_named strcmp_eq
no_symtab-Lacks = (refl, (refl, (refl, (refl, (refl, tt)))))

new_mmu_refuses_example : new_mmu raw (some (at no_symtab 0)) ≡ trap (exited 1)
new_mmu_refuses_example =
    new_mmu_refuses raw no_symtab shstrtab no_symtab-HasTables (inr no_symtab-Lacks)
