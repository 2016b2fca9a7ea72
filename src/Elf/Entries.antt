-- ===== src/Elf/Entries.antt =====
-- The entries of the tables of an ELF file as a linker writes them, and that the structures of mmu.h
-- read them back.
use native.Mathlib.Nat.{pow-suc}
use riscv_isa_simulator.Base.{
  ℕ, zero, suc, ◌/◌, ◌%◌, ◌^◌, ◌<◌, ◌≡◌, refl, ap, arith, List, [], ◌∷◌, ◌++◌, length, drop, get_or,
}
use riscv_isa_simulator.Elf.Tables.{from_le, Ehdr, Phdr, Shdr, ehdr_of, phdr_of, shdr_of}

-- The low `width` bytes of a number, lowest first.
abbrev pub to_le : ℕ → ℕ → List ℕ
to_le zero v = []
to_le (suc width) v = (v % 256) ∷ to_le width (v / 256)

from_le-to_le : (width v : ℕ) → v < 256 ^ width → from_le (to_le width v) ≡ v
from_le-to_le zero v h = omega arith
from_le-to_le (suc width) v h =
    omega
      (arith, from_le-to_le width (v / 256) (omega (arith, pow-suc 256 width)), pow-suc 256 width)

abbrev pub print_phdr : Phdr → List ℕ
print_phdr p =
    to_le 4 p.p_type
    ++ (to_le 4 p.p_flags
        ++ (to_le 8 p.p_offset
            ++ (to_le 8 p.p_vaddr
                ++ (to_le 8 p.p_paddr
                    ++ (to_le 8 p.p_filesz ++ (to_le 8 p.p_memsz ++ to_le 8 p.p_align))))))

pub record IsPhdr (p : Phdr) : Type 0 where
  pub p_type : p.p_type < 2 ^ 32
  pub p_flags : p.p_flags < 2 ^ 32
  pub p_offset : p.p_offset < 2 ^ 64
  pub p_vaddr : p.p_vaddr < 2 ^ 64
  pub p_paddr : p.p_paddr < 2 ^ 64
  pub p_filesz : p.p_filesz < 2 ^ 64
  pub p_memsz : p.p_memsz < 2 ^ 64
  pub p_align : p.p_align < 2 ^ 64

pub phdr_of-print : (p : Phdr) → IsPhdr p → phdr_of (print_phdr p) ≡ p
phdr_of-print p v = λ k. record {
  p_type = from_le-to_le 4 p.p_type (omega (arith, v.p_type)) k;
  p_flags = from_le-to_le 4 p.p_flags (omega (arith, v.p_flags)) k;
  p_offset = from_le-to_le 8 p.p_offset (omega (arith, v.p_offset)) k;
  p_vaddr = from_le-to_le 8 p.p_vaddr (omega (arith, v.p_vaddr)) k;
  p_paddr = from_le-to_le 8 p.p_paddr (omega (arith, v.p_paddr)) k;
  p_filesz = from_le-to_le 8 p.p_filesz (omega (arith, v.p_filesz)) k;
  p_memsz = from_le-to_le 8 p.p_memsz (omega (arith, v.p_memsz)) k;
  p_align = from_le-to_le 8 p.p_align (omega (arith, v.p_align)) k;
}

abbrev pub print_shdr : Shdr → List ℕ
print_shdr s =
    to_le 4 s.sh_name
    ++ (to_le 4 s.sh_type
        ++ (to_le 8 s.sh_flags
            ++ (to_le 8 s.sh_addr
                ++ (to_le 8 s.sh_offset
                    ++ (to_le 8 s.sh_size
                        ++ (to_le 4 s.sh_link
                            ++ (to_le 4 s.sh_info
                                ++ (to_le 8 s.sh_addralign ++ to_le 8 s.sh_entsize))))))))

pub record IsShdr (s : Shdr) : Type 0 where
  pub sh_name : s.sh_name < 2 ^ 32
  pub sh_type : s.sh_type < 2 ^ 32
  pub sh_flags : s.sh_flags < 2 ^ 64
  pub sh_addr : s.sh_addr < 2 ^ 64
  pub sh_offset : s.sh_offset < 2 ^ 64
  pub sh_size : s.sh_size < 2 ^ 64
  pub sh_link : s.sh_link < 2 ^ 32
  pub sh_info : s.sh_info < 2 ^ 32
  pub sh_addralign : s.sh_addralign < 2 ^ 64
  pub sh_entsize : s.sh_entsize < 2 ^ 64

pub shdr_of-print : (s : Shdr) → IsShdr s → shdr_of (print_shdr s) ≡ s
shdr_of-print s v = λ k. record {
  sh_name = from_le-to_le 4 s.sh_name (omega (arith, v.sh_name)) k;
  sh_type = from_le-to_le 4 s.sh_type (omega (arith, v.sh_type)) k;
  sh_flags = from_le-to_le 8 s.sh_flags (omega (arith, v.sh_flags)) k;
  sh_addr = from_le-to_le 8 s.sh_addr (omega (arith, v.sh_addr)) k;
  sh_offset = from_le-to_le 8 s.sh_offset (omega (arith, v.sh_offset)) k;
  sh_size = from_le-to_le 8 s.sh_size (omega (arith, v.sh_size)) k;
  sh_link = from_le-to_le 4 s.sh_link (omega (arith, v.sh_link)) k;
  sh_info = from_le-to_le 4 s.sh_info (omega (arith, v.sh_info)) k;
  sh_addralign = from_le-to_le 8 s.sh_addralign (omega (arith, v.sh_addralign)) k;
  sh_entsize = from_le-to_le 8 s.sh_entsize (omega (arith, v.sh_entsize)) k;
}

-- The first `n` bytes of a list that has them.
abbrev pub exactly : ℕ → List ℕ → List ℕ
exactly zero xs = []
exactly (suc n) xs = get_or xs 0 0 ∷ exactly n (drop 1 xs)

exactly_lem : (n : ℕ) (xs : List ℕ) → length xs ≡ n → exactly n xs ≡ xs
exactly_lem zero [] h = refl
exactly_lem zero (x ∷ xs) h = absurd (omega arith)
exactly_lem (suc n) [] h = absurd (omega arith)
exactly_lem (suc n) (x ∷ xs) h = ap (◌∷◌ x) (exactly_lem n xs (omega arith))

abbrev pub print_ehdr : Ehdr → List ℕ
print_ehdr h =
    exactly 16 h.e_ident
    ++ (to_le 2 h.e_type
        ++ (to_le 2 h.e_machine
            ++ (to_le 4 h.e_version
                ++ (to_le 8 h.e_entry
                    ++ (to_le 8 h.e_phoff
                        ++ (to_le 8 h.e_shoff
                            ++ (to_le 4 h.e_flags
                                ++ (to_le 2 h.e_ehsize
                                    ++ (to_le 2 h.e_phentsize
                                        ++ (to_le 2 h.e_phnum
                                            ++ (to_le 2 h.e_shentsize
                                                ++ (to_le 2 h.e_shnum
                                                    ++ to_le 2 h.e_shstrndx))))))))))))

pub record IsEhdr (h : Ehdr) : Type 0 where
  pub e_ident : length h.e_ident ≡ 16
  pub e_type : h.e_type < 2 ^ 16
  pub e_machine : h.e_machine < 2 ^ 16
  pub e_version : h.e_version < 2 ^ 32
  pub e_entry : h.e_entry < 2 ^ 64
  pub e_phoff : h.e_phoff < 2 ^ 64
  pub e_shoff : h.e_shoff < 2 ^ 64
  pub e_flags : h.e_flags < 2 ^ 32
  pub e_ehsize : h.e_ehsize < 2 ^ 16
  pub e_phentsize : h.e_phentsize < 2 ^ 16
  pub e_phnum : h.e_phnum < 2 ^ 16
  pub e_shentsize : h.e_shentsize < 2 ^ 16
  pub e_shnum : h.e_shnum < 2 ^ 16
  pub e_shstrndx : h.e_shstrndx < 2 ^ 16

pub ehdr_of-print : (h : Ehdr) → IsEhdr h → ehdr_of (print_ehdr h) ≡ h
ehdr_of-print h v = λ k. record {
  e_ident = exactly_lem 16 h.e_ident v.e_ident k;
  e_type = from_le-to_le 2 h.e_type (omega (arith, v.e_type)) k;
  e_machine = from_le-to_le 2 h.e_machine (omega (arith, v.e_machine)) k;
  e_version = from_le-to_le 4 h.e_version (omega (arith, v.e_version)) k;
  e_entry = from_le-to_le 8 h.e_entry (omega (arith, v.e_entry)) k;
  e_phoff = from_le-to_le 8 h.e_phoff (omega (arith, v.e_phoff)) k;
  e_shoff = from_le-to_le 8 h.e_shoff (omega (arith, v.e_shoff)) k;
  e_flags = from_le-to_le 4 h.e_flags (omega (arith, v.e_flags)) k;
  e_ehsize = from_le-to_le 2 h.e_ehsize (omega (arith, v.e_ehsize)) k;
  e_phentsize = from_le-to_le 2 h.e_phentsize (omega (arith, v.e_phentsize)) k;
  e_phnum = from_le-to_le 2 h.e_phnum (omega (arith, v.e_phnum)) k;
  e_shentsize = from_le-to_le 2 h.e_shentsize (omega (arith, v.e_shentsize)) k;
  e_shnum = from_le-to_le 2 h.e_shnum (omega (arith, v.e_shnum)) k;
  e_shstrndx = from_le-to_le 2 h.e_shstrndx (omega (arith, v.e_shstrndx)) k;
}
