-- ===== src/Elf/Tables.antt =====
-- The structures of mmu.h, and their fields in memory: little-endian, at the offsets of the x86-64
-- ABI, where none of them is padded.
use riscv_isa_simulator.Base.{ℕ, zero, suc, ◌+◌, ◌*◌, List, [], ◌∷◌, take, drop}

-- The number that the bytes stand for, lowest first.
abbrev pub from_le : List ℕ → ℕ
from_le [] = 0
from_le (b ∷ bs) = b + 256 * from_le bs

-- The `width` bytes at `offset`.
abbrev pub field : List ℕ → ℕ → ℕ → ℕ
field bytes offset width = from_le (take width (drop offset bytes))

-- Elf64_Ehdr
pub record Ehdr : Type 0 where
  pub e_ident : List ℕ
  pub e_type : ℕ
  pub e_machine : ℕ
  pub e_version : ℕ
  pub e_entry : ℕ
  pub e_phoff : ℕ
  pub e_shoff : ℕ
  pub e_flags : ℕ
  pub e_ehsize : ℕ
  pub e_phentsize : ℕ
  pub e_phnum : ℕ
  pub e_shentsize : ℕ
  pub e_shnum : ℕ
  pub e_shstrndx : ℕ

-- Elf64_Phdr
pub record Phdr : Type 0 where
  pub p_type : ℕ
  pub p_flags : ℕ
  pub p_offset : ℕ
  pub p_vaddr : ℕ
  pub p_paddr : ℕ
  pub p_filesz : ℕ
  pub p_memsz : ℕ
  pub p_align : ℕ

-- Elf64_Shdr
pub record Shdr : Type 0 where
  pub sh_name : ℕ
  pub sh_type : ℕ
  pub sh_flags : ℕ
  pub sh_addr : ℕ
  pub sh_offset : ℕ
  pub sh_size : ℕ
  pub sh_link : ℕ
  pub sh_info : ℕ
  pub sh_addralign : ℕ
  pub sh_entsize : ℕ

-- Elf64_Sym
pub record Sym : Type 0 where
  pub st_name : ℕ
  pub st_info : ℕ
  pub st_other : ℕ
  pub st_shndx : ℕ
  pub st_value : ℕ
  pub st_size : ℕ

abbrev pub sizeof_ehdr : ℕ
sizeof_ehdr = 64

abbrev pub sizeof_phdr : ℕ
sizeof_phdr = 56

abbrev pub sizeof_shdr : ℕ
sizeof_shdr = 64

abbrev pub sizeof_sym : ℕ
sizeof_sym = 24

abbrev pub ehdr_of : List ℕ → Ehdr
ehdr_of b = record {
  e_ident = take 16 b;
  e_type = field b 16 2;
  e_machine = field b 18 2;
  e_version = field b 20 4;
  e_entry = field b 24 8;
  e_phoff = field b 32 8;
  e_shoff = field b 40 8;
  e_flags = field b 48 4;
  e_ehsize = field b 52 2;
  e_phentsize = field b 54 2;
  e_phnum = field b 56 2;
  e_shentsize = field b 58 2;
  e_shnum = field b 60 2;
  e_shstrndx = field b 62 2;
}

abbrev pub phdr_of : List ℕ → Phdr
phdr_of b = record {
  p_type = field b 0 4;
  p_flags = field b 4 4;
  p_offset = field b 8 8;
  p_vaddr = field b 16 8;
  p_paddr = field b 24 8;
  p_filesz = field b 32 8;
  p_memsz = field b 40 8;
  p_align = field b 48 8;
}

abbrev pub shdr_of : List ℕ → Shdr
shdr_of b = record {
  sh_name = field b 0 4;
  sh_type = field b 4 4;
  sh_flags = field b 8 8;
  sh_addr = field b 16 8;
  sh_offset = field b 24 8;
  sh_size = field b 32 8;
  sh_link = field b 40 4;
  sh_info = field b 44 4;
  sh_addralign = field b 48 8;
  sh_entsize = field b 56 8;
}

abbrev pub sym_of : List ℕ → Sym
sym_of b = record {
  st_name = field b 0 4;
  st_info = field b 4 1;
  st_other = field b 5 1;
  st_shndx = field b 6 2;
  st_value = field b 8 8;
  st_size = field b 16 8;
}

-- An array of `n` structures of `size` bytes.
unfoldable pub array_of {ℓ} : {A : Type ℓ} → (List ℕ → A) → ℕ → ℕ → List ℕ → List A
array_of of size zero bytes = []
array_of of size (suc n) bytes = of (take size bytes) ∷ array_of of size n (drop size bytes)
