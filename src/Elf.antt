-- ===== src/Elf.antt =====
-- mmu.cpp: the constructor of `mmu_t`, which loads an ELF file. Memory that is allocated or declared
-- without a value holds anything: `raw` says what, for each such buffer. Allocations succeed, and
-- the `int` counters of the loops do not overflow.
pub mod Stream
pub mod Tables
pub mod Image
pub mod Sections
pub mod Loading
pub mod Layout
pub mod Start
pub mod Entries
pub mod Format
pub mod Refuse
use riscv_isa_simulator.Base.{
  ℕ, zero, suc, ◌+◌, ◌*◌, ◌/◌, Bool, true, false, ◌||◌, List, [], ◌∷◌, Option, none, some, drop,
  get_elem?, ◌==◌, if◌then◌else◌, add64, sext32, negative, Result, ok, trap, ◌>>=◌,
  bad_array_new_length, exited, undefined,
}
use riscv_isa_simulator.Mmu.{Mmu}
use riscv_isa_simulator.Mmu.StdMap.{Map, insert}
use Stream.{File, fseek, fread, fread_byte}
use Tables.{
  Ehdr, Phdr, Shdr, Sym, ehdr_of, phdr_of, shdr_of, sym_of, array_of, sizeof_ehdr, sizeof_phdr,
  sizeof_shdr, sizeof_sym,
}

-- The variables and arrays that no initialiser sets.
pub data Buffer : Type 0 where
  elf_header prog_hdrs sec_hdrs sh_str_tbl str_tbl symbol_table cur_data cur_inst : Buffer

-- The members of `mmu_t` while it loads, with the stream. An index is `none` for -1.
pub record Loader : Type 0 where
  pub file : File
  pub mem : Map
  pub forbid : Map
  pub header : Ehdr
  pub progs : List Phdr
  pub sections : List Shdr
  pub names : List ℕ
  pub strings : List ℕ
  pub symbols : List Sym
  pub index_strtab : Option ℕ
  pub index_symtab : Option ℕ

-- ".strtab", ".symtab", ".rodata", ".rodatal", ".data" and ".sdata"
abbrev pub s_strtab : List ℕ
s_strtab = b'.' ∷ b's' ∷ b't' ∷ b'r' ∷ b't' ∷ b'a' ∷ b'b' ∷ []

abbrev pub s_symtab : List ℕ
s_symtab = b'.' ∷ b's' ∷ b'y' ∷ b'm' ∷ b't' ∷ b'a' ∷ b'b' ∷ []

abbrev pub s_rodata : List ℕ
s_rodata = b'.' ∷ b'r' ∷ b'o' ∷ b'd' ∷ b'a' ∷ b't' ∷ b'a' ∷ []

abbrev pub s_rodatal : List ℕ
s_rodatal = b'.' ∷ b'r' ∷ b'o' ∷ b'd' ∷ b'a' ∷ b't' ∷ b'a' ∷ b'l' ∷ []

abbrev pub s_data : List ℕ
s_data = b'.' ∷ b'd' ∷ b'a' ∷ b't' ∷ b'a' ∷ []

abbrev pub s_datal : List ℕ
s_datal = b'.' ∷ b's' ∷ b'd' ∷ b'a' ∷ b't' ∷ b'a' ∷ []

abbrev pub loader : List (List ℕ)
loader = s_data ∷ s_datal ∷ s_rodata ∷ s_rodatal ∷ []

-- `strcmp(literal, text) == 0`; past the end of the array that `text` is in it is undefined.
unfoldable pub strcmp_eq : List ℕ → List ℕ → Result Bool
strcmp_eq [] [] = trap undefined
strcmp_eq [] (b ∷ text) = ok (b == 0)
strcmp_eq (c ∷ literal) [] = trap undefined
strcmp_eq (c ∷ literal) (b ∷ text) =
    let rest = strcmp_eq literal text in if c == b then rest else ok false

-- `strcmp(literal, &sh_str_tbl[sh_name]) == 0`
unfoldable pub is_named : List ℕ → List ℕ → Shdr → Result Bool
unfolding strcmp_eq
is_named literal names s = strcmp_eq literal (drop s.sh_name names)

-- `a[i]`
unfoldable pub element {ℓ} : {A : Type ℓ} → List A → ℕ → Result A
element xs i = elim (get_elem? xs i) [ none ↦ trap undefined | some x ↦ ok x ]

-- One round of the search of `read_sym_tbls`, for section `i`.
unfoldable pub note_table : List ℕ → Shdr → ℕ → Option ℕ × Option ℕ → Result (Option ℕ × Option ℕ)
unfolding is_named
note_table names s i found = do
  is_strtab ← is_named s_strtab names s
  if is_strtab
      then ok (some i, found.1)
      else (is_named s_symtab names s >>= λ is_symtab.
          ok (if is_symtab then (found.0, some i) else found))

unfoldable pub find_tables :
    List ℕ → List Shdr → ℕ → Option ℕ × Option ℕ → Result (Option ℕ × Option ℕ)
unfolding note_table
find_tables names [] i found = ok found
find_tables names (s ∷ rest) i found = note_table names s i found >>= find_tables names rest (i + 1)

-- The loops of `load_data` and `load_prog` over `n` bytes to `cur_addr`; `held` is the variable
-- that a byte is read into.
unfoldable pub load_bytes : ℕ → ℕ → ℕ → File → Map → ℕ × File × Map
load_bytes zero cur_addr held file mem = (held, file, mem)
load_bytes (suc n) cur_addr held file mem =
    let (byte, file') = fread_byte held file in
    load_bytes n (add64 cur_addr 1) byte file' (insert mem cur_addr byte)

-- The loop over `loader`: the first place `j` of a name that is the section's.
unfoldable pub loader_index : List ℕ → Shdr → ℕ → List (List ℕ) → Result (Option ℕ)
unfolding is_named
loader_index names s j [] = ok none
loader_index names s j (name ∷ rest) =
    let later = loader_index names s (j + 1) rest in
    is_named name names s >>= λ hit. if hit then ok (some j) else later

-- The loop of `load_prog` over the program headers.
unfoldable pub load_segments : List Phdr → ℕ → File → Map → ℕ × File × Map
unfolding load_bytes
load_segments [] held file mem = (held, file, mem)
load_segments (ph ∷ rest) held file mem =
    let (held', file', mem') =
      load_bytes ph.p_filesz ph.p_vaddr held (fseek ph.p_offset file) mem in
    load_segments rest held' file' mem'

module _ (raw : Buffer → ℕ → ℕ) where
  unfoldable pub read_elf_header : Loader → Result Loader
  read_elf_header l =
      let (bytes, file') = fread (raw elf_header) sizeof_ehdr l.file in
      if file'.broken
      then trap (exited 1)
      else ok (record l { file = file'; header = ehdr_of bytes })

  unfoldable pub read_prog_headers : Loader → Loader
  read_prog_headers l =
      let n = l.header.e_phnum in
      let (bytes, file') =
        fread (raw prog_hdrs) (sizeof_phdr * n) (fseek l.header.e_phoff l.file) in
      record l { file = file'; progs = array_of phdr_of sizeof_phdr n bytes }

  unfoldable pub read_sec_headers : Loader → Result Loader
  unfolding element
  read_sec_headers l = do
    let n = l.header.e_shnum
    let (bytes, file') = fread (raw sec_hdrs) (sizeof_shdr * n) (fseek l.header.e_shoff l.file)
    let secs = array_of shdr_of sizeof_shdr n bytes
    s ← element secs l.header.e_shstrndx
    let (text, file'') = fread (raw sh_str_tbl) s.sh_size (fseek s.sh_offset file')
    ok (record l { file = file''; sections = secs; names = text })

  -- What `read_sym_tbls` does once it has both sections.
  unfoldable pub read_tables : Loader → Shdr → Shdr → Result Loader
  read_tables l str sym = do
    let (text, file') = fread (raw str_tbl) str.sh_size (fseek str.sh_offset l.file)
    n ← if sym.sh_entsize == 0 then trap undefined else ok (sext32 (sym.sh_size / sym.sh_entsize))
    sym_num ← if negative n then trap bad_array_new_length else ok n
    let (bytes, file'') =
        fread (raw symbol_table) (sizeof_sym * sym_num) (fseek sym.sh_offset file')
    ok (record l {
      file = file'';
      strings = text;
      symbols = array_of sym_of sizeof_sym sym_num bytes;
    })

  unfoldable pub read_sym_tbls : Loader → Result Loader
  unfolding find_tables read_tables element
  read_sym_tbls l = do
    (strtab, symtab) ← find_tables l.names l.sections 0 (l.index_strtab, l.index_symtab)
    let l' = record l { index_strtab = strtab; index_symtab = symtab }
    elim strtab [
      | none ↦ trap (exited 1)
      | some i ↦ elim symtab [
        | none ↦ trap (exited 1)
        | some j ↦ (element l.sections i >>= λ str. element l.sections j >>= read_tables l' str)
      ]
    ]

  unfoldable pub load_data : Loader → ℕ → Result Loader
  unfolding element is_named load_bytes
  load_data l data_index = do
    s ← element l.sections data_index
    is_rodata ← is_named s_rodata l.names s
    is_rodatal ← if is_rodata then ok false else is_named s_rodatal l.names s
    let forbid' =
        if is_rodata || is_rodatal
        then insert l.forbid s.sh_addr (add64 s.sh_addr s.sh_size)
        else l.forbid
    let (_, file', mem') =
        load_bytes s.sh_size s.sh_addr (raw cur_data 0) (fseek s.sh_offset l.file) l.mem
    ok (record l { file = file'; mem = mem'; forbid = forbid' })

  -- The loop of `read_elf` over the sections. It hands `j` to `load_data`, not the number of the
  -- section.
  unfoldable pub load_sections : List Shdr → Loader → Result Loader
  unfolding loader_index load_data
  load_sections [] l = ok l
  load_sections (s ∷ rest) l = do
    hit ← loader_index l.names s 0 loader
    l' ← elim hit as (λ _. Result Loader) [ none ↦ ok l | some j ↦ load_data l j ]
    load_sections rest l'

  unfoldable pub load_prog : Loader → Loader
  unfolding load_segments
  load_prog l =
      let (_, file', mem') = load_segments l.progs (raw cur_inst 0) l.file l.mem in
      record l { file = file'; mem = mem' }

  unfoldable pub read_elf : Loader → Result Loader
  unfolding read_elf_header read_prog_headers read_sec_headers read_sym_tbls load_sections load_prog
  read_elf l = do
    l₁ ← read_elf_header l
    l₂ ← read_sec_headers (read_prog_headers l₁)
    l₃ ← read_sym_tbls l₂
    l₄ ← load_sections l₃.sections l₃
    ok (load_prog l₄)

  -- The members before `read_elf`; the header holds anything.
  unfoldable pub new_loader : File → Loader
  new_loader f = record {
    file = f;
    mem = [];
    forbid = [];
    header =
        ehdr_of
          (fread (raw elf_header) sizeof_ehdr (record { bytes = []; pos = 0; broken = true })).0;
    progs = [];
    sections = [];
    names = [];
    strings = [];
    symbols = [];
    index_strtab = none;
    index_symtab = none;
  }

  -- mmu_t(const char *path), for the stream that `fopen` returns, if it does.
  unfoldable pub new_mmu : Option File → Result Mmu
  unfolding read_elf new_loader
  new_mmu none = trap (exited 1)
  new_mmu (some f) = do
    l ← read_elf (new_loader f)
    ok (record { mem = l.mem; forbid = l.forbid; entry = l.header.e_entry })
