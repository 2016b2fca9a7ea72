-- ===== src/Elf/Layout.antt =====
-- Where an ELF file keeps its tables, and that the readers of mmu.cpp find them there.
use riscv_isa_simulator.Base.{
  ℕ, zero, suc, ◌+◌, ◌-◌, ◌*◌, ◌/◌, ◌^◌, ◌≤◌, ◌<◌, ◌≡◌, ◌≢◌, refl, ap, arith, false, List, [], ◌∷◌,
  some, length, take, drop, get_elem?, ◌==◌, ltb, Bool-cases, inl, inr, sext32, negative, ok,
}
use Prim.Native.Nat.{min}
use riscv_isa_simulator.Elf.Stream.{File, fseek, filled, fread}
use riscv_isa_simulator.Elf.Tables.{
  Ehdr, Phdr, Shdr, Sym, sym_of, sizeof_sym, ehdr_of, phdr_of, shdr_of, array_of, sizeof_ehdr,
  sizeof_phdr, sizeof_shdr,
}
use riscv_isa_simulator.Elf.{
  Buffer, Loader, element, find_tables, read_elf_header, read_prog_headers, read_sec_headers,
  read_tables, read_sym_tbls,
}
use riscv_isa_simulator.Elf.Image.{fseek_lem}

-- `size` bytes of the file, from `start` on.
abbrev pub slice : List ℕ → ℕ → ℕ → List ℕ
slice bytes start size = take size (drop start bytes)

abbrev pub header_of : List ℕ → Ehdr
header_of bytes = ehdr_of (slice bytes 0 sizeof_ehdr)

abbrev pub segments_of : List ℕ → List Phdr
segments_of bytes =
    let h = header_of bytes in
    array_of phdr_of sizeof_phdr h.e_phnum (slice bytes h.e_phoff (sizeof_phdr * h.e_phnum))

abbrev pub sections_of : List ℕ → List Shdr
sections_of bytes =
    let h = header_of bytes in
    array_of shdr_of sizeof_shdr h.e_shnum (slice bytes h.e_shoff (sizeof_shdr * h.e_shnum))

abbrev pub names_of : List ℕ → Shdr → List ℕ
names_of bytes s = slice bytes s.sh_offset s.sh_size

-- The stream at a position.
abbrev pub at : List ℕ → ℕ → File
at bytes pos = record { bytes = bytes; pos = pos; broken = false }

filled-take :
    (raw : ℕ → ℕ) (i n : ℕ) (src : List ℕ) → n ≤ length src → filled raw i n src ≡ take n src
unfolding filled
filled-take raw i zero src h = refl
filled-take raw i (suc n) [] h = absurd (omega arith)
filled-take raw i (suc n) (b ∷ src) h = ap (◌∷◌ b) (filled-take raw (i + 1) n src (omega arith))

length-drop {ℓ} : {A : Type ℓ} (xs : List A) (n : ℕ) → length (drop n xs) ≡ length xs - n
length-drop xs zero = omega arith
length-drop [] (suc n) = omega arith
length-drop (x ∷ xs) (suc n) = omega (arith, length-drop xs n)

-- A read of bytes that are in the file.
fread-slice :
    (raw : ℕ → ℕ) (bytes : List ℕ) (pos n : ℕ)
    → pos + n ≤ length bytes
    → fread raw n (at bytes pos) ≡ (slice bytes pos n, at bytes (pos + n))
unfolding fread
fread-slice raw bytes pos n h =
    let left = length-drop bytes pos in
    let all : min n (length (drop pos bytes)) ≡ n = omega arith in
    rw (filled-take raw 0 n (drop pos bytes) (omega arith), all) refl

-- A read of any number of bytes moves the position, and no more.
pub fread_moves :
    (raw : ℕ → ℕ) (bytes : List ℕ) (pos n : ℕ)
    → (src : List ℕ) × (pos' : ℕ) × (fread raw n (at bytes pos) ≡ (src, at bytes pos'))
unfolding fread
fread_moves raw bytes pos n = (_, _, refl)

pub fseek_moves :
    (bytes : List ℕ) (pos offset : ℕ) → (pos' : ℕ) × (fseek offset (at bytes pos) ≡ at bytes pos')
unfolding fseek
fseek_moves bytes pos offset = elim (Bool-cases (ltb offset (2 ^ 63))) [
  | inl positive ↦ (offset, rw positive refl)
  | inr negative_offset ↦ (pos, rw negative_offset refl)
]

module _ (raw : Buffer → ℕ → ℕ) (bytes : List ℕ) (l : Loader) where
  pub read_elf_header_lem :
      sizeof_ehdr ≤ length bytes
      → read_elf_header raw (record l { file = at bytes 0 })
        ≡ ok (record l { file = at bytes sizeof_ehdr; header = header_of bytes })
  unfolding read_elf_header
  read_elf_header_lem h =
      rw (fread-slice (raw Buffer.elf_header) bytes 0 sizeof_ehdr (omega arith)) refl

  pub read_prog_headers_lem :
      (pos : ℕ)
      → l.header.e_phoff < 2 ^ 63
      → l.header.e_phoff + sizeof_phdr * l.header.e_phnum ≤ length bytes
      → (pos' : ℕ) × (read_prog_headers raw (record l { file = at bytes pos }) ≡ record l {
        file = at bytes pos';
        progs =
            array_of phdr_of sizeof_phdr l.header.e_phnum
              (slice bytes l.header.e_phoff (sizeof_phdr * l.header.e_phnum));
      })
  unfolding read_prog_headers
  read_prog_headers_lem pos h within = (
    l.header.e_phoff + sizeof_phdr * l.header.e_phnum,
    rw
        (
          fseek_lem bytes pos l.header.e_phoff h,
          fread-slice (raw Buffer.prog_hdrs) bytes l.header.e_phoff (sizeof_phdr * l.header.e_phnum)
              within,
        )
        refl,
  )

  pub read_sec_headers_lem :
      (pos : ℕ) (s : Shdr)
      → let secs =
          array_of shdr_of sizeof_shdr l.header.e_shnum
            (slice bytes l.header.e_shoff (sizeof_shdr * l.header.e_shnum)) in
        l.header.e_shoff < 2 ^ 63
        → l.header.e_shoff + sizeof_shdr * l.header.e_shnum ≤ length bytes
        → get_elem? secs l.header.e_shstrndx ≡ some s
        → s.sh_offset < 2 ^ 63
        → s.sh_offset + s.sh_size ≤ length bytes
        → (pos' : ℕ) × (read_sec_headers raw (record l { file = at bytes pos })
            ≡ ok (record l { file = at bytes pos'; sections = secs; names = names_of bytes s }))
  unfolding read_sec_headers element
  read_sec_headers_lem pos s h within found low inside = (
    s.sh_offset + s.sh_size,
    rw
        (
          fseek_lem bytes pos l.header.e_shoff h,
          fread-slice (raw Buffer.sec_hdrs) bytes l.header.e_shoff (sizeof_shdr * l.header.e_shnum)
              within,
        )
        (rw (found, element)
          (rw
            (
              fseek_lem bytes (l.header.e_shoff + sizeof_shdr * l.header.e_shnum) s.sh_offset low,
              fread-slice (raw Buffer.sh_str_tbl) bytes s.sh_offset s.sh_size inside,
            )
            refl)),
  )

  read_tables_lem :
      (pos : ℕ) (str sym : Shdr)
      → sym.sh_entsize ≢ 0
      → sym.sh_size / sym.sh_entsize < 2 ^ 31
      → (pos' : ℕ) × (text : List ℕ) × (syms : List Sym) × (read_tables raw
            (record l { file = at bytes pos })
            str
            sym
          ≡ ok (record l { file = at bytes pos'; strings = text; symbols = syms }))
  unfolding read_tables sext32
  read_tables_lem pos str sym some_size few =
      let n = sym.sh_size / sym.sh_entsize in
      let (pos₁, seek) = fseek_moves bytes pos str.sh_offset in
      let (text, pos₂, read) = fread_moves (raw Buffer.str_tbl) bytes pos₁ str.sh_size in
      let (pos₃, seek_sym) = fseek_moves bytes pos₂ sym.sh_offset in
      let (rows, pos₄, read_sym) =
        fread_moves (raw Buffer.symbol_table) bytes pos₃ (sizeof_sym * n) in
      let divisor : (sym.sh_entsize == 0) ≡ false = ground arith in
      let number : sext32 n ≡ n = ground arith in
      let positive : negative n ≡ false = ground arith in
      (
        pos₄,
        text,
        array_of sym_of sizeof_sym n rows,
        rw (seek, read, divisor) (rw number (rw positive (rw (seek_sym, read_sym) refl))),
      )

element-get :
    {A : Type 0} (xs : List A) (i : ℕ) (x : A) → get_elem? xs i ≡ some x → element xs i ≡ ok x
unfolding element
element-get xs i x h = rw (h, element)

module _ (raw : Buffer → ℕ → ℕ) (bytes : List ℕ) (l : Loader) where
  pub read_sym_tbls_lem :
      (pos i j : ℕ) (str sym : Shdr)
      → find_tables l.names l.sections 0 (l.index_strtab, l.index_symtab) ≡ ok (some i, some j)
      → get_elem? l.sections i ≡ some str
      → get_elem? l.sections j ≡ some sym
      → sym.sh_entsize ≢ 0
      → sym.sh_size / sym.sh_entsize < 2 ^ 31
      → (pos' : ℕ) × (text : List ℕ) × (syms : List Sym) × (read_sym_tbls raw
            (record l { file = at bytes pos })
          ≡ ok (record l {
            file = at bytes pos';
            strings = text;
            symbols = syms;
            index_strtab = some i;
            index_symtab = some j;
          }))
  unfolding read_sym_tbls
  read_sym_tbls_lem pos i j str sym tables at_i at_j some_size few =
      let l' = record l { index_strtab = some i; index_symtab = some j } in
      let (pos', text, syms, run) = read_tables_lem raw bytes l' pos str sym some_size few in
      (
        pos',
        text,
        syms,
        rw (tables, element-get l.sections i str at_i, element-get l.sections j sym at_j) run,
      )
