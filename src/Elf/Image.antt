-- ===== src/Elf/Image.antt =====
-- What loading puts into memory: the first segment that covers an address gives its byte, unless
-- the address is mapped already.
use riscv_isa_simulator.Base.{
  ◌≢◌, ℕ, zero, suc, ◌+◌, ◌^◌, ◌≤◌, ◌<◌, ◌≡◌, refl, ap, ◌∙◌, arith, false, List, [], ◌∷◌, Option,
  none, some, or_else, or_else_assoc, length, drop, get_elem?, All, ltb, ◌==◌, if◌then◌else◌, add64,
  Bool-cases, inl, inr,
}
use riscv_isa_simulator.Mmu.StdMap.{Map, find, insert, find-insert_or}
use riscv_isa_simulator.Mmu.Access.{offset}
use riscv_isa_simulator.Elf.Stream.{fseek, fread_byte}
use riscv_isa_simulator.Elf.Tables.{Phdr}
use riscv_isa_simulator.Elf.{load_bytes, load_segments}

-- The byte that a range of the file, `size` bytes from `start`, puts at address `a` when it is
-- loaded to `addr`.
abbrev pub range_byte : List ℕ → ℕ → ℕ → ℕ → ℕ → Option ℕ
range_byte bytes start addr size a =
    if ltb (offset addr a) size then get_elem? bytes (start + offset addr a) else none

-- The bytes of the segments, in the order of the program headers.
abbrev pub image : List ℕ → List Phdr → ℕ → Option ℕ
image bytes [] a = none
image bytes (ph ∷ rest) a =
    or_else (range_byte bytes ph.p_offset ph.p_vaddr ph.p_filesz a) (image bytes rest a)

-- A segment lies in the file.
pub record InFile (bytes : List ℕ) (start addr size : ℕ) : Type 0 where
  pub start_fits : start < 2 ^ 63
  pub addr_fits : addr < 2 ^ 64
  pub size_fits : size < 2 ^ 64
  pub within : start + size ≤ length bytes

drop-get_elem? :
    (bytes : List ℕ) (pos : ℕ)
    → pos < length bytes
    → (b : ℕ) × (get_elem? bytes pos ≡ some b) × (drop pos bytes ≡ b ∷ drop (suc pos) bytes)
drop-get_elem? [] pos h = absurd (omega arith)
drop-get_elem? (b ∷ bytes) zero h = (b, refl, refl)
drop-get_elem? (b ∷ bytes) (suc pos) h = drop-get_elem? bytes pos (omega arith)

fread_byte_lem :
    (bytes : List ℕ) (pos held : ℕ)
    → pos < length bytes
    → (b : ℕ) × (get_elem? bytes pos ≡ some b)
      × (fread_byte held (record { bytes = bytes; pos = pos; broken = false })
          ≡ (b, record { bytes = bytes; pos = pos + 1; broken = false }))
unfolding fread_byte
fread_byte_lem bytes pos held h =
    let (b, at, rest) = drop-get_elem? bytes pos h in (b, at, rw (rest, fread_byte) refl)

-- One more byte in front of a range.
range_byte-suc :
    (bytes : List ℕ) (pos addr n a b : ℕ)
    → a < 2 ^ 64
    → addr < 2 ^ 64
    → suc n < 2 ^ 64
    → get_elem? bytes pos ≡ some b
    → or_else (if addr == a then some b else none) (range_byte bytes (pos + 1) (add64 addr 1) n a)
      ≡ range_byte bytes pos addr (suc n) a
range_byte-suc bytes pos addr n a b ha hd hn at = elim (Bool-cases (addr == a)) [
  | inl same ↦
      let e : addr ≡ a = ground arith in
      let zero_off : offset addr a ≡ 0 = omega arith in
      let here : pos + offset addr a ≡ pos = omega arith in rw same (rw here (rw at (ground arith)))
  | inr other ↦
      let ne : addr ≢ a = ground arith in
      let next : offset addr a ≡ offset (add64 addr 1) a + 1 = omega arith in
      let there : pos + 1 + offset (add64 addr 1) a ≡ pos + offset addr a = omega arith in
      rw (other, there) (ground arith)
]

pub load_bytes-find :
    (n addr held : ℕ) (bytes : List ℕ) (pos : ℕ) (mem : Map) (a : ℕ)
    → a < 2 ^ 64
    → addr < 2 ^ 64
    → n < 2 ^ 64
    → pos + n ≤ length bytes
    → let r = load_bytes n addr held (record { bytes = bytes; pos = pos; broken = false }) mem in
      (find r.2 a ≡ or_else (find mem a) (range_byte bytes pos addr n a))
      × (r.1 ≡ record { bytes = bytes; pos = pos + n; broken = false })
unfolding load_bytes
load_bytes-find zero addr held bytes pos mem a ha hd hn h = (ground arith, ground arith)
load_bytes-find (suc n) addr held bytes pos mem a ha hd hn h =
    let (b, at, run) = fread_byte_lem bytes pos held (omega arith) in
    let ih =
      load_bytes-find n (add64 addr 1) b bytes (pos + 1) (insert mem addr b) a ha (omega arith)
        (omega arith) (omega arith) in
    rw (run, load_bytes)
      (
        ih.0
            ∙ rw find-insert_or (
                or_else_assoc (find mem a) _ _
                ∙ ap (or_else (find mem a)) (range_byte-suc bytes pos addr n a b ha hd hn at)),
        ih.1 ∙ ground arith,
      )

pub fseek_lem :
    (bytes : List ℕ) (pos offset : ℕ)
    → offset < 2 ^ 63
    → fseek offset (record { bytes = bytes; pos = pos; broken = false })
      ≡ record { bytes = bytes; pos = offset; broken = false }
unfolding fseek
fseek_lem bytes pos offset h = ground arith

-- A range that is loaded from a file that contains it.
pub load_range :
    (held start addr size : ℕ) (bytes : List ℕ) (pos : ℕ) (mem : Map) (a : ℕ)
    → InFile bytes start addr size
    → a < 2 ^ 64
    → let r =
        load_bytes size addr held
          (fseek start (record { bytes = bytes; pos = pos; broken = false }))
          mem in
      (find r.2 a ≡ or_else (find mem a) (range_byte bytes start addr size a))
      × (r.1 ≡ record { bytes = bytes; pos = start + size; broken = false })
load_range held start addr size bytes pos mem a v ha =
    rw (fseek_lem bytes pos start v.start_fits)
      (load_bytes-find size addr held bytes start mem a ha v.addr_fits v.size_fits v.within)

-- The segments of a file that contains them add their image to the memory: an address keeps what
-- it holds, and one that holds nothing gets the byte of the first segment that covers it.
pub load_segments-image :
    (phs : List Phdr) (held : ℕ) (bytes : List ℕ) (pos : ℕ) (mem : Map) (a : ℕ)
    → All (λ ph. InFile bytes ph.p_offset ph.p_vaddr ph.p_filesz) phs
    → a < 2 ^ 64
    → find (load_segments phs held (record { bytes = bytes; pos = pos; broken = false }) mem).2 a
      ≡ or_else (find mem a) (image bytes phs a)
unfolding load_segments
load_segments-image [] held bytes pos mem a v ha = ground arith
load_segments-image (ph ∷ phs) held bytes pos mem a v ha =
    let r =
      load_bytes ph.p_filesz ph.p_vaddr held
        (fseek ph.p_offset (record { bytes = bytes; pos = pos; broken = false })) mem in
    let (found, file) = load_range held ph.p_offset ph.p_vaddr ph.p_filesz bytes pos mem a v.0 ha in
    rw (file, load_segments)
      (load_segments-image phs r.0 bytes (ph.p_offset + ph.p_filesz) r.2 a v.1 ha
        ∙ rw found (or_else_assoc (find mem a) _ _))
