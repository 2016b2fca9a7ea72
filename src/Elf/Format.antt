-- ===== src/Elf/Format.antt =====
-- An ELF file as a linker writes it: its tables one after the other.
use mathlib.Core.List.{append_assoc}
use riscv_isa_simulator.Base.{
  ℕ, ◌+◌, ◌*◌, ◌≡◌, refl, ap, sym, ◌∙◌, ◌^◌, ◌<◌, ◌≤◌, some, get_elem?, Returns, ◌>>=◌, arith, List,
  [], ◌∷◌, ◌++◌, length, length-append, take, drop, All,
}
use riscv_isa_simulator.Elf.Tables.{
  Ehdr, Phdr, Shdr, phdr_of, shdr_of, array_of, sizeof_ehdr, sizeof_phdr, sizeof_shdr,
}
use riscv_isa_simulator.Elf.Layout.{
  slice, header_of, segments_of, sections_of, names_of, at, read_elf_header_lem,
  read_prog_headers_lem, read_sec_headers_lem,
}
use riscv_isa_simulator.Elf.{Buffer, Loader, read_elf_header, read_prog_headers, read_sec_headers}
use riscv_isa_simulator.Elf.Entries.{
  print_phdr, print_shdr, print_ehdr, IsPhdr, IsShdr, IsEhdr, phdr_of-print, shdr_of-print,
  ehdr_of-print,
}

take-append_length : (xs ys : List ℕ) → take (length xs) (xs ++ ys) ≡ xs
take-append_length [] ys = refl
take-append_length (x ∷ xs) ys = ap (◌∷◌ x) (take-append_length xs ys)

drop-append : (xs ys : List ℕ) → drop (length xs) (xs ++ ys) ≡ ys
drop-append [] ys = refl
drop-append (x ∷ xs) ys = drop-append xs ys

-- The entries of a table, one after the other.
abbrev pub print_all : {A : Type 0} → (A → List ℕ) → List A → List ℕ
print_all print [] = []
print_all print (x ∷ xs) = print x ++ print_all print xs

module _ {A : Type 0} (of : List ℕ → A) (print : A → List ℕ) (P : A → Type 0) (size : ℕ) where
  length-print_all :
      ((x : A) → length (print x) ≡ size)
      → (xs : List A) → length (print_all print xs) ≡ size * length xs
  length-print_all h [] = omega arith
  length-print_all h (x ∷ xs) =
      length-append (print x) (print_all print xs) ∙ grind (arith, h x, length-print_all h xs)

  array_of-print_all :
      ((x : A) → length (print x) ≡ size)
      → ((x : A) → P x → of (print x) ≡ x)
      → (xs : List A) → All P xs
      → array_of of size (length xs) (print_all print xs) ≡ xs
  unfolding array_of
  array_of-print_all h back [] v = refl
  array_of-print_all h back (x ∷ xs) v =
      let head : take size (print x ++ print_all print xs) ≡ print x =
        rw (← h x) (take-append_length (print x) (print_all print xs)) in
      let tail : drop size (print x ++ print_all print xs) ≡ print_all print xs =
        rw (← h x) (drop-append (print x) (print_all print xs)) in
      rw (head, tail, back x v.0, array_of-print_all h back xs v.1) refl

  -- The array that starts `start` bytes into a file.
  slice-print_all :
      ((x : A) → length (print x) ≡ size)
      → ((x : A) → P x → of (print x) ≡ x)
      → (before : List ℕ) (xs : List A) (rest : List ℕ) (start : ℕ) → length before ≡ start
      → All P xs
      → array_of of size
          (length xs)
          (slice (before ++ (print_all print xs ++ rest)) start (size * length xs))
        ≡ xs
  slice-print_all h back before xs rest start at v =
      let skip : drop start (before ++ (print_all print xs ++ rest)) ≡ print_all print xs ++ rest =
        rw (← at) (drop-append before (print_all print xs ++ rest)) in
      let part : take (size * length xs) (print_all print xs ++ rest) ≡ print_all print xs =
        rw (← length-print_all h xs) (take-append_length (print_all print xs) rest) in
      rw (skip, part) (array_of-print_all h back xs v)

-- A file with its program headers behind the ELF header, and the section headers behind those, each
-- table after bytes that belong to neither.
abbrev pub print_elf : Ehdr → List ℕ → List Phdr → List ℕ → List Shdr → List ℕ → List ℕ
print_elf h gap phs gap' shs body =
    print_ehdr h
    ++ (gap ++ (print_all print_phdr phs ++ (gap' ++ (print_all print_shdr shs ++ body))))

module _ (h : Ehdr) (gap : List ℕ) (phs : List Phdr) (gap' : List ℕ) (shs : List Shdr)
    (body : List ℕ) where
  abbrev phdrs_at : ℕ
  phdrs_at = sizeof_ehdr + length gap

  abbrev shdrs_at : ℕ
  shdrs_at = sizeof_ehdr + length gap + sizeof_phdr * length phs + length gap'

  length-phdrs : length (print_all print_phdr phs) ≡ sizeof_phdr * length phs
  length-phdrs = length-print_all phdr_of print_phdr IsPhdr sizeof_phdr (λ x. refl) phs

  length-shdrs : length (print_all print_shdr shs) ≡ sizeof_shdr * length shs
  length-shdrs = length-print_all shdr_of print_shdr IsShdr sizeof_shdr (λ x. refl) shs

  length-front : length (print_ehdr h ++ gap) ≡ phdrs_at
  length-front = length-append (print_ehdr h) gap

  length-middle : length ((print_ehdr h ++ gap) ++ (print_all print_phdr phs ++ gap')) ≡ shdrs_at
  length-middle =
      length-append (print_ehdr h ++ gap) (print_all print_phdr phs ++ gap')
      ∙ (rw (length-front, length-append (print_all print_phdr phs) gap', length-phdrs)
          (omega arith))

  front_split :
      print_elf h gap phs gap' shs body
      ≡ (print_ehdr h ++ gap)
        ++ (print_all print_phdr phs ++ (gap' ++ (print_all print_shdr shs ++ body)))
  front_split = sym (append_assoc (print_ehdr h) gap _)

  middle_split :
      print_elf h gap phs gap' shs body
      ≡ ((print_ehdr h ++ gap) ++ (print_all print_phdr phs ++ gap'))
        ++ (print_all print_shdr shs ++ body)
  middle_split =
      front_split
      ∙ ap (◌++◌ (print_ehdr h ++ gap))
          (sym (append_assoc (print_all print_phdr phs) gap' (print_all print_shdr shs ++ body)))
      ∙ sym (append_assoc (print_ehdr h ++ gap) _ _)

  length-print_elf :
      length (print_elf h gap phs gap' shs body)
      ≡ shdrs_at + (sizeof_shdr * length shs + length body)
  length-print_elf =
      ap length middle_split
      ∙ length-append ((print_ehdr h ++ gap) ++ (print_all print_phdr phs ++ gap'))
          (print_all print_shdr shs ++ body)
      ∙ (rw (length-middle, length-append (print_all print_shdr shs) body, length-shdrs) refl)

  -- The bytes at the places of the tables are the entries that were printed.
  tables_of-print_elf :
      IsEhdr h
      → All IsPhdr phs
      → All IsShdr shs
      → h.e_phnum ≡ length phs
      → h.e_phoff ≡ phdrs_at
      → h.e_shnum ≡ length shs
      → h.e_shoff ≡ shdrs_at
      → (header_of (print_elf h gap phs gap' shs body) ≡ h)
        × (segments_of (print_elf h gap phs gap' shs body) ≡ phs)
        × (sections_of (print_elf h gap phs gap' shs body) ≡ shs)
  tables_of-print_elf vh vp vs phnum phoff shnum shoff =
      let file = print_elf h gap phs gap' shs body in
      let head = ehdr_of-print h vh in
      let n : (header_of file).e_phnum ≡ length phs = ap (λ (t : Ehdr). t.e_phnum) head ∙ phnum in
      let m : (header_of file).e_shnum ≡ length shs = ap (λ (t : Ehdr). t.e_shnum) head ∙ shnum in
      let p : (header_of file).e_phoff ≡ phdrs_at = ap (λ (t : Ehdr). t.e_phoff) head ∙ phoff in
      let s : (header_of file).e_shoff ≡ shdrs_at = ap (λ (t : Ehdr). t.e_shoff) head ∙ shoff in
      (
        head,
        (λ k. array_of phdr_of sizeof_phdr (n k) (slice (front_split k) (p k) (sizeof_phdr * n k)))
            ∙ slice-print_all phdr_of print_phdr IsPhdr sizeof_phdr (λ x. refl) phdr_of-print
                (print_ehdr h ++ gap) phs _ phdrs_at length-front vp,
        (λ k. array_of shdr_of sizeof_shdr (m k) (slice (middle_split k) (s k) (sizeof_shdr * m k)))
            ∙ slice-print_all shdr_of print_shdr IsShdr sizeof_shdr (λ x. refl) shdr_of-print
                ((print_ehdr h ++ gap) ++ (print_all print_phdr phs ++ gap')) shs body shdrs_at
                length-middle vs,
      )

  -- Of a file with such tables the program reads the ELF header, the program headers and the section
  -- headers that it was made of, and the bytes of the section of the names: from the start of the
  -- file, `read_elf_header`, `read_prog_headers` and `read_sec_headers` one after the other return
  -- with these. The fields are in the bounds of their types, the header gives the numbers and places
  -- of the tables, below 2 ^ 63, and the section of the names is in the table and in the file.
  pub tables-print_elf :
      (raw : Buffer → ℕ → ℕ) (l : Loader) (names : Shdr)
      → IsEhdr h
      → All IsPhdr phs
      → All IsShdr shs
      → h.e_phnum ≡ length phs
      → h.e_phoff ≡ sizeof_ehdr + length gap
      → h.e_shnum ≡ length shs
      → h.e_shoff ≡ sizeof_ehdr + length gap + sizeof_phdr * length phs + length gap'
      → h.e_shoff < 2 ^ 63
      → get_elem? shs h.e_shstrndx ≡ some names
      → names.sh_offset < 2 ^ 63
      → names.sh_offset + names.sh_size ≤ length (print_elf h gap phs gap' shs body)
      → let file = print_elf h gap phs gap' shs body in
        Returns
          (read_elf_header raw (record l { file = at file 0 }) >>= λ l₁.
            read_sec_headers raw (read_prog_headers raw l₁))
          λ l'.
            (l'.header ≡ h)
            × (l'.progs ≡ phs)
            × (l'.sections ≡ shs)
            × (l'.names ≡ slice file names.sh_offset names.sh_size)
  tables-print_elf raw l names vh vp vs phnum phoff shnum shoff fits found low within =
      let file = print_elf h gap phs gap' shs body in
      let (head, progs, secs) = tables_of-print_elf vh vp vs phnum phoff shnum shoff in
      let size = length-print_elf in
      let l₁ = record l { header = header_of file } in
      let l₂ = record l₁ { progs = segments_of file } in
      let phnum' = ap (λ (t : Ehdr). t.e_phnum) head in
      let phoff' = ap (λ (t : Ehdr). t.e_phoff) head in
      let shnum' = ap (λ (t : Ehdr). t.e_shnum) head in
      let shoff' = ap (λ (t : Ehdr). t.e_shoff) head in
      let index : get_elem? (sections_of file) (header_of file).e_shstrndx ≡ some names =
        (λ k. get_elem? (secs k) (head k).e_shstrndx) ∙ found in
      let first = read_elf_header_lem raw file l (omega arith) in
      let (pos, second) =
        read_prog_headers_lem raw file l₁ sizeof_ehdr (omega arith) (omega arith) in
      let (pos', third) =
        read_sec_headers_lem raw file l₂ pos names (omega arith) (omega arith) index low within in
      (
        record l₂ { file = at file pos'; sections = sections_of file; names = names_of file names },
        rw first (ap (read_sec_headers raw) second ∙ third),
        (head, progs, secs, refl),
      )
