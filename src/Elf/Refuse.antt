-- ===== src/Elf/Refuse.antt =====
-- Files without a symbol table or a string table.
use riscv_isa_simulator.Base.{
  ℕ, ◌+◌, ◌*◌, ◌^◌, ◌≤◌, ◌<◌, ◌≡◌, refl, ap, ◌∙◌, arith, false, List, [], ◌∷◌, Option, none, some,
  length, get_elem?, All, Bool-cases, ◌⊎◌, inl, inr, ok, trap, >>=-ok, >>=-trap, Returns, exited,
}
use riscv_isa_simulator.Elf.Tables.{Shdr, sizeof_ehdr, sizeof_phdr, sizeof_shdr}
use riscv_isa_simulator.Elf.{
  Buffer, Loader, s_strtab, s_symtab, is_named, note_table, find_tables, read_elf_header,
  read_prog_headers, read_sec_headers, read_sym_tbls, read_elf, new_loader, new_mmu,
}
use riscv_isa_simulator.Elf.Sections.{HasName, is_named_total}
use riscv_isa_simulator.Elf.Layout.{
  header_of, segments_of, sections_of, names_of, at, read_elf_header_lem, read_prog_headers_lem,
  read_sec_headers_lem,
}

-- No section of the list has the name.
abbrev pub Lacks : List ℕ → List ℕ → List Shdr → Type 0
Lacks literal names sections = All (λ s. is_named literal names s ≡ ok false) sections

note_table_total :
    (names : List ℕ) (s : Shdr) (i : ℕ) (found : Option ℕ × Option ℕ)
    → HasName names s
    → Returns (note_table names s i found) λ r.
      ((is_named s_strtab names s ≡ ok false) → r.0 ≡ found.0)
      × ((is_named s_symtab names s ≡ ok false) → r.1 ≡ found.1)
unfolding note_table
note_table_total names s i found h =
    let (b, str, _) = is_named_total s_strtab names s (omega arith) h in
    let (c, sym, _) = is_named_total s_symtab names s (omega arith) h in
    elim (Bool-cases b) [
      | inl hit ↦ ((some i, found.1), rw (str, hit) refl, (λ e. cc, λ e. refl))
      | inr miss ↦ elim (Bool-cases c) [
        | inl hit ↦ ((found.0, some i), rw (str, miss) (rw (sym, hit) refl), (λ e. refl, λ e. cc))
        | inr none_of ↦ (found, rw (str, miss) (rw (sym, none_of) refl), (λ e. refl, λ e. refl))
      ]
    ]

find_tables_total :
    (names : List ℕ) (sections : List Shdr) (i : ℕ) (found : Option ℕ × Option ℕ)
    → All (HasName names) sections
    → Returns (find_tables names sections i found) λ r.
      (Lacks s_strtab names sections → r.0 ≡ found.0)
      × (Lacks s_symtab names sections → r.1 ≡ found.1)
unfolding find_tables
find_tables_total names [] i found h = (found, refl, (λ e. refl, λ e. refl))
find_tables_total names (s ∷ rest) i found h =
    let (r, one, (str, sym)) = note_table_total names s i found h.0 in
    let (q, more, (str', sym')) = find_tables_total names rest (i + 1) r h.1 in
    (q, >>=-ok _ _ one more, (λ l. str' l.1 ∙ str l.0, λ l. sym' l.1 ∙ sym l.0))

-- The tables of the headers lie in the file, and the section names end in theirs.
pub record HasTables (bytes : List ℕ) (names : Shdr) : Type 0 where
  pub header : sizeof_ehdr ≤ length bytes
  pub progs_low : (header_of bytes).e_phoff < 2 ^ 63
  pub progs : (header_of bytes).e_phoff + sizeof_phdr * (header_of bytes).e_phnum ≤ length bytes
  pub sections_low : (header_of bytes).e_shoff < 2 ^ 63
  pub sections : (header_of bytes).e_shoff + sizeof_shdr * (header_of bytes).e_shnum ≤ length bytes
  pub names_at : get_elem? (sections_of bytes) (header_of bytes).e_shstrndx ≡ some names
  pub names_low : names.sh_offset < 2 ^ 63
  pub names_within : names.sh_offset + names.sh_size ≤ length bytes
  pub named : All (HasName (names_of bytes names)) (sections_of bytes)

module _ (raw : Buffer → ℕ → ℕ) where
  -- An index that is still -1 ends the program.
  missing :
      (l : Loader) (found : Option ℕ × Option ℕ)
      → find_tables l.names l.sections 0 (l.index_strtab, l.index_symtab) ≡ ok found
      → (found.0 ≡ none) ⊎ (found.1 ≡ none)
      → read_sym_tbls raw l ≡ trap (exited 1)
  unfolding read_sym_tbls
  missing l (str, sym) run (inl e) = rw (run, e) refl
  missing l (none, sym) run (inr e) = rw run refl
  missing l (some i, sym) run (inr e) = rw (run, e) refl

  module _ (bytes : List ℕ) (names : Shdr) (v : HasTables bytes names) where
    -- Of a file with headers and section names, but without a section named `.strtab` or without one
    -- named `.symtab`, the constructor makes no memory: it ends the program with status 1.
    pub new_mmu_refuses :
        Lacks s_strtab (names_of bytes names) (sections_of bytes)
          ⊎ Lacks s_symtab (names_of bytes names) (sections_of bytes)
        → new_mmu raw (some (at bytes 0)) ≡ trap (exited 1)
    unfolding new_mmu read_elf
    new_mmu_refuses lacks =
        let l₀ = new_loader raw (at bytes 0) in
        let head = read_elf_header_lem raw bytes l₀ v.header in
        let l₁ = record l₀ { header = header_of bytes } in
        let (pos₂, progs) = read_prog_headers_lem raw bytes l₁ sizeof_ehdr v.progs_low v.progs in
        let l₂ = record l₁ { progs = segments_of bytes } in
        let (pos₃, secs) =
          read_sec_headers_lem raw bytes l₂ pos₂ names v.sections_low v.sections v.names_at
            v.names_low v.names_within in
        let l₃ = record l₂ {
          file = at bytes pos₃;
          sections = sections_of bytes;
          names = names_of bytes names;
        } in
        let (found, run, (str, sym)) =
          find_tables_total (names_of bytes names) (sections_of bytes) 0 (none, none) v.named in
        let absent : (found.0 ≡ none) ⊎ (found.1 ≡ none) = elim lacks [
          | inl l ↦ inl (str l)
          | inr l ↦ inr (sym l)
        ] in
        let refused = missing l₃ found run absent in
        >>=-trap (read_elf raw l₀) _ (
          >>=-ok (read_elf_header raw l₀) _ head (
            >>=-ok
              (read_sec_headers raw
                (read_prog_headers raw (record l₁ { file = at bytes sizeof_ehdr })))
              _ (ap (read_sec_headers raw) progs ∙ secs)
              (>>=-trap (read_sym_tbls raw l₃) _ refused)))
