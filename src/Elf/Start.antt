-- ===== src/Elf/Start.antt =====
-- The constructor of `mmu_t` on an ELF file: that it returns, and what it returns.
use riscv_isa_simulator.Base.{
  ℕ, ◌+◌, ◌*◌, ◌/◌, ◌^◌, ◌≤◌, ◌<◌, ◌≡◌, ◌≢◌, refl, ap, ◌∙◌, List, [], Option, none, some, or_else,
  length, get_elem?, All, add64, ◌⊎◌, inl, inr, ok, Returns, >>=-ok,
}
use riscv_isa_simulator.Mmu.{Mmu}
use riscv_isa_simulator.Mmu.StdMap.{Map, find}
use riscv_isa_simulator.Mmu.Permission.{HasBlock}
use riscv_isa_simulator.Elf.Tables.{Shdr, sizeof_ehdr, sizeof_phdr, sizeof_shdr}
use riscv_isa_simulator.Elf.{
  Buffer, find_tables, read_elf_header, read_prog_headers, read_sec_headers, read_sym_tbls,
  load_sections, load_prog, read_elf, new_loader, new_mmu,
}
use riscv_isa_simulator.Elf.Image.{InFile, range_byte, image, load_segments-image}
use riscv_isa_simulator.Elf.Loading.{HasSections, Loaded, state, load_sections_lem}
use riscv_isa_simulator.Elf.Layout.{
  header_of, segments_of, sections_of, names_of, at, read_elf_header_lem, read_prog_headers_lem,
  read_sec_headers_lem, read_sym_tbls_lem,
}

-- The tables of an ELF file lie in it. `names` is the section of the section names, `str` and `sym`,
-- sections `i` and `j`, are those that the names .strtab and .symtab lead to.
pub record IsElf (bytes : List ℕ) (names str sym : Shdr) (i j : ℕ) : Type 0 where
  pub header : sizeof_ehdr ≤ length bytes
  pub progs_low : (header_of bytes).e_phoff < 2 ^ 63
  pub progs : (header_of bytes).e_phoff + sizeof_phdr * (header_of bytes).e_phnum ≤ length bytes
  pub sections_low : (header_of bytes).e_shoff < 2 ^ 63
  pub sections : (header_of bytes).e_shoff + sizeof_shdr * (header_of bytes).e_shnum ≤ length bytes
  pub names_at : get_elem? (sections_of bytes) (header_of bytes).e_shstrndx ≡ some names
  pub names_low : names.sh_offset < 2 ^ 63
  pub names_within : names.sh_offset + names.sh_size ≤ length bytes
  pub tables :
      find_tables (names_of bytes names) (sections_of bytes) 0 (none, none) ≡ ok (some i, some j)
  pub str_at : get_elem? (sections_of bytes) i ≡ some str
  pub sym_at : get_elem? (sections_of bytes) j ≡ some sym
  pub entsize : sym.sh_entsize ≢ 0
  pub symbols : sym.sh_size / sym.sh_entsize < 2 ^ 31
  pub has_sections : HasSections bytes (names_of bytes names) (sections_of bytes)
  pub segments : All (λ ph. InFile bytes ph.p_offset ph.p_vaddr ph.p_filesz) (segments_of bytes)

keep_same : (o p : Option ℕ) → (o ≡ none) ⊎ (o ≡ p) → or_else o p ≡ p
keep_same o p (inl absent) = rw absent refl
keep_same none p (inr same) = refl
keep_same (some v) p (inr same) = same

module _ (raw : Buffer → ℕ → ℕ) (bytes : List ℕ) (names str sym_tab : Shdr) (i j : ℕ)
    (v : IsElf bytes names str sym_tab i j) where
  empty_Loaded : Loaded bytes (sections_of bytes) [] []
  unfolding find
  empty_Loaded = record { mapped = λ a ha. inl refl; blocks = λ f e h. absurd h }

  pub new_mmu_lem : Returns (new_mmu raw (some (at bytes 0))) λ m.
      (m.entry ≡ (header_of bytes).e_entry)
      × (mem : Map) × Loaded bytes (sections_of bytes) mem m.forbid
      × ((a : ℕ)
          → a < 2 ^ 64
          → find m.mem a ≡ or_else (find mem a) (image bytes (segments_of bytes) a))
  unfolding new_mmu read_elf load_prog
  new_mmu_lem =
      let l₀ = new_loader raw (at bytes 0) in
      let head = read_elf_header_lem raw bytes l₀ v.header in
      let l₁ = record l₀ { header = header_of bytes } in
      let (pos₂, progs) = read_prog_headers_lem raw bytes l₁ sizeof_ehdr v.progs_low v.progs in
      let l₂ = record l₁ { progs = segments_of bytes } in
      let (pos₃, secs) =
        read_sec_headers_lem raw bytes l₂ pos₂ names v.sections_low v.sections v.names_at
          v.names_low v.names_within in
      let l₃ = record l₂ { sections = sections_of bytes; names = names_of bytes names } in
      let (pos₄, text, syms, tables) =
        read_sym_tbls_lem raw bytes l₃ pos₃ i j str sym_tab v.tables v.str_at v.sym_at v.entsize
          v.symbols in
      let l₄ = record l₃ {
        strings = text;
        symbols = syms;
        index_strtab = some i;
        index_symtab = some j;
      } in
      let (l₅, loop, (pos₅, mem, forbid, e, loaded)) =
        load_sections_lem raw l₄ bytes (sections_of bytes) pos₄ [] [] v.has_sections
          v.has_sections.named empty_Loaded in
      let end = load_prog raw (state raw l₄ bytes pos₅ mem forbid) in
      (
        record { mem = end.mem; forbid = forbid; entry = (header_of bytes).e_entry },
        >>=-ok (read_elf raw l₀) _
            (>>=-ok (read_elf_header raw l₀) _ head (
              >>=-ok
                (read_sec_headers raw
                  (read_prog_headers raw (record l₁ { file = at bytes sizeof_ehdr })))
                _ (ap (read_sec_headers raw) progs ∙ secs)
                (>>=-ok (read_sym_tbls raw (record l₃ { file = at bytes pos₃ })) _ tables (
                  >>=-ok (load_sections raw (sections_of bytes) (state raw l₄ bytes pos₄ [] [])) _
                    loop (ap (λ l. ok (load_prog raw l)) e)))))
            refl,
        (
          refl,
          mem,
          loaded,
          λ a ha.
              load_segments-image (segments_of bytes) (raw Buffer.cur_inst 0) bytes pos₅ mem a
                v.segments ha,
        ),
      )

  -- What the loader left at an address at which sections and segments agree.
  pub image_there :
      (m : Mmu) (mem : Map) (a : ℕ)
      → Loaded bytes (sections_of bytes) mem m.forbid
      → find m.mem a ≡ or_else (find mem a) (image bytes (segments_of bytes) a)
      → a < 2 ^ 64
      → ((k : ℕ) (s : Shdr)
          → k < 4
          → get_elem? (sections_of bytes) k ≡ some s
          → let b = range_byte bytes s.sh_offset s.sh_addr s.sh_size a in
            (b ≡ none) ⊎ (b ≡ image bytes (segments_of bytes) a))
      → find m.mem a ≡ image bytes (segments_of bytes) a
  image_there m mem a loaded found ha agree =
      let before : (find mem a ≡ none) ⊎ (find mem a ≡ image bytes (segments_of bytes) a) =
        elim (loaded.mapped a ha) [
          | inl absent ↦ inl absent
          | inr (k, s, lt, at_k, e) ↦ elim (agree k s lt at_k) [
            | inl empty ↦ inl (e ∙ empty)
            | inr same ↦ inr (e ∙ same)
          ]
        ] in
      found ∙ keep_same (find mem a) _ before

  -- On an ELF file the constructor returns, with the entry point of the header. An address at which
  -- the first four sections agree with the segments, wherever they reach it, holds the byte of the
  -- first segment that covers it, and nothing if none does.
  pub new_mmu-image :
      (a : ℕ)
      → a < 2 ^ 64
      → ((k : ℕ) (s : Shdr)
          → k < 4
          → get_elem? (sections_of bytes) k ≡ some s
          → let b = range_byte bytes s.sh_offset s.sh_addr s.sh_size a in
            (b ≡ none) ⊎ (b ≡ image bytes (segments_of bytes) a))
      → Returns (new_mmu raw (some (at bytes 0))) λ m.
        (m.entry ≡ (header_of bytes).e_entry) × (find m.mem a ≡ image bytes (segments_of bytes) a)
  new_mmu-image a ha agree =
      let (m, run, (entry, mem, loaded, found)) = new_mmu_lem in
      (m, run, (entry, image_there m mem a loaded (found a ha) ha agree))

  -- On an ELF file the constructor returns, and forbids only blocks of the first four sections,
  -- each from `sh_addr` to `sh_addr + sh_size`, whichever sections the names in `loader` belong to.
  pub new_mmu_blocks :
      (f e : ℕ)
      → ((k : ℕ) (s : Shdr)
          → k < 4
          → get_elem? (sections_of bytes) k ≡ some s
          → (s.sh_addr ≢ f) ⊎ (add64 s.sh_addr s.sh_size ≢ e))
      → Returns (new_mmu raw (some (at bytes 0))) (λ m. ¬ HasBlock m.forbid f e)
  new_mmu_blocks f e other =
      let (m, run, (entry, mem, loaded, found)) = new_mmu_lem in
      (
        m,
        run,
        λ h.
            let (k, s, lt, at_k, p, q) = loaded.blocks f e h in
            elim (other k s lt at_k) [ inl ne ↦ absurd (ne p) | inr ne ↦ absurd (ne q) ],
      )
