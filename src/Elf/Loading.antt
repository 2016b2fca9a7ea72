-- ===== src/Elf/Loading.antt =====
-- The loop of `read_elf` over the sections, on a file whose section names end in the table of names
-- and whose first four sections lie in it.
use riscv_isa_simulator.Base.{
  ℕ, zero, suc, ◌+◌, ◌^◌, ◌≤◌, ◌<◌, ◌≡◌, refl, sym, ◌∙◌, arith, Bool, false, ◌||◌, List, [], ◌∷◌,
  none, some, or_else, length, get_elem?, All, ◌==◌, if◌then◌else◌, add64, Bool-cases, Option-cases,
  ◌⊎◌, inl, inr, ok, Returns,
}
use mathlib.Core.Path.{subst}
use riscv_isa_simulator.Mmu.StdMap.{Map, find, insert}
use riscv_isa_simulator.Mmu.Permission.{HasBlock}
use riscv_isa_simulator.Elf.Stream.{File, fseek}
use riscv_isa_simulator.Structs.Regfile.{if_either}
use riscv_isa_simulator.Elf.Tables.{Shdr}
use riscv_isa_simulator.Elf.{
  Buffer, cur_data, Loader, is_named, element, loader, load_bytes, load_data, load_sections,
  s_rodata, s_rodatal,
}
use riscv_isa_simulator.Elf.Image.{InFile, range_byte, load_range}
use riscv_isa_simulator.Elf.Sections.{HasName, is_named_total, loader_index_total, element_total}

HasBlock-insert :
    (m : Map) (k v f s : ℕ) → HasBlock (insert m k v) f s → HasBlock m f s ⊎ ((k ≡ f) × (v ≡ s))
unfolding insert
HasBlock-insert [] k v f s (inl e) = inr e
HasBlock-insert [] k v f s (inr h) = absurd h
HasBlock-insert ((j, w) ∷ m) k v f s h = elim (Bool-cases (j == k)) [
  | inl same ↦ inl (rw (same, insert) at h)
  | inr other ↦
      elim (rw (other, insert) at h) as (λ _. HasBlock ((j, w) ∷ m) f s ⊎ ((k ≡ f) × (v ≡ s))) [
        | inl e ↦ inl (inl e)
        | inr r ↦ elim (HasBlock-insert m k v f s r) [ inl b ↦ inl (inr b) | inr e ↦ inr e ]
      ]
]

All-get_elem? {ℓ κ} :
    {A : Type ℓ} (P : A → Type κ) (xs : List A) (i : ℕ) (x : A)
    → All P xs
    → get_elem? xs i ≡ some x
    → P x
All-get_elem? P [] i x h e = cc
All-get_elem? P (y ∷ xs) zero x h e = let same : y ≡ x = (cc) in subst P same h.0
All-get_elem? P (y ∷ xs) (suc i) x h e = All-get_elem? P xs i x h.1 e

-- What the file must have.
pub record HasSections (bytes names : List ℕ) (sections : List Shdr) : Type 0 where
  pub four : 4 ≤ length sections
  pub named : All (HasName names) sections
  pub in_file :
      (j : ℕ) (s : Shdr)
      → j < 4
      → get_elem? sections j ≡ some s
      → InFile bytes s.sh_offset s.sh_addr s.sh_size

-- The memory and the forbidden blocks come from the first four sections of the file.
pub record Loaded (bytes : List ℕ) (sections : List Shdr) (mem forbid : Map) : Type 0 where
  pub mapped :
      (a : ℕ)
      → a < 2 ^ 64
      → (find mem a ≡ none)
        ⊎ ((j : ℕ) × (s : Shdr) × (j < 4)
            × (get_elem? sections j ≡ some s)
            × (find mem a ≡ range_byte bytes s.sh_offset s.sh_addr s.sh_size a))
  pub blocks :
      (f e : ℕ)
      → HasBlock forbid f e
      → (j : ℕ) × (s : Shdr) × (j < 4)
        × (get_elem? sections j ≡ some s)
        × (s.sh_addr ≡ f)
        × (add64 s.sh_addr s.sh_size ≡ e)

module _ (raw : Buffer → ℕ → ℕ) (base : Loader) (bytes : List ℕ) where
  -- `base` with what the loop changes.
  abbrev pub state : ℕ → Map → Map → Loader
  state pos mem forbid = record base {
    file = record { bytes = bytes; pos = pos; broken = false };
    mem = mem;
    forbid = forbid;
  }

  Loaded-range :
      (mem forbid mem' : Map) (j : ℕ) (s : Shdr)
      → Loaded bytes base.sections mem forbid
      → j < 4
      → get_elem? base.sections j ≡ some s
      → ((a : ℕ)
          → a < 2 ^ 64
          → find mem' a ≡ or_else (find mem a) (range_byte bytes s.sh_offset s.sh_addr s.sh_size a))
      → Loaded bytes base.sections mem' forbid
  Loaded-range mem forbid mem' j s l lt at found = record {
    mapped = λ a ha. elim (Option-cases (find mem a)) [
      | inl absent ↦ inr (j, s, lt, at, found a ha ∙ rw absent)
      | inr (v, there) ↦ elim (l.mapped a ha) [
        | inl absent ↦ absurd (cc)
        | inr (i, t, small, at_i, e) ↦
            inr (i, t, small, at_i, found a ha ∙ rw there (sym there ∙ e))
      ]
    ];
    blocks = l.blocks;
  }

  Loaded-insert :
      (mem forbid : Map) (j : ℕ) (s : Shdr)
      → Loaded bytes base.sections mem forbid
      → j < 4
      → get_elem? base.sections j ≡ some s
      → Loaded bytes base.sections mem (insert forbid s.sh_addr (add64 s.sh_addr s.sh_size))
  Loaded-insert mem forbid j s l lt at = record {
    mapped = l.mapped;
    blocks = λ f e h. elim (HasBlock-insert forbid s.sh_addr (add64 s.sh_addr s.sh_size) f e h) [
      | inl old ↦ l.blocks f e old
      | inr (p, q) ↦ (j, s, lt, at, p, q)
    ];
  }

  abbrev after : ℕ → Map → Shdr → ℕ × File × Map
  after pos mem s =
      load_bytes s.sh_size s.sh_addr (raw cur_data 0)
        (fseek s.sh_offset (record { bytes = bytes; pos = pos; broken = false })) mem

  load_data_run :
      (pos : ℕ) (mem forbid : Map) (j : ℕ) (s : Shdr) (rodata rodatal : Bool)
      → element base.sections j ≡ ok s
      → is_named s_rodata base.names s ≡ ok rodata
      → is_named s_rodatal base.names s ≡ ok rodatal
      → InFile bytes s.sh_offset s.sh_addr s.sh_size
      → load_data raw (state pos mem forbid) j
        ≡ ok (
            state (s.sh_offset + s.sh_size) (after pos mem s).2 (
              if rodata || rodatal
              then insert forbid s.sh_addr (add64 s.sh_addr s.sh_size)
              else forbid))
  unfolding load_data
  load_data_run pos mem forbid j s rodata rodatal run run₁ run₂ inside =
      let file =
        (load_range (raw cur_data 0) s.sh_offset s.sh_addr s.sh_size bytes pos mem 0 inside
          (omega arith)).1 in
      elim (Bool-cases rodata) [
        | inl t ↦ rw (run, run₁, t, file) refl
        | inr f ↦ rw (run, run₁, f, run₂, file) refl
      ]

  load_data_lem :
      (pos : ℕ) (mem forbid : Map) (j : ℕ)
      → HasSections bytes base.names base.sections
      → Loaded bytes base.sections mem forbid
      → j < 4
      → Returns (load_data raw (state pos mem forbid) j) λ l.
        (pos' : ℕ) × (mem' : Map) × (forbid' : Map) × (l ≡ state pos' mem' forbid')
        × Loaded bytes base.sections mem' forbid'
  unfolding load_data
  load_data_lem pos mem forbid j v l lt =
      let (s, run, at) = element_total base.sections j (omega (arith, v.four)) in
      let named = All-get_elem? (HasName base.names) base.sections j s v.named at in
      let (rodata, run_rodata, _) = is_named_total s_rodata base.names s (omega arith) named in
      let (rodatal, run_rodatal, _) = is_named_total s_rodatal base.names s (omega arith) named in
      let inside = v.in_file j s lt at in
      let range = load_range (raw cur_data 0) s.sh_offset s.sh_addr s.sh_size bytes pos mem in
      let mem' = (after pos mem s).2 in
      let loaded = Loaded-range mem forbid mem' j s l lt at (λ a ha. (range a inside ha).0) in
      (
        _,
        load_data_run pos mem forbid j s rodata rodatal run run_rodata run_rodatal inside,
        (
          _,
          mem',
          _,
          refl,
          if_either (Loaded bytes base.sections mem') (rodata || rodatal)
              (Loaded-insert mem' forbid j s loaded lt at) loaded,
        ),
      )

  pub load_sections_lem :
      (rest : List Shdr) (pos : ℕ) (mem forbid : Map)
      → HasSections bytes base.names base.sections
      → All (HasName base.names) rest
      → Loaded bytes base.sections mem forbid
      → Returns (load_sections raw rest (state pos mem forbid)) λ l.
        (pos' : ℕ) × (mem' : Map) × (forbid' : Map) × (l ≡ state pos' mem' forbid')
        × Loaded bytes base.sections mem' forbid'
  unfolding load_sections
  load_sections_lem [] pos mem forbid v named l =
      (state pos mem forbid, refl, (pos, mem, forbid, refl, l))
  load_sections_lem (s ∷ rest) pos mem forbid v named l =
      let (hit, run, bound) = loader_index_total base.names s 0 loader (omega arith) named.0 in
      elim bound [
        | inl miss ↦
            let (r, more, p) = load_sections_lem rest pos mem forbid v named.1 l in
            (r, rw run (rw miss more), p)
        | inr (j, found, lt) ↦
            let (l', one, (pos', mem', forbid', e, p)) =
              load_data_lem pos mem forbid j v l (omega arith) in
            let (r, more, q) = load_sections_lem rest pos' mem' forbid' v named.1 p in
            (r, rw run (rw found (rw one (rw e more))), q)
      ]
