-- ===== src/Mmu/Permission.antt =====
-- The forbidden blocks: what `ban` decides and what its use in `write` protects.
use mathlib.Core.Path.{subst}
use riscv_isa_simulator.Base.{
  ℕ, zero, suc, ◌+◌, ◌-◌, ◌/◌, ◌^◌, ◌≤◌, ◌<◌, ◌≡◌, ◌≢◌, ◌↔◌, ◌⊎◌, inl, inr, refl, ◌∙◌, arith, [],
  ◌∷◌, true, false, leb, ◌&&◌, ◌||◌, add64, sub64, trap, Bool-cases, Option-cases, ◌==◌,
  no_permission, Keeps, Keeps-bind,
}
use riscv_isa_simulator.Mmu.{Mmu, ban, store, write_loop, write}
use riscv_isa_simulator.Mmu.StdMap.{Map, find, find-insert, find-assign}
use riscv_isa_simulator.Mmu.Access.{offset}

-- `addr` lies in a block of the list, both of its ends included.
abbrev pub Banned : Map → ℕ → Type 0
Banned [] addr = ⊥
Banned ((first, second) ∷ rest) addr = ((first ≤ addr) × (addr ≤ second)) ⊎ Banned rest addr

-- `ban` is true of exactly the addresses that lie in a block of the list.
pub ban-Banned_iff : (forbid : Map) (addr : ℕ) → (ban forbid addr ≡ true) ↔ Banned forbid addr
unfolding ban
ban-Banned_iff [] addr = (λ h. cc, λ h. absurd h)
ban-Banned_iff ((first, second) ∷ rest) addr =
    let ih = ban-Banned_iff rest addr in
    (
      λ h. elim (Bool-cases (leb first addr && leb addr second)) [
        | inl inside ↦ inl (ground arith, ground arith)
        | inr outside ↦ inr (ih.0 (ground arith))
      ],
      λ h. elim h [ inl (p, q) ↦ ground arith | inr r ↦ ground (arith, ih.1 r) ],
    )

-- A block of the list, with both ends.
abbrev pub HasBlock : Map → ℕ → ℕ → Type 0
HasBlock [] f s = ⊥
HasBlock ((first, second) ∷ rest) f s = ((first ≡ f) × (second ≡ s)) ⊎ HasBlock rest f s

ban-HasBlock :
    (forbid : Map) (f s addr : ℕ)
    → HasBlock forbid f s
    → f ≤ addr
    → addr ≤ s
    → ban forbid addr ≡ true
unfolding ban
ban-HasBlock [] f s addr h p q = absurd h
ban-HasBlock ((first, second) ∷ rest) f s addr (inl e) p q = ground arith
ban-HasBlock ((first, second) ∷ rest) f s addr (inr h) p q =
    ground (arith, ban-HasBlock rest f s addr h p q)

ban_free :
    (forbid : Map) (f s addr : ℕ)
    → HasBlock forbid f s
    → ban forbid addr ≡ false
    → (addr < f) ⊎ (s < addr)
ban_free forbid f s addr block free = grind (arith, ban-HasBlock forbid f s addr block)

-- An address above all the blocks is free.
pub ban_above :
    (forbid : Map) (addr : ℕ)
    → ((f s : ℕ) → HasBlock forbid f s → s < addr)
    → ban forbid addr ≡ false
unfolding ban
ban_above [] addr h = refl
ban_above ((first, second) ∷ rest) addr h =
    let below : second < addr = h first second (inl (refl, refl)) in
    ground (arith, ban_above rest addr (λ f s b. h f s (inr b)))

module _ (end_key : Map → ℕ) where
  abbrev Same : ℕ → Map → Map → Type 0
  Same a mem mem' = find mem' a ≡ find mem a

  store_frame :
      (mem : Map) (addr byte a : ℕ) → a ≢ addr → Keeps (Same a mem) (store end_key mem addr byte)
  unfolding store
  store_frame mem addr byte a ne = elim (Option-cases (find mem addr)) [
    | inl absent ↦
        rw (absent, store)
          (elim (Bool-cases (end_key mem == addr)) [
            | inl t ↦ rw t tt
            | inr f ↦ rw f (find-insert mem addr byte a absent ∙ ground arith)
          ])
    | inr (old, e) ↦ rw (e, store) (find-assign mem addr byte a old e ∙ ground arith)
  ]

  write_loop_frame :
      (n addr val : ℕ) (mem : Map) (a : ℕ)
      → a < 2 ^ 64
      → addr < 2 ^ 64
      → n < 2 ^ 64
      → n ≤ offset addr a
      → Keeps (Same a mem) (write_loop end_key n addr val mem)
  unfolding write_loop
  write_loop_frame zero addr val mem a fits h small outside = refl
  write_loop_frame (suc n) addr val mem a fits h small outside =
      Keeps-bind (Same a mem) (Same a mem) (store end_key mem addr _) _
        (store_frame mem addr _ a (omega arith))
        (λ mem₁ e.
          subst
            (λ t.
              Keeps (λ mem'. find mem' a ≡ t)
                (write_loop end_key n (add64 addr 1) (val / 2 ^ 8) mem₁))
            e
            (write_loop_frame n (add64 addr 1) (val / 2 ^ 8) mem₁ a fits (omega arith) (omega arith)
              (omega arith)))

  apart_lem :
      (addr len a f s : ℕ)
      → f ≤ a
      → a ≤ s
      → s < 2 ^ 64
      → addr < 2 ^ 64
      → 0 < len
      → len ≤ s - f + 2
      → (addr < f) ⊎ (s < addr)
      → (sub64 (add64 addr len) 1 < f) ⊎ (s < sub64 (add64 addr len) 1)
      → len ≤ offset addr a
  apart_lem addr len a f s lo hi top h pos short first last = omega arith

  -- A byte of a forbidden block (below 2 ^ 64) keeps what it holds in every `write` that does not
  -- trap, where the access starts below 2 ^ 64, is not empty, is shorter than 2 ^ 64 and is at most
  -- one byte longer than the block.
  pub write_protects :
      (m : Mmu) (f s addr reg len a : ℕ)
      → HasBlock m.forbid f s
      → f ≤ a
      → a ≤ s
      → s < 2 ^ 64
      → addr < 2 ^ 64
      → 0 < len
      → len ≤ s - f + 2
      → len < 2 ^ 64
      → Keeps (λ m'. find m'.mem a ≡ find m.mem a) (write end_key m addr reg len)
  unfolding write
  write_protects m f s addr reg len a block lo hi top h pos short small =
      let last = sub64 (add64 addr len) 1 in
      elim (Bool-cases (ban m.forbid addr || ban m.forbid last)) [
        | inl banned ↦ rw banned tt
        | inr free ↦
            let apart : len ≤ offset addr a =
              apart_lem addr len a f s lo hi top h pos short
                (ban_free m.forbid f s addr block (ground arith))
                (ban_free m.forbid f s last block (ground arith)) in
            rw free (
              Keeps-bind (Same a m.mem) _ (write_loop end_key len addr reg m.mem) _
                (write_loop_frame len addr reg m.mem a (omega arith) h small apart) (λ mem' e. e))
      ]

  -- A `write` that starts or ends in a forbidden block throws `no_permission`.
  pub write_refused :
      (m : Mmu) (addr reg len : ℕ)
      → Banned m.forbid addr ⊎ Banned m.forbid (sub64 (add64 addr len) 1)
      → write end_key m addr reg len ≡ trap (no_permission addr (sub64 (add64 addr len) 1))
  unfolding write
  write_refused m addr reg len (inl h) = rw ((ban-Banned_iff m.forbid addr).1 h)
  write_refused m addr reg len (inr h) =
      let last = sub64 (add64 addr len) 1 in
      let e = (ban-Banned_iff m.forbid last).1 h in ground arith
