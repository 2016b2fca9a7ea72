-- ===== src/Mmu/Access/Loops.antt =====
-- What a range of mapped bytes holds, and the loops of `read` and `write` on it.
use native.Mathlib.Nat.{
  pow-suc, one-le-pow, div-add-mod, mod-lt, mod-one, mul-add-mod_self_left, mod-eq_of_lt,
  pow-le-pow_right, mul-le-mul_right,
}
use native.Mathlib.Numerals.{towards_suc}
use riscv_isa_simulator.Base.{
  ℕ, length, zero, suc, ◌+◌, ◌-◌, ◌*◌, ◌/◌, ◌%◌, ◌^◌, ◌≤◌, ◌<◌, ◌≡◌, refl, sym, ap, ◌∙◌, arith,
  some, Option-cases, inl, inr, bit_and, bit_or, ◌==◌, ==_refl, if◌then◌else◌, add64, shl64, ok,
  Returns,
}
use riscv_isa_simulator.Base.Bits.{bit_and_mask, bit_or_sum, bit_or_comm}
use riscv_isa_simulator.Mmu.StdMap.{
  Map, find, insert, assign, find-insert, find-assign, length-insert, length-assign,
}
use riscv_isa_simulator.Mmu.{read_loop, store, write_loop}

-- How far `a` lies above `addr`, around the end of the address space.
abbrev pub offset : ℕ → ℕ → ℕ
offset addr a = (a + 2 ^ 64 - addr) % 2 ^ 64

-- The `n` bytes from `addr` are mapped, and are those of the number `v`, lowest first.
abbrev pub Stores : Map → ℕ → ℕ → ℕ → Type 0
Stores mem addr zero v = Unit
Stores mem addr (suc n) v =
    (find mem addr ≡ some (v % 2 ^ 8)) × Stores mem (add64 addr 1) n (v / 2 ^ 8)

-- While up to `n` entries are added to `mem`, the key that the end node shows is not one of the `n`
-- addresses from `addr`. (That of the GNU library is the number of entries.)
abbrev pub EndApart : (Map → ℕ) → Map → ℕ → ℕ → Type 0
EndApart end_key mem addr n =
    (mem' : Map)
    → length mem ≤ length mem'
    → length mem' ≤ length mem + n
    → n ≤ offset addr (end_key mem')

pow_byte : (n : ℕ) → 2 ^ (8 * suc n) ≡ 2 ^ 8 * 2 ^ (8 * n)
pow_byte n =
    let e : 8 * suc n ≡ 8 * n + 8 = omega arith in
    rw e (simp towards_suc (omega (arith, pow-suc 2 (8 * n), pow-suc 2 (8 * n + 1))))

pow_shift : (s : ℕ) → 2 ^ (s + 8) ≡ 2 ^ 8 * 2 ^ s
pow_shift s = simp towards_suc (omega arith)

-- The lowest byte of a remainder, and the rest of it.
mod_split : (m v : ℕ) → 0 < m → v % (2 ^ 8 * m) ≡ v % 2 ^ 8 + v / 2 ^ 8 % m * 2 ^ 8
mod_split m v pos =
    let c = v % 2 ^ 8 + v / 2 ^ 8 % m * 2 ^ 8 in
    let whole : 2 ^ 8 * m * (v / 2 ^ 8 / m) + c ≡ v = omega (arith, div-add-mod (v / 2 ^ 8) m) in
    let below : c < 2 ^ 8 * m = omega (arith, mod-lt (v / 2 ^ 8) pos) in
    sym (ap (λ (t : ℕ). t % (2 ^ 8 * m)) whole)
    ∙ mul-add-mod_self_left (2 ^ 8 * m) _ c
    ∙ mod-eq_of_lt below

-- The next byte, shifted, stands above what was read before.
or_byte :
    (retval shift b : ℕ)
    → retval < 2 ^ shift
    → b < 2 ^ 8
    → shift + 8 ≤ 64
    → bit_or retval (shl64 b shift) ≡ retval + b * 2 ^ shift
or_byte retval shift b small byte fits =
    let room : 2 ^ (shift + 8) ≤ 2 ^ 64 = pow-le-pow_right (omega arith) fits in
    let wide : b * 2 ^ shift ≤ (2 ^ 8 - 1) * 2 ^ shift =
      mul-le-mul_right (2 ^ shift) (omega arith) in
    let shl : shl64 b shift ≡ b * 2 ^ shift =
      mod-eq_of_lt (omega (arith, pow_shift shift, one-le-pow shift 2)) in
    rw (shl, bit_or_comm) (omega (arith, bit_or_sum shift b retval small))

module _ (end_key : Map → ℕ) where
  pub read_loop-Stores :
      (mem : Map) (n addr v retval shift : ℕ)
      → Stores mem addr n v
      → retval < 2 ^ shift
      → shift + 8 * n ≤ 64
      → read_loop end_key mem n addr retval shift ≡ ok (retval + v % 2 ^ (8 * n) * 2 ^ shift)
  unfolding read_loop
  read_loop-Stores mem zero addr v retval shift s small fits = rw mod-one (ap ok (omega arith))
  read_loop-Stores mem (suc n) addr v retval shift s small fits =
      let b = v % 2 ^ 8 in
      let e = or_byte retval shift b small (omega arith) (omega arith) in
      let wide : b * 2 ^ shift ≤ (2 ^ 8 - 1) * 2 ^ shift =
        mul-le-mul_right (2 ^ shift) (omega arith) in
      rw (s.0, read_loop)
        (rw e (
          read_loop-Stores mem n (add64 addr 1) (v / 2 ^ 8) (retval + b * 2 ^ shift) (shift + 8) s.1
            (omega (arith, pow_shift shift)) (omega arith)
          ∙ ap ok (
              rw
                (
                  pow_byte n,
                  mod_split (2 ^ (8 * n)) v (one-le-pow (8 * n) 2 (omega arith)),
                  pow_shift shift,
                )
                (omega arith))))

  store_lem :
      (mem : Map) (addr byte : ℕ)
      → addr < 2 ^ 64
      → EndApart end_key mem addr 1
      → Returns (store end_key mem addr byte) λ mem'.
        (length mem ≤ length mem')
        × (length mem' ≤ length mem + 1)
        × ((a : ℕ) → find mem' a ≡ (if addr == a then some byte else find mem a))
  unfolding store
  store_lem mem addr byte h apart = elim (Option-cases (find mem addr)) [
    | inl absent ↦ (
      insert mem addr byte,
      rw (absent, store) (ground (arith, apart mem (omega arith) (omega arith))),
      (
        omega (arith, length-insert mem addr byte absent),
        omega (arith, length-insert mem addr byte absent),
        λ a. find-insert mem addr byte a absent,
      ),
    )
    | inr (old, e) ↦ (
      assign mem addr byte,
      rw (e, store),
      (
        omega (arith, length-assign mem addr byte),
        omega (arith, length-assign mem addr byte),
        λ a. find-assign mem addr byte a old e,
      ),
    )
  ]

  -- The bytes of `val` stand in the range, and no other address changes.
  abbrev pub Written : Map → ℕ → ℕ → ℕ → Map → Type 0
  Written mem addr n val mem' =
      Stores mem' addr n val × ((a : ℕ) → a < 2 ^ 64 → n ≤ offset addr a → find mem' a ≡ find mem a)

  EndApart-suc :
      (mem mem₁ : Map) (addr n : ℕ)
      → addr < 2 ^ 64
      → length mem ≤ length mem₁
      → length mem₁ ≤ length mem + 1
      → EndApart end_key mem addr (suc n)
      → EndApart end_key mem₁ (add64 addr 1) n
  EndApart-suc mem mem₁ addr n h more most apart =
      λ m p q. omega (arith, apart m (omega arith) (omega arith))

  EndApart-one :
      (mem : Map) (addr n : ℕ) → EndApart end_key mem addr (suc n) → EndApart end_key mem addr 1
  EndApart-one mem addr n apart = λ m p q. omega (arith, apart m p (omega arith))

  Written-suc :
      (mem mem₁ mem' : Map) (addr n val : ℕ)
      → addr < 2 ^ 64
      → n < 2 ^ 64 - 1
      → ((a : ℕ) → find mem₁ a ≡ (if addr == a then some (bit_and val 0xFF) else find mem a))
      → Written mem₁ (add64 addr 1) n (val / 2 ^ 8) mem'
      → Written mem addr (suc n) val mem'
  Written-suc mem mem₁ mem' addr n val h small found₁ (stored, kept) = (
    (
      kept addr h (omega arith) ∙ found₁ addr ∙ rw (==_refl addr) (ap some (bit_and_mask 8 val)),
      stored,
    ),
    λ a fits outside. ground (arith, kept a, found₁ a),
  )

  pub write_loop-Written :
      (n addr val : ℕ) (mem : Map)
      → addr < 2 ^ 64
      → n < 2 ^ 64
      → EndApart end_key mem addr n
      → Returns (write_loop end_key n addr val mem) (Written mem addr n val)
  unfolding write_loop
  write_loop-Written zero addr val mem h small apart = (mem, refl, (tt, λ a _ _. refl))
  write_loop-Written (suc n) addr val mem h small apart =
      let (mem₁, run₁, (more, most, found₁)) =
        store_lem mem addr (bit_and val 0xFF) h (EndApart-one mem addr n apart) in
      let rest = EndApart-suc mem mem₁ addr n h more most apart in
      let (mem', run, written) =
        write_loop-Written n (add64 addr 1) (val / 2 ^ 8) mem₁ (omega arith) (omega arith) rest in
      (mem', rw run₁ run, Written-suc mem mem₁ mem' addr n val h (omega arith) found₁ written)
