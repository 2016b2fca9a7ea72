-- ===== src/Decode/Declared.antt =====
-- What `decode_insn` makes of each instruction that encoding.h declares, registered or not.
use Prim.Native.String.{String}
use text.Mathlib.Text.{◌==◌ as str_eq}
use text.Mathlib.TextEquality.{eq_iff}
use riscv_isa_simulator.Base.{
  ◌≡◌, refl, sym, ap, ◌∙◌, arith, ◌⊎◌, inl, inr, Bool, true, false, ◌||◌, ◌&&◌, if◌then◌else◌, List,
  [], ◌∷◌, ◌==◌, Bool-cases, bit_and, Returns,
}
use riscv_isa_simulator.Structs.{Insn}
use riscv_isa_simulator.Cpu.Host.{Host}
use riscv_isa_simulator.Encoding.{Encoding}
use riscv_isa_simulator.Encoding.Declared.{declared}
use riscv_isa_simulator.Decode.{
  InsnDesc, Matches, decode_insn, defined, instructions, illegal, illegal_instruction,
  register_insn,
}
use riscv_isa_simulator.Decode.Unique.{
  In, apart, apart_all, apart_all-none, decode_insn-Matches, decode_insn-illegal,
}

-- The entry is one of the list.
abbrev pub Among : String × Encoding → List (String × Encoding) → Type 0
Among x [] = ⊥
Among x (y ∷ ys) = (x ≡ y) ⊎ Among x ys

module _ {W : Type 0} where
  -- An entry of the list as one of the table.
  abbrev as_desc : String × Encoding → InsnDesc W
  as_desc x = register_insn x.0 x.1 illegal_instruction

  -- The table has an entry with the name.
  abbrev pub is_registered : List (InsnDesc W) → String → Bool
  is_registered [] name = false
  is_registered (d ∷ rest) name = str_eq d.name name || is_registered rest name

  -- The table has an entry with the name and the encoding.
  found : List (InsnDesc W) → String × Encoding → Bool
  found [] x = false
  found (d ∷ rest) x =
      (str_eq d.name x.0 && ((d.match == x.1.match) && (d.mask == x.1.mask))) || found rest x

  found-In :
      (ds : List (InsnDesc W)) (x : String × Encoding) (insn : Insn)
      → found ds x ≡ true
      → bit_and insn x.1.mask ≡ x.1.match
      → (d : InsnDesc W) × In d ds × (d.name ≡ x.0) × Matches d insn
  unfolding found
  found-In [] x insn h m = cc
  found-In (d ∷ ds) x insn h m =
      elim (Bool-cases (str_eq d.name x.0 && ((d.match == x.1.match) && (d.mask == x.1.mask)))) [
        | inl hit ↦
            let mask : d.mask ≡ x.1.mask = ground arith in
            let match : d.match ≡ x.1.match = ground arith in
            (
              d,
              inl refl,
              (eq_iff d.name x.0).0 (ground arith),
              ap (bit_and insn) mask ∙ m ∙ sym match,
            )
        | inr miss ↦
            let (e, i, name, matches) = found-In ds x insn (ground arith) m in
            (e, inr i, name, matches)
      ]

  -- An entry is in the table, or no word of it is one of the table's.
  settled : List (InsnDesc W) → String × Encoding → Bool
  settled ds x = if is_registered ds x.0 then found ds x else apart_all (as_desc x) ds

  all_settled : List (InsnDesc W) → List (String × Encoding) → Bool
  all_settled ds [] = true
  all_settled ds (x ∷ xs) = settled ds x && all_settled ds xs

  all_settled-Among :
      (ds : List (InsnDesc W)) (xs : List (String × Encoding)) (x : String × Encoding)
      → all_settled ds xs ≡ true
      → Among x xs
      → settled ds x ≡ true
  unfolding all_settled
  all_settled-Among ds [] x h i = absurd i
  all_settled-Among ds (y ∷ ys) x h (inl same) = ap (settled ds) same ∙ ground arith
  all_settled-Among ds (y ∷ ys) x h (inr i) = all_settled-Among ds ys x (ground arith) i

module _ {W : Type 0} (host : Host W) where
  declared_settled : all_settled (defined host) declared ≡ true
  unfolding all_settled settled found apart_all apart defined declared
  declared_settled = refl

  -- A word of an instruction that encoding.h declares is decoded under that name when insn_list.h registers
  -- the name, and as `illegal` when it does not.
  pub decode_insn-declared :
      (x : String × Encoding) (insn : Insn)
      → Among x declared
      → bit_and insn x.1.mask ≡ x.1.match
      → Returns
          (decode_insn (instructions host) insn)
          λ d. d.name ≡ (if is_registered (defined host) x.0 then x.0 else "illegal")
  unfolding settled
  decode_insn-declared x insn i m =
      let all = all_settled-Among (defined host) declared x declared_settled i in
      elim (Bool-cases (is_registered (defined host) x.0)) [
        | inl named ↦
            let (d, i', name, matches) = found-In (defined host) x insn (ground arith) m in
            (d, decode_insn-Matches host d insn i' matches, name ∙ rw named refl)
        | inr absent ↦ (
          illegal,
          decode_insn-illegal host insn
              (apart_all-none (as_desc x) (defined host) insn (ground arith) m),
          rw absent refl,
        )
      ]
