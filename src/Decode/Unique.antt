-- ===== src/Decode/Unique.antt =====
-- The table of instructions is unambiguous: no two entries match the same word, so the order of
-- insn_list.h does not matter to `decode_insn`.
use mathlib.Core.Path.{subst}
use riscv_isa_simulator.Base.{
  ℕ, ◌≡◌, refl, sym, ap, ◌∙◌, arith, ◌⊎◌, inl, inr, Bool, true, false, not, ◌&&◌, List, [], ◌∷◌,
  ◌++◌, bit_and, ◌==◌, ==_iff, Bool-cases, All, ok, Returns,
}
use riscv_isa_simulator.Base.Bits.{bit_and_assoc, bit_and_comm, bit_and-zero}
use riscv_isa_simulator.Structs.{Insn}
use riscv_isa_simulator.Cpu.Host.{Host}
use riscv_isa_simulator.Decode.{InsnDesc, Matches, decode_insn, defined, instructions, illegal}

module _ {W : Type 0} where
  -- The entry is one of the list.
  abbrev pub In : InsnDesc W → List (InsnDesc W) → Type 0
  In d [] = ⊥
  In d (x ∷ xs) = (d ≡ x) ⊎ In d xs

  -- No word has the bits that both entries ask for.
  unfoldable pub apart : InsnDesc W → InsnDesc W → Bool
  apart d e = not (bit_and d.match e.mask == bit_and e.match d.mask)

  unfoldable pub apart_all : InsnDesc W → List (InsnDesc W) → Bool
  apart_all d [] = true
  apart_all d (e ∷ rest) = apart d e && apart_all d rest

  pairwise_apart : List (InsnDesc W) → Bool
  pairwise_apart [] = true
  pairwise_apart (d ∷ rest) = apart_all d rest && pairwise_apart rest

  both_match :
      (d e : InsnDesc W) (insn : Insn)
      → Matches d insn
      → Matches e insn
      → bit_and d.match e.mask ≡ bit_and e.match d.mask
  both_match d e insn p q =
      ap (λ (t : ℕ). bit_and t e.mask) (sym p)
      ∙ bit_and_assoc insn d.mask e.mask
      ∙ ap (bit_and insn) (bit_and_comm d.mask e.mask)
      ∙ sym (bit_and_assoc insn e.mask d.mask)
      ∙ ap (λ (t : ℕ). bit_and t d.mask) q

  apart_all-In :
      (d : InsnDesc W) (xs : List (InsnDesc W)) (e : InsnDesc W) (insn : Insn)
      → apart_all d xs ≡ true
      → In e xs
      → Matches e insn
      → bit_and insn d.mask == d.match ≡ false
  unfolding apart_all apart
  apart_all-In d [] e insn h i m = absurd i
  apart_all-In d (x ∷ xs) e insn h (inl same) m = ground (arith, both_match d x insn)
  apart_all-In d (x ∷ xs) e insn h (inr i) m = apart_all-In d xs e insn (ground arith) i m

  pub apart_all-none :
      (d : InsnDesc W) (xs : List (InsnDesc W)) (insn : Insn)
      → apart_all d xs ≡ true
      → Matches d insn
      → All (λ e. ¬ Matches e insn) xs
  unfolding apart_all apart
  apart_all-none d [] insn h m = tt
  apart_all-none d (x ∷ xs) insn h m =
      (λ n. ground (arith, both_match d x insn m n), apart_all-none d xs insn (ground arith) m)

  decode_insn-In :
      (xs rest : List (InsnDesc W)) (d : InsnDesc W) (insn : Insn)
      → pairwise_apart xs ≡ true
      → In d xs
      → Matches d insn
      → decode_insn (xs ++ rest) insn ≡ ok d
  unfolding pairwise_apart decode_insn
  decode_insn-In [] rest d insn h i m = absurd i
  decode_insn-In (x ∷ xs) rest d insn h (inl same) m =
      let mx = subst (λ t. Matches t insn) same m in rw ((==_iff _ _).1 mx) (ap ok (sym same))
  decode_insn-In (x ∷ xs) rest d insn h (inr i) m =
      rw (apart_all-In x xs d insn (ground arith) i m)
        (decode_insn-In xs rest d insn (ground arith) i m)

  decode_insn-Returns :
      (xs : List (InsnDesc W)) (last : InsnDesc W) (insn : Insn)
      → Matches last insn
      → Returns (decode_insn (xs ++ last ∷ []) insn) (λ d. Matches d insn × In d (xs ++ last ∷ []))
  unfolding decode_insn
  decode_insn-Returns [] last insn h = (last, rw ((==_iff _ _).1 h), (h, inl refl))
  decode_insn-Returns (x ∷ xs) last insn h = elim (Bool-cases (bit_and insn x.mask == x.match)) [
    | inl hit ↦ (x, rw hit, ((==_iff _ _).0 hit, inl refl))
    | inr miss ↦
        let (d, run, (m, i)) = decode_insn-Returns xs last insn h in (d, rw miss run, (m, inr i))
  ]

  decode_insn-none :
      (xs : List (InsnDesc W)) (last : InsnDesc W) (insn : Insn)
      → All (λ d. ¬ Matches d insn) xs
      → Matches last insn
      → decode_insn (xs ++ last ∷ []) insn ≡ ok last
  unfolding decode_insn
  decode_insn-none [] last insn h m = rw ((==_iff _ _).1 m)
  decode_insn-none (x ∷ xs) last insn h m = ground (arith, h.0, decode_insn-none xs last insn h.1 m)

module _ {W : Type 0} (host : Host W) where
  defined_apart : pairwise_apart (defined host) ≡ true
  unfolding pairwise_apart apart_all apart defined
  defined_apart = refl

  -- `decode_insn` returns, for every word, an entry of the table that matches it.
  pub decode_insn_total :
      (insn : Insn)
      → Returns
          (decode_insn (instructions host) insn)
          λ d. Matches d insn × In d (instructions host)
  unfolding instructions
  decode_insn_total insn = decode_insn-Returns (defined host) _ insn (bit_and-zero insn)

  -- Whichever of the defined instructions matches a word, `decode_insn` returns that one.
  pub decode_insn-Matches :
      (d : InsnDesc W) (insn : Insn)
      → In d (defined host)
      → Matches d insn
      → decode_insn (instructions host) insn ≡ ok d
  unfolding instructions
  decode_insn-Matches d insn i m = decode_insn-In (defined host) _ d insn (defined_apart) i m

  -- A word that none of the defined instructions matches is decoded as `illegal`.
  pub decode_insn-illegal :
      (insn : Insn)
      → All (λ d. ¬ Matches d insn) (defined host)
      → decode_insn (instructions host) insn ≡ ok illegal
  unfolding instructions
  decode_insn-illegal insn h = decode_insn-none (defined host) _ insn h (bit_and-zero insn)
