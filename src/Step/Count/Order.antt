-- ===== src/Step/Count/Order.antt =====
-- `cmp` is a strict total order on the entries, as the standard library's `sort` asks for.
use text.Mathlib.TextEquality.{Char-path}
use Prim.Native.String.{String, [], ◌∷◌}
use Prim.Native.Char.{code}
use riscv_isa_simulator.Base.{ℕ, ◌≡◌, refl, arith, true, false}
use riscv_isa_simulator.Step.Count.{greater, cmp}

greater_irreflexive : (s : String) → greater s s ≡ false
unfolding greater
greater_irreflexive [] = refl
greater_irreflexive (c ∷ s) = ground (arith, greater_irreflexive s)

greater_total : (s t : String) → greater s t ≡ false → greater t s ≡ false → s ≡ t
unfolding greater
greater_total [] [] h k = refl
greater_total [] (d ∷ t) h k = cc
greater_total (c ∷ s) [] h k = cc
greater_total (c ∷ s) (d ∷ t) h k =
    let same : code c ≡ code d = ground arith in
    let rest : s ≡ t = greater_total s t (ground arith) (ground arith) in
    λ i. Char-path c d same i ∷ rest i

greater_trans : (s t u : String) → greater s t ≡ true → greater t u ≡ true → greater s u ≡ true
unfolding greater
greater_trans [] t u h k = cc
greater_trans (c ∷ s) [] u h k = cc
greater_trans (c ∷ s) (d ∷ t) [] h k = refl
greater_trans (c ∷ s) (d ∷ t) (e ∷ u) h k = ground (arith, greater_trans s t u)

pub cmp_irreflexive : (a : String × ℕ) → cmp a a ≡ false
unfolding cmp
cmp_irreflexive a = ground (arith, greater_irreflexive a.0)

pub cmp_trans : (a b c : String × ℕ) → cmp a b ≡ true → cmp b c ≡ true → cmp a c ≡ true
unfolding cmp
cmp_trans a b c h k = ground (arith, greater_trans a.0 b.0 c.0)

-- Entries of which neither stands before the other are equal.
pub cmp_total : (a b : String × ℕ) → cmp a b ≡ false → cmp b a ≡ false → a ≡ b
unfolding cmp
cmp_total a b h k =
    let number : a.1 ≡ b.1 = ground arith in
    let name : a.0 ≡ b.0 = greater_total a.0 b.0 (ground arith) (ground arith) in
    λ i. (name i, number i)
