-- ===== src/Func/Division.antt =====
-- Division with remainder, on every branch of `div`, `rem`, `divu` and `remu`: division by zero
-- and the overflow of the least number by -1 included.
use riscv_isa_simulator.Base.{
  ℕ, ◌+◌, ◌*◌, ◌^◌, ◌≤◌, ◌<◌, ◌≡◌, ◌⊎◌, arith, Bool, inl, inr, Bool-cases, ◌==◌, neg64, negative,
  magnitude,
}

-- -n, as a multiple of 2 ^ 64 less n.
negated : (n : ℕ) → n ≤ 2 ^ 64 → (k : ℕ) × (neg64 n + n ≡ 2 ^ 64 * k)
negated n h = elim (Bool-cases (n == 0)) [
  | inl zero ↦ (0, ground arith)
  | inr some ↦ (1, ground arith)
]

neg64-lt : (n : ℕ) → neg64 n < 2 ^ 64
neg64-lt n = omega arith

-- A magnitude `m`, given a sign, keeps its magnitude and, unless it is 0, has that sign.
IsSignedBy : Bool → ℕ → ℕ → Type 0
IsSignedBy minus d v = (magnitude v < d) × ((v ≡ 0) ⊎ (negative v ≡ minus))
