-- ===== src/Elf/Sections.antt =====
-- The section names, and the sections that `read_elf` loads.
use riscv_isa_simulator.Base.{
  ℕ, zero, suc, ◌+◌, ◌<◌, ◌≡◌, refl, arith, false, List, [], ◌∷◌, none, some, length, drop,
  get_elem?, All, ◌==◌, Bool-cases, ◌⊎◌, inl, inr, Returns,
}
use riscv_isa_simulator.Elf.Tables.{Shdr}
use riscv_isa_simulator.Elf.{strcmp_eq, is_named, element, loader_index}

-- A text that ends in the array: the literals that it is compared with have no byte 0.
abbrev pub IsTerminated : List ℕ → Type 0
IsTerminated [] = ⊥
IsTerminated (b ∷ text) = (b ≡ 0) ⊎ IsTerminated text

abbrev pub IsLiteral : List ℕ → Type 0
IsLiteral literal = All (λ c. 0 < c) literal

pub strcmp_eq_total :
    (literal text : List ℕ)
    → IsLiteral literal
    → IsTerminated text
    → Returns (strcmp_eq literal text) (λ b. Unit {0})
unfolding strcmp_eq
strcmp_eq_total [] [] l t = absurd t
strcmp_eq_total [] (b ∷ text) l t = (b == 0, refl, tt)
strcmp_eq_total (c ∷ literal) [] l t = absurd t
strcmp_eq_total (c ∷ literal) (b ∷ text) l t = elim (Bool-cases (c == b)) [
  | inl same ↦ elim t [
    | inl end ↦ absurd (ground arith)
    | inr more ↦ rw same (strcmp_eq_total literal text l.1 more)
  ]
  | inr other ↦ (false, rw other refl, tt)
]

-- The name of a section ends in the table of names.
abbrev pub HasName : List ℕ → Shdr → Type 0
HasName names s = IsTerminated (drop s.sh_name names)

pub is_named_total :
    (literal names : List ℕ) (s : Shdr)
    → IsLiteral literal
    → HasName names s
    → Returns (is_named literal names s) (λ b. Unit {0})
unfolding is_named
is_named_total literal names s l h = strcmp_eq_total literal _ l h

pub loader_index_total :
    (names : List ℕ) (s : Shdr) (j : ℕ) (rest : List (List ℕ))
    → All IsLiteral rest
    → HasName names s
    → Returns
        (loader_index names s j rest)
        λ hit. (hit ≡ none) ⊎ ((i : ℕ) × (hit ≡ some i) × (i < j + length rest))
unfolding loader_index
loader_index_total names s j [] l h = (none, refl, inl refl)
loader_index_total names s j (name ∷ rest) l h =
    let (b, run, _) = is_named_total name names s l.0 h in
    elim (Bool-cases b) [
      | inl hit ↦ (some j, rw run (rw hit refl), inr (j, refl, omega arith))
      | inr miss ↦
          let (r, later, bound) = loader_index_total names s (j + 1) rest l.1 h in
          (
            r,
            rw run (rw miss later),
            elim bound [ inl e ↦ inl e | inr (i, e, lt) ↦ inr (i, e, omega arith) ],
          )
    ]

pub element_total {ℓ} :
    {A : Type ℓ} (xs : List A) (i : ℕ)
    → i < length xs
    → Returns (element xs i) (λ x. get_elem? xs i ≡ some x)
unfolding element
element_total [] i h = absurd (omega arith)
element_total (x ∷ xs) zero h = (x, refl, refl)
element_total (x ∷ xs) (suc i) h = element_total xs i (omega arith)
