-- ===== src/Step/Count/Sort.antt =====
-- What `print_count` prints is determined by the order of `cmp`, whichever way `sort` works.
use Prim.Native.String.{String}
use mathlib.Core.Path.{subst}
use riscv_isa_simulator.Base.{
  ◌⊎◌, ◌==◌, ℕ, suc, ◌≡◌, ◌<◌, refl, sym, ap, ◌∙◌, arith, Bool, true, false, not, ◌&&◌, Bool-cases,
  inl, inr, if◌then◌else◌, List, [], ◌∷◌, All,
}
use riscv_isa_simulator.Structs.Regfile.{if_either}
use riscv_isa_simulator.Cpu.{Cpu}
use riscv_isa_simulator.Step.Count.{greater, cmp, print_count}
use riscv_isa_simulator.Step.Count.Order.{cmp_irreflexive, cmp_trans, cmp_total}

abbrev pub Entry : Type 0
Entry = String × ℕ

-- Neither stands before the other.
abbrev pub same : Entry → Entry → Bool
same a b = not (cmp a b) && not (cmp b a)

same_path : (a b : Entry) → same a b ≡ true → a ≡ b
same_path a b h = cmp_total a b (ground arith) (ground arith)

same_refl : (a : Entry) → same a a ≡ true
same_refl a = ground (arith, cmp_irreflexive a)

-- How often an entry stands in a list.
abbrev pub occurrences : Entry → List Entry → ℕ
occurrences a [] = 0
occurrences a (x ∷ xs) = let rest = occurrences a xs in if same a x then suc rest else rest

-- No entry stands before an earlier one.
abbrev pub Ordered : List Entry → Type 0
Ordered [] = Unit
Ordered (x ∷ xs) = All (λ y. cmp y x ≡ false) xs × Ordered xs

-- What the standard library says of `sort` with this order: the list keeps its entries, and is
-- ordered.
pub record IsSort (sort : (Entry → Entry → Bool) → List Entry → List Entry) : Type 0 where
  pub keeps : (xs : List Entry) (a : Entry) → occurrences a (sort cmp xs) ≡ occurrences a xs
  pub ordered : (xs : List Entry) → Ordered (sort cmp xs)

-- Insertion into a list that is in order, and the sorting by it.
unfoldable pub insert_sorted : (Entry → Entry → Bool) → Entry → List Entry → List Entry
insert_sorted before x [] = x ∷ []
insert_sorted before x (y ∷ ys) =
    let later = insert_sorted before x ys in if before x y then x ∷ y ∷ ys else (y ∷ later)

unfoldable pub insertion_sort : (Entry → Entry → Bool) → List Entry → List Entry
unfolding insert_sorted
insertion_sort before [] = []
insertion_sort before (x ∷ xs) = insert_sorted before x (insertion_sort before xs)

occurs-All :
    (P : Entry → Type 0) (xs : List Entry) (a : Entry) → 0 < occurrences a xs → All P xs → P a
occurs-All P [] a h p = absurd (omega arith)
occurs-All P (x ∷ xs) a h p = elim (Bool-cases (same a x)) [
  | inl hit ↦ subst P (sym (same_path a x hit)) p.0
  | inr miss ↦ occurs-All P xs a (rw miss at h) p.1
]

occurrences-head : (x : Entry) (xs : List Entry) → 0 < occurrences x (x ∷ xs)
occurrences-head x xs = rw (same_refl x) (omega arith)

occurrences-tail :
    (x a : Entry) (xs ys : List Entry)
    → occurrences a (x ∷ xs) ≡ occurrences a (x ∷ ys)
    → occurrences a xs ≡ occurrences a ys
occurrences-tail x a xs ys h = elim (Bool-cases (same a x)) [
  | inl hit ↦ omega (arith, rw hit at h)
  | inr miss ↦ rw miss at h
]

-- An ordered list is determined by its entries.
Ordered-unique :
    (xs ys : List Entry)
    → Ordered xs
    → Ordered ys
    → ((a : Entry) → occurrences a xs ≡ occurrences a ys)
    → xs ≡ ys
Ordered-unique [] [] h k e = refl
Ordered-unique [] (y ∷ ys) h k e = absurd (omega (arith, e y, occurrences-head y ys))
Ordered-unique (x ∷ xs) [] h k e = absurd (omega (arith, e x, occurrences-head x xs))
Ordered-unique (x ∷ xs) (y ∷ ys) h k e =
    let y_after : cmp y x ≡ false =
      occurs-All (λ z. cmp z x ≡ false) (x ∷ xs) y (omega (arith, e y, occurrences-head y ys))
        (cmp_irreflexive x, h.0) in
    let x_after : cmp x y ≡ false =
      occurs-All (λ z. cmp z y ≡ false) (y ∷ ys) x (omega (arith, e x, occurrences-head x xs))
        (cmp_irreflexive y, k.0) in
    let head : x ≡ y = cmp_total x y x_after y_after in
    let tail : xs ≡ ys =
      Ordered-unique xs ys h.1 k.1
        (λ a. occurrences-tail x a xs ys (e a ∙ ap (λ t. occurrences a (t ∷ ys)) (sym head))) in
    λ i. head i ∷ tail i

occurrences-insert :
    (x a : Entry) (xs : List Entry)
    → occurrences a (insert_sorted cmp x xs) ≡ occurrences a (x ∷ xs)
unfolding insert_sorted
occurrences-insert x a [] = refl
occurrences-insert x a (y ∷ ys) = elim (Bool-cases (cmp x y)) [
  | inl before ↦ rw before refl
  | inr after ↦ rw after (ground (arith, occurrences-insert x a ys))
]

occurrences-insertion_sort :
    (xs : List Entry) (a : Entry) → occurrences a (insertion_sort cmp xs) ≡ occurrences a xs
unfolding insertion_sort
occurrences-insertion_sort [] a = refl
occurrences-insertion_sort (x ∷ xs) a =
    occurrences-insert x a (insertion_sort cmp xs)
    ∙ ap (λ (n : ℕ). if same a x then suc n else n) (occurrences-insertion_sort xs a)

All-insert :
    (P : Entry → Type 0) (x : Entry) (ys : List Entry)
    → P x
    → All P ys
    → All P (insert_sorted cmp x ys)
unfolding insert_sorted
All-insert P x [] p h = (p, tt)
All-insert P x (y ∷ ys) p h = if_either (All P) (cmp x y) (p, h) (h.0, All-insert P x ys p h.1)

-- What does not stand before `y` does not stand before an `x` before `y`.
before_first : (x y z : Entry) → cmp x y ≡ true → cmp z y ≡ false → cmp z x ≡ false
before_first x y z h k = elim (Bool-cases (cmp z x)) [
  | inl t ↦ let e = cmp_trans z x y t h in cc
  | inr f ↦ f
]

All-before :
    (x y : Entry) (ys : List Entry)
    → cmp x y ≡ true
    → All (λ z. cmp z y ≡ false) ys
    → All (λ z. cmp z x ≡ false) ys
All-before x y [] h k = tt
All-before x y (z ∷ ys) h k = (before_first x y z h k.0, All-before x y ys h k.1)

insert-Ordered : (x : Entry) (ys : List Entry) → Ordered ys → Ordered (insert_sorted cmp x ys)
unfolding insert_sorted
insert-Ordered x [] h = (tt, tt)
insert-Ordered x (y ∷ ys) h = elim (Bool-cases (cmp x y)) [
  | inl before ↦
      rw before ((before_first x y y before (cmp_irreflexive y), All-before x y ys before h.0), h)
  | inr after ↦ rw after (All-insert (λ z. cmp z y ≡ false) x ys after h.0, insert-Ordered x ys h.1)
]

insertion_sort-Ordered : (xs : List Entry) → Ordered (insertion_sort cmp xs)
unfolding insertion_sort
insertion_sort-Ordered [] = tt
insertion_sort-Ordered (x ∷ xs) =
    insert-Ordered x (insertion_sort cmp xs) (insertion_sort-Ordered xs)

pub insertion_sort-IsSort : IsSort insertion_sort
insertion_sort-IsSort = record {
  keeps = occurrences-insertion_sort;
  ordered = insertion_sort-Ordered;
}

-- The greater number first, and the greater name where the numbers agree.
abbrev pub Descending : List Entry → Type 0
Descending [] = Unit
Descending (x ∷ xs) =
    All (λ y. (y.1 < x.1) ⊎ ((y.1 ≡ x.1) × (greater y.0 x.0 ≡ false))) xs × Descending xs

behind : (x y : Entry) → cmp y x ≡ false → (y.1 < x.1) ⊎ ((y.1 ≡ x.1) × (greater y.0 x.0 ≡ false))
unfolding cmp
behind x y h = elim (Bool-cases (y.1 == x.1)) [
  | inl same_number ↦ inr (ground arith, ground arith)
  | inr other ↦ inl (ground arith)
]

Ordered-Descending : (xs : List Entry) → Ordered xs → Descending xs
Ordered-Descending [] h = tt
Ordered-Descending (x ∷ xs) h = (all_behind xs h.0, Ordered-Descending xs h.1)
  where
    all_behind :
        (ys : List Entry)
        → All (λ y. cmp y x ≡ false) ys
        → All (λ y. (y.1 < x.1) ⊎ ((y.1 ≡ x.1) × (greater y.0 x.0 ≡ false))) ys
    all_behind [] h = tt
    all_behind (y ∷ ys) h = (behind x y h.0, all_behind ys h.1)

-- Whatever `sort` does within its promise, that the list keeps its entries and that none stands before
-- an earlier one by `cmp` afterwards: `print_count` prints what an insertion sort by `cmp` gives, greater
-- numbers first, and greater names first where the numbers agree.
pub print_count_lem :
    {W : Type 0} (sort : (Entry → Entry → Bool) → List Entry → List Entry) (p : Cpu W)
    → IsSort sort
    → (print_count sort p ≡ insertion_sort cmp p.insn_count) × Descending (print_count sort p)
unfolding print_count
print_count_lem sort p h = (
  Ordered-unique (sort cmp p.insn_count) (insertion_sort cmp p.insn_count) (h.ordered p.insn_count)
      (insertion_sort-IsSort.ordered p.insn_count)
      (λ a. h.keeps p.insn_count a ∙ sym (insertion_sort-IsSort.keeps p.insn_count a)),
  Ordered-Descending (sort cmp p.insn_count) (h.ordered p.insn_count),
)
