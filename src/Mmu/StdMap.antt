-- ===== src/Mmu/StdMap.antt =====
-- What mmu.cpp uses of `std::map` with unsigned keys, over an association list.
use riscv_isa_simulator.Base.{
  suc, length, ℕ, ◌≡◌, refl, arith, List, [], ◌∷◌, Option, none, some, or_else, ◌==◌, if◌then◌else◌,
}

abbrev pub Map : Type 0
Map = List (ℕ × ℕ)

-- `find`, which is `end()` for `none`.
unfoldable pub find : Map → ℕ → Option ℕ
find [] k = none
find ((j, v) ∷ m) k = if j == k then some v else find m k

-- `insert`, which leaves a key that is there alone.
unfoldable pub insert : Map → ℕ → ℕ → Map
insert [] k v = (k, v) ∷ []
insert ((j, w) ∷ m) k v = if j == k then (j, w) ∷ m else (j, w) ∷ insert m k v

-- `iter->second = v` at the entry of `k`.
unfoldable pub assign : Map → ℕ → ℕ → Map
assign [] k v = []
assign ((j, w) ∷ m) k v = if j == k then (j, v) ∷ m else (j, w) ∷ assign m k v

pub find-insert :
    (m : Map) (k v j : ℕ)
    → find m k ≡ none
    → find (insert m k v) j ≡ (if k == j then some v else find m j)
unfolding find insert
find-insert [] k v j h = refl
find-insert ((i, w) ∷ m) k v j h = ground (arith, find-insert m k v j)

pub find-assign :
    (m : Map) (k v j w : ℕ)
    → find m k ≡ some w
    → find (assign m k v) j ≡ (if k == j then some v else find m j)
unfolding find assign
find-assign [] k v j w h = cc
find-assign ((i, u) ∷ m) k v j w h = ground (arith, find-assign m k v j w)

pub length-insert : (m : Map) (k v : ℕ) → find m k ≡ none → length (insert m k v) ≡ suc (length m)
unfolding find insert
length-insert [] k v h = refl
length-insert ((j, w) ∷ m) k v h = ground (arith, length-insert m k v)

pub length-assign : (m : Map) (k v : ℕ) → length (assign m k v) ≡ length m
unfolding assign
length-assign [] k v = refl
length-assign ((j, w) ∷ m) k v = ground (arith, length-assign m k v)

-- `insert` in one equation, for a key that is there and one that is not.
pub find-insert_or :
    (m : Map) (k v j : ℕ)
    → find (insert m k v) j ≡ or_else (find m j) (if k == j then some v else none)
unfolding find insert
find-insert_or [] k v j = refl
find-insert_or ((i, w) ∷ m) k v j = ground (arith, find-insert_or m k v j)
