-- ===== src/Structs/Regfile.antt =====
-- structs.h: `regfile_t<T, N, zero_reg>` as the list of its `N` entries; the constructor gives
-- them no value, so a fresh register file is any list of that length. An index of an instruction
-- has five bits, and both register files have 32 entries, so no access is out of range.
use riscv_isa_simulator.Base.{
  ℕ, ◌<◌, ◌≡◌, refl, Bool, true, arith, List, ◌==◌, if◌then◌else◌, not, ◌||◌, ◌&&◌, [], ◌∷◌, zero,
  suc, length, get_or, set, length-set, get_or-set,
}

abbrev pub Regfile : Type 0
Regfile = List ℕ

-- void write(size_t i, T value), for zero_reg
unfoldable pub write : Bool → Regfile → ℕ → ℕ → Regfile
write zero_reg data' i value = if not zero_reg || not (i == 0) then set data' i value else data'

-- operator [] (size_t i)
unfoldable pub read : Regfile → ℕ → ℕ
read data' i = get_or data' i 0

-- A read after a write at an index in range: the written value at that index, but register 0 of a
-- file with `zero_reg` keeps what it held, and every other register is unchanged.
pub read-write :
    (zero_reg : Bool) (r : Regfile) (i j value : ℕ)
    → i < length r
    → read (write zero_reg r i value) j
      ≡ (if j == i && not (zero_reg && i == 0) then value else read r j)
unfolding read write
read-write true r i j value h = ground (arith, get_or-set r i j value 0 h)
read-write _ r i j value h = ground (arith, get_or-set r i j value 0 h)

pub length-write :
    (zero_reg : Bool) (r : Regfile) (i value : ℕ) → length (write zero_reg r i value) ≡ length r
unfolding write
length-write zero_reg r i value = ground (arith, length-set r i value)

pub read-write_zero : (r : Regfile) (i value : ℕ) → read (write true r i value) 0 ≡ read r 0
unfolding read write
read-write_zero r zero value = refl
read-write_zero [] (suc i) value = ground arith
read-write_zero (x ∷ r) (suc i) value = ground arith

pub if_either {ℓ κ} :
    {A : Type ℓ} (P : A → Type κ) (b : Bool) {s t : A} → P s → P t → P (if b then s else t)
if_either P true p q = p
if_either P _ p q = q
