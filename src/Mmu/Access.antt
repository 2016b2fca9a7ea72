-- ===== src/Mmu/Access.antt =====
-- `write` followed by `read`, at every width that an instruction uses. `EndApart` says of the C++
-- library that the key read from the end node is no address of the access while it runs.
mod Loops
pub use Loops.*
use native.Mathlib.Nat.{div-eq_of_lt, div-eq_of_lt-le, pow-suc, one-le-pow, mod-lt}
use riscv_isa_simulator.Base.{
  ℕ, suc, ◌==◌, ◌+◌, ◌-◌, ◌*◌, ◌/◌, ◌%◌, ◌^◌, ◌≤◌, ◌<◌, ◌≡◌, refl, ap, ◌∙◌, arith, Bool, true,
  false, bit_and, bit_or, ltb, Bool-cases, inl, inr, ltb→lt, ltb-false→le, if◌then◌else◌, add64,
  sub64, Result, ok, ◌>>=◌, Returns,
}
use riscv_isa_simulator.Base.Bits.{bit_and_bit, bit_or_above, bit_and-zero}
use riscv_isa_simulator.Mmu.{Mmu, ban, extend, read_loop, read, write}
use riscv_isa_simulator.Mmu.StdMap.{Map, find}

-- The widths of the load and store instructions.
pub data Width : Type 0 where
  byte half word double : Width

abbrev pub bytes : Width → ℕ
bytes byte = 1
bytes half = 2
bytes word = 4
bytes double = 8

-- The number of `8 * len` bits that the pattern `v` stands for, as a 64-bit pattern.
abbrev pub sign_extend : ℕ → ℕ → ℕ
sign_extend len v = if ltb v (2 ^ (8 * len - 1)) then v else v + (2 ^ 64 - 2 ^ (8 * len))

abbrev pub extended : Bool → ℕ → ℕ → ℕ
extended sign len v = if sign then sign_extend len v else v

-- The switch on `len`, with the sign bit at the top of a number of `k + 1` bits.
sign_case :
    (k q v : ℕ)
    → v < 2 ^ suc k
    → (if bit_and v (2 ^ k) == 0 then v else bit_or v (q * 2 ^ suc k))
      ≡ (if ltb v (2 ^ k) then v else v + q * 2 ^ suc k)
sign_case k q v h =
    rw (bit_and_bit k v, bit_or_above (suc k) q v h)
      (elim (Bool-cases (ltb v (2 ^ k))) [
        | inl low ↦ rw (low, div-eq_of_lt {n = v} {m = 2 ^ k} (ltb→lt _ _ low)) (ground arith)
        | inr high ↦
            let one : v / 2 ^ k ≡ 1 =
              div-eq_of_lt-le (2 ^ k) (omega (arith, ltb-false→le v (2 ^ k) high))
                (omega (arith, pow-suc 2 k)) in
            rw (high, one) (ground (arith, one-le-pow k 2))
      ])

extend_lem :
    (w : Width) (v : ℕ) → v < 2 ^ (8 * bytes w) → extend (bytes w) v ≡ sign_extend (bytes w) v
unfolding extend
extend_lem byte v h = sign_case 7 (2 ^ 56 - 1) v h
extend_lem half v h = sign_case 15 (2 ^ 48 - 1) v h
extend_lem word v h = sign_case 31 (2 ^ 32 - 1) v h
extend_lem double v h = rw bit_and-zero (ground arith)

bytes-lt : (w : Width) → bytes w < 2 ^ 64
bytes-lt byte = omega arith
bytes-lt half = omega arith
bytes-lt word = omega arith
bytes-lt double = omega arith

bytes-le : (w : Width) → 8 * bytes w ≤ 64
bytes-le byte = omega arith
bytes-le half = omega arith
bytes-le word = omega arith
bytes-le double = omega arith

pub read_stored :
    (end_key : Map → ℕ) (m : Mmu) (addr v : ℕ) (w : Width) (sign : Bool)
    → Stores m.mem addr (bytes w) v
    → read end_key m addr sign (bytes w) ≡ ok (extended sign (bytes w) (v % 2 ^ (8 * bytes w)))
unfolding read
read_stored end_key m addr v w sign s =
    let low = v % 2 ^ (8 * bytes w) in
    let small : low < 2 ^ (8 * bytes w) = mod-lt v (one-le-pow (8 * bytes w) 2 (omega arith)) in
    let run : read_loop end_key m.mem (bytes w) addr 0 0 ≡ ok low =
      read_loop-Stores end_key m.mem (bytes w) addr v 0 0 s (omega arith)
        (omega (arith, bytes-le w))
      ∙ ap ok (omega arith) in
    rw run (ap ok (ap (λ (t : ℕ). if sign then t else low) (extend_lem w low small)))

module _ (end_key : Map → ℕ) (m : Mmu) (addr reg : ℕ) (w : Width) where
  -- A `write` that is not forbidden puts the register's bytes into the memory.
  pub write-Stores :
      addr < 2 ^ 64
      → ban m.forbid addr ≡ false
      → ban m.forbid (sub64 (add64 addr (bytes w)) 1) ≡ false
      → EndApart end_key m.mem addr (bytes w)
      → Returns (write end_key m addr reg (bytes w)) λ m'.
        Stores m'.mem addr (bytes w) reg
        × ((a : ℕ) → a < 2 ^ 64 → bytes w ≤ offset addr a → find m'.mem a ≡ find m.mem a)
        × (m'.forbid ≡ m.forbid)
        × (m'.entry ≡ m.entry)
  unfolding write
  write-Stores h free free_last apart =
      let (mem', run, (stored, kept)) =
        write_loop-Written end_key (bytes w) addr reg m.mem h (bytes-lt w) apart in
      (record m { mem = mem' }, rw (free, free_last, run) refl, (stored, kept, refl, refl))

  -- A `write` of a width whose first and last byte are not forbidden succeeds; a `read` of the same
  -- width and either extension then gives the register's low bytes, extended; an address outside
  -- the access holds what it held; the forbidden blocks and the entry point stay. Both addresses
  -- are below 2 ^ 64, and the end iterator's key, while bytes are added to the memory, is no address
  -- of the access.
  pub write_read :
      (sign : Bool) (a : ℕ)
      → addr < 2 ^ 64
      → a < 2 ^ 64
      → bytes w ≤ offset addr a
      → ban m.forbid addr ≡ false
      → ban m.forbid (sub64 (add64 addr (bytes w)) 1) ≡ false
      → EndApart end_key m.mem addr (bytes w)
      → Returns (write end_key m addr reg (bytes w)) λ m'.
        (read end_key m' addr sign (bytes w)
          ≡ ok (extended sign (bytes w) (reg % 2 ^ (8 * bytes w))))
        × (find m'.mem a ≡ find m.mem a)
        × (m'.forbid ≡ m.forbid)
        × (m'.entry ≡ m.entry)
  write_read sign a h fits outside free free_last apart =
      let (m', run, (stored, kept, forbid, entry)) = write-Stores h free free_last apart in
      (m', run, (read_stored end_key m' addr reg w sign stored, kept a fits outside, forbid, entry))
