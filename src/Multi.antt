-- ===== src/Multi.antt =====
-- multi.h: the high half of a 64-bit product. `mulh` and `mulhsu` take and return the patterns of
-- their signed arguments; `-a` and `a * b` on int64_t, which C++ leaves undefined on overflow, wrap
-- here.
pub mod High
use riscv_isa_simulator.Base.{
  negative, magnitude, differ, ℕ, ◌+◌, ◌*◌, ◌-◌, ◌^◌, Bool, true, false, not, bit_or, ltb, ◌==◌,
  if◌then◌else◌, to_nat, u64, zext32, add64, mul64, not64, neg64, shl64, shr,
}

-- uint64_t mulhu(uint64_t a, uint64_t b); y1, y2 and y3 are uint32_t
unfoldable pub mulhu : ℕ → ℕ → ℕ
mulhu a b =
    let a0 = zext32 a in
    let a1 = shr a 32 in
    let b0 = zext32 b in
    let b1 = shr b 32 in
    let t = add64 (mul64 a1 b0) (shr (mul64 a0 b0) 32) in
    let y1 = zext32 t in
    let y2 = zext32 (shr t 32) in
    let t' = add64 (mul64 a0 b1) y1 in
    let t'' = add64 (add64 (mul64 a1 b1) y2) (shr t' 32) in
    let y2' = zext32 t'' in let y3 = zext32 (shr t'' 32) in bit_or (shl64 y3 32) y2'

-- `negate ? ~res + (a * b == 0) : res`
unfoldable pub negated : Bool → ℕ → ℕ → ℕ → ℕ
negated negate res a b = if negate then add64 (not64 res) (to_nat (mul64 a b == 0)) else res

-- int64_t mulh(int64_t a, int64_t b)
unfoldable pub mulh : ℕ → ℕ → ℕ
unfolding negated
mulh a b =
    let negate = differ (negative a) (negative b) in
    let res = mulhu (magnitude a) (magnitude b) in negated negate res a b

-- int64_t mulhsu(int64_t a, uint64_t b)
unfoldable pub mulhsu : ℕ → ℕ → ℕ
unfolding negated
mulhsu a b = let negate = negative a in let res = mulhu (magnitude a) b in negated negate res a b
