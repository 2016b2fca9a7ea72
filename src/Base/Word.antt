-- ===== src/Base/Word.antt =====
-- 64-bit words (`reg_t`, `sreg_t` of structs.h) as numbers below 2 ^ 64: an `int64_t` is its
-- bit pattern, each operation wraps by `%`, and `-` adds the modulus first.
use Prim.Native.Nat.{ℕ, ◌+◌, ◌-◌, ◌*◌, ◌/◌, ◌%◌, ◌^◌, ◌<◌}
use mathlib.Core.Path.{◌≡◌}
use mathlib.Core.Bool.{Bool, true, false, not}
use native.Mathlib.Nat.{div-le_self}
use native.Mathlib.Omega.{arith}
use riscv_isa_simulator.Base.Tests.{ltb, if◌then◌else◌}

abbrev pub u64 : ℕ → ℕ
u64 n = n % 2 ^ 64

-- uint64_t a + b, a - b and a * b
abbrev pub add64 : ℕ → ℕ → ℕ
add64 a b = u64 (a + b)

abbrev pub sub64 : ℕ → ℕ → ℕ
sub64 a b = u64 (a + 2 ^ 64 - b)

abbrev pub mul64 : ℕ → ℕ → ℕ
mul64 a b = u64 (a * b)

-- ~a
abbrev pub not64 : ℕ → ℕ
not64 a = 2 ^ 64 - 1 - a

-- -a
abbrev pub neg64 : ℕ → ℕ
neg64 a = u64 (2 ^ 64 - a)

-- uint64_t a << k and a >> k
abbrev pub shl64 : ℕ → ℕ → ℕ
shl64 a k = u64 (a * 2 ^ k)

abbrev pub shr : ℕ → ℕ → ℕ
shr a k = a / 2 ^ k

-- int64_t a >> k: the shift of a negative value fills with ones.
unfoldable pub sar64 : ℕ → ℕ → ℕ
sar64 a k = if ltb a (2 ^ 63) then a / 2 ^ k else not64 (not64 a / 2 ^ k)

-- a < 0 on int64_t, and `a < 0 ? -a : a`
abbrev pub negative : ℕ → Bool
negative a = not (ltb a (2 ^ 63))

abbrev pub magnitude : ℕ → ℕ
magnitude a = if negative a then neg64 a else a

-- `(a < 0) != (b < 0)`
abbrev pub differ : Bool → Bool → Bool
differ true b = not b
differ false b = b

-- int64_t a / b and a % b, which round towards zero; `b` is not 0, and not -1 where `a` is the
-- least number.
unfoldable pub sdiv64 : ℕ → ℕ → ℕ
sdiv64 a b =
    let q = magnitude a / magnitude b in if differ (negative a) (negative b) then neg64 q else q

unfoldable pub srem64 : ℕ → ℕ → ℕ
srem64 a b = let r = magnitude a % magnitude b in if negative a then neg64 r else r

-- `(sreg_t)(int32_t)(x)` and `(reg_t)(uint32_t)(x)`, the macros sext32 and zext32
unfoldable pub sext32 : ℕ → ℕ
sext32 x = if ltb (x % 2 ^ 32) (2 ^ 31) then x % 2 ^ 32 else x % 2 ^ 32 + (2 ^ 64 - 2 ^ 32)

abbrev pub zext32 : ℕ → ℕ
zext32 x = x % 2 ^ 32

-- `const int xlen = 64` of func.h
abbrev pub xlen : ℕ
xlen = 64

-- `(((sreg_t)(x) << (64-xlen)) >> (64-xlen))` and the same on reg_t
unfoldable pub sext_xlen : ℕ → ℕ
sext_xlen x = sar64 (shl64 x (64 - xlen)) (64 - xlen)

unfoldable pub zext_xlen : ℕ → ℕ
zext_xlen x = shr (shl64 x (64 - xlen)) (64 - xlen)

pub sext_xlen_lem : (x : ℕ) → x < 2 ^ 64 → sext_xlen x ≡ x
unfolding sext_xlen sar64
sext_xlen_lem x h = ground arith

pub zext_xlen_lem : (x : ℕ) → x < 2 ^ 64 → zext_xlen x ≡ x
unfolding zext_xlen
zext_xlen_lem x h = omega arith

pub sext_xlen-lt : (x : ℕ) → sext_xlen x < 2 ^ 64
unfolding sext_xlen sar64
sext_xlen-lt x = ground arith

pub sext32-lt : (x : ℕ) → sext32 x < 2 ^ 64
unfolding sext32
sext32-lt x = ground arith

-- Sign extension keeps the low 32 bits.
pub sext32_low : (x : ℕ) → sext32 x % 2 ^ 32 ≡ x % 2 ^ 32
unfolding sext32
sext32_low x = ground arith

pub sar64-lt : (a k : ℕ) → a < 2 ^ 64 → sar64 a k < 2 ^ 64
unfolding sar64
sar64-lt a k h = ground (arith, div-le_self a (2 ^ k))
