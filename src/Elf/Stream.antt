-- ===== src/Elf/Stream.antt =====
-- The streams of the C library as far as mmu.cpp uses them: a `FILE` that is read only, as its bytes
-- and a position. Where fewer bytes are left than a read asks for, the rest of the buffer keeps
-- what it held.
use Prim.Native.Nat.{min}
use riscv_isa_simulator.Base.{
  ℕ, zero, suc, ◌+◌, ◌^◌, Bool, List, [], ◌∷◌, length, drop, ltb, if◌then◌else◌,
}

-- `broken` says that reads of the file fail, as those of a directory do; `ferror` tells it after a
-- read.
pub record File : Type 0 where
  pub bytes : List ℕ
  pub pos : ℕ
  pub broken : Bool

-- `fseek` with SEEK_SET; the offset is a `long`, and a negative one is refused.
unfoldable pub fseek : ℕ → File → File
fseek offset f = if ltb offset (2 ^ 63) then record f { pos = offset } else f

-- What is left to read.
unfoldable pub rest_of : File → List ℕ
rest_of f = if f.broken then [] else drop f.pos f.bytes

-- A buffer of `n` bytes that held `raw`, from place `i` on, after the bytes `src` were read into it.
unfoldable pub filled : (ℕ → ℕ) → ℕ → ℕ → List ℕ → List ℕ
filled raw i zero src = []
filled raw i (suc n) [] = raw i ∷ filled raw (i + 1) n []
filled raw i (suc n) (b ∷ src) = b ∷ filled raw (i + 1) n src

-- `fread` of `n` bytes.
unfoldable pub fread : (ℕ → ℕ) → ℕ → File → List ℕ × File
unfolding rest_of filled
fread raw n f = (filled raw 0 n (rest_of f), record f { pos = f.pos + min n (length (rest_of f)) })

-- `fread` of one byte into a variable that holds `held`.
unfoldable pub fread_byte : ℕ → File → ℕ × File
unfolding rest_of
fread_byte held f = elim (rest_of f) [ [] ↦ (held, f) | b ∷ _ ↦ (b, record f { pos = f.pos + 1 }) ]
