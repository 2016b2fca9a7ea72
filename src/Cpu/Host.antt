-- ===== src/Cpu/Host.antt =====
-- What the simulator takes from its host and does not implement: the C++ library's end iterator,
-- the machine's floating point on bit patterns, and the calls of the operating system.
use riscv_isa_simulator.Base.{ℕ, Bool, List}
use riscv_isa_simulator.Mmu.StdMap.{Map}

-- `double` and `float` arithmetic and conversions, each on the patterns of its arguments.
pub record Fpu : Type 0 where
  pub add_d : ℕ → ℕ → ℕ
  pub sub_d : ℕ → ℕ → ℕ
  pub mul_d : ℕ → ℕ → ℕ
  pub div_d : ℕ → ℕ → ℕ
  pub add_s : ℕ → ℕ → ℕ
  pub sub_s : ℕ → ℕ → ℕ
  pub mul_s : ℕ → ℕ → ℕ
  pub div_s : ℕ → ℕ → ℕ
  pub eq_d : ℕ → ℕ → Bool
  pub le_d : ℕ → ℕ → Bool
  pub lt_d : ℕ → ℕ → Bool
  pub d_of_s : ℕ → ℕ
  pub s_of_d : ℕ → ℕ
  pub d_of_u64 : ℕ → ℕ
  pub d_of_i64 : ℕ → ℕ
  pub d_of_i32 : ℕ → ℕ
  pub s_of_i64 : ℕ → ℕ
  pub s_of_i32 : ℕ → ℕ
  pub i64_of_d : ℕ → ℕ
  pub i32_of_d : ℕ → ℕ
  pub u32_of_d : ℕ → ℕ
  pub rint : ℕ → ℕ
  pub trunc : ℕ → ℕ
  pub floor : ℕ → ℕ
  pub ceil : ℕ → ℕ

-- `write` and `read` have the returned number, a 64-bit pattern; `read` has the buffer too.
-- `gettimeofday` has the bytes of the structure. `time` is the call with NULL, and `fstat` has the
-- descriptor, an `int`, as a 64-bit pattern.
pub record Host (W : Type 0) : Type 0 where
  pub end_key : Map → ℕ
  pub fpu : Fpu
  pub write : W → List ℕ → ℕ × W
  pub read : W → ℕ → record { number : ℕ; buf : List ℕ; world : W }
  pub time : W → ℕ × W
  pub fstat : W → ℕ → ℕ
  pub gettimeofday : W → record { number : ℕ; tv : List ℕ; world : W }
