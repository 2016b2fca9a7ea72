-- ===== src/Tests/Machine.antt =====
-- A host whose calls do nothing, and a processor at the start of a program in a small memory.
use riscv_isa_simulator.Base.{
  arith, ◌-◌, ◌≤◌, ◌<◌, ◌^◌, ℕ, ◌+◌, true, false, [], ◌∷◌, replicate, length,
}
use riscv_isa_simulator.Mmu.{Mmu}
use riscv_isa_simulator.Mmu.StdMap.{Map}
use riscv_isa_simulator.Mmu.Access.{EndApart}
use riscv_isa_simulator.Cpu.{Cpu}
use riscv_isa_simulator.Cpu.Host.{Fpu, Host}

-- No floating point: every result is the first argument.
abbrev pub no_fpu : Fpu
no_fpu = record {
  add_d = λ a b. a;
  sub_d = λ a b. a;
  mul_d = λ a b. a;
  div_d = λ a b. a;
  add_s = λ a b. a;
  sub_s = λ a b. a;
  mul_s = λ a b. a;
  div_s = λ a b. a;
  eq_d = λ a b. true;
  le_d = λ a b. true;
  lt_d = λ a b. false;
  d_of_s = λ a. a;
  s_of_d = λ a. a;
  d_of_u64 = λ a. a;
  d_of_i64 = λ a. a;
  d_of_i32 = λ a. a;
  s_of_i64 = λ a. a;
  s_of_i32 = λ a. a;
  i64_of_d = λ a. a;
  i32_of_d = λ a. a;
  u32_of_d = λ a. a;
  rint = λ a. a;
  trunc = λ a. a;
  floor = λ a. a;
  ceil = λ a. a;
}

-- The end node of a `std::map` shows the number of its entries, as that of the GNU library does.
abbrev pub host : Host ℕ
host = record {
  end_key = λ m. length m;
  fpu = no_fpu;
  write = λ w buf. (length buf, w + length buf);
  read = λ w len. record { number = 0; buf = []; world = w };
  time = λ w. (w, w);
  fstat = λ w fd. 0;
  gettimeofday = λ w. record { number = 0; tv = []; world = w };
}

-- addi x5, x5, -1; add x6, x6, x5; bne x5, x0, -8
abbrev pub program : Map
program =
    (0x10000, 0x93)
    ∷ (0x10001, 0x82)
    ∷ (0x10002, 0xf2)
    ∷ (0x10003, 0xff)
    ∷ (0x10004, 0x33)
    ∷ (0x10005, 0x03)
    ∷ (0x10006, 0x53)
    ∷ (0x10007, 0x00)
    ∷ (0x10008, 0xe3)
    ∷ (0x10009, 0x9c)
    ∷ (0x1000a, 0x02)
    ∷ (0x1000b, 0xfe)
    ∷ []

-- The text segment is forbidden to writes.
abbrev pub memory : Mmu
memory = record { mem = program; forbid = (0x10000, 0x1000b) ∷ []; entry = 0x10000 }

abbrev pub cpu : Cpu ℕ
cpu = record {
  pc = 0x10000;
  xpr = 0 ∷ 0 ∷ 0 ∷ 0 ∷ 0 ∷ 3 ∷ 31 ∷ replicate 25 0;
  fpr = replicate 32 0;
  fflags = 0;
  frm = 0;
  mmu = memory;
  c_insn = 0;
  insn_count = ("addi", 0) ∷ ("add", 0) ∷ ("bne", 0) ∷ [];
  world = 0;
}

-- The end node of the small memory shows no address from 100 on.
pub end_node_apart :
    (addr n : ℕ) → 100 ≤ addr → addr < 2 ^ 64 - 8 → n ≤ 8 → EndApart (λ m. length m) program addr n
end_node_apart addr n low high few = λ m more most. omega arith
