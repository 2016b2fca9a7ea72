-- ===== src/Structs/Encode.antt =====
-- The instruction formats of RISC-V as sums of shifted fields, as the base instruction set
-- specifies them. An immediate is a 64-bit pattern; `load_insn` hands the bits over sign-extended.
use riscv_isa_simulator.Base.{ℕ, ◌+◌, ◌-◌, ◌*◌, ◌/◌, ◌%◌, ◌^◌, ◌≤◌, ◌<◌, ◌⊎◌, sext32}

-- The pattern of a signed number of `n + 1` bits.
abbrev pub IsSigned : ℕ → ℕ → Type 0
IsSigned n imm = (imm < 2 ^ n) ⊎ ((2 ^ 64 - 2 ^ n ≤ imm) × (imm < 2 ^ 64))

-- The fields that several formats share.
pub record Fixed : Type 0 where
  pub opcode : ℕ
  pub funct3 : ℕ
  pub rd : ℕ
  pub rs1 : ℕ
  pub rs2 : ℕ

pub record IsFixed (f : Fixed) : Type 0 where
  pub opcode : f.opcode < 2 ^ 7
  pub funct3 : f.funct3 < 2 ^ 3
  pub rd : f.rd < 2 ^ 5
  pub rs1 : f.rs1 < 2 ^ 5
  pub rs2 : f.rs2 < 2 ^ 5

abbrev pub r_type : Fixed → ℕ → ℕ
r_type f funct7 = sext32 (
    f.opcode + f.rd * 2 ^ 7 + f.funct3 * 2 ^ 12 + f.rs1 * 2 ^ 15 + f.rs2 * 2 ^ 20 + funct7 * 2 ^ 25)

abbrev pub i_type : Fixed → ℕ → ℕ
i_type f imm =
    sext32 (f.opcode + f.rd * 2 ^ 7 + f.funct3 * 2 ^ 12 + f.rs1 * 2 ^ 15 + imm % 2 ^ 12 * 2 ^ 20)

abbrev pub s_type : Fixed → ℕ → ℕ
s_type f imm = sext32 (
    f.opcode
    + imm % 2 ^ 5 * 2 ^ 7
    + f.funct3 * 2 ^ 12
    + f.rs1 * 2 ^ 15
    + f.rs2 * 2 ^ 20
    + imm / 2 ^ 5 % 2 ^ 7 * 2 ^ 25)

-- imm[4:1|11] and imm[12|10:5]
abbrev pub b_type : Fixed → ℕ → ℕ
b_type f imm = sext32 (
    f.opcode
    + imm / 2 ^ 11 % 2 * 2 ^ 7
    + imm / 2 % 2 ^ 4 * 2 ^ 8
    + f.funct3 * 2 ^ 12
    + f.rs1 * 2 ^ 15
    + f.rs2 * 2 ^ 20
    + imm / 2 ^ 5 % 2 ^ 6 * 2 ^ 25
    + imm / 2 ^ 12 % 2 * 2 ^ 31)

abbrev pub u_type : Fixed → ℕ → ℕ
u_type f imm = sext32 (f.opcode + f.rd * 2 ^ 7 + imm / 2 ^ 12 % 2 ^ 20 * 2 ^ 12)

-- imm[20|10:1|11|19:12]
abbrev pub j_type : Fixed → ℕ → ℕ
j_type f imm = sext32 (
    f.opcode
    + f.rd * 2 ^ 7
    + imm / 2 ^ 12 % 2 ^ 8 * 2 ^ 12
    + imm / 2 ^ 11 % 2 * 2 ^ 20
    + imm / 2 % 2 ^ 10 * 2 ^ 21
    + imm / 2 ^ 20 % 2 * 2 ^ 31)
