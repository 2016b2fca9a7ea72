-- ===== src/Structs.antt =====
-- structs.h: the class `insn_t` (an instruction is its bits `b`, a 64-bit number), the template
-- `regfile_t`, and the macros over them. An `int64_t` result is its 64-bit pattern.
pub mod Encode
pub mod Fields
pub mod Regfile
use riscv_isa_simulator.Base.{
  ℕ, ◌+◌, ◌-◌, ◌<◌, bit_and, ltb, if◌then◌else◌, add64, sub64, shl64, shr, sar64,
}

-- The type `insn_t`, and `insn_bits_t` of its member `b`.
abbrev pub Insn : Type 0
Insn = ℕ

-- #define insn_length(x)
unfoldable pub insn_length : ℕ → ℕ
insn_length x =
    if ltb (bit_and x 0x03) 0x03
    then 2
    else if ltb (bit_and x 0x1f) 0x1f
    then 4
    else if ltb (bit_and x 0x3f) 0x3f
    then 6
    else 8

-- The private members x, xs and imm_sign.
unfoldable pub x : Insn → ℕ → ℕ → ℕ
x b lo len = bit_and (shr b lo) (sub64 (shl64 1 len) 1)

unfoldable pub xs : Insn → ℕ → ℕ → ℕ
xs b lo len = sar64 (shl64 b (64 - lo - len)) (64 - len)

unfoldable pub imm_sign : Insn → ℕ
unfolding xs
imm_sign b = xs b 63 1

unfoldable pub i_imm : Insn → ℕ
i_imm b = sar64 b 20

unfoldable pub s_imm : Insn → ℕ
s_imm b = add64 (x b 7 5) (shl64 (xs b 25 7) 5)

unfoldable pub sb_imm : Insn → ℕ
sb_imm b =
    add64 (add64 (add64 (shl64 (x b 8 4) 1) (shl64 (x b 25 6) 5)) (shl64 (x b 7 1) 11))
      (shl64 (imm_sign b) 12)

unfoldable pub u_imm : Insn → ℕ
u_imm b = shl64 (sar64 b 12) 12

unfoldable pub uj_imm : Insn → ℕ
uj_imm b =
    add64 (add64 (add64 (shl64 (x b 21 10) 1) (shl64 (x b 20 1) 11)) (shl64 (x b 12 8) 12))
      (shl64 (imm_sign b) 20)

unfoldable pub rd : Insn → ℕ
rd b = x b 7 5

unfoldable pub rs1 : Insn → ℕ
rs1 b = x b 15 5

unfoldable pub rs2 : Insn → ℕ
rs2 b = x b 20 5

unfoldable pub rs3 : Insn → ℕ
rs3 b = x b 27 5

unfoldable pub rm : Insn → ℕ
rm b = x b 12 3

unfoldable pub csr : Insn → ℕ
csr b = x b 20 12

-- #define SHAMT
unfoldable pub shamt : Insn → ℕ
shamt b = bit_and (i_imm b) 0x3F
