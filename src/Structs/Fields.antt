-- ===== src/Structs/Fields.antt =====
-- Decoding is inverse to the instruction formats.
use riscv_isa_simulator.Base.{ℕ, ◌+◌, ◌*◌, ◌/◌, ◌%◌, ◌^◌, ◌≡◌, arith, sar64, sext32}
use riscv_isa_simulator.Base.Bits.{bit_and_mask}
use riscv_isa_simulator.Structs.{
  x, xs, imm_sign, i_imm, s_imm, sb_imm, u_imm, uj_imm, rd, rs1, rs2, shamt,
}
use riscv_isa_simulator.Structs.Encode.{
  IsSigned, Fixed, IsFixed, i_type, s_type, b_type, u_type, j_type,
}

pub rd_lem : (b : ℕ) → rd b ≡ b / 2 ^ 7 % 2 ^ 5
unfolding rd x
rd_lem b = bit_and_mask 5 (b / 2 ^ 7)

pub rs1_lem : (b : ℕ) → rs1 b ≡ b / 2 ^ 15 % 2 ^ 5
unfolding rs1 x
rs1_lem b = bit_and_mask 5 (b / 2 ^ 15)

pub rs2_lem : (b : ℕ) → rs2 b ≡ b / 2 ^ 20 % 2 ^ 5
unfolding rs2 x
rs2_lem b = bit_and_mask 5 (b / 2 ^ 20)

pub shamt_lem : (b : ℕ) → shamt b ≡ i_imm b % 2 ^ 6
unfolding shamt
shamt_lem b = bit_and_mask 6 (i_imm b)

-- A field of constant width.
x_7_5 : (b : ℕ) → x b 7 5 ≡ b / 2 ^ 7 % 2 ^ 5
unfolding x
x_7_5 b = bit_and_mask 5 (b / 2 ^ 7)

module _ (b : ℕ) where
  pub sb_imm_sum :
      sb_imm b
      ≡ (b / 2 ^ 8 % 2 ^ 4 * 2
          + b / 2 ^ 25 % 2 ^ 6 * 2 ^ 5
          + b / 2 ^ 7 % 2 * 2 ^ 11
          + imm_sign b * 2 ^ 12)
        % 2 ^ 64
  unfolding sb_imm x
  sb_imm_sum =
      rw (bit_and_mask 4 (b / 2 ^ 8), bit_and_mask 6 (b / 2 ^ 25), bit_and_mask 1 (b / 2 ^ 7))
        (omega arith)

  pub uj_imm_sum :
      uj_imm b
      ≡ (b / 2 ^ 21 % 2 ^ 10 * 2
          + b / 2 ^ 20 % 2 * 2 ^ 11
          + b / 2 ^ 12 % 2 ^ 8 * 2 ^ 12
          + imm_sign b * 2 ^ 20)
        % 2 ^ 64
  unfolding uj_imm x
  uj_imm_sum =
      rw (bit_and_mask 10 (b / 2 ^ 21), bit_and_mask 1 (b / 2 ^ 20), bit_and_mask 8 (b / 2 ^ 12))
        (omega arith)

module _ (f : Fixed) (v : IsFixed f) (imm : ℕ) where
  -- Decoding a word of the I format gives back the immediate, rd and rs1 that it was made of: for
  -- fields in their bounds and an immediate that is a signed number of 12 bits.
  pub i_imm-i_type :
      IsSigned 11 imm
      → (i_imm (i_type f imm) ≡ imm) × (rd (i_type f imm) ≡ f.rd) × (rs1 (i_type f imm) ≡ f.rs1)
  unfolding i_imm sar64 sext32
  i_imm-i_type h =
      let b = i_type f imm in (ground arith, ground (arith, rd_lem b), ground (arith, rs1_lem b))

  -- Decoding a word of the S format gives back the immediate, rs1 and rs2: for fields in their
  -- bounds and an immediate that is a signed number of 12 bits.
  pub s_imm-s_type :
      IsSigned 11 imm
      → (s_imm (s_type f imm) ≡ imm) × (rs1 (s_type f imm) ≡ f.rs1) × (rs2 (s_type f imm) ≡ f.rs2)
  unfolding s_imm xs sar64 sext32
  s_imm-s_type h =
      let b = s_type f imm in
      (ground (arith, x_7_5 b), ground (arith, rs1_lem b), ground (arith, rs2_lem b))

  -- Decoding a word of the B format gives back the branch offset, rs1 and rs2: for fields in their
  -- bounds and an even offset that is a signed number of 13 bits.
  pub sb_imm-b_type :
      IsSigned 12 imm
      → imm % 2 ≡ 0
      → (sb_imm (b_type f imm) ≡ imm) × (rs1 (b_type f imm) ≡ f.rs1) × (rs2 (b_type f imm) ≡ f.rs2)
  unfolding imm_sign sar64 sext32
  sb_imm-b_type h even =
      let b = b_type f imm in
      (ground (arith, sb_imm_sum b), ground (arith, rs1_lem b), ground (arith, rs2_lem b))

  -- Decoding a word of the U format gives back the immediate and rd: for fields in their bounds
  -- and an immediate that is a signed number of 32 bits, a multiple of 2 ^ 12.
  pub u_imm-u_type :
      IsSigned 31 imm → imm % 2 ^ 12 ≡ 0 → (u_imm (u_type f imm) ≡ imm) × (rd (u_type f imm) ≡ f.rd)
  unfolding u_imm sar64 sext32
  u_imm-u_type h round = let b = u_type f imm in (ground arith, ground (arith, rd_lem b))

  -- Decoding a word of the J format gives back the jump offset and rd: for fields in their bounds
  -- and an even offset that is a signed number of 21 bits.
  pub uj_imm-j_type :
      IsSigned 20 imm → imm % 2 ≡ 0 → (uj_imm (j_type f imm) ≡ imm) × (rd (j_type f imm) ≡ f.rd)
  unfolding imm_sign sar64 sext32
  uj_imm-j_type h even =
      let b = j_type f imm in (ground (arith, uj_imm_sum b), ground (arith, rd_lem b))
