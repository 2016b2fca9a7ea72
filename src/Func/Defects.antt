-- ===== src/Func/Defects.antt =====
-- Where an instruction of func.h does not compute what its name promises, for the class of inputs
-- that show it.
use native.Mathlib.Nat.{mul-le-mul, pow-le-pow_right}
use riscv_isa_simulator.Base.{
  ℕ, ◌-◌, ◌*◌, ◌%◌, ◌^◌, ◌≤◌, ◌<◌, ◌≡◌, ◌≢◌, ap, arith, bit_and, ltb, to_nat, shl64, sar64, sext32,
  sext_xlen, sext_xlen_lem, ok,
}
use riscv_isa_simulator.Base.Bits.{bit_and_mask}
use riscv_isa_simulator.Structs.{i_imm}
use riscv_isa_simulator.Structs.Encode.{Fixed, IsFixed, r_type}
use riscv_isa_simulator.Cpu.{Cpu, next_pc, rs1_of, rs2_of, write_rd}
use riscv_isa_simulator.Func.Alu.{rv64_sltu}
use riscv_isa_simulator.Func.Word.{rv64_sllw}

i_imm-r_type : (f : Fixed) → IsFixed f → i_imm (r_type f 0) ≡ f.rs2
unfolding i_imm sar64 sext32
i_imm-r_type f v = ground arith

wide_shift :
    (a s : ℕ) → a < 2 ^ 32 → s < 2 ^ 5 → 2 ^ 32 ≤ a * 2 ^ s → shl64 a s ≢ sext32 (shl64 a s)
unfolding sext32
wide_shift a s ha hs big =
    let top : 2 ^ s ≤ 2 ^ 31 = pow-le-pow_right (omega arith) {j = 31} (omega arith) in
    let small : a * 2 ^ s ≤ (2 ^ 32 - 1) * 2 ^ 31 =
      mul-le-mul {n₁ = a} {m₁ = 2 ^ s} {n₂ = 2 ^ 32 - 1} {m₂ = 2 ^ 31} (omega arith) top in
    λ e. ground arith

module _ {W : Type 0} (p : Cpu W) (pc : ℕ) where
  -- On a `sltu` instruction, whose funct7 is 0, `rv64_sltu` compares RS1 with the number of the
  -- second source register, and never reads that register.
  pub sltu_compares_index :
      (f : Fixed)
      → IsFixed f
      → let insn = r_type f 0 in
        rv64_sltu p insn pc ≡ ok (next_pc pc, write_rd p insn (to_nat (ltb (rs1_of p insn) f.rs2)))
  unfolding rv64_sltu
  sltu_compares_index f v =
      let insn = r_type f 0 in
      ap (λ (t : ℕ). ok (next_pc pc, write_rd p insn (to_nat (ltb (rs1_of p insn) t))))
        (i_imm-r_type f v)

  -- Where RS1 is below 2 ^ 32, the low six bits of RS2 are below 32, and RS1 shifted by them is 2 ^ 32
  -- or more, `rv64_sllw` writes the 64-bit shift, RS1 times the power of two modulo 2 ^ 64, to the
  -- destination register, and this is not the sign-extended 32-bit result, the one for the low five
  -- bits of RS2.
  pub sllw_not_word :
      (insn : ℕ)
      → rs1_of p insn < 2 ^ 32
      → rs2_of p insn % 2 ^ 6 < 2 ^ 5
      → 2 ^ 32 ≤ rs1_of p insn * 2 ^ (rs2_of p insn % 2 ^ 6)
      → let shifted = rs1_of p insn * 2 ^ (rs2_of p insn % 2 ^ 6) % 2 ^ 64 in
        (rv64_sllw p insn pc ≡ ok (next_pc pc, write_rd p insn shifted))
        × (shifted ≢ sext32 (shl64 (rs1_of p insn) (rs2_of p insn % 2 ^ 5)))
  unfolding rv64_sllw
  sllw_not_word insn h k big =
      let a = rs1_of p insn in
      let s = rs2_of p insn % 2 ^ 6 in
      let low : rs2_of p insn % 2 ^ 5 ≡ s = omega arith in
      let whole : sext_xlen (shl64 a (bit_and (rs2_of p insn) 63)) ≡ shl64 a s =
        rw (bit_and_mask 6 (rs2_of p insn)) (sext_xlen_lem (shl64 a s) (omega arith)) in
      (ap (λ (v : ℕ). ok (next_pc pc, write_rd p insn v)) whole, rw low (wide_shift a s h k big))
