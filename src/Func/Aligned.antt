-- ===== src/Func/Aligned.antt =====
-- Each integer instruction keeps the program counter aligned, group by group.
use riscv_isa_simulator.Func.Align.{IsAligned, next_pc-mod, required-IsAligned}
use riscv_isa_simulator.Func.Alu.{
  rv64_add, rv64_sub, rv64_sll, rv64_slt, rv64_sltu, rv64_xor, rv64_srl, rv64_sra, rv64_or,
  rv64_and,
}
use riscv_isa_simulator.Func.AluImm.{
  rv64_addi, rv64_slli, rv64_slti, rv64_sltiu, rv64_xori, rv64_srli, rv64_srai, rv64_ori, rv64_andi,
  rv64_auipc, rv64_lui,
}
use riscv_isa_simulator.Func.Word.{
  rv64_addw, rv64_subw, rv64_sllw, rv64_srlw, rv64_sraw, rv64_addiw, rv64_slliw, rv64_srliw,
  rv64_sraiw,
}
use riscv_isa_simulator.Func.MulDiv.{
  rv64_mul, rv64_mulw, rv64_mulh, rv64_mulhu, rv64_mulhsu, rv64_div, rv64_divu, rv64_divw,
  rv64_divuw, rv64_rem, rv64_remu, rv64_remw, rv64_remuw,
}

module _ {W : Type 0} where
  pub alu-IsAligned :
      IsAligned (rv64_add {W = W})
      × IsAligned (rv64_sub {W = W})
      × IsAligned (rv64_sll {W = W})
      × IsAligned (rv64_slt {W = W})
      × IsAligned (rv64_sltu {W = W})
      × IsAligned (rv64_xor {W = W})
      × IsAligned (rv64_srl {W = W})
      × IsAligned (rv64_sra {W = W})
      × IsAligned (rv64_or {W = W})
      × IsAligned (rv64_and {W = W})
  unfolding rv64_add rv64_sub rv64_sll rv64_slt rv64_sltu rv64_xor rv64_srl rv64_sra rv64_or
      rv64_and
  alu-IsAligned = (
    λ _ _ pc h. next_pc-mod pc h,
    λ _ _ pc h. next_pc-mod pc h,
    λ _ _ pc h. next_pc-mod pc h,
    λ _ _ pc h. next_pc-mod pc h,
    λ _ _ pc h. next_pc-mod pc h,
    λ _ _ pc h. next_pc-mod pc h,
    λ _ _ pc h. next_pc-mod pc h,
    λ _ _ pc h. next_pc-mod pc h,
    λ _ _ pc h. next_pc-mod pc h,
    λ _ _ pc h. next_pc-mod pc h,
  )

  pub alu_imm-IsAligned :
      IsAligned (rv64_addi {W = W})
      × IsAligned (rv64_slli {W = W})
      × IsAligned (rv64_slti {W = W})
      × IsAligned (rv64_sltiu {W = W})
      × IsAligned (rv64_xori {W = W})
      × IsAligned (rv64_srli {W = W})
      × IsAligned (rv64_srai {W = W})
      × IsAligned (rv64_ori {W = W})
      × IsAligned (rv64_andi {W = W})
      × IsAligned (rv64_auipc {W = W})
      × IsAligned (rv64_lui {W = W})
  unfolding rv64_addi rv64_slli rv64_slti rv64_sltiu rv64_xori rv64_srli rv64_srai rv64_ori
      rv64_andi rv64_auipc rv64_lui
  alu_imm-IsAligned = (
    λ _ _ pc h. next_pc-mod pc h,
    required-IsAligned _ _ (λ _ _ pc h. next_pc-mod pc h) (λ _ _ _ _. tt),
    λ _ _ pc h. next_pc-mod pc h,
    λ _ _ pc h. next_pc-mod pc h,
    λ _ _ pc h. next_pc-mod pc h,
    required-IsAligned _ _ (λ _ _ pc h. next_pc-mod pc h) (λ _ _ _ _. tt),
    required-IsAligned _ _ (λ _ _ pc h. next_pc-mod pc h) (λ _ _ _ _. tt),
    λ _ _ pc h. next_pc-mod pc h,
    λ _ _ pc h. next_pc-mod pc h,
    λ _ _ pc h. next_pc-mod pc h,
    λ _ _ pc h. next_pc-mod pc h,
  )

  pub word-IsAligned :
      IsAligned (rv64_addw {W = W})
      × IsAligned (rv64_subw {W = W})
      × IsAligned (rv64_sllw {W = W})
      × IsAligned (rv64_srlw {W = W})
      × IsAligned (rv64_sraw {W = W})
      × IsAligned (rv64_addiw {W = W})
      × IsAligned (rv64_slliw {W = W})
      × IsAligned (rv64_srliw {W = W})
      × IsAligned (rv64_sraiw {W = W})
  unfolding rv64_addw rv64_subw rv64_sllw rv64_srlw rv64_sraw rv64_addiw rv64_slliw rv64_srliw
      rv64_sraiw
  word-IsAligned = (
    λ _ _ pc h. next_pc-mod pc h,
    λ _ _ pc h. next_pc-mod pc h,
    λ _ _ pc h. next_pc-mod pc h,
    λ _ _ pc h. next_pc-mod pc h,
    λ _ _ pc h. next_pc-mod pc h,
    λ _ _ pc h. next_pc-mod pc h,
    λ _ _ pc h. next_pc-mod pc h,
    λ _ _ pc h. next_pc-mod pc h,
    λ _ _ pc h. next_pc-mod pc h,
  )

  pub mul_div-IsAligned :
      IsAligned (rv64_mul {W = W})
      × IsAligned (rv64_mulw {W = W})
      × IsAligned (rv64_mulh {W = W})
      × IsAligned (rv64_mulhu {W = W})
      × IsAligned (rv64_mulhsu {W = W})
      × IsAligned (rv64_div {W = W})
      × IsAligned (rv64_divu {W = W})
      × IsAligned (rv64_divw {W = W})
      × IsAligned (rv64_divuw {W = W})
      × IsAligned (rv64_rem {W = W})
      × IsAligned (rv64_remu {W = W})
      × IsAligned (rv64_remw {W = W})
      × IsAligned (rv64_remuw {W = W})
  unfolding rv64_mul rv64_mulw rv64_mulh rv64_mulhu rv64_mulhsu rv64_div rv64_divu rv64_divw
      rv64_divuw rv64_rem rv64_remu rv64_remw rv64_remuw
  mul_div-IsAligned = (
    λ _ _ pc h. next_pc-mod pc h,
    λ _ _ pc h. next_pc-mod pc h,
    λ _ _ pc h. next_pc-mod pc h,
    λ _ _ pc h. next_pc-mod pc h,
    λ _ _ pc h. next_pc-mod pc h,
    λ _ _ pc h. next_pc-mod pc h,
    λ _ _ pc h. next_pc-mod pc h,
    λ _ _ pc h. next_pc-mod pc h,
    λ _ _ pc h. next_pc-mod pc h,
    λ _ _ pc h. next_pc-mod pc h,
    λ _ _ pc h. next_pc-mod pc h,
    λ _ _ pc h. next_pc-mod pc h,
    λ _ _ pc h. next_pc-mod pc h,
  )
