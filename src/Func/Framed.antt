-- ===== src/Func/Framed.antt =====
-- Each integer instruction is framed, group by group.
use riscv_isa_simulator.Base.{ℕ, ltb, xlen, if◌then◌else◌, ok, Keeps}
use riscv_isa_simulator.Structs.{Insn, shamt}
use riscv_isa_simulator.Structs.Regfile.{if_either}
use riscv_isa_simulator.Cpu.{Cpu, InsnFunc, next_pc, write_rd, write_frd}
use riscv_isa_simulator.Func.Frame.{Frame, IsFramed, write_rd-Frame, write_frd-Frame}
use riscv_isa_simulator.Func.Alu.{
  rv64_add, rv64_sub, rv64_sll, rv64_slt, rv64_sltu, rv64_xor, rv64_srl, rv64_sra, rv64_or,
  rv64_and,
}
use riscv_isa_simulator.Func.AluImm.{
  rv64_addi, rv64_slli, rv64_slti, rv64_sltiu, rv64_xori, rv64_srli, rv64_srai, rv64_ori, rv64_andi,
  rv64_auipc, rv64_lui,
}
use riscv_isa_simulator.Func.Word.{
  rv64_addw, rv64_subw, rv64_sllw, rv64_srlw, rv64_sraw, rv64_addiw, rv64_slliw, rv64_srliw,
  rv64_sraiw,
}
use riscv_isa_simulator.Func.MulDiv.{
  rv64_mul, rv64_mulw, rv64_mulh, rv64_mulhu, rv64_mulhsu, rv64_div, rv64_divu, rv64_divw,
  rv64_divuw, rv64_rem, rv64_remu, rv64_remw, rv64_remuw,
}

module _ {W : Type 0} where
  -- The shapes that the bodies have.
  pub rd-IsFramed :
      (v : Cpu W → Insn → ℕ → ℕ)
      → IsFramed (λ p insn pc. ok (next_pc pc, write_rd p insn (v p insn pc)))
  rd-IsFramed v p insn pc = write_rd-Frame p insn _

  pub frd-IsFramed :
      (v : Cpu W → Insn → ℕ → ℕ)
      → IsFramed (λ p insn pc. ok (next_pc pc, write_frd p insn (v p insn pc)))
  frd-IsFramed v p insn pc = write_frd-Frame p insn _

  required-IsFramed :
      (f g : InsnFunc W)
      → IsFramed f
      → IsFramed g
      → IsFramed (λ p insn pc. if ltb (shamt insn) xlen then f p insn pc else g p insn pc)
  required-IsFramed f g h k p insn pc =
      if_either (Keeps (λ (r : ℕ × Cpu W). Frame p r.1)) _ (h p insn pc) (k p insn pc)

  pub alu-IsFramed :
      IsFramed (rv64_add {W = W})
      × IsFramed (rv64_sub {W = W})
      × IsFramed (rv64_sll {W = W})
      × IsFramed (rv64_slt {W = W})
      × IsFramed (rv64_sltu {W = W})
      × IsFramed (rv64_xor {W = W})
      × IsFramed (rv64_srl {W = W})
      × IsFramed (rv64_sra {W = W})
      × IsFramed (rv64_or {W = W})
      × IsFramed (rv64_and {W = W})
  unfolding rv64_add rv64_sub rv64_sll rv64_slt rv64_sltu rv64_xor rv64_srl rv64_sra rv64_or
      rv64_and
  alu-IsFramed = (
    rd-IsFramed _,
    rd-IsFramed _,
    rd-IsFramed _,
    rd-IsFramed _,
    rd-IsFramed _,
    rd-IsFramed _,
    rd-IsFramed _,
    rd-IsFramed _,
    rd-IsFramed _,
    rd-IsFramed _,
  )

  pub alu_imm-IsFramed :
      IsFramed (rv64_addi {W = W})
      × IsFramed (rv64_slli {W = W})
      × IsFramed (rv64_slti {W = W})
      × IsFramed (rv64_sltiu {W = W})
      × IsFramed (rv64_xori {W = W})
      × IsFramed (rv64_srli {W = W})
      × IsFramed (rv64_srai {W = W})
      × IsFramed (rv64_ori {W = W})
      × IsFramed (rv64_andi {W = W})
      × IsFramed (rv64_auipc {W = W})
      × IsFramed (rv64_lui {W = W})
  unfolding rv64_addi rv64_slli rv64_slti rv64_sltiu rv64_xori rv64_srli rv64_srai rv64_ori
      rv64_andi rv64_auipc rv64_lui
  alu_imm-IsFramed = (
    rd-IsFramed _,
    required-IsFramed _ _ (rd-IsFramed _) (λ _ _ _. tt),
    rd-IsFramed _,
    rd-IsFramed _,
    rd-IsFramed _,
    required-IsFramed _ _ (rd-IsFramed _) (λ _ _ _. tt),
    required-IsFramed _ _ (rd-IsFramed _) (λ _ _ _. tt),
    rd-IsFramed _,
    rd-IsFramed _,
    rd-IsFramed _,
    rd-IsFramed _,
  )

  pub word-IsFramed :
      IsFramed (rv64_addw {W = W})
      × IsFramed (rv64_subw {W = W})
      × IsFramed (rv64_sllw {W = W})
      × IsFramed (rv64_srlw {W = W})
      × IsFramed (rv64_sraw {W = W})
      × IsFramed (rv64_addiw {W = W})
      × IsFramed (rv64_slliw {W = W})
      × IsFramed (rv64_srliw {W = W})
      × IsFramed (rv64_sraiw {W = W})
  unfolding rv64_addw rv64_subw rv64_sllw rv64_srlw rv64_sraw rv64_addiw rv64_slliw rv64_srliw
      rv64_sraiw
  word-IsFramed = (
    rd-IsFramed _,
    rd-IsFramed _,
    rd-IsFramed _,
    rd-IsFramed _,
    rd-IsFramed _,
    rd-IsFramed _,
    rd-IsFramed _,
    rd-IsFramed _,
    rd-IsFramed _,
  )

  pub mul_div-IsFramed :
      IsFramed (rv64_mul {W = W})
      × IsFramed (rv64_mulw {W = W})
      × IsFramed (rv64_mulh {W = W})
      × IsFramed (rv64_mulhu {W = W})
      × IsFramed (rv64_mulhsu {W = W})
      × IsFramed (rv64_div {W = W})
      × IsFramed (rv64_divu {W = W})
      × IsFramed (rv64_divw {W = W})
      × IsFramed (rv64_divuw {W = W})
      × IsFramed (rv64_rem {W = W})
      × IsFramed (rv64_remu {W = W})
      × IsFramed (rv64_remw {W = W})
      × IsFramed (rv64_remuw {W = W})
  unfolding rv64_mul rv64_mulw rv64_mulh rv64_mulhu rv64_mulhsu rv64_div rv64_divu rv64_divw
      rv64_divuw rv64_rem rv64_remu rv64_remw rv64_remuw
  mul_div-IsFramed = (
    rd-IsFramed _,
    rd-IsFramed _,
    rd-IsFramed _,
    rd-IsFramed _,
    rd-IsFramed _,
    rd-IsFramed _,
    rd-IsFramed _,
    rd-IsFramed _,
    rd-IsFramed _,
    rd-IsFramed _,
    rd-IsFramed _,
    rd-IsFramed _,
    rd-IsFramed _,
  )
