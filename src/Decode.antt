-- ===== src/Decode.antt =====
-- The table that `register_instructions` of cpu.h builds from encoding.h and insn_list.h, in the
-- order of insn_list.h, and the search of `decode_insn` through it.
pub mod Unique
pub mod Table
pub mod Declared
use Prim.Native.String.{String}
use riscv_isa_simulator.Base.{
  ℕ, ◌≡◌, List, [], ◌∷◌, ◌++◌, bit_and, ◌==◌, if◌then◌else◌, Result, ok, trap, undefined,
}
use riscv_isa_simulator.Structs.{Insn}
use riscv_isa_simulator.Cpu.{InsnFunc}
use riscv_isa_simulator.Cpu.Host.{Host}
use riscv_isa_simulator.Encoding.{
  Encoding, addi_encoding, lw_encoding, ld_encoding, sw_encoding, sd_encoding, jal_encoding,
  bne_encoding, add_encoding, addiw_encoding, lui_encoding, sub_encoding, sll_encoding,
  slt_encoding, sltu_encoding, xor_encoding, srl_encoding, sra_encoding, or_encoding, and_encoding,
  slli_encoding, slti_encoding, sltiu_encoding, xori_encoding, srli_encoding, srai_encoding,
  ori_encoding, andi_encoding, beq_encoding, blt_encoding, bge_encoding, bltu_encoding,
  bgeu_encoding, lb_encoding, lh_encoding, lbu_encoding, lhu_encoding, lwu_encoding, sb_encoding,
  sh_encoding, jalr_encoding, auipc_encoding, addw_encoding, subw_encoding, sllw_encoding,
  srlw_encoding, sraw_encoding, slliw_encoding, srliw_encoding, sraiw_encoding, mul_encoding,
  mulw_encoding, mulh_encoding, mulhu_encoding, mulhsu_encoding, div_encoding, divu_encoding,
  divw_encoding, divuw_encoding, rem_encoding, remu_encoding, remw_encoding, remuw_encoding,
  scall_encoding, fence_encoding, fld_encoding, flw_encoding, fsd_encoding, fsw_encoding,
  fmv_s_x_encoding, fmul_d_encoding, fdiv_d_encoding, fmul_s_encoding, fdiv_s_encoding,
  fadd_d_encoding, fsub_d_encoding, fadd_s_encoding, fsub_s_encoding, fmv_x_d_encoding,
  fmv_d_x_encoding, fcvt_l_d_encoding, fcvt_s_l_encoding, fcvt_s_w_encoding, fcvt_s_d_encoding,
  fcvt_d_s_encoding, fcvt_d_w_encoding, fcvt_d_l_encoding, fcvt_w_d_encoding, fcvt_wu_d_encoding,
  fsgnj_d_encoding, feq_d_encoding, fle_d_encoding, flt_d_encoding, fmadd_d_encoding,
}
use riscv_isa_simulator.Func.Alu.{
  rv64_add, rv64_sub, rv64_sll, rv64_slt, rv64_sltu, rv64_xor, rv64_srl, rv64_sra, rv64_or,
  rv64_and,
}
use riscv_isa_simulator.Func.AluImm.{
  rv64_addi, rv64_lui, rv64_slli, rv64_slti, rv64_sltiu, rv64_xori, rv64_srli, rv64_srai, rv64_ori,
  rv64_andi, rv64_auipc,
}
use riscv_isa_simulator.Func.Word.{
  rv64_addiw, rv64_addw, rv64_subw, rv64_sllw, rv64_srlw, rv64_sraw, rv64_slliw, rv64_srliw,
  rv64_sraiw,
}
use riscv_isa_simulator.Func.MulDiv.{
  rv64_mul, rv64_mulw, rv64_mulh, rv64_mulhu, rv64_mulhsu, rv64_div, rv64_divu, rv64_divw,
  rv64_divuw, rv64_rem, rv64_remu, rv64_remw, rv64_remuw,
}
use riscv_isa_simulator.Func.Branch.{
  rv64_jal, rv64_bne, rv64_beq, rv64_blt, rv64_bge, rv64_bltu, rv64_bgeu, rv64_jalr, rv64_fence,
}
use riscv_isa_simulator.Func.Memory.{
  rv64_lw, rv64_ld, rv64_sw, rv64_sd, rv64_lb, rv64_lh, rv64_lbu, rv64_lhu, rv64_lwu, rv64_sb,
  rv64_sh, rv64_fld, rv64_flw, rv64_fsd, rv64_fsw,
}
use riscv_isa_simulator.Func.Float.{
  rv64_fmv_s_x, rv64_fmul_d, rv64_fdiv_d, rv64_fmul_s, rv64_fdiv_s, rv64_fadd_d, rv64_fsub_d,
  rv64_fadd_s, rv64_fsub_s, rv64_fmv_x_d, rv64_fmv_d_x, rv64_fcvt_l_d, rv64_fcvt_s_l, rv64_fcvt_s_w,
  rv64_fcvt_s_d, rv64_fcvt_d_s, rv64_fcvt_d_w, rv64_fcvt_d_l, rv64_fcvt_w_d, rv64_fcvt_wu_d,
  rv64_fsgnj_d, rv64_feq_d, rv64_fle_d, rv64_flt_d, rv64_fmadd_d,
}
use riscv_isa_simulator.Func.Scall.{rv64_scall}

-- `insn_desc_t`; `rv64` is the function that executes the instruction.
pub record InsnDesc (W : Type 0) : Type 0 where
  pub match : ℕ
  pub mask : ℕ
  pub rv64 : InsnFunc W
  pub name : String

-- REGISTER_INSN(name, match, mask)
abbrev pub register_insn : {W : Type 0} → String → Encoding → InsnFunc W → InsnDesc W
register_insn name e rv64 = record { match = e.match; mask = e.mask; rv64 = rv64; name = name }

-- reg_t illegal_instruction(cpu_t* cpu, insn_t insn, reg_t pc)
unfoldable pub illegal_instruction : {W : Type 0} → InsnFunc W
illegal_instruction cpu insn pc = ok (0, cpu)

module _ {W : Type 0} where
  -- The last entry, which matches every word.
  abbrev pub illegal : InsnDesc W
  illegal = record { match = 0; mask = 0; rv64 = illegal_instruction; name = "illegal" }

  -- Whether the loop of `decode_insn` stops at the entry.
  abbrev pub Matches : InsnDesc W → Insn → Type 0
  Matches d insn = bit_and insn d.mask ≡ d.match

  -- The loop of `decode_insn`; past the end of the vector its behaviour is undefined.
  unfoldable pub decode_insn : List (InsnDesc W) → Insn → Result (InsnDesc W)
  decode_insn [] insn = trap undefined
  decode_insn (d ∷ rest) insn =
      let later = decode_insn rest insn in if bit_and insn d.mask == d.match then ok d else later

module _ {W : Type 0} (host : Host W) where
  -- The entries of insn_list.h.
  unfoldable pub defined : List (InsnDesc W)
  defined =
      register_insn "addi" addi_encoding rv64_addi
      ∷ register_insn "lw" lw_encoding (rv64_lw host)
      ∷ register_insn "ld" ld_encoding (rv64_ld host)
      ∷ register_insn "sw" sw_encoding (rv64_sw host)
      ∷ register_insn "sd" sd_encoding (rv64_sd host)
      ∷ register_insn "jal" jal_encoding rv64_jal
      ∷ register_insn "bne" bne_encoding rv64_bne
      ∷ register_insn "add" add_encoding rv64_add
      ∷ register_insn "addiw" addiw_encoding rv64_addiw
      ∷ register_insn "lui" lui_encoding rv64_lui
      ∷ register_insn "sub" sub_encoding rv64_sub
      ∷ register_insn "sll" sll_encoding rv64_sll
      ∷ register_insn "slt" slt_encoding rv64_slt
      ∷ register_insn "sltu" sltu_encoding rv64_sltu
      ∷ register_insn "xor" xor_encoding rv64_xor
      ∷ register_insn "srl" srl_encoding rv64_srl
      ∷ register_insn "sra" sra_encoding rv64_sra
      ∷ register_insn "or" or_encoding rv64_or
      ∷ register_insn "and" and_encoding rv64_and
      ∷ register_insn "slli" slli_encoding rv64_slli
      ∷ register_insn "slti" slti_encoding rv64_slti
      ∷ register_insn "sltiu" sltiu_encoding rv64_sltiu
      ∷ register_insn "xori" xori_encoding rv64_xori
      ∷ register_insn "srli" srli_encoding rv64_srli
      ∷ register_insn "srai" srai_encoding rv64_srai
      ∷ register_insn "ori" ori_encoding rv64_ori
      ∷ register_insn "andi" andi_encoding rv64_andi
      ∷ register_insn "beq" beq_encoding rv64_beq
      ∷ register_insn "blt" blt_encoding rv64_blt
      ∷ register_insn "bge" bge_encoding rv64_bge
      ∷ register_insn "bltu" bltu_encoding rv64_bltu
      ∷ register_insn "bgeu" bgeu_encoding rv64_bgeu
      ∷ register_insn "lb" lb_encoding (rv64_lb host)
      ∷ register_insn "lh" lh_encoding (rv64_lh host)
      ∷ register_insn "lbu" lbu_encoding (rv64_lbu host)
      ∷ register_insn "lhu" lhu_encoding (rv64_lhu host)
      ∷ register_insn "lwu" lwu_encoding (rv64_lwu host)
      ∷ register_insn "sb" sb_encoding (rv64_sb host)
      ∷ register_insn "sh" sh_encoding (rv64_sh host)
      ∷ register_insn "jalr" jalr_encoding rv64_jalr
      ∷ register_insn "auipc" auipc_encoding rv64_auipc
      ∷ register_insn "addw" addw_encoding rv64_addw
      ∷ register_insn "subw" subw_encoding rv64_subw
      ∷ register_insn "sllw" sllw_encoding rv64_sllw
      ∷ register_insn "srlw" srlw_encoding rv64_srlw
      ∷ register_insn "sraw" sraw_encoding rv64_sraw
      ∷ register_insn "slliw" slliw_encoding rv64_slliw
      ∷ register_insn "srliw" srliw_encoding rv64_srliw
      ∷ register_insn "sraiw" sraiw_encoding rv64_sraiw
      ∷ register_insn "mul" mul_encoding rv64_mul
      ∷ register_insn "mulw" mulw_encoding rv64_mulw
      ∷ register_insn "mulh" mulh_encoding rv64_mulh
      ∷ register_insn "mulhu" mulhu_encoding rv64_mulhu
      ∷ register_insn "mulhsu" mulhsu_encoding rv64_mulhsu
      ∷ register_insn "div" div_encoding rv64_div
      ∷ register_insn "divu" divu_encoding rv64_divu
      ∷ register_insn "divw" divw_encoding rv64_divw
      ∷ register_insn "divuw" divuw_encoding rv64_divuw
      ∷ register_insn "rem" rem_encoding rv64_rem
      ∷ register_insn "remu" remu_encoding rv64_remu
      ∷ register_insn "remw" remw_encoding rv64_remw
      ∷ register_insn "remuw" remuw_encoding rv64_remuw
      ∷ register_insn "scall" scall_encoding (rv64_scall host)
      ∷ register_insn "fence" fence_encoding rv64_fence
      ∷ register_insn "fld" fld_encoding (rv64_fld host)
      ∷ register_insn "flw" flw_encoding (rv64_flw host)
      ∷ register_insn "fsd" fsd_encoding (rv64_fsd host)
      ∷ register_insn "fsw" fsw_encoding (rv64_fsw host)
      ∷ register_insn "fmv_s_x" fmv_s_x_encoding (rv64_fmv_s_x host.fpu)
      ∷ register_insn "fmul_d" fmul_d_encoding (rv64_fmul_d host.fpu)
      ∷ register_insn "fdiv_d" fdiv_d_encoding (rv64_fdiv_d host.fpu)
      ∷ register_insn "fmul_s" fmul_s_encoding (rv64_fmul_s host.fpu)
      ∷ register_insn "fdiv_s" fdiv_s_encoding (rv64_fdiv_s host.fpu)
      ∷ register_insn "fadd_d" fadd_d_encoding (rv64_fadd_d host.fpu)
      ∷ register_insn "fsub_d" fsub_d_encoding (rv64_fsub_d host.fpu)
      ∷ register_insn "fadd_s" fadd_s_encoding (rv64_fadd_s host.fpu)
      ∷ register_insn "fsub_s" fsub_s_encoding (rv64_fsub_s host.fpu)
      ∷ register_insn "fmv_x_d" fmv_x_d_encoding (rv64_fmv_x_d host.fpu)
      ∷ register_insn "fmv_d_x" fmv_d_x_encoding (rv64_fmv_d_x host.fpu)
      ∷ register_insn "fcvt_l_d" fcvt_l_d_encoding (rv64_fcvt_l_d host.fpu)
      ∷ register_insn "fcvt_s_l" fcvt_s_l_encoding (rv64_fcvt_s_l host.fpu)
      ∷ register_insn "fcvt_s_w" fcvt_s_w_encoding (rv64_fcvt_s_w host.fpu)
      ∷ register_insn "fcvt_s_d" fcvt_s_d_encoding (rv64_fcvt_s_d host.fpu)
      ∷ register_insn "fcvt_d_s" fcvt_d_s_encoding (rv64_fcvt_d_s host.fpu)
      ∷ register_insn "fcvt_d_w" fcvt_d_w_encoding (rv64_fcvt_d_w host.fpu)
      ∷ register_insn "fcvt_d_l" fcvt_d_l_encoding (rv64_fcvt_d_l host.fpu)
      ∷ register_insn "fcvt_w_d" fcvt_w_d_encoding (rv64_fcvt_w_d host.fpu)
      ∷ register_insn "fcvt_wu_d" fcvt_wu_d_encoding (rv64_fcvt_wu_d host.fpu)
      ∷ register_insn "fsgnj_d" fsgnj_d_encoding (rv64_fsgnj_d host.fpu)
      ∷ register_insn "feq_d" feq_d_encoding (rv64_feq_d host.fpu)
      ∷ register_insn "fle_d" fle_d_encoding (rv64_fle_d host.fpu)
      ∷ register_insn "flt_d" flt_d_encoding (rv64_flt_d host.fpu)
      ∷ register_insn "fmadd_d" fmadd_d_encoding (rv64_fmadd_d host.fpu)
      ∷ []

  -- void register_instructions()
  unfoldable pub instructions : List (InsnDesc W)
  unfolding defined
  instructions = defined ++ illegal ∷ []
