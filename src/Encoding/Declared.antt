-- ===== src/Encoding/Declared.antt =====
-- encoding.h: the list of DECLARE_INSN, each name with its match and mask.
use Prim.Native.String.{String}
use riscv_isa_simulator.Base.{List, [], ◌∷◌}
use riscv_isa_simulator.Encoding.{
  Encoding, beq_encoding, bne_encoding, blt_encoding, bge_encoding, bltu_encoding, bgeu_encoding,
  jalr_encoding, jal_encoding, lui_encoding, auipc_encoding, addi_encoding, slli_encoding,
  slti_encoding, sltiu_encoding, xori_encoding, srli_encoding, srai_encoding, ori_encoding,
  andi_encoding, add_encoding, sub_encoding, sll_encoding, slt_encoding, sltu_encoding,
  xor_encoding, srl_encoding, sra_encoding, or_encoding, and_encoding, addiw_encoding,
  slliw_encoding, srliw_encoding, sraiw_encoding, addw_encoding, subw_encoding, sllw_encoding,
  srlw_encoding, sraw_encoding, lb_encoding, lh_encoding, lw_encoding, ld_encoding, lbu_encoding,
  lhu_encoding, lwu_encoding, sb_encoding, sh_encoding, sw_encoding, sd_encoding, fence_encoding,
  mul_encoding, mulh_encoding, mulhsu_encoding, mulhu_encoding, div_encoding, divu_encoding,
  rem_encoding, remu_encoding, mulw_encoding, divw_encoding, divuw_encoding, remw_encoding,
  remuw_encoding, scall_encoding, fadd_s_encoding, fsub_s_encoding, fmul_s_encoding,
  fdiv_s_encoding, fadd_d_encoding, fsub_d_encoding, fmul_d_encoding, fdiv_d_encoding,
  fsgnj_d_encoding, fcvt_s_d_encoding, fcvt_d_s_encoding, fle_d_encoding, flt_d_encoding,
  feq_d_encoding, fcvt_w_d_encoding, fcvt_wu_d_encoding, fcvt_l_d_encoding, fmv_x_d_encoding,
  fcvt_s_w_encoding, fcvt_s_l_encoding, fmv_s_x_encoding, fcvt_d_w_encoding, fcvt_d_l_encoding,
  fmv_d_x_encoding, flw_encoding, fld_encoding, fsw_encoding, fsd_encoding, fmadd_d_encoding,
}
use riscv_isa_simulator.Encoding.Unregistered.{
  fence_i_encoding, lr_w_encoding, sc_w_encoding, lr_d_encoding, sc_d_encoding, sbreak_encoding,
  sret_encoding, sfence_vm_encoding, wfi_encoding, mrth_encoding, mrts_encoding, hrts_encoding,
  csrrw_encoding, csrrs_encoding, csrrc_encoding, csrrwi_encoding, csrrsi_encoding, csrrci_encoding,
  fsgnj_s_encoding, fsgnjn_s_encoding, fsgnjx_s_encoding, fmin_s_encoding, fmax_s_encoding,
  fsqrt_s_encoding, fsgnjn_d_encoding, fsgnjx_d_encoding, fmin_d_encoding, fmax_d_encoding,
  fsqrt_d_encoding, fle_s_encoding, flt_s_encoding, feq_s_encoding, fcvt_w_s_encoding,
  fcvt_wu_s_encoding, fcvt_l_s_encoding, fcvt_lu_s_encoding, fmv_x_s_encoding, fclass_s_encoding,
  fcvt_lu_d_encoding, fclass_d_encoding, fcvt_s_wu_encoding, fcvt_s_lu_encoding, fcvt_d_wu_encoding,
  fcvt_d_lu_encoding, fmadd_s_encoding, fmsub_s_encoding, fnmsub_s_encoding, fnmadd_s_encoding,
  fmsub_d_encoding, fnmsub_d_encoding, fnmadd_d_encoding,
}

unfoldable pub declared : List (String × Encoding)
declared =
    ("beq", beq_encoding)
    ∷ ("bne", bne_encoding)
    ∷ ("blt", blt_encoding)
    ∷ ("bge", bge_encoding)
    ∷ ("bltu", bltu_encoding)
    ∷ ("bgeu", bgeu_encoding)
    ∷ ("jalr", jalr_encoding)
    ∷ ("jal", jal_encoding)
    ∷ ("lui", lui_encoding)
    ∷ ("auipc", auipc_encoding)
    ∷ ("addi", addi_encoding)
    ∷ ("slli", slli_encoding)
    ∷ ("slti", slti_encoding)
    ∷ ("sltiu", sltiu_encoding)
    ∷ ("xori", xori_encoding)
    ∷ ("srli", srli_encoding)
    ∷ ("srai", srai_encoding)
    ∷ ("ori", ori_encoding)
    ∷ ("andi", andi_encoding)
    ∷ ("add", add_encoding)
    ∷ ("sub", sub_encoding)
    ∷ ("sll", sll_encoding)
    ∷ ("slt", slt_encoding)
    ∷ ("sltu", sltu_encoding)
    ∷ ("xor", xor_encoding)
    ∷ ("srl", srl_encoding)
    ∷ ("sra", sra_encoding)
    ∷ ("or", or_encoding)
    ∷ ("and", and_encoding)
    ∷ ("addiw", addiw_encoding)
    ∷ ("slliw", slliw_encoding)
    ∷ ("srliw", srliw_encoding)
    ∷ ("sraiw", sraiw_encoding)
    ∷ ("addw", addw_encoding)
    ∷ ("subw", subw_encoding)
    ∷ ("sllw", sllw_encoding)
    ∷ ("srlw", srlw_encoding)
    ∷ ("sraw", sraw_encoding)
    ∷ ("lb", lb_encoding)
    ∷ ("lh", lh_encoding)
    ∷ ("lw", lw_encoding)
    ∷ ("ld", ld_encoding)
    ∷ ("lbu", lbu_encoding)
    ∷ ("lhu", lhu_encoding)
    ∷ ("lwu", lwu_encoding)
    ∷ ("sb", sb_encoding)
    ∷ ("sh", sh_encoding)
    ∷ ("sw", sw_encoding)
    ∷ ("sd", sd_encoding)
    ∷ ("fence", fence_encoding)
    ∷ ("fence_i", fence_i_encoding)
    ∷ ("mul", mul_encoding)
    ∷ ("mulh", mulh_encoding)
    ∷ ("mulhsu", mulhsu_encoding)
    ∷ ("mulhu", mulhu_encoding)
    ∷ ("div", div_encoding)
    ∷ ("divu", divu_encoding)
    ∷ ("rem", rem_encoding)
    ∷ ("remu", remu_encoding)
    ∷ ("mulw", mulw_encoding)
    ∷ ("divw", divw_encoding)
    ∷ ("divuw", divuw_encoding)
    ∷ ("remw", remw_encoding)
    ∷ ("remuw", remuw_encoding)
    ∷ ("lr_w", lr_w_encoding)
    ∷ ("sc_w", sc_w_encoding)
    ∷ ("lr_d", lr_d_encoding)
    ∷ ("sc_d", sc_d_encoding)
    ∷ ("scall", scall_encoding)
    ∷ ("sbreak", sbreak_encoding)
    ∷ ("sret", sret_encoding)
    ∷ ("sfence_vm", sfence_vm_encoding)
    ∷ ("wfi", wfi_encoding)
    ∷ ("mrth", mrth_encoding)
    ∷ ("mrts", mrts_encoding)
    ∷ ("hrts", hrts_encoding)
    ∷ ("csrrw", csrrw_encoding)
    ∷ ("csrrs", csrrs_encoding)
    ∷ ("csrrc", csrrc_encoding)
    ∷ ("csrrwi", csrrwi_encoding)
    ∷ ("csrrsi", csrrsi_encoding)
    ∷ ("csrrci", csrrci_encoding)
    ∷ ("fadd_s", fadd_s_encoding)
    ∷ ("fsub_s", fsub_s_encoding)
    ∷ ("fmul_s", fmul_s_encoding)
    ∷ ("fdiv_s", fdiv_s_encoding)
    ∷ ("fsgnj_s", fsgnj_s_encoding)
    ∷ ("fsgnjn_s", fsgnjn_s_encoding)
    ∷ ("fsgnjx_s", fsgnjx_s_encoding)
    ∷ ("fmin_s", fmin_s_encoding)
    ∷ ("fmax_s", fmax_s_encoding)
    ∷ ("fsqrt_s", fsqrt_s_encoding)
    ∷ ("fadd_d", fadd_d_encoding)
    ∷ ("fsub_d", fsub_d_encoding)
    ∷ ("fmul_d", fmul_d_encoding)
    ∷ ("fdiv_d", fdiv_d_encoding)
    ∷ ("fsgnj_d", fsgnj_d_encoding)
    ∷ ("fsgnjn_d", fsgnjn_d_encoding)
    ∷ ("fsgnjx_d", fsgnjx_d_encoding)
    ∷ ("fmin_d", fmin_d_encoding)
    ∷ ("fmax_d", fmax_d_encoding)
    ∷ ("fcvt_s_d", fcvt_s_d_encoding)
    ∷ ("fcvt_d_s", fcvt_d_s_encoding)
    ∷ ("fsqrt_d", fsqrt_d_encoding)
    ∷ ("fle_s", fle_s_encoding)
    ∷ ("flt_s", flt_s_encoding)
    ∷ ("feq_s", feq_s_encoding)
    ∷ ("fle_d", fle_d_encoding)
    ∷ ("flt_d", flt_d_encoding)
    ∷ ("feq_d", feq_d_encoding)
    ∷ ("fcvt_w_s", fcvt_w_s_encoding)
    ∷ ("fcvt_wu_s", fcvt_wu_s_encoding)
    ∷ ("fcvt_l_s", fcvt_l_s_encoding)
    ∷ ("fcvt_lu_s", fcvt_lu_s_encoding)
    ∷ ("fmv_x_s", fmv_x_s_encoding)
    ∷ ("fclass_s", fclass_s_encoding)
    ∷ ("fcvt_w_d", fcvt_w_d_encoding)
    ∷ ("fcvt_wu_d", fcvt_wu_d_encoding)
    ∷ ("fcvt_l_d", fcvt_l_d_encoding)
    ∷ ("fcvt_lu_d", fcvt_lu_d_encoding)
    ∷ ("fmv_x_d", fmv_x_d_encoding)
    ∷ ("fclass_d", fclass_d_encoding)
    ∷ ("fcvt_s_w", fcvt_s_w_encoding)
    ∷ ("fcvt_s_wu", fcvt_s_wu_encoding)
    ∷ ("fcvt_s_l", fcvt_s_l_encoding)
    ∷ ("fcvt_s_lu", fcvt_s_lu_encoding)
    ∷ ("fmv_s_x", fmv_s_x_encoding)
    ∷ ("fcvt_d_w", fcvt_d_w_encoding)
    ∷ ("fcvt_d_wu", fcvt_d_wu_encoding)
    ∷ ("fcvt_d_l", fcvt_d_l_encoding)
    ∷ ("fcvt_d_lu", fcvt_d_lu_encoding)
    ∷ ("fmv_d_x", fmv_d_x_encoding)
    ∷ ("flw", flw_encoding)
    ∷ ("fld", fld_encoding)
    ∷ ("fsw", fsw_encoding)
    ∷ ("fsd", fsd_encoding)
    ∷ ("fmadd_s", fmadd_s_encoding)
    ∷ ("fmsub_s", fmsub_s_encoding)
    ∷ ("fnmsub_s", fnmsub_s_encoding)
    ∷ ("fnmadd_s", fnmadd_s_encoding)
    ∷ ("fmadd_d", fmadd_d_encoding)
    ∷ ("fmsub_d", fmsub_d_encoding)
    ∷ ("fnmsub_d", fnmsub_d_encoding)
    ∷ ("fnmadd_d", fnmadd_d_encoding)
    ∷ []
