-- ===== src/Encoding.antt =====
-- encoding.h: the bits `match` that an instruction has under the bits of `mask`, for each
-- instruction that insn_list.h registers.
pub mod Unregistered
pub mod Declared
use riscv_isa_simulator.Base.{ℕ}

pub record Encoding : Type 0 where
  pub match : ℕ
  pub mask : ℕ

abbrev pub addi_encoding : Encoding
addi_encoding = record { match = 0x13; mask = 0x707f }

abbrev pub lw_encoding : Encoding
lw_encoding = record { match = 0x2003; mask = 0x707f }

abbrev pub ld_encoding : Encoding
ld_encoding = record { match = 0x3003; mask = 0x707f }

abbrev pub sw_encoding : Encoding
sw_encoding = record { match = 0x2023; mask = 0x707f }

abbrev pub sd_encoding : Encoding
sd_encoding = record { match = 0x3023; mask = 0x707f }

abbrev pub jal_encoding : Encoding
jal_encoding = record { match = 0x6f; mask = 0x7f }

abbrev pub bne_encoding : Encoding
bne_encoding = record { match = 0x1063; mask = 0x707f }

abbrev pub add_encoding : Encoding
add_encoding = record { match = 0x33; mask = 0xfe00707f }

abbrev pub addiw_encoding : Encoding
addiw_encoding = record { match = 0x1b; mask = 0x707f }

abbrev pub lui_encoding : Encoding
lui_encoding = record { match = 0x37; mask = 0x7f }

abbrev pub sub_encoding : Encoding
sub_encoding = record { match = 0x40000033; mask = 0xfe00707f }

abbrev pub sll_encoding : Encoding
sll_encoding = record { match = 0x1033; mask = 0xfe00707f }

abbrev pub slt_encoding : Encoding
slt_encoding = record { match = 0x2033; mask = 0xfe00707f }

abbrev pub sltu_encoding : Encoding
sltu_encoding = record { match = 0x3033; mask = 0xfe00707f }

abbrev pub xor_encoding : Encoding
xor_encoding = record { match = 0x4033; mask = 0xfe00707f }

abbrev pub srl_encoding : Encoding
srl_encoding = record { match = 0x5033; mask = 0xfe00707f }

abbrev pub sra_encoding : Encoding
sra_encoding = record { match = 0x40005033; mask = 0xfe00707f }

abbrev pub or_encoding : Encoding
or_encoding = record { match = 0x6033; mask = 0xfe00707f }

abbrev pub and_encoding : Encoding
and_encoding = record { match = 0x7033; mask = 0xfe00707f }

abbrev pub slli_encoding : Encoding
slli_encoding = record { match = 0x1013; mask = 0xfc00707f }

abbrev pub slti_encoding : Encoding
slti_encoding = record { match = 0x2013; mask = 0x707f }

abbrev pub sltiu_encoding : Encoding
sltiu_encoding = record { match = 0x3013; mask = 0x707f }

abbrev pub xori_encoding : Encoding
xori_encoding = record { match = 0x4013; mask = 0x707f }

abbrev pub srli_encoding : Encoding
srli_encoding = record { match = 0x5013; mask = 0xfc00707f }

abbrev pub srai_encoding : Encoding
srai_encoding = record { match = 0x40005013; mask = 0xfc00707f }

abbrev pub ori_encoding : Encoding
ori_encoding = record { match = 0x6013; mask = 0x707f }

abbrev pub andi_encoding : Encoding
andi_encoding = record { match = 0x7013; mask = 0x707f }

abbrev pub beq_encoding : Encoding
beq_encoding = record { match = 0x63; mask = 0x707f }

abbrev pub blt_encoding : Encoding
blt_encoding = record { match = 0x4063; mask = 0x707f }

abbrev pub bge_encoding : Encoding
bge_encoding = record { match = 0x5063; mask = 0x707f }

abbrev pub bltu_encoding : Encoding
bltu_encoding = record { match = 0x6063; mask = 0x707f }

abbrev pub bgeu_encoding : Encoding
bgeu_encoding = record { match = 0x7063; mask = 0x707f }

abbrev pub lb_encoding : Encoding
lb_encoding = record { match = 0x3; mask = 0x707f }

abbrev pub lh_encoding : Encoding
lh_encoding = record { match = 0x1003; mask = 0x707f }

abbrev pub lbu_encoding : Encoding
lbu_encoding = record { match = 0x4003; mask = 0x707f }

abbrev pub lhu_encoding : Encoding
lhu_encoding = record { match = 0x5003; mask = 0x707f }

abbrev pub lwu_encoding : Encoding
lwu_encoding = record { match = 0x6003; mask = 0x707f }

abbrev pub sb_encoding : Encoding
sb_encoding = record { match = 0x23; mask = 0x707f }

abbrev pub sh_encoding : Encoding
sh_encoding = record { match = 0x1023; mask = 0x707f }

abbrev pub jalr_encoding : Encoding
jalr_encoding = record { match = 0x67; mask = 0x707f }

abbrev pub auipc_encoding : Encoding
auipc_encoding = record { match = 0x17; mask = 0x7f }

abbrev pub addw_encoding : Encoding
addw_encoding = record { match = 0x3b; mask = 0xfe00707f }

abbrev pub subw_encoding : Encoding
subw_encoding = record { match = 0x4000003b; mask = 0xfe00707f }

abbrev pub sllw_encoding : Encoding
sllw_encoding = record { match = 0x103b; mask = 0xfe00707f }

abbrev pub srlw_encoding : Encoding
srlw_encoding = record { match = 0x503b; mask = 0xfe00707f }

abbrev pub sraw_encoding : Encoding
sraw_encoding = record { match = 0x4000503b; mask = 0xfe00707f }

abbrev pub slliw_encoding : Encoding
slliw_encoding = record { match = 0x101b; mask = 0xfe00707f }

abbrev pub srliw_encoding : Encoding
srliw_encoding = record { match = 0x501b; mask = 0xfe00707f }

abbrev pub sraiw_encoding : Encoding
sraiw_encoding = record { match = 0x4000501b; mask = 0xfe00707f }

abbrev pub mul_encoding : Encoding
mul_encoding = record { match = 0x2000033; mask = 0xfe00707f }

abbrev pub mulw_encoding : Encoding
mulw_encoding = record { match = 0x200003b; mask = 0xfe00707f }

abbrev pub mulh_encoding : Encoding
mulh_encoding = record { match = 0x2001033; mask = 0xfe00707f }

abbrev pub mulhu_encoding : Encoding
mulhu_encoding = record { match = 0x2003033; mask = 0xfe00707f }

abbrev pub mulhsu_encoding : Encoding
mulhsu_encoding = record { match = 0x2002033; mask = 0xfe00707f }

abbrev pub div_encoding : Encoding
div_encoding = record { match = 0x2004033; mask = 0xfe00707f }

abbrev pub divu_encoding : Encoding
divu_encoding = record { match = 0x2005033; mask = 0xfe00707f }

abbrev pub divw_encoding : Encoding
divw_encoding = record { match = 0x200403b; mask = 0xfe00707f }

abbrev pub divuw_encoding : Encoding
divuw_encoding = record { match = 0x200503b; mask = 0xfe00707f }

abbrev pub rem_encoding : Encoding
rem_encoding = record { match = 0x2006033; mask = 0xfe00707f }

abbrev pub remu_encoding : Encoding
remu_encoding = record { match = 0x2007033; mask = 0xfe00707f }

abbrev pub remw_encoding : Encoding
remw_encoding = record { match = 0x200603b; mask = 0xfe00707f }

abbrev pub remuw_encoding : Encoding
remuw_encoding = record { match = 0x200703b; mask = 0xfe00707f }

abbrev pub scall_encoding : Encoding
scall_encoding = record { match = 0x73; mask = 0xffffffff }

abbrev pub fence_encoding : Encoding
fence_encoding = record { match = 0xf; mask = 0x707f }

abbrev pub fld_encoding : Encoding
fld_encoding = record { match = 0x3007; mask = 0x707f }

abbrev pub flw_encoding : Encoding
flw_encoding = record { match = 0x2007; mask = 0x707f }

abbrev pub fsd_encoding : Encoding
fsd_encoding = record { match = 0x3027; mask = 0x707f }

abbrev pub fsw_encoding : Encoding
fsw_encoding = record { match = 0x2027; mask = 0x707f }

abbrev pub fmv_s_x_encoding : Encoding
fmv_s_x_encoding = record { match = 0xf0000053; mask = 0xfff0707f }

abbrev pub fmul_d_encoding : Encoding
fmul_d_encoding = record { match = 0x12000053; mask = 0xfe00007f }

abbrev pub fdiv_d_encoding : Encoding
fdiv_d_encoding = record { match = 0x1a000053; mask = 0xfe00007f }

abbrev pub fmul_s_encoding : Encoding
fmul_s_encoding = record { match = 0x10000053; mask = 0xfe00007f }

abbrev pub fdiv_s_encoding : Encoding
fdiv_s_encoding = record { match = 0x18000053; mask = 0xfe00007f }

abbrev pub fadd_d_encoding : Encoding
fadd_d_encoding = record { match = 0x2000053; mask = 0xfe00007f }

abbrev pub fsub_d_encoding : Encoding
fsub_d_encoding = record { match = 0xa000053; mask = 0xfe00007f }

abbrev pub fadd_s_encoding : Encoding
fadd_s_encoding = record { match = 0x53; mask = 0xfe00007f }

abbrev pub fsub_s_encoding : Encoding
fsub_s_encoding = record { match = 0x8000053; mask = 0xfe00007f }

abbrev pub fmv_x_d_encoding : Encoding
fmv_x_d_encoding = record { match = 0xe2000053; mask = 0xfff0707f }

abbrev pub fmv_d_x_encoding : Encoding
fmv_d_x_encoding = record { match = 0xf2000053; mask = 0xfff0707f }

abbrev pub fcvt_l_d_encoding : Encoding
fcvt_l_d_encoding = record { match = 0xc2200053; mask = 0xfff0007f }

abbrev pub fcvt_s_l_encoding : Encoding
fcvt_s_l_encoding = record { match = 0xd0200053; mask = 0xfff0007f }

abbrev pub fcvt_s_w_encoding : Encoding
fcvt_s_w_encoding = record { match = 0xd0000053; mask = 0xfff0007f }

abbrev pub fcvt_s_d_encoding : Encoding
fcvt_s_d_encoding = record { match = 0x40100053; mask = 0xfff0007f }

abbrev pub fcvt_d_s_encoding : Encoding
fcvt_d_s_encoding = record { match = 0x42000053; mask = 0xfff0007f }

abbrev pub fcvt_d_w_encoding : Encoding
fcvt_d_w_encoding = record { match = 0xd2000053; mask = 0xfff0007f }

abbrev pub fcvt_d_l_encoding : Encoding
fcvt_d_l_encoding = record { match = 0xd2200053; mask = 0xfff0007f }

abbrev pub fcvt_w_d_encoding : Encoding
fcvt_w_d_encoding = record { match = 0xc2000053; mask = 0xfff0007f }

abbrev pub fcvt_wu_d_encoding : Encoding
fcvt_wu_d_encoding = record { match = 0xc2100053; mask = 0xfff0007f }

abbrev pub fsgnj_d_encoding : Encoding
fsgnj_d_encoding = record { match = 0x22000053; mask = 0xfe00707f }

abbrev pub feq_d_encoding : Encoding
feq_d_encoding = record { match = 0xa2002053; mask = 0xfe00707f }

abbrev pub fle_d_encoding : Encoding
fle_d_encoding = record { match = 0xa2000053; mask = 0xfe00707f }

abbrev pub flt_d_encoding : Encoding
flt_d_encoding = record { match = 0xa2001053; mask = 0xfe00707f }

abbrev pub fmadd_d_encoding : Encoding
fmadd_d_encoding = record { match = 0x2000043; mask = 0x600007f }
