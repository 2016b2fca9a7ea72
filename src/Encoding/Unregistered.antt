-- ===== src/Encoding/Unregistered.antt =====
-- encoding.h: the instructions that it defines and insn_list.h does not register.
use riscv_isa_simulator.Encoding.{Encoding}

abbrev pub fence_i_encoding : Encoding
fence_i_encoding = record { match = 0x100f; mask = 0x707f }

abbrev pub lr_w_encoding : Encoding
lr_w_encoding = record { match = 0x1000202f; mask = 0xf9f0707f }

abbrev pub sc_w_encoding : Encoding
sc_w_encoding = record { match = 0x1800202f; mask = 0xf800707f }

abbrev pub lr_d_encoding : Encoding
lr_d_encoding = record { match = 0x1000302f; mask = 0xf9f0707f }

abbrev pub sc_d_encoding : Encoding
sc_d_encoding = record { match = 0x1800302f; mask = 0xf800707f }

abbrev pub sbreak_encoding : Encoding
sbreak_encoding = record { match = 0x100073; mask = 0xffffffff }

abbrev pub sret_encoding : Encoding
sret_encoding = record { match = 0x10000073; mask = 0xffffffff }

abbrev pub sfence_vm_encoding : Encoding
sfence_vm_encoding = record { match = 0x10100073; mask = 0xfff07fff }

abbrev pub wfi_encoding : Encoding
wfi_encoding = record { match = 0x10200073; mask = 0xffffffff }

abbrev pub mrth_encoding : Encoding
mrth_encoding = record { match = 0x30600073; mask = 0xffffffff }

abbrev pub mrts_encoding : Encoding
mrts_encoding = record { match = 0x30500073; mask = 0xffffffff }

abbrev pub hrts_encoding : Encoding
hrts_encoding = record { match = 0x20500073; mask = 0xffffffff }

abbrev pub csrrw_encoding : Encoding
csrrw_encoding = record { match = 0x1073; mask = 0x707f }

abbrev pub csrrs_encoding : Encoding
csrrs_encoding = record { match = 0x2073; mask = 0x707f }

abbrev pub csrrc_encoding : Encoding
csrrc_encoding = record { match = 0x3073; mask = 0x707f }

abbrev pub csrrwi_encoding : Encoding
csrrwi_encoding = record { match = 0x5073; mask = 0x707f }

abbrev pub csrrsi_encoding : Encoding
csrrsi_encoding = record { match = 0x6073; mask = 0x707f }

abbrev pub csrrci_encoding : Encoding
csrrci_encoding = record { match = 0x7073; mask = 0x707f }

abbrev pub fsgnj_s_encoding : Encoding
fsgnj_s_encoding = record { match = 0x20000053; mask = 0xfe00707f }

abbrev pub fsgnjn_s_encoding : Encoding
fsgnjn_s_encoding = record { match = 0x20001053; mask = 0xfe00707f }

abbrev pub fsgnjx_s_encoding : Encoding
fsgnjx_s_encoding = record { match = 0x20002053; mask = 0xfe00707f }

abbrev pub fmin_s_encoding : Encoding
fmin_s_encoding = record { match = 0x28000053; mask = 0xfe00707f }

abbrev pub fmax_s_encoding : Encoding
fmax_s_encoding = record { match = 0x28001053; mask = 0xfe00707f }

abbrev pub fsqrt_s_encoding : Encoding
fsqrt_s_encoding = record { match = 0x58000053; mask = 0xfff0007f }

abbrev pub fsgnjn_d_encoding : Encoding
fsgnjn_d_encoding = record { match = 0x22001053; mask = 0xfe00707f }

abbrev pub fsgnjx_d_encoding : Encoding
fsgnjx_d_encoding = record { match = 0x22002053; mask = 0xfe00707f }

abbrev pub fmin_d_encoding : Encoding
fmin_d_encoding = record { match = 0x2a000053; mask = 0xfe00707f }

abbrev pub fmax_d_encoding : Encoding
fmax_d_encoding = record { match = 0x2a001053; mask = 0xfe00707f }

abbrev pub fsqrt_d_encoding : Encoding
fsqrt_d_encoding = record { match = 0x5a000053; mask = 0xfff0007f }

abbrev pub fle_s_encoding : Encoding
fle_s_encoding = record { match = 0xa0000053; mask = 0xfe00707f }

abbrev pub flt_s_encoding : Encoding
flt_s_encoding = record { match = 0xa0001053; mask = 0xfe00707f }

abbrev pub feq_s_encoding : Encoding
feq_s_encoding = record { match = 0xa0002053; mask = 0xfe00707f }

abbrev pub fcvt_w_s_encoding : Encoding
fcvt_w_s_encoding = record { match = 0xc0000053; mask = 0xfff0007f }

abbrev pub fcvt_wu_s_encoding : Encoding
fcvt_wu_s_encoding = record { match = 0xc0100053; mask = 0xfff0007f }

abbrev pub fcvt_l_s_encoding : Encoding
fcvt_l_s_encoding = record { match = 0xc0200053; mask = 0xfff0007f }

abbrev pub fcvt_lu_s_encoding : Encoding
fcvt_lu_s_encoding = record { match = 0xc0300053; mask = 0xfff0007f }

abbrev pub fmv_x_s_encoding : Encoding
fmv_x_s_encoding = record { match = 0xe0000053; mask = 0xfff0707f }

abbrev pub fclass_s_encoding : Encoding
fclass_s_encoding = record { match = 0xe0001053; mask = 0xfff0707f }

abbrev pub fcvt_lu_d_encoding : Encoding
fcvt_lu_d_encoding = record { match = 0xc2300053; mask = 0xfff0007f }

abbrev pub fclass_d_encoding : Encoding
fclass_d_encoding = record { match = 0xe2001053; mask = 0xfff0707f }

abbrev pub fcvt_s_wu_encoding : Encoding
fcvt_s_wu_encoding = record { match = 0xd0100053; mask = 0xfff0007f }

abbrev pub fcvt_s_lu_encoding : Encoding
fcvt_s_lu_encoding = record { match = 0xd0300053; mask = 0xfff0007f }

abbrev pub fcvt_d_wu_encoding : Encoding
fcvt_d_wu_encoding = record { match = 0xd2100053; mask = 0xfff0007f }

abbrev pub fcvt_d_lu_encoding : Encoding
fcvt_d_lu_encoding = record { match = 0xd2300053; mask = 0xfff0007f }

abbrev pub fmadd_s_encoding : Encoding
fmadd_s_encoding = record { match = 0x43; mask = 0x600007f }

abbrev pub fmsub_s_encoding : Encoding
fmsub_s_encoding = record { match = 0x47; mask = 0x600007f }

abbrev pub fnmsub_s_encoding : Encoding
fnmsub_s_encoding = record { match = 0x4b; mask = 0x600007f }

abbrev pub fnmadd_s_encoding : Encoding
fnmadd_s_encoding = record { match = 0x4f; mask = 0x600007f }

abbrev pub fmsub_d_encoding : Encoding
fmsub_d_encoding = record { match = 0x2000047; mask = 0x600007f }

abbrev pub fnmsub_d_encoding : Encoding
fnmsub_d_encoding = record { match = 0x200004b; mask = 0x600007f }

abbrev pub fnmadd_d_encoding : Encoding
fnmadd_d_encoding = record { match = 0x200004f; mask = 0x600007f }
