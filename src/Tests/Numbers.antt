-- ===== src/Tests/Numbers.antt =====
-- The theorems on fields, registers, products and quotients on concrete inputs.
use riscv_isa_simulator.Base.{
  ◌-◌, ◌*◌, ◌/◌, ◌%◌, ◌^◌, ◌≡◌, arith, inl, inr, true, ◌==◌, ◌&&◌, not, if◌then◌else◌,
}
use riscv_isa_simulator.Structs.{i_imm, s_imm, sb_imm, uj_imm, rd, rs1, rs2}
use riscv_isa_simulator.Structs.Encode.{Fixed, IsFixed, i_type, s_type, b_type, j_type}
use riscv_isa_simulator.Structs.Fields.{i_imm-i_type, s_imm-s_type, sb_imm-b_type, uj_imm-j_type}
use riscv_isa_simulator.Structs.Regfile.{read, write, read-write}
use riscv_isa_simulator.Multi.{mulhu, mulh, mulhsu}
use riscv_isa_simulator.Multi.High.{signed128, mulhu_lem, mulh_lem, mulhsu_lem}
use riscv_isa_simulator.Tests.Machine.{cpu}

abbrev fields : Fixed
fields = record { opcode = 0x63; funct3 = 1; rd = 7; rs1 = 5; rs2 = 6 }

fields-IsFixed : IsFixed fields
fields-IsFixed = record {
  opcode = omega arith;
  funct3 = omega arith;
  rd = omega arith;
  rs1 = omega arith;
  rs2 = omega arith;
}

i_imm-i_type_example :
    (i_imm (i_type fields (2 ^ 64 - 1)) ≡ 2 ^ 64 - 1)
    × (rd (i_type fields (2 ^ 64 - 1)) ≡ 7)
    × (rs1 (i_type fields (2 ^ 64 - 1)) ≡ 5)
i_imm-i_type_example =
    i_imm-i_type fields fields-IsFixed (2 ^ 64 - 1) (inr (omega arith, omega arith))

s_imm-s_type_example :
    (s_imm (s_type fields (2 ^ 64 - 16)) ≡ 2 ^ 64 - 16)
    × (rs1 (s_type fields (2 ^ 64 - 16)) ≡ 5)
    × (rs2 (s_type fields (2 ^ 64 - 16)) ≡ 6)
s_imm-s_type_example =
    s_imm-s_type fields fields-IsFixed (2 ^ 64 - 16) (inr (omega arith, omega arith))

sb_imm-b_type_example :
    (sb_imm (b_type fields (2 ^ 64 - 8)) ≡ 2 ^ 64 - 8)
    × (rs1 (b_type fields (2 ^ 64 - 8)) ≡ 5)
    × (rs2 (b_type fields (2 ^ 64 - 8)) ≡ 6)
sb_imm-b_type_example =
    sb_imm-b_type fields fields-IsFixed (2 ^ 64 - 8) (inr (omega arith, omega arith)) (omega arith)

uj_imm-j_type_example :
    (uj_imm (j_type fields 0x12344) ≡ 0x12344) × (rd (j_type fields 0x12344) ≡ 7)
uj_imm-j_type_example =
    uj_imm-j_type fields fields-IsFixed 0x12344 (inl (omega arith)) (omega arith)

read-write_example :
    read (write true cpu.xpr 5 9) 0 ≡ (if 0 == 5 && not (true && 5 == 0) then 9 else read cpu.xpr 0)
read-write_example = read-write true cpu.xpr 5 0 9 (omega arith)

mulhu_lem_example : mulhu (2 ^ 64 - 1) (2 ^ 64 - 1) ≡ (2 ^ 64 - 1) * (2 ^ 64 - 1) / 2 ^ 64
mulhu_lem_example = mulhu_lem (2 ^ 64 - 1) (2 ^ 64 - 1) (omega arith) (omega arith)

mulhsu_lem_example : mulhsu (2 ^ 63) 3 ≡ signed128 (2 ^ 63) * 3 % 2 ^ 128 / 2 ^ 64
mulhsu_lem_example = mulhsu_lem (2 ^ 63) 3 (omega arith) (omega arith)

mulh_lem_example :
    mulh (2 ^ 63) (2 ^ 64 - 1) ≡ signed128 (2 ^ 63) * signed128 (2 ^ 64 - 1) % 2 ^ 128 / 2 ^ 64
mulh_lem_example = mulh_lem (2 ^ 63) (2 ^ 64 - 1) (omega arith) (omega arith)
