-- ===== src/Tests/Instructions.antt =====
-- The theorems on single instructions on concrete inputs.
use riscv_isa_simulator.Base.{
  ℕ, ◌+◌, ◌-◌, ◌%◌, ◌^◌, ◌≡◌, refl, arith, inl, inr, true, ◌==◌, if◌then◌else◌, ok, trap, Returns,
  trap_instruction_address_misaligned,
}
use riscv_isa_simulator.Mmu.{ban}
use riscv_isa_simulator.Func.Integer.Immediate.{shift, slliw, amount_of, Shifted, shift_lem}
use riscv_isa_simulator.Structs.{shamt, x, rs1, rs2}
use riscv_isa_simulator.Structs.Regfile.{read}
use riscv_isa_simulator.Structs.Encode.{Fixed, IsFixed, i_type, s_type, b_type, j_type}
use riscv_isa_simulator.Cpu.{next_pc, read_reg, write_reg, rs1_of, rs2_of, write_rd}
use riscv_isa_simulator.Func.Integer.{Gives, perform, operand, sraw}
use riscv_isa_simulator.Func.Integer.Law.{integer_lem}
use riscv_isa_simulator.Func.Branch.{branch, rv64_jal}
use riscv_isa_simulator.Func.Memory.{rv64_ld, rv64_sd}
use riscv_isa_simulator.Func.Control.{branch_lem, rv64_jal_lem}
use riscv_isa_simulator.Func.Roundtrip.{sd_ld}
use riscv_isa_simulator.Tests.Machine.{host, end_node_apart, cpu}

abbrev stored : Fixed
stored = record { opcode = 0x23; funct3 = 3; rd = 7; rs1 = 5; rs2 = 6 }

stored-IsFixed : IsFixed stored
stored-IsFixed = record {
  opcode = omega arith;
  funct3 = omega arith;
  rd = omega arith;
  rs1 = omega arith;
  rs2 = omega arith;
}

branch_lem_example : branch true cpu (b_type stored (2 ^ 64 - 6)) 0x10008 ≡ (
    if true
    then (if (2 ^ 64 - 6) % 4 == 0
        then ok ((0x10008 + (2 ^ 64 - 6)) % 2 ^ 64, cpu)
        else trap (trap_instruction_address_misaligned ((0x10008 + (2 ^ 64 - 6)) % 2 ^ 64)))
    else ok ((0x10008 + 4) % 2 ^ 64, cpu))
branch_lem_example =
    branch_lem cpu 0x10008 stored stored-IsFixed (2 ^ 64 - 6) true (omega arith)
      (inr (omega arith, omega arith)) (omega arith)

rv64_jal_lem_example : rv64_jal cpu (j_type stored 0x1000) 0x10008 ≡ (
    if 0x1000 % 4 == 0
    then ok ((0x10008 + 0x1000) % 2 ^ 64, write_reg cpu 7 ((0x10008 + 4) % 2 ^ 64))
    else trap (trap_instruction_address_misaligned ((0x10008 + 0x1000) % 2 ^ 64)))
rv64_jal_lem_example =
    rv64_jal_lem cpu 0x10008 stored stored-IsFixed 0x1000 (omega arith) (inl (omega arith))
      (omega arith)

sd_ld_example : Returns (rv64_sd host cpu (s_type stored 1000) 0x10000) λ r.
    rv64_ld host r.1 (i_type stored 1000) 0x10004
    ≡ ok (next_pc 0x10004, write_reg r.1 7 (read_reg cpu 6))
unfolding read_reg read ban
sd_ld_example =
    sd_ld host cpu stored stored stored-IsFixed stored-IsFixed 1000 0x10000 0x10004
      (inl (omega arith)) refl (omega arith)
      (record {
        first = refl;
        last = refl;
        apart = end_node_apart 1003 8 (omega arith) (omega arith) (omega arith);
      })

integer_lem_example :
    (r : ℕ) × (perform sraw cpu 0x4062d3bb 0x10000
      ≡ ok (next_pc 0x10000, write_rd cpu 0x4062d3bb r))
    × Gives sraw (rs1_of cpu 0x4062d3bb) (operand sraw cpu 0x4062d3bb) r
unfolding rs1_of rs2_of read_reg read x rs1 rs2
integer_lem_example = integer_lem sraw cpu 0x4062d3bb 0x10000 (omega arith) (omega arith)

-- slliw x7, x6, 31
shift_lem_example :
    (r : ℕ) × (shift slliw cpu 0x1f3139b 0x10000 ≡ ok (next_pc 0x10000, write_rd cpu 0x1f3139b r))
    × (shamt 0x1f3139b ≡ amount_of slliw 0x1f3139b)
    × Shifted slliw (rs1_of cpu 0x1f3139b) (amount_of slliw 0x1f3139b) r
unfolding rs1_of read_reg read x rs1
shift_lem_example = shift_lem cpu 0x1f3139b 0x10000 slliw (omega arith) (omega arith) refl
