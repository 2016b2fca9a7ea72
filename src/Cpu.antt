-- ===== src/Cpu.antt =====
-- cpu.h: the state of `cpu_t`, and the macros of structs.h by which an instruction reads and
-- writes it. `W` is the state of the host that system calls act on.
pub mod Host
use Prim.Native.String.{String}
use riscv_isa_simulator.Base.{
  ℕ, ◌+◌, ◌-◌, ◌^◌, true, false, List, ◌==◌, if◌then◌else◌, bit_and, add64, sext_xlen, Result, ok,
  trap, trap_instruction_address_misaligned,
}
use riscv_isa_simulator.Structs.{Insn, rd, rs1, rs2, rs3, sb_imm, uj_imm}
use riscv_isa_simulator.Structs.Regfile
use riscv_isa_simulator.Structs.Regfile.{Regfile}
use riscv_isa_simulator.Mmu.{Mmu}

-- `state_t`, the members of `cpu_t` that instructions use, `insn_count` among them, a map from the
-- name of an instruction to the number of times that it was decoded.
pub record Cpu (W : Type 0) : Type 0 where
  pub pc : ℕ
  pub xpr : Regfile
  pub fpr : Regfile
  pub fflags : ℕ
  pub frm : ℕ
  pub mmu : Mmu
  pub c_insn : Insn
  pub insn_count : List (String × ℕ)
  pub world : W

-- `insn_func_t`: the new program counter beside the new state.
abbrev pub InsnFunc : Type 0 → Type 0
InsnFunc W = Cpu W → Insn → ℕ → Result (ℕ × Cpu W)

-- `const int PC_INC = 4` of func.h
abbrev pub pc_inc : ℕ
pc_inc = 4

-- `sext_xlen(pc + PC_INC)`, with which every instruction begins
unfoldable pub next_pc : ℕ → ℕ
next_pc pc = sext_xlen (add64 pc pc_inc)

-- #define set_pc(x)
unfoldable pub set_pc : ℕ → Result ℕ
set_pc x =
    if bit_and x 2 == 0 then ok (sext_xlen x) else trap (trap_instruction_address_misaligned x)

module _ {W : Type 0} where
  unfoldable pub read_reg : Cpu W → ℕ → ℕ
  read_reg p reg = Regfile.read p.xpr reg

  unfoldable pub read_freg : Cpu W → ℕ → ℕ
  read_freg p reg = Regfile.read p.fpr reg

  unfoldable pub write_reg : Cpu W → ℕ → ℕ → Cpu W
  write_reg p reg value = record p { xpr = Regfile.write true p.xpr reg value }

  unfoldable pub write_freg : Cpu W → ℕ → ℕ → Cpu W
  write_freg p reg value = record p { fpr = Regfile.write false p.fpr reg value }

  -- RS1, RS2, FRS1, FRS2, FRS3, WRITE_RD and WRITE_FRD
  unfoldable pub rs1_of : Cpu W → Insn → ℕ
  rs1_of p insn = read_reg p (rs1 insn)

  unfoldable pub rs2_of : Cpu W → Insn → ℕ
  rs2_of p insn = read_reg p (rs2 insn)

  unfoldable pub frs1_of : Cpu W → Insn → ℕ
  frs1_of p insn = read_freg p (rs1 insn)

  unfoldable pub frs2_of : Cpu W → Insn → ℕ
  frs2_of p insn = read_freg p (rs2 insn)

  unfoldable pub frs3_of : Cpu W → Insn → ℕ
  frs3_of p insn = read_freg p (rs3 insn)

  unfoldable pub write_rd : Cpu W → Insn → ℕ → Cpu W
  write_rd p insn value = write_reg p (rd insn) value

  unfoldable pub write_frd : Cpu W → Insn → ℕ → Cpu W
  write_frd p insn value = write_freg p (rd insn) value

-- BRANCH_TARGET and JUMP_TARGET
unfoldable pub branch_target : ℕ → Insn → ℕ
branch_target pc insn = add64 pc (sb_imm insn)

unfoldable pub jump_target : ℕ → Insn → ℕ
jump_target pc insn = add64 pc (uj_imm insn)
