-- ===== src/Func/Roundtrip.antt =====
-- A store instruction followed by the load of the same width, from words of the S and I formats.
use riscv_isa_simulator.Base.{
  ℕ, ◌%◌, ◌^◌, ◌<◌, ◌≡◌, refl, ap, ◌∙◌, arith, true, false, add64, sub64, sext32, ok, Returns,
}
use riscv_isa_simulator.Structs.Encode.{IsSigned, Fixed, IsFixed, i_type, s_type}
use riscv_isa_simulator.Structs.Fields.{i_imm-i_type, s_imm-s_type}
use riscv_isa_simulator.Mmu
use riscv_isa_simulator.Mmu.{Mmu}
use riscv_isa_simulator.Mmu.StdMap.{Map}
use riscv_isa_simulator.Mmu.Access.{EndApart, word, double, extended, write_read}
use riscv_isa_simulator.Cpu.{Cpu, next_pc, read_reg, write_reg, write_rd, rs1_of, rs2_of}
use riscv_isa_simulator.Cpu.Host.{Host}
use riscv_isa_simulator.Func.Memory.{rv64_ld, rv64_sd, rv64_lw, rv64_sw}

-- Storing `len` bytes at `addr` is allowed.
pub record IsFree (end_key : Map → ℕ) (m : Mmu) (addr len : ℕ) : Type 0 where
  pub first : Mmu.ban m.forbid addr ≡ false
  pub last : Mmu.ban m.forbid (sub64 (add64 addr len) 1) ≡ false
  pub apart : EndApart end_key m.mem addr len

module _ {W : Type 0} (host : Host W) (f : Fixed) (v : IsFixed f) (imm : ℕ)
    (h : IsSigned 11 imm) where
  rv64_sd-write :
      (p : Cpu W) (pc : ℕ) (m : Mmu)
      → Mmu.write host.end_key p.mmu (add64 (read_reg p f.rs1) imm) (read_reg p f.rs2) 8 ≡ ok m
      → rv64_sd host p (s_type f imm) pc ≡ ok (next_pc pc, record p { mmu = m })
  unfolding rv64_sd Mmu.write_64 rs1_of rs2_of
  rv64_sd-write p pc m run =
      let (offset, base, reg) = s_imm-s_type f v imm h in rw (base, offset, reg, run) refl

  rv64_sw-write :
      (p : Cpu W) (pc : ℕ) (m : Mmu)
      → Mmu.write host.end_key p.mmu (add64 (read_reg p f.rs1) imm) (read_reg p f.rs2) 4 ≡ ok m
      → rv64_sw host p (s_type f imm) pc ≡ ok (next_pc pc, record p { mmu = m })
  unfolding rv64_sw Mmu.write_32 rs1_of rs2_of
  rv64_sw-write p pc m run =
      let (offset, base, reg) = s_imm-s_type f v imm h in rw (base, offset, reg, run) refl

  rv64_ld-read :
      (p : Cpu W) (pc value : ℕ)
      → Mmu.read host.end_key p.mmu (add64 (read_reg p f.rs1) imm) true 8 ≡ ok value
      → rv64_ld host p (i_type f imm) pc ≡ ok (next_pc pc, write_reg p f.rd value)
  unfolding rv64_ld Mmu.read_int64 rs1_of write_rd
  rv64_ld-read p pc value run =
      let (offset, number, base) = i_imm-i_type f v imm h in rw (base, offset, number, run) refl

  rv64_lw-read :
      (p : Cpu W) (pc value : ℕ)
      → Mmu.read host.end_key p.mmu (add64 (read_reg p f.rs1) imm) true 4 ≡ ok value
      → rv64_lw host p (i_type f imm) pc ≡ ok (next_pc pc, write_reg p f.rd value)
  unfolding rv64_lw Mmu.read_int32 rs1_of write_rd
  rv64_lw-read p pc value run =
      let (offset, number, base) = i_imm-i_type f v imm h in rw (base, offset, number, run) refl

module _ {W : Type 0} (host : Host W) (p : Cpu W) (f g : Fixed) (v : IsFixed f) (u : IsFixed g)
    (imm : ℕ) where
  -- For words of the S and I formats with the same base register and offset, at an address that may
  -- be written: `rv64_sd` returns, and `rv64_ld` in the state after it writes the stored 64-bit
  -- register to its own.
  pub sd_ld :
      (pc pc' : ℕ)
      → IsSigned 11 imm
      → g.rs1 ≡ f.rs1
      → read_reg p f.rs2 < 2 ^ 64
      → IsFree host.end_key p.mmu (add64 (read_reg p f.rs1) imm) 8
      → Returns (rv64_sd host p (s_type f imm) pc) λ r.
        rv64_ld host r.1 (i_type g imm) pc'
        ≡ ok (next_pc pc', write_reg r.1 g.rd (read_reg p f.rs2))
  unfolding read_reg
  sd_ld pc pc' h same fits free =
      let addr = add64 (read_reg p f.rs1) imm in
      let (m, run, (back, _, _, _)) =
        write_read host.end_key p.mmu addr (read_reg p f.rs2) double true (add64 addr 8)
          (omega arith) (omega arith) (omega arith) free.first free.last free.apart in
      let whole : extended true 8 (read_reg p f.rs2 % 2 ^ 64) ≡ read_reg p f.rs2 = ground arith in
      (
        (next_pc pc, record p { mmu = m }),
        rv64_sd-write host f v imm h p pc m run,
        rv64_ld-read host g u imm h (record p { mmu = m }) pc' (read_reg p f.rs2)
            (rw same (back ∙ ap ok whole)),
      )

  -- For words of the S and I formats with the same base register and offset, at an address that may
  -- be written: `rv64_sw` returns, and `rv64_lw` in the state after it writes the sign-extended low
  -- 32 bits of the stored register to its own.
  pub sw_lw :
      (pc pc' : ℕ)
      → IsSigned 11 imm
      → g.rs1 ≡ f.rs1
      → IsFree host.end_key p.mmu (add64 (read_reg p f.rs1) imm) 4
      → Returns (rv64_sw host p (s_type f imm) pc) λ r.
        rv64_lw host r.1 (i_type g imm) pc'
        ≡ ok (next_pc pc', write_reg r.1 g.rd (sext32 (read_reg p f.rs2)))
  unfolding read_reg sext32
  sw_lw pc pc' h same free =
      let addr = add64 (read_reg p f.rs1) imm in
      let (m, run, (back, _, _, _)) =
        write_read host.end_key p.mmu addr (read_reg p f.rs2) word true (add64 addr 4) (omega arith)
          (omega arith) (omega arith) free.first free.last free.apart in
      let low : extended true 4 (read_reg p f.rs2 % 2 ^ 32) ≡ sext32 (read_reg p f.rs2) =
        ground arith in
      (
        (next_pc pc, record p { mmu = m }),
        rv64_sw-write host f v imm h p pc m run,
        rv64_lw-read host g u imm h (record p { mmu = m }) pc' (sext32 (read_reg p f.rs2))
            (rw same (back ∙ ap ok low)),
      )
