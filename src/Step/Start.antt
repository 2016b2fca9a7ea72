-- ===== src/Step/Start.antt =====
-- The processor that the constructor of `cpu_t` makes.
use riscv_isa_simulator.Base.{
  ℕ, ◌^◌, ◌≤◌, ◌<◌, ◌≡◌, ◌≢◌, refl, arith, true, false, length, ok, Returns,
}
use riscv_isa_simulator.Structs.Regfile
use riscv_isa_simulator.Structs.Regfile.{read-write}
use riscv_isa_simulator.Mmu
use riscv_isa_simulator.Mmu.{Mmu}
use riscv_isa_simulator.Mmu.StdMap.{find}
use riscv_isa_simulator.Mmu.Access.{Stores, double, offset, read_stored, write-Stores}
use riscv_isa_simulator.Cpu.{Cpu}
use riscv_isa_simulator.Cpu.Host.{Host}
use riscv_isa_simulator.Func.Roundtrip.{IsFree}
use riscv_isa_simulator.Step.{sp_init, no_counts, new_cpu}

module _ {W : Type 0} (host : Host W) where
  -- Where the loaded program does not forbid the top of the stack, and the register file has 32
  -- entries, the constructor returns a processor at the entry point, with the stack pointer in
  -- register 2, eight bytes of 0 stored from that address on, which `read` gives back as 0, the
  -- other registers as they were, and every byte outside the eight as it was loaded. The end
  -- iterator's key, while the bytes are added to the memory, is no address of the eight.
  pub new_cpu_lem :
      (raw : Cpu W) (m : Mmu) (i a : ℕ)
      → length raw.xpr ≡ 32
      → i ≢ 2
      → a < 2 ^ 64
      → 8 ≤ offset sp_init a
      → IsFree host.end_key m sp_init 8
      → Returns (new_cpu host raw m) λ p.
        (p.pc ≡ m.entry)
        × (Regfile.read p.xpr 2 ≡ sp_init)
        × Stores p.mmu.mem sp_init 8 0
        × (Mmu.read host.end_key p.mmu sp_init false 8 ≡ ok 0)
        × (Regfile.read p.xpr i ≡ Regfile.read raw.xpr i)
        × (find p.mmu.mem a ≡ find m.mem a)
  unfolding new_cpu Mmu.write_64 Mmu.start_addr
  new_cpu_lem raw m i a size other fits outside free =
      let (m', run, (stored, kept, _, _)) =
        write-Stores host.end_key m sp_init 0 double (omega arith) free.first free.last
          free.apart in
      (
        record raw {
          pc = m.entry;
          xpr = Regfile.write true raw.xpr 2 sp_init;
          mmu = m';
          insn_count = no_counts host;
        },
        rw run refl,
        (
          refl,
          ground (arith, read-write true raw.xpr 2 2 sp_init),
          stored,
          read_stored host.end_key m' sp_init 0 double false stored,
          ground (arith, read-write true raw.xpr 2 i sp_init),
          kept a fits outside,
        ),
      )
