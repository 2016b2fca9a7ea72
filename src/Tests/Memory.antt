-- ===== src/Tests/Memory.antt =====
-- The theorems on the memory on concrete inputs.
use riscv_isa_simulator.Base.{
  ◌+◌, ◌%◌, ◌^◌, ◌≡◌, refl, arith, inl, true, add64, sub64, sext32, ok, trap, Returns, Keeps,
  invalid_address, no_permission, ℕ, List, [], ◌∷◌, false, suc, ◌*◌,
}
use riscv_isa_simulator.Mmu.{ban, load_insn, read, write}
use riscv_isa_simulator.Mmu.StdMap.{find}
use riscv_isa_simulator.Mmu.Access.{word, extended, write_read}
use riscv_isa_simulator.Mmu.Fetch.{load_insn-Stores, load_insn-unmapped}
use riscv_isa_simulator.Mmu.Permission.{write_protects, write_refused}
use riscv_isa_simulator.Mmu.Gaps.{read_skips}
use riscv_isa_simulator.Tests.Machine.{host, memory, end_node_apart}

write_read_example : Returns (write host.end_key memory 0x20000 0x180000001 4) λ m'.
    (read host.end_key m' 0x20000 true 4 ≡ ok (extended true 4 (0x180000001 % 2 ^ 32)))
    × (find m'.mem 0x10000 ≡ find memory.mem 0x10000)
    × (m'.forbid ≡ memory.forbid)
    × (m'.entry ≡ memory.entry)
unfolding ban
write_read_example =
    write_read host.end_key memory 0x20000 0x180000001 word true 0x10000 (omega arith) (omega arith)
      (omega arith) refl refl (end_node_apart 0x20000 4 (omega arith) (omega arith) (omega arith))

load_insn-Stores_example : load_insn memory 0x10000 ≡ ok (sext32 0xfff28293)
unfolding find
load_insn-Stores_example =
    load_insn-Stores memory 0x10000 0xfff28293 (omega arith) (refl, (refl, (refl, (refl, tt))))

load_insn-unmapped_example :
    load_insn memory 0x1000a ≡ trap (invalid_address 0x1000a ((0x1000a + 2) % 2 ^ 64))
unfolding find
load_insn-unmapped_example =
    load_insn-unmapped memory 0x1000a 2 0xfe02 (omega arith) (omega arith) (refl, (refl, tt)) refl

write_protects_example :
    Keeps
      (λ m'. find m'.mem 0x10004 ≡ find memory.mem 0x10004)
      (write host.end_key memory 0xfffe 7 8)
write_protects_example =
    write_protects host.end_key memory 0x10000 0x1000b 0xfffe 7 8 0x10004 (inl (refl, refl))
      (omega arith) (omega arith) (omega arith) (omega arith) (omega arith) (omega arith)
      (omega arith)

write_refused_example :
    write host.end_key memory 0x10004 7 8 ≡ trap (no_permission 0x10004 (sub64 (add64 0x10004 8) 1))
write_refused_example =
    write_refused host.end_key memory 0x10004 7 8 (inl (inl (omega arith, omega arith)))

read_skips_example : read host.end_key memory 0xffff false (suc 3) ≡ ok (0xf28293 % 2 ^ (8 * 3))
unfolding find
read_skips_example =
    read_skips host.end_key memory 0xffff 3 0xf28293 refl (omega arith) (refl, (refl, (refl, tt)))
      (omega arith)

abbrev two : List ℕ
two = 7 ∷ 8 ∷ []
