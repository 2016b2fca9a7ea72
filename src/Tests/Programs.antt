-- ===== src/Tests/Programs.antt =====
-- The theorems on decoding and on the loop of the processor on concrete inputs.
use riscv_isa_simulator.Base.{
  ℕ, suc, ◌%◌, ◌^◌, ◌≡◌, ◌≢◌, refl, arith, inl, some, bit_and, ltb, to_nat, shl64, sext32, ok,
  Keeps, Returns, List, [], ◌∷◌, Bool, true, not, ◌&&◌, ◌==◌, All, false, ◌+◌, if◌then◌else◌, inr,
  zero, get_elem?, ◌*◌,
}
use riscv_isa_simulator.Structs.{x, rs1, rs2}
use riscv_isa_simulator.Structs.Regfile.{read}
use riscv_isa_simulator.Structs.Encode.{Fixed, IsFixed, r_type}
use riscv_isa_simulator.Cpu.{next_pc, read_reg, rs1_of, rs2_of, write_rd, Cpu}
use riscv_isa_simulator.Encoding.{addi_encoding, Encoding}
use riscv_isa_simulator.Func.Alu.{rv64_sltu}
use riscv_isa_simulator.Func.AluImm.{rv64_addi}
use riscv_isa_simulator.Func.Word.{rv64_sllw}
use riscv_isa_simulator.Step.Frame.{StepFrame}
use riscv_isa_simulator.Func.Defects.{sltu_compares_index, sllw_not_word}
use riscv_isa_simulator.Decode.{
  InsnDesc, Matches, decode_insn, defined, instructions, register_insn,
}
use riscv_isa_simulator.Decode.Unique.{In, decode_insn_total, decode_insn-Matches}
use riscv_isa_simulator.Step.{step_once, step_loop, increment, sp_init, new_cpu}
use riscv_isa_simulator.Step.Run.{run, step_loop-run, run-StepFrame}
use riscv_isa_simulator.Step.Align.{run-mod}
use riscv_isa_simulator.Step.Illegal.{step_once-illegal}
use riscv_isa_simulator.Mmu.{load_insn}
use riscv_isa_simulator.Mmu.StdMap.{find}
use riscv_isa_simulator.Mmu.Access.{Stores}
use riscv_isa_simulator.Step.Start.{new_cpu_lem}
use riscv_isa_simulator.Mmu
use riscv_isa_simulator.Tests.Machine.{memory, end_node_apart, host, cpu}
use Prim.Native.String.{String}
use riscv_isa_simulator.Encoding.Unregistered.{csrrw_encoding}
use riscv_isa_simulator.Encoding.Declared.{declared}
use riscv_isa_simulator.Decode.Declared.{Among, is_registered, decode_insn-declared}
use riscv_isa_simulator.Step.Count.{cmp, print_count}
use riscv_isa_simulator.Step.Count.Sort.{
  insertion_sort, insertion_sort-IsSort, print_count_lem, Descending,
}
use riscv_isa_simulator.Step.Count.Total.{total, run-More}

decode_insn_total_example :
    Returns
      (decode_insn (instructions host) 0xfff28293)
      λ d. Matches d 0xfff28293 × In d (instructions host)
decode_insn_total_example = decode_insn_total host 0xfff28293

decode_insn-Matches_example :
    decode_insn (instructions host) 0xfff28293 ≡ ok (register_insn "addi" addi_encoding rv64_addi)
unfolding defined
decode_insn-Matches_example =
    decode_insn-Matches host (register_insn "addi" addi_encoding rv64_addi) 0xfff28293 (inl refl)
      refl

run-StepFrame_example : Keeps (StepFrame cpu) (run host 9 cpu)
run-StepFrame_example = run-StepFrame host 9 cpu

step_loop-run_example : step_loop host (suc 9) 9 0 cpu ≡ some (run host 9 cpu)
step_loop-run_example = step_loop-run host 9 cpu (omega arith)

abbrev six : Fixed
six = record { opcode = 0x33; funct3 = 3; rd = 7; rs1 = 5; rs2 = 6 }

six-IsFixed : IsFixed six
six-IsFixed = record {
  opcode = omega arith;
  funct3 = omega arith;
  rd = omega arith;
  rs1 = omega arith;
  rs2 = omega arith;
}

sltu_compares_index_example :
    rv64_sltu cpu (r_type six 0) 0x10000
    ≡ ok (next_pc 0x10000, write_rd cpu (r_type six 0) (to_nat (ltb (rs1_of cpu (r_type six 0)) 6)))
sltu_compares_index_example = sltu_compares_index cpu 0x10000 six six-IsFixed

sllw_not_word_example :
    let shifted = rs1_of cpu (r_type six 0) * 2 ^ (rs2_of cpu (r_type six 0) % 2 ^ 6) % 2 ^ 64 in
    (rv64_sllw cpu (r_type six 0) 0x10000
      ≡ ok (next_pc 0x10000, write_rd cpu (r_type six 0) shifted))
    × (shifted ≢ sext32 (shl64 (rs1_of cpu (r_type six 0)) (rs2_of cpu (r_type six 0) % 2 ^ 5)))
unfolding rs1_of rs2_of read_reg rs1 rs2 x read sext32
sllw_not_word_example =
    sllw_not_word cpu 0x10000 (r_type six 0) (omega arith) (omega arith) (omega arith)

-- Whether no entry of the list matches.
unmatched : List (InsnDesc ℕ) → ℕ → Bool
unmatched [] insn = true
unmatched (d ∷ rest) insn = not (bit_and insn d.mask == d.match) && unmatched rest insn

unmatched-All :
    (xs : List (InsnDesc ℕ)) (insn : ℕ) → unmatched xs insn ≡ true → All (λ d. ¬ Matches d insn) xs
unfolding unmatched
unmatched-All [] insn h = tt
unmatched-All (d ∷ rest) insn h = (λ e. ground arith, unmatched-All rest insn (ground arith))

run-mod_example : Keeps (λ q. q.pc % 4 ≡ 0) (run host 9 cpu)
run-mod_example = run-mod host 9 cpu (omega arith)

-- Between two instructions.
abbrev astray : Cpu ℕ
astray = record cpu { pc = 0x10007; insn_count = ("addi", 2) ∷ ("illegal", 0) ∷ [] }

step_once-illegal_example :
    step_once host astray
    ≡ ok (record astray {
      pc = 0;
      c_insn = 0x29ce300;
      insn_count = ("addi", 2) ∷ ("illegal", 1) ∷ [];
    })
unfolding load_insn find increment unmatched defined sext32
step_once-illegal_example =
    step_once-illegal host astray 0x29ce300 (("addi", 2) ∷ ("illegal", 1) ∷ []) refl
      (unmatched-All (defined host) 0x29ce300 refl) refl

new_cpu_lem_example : Returns (new_cpu host cpu memory) λ p.
    (p.pc ≡ 0x10000)
    × (read p.xpr 2 ≡ sp_init)
    × Stores p.mmu.mem sp_init 8 0
    × (Mmu.read host.end_key p.mmu sp_init false 8 ≡ ok 0)
    × (read p.xpr 5 ≡ read cpu.xpr 5)
    × (find p.mmu.mem 0x10000 ≡ find memory.mem 0x10000)
unfolding Mmu.ban
new_cpu_lem_example =
    new_cpu_lem host cpu memory 5 0x10000 refl (omega arith) (omega arith) (omega arith) (record {
      first = refl;
      last = refl;
      apart = end_node_apart sp_init 8 (omega arith) (omega arith) (omega arith);
    })

print_count_lem_example :
    (print_count insertion_sort cpu ≡ insertion_sort cmp cpu.insn_count)
    × Descending (print_count insertion_sort cpu)
print_count_lem_example = print_count_lem insertion_sort cpu insertion_sort-IsSort

-- The most frequent first, and the greater name first where the numbers agree.
print_count_test :
    print_count insertion_sort
      (record cpu { insn_count = ("add", 3) ∷ ("addi", 3) ∷ ("bne", 4) ∷ [] })
    ≡ ("bne", 4) ∷ ("addi", 3) ∷ ("add", 3) ∷ []
unfolding print_count insertion_sort
print_count_test = refl

run-More_example : Keeps (λ q. total q.insn_count ≡ total cpu.insn_count + 9) (run host 9 cpu)
run-More_example = run-More host 9 cpu

Among-at :
    (xs : List (String × Encoding)) (i : ℕ) (x : String × Encoding)
    → get_elem? xs i ≡ some x
    → Among x xs
Among-at [] i x h = cc
Among-at (y ∷ xs) zero x h = inl (cc)
Among-at (y ∷ xs) (suc i) x h = inr (Among-at xs i x h)

-- csrrw is declared and not registered.
decode_insn-declared_example :
    Returns
      (decode_insn (instructions host) 0x30001073)
      λ d. d.name ≡ (if is_registered (defined host) "csrrw" then "csrrw" else "illegal")
unfolding declared
decode_insn-declared_example =
    decode_insn-declared host ("csrrw", csrrw_encoding) 0x30001073
      (Among-at declared 76 ("csrrw", csrrw_encoding) refl) refl
