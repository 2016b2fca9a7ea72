-- ===== src/Mmu/Dump.antt =====
-- mmu.cpp: `dump`, which prints the memory eight bytes to a line.
use riscv_isa_simulator.Base.{
  ℕ, zero, suc, ◌+◌, ◌≡◌, List, [], ◌∷◌, Option, none, some, ◌==◌, if◌then◌else◌, add64,
}
use riscv_isa_simulator.Mmu.StdMap.{Map, find}

-- What the calls of `printf` show: the first byte of a line with its address, a further byte, the end
-- of a line, and an address that holds nothing.
pub data Shown : Type 0 where
  first : ℕ → ℕ → Shown
  next : ℕ → Shown
  line_end : Shown
  unassigned : ℕ → Shown

-- void dump(const uint64_t &addr, const int len), with `left` bytes to go, in place `j` of the line.
unfoldable pub dump : Map → ℕ → ℕ → ℕ → List Shown
dump mem zero j cur_addr = []
dump mem (suc left) j cur_addr =
    let row = dump mem left (j + 1) (add64 cur_addr 1) in
    let new_row = dump mem left 0 (add64 cur_addr 1) in
    elim (find mem cur_addr) as (λ _. List Shown) [
      | none ↦ unassigned cur_addr ∷ []
      | some b ↦
          (if j == 0 then first cur_addr b else next b)
          ∷ (if j == 7 then line_end ∷ new_row else row)
    ]

-- The bytes that are shown, and the address that is reported.
abbrev pub bytes_shown : List Shown → List ℕ
bytes_shown [] = []
bytes_shown (first addr b ∷ rest) = b ∷ bytes_shown rest
bytes_shown (next b ∷ rest) = b ∷ bytes_shown rest
bytes_shown (line_end ∷ rest) = bytes_shown rest
bytes_shown (unassigned addr ∷ rest) = bytes_shown rest

abbrev pub reported : List Shown → Option ℕ
reported [] = none
reported (first addr b ∷ rest) = reported rest
reported (next b ∷ rest) = reported rest
reported (line_end ∷ rest) = reported rest
reported (unassigned addr ∷ rest) = some addr

-- The bytes from `addr` on.
abbrev pub Holds : Map → ℕ → List ℕ → Type 0
Holds mem addr [] = Unit
Holds mem addr (b ∷ bs) = (find mem addr ≡ some b) × Holds mem (add64 addr 1) bs

-- The address `n` bytes on.
abbrev pub behind : ℕ → ℕ → ℕ
behind addr zero = addr
behind addr (suc n) = behind (add64 addr 1) n
