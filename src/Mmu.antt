-- ===== src/Mmu.antt =====
-- mmu.h and mmu.cpp: the class `mmu_t`, a memory of bytes under 64-bit addresses. A `std::map` is
-- an association list (`Map`). `read`, `write` and `write_bare` evaluate `iter->first` also when
-- `iter` is `mem.end()`; what stands there is up to the C++ library, and is the parameter
-- `end_key`. Where it equals the address, the code goes on to use the end node as an entry, which
-- is the trap `undefined`.
pub mod Dump
pub mod StdMap
pub mod Access
pub mod Fetch
pub mod Permission
pub mod Gaps
use riscv_isa_simulator.Base.{
  ℕ, zero, suc, ◌+◌, ◌-◌, ◌*◌, ◌^◌, Bool, true, false, ◌||◌, ◌&&◌, List, [], ◌∷◌, none, some,
  bit_and, bit_or, ltb, leb, ◌==◌, if◌then◌else◌, add64, sub64, shl64, shr, sext32, Result, ok,
  trap, ◌>>=◌, invalid_address, no_permission, undefined,
}
use StdMap.{Map, find, insert, assign}

-- The members that the running program uses; the ELF tables are read only while loading.
pub record Mmu : Type 0 where
  pub mem : Map
  pub forbid : Map
  pub entry : ℕ

unfoldable pub start_addr : Mmu → ℕ
start_addr m = m.entry

-- bool ban(const uint64_t &addr), a loop over `forbid`
unfoldable pub ban : Map → ℕ → Bool
ban [] addr = false
ban ((first, second) ∷ rest) addr = (leb first addr && leb addr second) || ban rest addr

-- The values that the switch on `len` gives `sign_mask` and `ext_mask`.
unfoldable pub sign_masks : ℕ → ℕ × ℕ
sign_masks len =
    if len == 1
    then (0x80, 0xFFFFFFFFFFFFFF00)
    else if len == 2
    then (0x8000, 0xFFFFFFFFFFFF0000)
    else if len == 4
    then (0x80000000, 0xFFFFFFFF00000000)
    else (0, 0)

-- `(retval & sign_mask) ? (retval | ext_mask) : retval`
unfoldable pub extend : ℕ → ℕ → ℕ
unfolding sign_masks
extend len retval =
    let masks = sign_masks len in
    if bit_and retval masks.0 == 0 then retval else bit_or retval masks.1

-- insn_bits_t load_insn(reg_t PC), at the loop's round with `n` to go. A byte is shifted as an
-- `int`, and the `int` is converted to 64 bits.
unfoldable pub load_insn_loop : Map → ℕ → ℕ → ℕ → ℕ → ℕ → Result ℕ
load_insn_loop mem pc zero cur_addr retval shift = ok retval
load_insn_loop mem pc (suc n) cur_addr retval shift = elim (find mem cur_addr) [
  | none ↦ trap (invalid_address pc cur_addr)
  | some b ↦
      load_insn_loop mem pc n (add64 cur_addr 1) (bit_or retval (sext32 (shl64 b shift)))
        (shift + 8)
]

unfoldable pub load_insn : Mmu → ℕ → Result ℕ
unfolding load_insn_loop
load_insn m pc = load_insn_loop m.mem pc 4 pc 0 0

module _ (end_key : Map → ℕ) where
  -- The loop of `read`. An address that is not mapped is passed over, and `shift` stays.
  unfoldable pub read_loop : Map → ℕ → ℕ → ℕ → ℕ → Result ℕ
  read_loop mem zero cur_addr retval shift = ok retval
  read_loop mem (suc n) cur_addr retval shift = elim (find mem cur_addr) [
    | some b ↦ read_loop mem n (add64 cur_addr 1) (bit_or retval (shl64 b shift)) (shift + 8)
    | none ↦
        let rest = read_loop mem n (add64 cur_addr 1) retval shift in
        if end_key mem == cur_addr then trap undefined else rest
  ]

  -- uint64_t read(const uint64_t addr, bool sign, const int len)
  unfoldable pub read : Mmu → ℕ → Bool → ℕ → Result ℕ
  unfolding read_loop
  read m addr sign len =
      read_loop m.mem len addr 0 0 >>= λ retval. ok (if sign then extend len retval else retval)

  -- What one round of `write` and `write_bare` does with the byte at `cur_addr`.
  unfoldable pub store : Map → ℕ → ℕ → Result Map
  store mem cur_addr byte = elim (find mem cur_addr) [
    | some _ ↦ ok (assign mem cur_addr byte)
    | none ↦ if end_key mem == cur_addr then trap undefined else ok (insert mem cur_addr byte)
  ]

  -- The loop of `write`.
  unfoldable pub write_loop : ℕ → ℕ → ℕ → Map → Result Map
  unfolding store
  write_loop zero cur_addr val mem = ok mem
  write_loop (suc n) cur_addr val mem =
      store mem cur_addr (bit_and val 0xFF) >>= write_loop n (add64 cur_addr 1) (shr val 8)

  -- void write(const uint64_t addr, uint64_t REG, const int len)
  unfoldable pub write : Mmu → ℕ → ℕ → ℕ → Result Mmu
  unfolding write_loop
  write m addr reg len =
      let last = sub64 (add64 addr len) 1 in
      if ban m.forbid addr || ban m.forbid last
      then trap (no_permission addr last)
      else (write_loop len addr reg m.mem >>= λ mem'. ok (record m { mem = mem' }))

  -- The loop of `write_bare`, over the bytes of the buffer.
  unfoldable pub write_bare_loop : List ℕ → ℕ → Map → Result Map
  unfolding store
  write_bare_loop [] cur_addr mem = ok mem
  write_bare_loop (b ∷ val) cur_addr mem =
      store mem cur_addr b >>= write_bare_loop val (add64 cur_addr 1)

  -- void write_bare(const uint64_t addr, char* val, const int len), `len` bytes at `val`
  unfoldable pub write_bare : Mmu → ℕ → List ℕ → ℕ → Result Mmu
  unfolding write_bare_loop
  write_bare m addr val len =
      let last = sub64 (add64 addr len) 1 in
      if ban m.forbid addr || ban m.forbid last
      then trap (no_permission addr last)
      else (write_bare_loop val addr m.mem >>= λ mem'. ok (record m { mem = mem' }))

  unfoldable pub write_8 : Mmu → ℕ → ℕ → Result Mmu
  write_8 m addr reg = write m addr reg 1

  unfoldable pub write_16 : Mmu → ℕ → ℕ → Result Mmu
  write_16 m addr reg = write m addr reg 2

  unfoldable pub write_32 : Mmu → ℕ → ℕ → Result Mmu
  write_32 m addr reg = write m addr reg 4

  unfoldable pub write_64 : Mmu → ℕ → ℕ → Result Mmu
  write_64 m addr reg = write m addr reg 8

  unfoldable pub read_int8 : Mmu → ℕ → Result ℕ
  read_int8 m addr = read m addr true 1

  unfoldable pub read_uint8 : Mmu → ℕ → Result ℕ
  read_uint8 m addr = read m addr false 1

  unfoldable pub read_int16 : Mmu → ℕ → Result ℕ
  read_int16 m addr = read m addr true 2

  unfoldable pub read_uint16 : Mmu → ℕ → Result ℕ
  read_uint16 m addr = read m addr false 2

  unfoldable pub read_int32 : Mmu → ℕ → Result ℕ
  read_int32 m addr = read m addr true 4

  unfoldable pub read_uint32 : Mmu → ℕ → Result ℕ
  read_uint32 m addr = read m addr false 4

  unfoldable pub read_int64 : Mmu → ℕ → Result ℕ
  read_int64 m addr = read m addr true 8

  unfoldable pub read_uint64 : Mmu → ℕ → Result ℕ
  read_uint64 m addr = read m addr false 8
