-- ===== src/Mmu/Gaps.antt =====
-- `read` at an address that is not mapped.
use riscv_isa_simulator.Base.{
  ℕ, suc, ◌*◌, ◌%◌, ◌^◌, ◌≤◌, ◌≡◌, ◌≢◌, refl, ap, arith, none, false, ◌==◌, add64, ok,
}
use riscv_isa_simulator.Mmu.{Mmu, read_loop, read}
use riscv_isa_simulator.Mmu.StdMap.{Map, find}
use riscv_isa_simulator.Mmu.Access.{Stores, read_loop-Stores}

module _ (end_key : Map → ℕ) where
  -- Where the first byte is not mapped (nor the key that the end iterator shows) and the up to 8
  -- bytes above it are, an unsigned `read` returns the number of the bytes above: they take the
  -- place of the missing one, and nothing is thrown.
  pub read_skips :
      (m : Mmu) (addr n v : ℕ)
      → find m.mem addr ≡ none
      → end_key m.mem ≢ addr
      → Stores m.mem (add64 addr 1) n v
      → 8 * n ≤ 64
      → read end_key m addr false (suc n) ≡ ok (v % 2 ^ (8 * n))
  unfolding read read_loop
  read_skips m addr n v absent apart stored fits =
      let gap : (end_key m.mem == addr) ≡ false = ground arith in
      let above =
        read_loop-Stores end_key m.mem n (add64 addr 1) v 0 0 stored (omega arith) (omega arith) in
      let run : read_loop end_key m.mem (suc n) addr 0 0 ≡ ok (v % 2 ^ (8 * n)) =
        rw (absent, read_loop) (rw (gap, above) (ap ok (omega arith))) in
      rw run refl
