-- ===== src/Func/Scall.antt =====
-- The system calls of func.h, on the calls that the host provides. `malloc` does not fail, and
-- the `int` counters of the copy loops do not overflow. The C library's `time` stores its result
-- through the pointer that the program puts in register 11: a pointer other than NULL is an address
-- of the simulator, not of the program, and is the trap `undefined`.
use riscv_isa_simulator.Base.{
  ℕ, zero, suc, ◌+◌, List, [], ◌∷◌, ◌==◌, if◌then◌else◌, negative, add64, sext32, get_or, take,
  Result, ok, trap, ◌>>=◌, undefined, exited,
}
use riscv_isa_simulator.Mmu
use riscv_isa_simulator.Mmu.{Mmu}
use riscv_isa_simulator.Cpu.{InsnFunc, Cpu, next_pc, read_reg, write_reg}
use riscv_isa_simulator.Cpu.Host.{Host}

-- The numbers RISCV_brk to RISCV_lseek.
abbrev riscv_brk : ℕ
riscv_brk = 214

abbrev riscv_write : ℕ
riscv_write = 64

abbrev riscv_read : ℕ
riscv_read = 63

abbrev riscv_time : ℕ
riscv_time = 1062

abbrev riscv_exit : ℕ
riscv_exit = 93

abbrev riscv_fstat : ℕ
riscv_fstat = 80

abbrev riscv_close : ℕ
riscv_close = 57

abbrev riscv_gettimeofday : ℕ
riscv_gettimeofday = 169

abbrev riscv_lseek : ℕ
riscv_lseek = 62

module _ {W : Type 0} (host : Host W) where
  -- `for (i = 0; i < len; i++) buf[i] = MMU.read_uint8(addr + i);`
  unfoldable pub load_buf : Mmu → ℕ → ℕ → Result (List ℕ)
  load_buf m addr zero = ok []
  load_buf m addr (suc len) = do
    b ← Mmu.read_uint8 host.end_key m addr
    rest ← load_buf m (add64 addr 1) len
    ok (b ∷ rest)

  -- `for (i = 0; i < read_num; i++) MMU.write_8(addr + i, buf[i]);` with `left` rounds to go
  unfoldable pub store_buf : List ℕ → ℕ → ℕ → ℕ → Mmu → Result Mmu
  store_buf buf addr zero i m = ok m
  store_buf buf addr (suc left) i m = do
    m' ← Mmu.write_8 host.end_key m (add64 addr i) (get_or buf i 0)
    store_buf buf addr left (i + 1) m'

  unfoldable pub sim_write : Cpu W → ℕ → ℕ → Result (Cpu W)
  unfolding load_buf
  sim_write p addr len = do
    buf ← load_buf p.mmu addr len
    let (number, world') = host.write p.world buf
    ok (write_reg (record p { world = world' }) 10 number)

  unfoldable pub sim_read : Cpu W → ℕ → ℕ → Result (Cpu W)
  unfolding store_buf
  sim_read p addr len = do
    let r = host.read p.world len
    let read_num = sext32 r.number
    let rounds = if negative read_num then 0 else read_num
    mmu' ← store_buf r.buf addr rounds 0 p.mmu
    ok (write_reg (record p { mmu = mmu'; world = r.world }) 10 read_num)

  -- `sizeof(tv)`, the size of a pointer
  unfoldable pub sim_gettimeofday : Cpu W → Result (Cpu W)
  sim_gettimeofday p = do
    let tv_addr = read_reg p 10
    let r = host.gettimeofday p.world
    let p' = write_reg (record p { world = r.world }) 10 r.number
    mmu' ← Mmu.write_bare host.end_key p'.mmu tv_addr (take 8 r.tv) 8
    ok (record p' { mmu = mmu' })

  -- The switch on the number of the call.
  unfoldable pub dispatch : Cpu W → ℕ → Result (Cpu W)
  unfolding sim_write sim_read sim_gettimeofday
  dispatch p scall_num =
      let addr = read_reg p 11 in
      let len = read_reg p 12 in
      let (now, world') = host.time p.world in
      if scall_num == riscv_write
      then sim_write p addr len
      else if scall_num == riscv_read
      then sim_read p addr len
      else if scall_num == riscv_time
      then if addr == 0 then ok (write_reg (record p { world = world' }) 10 now) else trap undefined
      else if scall_num == riscv_exit
      then trap (exited 0)
      else if scall_num == riscv_brk
      then ok p
      else if scall_num == riscv_lseek
      then ok p
      else if scall_num == riscv_fstat
      then ok (write_reg p 10 (host.fstat p.world (sext32 (read_reg p 10))))
      else if scall_num == riscv_close
      then ok p
      else if scall_num == riscv_gettimeofday
      then sim_gettimeofday p
      else trap (exited 1)

  unfoldable pub rv64_scall : InsnFunc W
  unfolding dispatch
  rv64_scall p insn pc = do p' ← dispatch p (read_reg p 17); ok (next_pc pc, p')
