-- ===== src/Func/ScallFrame.antt =====
-- System calls are framed too: they write register 10 and the memory.
use riscv_isa_simulator.Base.{
  ℕ, zero, suc, refl, ◌∙◌, List, ◌==◌, if◌then◌else◌, negative, sext32, get_or, take, ◌+◌, add64,
  Result, ok, trap, undefined, exited, Keeps, Keeps-bind, Keeps-then, Keeps-weaken,
}
use riscv_isa_simulator.Structs.Regfile.{if_either}
use riscv_isa_simulator.Mmu
use riscv_isa_simulator.Mmu.{Mmu}
use riscv_isa_simulator.Cpu.{Cpu, next_pc, read_reg, write_reg}
use riscv_isa_simulator.Cpu.Host.{Host}
use riscv_isa_simulator.Func.Frame.{
  Frame, IsFramed, Frame-refl, write_reg-Frame, SameMmu, write-SameMmu, write_bare-SameMmu,
}
use riscv_isa_simulator.Func.Scall.{
  load_buf, store_buf, sim_write, sim_read, sim_gettimeofday, dispatch, rv64_scall,
}

module _ {W : Type 0} (host : Host W) where
  store_buf-SameMmu :
      (buf : List ℕ) (addr left i : ℕ) (m : Mmu)
      → Keeps (SameMmu m) (store_buf host buf addr left i m)
  unfolding store_buf
  store_buf-SameMmu buf addr zero i m = (refl, refl)
  store_buf-SameMmu buf addr (suc left) i m =
      Keeps-bind (SameMmu m) (SameMmu m)
        (Mmu.write_8 host.end_key m (add64 addr i) (get_or buf i 0))
        (store_buf host buf addr left (i + 1))
        (unfold Mmu.write_8 in write-SameMmu host.end_key m (add64 addr i) (get_or buf i 0) 1)
        (λ m' h.
          Keeps-weaken (SameMmu m') (SameMmu m) (store_buf host buf addr left (i + 1) m')
            (λ m'' k. (k.0 ∙ h.0, k.1 ∙ h.1)) (store_buf-SameMmu buf addr left (i + 1) m'))

  -- A new memory with the same blocks, a new host state, and a result in register 10.
  result-IsFramed :
      (p : Cpu W) (m : Mmu) (w : W) (v : ℕ)
      → SameMmu p.mmu m
      → Frame p (write_reg (record p { mmu = m; world = w }) 10 v)
  result-IsFramed p m w v h =
      let f = write_reg-Frame (record p { mmu = m; world = w }) 10 v in
      record {
        zero_reg = f.zero_reg;
        xpr_size = f.xpr_size;
        fpr_size = f.fpr_size;
        forbid = f.forbid ∙ h.0;
        entry = f.entry ∙ h.1;
        fflags = f.fflags;
        frm = f.frm;
        insn_count = f.insn_count;
      }

  sim_write-IsFramed : (p : Cpu W) (addr len : ℕ) → Keeps (Frame p) (sim_write host p addr len)
  unfolding sim_write
  sim_write-IsFramed p addr len =
      Keeps-then (Frame p) (load_buf host p.mmu addr len) _
        (λ buf. result-IsFramed p p.mmu _ _ (refl, refl))

  sim_read-IsFramed : (p : Cpu W) (addr len : ℕ) → Keeps (Frame p) (sim_read host p addr len)
  unfolding sim_read
  sim_read-IsFramed p addr len =
      let r = host.read p.world len in
      let n = sext32 r.number in
      Keeps-bind (SameMmu p.mmu) (Frame p)
        (store_buf host r.buf addr (if negative n then 0 else n) 0 p.mmu) _
        (store_buf-SameMmu r.buf addr (if negative n then 0 else n) 0 p.mmu)
        (λ m h. result-IsFramed p m r.world n h)

  sim_gettimeofday-IsFramed : (p : Cpu W) → Keeps (Frame p) (sim_gettimeofday host p)
  unfolding sim_gettimeofday write_reg
  sim_gettimeofday-IsFramed p =
      let r = host.gettimeofday p.world in
      Keeps-bind (SameMmu p.mmu) (Frame p)
        (Mmu.write_bare host.end_key p.mmu (read_reg p 10) (take 8 r.tv) 8) _
        (write_bare-SameMmu host.end_key p.mmu (read_reg p 10) (take 8 r.tv) 8)
        (λ m h. result-IsFramed p m r.world r.number h)

  -- What holds of the result of each call holds of the switch.
  dispatch_cases :
      (P : Result (Cpu W) → Type 0) (p : Cpu W) (n : ℕ)
      → P (sim_write host p (read_reg p 11) (read_reg p 12))
      → P (sim_read host p (read_reg p 11) (read_reg p 12))
      → P (ok (write_reg (record p { world = (host.time p.world).1 }) 10 (host.time p.world).0))
      → P (trap undefined)
      → P (ok (write_reg p 10 (host.fstat p.world (sext32 (read_reg p 10)))))
      → P (sim_gettimeofday host p)
      → P (ok p)
      → ((code : ℕ) → P (trap (exited code)))
      → P (dispatch host p n)
  unfolding dispatch
  dispatch_cases P p n written taken now stored status timed same ended =
      if_either P (n == 64) written (
        if_either P (n == 63) taken (
          if_either P (n == 1062) (if_either P (read_reg p 11 == 0) now stored) (
            if_either P (n == 93) (ended 0) (
              if_either P (n == 214) same (
                if_either P (n == 62) same (
                  if_either P (n == 80) status
                    (if_either P (n == 57) same (if_either P (n == 169) timed (ended 1)))))))))

  dispatch-IsFramed : (p : Cpu W) (n : ℕ) → Keeps (Frame p) (dispatch host p n)
  dispatch-IsFramed p n =
      dispatch_cases (Keeps (Frame p)) p n (sim_write-IsFramed p _ _) (sim_read-IsFramed p _ _)
        (result-IsFramed p p.mmu _ _ (refl, refl)) tt
        (result-IsFramed p p.mmu p.world _ (refl, refl)) (sim_gettimeofday-IsFramed p)
        (Frame-refl p) (λ _. tt)

  pub scall-IsFramed : IsFramed (rv64_scall host)
  unfolding rv64_scall
  scall-IsFramed p insn pc =
      Keeps-bind (Frame p) (λ (r : ℕ × Cpu W). Frame p r.1) (dispatch host p (read_reg p 17))
        (λ q. ok (next_pc pc, q)) (dispatch-IsFramed p (read_reg p 17)) (λ q h. h)
