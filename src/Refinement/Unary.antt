-- ===== src/Refinement/Unary.antt =====
-- ASL, LSR, ROL, ROR, INC and DEC.
use sys.Base.{ℕ, ◌+◌, ◌≡◌, ◌≢◌, refl, ap, ◌∙◌, suc, arith}
use sys.Base.Bits.{bit_and-0xFF}
use sys.Cpu.Alu.{execute}
use sys.Cpu.Capture.{capture}
use sys.Cpu.Clock.{settle}
use sys.Cpu.Commit.{commit}
use sys.Cpu.Cycle.{finish, fetch, cycle_of}
use sys.Cpu.Handler.{Handler}
use sys.Cpu.State.{Cpu, CpuStep, go_to, low, high, write_bus, reading}
use sys.Cpu.Unary.{apply_unary_alu_op, commit_unary_alu_flags}
use sys.Cpu.UnarySwitch.{UnaryCase, UnaryResultCase, apply_unary_case, commit_unary_case}
use sys.Isa.Exec.{exec_unary, exec_at, exec_accumulator, with_address}
use sys.Isa.Instr.{Mode, UnaryOp}
use sys.Isa.Machine.{Machine, visible, fetch_byte, with_flags, store_byte}
use sys.Memory.Interface.{BusAccess}
use sys.Refinement.Finishes.{Finishes, conclude, continue}

abbrev pub apply_of : UnaryOp → UnaryCase
apply_of UnaryOp.asl = UnaryCase.asl
apply_of UnaryOp.lsr = UnaryCase.lsr
apply_of UnaryOp.rol = UnaryCase.rol
apply_of UnaryOp.ror = UnaryCase.ror
apply_of UnaryOp.inc = UnaryCase.inc
apply_of UnaryOp.dec = UnaryCase.dec

abbrev pub result_of : UnaryOp → UnaryResultCase
result_of UnaryOp.inc = UnaryResultCase.count
result_of UnaryOp.dec = UnaryResultCase.count
result_of _ = UnaryResultCase.shift

module _ {M : Type 0} where
  apply_step :
      (v : ℕ) (s : Cpu M)
      → ((apply_unary_alu_op v s).cpu_step ≡ s.cpu_step)
        × ((apply_unary_alu_op v s).addr_latch ≡ s.addr_latch)
        × ((apply_unary_alu_op v s).eff_addr ≡ s.eff_addr)
  unfolding apply_unary_alu_op
  apply_step v s = ground arith

module _ {M : Type 0} ⦃access : BusAccess M⦄ where
  -- Latching, settling, writing back and setting the flags is the documented operation.
  unary_write :
      (op : UnaryOp) (v addr : ℕ) (step : CpuStep) (s : Cpu M)
      → apply_unary_case s.ir ≡ apply_of op
      → commit_unary_case s.ir ≡ result_of op
      → let u = go_to step (settle low (apply_unary_alu_op v s)) in
        visible (commit_unary_alu_flags (write_bus addr u.alu_output.value u))
        ≡ with_flags
            (exec_unary op v s.p_flags).1
            (store_byte addr (exec_unary op v s.p_flags).0 (visible s))
  unfolding apply_unary_alu_op commit_unary_alu_flags settle execute exec_unary visible
  unary_write UnaryOp.inc v addr step s e₁ e₂ = ground (arith, bit_and-0xFF (1 + v + 0))
  unary_write UnaryOp.dec v addr step s e₁ e₂ = ground (arith, bit_and-0xFF (255 + v + 0))
  unary_write _ v addr step s e₁ e₂ = ground arith

  unary_accumulator :
      (op : UnaryOp) (s : Cpu M)
      → apply_unary_case s.ir ≡ apply_of op
      → commit_unary_case s.ir ≡ result_of op
      → let u = settle low (apply_unary_alu_op s.a s) in
        visible (commit_unary_alu_flags (record u { a = u.alu_output.value }))
        ≡ exec_accumulator op (visible s)
  unfolding apply_unary_alu_op commit_unary_alu_flags settle execute exec_accumulator visible
  unary_accumulator UnaryOp.inc s e₁ e₂ = ground (arith, bit_and-0xFF (1 + s.a + 0))
  unary_accumulator UnaryOp.dec s e₁ e₂ = ground (arith, bit_and-0xFF (255 + s.a + 0))
  unary_accumulator _ s e₁ e₂ = ground arith

  -- The T-state that reads the operand, an idle one, and the one that writes the result back to
  -- the address that a latch has held meanwhile.
  read_modify_write :
      (n : ℕ) (h : Handler) (op : UnaryOp) (t : Cpu M) (latch : Cpu M → ℕ) (idle last : CpuStep)
      → apply_unary_case t.ir ≡ apply_of op
      → commit_unary_case t.ir ≡ result_of op
      → ((v : ℕ) (m : M)
          → latch (settle low (apply_unary_alu_op v (record (settle high t) { bus = m })))
            ≡ latch t)
      → capture h (settle high t) ≡ reading (latch t) (settle high t) apply_unary_alu_op
      → ((u : Cpu M) → u.cpu_step ≡ t.cpu_step → commit h u ≡ go_to idle u)
      → idle ≢ CpuStep.t0
      → ((u : Cpu M) → cycle_of h (go_to idle u) ≡ go_to last (settle low u))
      → last ≢ CpuStep.t0
      → ((u : Cpu M)
          → let w = go_to last (settle low u) in
            cycle_of h (go_to last u)
            ≡ go_to CpuStep.t0 (commit_unary_alu_flags (write_bus (latch u) w.alu_output.value w)))
      → Finishes (suc (suc (suc n))) h t (exec_at op (latch t) (visible t))
  unfolding cycle_of settle visible exec_at
  read_modify_write n h op t latch idle last e₁ e₂ held captures reads ne₁ idles ne₂ writes =
      let v = (access.read t.bus (latch t)).0 in
      let r = record (settle high t) { bus = (access.read t.bus (latch t)).1 } in
      let u = settle low (apply_unary_alu_op v r) in
      let w = go_to last u in
      let goal = exec_at op (latch t) (visible t) in
      continue (suc (suc n)) h t (go_to idle u) goal
        (ap (λ (q : Cpu M). commit h (settle low q)) captures ∙ reads u (apply_step v r).0) ne₁
        (continue (suc n) h (go_to idle u) w goal (idles u) ne₂ (
          conclude n h w (commit_unary_alu_flags (write_bus (latch u) w.alu_output.value w)) goal
            (writes u)
            (unary_write op v (latch u) last r e₁ e₂
              ∙ ap
                  (λ (k : ℕ).
                    with_flags (exec_unary op v r.p_flags).1
                      (store_byte k (exec_unary op v r.p_flags).0 (visible r)))
                  (held v r.bus))))

module _ {M : Type 0} ⦃access : BusAccess M⦄ (op : UnaryOp) (s : Cpu M)
    (applies : apply_unary_case (access.read s.bus s.pc).0 ≡ apply_of op)
    (results : commit_unary_case (access.read s.bus s.pc).0 ≡ result_of op) where
  abbrev pub documented : Mode → Machine M
  documented mode = fetch_byte (visible s) (λ _ m. with_address mode m (exec_at op))

  pub shift_accumulator :
      Finishes 6 Handler.shift_accumulator
        (fetch s)
        (fetch_byte (visible s) (λ _ m. exec_accumulator op m))
  unfolding finish fetch cycle_of capture commit settle visible
  shift_accumulator =
      let h = Handler.shift_accumulator in
      let t = fetch s in
      let u = settle low (apply_unary_alu_op t.a (settle high t)) in
      conclude 5 h t (commit_unary_alu_flags (record u { a = u.alu_output.value }))
        (fetch_byte (visible s) (λ _ m. exec_accumulator op m)) refl
        (unary_accumulator op (settle high t) applies results)

  pub rmw_zero_page : Finishes 6 Handler.rmw_zero_page (fetch s) (documented Mode.zero_page)
  unfolding finish fetch cycle_of capture commit settle visible with_address exec_at
  rmw_zero_page =
      let h = Handler.rmw_zero_page in
      let t = cycle_of h (fetch s) in
      read_modify_write 2 h op t (λ u. u.addr_latch) CpuStep.t3 CpuStep.t4 applies results
        (λ v m. (apply_step v (record (settle high t) { bus = m })).1) refl (λ u e. rw e) (λ q. cc)
        (λ u. refl) (λ q. cc) (λ u. refl)

  pub rmw_zero_page_x : Finishes 6 Handler.rmw_zero_page_x (fetch s) (documented Mode.zero_page_x)
  unfolding finish fetch cycle_of capture commit settle visible with_address exec_at
  rmw_zero_page_x =
      let h = Handler.rmw_zero_page_x in
      let t = cycle_of h (cycle_of h (fetch s)) in
      simp (← bit_and-0xFF) (
        read_modify_write 1 h op t (λ u. u.addr_latch) CpuStep.t4 CpuStep.t5 applies results
          (λ v m. (apply_step v (record (settle high t) { bus = m })).1) refl (λ u e. rw e)
          (λ q. cc) (λ u. refl) (λ q. cc) (λ u. refl))

  pub rmw_absolute : Finishes 6 Handler.rmw_absolute (fetch s) (documented Mode.absolute)
  unfolding finish fetch cycle_of capture commit settle visible with_address exec_at
  rmw_absolute =
      let h = Handler.rmw_absolute in
      let t = cycle_of h (cycle_of h (fetch s)) in
      read_modify_write 1 h op t (λ u. u.addr_latch) CpuStep.t4 CpuStep.t5 applies results
        (λ v m. (apply_step v (record (settle high t) { bus = m })).1) refl (λ u e. rw e) (λ q. cc)
        (λ u. refl) (λ q. cc) (λ u. refl)

  pub rmw_absolute_x : Finishes 6 Handler.rmw_absolute_x (fetch s) (documented Mode.absolute_x)
  unfolding finish fetch cycle_of capture commit settle visible with_address exec_at
  rmw_absolute_x =
      let h = Handler.rmw_absolute_x in
      let t = cycle_of h (cycle_of h (cycle_of h (fetch s))) in
      read_modify_write 0 h op t (λ u. u.eff_addr) CpuStep.t5 CpuStep.t6 applies results
        (λ v m. (apply_step v (record (settle high t) { bus = m })).2) refl (λ u e. rw e) (λ q. cc)
        (λ u. refl) (λ q. cc) (λ u. refl)
