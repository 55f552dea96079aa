-- ===== src/Refinement/Store.antt =====
-- STA, STX and STY.
use sys.Base.{ℕ, suc, ◌≡◌, ◌≢◌, refl, ap, ◌∙◌, arith}
use sys.Base.Bits.{bit_and-0xFF}
use sys.Cpu.Capture.{capture}
use sys.Cpu.Clock.{settle}
use sys.Cpu.Commit.{commit}
use sys.Cpu.Cycle.{finish, fetch, cycle_of}
use sys.Cpu.Handler.{Handler}
use sys.Cpu.Move.{store_source_value}
use sys.Cpu.MoveSwitch.{store_case}
use sys.Cpu.State.{Cpu, CpuStep, go_to, low, high, write_bus}
use sys.Isa.Exec.{with_address, store_at, register_value}
use sys.Isa.Instr.{Mode, Register}
use sys.Isa.Machine.{Machine, visible, fetch_byte, store_byte}
use sys.Memory.Interface.{BusAccess}
use sys.Refinement.Finishes.{Finishes, conclude}
use sys.Refinement.Load.{case_of}

-- The capture/commit pair of a mode. Nothing is stored in an immediate.
abbrev pub store_handler : Mode → Handler
store_handler Mode.immediate = Handler.unimplemented
store_handler Mode.zero_page = Handler.store_zero_page
store_handler Mode.zero_page_x = Handler.store_zero_page_x
store_handler Mode.zero_page_y = Handler.store_zero_page_y
store_handler Mode.absolute = Handler.store_absolute
store_handler Mode.absolute_x = Handler.store_absolute_x
store_handler Mode.absolute_y = Handler.store_absolute_y
store_handler Mode.indirect_x = Handler.store_indirect_x
store_handler Mode.indirect_y = Handler.store_indirect_y

module _ {M : Type 0} where
  source_lem :
      (reg : Register) (u : Cpu M)
      → store_case u.ir ≡ case_of reg
      → store_source_value u ≡ register_value reg (visible u)
  unfolding store_source_value register_value visible
  source_lem Register.a u e = ground arith
  source_lem _ u e = ground arith

module _ {M : Type 0} ⦃access : BusAccess M⦄ where
  -- The T-state that writes ends the instruction.
  stored :
      (n : ℕ) (h : Handler) (reg : Register) (addr : ℕ) (t u : Cpu M)
      → store_case u.ir ≡ case_of reg
      → visible u ≡ visible t
      → cycle_of h t ≡ go_to CpuStep.t0 (write_bus addr (store_source_value u) u)
      → Finishes (suc n) h t (store_at reg addr (visible t))
  unfolding visible store_at
  stored n h reg addr t u e same writes =
      conclude n h t (write_bus addr (store_source_value u) u) (store_at reg addr (visible t))
        writes
        (ap (λ (v : ℕ). store_byte addr v (visible u)) (source_lem reg u e)
          ∙ ap (λ (m : Machine M). store_byte addr (register_value reg m) m) same)

module _ {M : Type 0} ⦃access : BusAccess M⦄ (reg : Register) (s : Cpu M)
    (stores : store_case (access.read s.bus s.pc).0 ≡ case_of reg) where
  abbrev pub documented : Mode → Machine M
  documented mode = fetch_byte (visible s) (λ _ m. with_address mode m (store_at reg))

  store_zero_page : Finishes 6 Handler.store_zero_page (fetch s) (documented Mode.zero_page)
  unfolding finish fetch cycle_of capture commit settle visible with_address store_at
  store_zero_page =
      let h = Handler.store_zero_page in
      let t = cycle_of h (fetch s) in
      stored 4 h reg t.addr_latch t (settle low (capture h (settle high t))) stores refl refl

  store_zero_page_x : Finishes 6 Handler.store_zero_page_x (fetch s) (documented Mode.zero_page_x)
  unfolding finish fetch cycle_of capture commit settle visible with_address store_at
  store_zero_page_x =
      let h = Handler.store_zero_page_x in
      let t = cycle_of h (cycle_of h (fetch s)) in
      simp (← bit_and-0xFF)
        (stored 3 h reg t.addr_latch t (settle low (capture h (settle high t))) stores refl refl)

  store_zero_page_y : Finishes 6 Handler.store_zero_page_y (fetch s) (documented Mode.zero_page_y)
  unfolding finish fetch cycle_of capture commit settle visible with_address store_at
  store_zero_page_y =
      let h = Handler.store_zero_page_y in
      let t = cycle_of h (cycle_of h (fetch s)) in
      simp (← bit_and-0xFF)
        (stored 3 h reg t.addr_latch t (settle low (capture h (settle high t))) stores refl refl)

  store_absolute : Finishes 6 Handler.store_absolute (fetch s) (documented Mode.absolute)
  unfolding finish fetch cycle_of capture commit settle visible with_address store_at
  store_absolute =
      let h = Handler.store_absolute in
      let t = cycle_of h (cycle_of h (fetch s)) in
      stored 3 h reg t.addr_latch t (settle low (capture h (settle high t))) stores refl refl

  store_absolute_x : Finishes 6 Handler.store_absolute_x (fetch s) (documented Mode.absolute_x)
  unfolding finish fetch cycle_of capture commit settle visible with_address store_at
  store_absolute_x =
      let h = Handler.store_absolute_x in
      let t = cycle_of h (cycle_of h (cycle_of h (fetch s))) in
      stored 2 h reg t.eff_addr t (settle low (capture h (settle high t))) stores refl refl

  store_absolute_y : Finishes 6 Handler.store_absolute_y (fetch s) (documented Mode.absolute_y)
  unfolding finish fetch cycle_of capture commit settle visible with_address store_at
  store_absolute_y =
      let h = Handler.store_absolute_y in
      let t = cycle_of h (cycle_of h (cycle_of h (fetch s))) in
      stored 2 h reg t.eff_addr t (settle low (capture h (settle high t))) stores refl refl

  store_indirect_x : Finishes 6 Handler.store_indirect_x (fetch s) (documented Mode.indirect_x)
  unfolding finish fetch cycle_of capture commit settle visible with_address store_at
  store_indirect_x =
      let h = Handler.store_indirect_x in
      let t = cycle_of h (cycle_of h (cycle_of h (cycle_of h (fetch s)))) in
      simp (← bit_and-0xFF)
        (stored 1 h reg t.eff_addr t (settle low (capture h (settle high t))) stores refl refl)

  store_indirect_y : Finishes 6 Handler.store_indirect_y (fetch s) (documented Mode.indirect_y)
  unfolding finish fetch cycle_of capture commit settle visible with_address store_at
  store_indirect_y =
      let h = Handler.store_indirect_y in
      let t = cycle_of h (cycle_of h (cycle_of h (cycle_of h (fetch s)))) in
      simp (← bit_and-0xFF)
        (stored 1 h reg t.eff_addr t (settle low (capture h (settle high t))) stores refl refl)

  pub store_lem :
      (mode : Mode)
      → mode ≢ Mode.immediate
      → Finishes 6 (store_handler mode) (fetch s) (documented mode)
  store_lem Mode.immediate ne = absurd (ne refl)
  store_lem Mode.zero_page ne = store_zero_page
  store_lem Mode.zero_page_x ne = store_zero_page_x
  store_lem Mode.zero_page_y ne = store_zero_page_y
  store_lem Mode.absolute ne = store_absolute
  store_lem Mode.absolute_x ne = store_absolute_x
  store_lem Mode.absolute_y ne = store_absolute_y
  store_lem Mode.indirect_x ne = store_indirect_x
  store_lem Mode.indirect_y ne = store_indirect_y
