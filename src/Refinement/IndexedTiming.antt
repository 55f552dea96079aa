-- ===== src/Refinement/IndexedTiming.antt =====
-- src/cpu/cpu6502.cpp: the T-states of the indexed reads.
use sys.Base.{ℕ, ◌+◌, ◌≡◌, refl, subst, arith, join, u16, if◌then◌else◌}
use sys.Base.Bits.{bit_and-0xFF}
use sys.Cpu.Addressing.{indexed_address}
use sys.Cpu.Binary.{apply_binary_alu_op}
use sys.Cpu.Capture.{capture}
use sys.Cpu.Clock.{settle}
use sys.Cpu.Commit.{commit}
use sys.Cpu.Cycle.{fetch, cycle_of}
use sys.Cpu.Handler.{Handler}
use sys.Cpu.State.{Cpu, CpuStep, new_cpu}
use sys.Isa.Instr.{Mode}
use sys.Isa.Machine.{visible, fetch_byte}
use sys.Isa.Penalties.{one_if, read_penalty}
use sys.Memory.Interface.{BusAccess}
use sys.Refinement.Timing.{after}
use sys.Refinement.Takes.{Takes, early_read, two_before, three_before}

module _ {M : Type 0} ⦃access : BusAccess M⦄ where
  read_absolute_x_early :
      (s : Cpu M)
      → s.cpu_step ≡ CpuStep.t3
      → (cycle_of Handler.read_absolute_x s).cpu_step
        ≡ (if s.page_crossed then CpuStep.t4 else CpuStep.t0)
  unfolding cycle_of capture commit settle apply_binary_alu_op
  read_absolute_x_early s e = ground (arith, e)

  read_absolute_y_early :
      (s : Cpu M)
      → s.cpu_step ≡ CpuStep.t3
      → (cycle_of Handler.read_absolute_y s).cpu_step
        ≡ (if s.page_crossed then CpuStep.t4 else CpuStep.t0)
  unfolding cycle_of capture commit settle apply_binary_alu_op
  read_absolute_y_early s e = ground (arith, e)

  read_indirect_y_early :
      (s : Cpu M)
      → s.cpu_step ≡ CpuStep.t4
      → (cycle_of Handler.read_indirect_y s).cpu_step
        ≡ (if s.page_crossed then CpuStep.t5 else CpuStep.t0)
  unfolding cycle_of capture commit settle apply_binary_alu_op
  read_indirect_y_early s e = ground (arith, e)

  load_absolute_x_early :
      (s : Cpu M)
      → s.cpu_step ≡ CpuStep.t3
      → (cycle_of Handler.load_absolute_x s).cpu_step
        ≡ (if s.page_crossed then CpuStep.t4 else CpuStep.t0)
  unfolding cycle_of capture commit settle
  load_absolute_x_early s e = ground (arith, e)

  load_absolute_y_early :
      (s : Cpu M)
      → s.cpu_step ≡ CpuStep.t3
      → (cycle_of Handler.load_absolute_y s).cpu_step
        ≡ (if s.page_crossed then CpuStep.t4 else CpuStep.t0)
  unfolding cycle_of capture commit settle
  load_absolute_y_early s e = ground (arith, e)

  load_indirect_y_early :
      (s : Cpu M)
      → s.cpu_step ≡ CpuStep.t4
      → (cycle_of Handler.load_indirect_y s).cpu_step
        ≡ (if s.page_crossed then CpuStep.t5 else CpuStep.t0)
  unfolding cycle_of capture commit settle
  load_indirect_y_early s e = ground (arith, e)

  pub read_absolute_x-Takes :
      (s : Cpu M)
      → Takes
          (3 + fetch_byte (visible s) (λ n m. read_penalty Mode.absolute_x m))
          Handler.read_absolute_x
          (fetch s)
  unfolding cycle_of fetch capture commit settle read_penalty visible
  read_absolute_x-Takes s =
      let h = Handler.read_absolute_x in
      let t = cycle_of h (cycle_of h (fetch s)) in
      two_before (one_if t.page_crossed) h (fetch s) (λ q. cc) (λ q. cc)
        (early_read h t CpuStep.t3 CpuStep.t4 refl (λ q. cc) (read_absolute_x_early t refl)
          (λ c k. unfold after commit new_cpu in refl))

  pub read_absolute_y-Takes :
      (s : Cpu M)
      → Takes
          (3 + fetch_byte (visible s) (λ n m. read_penalty Mode.absolute_y m))
          Handler.read_absolute_y
          (fetch s)
  unfolding cycle_of fetch capture commit settle read_penalty visible
  read_absolute_y-Takes s =
      let h = Handler.read_absolute_y in
      let t = cycle_of h (cycle_of h (fetch s)) in
      two_before (one_if t.page_crossed) h (fetch s) (λ q. cc) (λ q. cc)
        (early_read h t CpuStep.t3 CpuStep.t4 refl (λ q. cc) (read_absolute_y_early t refl)
          (λ c k. unfold after commit new_cpu in refl))

  pub read_indirect_y-Takes :
      (s : Cpu M)
      → Takes
          (4 + fetch_byte (visible s) (λ n m. read_penalty Mode.indirect_y m))
          Handler.read_indirect_y
          (fetch s)
  unfolding cycle_of fetch capture commit settle read_penalty visible
  read_indirect_y-Takes s =
      let h = Handler.read_indirect_y in
      let t = cycle_of h (cycle_of h (cycle_of h (fetch s))) in
      let (z, bus) = access.read (access.read s.bus s.pc).1 (u16 (s.pc + 1)) in
      let (lo, bus') = access.read bus z in
      subst
        (λ (at : ℕ).
          Takes (4 + one_if (indexed_address (join lo (access.read bus' at).0) s.y).page_crossed) h
            (fetch s))
        (bit_and-0xFF (z + 1))
        (three_before (one_if t.page_crossed) h (fetch s) (λ q. cc) (λ q. cc) (λ q. cc)
          (early_read h t CpuStep.t4 CpuStep.t5 refl (λ q. cc) (read_indirect_y_early t refl)
            (λ c k. unfold after commit new_cpu in refl)))

  pub load_absolute_x-Takes :
      (s : Cpu M)
      → Takes
          (3 + fetch_byte (visible s) (λ n m. read_penalty Mode.absolute_x m))
          Handler.load_absolute_x
          (fetch s)
  unfolding cycle_of fetch capture commit settle read_penalty visible
  load_absolute_x-Takes s =
      let h = Handler.load_absolute_x in
      let t = cycle_of h (cycle_of h (fetch s)) in
      two_before (one_if t.page_crossed) h (fetch s) (λ q. cc) (λ q. cc)
        (early_read h t CpuStep.t3 CpuStep.t4 refl (λ q. cc) (load_absolute_x_early t refl)
          (λ c k. unfold after commit new_cpu in refl))

  pub load_absolute_y-Takes :
      (s : Cpu M)
      → Takes
          (3 + fetch_byte (visible s) (λ n m. read_penalty Mode.absolute_y m))
          Handler.load_absolute_y
          (fetch s)
  unfolding cycle_of fetch capture commit settle read_penalty visible
  load_absolute_y-Takes s =
      let h = Handler.load_absolute_y in
      let t = cycle_of h (cycle_of h (fetch s)) in
      two_before (one_if t.page_crossed) h (fetch s) (λ q. cc) (λ q. cc)
        (early_read h t CpuStep.t3 CpuStep.t4 refl (λ q. cc) (load_absolute_y_early t refl)
          (λ c k. unfold after commit new_cpu in refl))

  pub load_indirect_y-Takes :
      (s : Cpu M)
      → Takes
          (4 + fetch_byte (visible s) (λ n m. read_penalty Mode.indirect_y m))
          Handler.load_indirect_y
          (fetch s)
  unfolding cycle_of fetch capture commit settle read_penalty visible
  load_indirect_y-Takes s =
      let h = Handler.load_indirect_y in
      let t = cycle_of h (cycle_of h (cycle_of h (fetch s))) in
      let (z, bus) = access.read (access.read s.bus s.pc).1 (u16 (s.pc + 1)) in
      let (lo, bus') = access.read bus z in
      subst
        (λ (at : ℕ).
          Takes (4 + one_if (indexed_address (join lo (access.read bus' at).0) s.y).page_crossed) h
            (fetch s))
        (bit_and-0xFF (z + 1))
        (three_before (one_if t.page_crossed) h (fetch s) (λ q. cc) (λ q. cc) (λ q. cc)
          (early_read h t CpuStep.t4 CpuStep.t5 refl (λ q. cc) (load_indirect_y_early t refl)
            (λ c k. unfold after commit new_cpu in refl)))
