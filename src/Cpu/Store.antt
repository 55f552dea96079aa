-- ===== src/Cpu/Store.antt =====
-- src/cpu/cpu6502.cpp: the capture/commit pairs of STA, STX and STY.
use sys.Cpu.State.{Cpu, CpuStep, go_to, next_pc, write_bus}
use sys.Memory.Interface.{BusAccess}
use sys.Cpu.Addressing.{
  latch_low, latch_high, latch_indexed, resolve_indexed_fixed, pointer_low, pointer_high,
  resolve_pointer_fixed,
}
use sys.Cpu.Move.{store_source_value}

module _ {M : Type 0} ⦃access : BusAccess M⦄ where
  unfoldable pub capture_store_zero_page : Cpu M → Cpu M
  unfolding latch_low
  capture_store_zero_page s = elim s.cpu_step [ CpuStep.t1 ↦ latch_low s | CpuStep.t2 ↦ s | _ ↦ s ]

  unfoldable pub commit_store_zero_page : Cpu M → Cpu M
  commit_store_zero_page s = elim s.cpu_step [
    | CpuStep.t1 ↦ go_to CpuStep.t2 (next_pc s)
    | CpuStep.t2 ↦ go_to CpuStep.t0 (write_bus s.addr_latch (store_source_value s) s)
    | _ ↦ s
  ]

  unfoldable pub capture_store_zero_page_x : Cpu M → Cpu M
  unfolding latch_low latch_indexed
  capture_store_zero_page_x s = elim s.cpu_step [
    | CpuStep.t1 ↦ latch_low s
    | CpuStep.t2 ↦ latch_indexed s.x s
    | CpuStep.t3 ↦ s
    | _ ↦ s
  ]

  unfoldable pub commit_store_zero_page_x : Cpu M → Cpu M
  commit_store_zero_page_x s = elim s.cpu_step [
    | CpuStep.t1 ↦ go_to CpuStep.t2 (next_pc s)
    | CpuStep.t2 ↦ go_to CpuStep.t3 s
    | CpuStep.t3 ↦ go_to CpuStep.t0 (write_bus s.addr_latch (store_source_value s) s)
    | _ ↦ s
  ]

  unfoldable pub capture_store_zero_page_y : Cpu M → Cpu M
  unfolding latch_low latch_indexed
  capture_store_zero_page_y s = elim s.cpu_step [
    | CpuStep.t1 ↦ latch_low s
    | CpuStep.t2 ↦ latch_indexed s.y s
    | CpuStep.t3 ↦ s
    | _ ↦ s
  ]

  unfoldable pub commit_store_zero_page_y : Cpu M → Cpu M
  commit_store_zero_page_y s = elim s.cpu_step [
    | CpuStep.t1 ↦ go_to CpuStep.t2 (next_pc s)
    | CpuStep.t2 ↦ go_to CpuStep.t3 s
    | CpuStep.t3 ↦ go_to CpuStep.t0 (write_bus s.addr_latch (store_source_value s) s)
    | _ ↦ s
  ]

  unfoldable pub capture_store_absolute : Cpu M → Cpu M
  unfolding latch_low latch_high
  capture_store_absolute s = elim s.cpu_step [
    | CpuStep.t1 ↦ latch_low s
    | CpuStep.t2 ↦ latch_high s
    | CpuStep.t3 ↦ s
    | _ ↦ s
  ]

  unfoldable pub commit_store_absolute : Cpu M → Cpu M
  commit_store_absolute s = elim s.cpu_step [
    | CpuStep.t1 ↦ go_to CpuStep.t2 (next_pc s)
    | CpuStep.t2 ↦ go_to CpuStep.t3 (next_pc s)
    | CpuStep.t3 ↦ go_to CpuStep.t0 (write_bus s.addr_latch (store_source_value s) s)
    | _ ↦ s
  ]

  unfoldable pub capture_store_absolute_x : Cpu M → Cpu M
  unfolding latch_low resolve_indexed_fixed
  capture_store_absolute_x s = elim s.cpu_step [
    | CpuStep.t1 ↦ latch_low s
    | CpuStep.t2 ↦ resolve_indexed_fixed s.x s
    | CpuStep.t3 ↦ s
    | _ ↦ s
  ]

  unfoldable pub commit_store_absolute_x : Cpu M → Cpu M
  commit_store_absolute_x s = elim s.cpu_step [
    | CpuStep.t1 ↦ go_to CpuStep.t2 (next_pc s)
    | CpuStep.t2 ↦ go_to CpuStep.t3 (next_pc s)
    | CpuStep.t3 ↦ go_to CpuStep.t4 s
    | CpuStep.t4 ↦ go_to CpuStep.t0 (write_bus s.eff_addr (store_source_value s) s)
    | _ ↦ s
  ]

  unfoldable pub capture_store_absolute_y : Cpu M → Cpu M
  unfolding latch_low resolve_indexed_fixed
  capture_store_absolute_y s = elim s.cpu_step [
    | CpuStep.t1 ↦ latch_low s
    | CpuStep.t2 ↦ resolve_indexed_fixed s.y s
    | CpuStep.t3 ↦ s
    | _ ↦ s
  ]

  unfoldable pub commit_store_absolute_y : Cpu M → Cpu M
  commit_store_absolute_y s = elim s.cpu_step [
    | CpuStep.t1 ↦ go_to CpuStep.t2 (next_pc s)
    | CpuStep.t2 ↦ go_to CpuStep.t3 (next_pc s)
    | CpuStep.t3 ↦ go_to CpuStep.t4 s
    | CpuStep.t4 ↦ go_to CpuStep.t0 (write_bus s.eff_addr (store_source_value s) s)
    | _ ↦ s
  ]

  unfoldable pub capture_store_indirect_x : Cpu M → Cpu M
  unfolding latch_low latch_indexed pointer_low pointer_high
  capture_store_indirect_x s = elim s.cpu_step [
    | CpuStep.t1 ↦ latch_low s
    | CpuStep.t2 ↦ latch_indexed s.x s
    | CpuStep.t3 ↦ pointer_low s
    | CpuStep.t4 ↦ pointer_high s
    | CpuStep.t5 ↦ s
    | _ ↦ s
  ]

  unfoldable pub commit_store_indirect_x : Cpu M → Cpu M
  commit_store_indirect_x s = elim s.cpu_step [
    | CpuStep.t1 ↦ go_to CpuStep.t2 (next_pc s)
    | CpuStep.t2 ↦ go_to CpuStep.t3 s
    | CpuStep.t3 ↦ go_to CpuStep.t4 s
    | CpuStep.t4 ↦ go_to CpuStep.t5 s
    | CpuStep.t5 ↦ go_to CpuStep.t0 (write_bus s.eff_addr (store_source_value s) s)
    | _ ↦ s
  ]

  unfoldable pub capture_store_indirect_y : Cpu M → Cpu M
  unfolding latch_low pointer_low resolve_pointer_fixed
  capture_store_indirect_y s = elim s.cpu_step [
    | CpuStep.t1 ↦ latch_low s
    | CpuStep.t2 ↦ pointer_low s
    | CpuStep.t3 ↦ resolve_pointer_fixed s.y s
    | CpuStep.t4 ↦ s
    | _ ↦ s
  ]

  unfoldable pub commit_store_indirect_y : Cpu M → Cpu M
  commit_store_indirect_y s = elim s.cpu_step [
    | CpuStep.t1 ↦ go_to CpuStep.t2 (next_pc s)
    | CpuStep.t2 ↦ go_to CpuStep.t3 s
    | CpuStep.t3 ↦ go_to CpuStep.t4 s
    | CpuStep.t4 ↦ go_to CpuStep.t5 s
    | CpuStep.t5 ↦ go_to CpuStep.t0 (write_bus s.eff_addr (store_source_value s) s)
    | _ ↦ s
  ]
