-- ===== src/Cpu/Commit.antt =====
-- src/cpu/cpu6502.cpp: the handler that a group of `onClockLow` calls.
use sys.Cpu.Read.{
  commit_read_immediate, commit_read_absolute, commit_read_zero_page, commit_read_zero_page_x,
  commit_read_absolute_x, commit_read_absolute_y, commit_read_indirect_x, commit_read_indirect_y,
}
use sys.Cpu.Rmw.{
  commit_shift_accumulator, commit_rmw_zero_page, commit_rmw_zero_page_x, commit_rmw_absolute,
  commit_rmw_absolute_x,
}
use sys.Cpu.Implied.{
  commit_implied_inc_dec, commit_implied_transfer, commit_implied_flag_op, commit_nop,
}
use sys.Cpu.Load.{
  commit_load_immediate, commit_load_zero_page, commit_load_zero_page_x, commit_load_zero_page_y,
  commit_load_absolute, commit_load_absolute_x, commit_load_absolute_y, commit_load_indirect_x,
  commit_load_indirect_y,
}
use sys.Cpu.Store.{
  commit_store_zero_page, commit_store_zero_page_x, commit_store_zero_page_y, commit_store_absolute,
  commit_store_absolute_x, commit_store_absolute_y, commit_store_indirect_x,
  commit_store_indirect_y,
}
use sys.Cpu.Jump.{commit_branch, commit_jmp_absolute, commit_jmp_indirect}
use sys.Cpu.Stack.{
  commit_brk, commit_jsr, commit_rts, commit_rti, commit_implied_push, commit_implied_pull,
}
use sys.Cpu.Handler.{Handler}
use sys.Cpu.State.{Cpu, CpuStep, go_to}
use sys.Memory.Interface.{BusAccess}

module _ {M : Type 0} ⦃access : BusAccess M⦄ where
  -- The body of the case that the switch selects; `unimplemented` is its `default`.
  unfoldable pub commit : Handler → Cpu M → Cpu M
  unfolding commit_read_immediate commit_read_absolute commit_read_zero_page commit_read_zero_page_x
      commit_read_absolute_x commit_read_absolute_y commit_read_indirect_x commit_read_indirect_y
      commit_shift_accumulator commit_rmw_zero_page commit_rmw_zero_page_x commit_rmw_absolute
      commit_rmw_absolute_x commit_implied_inc_dec commit_implied_transfer commit_implied_flag_op
      commit_load_immediate commit_load_zero_page commit_load_zero_page_x commit_load_zero_page_y
      commit_load_absolute commit_load_absolute_x commit_load_absolute_y commit_load_indirect_x
      commit_load_indirect_y commit_store_zero_page commit_store_zero_page_x
      commit_store_zero_page_y commit_store_absolute commit_store_absolute_x commit_store_absolute_y
      commit_store_indirect_x commit_store_indirect_y commit_branch commit_brk commit_jsr commit_rts
      commit_jmp_absolute commit_jmp_indirect commit_nop commit_rti commit_implied_push
      commit_implied_pull
  commit Handler.read_immediate s = commit_read_immediate s
  commit Handler.read_absolute s = commit_read_absolute s
  commit Handler.read_zero_page s = commit_read_zero_page s
  commit Handler.read_zero_page_x s = commit_read_zero_page_x s
  commit Handler.read_absolute_x s = commit_read_absolute_x s
  commit Handler.read_absolute_y s = commit_read_absolute_y s
  commit Handler.read_indirect_x s = commit_read_indirect_x s
  commit Handler.read_indirect_y s = commit_read_indirect_y s
  commit Handler.shift_accumulator s = commit_shift_accumulator s
  commit Handler.rmw_zero_page s = commit_rmw_zero_page s
  commit Handler.rmw_zero_page_x s = commit_rmw_zero_page_x s
  commit Handler.rmw_absolute s = commit_rmw_absolute s
  commit Handler.rmw_absolute_x s = commit_rmw_absolute_x s
  commit Handler.implied_inc_dec s = commit_implied_inc_dec s
  commit Handler.implied_transfer s = commit_implied_transfer s
  commit Handler.implied_flag_op s = commit_implied_flag_op s
  commit Handler.load_immediate s = commit_load_immediate s
  commit Handler.load_zero_page s = commit_load_zero_page s
  commit Handler.load_zero_page_x s = commit_load_zero_page_x s
  commit Handler.load_zero_page_y s = commit_load_zero_page_y s
  commit Handler.load_absolute s = commit_load_absolute s
  commit Handler.load_absolute_x s = commit_load_absolute_x s
  commit Handler.load_absolute_y s = commit_load_absolute_y s
  commit Handler.load_indirect_x s = commit_load_indirect_x s
  commit Handler.load_indirect_y s = commit_load_indirect_y s
  commit Handler.store_zero_page s = commit_store_zero_page s
  commit Handler.store_zero_page_x s = commit_store_zero_page_x s
  commit Handler.store_zero_page_y s = commit_store_zero_page_y s
  commit Handler.store_absolute s = commit_store_absolute s
  commit Handler.store_absolute_x s = commit_store_absolute_x s
  commit Handler.store_absolute_y s = commit_store_absolute_y s
  commit Handler.store_indirect_x s = commit_store_indirect_x s
  commit Handler.store_indirect_y s = commit_store_indirect_y s
  commit Handler.branch s = commit_branch s
  commit Handler.brk s = commit_brk s
  commit Handler.jsr s = commit_jsr s
  commit Handler.rts s = commit_rts s
  commit Handler.jmp_absolute s = commit_jmp_absolute s
  commit Handler.jmp_indirect s = commit_jmp_indirect s
  commit Handler.nop s = commit_nop s
  commit Handler.rti s = commit_rti s
  commit Handler.implied_push s = commit_implied_push s
  commit Handler.implied_pull s = commit_implied_pull s
  commit Handler.unimplemented s = go_to CpuStep.t0 s
