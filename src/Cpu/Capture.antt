-- ===== src/Cpu/Capture.antt =====
-- src/cpu/cpu6502.cpp: the handler that a group of `onClockHigh` calls.
use sys.Cpu.Read.{
  capture_read_immediate, capture_read_absolute, capture_read_zero_page, capture_read_zero_page_x,
  capture_read_absolute_x, capture_read_absolute_y, capture_read_indirect_x,
  capture_read_indirect_y,
}
use sys.Cpu.Rmw.{
  capture_shift_accumulator, capture_rmw_zero_page, capture_rmw_zero_page_x, capture_rmw_absolute,
  capture_rmw_absolute_x,
}
use sys.Cpu.Implied.{
  capture_implied_inc_dec, capture_implied_transfer, capture_implied_flag_op, capture_nop,
}
use sys.Cpu.Load.{
  capture_load_immediate, capture_load_zero_page, capture_load_zero_page_x,
  capture_load_zero_page_y, capture_load_absolute, capture_load_absolute_x, capture_load_absolute_y,
  capture_load_indirect_x, capture_load_indirect_y,
}
use sys.Cpu.Store.{
  capture_store_zero_page, capture_store_zero_page_x, capture_store_zero_page_y,
  capture_store_absolute, capture_store_absolute_x, capture_store_absolute_y,
  capture_store_indirect_x, capture_store_indirect_y,
}
use sys.Cpu.Jump.{capture_branch, capture_jmp_absolute, capture_jmp_indirect}
use sys.Cpu.Stack.{
  capture_brk, capture_jsr, capture_rts, capture_rti, capture_implied_push, capture_implied_pull,
}
use sys.Cpu.Handler.{Handler}
use sys.Cpu.State.{Cpu}
use sys.Memory.Interface.{BusAccess}

module _ {M : Type 0} ⦃access : BusAccess M⦄ where
  -- The body of the case that the switch selects; `unimplemented` is its `default`.
  unfoldable pub capture : Handler → Cpu M → Cpu M
  unfolding capture_read_immediate capture_read_absolute capture_read_zero_page
      capture_read_zero_page_x capture_read_absolute_x capture_read_absolute_y
      capture_read_indirect_x capture_read_indirect_y capture_shift_accumulator
      capture_rmw_zero_page capture_rmw_zero_page_x capture_rmw_absolute capture_rmw_absolute_x
      capture_implied_inc_dec capture_implied_transfer capture_implied_flag_op
      capture_load_immediate capture_load_zero_page capture_load_zero_page_x
      capture_load_zero_page_y capture_load_absolute capture_load_absolute_x capture_load_absolute_y
      capture_load_indirect_x capture_load_indirect_y capture_store_zero_page
      capture_store_zero_page_x capture_store_zero_page_y capture_store_absolute
      capture_store_absolute_x capture_store_absolute_y capture_store_indirect_x
      capture_store_indirect_y capture_branch capture_brk capture_jsr capture_rts
      capture_jmp_absolute capture_jmp_indirect capture_nop capture_rti capture_implied_push
      capture_implied_pull
  capture Handler.read_immediate s = capture_read_immediate s
  capture Handler.read_absolute s = capture_read_absolute s
  capture Handler.read_zero_page s = capture_read_zero_page s
  capture Handler.read_zero_page_x s = capture_read_zero_page_x s
  capture Handler.read_absolute_x s = capture_read_absolute_x s
  capture Handler.read_absolute_y s = capture_read_absolute_y s
  capture Handler.read_indirect_x s = capture_read_indirect_x s
  capture Handler.read_indirect_y s = capture_read_indirect_y s
  capture Handler.shift_accumulator s = capture_shift_accumulator s
  capture Handler.rmw_zero_page s = capture_rmw_zero_page s
  capture Handler.rmw_zero_page_x s = capture_rmw_zero_page_x s
  capture Handler.rmw_absolute s = capture_rmw_absolute s
  capture Handler.rmw_absolute_x s = capture_rmw_absolute_x s
  capture Handler.implied_inc_dec s = capture_implied_inc_dec s
  capture Handler.implied_transfer s = capture_implied_transfer s
  capture Handler.implied_flag_op s = capture_implied_flag_op s
  capture Handler.load_immediate s = capture_load_immediate s
  capture Handler.load_zero_page s = capture_load_zero_page s
  capture Handler.load_zero_page_x s = capture_load_zero_page_x s
  capture Handler.load_zero_page_y s = capture_load_zero_page_y s
  capture Handler.load_absolute s = capture_load_absolute s
  capture Handler.load_absolute_x s = capture_load_absolute_x s
  capture Handler.load_absolute_y s = capture_load_absolute_y s
  capture Handler.load_indirect_x s = capture_load_indirect_x s
  capture Handler.load_indirect_y s = capture_load_indirect_y s
  capture Handler.store_zero_page s = capture_store_zero_page s
  capture Handler.store_zero_page_x s = capture_store_zero_page_x s
  capture Handler.store_zero_page_y s = capture_store_zero_page_y s
  capture Handler.store_absolute s = capture_store_absolute s
  capture Handler.store_absolute_x s = capture_store_absolute_x s
  capture Handler.store_absolute_y s = capture_store_absolute_y s
  capture Handler.store_indirect_x s = capture_store_indirect_x s
  capture Handler.store_indirect_y s = capture_store_indirect_y s
  capture Handler.branch s = capture_branch s
  capture Handler.brk s = capture_brk s
  capture Handler.jsr s = capture_jsr s
  capture Handler.rts s = capture_rts s
  capture Handler.jmp_absolute s = capture_jmp_absolute s
  capture Handler.jmp_indirect s = capture_jmp_indirect s
  capture Handler.nop s = capture_nop s
  capture Handler.rti s = capture_rti s
  capture Handler.implied_push s = capture_implied_push s
  capture Handler.implied_pull s = capture_implied_pull s
  capture Handler.unimplemented s = s
