-- ===== src/Isa/Memory.antt =====
-- What every read and write of a memory keeps, every instruction keeps.
use sys.Base.{ℕ, Bool, true, false, if◌then◌else◌}
use sys.Isa.Exec.{
  exec_binary, with_address, exec_at, exec_accumulator, load_at, store_at, put_register,
  exec_implied, add_with_carry, compare_with,
}
use sys.Isa.Flow.{exec_branch, exec_control}
use sys.Isa.Instr.{
  Instr, Mode, BinaryOp, Register, Implied, Condition, Control, accumulator, memory, binary, unary,
  load, store, branch, implied, control, undocumented,
}
use sys.Isa.Machine.{Machine}
use sys.Isa.Step.{exec, isa_step}
use sys.Memory.Interface.{BusAccess}

-- No access breaks it.
pub record IsKept {M : Type 0} (access : BusAccess M) (I : M → Type 0) : Type 0 where
  pub by_read : (mem : M) (addr : ℕ) → I mem → I (access.read mem addr).1
  pub by_write : (mem : M) (addr val : ℕ) → I mem → I (access.write mem addr val)

module _ {M : Type 0} ⦃access : BusAccess M⦄ (I : M → Type 0) (kept : IsKept access I) where
  with_address_keeps :
      (mode : Mode) (m : Machine M) (rest : ℕ → Machine M → Machine M)
      → ((addr : ℕ) (m' : Machine M) → I m'.bus → I (rest addr m').bus)
      → I m.bus
      → I (with_address mode m rest).bus
  unfolding with_address
  with_address_keeps Mode.immediate m rest f h = f _ _ h
  with_address_keeps Mode.zero_page m rest f h = f _ _ (kept.by_read _ _ h)
  with_address_keeps Mode.zero_page_x m rest f h = f _ _ (kept.by_read _ _ h)
  with_address_keeps Mode.zero_page_y m rest f h = f _ _ (kept.by_read _ _ h)
  with_address_keeps Mode.absolute m rest f h = f _ _ (kept.by_read _ _ (kept.by_read _ _ h))
  with_address_keeps Mode.absolute_x m rest f h = f _ _ (kept.by_read _ _ (kept.by_read _ _ h))
  with_address_keeps Mode.absolute_y m rest f h = f _ _ (kept.by_read _ _ (kept.by_read _ _ h))
  with_address_keeps Mode.indirect_x m rest f h =
      f _ _ (kept.by_read _ _ (kept.by_read _ _ (kept.by_read _ _ h)))
  with_address_keeps Mode.indirect_y m rest f h =
      f _ _ (kept.by_read _ _ (kept.by_read _ _ (kept.by_read _ _ h)))

  binary_keeps : (op : BinaryOp) (w : ℕ) (m : Machine M) → I m.bus → I (exec_binary op w m).bus
  unfolding exec_binary add_with_carry compare_with
  binary_keeps BinaryOp.adc w m h = h
  binary_keeps BinaryOp.sbc w m h = h
  binary_keeps BinaryOp.and w m h = h
  binary_keeps BinaryOp.ora w m h = h
  binary_keeps BinaryOp.eor w m h = h
  binary_keeps BinaryOp.cmp w m h = h
  binary_keeps BinaryOp.cpx w m h = h
  binary_keeps BinaryOp.cpy w m h = h
  binary_keeps BinaryOp.bit w m h = h

  register_keeps : (reg : Register) (r : ℕ) (m : Machine M) → I m.bus → I (put_register reg r m).bus
  unfolding put_register
  register_keeps Register.a r m h = h
  register_keeps Register.x r m h = h
  register_keeps Register.y r m h = h

  implied_keeps : (op : Implied) (m : Machine M) → I m.bus → I (exec_implied op m).bus
  unfolding exec_implied put_register
  implied_keeps Implied.inx m h = h
  implied_keeps Implied.dex m h = h
  implied_keeps Implied.iny m h = h
  implied_keeps Implied.dey m h = h
  implied_keeps Implied.tax m h = h
  implied_keeps Implied.txa m h = h
  implied_keeps Implied.tay m h = h
  implied_keeps Implied.tya m h = h
  implied_keeps Implied.tsx m h = h
  implied_keeps Implied.txs m h = h
  implied_keeps Implied.clc m h = h
  implied_keeps Implied.sec m h = h
  implied_keeps Implied.cli m h = h
  implied_keeps Implied.sei m h = h
  implied_keeps Implied.clv m h = h
  implied_keeps Implied.cld m h = h
  implied_keeps Implied.sed m h = h
  implied_keeps Implied.nop m h = h

  branched_keeps : (b : Bool) (m m' : Machine M) → I m.bus → I m'.bus → I (if b then m else m').bus
  branched_keeps true m m' h h' = h
  branched_keeps false m m' h h' = h'

  branch_keeps : (cond : Condition) (m : Machine M) → I m.bus → I (exec_branch cond m).bus
  unfolding exec_branch
  branch_keeps cond m h = branched_keeps _ _ _ (kept.by_read _ _ h) (kept.by_read _ _ h)

  control_keeps : (op : Control) (m : Machine M) → I m.bus → I (exec_control op m).bus
  unfolding exec_control put_register
  control_keeps Control.brk m h = kept.by_read _ _ (
      kept.by_read _ _
        (kept.by_write _ _ _ (kept.by_write _ _ _ (kept.by_write _ _ _ (kept.by_read _ _ h)))))
  control_keeps Control.jsr m h =
      kept.by_read _ _ (kept.by_write _ _ _ (kept.by_write _ _ _ (kept.by_read _ _ h)))
  control_keeps Control.rts m h = kept.by_read _ _ (kept.by_read _ _ h)
  control_keeps Control.rti m h =
      kept.by_read _ _ (kept.by_read _ _ (kept.by_read _ _ (kept.by_read _ _ h)))
  control_keeps Control.jmp_absolute m h = kept.by_read _ _ (kept.by_read _ _ h)
  control_keeps Control.jmp_indirect m h =
      kept.by_read _ _ (kept.by_read _ _ (kept.by_read _ _ (kept.by_read _ _ h)))
  control_keeps Control.pha m h = kept.by_write _ _ _ (kept.by_read _ _ h)
  control_keeps Control.php m h = kept.by_write _ _ _ (kept.by_read _ _ h)
  control_keeps Control.pla m h = kept.by_read _ _ (kept.by_read _ _ h)
  control_keeps Control.plp m h = kept.by_read _ _ (kept.by_read _ _ h)

  exec_keeps : (instr : Instr) (m : Machine M) → I m.bus → I (exec instr m).bus
  unfolding exec exec_at exec_accumulator load_at store_at
  exec_keeps (binary op mode) m h =
      with_address_keeps mode m _ (λ addr m' h'. binary_keeps op _ _ (kept.by_read _ _ h')) h
  exec_keeps (unary op accumulator) m h = h
  exec_keeps (unary op (memory mode)) m h =
      with_address_keeps mode m _ (λ addr m' h'. kept.by_write _ _ _ (kept.by_read _ _ h')) h
  exec_keeps (load reg mode) m h =
      with_address_keeps mode m _ (λ addr m' h'. register_keeps reg _ _ (kept.by_read _ _ h')) h
  exec_keeps (store reg mode) m h =
      with_address_keeps mode m _ (λ addr m' h'. kept.by_write _ _ _ h') h
  exec_keeps (branch cond) m h = branch_keeps cond m h
  exec_keeps (implied op) m h = implied_keeps op m h
  exec_keeps (control op) m h = control_keeps op m h
  exec_keeps undocumented m h = h

  pub isa_step_keeps : (m : Machine M) → I m.bus → I (isa_step m).bus
  unfolding isa_step
  isa_step_keeps m h = exec_keeps _ _ (kept.by_read _ _ h)
