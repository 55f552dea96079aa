-- ===== src/Isa/Step.antt =====
-- One instruction of a program.
use sys.Isa.Decode.{decode}
use sys.Isa.Exec.{
  exec_binary, with_address, exec_at, exec_accumulator, load_at, store_at, exec_implied,
}
use sys.Isa.Flow.{exec_branch, exec_control}
use sys.Isa.Instr.{
  Instr, accumulator, memory, binary, unary, load, store, branch, implied, control, undocumented,
}
use sys.Isa.Machine.{Machine, load_byte, fetch_byte}
use sys.Memory.Interface.{BusAccess}

module _ {M : Type 0} ⦃access : BusAccess M⦄ where
  unfoldable pub exec : Instr → Machine M → Machine M
  exec (binary op mode) m = with_address mode m (λ addr m'. load_byte addr m' (exec_binary op))
  exec (unary op accumulator) m = exec_accumulator op m
  exec (unary op (memory mode)) m = with_address mode m (exec_at op)
  exec (load reg mode) m = with_address mode m (load_at reg)
  exec (store reg mode) m = with_address mode m (store_at reg)
  exec (branch cond) m = exec_branch cond m
  exec (implied op) m = exec_implied op m
  exec (control op) m = exec_control op m
  -- No opcode that the manual lacks does anything.
  exec undocumented m = m

  unfoldable pub isa_step : Machine M → Machine M
  isa_step m = fetch_byte m (λ opcode m'. exec (decode opcode) m')
