-- ===== src/Isa/Exec.antt =====
-- What each instruction does, in one step.
use sys.Base.{
  ℕ, ◌+◌, ◌-◌, ◌*◌, ◌/◌, ◌%◌, Bool, true, false, bit_and, bit_or, bit_xor, ltb, ◌==◌, has_bit,
  if◌then◌else◌, u8, u16, join,
}
use sys.Cpu.Binary.{alu_overflow}
use sys.Cpu.Flags.{Flags}
use sys.Isa.Instr.{Mode, BinaryOp, UnaryOp, Register, Implied}
use sys.Isa.Machine.{Machine, with_flags, zn, load_byte, store_byte, fetch_byte, fetch_word}
use sys.Memory.Interface.{BusAccess}

abbrev bit_of : Bool → ℕ
bit_of c = if c then 1 else 0

-- The new value of a one-operand instruction, and the flags with it.
unfoldable pub exec_unary : UnaryOp → ℕ → Flags → ℕ × Flags
exec_unary UnaryOp.asl w f = let r : ℕ = u8 (w * 2) in (r, record (zn r f) { c = has_bit w 0x80 })
exec_unary UnaryOp.lsr w f = let r : ℕ = u8 (w / 2) in (r, record (zn r f) { c = has_bit w 0x01 })
exec_unary UnaryOp.rol w f =
    let r : ℕ = u8 (bit_or (w * 2) (bit_of f.c)) in (r, record (zn r f) { c = has_bit w 0x80 })
exec_unary UnaryOp.ror w f =
    let r : ℕ = u8 (bit_or (w / 2) (if f.c then 0x80 else 0)) in
    (r, record (zn r f) { c = has_bit w 0x01 })
exec_unary UnaryOp.inc w f = let r : ℕ = (w + 1) % 256 in (r, zn r f)
exec_unary UnaryOp.dec w f = let r : ℕ = (w + 255) % 256 in (r, zn r f)

module _ {M : Type 0} where
  -- A + w + C, with every flag of an addition.
  unfoldable pub add_with_carry : ℕ → Machine M → Machine M
  add_with_carry w m =
      let sum : ℕ = m.a + w + bit_of m.p_flags.c in
      let r : ℕ = sum % 256 in
      record m {
        a = r;
        p_flags = record (zn r m.p_flags) { c = ltb 255 sum; v = alu_overflow m.a w r };
      }

  -- A register against an operand: the flags of register - operand.
  unfoldable pub compare_with : ℕ → ℕ → Machine M → Machine M
  compare_with reg w m =
      let sum : ℕ = reg + (255 - w) + 1 in
      with_flags (record (zn (sum % 256) m.p_flags) { c = ltb 255 sum }) m

  abbrev put_a : ℕ → Machine M → Machine M
  put_a r m = record m { a = r; p_flags = zn r m.p_flags }

  unfoldable pub exec_binary : BinaryOp → ℕ → Machine M → Machine M
  unfolding add_with_carry compare_with
  exec_binary BinaryOp.adc w m = add_with_carry w m
  exec_binary BinaryOp.sbc w m = add_with_carry (255 - w) m
  exec_binary BinaryOp.and w m = put_a (u8 (bit_and m.a w)) m
  exec_binary BinaryOp.ora w m = put_a (u8 (bit_or m.a w)) m
  exec_binary BinaryOp.eor w m = put_a (u8 (bit_xor m.a w)) m
  exec_binary BinaryOp.cmp w m = compare_with m.a w m
  exec_binary BinaryOp.cpx w m = compare_with m.x w m
  exec_binary BinaryOp.cpy w m = compare_with m.y w m
  exec_binary BinaryOp.bit w m =
      with_flags
        (record (m.p_flags) { z = u8 (bit_and m.a w) == 0; v = has_bit w 0x40; n = has_bit w 0x80 })
        m

  unfoldable pub exec_accumulator : UnaryOp → Machine M → Machine M
  unfolding exec_unary
  exec_accumulator op m =
      let (r, f) = exec_unary op m.a m.p_flags in record m { a = r; p_flags = f }

  unfoldable pub register_value : Register → Machine M → ℕ
  register_value Register.a m = m.a
  register_value Register.x m = m.x
  register_value Register.y m = m.y

  -- A load into a register, with Z and N.
  unfoldable pub put_register : Register → ℕ → Machine M → Machine M
  put_register Register.a r m = record m { a = r; p_flags = zn r m.p_flags }
  put_register Register.x r m = record m { x = r; p_flags = zn r m.p_flags }
  put_register Register.y r m = record m { y = r; p_flags = zn r m.p_flags }

  unfoldable pub exec_implied : Implied → Machine M → Machine M
  unfolding put_register
  exec_implied Implied.inx m = put_register Register.x ((m.x + 1) % 256) m
  exec_implied Implied.dex m = put_register Register.x ((m.x + 255) % 256) m
  exec_implied Implied.iny m = put_register Register.y ((m.y + 1) % 256) m
  exec_implied Implied.dey m = put_register Register.y ((m.y + 255) % 256) m
  exec_implied Implied.tax m = put_register Register.x (u8 m.a) m
  exec_implied Implied.txa m = put_register Register.a (u8 m.x) m
  exec_implied Implied.tay m = put_register Register.y (u8 m.a) m
  exec_implied Implied.tya m = put_register Register.a (u8 m.y) m
  exec_implied Implied.tsx m = put_register Register.x (u8 m.sp) m
  exec_implied Implied.txs m = record m { sp = u8 m.x }
  exec_implied Implied.clc m = with_flags (record (m.p_flags) { c = false }) m
  exec_implied Implied.sec m = with_flags (record (m.p_flags) { c = true }) m
  exec_implied Implied.cli m = with_flags (record (m.p_flags) { i = false }) m
  exec_implied Implied.sei m = with_flags (record (m.p_flags) { i = true }) m
  exec_implied Implied.clv m = with_flags (record (m.p_flags) { v = false }) m
  exec_implied Implied.cld m = with_flags (record (m.p_flags) { d = false }) m
  exec_implied Implied.sed m = with_flags (record (m.p_flags) { d = true }) m
  exec_implied Implied.nop m = m

module _ {M : Type 0} ⦃access : BusAccess M⦄ where
  -- The effective address of a mode, once its operand bytes and pointers are read.
  unfoldable pub with_address : Mode → Machine M → (ℕ → Machine M → Machine M) → Machine M
  with_address Mode.immediate m rest = rest m.pc (record m { pc = u16 (m.pc + 1) })
  with_address Mode.zero_page m rest = fetch_byte m rest
  with_address Mode.zero_page_x m rest = fetch_byte m (λ z m'. rest ((z + m'.x) % 256) m')
  with_address Mode.zero_page_y m rest = fetch_byte m (λ z m'. rest ((z + m'.y) % 256) m')
  with_address Mode.absolute m rest = fetch_word m rest
  with_address Mode.absolute_x m rest = fetch_word m (λ w m'. rest (u16 (w + m'.x)) m')
  with_address Mode.absolute_y m rest = fetch_word m (λ w m'. rest (u16 (w + m'.y)) m')
  with_address Mode.indirect_x m rest = fetch_byte m λ z m₁.
      let at : ℕ = (z + m₁.x) % 256 in
      load_byte at m₁ (λ lo m₂. load_byte ((at + 1) % 256) m₂ (λ hi m₃. rest (join lo hi) m₃))
  with_address Mode.indirect_y m rest = fetch_byte m λ z m₁.
      load_byte z m₁
        (λ lo m₂. load_byte ((z + 1) % 256) m₂ (λ hi m₃. rest (u16 (join lo hi + m₃.y)) m₃))

  unfoldable pub exec_at : UnaryOp → ℕ → Machine M → Machine M
  unfolding exec_unary
  exec_at op addr m =
      load_byte addr m
        λ w m'. let (r, f) = exec_unary op w m'.p_flags in with_flags f (store_byte addr r m')

  unfoldable pub load_at : Register → ℕ → Machine M → Machine M
  load_at reg addr m = load_byte addr m (λ w m'. put_register reg (u8 w) m')

  unfoldable pub store_at : Register → ℕ → Machine M → Machine M
  store_at reg addr m = store_byte addr (register_value reg m) m
