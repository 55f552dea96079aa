-- ===== src/Peripherals/Tty/Serial.antt =====
-- src/peripherals/tty.cpp: the serial port's holding register and its output.
use sys.Base.{
  Option, none, some, ℕ, false, List, [], ◌∷◌, ◌++◌, ◌≡◌, refl, arith, u8, IsByte, ◌==◌,
  if◌then◌else◌,
}
use sys.Peripherals.Tty.{
  Tty, receive, read, write, read_serial, write_serial, write_tape, write_tape_control,
  write_tape_data,
}

-- If the holding register is free and a byte arrives, the status announces it, a read of DATA gives
-- it, the status then says that nothing waits, and a second byte that arrives before the read is
-- dropped.
pub receive_lem :
    (t : Tty) (a b : ℕ)
    → t.rx_ready ≡ false
    → IsByte a
    → ((read (receive t a) 0).0 ≡ 0x03)
      × ((read (receive t a) 1).0 ≡ a)
      × ((read (read (receive t a) 1).1 0).0 ≡ 0x02)
      × (receive (receive t a) b ≡ receive t a)
unfolding read read_serial receive
receive_lem t a b free byte = ground arith

tape_data-out :
    (t : Tty) (backing : Option (List ℕ)) (val : ℕ) → (write_tape_data t backing val).out ≡ t.out
unfolding write_tape_data
tape_data-out t none val = refl
tape_data-out t (some tape) val = ground arith

tape-out : (t : Tty) (offset val : ℕ) → (write_tape t offset val).out ≡ t.out
unfolding write_tape write_tape_control
tape-out t offset val = ground (arith, tape_data-out t t.tape_backing val)

-- A write to DATA puts its byte out after those before; a write to any other offset puts nothing
-- out.
pub out-write :
    (t : Tty) (offset val : ℕ)
    → (write t offset val).out ≡ (if offset == 1 then t.out ++ (u8 val ∷ []) else t.out)
unfolding write write_serial
out-write t offset val = ground (arith, tape-out t offset val)
