-- ===== src/Peripherals/Tty.antt =====
-- src/peripherals/tty.h and src/peripherals/tty.cpp: the serial port and the tape drive.
pub mod Serial
pub mod Tape
pub mod Replay
use sys.Base.{
  ℕ, ◌+◌, Bool, true, false, not, ◌||◌, Option, none, some, List, [], ◌∷◌, ◌++◌, ltb, leb, ◌==◌,
  bit_or, has_bit, if◌then◌else◌, length, get_or, set, u8,
}

-- `out` is what was put into `m_out`, oldest first; `tape_backing` is the content of the stream
-- behind `m_tapeBacking`, if there is one.
pub record Tty : Type 0 where
  pub out : List ℕ
  pub rx_byte : ℕ
  pub rx_ready : Bool
  pub tape_backing : Option (List ℕ)
  pub tape_position : ℕ
  pub tape_motor_on : Bool
  pub tape_eot : Bool
  pub tape_error : Bool

-- `TTY(out, tapeBacking)`.
abbrev pub new_tty : Option (List ℕ) → Tty
new_tty backing = record {
  out = [];
  rx_byte = 0;
  rx_ready = false;
  tape_backing = backing;
  tape_position = 0;
  tape_motor_on = false;
  tape_eot = false;
  tape_error = false;
}

-- A status register under construction: `if (bit) status |= mask`.
abbrev flag : Bool → ℕ → ℕ → ℕ
flag bit mask status = if bit then bit_or status mask else status

abbrev is_some {ℓ} : {A : Type ℓ} → Option A → Bool
is_some none = false
is_some (some a) = true

-- `seekp(position)` and `put(val)` on a stream in memory: the byte at the position, or one more at the
-- end; past the end the seek fails (a file would be filled up to there).
unfoldable pub put_at : List ℕ → ℕ → ℕ → List ℕ
put_at tape position val =
    if ltb position (length tape)
    then set tape position val
    else if position == length tape
    then tape ++ (val ∷ [])
    else tape

abbrev pub size : Tty → ℕ
size t = 256

unfoldable pub read_serial : Tty → ℕ → ℕ × Tty
read_serial t offset =
    if offset == 0
    then (flag t.rx_ready 0x01 0x02, t)
    else (t.rx_byte, record t { rx_ready = false })

unfoldable pub write_serial : Tty → ℕ → ℕ → Tty
write_serial t offset val = if offset == 1 then record t { out = t.out ++ (u8 val ∷ []) } else t

-- One byte is held; another is dropped.
unfoldable pub receive : Tty → ℕ → Tty
receive t byte = if t.rx_ready then t else record t { rx_byte = u8 byte; rx_ready = true }

-- A read of TAPE_DATA, given the stream behind `m_tapeBacking`.
unfoldable pub read_tape_data : Tty → Option (List ℕ) → ℕ × Tty
read_tape_data t none = (0, record t { tape_error = true })
read_tape_data t (some tape) =
    if not t.tape_motor_on
    then (0, record t { tape_error = true })
    else if ltb t.tape_position (length tape)
    then (
      u8 (get_or tape t.tape_position 0),
      record t { tape_eot = false; tape_error = false; tape_position = t.tape_position + 1 },
    )
    else (0, record t { tape_eot = true; tape_error = true })

unfoldable pub read_tape : Tty → ℕ → ℕ × Tty
read_tape t offset =
    if offset == 0x02
    then (
      flag t.tape_error 0x08
          (flag t.tape_eot 0x04 (flag t.tape_motor_on 0x02 (flag (is_some t.tape_backing) 0x01 0))),
      t,
    )
    else if offset == 0x03
    then (0, t)
    else read_tape_data t t.tape_backing

-- TAPE_CONTROL: the motor, and the rewind.
unfoldable pub write_tape_control : Tty → ℕ → Tty
write_tape_control t val =
    let turned = record t { tape_motor_on = has_bit val 0x01 } in
    if has_bit val 0x02
    then record turned { tape_position = 0; tape_eot = false; tape_error = false }
    else turned

-- A write of TAPE_DATA, given the stream behind `m_tapeBacking`.
unfoldable pub write_tape_data : Tty → Option (List ℕ) → ℕ → Tty
unfolding put_at
write_tape_data t none val = record t { tape_error = true }
write_tape_data t (some tape) val =
    if not t.tape_motor_on then record t { tape_error = true } else record t {
      tape_backing = some (put_at tape t.tape_position (u8 val));
      tape_position = t.tape_position + 1;
      tape_eot = false;
      tape_error = false;
    }

unfoldable pub write_tape : Tty → ℕ → ℕ → Tty
unfolding write_tape_control
write_tape t offset val =
    if offset == 0x02
    then t
    else if offset == 0x03
    then write_tape_control t val
    else write_tape_data t t.tape_backing val

unfoldable pub read : Tty → ℕ → ℕ × Tty
unfolding read_serial read_tape
read t offset =
    if leb offset 1
    then read_serial t offset
    else if leb offset 4
    then read_tape t offset
    else (0x00, t)

unfoldable pub write : Tty → ℕ → ℕ → Tty
unfolding write_serial write_tape
write t offset val =
    if leb offset 1
    then write_serial t offset val
    else if leb offset 4
    then write_tape t offset val
    else t
