-- ===== src/Peripherals/Tty/Tape.antt =====
-- src/peripherals/tty.cpp: the tape, with its one head.
use sys.Base.{
  ℕ, zero, suc, ◌+◌, ◌≤◌, ◌<◌, Option, none, some, List, [], ◌∷◌, ◌++◌, ◌≡◌, refl, arith, u8,
  length, get_or, length-set, get_or-set_self, get_or-set_ne, if◌then◌else◌,
}
use sys.Peripherals.Tty.{
  Tty, read, write, receive, put_at, read_tape, read_tape_data, write_tape, write_tape_control,
  write_tape_data, read_serial, write_serial,
}

length-snoc : (tape : List ℕ) (v : ℕ) → length (tape ++ (v ∷ [])) ≡ length tape + 1
length-snoc [] v = refl
length-snoc (x ∷ tape) v = omega (arith, length-snoc tape v)

get_or-snoc_last : (tape : List ℕ) (v d : ℕ) → get_or (tape ++ (v ∷ [])) (length tape) d ≡ v
get_or-snoc_last [] v d = refl
get_or-snoc_last (x ∷ tape) v d = get_or-snoc_last tape v d

get_or-snoc :
    (tape : List ℕ) (v d i : ℕ) → i < length tape → get_or (tape ++ (v ∷ [])) i d ≡ get_or tape i d
get_or-snoc [] v d i h = absurd (omega arith)
get_or-snoc (x ∷ tape) v d zero h = refl
get_or-snoc (x ∷ tape) v d (suc i) h = get_or-snoc tape v d i (omega arith)

-- A write at the head: the byte is there, the tape does not shrink, the rest stays.
pub put_at_lem :
    (tape : List ℕ) (p v : ℕ)
    → p ≤ length tape
    → (p < length (put_at tape p v))
      × (length tape ≤ length (put_at tape p v))
      × (get_or (put_at tape p v) p 0 ≡ v)
unfolding put_at
put_at_lem tape p v h = ground (
  arith,
  length-set tape p v,
  length-snoc tape v,
  get_or-set_self tape p v 0,
  get_or-snoc_last tape v 0,
)

pub put_at_below :
    (tape : List ℕ) (p v i : ℕ)
    → p ≤ length tape
    → i < p
    → get_or (put_at tape p v) i 0 ≡ get_or tape i 0
unfolding put_at
put_at_below tape p v i h k =
    ground (arith, get_or-set_ne tape p i v 0 (λ e. omega arith), get_or-snoc tape v 0 i)

abbrev pub tape_length : Option (List ℕ) → ℕ
tape_length none = 0
tape_length (some tape) = length tape

-- The head is on the tape, or at its end.
abbrev pub IsOnTape : Tty → Type 0
IsOnTape t = t.tape_position ≤ tape_length t.tape_backing

read_tape-IsOnTape : (t : Tty) (offset : ℕ) → IsOnTape t → IsOnTape (read_tape t offset).1
unfolding read_tape read_tape_data
read_tape-IsOnTape t offset h = ground arith

write_tape_data-IsOnTape :
    (t : Tty) (backing : Option (List ℕ)) (val : ℕ)
    → t.tape_backing ≡ backing
    → t.tape_position ≤ tape_length backing
    → IsOnTape (write_tape_data t backing val)
unfolding write_tape_data
write_tape_data-IsOnTape t none val e h = ground arith
write_tape_data-IsOnTape t (some tape) val e h =
    ground (arith, put_at_lem tape t.tape_position (u8 val) h)

write_tape-IsOnTape : (t : Tty) (offset val : ℕ) → IsOnTape t → IsOnTape (write_tape t offset val)
unfolding write_tape write_tape_control
write_tape-IsOnTape t offset val h =
    ground (arith, write_tape_data-IsOnTape t t.tape_backing val refl h)

-- If the head is on the tape or at its end, it is after any read, write or received byte, so that
-- no seek of the drive goes past the end.
pub access-IsOnTape :
    (t : Tty) (offset val : ℕ)
    → IsOnTape t
    → IsOnTape (read t offset).1 × IsOnTape (write t offset val) × IsOnTape (receive t val)
unfolding read read_serial write write_serial receive
access-IsOnTape t offset val h =
    ground (arith, read_tape-IsOnTape t offset h, write_tape-IsOnTape t offset val h)

-- With a tape in the drive, TAPE_STATUS is the sum of PRESENT, MOTOR, EOT and ERROR, and reading it
-- changes nothing.
pub read-tape_status :
    (t : Tty) (tape : List ℕ)
    → t.tape_backing ≡ some tape
    → read t 2 ≡ (
      1
          + (if t.tape_motor_on then 2 else 0)
          + (if t.tape_eot then 4 else 0)
          + (if t.tape_error then 8 else 0),
      t,
    )
unfolding read read_tape
read-tape_status t tape e = ground arith
