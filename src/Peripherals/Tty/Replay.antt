-- ===== src/Peripherals/Tty/Replay.antt =====
-- src/peripherals/tty.cpp: what is recorded on the tape is what is played back.
use sys.Base.{
  ℕ, zero, suc, ◌+◌, ◌≤◌, ◌<◌, true, some, List, [], ◌∷◌, map, ◌≡◌, refl, ◌∙◌, ap, subst, arith, u8,
  length, get_or,
}
use sys.Peripherals.Tty.{
  Tty, read, write, put_at, read_tape, read_tape_data, write_tape, write_tape_control,
  write_tape_data,
}
use sys.Peripherals.Tty.Tape.{put_at_lem, put_at_below}

-- A driver's loops over TAPE_DATA.
unfoldable pub write_all : Tty → List ℕ → Tty
write_all t [] = t
write_all t (b ∷ bs) = write_all (write t 0x04 b) bs

unfoldable pub read_all : ℕ → Tty → List ℕ
read_all zero t = []
read_all (suc n) t = (read t 0x04).0 ∷ read_all n (read t 0x04).1

-- TAPE_CONTROL with the motor on and a rewind.
abbrev pub rewind : Tty → Tty
rewind t = write t 0x03 0x03

record IsAt (tape : List ℕ) (p : ℕ) (t : Tty) : Type 0 where
  backing : t.tape_backing ≡ some tape
  head : t.tape_position ≡ p
  motor : t.tape_motor_on ≡ true

rewind-IsAt : (t : Tty) (tape : List ℕ) → t.tape_backing ≡ some tape → IsAt tape 0 (rewind t)
unfolding write write_tape write_tape_control
rewind-IsAt t tape e = record { backing = e; head = refl; motor = refl }

write_data :
    (t : Tty) (tape : List ℕ) (p b : ℕ)
    → IsAt tape p t
    → IsAt (put_at tape p (u8 b)) (p + 1) (write t 0x04 b)
unfolding write write_tape write_tape_data
write_data t tape p b at = record {
  backing = ground (arith, at.backing, at.head, at.motor);
  head = ground (arith, at.backing, at.head, at.motor);
  motor = ground (arith, at.backing, at.head, at.motor);
}

read_data :
    (t : Tty) (tape : List ℕ) (p : ℕ)
    → IsAt tape p t
    → p < length tape
    → ((read t 0x04).0 ≡ u8 (get_or tape p 0)) × IsAt tape (p + 1) (read t 0x04).1
unfolding read read_tape read_tape_data
read_data t tape p at h = (
  ground (arith, at.backing, at.head, at.motor),
  record {
    backing = ground (arith, at.backing, at.head, at.motor);
    head = ground (arith, at.backing, at.head, at.motor);
    motor = ground (arith, at.backing, at.head, at.motor);
  },
)

unfoldable put_all : List ℕ → ℕ → List ℕ → List ℕ
put_all tape p [] = tape
put_all tape p (b ∷ bs) = put_all (put_at tape p (u8 b)) (p + 1) bs

write_all-IsAt :
    (bs : List ℕ) (t : Tty) (tape : List ℕ) (p : ℕ)
    → IsAt tape p t
    → IsAt (put_all tape p bs) (p + length bs) (write_all t bs)
unfolding write_all put_all
write_all-IsAt [] t tape p at = subst (λ (k : ℕ). IsAt tape k t) (omega arith) at
write_all-IsAt (b ∷ bs) t tape p at =
    subst
      (λ (k : ℕ).
        IsAt (put_all (put_at tape p (u8 b)) (p + 1) bs) k (write_all (write t 0x04 b) bs))
      (omega arith)
      (write_all-IsAt bs (write t 0x04 b) (put_at tape p (u8 b)) (p + 1) (write_data t tape p b at))

-- Recording further on leaves what is behind the head alone.
put_all_below :
    (bs tape : List ℕ) (p i : ℕ)
    → p ≤ length tape
    → i < p
    → (get_or (put_all tape p bs) i 0 ≡ get_or tape i 0)
      × (length tape ≤ length (put_all tape p bs))
unfolding put_all
put_all_below [] tape p i h k = (refl, omega arith)
put_all_below (b ∷ bs) tape p i h k =
    let placed = put_at_lem tape p (u8 b) h in
    let (same, longer) =
      put_all_below bs (put_at tape p (u8 b)) (p + 1) i (omega (arith, placed)) (omega arith) in
    (same ∙ put_at_below tape p (u8 b) i h k, omega (arith, placed, longer))

-- The bytes stand on the tape from a position on.
data Stands (tape : List ℕ) : ℕ → List ℕ → Type 0 where
  end : {p : ℕ} → Stands tape p []
  byte :
      {p b : ℕ} {bs : List ℕ}
      → p < length tape
      → get_or tape p 0 ≡ u8 b
      → Stands tape (p + 1) bs
      → Stands tape p (b ∷ bs)

put_all-Stands : (bs tape : List ℕ) (p : ℕ) → p ≤ length tape → Stands (put_all tape p bs) p bs
unfolding put_all
put_all-Stands [] tape p h = end
put_all-Stands (b ∷ bs) tape p h =
    let (there, longer, value) = put_at_lem tape p (u8 b) h in
    let (same, kept) =
      put_all_below bs (put_at tape p (u8 b)) (p + 1) p (omega (arith, there)) (omega arith) in
    byte (omega (arith, there, kept)) (same ∙ value)
      (put_all-Stands bs (put_at tape p (u8 b)) (p + 1) (omega (arith, there)))

plays :
    (bs tape : List ℕ) (p : ℕ) (t : Tty)
    → Stands tape p bs
    → IsAt tape p t
    → read_all (length bs) t ≡ map u8 bs
unfolding read_all
plays [] tape p t s at = refl
plays (b ∷ bs) tape p t (byte h e s) at =
    let (value, on) = read_data t tape p at h in
    let rest = plays bs tape (p + 1) (read t 0x04).1 s on in
    ap (λ (v : ℕ). v ∷ read_all (length bs) (read t 0x04).1) (value ∙ omega (arith, e))
    ∙ ap (λ (vs : List ℕ). u8 b ∷ vs) rest

-- With a tape in the drive, bytes recorded after a rewind with the motor on are what is played
-- back, in order, after another, whatever was on the tape.
pub replay :
    (t : Tty) (tape bs : List ℕ)
    → t.tape_backing ≡ some tape
    → read_all (length bs) (rewind (write_all (rewind t) bs)) ≡ map u8 bs
replay t tape bs e =
    let recorded = write_all-IsAt bs (rewind t) tape 0 (rewind-IsAt t tape e) in
    plays bs (put_all tape 0 bs) 0 (rewind (write_all (rewind t) bs))
      (put_all-Stands bs tape 0 (omega arith))
      (rewind-IsAt (write_all (rewind t) bs) (put_all tape 0 bs) recorded.backing)
