-- ===== src/Arithmetic/Rotate.antt =====
-- src/cpu/alu.cpp: the shifts and rotations of a byte, with the bit that goes out.
use sys.Base.{ℕ, ◌+◌, ◌*◌, ◌≡◌, refl, arith, IsByte, Bool, true, false, ◌&&◌, ◌==◌}
use sys.Base.Tables.{all_below, all_below_sound}
use sys.Cpu.Alu.{AluFunction, AluResult, execute, carry_bit}

abbrev to_left : AluResult → ℕ
to_left r = r.value + carry_bit r.carry 256

abbrev to_right : AluResult → ℕ
to_right r = r.value * 2 + carry_bit r.carry 1

abbrev shifts_right : Bool → ℕ → Bool
shifts_right c b =
    (to_left (execute 0 b AluFunction.shl c) == b * 2)
    && ((to_right (execute 0 b AluFunction.shr c) == b)
        && ((to_left (execute 0 b AluFunction.rol c) == b * 2 + carry_bit c 1)
            && (to_right (execute 0 b AluFunction.ror c) == b + carry_bit c 256)))

all_shift : (c : Bool) → all_below 256 (shifts_right c) ≡ true
unfolding all_below execute
all_shift true = refl
all_shift false = refl

-- For a byte and a carry in, each shift and rotation loses nothing: its value with the bit that
-- goes out is the byte with the bit that comes in.
pub execute-shift :
    (a b : ℕ) (c : Bool)
    → IsByte b
    → ((execute a b AluFunction.shl c).value + carry_bit (execute a b AluFunction.shl c).carry 256
        ≡ b * 2)
      × ((execute a b AluFunction.shr c).value * 2
            + carry_bit (execute a b AluFunction.shr c).carry 1
          ≡ b)
      × ((execute a b AluFunction.rol c).value + carry_bit (execute a b AluFunction.rol c).carry 256
          ≡ b * 2 + carry_bit c 1)
      × ((execute a b AluFunction.ror c).value * 2
            + carry_bit (execute a b AluFunction.ror c).carry 1
          ≡ b + carry_bit c 256)
unfolding execute
execute-shift a b c h =
    let e = all_below_sound 256 (shifts_right c) b (all_shift c) h in
    (ground (arith, e), ground (arith, e), ground (arith, e), ground (arith, e))
