-- ===== src/Arithmetic/Status.antt =====
-- src/cpu/cpu6502.cpp: the status register as a byte, and back.
use sys.Base.{ℕ, ◌≡◌, refl, arith, IsByte, Bool, true, false, not, ◌&&◌, ◌==◌}
use sys.Base.Tables.{all_below, all_below_sound}
use sys.Cpu.Flags.{Flags, to_byte, of_byte}

every : (Bool → Bool) → Bool
every p = p true && p false

every_sound : (p : Bool → Bool) → every p ≡ true → (b : Bool) → p b ≡ true
unfolding every
every_sound p e true = ground arith
every_sound p e false = ground arith

abbrev same_bit : Bool → Bool → Bool
same_bit true b = b
same_bit false b = not b

same : Flags → Flags → Bool
same f g =
    same_bit f.c g.c
    && (same_bit f.z g.z
        && (same_bit f.i g.i
            && (same_bit f.d g.d
                && (same_bit f.b g.b
                    && (same_bit f.unused g.unused && (same_bit f.v g.v && same_bit f.n g.n))))))

same_sound : (f g : Flags) → same f g ≡ true → f ≡ g
unfolding same
same_sound f g e = ground arith

abbrev pulled : Bool → Bool → Bool → Bool → Bool → Bool → Bool → Bool → Bool
pulled c z i d b unused v n =
    let f : Flags = record { c = c; z = z; i = i; d = d; b = b; unused = unused; v = v; n = n } in
    same (of_byte (to_byte f)) f

all_pulled :
    every (λ c. every λ z.
      every λ i.
        every λ d. every λ b. every λ unused. every λ v. every λ n. pulled c z i d b unused v n)
    ≡ true
unfolding every same of_byte to_byte
all_pulled = refl

-- All eight bits of the status register are got back from the byte that is pushed.
pub of_byte-to_byte : (f : Flags) → of_byte (to_byte f) ≡ f
of_byte-to_byte f =
    let e₁ = every_sound _ all_pulled f.c in
    let e₂ = every_sound _ e₁ f.z in
    let e₃ = every_sound _ e₂ f.i in
    let e₄ = every_sound _ e₃ f.d in
    let e₅ = every_sound _ e₄ f.b in
    let e₆ = every_sound _ e₅ f.unused in
    let e₇ = every_sound _ e₆ f.v in
    let e₈ = every_sound _ e₇ f.n in same_sound (of_byte (to_byte f)) f e₈

abbrev comes_back : ℕ → Bool
comes_back b = to_byte (of_byte b) == b

-- A byte pulled into the status register is got back when it is pushed.
pub to_byte-of_byte : (b : ℕ) → IsByte b → to_byte (of_byte b) ≡ b
to_byte-of_byte b h =
    let e = all_below_sound 256 comes_back b (unfold all_below of_byte to_byte in refl) h in
    ground (arith, e)
