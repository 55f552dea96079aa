-- ===== src/Utils/ProgramLoader/Errors.antt =====
-- src/utils/program_loader.cpp: which texts are refused, and what has been written by then.
use sys.Base.{
  ℕ, ◌+◌, ◌%◌, ◌≡◌, refl, arith, Bool, true, false, ◌&&◌, Option, none, some, List, [], ◌∷◌, length,
  ◌==◌, if◌then◌else◌, u16, u8, bit_or, ◌*◌, ◌⊎◌, inl, inr, Bool-cases, ==_iff,
}
use sys.Memory.Device.{MemoryDevice, write}
use sys.Utils.ProgramLoader.{
  odd_digit_count, invalid_hex_character, hex_digit_value, strip, byte_of, load_digits,
  load_program,
}
use sys.Utils.ProgramLoader.Decode.{write_bytes}
use sys.Utils.ProgramLoader.WhiteSpace.{Spaced, strip-Spaced}

unfoldable pub is_digit : ℕ → Bool
is_digit c = elim (hex_digit_value c) [ none ↦ false | some v ↦ true ]

unfoldable pub all_digits : List ℕ → Bool
all_digits [] = true
all_digits (c ∷ cs) = is_digit c && all_digits cs

-- The bytes in front of the first pair that is not two digits.
unfoldable pub leading_bytes : List ℕ → List ℕ
leading_bytes [] = []
leading_bytes (c ∷ []) = []
leading_bytes (hi ∷ lo ∷ cs) =
    let rest = leading_bytes cs in
    elim (hex_digit_value hi) [
      | none ↦ []
      | some h ↦ elim (hex_digit_value lo) [ none ↦ [] | some l ↦ u8 (bit_or (h * 16) l) ∷ rest ]
    ]

value_cases : (r : Option ℕ) → (r ≡ none) ⊎ ((v : ℕ) × (r ≡ some v))
value_cases none = inl refl
value_cases (some v) = inr (v, refl)

read_digits :
    {D : Type 0} (put : D → ℕ → ℕ → D) (cs : List ℕ) (d : D) (address : ℕ)
    → length cs % 2 ≡ 0
    → load_digits put d address cs ≡ (
      (if all_digits cs then none else some invalid_hex_character),
      write_bytes put d address (leading_bytes cs),
    )
unfolding load_digits all_digits is_digit leading_bytes byte_of write_bytes
read_digits put [] d address e = refl
read_digits put (c ∷ []) d address e = absurd (omega (arith, e))
read_digits put (hi ∷ lo ∷ cs) d address e = elim (value_cases (hex_digit_value hi)) [
  | inl a ↦ ground (arith, a)
  | inr (h, a) ↦ elim (value_cases (hex_digit_value lo)) [
    | inl b ↦ ground (arith, a, b)
    | inr (l, b) ↦
        let byte : ℕ = u8 (bit_or (h * 16) l) in
        let later =
          read_digits put cs (put d address byte) (u16 (address + 1)) (omega (arith, e)) in
        ground (arith, a, b, later)
  ]
]

digits_loaded :
    (device : MemoryDevice) (start_address : ℕ) (hex : List ℕ)
    → load_program device start_address hex ≡ (
        if length (strip hex) % 2 == 0
        then (
          (if all_digits (strip hex) then none else some invalid_hex_character),
          write_bytes write device start_address (leading_bytes (strip hex)),
        )
        else (some odd_digit_count, device))
unfolding load_program
digits_loaded device start_address hex = elim (Bool-cases (length (strip hex) % 2 == 0)) [
  | inl even ↦ ground (
    arith,
    even,
    read_digits write (strip hex) device start_address ((==_iff (length (strip hex) % 2) 0).0 even),
  )
  | inr odd ↦ ground (arith, odd)
]

-- The digits of a text are its characters without the white space, which may stand anywhere.
-- `loadProgram` throws the exception for an odd number of digits exactly if that number is odd, and
-- has written nothing then. If it is even, it throws the one for a bad character exactly if some
-- character is no digit, and in either case has written the bytes of all pairs in front of the first
-- pair with such a character, and no other.
pub load_program_lem :
    (device : MemoryDevice) (start_address : ℕ) (hex : List ℕ)
    → Spaced hex (strip hex)
      × (load_program device start_address hex ≡ (
          if length (strip hex) % 2 == 0
          then (
            (if all_digits (strip hex) then none else some invalid_hex_character),
            write_bytes write device start_address (leading_bytes (strip hex)),
          )
          else (some odd_digit_count, device)))
load_program_lem device start_address hex =
    (strip-Spaced hex, digits_loaded device start_address hex)
