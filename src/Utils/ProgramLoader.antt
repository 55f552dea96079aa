-- ===== src/Utils/ProgramLoader.antt =====
-- src/utils/program_loader.h and src/utils/program_loader.cpp: a program in hex written into a
-- device. A character is its code.
pub mod WhiteSpace
pub mod Decode
pub mod Errors
pub mod RamImage
use sys.Base.{
  ℕ, ◌+◌, ◌-◌, ◌*◌, ◌%◌, Bool, true, false, not, ◌&&◌, ◌||◌, Option, none, some, List, [], ◌∷◌, leb,
  ◌==◌, bit_or, if◌then◌else◌, length, u8, u16,
}
use sys.Memory.Device.{MemoryDevice, write}

-- The exceptions of `loadProgram`.
pub data LoadError : Type 0 where
  odd_digit_count invalid_hex_character : LoadError

abbrev between : ℕ → ℕ → ℕ → Bool
between lo c hi = leb lo c && leb c hi

-- `hexDigitValue`, which throws on any other character.
unfoldable pub hex_digit_value : ℕ → Option ℕ
hex_digit_value c =
    if between 48 c 57
    then some (c - 48)
    else if between 97 c 102
    then some (c - 97 + 10)
    else if between 65 c 70
    then some (c - 65 + 10)
    else none

-- `std::isspace`.
unfoldable pub is_space : ℕ → Bool
is_space c = between 9 c 13 || c == 32

-- The characters that are kept.
unfoldable pub strip : List ℕ → List ℕ
strip [] = []
strip (c ∷ cs) = let rest = strip cs in if is_space c then rest else c ∷ rest

infixl 5 ◌>>=◌
abbrev ◌>>=◌ {ℓ κ} : {A : Type ℓ} {B : Type κ} → Option A → (A → Option B) → Option B
none >>= f = none
some a >>= f = f a

-- `(hexDigitValue(digits[i]) << 4) | hexDigitValue(digits[i + 1])`.
unfoldable pub byte_of : ℕ → ℕ → Option ℕ
byte_of hi lo = do h ← hex_digit_value hi; l ← hex_digit_value lo; some (u8 (bit_or (h * 16) l))

-- The loop. The bytes before an exception have been written. A digit without a second one, which
-- the check before the loop excludes, is followed by the string's terminator, which is no digit.
unfoldable pub load_digits : {D : Type 0} → (D → ℕ → ℕ → D) → D → ℕ → List ℕ → Option LoadError × D
load_digits put device address [] = (none, device)
load_digits put device address (hi ∷ []) = (some invalid_hex_character, device)
load_digits put device address (hi ∷ lo ∷ digits) = elim (byte_of hi lo) [
  | none ↦ (some invalid_hex_character, device)
  | some byte ↦ load_digits put (put device address byte) (u16 (address + 1)) digits
]

-- `loadProgram`: no digit is looked at if their number is odd.
unfoldable pub load_program : MemoryDevice → ℕ → List ℕ → Option LoadError × MemoryDevice
load_program device start_address hex =
    let digits = strip hex in
    if not (length digits % 2 == 0)
    then (some odd_digit_count, device)
    else load_digits write device start_address digits
