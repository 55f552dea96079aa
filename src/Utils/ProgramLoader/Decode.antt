-- ===== src/Utils/ProgramLoader/Decode.antt =====
-- src/utils/program_loader.cpp: what is written is what the hex digits stand for.
use sys.Base.Tables.{all_below, all_below_sound}
use sys.Base.{
  ℕ, ◌+◌, ◌*◌, ◌%◌, ◌≤◌, ◌<◌, Bool, none, some, List, [], ◌∷◌, ◌≡◌, refl, ◌∙◌, ap, arith, ◌⊎◌, ◌==◌,
  length, u16, u8, bit_or, ◌-◌, ◌/◌, ltb, if◌then◌else◌, IsByte,
}
use sys.Memory.Device.{MemoryDevice, write}
use sys.Utils.ProgramLoader.WhiteSpace.{Spaced, strip_unique}
use sys.Utils.ProgramLoader.{hex_digit_value, strip, byte_of, load_digits, load_program}

-- A hex digit and its value: '0' to '9', 'A' to 'F' or 'a' to 'f'.
abbrev pub IsHexDigit : ℕ → ℕ → Type 0
IsHexDigit c v = ((v < 10) × (c ≡ 48 + v)) ⊎ ((10 ≤ v) × (v < 16) × ((c ≡ 55 + v) ⊎ (c ≡ 87 + v)))

-- `IsListing digits bytes`: each byte stands there as two digits, the high one first.
pub data IsListing : List ℕ → List ℕ → Type 0 where
  nil : IsListing [] []
  pair :
      {hi lo h l : ℕ} {digits bytes : List ℕ}
      → IsHexDigit hi h
      → IsHexDigit lo l
      → IsListing digits bytes
      → IsListing (hi ∷ lo ∷ digits) ((h * 16 + l) ∷ bytes)

-- Bytes at increasing addresses, which wrap after 0xFFFF.
unfoldable pub write_bytes : {D : Type 0} → (D → ℕ → ℕ → D) → D → ℕ → List ℕ → D
write_bytes put d address [] = d
write_bytes put d address (b ∷ bs) = write_bytes put (put d address b) (u16 (address + 1)) bs

hex_digit_value-digit : (c v : ℕ) → IsHexDigit c v → hex_digit_value c ≡ some v
unfolding hex_digit_value
hex_digit_value-digit c v d = ground arith

pub digit_bound : (c v : ℕ) → IsHexDigit c v → v < 16
digit_bound c v d = ground arith

joins : ℕ → ℕ → Bool
joins h l = u8 (bit_or (h * 16) l) == h * 16 + l

bit_or-nibbles : (h l : ℕ) → h < 16 → l < 16 → u8 (bit_or (h * 16) l) ≡ h * 16 + l
unfolding joins
bit_or-nibbles h l p q =
    let every = all_below_sound 16 (λ h. all_below 16 (joins h)) h (unfold all_below in refl) p in
    let e = all_below_sound 16 (joins h) l every q in ground (arith, e)

byte_of-pair :
    (hi lo h l : ℕ) → IsHexDigit hi h → IsHexDigit lo l → byte_of hi lo ≡ some (h * 16 + l)
unfolding byte_of
byte_of-pair hi lo h l p q = ground (
  arith,
  hex_digit_value-digit hi h p,
  hex_digit_value-digit lo l q,
  bit_or-nibbles h l (digit_bound hi h p) (digit_bound lo l q),
)

-- The digit in upper case, and a byte in two of these.
unfoldable pub hex_digit : ℕ → ℕ
hex_digit n = if ltb n 10 then 48 + n else 65 + (n - 10)

hex_digit-IsHexDigit : (n : ℕ) → n < 16 → IsHexDigit (hex_digit n) n
unfolding hex_digit
hex_digit-IsHexDigit n h = ground arith

pub byte_of-hex_digit :
    (b : ℕ) → IsByte b → byte_of (hex_digit (b / 16)) (hex_digit (b % 16)) ≡ some b
byte_of-hex_digit b h =
    byte_of-pair (hex_digit (b / 16)) (hex_digit (b % 16)) (b / 16) (b % 16)
      (hex_digit-IsHexDigit (b / 16) (omega arith)) (hex_digit-IsHexDigit (b % 16) (omega arith))
    ∙ ap some (omega arith)

even_length : {digits bytes : List ℕ} → IsListing digits bytes → length digits % 2 ≡ 0
even_length nil = refl
even_length (pair p q k) = omega (arith, even_length k)

load_digits-listing :
    {D : Type 0} (put : D → ℕ → ℕ → D) (d : D) (address : ℕ) {digits bytes : List ℕ}
    → IsListing digits bytes
    → load_digits put d address digits ≡ (none, write_bytes put d address bytes)
unfolding load_digits write_bytes
load_digits-listing put d address nil = refl
load_digits-listing put d address (pair {hi} {lo} {h} {l} p q k) = ground (
  arith,
  byte_of-pair hi lo h l p q,
  load_digits-listing put (put d address (h * 16 + l)) (u16 (address + 1)) k,
)

-- If a text is a hex listing of bytes, with digits of either case and white space anywhere between
-- them, `loadProgram` writes exactly these bytes, at increasing addresses from the start, and throws
-- nothing.
pub load_program-listing :
    (device : MemoryDevice) (start_address : ℕ) (hex digits bytes : List ℕ)
    → Spaced hex digits
    → IsListing digits bytes
    → load_program device start_address hex ≡ (none, write_bytes write device start_address bytes)
unfolding load_program
load_program-listing device start_address hex digits bytes s k =
    let kept = strip_unique s in
    let even : length (strip hex) % 2 ≡ 0 =
      ap (λ (ds : List ℕ). length ds % 2) kept ∙ even_length k in
    ground (
      arith,
      even,
      ap (load_digits write device start_address) kept,
      load_digits-listing write device start_address k,
    )
