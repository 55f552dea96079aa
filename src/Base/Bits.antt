-- ===== src/Base/Bits.antt =====
-- The native bit operations at variables: the law of the lowest digit, and what follows for
-- the masks that src/cpu/ uses.
use Prim.Native.Nat.{
  ℕ, zero, suc, ◌+◌, ◌*◌, ◌/◌, ◌%◌, ◌≤◌, ◌<◌, min, max, bit_and, bit_or, bit_xor, digits, differ,
  bit_and-bitwise, bit_or-bitwise, bit_xor-bitwise,
}
use mathlib.Core.Path.{◌≡◌, refl, ap}
use native.Mathlib.Omega.{arith}
use sys.Base.Word.{join, IsByte}

-- The recursion on digits gives the same with any two fuels that are large enough.
module _ (left : ℕ → ℕ) (digit : ℕ → ℕ → ℕ) where
  same_digits :
      (fuel more a b : ℕ)
      → a ≤ fuel
      → a ≤ more
      → digits left digit fuel a b ≡ digits left digit more a b
  same_digits zero zero zero b _ _ = refl
  same_digits zero (suc _) zero b _ _ = refl
  same_digits (suc _) zero zero b _ _ = refl
  same_digits (suc _) (suc _) zero b _ _ = refl
  same_digits zero _ (suc a) b h _ = absurd (omega arith)
  same_digits (suc _) zero (suc a) b _ h = absurd (omega arith)
  same_digits (suc fuel) (suc more) (suc a) b h k =
      let rest = same_digits fuel more (suc a / 2) (b / 2) (omega arith) (omega arith) in
      omega (arith, rest)

  -- The lowest digit of a positive number, with the fuel that the rest gets.
  lowest :
      (a b : ℕ)
      → digits left digit (suc a) (suc a) b
        ≡ digits left digit (suc a / 2) (suc a / 2) (b / 2) * 2 + digit (suc a % 2) (b % 2)
  lowest a b =
      let rest = same_digits a (suc a / 2) (suc a / 2) (b / 2) (omega arith) (omega arith) in
      omega (arith, rest)

pub bit_and_step : (a b : ℕ) → bit_and a b ≡ bit_and (a / 2) (b / 2) * 2 + min (a % 2) (b % 2)
bit_and_step zero b = omega (arith, bit_and-bitwise 0 b, bit_and-bitwise 0 (b / 2))
bit_and_step (suc a) b =
    let whole = bit_and-bitwise (suc a) b in
    let half = bit_and-bitwise (suc a / 2) (b / 2) in
    omega (arith, whole, half, lowest (λ _. 0) min a b)

pub bit_or_step : (a b : ℕ) → bit_or a b ≡ bit_or (a / 2) (b / 2) * 2 + max (a % 2) (b % 2)
bit_or_step zero b = omega (arith, bit_or-bitwise 0 b, bit_or-bitwise 0 (b / 2))
bit_or_step (suc a) b =
    let whole = bit_or-bitwise (suc a) b in
    let half = bit_or-bitwise (suc a / 2) (b / 2) in
    omega (arith, whole, half, lowest (λ rest. rest) max a b)

differ-le : (a b : ℕ) → a ≤ 1 → b ≤ 1 → differ a b ≤ 1
differ-le zero b p q = q
differ-le (suc a) zero p q = p
differ-le (suc zero) (suc b) p q = omega arith
differ-le (suc (suc a)) (suc b) p q = absurd (omega arith)

pub bit_xor_step : (a b : ℕ) → bit_xor a b ≡ bit_xor (a / 2) (b / 2) * 2 + differ (a % 2) (b % 2)
bit_xor_step zero b = omega (arith, bit_xor-bitwise 0 b, bit_xor-bitwise 0 (b / 2))
bit_xor_step (suc a) b =
    let whole = bit_xor-bitwise (suc a) b in
    let half = bit_xor-bitwise (suc a / 2) (b / 2) in
    omega (arith, whole, half, lowest (λ rest. rest) differ a b)

pub bit_or-zero_left : (b : ℕ) → bit_or 0 b ≡ b
bit_or-zero_left b = bit_or-bitwise 0 b

bit_and_zero_fuel : (n a : ℕ) → a ≤ n → bit_and a 0 ≡ 0
bit_and_zero_fuel fuel zero enough = refl
bit_and_zero_fuel zero (suc a) enough = absurd (omega arith)
bit_and_zero_fuel (suc n) (suc a) enough =
    omega (arith, bit_and_step (suc a) 0, bit_and_zero_fuel n (suc a / 2) (omega arith))

bit_and-zero : (a : ℕ) → bit_and a 0 ≡ 0
bit_and-zero a = bit_and_zero_fuel a a (omega arith)

bit_and-0x0F : (a : ℕ) → bit_and a 0x0F ≡ a % 16
bit_and-0x0F a = omega (
  arith,
  bit_and_step a 15,
  bit_and_step (a / 2) 7,
  bit_and_step (a / 2 / 2) 3,
  bit_and_step (a / 2 / 2 / 2) 1,
  bit_and-zero (a / 2 / 2 / 2 / 2),
)

-- `n & 0xFF` is the low byte.
pub bit_and-0xFF : (a : ℕ) → bit_and a 0xFF ≡ a % 256
bit_and-0xFF a = omega (
  arith,
  bit_and_step a 255,
  bit_and_step (a / 2) 127,
  bit_and_step (a / 2 / 2) 63,
  bit_and_step (a / 2 / 2 / 2) 31,
  bit_and-0x0F (a / 2 / 2 / 2 / 2),
)

bit_and-0x08 : (a : ℕ) → bit_and a 8 ≡ a / 8 % 2 * 8
bit_and-0x08 a = omega (
  arith,
  bit_and_step a 8,
  bit_and_step (a / 2) 4,
  bit_and_step (a / 2 / 2) 2,
  bit_and_step (a / 2 / 2 / 2) 1,
  bit_and-zero (a / 2 / 2 / 2 / 2),
)

-- `n & 0x80` is bit 7.
pub bit_and-0x80 : (a : ℕ) → bit_and a 0x80 ≡ a / 128 % 2 * 128
bit_and-0x80 a = omega (
  arith,
  bit_and_step a 128,
  bit_and_step (a / 2) 64,
  bit_and_step (a / 2 / 2) 32,
  bit_and_step (a / 2 / 2 / 2) 16,
  bit_and-0x08 (a / 2 / 2 / 2 / 2),
)

-- One binary place of a shifted number under `|`.
bit_or-double : (lo hi : ℕ) → bit_or lo (hi * 2) ≡ bit_or (lo / 2) hi * 2 + lo % 2
bit_or-double lo hi =
    let same : hi * 2 / 2 ≡ hi = omega arith in
    omega (arith, bit_or_step lo (hi * 2), ap (bit_or (lo / 2)) same)

bit_or-shift_4 : (lo hi : ℕ) → bit_or lo (hi * 2 * 2 * 2 * 2) ≡ bit_or (lo / 16) hi * 16 + lo % 16
bit_or-shift_4 lo hi =
    let same : lo / 2 / 2 / 2 / 2 ≡ lo / 16 = omega arith in
    omega (
      arith,
      bit_or-double lo (hi * 2 * 2 * 2),
      bit_or-double (lo / 2) (hi * 2 * 2),
      bit_or-double (lo / 2 / 2) (hi * 2),
      bit_or-double (lo / 2 / 2 / 2) hi,
      ap (λ (t : ℕ). bit_or t hi) same,
    )

-- A byte and a shifted byte do not overlap, so `|` joins them as a sum.
pub bit_or_bytes : (lo hi : ℕ) → IsByte lo → bit_or lo (hi * 256) ≡ lo + hi * 256
bit_or_bytes lo hi h =
    let shifted : hi * 256 ≡ hi * 2 * 2 * 2 * 2 * 2 * 2 * 2 * 2 = omega arith in
    let none_left : lo / 16 / 16 ≡ 0 = omega arith in
    omega (
      arith,
      ap (bit_or lo) shifted,
      bit_or-shift_4 lo (hi * 2 * 2 * 2 * 2),
      bit_or-shift_4 (lo / 16) hi,
      ap (λ (t : ℕ). bit_or t hi) none_left,
      bit_or-zero_left hi,
    )

pub join-bytes : (lo hi : ℕ) → IsByte lo → IsByte hi → join lo hi ≡ lo + hi * 256
unfolding join
join-bytes lo hi h k = omega (arith, bit_or_bytes lo hi h)

bit_or-comm_fuel : (n a b : ℕ) → a + b ≤ n → bit_or a b ≡ bit_or b a
bit_or-comm_fuel zero zero zero h = refl
bit_or-comm_fuel zero zero (suc b) h = absurd (omega arith)
bit_or-comm_fuel zero (suc a) b h = absurd (omega arith)
bit_or-comm_fuel (suc n) zero zero h = refl
bit_or-comm_fuel (suc n) zero (suc b) h = omega (
  arith,
  bit_or_step 0 (suc b),
  bit_or_step (suc b) 0,
  bit_or-comm_fuel n 0 (suc b / 2) (omega arith),
)
bit_or-comm_fuel (suc n) (suc a) b h = omega (
  arith,
  bit_or_step (suc a) b,
  bit_or_step b (suc a),
  bit_or-comm_fuel n (suc a / 2) (b / 2) (omega arith),
)

pub bit_or_comm : (a b : ℕ) → bit_or a b ≡ bit_or b a
bit_or_comm a b = bit_or-comm_fuel (a + b) a b (omega arith)

-- One binary place of an even mask.
bit_and-double : (a m : ℕ) → bit_and a (m * 2) ≡ bit_and (a / 2) m * 2
bit_and-double a m =
    let same : m * 2 / 2 ≡ m = omega arith in
    omega (arith, bit_and_step a (m * 2), ap (bit_and (a / 2)) same)

-- `n & 0xFF00` is the page of a 16-bit address.
pub bit_and-0xFF00 : (a : ℕ) → a < 65536 → bit_and a 0xFF00 ≡ a / 256 * 256
bit_and-0xFF00 a h =
    let same : a / 2 / 2 / 2 / 2 / 2 / 2 / 2 / 2 ≡ a / 256 = omega arith in
    omega (
      arith,
      bit_and-double a 0x7F80,
      bit_and-double (a / 2) 0x3FC0,
      bit_and-double (a / 2 / 2) 0x1FE0,
      bit_and-double (a / 2 / 2 / 2) 0x0FF0,
      bit_and-double (a / 2 / 2 / 2 / 2) 0x07F8,
      bit_and-double (a / 2 / 2 / 2 / 2 / 2) 0x03FC,
      bit_and-double (a / 2 / 2 / 2 / 2 / 2 / 2) 0x01FE,
      bit_and-double (a / 2 / 2 / 2 / 2 / 2 / 2 / 2) 0x00FF,
      ap (λ (t : ℕ). bit_and t 0xFF) same,
      bit_and-0xFF (a / 256),
    )
