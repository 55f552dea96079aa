-- ===== src/Arithmetic/TopBit.antt =====
-- Bit 7 of the native bit operations.
use Prim.Native.Nat.{differ, min}
use sys.Base.{ℕ, zero, suc, ◌+◌, ◌/◌, ◌%◌, ◌≤◌, ◌≡◌, refl, ap, arith, bit_and, bit_xor, IsByte}
use sys.Base.Bits.{bit_and_step, bit_xor_step}

differ_lem : (x y : ℕ) → x ≤ 1 → y ≤ 1 → differ x y ≡ (x + y) % 2
differ_lem zero y p q = omega arith
differ_lem (suc x) zero p q = omega arith
differ_lem (suc zero) (suc zero) p q = refl
differ_lem (suc zero) (suc (suc y)) p q = absurd (omega arith)
differ_lem (suc (suc x)) (suc y) p q = absurd (omega arith)

differ-bits : (a b : ℕ) → differ (a % 2) (b % 2) ≡ (a + b) % 2
differ-bits a b = omega (arith, differ_lem (a % 2) (b % 2) (omega arith) (omega arith))

xor-half : (a b : ℕ) → bit_xor a b / 2 ≡ bit_xor (a / 2) (b / 2)
xor-half a b = omega (arith, bit_xor_step a b, differ-bits a b)

and-half : (a b : ℕ) → bit_and a b / 2 ≡ bit_and (a / 2) (b / 2)
and-half a b = omega (arith, bit_and_step a b)

top : (a : ℕ) → a / 2 / 2 / 2 / 2 / 2 / 2 / 2 ≡ a / 128
top a = omega arith

module _ (f : ℕ → ℕ → ℕ) (half : (a b : ℕ) → f a b / 2 ≡ f (a / 2) (b / 2)) where
  top_half : (a b : ℕ) → f a b / 128 ≡ f (a / 128) (b / 128)
  top_half a b =
      let p = top a in
      let q = top b in
      omega (
        arith,
        half a b,
        half (a / 2) (b / 2),
        half (a / 2 / 2) (b / 2 / 2),
        half (a / 2 / 2 / 2) (b / 2 / 2 / 2),
        half (a / 2 / 2 / 2 / 2) (b / 2 / 2 / 2 / 2),
        half (a / 2 / 2 / 2 / 2 / 2) (b / 2 / 2 / 2 / 2 / 2),
        half (a / 2 / 2 / 2 / 2 / 2 / 2) (b / 2 / 2 / 2 / 2 / 2 / 2),
        ap (λ (t : ℕ). f t (b / 2 / 2 / 2 / 2 / 2 / 2 / 2)) p,
        ap (f (a / 128)) q,
      )

no_half : (a : ℕ) → a ≤ 1 → a / 2 ≡ 0
no_half a p = omega arith

xor-bits : (a b : ℕ) → a ≤ 1 → b ≤ 1 → bit_xor a b ≡ (a + b) % 2
xor-bits a b p q = omega (
  arith,
  bit_xor_step a b,
  differ-bits a b,
  ap (λ (t : ℕ). bit_xor t (b / 2)) (no_half a p),
  ap (bit_xor 0) (no_half b q),
)

and-bits : (a b : ℕ) → a ≤ 1 → b ≤ 1 → bit_and a b ≡ min a b
and-bits a b p q = omega (
  arith,
  bit_and_step a b,
  ap (λ (t : ℕ). bit_and t (b / 2)) (no_half a p),
  ap (bit_and 0) (no_half b q),
)

-- Bit 7 of `a ^ b`, and of `a & b`.
pub bit_xor-top : (a b : ℕ) → IsByte a → IsByte b → bit_xor a b / 128 ≡ (a / 128 + b / 128) % 2
bit_xor-top a b p q =
    omega (
      arith,
      top_half bit_xor xor-half a b,
      xor-bits (a / 128) (b / 128) (omega arith) (omega arith),
    )

pub bit_and-top : (a b : ℕ) → IsByte a → IsByte b → bit_and a b / 128 ≡ min (a / 128) (b / 128)
bit_and-top a b p q =
    omega (
      arith,
      top_half bit_and and-half a b,
      and-bits (a / 128) (b / 128) (omega arith) (omega arith),
    )

pub bit_xor-IsByte : (a b : ℕ) → IsByte a → IsByte b → IsByte (bit_xor a b)
bit_xor-IsByte a b p q = omega (arith, bit_xor-top a b p q)
