-- ===== src/Arithmetic/StatusByte.antt =====
-- src/cpu/cpu6502.cpp: the status register and the bytes are the same type.
use mathlib.Core.HLevel.{Σ_prop_path}
use native.Mathlib.Bridge.{le_prop}
use std.Equiv.{Iso, iso_to_equiv}
use std.Path.{transport, transport⁻¹}
use std.Univalence.{iso_to_path, ua-β, ua-β⁻¹}
use sys.Arithmetic.Status.{of_byte-to_byte, to_byte-of_byte}
use sys.Base.{ℕ, ◌≡◌, ap, arith, IsByte}
use sys.Cpu.Flags.{Flags, to_byte, of_byte}

-- The values of `uint8_t`.
abbrev pub Byte : Type 0
Byte = (value : ℕ) × IsByte value

to_byte-IsByte : (f : Flags) → IsByte (to_byte f)
unfolding to_byte
to_byte-IsByte f = ground arith

abbrev pushed : Flags → Byte
pushed f = (to_byte f, to_byte-IsByte f)

abbrev status : Iso Flags Byte
status = record {
  fun = pushed;
  inv = λ b. of_byte b.0;
  rinv = λ b. Σ_prop_path (λ n. le_prop) (to_byte-of_byte b.0 b.1);
  linv = of_byte-to_byte;
}

-- The status register and the bytes are the same type, by a path along which a register becomes the
-- byte that is pushed for it, and a byte becomes the register that is pulled from it.
pub Flags≡Byte :
    (p : Flags ≡ Byte) × ((f : Flags) → (transport p f).0 ≡ to_byte f)
    × ((b : Byte) → transport⁻¹ p b ≡ of_byte b.0)
Flags≡Byte = (
  iso_to_path status,
  λ f. ap (λ (b : Byte). b.0) (ua-β (iso_to_equiv status) f),
  λ b. ua-β⁻¹ (iso_to_equiv status) b,
)
