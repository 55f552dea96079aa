-- ===== src/Memory/Interface.antt =====
-- What the CPU uses of src/memory/bus.h: `Bus::read` and `Bus::write`. A read may change the
-- devices (src/peripherals/tty.cpp), so it returns the memory after it.
use sys.Base.{ℕ, IsByte}

pub record BusAccess (M : Type 0) : Type 0 where
  pub read : M → ℕ → ℕ × M
  pub write : M → ℕ → ℕ → M

-- What the return type uint8_t of `Bus::read` says.
abbrev pub ReadsBytes : {M : Type 0} → BusAccess M → Type 0
ReadsBytes {M} access = (m : M) (addr : ℕ) → IsByte (access.read m addr).0
