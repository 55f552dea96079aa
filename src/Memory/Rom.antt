-- ===== src/Memory/Rom.antt =====
-- src/memory/rom.h and src/memory/rom.cpp. The logger is output only.
use sys.Base.{ℕ, List, length, get_or, set, u8}

pub record Rom : Type 0 where
  pub bytes : List ℕ

abbrev pub size : Rom → ℕ
size r = length r.bytes

abbrev pub read : Rom → ℕ → ℕ
read r offset = u8 (get_or r.bytes offset 0)

-- A CPU-driven write is ignored.
abbrev pub write : Rom → ℕ → ℕ → Rom
write r offset val = r

-- The host-side loader.
abbrev pub load : Rom → ℕ → ℕ → Rom
load r offset val = record { bytes = set r.bytes offset (u8 val) }
