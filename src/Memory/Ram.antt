-- ===== src/Memory/Ram.antt =====
-- src/memory/ram.h and src/memory/ram.cpp: a `std::vector<uint8_t>`.
use sys.Base.{ℕ, List, length, get_or, set, replicate, u8}

pub record Ram : Type 0 where
  pub bytes : List ℕ

-- `RAM(size)`.
abbrev pub new_ram : ℕ → Ram
new_ram size = record { bytes = replicate size 0 }

abbrev pub size : Ram → ℕ
size r = length r.bytes

-- `m_data[offset]` is undefined out of bounds. The bus never asks for it; a caller of `loadProgram`
-- with a RAM of its own has to keep to its size. A write there changes nothing here.
abbrev pub read : Ram → ℕ → ℕ
read r offset = u8 (get_or r.bytes offset 0)

abbrev pub write : Ram → ℕ → ℕ → Ram
write r offset val = record { bytes = set r.bytes offset (u8 val) }
