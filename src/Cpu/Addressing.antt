-- ===== src/Cpu/Addressing.antt =====
-- src/cpu/cpu6502.cpp: effective addresses, and the statements on the address latches that the
-- capture handlers share.
use sys.Base.{ℕ, ◌+◌, ◌-◌, Bool, not, bit_and, ltb, ◌==◌, if◌then◌else◌, u16, join}
use sys.Cpu.State.{Cpu, reading}
use sys.Memory.Interface.{BusAccess}

pub record EffectiveAddress : Type 0 where
  pub address : ℕ
  pub page_crossed : Bool

-- `(base & 0xFF00) != (address & 0xFF00)`.
abbrev pub pages_differ : ℕ → ℕ → Bool
pages_differ base address = not (bit_and base 0xFF00 == bit_and address 0xFF00)

unfoldable pub indexed_address : ℕ → ℕ → EffectiveAddress
indexed_address base index =
    let address : ℕ = u16 (base + index) in
    record { address = address; page_crossed = pages_differ base address }

-- `base + offset` for the int8_t of the byte `offset`, which is 256 less from 128 on.
unfoldable pub relative_address : ℕ → ℕ → EffectiveAddress
relative_address base offset =
    let address : ℕ = u16 (if ltb offset 128 then base + offset else base + offset + 65536 - 256) in
    record { address = address; page_crossed = pages_differ base address }

module _ {M : Type 0} ⦃access : BusAccess M⦄ where
  -- `m_addrLatch = m_bus.read(m_PC)`.
  unfoldable pub latch_low : Cpu M → Cpu M
  latch_low s = reading s.pc s (λ v s'. record s' { addr_latch = v })

  -- `m_addrLatch |= static_cast<uint16_t>(m_bus.read(m_PC)) << 8`.
  unfoldable pub latch_high : Cpu M → Cpu M
  latch_high s = reading s.pc s (λ v s'. record s' { addr_latch = join s.addr_latch v })

  -- `m_addrLatch = (m_addrLatch + index) & 0xFF`.
  unfoldable pub latch_indexed : ℕ → Cpu M → Cpu M
  latch_indexed index s = record s { addr_latch = bit_and (s.addr_latch + index) 0xFF }

  -- The base from the latch and the byte at PC, indexed; the page crossing is noted.
  unfoldable pub resolve_indexed : ℕ → Cpu M → Cpu M
  unfolding indexed_address
  resolve_indexed index s = reading s.pc s λ v s'.
      let resolved = indexed_address (join s.addr_latch v) index in
      record s' { eff_addr = resolved.address; page_crossed = resolved.page_crossed }

  -- The same for the handlers of fixed timing, which leave `m_pageCrossed` alone.
  unfoldable pub resolve_indexed_fixed : ℕ → Cpu M → Cpu M
  unfolding indexed_address
  resolve_indexed_fixed index s = reading s.pc s λ v s'.
      let resolved = indexed_address (join s.addr_latch v) index in
      record s' { eff_addr = resolved.address }

  -- `m_effAddr = m_bus.read(m_addrLatch)`.
  unfoldable pub pointer_low : Cpu M → Cpu M
  pointer_low s = reading s.addr_latch s (λ v s'. record s' { eff_addr = v })

  -- `m_effAddr |= static_cast<uint16_t>(m_bus.read((m_addrLatch + 1) & 0xFF)) << 8`.
  unfoldable pub pointer_high : Cpu M → Cpu M
  pointer_high s =
      reading (bit_and (s.addr_latch + 1) 0xFF) s
        (λ v s'. record s' { eff_addr = join s.eff_addr v })

  -- The pointer's high byte, and the pointer indexed; the page crossing is noted.
  unfoldable pub resolve_pointer : ℕ → Cpu M → Cpu M
  unfolding indexed_address
  resolve_pointer index s = reading (bit_and (s.addr_latch + 1) 0xFF) s λ v s'.
      let resolved = indexed_address (join s.eff_addr v) index in
      record s' { eff_addr = resolved.address; page_crossed = resolved.page_crossed }

  -- The same for STA, which leaves `m_pageCrossed` alone.
  unfoldable pub resolve_pointer_fixed : ℕ → Cpu M → Cpu M
  unfolding indexed_address
  resolve_pointer_fixed index s = reading (bit_and (s.addr_latch + 1) 0xFF) s λ v s'.
      let resolved = indexed_address (join s.eff_addr v) index in
      record s' { eff_addr = resolved.address }
