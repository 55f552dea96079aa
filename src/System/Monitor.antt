-- ===== src/System/Monitor.antt =====
-- src/system/monitor_firmware.cpp: the monitor's code where the CPU finds it.
pub mod HexVal
pub mod Writes
pub mod Print
pub mod Frames
pub mod Nibbles
pub mod NibbleCall
pub mod PrintCall
pub mod Kept
pub mod GetChar
pub mod GetCharCall
pub mod PrintByte
pub mod HexValCall
use sys.Base.{
  ℕ, join, ◌%◌, ◌-◌, ◌+◌, ◌≤◌, ◌<◌, ◌≡◌, refl, ap, subst, sym, ◌∙◌, arith, List, [], ◌∷◌, length,
  get_or, u8, u16, IsWord, leb, leb_iff, true,
}
use sys.Utils.ProgramLoader.{strip, is_space, byte_of, hex_digit_value}
use sys.Isa.Trace.{ReadsAs, CodeAt, nil, cons, Returns}
use sys.Isa.Machine.{Machine}
use sys.Memory.Bus.{Bus, bus_access, bus_read, find_mapping, contains, device_read, device_at}
use sys.Memory.Device.{read}
use sys.Memory.Ram.{Ram}
use sys.Memory.Rom.{Rom}
use sys.Peripherals.Tty.{Tty}
use sys.System.Firmware.{routines}
use sys.System.Firmware.Holding.{Holds}
use sys.System.Firmware.Image.{offset, bytes_of}
use sys.System.Firmware.Layout.{AllHold, entry, entry_held}
use sys.System.MemoryMap.{wired_over}

-- Reads of the system's bus below the TTY and in the ROM leave it as it is.
pub read-ram :
    (r : Ram) (t : Tty) (m : Rom) (addr : ℕ)
    → addr < 0x8000
    → bus_read (wired_over r t m) addr ≡ (u8 (get_or r.bytes addr 0), wired_over r t m)
unfolding bus_read find_mapping contains device_read device_at read
read-ram r t m addr h = ground arith

pub read-rom :
    (r : Ram) (t : Tty) (m : Rom) (addr : ℕ)
    → 0xC000 ≤ addr
    → IsWord addr
    → bus_read (wired_over r t m) addr ≡ (u8 (get_or m.bytes (addr - 0xC000) 0), wired_over r t m)
unfolding bus_read find_mapping contains device_read device_at read
read-rom r t m addr h w = ground arith

ram_reads_wired :
    (r : Ram) (t : Tty) (m : Rom) (addr : ℕ)
    → addr < 0x8000
    → ReadsAs (wired_over r t m) addr (bus_read (wired_over r t m) addr).0
ram_reads_wired r t m addr h =
    let e = read-ram r t m addr h in
    e ∙ ap (λ (v : ℕ). (v, wired_over r t m)) (sym (ap (λ (q : ℕ × Bus). q.0) e))

-- The bus as the constructor wires it, with a ROM that holds the monitor.
pub record HasMonitor (bus : Bus) : Type 0 where
  pub ram : Ram
  pub tty : Tty
  pub rom : Rom
  pub wires : bus ≡ wired_over ram tty rom
  pub held : AllHold rom routines
  pub sized : length ram.bytes ≡ 0x8000

pub stored : List ℕ → List ℕ
stored [] = []
stored (b ∷ bs) = u8 (u8 b) ∷ stored bs

rom_code :
    (bs : List ℕ) (r : Ram) (t : Tty) (m : Rom) (at : ℕ)
    → Holds m.bytes at bs
    → at + length bs < 0x4000
    → CodeAt (wired_over r t m) (0xC000 + at) (stored bs)
unfolding Holds stored
rom_code [] r t m at h fits = nil
rom_code (b ∷ bs) r t m at (h, hs) fits =
    let next : 0xC000 + (at + 1) ≡ u16 (0xC000 + at + 1) = omega arith in
    let place : 0xC000 + at - 0xC000 ≡ at = omega arith in
    cons
      (read-rom r t m (0xC000 + at) (omega arith) (omega arith)
        ∙ ap (λ (k : ℕ). (u8 (get_or m.bytes k 0), wired_over r t m)) place
        ∙ ap (λ (v : ℕ). (u8 v, wired_over r t m)) h)
      (subst (λ (pc : ℕ). CodeAt (wired_over r t m) pc (stored bs)) next
        (rom_code bs r t m (at + 1) hs (omega arith)))

pub wired_code :
    (r : Ram) (t : Tty) (m : Rom) (n : ℕ)
    → AllHold m routines
    → leb (offset (entry routines n).0 + length (bytes_of (entry routines n).1)) 0x3FFF ≡ true
    → CodeAt
        (wired_over r t m)
        (0xC000 + offset (entry routines n).0)
        (stored (bytes_of (entry routines n).1))
wired_code r t m n held fits =
    rom_code (bytes_of (entry routines n).1) r t m (offset (entry routines n).0)
      (entry_held routines m n held) (omega (arith, (leb_iff _ _).0 fits))

routine_code :
    (bus : Bus) (n : ℕ)
    → HasMonitor bus
    → leb (offset (entry routines n).0 + length (bytes_of (entry routines n).1)) 0x3FFF ≡ true
    → CodeAt bus (0xC000 + offset (entry routines n).0) (stored (bytes_of (entry routines n).1))
routine_code bus n v fits =
    subst
      (λ (b : Bus).
        CodeAt b (0xC000 + offset (entry routines n).0) (stored (bytes_of (entry routines n).1)))
      (sym v.wires) (wired_code v.ram v.tty v.rom n v.held fits)

abbrev pub hex_val_bytes : List ℕ
hex_val_bytes =
    0xC9 ∷ 0x30 ∷ 0x90 ∷ 0x23 ∷ 0xC9 ∷ 0x3A ∷ 0xB0 ∷ 0x05 ∷ 0x38 ∷ 0xE9 ∷ 0x30 ∷ 0x18 ∷ 0x60 ∷ 0xC9
    ∷ 0x41 ∷ 0x90 ∷ 0x16 ∷ 0xC9 ∷ 0x47 ∷ 0xB0 ∷ 0x05 ∷ 0x38 ∷ 0xE9 ∷ 0x37 ∷ 0x18 ∷ 0x60 ∷ 0xC9
    ∷ 0x61 ∷ 0x90 ∷ 0x09 ∷ 0xC9 ∷ 0x67 ∷ 0xB0 ∷ 0x05 ∷ 0x38 ∷ 0xE9 ∷ 0x57 ∷ 0x18 ∷ 0x60 ∷ 0x38
    ∷ 0x60 ∷ []

pub hex_val_code : (bus : Bus) → HasMonitor bus → CodeAt bus 0xC700 hex_val_bytes
unfolding bytes_of stored strip is_space byte_of hex_digit_value
hex_val_code bus v = routine_code bus 8 v refl

-- Where an `RTS` goes: behind the address on top of the stack.
unfoldable pub return_address : Machine Bus → ℕ
return_address m =
    let lo = (bus_read m.bus (u16 (0x100 + u8 (m.sp + 1)))).0 in
    let hi = (bus_read m.bus (u16 (0x100 + u8 (u8 (m.sp + 1) + 1)))).0 in
    u16 (join (lo % 256) hi + 1)

pub ram_reads :
    (bus : Bus) (addr : ℕ) → HasMonitor bus → addr < 0x8000 → ReadsAs bus addr (bus_read bus addr).0
ram_reads bus addr v h =
    subst (λ (b : Bus). ReadsAs b addr (bus_read b addr).0) (sym v.wires)
      (ram_reads_wired v.ram v.tty v.rom addr h)

pub return_address-Returns :
    (m : Machine Bus) → HasMonitor m.bus → Returns m.bus m.sp (return_address m)
unfolding return_address
return_address-Returns m v = record {
  lo = _;
  hi = _;
  low_read = ram_reads m.bus _ v (omega arith);
  high_read = ram_reads m.bus _ v (omega arith);
  target = refl;
}

-- The vector of a reset is COLD_START.
pub vector_code : (bus : Bus) → HasMonitor bus → CodeAt bus 0xFFFC (0x00 ∷ 0xCF ∷ [])
unfolding bytes_of stored strip is_space byte_of hex_digit_value
vector_code bus v = routine_code bus 20 v refl
