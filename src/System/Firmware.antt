-- ===== src/System/Firmware.antt =====
-- src/system/monitor_firmware.h and src/system/monitor_firmware.cpp: the monitor in ROM, and how
-- it gets there.
pub mod Text
pub mod Routines
pub mod Image
pub mod Holding
pub mod Layout
use sys.Base.{
  ℕ, ◌+◌, ◌-◌, ◌%◌, not, ◌==◌, if◌then◌else◌, Option, none, some, List, [], ◌∷◌, length, replicate,
  u16,
}
use sys.Memory.Rom.{Rom, load}
use sys.System.Firmware.Routines.{
  get_char_hex, put_char_hex, print_hex_byte_hex, print_nibble_hex, print_string_hex, read_line_hex,
  parse_addr_hex, parse_byte_hex, hex_val_hex, dispatch_hex, peek_hex, list_hex, poke_hex, run_hex,
  data_hex, main_hex, save_hex, load_hex, rewind_hex,
}
use sys.System.Firmware.Text.{Hex, hex}
use sys.Utils.ProgramLoader.{LoadError, odd_digit_count, strip, load_digits}

abbrev pub rom_base : ℕ
rom_base = 0xC000

abbrev pub rom_size : ℕ
rom_size = 0x4000

-- `loadRoutine`, whose digits are read as `loadProgram` reads them.
unfoldable pub load_routine : Rom → ℕ → Hex → Option LoadError × Rom
load_routine rom bus_addr text =
    let digits = strip text in
    if not (length digits % 2 == 0)
    then (some odd_digit_count, rom)
    else load_digits load rom (u16 (bus_addr + 65536 - rom_base)) digits

-- The calls of `install`, in order; the last three are the vectors.
abbrev pub routines : List (ℕ × Hex)
routines =
    (0xC000, get_char_hex)
    ∷ (0xC100, put_char_hex)
    ∷ (0xC200, print_hex_byte_hex)
    ∷ (0xC220, print_nibble_hex)
    ∷ (0xC300, print_string_hex)
    ∷ (0xC400, read_line_hex)
    ∷ (0xC500, parse_addr_hex)
    ∷ (0xC600, parse_byte_hex)
    ∷ (0xC700, hex_val_hex)
    ∷ (0xC800, dispatch_hex)
    ∷ (0xCA00, peek_hex)
    ∷ (0xCB00, list_hex)
    ∷ (0xCC00, poke_hex)
    ∷ (0xCD00, run_hex)
    ∷ (0xCE00, data_hex)
    ∷ (0xCF00, main_hex)
    ∷ (0xD000, save_hex)
    ∷ (0xD100, load_hex)
    ∷ (0xD200, rewind_hex)
    ∷ (0xFFFA, hex ("0E CF" ∷ []))
    ∷ (0xFFFC, hex ("00 CF" ∷ []))
    ∷ (0xFFFE, hex ("0E CF" ∷ []))
    ∷ []

-- One call after the other, until one throws.
unfoldable pub load_all : Rom → List (ℕ × Hex) → Option LoadError × Rom
load_all rom [] = (none, rom)
load_all rom ((bus_addr, text) ∷ rest) =
    let (error, rom') = load_routine rom bus_addr text in
    elim error [ some e ↦ (some e, rom') | none ↦ load_all rom' rest ]

unfoldable pub install : Rom → Option LoadError × Rom
install rom = load_all rom routines
