-- ===== src/System/Firmware/Routines/Parse.antt =====
-- src/system/monitor_firmware.cpp: the routines that parse a line and choose a command, as 6502 code in hex.
use sys.Base.{[], ◌∷◌}
use sys.System.Firmware.Text.{Hex, hex}

abbrev pub hex_val_hex : Hex
hex_val_hex = hex (
    "C9 30" ∷ "90 23" ∷ "C9 3A" ∷ "B0 05" ∷ "38" ∷ "E9 30" ∷ "18" ∷ "60" ∷ "C9 41" ∷ "90 16"
    ∷ "C9 47" ∷ "B0 05" ∷ "38" ∷ "E9 37" ∷ "18" ∷ "60" ∷ "C9 61" ∷ "90 09" ∷ "C9 67" ∷ "B0 05"
    ∷ "38" ∷ "E9 57" ∷ "18" ∷ "60" ∷ "38" ∷ "60" ∷ [])

abbrev pub parse_addr_hex : Hex
parse_addr_hex = hex (
    "A9 00" ∷ "85 F0" ∷ "85 F1" ∷ "85 F5" ∷ "A6 41" ∷ "E4 40" ∷ "B0 24" ∷ "B5 00" ∷ "20 00 C7"
    ∷ "B0 1D" ∷ "48" ∷ "06 F0" ∷ "26 F1" ∷ "06 F0" ∷ "26 F1" ∷ "06 F0" ∷ "26 F1" ∷ "06 F0" ∷ "26 F1"
    ∷ "68" ∷ "05 F0" ∷ "85 F0" ∷ "E6 41" ∷ "E6 F5" ∷ "4C 08 C5" ∷ "A5 F5" ∷ "F0 02" ∷ "18" ∷ "60"
    ∷ "38" ∷ "60" ∷ [])

abbrev pub parse_byte_hex : Hex
parse_byte_hex = hex (
    "A9 00" ∷ "85 F4" ∷ "85 F5" ∷ "A5 F5" ∷ "C9 02" ∷ "B0 22" ∷ "A6 41" ∷ "E4 40" ∷ "B0 1C"
    ∷ "B5 00" ∷ "20 00 C7" ∷ "B0 15" ∷ "48" ∷ "06 F4" ∷ "06 F4" ∷ "06 F4" ∷ "06 F4" ∷ "68" ∷ "05 F4"
    ∷ "85 F4" ∷ "E6 41" ∷ "E6 F5" ∷ "4C 06 C6" ∷ "A5 F5" ∷ "F0 02" ∷ "18" ∷ "60" ∷ "38" ∷ "60" ∷ [])

abbrev pub dispatch_hex : Hex
dispatch_hex = hex (
    "A5 41" ∷ "C5 40" ∷ "90 03" ∷ "4C 00 CA" ∷ "A6 41" ∷ "B5 00" ∷ "C9 2E" ∷ "F0 0B" ∷ "C9 3A"
    ∷ "F0 4D" ∷ "C9 20" ∷ "F0 4E" ∷ "4C 88 C8" ∷ "E6 41" ∷ "A5 F0" ∷ "85 F2" ∷ "A5 F1" ∷ "85 F3"
    ∷ "20 00 C5" ∷ "B0 5D" ∷ "A5 F0" ∷ "85 F5" ∷ "A5 F1" ∷ "85 F6" ∷ "A5 F2" ∷ "85 F0" ∷ "A5 F3"
    ∷ "85 F1" ∷ "A5 F5" ∷ "85 F2" ∷ "A5 F6" ∷ "85 F3" ∷ "A5 41" ∷ "C5 40" ∷ "90 03" ∷ "4C 00 CB"
    ∷ "A6 41" ∷ "B5 00" ∷ "C9 20" ∷ "D0 34" ∷ "E8" ∷ "E4 40" ∷ "B0 2F" ∷ "B5 00" ∷ "C9 53" ∷ "D0 29"
    ∷ "4C 00 D0" ∷ "E6 41" ∷ "4C 00 CC" ∷ "A6 41" ∷ "E8" ∷ "E4 40" ∷ "B0 1A" ∷ "B5 00" ∷ "C9 52"
    ∷ "F0 0B" ∷ "C9 4C" ∷ "F0 0A" ∷ "C9 57" ∷ "F0 09" ∷ "4C 88 C8" ∷ "4C 00 CD" ∷ "4C 00 D1"
    ∷ "4C 00 D2" ∷ "A9 3F" ∷ "20 00 C1" ∷ "A9 0D" ∷ "20 00 C1" ∷ "A9 0A" ∷ "20 00 C1" ∷ "60" ∷ [])
