-- ===== src/System/Firmware/Routines/Console.antt =====
-- src/system/monitor_firmware.cpp: the routines for the terminal, as 6502 code in hex.
use sys.Base.{[], ◌∷◌}
use sys.System.Firmware.Text.{Hex, hex}

abbrev pub get_char_hex : Hex
get_char_hex = hex ("AD 00 80" ∷ "29 01" ∷ "F0 F9" ∷ "AD 01 80" ∷ "60" ∷ [])

abbrev pub put_char_hex : Hex
put_char_hex = hex ("8D 01 80" ∷ "60" ∷ [])

abbrev pub print_hex_byte_hex : Hex
print_hex_byte_hex =
    hex ("48" ∷ "4A" ∷ "4A" ∷ "4A" ∷ "4A" ∷ "20 20 C2" ∷ "68" ∷ "29 0F" ∷ "20 20 C2" ∷ "60" ∷ [])

abbrev pub print_nibble_hex : Hex
print_nibble_hex = hex ("C9 0A" ∷ "90 05" ∷ "69 36" ∷ "4C 00 C1" ∷ "69 30" ∷ "4C 00 C1" ∷ [])

abbrev pub print_string_hex : Hex
print_string_hex = hex ("A0 00" ∷ "B1 FC" ∷ "F0 07" ∷ "20 00 C1" ∷ "C8" ∷ "4C 02 C3" ∷ "60" ∷ [])

abbrev pub read_line_hex : Hex
read_line_hex = hex (
    "A2 00" ∷ "20 00 C0" ∷ "C9 0D" ∷ "F0 2C" ∷ "C9 7F" ∷ "F0 11" ∷ "C9 08" ∷ "F0 0D" ∷ "E0 40"
    ∷ "B0 ED" ∷ "95 00" ∷ "20 00 C1" ∷ "E8" ∷ "4C 02 C4" ∷ "E0 00" ∷ "F0 E0" ∷ "CA" ∷ "A9 08"
    ∷ "20 00 C1" ∷ "A9 20" ∷ "20 00 C1" ∷ "A9 08" ∷ "20 00 C1" ∷ "4C 02 C4" ∷ "A9 0D" ∷ "20 00 C1"
    ∷ "A9 0A" ∷ "20 00 C1" ∷ "86 40" ∷ "60" ∷ [])
