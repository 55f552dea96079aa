-- ===== src/System/Firmware/Routines/Commands.antt =====
-- src/system/monitor_firmware.cpp: the commands on memory, the texts, and the main loop, as 6502 code in hex.
use sys.Base.{[], ◌∷◌}
use sys.System.Firmware.Text.{Hex, hex}

abbrev pub peek_hex : Hex
peek_hex = hex (
    "A5 F1" ∷ "20 00 C2" ∷ "A5 F0" ∷ "20 00 C2" ∷ "A9 3A" ∷ "20 00 C1" ∷ "A9 20" ∷ "20 00 C1"
    ∷ "A0 00" ∷ "B1 F0" ∷ "20 00 C2" ∷ "A9 0D" ∷ "20 00 C1" ∷ "A9 0A" ∷ "20 00 C1" ∷ "60" ∷ [])

abbrev pub list_hex : Hex
list_hex = hex (
    "A9 00" ∷ "85 F7" ∷ "A5 F1" ∷ "C5 F3" ∷ "90 0A" ∷ "D0 4B" ∷ "A5 F0" ∷ "C5 F2" ∷ "F0 02"
    ∷ "B0 43" ∷ "A5 F7" ∷ "D0 14" ∷ "A5 F1" ∷ "20 00 C2" ∷ "A5 F0" ∷ "20 00 C2" ∷ "A9 3A"
    ∷ "20 00 C1" ∷ "A9 20" ∷ "20 00 C1" ∷ "A0 00" ∷ "B1 F0" ∷ "20 00 C2" ∷ "A9 20" ∷ "20 00 C1"
    ∷ "E6 F0" ∷ "D0 02" ∷ "E6 F1" ∷ "E6 F7" ∷ "A5 F7" ∷ "C9 10" ∷ "90 BE" ∷ "A9 0D" ∷ "20 00 C1"
    ∷ "A9 0A" ∷ "20 00 C1" ∷ "A9 00" ∷ "85 F7" ∷ "4C 04 CB" ∷ "A5 F7" ∷ "F0 0A" ∷ "A9 0D"
    ∷ "20 00 C1" ∷ "A9 0A" ∷ "20 00 C1" ∷ "60" ∷ [])

abbrev pub poke_hex : Hex
poke_hex = hex (
    "A5 41" ∷ "C5 40" ∷ "B0 21" ∷ "A6 41" ∷ "B5 00" ∷ "C9 20" ∷ "D0 05" ∷ "E6 41" ∷ "4C 00 CC"
    ∷ "20 00 C6" ∷ "B0 0F" ∷ "A0 00" ∷ "A5 F4" ∷ "91 F0" ∷ "E6 F0" ∷ "D0 02" ∷ "E6 F1" ∷ "4C 00 CC"
    ∷ "60" ∷ [])

abbrev pub run_hex : Hex
run_hex = hex (
    "A9 20" ∷ "85 F8" ∷ "A5 F0" ∷ "85 F9" ∷ "A5 F1" ∷ "85 FA" ∷ "A9 60" ∷ "85 FB" ∷ "20 F8 00"
    ∷ "60" ∷ [])

abbrev pub data_hex : Hex
data_hex = hex ("73 79 73 36 20 6D 6F 6E 69 74 6F 72 0D 0A 00" ∷ "3E 20 00" ∷ [])

abbrev pub main_hex : Hex
main_hex = hex (
    "A9 00" ∷ "85 FC" ∷ "A9 CE" ∷ "85 FD" ∷ "20 00 C3" ∷ "4C 11 CF" ∷ "A2 FF" ∷ "9A" ∷ "A9 0F"
    ∷ "85 FC" ∷ "A9 CE" ∷ "85 FD" ∷ "20 00 C3" ∷ "20 00 C4" ∷ "A9 00" ∷ "85 41" ∷ "20 00 C5"
    ∷ "B0 06" ∷ "20 00 C8" ∷ "4C 11 CF" ∷ "A9 3F" ∷ "20 00 C1" ∷ "A9 0D" ∷ "20 00 C1" ∷ "A9 0A"
    ∷ "20 00 C1" ∷ "4C 11 CF" ∷ [])
