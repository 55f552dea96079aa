-- ===== src/System/Firmware/Routines/Tape.antt =====
-- src/system/monitor_firmware.cpp: the commands on the tape, as 6502 code in hex.
use sys.Base.{[], ◌∷◌}
use sys.System.Firmware.Text.{Hex, hex}

abbrev pub save_hex : Hex
save_hex = hex (
    "AD 02 80" ∷ "29 01" ∷ "D0 03" ∷ "4C 70 D0" ∷ "A5 F3" ∷ "C5 F1" ∷ "90 08" ∷ "D0 09" ∷ "A5 F2"
    ∷ "C5 F0" ∷ "B0 03" ∷ "4C 70 D0" ∷ "A9 01" ∷ "8D 03 80" ∷ "38" ∷ "A5 F2" ∷ "E5 F0" ∷ "85 42"
    ∷ "A5 F3" ∷ "E5 F1" ∷ "85 43" ∷ "E6 42" ∷ "D0 02" ∷ "E6 43" ∷ "A9 00" ∷ "85 44" ∷ "A5 42"
    ∷ "8D 04 80" ∷ "A5 43" ∷ "8D 04 80" ∷ "A5 F1" ∷ "C5 F3" ∷ "90 0A" ∷ "D0 1C" ∷ "A5 F0" ∷ "C5 F2"
    ∷ "F0 02" ∷ "B0 14" ∷ "A0 00" ∷ "B1 F0" ∷ "8D 04 80" ∷ "45 44" ∷ "85 44" ∷ "E6 F0" ∷ "D0 02"
    ∷ "E6 F1" ∷ "4C 41 D0" ∷ "A5 44" ∷ "8D 04 80" ∷ "A9 00" ∷ "8D 03 80" ∷ "60" ∷ "A9 3F"
    ∷ "20 00 C1" ∷ "A9 0D" ∷ "20 00 C1" ∷ "A9 0A" ∷ "20 00 C1" ∷ "60" ∷ [])

abbrev pub load_hex : Hex
load_hex = hex (
    "AD 02 80" ∷ "29 01" ∷ "D0 03" ∷ "4C 5E D1" ∷ "A9 01" ∷ "8D 03 80" ∷ "20 6E D1" ∷ "B0 3C"
    ∷ "85 42" ∷ "20 6E D1" ∷ "B0 35" ∷ "85 43" ∷ "A9 00" ∷ "85 44" ∷ "A5 42" ∷ "05 43" ∷ "F0 20"
    ∷ "20 6E D1" ∷ "B0 24" ∷ "48" ∷ "45 44" ∷ "85 44" ∷ "68" ∷ "A0 00" ∷ "91 F0" ∷ "E6 F0" ∷ "D0 02"
    ∷ "E6 F1" ∷ "A5 42" ∷ "D0 02" ∷ "C6 43" ∷ "C6 42" ∷ "4C 21 D1" ∷ "20 6E D1" ∷ "B0 04" ∷ "C5 44"
    ∷ "F0 08" ∷ "A9 00" ∷ "8D 03 80" ∷ "4C 5E D1" ∷ "A9 00" ∷ "8D 03 80" ∷ "60" ∷ "A9 3F"
    ∷ "20 00 C1" ∷ "A9 0D" ∷ "20 00 C1" ∷ "A9 0A" ∷ "20 00 C1" ∷ "60" ∷ "AD 04 80" ∷ "48"
    ∷ "AD 02 80" ∷ "29 08" ∷ "F0 03" ∷ "68" ∷ "38" ∷ "60" ∷ "68" ∷ "18" ∷ "60" ∷ [])

abbrev pub rewind_hex : Hex
rewind_hex = hex (
    "AD 02 80" ∷ "29 01" ∷ "D0 03" ∷ "4C 10 D2" ∷ "A9 02" ∷ "8D 03 80" ∷ "60" ∷ "A9 3F" ∷ "20 00 C1"
    ∷ "A9 0D" ∷ "20 00 C1" ∷ "A9 0A" ∷ "20 00 C1" ∷ "60" ∷ [])
