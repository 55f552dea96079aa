-- ===== src/Examples/Monitors.antt =====
-- The machine with its monitor, at concrete inputs.
use sys.Base.{
  ap, subst, sym, IsByte, ◌∷◌, ℕ, ◌≡◌, refl, arith, true, false, none, some, inr, List, get_or, [],
}
use sys.Cpu.Clock.{run}
use sys.Cpu.Cycle.{IsBetween}
use sys.Cpu.State.{Cpu, new_cpu}
use sys.Examples.Machines.{queue_terminal}
use sys.Isa.Machine.{visible}
use sys.Memory.Bus.{Bus, bus_access}
use sys.System.Survival.{run_for-HasMonitor, hold-HasMonitor}
use sys.Memory.Bus.{device_at}
use sys.Peripherals.Tty.{Tty, new_tty, receive}
use sys.System.Monitor.GetCharCall.{IsTaken, get_char-rx_byte}
use sys.System.{hold, tty_of, put_tty, System, run_for, new_rom, new_system, system_reset}
use sys.System.Boot.{booted, booted-HasMonitor, new_system-system_reset}
use sys.System.Firmware.{install, routines}
use sys.System.Firmware.Layout.{AllHold, free_offset, install-AllHold}
use sys.System.MemoryMap.{length-replicate}
use sys.System.Monitor.{HasMonitor}
use sys.System.Monitor.HexValCall.{IsAnswer, hex_val-hex_digit_value}
use sys.System.Monitor.PrintCall.{IsPrinted, print_hex_byte-byte_of}
use sys.Utils.ProgramLoader.{hex_digit_value}

install-AllHold_example :
    ((install new_rom).0 ≡ none)
    × AllHold (install new_rom).1 routines
    × (get_or (install new_rom).1.bytes 0x3000 0 ≡ get_or new_rom.bytes 0x3000 0)
install-AllHold_example = install-AllHold new_rom 0x3000 (length-replicate 0x4000 0) free_offset

new_system-system_reset_example :
    (s : System (List ℕ)) × (s' : System (List ℕ)) × (new_system [] none ≡ inr s)
    × HasMonitor s.cpu.bus
    × (system_reset s ≡ some s')
    × IsBetween s'.cpu
    × (visible s'.cpu ≡ record (visible s.cpu) {
      pc = 0xCF00;
      sp = 0xFD;
      p_flags = record (s.cpu.p_flags) { i = true };
      halted = false;
    })
    × (s'.term ≡ [])
new_system-system_reset_example = new_system-system_reset [] none

-- HEXVAL is called with the letter 'b'.
abbrev calling : Cpu Bus
calling = record (new_cpu (booted none)) { pc = 0xC700; a = 98 }

calling-IsBetween : IsBetween calling
unfolding new_cpu
calling-IsBetween = record { at_t0 = refl; phase = refl; not_resetting = refl }

hex_val-hex_digit_value_example :
    (n : ℕ) × (t : Cpu Bus) × (run n calling ≡ some (t.halted, t))
    × IsBetween t
    × IsAnswer calling t (hex_digit_value 98)
unfolding new_cpu
hex_val-hex_digit_value_example =
    hex_val-hex_digit_value calling (booted-HasMonitor none) calling-IsBetween refl refl
      (omega arith)

-- PRINT_HEX_BYTE is called with the byte 195.
abbrev printing : Cpu Bus
printing = record (new_cpu (booted none)) { pc = 0xC200; a = 195; sp = 0xFD }

printing-IsBetween : IsBetween printing
unfolding new_cpu
printing-IsBetween = record { at_t0 = refl; phase = refl; not_resetting = refl }

print_hex_byte-byte_of_example :
    (n : ℕ) × (t : Cpu Bus) × (run n printing ≡ some (t.halted, t))
    × IsBetween t
    × IsPrinted printing t
unfolding new_cpu
print_hex_byte-byte_of_example =
    print_hex_byte-byte_of printing (booted-HasMonitor none) printing-IsBetween refl refl
      (omega arith) (omega arith)

run_for-HasMonitor_example :
    (s : System (List ℕ)) × (s' : System (List ℕ)) × (new_system (65 ∷ []) none ≡ inr s)
    × (run_for 3 s ≡ some s')
    × IsBetween s'.cpu
    × HasMonitor s'.cpu.bus
run_for-HasMonitor_example = run_for-HasMonitor (65 ∷ []) none 3

-- GETCHAR is called with the letter 'A' received.
abbrev receiving : Cpu Bus
receiving = record (new_cpu (hold (some 65) (booted none))) { pc = 0xC000; sp = 0xFD }

receiving-IsBetween : IsBetween receiving
unfolding new_cpu
receiving-IsBetween = record { at_t0 = refl; phase = refl; not_resetting = refl }

received : tty_of (hold (some 65) (booted none)) ≡ receive (new_tty none) 65
unfolding hold booted tty_of put_tty device_at
received = refl

get_char-rx_byte_example :
    (n : ℕ) × (t : Cpu Bus) × (run n receiving ≡ some (t.halted, t))
    × IsBetween t
    × IsTaken receiving t
unfolding new_cpu receive
get_char-rx_byte_example =
    get_char-rx_byte receiving (hold-HasMonitor (some 65) (booted none) (booted-HasMonitor none))
      receiving-IsBetween refl refl (ap (λ (y : Tty). y.rx_ready) received)
      (subst (λ (y : Tty). IsByte y.rx_byte) (sym received) (omega arith))
