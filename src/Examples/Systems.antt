-- ===== src/Examples/Systems.antt =====
-- The whole machine at a concrete input.
use sys.Base.{
  ℕ, ◌≡◌, arith, true, none, some, inr, List, [], ◌∷◌, replicate, u8, ltb, if◌then◌else◌,
}
use sys.Cpu.Cycle.{IsBetween}
use sys.Examples.Machines.{small_cpu, small_cpu-IsBetween, queue_terminal}
use sys.Isa.Machine.{visible}
use sys.Isa.Step.{isa_step}
use sys.Memory.Bus.{bus_access, find_mapping}
use sys.Memory.Bus.WellFormed.{IsWellFormed}
use sys.Memory.Device.{ram, tty}
use sys.Memory.Ram.{new_ram}
use sys.Memory.Rom.{Rom}
use sys.Peripherals.Tty.{new_tty}
use sys.System.{System, tty_of, attach_devices, poll, step, run_for}
use sys.System.MemoryMap.{
  ram_mapping, tty_mapping, rom_mapping, wired, length-replicate, attach_devices-memory_map,
}
use sys.System.Steps.{step-isa_step, run_for-ends, poll_lem}

abbrev no_firmware : Rom
no_firmware = record { bytes = replicate 0x4000 0 }

attach_devices-memory_map_example :
    (attach_devices no_firmware none ≡ inr (wired no_firmware none))
    × IsWellFormed (wired no_firmware none)
    × (find_mapping 0x8001 (wired no_firmware none).mappings ≡ (
        if ltb 0x8001 0x8000
        then some ram_mapping
        else if ltb 0x8001 0x8100
        then some tty_mapping
        else if ltb 0x8001 0xC000
        then none
        else some rom_mapping))
attach_devices-memory_map_example =
    attach_devices-memory_map no_firmware none 0x8001 (length-replicate 0x4000 0) (omega arith)

-- The small machine with a byte to come.
abbrev small_system : System (List ℕ)
small_system = record { term = 65 ∷ []; cpu = small_cpu }

step-isa_step_example :
    (s' : System (List ℕ)) × (step small_system ≡ some s')
    × (visible s'.cpu ≡ isa_step (visible (poll small_system).cpu))
    × (s'.term ≡ (poll small_system).term)
    × IsBetween s'.cpu
step-isa_step_example = step-isa_step small_system small_cpu-IsBetween

run_for-ends_example :
    (s' : System (List ℕ)) × (run_for 3 small_system ≡ some s') × IsBetween s'.cpu
run_for-ends_example = run_for-ends 3 small_system small_cpu-IsBetween.phase

-- A bus with a TTY where the system has its own.
abbrev tty_system : System (List ℕ)
tty_system = record {
  term = 65 ∷ [];
  cpu = record small_cpu {
    bus = record { mappings = []; devices = ram (new_ram 1) ∷ tty (new_tty none) ∷ [] };
  };
}

poll_lem_example :
    ((poll tty_system).term ≡ (
      if (tty_of tty_system.cpu.bus).rx_ready
      then tty_system.term
      else (queue_terminal.try_read_byte tty_system.term).1))
    × (tty_of (poll tty_system).cpu.bus ≡ (
        if (tty_of tty_system.cpu.bus).rx_ready
        then tty_of tty_system.cpu.bus
        else elim (queue_terminal.try_read_byte tty_system.term).0 [
          | none ↦ tty_of tty_system.cpu.bus
          | some b ↦ record (tty_of tty_system.cpu.bus) { rx_byte = u8 b; rx_ready = true }
        ]))
poll_lem_example = poll_lem tty_system (omega arith)
