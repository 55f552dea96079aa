-- ===== src/System.antt =====
-- src/system/system.h, src/system/system.cpp and src/system/terminal_io.h: the machine.
pub mod Firmware
pub mod MemoryMap
pub mod Steps
pub mod Monitor
pub mod Boot
pub mod Survival
pub mod PosixTerminal
pub mod Emulator
use sys.Base.{
  ℕ, zero, suc, Bool, true, false, Option, none, some, ◌⊎◌, inl, inr, List, [], ◌∷◌, if◌then◌else◌,
  set, replicate,
}
use sys.Cpu.Clock.{execute_instruction, reset}
use sys.Cpu.State.{Cpu, new_cpu}
use sys.Memory.Bus.{Bus, InvalidArgument, device_at, attach, bus_access}
use sys.Memory.Device.{MemoryDevice, ram, rom, tty}
use sys.Memory.Ram.{new_ram}
use sys.Memory.Rom.{Rom}
use sys.Peripherals.Tty.{Tty, new_tty, receive}
use sys.System.Firmware.{rom_size, install}
use sys.Utils.ProgramLoader.{LoadError}

-- What the system uses of a terminal: `tryReadByte`.
pub record TerminalIo (T : Type 0) : Type 0 where
  pub try_read_byte : T → Option ℕ × T

-- The CPU holds the bus, and the bus the devices: the RAM, the TTY and the ROM.
pub record System (T : Type 0) : Type 0 where
  pub term : T
  pub cpu : Cpu Bus

abbrev pub ram_size : ℕ
ram_size = 0x8000

abbrev pub tty_device : ℕ
tty_device = 1

abbrev pub rom_device : ℕ
rom_device = 2

-- `m_rom` as it is made: all zero.
abbrev pub new_rom : Rom
new_rom = record { bytes = replicate rom_size 0 }

-- `m_tty`, which is the second of the devices.
unfoldable pub tty_of : Bus → Tty
tty_of bus = elim (device_at bus.devices tty_device) [ tty t ↦ t | _ ↦ new_tty none ]

unfoldable pub put_tty : Tty → Bus → Bus
put_tty t bus = record bus { devices = set bus.devices tty_device (tty t) }

-- `m_tty.receive(*b)`, if there is a byte.
unfoldable pub hold : Option ℕ → Bus → Bus
unfolding tty_of put_tty
hold none bus = bus
hold (some b) bus = put_tty (receive (tty_of bus) b) bus

-- The calls of `attach` in the constructor.
unfoldable pub attach_all : Bus → InvalidArgument ⊎ Bus
attach_all bus = elim (attach 0x0000 0x7FFF 0 bus) [
  | inl e ↦ inl e
  | inr b₁ ↦ elim (attach 0x8000 0x80FF 1 b₁) [ inl e ↦ inl e | inr b₂ ↦ attach 0xC000 0xFFFF 2 b₂ ]
]

unfoldable pub attach_devices : Rom → Option (List ℕ) → InvalidArgument ⊎ Bus
attach_devices firmware tape_backing = attach_all (record {
  mappings = [];
  devices = ram (new_ram ram_size) ∷ tty (new_tty tape_backing) ∷ rom firmware ∷ [];
})

-- `m_rom`, which is the third.
unfoldable pub rom_of : Bus → Rom
rom_of bus = elim (device_at bus.devices rom_device) [ rom r ↦ r | _ ↦ new_rom ]

unfoldable pub put_rom : Rom → Bus → Bus
put_rom r bus = record bus { devices = set bus.devices rom_device (rom r) }

-- `monitor::install(m_rom)`: the bus refers to the ROM that is filled.
unfoldable pub install_monitor : Bus → Option LoadError × Bus
unfolding rom_of put_rom
install_monitor bus = let (error, r) = install (rom_of bus) in (error, put_rom r bus)

-- What the constructor can throw.
pub data ConstructionError : Type 0 where
  not_attached : InvalidArgument → ConstructionError
  not_loaded : LoadError → ConstructionError

unfoldable pub new_system : {T : Type 0} → T → Option (List ℕ) → ConstructionError ⊎ System T
new_system term tape_backing = elim (attach_devices new_rom tape_backing) [
  | inl e ↦ inl (not_attached e)
  | inr bus ↦
      let (error, bus') = install_monitor bus in
      elim error [
        | some e ↦ inl (not_loaded e)
        | none ↦ inr (record { term = term; cpu = new_cpu bus' })
      ]
]

module _ {T : Type 0} where
  abbrev with_bus : (Bus → Bus) → System T → System T
  with_bus f s = record s { cpu = record (s.cpu) { bus = f s.cpu.bus } }

  unfoldable pub system_reset : System T → Option (System T)
  system_reset s = elim (reset s.cpu) [ none ↦ none | some c ↦ some (record s { cpu = c }) ]

module _ {T : Type 0} ⦃terminal : TerminalIo T⦄ where
  -- A byte is pulled only when the holding register is free.
  unfoldable pub poll : System T → System T
  unfolding hold
  poll s =
      let answer = terminal.try_read_byte s.term in
      if (tty_of s.cpu.bus).rx_ready
      then s
      else with_bus (hold answer.0) (record s { term = answer.1 })

  unfoldable pub step : System T → Option (System T)
  unfolding poll
  step s = elim (execute_instruction (poll s).cpu) [
    | none ↦ none
    | some c ↦ some (record (poll s) { cpu = c })
  ]

  -- So many rounds of the endless loop of `run`.
  unfoldable pub steps : ℕ → System T → Option (System T)
  steps zero s = some s
  steps (suc n) s = elim (step s) [ none ↦ none | some s' ↦ steps n s' ]

  unfoldable pub run_for : ℕ → System T → Option (System T)
  run_for n s = elim (system_reset s) [ none ↦ none | some s' ↦ steps n s' ]
