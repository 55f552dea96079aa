-- ===== src/Examples/Machines.antt =====
-- A small machine: sixteen bytes of RAM from address 0, and a CPU that starts there.
use sys.Base.{ℕ, none, some, List, [], ◌∷◌, refl, arith}
use sys.Cpu.Cycle.{IsBetween}
use sys.Cpu.State.{Cpu, new_cpu}
use sys.Memory.Bus.{Mapping, Bus, any_overlap, device_at, bus_access}
use sys.Memory.Bus.WellFormed.{IsWellFormed, nil, cons}
use sys.Memory.Device.{ram, size}
use sys.Memory.Ram.{Ram}
use sys.System.{TerminalIo}

-- LDA #$2A; SEC; ADC #$80; INX; BRK.
abbrev pub program : List ℕ
program =
    0xA9 ∷ 0x2A ∷ 0x38 ∷ 0x69 ∷ 0x80 ∷ 0xE8 ∷ 0x00 ∷ 0x00 ∷ 0x00 ∷ 0x00 ∷ 0x00 ∷ 0x00 ∷ 0x00 ∷ 0x00
    ∷ 0x00 ∷ 0x00 ∷ []

abbrev pub small_ram : Ram
small_ram = record { bytes = program }

abbrev pub small_mapping : Mapping
small_mapping = record { start = 0; last = 15; device = 0 }

abbrev pub small_bus : Bus
small_bus = record { mappings = small_mapping ∷ []; devices = ram small_ram ∷ [] }

abbrev pub small_cpu : Cpu Bus
small_cpu = new_cpu small_bus

pub small_cpu-IsBetween : IsBetween small_cpu
unfolding new_cpu
small_cpu-IsBetween = record { at_t0 = refl; phase = refl; not_resetting = refl }

pub small_bus-IsWellFormed : IsWellFormed small_bus
unfolding any_overlap device_at size
small_bus-IsWellFormed = cons (record { in_order = omega arith; whole = refl }) refl nil

-- A terminal that has these bytes to give.
instance abbrev pub queue_terminal : TerminalIo (List ℕ)
queue_terminal = record {
  try_read_byte = λ queue. elim queue [ [] ↦ (none, []) | b ∷ bs ↦ (some b, bs) ];
}
