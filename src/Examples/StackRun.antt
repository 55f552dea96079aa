-- ===== src/Examples/StackRun.antt =====
-- PHA and PLA on a machine of two RAMs: the program at 0, and the stack's end.
use sys.Base.{◌≡◌, refl, arith, Option, none, some, [], ◌∷◌, replicate}
use sys.Cpu.Alu.{execute}
use sys.Cpu.Capture.{capture}
use sys.Cpu.CaptureSwitch.{capture_case}
use sys.Cpu.Clock.{
  execute_instruction, tick_to_boundary, tick, next_clock_phase, settle, clock_edge, on_clock_high,
  on_clock_low, capture_opcode_fetch, commit_opcode_fetch, at_boundary,
}
use sys.Cpu.Commit.{commit}
use sys.Cpu.CommitSwitch.{commit_case}
use sys.Cpu.Cycle.{IsBetween}
use sys.Cpu.Stack.{stack_address, capture_implied_push, commit_implied_push, push}
use sys.Cpu.State.{Cpu, new_cpu}
use sys.Refinement.Instruction.{execute_instruction-isa_step}
use sys.Memory.Bus.{
  bus_access-ReadsBytes, Mapping, Bus, bus_access, any_overlap, overlaps, device_at, bus_read,
  bus_write, device_read, device_write, find_mapping, contains,
}
use sys.Memory.Bus.RamBytes.{IsRamAt, byte_at, byte_at-read}
use sys.Memory.Bus.WellFormed.{nil, cons}
use sys.Memory.Device.{ram, size, read, write}
use sys.Memory.Ram.{Ram}
use sys.Refinement.Stack.{pha, pla, pla-pha}

abbrev stack_ram : Ram
stack_ram = record { bytes = replicate 16 0 }

abbrev stack_mapping : Mapping
stack_mapping = record { start = 0x1F0; last = 0x1FF; device = 1 }

abbrev stack_bus : Bus
stack_bus = record {
  mappings = record { start = 0; last = 2; device = 0 } ∷ stack_mapping ∷ [];
  devices = ram (record { bytes = pha ∷ pla ∷ 0 ∷ [] }) ∷ ram stack_ram ∷ [];
}

abbrev at_pha : Cpu Bus
at_pha = record (new_cpu stack_bus) { a = 0x2A; sp = 0xFF }

abbrev after : Cpu Bus
after = elim (execute_instruction at_pha) [ none ↦ at_pha | some t ↦ t ]

-- A is lost in between.
abbrev at_pla : Cpu Bus
at_pla = record after { a = 0 }

at_pha-IsBetween : IsBetween at_pha
unfolding new_cpu
at_pha-IsBetween = record { at_t0 = refl; phase = refl; not_resetting = refl }

held :
    (r : Option (Cpu Bus)) (d t : Cpu Bus)
    → r ≡ some t
    → r ≡ some (elim r [ none ↦ d | some c ↦ c ])
held none d t e = cc
held (some c) d t e = refl

ran : execute_instruction at_pha ≡ some after
ran =
    let (t, ends, _, _) =
      execute_instruction-isa_step at_pha bus_access-ReadsBytes at_pha-IsBetween in
    held (execute_instruction at_pha) at_pha t ends

at_pla-IsBetween : IsBetween at_pla
unfolding execute_instruction tick_to_boundary tick next_clock_phase settle clock_edge on_clock_high
    on_clock_low capture_opcode_fetch commit_opcode_fetch at_boundary capture commit capture_case
    commit_case capture_implied_push commit_implied_push push new_cpu bus_read bus_write device_read
    device_write find_mapping contains device_at read write execute
at_pla-IsBetween = record { at_t0 = refl; phase = refl; not_resetting = refl }

next_is_pla : byte_at at_pla.bus at_pla.pc ≡ pla
unfolding execute_instruction tick_to_boundary tick next_clock_phase settle clock_edge on_clock_high
    on_clock_low capture_opcode_fetch commit_opcode_fetch at_boundary capture commit capture_case
    commit_case capture_implied_push commit_implied_push push new_cpu bus_read bus_write device_read
    device_write find_mapping contains device_at read write execute
next_is_pla = refl

first_is_pha : byte_at at_pha.bus at_pha.pc ≡ pha
unfolding new_cpu bus_read device_read find_mapping contains device_at read
first_is_pha = refl

stack-IsRamAt : IsRamAt at_pha.bus (stack_address at_pha.sp)
unfolding new_cpu any_overlap overlaps find_mapping contains device_at size
stack-IsRamAt = record {
  well_formed =
      cons (record { in_order = omega arith; whole = refl }) refl
        (cons (record { in_order = omega arith; whole = refl }) refl nil);
  mapping = stack_mapping;
  found = refl;
  contents = stack_ram;
  is_ram = refl;
}

pla-pha_example :
    (w : Cpu Bus) × (execute_instruction at_pla ≡ some w) × (w.a ≡ at_pha.a) × (w.sp ≡ at_pha.sp)
pla-pha_example =
    pla-pha at_pha after at_pla at_pha-IsBetween at_pla-IsBetween (omega arith) (omega arith)
      stack-IsRamAt first_is_pha ran refl refl next_is_pla

byte_at-read_example : byte_at (bus_read at_pha.bus 0).1 0x1FF ≡ byte_at at_pha.bus 0x1FF
byte_at-read_example = byte_at-read at_pha.bus 0 0x1FF stack-IsRamAt
