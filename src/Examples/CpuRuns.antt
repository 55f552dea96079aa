-- ===== src/Examples/CpuRuns.antt =====
-- The CPU on the small machine.
use sys.Refinement.ExactTiming.{execute_instruction-isa_cycles}
use sys.Isa.Penalties.{isa_cycles}
use sys.Base.{◌-◌, ◌*◌, none, ◌≡◌, refl, some, arith}
use sys.Cpu.Cycle.Phases.{run_to_clock_high-ends}
use sys.Cpu.Clock.{run_to_clock_high, tick_to_boundary, execute_instruction, run, reset}
use sys.Cpu.Cycle.{IsBetween}
use sys.Cpu.State.{Cpu, high, new_cpu}
use sys.Examples.Machines.{small_cpu, small_cpu-IsBetween}
use sys.Isa.Machine.{visible}
use sys.Isa.Step.{isa_step, exec}
use sys.Memory.Bus.{
  Bus, bus_access, bus_access-ReadsBytes, bus_read, device_read, find_mapping, contains, device_at,
}
use sys.Memory.Device.{read}
use sys.Isa.Decode.{decode}
use sys.Isa.Exec.{with_address, exec_binary, add_with_carry, exec_implied, put_register, load_at}
use sys.Refinement.Instruction.{execute_instruction-isa_step}
use sys.Refinement.Routing.{Routed, routed}
use sys.Refinement.Run.{isa_run, isa_reset, run-isa_run, reset-isa_reset}

run-isa_run_example :
    (t : Cpu Bus) × (run 5 small_cpu ≡ some (t.halted, t))
    × (visible t ≡ isa_run 5 (visible small_cpu))
    × IsBetween t
run-isa_run_example = run-isa_run 5 small_cpu bus_access-ReadsBytes small_cpu-IsBetween

execute_instruction-isa_step_example :
    (t : Cpu Bus) × (execute_instruction small_cpu ≡ some t)
    × (visible t ≡ isa_step (visible small_cpu))
    × IsBetween t
execute_instruction-isa_step_example =
    execute_instruction-isa_step small_cpu bus_access-ReadsBytes small_cpu-IsBetween

reset-isa_reset_example :
    (t : Cpu Bus) × (reset small_cpu ≡ some t)
    × (visible t ≡ isa_reset (visible small_cpu))
    × IsBetween t
reset-isa_reset_example = reset-isa_reset small_cpu small_cpu-IsBetween.phase

routed_example : Routed 0x69
routed_example = routed 0x69 (omega arith)

-- After LDA #$2A; SEC; ADC #$80 the accumulator holds $AB.
halfway : (isa_run 3 (visible small_cpu)).a ≡ 0xAB
unfolding isa_run isa_step decode exec with_address exec_binary add_with_carry exec_implied
    put_register load_at new_cpu visible bus_read device_read find_mapping contains device_at read
halfway = refl

execute_instruction-isa_cycles_example :
    (tick_to_boundary (4 * (isa_cycles (visible small_cpu) - 1)) small_cpu ≡ none)
    × ((t : Cpu Bus) × (tick_to_boundary (4 * isa_cycles (visible small_cpu)) small_cpu ≡ some t))
execute_instruction-isa_cycles_example =
    execute_instruction-isa_cycles small_cpu bus_access-ReadsBytes small_cpu-IsBetween

run_to_clock_high-ends_example :
    (t : Cpu Bus) × (run_to_clock_high small_cpu ≡ some t) × (t.clock_phase ≡ high)
run_to_clock_high-ends_example = run_to_clock_high-ends small_cpu
