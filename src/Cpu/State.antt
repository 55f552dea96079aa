-- ===== src/Cpu/State.antt =====
-- src/cpu/cpu6502.h: the registers, latches and clock of the CPU, and the bus it drives.
use sys.Base.{ℕ, ◌+◌, Bool, false, u8, u16}
use sys.Cpu.Alu.{AluResult, AluFunction}
use sys.Cpu.Flags.{Flags, to_byte, of_byte}
use sys.Memory.Interface.{BusAccess}

pub data CpuStep : Type 0 where
  t0 t1 t2 t3 t4 t5 t6 : CpuStep

pub data ClockPhase : Type 0 where
  low low_to_high high high_to_low : ClockPhase

pub data AluOp : Type 0 where
  adc sbc and ora eor cmp asl lsr rol ror inc dec bit : AluOp

-- The members of `CPU6502`. `branch_offset` holds the byte whose int8_t value is
-- `m_branchOffset`; `bus` is the memory behind the reference `m_bus`.
pub record Cpu (M : Type 0) : Type 0 where
  pub a : ℕ
  pub x : ℕ
  pub y : ℕ
  pub pc : ℕ
  pub sp : ℕ
  pub p_flags : Flags
  pub cpu_step : CpuStep
  pub clock_phase : ClockPhase
  pub addr_latch : ℕ
  pub eff_addr : ℕ
  pub page_crossed : Bool
  pub ir : ℕ
  pub branch_offset : ℕ
  pub branch_taken : Bool
  pub halted : Bool
  pub reset_active : Bool
  pub alu_a : ℕ
  pub alu_b : ℕ
  pub alu_function : AluFunction
  pub alu_carry_in : Bool
  pub alu_output : AluResult
  pub bus : M

-- `CPU6502(bus)`: the in-class initialisers.
unfoldable pub new_cpu : {M : Type 0} → M → Cpu M
new_cpu m = record {
  a = 0;
  x = 0;
  y = 0;
  pc = 0;
  sp = 0;
  p_flags = record {
    c = false;
    z = false;
    i = false;
    d = false;
    b = false;
    unused = false;
    v = false;
    n = false;
  };
  cpu_step = t0;
  clock_phase = low;
  addr_latch = 0;
  eff_addr = 0;
  page_crossed = false;
  ir = 0;
  branch_offset = 0;
  branch_taken = false;
  halted = false;
  reset_active = false;
  alu_a = 0;
  alu_b = 0;
  alu_function = AluFunction.add;
  alu_carry_in = false;
  alu_output = record { value = 0; carry = false };
  bus = m;
}

module _ {M : Type 0} where
  -- The flag setters that the handlers call, and P(val).
  abbrev pub set_c : Bool → Cpu M → Cpu M
  set_c val s = record s { p_flags = record (s.p_flags) { c = val } }

  abbrev pub set_z : Bool → Cpu M → Cpu M
  set_z val s = record s { p_flags = record (s.p_flags) { z = val } }

  abbrev pub set_i : Bool → Cpu M → Cpu M
  set_i val s = record s { p_flags = record (s.p_flags) { i = val } }

  abbrev pub set_d : Bool → Cpu M → Cpu M
  set_d val s = record s { p_flags = record (s.p_flags) { d = val } }

  abbrev pub set_b : Bool → Cpu M → Cpu M
  set_b val s = record s { p_flags = record (s.p_flags) { b = val } }

  abbrev pub set_v : Bool → Cpu M → Cpu M
  set_v val s = record s { p_flags = record (s.p_flags) { v = val } }

  abbrev pub set_n : Bool → Cpu M → Cpu M
  set_n val s = record s { p_flags = record (s.p_flags) { n = val } }

  abbrev pub set_p : ℕ → Cpu M → Cpu M
  set_p val s = record s { p_flags = of_byte val }

  abbrev pub p : Cpu M → ℕ
  p s = to_byte s.p_flags

  -- The register setters of a driver.
  abbrev set_a : ℕ → Cpu M → Cpu M
  set_a val s = record s { a = val }

  abbrev set_x : ℕ → Cpu M → Cpu M
  set_x val s = record s { x = val }

  abbrev set_y : ℕ → Cpu M → Cpu M
  set_y val s = record s { y = val }

  abbrev set_pc : ℕ → Cpu M → Cpu M
  set_pc val s = record s { pc = val }

  abbrev set_sp : ℕ → Cpu M → Cpu M
  set_sp val s = record s { sp = val }

  -- `m_PC++`, `m_SP++` and `m_SP--` on a uint16_t and a uint8_t.
  abbrev pub next_pc : Cpu M → Cpu M
  next_pc s = record s { pc = u16 (s.pc + 1) }

  abbrev pub inc_sp : Cpu M → Cpu M
  inc_sp s = record s { sp = u8 (s.sp + 1) }

  abbrev pub dec_sp : Cpu M → Cpu M
  dec_sp s = record s { sp = u8 (s.sp + 255) }

  -- `m_cpuStep = step`.
  abbrev pub go_to : CpuStep → Cpu M → Cpu M
  go_to step s = record s { cpu_step = step }

module _ {M : Type 0} ⦃access : BusAccess M⦄ where
  -- `m_bus.read(addr)`, whose value the rest of the handler takes.
  abbrev pub reading : ℕ → Cpu M → (ℕ → Cpu M → Cpu M) → Cpu M
  reading addr s rest =
      rest (access.read s.bus addr).0 (record s { bus = (access.read s.bus addr).1 })

  abbrev pub write_bus : ℕ → ℕ → Cpu M → Cpu M
  write_bus addr val s = record s { bus = access.write s.bus addr val }
