-- ===== src/System/Steps.antt =====
-- src/system/system.cpp: `step` and the loop of `run`.
use sys.Base.{
  ◌<◌, length, if◌then◌else◌, u8, get_or-set_self, ℕ, zero, suc, true, false, Option, none, some,
  ◌≡◌, refl, ◌∙◌, ap, arith,
}
use sys.Cpu.Clock.{execute_instruction, reset}
use sys.Cpu.Cycle.{IsBetween}
use sys.Cpu.State.{Cpu, low}
use sys.Isa.Machine.{visible}
use sys.Isa.Step.{isa_step}
use sys.Memory.Device.{MemoryDevice, tty, ram}
use sys.Memory.Ram.{new_ram}
use sys.Memory.Bus.{device_at, Bus, bus_access, bus_access-ReadsBytes}
use sys.Peripherals.Tty.{Tty, new_tty, receive}
use sys.Refinement.Instruction.{execute_instruction-isa_step}
use sys.Refinement.Run.{reset-isa_reset}
use sys.System.{
  tty_device, TerminalIo, System, tty_of, put_tty, hold, poll, step, steps, run_for, system_reset,
}

tty_of-put_tty :
    (t : Tty) (bus : Bus) → tty_device < length bus.devices → tty_of (put_tty t bus) ≡ t
unfolding tty_of put_tty device_at
tty_of-put_tty t bus h =
    ap (λ (d : MemoryDevice). elim d [ tty u ↦ u | _ ↦ new_tty none ])
      (get_or-set_self bus.devices tty_device (tty t) (ram (new_ram 0)) h)

tty_of-hold :
    (a : Option ℕ) (bus : Bus)
    → tty_device < length bus.devices
    → (tty_of bus).rx_ready ≡ false
    → tty_of (hold a bus) ≡ elim a [
      | none ↦ tty_of bus
      | some b ↦ record (tty_of bus) { rx_byte = u8 b; rx_ready = true }
    ]
unfolding hold receive
tty_of-hold none bus h free = refl
tty_of-hold (some b) bus h free = tty_of-put_tty (receive (tty_of bus) b) bus h ∙ ground arith

module _ {T : Type 0} ⦃terminal : TerminalIo T⦄ where
  -- The poll touches only the terminal and the TTY.
  poll-IsBetween : (s : System T) → IsBetween s.cpu → IsBetween (poll s).cpu
  unfolding poll
  poll-IsBetween s v = record {
    at_t0 = ground (arith, v.at_t0);
    phase = ground (arith, v.phase);
    not_resetting = ground (arith, v.not_resetting);
  }

  step-some :
      (s : System T) (c : Cpu Bus)
      → execute_instruction (poll s).cpu ≡ some c
      → step s ≡ some (record (poll s) { cpu = c })
  unfolding step
  step-some s c e = ground arith

  -- From between two instructions, a round of the machine's loop ends between two instructions, has
  -- done one documented instruction on the machine as the poll of the terminal left it, and asks
  -- the terminal no further.
  pub step-isa_step :
      (s : System T)
      → IsBetween s.cpu
      → (s' : System T) × (step s ≡ some s')
        × (visible s'.cpu ≡ isa_step (visible (poll s).cpu))
        × (s'.term ≡ (poll s).term)
        × IsBetween s'.cpu
  step-isa_step s v =
      let (c, ran, same, w) =
        execute_instruction-isa_step (poll s).cpu bus_access-ReadsBytes (poll-IsBetween s v) in
      (record (poll s) { cpu = c }, step-some s c ran, same, refl, w)

  pub steps-suc : (n : ℕ) (s s' : System T) → step s ≡ some s' → steps (suc n) s ≡ steps n s'
  unfolding steps
  steps-suc n s s' e = ground arith

  steps-ends :
      (n : ℕ) (s : System T)
      → IsBetween s.cpu
      → (s' : System T) × (steps n s ≡ some s') × IsBetween s'.cpu
  steps-ends zero s v = (s, (unfold steps in refl), v)
  steps-ends (suc n) s v =
      let (s₁, one, _, _, w) = step-isa_step s v in
      let (s₂, more, u) = steps-ends n s₁ w in (s₂, steps-suc n s s₁ one ∙ more, u)

  run_for-some :
      (n : ℕ) (s : System T) (c : Cpu Bus)
      → reset s.cpu ≡ some c
      → run_for n s ≡ steps n (record s { cpu = c })
  unfolding run_for system_reset
  run_for-some n s c e = ground arith

  -- From any state with the clock low, `run` resets the CPU and then comes through any number of
  -- rounds, each ending between two instructions.
  pub run_for-ends :
      (n : ℕ) (s : System T)
      → s.cpu.clock_phase ≡ low
      → (s' : System T) × (run_for n s ≡ some s') × IsBetween s'.cpu
  run_for-ends n s e =
      let (c, ran, _, v) = reset-isa_reset s.cpu e in
      let (s', more, w) = steps-ends n (record s { cpu = c }) v in
      (s', run_for-some n s c ran ∙ more, w)

  -- With a TTY in its place, the terminal is not asked while a received byte waits, and the TTY
  -- stays as it is; otherwise the terminal is asked once, and a byte that it has is held.
  pub poll_lem :
      (s : System T)
      → tty_device < length s.cpu.bus.devices
      → ((poll s).term
          ≡ (if (tty_of s.cpu.bus).rx_ready then s.term else (terminal.try_read_byte s.term).1))
        × (tty_of (poll s).cpu.bus ≡ (
            if (tty_of s.cpu.bus).rx_ready
            then tty_of s.cpu.bus
            else elim (terminal.try_read_byte s.term).0 [
              | none ↦ tty_of s.cpu.bus
              | some b ↦ record (tty_of s.cpu.bus) { rx_byte = u8 b; rx_ready = true }
            ]))
  unfolding poll
  poll_lem s h =
      let answer = (terminal.try_read_byte s.term).0 in
      (ground arith, ground (arith, tty_of-hold answer s.cpu.bus h))
