-- ===== src/System/Survival.antt =====
-- src/system/system.cpp: the monitor in the ROM over the whole life of the machine.
use sys.Base.{
  ℕ, arith, zero, suc, ◌≡◌, refl, ap, subst, sym, ◌∙◌, Bool, true, false, inr, Option, none, some,
  List, if◌then◌else◌,
}
use sys.Cpu.Cycle.{IsBetween}
use sys.Cpu.State.{Cpu}
use sys.Isa.Machine.{Machine, visible}
use sys.Isa.Memory.{isa_step_keeps}
use sys.Isa.Step.{isa_step}
use sys.Memory.Bus.{Bus, bus_access}
use sys.Peripherals.Tty.{Tty, receive}
use sys.System.{
  TerminalIo, System, tty_of, put_tty, hold, poll, steps, run_for, new_system, system_reset,
}
use sys.System.Boot.{new_system-system_reset}
use sys.System.Monitor.{HasMonitor}
use sys.System.Monitor.Kept.{HasMonitor-IsKept}
use sys.System.Steps.{step-isa_step, steps-suc}

put_tty-HasMonitor : (t : Tty) (bus : Bus) → HasMonitor bus → HasMonitor (put_tty t bus)
unfolding put_tty
put_tty-HasMonitor t bus v = record {
  ram = v.ram;
  tty = t;
  rom = v.rom;
  wires = ap (λ (b : Bus). put_tty t b) v.wires;
  held = v.held;
  sized = v.sized;
}

pub hold-HasMonitor : (a : Option ℕ) (bus : Bus) → HasMonitor bus → HasMonitor (hold a bus)
unfolding hold
hold-HasMonitor none bus v = v
hold-HasMonitor (some b) bus v = put_tty-HasMonitor (receive (tty_of bus) b) bus v

module _ {T : Type 0} ⦃terminal : TerminalIo T⦄ where
  chosen_bus :
      (b : Bool) (s s' : System T)
      → HasMonitor s.cpu.bus
      → HasMonitor s'.cpu.bus
      → HasMonitor (if b then s else s').cpu.bus
  chosen_bus true s s' v w = v
  chosen_bus false s s' v w = w

  poll-HasMonitor : (s : System T) → HasMonitor s.cpu.bus → HasMonitor (poll s).cpu.bus
  unfolding poll
  poll-HasMonitor s v =
      chosen_bus _ _ _ v (hold-HasMonitor (terminal.try_read_byte s.term).0 s.cpu.bus v)

  step-HasMonitor :
      (s : System T) (c : Cpu Bus)
      → HasMonitor s.cpu.bus
      → visible c ≡ isa_step (visible (poll s).cpu)
      → HasMonitor c.bus
  unfolding visible
  step-HasMonitor s c v e =
      subst HasMonitor (sym (ap (λ (m : Machine Bus). m.bus) e))
        (isa_step_keeps HasMonitor HasMonitor-IsKept (visible (poll s).cpu) (poll-HasMonitor s v))

  steps-HasMonitor :
      (n : ℕ) (s : System T)
      → IsBetween s.cpu
      → HasMonitor s.cpu.bus
      → (s' : System T) × (steps n s ≡ some s') × IsBetween s'.cpu × HasMonitor s'.cpu.bus
  steps-HasMonitor zero s v h = (s, (unfold steps in refl), v, h)
  steps-HasMonitor (suc n) s v h =
      let (s₁, one, same, _, w) = step-isa_step s v in
      let (s₂, more, u, k) = steps-HasMonitor n s₁ w (step-HasMonitor s s₁.cpu h same) in
      (s₂, steps-suc n s s₁ one ∙ more, u, k)

  begun_run : (n : ℕ) (s s₁ : System T) → system_reset s ≡ some s₁ → run_for n s ≡ steps n s₁
  unfolding run_for
  begun_run n s s₁ e = ground arith

  -- From its construction on, whatever the tape, whatever bytes the terminal gives and whatever code
  -- has come into the RAM, the machine comes through its reset and any number of rounds with no
  -- exception, and then still has the constructor's wiring and the whole monitor in its ROM.
  pub run_for-HasMonitor :
      (term : T) (tape : Option (List ℕ)) (n : ℕ)
      → (s : System T) × (s' : System T) × (new_system term tape ≡ inr s)
        × (run_for n s ≡ some s')
        × IsBetween s'.cpu
        × HasMonitor s'.cpu.bus
  unfolding visible
  run_for-HasMonitor term tape n =
      let (s, s₁, made, v, begun, w, same, _) = new_system-system_reset term tape in
      let intact = subst HasMonitor (sym (ap (λ (m : Machine Bus). m.bus) same)) v in
      let (s', ran, between, still) = steps-HasMonitor n s₁ w intact in
      (s, s', made, begun_run n s s₁ begun ∙ ran, between, still)
