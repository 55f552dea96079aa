-- ===== src/System/Monitor/GetCharCall.antt =====
-- src/system/monitor_firmware.cpp: a call of GETCHAR on the cycle-stepped CPU.
use sys.Base.{true, ℕ, ◌+◌, ◌≡◌, ◌∙◌, sym, arith, ap, false, some, u8, IsByte}
use sys.Cpu.Clock.{run}
use sys.Cpu.Cycle.{IsBetween}
use sys.Cpu.Flags.{Flags}
use sys.Cpu.State.{Cpu}
use sys.Isa.Machine.{Machine, visible}
use sys.Memory.Ram.{Ram}
use sys.Memory.Rom.{Rom}
use sys.Peripherals.Tty.{Tty}
use sys.System.{tty_of}
use sys.System.MemoryMap.{wired_over}
use sys.System.Monitor.Writes.{return_in}
use sys.Memory.Bus.{device_at, Bus, bus_access, bus_access-ReadsBytes}
use sys.Refinement.Traces.{Reaches, Runs-Reaches}
use sys.System.Monitor.{HasMonitor, return_address}
use sys.System.Monitor.GetChar.{taken, get_char_lem}
use sys.System.Monitor.PrintCall.{return_address-wired}

-- What GETCHAR leaves for its caller when a character is held.
pub record IsTaken (s t : Cpu Bus) : Type 0 where
  pub value : t.a ≡ (tty_of s.bus).rx_byte
  pub tty : tty_of t.bus ≡ record (tty_of s.bus) { rx_ready = false }
  pub monitor : HasMonitor t.bus
  pub back : t.pc ≡ return_address (visible s)
  pub stack : t.sp ≡ u8 (u8 (s.sp + 1) + 1)
  pub same_x : t.x ≡ s.x
  pub same_y : t.y ≡ s.y

tty_of-wired : (bus : Bus) (r : Ram) (t : Tty) (k : Rom) → bus ≡ wired_over r t k → tty_of bus ≡ t
unfolding tty_of device_at
tty_of-wired bus r t k e = ap (λ (b : Bus). tty_of b) e

was_taken :
    (s t : Cpu Bus) (v : HasMonitor s.bus) (f : Flags)
    → IsByte (tty_of s.bus).rx_byte
    → visible t ≡ record (visible s) {
      pc = return_in v.ram s.sp;
      a = u8 (u8 v.tty.rx_byte);
      sp = u8 (u8 (s.sp + 1) + 1);
      p_flags = f;
      bus = wired_over v.ram (taken v.tty) v.rom;
    }
    → IsTaken s t
unfolding visible
was_taken s t v f u e =
    let before = tty_of-wired s.bus v.ram v.tty v.rom v.wires in
    let wires = ap (λ (m : Machine Bus). m.bus) e in
    let byte : u8 (u8 (tty_of s.bus).rx_byte) ≡ (tty_of s.bus).rx_byte = omega (arith, u) in
    record {
      value =
          ap (λ (m : Machine Bus). m.a) e ∙ ap (λ (y : Tty). u8 (u8 y.rx_byte)) (sym before) ∙ byte;
      tty = tty_of-wired t.bus v.ram (taken v.tty) v.rom wires ∙ ap taken (sym before);
      monitor = record {
        ram = v.ram;
        tty = taken v.tty;
        rom = v.rom;
        wires = wires;
        held = v.held;
        sized = v.sized;
      };
      back =
          ap (λ (m : Machine Bus). m.pc) e
          ∙ sym (return_address-wired (visible s) v.ram v.tty v.rom v.wires);
      stack = ap (λ (m : Machine Bus). m.sp) e;
      same_x = ap (λ (m : Machine Bus). m.x) e;
      same_y = ap (λ (m : Machine Bus). m.y) e;
    }

-- With the monitor in the ROM of the bus, a character in the TTY's holding register, and the CPU
-- between two instructions at GETCHAR: the CPU runs some number of instructions and comes between
-- two instructions behind the call with that character in A. The holding register is free then, and
-- the TTY otherwise as it was; X and Y are as before, and the return address is off the stack.
pub get_char-rx_byte :
    (s : Cpu Bus)
    → HasMonitor s.bus
    → IsBetween s
    → s.pc ≡ 0xC000
    → s.halted ≡ false
    → (tty_of s.bus).rx_ready ≡ true
    → IsByte (tty_of s.bus).rx_byte
    → (n : ℕ) × (t : Cpu Bus) × (run n s ≡ some (t.halted, t)) × IsBetween t × IsTaken s t
unfolding visible Reaches
get_char-rx_byte s v between at go ready u =
    let before = tty_of-wired s.bus v.ram v.tty v.rom v.wires in
    let (f, path) =
      get_char_lem (visible s) v.ram v.tty v.rom v.held go
        (ap (λ (y : Tty). y.rx_ready) (sym before) ∙ ready) in
    let (n, t, ran, alike, rest) =
      Runs-Reaches s (record (visible s) { pc = 0xC000; bus = wired_over v.ram v.tty v.rom }) _
        bus_access-ReadsBytes between (λ i. record (visible s) { pc = at i; bus = v.wires i })
        path in
    (n, t, ran, rest, was_taken s t v f u alike)
