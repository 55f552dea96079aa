-- ===== src/System/Monitor/HexValCall.antt =====
-- src/system/monitor_firmware.cpp: a call of HEXVAL on the cycle-stepped CPU.
use sys.Base.{ℕ, ◌+◌, ◌≡◌, ◌∙◌, ap, true, false, Option, none, some, u8, IsByte}
use sys.Cpu.Clock.{run}
use sys.Cpu.Cycle.{IsBetween}
use sys.Cpu.Flags.{Flags}
use sys.Cpu.State.{Cpu}
use sys.Isa.Machine.{Machine, visible}
use sys.Memory.Bus.{Bus, bus_access, bus_access-ReadsBytes}
use sys.Refinement.Traces.{Reaches, Runs-Reaches}
use sys.System.Monitor.{HasMonitor, return_address}
use sys.System.Monitor.HexVal.{Answers, hex_val_lem}
use sys.Utils.ProgramLoader.{hex_digit_value}

-- What HEXVAL leaves for its caller, given the value that it found.
pub record IsAnswer (s t : Cpu Bus) (r : Option ℕ) : Type 0 where
  pub value : t.a ≡ elim r [ none ↦ s.a | some d ↦ d ]
  pub carry : t.p_flags.c ≡ elim r [ none ↦ true | some d ↦ false ]
  pub back : t.pc ≡ return_address (visible s)
  pub stack : t.sp ≡ u8 (u8 (s.sp + 1) + 1)
  pub same_x : t.x ≡ s.x
  pub same_y : t.y ≡ s.y
  pub same_bus : t.bus ≡ s.bus

answer :
    (s t : Cpu Bus) (r : Option ℕ) (f : Flags)
    → visible t ≡ record (visible s) {
      a = elim r [ none ↦ s.a | some d ↦ d ];
      pc = return_address (visible s);
      sp = u8 (u8 (s.sp + 1) + 1);
      p_flags = f;
    }
    → f.c ≡ elim r [ none ↦ true | some d ↦ false ]
    → IsAnswer s t r
unfolding visible
answer s t r f e c = record {
  value = ap (λ (m : Machine Bus). m.a) e;
  carry = ap (λ (m : Machine Bus). m.p_flags.c) e ∙ c;
  back = ap (λ (m : Machine Bus). m.pc) e;
  stack = ap (λ (m : Machine Bus). m.sp) e;
  same_x = ap (λ (m : Machine Bus). m.x) e;
  same_y = ap (λ (m : Machine Bus). m.y) e;
  same_bus = ap (λ (m : Machine Bus). m.bus) e;
}

-- With the monitor in the ROM of the bus, and the CPU between two instructions at HEXVAL with the
-- character c in A: the CPU runs some number of instructions, comes between two instructions
-- behind the call, and then has carry clear and the value of c in A if c is a digit for the
-- loader's `hexDigitValue`, and carry set and A as it was if not. X, Y and the memory are as
-- before, and the return address is off the stack.
pub hex_val-hex_digit_value :
    (s : Cpu Bus)
    → HasMonitor s.bus
    → IsBetween s
    → s.pc ≡ 0xC700
    → s.halted ≡ false
    → IsByte s.a
    → (n : ℕ) × (t : Cpu Bus) × (run n s ≡ some (t.halted, t))
      × IsBetween t
      × IsAnswer s t (hex_digit_value s.a)
unfolding visible Answers Reaches
hex_val-hex_digit_value s v between at go u =
    let (f, carry, path) = hex_val_lem (visible s) v at go u in
    let (n, t, ran, alike, rest) =
      Runs-Reaches s (visible s) _ bus_access-ReadsBytes between (λ i. visible s) path in
    (n, t, ran, rest, answer s t (hex_digit_value s.a) f alike carry)
