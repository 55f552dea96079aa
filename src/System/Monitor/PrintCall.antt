-- ===== src/System/Monitor/PrintCall.antt =====
-- src/system/monitor_firmware.cpp: a call of PRINT_HEX_BYTE on the cycle-stepped CPU.
use sys.Base.{
  ℕ, ◌<◌, ◌+◌, ◌/◌, ◌%◌, ◌≡◌, ◌∙◌, refl, sym, arith, u16, join, List, [], ◌∷◌, ◌++◌, ap, false,
  some, u8, IsByte,
}
use sys.Cpu.Clock.{run}
use sys.Cpu.Cycle.{IsBetween}
use sys.Cpu.Flags.{Flags}
use sys.Cpu.State.{Cpu}
use sys.Isa.Machine.{Machine, visible}
use sys.Memory.Ram.{Ram}
use sys.Memory.Rom.{Rom}
use sys.Peripherals.Tty.{Tty}
use sys.System.{tty_of}
use sys.System.MemoryMap.{wired_over}
use sys.System.Monitor.PrintByte.{second_call, length-second_call, print_hex_byte_lem}
use sys.System.Monitor.Writes.{byte_in, print, return_in}
use sys.Isa.Trace.Stack.{slot}
use sys.Utils.ProgramLoader.Decode.{hex_digit, byte_of-hex_digit}
use sys.Memory.Bus.{bus_read, device_at, Bus, bus_access, bus_access-ReadsBytes}
use sys.Refinement.Traces.{Reaches, Runs-Reaches}
use sys.System.Monitor.{HasMonitor, return_address, read-ram}
use sys.Utils.ProgramLoader.{byte_of}

-- Where a return goes, by the bus and by the RAM behind it.
pub return_address-wired :
    (m : Machine Bus) (r : Ram) (t : Tty) (k : Rom)
    → m.bus ≡ wired_over r t k
    → return_address m ≡ return_in r m.sp
unfolding return_address return_in
return_address-wired m r t k e =
    let low = slot (u8 (m.sp + 1)) in
    let high = slot (u8 (u8 (m.sp + 1) + 1)) in
    let to : ℕ → ℕ → ℕ = λ lo hi. u16 (join (lo % 256) hi + 1) in
    ap (λ (b : Bus). to (bus_read b low).0 (bus_read b high).0) e
    ∙ ap (λ (q : ℕ × Bus). to q.0 (bus_read (wired_over r t k) high).0)
        (read-ram r t k low (omega arith))
    ∙ ap (λ (q : ℕ × Bus). to (byte_in r low) q.0) (read-ram r t k high (omega arith))

two_printed : (xs : List ℕ) (a b : ℕ) → (xs ++ (a ∷ [])) ++ (b ∷ []) ≡ xs ++ (a ∷ b ∷ [])
two_printed [] a b = refl
two_printed (x ∷ xs) a b = ap (λ (ys : List ℕ). x ∷ ys) (two_printed xs a b)

hex_digit-IsByte : (n : ℕ) → n < 16 → u8 (hex_digit n) ≡ hex_digit n
unfolding hex_digit
hex_digit-IsByte n h = ground arith

digits_out :
    (s t : Cpu Bus) (r r' : Ram) (y : Tty) (k : Rom) (a b : ℕ)
    → a < 16
    → b < 16
    → s.bus ≡ wired_over r y k
    → t.bus ≡ wired_over r' (print (print y (hex_digit a)) (hex_digit b)) k
    → (tty_of t.bus).out ≡ (tty_of s.bus).out ++ (hex_digit a ∷ hex_digit b ∷ [])
unfolding tty_of device_at
digits_out s t r r' y k a b small low e f =
    ap (λ (bus : Bus). (tty_of bus).out) f
    ∙ two_printed y.out (u8 (hex_digit a)) (u8 (hex_digit b))
    ∙ ap (λ (c : ℕ). y.out ++ (c ∷ u8 (hex_digit b) ∷ [])) (hex_digit-IsByte a small)
    ∙ ap (λ (c : ℕ). y.out ++ (hex_digit a ∷ c ∷ [])) (hex_digit-IsByte b low)
    ∙ ap (λ (bus : Bus). (tty_of bus).out ++ (hex_digit a ∷ hex_digit b ∷ [])) (sym e)

-- What PRINT_HEX_BYTE leaves for its caller.
pub record IsPrinted (s t : Cpu Bus) : Type 0 where
  pub hi : ℕ
  pub lo : ℕ
  pub out : (tty_of t.bus).out ≡ (tty_of s.bus).out ++ (hi ∷ lo ∷ [])
  pub read_back : byte_of hi lo ≡ some s.a
  pub monitor : HasMonitor t.bus
  pub back : t.pc ≡ return_address (visible s)
  pub stack : t.sp ≡ u8 (u8 (s.sp + 1) + 1)
  pub same_x : t.x ≡ s.x
  pub same_y : t.y ≡ s.y

printed :
    (s t : Cpu Bus) (v : HasMonitor s.bus) (f : Flags)
    → IsByte s.a
    → visible t ≡ record (visible s) {
      a = hex_digit (s.a % 16);
      pc = return_in v.ram s.sp;
      sp = u8 (u8 (s.sp + 1) + 1);
      p_flags = f;
      bus =
          wired_over
            (second_call v.ram s.sp s.a)
            (print (print v.tty (hex_digit (s.a / 16))) (hex_digit (s.a % 16)))
            v.rom;
    }
    → IsPrinted s t
unfolding visible
printed s t v f u e = record {
  hi = hex_digit (s.a / 16);
  lo = hex_digit (s.a % 16);
  out =
      digits_out s t v.ram _ v.tty v.rom (s.a / 16) (s.a % 16) (omega arith) (omega arith) v.wires
        (ap (λ (m : Machine Bus). m.bus) e);
  read_back = byte_of-hex_digit s.a u;
  monitor = record {
    ram = second_call v.ram s.sp s.a;
    tty = print (print v.tty (hex_digit (s.a / 16))) (hex_digit (s.a % 16));
    rom = v.rom;
    wires = ap (λ (m : Machine Bus). m.bus) e;
    held = v.held;
    sized = length-second_call v.ram s.sp s.a ∙ v.sized;
  };
  back =
      ap (λ (m : Machine Bus). m.pc) e
      ∙ sym (return_address-wired (visible s) v.ram v.tty v.rom v.wires);
  stack = ap (λ (m : Machine Bus). m.sp) e;
  same_x = ap (λ (m : Machine Bus). m.x) e;
  same_y = ap (λ (m : Machine Bus). m.y) e;
}

-- With the monitor in the ROM of the bus, and the CPU between two instructions at PRINT_HEX_BYTE:
-- the CPU runs some number of instructions, through two calls of PRINT_NIBBLE and of PUTCHAR, and
-- comes between two instructions behind the call. The TTY has then put out two more characters,
-- which the loader reads as the byte that was in A, the monitor is still in the ROM, X and Y are as
-- before, and the return address is off the stack.
pub print_hex_byte-byte_of :
    (s : Cpu Bus)
    → HasMonitor s.bus
    → IsBetween s
    → s.pc ≡ 0xC200
    → s.halted ≡ false
    → IsByte s.sp
    → IsByte s.a
    → (n : ℕ) × (t : Cpu Bus) × (run n s ≡ some (t.halted, t)) × IsBetween t × IsPrinted s t
unfolding visible Reaches
print_hex_byte-byte_of s v between at go b u =
    let (f, path) = print_hex_byte_lem (visible s) v.ram v.tty v.rom v.held go v.sized b u in
    let (n, t, ran, alike, rest) =
      Runs-Reaches s (record (visible s) { pc = 0xC200; bus = wired_over v.ram v.tty v.rom }) _
        bus_access-ReadsBytes between (λ i. record (visible s) { pc = at i; bus = v.wires i })
        path in
    (n, t, ran, rest, printed s t v f u alike)
