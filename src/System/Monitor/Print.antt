-- ===== src/System/Monitor/Print.antt =====
-- src/system/monitor_firmware.cpp: PUTCHAR at $C100 and PRINT_NIBBLE at $C220.
use sys.Base.{
  ℕ, ◌+◌, ◌<◌, ◌≡◌, refl, ap, subst, ◌∙◌, arith, List, [], ◌∷◌, u8, leb, Bool, Bool-cases, inl, inr,
  true, false, if◌then◌else◌, join,
}
use sys.Cpu.Addressing.{relative_address}
use sys.Cpu.Flags.{Flags}
use sys.Isa.Decode.{decode}
use sys.Isa.Instr.{BinaryOp}
use sys.Isa.Machine.{Machine}
use sys.Isa.Trace.{
  CodeAt, after, code_after, Runs, Runs-trans, one_step, immediate_step, jump_step, store_step,
  return_step,
}
use sys.Isa.Trace.Carry.{carry_clear, added}
use sys.Memory.Bus.{Bus, bus_access}
use sys.Memory.Ram.{Ram}
use sys.Memory.Rom.{Rom}
use sys.Peripherals.Tty.{Tty}
use sys.System.Firmware.{routines}
use sys.System.Firmware.Image.{bytes_of}
use sys.System.Firmware.Layout.{AllHold}
use sys.System.MemoryMap.{wired_over}
use sys.System.Monitor.{stored, wired_code}
use sys.System.Monitor.Writes.{print, write-data, return_in, return_in-Returns}
use sys.Utils.ProgramLoader.Decode.{hex_digit}
use sys.Utils.ProgramLoader.{hex_digit_value, strip, is_space, byte_of}

put_char_code :
    (r : Ram) (t : Tty) (k : Rom)
    → AllHold k routines
    → CodeAt (wired_over r t k) 0xC100 (0x8D ∷ 0x01 ∷ 0x80 ∷ 0x60 ∷ [])
unfolding bytes_of stored strip is_space byte_of hex_digit_value
put_char_code r t k held = wired_code r t k 1 held refl

print_nibble_code :
    (r : Ram) (t : Tty) (k : Rom)
    → AllHold k routines
    → CodeAt (wired_over r t k) 0xC220 (
        0xC9 ∷ 0x0A ∷ 0x90 ∷ 0x05 ∷ 0x69 ∷ 0x36 ∷ 0x4C ∷ 0x00 ∷ 0xC1 ∷ 0x69 ∷ 0x30 ∷ 0x4C ∷ 0x00
        ∷ 0xC1 ∷ [])
unfolding bytes_of stored strip is_space byte_of hex_digit_value
print_nibble_code r t k held = wired_code r t k 3 held refl

-- PUTCHAR.
pub put_char_lem :
    (m : Machine Bus) (r : Ram) (t : Tty) (k : Rom)
    → AllHold k routines
    → m.halted ≡ false
    → Runs
        (record m { pc = 0xC100; bus = wired_over r t k })
        (record m {
          pc = return_in r m.sp;
          sp = u8 (u8 (m.sp + 1) + 1);
          bus = wired_over r (print t m.a) k;
        })
unfolding join
put_char_lem m r t k held go =
    let m₀ : Machine Bus = record m { pc = 0xC100; bus = wired_over r t k } in
    let m₁ : Machine Bus = record m { pc = 0xC103; bus = wired_over r (print t m.a) k } in
    let one =
      store_step m₀ 0x01 0x80 (put_char_code r t k held)
      ∙ ap (λ (b : Bus). record m { pc = 0xC103; bus = b }) (write-data r t k m.a) in
    let two =
      return_step m₁ (return_in r m.sp)
        (code_after m₁.bus 0xC100 3 _ (put_char_code r (print t m.a) k held))
        (return_in-Returns r (print t m.a) k m.sp) in
    Runs-trans m₀ m₁ _ (one_step m₀ m₁ go one) (one_step m₁ _ go two)

-- `ADC #k` and a jump to PUTCHAR.
add_and_print :
    (m : Machine Bus) (r : Ram) (t : Tty) (k : Rom) (n : ℕ) (c : Bool) (rest : List ℕ)
    → AllHold k routines
    → m.halted ≡ false
    → m.p_flags.c ≡ c
    → m.a + n + (if c then 1 else 0) < 256
    → CodeAt (wired_over r t k) m.pc (0x69 ∷ n ∷ 0x4C ∷ 0x00 ∷ 0xC1 ∷ rest)
    → (f : Flags) × Runs
        (record m { bus = wired_over r t k })
        (record m {
          a = m.a + n + (if c then 1 else 0);
          pc = return_in r m.sp;
          sp = u8 (u8 (m.sp + 1) + 1);
          p_flags = f;
          bus = wired_over r (print t (m.a + n + (if c then 1 else 0))) k;
        })
unfolding join
add_and_print m r t k n c rest held go e small code =
    let m₀ : Machine Bus = record m { bus = wired_over r t k } in
    let (f, sum) = added (record m₀ { pc = after m.pc 2 }) n c e small in
    let m₁ : Machine Bus = record m₀ {
      pc = after m.pc 2;
      a = m.a + n + (if c then 1 else 0);
      p_flags = f;
    } in
    let one = immediate_step m₀ 0x69 n BinaryOp.adc (unfold decode in refl) code ∙ sum in
    let two = jump_step m₁ 0x00 0xC1 (code_after m₀.bus m.pc 2 _ code) in
    (
      f,
      Runs-trans m₀ m₁ _ (one_step m₀ m₁ go one)
          (Runs-trans m₁ _ _ (one_step m₁ _ go two) (put_char_lem m₁ r t k held go)),
    )

-- After PRINT_NIBBLE with this nibble.
abbrev pub nibble_printed : Machine Bus → Ram → Tty → Rom → Flags → ℕ → Machine Bus
nibble_printed m r t k f c = record m {
  a = c;
  pc = return_in r m.sp;
  sp = u8 (u8 (m.sp + 1) + 1);
  p_flags = f;
  bus = wired_over r (print t c) k;
}

-- The one or the other side of PRINT_NIBBLE's branch.
side_printed :
    (m : Machine Bus) (r : Ram) (t : Tty) (k : Rom) (f : Flags) (n pc : ℕ) (c : Bool)
    (rest : List ℕ)
    → AllHold k routines
    → m.halted ≡ false
    → f.c ≡ leb 10 m.a
    → leb 10 m.a ≡ c
    → m.a + n + (if c then 1 else 0) ≡ hex_digit m.a
    → m.a < 16
    → n < 64
    → CodeAt (wired_over r t k) pc (0x69 ∷ n ∷ 0x4C ∷ 0x00 ∷ 0xC1 ∷ rest)
    → (g : Flags) × Runs
        (record m { pc = pc; p_flags = f; bus = wired_over r t k })
        (nibble_printed m r t k g (hex_digit m.a))
side_printed m r t k f n pc c rest held go carry side sum small bound code =
    let (g, ran) =
      add_and_print (record m { pc = pc; p_flags = f }) r t k n c rest held go (carry ∙ side)
        (ground arith) code in
    (
      g,
      subst
          (λ (v : ℕ).
            Runs (record m { pc = pc; p_flags = f; bus = wired_over r t k })
              (nibble_printed m r t k g v))
          sum ran,
    )

-- PRINT_NIBBLE.
pub print_nibble_lem :
    (m : Machine Bus) (r : Ram) (t : Tty) (k : Rom)
    → AllHold k routines
    → m.halted ≡ false
    → m.a < 16
    → (f : Flags) × Runs
        (record m { pc = 0xC220; bus = wired_over r t k })
        (nibble_printed m r t k f (hex_digit m.a))
unfolding relative_address
print_nibble_lem m r t k held go small =
    let m₀ : Machine Bus = record m { pc = 0xC220; bus = wired_over r t k } in
    let code = print_nibble_code r t k held in
    let (f, carry, ran) = carry_clear m₀ 0x0A 0x05 _ go (omega arith) (omega arith) code in
    let on : (pc : ℕ)
        → (if leb 10 m.a then 0xC224 else 0xC229) ≡ pc
        → Runs m₀ (record m₀ { pc = pc; p_flags = f }) =
      λ pc e. subst (λ (p : ℕ). Runs m₀ (record m₀ { pc = p; p_flags = f })) e ran in
    elim (Bool-cases (leb 10 m.a)) [
      | inl big ↦
          let (g, later) =
            side_printed m r t k f 0x36 0xC224 true _ held go carry big
              (unfold hex_digit in ground (arith, big)) small (omega arith)
              (code_after m₀.bus 0xC220 4 _ code) in
          (g, Runs-trans m₀ _ _ (on 0xC224 (ground (arith, big))) later)
      | inr less ↦
          let (g, later) =
            side_printed m r t k f 0x30 0xC229 false _ held go carry less
              (unfold hex_digit in ground (arith, less)) small (omega arith)
              (code_after m₀.bus 0xC220 9 _ code) in
          (g, Runs-trans m₀ _ _ (on 0xC229 (ground (arith, less))) later)
    ]
