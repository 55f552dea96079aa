-- ===== src/System/Monitor/PrintByte.antt =====
-- src/system/monitor_firmware.cpp: PRINT_HEX_BYTE at $C200.
use sys.Base.{
  ℕ, ◌+◌, ◌/◌, ◌%◌, ◌≡◌, ◌≢◌, refl, ap, subst, ◌∙◌, arith, List, [], ◌∷◌, length, u8, length-set,
  IsByte, false,
}
use sys.Cpu.Flags.{Flags}
use sys.Isa.Machine.{Machine, zn}
use sys.Isa.Trace.{ReadsAs, CodeAt, code_after, Runs, Runs-trans, one_step, return_step}
use sys.Isa.Trace.Stack.{slot, push_step, pull_step}
use sys.Memory.Bus.{Bus, bus_access}
use sys.Memory.Ram.{Ram, write as ram_write}
use sys.Memory.Rom.{Rom}
use sys.Peripherals.Tty.{Tty}
use sys.System.Firmware.{routines}
use sys.System.Firmware.Image.{bytes_of}
use sys.System.Firmware.Layout.{AllHold}
use sys.System.MemoryMap.{wired_over}
use sys.System.Monitor.{stored, wired_code, read-ram}
use sys.System.Monitor.Frames.{with_return, length-with_return, kept_by_call, return_in-same}
use sys.System.Monitor.Nibbles.{high_nibble, low_nibble}
use sys.System.Monitor.NibbleCall.{nibble_called}
use sys.System.Monitor.Writes.{
  byte_in, print, pushed_here, pushed_elsewhere, return_in, return_in-Returns, write-ram,
}
use sys.Utils.ProgramLoader.Decode.{hex_digit}
use sys.Utils.ProgramLoader.{hex_digit_value, strip, is_space, byte_of}

abbrev print_hex_byte_bytes : List ℕ
print_hex_byte_bytes =
    0x48 ∷ 0x4A ∷ 0x4A ∷ 0x4A ∷ 0x4A ∷ 0x20 ∷ 0x20 ∷ 0xC2 ∷ 0x68 ∷ 0x29 ∷ 0x0F ∷ 0x20 ∷ 0x20 ∷ 0xC2
    ∷ 0x60 ∷ []

code_at :
    (r : Ram) (t : Tty) (k : Rom)
    → AllHold k routines
    → CodeAt (wired_over r t k) 0xC200 print_hex_byte_bytes
unfolding bytes_of stored strip is_space byte_of hex_digit_value
code_at r t k held = wired_code r t k 2 held refl

-- The RAM after the byte is saved, and after each of the two calls.
abbrev saved : Ram → ℕ → ℕ → Ram
saved r sp a = ram_write r (slot sp) a

abbrev first_call : Ram → ℕ → ℕ → Ram
first_call r sp a = with_return (saved r sp a) (u8 (sp + 255)) 0xC207

abbrev pub second_call : Ram → ℕ → ℕ → Ram
second_call r sp a = with_return (first_call r sp a) sp 0xC20D

byte_saved :
    (r : Ram) (sp a : ℕ)
    → length r.bytes ≡ 0x8000
    → IsByte sp
    → IsByte a
    → byte_in (first_call r sp a) (slot sp) ≡ a
byte_saved r sp a whole b c =
    kept_by_call (saved r sp a) (u8 (sp + 255)) 0xC207 (slot sp) (λ e. omega (arith, e))
      (λ e. omega (arith, e))
    ∙ pushed_here r (slot sp) a (omega (arith, whole))
    ∙ omega arith

restored :
    (r : Ram) (t : Tty) (k : Rom) (sp a : ℕ)
    → length r.bytes ≡ 0x8000
    → IsByte sp
    → IsByte a
    → ReadsAs (wired_over (first_call r sp a) t k) (slot (u8 (u8 (sp + 255) + 1))) a
restored r t k sp a whole b c =
    let r₂ = first_call r sp a in
    let up : u8 (u8 (sp + 255) + 1) ≡ sp = omega arith in
    read-ram r₂ t k (slot (u8 (u8 (sp + 255) + 1))) (omega arith)
    ∙ ap (λ (i : ℕ). (byte_in r₂ (slot i), wired_over r₂ t k)) up
    ∙ ap (λ (v : ℕ). (v, wired_over r₂ t k)) (byte_saved r sp a whole b c)

-- Up to the second nibble.
first_half :
    (m : Machine Bus) (r : Ram) (t : Tty) (k : Rom)
    → AllHold k routines
    → m.halted ≡ false
    → length r.bytes ≡ 0x8000
    → IsByte m.sp
    → IsByte m.a
    → (f : Flags) × Runs
        (record m { pc = 0xC200; bus = wired_over r t k })
        (record m {
          pc = 0xC209;
          p_flags = f;
          bus = wired_over (first_call r m.sp m.a) (print t (hex_digit (m.a / 16))) k;
        })
first_half m r t k held go whole b c =
    let code = code_at r t k held in
    let r₁ : Ram = saved r m.sp m.a in
    let m₀ : Machine Bus = record m { pc = 0xC200; bus = wired_over r t k } in
    let m₁ : Machine Bus = record m {
      pc = 0xC201;
      bus = wired_over r₁ t k;
      sp = u8 (m.sp + 255);
    } in
    let one =
      push_step m₀ 0x4A _ code
      ∙ ap (λ (bus : Bus). record m₁ { bus = bus })
          (write-ram r t k (slot m.sp) m.a (omega arith)) in
    let (f, shifts) = high_nibble m₁ _ go c (code_after m₁.bus 0xC200 1 _ (code_at r₁ t k held)) in
    let m₂ : Machine Bus = record m₁ { pc = 0xC205; a = m.a / 16; p_flags = f } in
    let (g, prints) =
      nibble_called m₂ r₁ t k _ held go (length-set r.bytes (slot m.sp) (u8 m.a) ∙ whole)
        (omega arith) (omega arith)
        (λ r'. code_after (wired_over r' t k) 0xC200 5 _ (code_at r' t k held)) in
    let t' : Tty = print t (hex_digit (m.a / 16)) in
    let r₂ : Ram = first_call r m.sp m.a in
    let m₃ : Machine Bus = record m₂ {
      pc = 0xC208;
      a = hex_digit (m.a / 16);
      p_flags = g;
      bus = wired_over r₂ t' k;
    } in
    let up : u8 (u8 (m.sp + 255) + 1) ≡ m.sp = omega arith in
    let pulled = restored r t' k m.sp m.a whole b c in
    let four =
      pull_step m₃ 0x29 m.a _ (code_after m₃.bus 0xC200 8 _ (code_at r₂ t' k held)) pulled in
    let h : Flags = zn (u8 m.a) g in
    let ended : ℕ → ℕ → Machine Bus =
      λ sp a. record m₃ { pc = 0xC209; sp = sp; a = a; p_flags = h } in
    let byte : u8 m.a ≡ m.a = omega arith in
    let tail = one_step m₃ (ended (u8 (u8 (m.sp + 255) + 1)) (u8 m.a)) go four in
    let run =
      Runs-trans m₀ m₁ _ (one_step m₀ m₁ go one)
        (Runs-trans m₁ m₂ _ shifts (Runs-trans m₂ m₃ _ prints tail)) in
    (
      h,
      subst (λ (sp : ℕ). Runs m₀ (ended sp m.a)) up
          (subst (λ (a : ℕ). Runs m₀ (ended (u8 (u8 (m.sp + 255) + 1)) a)) byte run),
    )

length-first_call : (r : Ram) (sp a : ℕ) → length (first_call r sp a).bytes ≡ length r.bytes
length-first_call r sp a =
    length-with_return (saved r sp a) (u8 (sp + 255)) 0xC207 ∙ length-set r.bytes (slot sp) (u8 a)

pub length-second_call : (r : Ram) (sp a : ℕ) → length (second_call r sp a).bytes ≡ length r.bytes
length-second_call r sp a =
    length-with_return (first_call r sp a) sp 0xC20D ∙ length-first_call r sp a

kept_by_print :
    (r : Ram) (sp a i : ℕ)
    → slot sp ≢ i
    → slot (u8 (sp + 255)) ≢ i
    → slot (u8 (u8 (sp + 255) + 255)) ≢ i
    → byte_in (second_call r sp a) i ≡ byte_in r i
kept_by_print r sp a i h₀ h₁ h₂ =
    kept_by_call (first_call r sp a) sp 0xC20D i h₀ h₁
    ∙ kept_by_call (saved r sp a) (u8 (sp + 255)) 0xC207 i h₁ h₂
    ∙ pushed_elsewhere r (slot sp) i a h₀

returns_to_caller :
    (r : Ram) (sp a : ℕ) → IsByte sp → return_in (second_call r sp a) sp ≡ return_in r sp
returns_to_caller r sp a b =
    return_in-same r (second_call r sp a) sp
      (kept_by_print r sp a (slot (u8 (sp + 1))) (λ e. omega (arith, e)) (λ e. omega (arith, e))
        (λ e. omega (arith, e)))
      (kept_by_print r sp a (slot (u8 (u8 (sp + 1) + 1))) (λ e. omega (arith, e))
        (λ e. omega (arith, e)) (λ e. omega (arith, e)))

-- The second nibble, and the return.
second_half :
    (m : Machine Bus) (r : Ram) (t : Tty) (k : Rom)
    → AllHold k routines
    → m.halted ≡ false
    → length r.bytes ≡ 0x8000
    → IsByte m.sp
    → IsByte m.a
    → (f : Flags) × Runs
        (record m { pc = 0xC209; bus = wired_over (first_call r m.sp m.a) t k })
        (record m {
          a = hex_digit (m.a % 16);
          pc = return_in r m.sp;
          sp = u8 (u8 (m.sp + 1) + 1);
          p_flags = f;
          bus = wired_over (second_call r m.sp m.a) (print t (hex_digit (m.a % 16))) k;
        })
second_half m r t k held go whole b c =
    let r₂ : Ram = first_call r m.sp m.a in
    let r₃ : Ram = second_call r m.sp m.a in
    let t' : Tty = print t (hex_digit (m.a % 16)) in
    let m₀ : Machine Bus = record m { pc = 0xC209; bus = wired_over r₂ t k } in
    let (f, cut) = low_nibble m₀ _ go c (code_after m₀.bus 0xC200 9 _ (code_at r₂ t k held)) in
    let m₁ : Machine Bus = record m₀ { pc = 0xC20B; a = m.a % 16; p_flags = f } in
    let (g, prints) =
      nibble_called m₁ r₂ t k _ held go (length-first_call r m.sp m.a ∙ whole) b (omega arith)
        (λ r'. code_after (wired_over r' t k) 0xC200 11 _ (code_at r' t k held)) in
    let m₂ : Machine Bus = record m₁ {
      pc = 0xC20E;
      a = hex_digit (m.a % 16);
      p_flags = g;
      bus = wired_over r₃ t' k;
    } in
    let back =
      return_step m₂ (return_in r₃ m.sp) (code_after m₂.bus 0xC200 14 _ (code_at r₃ t' k held))
        (return_in-Returns r₃ t' k m.sp) in
    let ended : ℕ → Machine Bus = λ pc. record m₂ { pc = pc; sp = u8 (u8 (m.sp + 1) + 1) } in
    let run =
      Runs-trans m₀ m₁ _ cut
        (Runs-trans m₁ m₂ _ prints (one_step m₂ (ended (return_in r₃ m.sp)) go back)) in
    (g, subst (λ (pc : ℕ). Runs m₀ (ended pc)) (returns_to_caller r m.sp m.a b) run)

-- PRINT_HEX_BYTE.
pub print_hex_byte_lem :
    (m : Machine Bus) (r : Ram) (t : Tty) (k : Rom)
    → AllHold k routines
    → m.halted ≡ false
    → length r.bytes ≡ 0x8000
    → IsByte m.sp
    → IsByte m.a
    → (f : Flags) × Runs
        (record m { pc = 0xC200; bus = wired_over r t k })
        (record m {
          a = hex_digit (m.a % 16);
          pc = return_in r m.sp;
          sp = u8 (u8 (m.sp + 1) + 1);
          p_flags = f;
          bus =
              wired_over
                (second_call r m.sp m.a)
                (print (print t (hex_digit (m.a / 16))) (hex_digit (m.a % 16)))
                k;
        })
print_hex_byte_lem m r t k held go whole b c =
    let (f, first) = first_half m r t k held go whole b c in
    let (g, second) =
      second_half (record m { p_flags = f }) r (print t (hex_digit (m.a / 16))) k held go whole b
        c in
    (g, Runs-trans _ _ _ first second)
