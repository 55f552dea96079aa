-- ===== src/System/Monitor/NibbleCall.antt =====
-- src/system/monitor_firmware.cpp: a call of PRINT_NIBBLE.
use sys.Base.{
  ℕ, ◌+◌, ◌/◌, ◌%◌, ◌<◌, ◌≡◌, ap, subst, sym, ◌∙◌, arith, List, ◌∷◌, length, u8, u16, join, IsByte,
  IsWord, false,
}
use sys.Base.Bits.{join-bytes}
use sys.Cpu.Flags.{Flags}
use sys.Isa.Machine.{Machine}
use sys.Isa.Trace.{ReadsAs, CodeAt, cons, after, Runs, Runs-trans, one_step}
use sys.Isa.Trace.Stack.{slot, called, call_step}
use sys.Memory.Bus.{Bus, bus_access, bus_write}
use sys.Memory.Ram.{Ram, write as ram_write}
use sys.Memory.Rom.{Rom}
use sys.Peripherals.Tty.{Tty}
use sys.System.Firmware.{routines}
use sys.System.Firmware.Layout.{AllHold}
use sys.System.MemoryMap.{wired_over}
use sys.System.Monitor.Frames.{with_return, return_in-with_return}
use sys.System.Monitor.Print.{print_nibble_lem}
use sys.System.Monitor.Writes.{print, return_in, write-ram}
use sys.Utils.ProgramLoader.Decode.{hex_digit}

returns_behind : (w : ℕ) → IsWord w → u16 (join (w % 256 % 256) (u8 (w / 256)) + 1) ≡ u16 (w + 1)
returns_behind w h =
    ap (λ (v : ℕ). u16 (v + 1))
      (join-bytes (w % 256 % 256) (u8 (w / 256)) (omega arith) (omega arith))
    ∙ omega arith

called_wired :
    (m : Machine Bus) (r : Ram) (t : Tty) (k : Rom)
    → IsByte m.sp
    → called (record m { bus = wired_over r t k })
      ≡ wired_over (with_return r m.sp (after m.pc 2)) t k
called_wired m r t k b =
    let w = after m.pc 2 in
    ap (λ (b : Bus). bus_write b (slot (u8 (m.sp + 255))) (w % 256))
      (write-ram r t k (slot m.sp) (u8 (w / 256)) (omega arith))
    ∙ write-ram (ram_write r (slot m.sp) (u8 (w / 256))) t k (slot (u8 (m.sp + 255))) (w % 256)
        (omega arith)

third_read :
    (mem : Bus) (pc a b c : ℕ) (rest : List ℕ)
    → CodeAt mem pc (a ∷ b ∷ c ∷ rest)
    → ReadsAs mem (after pc 2) c
third_read mem pc a b c rest (cons _ (cons _ (cons e _))) = e

-- `JSR PRINT_NIBBLE`, from wherever it stands in the ROM.
pub nibble_called :
    (m : Machine Bus) (r : Ram) (t : Tty) (k : Rom) (rest : List ℕ)
    → AllHold k routines
    → m.halted ≡ false
    → length r.bytes ≡ 0x8000
    → IsByte m.sp
    → m.a < 16
    → ((r' : Ram) → CodeAt (wired_over r' t k) m.pc (0x20 ∷ 0x20 ∷ 0xC2 ∷ rest))
    → (f : Flags) × Runs
        (record m { bus = wired_over r t k })
        (record m {
          a = hex_digit m.a;
          pc = after m.pc 3;
          p_flags = f;
          bus = wired_over (with_return r m.sp (after m.pc 2)) (print t (hex_digit m.a)) k;
        })
unfolding join
nibble_called m r t k rest held go whole b small code =
    let w = after m.pc 2 in
    let r' : Ram = with_return r m.sp w in
    let m₀ : Machine Bus = record m { bus = wired_over r t k } in
    let m₁ : Machine Bus = record m {
      pc = 0xC220;
      sp = u8 (u8 (m.sp + 255) + 255);
      bus = wired_over r' t k;
    } in
    let pushed = called_wired m r t k b in
    let high : ReadsAs (called m₀) w 0xC2 =
      subst (λ (bus : Bus). ReadsAs bus w 0xC2) (sym pushed)
        (third_read (wired_over r' t k) m.pc 0x20 0x20 0xC2 rest (code r')) in
    let one =
      call_step m₀ 0x20 0xC2 _ (code r) high ∙ ap (λ (bus : Bus). record m₁ { bus = bus }) pushed in
    let (f, later) = print_nibble_lem m₁ r' t k held go small in
    let behind = return_in-with_return r m.sp w whole b ∙ returns_behind w (omega arith) in
    let balanced : u8 (u8 (u8 (u8 (m.sp + 255) + 255) + 1) + 1) ≡ m.sp = omega arith in
    let ended : ℕ → ℕ → Machine Bus = λ pc sp. record m {
      a = hex_digit m.a;
      pc = pc;
      sp = sp;
      p_flags = f;
      bus = wired_over r' (print t (hex_digit m.a)) k;
    } in
    (
      f,
      Runs-trans m₀ m₁ _ (one_step m₀ m₁ go one) (
          subst (λ (pc : ℕ). Runs m₁ (ended pc m.sp)) behind
            (subst (λ (sp : ℕ). Runs m₁ (ended (return_in r' (u8 (u8 (m.sp + 255) + 255))) sp))
              balanced later)),
    )
