-- ===== src/System/Monitor/GetChar.antt =====
-- src/system/monitor_firmware.cpp: GETCHAR at $C000, which waits for a character.
use sys.Base.{
  ℕ, ◌+◌, ◌≡◌, refl, ap, ◌∙◌, arith, List, [], ◌∷◌, bit_and, ◌==◌, u8, join, Bool, true, false,
  if◌then◌else◌,
}
use sys.Cpu.Addressing.{relative_address}
use sys.Cpu.Flags.{Flags}
use sys.Isa.Decode.{decode}
use sys.Isa.Exec.{exec_binary, with_address, load_at, put_register}
use sys.Isa.Flow.{holds}
use sys.Isa.Instr.{BinaryOp, Condition, Mode, Register, load}
use sys.Isa.Machine.{Machine, zn}
use sys.Isa.Step.{exec, isa_step}
use sys.Isa.Trace.{
  CodeAt, cons, after, code_after, Runs, Runs-trans, one_step, decoded, immediate_step, branch_step,
  return_step,
}
use sys.Memory.Bus.{Bus, bus_access, bus_read, find_mapping, contains, device_read, device_at}
use sys.Memory.Device.{read}
use sys.Memory.Interface.{BusAccess}
use sys.Memory.Ram.{Ram}
use sys.Memory.Rom.{Rom}
use sys.Peripherals.Tty.{Tty, read_serial, read as tty_read}
use sys.System.Firmware.{routines}
use sys.System.Firmware.Image.{bytes_of}
use sys.System.Firmware.Layout.{AllHold}
use sys.System.MemoryMap.{wired_over}
use sys.System.Monitor.{stored, wired_code}
use sys.System.Monitor.Writes.{return_in, return_in-Returns}
use sys.Utils.ProgramLoader.{hex_digit_value, strip, is_space, byte_of}

module _ {M : Type 0} ⦃access : BusAccess M⦄ where
  -- `LDA` from an address of two bytes, which may change the memory.
  load_step :
      (m : Machine M) (lo hi val : ℕ) (mem : M) (rest : List ℕ)
      → CodeAt m.bus m.pc (0xAD ∷ lo ∷ hi ∷ rest)
      → access.read m.bus (join lo hi) ≡ (val, mem)
      → isa_step m
        ≡ record m { pc = after m.pc 3; a = u8 val; p_flags = zn (u8 val) m.p_flags; bus = mem }
  unfolding exec with_address load_at put_register decode
  load_step m lo hi val mem rest (cons e (cons f (cons g _))) h =
      let ended : ℕ × M → Machine M = λ r. record m {
        pc = after m.pc 3;
        a = u8 r.0;
        p_flags = zn (u8 r.0) m.p_flags;
        bus = r.1;
      } in
      decoded m 0xAD (load Register.a Mode.absolute) e refl
      ∙ ap
          (λ (r : ℕ × M).
            let b : ℕ × M = access.read r.1 (after m.pc 2) in
            ended (access.read b.1 (join r.0 b.0)))
          f
      ∙ ap (λ (r : ℕ × M). ended (access.read r.1 (join lo r.0))) g
      ∙ ap ended h

status_read :
    (r : Ram) (t : Tty) (k : Rom)
    → bus_read (wired_over r t k) 0x8000 ≡ ((if t.rx_ready then 3 else 2), wired_over r t k)
unfolding bus_read find_mapping contains device_read device_at read tty_read read_serial
status_read r t k = ground arith

-- The TTY after its character is taken.
abbrev pub taken : Tty → Tty
taken t = record t { rx_ready = false }

data_read :
    (r : Ram) (t : Tty) (k : Rom)
    → bus_read (wired_over r t k) 0x8001 ≡ (u8 t.rx_byte, wired_over r (taken t) k)
unfolding bus_read find_mapping contains device_read device_at read tty_read read_serial
data_read r t k = refl

get_char_code :
    (r : Ram) (t : Tty) (k : Rom)
    → AllHold k routines
    → CodeAt
        (wired_over r t k)
        0xC000
        (0xAD ∷ 0x00 ∷ 0x80 ∷ 0x29 ∷ 0x01 ∷ 0xF0 ∷ 0xF9 ∷ 0xAD ∷ 0x01 ∷ 0x80 ∷ 0x60 ∷ [])
unfolding bytes_of stored strip is_space byte_of hex_digit_value
get_char_code r t k held = wired_code r t k 0 held refl

status_as :
    (r : Ram) (t : Tty) (k : Rom) (b : Bool)
    → t.rx_ready ≡ b
    → bus_read (wired_over r t k) 0x8000 ≡ ((if b then 3 else 2), wired_over r t k)
status_as r t k b e =
    status_read r t k ∙ ap (λ (c : Bool). ((if c then 3 else 2), wired_over r t k)) e

-- One look at the status, which reads as n.
looked :
    (m : Machine Bus) (r : Ram) (t : Tty) (k : Rom) (n : ℕ)
    → AllHold k routines
    → m.halted ≡ false
    → bus_read (wired_over r t k) 0x8000 ≡ (n, wired_over r t k)
    → Runs
        (record m { pc = 0xC000; bus = wired_over r t k })
        (record m {
          pc = if u8 (bit_and (u8 n) 0x01) == 0 then 0xC000 else 0xC007;
          a = u8 (bit_and (u8 n) 0x01);
          p_flags = zn (u8 (bit_and (u8 n) 0x01)) m.p_flags;
          bus = wired_over r t k;
        })
unfolding join exec_binary holds relative_address
looked m r t k n held go e =
    let code = get_char_code r t k held in
    let bit : ℕ = u8 (bit_and (u8 n) 0x01) in
    let m₀ : Machine Bus = record m { pc = 0xC000; bus = wired_over r t k } in
    let m₁ : Machine Bus = record m₀ { pc = 0xC003; a = u8 n; p_flags = zn (u8 n) m.p_flags } in
    let m₂ : Machine Bus = record m₀ { pc = 0xC005; a = bit; p_flags = zn bit m.p_flags } in
    let one = load_step m₀ 0x00 0x80 n m₀.bus _ code e in
    let two =
      immediate_step m₁ 0x29 0x01 BinaryOp.and (unfold decode in refl)
        (code_after m₀.bus 0xC000 3 _ code) in
    let three =
      branch_step m₂ 0xF0 0xF9 Condition.beq (unfold decode in refl)
        (code_after m₀.bus 0xC000 5 _ code) in
    Runs-trans m₀ m₁ _ (one_step m₀ m₁ go one)
      (Runs-trans m₁ m₂ _ (one_step m₁ m₂ go two) (one_step m₂ _ go three))

-- With a character held, GETCHAR takes it and returns.
pub get_char_lem :
    (m : Machine Bus) (r : Ram) (t : Tty) (k : Rom)
    → AllHold k routines
    → m.halted ≡ false
    → t.rx_ready ≡ true
    → (f : Flags) × Runs
        (record m { pc = 0xC000; bus = wired_over r t k })
        (record m {
          pc = return_in r m.sp;
          a = u8 (u8 t.rx_byte);
          sp = u8 (u8 (m.sp + 1) + 1);
          p_flags = f;
          bus = wired_over r (taken t) k;
        })
unfolding join
get_char_lem m r t k held go e =
    let code = get_char_code r t k held in
    let c : ℕ = u8 (u8 t.rx_byte) in
    let m₀ : Machine Bus = record m { pc = 0xC000; bus = wired_over r t k } in
    let m₁ : Machine Bus = record m₀ { pc = 0xC007; a = 1; p_flags = zn 1 m.p_flags } in
    let m₂ : Machine Bus = record m {
      pc = 0xC00A;
      a = c;
      p_flags = zn c m.p_flags;
      bus = wired_over r (taken t) k;
    } in
    let first = looked m r t k 3 held go (status_as r t k true e) in
    let one =
      load_step m₁ 0x01 0x80 (u8 t.rx_byte) m₂.bus _ (code_after m₀.bus 0xC000 7 _ code)
        (data_read r t k) in
    let two =
      return_step m₂ (return_in r m.sp)
        (code_after m₂.bus 0xC000 10 _ (get_char_code r (taken t) k held))
        (return_in-Returns r (taken t) k m.sp) in
    (
      zn c m.p_flags,
      Runs-trans m₀ m₁ _ first (Runs-trans m₁ m₂ _ (one_step m₁ m₂ go one) (one_step m₂ _ go two)),
    )
