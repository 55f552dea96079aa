-- ===== src/Isa/Machine.antt =====
-- What a program can see of the machine, and the accesses that instructions are made of.
use sys.Base.{ℕ, ◌+◌, ◌%◌, ◌/◌, Bool, u8, u16, join, ◌==◌, has_bit}
use sys.Cpu.Flags.{Flags}
use sys.Cpu.State.{Cpu}
use sys.Memory.Interface.{BusAccess}

pub record Machine (M : Type 0) : Type 0 where
  pub a : ℕ
  pub x : ℕ
  pub y : ℕ
  pub pc : ℕ
  pub sp : ℕ
  pub p_flags : Flags
  pub halted : Bool
  pub bus : M

-- Z and N from a result.
abbrev pub zn : ℕ → Flags → Flags
zn r f = record f { z = r == 0; n = has_bit r 0x80 }

module _ {M : Type 0} where
  -- The part of the CPU that a program can see.
  unfoldable pub visible : Cpu M → Machine M
  visible s = record {
    a = s.a;
    x = s.x;
    y = s.y;
    pc = s.pc;
    sp = s.sp;
    p_flags = s.p_flags;
    halted = s.halted;
    bus = s.bus;
  }

  abbrev pub with_flags : Flags → Machine M → Machine M
  with_flags f m = record m { p_flags = f }

module _ {M : Type 0} ⦃access : BusAccess M⦄ where
  -- A read, which may change the devices behind the bus.
  abbrev pub load_byte {κ} : {B : Type κ} → ℕ → Machine M → (ℕ → Machine M → B) → B
  load_byte addr m rest =
      rest (access.read m.bus addr).0 (record m { bus = (access.read m.bus addr).1 })

  abbrev pub store_byte : ℕ → ℕ → Machine M → Machine M
  store_byte addr val m = record m { bus = access.write m.bus addr val }

  -- The byte at PC, which moves on.
  abbrev pub fetch_byte {κ} : {B : Type κ} → Machine M → (ℕ → Machine M → B) → B
  fetch_byte m rest = load_byte m.pc m (λ v m'. rest v (record m' { pc = u16 (m'.pc + 1) }))

  abbrev pub fetch_word {κ} : {B : Type κ} → Machine M → (ℕ → Machine M → B) → B
  fetch_word m rest = fetch_byte m (λ lo m₁. fetch_byte m₁ (λ hi m₂. rest (join lo hi) m₂))

  -- The stack in page one grows down.
  abbrev pub push_byte : ℕ → Machine M → Machine M
  push_byte val m = record (store_byte (u16 (0x100 + m.sp)) val m) { sp = u8 (m.sp + 255) }

  abbrev pub push_word : ℕ → Machine M → Machine M
  push_word w m = push_byte (w % 256) (push_byte (u8 (w / 256)) m)

  abbrev pub pull_byte {κ} : {B : Type κ} → Machine M → (ℕ → Machine M → B) → B
  pull_byte m rest =
      let sp' : ℕ = u8 (m.sp + 1) in load_byte (u16 (0x100 + sp')) (record m { sp = sp' }) rest
