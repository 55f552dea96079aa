-- ===== src/System/Monitor/HexVal.antt =====
-- src/system/monitor_firmware.cpp: HEXVAL at $C700, which reads a hex digit.
use sys.Base.{
  ℕ, ◌-◌, ◌+◌, ◌≤◌, ◌≡◌, refl, subst, sym, ◌∙◌, arith, List, [], ◌∷◌, Bool, u8, IsByte, leb,
  leb_iff, true, false, if◌then◌else◌, Option, none, some,
}
use sys.Cpu.Addressing.{relative_address}
use sys.Cpu.Flags.{Flags}
use sys.Isa.Decode.{decode}
use sys.Isa.Exec.{exec_implied}
use sys.Isa.Instr.{BinaryOp, Implied}
use sys.Isa.Machine.{Machine}
use sys.Isa.Trace.{
  CodeAt, after, code_after, Runs, Runs-trans, one_step, immediate_step, implied_step, return_step,
  Returns,
}
use sys.Isa.Trace.Carry.{carry_clear, carry_set, subtracted}
use sys.Memory.Bus.{Bus, bus_access}
use sys.Memory.Interface.{BusAccess}
use sys.System.Monitor.{
  HasMonitor, hex_val_bytes, hex_val_code, return_address, return_address-Returns,
}
use sys.Utils.ProgramLoader.{hex_digit_value}

-- The digits as the routine tells them apart.
abbrev lower_case : ℕ → Option ℕ
lower_case c = if leb 97 c then (if leb 103 c then none else some (c - 87)) else none

abbrev upper_case : ℕ → Option ℕ
upper_case c = if leb 65 c then (if leb 71 c then lower_case c else some (c - 55)) else none

abbrev ranges : ℕ → Option ℕ
ranges c = if leb 48 c then (if leb 58 c then upper_case c else some (c - 48)) else none

ranges-hex_digit_value : (c : ℕ) → ranges c ≡ hex_digit_value c
unfolding hex_digit_value
ranges-hex_digit_value c = ground arith

module _ {M : Type 0} ⦃access : BusAccess M⦄ where
  -- `SEC`, `SBC #k`, `CLC`, `RTS`.
  converted :
      (m : Machine M) (k to : ℕ) (rest : List ℕ)
      → m.halted ≡ false
      → IsByte m.a
      → k ≤ m.a
      → CodeAt m.bus m.pc (0x38 ∷ 0xE9 ∷ k ∷ 0x18 ∷ 0x60 ∷ rest)
      → Returns m.bus m.sp to
      → (f : Flags) × (f.c ≡ false)
        × Runs m (record m { a = m.a - k; pc = to; sp = u8 (u8 (m.sp + 1) + 1); p_flags = f })
  unfolding exec_implied
  converted m k to rest go u v code back =
      let one = implied_step m 0x38 Implied.sec (unfold decode in refl) code in
      let m₁ : Machine M = record m {
        pc = after m.pc 1;
        p_flags = record (m.p_flags) { c = true };
      } in
      let (f, same) = subtracted (record m₁ { pc = after m.pc 3 }) k refl u v in
      let two =
        immediate_step m₁ 0xE9 k BinaryOp.sbc (unfold decode in refl)
          (code_after m.bus m.pc 1 _ code)
        ∙ same in
      let m₂ : Machine M = record m { pc = after m.pc 3; p_flags = f; a = m.a - k } in
      let three =
        implied_step m₂ 0x18 Implied.clc (unfold decode in refl) (code_after m.bus m.pc 3 _ code) in
      let m₃ : Machine M = record m₂ { pc = after m.pc 4; p_flags = record f { c = false } } in
      let four = return_step m₃ to (code_after m.bus m.pc 4 _ code) back in
      (
        record f { c = false },
        refl,
        Runs-trans m m₁ _ (one_step m m₁ go one) (
            Runs-trans m₁ m₂ _ (one_step m₁ m₂ go two)
              (Runs-trans m₂ m₃ _ (one_step m₂ m₃ go three) (one_step m₃ _ go four))),
      )

  -- `SEC`, `RTS`.
  refused :
      (m : Machine M) (to : ℕ) (rest : List ℕ)
      → m.halted ≡ false
      → CodeAt m.bus m.pc (0x38 ∷ 0x60 ∷ rest)
      → Returns m.bus m.sp to
      → (f : Flags) × (f.c ≡ true)
        × Runs m (record m { pc = to; sp = u8 (u8 (m.sp + 1) + 1); p_flags = f })
  unfolding exec_implied
  refused m to rest go code back =
      let one = implied_step m 0x38 Implied.sec (unfold decode in refl) code in
      let two =
        return_step (exec_implied Implied.sec (record m { pc = after m.pc 1 })) to
          (code_after m.bus m.pc 1 _ code) back in
      (
        record (m.p_flags) { c = true },
        refl,
        Runs-trans m _ _ (one_step m _ go one) (one_step _ _ go two),
      )

  -- The routine returns with this value in A and carry clear, or with A as it was and carry set.
  unfoldable pub Answers : Machine M → ℕ → Option ℕ → Type 0
  Answers m to r =
      (f : Flags) × (f.c ≡ elim r [ none ↦ true | some d ↦ false ])
      × Runs m (record m {
        a = elim r [ none ↦ m.a | some d ↦ d ];
        pc = to;
        sp = u8 (u8 (m.sp + 1) + 1);
        p_flags = f;
      })

  branched :
      (m : Machine M) (f : Flags) (p q to : ℕ) (r s : Option ℕ) (b : Bool)
      → Runs m (record m { p_flags = f; pc = if b then p else q })
      → (b ≡ true → Answers (record m { p_flags = f; pc = p }) to r)
      → (b ≡ false → Answers (record m { p_flags = f; pc = q }) to s)
      → Answers m to (if b then r else s)
  unfolding Answers
  branched m f p q to r s true ran taken other =
      let (g, c, later) = taken refl in (g, c, Runs-trans m _ _ ran later)
  branched m f p q to r s false ran taken other =
      let (g, c, later) = other refl in (g, c, Runs-trans m _ _ ran later)

  -- One range of digits.
  range_tested :
      (m : Machine M) (lo hi k low high to : ℕ) (r : Option ℕ) (rest : List ℕ)
      → m.halted ≡ false
      → IsByte m.a
      → IsByte lo
      → IsByte hi
      → k ≤ lo
      → CodeAt m.bus m.pc
          (0xC9 ∷ lo ∷ 0x90 ∷ low ∷ 0xC9 ∷ hi ∷ 0xB0 ∷ high ∷ 0x38 ∷ 0xE9 ∷ k ∷ 0x18 ∷ 0x60 ∷ rest)
      → Returns m.bus m.sp to
      → ((f : Flags)
          → Answers
              (record m { p_flags = f; pc = (relative_address (after m.pc 4) low).address })
              to
              none)
      → ((f : Flags)
          → Answers
              (record m { p_flags = f; pc = (relative_address (after m.pc 8) high).address })
              to
              r)
      → Answers m to (if leb lo m.a then (if leb hi m.a then r else some (m.a - k)) else none)
  range_tested m lo hi k low high to r rest go u v w below code back fails next =
      let (f, _, ran) = carry_clear m lo low _ go u v code in
      branched m f _ _ to _ none (leb lo m.a) ran
        (λ over.
          let m₁ : Machine M = record m { p_flags = f; pc = after m.pc 4 } in
          let (g, _, ran₁) = carry_set m₁ hi high _ go u w (code_after m.bus m.pc 4 _ code) in
          branched m₁ g _ _ to r (some (m.a - k)) (leb hi m.a) ran₁ (λ _. next g)
            (λ under.
              unfold Answers in
              converted (record m₁ { p_flags = g; pc = after m.pc 8 }) k to rest go u
                (omega (arith, (leb_iff lo m.a).0 over)) (code_after m.bus m.pc 8 _ code) back))
        (λ under. fails f)

  answered :
      (m : Machine M) (to : ℕ)
      → m.pc ≡ 0xC700
      → m.halted ≡ false
      → IsByte m.a
      → CodeAt m.bus 0xC700 hex_val_bytes
      → Returns m.bus m.sp to
      → Answers m to (ranges m.a)
  unfolding relative_address
  answered m to at go u code back =
      let fails : (f : Flags) → Answers (record m { p_flags = f; pc = 0xC727 }) to none = λ f.
        unfold Answers in
        refused (record m { p_flags = f; pc = 0xC727 }) to [] go (code_after m.bus 0xC700 39 _ code)
          back in
      let lower : (f : Flags)
          → Answers (record m { p_flags = f; pc = 0xC71A }) to (lower_case m.a) =
        λ f.
          range_tested (record m { p_flags = f; pc = 0xC71A }) 97 103 87 9 5 to none _ go u
            (omega arith) (omega arith) (omega arith) (code_after m.bus 0xC700 26 _ code) back fails
            fails in
      let upper : (f : Flags)
          → Answers (record m { p_flags = f; pc = 0xC70D }) to (upper_case m.a) =
        λ f.
          range_tested (record m { p_flags = f; pc = 0xC70D }) 65 71 55 22 5 to (lower_case m.a) _
            go u (omega arith) (omega arith) (omega arith) (code_after m.bus 0xC700 13 _ code) back
            fails lower in
      subst (λ (p : ℕ). Answers (record m { pc = p }) to (ranges m.a)) (sym at)
        (range_tested (record m { pc = 0xC700 }) 48 58 48 35 5 to (upper_case m.a) _ go u
          (omega arith) (omega arith) (omega arith) code back fails upper)

pub hex_val_lem :
    (m : Machine Bus)
    → HasMonitor m.bus
    → m.pc ≡ 0xC700
    → m.halted ≡ false
    → IsByte m.a
    → Answers m (return_address m) (hex_digit_value m.a)
hex_val_lem m v at go u =
    subst (λ (r : Option ℕ). Answers m (return_address m) r) (ranges-hex_digit_value m.a)
      (answered m (return_address m) at go u (hex_val_code m.bus v) (return_address-Returns m v))
