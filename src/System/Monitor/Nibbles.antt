-- ===== src/System/Monitor/Nibbles.antt =====
-- src/system/monitor_firmware.cpp: how PRINT_HEX_BYTE takes a byte apart.
use sys.Base.{
  ℕ, ◌/◌, ◌%◌, ◌≡◌, ap, subst, ◌∙◌, arith, List, ◌∷◌, u8, IsByte, false, Bool, ◌==◌, bit_and, refl,
}
use sys.Base.Tables.{all_below, all_below_sound}
use sys.Cpu.Flags.{Flags}
use sys.Isa.Decode.{decode}
use sys.Isa.Exec.{exec_accumulator, exec_unary, exec_binary}
use sys.Isa.Instr.{BinaryOp, UnaryOp}
use sys.Isa.Machine.{Machine}
use sys.Isa.Step.{isa_step}
use sys.Isa.Trace.{
  CodeAt, after, code_after, Runs, Runs-trans, one_step, immediate_step, accumulator_step,
}
use sys.Memory.Interface.{BusAccess}

abbrev masked : ℕ → Bool
masked a = u8 (bit_and a 0x0F) == a % 16

bit_and-0x0F : (a : ℕ) → IsByte a → u8 (bit_and a 0x0F) ≡ a % 16
bit_and-0x0F a b =
    let e = all_below_sound 256 masked a (unfold all_below in refl) b in ground (arith, e)

module _ {M : Type 0} ⦃access : BusAccess M⦄ where
  halved :
      (m : Machine M) (rest : List ℕ)
      → IsByte m.a
      → CodeAt m.bus m.pc (0x4A ∷ rest)
      → (f : Flags) × (isa_step m ≡ record m { pc = after m.pc 1; a = m.a / 2; p_flags = f })
  unfolding exec_accumulator exec_unary
  halved m rest b code =
      let f = (exec_accumulator UnaryOp.lsr m).p_flags in
      let half : u8 (m.a / 2) ≡ m.a / 2 = omega arith in
      (
        f,
        accumulator_step m 0x4A UnaryOp.lsr (unfold decode in refl) code
            ∙ ap (λ (v : ℕ). record m { pc = after m.pc 1; a = v; p_flags = f }) half,
      )

  -- Four times `LSR A`.
  pub high_nibble :
      (m : Machine M) (rest : List ℕ)
      → m.halted ≡ false
      → IsByte m.a
      → CodeAt m.bus m.pc (0x4A ∷ 0x4A ∷ 0x4A ∷ 0x4A ∷ rest)
      → (f : Flags) × Runs m (record m { pc = after m.pc 4; a = m.a / 16; p_flags = f })
  high_nibble m rest go b code =
      let (f₁, e₁) = halved m _ b code in
      let m₁ : Machine M = record m { pc = after m.pc 1; a = m.a / 2; p_flags = f₁ } in
      let (f₂, e₂) = halved m₁ _ (omega arith) (code_after m.bus m.pc 1 _ code) in
      let m₂ : Machine M = record m { pc = after m.pc 2; a = m.a / 2 / 2; p_flags = f₂ } in
      let (f₃, e₃) = halved m₂ _ (omega arith) (code_after m.bus m.pc 2 _ code) in
      let m₃ : Machine M = record m { pc = after m.pc 3; a = m.a / 2 / 2 / 2; p_flags = f₃ } in
      let (f₄, e₄) = halved m₃ _ (omega arith) (code_after m.bus m.pc 3 _ code) in
      let sixteenth : m.a / 2 / 2 / 2 / 2 ≡ m.a / 16 = omega arith in
      (
        f₄,
        subst (λ (v : ℕ). Runs m (record m { pc = after m.pc 4; a = v; p_flags = f₄ })) sixteenth
            (Runs-trans m m₁ _ (one_step m m₁ go e₁) (
              Runs-trans m₁ m₂ _ (one_step m₁ m₂ go e₂)
                (Runs-trans m₂ m₃ _ (one_step m₂ m₃ go e₃) (one_step m₃ _ go e₄)))),
      )

  -- `AND #$0F`.
  pub low_nibble :
      (m : Machine M) (rest : List ℕ)
      → m.halted ≡ false
      → IsByte m.a
      → CodeAt m.bus m.pc (0x29 ∷ 0x0F ∷ rest)
      → (f : Flags) × Runs m (record m { pc = after m.pc 2; a = m.a % 16; p_flags = f })
  unfolding exec_binary
  low_nibble m rest go b code =
      let m₁ : Machine M = record m { pc = after m.pc 2 } in
      let f = (exec_binary BinaryOp.and 0x0F m₁).p_flags in
      (
        f,
        one_step m _ go (
            immediate_step m 0x29 0x0F BinaryOp.and (unfold decode in refl) code
            ∙ ap (λ (v : ℕ). record m₁ { a = v; p_flags = f }) (bit_and-0x0F m.a b)),
      )
