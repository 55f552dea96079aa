-- ===== src/Isa/Trace/Carry.antt =====
-- Code that compares, branches on carry, and adds or subtracts with a known carry.
use sys.Base.{
  ℕ, ◌-◌, ◌+◌, ◌≤◌, ◌<◌, ◌≡◌, refl, ap, subst, ◌∙◌, arith, List, ◌∷◌, Bool, IsByte, leb, true,
  false, not, if◌then◌else◌,
}
use sys.Cpu.Addressing.{relative_address}
use sys.Cpu.Flags.{Flags}
use sys.Isa.Decode.{decode}
use sys.Isa.Exec.{exec_binary, add_with_carry}
use sys.Isa.Flow.{holds}
use sys.Isa.Instr.{BinaryOp, Condition, branch}
use sys.Isa.Machine.{Machine}
use sys.Isa.Trace.{
  CodeAt, after, code_after, Runs, Runs-trans, one_step, immediate_step, branch_step,
}
use sys.Memory.Interface.{BusAccess}

chosen : (b c : Bool) (p q : ℕ) → b ≡ c → (if b then p else q) ≡ (if c then p else q)
chosen b c p q e = ground arith

chosen_not : (b c : Bool) (p q : ℕ) → b ≡ c → (if not b then p else q) ≡ (if c then q else p)
chosen_not b c p q e = ground arith

module _ {M : Type 0} ⦃access : BusAccess M⦄ where
  compared :
      (m : Machine M) (k : ℕ)
      → IsByte m.a
      → IsByte k
      → (f : Flags) × (exec_binary BinaryOp.cmp k m ≡ record m { p_flags = f }) × (f.c ≡ leb k m.a)
  unfolding exec_binary
  compared m k u v = (_, refl, ground arith)

  -- `CMP #k` and a branch on carry.
  pub tested :
      (m : Machine M) (k opcode offset : ℕ) (cond : Condition) (rest : List ℕ)
      → m.halted ≡ false
      → IsByte m.a
      → IsByte k
      → decode opcode ≡ branch cond
      → CodeAt m.bus m.pc (0xC9 ∷ k ∷ opcode ∷ offset ∷ rest)
      → (f : Flags) × (f.c ≡ leb k m.a)
        × Runs m (record m {
          p_flags = f;
          pc =
              if holds cond f
              then (relative_address (after m.pc 4) offset).address
              else after m.pc 4;
        })
  tested m k opcode offset cond rest go u v d code =
      let (f, same, carry) = compared (record m { pc = after m.pc 2 }) k u v in
      let one = immediate_step m 0xC9 k BinaryOp.cmp (unfold decode in refl) code ∙ same in
      let two =
        branch_step (record m { pc = after m.pc 2; p_flags = f }) opcode offset cond d
          (code_after m.bus m.pc 2 _ code) in
      (f, carry, Runs-trans m _ _ (one_step m _ go one) (one_step _ _ go two))

  pub carry_clear :
      (m : Machine M) (k offset : ℕ) (rest : List ℕ)
      → m.halted ≡ false
      → IsByte m.a
      → IsByte k
      → CodeAt m.bus m.pc (0xC9 ∷ k ∷ 0x90 ∷ offset ∷ rest)
      → (f : Flags) × (f.c ≡ leb k m.a)
        × Runs m (record m {
          p_flags = f;
          pc = if leb k m.a then after m.pc 4 else (relative_address (after m.pc 4) offset).address;
        })
  unfolding holds
  carry_clear m k offset rest go u v code =
      let (f, carry, ran) =
        tested m k 0x90 offset Condition.bcc rest go u v (unfold decode in refl) code in
      (
        f,
        carry,
        subst (λ (p : ℕ). Runs m (record m { p_flags = f; pc = p }))
            (chosen_not f.c (leb k m.a) _ _ carry) ran,
      )

  pub carry_set :
      (m : Machine M) (k offset : ℕ) (rest : List ℕ)
      → m.halted ≡ false
      → IsByte m.a
      → IsByte k
      → CodeAt m.bus m.pc (0xC9 ∷ k ∷ 0xB0 ∷ offset ∷ rest)
      → (f : Flags) × (f.c ≡ leb k m.a)
        × Runs m (record m {
          p_flags = f;
          pc = if leb k m.a then (relative_address (after m.pc 4) offset).address else after m.pc 4;
        })
  unfolding holds
  carry_set m k offset rest go u v code =
      let (f, carry, ran) =
        tested m k 0xB0 offset Condition.bcs rest go u v (unfold decode in refl) code in
      (
        f,
        carry,
        subst (λ (p : ℕ). Runs m (record m { p_flags = f; pc = p }))
            (chosen f.c (leb k m.a) _ _ carry) ran,
      )

  pub subtracted :
      (m : Machine M) (k : ℕ)
      → m.p_flags.c ≡ true
      → IsByte m.a
      → k ≤ m.a
      → (f : Flags) × (exec_binary BinaryOp.sbc k m ≡ record m { a = m.a - k; p_flags = f })
  unfolding exec_binary add_with_carry
  subtracted m k c u v =
      let f = (exec_binary BinaryOp.sbc k m).p_flags in
      let rest : (exec_binary BinaryOp.sbc k m).a ≡ m.a - k = ground (arith, c) in
      (f, ap (λ (r : ℕ). record m { a = r; p_flags = f }) rest)

  pub added :
      (m : Machine M) (k : ℕ) (c : Bool)
      → m.p_flags.c ≡ c
      → m.a + k + (if c then 1 else 0) < 256
      → (f : Flags) × (exec_binary BinaryOp.adc k m
          ≡ record m { a = m.a + k + (if c then 1 else 0); p_flags = f })
  unfolding exec_binary add_with_carry
  added m k c e small =
      let f = (exec_binary BinaryOp.adc k m).p_flags in
      let sum : (exec_binary BinaryOp.adc k m).a ≡ m.a + k + (if c then 1 else 0) =
        ground (arith, e) in
      (f, ap (λ (r : ℕ). record m { a = r; p_flags = f }) sum)
