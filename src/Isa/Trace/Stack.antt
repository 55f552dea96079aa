-- ===== src/Isa/Trace/Stack.antt =====
-- Code that pushes, pulls and calls.
use sys.Base.{ℕ, ◌+◌, ◌/◌, ◌%◌, ◌≡◌, refl, ap, ◌∙◌, List, ◌∷◌, u8, u16, join}
use sys.Isa.Decode.{decode}
use sys.Isa.Exec.{put_register}
use sys.Isa.Flow.{exec_control}
use sys.Isa.Instr.{Control, control}
use sys.Isa.Machine.{Machine, zn}
use sys.Isa.Step.{exec, isa_step}
use sys.Isa.Trace.{ReadsAs, CodeAt, cons, after, decoded}
use sys.Memory.Interface.{BusAccess}

-- The place that a push writes.
abbrev pub slot : ℕ → ℕ
slot sp = u16 (0x100 + sp)

module _ {M : Type 0} ⦃access : BusAccess M⦄ where
  -- `PHA`, which reads the next byte of the code and drops it.
  pub push_step :
      (m : Machine M) (b : ℕ) (rest : List ℕ)
      → CodeAt m.bus m.pc (0x48 ∷ b ∷ rest)
      → isa_step m ≡ record m {
        pc = after m.pc 1;
        bus = access.write m.bus (slot m.sp) m.a;
        sp = u8 (m.sp + 255);
      }
  unfolding exec exec_control decode
  push_step m b rest (cons e (cons f _)) =
      decoded m 0x48 (control Control.pha) e refl
      ∙ ap
          (λ (r : ℕ × M). record m {
            pc = after m.pc 1;
            bus = access.write r.1 (slot m.sp) m.a;
            sp = u8 (m.sp + 255);
          })
          f

  -- `PLA`, likewise.
  pub pull_step :
      (m : Machine M) (b val : ℕ) (rest : List ℕ)
      → CodeAt m.bus m.pc (0x68 ∷ b ∷ rest)
      → ReadsAs m.bus (slot (u8 (m.sp + 1))) val
      → isa_step m ≡ record m {
        pc = after m.pc 1;
        sp = u8 (m.sp + 1);
        a = u8 val;
        p_flags = zn (u8 val) m.p_flags;
      }
  unfolding exec exec_control decode put_register
  pull_step m b val rest (cons e (cons f _)) g =
      let pulled : ℕ × M → Machine M = λ r. record m {
        pc = after m.pc 1;
        sp = u8 (m.sp + 1);
        bus = r.1;
        a = u8 r.0;
        p_flags = zn (u8 r.0) m.p_flags;
      } in
      decoded m 0x68 (control Control.pla) e refl
      ∙ ap (λ (r : ℕ × M). pulled (access.read r.1 (slot (u8 (m.sp + 1))))) f
      ∙ ap pulled g

  -- The memory after a call has pushed its return address.
  abbrev pub called : Machine M → M
  called m =
      let w : ℕ = after m.pc 2 in
      access.write (access.write m.bus (slot m.sp) (u8 (w / 256))) (slot (u8 (m.sp + 255)))
        (w % 256)

  -- `JSR`, which reads the high byte of its operand last.
  pub call_step :
      (m : Machine M) (lo hi : ℕ) (rest : List ℕ)
      → CodeAt m.bus m.pc (0x20 ∷ lo ∷ rest)
      → ReadsAs (called m) (after m.pc 2) hi
      → isa_step m
        ≡ record m { pc = join (lo % 256) hi; bus = called m; sp = u8 (u8 (m.sp + 255) + 255) }
  unfolding exec exec_control decode
  call_step m lo hi rest (cons e (cons f _)) g =
      let jumped : ℕ → ℕ × M → Machine M = λ low r. record m {
        pc = join (low % 256) r.0;
        bus = r.1;
        sp = u8 (u8 (m.sp + 255) + 255);
      } in
      decoded m 0x20 (control Control.jsr) e refl
      ∙ ap
          (λ (r : ℕ × M). jumped r.0 (access.read (called (record m { bus = r.1 })) (after m.pc 2)))
          f
      ∙ ap (jumped lo) g
