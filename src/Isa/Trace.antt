-- ===== src/Isa/Trace.antt =====
-- src/cpu/cpu6502.cpp, seen as documented instructions: pieces of code that stand in a memory, one
-- lemma for each kind of instruction.
pub mod Carry
pub mod Stack
use sys.Base.{
  ℕ, zero, suc, Bool, subst, ◌+◌, ◌%◌, ◌≡◌, refl, ap, ◌∙◌, true, false, List, [], ◌∷◌, u8, u16,
  join, if◌then◌else◌,
}
use sys.Cpu.Addressing.{relative_address}
use sys.Isa.Decode.{decode}
use sys.Isa.Exec.{
  exec_binary, exec_implied, exec_accumulator, with_address, store_at, register_value,
}
use sys.Isa.Flow.{exec_branch, exec_control, holds}
use sys.Isa.Instr.{
  Instr, BinaryOp, Mode, Register, Condition, Implied, Control, binary, branch, implied, control,
  store, unary, UnaryOp, accumulator,
}
use sys.Isa.Machine.{Machine}
use sys.Isa.Step.{exec, isa_step}
use sys.Memory.Interface.{BusAccess}

-- The address so many bytes on.
abbrev pub after : ℕ → ℕ → ℕ
after pc zero = pc
after pc (suc n) = after (u16 (pc + 1)) n

abbrev pub rest_of : ℕ → List ℕ → List ℕ
rest_of zero bs = bs
rest_of (suc n) [] = []
rest_of (suc n) (b ∷ bs) = rest_of n bs

module _ {M : Type 0} ⦃access : BusAccess M⦄ where
  -- A read that gives this byte and leaves the memory as it is.
  abbrev pub ReadsAs : M → ℕ → ℕ → Type 0
  ReadsAs mem addr val = access.read mem addr ≡ (val, mem)

  -- Bytes one after the other, as the program counter passes them.
  pub data CodeAt : M → ℕ → List ℕ → Type 0 where
    nil : {mem : M} {pc : ℕ} → CodeAt mem pc []
    cons :
        {mem : M} {pc b : ℕ} {bs : List ℕ}
        → ReadsAs mem pc b
        → CodeAt mem (u16 (pc + 1)) bs
        → CodeAt mem pc (b ∷ bs)

  pub code_after :
      (mem : M) (pc n : ℕ) (bs : List ℕ) → CodeAt mem pc bs → CodeAt mem (after pc n) (rest_of n bs)
  code_after mem pc zero bs h = h
  code_after mem pc (suc n) [] nil = nil
  code_after mem pc (suc n) (b ∷ bs) (cons h hs) = code_after mem (u16 (pc + 1)) n bs hs

  -- Some instructions, none of which starts on a halted machine.
  pub data Runs : Machine M → Machine M → Type 0 where
    done : (m : Machine M) → Runs m m
    next : (m m' : Machine M) → m.halted ≡ false → Runs (isa_step m) m' → Runs m m'

  pub Runs-trans : (l m n : Machine M) → Runs l m → Runs m n → Runs l n
  Runs-trans l m n (done _) s = s
  Runs-trans l m n (next _ _ e r) s = next l n e (Runs-trans (isa_step l) m n r s)

  pub one_step : (m m' : Machine M) → m.halted ≡ false → isa_step m ≡ m' → Runs m m'
  one_step m m' e s =
      subst (λ (n : Machine M). Runs m n) s (next m (isa_step m) e (done (isa_step m)))

  fetched :
      (m : Machine M) (opcode : ℕ)
      → ReadsAs m.bus m.pc opcode
      → isa_step m ≡ exec (decode opcode) (record m { pc = u16 (m.pc + 1) })
  unfolding isa_step
  fetched m opcode e =
      ap (λ (r : ℕ × M). exec (decode r.0) (record m { bus = r.1; pc = u16 (m.pc + 1) })) e

  pub decoded :
      (m : Machine M) (opcode : ℕ) (instr : Instr)
      → ReadsAs m.bus m.pc opcode
      → decode opcode ≡ instr
      → isa_step m ≡ exec instr (record m { pc = u16 (m.pc + 1) })
  decoded m opcode instr e d =
      fetched m opcode e ∙ ap (λ (i : Instr). exec i (record m { pc = u16 (m.pc + 1) })) d

  pub immediate_step :
      (m : Machine M) (opcode val : ℕ) (op : BinaryOp) {rest : List ℕ}
      → decode opcode ≡ binary op Mode.immediate
      → CodeAt m.bus m.pc (opcode ∷ val ∷ rest)
      → isa_step m ≡ exec_binary op val (record m { pc = u16 (u16 (m.pc + 1) + 1) })
  unfolding exec with_address
  immediate_step m opcode val op d (cons e (cons f _)) =
      decoded m opcode (binary op Mode.immediate) e d
      ∙ ap
          (λ (r : ℕ × M).
            exec_binary op r.0 (record m { bus = r.1; pc = u16 (u16 (m.pc + 1) + 1) }))
          f

  pc_of_if :
      (b : Bool) (m : Machine M) (p q : ℕ)
      → (if b then record m { pc = p } else record m { pc = q })
        ≡ record m { pc = if b then p else q }
  pc_of_if true m p q = refl
  pc_of_if false m p q = refl

  pub branch_step :
      (m : Machine M) (opcode offset : ℕ) (cond : Condition) {rest : List ℕ}
      → decode opcode ≡ branch cond
      → CodeAt m.bus m.pc (opcode ∷ offset ∷ rest)
      → isa_step m ≡ record m {
        pc =
            if holds cond m.p_flags
            then (relative_address (u16 (u16 (m.pc + 1) + 1)) offset).address
            else u16 (u16 (m.pc + 1) + 1);
      }
  unfolding exec exec_branch
  branch_step m opcode offset cond d (cons e (cons f _)) =
      decoded m opcode (branch cond) e d
      ∙ ap
          (λ (r : ℕ × M).
            (let m' : Machine M = record m { bus = r.1; pc = u16 (u16 (m.pc + 1) + 1) } in
              if holds cond m'.p_flags
              then record m' { pc = (relative_address m'.pc r.0).address }
              else m'))
          f
      ∙ pc_of_if (holds cond m.p_flags) m _ _

  pub implied_step :
      (m : Machine M) (opcode : ℕ) (op : Implied) {rest : List ℕ}
      → decode opcode ≡ implied op
      → CodeAt m.bus m.pc (opcode ∷ rest)
      → isa_step m ≡ exec_implied op (record m { pc = u16 (m.pc + 1) })
  unfolding exec
  implied_step m opcode op d (cons e _) = decoded m opcode (implied op) e d

  pub accumulator_step :
      (m : Machine M) (opcode : ℕ) (op : UnaryOp) {rest : List ℕ}
      → decode opcode ≡ unary op accumulator
      → CodeAt m.bus m.pc (opcode ∷ rest)
      → isa_step m ≡ exec_accumulator op (record m { pc = u16 (m.pc + 1) })
  unfolding exec
  accumulator_step m opcode op d (cons e _) = decoded m opcode (unary op accumulator) e d

  pub jump_step :
      (m : Machine M) (lo hi : ℕ) {rest : List ℕ}
      → CodeAt m.bus m.pc (0x4C ∷ lo ∷ hi ∷ rest)
      → isa_step m ≡ record m { pc = join lo hi }
  unfolding exec exec_control decode
  jump_step m lo hi (cons e (cons f (cons g _))) =
      decoded m 0x4C (control Control.jmp_absolute) e refl
      ∙ ap
          (λ (r : ℕ × M).
            let m' : Machine M = record m { bus = r.1; pc = u16 (u16 (m.pc + 1) + 1) } in
            record m' {
              bus = (access.read m'.bus m'.pc).1;
              pc = join r.0 (access.read m'.bus m'.pc).0;
            })
          f
      ∙ ap (λ (r : ℕ × M). record m { bus = r.1; pc = join lo r.0 }) g

  -- `STA` to an address of two bytes.
  pub store_step :
      (m : Machine M) (lo hi : ℕ) {rest : List ℕ}
      → CodeAt m.bus m.pc (0x8D ∷ lo ∷ hi ∷ rest)
      → isa_step m ≡ record m {
        pc = u16 (u16 (u16 (m.pc + 1) + 1) + 1);
        bus = access.write m.bus (join lo hi) m.a;
      }
  unfolding exec with_address store_at register_value decode
  store_step m lo hi (cons e (cons f (cons g _))) =
      decoded m 0x8D (store Register.a Mode.absolute) e refl
      ∙ ap
          (λ (r : ℕ × M).
            let m' : Machine M = record m { bus = r.1; pc = u16 (u16 (m.pc + 1) + 1) } in
            let b : ℕ × M = access.read m'.bus m'.pc in
            record m' { pc = u16 (m'.pc + 1); bus = access.write b.1 (join r.0 b.0) m.a })
          f
      ∙ ap
          (λ (r : ℕ × M). record m {
            pc = u16 (u16 (u16 (m.pc + 1) + 1) + 1);
            bus = access.write r.1 (join lo r.0) m.a;
          })
          g

  -- On the stack is the address before this one.
  pub record Returns (mem : M) (sp to : ℕ) : Type 0 where
    pub lo : ℕ
    pub hi : ℕ
    pub low_read : ReadsAs mem (u16 (0x100 + u8 (sp + 1))) lo
    pub high_read : ReadsAs mem (u16 (0x100 + u8 (u8 (sp + 1) + 1))) hi
    pub target : u16 (join (lo % 256) hi + 1) ≡ to

  pub return_step :
      (m : Machine M) (to : ℕ) {rest : List ℕ}
      → CodeAt m.bus m.pc (0x60 ∷ rest)
      → Returns m.bus m.sp to
      → isa_step m ≡ record m { sp = u8 (u8 (m.sp + 1) + 1); pc = to }
  unfolding exec exec_control decode
  return_step m to (cons e _) v =
      decoded m 0x60 (control Control.rts) e refl
      ∙ ap
          (λ (r : ℕ × M).
            let b : ℕ × M = access.read r.1 (u16 (0x100 + u8 (u8 (m.sp + 1) + 1))) in
            record m {
              sp = u8 (u8 (m.sp + 1) + 1);
              bus = b.1;
              pc = u16 (join (r.0 % 256) b.0 + 1);
            })
          v.low_read
      ∙ ap
          (λ (r : ℕ × M). record m {
            sp = u8 (u8 (m.sp + 1) + 1);
            bus = r.1;
            pc = u16 (join (v.lo % 256) r.0 + 1);
          })
          v.high_read
      ∙ ap (λ (p : ℕ). record m { sp = u8 (u8 (m.sp + 1) + 1); pc = p }) v.target
