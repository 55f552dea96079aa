-- ===== src/Refinement/Stack.antt =====
-- src/cpu/cpu6502.cpp: what PHA pushes PLA pulls, on the bus.
use sys.Base.{subst, ℕ, ◌+◌, ◌≡◌, refl, sym, ◌∙◌, ap, arith, some, IsByte, u8, u16}
use sys.Cpu.Clock.{execute_instruction}
use sys.Cpu.Cycle.{IsBetween}
use sys.Cpu.Stack.{stack_address}
use sys.Cpu.State.{Cpu}
use sys.Isa.Decode.{decode}
use sys.Isa.Exec.{put_register}
use sys.Isa.Flow.{exec_control}
use sys.Isa.Instr.{Instr, Control, control}
use sys.Isa.Machine.{Machine, visible}
use sys.Isa.Step.{exec, isa_step}
use sys.Memory.Bus.{Bus, bus_access, bus_access-ReadsBytes, bus_read, bus_write}
use sys.Memory.Bus.RamBytes.{
  IsRamAt, byte_at, byte_at-write, byte_at-read, read-IsRamAt, write-IsRamAt,
}
use sys.Refinement.Instruction.{execute_instruction-isa_step}

abbrev pub pha : ℕ
pha = 0x48

abbrev pub pla : ℕ
pla = 0x68

abbrev fetched : Machine Bus → Machine Bus
fetched m = record m { pc = u16 (m.pc + 1); bus = (bus_read m.bus m.pc).1 }

step_of :
    (m : Machine Bus) (opcode : ℕ) (i : Instr)
    → byte_at m.bus m.pc ≡ opcode
    → decode opcode ≡ i
    → isa_step m ≡ exec i (fetched m)
unfolding isa_step
step_of m opcode i e d =
    ap (λ (n : ℕ). exec (decode n) (fetched m)) e ∙ ap (λ (j : Instr). exec j (fetched m)) d

abbrev idle : Machine Bus → Bus
idle m = (bus_read (bus_read m.bus m.pc).1 (u16 (m.pc + 1))).1

-- The step of a machine at each of the two opcodes.
pha_step :
    (m : Machine Bus)
    → byte_at m.bus m.pc ≡ pha
    → ((isa_step m).sp ≡ u8 (m.sp + 255))
      × ((isa_step m).bus ≡ bus_write (idle m) (stack_address m.sp) m.a)
unfolding exec exec_control
pha_step m e =
    let step = step_of m pha (control Control.pha) e (unfold decode in refl) in
    (ap (λ (t : Machine Bus). t.sp) step, ap (λ (t : Machine Bus). t.bus) step)

pla_step :
    (m : Machine Bus)
    → byte_at m.bus m.pc ≡ pla
    → ((isa_step m).sp ≡ u8 (m.sp + 1))
      × ((isa_step m).a ≡ u8 (byte_at (idle m) (stack_address (u8 (m.sp + 1)))))
unfolding exec exec_control put_register
pla_step m e =
    let step = step_of m pla (control Control.pla) e (unfold decode in refl) in
    (ap (λ (t : Machine Bus). t.sp) step, ap (λ (t : Machine Bus). t.a) step)

-- Two reads change no byte of a RAM.
idle-byte_at :
    (m : Machine Bus) (addr : ℕ) → IsRamAt m.bus addr → byte_at (idle m) addr ≡ byte_at m.bus addr
idle-byte_at m addr v =
    byte_at-read (bus_read m.bus m.pc).1 (u16 (m.pc + 1)) addr (read-IsRamAt m.bus m.pc addr v)
    ∙ byte_at-read m.bus m.pc addr v

some_same {ℓ} : {A : Type ℓ} {a b : A} → some a ≡ some b → a ≡ b
some_same e = cc

-- What PHA leaves.
after_pha :
    (s t : Cpu Bus)
    → IsBetween s
    → byte_at s.bus s.pc ≡ pha
    → execute_instruction s ≡ some t
    → (t.sp ≡ u8 (s.sp + 255)) × (t.bus ≡ bus_write (idle (visible s)) (stack_address s.sp) s.a)
unfolding visible
after_pha s t v at_pha ran =
    let (t', ends, same, _) = execute_instruction-isa_step s bus_access-ReadsBytes v in
    let (sp, bus) = pha_step (visible s) at_pha in
    let seen = sym (ap visible (some_same (sym ends ∙ ran))) ∙ same in
    (ap (λ (m : Machine Bus). m.sp) seen ∙ sp, ap (λ (m : Machine Bus). m.bus) seen ∙ bus)

-- What PHA pushes PLA pulls. From between two instructions, with bytes in A and the stack pointer
-- and a RAM where that leads, let the instruction be PHA. Any CPU between two instructions that has
-- the bus and the stack pointer from after it and stands at a PLA comes through that, and has the A
-- and the stack pointer from before the PHA.
pub pla-pha :
    (s t u : Cpu Bus)
    → IsBetween s
    → IsBetween u
    → IsByte s.a
    → IsByte s.sp
    → IsRamAt s.bus (stack_address s.sp)
    → byte_at s.bus s.pc ≡ pha
    → execute_instruction s ≡ some t
    → u.bus ≡ t.bus
    → u.sp ≡ t.sp
    → byte_at u.bus u.pc ≡ pla
    → (w : Cpu Bus) × (execute_instruction u ≡ some w) × (w.a ≡ s.a) × (w.sp ≡ s.sp)
unfolding visible
pla-pha s t u vs vu a_byte sp_byte v at_pha ran same_bus same_sp at_pla =
    let addr : ℕ = stack_address s.sp in
    let (sp_t, bus_t) = after_pha s t vs at_pha ran in
    let here =
      read-IsRamAt (bus_read s.bus s.pc).1 (u16 (s.pc + 1)) addr (read-IsRamAt s.bus s.pc addr v) in
    let bus_u = same_bus ∙ bus_t in
    let there =
      subst (λ (b : Bus). IsRamAt b addr) (sym bus_u)
        (write-IsRamAt (idle (visible s)) addr s.a here) in
    let (w, ends, same, _) = execute_instruction-isa_step u bus_access-ReadsBytes vu in
    let (sp_w, a_w) = pla_step (visible u) at_pla in
    let back : u8 (u.sp + 1) ≡ s.sp = omega (arith, same_sp, sp_t) in
    let value =
      idle-byte_at (visible u) addr there
      ∙ ap (λ (b : Bus). byte_at b addr) bus_u
      ∙ byte_at-write (idle (visible s)) addr s.a here a_byte in
    (
      w,
      ends,
      ap (λ (m : Machine Bus). m.a) same
          ∙ a_w
          ∙ ap (λ (k : ℕ). u8 (byte_at (idle (visible u)) (stack_address k))) back
          ∙ ap (λ (k : ℕ). u8 k) value
          ∙ omega (arith, a_byte),
      ap (λ (m : Machine Bus). m.sp) same ∙ sp_w ∙ back,
    )
