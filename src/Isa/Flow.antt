-- ===== src/Isa/Flow.antt =====
-- Branches, jumps and the stack.
use sys.Base.{◌+◌, ◌*◌, ◌/◌, ◌%◌, Bool, true, not, if◌then◌else◌, u8, u16, join}
use sys.Cpu.Addressing.{relative_address}
use sys.Cpu.Flags.{Flags, to_byte, of_byte}
use sys.Isa.Exec.{put_register}
use sys.Isa.Instr.{Register, Condition, Control}
use sys.Isa.Machine.{
  Machine, with_flags, load_byte, fetch_byte, fetch_word, push_byte, push_word, pull_byte,
}
use sys.Memory.Interface.{BusAccess}

unfoldable pub holds : Condition → Flags → Bool
holds Condition.bpl f = not f.n
holds Condition.bmi f = f.n
holds Condition.bvc f = not f.v
holds Condition.bvs f = f.v
holds Condition.bcc f = not f.c
holds Condition.bcs f = f.c
holds Condition.bne f = not f.z
holds Condition.beq f = f.z

module _ {M : Type 0} ⦃access : BusAccess M⦄ where
  -- The offset counts from the instruction after the branch.
  unfoldable pub exec_branch : Condition → Machine M → Machine M
  unfolding holds
  exec_branch cond m = fetch_byte m λ offset m'.
      if holds cond m'.p_flags
      then record m' { pc = (relative_address m'.pc offset).address }
      else m'

  -- The flags as an interrupt or PHP pushes them: B is set in the register, too.
  abbrev push_flags : Machine M → Machine M
  push_flags m =
      let f : Flags = record (m.p_flags) { b = true } in push_byte (to_byte f) (with_flags f m)

  unfoldable pub exec_control : Control → Machine M → Machine M
  unfolding put_register
  -- The padding byte is skipped. The last step stops a driver loop.
  exec_control Control.brk m = fetch_byte m λ _ m₁.
      let m₂ = push_flags (push_word m₁.pc m₁) in
      let m₃ : Machine M = with_flags (record (m₂.p_flags) { i = true }) m₂ in
      load_byte 0xFFFE m₃
        (λ lo m₄. load_byte 0xFFFF m₄ (λ hi m₅. record m₅ { pc = join lo hi; halted = true }))
  -- What is pushed is the address of the operand's high byte, which is read last.
  exec_control Control.jsr m = fetch_byte m λ lo m₁.
      let m₂ = push_word m₁.pc m₁ in
      load_byte m₂.pc m₂ (λ hi m₃. record m₃ { pc = join (lo % 256) hi })
  exec_control Control.rts m =
      pull_byte m (λ lo m₁. pull_byte m₁ (λ hi m₂. record m₂ { pc = u16 (join (lo % 256) hi + 1) }))
  exec_control Control.rti m = load_byte m.pc m (λ _ m₁. pull_byte m₁ (λ f m₂.
      pull_byte (with_flags (of_byte f) m₂)
        (λ lo m₃. pull_byte m₃ (λ hi m₄. record m₄ { pc = join lo hi }))))
  exec_control Control.jmp_absolute m = fetch_word m (λ target m'. record m' { pc = target })
  -- The pointer's high byte comes from the same page.
  exec_control Control.jmp_indirect m = fetch_word m λ at m₁. load_byte at m₁ (λ lo m₂.
      load_byte (at / 256 * 256 + (at + 1) % 256) m₂ (λ hi m₃. record m₃ { pc = join lo hi }))
  exec_control Control.pha m = load_byte m.pc m (λ _ m'. push_byte m'.a m')
  exec_control Control.php m = load_byte m.pc m (λ _ m'. push_flags m')
  exec_control Control.pla m =
      load_byte m.pc m (λ _ m₁. pull_byte m₁ (λ v m₂. put_register Register.a (u8 v) m₂))
  exec_control Control.plp m =
      load_byte m.pc m (λ _ m₁. pull_byte m₁ (λ v m₂. with_flags (of_byte (u8 v)) m₂))
