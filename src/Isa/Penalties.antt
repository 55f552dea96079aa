-- ===== src/Isa/Penalties.antt =====
-- docs/6502-manual.md: the cycles that a page crossing or a branch adds, and an instruction's count.
use sys.Base.{ℕ, ◌+◌, ◌%◌, Bool, if◌then◌else◌, join}
use sys.Cpu.Addressing.{indexed_address, relative_address}
use sys.Isa.Cycles.{base_cycles}
use sys.Isa.Decode.{decode}
use sys.Isa.Flow.{holds}
use sys.Isa.Instr.{Instr, Mode, binary, load, branch}
use sys.Isa.Machine.{Machine, load_byte, fetch_byte, fetch_word}
use sys.Memory.Interface.{BusAccess}

abbrev pub one_if : Bool → ℕ
one_if b = if b then 1 else 0

module _ {M : Type 0} ⦃access : BusAccess M⦄ where
  -- A read through an index that leaves the page of its base. PC is behind the opcode.
  unfoldable pub read_penalty : Mode → Machine M → ℕ
  read_penalty Mode.absolute_x m =
      fetch_word m (λ w m'. one_if (indexed_address w m'.x).page_crossed)
  read_penalty Mode.absolute_y m =
      fetch_word m (λ w m'. one_if (indexed_address w m'.y).page_crossed)
  read_penalty Mode.indirect_y m = fetch_byte m λ z m₁. load_byte z m₁ (λ lo m₂.
      load_byte ((z + 1) % 256) m₂
        (λ hi m₃. one_if (indexed_address (join lo hi) m₃.y).page_crossed))
  read_penalty _ m = 0

  -- A branch that is taken costs one, and one more if it leaves the page.
  unfoldable pub penalty : Instr → Machine M → ℕ
  unfolding read_penalty
  penalty (binary op mode) m = read_penalty mode m
  penalty (load reg mode) m = read_penalty mode m
  penalty (branch cond) m = fetch_byte m λ offset m'.
      if holds cond m'.p_flags then 1 + one_if (relative_address m'.pc offset).page_crossed else 0
  penalty _ m = 0

  unfoldable pub isa_cycles : Machine M → ℕ
  unfolding penalty
  isa_cycles m = fetch_byte m (λ n m'. base_cycles (decode n) + penalty (decode n) m')
