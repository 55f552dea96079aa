-- ===== src/Refinement/Implied.antt =====
-- The two-cycle instructions without an operand.
use sys.Base.{ℕ, ◌+◌, ◌≡◌, arith}
use sys.Base.Bits.{bit_and-0xFF, bit_or-zero_left}
use sys.Cpu.Alu.{execute}
use sys.Cpu.Capture.{capture}
use sys.Cpu.Clock.{settle}
use sys.Cpu.Commit.{commit}
use sys.Cpu.Cycle.{fetch, cycle_of, finish_stops}
use sys.Cpu.Handler.{Handler}
use sys.Cpu.State.{Cpu, CpuStep}
use sys.Isa.Exec.{exec_implied}
use sys.Isa.Instr.{Implied}
use sys.Isa.Machine.{visible, fetch_byte}
use sys.Memory.Interface.{BusAccess}
use sys.Refinement.Finishes.{Finishes}

abbrev pub opcode_of : Implied → ℕ
opcode_of Implied.inx = 0xE8
opcode_of Implied.dex = 0xCA
opcode_of Implied.iny = 0xC8
opcode_of Implied.dey = 0x88
opcode_of Implied.tax = 0xAA
opcode_of Implied.txa = 0x8A
opcode_of Implied.tay = 0xA8
opcode_of Implied.tya = 0x98
opcode_of Implied.tsx = 0xBA
opcode_of Implied.txs = 0x9A
opcode_of Implied.clc = 0x18
opcode_of Implied.sec = 0x38
opcode_of Implied.cli = 0x58
opcode_of Implied.sei = 0x78
opcode_of Implied.clv = 0xB8
opcode_of Implied.cld = 0xD8
opcode_of Implied.sed = 0xF8
opcode_of Implied.nop = 0xEA

abbrev pub implied_handler : Implied → Handler
implied_handler Implied.inx = Handler.implied_inc_dec
implied_handler Implied.dex = Handler.implied_inc_dec
implied_handler Implied.iny = Handler.implied_inc_dec
implied_handler Implied.dey = Handler.implied_inc_dec
implied_handler Implied.tax = Handler.implied_transfer
implied_handler Implied.txa = Handler.implied_transfer
implied_handler Implied.tay = Handler.implied_transfer
implied_handler Implied.tya = Handler.implied_transfer
implied_handler Implied.tsx = Handler.implied_transfer
implied_handler Implied.txs = Handler.implied_transfer
implied_handler Implied.clc = Handler.implied_flag_op
implied_handler Implied.sec = Handler.implied_flag_op
implied_handler Implied.cli = Handler.implied_flag_op
implied_handler Implied.sei = Handler.implied_flag_op
implied_handler Implied.clv = Handler.implied_flag_op
implied_handler Implied.cld = Handler.implied_flag_op
implied_handler Implied.sed = Handler.implied_flag_op
implied_handler Implied.nop = Handler.nop

module _ {M : Type 0} ⦃access : BusAccess M⦄ where
  -- One T-state after the fetch does it.
  implied_cycle :
      (op : Implied) (s : Cpu M)
      → (access.read s.bus s.pc).0 ≡ opcode_of op
      → let t = cycle_of (implied_handler op) (fetch s) in
        (t.cpu_step ≡ CpuStep.t0) × (visible t ≡ fetch_byte (visible s) (λ _ m. exec_implied op m))
  unfolding fetch cycle_of capture commit settle visible execute exec_implied
  implied_cycle Implied.nop s e = ground arith
  implied_cycle Implied.inx s e = ground (arith, bit_and-0xFF (1 + s.x + 0))
  implied_cycle Implied.dex s e = ground (arith, bit_and-0xFF (255 + s.x + 0))
  implied_cycle Implied.iny s e = ground (arith, bit_and-0xFF (1 + s.y + 0))
  implied_cycle Implied.dey s e = ground (arith, bit_and-0xFF (255 + s.y + 0))
  implied_cycle Implied.tsx s e = ground (arith, bit_or-zero_left s.sp)
  implied_cycle Implied.tax s e = ground (arith, bit_or-zero_left s.a)
  implied_cycle Implied.txa s e = ground (arith, bit_or-zero_left s.x)
  implied_cycle Implied.tay s e = ground (arith, bit_or-zero_left s.a)
  implied_cycle Implied.tya s e = ground (arith, bit_or-zero_left s.y)
  implied_cycle Implied.txs s e = ground (arith, bit_or-zero_left s.x)
  implied_cycle _ s e = ground arith

  pub implied_lem :
      (op : Implied) (s : Cpu M)
      → (access.read s.bus s.pc).0 ≡ opcode_of op
      → Finishes 6
          (implied_handler op)
          (fetch s)
          (fetch_byte (visible s) (λ _ m. exec_implied op m))
  implied_lem op s e =
      let (step, same) = implied_cycle op s e in
      (
        cycle_of (implied_handler op) (fetch s),
        finish_stops 5 (implied_handler op) (fetch s) step,
        same,
      )
