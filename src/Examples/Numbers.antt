-- ===== src/Examples/Numbers.antt =====
-- The arithmetic at concrete bytes.
use sys.Arithmetic.Address.{indexed_address_lem, relative_address_lem}
use sys.Arithmetic.Compare.{output, borrow, output-sbc, output-cmp}
use sys.Arithmetic.Rotate.{execute-shift}
use sys.Arithmetic.Sum.{signed_plus_128, execute-add, alu_overflow_lem}
use sys.Base.{◌+◌, ◌-◌, ◌*◌, ◌/◌, ◌%◌, ◌≡◌, arith, true, false, not, ◌&&◌, leb, ltb, ◌==◌}
use sys.Cpu.Addressing.{indexed_address, relative_address}
use sys.Cpu.Alu.{AluFunction, execute, carry_bit}
use sys.Cpu.Binary.{alu_zero, alu_negative, alu_overflow}
use sys.Cpu.State.{AluOp}
use sys.Examples.Machines.{small_cpu}

execute-add_example :
    (execute 0x50 0xD0 AluFunction.add true).value
      + carry_bit (execute 0x50 0xD0 AluFunction.add true).carry 256
    ≡ 0x50 + 0xD0 + 1
execute-add_example = execute-add 0x50 0xD0 true (omega arith) (omega arith)

alu_overflow_lem_example :
    alu_overflow 0x50 0x50 ((0x50 + 0x50 + carry_bit false 1) % 256)
    ≡ not (
        leb 128 (signed_plus_128 0x50 + signed_plus_128 0x50 + carry_bit false 1)
        && ltb (signed_plus_128 0x50 + signed_plus_128 0x50 + carry_bit false 1) 384)
alu_overflow_lem_example = alu_overflow_lem 0x50 0x50 false (omega arith) (omega arith)

output-sbc_example :
    ((output AluOp.sbc 0x10 0x20 small_cpu).value ≡ (0x10 + 256 - (0x20 + borrow small_cpu)) % 256)
    × ((output AluOp.sbc 0x10 0x20 small_cpu).carry ≡ leb (0x20 + borrow small_cpu) 0x10)
output-sbc_example = output-sbc 0x10 0x20 small_cpu (omega arith) (omega arith)

output-cmp_example :
    ((output AluOp.cmp 0x10 0x20 small_cpu).carry ≡ leb 0x20 0x10)
    × (alu_zero (output AluOp.cmp 0x10 0x20 small_cpu).value ≡ (0x10 == 0x20))
    × (alu_negative (output AluOp.cmp 0x10 0x20 small_cpu).value
        ≡ leb 128 ((0x10 + 256 - 0x20) % 256))
output-cmp_example = output-cmp 0x10 0x20 small_cpu (omega arith) (omega arith)

execute-shift_example :
    ((execute 0 0x81 AluFunction.shl true).value
        + carry_bit (execute 0 0x81 AluFunction.shl true).carry 256
      ≡ 0x81 * 2)
    × ((execute 0 0x81 AluFunction.shr true).value * 2
          + carry_bit (execute 0 0x81 AluFunction.shr true).carry 1
        ≡ 0x81)
    × ((execute 0 0x81 AluFunction.rol true).value
          + carry_bit (execute 0 0x81 AluFunction.rol true).carry 256
        ≡ 0x81 * 2 + carry_bit true 1)
    × ((execute 0 0x81 AluFunction.ror true).value * 2
          + carry_bit (execute 0 0x81 AluFunction.ror true).carry 1
        ≡ 0x81 + carry_bit true 256)
execute-shift_example = execute-shift 0 0x81 true (omega arith)

indexed_address_lem_example :
    ((indexed_address 0x12F0 0x20).address ≡ (0x12F0 + 0x20) % 65536)
    × ((indexed_address 0x12F0 0x20).page_crossed ≡ leb 256 (0x12F0 % 256 + 0x20))
indexed_address_lem_example = indexed_address_lem 0x12F0 0x20 (omega arith) (omega arith)

relative_address_lem_example :
    ((relative_address 0x1005 0xF0).address ≡ (0x1005 + signed_plus_128 0xF0 + 65536 - 128) % 65536)
    × ((relative_address 0x1005 0xF0).page_crossed
        ≡ not (0x1005 / 256 == (relative_address 0x1005 0xF0).address / 256))
relative_address_lem_example = relative_address_lem 0x1005 0xF0 (omega arith) (omega arith)
