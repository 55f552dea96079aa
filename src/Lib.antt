-- ===== src/Lib.antt =====
-- A verification of sys6, an emulator that steps a 6502 through its clock cycles.
--
-- The program. `CPU6502` (src/cpu/cpu6502.cpp) is pumped by `tick`. Four ticks make a T-state: the
-- handlers of the clock's high edge capture from the bus into latches, those of the low edge commit
-- the latches to registers and memory and choose the next T-state; before each the ALU
-- (src/cpu/alu.cpp) settles. `executeInstruction`, `reset` and `run` are loops over `tick`. The CPU
-- drives a `Bus` (src/memory/bus.cpp), which routes an address to one of the devices attached to
-- it: `RAM`, `ROM` (src/memory/) and `TTY` (src/peripherals/tty.cpp), a serial port with a tape drive.
-- `System` (src/system/system.cpp) owns all of them, polls a terminal for a byte before each
-- instruction, and runs for ever. Its ROM holds a monitor program in 6502 code, which its constructor
-- installs from hex texts (src/system/monitor_firmware.cpp). `loadProgram`
-- (src/utils/program_loader.cpp) writes a hex listing into a device.
--
-- The files.
--   * Base and its children: bytes and words as native numbers, C's tests and `switch`, lists, the
--     native bit operations at variables, and statements about all bytes.
--   * Cpu/State, Cpu/Flags: the members of `CPU6502` and `m_pFlags`. Cpu/Opcodes: the opcode constants.
--     Cpu/CaptureSwitch and Cpu/CommitSwitch: the cases of `onClockHigh` and `onClockLow`, with
--     Cpu/Handler for the pairs of handlers they name; Cpu/BinarySwitch, Cpu/UnarySwitch and
--     Cpu/MoveSwitch: the switches on `m_IR` inside shared handlers. Cpu/Read, Load, Store, Rmw,
--     Implied, Stack and Jump: the handlers, `captureX` as capture_x and `commitX` as commit_x, over
--     Cpu/Binary, Unary, Move and Addressing for what they share. Cpu/Clock: `tick` and the loops.
--   * Cpu/Cycle: the four ticks of a T-state as one step, and an instruction as a fetch followed by
--     T-states of one handler.
--   * Isa: the instruction set as docs/6502-manual.md has it, on the registers, the flags and the
--     memory alone, with no latches and no clock. Decode is the manual's opcode matrix. Trace: runs
--     over code that stands in the memory.
--   * Refinement: each family of handlers against Isa, the switches against the matrix, and from
--     these the instructions, `run` and `reset`. Timing and ExactTiming: the T-states
--     against Isa/Cycles and Isa/Penalties. Stack: PHA and PLA over the bus. Traces: from a run of
--     Isa/Trace to one of the CPU.
--   * Arithmetic: the ALU, the flags and the effective addresses against numbers.
--   * Memory, Peripherals, Utils, System: the other classes, and below each what is proved of it.
--     Memory/Interface is what the CPU takes of the bus; Memory/Bus fills it.
--     Memory/Bus/Reach: the device that an address leads to. Utils/ProgramLoader: `loadProgram`, with
--     the white space of its text in WhiteSpace, the listing in Decode, a RAM after it in RamImage.
--   * System/Firmware: the hex texts of the monitor's routines (kXHex as x_hex), `loadRoutine` and
--     `install`. System/Boot: the constructor and the first reset. System/Monitor: the routines as
--     the CPU runs them. System/Survival: the monitor while the
--     machine runs. System/Emulator: src/main.cpp.
--   * Examples: small machines, and the theorems at them.
--
-- The model. A handler is a function from the state of the CPU to the next; a read may change the
-- devices, so a bus access returns the bus. uint8_t and uint16_t are native numbers, reduced where
-- the source stores or casts. `m_branchOffset` is kept as its byte. Exceptions are values, with what
-- had been written before them. Pointers to devices are places in a store of devices. The streams
-- of the TTY are their contents. A RAM's vector is not read or written out of bounds by the bus; what
-- C++ leaves undefined there (`loadProgram` with a RAM that is too small) is a write that is dropped.
--
-- Fuel. A loop over ticks has 28 ticks, for the seven T-states of four ticks that the longest
-- instruction and the reset sequence take, and 4 ticks up to the high phase; the refinement theorems
-- say that a result is returned, so the fuel is enough.
--
-- Not modelled: what the classes trace and log (Utils/Log has the logger itself), the accessors that
-- only read, and src/system/monitor_main.cpp, which opens the tape's file and wires up `System`. The
-- system calls behind System/PosixTerminal are a parameter.
mod Base
pub mod Peripherals
pub mod Memory
pub mod Utils
pub mod Cpu
pub mod Arithmetic
pub mod Isa
pub mod Refinement
pub mod System
mod Examples
