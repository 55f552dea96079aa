-- ===== src/System/PosixTerminal.antt =====
-- src/system/posix_terminal_io.h and src/system/posix_terminal_io.cpp: the terminal of the monitor
-- program. What it calls of the operating system is a parameter.
use sys.Base.{ℕ, Option, none, some, ◌==◌, if◌then◌else◌}
use sys.System.{TerminalIo}

-- `ssize_t`: -1, or a number of bytes, with the byte in the buffer.
pub data ReadResult : Type 0 where
  failed : ReadResult
  count : ℕ → ℕ → ReadResult

-- The state of the system, the settings of a terminal, and the calls. `without_waiting` is the two
-- assignments to `c_cc`.
pub record Posix (W T : Type 0) : Type 0 where
  pub tcgetattr : W → T
  pub tcsetattr : T → W → W
  pub cfmakeraw : T → T
  pub without_waiting : T → T
  pub read : W → ReadResult × W

pub record PosixTerminalIo (T : Type 0) : Type 0 where
  pub saved_termios : T

module _ {W T : Type 0} (posix : Posix W T) where
  -- The constructor.
  unfoldable open_terminal : W → PosixTerminalIo T × W
  open_terminal w =
      let saved = posix.tcgetattr w in
      (
        record { saved_termios = saved },
        posix.tcsetattr (posix.without_waiting (posix.cfmakeraw saved)) w,
      )

  -- The destructor.
  unfoldable close_terminal : PosixTerminalIo T → W → W
  close_terminal t w = posix.tcsetattr t.saved_termios w

  -- `tryReadByte`.
  unfoldable posix_try_read_byte : W → Option ℕ × W
  posix_try_read_byte w =
      let answer = posix.read w in
      (
        elim answer.0 [ failed ↦ none | count n byte ↦ if n == 1 then some byte else none ],
        answer.1,
      )

  -- What a `System` is given of it.
  abbrev posix_terminal : TerminalIo W
  posix_terminal = record { try_read_byte = posix_try_read_byte }
