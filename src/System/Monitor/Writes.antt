-- ===== src/System/Monitor/Writes.antt =====
-- What a routine writes: the stack in the RAM, and the characters that it prints.
use sys.Base.{
  ℕ, ◌+◌, ◌%◌, ◌<◌, ◌≡◌, ◌≢◌, refl, ap, arith, [], ◌∷◌, ◌++◌, length, get_or, u8, u16, join,
  get_or-set_self, get_or-set_ne,
}
use sys.Isa.Trace.{Returns}
use sys.Isa.Trace.Stack.{slot}
use sys.Memory.Bus.{bus_access, bus_write, find_mapping, contains, device_write, device_at}
use sys.Memory.Device.{write}
use sys.Memory.Ram.{Ram, write as ram_write}
use sys.Memory.Rom.{Rom}
use sys.Peripherals.Tty.{Tty, write_serial, write as tty_write}
use sys.System.MemoryMap.{wired_over}
use sys.System.Monitor.{read-ram}

pub write-ram :
    (r : Ram) (t : Tty) (m : Rom) (addr val : ℕ)
    → addr < 0x8000
    → bus_write (wired_over r t m) addr val ≡ wired_over (ram_write r addr val) t m
unfolding bus_write find_mapping contains device_write device_at write
write-ram r t m addr val h = ground arith

-- A character goes out.
abbrev pub print : Tty → ℕ → Tty
print t c = record t { out = t.out ++ (u8 c ∷ []) }

pub write-data :
    (r : Ram) (t : Tty) (m : Rom) (val : ℕ)
    → bus_write (wired_over r t m) 0x8001 val ≡ wired_over r (print t val) m
unfolding bus_write find_mapping contains device_write device_at write write_serial tty_write
write-data r t m val = refl

abbrev pub byte_in : Ram → ℕ → ℕ
byte_in r addr = u8 (get_or r.bytes addr 0)

pub pushed_here :
    (r : Ram) (i val : ℕ) → i < length r.bytes → byte_in (ram_write r i val) i ≡ u8 (u8 val)
pushed_here r i val h = ap u8 (get_or-set_self r.bytes i (u8 val) 0 h)

pub pushed_elsewhere : (r : Ram) (i j val : ℕ) → i ≢ j → byte_in (ram_write r i val) j ≡ byte_in r j
pushed_elsewhere r i j val h = ap u8 (get_or-set_ne r.bytes i j (u8 val) 0 h)

-- Where a return goes with this stack.
unfoldable pub return_in : Ram → ℕ → ℕ
return_in r sp =
    u16 (join (byte_in r (slot (u8 (sp + 1))) % 256) (byte_in r (slot (u8 (u8 (sp + 1) + 1)))) + 1)

pub return_in-Returns :
    (r : Ram) (t : Tty) (m : Rom) (sp : ℕ) → Returns (wired_over r t m) sp (return_in r sp)
unfolding return_in
return_in-Returns r t m sp = record {
  lo = _;
  hi = _;
  low_read = read-ram r t m (slot (u8 (sp + 1))) (omega arith);
  high_read = read-ram r t m (slot (u8 (u8 (sp + 1) + 1))) (omega arith);
  target = refl;
}
