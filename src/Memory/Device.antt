-- ===== src/Memory/Device.antt =====
-- src/memory/memory_device.h: the interface, over the three classes that implement it.
use sys.Base.{ℕ}
use sys.Memory.Ram.{Ram, size as ram_size, read as ram_read, write as ram_write}
use sys.Memory.Rom.{Rom, size as rom_size, read as rom_read, write as rom_write}
use sys.Peripherals.Tty.{Tty, size as tty_size, read as tty_read, write as tty_write}

pub data MemoryDevice : Type 0 where
  ram : Ram → MemoryDevice
  rom : Rom → MemoryDevice
  tty : Tty → MemoryDevice

-- The virtual calls.
unfoldable pub size : MemoryDevice → ℕ
size (ram r) = ram_size r
size (rom r) = rom_size r
size (tty t) = tty_size t

unfoldable pub read : MemoryDevice → ℕ → ℕ × MemoryDevice
read (ram r) offset = (ram_read r offset, ram r)
read (rom r) offset = (rom_read r offset, rom r)
read (tty t) offset = ((tty_read t offset).0, tty (tty_read t offset).1)

unfoldable pub write : MemoryDevice → ℕ → ℕ → MemoryDevice
write (ram r) offset val = ram (ram_write r offset val)
write (rom r) offset val = rom (rom_write r offset val)
write (tty t) offset val = tty (tty_write t offset val)
