-- ===== src/System/Monitor/Kept.antt =====
-- src/system/system.cpp and src/memory/rom.cpp: no access takes the monitor out of the ROM.
use sys.Base.{
  ℕ, ◌-◌, ◌≤◌, ◌<◌, ◌≡◌, refl, ap, ◌∙◌, arith, Bool-cases, inl, inr, ltb, length, length-set, u8,
}
use sys.Isa.Memory.{IsKept}
use sys.Memory.Bus.{
  Bus, bus_access, bus_read, bus_write, find_mapping, contains, device_read, device_write,
  device_at,
}
use sys.Memory.Device.{read, write}
use sys.Memory.Ram.{Ram, write as ram_write}
use sys.Memory.Rom.{Rom}
use sys.Peripherals.Tty.{Tty, read as tty_read, write as tty_write}
use sys.System.MemoryMap.{wired_over}
use sys.System.Monitor.{HasMonitor}

-- Where an address leads.
data Area (addr : ℕ) : Type 0 where
  in_ram : addr < 0x8000 → Area addr
  in_tty : 0x8000 ≤ addr → addr < 0x8100 → Area addr
  in_rom : 0xC000 ≤ addr → addr < 0x10000 → Area addr
  low_gap : 0x8100 ≤ addr → addr < 0xC000 → Area addr
  high_gap : 0x10000 ≤ addr → Area addr

area : (addr : ℕ) → Area addr
area addr = elim (Bool-cases (ltb addr 0x8000)) [
  | inl a ↦ in_ram (ground (arith, a))
  | inr a ↦ elim (Bool-cases (ltb addr 0x8100)) [
    | inl b ↦ in_tty (ground (arith, a)) (ground (arith, b))
    | inr b ↦ elim (Bool-cases (ltb addr 0xC000)) [
      | inl c ↦ low_gap (ground (arith, b)) (ground (arith, c))
      | inr c ↦ elim (Bool-cases (ltb addr 0x10000)) [
        | inl d ↦ in_rom (ground (arith, c)) (ground (arith, d))
        | inr d ↦ high_gap (ground (arith, d))
      ]
    ]
  ]
]

-- A read can change the TTY at most.
read_wired :
    (r : Ram) (t : Tty) (k : Rom) (addr : ℕ)
    → Area addr
    → (t' : Tty) × ((bus_read (wired_over r t k) addr).1 ≡ wired_over r t' k)
unfolding bus_read find_mapping contains device_read device_at read
read_wired r t k addr (in_ram h) = (t, ground arith)
read_wired r t k addr (in_tty h g) = ((tty_read t (addr - 0x8000)).1, ground arith)
read_wired r t k addr (in_rom h g) = (t, ground arith)
read_wired r t k addr (low_gap h g) = (t, ground arith)
read_wired r t k addr (high_gap h) = (t, ground arith)

-- A write can change the RAM and the TTY at most.
write_wired :
    (r : Ram) (t : Tty) (k : Rom) (addr val : ℕ)
    → Area addr
    → (r' : Ram) × (t' : Tty) × (length r'.bytes ≡ length r.bytes)
      × (bus_write (wired_over r t k) addr val ≡ wired_over r' t' k)
unfolding bus_write find_mapping contains device_write device_at write
write_wired r t k addr val (in_ram h) =
    (ram_write r addr val, t, length-set r.bytes addr (u8 val), ground arith)
write_wired r t k addr val (in_tty h g) = (r, tty_write t (addr - 0x8000) val, refl, ground arith)
write_wired r t k addr val (in_rom h g) = (r, t, refl, ground arith)
write_wired r t k addr val (low_gap h g) = (r, t, refl, ground arith)
write_wired r t k addr val (high_gap h) = (r, t, refl, ground arith)

read-HasMonitor : (bus : Bus) (addr : ℕ) → HasMonitor bus → HasMonitor (bus_read bus addr).1
read-HasMonitor bus addr v =
    let (t', e) = read_wired v.ram v.tty v.rom addr (area addr) in
    record {
      ram = v.ram;
      tty = t';
      rom = v.rom;
      wires = ap (λ (b : Bus). (bus_read b addr).1) v.wires ∙ e;
      held = v.held;
      sized = v.sized;
    }

write-HasMonitor : (bus : Bus) (addr val : ℕ) → HasMonitor bus → HasMonitor (bus_write bus addr val)
write-HasMonitor bus addr val v =
    let (r', t', same, e) = write_wired v.ram v.tty v.rom addr val (area addr) in
    record {
      ram = r';
      tty = t';
      rom = v.rom;
      wires = ap (λ (b : Bus). bus_write b addr val) v.wires ∙ e;
      held = v.held;
      sized = same ∙ v.sized;
    }

pub HasMonitor-IsKept : IsKept bus_access HasMonitor
HasMonitor-IsKept = record { by_read = read-HasMonitor; by_write = write-HasMonitor }
