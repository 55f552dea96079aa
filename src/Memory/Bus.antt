-- ===== src/Memory/Bus.antt =====
-- src/memory/bus.h and src/memory/bus.cpp: the mappings, and the accesses they route. The bus
-- holds pointers to devices that others own, so a mapping names a device by its place in the
-- store of devices. The logger is output only.
pub mod WellFormed
pub mod Access
pub mod Reach
pub mod RamBytes
use sys.Base.{
  ℕ, ◌+◌, ◌-◌, Bool, true, false, not, ◌&&◌, ◌||◌, Option, none, some, ◌⊎◌, inl, inr, List, [], ◌∷◌,
  ◌++◌, ltb, leb, ◌==◌, if◌then◌else◌, get_or, set, u8, ◌≡◌, refl, arith,
}
use sys.Memory.Device.{MemoryDevice, ram, size, read, write}
use sys.Memory.Interface.{BusAccess, ReadsBytes}
use sys.Memory.Ram.{Ram, new_ram}

pub record Mapping : Type 0 where
  pub start : ℕ
  pub last : ℕ
  pub device : ℕ

-- `m_mappings`, and the devices behind the pointers.
pub record Bus : Type 0 where
  pub mappings : List Mapping
  pub devices : List MemoryDevice

-- The three exceptions of `attach`.
pub data InvalidArgument : Type 0 where
  end_before_start size_mismatch range_overlap : InvalidArgument

-- `devices[at]`; every pointer is to a device.
unfoldable pub device_at : List MemoryDevice → ℕ → MemoryDevice
device_at ds at = get_or ds at (ram (new_ram 0))

unfoldable pub overlaps : ℕ → ℕ → Mapping → Bool
overlaps start last m = leb start m.last && leb m.start last

unfoldable pub any_overlap : ℕ → ℕ → List Mapping → Bool
unfolding overlaps
any_overlap start last [] = false
any_overlap start last (m ∷ ms) = overlaps start last m || any_overlap start last ms

unfoldable pub attach : ℕ → ℕ → ℕ → Bus → InvalidArgument ⊎ Bus
attach start last device bus =
    if ltb last start
    then inl end_before_start
    else if not (last - start + 1 == size (device_at bus.devices device))
    then inl size_mismatch
    else if any_overlap start last bus.mappings
    then inl range_overlap
    else inr (record bus {
      mappings = bus.mappings ++ (record { start = start; last = last; device = device } ∷ []);
    })

unfoldable pub contains : ℕ → Mapping → Bool
contains addr m = leb m.start addr && leb addr m.last

unfoldable pub find_mapping : ℕ → List Mapping → Option Mapping
find_mapping addr [] = none
find_mapping addr (m ∷ ms) =
    let rest = find_mapping addr ms in if contains addr m then some m else rest

-- A device through its pointer, before and after a call.
unfoldable pub device_read : Bus → Mapping → ℕ → ℕ × Bus
device_read bus m addr =
    let answer = read (device_at bus.devices m.device) (addr - m.start) in
    (u8 answer.0, record bus { devices = set bus.devices m.device answer.1 })

unfoldable pub device_write : Bus → Mapping → ℕ → ℕ → Bus
device_write bus m addr val = record bus {
  devices = set bus.devices m.device (write (device_at bus.devices m.device) (addr - m.start) val);
}

unfoldable pub bus_read : Bus → ℕ → ℕ × Bus
bus_read bus addr = elim (find_mapping addr bus.mappings) [
  | none ↦ (0xFF, bus)
  | some m ↦ device_read bus m addr
]

unfoldable pub bus_write : Bus → ℕ → ℕ → Bus
bus_write bus addr val = elim (find_mapping addr bus.mappings) [
  | none ↦ bus
  | some m ↦ device_write bus m addr val
]

-- The bus is what the CPU drives.
instance abbrev pub bus_access : BusAccess Bus
bus_access = record { read = bus_read; write = bus_write }

-- Whatever is mapped, a read is a uint8_t.
pub bus_access-ReadsBytes : ReadsBytes bus_access
unfolding bus_read device_read
bus_access-ReadsBytes m addr = ground arith
