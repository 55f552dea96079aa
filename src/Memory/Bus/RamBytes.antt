-- ===== src/Memory/Bus/RamBytes.antt =====
-- src/memory/bus.cpp: addresses that lead to a RAM keep their bytes under all other accesses.
use sys.Base.{
  zero, suc, [], ◌∷◌, ℕ, ◌-◌, ◌≡◌, inl, inr, refl, sym, ◌∙◌, ap, arith, some, List, set, u8, IsByte,
}
use sys.Memory.Bus.{
  Mapping, Bus, device_at, find_mapping, device_read, device_write, bus_read, bus_write,
}
use sys.Memory.Bus.WellFormed.{IsWellFormed}
use sys.Memory.Bus.Access.{
  routed_write, device_at-set_self, device_there, unmapped_access, routed_read, find-cases,
  access-IsWellFormed, find_mapping-in_bounds, bus_read-bus_write,
}
use sys.Memory.Device.{MemoryDevice, ram, read, write}
use sys.Memory.Ram.{Ram, write as ram_write}

-- The address leads to a RAM.
pub record IsRamAt (bus : Bus) (addr : ℕ) : Type 0 where
  pub well_formed : IsWellFormed bus
  pub mapping : Mapping
  pub found : find_mapping addr bus.mappings ≡ some mapping
  pub contents : Ram
  pub is_ram : device_at bus.devices mapping.device ≡ ram contents

abbrev pub byte_at : Bus → ℕ → ℕ
byte_at bus addr = (bus_read bus addr).0

pub byte_at-write :
    (bus : Bus) (addr val : ℕ)
    → IsRamAt bus addr
    → IsByte val
    → byte_at (bus_write bus addr val) addr ≡ val
byte_at-write bus addr val v b =
    bus_read-bus_write bus addr val v.mapping v.contents v.well_formed v.found v.is_ram b

-- A RAM in the store stays if the device that changes is another or becomes this RAM again.
ram_kept :
    (ds : List MemoryDevice) (i j : ℕ) (d : MemoryDevice) (r : Ram)
    → device_at ds i ≡ ram r
    → (j ≡ i → d ≡ ram r)
    → device_at (set ds j d) i ≡ ram r
unfolding device_at
ram_kept [] i j d r e k = e
ram_kept (x ∷ ds) zero zero d r e k = k refl
ram_kept (x ∷ ds) zero (suc j) d r e k = e
ram_kept (x ∷ ds) (suc i) zero d r e k = e
ram_kept (x ∷ ds) (suc i) (suc j) d r e k = ram_kept ds i j d r e (λ q. k (ap suc q))

device_read_kept :
    (bus : Bus) (n : Mapping) (x i : ℕ) (r : Ram)
    → device_at bus.devices i ≡ ram r
    → device_at (device_read bus n x).1.devices i ≡ ram r
unfolding device_read
device_read_kept bus n x i r e =
    ram_kept bus.devices i n.device (read (device_at bus.devices n.device) (x - n.start)).1 r e λ q.
      ap (λ (k : ℕ). (read (device_at bus.devices k) (x - n.start)).1) q
      ∙ ap (λ (d : MemoryDevice). (read d (x - n.start)).1) e
      ∙ (unfold read in refl)

-- A read changes neither the ranges nor a RAM.
bus_read_kept :
    (bus : Bus) (x i : ℕ) (r : Ram)
    → device_at bus.devices i ≡ ram r
    → ((bus_read bus x).1.mappings ≡ bus.mappings)
      × (device_at (bus_read bus x).1.devices i ≡ ram r)
bus_read_kept bus x i r e = elim (find-cases (find_mapping x bus.mappings)) [
  | inl none_there ↦
      let same : (bus_read bus x).1 ≡ bus =
        ap (λ (t : ℕ × Bus). t.1) (unmapped_access bus x 0 none_there).0 in
      (ap (λ (b : Bus). b.mappings) same, ap (λ (b : Bus). device_at b.devices i) same ∙ e)
  | inr (n, there) ↦
      let same : (bus_read bus x).1 ≡ (device_read bus n x).1 =
        ap (λ (t : ℕ × Bus). t.1) (routed_read bus x n there) in
      (
        ap (λ (b : Bus). b.mappings) same ∙ (unfold device_read in refl),
        ap (λ (b : Bus). device_at b.devices i) same ∙ device_read_kept bus n x i r e,
      )
]

-- After a read anywhere the address leads to the same RAM.
pub read-IsRamAt : (bus : Bus) (x addr : ℕ) → IsRamAt bus addr → IsRamAt (bus_read bus x).1 addr
read-IsRamAt bus x addr v =
    let (ranges, kept) = bus_read_kept bus x v.mapping.device v.contents v.is_ram in
    record {
      well_formed = (access-IsWellFormed bus x 0 v.well_formed).0;
      mapping = v.mapping;
      found = ap (find_mapping addr) ranges ∙ v.found;
      contents = v.contents;
      is_ram = kept;
    }

byte_of_ram :
    (bus : Bus) (addr : ℕ) (m : Mapping) (r : Ram)
    → find_mapping addr bus.mappings ≡ some m
    → device_at bus.devices m.device ≡ ram r
    → byte_at bus addr ≡ u8 (read (ram r) (addr - m.start)).0
byte_of_ram bus addr m r f e =
    ap (λ (t : ℕ × Bus). t.0) (routed_read bus addr m f)
    ∙ (unfold device_read in ap (λ (d : MemoryDevice). u8 (read d (addr - m.start)).0) e)

-- A read anywhere, which may change other devices, leaves as it was what is read at an address
-- that leads to a RAM.
pub byte_at-read :
    (bus : Bus) (x addr : ℕ) → IsRamAt bus addr → byte_at (bus_read bus x).1 addr ≡ byte_at bus addr
byte_at-read bus x addr v =
    let (ranges, kept) = bus_read_kept bus x v.mapping.device v.contents v.is_ram in
    byte_of_ram (bus_read bus x).1 addr v.mapping v.contents
      (ap (find_mapping addr) ranges ∙ v.found) kept
    ∙ sym (byte_of_ram bus addr v.mapping v.contents v.found v.is_ram)

-- After a write at the address it still leads to a RAM.
pub write-IsRamAt :
    (bus : Bus) (addr val : ℕ) → IsRamAt bus addr → IsRamAt (bus_write bus addr val) addr
unfolding device_write write
write-IsRamAt bus addr val v =
    let m = v.mapping in
    let (_, _, inside) =
      find_mapping-in_bounds bus.devices bus.mappings addr m v.well_formed v.found in
    let there = device_there bus.devices m.device (omega (arith, inside)) in
    let same = routed_write bus addr val m v.found in
    record {
      well_formed = (access-IsWellFormed bus addr val v.well_formed).1;
      mapping = m;
      found = ap (λ (b : Bus). find_mapping addr b.mappings) same ∙ v.found;
      contents = ram_write v.contents (addr - m.start) val;
      is_ram =
          ap (λ (b : Bus). device_at b.devices m.device) same
          ∙ device_at-set_self bus.devices m.device
              (write (device_at bus.devices m.device) (addr - m.start) val) there
          ∙ ap (λ (d : MemoryDevice). write d (addr - m.start) val) v.is_ram;
    }
