-- ===== src/Memory/Bus/Access.antt =====
-- src/memory/bus.cpp: `read` and `write` through the mappings.
use sys.Base.{
  zero, suc, ◌⊎◌, ℕ, ◌-◌, ◌≤◌, ◌<◌, ◌≢◌, Option, none, some, List, [], ◌∷◌, ◌≡◌, refl, sym, ◌∙◌, ap,
  subst, arith, set, length, u8, IsByte, inl, inr, length-set, get_or-set_self, get_or-set_ne,
}
use sys.Memory.Bus.{
  Mapping, Bus, device_at, contains, find_mapping, device_read, device_write, bus_read, bus_write,
}
use sys.Memory.Bus.WellFormed.{AreDisjoint, nil, cons, IsWellFormed}
use sys.Memory.Device.{MemoryDevice, ram, rom, tty, size, read, write}
use sys.Memory.Ram.{Ram}

-- No access changes the size of a device.
size-read : (d : MemoryDevice) (offset : ℕ) → size (read d offset).1 ≡ size d
unfolding read size
size-read (ram r) offset = refl
size-read (rom r) offset = refl
size-read (tty t) offset = refl

size-write : (d : MemoryDevice) (offset val : ℕ) → size (write d offset val) ≡ size d
unfolding write size
size-write (ram r) offset val = length-set r.bytes offset (u8 val)
size-write (rom r) offset val = refl
size-write (tty t) offset val = refl

-- A device replaced by one of its size.
size-set :
    (ds : List MemoryDevice) (i j : ℕ) (d : MemoryDevice)
    → size d ≡ size (device_at ds i)
    → size (device_at (set ds i d) j) ≡ size (device_at ds j)
unfolding device_at
size-set [] i j d h = refl
size-set (x ∷ ds) zero zero d h = h
size-set (x ∷ ds) zero (suc j) d h = refl
size-set (x ∷ ds) (suc i) zero d h = refl
size-set (x ∷ ds) (suc i) (suc j) d h = size-set ds i j d h

set-AreDisjoint :
    (ds : List MemoryDevice) (i : ℕ) (d : MemoryDevice) (ms : List Mapping)
    → size d ≡ size (device_at ds i)
    → AreDisjoint ds ms
    → AreDisjoint (set ds i d) ms
set-AreDisjoint ds i d [] h nil = nil
set-AreDisjoint ds i d (m ∷ ms) h (cons f k v) =
    cons (record { in_order = f.in_order; whole = f.whole ∙ sym (size-set ds i m.device d h) }) k
      (set-AreDisjoint ds i d ms h v)

pub find-cases : (r : Option Mapping) → (r ≡ none) ⊎ ((m : Mapping) × (r ≡ some m))
find-cases none = inl refl
find-cases (some m) = inr (m, refl)

pub routed_read :
    (bus : Bus) (addr : ℕ) (m : Mapping)
    → find_mapping addr bus.mappings ≡ some m
    → bus_read bus addr ≡ device_read bus m addr
unfolding bus_read
routed_read bus addr m e = ground arith

pub routed_write :
    (bus : Bus) (addr val : ℕ) (m : Mapping)
    → find_mapping addr bus.mappings ≡ some m
    → bus_write bus addr val ≡ device_write bus m addr val
unfolding bus_write
routed_write bus addr val m e = ground arith

pub unmapped_access :
    (bus : Bus) (addr val : ℕ)
    → find_mapping addr bus.mappings ≡ none
    → (bus_read bus addr ≡ (0xFF, bus)) × (bus_write bus addr val ≡ bus)
unfolding bus_read bus_write
unmapped_access bus addr val e = ground arith

device_access :
    (bus : Bus) (m : Mapping) (addr val : ℕ)
    → IsWellFormed bus
    → IsWellFormed (device_read bus m addr).1 × IsWellFormed (device_write bus m addr val)
unfolding device_read device_write
device_access bus m addr val v =
    let d = device_at bus.devices m.device in
    (
      set-AreDisjoint bus.devices m.device (read d (addr - m.start)).1 bus.mappings
          (size-read d (addr - m.start)) v,
      set-AreDisjoint bus.devices m.device (write d (addr - m.start) val) bus.mappings
          (size-write d (addr - m.start) val) v,
    )

-- A well-formed bus is well-formed after any read and after any write.
pub access-IsWellFormed :
    (bus : Bus) (addr val : ℕ)
    → IsWellFormed bus
    → IsWellFormed (bus_read bus addr).1 × IsWellFormed (bus_write bus addr val)
access-IsWellFormed bus addr val v = elim (find-cases (find_mapping addr bus.mappings)) [
  | inl e ↦
      let (r, w) = unmapped_access bus addr val e in
      (subst IsWellFormed (sym (ap (λ (t : ℕ × Bus). t.1) r)) v, subst IsWellFormed (sym w) v)
  | inr (m, e) ↦
      let (r, w) = device_access bus m addr val v in
      (
        subst (λ (t : ℕ × Bus). IsWellFormed t.1) (sym (routed_read bus addr m e)) r,
        subst IsWellFormed (sym (routed_write bus addr val m e)) w,
      )
]

-- With disjoint ranges that fit their devices, the mapping that is found for an address contains
-- it, and the offset that the device is given is inside the device.
pub find_mapping-in_bounds :
    (ds : List MemoryDevice) (ms : List Mapping) (addr : ℕ) (m : Mapping)
    → AreDisjoint ds ms
    → find_mapping addr ms ≡ some m
    → (m.start ≤ addr) × (addr ≤ m.last) × (addr - m.start < size (device_at ds m.device))
unfolding find_mapping contains
find_mapping-in_bounds ds [] addr m d e = absurd (cc)
find_mapping-in_bounds ds (n ∷ ms) addr m (cons f k d) e =
    ground (arith, find_mapping-in_bounds ds ms addr m, f.whole, f.in_order)

pub device_at-set_self :
    (ds : List MemoryDevice) (i : ℕ) (d : MemoryDevice)
    → i < length ds
    → device_at (set ds i d) i ≡ d
unfolding device_at
device_at-set_self ds i d h = get_or-set_self ds i d _ h

device_at-set_ne :
    (ds : List MemoryDevice) (i j : ℕ) (d : MemoryDevice)
    → i ≢ j
    → device_at (set ds i d) j ≡ device_at ds j
unfolding device_at
device_at-set_ne ds i j d h = get_or-set_ne ds i j d _ h

-- A device that holds a byte is there.
pub device_there : (ds : List MemoryDevice) (i : ℕ) → 0 < size (device_at ds i) → i < length ds
unfolding device_at size
device_there [] i h = absurd (omega arith)
device_there (d ∷ ds) zero h = omega arith
device_there (d ∷ ds) (suc i) h = omega (arith, device_there ds i h)

ram_read-ram_write :
    (d : MemoryDevice) (offset val : ℕ) (r : Ram)
    → d ≡ ram r
    → offset < size d
    → IsByte val
    → u8 (read (write d offset val) offset).0 ≡ val
unfolding read write size
ram_read-ram_write d offset val r e h b =
    let inside = subst (λ (u : MemoryDevice). offset < size u) e h in
    ap (λ (u : MemoryDevice). u8 (read (write u offset val) offset).0) e
    ∙ omega (arith, get_or-set_self r.bytes offset (u8 val) 0 inside)

-- On a well-formed bus, a byte written at an address that is mapped to a RAM is what a read of the
-- same address then gives.
pub bus_read-bus_write :
    (bus : Bus) (addr val : ℕ) (m : Mapping) (r : Ram)
    → IsWellFormed bus
    → find_mapping addr bus.mappings ≡ some m
    → device_at bus.devices m.device ≡ ram r
    → IsByte val
    → (bus_read (bus_write bus addr val) addr).0 ≡ val
unfolding device_read device_write
bus_read-bus_write bus addr val m r v e q b =
    let (_, _, inside) = find_mapping-in_bounds bus.devices bus.mappings addr m v e in
    let there = device_there bus.devices m.device (omega (arith, inside)) in
    let d = device_at bus.devices m.device in
    let written = write d (addr - m.start) val in
    ap (λ (w : Bus). (bus_read w addr).0) (routed_write bus addr val m e)
    ∙ ap (λ (t : ℕ × Bus). t.0) (routed_read (device_write bus m addr val) addr m e)
    ∙ ap (λ (u : MemoryDevice). u8 (read u (addr - m.start)).0)
        (device_at-set_self bus.devices m.device written there)
    ∙ ram_read-ram_write d (addr - m.start) val r q inside b

-- A write at a mapped address leaves as it was what a read gives at an address that is mapped to
-- another device.
pub bus_read-bus_write_ne :
    (bus : Bus) (addr other val : ℕ) (m n : Mapping)
    → find_mapping addr bus.mappings ≡ some m
    → find_mapping other bus.mappings ≡ some n
    → m.device ≢ n.device
    → (bus_read (bus_write bus addr val) other).0 ≡ (bus_read bus other).0
unfolding device_read device_write
bus_read-bus_write_ne bus addr other val m n e f ne =
    let d = device_at bus.devices m.device in
    ap (λ (w : Bus). (bus_read w other).0) (routed_write bus addr val m e)
    ∙ ap (λ (t : ℕ × Bus). t.0) (routed_read (device_write bus m addr val) other n f)
    ∙ ap (λ (u : MemoryDevice). u8 (read u (other - n.start)).0)
        (device_at-set_ne bus.devices m.device n.device (write d (addr - m.start) val) ne)
    ∙ sym (ap (λ (t : ℕ × Bus). t.0) (routed_read bus other n f))
