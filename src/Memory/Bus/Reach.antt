-- ===== src/Memory/Bus/Reach.antt =====
-- src/memory/bus.cpp: the device that `read` and `write` reach, whatever the order of the mappings.
use sys.Base.{
  ℕ, ◌-◌, ◌≤◌, ◌<◌, true, false, none, some, ◌⊎◌, inl, inr, List, [], ◌∷◌, ◌≡◌, refl, ◌∙◌, arith,
  set, u8, Bool-cases,
}
use sys.Memory.Bus.Access.{unmapped_access, routed_read, routed_write}
use sys.Memory.Bus.WellFormed.{AreDisjoint, cons as one_more, IsWellFormed}
use sys.Memory.Bus.{
  Mapping, Bus, device_at, contains, overlaps, any_overlap, find_mapping, device_read, device_write,
  bus_read, bus_write,
}
use sys.Memory.Device.{MemoryDevice, read, write}

abbrev Misses : ℕ → Mapping → Type 0
Misses addr m = (addr < m.start) ⊎ (m.last < addr)

-- The address is in no range of the list.
pub data IsUnmapped (addr : ℕ) : List Mapping → Type 0 where
  nil : IsUnmapped addr []
  cons :
      {m : Mapping} {ms : List Mapping}
      → Misses addr m
      → IsUnmapped addr ms
      → IsUnmapped addr (m ∷ ms)

-- The address is in the range of this mapping of the list, and in no other's.
pub data IsOnlyIn (addr : ℕ) (m : Mapping) : List Mapping → Type 0 where
  here :
      {ms : List Mapping}
      → m.start ≤ addr
      → addr ≤ m.last
      → IsUnmapped addr ms
      → IsOnlyIn addr m (m ∷ ms)
  there :
      {n : Mapping} {ms : List Mapping}
      → Misses addr n
      → IsOnlyIn addr m ms
      → IsOnlyIn addr m (n ∷ ms)

Misses-overlaps :
    (addr start last : ℕ) (m : Mapping)
    → overlaps start last m ≡ false
    → start ≤ addr
    → addr ≤ last
    → Misses addr m
unfolding overlaps
Misses-overlaps addr start last m e p q = ground arith

any_overlap-IsUnmapped :
    (addr start last : ℕ) (ms : List Mapping)
    → any_overlap start last ms ≡ false
    → start ≤ addr
    → addr ≤ last
    → IsUnmapped addr ms
unfolding any_overlap
any_overlap-IsUnmapped addr start last [] e p q = nil
any_overlap-IsUnmapped addr start last (m ∷ ms) e p q =
    cons (Misses-overlaps addr start last m (ground arith) p q)
      (any_overlap-IsUnmapped addr start last ms (ground arith) p q)

contains_lem :
    (addr : ℕ) (m : Mapping) → contains addr m ≡ true → (m.start ≤ addr) × (addr ≤ m.last)
unfolding contains
contains_lem addr m e = (ground arith, ground arith)

Misses-contains : (addr : ℕ) (m : Mapping) → contains addr m ≡ false → Misses addr m
unfolding contains
Misses-contains addr m e = ground arith

locate :
    (ds : List MemoryDevice) (ms : List Mapping) (addr : ℕ)
    → AreDisjoint ds ms
    → (IsUnmapped addr ms × (find_mapping addr ms ≡ none))
      ⊎ ((m : Mapping) × IsOnlyIn addr m ms × (find_mapping addr ms ≡ some m))
unfolding find_mapping
locate ds [] addr d = inl (nil, refl)
locate ds (n ∷ ms) addr (one_more f k d) = elim (Bool-cases (contains addr n)) [
  | inl e ↦
      let (lo, hi) = contains_lem addr n e in
      inr (n, here lo hi (any_overlap-IsUnmapped addr n.start n.last ms k lo hi), ground arith)
  | inr e ↦ elim (locate ds ms addr d) [
    | inl (u, q) ↦ inl (cons (Misses-contains addr n e) u, ground arith)
    | inr (m, o, q) ↦ inr (m, there (Misses-contains addr n e) o, ground arith)
  ]
]

device_accesses :
    (bus : Bus) (m : Mapping) (addr val : ℕ)
    → (device_read bus m addr ≡ (
      u8 (read (device_at bus.devices m.device) (addr - m.start)).0,
      record bus {
        devices =
            set bus.devices m.device (read (device_at bus.devices m.device) (addr - m.start)).1;
      },
    ))
      × (device_write bus m addr val ≡ record bus {
        devices =
            set bus.devices m.device (write (device_at bus.devices m.device) (addr - m.start) val);
      })
unfolding device_read device_write
device_accesses bus m addr val = (refl, refl)

-- On a well-formed bus an address is either in no mapping's range, and then a read gives 0xFF and
-- neither access changes anything; or it is in exactly one's, wherever that stands in the list, and
-- then both accesses are those of its device at the distance from the range's start, and change
-- no other device.
pub access_lem :
    (bus : Bus) (addr val : ℕ)
    → IsWellFormed bus
    → (IsUnmapped addr bus.mappings
        × (bus_read bus addr ≡ (0xFF, bus))
        × (bus_write bus addr val ≡ bus))
      ⊎ ((m : Mapping) × IsOnlyIn addr m bus.mappings
          × (bus_read bus addr ≡ (
            u8 (read (device_at bus.devices m.device) (addr - m.start)).0,
            record bus {
              devices =
                  set bus.devices m.device
                    (read (device_at bus.devices m.device) (addr - m.start)).1;
            },
          ))
          × (bus_write bus addr val ≡ record bus {
            devices =
                set bus.devices m.device
                  (write (device_at bus.devices m.device) (addr - m.start) val);
          }))
access_lem bus addr val v = elim (locate bus.devices bus.mappings addr v) [
  | inl (u, e) ↦ let (r, w) = unmapped_access bus addr val e in inl (u, r, w)
  | inr (m, o, e) ↦
      let (r, w) = device_accesses bus m addr val in
      inr (m, o, routed_read bus addr m e ∙ r, routed_write bus addr val m e ∙ w)
]
