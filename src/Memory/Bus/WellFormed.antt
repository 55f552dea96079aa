-- ===== src/Memory/Bus/WellFormed.antt =====
-- src/memory/bus.cpp: what the three checks of `attach` are for.
use sys.Base.{
  ◌≢◌, ◌↔◌, subst, ℕ, ◌+◌, ◌-◌, ◌≤◌, true, false, none, inl, inr, List, [], ◌∷◌, ◌++◌, ◌≡◌, refl,
  sym, arith, leb, Bool-cases,
}
use sys.Memory.Bus.{Mapping, Bus, device_at, overlaps, any_overlap, attach, contains, find_mapping}
use sys.Memory.Device.{MemoryDevice, size}

-- A range over a whole device.
pub record Fits (ds : List MemoryDevice) (m : Mapping) : Type 0 where
  pub in_order : m.start ≤ m.last
  pub whole : m.last - m.start + 1 ≡ size (device_at ds m.device)

-- Ranges that fit their devices and are disjoint.
pub data AreDisjoint (ds : List MemoryDevice) : List Mapping → Type 0 where
  nil : AreDisjoint ds []
  cons :
      {m : Mapping} {ms : List Mapping}
      → Fits ds m
      → any_overlap m.start m.last ms ≡ false
      → AreDisjoint ds ms
      → AreDisjoint ds (m ∷ ms)

abbrev pub IsWellFormed : Bus → Type 0
IsWellFormed bus = AreDisjoint bus.devices bus.mappings

overlap-snoc :
    (a b : ℕ) (m : Mapping) (ms : List Mapping)
    → any_overlap a b ms ≡ false
    → overlaps a b m ≡ false
    → any_overlap a b (ms ++ (m ∷ [])) ≡ false
unfolding any_overlap
overlap-snoc a b m [] h k = ground arith
overlap-snoc a b m (n ∷ ms) h k = ground (arith, overlap-snoc a b m ms)

overlaps_comm : (m n : Mapping) → overlaps m.start m.last n ≡ overlaps n.start n.last m
unfolding overlaps
overlaps_comm m n = ground arith

snoc-AreDisjoint :
    (ds : List MemoryDevice) (m : Mapping) (ms : List Mapping)
    → Fits ds m
    → any_overlap m.start m.last ms ≡ false
    → AreDisjoint ds ms
    → AreDisjoint ds (ms ++ (m ∷ []))
unfolding any_overlap
snoc-AreDisjoint ds m [] f h d = cons f h nil
snoc-AreDisjoint ds m (n ∷ ms) f h (cons g k d) =
    cons g (overlap-snoc n.start n.last m ms k (ground (arith, overlaps_comm m n)))
      (snoc-AreDisjoint ds m ms f (ground arith) d)

abbrev added : ℕ → ℕ → ℕ → Bus → Bus
added start last device bus = record bus {
  mappings = bus.mappings ++ (record { start = start; last = last; device = device } ∷ []);
}

-- No exception means that none of the conditions for one held.
attach_inverse :
    (start last device : ℕ) (bus bus' : Bus)
    → attach start last device bus ≡ inr bus'
    → (start ≤ last)
      × (last - start + 1 ≡ size (device_at bus.devices device))
      × (any_overlap start last bus.mappings ≡ false)
      × (bus' ≡ added start last device bus)
unfolding attach
attach_inverse start last device bus bus' e = ground arith

-- If `attach` succeeds on a bus whose ranges fit their devices and are disjoint, they still do and
-- are.
pub attach-IsWellFormed :
    (start last device : ℕ) (bus bus' : Bus)
    → IsWellFormed bus
    → attach start last device bus ≡ inr bus'
    → IsWellFormed bus'
unfolding attach
attach-IsWellFormed start last device bus bus' v e =
    let (p, q, r, same) = attach_inverse start last device bus bus' e in
    subst IsWellFormed (sym same) (
      snoc-AreDisjoint bus.devices (record { start = start; last = last; device = device })
        bus.mappings (record { in_order = p; whole = q }) r v)

missed :
    (start last addr : ℕ) (m : Mapping)
    → overlaps start last m ≡ false
    → start ≤ addr
    → addr ≤ last
    → contains addr m ≡ false
unfolding overlaps contains
missed start last addr m h p q = ground arith

unmapped :
    (start last addr : ℕ) (ms : List Mapping)
    → any_overlap start last ms ≡ false
    → start ≤ addr
    → addr ≤ last
    → find_mapping addr ms ≡ none
unfolding any_overlap find_mapping
unmapped start last addr [] h p q = refl
unmapped start last addr (m ∷ ms) h p q =
    ground (arith, missed start last addr m, unmapped start last addr ms)

-- An address that both ranges have: the larger of the two starts.
shared :
    (start last : ℕ) (m : Mapping)
    → overlaps start last m ≡ true
    → start ≤ last
    → m.start ≤ m.last
    → (addr : ℕ) × (start ≤ addr) × (addr ≤ last) × (contains addr m ≡ true)
unfolding overlaps contains
shared start last m h p q = elim (Bool-cases (leb start m.start)) [
  | inl e ↦ (m.start, ground arith, ground arith, ground arith)
  | inr e ↦ (start, ground arith, ground arith, ground arith)
]

-- The address that an overlap gives is mapped.
taken :
    (ds : List MemoryDevice) (start last : ℕ) (ms : List Mapping)
    → AreDisjoint ds ms
    → any_overlap start last ms ≡ true
    → start ≤ last
    → (addr : ℕ) × (start ≤ addr) × (addr ≤ last) × (find_mapping addr ms ≢ none)
unfolding any_overlap find_mapping
taken ds start last [] d h p = absurd (cc)
taken ds start last (m ∷ ms) (cons f k d) h p = elim (Bool-cases (overlaps start last m)) [
  | inl e ↦
      let (addr, lo, hi, inside) = shared start last m e p f.in_order in
      (addr, lo, hi, λ q. ground arith)
  | inr e ↦
      let (addr, lo, hi, found) = taken ds start last ms d (ground arith) p in
      (addr, lo, hi, λ q. found (ground arith))
]

-- Every address of the range is still unmapped.
abbrev pub IsFree : ℕ → ℕ → Bus → Type 0
IsFree start last bus =
    (addr : ℕ) → start ≤ addr → addr ≤ last → find_mapping addr bus.mappings ≡ none

accepts :
    (start last device : ℕ) (bus : Bus)
    → start ≤ last
    → last - start + 1 ≡ size (device_at bus.devices device)
    → any_overlap start last bus.mappings ≡ false
    → attach start last device bus ≡ inr (added start last device bus)
unfolding attach
accepts start last device bus p q r = ground arith

free_no_overlap :
    (start last : ℕ) (bus : Bus)
    → IsWellFormed bus
    → start ≤ last
    → IsFree start last bus
    → any_overlap start last bus.mappings ≡ false
free_no_overlap start last bus v p free = elim (Bool-cases (any_overlap start last bus.mappings)) [
  | inl e ↦
      let (addr, lo, hi, found) = taken bus.devices start last bus.mappings v e p in
      absurd (found (free addr lo hi))
  | inr e ↦ e
]

-- On a well-formed bus, `attach` succeeds if and only if the range is in order, is as large as the
-- device, and has no address that is mapped already.
pub attach_iff :
    (start last device : ℕ) (bus : Bus)
    → IsWellFormed bus
    → ((bus' : Bus) × (attach start last device bus ≡ inr bus')) ↔ (
        (start ≤ last)
        × (last - start + 1 ≡ size (device_at bus.devices device))
        × IsFree start last bus)
attach_iff start last device bus v = (
  λ (bus', e).
      let (p, q, r, _) = attach_inverse start last device bus bus' e in
      (p, q, λ addr lo hi. unmapped start last addr bus.mappings r lo hi),
  λ (p, q, free). (
    added start last device bus,
    accepts start last device bus p q (free_no_overlap start last bus v p free),
  ),
)
