-- ===== src/Utils/ProgramLoader/RamImage.antt =====
-- src/utils/program_loader.cpp and src/memory/ram.cpp: what a RAM holds after `loadProgram`.
use sys.Base.{
  ℕ, zero, suc, ◌+◌, ◌≤◌, ◌<◌, none, List, [], ◌∷◌, ◌≡◌, refl, sym, ◌∙◌, ap, arith, ◌⊎◌, length,
  get_or, set, length-set, get_or-set_self, get_or-set_ne, u8, u16, Option,
}
use sys.Memory.Device.{MemoryDevice, ram, size, read, write}
use sys.Memory.Ram.{Ram}
use sys.Utils.ProgramLoader.Decode.{
  IsListing, nil, pair, digit_bound, write_bytes, load_program-listing,
}
use sys.Utils.ProgramLoader.WhiteSpace.{Spaced}
use sys.Utils.ProgramLoader.{LoadError, load_program}

abbrev IsOutside : ℕ → ℕ → ℕ → Type 0
IsOutside start count place = (place < start) ⊎ (start + count ≤ place)

-- `after` is `before` with the bytes `bs` from `start` on.
record IsSpliced (before after : List ℕ) (start : ℕ) (bs : List ℕ) : Type 0 where
  same_length : length after ≡ length before
  inside : (i : ℕ) → i < length bs → get_or after (start + i) 0 ≡ u8 (get_or bs i 0)
  outside : (j : ℕ) → IsOutside start (length bs) j → get_or after j 0 ≡ get_or before j 0

-- The first byte stays while the others are written behind it, also if the address wraps then.
inside-cons :
    (before after : List ℕ) (start b : ℕ) (bs : List ℕ) (i : ℕ)
    → start + suc (length bs) ≤ length before
    → length before ≤ 0x10000
    → IsSpliced (set before start (u8 b)) after (u16 (start + 1)) bs
    → i < suc (length bs)
    → get_or after (start + i) 0 ≡ u8 (get_or (b ∷ bs) i 0)
inside-cons before after start b bs zero fits small s h =
    ap (λ (place : ℕ). get_or after place 0) (omega arith)
    ∙ s.outside start (omega arith)
    ∙ get_or-set_self before start (u8 b) 0 (omega arith)
inside-cons before after start b bs (suc k) fits small s h =
    ap (λ (place : ℕ). get_or after place 0) (omega arith) ∙ s.inside k (omega arith)

splice-cons :
    (before after : List ℕ) (start b : ℕ) (bs : List ℕ)
    → start + suc (length bs) ≤ length before
    → length before ≤ 0x10000
    → IsSpliced (set before start (u8 b)) after (u16 (start + 1)) bs
    → IsSpliced before after start (b ∷ bs)
splice-cons before after start b bs fits small s = record {
  same_length = s.same_length ∙ length-set before start (u8 b);
  inside = λ i h. inside-cons before after start b bs i fits small s h;
  outside =
      λ j away. s.outside j (omega arith) ∙ get_or-set_ne before start j (u8 b) 0 (omega arith);
}

write_bytes-ram :
    (bs : List ℕ) (r : Ram) (start : ℕ)
    → start + length bs ≤ length r.bytes
    → length r.bytes ≤ 0x10000
    → (r' : Ram) × (write_bytes write (ram r) start bs ≡ ram r')
      × IsSpliced r.bytes r'.bytes start bs
unfolding write_bytes write
write_bytes-ram [] r start fits small = (
  r,
  refl,
  record { same_length = refl; inside = λ i h. absurd (omega arith); outside = λ j h. refl },
)
write_bytes-ram (b ∷ bs) r start fits small =
    let first : Ram = record { bytes = set r.bytes start (u8 b) } in
    let kept = length-set r.bytes start (u8 b) in
    let (r', e, s) =
      write_bytes-ram bs first (u16 (start + 1)) (omega (arith, kept)) (omega (arith, kept)) in
    (r', e, splice-cons r.bytes r'.bytes start b bs fits small s)

listed_byte :
    {digits bytes : List ℕ} (i : ℕ)
    → IsListing digits bytes
    → u8 (get_or bytes i 0) ≡ get_or bytes i 0
listed_byte i nil = refl
listed_byte zero (pair {hi} {lo} {h} {l} p q k) =
    omega (arith, digit_bound hi h p, digit_bound lo l q)
listed_byte (suc i) (pair p q k) = listed_byte i k

read-ram : (r : Ram) (offset : ℕ) → (read (ram r) offset).0 ≡ u8 (get_or r.bytes offset 0)
unfolding read
read-ram r offset = refl

-- If a text is a hex listing of bytes, with white space anywhere, and they fit into a RAM of at most
-- 64 KB from the start address on, `loadProgram` throws nothing. A read of the RAM then gives byte
-- number i at the start address plus i, and anywhere else what it gave before.
pub load_program-ram :
    (r : Ram) (start_address : ℕ) (hex digits bytes : List ℕ)
    → Spaced hex digits
    → IsListing digits bytes
    → start_address + length bytes ≤ size (ram r)
    → size (ram r) ≤ 0x10000
    → ((load_program (ram r) start_address hex).0 ≡ none)
      × ((i : ℕ)
          → i < length bytes
          → (read (load_program (ram r) start_address hex).1 (start_address + i)).0
            ≡ get_or bytes i 0)
      × ((j : ℕ)
          → (j < start_address) ⊎ (start_address + length bytes ≤ j)
          → (read (load_program (ram r) start_address hex).1 j).0 ≡ (read (ram r) j).0)
unfolding size
load_program-ram r start hex digits bytes s k fits small =
    let (r', e, spliced) = write_bytes-ram bytes r start fits small in
    let loaded : load_program (ram r) start hex ≡ (none, ram r') =
      load_program-listing (ram r) start hex digits bytes s k
      ∙ ap (λ (d : MemoryDevice). (none, d)) e in
    let at_place = λ (j : ℕ).
      ap (λ (t : Option LoadError × MemoryDevice). (read t.1 j).0) loaded ∙ read-ram r' j in
    (
      ap (λ (t : Option LoadError × MemoryDevice). t.0) loaded,
      λ i h. at_place (start + i) ∙ ap u8 (spliced.inside i h) ∙ omega (arith, listed_byte i k),
      λ j away. at_place j ∙ ap u8 (spliced.outside j away) ∙ sym (read-ram r j),
    )
