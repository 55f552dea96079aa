-- ===== src/System/Firmware/Layout.antt =====
-- src/system/monitor_firmware.cpp: what the calls of `install` leave in the ROM.
use sys.Base.{
  subst, ℕ, zero, suc, ◌+◌, ◌≤◌, ◌<◌, ◌≡◌, ◌⊎◌, refl, sym, ◌∙◌, ap, arith, Bool, true, ◌&&◌, ◌||◌,
  leb, leb_iff, Option, none, List, [], ◌∷◌, length, get_or,
}
use sys.Memory.Rom.{Rom, load}
use sys.System.Firmware.Image.{and_parts, bytes_of, is_listing, offset, load_routine_lem}
use sys.System.Firmware.Holding.{Holds, length-write_bytes, outside, written_Holds, kept_Holds}
use sys.System.Firmware.Text.{Hex}
use sys.System.Firmware.{rom_base, rom_size, load_routine, load_all, install, routines}
use sys.Utils.ProgramLoader.Decode.{write_bytes}
use sys.Utils.ProgramLoader.{LoadError, strip, is_space, byte_of, hex_digit_value}

-- The ROM after all routines.
unfoldable written : Rom → List (ℕ × Hex) → Rom
written rom [] = rom
written rom ((bus_addr, text) ∷ rest) =
    written (write_bytes load rom (offset bus_addr) (bytes_of text)) rest

either_side : (a b c d : ℕ) → (leb a b || leb c d) ≡ true → (a ≤ b) ⊎ (c ≤ d)
either_side a b c d e = ground (arith, leb_iff a b, leb_iff c d)

beside : (k a b : ℕ) → (k + 1 ≤ a) ⊎ (b ≤ k) → (k < a) ⊎ (b ≤ k)
beside k a b e = ground arith

-- Each routine is a hex listing that ends inside the ROM.
unfoldable sound : ℕ → Hex → Bool
sound bus_addr text = is_listing text && leb (offset bus_addr + length (bytes_of text)) rom_size

-- A range touches none of the routines.
unfoldable pub apart : ℕ → ℕ → List (ℕ × Hex) → Bool
apart at size [] = true
apart at size ((bus_addr, text) ∷ rest) =
    (leb (at + size) (offset bus_addr) || leb (offset bus_addr + length (bytes_of text)) at)
    && apart at size rest

unfoldable laid_out : List (ℕ × Hex) → Bool
laid_out [] = true
laid_out ((bus_addr, text) ∷ rest) =
    sound bus_addr text && (apart (offset bus_addr) (length (bytes_of text)) rest && laid_out rest)

-- Every routine of the list stands at its place.
unfoldable pub AllHold : Rom → List (ℕ × Hex) → Type 0
AllHold rom [] = Unit
AllHold rom ((bus_addr, text) ∷ rest) =
    Holds rom.bytes (offset bus_addr) (bytes_of text) × AllHold rom rest

load_next :
    (rom rom' : Rom) (bus_addr : ℕ) (text : Hex) (rest : List (ℕ × Hex))
    → load_routine rom bus_addr text ≡ (none, rom')
    → load_all rom ((bus_addr, text) ∷ rest) ≡ load_all rom' rest
unfolding load_all
load_next rom rom' bus_addr text rest e = ground arith

all_listings :
    (rs : List (ℕ × Hex)) (rom : Rom)
    → laid_out rs ≡ true
    → load_all rom rs ≡ (none, written rom rs)
unfolding load_all written laid_out sound
all_listings [] rom e = refl
all_listings ((bus_addr, text) ∷ rest) rom e =
    let (here, there) = and_parts _ _ e in
    let (listing, _) = and_parts _ _ here in
    let (_, later) = and_parts _ _ there in
    load_next rom _ bus_addr text rest (load_routine_lem rom bus_addr text listing)
    ∙ all_listings rest (write_bytes load rom (offset bus_addr) (bytes_of text)) later

kept_all :
    (rs : List (ℕ × Hex)) (rom : Rom) (at : ℕ) (bs : List ℕ)
    → laid_out rs ≡ true
    → apart at (length bs) rs ≡ true
    → Holds rom.bytes at bs
    → Holds (written rom rs).bytes at bs
unfolding written laid_out sound apart
kept_all [] rom at bs e away h = h
kept_all ((bus_addr, text) ∷ rest) rom at bs e away h =
    let (here, there) = and_parts _ _ e in
    let (_, bound) = and_parts _ _ here in
    let (_, later) = and_parts _ _ there in
    let (first, others) = and_parts _ _ away in
    let fits = (leb_iff (offset bus_addr + length (bytes_of text)) rom_size).0 bound in
    kept_all rest (write_bytes load rom (offset bus_addr) (bytes_of text)) at bs later others
      (kept_Holds bs (bytes_of text) rom (offset bus_addr) at fits (either_side _ _ _ _ first) h)

written-AllHold :
    (rs : List (ℕ × Hex)) (rom : Rom)
    → laid_out rs ≡ true
    → length rom.bytes ≡ rom_size
    → AllHold (written rom rs) rs
unfolding written laid_out sound AllHold
written-AllHold [] rom e whole = tt
written-AllHold ((bus_addr, text) ∷ rest) rom e whole =
    let (here, there) = and_parts _ _ e in
    let (_, bound) = and_parts _ _ here in
    let (first, later) = and_parts _ _ there in
    let fits = (leb_iff (offset bus_addr + length (bytes_of text)) rom_size).0 bound in
    let rom' = write_bytes load rom (offset bus_addr) (bytes_of text) in
    (
      kept_all rest rom' (offset bus_addr) (bytes_of text) later first
          (written_Holds (bytes_of text) rom (offset bus_addr) fits whole),
      written-AllHold rest rom' later
          (length-write_bytes (bytes_of text) rom (offset bus_addr) ∙ whole),
    )

-- An offset that no routine covers.
pub free_offset : apart 0x3000 1 routines ≡ true
unfolding apart bytes_of strip is_space byte_of hex_digit_value
free_offset = refl

monitor_layout : laid_out routines ≡ true
unfolding laid_out sound apart is_listing bytes_of strip is_space byte_of hex_digit_value
monitor_layout = refl

length-written :
    (rs : List (ℕ × Hex)) (rom : Rom) → length (written rom rs).bytes ≡ length rom.bytes
unfolding written
length-written [] rom = refl
length-written ((bus_addr, text) ∷ rest) rom =
    length-written rest (write_bytes load rom (offset bus_addr) (bytes_of text))
    ∙ length-write_bytes (bytes_of text) rom (offset bus_addr)

untouched :
    (rs : List (ℕ × Hex)) (rom : Rom) (k : ℕ)
    → laid_out rs ≡ true
    → apart k 1 rs ≡ true
    → get_or (written rom rs).bytes k 0 ≡ get_or rom.bytes k 0
unfolding written laid_out sound apart
untouched [] rom k e away = refl
untouched ((bus_addr, text) ∷ rest) rom k e away =
    let (here, there) = and_parts _ _ e in
    let (_, bound) = and_parts _ _ here in
    let (_, later) = and_parts _ _ there in
    let (first, others) = and_parts _ _ away in
    let fits = (leb_iff (offset bus_addr + length (bytes_of text)) rom_size).0 bound in
    let at = offset bus_addr in
    let size = length (bytes_of text) in
    let side : (k + 1 ≤ at) ⊎ (at + size ≤ k) = either_side (k + 1) at (at + size) k first in
    untouched rest (write_bytes load rom (offset bus_addr) (bytes_of text)) k later others
    ∙ outside (bytes_of text) rom (offset bus_addr) k fits (beside _ _ _ side)

-- On a ROM of 16 KB `install` throws no exception. Afterwards each routine and each vector stands
-- at its address, byte for byte: no call overwrites what another wrote. The byte at an offset that
-- lies outside all of them is the one that the ROM had before.
pub install-AllHold :
    (rom : Rom) (k : ℕ)
    → length rom.bytes ≡ rom_size
    → apart k 1 routines ≡ true
    → ((install rom).0 ≡ none)
      × AllHold (install rom).1 routines
      × (get_or (install rom).1.bytes k 0 ≡ get_or rom.bytes k 0)
unfolding install
install-AllHold rom k whole away =
    let done = all_listings routines rom monitor_layout in
    (
      ap (λ (r : Option LoadError × Rom). r.0) done,
      subst (λ (r : Rom). AllHold r routines) (sym (ap (λ (r : Option LoadError × Rom). r.1) done))
          (written-AllHold routines rom monitor_layout whole),
      ap (λ (r : Option LoadError × Rom). get_or r.1.bytes k 0) done
          ∙ untouched routines rom k monitor_layout away,
    )

pub length-install : (rom : Rom) → length (install rom).1.bytes ≡ length rom.bytes
unfolding install
length-install rom =
    ap (λ (r : Option LoadError × Rom). length r.1.bytes) (all_listings routines rom monitor_layout)
    ∙ length-written routines rom

-- The entry at a place of the list.
abbrev pub entry : List (ℕ × Hex) → ℕ → ℕ × Hex
entry rs n = get_or rs n (rom_base, [])

pub entry_held :
    (rs : List (ℕ × Hex)) (rom : Rom) (n : ℕ)
    → AllHold rom rs
    → Holds rom.bytes (offset (entry rs n).0) (bytes_of (entry rs n).1)
unfolding AllHold Holds bytes_of strip
entry_held [] rom n h = tt
entry_held (r ∷ rs) rom zero (h, hs) = h
entry_held (r ∷ rs) rom (suc n) (h, hs) = entry_held rs rom n hs
