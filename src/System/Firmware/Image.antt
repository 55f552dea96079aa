-- ===== src/System/Firmware/Image.antt =====
-- src/system/monitor_firmware.cpp: the routines do not overlap, and all of them end up in the ROM.
use sys.Base.{
  ℕ, ◌+◌, ◌-◌, ◌%◌, ◌≡◌, refl, sym, ◌∙◌, ap, arith, Bool, true, false, ◌&&◌, ◌==◌, ==_iff, Option,
  none, some, List, [], ◌∷◌, length, u16,
}
use sys.Memory.Rom.{Rom, load}
use sys.System.Firmware.Text.{Hex}
use sys.System.Firmware.{rom_base, load_routine}
use sys.Utils.ProgramLoader.{strip, byte_of, load_digits}
use sys.Utils.ProgramLoader.Decode.{write_bytes}

-- The bytes of pairs of digits.
unfoldable decode_pairs : List ℕ → Option (List ℕ)
decode_pairs [] = some []
decode_pairs (hi ∷ []) = none
decode_pairs (hi ∷ lo ∷ digits) = elim (byte_of hi lo) [
  | none ↦ none
  | some b ↦ elim (decode_pairs digits) [ none ↦ none | some bs ↦ some (b ∷ bs) ]
]

unfoldable pub bytes_of : Hex → List ℕ
unfolding decode_pairs
bytes_of text = elim (decode_pairs (strip text)) [ none ↦ [] | some bs ↦ bs ]

unfoldable pub is_listing : Hex → Bool
unfolding decode_pairs
is_listing text =
    (length (strip text) % 2 == 0)
    && elim (decode_pairs (strip text)) [ none ↦ false | some bs ↦ true ]

abbrev pub offset : ℕ → ℕ
offset bus_addr = u16 (bus_addr + 65536 - rom_base)

some_same {ℓ} : {A : Type ℓ} {a b : A} → some a ≡ some b → a ≡ b
some_same e = cc

both_read :
    (first : Option ℕ) (rest : Option (List ℕ)) (bs : List ℕ)
    → elim first [ none ↦ none | some b ↦ elim rest [ none ↦ none | some cs ↦ some (b ∷ cs) ] ]
      ≡ some bs
    → (b : ℕ) × (cs : List ℕ) × (first ≡ some b) × (rest ≡ some cs) × (bs ≡ b ∷ cs)
both_read none rest bs e = absurd (cc)
both_read (some b) none bs e = absurd (cc)
both_read (some b) (some cs) bs e = (b, cs, refl, refl, cc)

load_pair :
    {D : Type 0} (put : D → ℕ → ℕ → D) (d : D) (address hi lo b : ℕ) (digits : List ℕ)
    → byte_of hi lo ≡ some b
    → load_digits put d address (hi ∷ lo ∷ digits)
      ≡ load_digits put (put d address b) (u16 (address + 1)) digits
unfolding load_digits
load_pair put d address hi lo b digits e = ground arith

load_digits-decode_pairs :
    {D : Type 0} (put : D → ℕ → ℕ → D) (digits bs : List ℕ) (d : D) (address : ℕ)
    → decode_pairs digits ≡ some bs
    → load_digits put d address digits ≡ (none, write_bytes put d address bs)
unfolding decode_pairs load_digits write_bytes
load_digits-decode_pairs put [] bs d address e =
    ap (λ (cs : List ℕ). (none, write_bytes put d address cs)) (some_same e)
load_digits-decode_pairs put (hi ∷ []) bs d address e = absurd (cc)
load_digits-decode_pairs put (hi ∷ lo ∷ digits) bs d address e =
    let (b, cs, first, rest, whole) = both_read (byte_of hi lo) (decode_pairs digits) bs e in
    let later = load_digits-decode_pairs put digits cs (put d address b) (u16 (address + 1)) rest in
    load_pair put d address hi lo b digits first
    ∙ later
    ∙ ap (λ (ds : List ℕ). (none, write_bytes put d address ds)) (sym whole)

pub and_parts : (a b : Bool) → (a && b) ≡ true → (a ≡ true) × (b ≡ true)
and_parts true b e = (refl, e)
and_parts false b e = absurd (cc)

is_some_cases :
    (r : Option (List ℕ))
    → elim r [ none ↦ false | some bs ↦ true ] ≡ true
    → (bs : List ℕ) × (r ≡ some bs)
is_some_cases none e = absurd (cc)
is_some_cases (some bs) e = (bs, refl)

listing_lem :
    (text : Hex)
    → is_listing text ≡ true
    → (length (strip text) % 2 ≡ 0) × ((bs : List ℕ) × (decode_pairs (strip text) ≡ some bs))
unfolding is_listing
listing_lem text e =
    let (even, read) = and_parts _ _ e in
    ((==_iff (length (strip text) % 2) 0).0 even, is_some_cases (decode_pairs (strip text)) read)

pub load_routine_lem :
    (rom : Rom) (bus_addr : ℕ) (text : Hex)
    → is_listing text ≡ true
    → load_routine rom bus_addr text
      ≡ (none, write_bytes load rom (offset bus_addr) (bytes_of text))
unfolding load_routine is_listing bytes_of
load_routine_lem rom bus_addr text e =
    let (even, (bs, read)) = listing_lem text e in
    ground
      (arith, even, read, load_digits-decode_pairs load (strip text) bs rom (offset bus_addr) read)
