-- ===== src/System/Firmware/Holding.antt =====
-- src/system/monitor_firmware.cpp: the bytes that `loadRoutine` writes, and the ones it keeps.
use sys.Base.{
  subst, ℕ, zero, suc, ◌+◌, ◌≤◌, ◌<◌, ◌≡◌, ◌⊎◌, inl, refl, sym, ◌∙◌, ap, arith, List, [], ◌∷◌,
  length, get_or, u8, u16, length-set, get_or-set_self, get_or-set_ne,
}
use sys.Memory.Rom.{Rom, load}
use sys.System.Firmware.{rom_size}
use sys.Utils.ProgramLoader.Decode.{write_bytes}

-- These bytes stand in the memory from a place on.
unfoldable pub Holds : List ℕ → ℕ → List ℕ → Type 0
Holds mem at [] = Unit
Holds mem at (b ∷ bs) = (get_or mem at 0 ≡ u8 b) × Holds mem (at + 1) bs

-- The writes of one routine into a ROM that ends before the addresses wrap.
pub length-write_bytes :
    (bs : List ℕ) (rom : Rom) (at : ℕ)
    → length (write_bytes load rom at bs).bytes ≡ length rom.bytes
unfolding write_bytes
length-write_bytes [] rom at = refl
length-write_bytes (b ∷ bs) rom at =
    length-write_bytes bs (load rom at b) (u16 (at + 1)) ∙ length-set rom.bytes at (u8 b)

pub outside :
    (bs : List ℕ) (rom : Rom) (at k : ℕ)
    → at + length bs ≤ rom_size
    → (k < at) ⊎ (at + length bs ≤ k)
    → get_or (write_bytes load rom at bs).bytes k 0 ≡ get_or rom.bytes k 0
unfolding write_bytes
outside [] rom at k fits away = refl
outside (b ∷ bs) rom at k fits away =
    let next : u16 (at + 1) ≡ at + 1 = omega arith in
    ap (λ (a : ℕ). get_or (write_bytes load (load rom at b) a bs).bytes k 0) next
    ∙ outside bs (load rom at b) (at + 1) k (omega arith) (ground arith)
    ∙ get_or-set_ne rom.bytes at k (u8 b) 0 (λ e. ground arith)

pub written_Holds :
    (bs : List ℕ) (rom : Rom) (at : ℕ)
    → at + length bs ≤ rom_size
    → length rom.bytes ≡ rom_size
    → Holds (write_bytes load rom at bs).bytes at bs
unfolding write_bytes Holds
written_Holds [] rom at fits whole = tt
written_Holds (b ∷ bs) rom at fits whole =
    let next : u16 (at + 1) ≡ at + 1 = omega arith in
    (
      ap (λ (a : ℕ). get_or (write_bytes load (load rom at b) a bs).bytes at 0) next
          ∙ outside bs (load rom at b) (at + 1) at (omega arith) (inl (omega arith))
          ∙ get_or-set_self rom.bytes at (u8 b) 0 (omega arith),
      subst (λ (a : ℕ). Holds (write_bytes load (load rom at b) a bs).bytes (at + 1) bs) (sym next)
          (written_Holds bs (load rom at b) (at + 1) (omega arith)
            (length-set rom.bytes at (u8 b) ∙ whole)),
    )

pub kept_Holds :
    (cs bs : List ℕ) (rom : Rom) (at there : ℕ)
    → at + length bs ≤ rom_size
    → (there + length cs ≤ at) ⊎ (at + length bs ≤ there)
    → Holds rom.bytes there cs
    → Holds (write_bytes load rom at bs).bytes there cs
unfolding Holds
kept_Holds [] bs rom at there fits away h = tt
kept_Holds (c ∷ cs) bs rom at there fits away (h, hs) = (
  outside bs rom at there fits (ground arith) ∙ h,
  kept_Holds cs bs rom at (there + 1) fits (ground arith) hs,
)

pub byte_held :
    (mem bs : List ℕ) (at k : ℕ)
    → Holds mem at bs
    → k < length bs
    → get_or mem (at + k) 0 ≡ u8 (get_or bs k 0)
unfolding Holds
byte_held mem [] at k h inside = absurd (omega arith)
byte_held mem (b ∷ bs) at zero (h, hs) inside = ap (λ (n : ℕ). get_or mem n 0) (omega arith) ∙ h
byte_held mem (b ∷ bs) at (suc k) (h, hs) inside =
    ap (λ (n : ℕ). get_or mem n 0) (omega arith) ∙ byte_held mem bs (at + 1) k hs (omega arith)
