-- ===== src/Utils/ProgramLoader/WhiteSpace.antt =====
-- src/utils/program_loader.cpp: the characters that are kept of a text.
use sys.Base.{ℕ, ◌≡◌, refl, arith, true, false, List, [], ◌∷◌, ◌⊎◌, inl, inr, Bool-cases}
use sys.Utils.ProgramLoader.{is_space, strip}

-- The six characters that C counts as white space: tab, line feed, vertical tab, form feed,
-- carriage return and space.
abbrev pub IsWhiteSpace : ℕ → Type 0
IsWhiteSpace c = (c ≡ 9) ⊎ (c ≡ 10) ⊎ (c ≡ 11) ⊎ (c ≡ 12) ⊎ (c ≡ 13) ⊎ (c ≡ 32)

-- `Spaced text kept`: the text is `kept`, which has no white space, with any white space before,
-- between and after its characters.
pub data Spaced : List ℕ → List ℕ → Type 0 where
  nil : Spaced [] []
  gap : {c : ℕ} {text kept : List ℕ} → IsWhiteSpace c → Spaced text kept → Spaced (c ∷ text) kept
  character :
      {c : ℕ} {text kept : List ℕ}
      → ¬ IsWhiteSpace c
      → Spaced text kept
      → Spaced (c ∷ text) (c ∷ kept)

space : (c : ℕ) → is_space c ≡ true → IsWhiteSpace c
unfolding is_space
space c e = ground arith

is_space-white : (c : ℕ) → IsWhiteSpace c → is_space c ≡ true
unfolding is_space
is_space-white c w = ground arith

no_space : (c : ℕ) → ¬ IsWhiteSpace c → is_space c ≡ false
no_space c n = elim (Bool-cases (is_space c)) [ inl e ↦ absurd (n (space c e)) | inr e ↦ e ]

-- What is left of any text is what stands between its white space.
pub strip-Spaced : (text : List ℕ) → Spaced text (strip text)
unfolding strip
strip-Spaced [] = nil
strip-Spaced (c ∷ cs) = elim (Bool-cases (is_space c)) [
  | inl e ↦ rw e (gap (space c e) (strip-Spaced cs))
  | inr e ↦ rw e (character (λ w. cc (is_space-white c w, e)) (strip-Spaced cs))
]

pub strip_unique : {text kept : List ℕ} → Spaced text kept → strip text ≡ kept
unfolding strip
strip_unique nil = refl
strip_unique (gap {c} w s) = ground (arith, is_space-white c w, strip_unique s)
strip_unique (character {c} n s) = ground (arith, no_space c n, strip_unique s)
