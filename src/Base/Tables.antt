-- ===== src/Base/Tables.antt =====
-- Statements about all bytes, checked by evaluation.
use Prim.Native.Nat.{ℕ, zero, suc, ◌<◌}
use mathlib.Core.Path.{◌≡◌}
use mathlib.Core.Bool.{Bool, true, false, ◌&&◌}
use native.Mathlib.Omega.{arith}

-- A test passes at every number under a bound.
unfoldable pub all_below : ℕ → (ℕ → Bool) → Bool
all_below zero test = true
all_below (suc last) test = test last && all_below last test

pub all_below_sound :
    (bound : ℕ) (test : ℕ → Bool) (k : ℕ) → all_below bound test ≡ true → k < bound → test k ≡ true
unfolding all_below
all_below_sound zero test k passed under = absurd (omega arith)
all_below_sound (suc last) test k passed under = ground (arith, all_below_sound last test k)

-- A decision as a test, and two decisions as one.
unfoldable pub decides {ℓ} : {P : Type ℓ} → Dec P → Bool
decides (yes p) = true
decides (no n) = false

pub decides_sound {ℓ} : {P : Type ℓ} (d : Dec P) → decides d ≡ true → P
unfolding decides
decides_sound (yes p) e = p
decides_sound (no n) e = cc

unfoldable pub dec-both {ℓ κ} : {P : Type ℓ} {Q : Type κ} → Dec P → Dec Q → Dec (P × Q)
dec-both (yes p) (yes q) = yes (p, q)
dec-both (no n) _ = no (λ h. n h.0)
dec-both _ (no n) = no (λ h. n h.1)

unfoldable pub dec-not {ℓ} : {P : Type ℓ} → Dec P → Dec (¬ P)
dec-not (yes p) = no (λ n. n p)
dec-not (no n) = yes n

unfoldable pub dec-three {ℓ κ μ} :
    {P : Type ℓ} {Q : Type κ} {R : Type μ} → Dec P → Dec Q → Dec R → Dec (P × Q × R)
dec-three (yes p) (yes q) (yes r) = yes (p, q, r)
dec-three (no n) _ _ = no (λ h. n h.0)
dec-three _ (no n) _ = no (λ h. n h.1)
dec-three _ _ (no n) = no (λ h. n h.2)
