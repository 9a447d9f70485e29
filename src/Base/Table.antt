-- ===== src/Base/Table.antt =====
-- Claims about every small number, settled by evaluation.
use Prim.Native.Nat.{ℕ, zero, suc, ◌<◌}
use mathlib.Core.Path.{◌≡◌, refl}
use mathlib.Core.Logic.{◌⊎◌, inl, inr}
use mathlib.Core.Bool.{Bool, true, false}
use native.Mathlib.Omega.{arith}
use lalmax.Base.Tests.{if◌then◌else◌}

unfoldable pub holds_below : ℕ → (ℕ → Bool) → Bool
holds_below zero test = true
holds_below (suc n) test = if test n then holds_below n test else false

below_suc : (i n : ℕ) → i < suc n → (i < n) ⊎ (i ≡ n)
below_suc i n h = ground arith

tested : (a b : Bool) → (if a then b else false) ≡ true → (a ≡ true) × (b ≡ true)
tested true b h = (refl, h)
tested false b h = absurd (ground arith)

pub holds_below-at :
    (n : ℕ) (test : ℕ → Bool) (i : ℕ) → holds_below n test ≡ true → i < n → test i ≡ true
unfolding holds_below
holds_below-at zero test i h lt = absurd (omega arith)
holds_below-at (suc n) test i h lt =
    let (top, lower) = tested (test n) (holds_below n test) h in
    elim (below_suc i n lt) [
      | inl below ↦ holds_below-at n test i lower below
      | inr same ↦ rw same top
    ]
