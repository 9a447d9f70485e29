-- ===== src/Base/Bits.antt =====
-- `|` of disjoint fields and `&` with a mask of low ones, as arithmetic, at every width. Both are
-- recursions on binary digits with fuel, and the laws hold for any fuel from the first number on.
use Prim.Native.Nat.{
  ℕ, zero, suc, ◌+◌, ◌-◌, ◌*◌, ◌/◌, ◌%◌, ◌^◌, ◌≤◌, ◌<◌, min, max, bit_and, bit_or, digits,
  bit_and-bitwise, bit_or-bitwise,
}
use mathlib.Core.Path.{◌≡◌, refl, ap, ◌∙◌}
use native.Mathlib.Nat.{pow-suc, one-le-pow, div-add-mod', mod-lt}
use native.Mathlib.Omega.{arith}

abbrev and_with : ℕ → ℕ → ℕ → ℕ
and_with fuel a b = digits (λ y. 0) min fuel a b

abbrev or_with : ℕ → ℕ → ℕ → ℕ
or_with fuel a b = digits (λ y. y) max fuel a b

masked :
    (fuel k q r a : ℕ) → a ≤ fuel → a ≡ q * 2 ^ k + r → r < 2 ^ k → and_with fuel a (2 ^ k - 1) ≡ r
masked zero k q r a enough e h = omega arith
masked (suc fuel) k q r zero enough e h = omega arith
masked (suc fuel) zero q r (suc a) enough e h =
    omega (arith, masked fuel 0 (suc a / 2) 0 (suc a / 2) (omega arith) (omega arith) (omega arith))
masked (suc fuel) (suc k) q r (suc a) enough e h =
    let double = pow-suc 2 k in
    let product = ap (λ (t : ℕ). q * t) double in
    let half : (2 ^ suc k - 1) / 2 ≡ 2 ^ k - 1 = omega (arith, double, one-le-pow k 2) in
    let odd : (2 ^ suc k - 1) % 2 ≡ 1 = omega (arith, double, one-le-pow k 2) in
    let rest =
      masked fuel k q (r / 2) (suc a / 2) (omega arith) (omega (arith, product))
        (omega (arith, double)) in
    rw (half, odd, rest) (ground (arith, double, product))

-- A mask of `k` low ones is the remainder by 2 ^ k.
pub bit_and_mask : (k a : ℕ) → bit_and a (2 ^ k - 1) ≡ a % 2 ^ k
bit_and_mask k a =
    bit_and-bitwise a (2 ^ k - 1)
    ∙ masked a k (a / 2 ^ k) (a % 2 ^ k) a (omega arith) (omega (arith, div-add-mod' a (2 ^ k)))
        (mod-lt a {m = 2 ^ k} (one-le-pow k 2 (omega arith)))

joined : (fuel k q r a : ℕ) → a ≤ fuel → a ≡ q * 2 ^ k → r < 2 ^ k → or_with fuel a r ≡ a + r
joined zero k q r a enough e h = omega arith
joined (suc fuel) k q r zero enough e h = omega arith
joined (suc fuel) zero q r (suc a) enough e h =
    let none_set : r ≡ 0 = omega arith in
    rw none_set (
      omega
        (arith, joined fuel 0 (suc a / 2) 0 (suc a / 2) (omega arith) (omega arith) (omega arith)))
joined (suc fuel) (suc k) q r (suc a) enough e h =
    let double = pow-suc 2 k in
    let product = ap (λ (t : ℕ). q * t) double in
    let rest =
      joined fuel k q (r / 2) (suc a / 2) (omega arith) (omega (arith, product))
        (omega (arith, double)) in
    rw rest (ground (arith, double, product))

-- `(q << k) | r` is a sum where `r` fits `k` bits.
pub bit_or_fields : (k q r : ℕ) → r < 2 ^ k → bit_or (q * 2 ^ k) r ≡ q * 2 ^ k + r
bit_or_fields k q r h =
    bit_or-bitwise (q * 2 ^ k) r ∙ joined (q * 2 ^ k) k q r (q * 2 ^ k) (omega arith) refl h
