-- ===== src/Mpegps/BitList/BitsOf.antt =====
-- The n lowest bits of a number, most significant first, as bitstream.go writes them.
use lalmax.Base.{
  ℕ, zero, suc, ◌+◌, ◌*◌, ◌/◌, ◌%◌, ◌^◌, ◌<◌, ◌≡◌, refl, ap, sym, ◌∙◌, arith, List, [], ◌∷◌, ◌++◌,
  length,
}
use lalmax.Mpegps.BitList.{byte_bits, pow_add}
use native.Mathlib.Nat.{
  pow-suc, one-le-pow, mul-add-div_right, div-eq_of_lt, mul_comm, div-add-mod', mod-lt,
  div-div-eq-div-mul,
}

unfoldable pub bits_of : ℕ → ℕ → List ℕ
bits_of zero v = []
bits_of (suc n) v = (v / 2 ^ n % 2) ∷ bits_of n v

pub length-bits_of : (n v : ℕ) → length (bits_of n v) ≡ n
unfolding bits_of
length-bits_of zero v = refl
length-bits_of (suc n) v = omega (arith, length-bits_of n v)

quotient : (n q r : ℕ) → (q * 2 ^ n + r) / 2 ^ n ≡ q + r / 2 ^ n
quotient n q r = mul-add-div_right (one-le-pow n 2 (omega arith)) q r

-- Higher bits do not matter.
pub bits_of-low : (n q r : ℕ) → bits_of n (q * 2 ^ n + r) ≡ bits_of n r
unfolding bits_of
bits_of-low zero q r = refl
bits_of-low (suc n) q r =
    let e : q * 2 ^ suc n ≡ 2 * q * 2 ^ n = rw (pow-suc 2 n) (grind arith) in
    let head : (2 * q * 2 ^ n + r) / 2 ^ n % 2 ≡ r / 2 ^ n % 2 =
      omega (arith, quotient n (2 * q) r) in
    rw (e, head, bits_of-low n (2 * q) r)

upper : (o n c r : ℕ) → r < 2 ^ n → (c * 2 ^ n + r) / 2 ^ (o + n) ≡ c / 2 ^ o
upper o n c r h =
    let e : 2 ^ (o + n) ≡ 2 ^ n * 2 ^ o = pow_add o n ∙ mul_comm (2 ^ o) (2 ^ n) in
    let whole : (c * 2 ^ n + r) / 2 ^ n ≡ c = omega (arith, quotient n c r, div-eq_of_lt h) in
    ap (λ (t : ℕ). (c * 2 ^ n + r) / t) e
    ∙ sym (div-div-eq-div-mul (c * 2 ^ n + r) (2 ^ n) (2 ^ o))
    ∙ ap (λ (t : ℕ). t / 2 ^ o) whole

pub bits_of-append :
    (o n c r : ℕ) → r < 2 ^ n → bits_of (o + n) (c * 2 ^ n + r) ≡ bits_of o c ++ bits_of n r
unfolding bits_of
bits_of-append zero n c r h = let e : 0 + n ≡ n = omega arith in rw e (bits_of-low n c r)
bits_of-append (suc o) n c r h =
    let e : suc o + n ≡ suc (o + n) = omega arith in
    let head : (c * 2 ^ n + r) / 2 ^ (o + n) % 2 ≡ c / 2 ^ o % 2 =
      ap (λ (t : ℕ). t % 2) (upper o n c r h) in
    rw (e, head, bits_of-append o n c r h)

the_whole : (b : ℕ) → b / 1 ≡ b
the_whole b = omega arith

pub bits_of-byte : (b : ℕ) → bits_of 8 b ≡ byte_bits b
unfolding bits_of
bits_of-byte b =
    ap
      (λ (t : ℕ).
        (b / 128 % 2)
        ∷ (b / 64 % 2)
        ∷ (b / 32 % 2)
        ∷ (b / 16 % 2)
        ∷ (b / 8 % 2)
        ∷ (b / 4 % 2)
        ∷ (b / 2 % 2)
        ∷ (t % 2)
        ∷ [])
      (the_whole b)

-- The bits of a number are those above the b lowest ones and those.
pub bits_of-split : (a b v : ℕ) → bits_of (a + b) v ≡ bits_of a (v / 2 ^ b) ++ bits_of b v
bits_of-split a b v =
    let whole : v / 2 ^ b * 2 ^ b + v % 2 ^ b ≡ v = div-add-mod' v (2 ^ b) in
    let low : bits_of b (v % 2 ^ b) ≡ bits_of b v =
      sym (bits_of-low b (v / 2 ^ b) (v % 2 ^ b)) ∙ ap (bits_of b) whole in
    sym (ap (bits_of (a + b)) whole)
    ∙ bits_of-append a b (v / 2 ^ b) (v % 2 ^ b)
        (mod-lt v {m = 2 ^ b} (one-le-pow b 2 (omega arith)))
    ∙ ap (λ t. bits_of a (v / 2 ^ b) ++ t) low

pub bits_of-mod : (n v : ℕ) → bits_of n (v % 2 ^ n) ≡ bits_of n v
bits_of-mod n v =
    sym (bits_of-low n (v / 2 ^ n) (v % 2 ^ n)) ∙ ap (bits_of n) (div-add-mod' v (2 ^ n))
