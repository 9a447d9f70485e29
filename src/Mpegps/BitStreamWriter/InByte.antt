-- ===== src/Mpegps/BitStreamWriter/InByte.antt =====
-- gb28181/mpegps/bitstream.go, PutUint64 where it stays in one byte.
use lalmax.Base.{
  ℕ, zero, suc, ◌+◌, ◌-◌, ◌*◌, ◌%◌, ◌^◌, ◌≤◌, ◌<◌, ◌≡◌, refl, ap, ◌∙◌, arith, true, List, [], ◌∷◌,
  ◌++◌, length, length-append, set, get_or, ltb, bit_and, bit_or, bit_and_mask, bit_or_fields, u8,
  shl,
}
use lalmax.Base.Outcome.{Outcome, ok}
use lalmax.Mpegps.BitStream.{bit_mask}
use lalmax.Mpegps.BitStreamWriter.{BitStreamWriter, assign_at, or_at, advance_byte}
use lalmax.Mpegps.BitList.{pow_add}
use native.Mathlib.Nat.{one-le-pow, mod-eq_of_lt, mul-le-mul_right, pow-le-pow_right}

-- A writer with the bytes `pre` behind it and `ys` from its position on.
abbrev pub writer : List ℕ → List ℕ → ℕ → ℕ → ℕ → BitStreamWriter
writer pre ys o x y = record {
  bits = pre ++ ys;
  byteoffset = length pre;
  bitsoffset = o;
  bitsmark = x;
  bytemark = y;
}

abbrev pub Done : BitStreamWriter → Outcome (Unit {0} × BitStreamWriter)
Done w = ok (tt, w)

set-append : (pre ys : List ℕ) (b v : ℕ) → set (pre ++ (b ∷ ys)) (length pre) v ≡ pre ++ (v ∷ ys)
set-append [] ys b v = refl
set-append (x ∷ pre) ys b v = ap (◌∷◌ x) (set-append pre ys b v)

get_or-append : (pre ys : List ℕ) (b : ℕ) → get_or (pre ++ (b ∷ ys)) (length pre) 0 ≡ b
get_or-append [] ys b = refl
get_or-append (x ∷ pre) ys b = get_or-append pre ys b

snoc-append : (pre ys : List ℕ) (b : ℕ) → pre ++ (b ∷ ys) ≡ (pre ++ (b ∷ [])) ++ ys
snoc-append [] ys b = refl
snoc-append (x ∷ pre) ys b = ap (◌∷◌ x) (snoc-append pre ys b)

module _ (pre ys : List ℕ) (b o x y : ℕ) where
  pub assign_at-writer :
      (v : ℕ)
      → assign_at (length pre) v (writer pre (b ∷ ys) o x y) ≡ Done (writer pre (v ∷ ys) o x y)
  unfolding assign_at
  assign_at-writer v =
      let inside : ltb (length pre) (length (pre ++ (b ∷ ys))) ≡ true =
        ground (arith, length-append pre (b ∷ ys)) in
      rw (inside, set-append pre ys b v)

  pub or_at-writer :
      (v : ℕ)
      → or_at (length pre) v (writer pre (b ∷ ys) o x y) ≡ Done (writer pre (bit_or b v ∷ ys) o x y)
  unfolding or_at
  or_at-writer v =
      ap (λ (t : ℕ). assign_at (length pre) (bit_or t v) (writer pre (b ∷ ys) o x y))
        (get_or-append pre ys b)
      ∙ assign_at-writer (bit_or b v)

  pub one_on :
      ◌≡◌ {A = BitStreamWriter}
        (record (writer pre (b ∷ ys) o x y) { byteoffset = length pre + 1 })
        (writer (pre ++ (b ∷ [])) ys o x y)
  one_on =
      let at : length pre + 1 ≡ length (pre ++ (b ∷ [])) =
        omega (arith, length-append pre (b ∷ [])) in
      rw (snoc-append pre ys b, at)

  pub advance_byte-writer :
      advance_byte (writer pre (b ∷ ys) o x y) ≡ Done (writer (pre ++ (b ∷ [])) ys o x y)
  unfolding advance_byte
  advance_byte-writer = ap Done one_on

mask : (n : ℕ) → 0 < n → n ≤ 8 → bit_mask (n - 1) ≡ 2 ^ n - 1
mask zero h k = absurd (omega arith)
mask (suc zero) h k = refl
mask (suc (suc zero)) h k = refl
mask (suc (suc (suc zero))) h k = refl
mask (suc (suc (suc (suc zero)))) h k = refl
mask (suc (suc (suc (suc (suc zero))))) h k = refl
mask (suc (suc (suc (suc (suc (suc zero)))))) h k = refl
mask (suc (suc (suc (suc (suc (suc (suc zero))))))) h k = refl
mask (suc (suc (suc (suc (suc (suc (suc (suc zero)))))))) h k = refl
mask (suc (suc (suc (suc (suc (suc (suc (suc (suc n))))))))) h k = absurd (omega arith)

mod_byte : (n v : ℕ) → n ≤ 8 → v % 256 % 2 ^ n ≡ v % 2 ^ n
mod_byte zero v h = omega arith
mod_byte (suc zero) v h = omega arith
mod_byte (suc (suc zero)) v h = omega arith
mod_byte (suc (suc (suc zero))) v h = omega arith
mod_byte (suc (suc (suc (suc zero)))) v h = omega arith
mod_byte (suc (suc (suc (suc (suc zero))))) v h = omega arith
mod_byte (suc (suc (suc (suc (suc (suc zero)))))) v h = omega arith
mod_byte (suc (suc (suc (suc (suc (suc (suc zero))))))) v h = omega arith
mod_byte (suc (suc (suc (suc (suc (suc (suc (suc zero)))))))) v h = omega arith
mod_byte (suc (suc (suc (suc (suc (suc (suc (suc (suc n))))))))) v h = absurd (omega arith)

-- `uint8(v) & BitMask[n-1]`.
pub low_bits : (n v : ℕ) → 0 < n → n ≤ 8 → bit_and (u8 v) (bit_mask (n - 1)) ≡ v % 2 ^ n
low_bits n v h k = ap (bit_and (u8 v)) (mask n h k) ∙ bit_and_mask n (u8 v) ∙ mod_byte n v k

-- A field of n bits, shifted to its place behind the o bits of c.
the_sum : (o n : ℕ) → n + o ≤ 8 → 8 - o ≡ n + (8 - o - n)
the_sum o n h = omega arith

the_gap : (o n : ℕ) → 8 - o - n ≡ 8 - (o + n)
the_gap o n = omega arith

the_bound : (o : ℕ) → 8 - o ≤ 8
the_bound o = omega arith

distribute : (c f a b : ℕ) → c * (a * b) + f * b ≡ (c * a + f) * b
distribute c f a b = grind arith

pub placed :
    (o n c f : ℕ)
    → n + o ≤ 8
    → f < 2 ^ n
    → bit_or (c * 2 ^ (8 - o)) (u8 (shl f (8 - o - n))) ≡ (c * 2 ^ n + f) * 2 ^ (8 - (o + n))
placed o n c f h hf =
    let gap = 8 - o - n in
    let wide : 2 ^ (8 - o) ≡ 2 ^ n * 2 ^ gap =
      ap (λ (t : ℕ). 2 ^ t) (the_sum o n h) ∙ pow_add n gap in
    let low : f * 2 ^ gap < 2 ^ (8 - o) = omega (
      arith,
      wide,
      mul-le-mul_right {m = suc f} {n = 2 ^ n} (2 ^ gap) hf,
      one-le-pow gap 2 (omega arith),
    ) in
    let byte : u8 (shl f gap) ≡ f * 2 ^ gap =
      mod-eq_of_lt (omega (arith, low, pow-le-pow_right {n = 2} (omega arith) (the_bound o))) in
    rw (byte, bit_or_fields (8 - o) c (f * 2 ^ gap) low)
      (ap (λ (t : ℕ). c * t + f * 2 ^ gap) wide
        ∙ distribute c f (2 ^ n) (2 ^ gap)
        ∙ ap (λ (t : ℕ). (c * 2 ^ n + f) * 2 ^ t) (the_gap o n))
