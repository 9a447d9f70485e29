-- ===== src/Mpegps/BitList.antt =====
-- The bits of a byte slice, most significant first, as a list of 0 and 1: the order in which
-- gb28181/mpegps/bitstream.go reads and writes them.
pub mod BitsOf
use lalmax.Base.{
  holds_below, holds_below-at, ℕ, zero, suc, ◌+◌, ◌-◌, ◌*◌, ◌/◌, ◌%◌, ◌^◌, ◌≤◌, ◌<◌, ◌≡◌, refl, ap,
  arith, bit_and, Bool, true, false, ◌||◌, List, [], ◌∷◌, ◌++◌, length, get_or, take, drop, All,
  IsByte, ltb, ◌==◌, ==_iff, shr,
}
use lalmax.Mpegps.BitStream.{bit_mask}
use native.Mathlib.Nat.{pow-suc}

abbrev pub byte_bits : ℕ → List ℕ
byte_bits b =
    (b / 128 % 2)
    ∷ (b / 64 % 2)
    ∷ (b / 32 % 2)
    ∷ (b / 16 % 2)
    ∷ (b / 8 % 2)
    ∷ (b / 4 % 2)
    ∷ (b / 2 % 2)
    ∷ (b % 2)
    ∷ []

unfoldable pub all_bits : List ℕ → List ℕ
all_bits [] = []
all_bits (b ∷ rest) = byte_bits b ++ all_bits rest

-- The number that bits stand for, behind the number `acc`.
unfoldable pub of_bits_from : ℕ → List ℕ → ℕ
of_bits_from acc [] = acc
of_bits_from acc (x ∷ xs) = of_bits_from (2 * acc + x) xs

abbrev pub of_bits : List ℕ → ℕ
of_bits xs = of_bits_from 0 xs

pub pow_add : (a b : ℕ) → 2 ^ (a + b) ≡ 2 ^ a * 2 ^ b
pow_add a zero = let e : a + 0 ≡ a = omega arith in rw e (omega arith)
pow_add a (suc b) =
    let e : a + suc b ≡ suc (a + b) = omega arith in
    rw (e, pow-suc 2 (a + b), pow-suc 2 b, pow_add a b) (grind arith)

pub of_bits_from-append :
    (acc : ℕ) (xs ys : List ℕ) → of_bits_from acc (xs ++ ys) ≡ of_bits_from (of_bits_from acc xs) ys
unfolding of_bits_from
of_bits_from-append acc [] ys = refl
of_bits_from-append acc (x ∷ xs) ys = of_bits_from-append (2 * acc + x) xs ys

pub of_bits_from_sum :
    (acc : ℕ) (xs : List ℕ) → of_bits_from acc xs ≡ acc * 2 ^ length xs + of_bits xs
unfolding of_bits_from
of_bits_from_sum acc [] = omega arith
of_bits_from_sum acc (x ∷ xs) = omega (
  arith,
  of_bits_from_sum (2 * acc + x) xs,
  of_bits_from_sum (2 * 0 + x) xs,
  ap (λ (t : ℕ). acc * t) (pow-suc 2 (length xs)),
)

abbrev pub IsBit : ℕ → Type 0
IsBit x = x < 2

pub of_bits-lt : (xs : List ℕ) → All IsBit xs → of_bits xs < 2 ^ length xs
unfolding of_bits_from
of_bits-lt [] h = omega arith
of_bits-lt (x ∷ xs) h =
    grind (arith, of_bits_from_sum (2 * 0 + x) xs, pow-suc 2 (length xs), of_bits-lt xs h.1)

pub length-all_bits : (bs : List ℕ) → length (all_bits bs) ≡ 8 * length bs
unfolding all_bits
length-all_bits [] = refl
length-all_bits (b ∷ rest) = omega (arith, length-all_bits rest)

pub all_bits-IsBit : (bs : List ℕ) → All IsBit (all_bits bs)
unfolding all_bits
all_bits-IsBit [] = tt
all_bits-IsBit (b ∷ rest) = (
  omega arith,
  (
    omega arith,
    (
      omega arith,
      (
        omega arith,
        (omega arith, (omega arith, (omega arith, (omega arith, all_bits-IsBit rest)))),
      ),
    ),
  ),
)

pub of_bits_from-byte : (acc b : ℕ) → IsByte b → of_bits_from acc (byte_bits b) ≡ acc * 256 + b
unfolding of_bits_from
of_bits_from-byte acc b h = omega arith

pub drop-all_bits :
    (k o : ℕ) (bs : List ℕ) → drop (8 * k + o) (all_bits bs) ≡ drop o (all_bits (drop k bs))
unfolding all_bits
drop-all_bits zero o bs = let e : 8 * 0 + o ≡ o = omega arith in rw e
drop-all_bits (suc k) zero [] = let e : 8 * suc k + 0 ≡ suc (8 * k + 7) = omega arith in rw e
drop-all_bits (suc k) (suc o) [] =
    let e : 8 * suc k + suc o ≡ suc (8 * k + 8 + o) = omega arith in rw e
drop-all_bits (suc k) o (b ∷ bs) =
    let e : 8 * suc k + o ≡ suc (suc (suc (suc (suc (suc (suc (suc (8 * k + o)))))))) =
      omega arith in
    rw e (drop-all_bits k o bs)

pub take-drop-append :
    (n o : ℕ) (xs ys : List ℕ) → n + o ≤ length xs → take n (drop o (xs ++ ys)) ≡ take n (drop o xs)
take-drop-append zero o xs ys h = refl
take-drop-append (suc n) zero [] ys h = absurd (omega arith)
take-drop-append (suc n) zero (x ∷ xs) ys h =
    ap (◌∷◌ x) (take-drop-append n zero xs ys (omega arith))
take-drop-append (suc n) (suc o) [] ys h = absurd (omega arith)
take-drop-append (suc n) (suc o) (x ∷ xs) ys h = take-drop-append (suc n) o xs ys (omega arith)

pub drop_next : (k : ℕ) (bs : List ℕ) → k < length bs → drop k bs ≡ get_or bs k 0 ∷ drop (k + 1) bs
drop_next k [] h = absurd (omega arith)
drop_next zero (b ∷ bs) h = refl
drop_next (suc k) (b ∷ bs) h =
    let e : suc k + 1 ≡ suc (k + 1) = omega arith in rw e (drop_next k bs (omega arith))

-- A field inside a byte, by a table.
field_fits : ℕ → ℕ → ℕ → Bool
unfolding of_bits_from
field_fits b o n =
    (n == 0)
    || ltb (8 - o) n
    || bit_and (shr b (8 - o - n)) (bit_mask (n - 1)) == of_bits (take n (drop o (byte_bits b)))

field_table :
    holds_below 256 (λ b. holds_below 8 (λ o. holds_below 9 (λ n. field_fits b o n))) ≡ true
unfolding holds_below field_fits
field_table = refl

or_third : (a b c : Bool) → a || b || c ≡ true → a ≡ false → b ≡ false → c ≡ true
or_third a b c h p q = ground arith

pub field_in_byte :
    (b o n : ℕ)
    → IsByte b
    → 0 < n
    → n + o ≤ 8
    → bit_and (shr b (8 - o - n)) (bit_mask (n - 1)) ≡ of_bits (take n (drop o (byte_bits b)))
unfolding field_fits
field_in_byte b o n hb hn fits =
    (==_iff _ _).0 (or_third (n == 0) (ltb (8 - o) n) _ at_n (ground arith) (ground arith))
  where
    at_b : holds_below 8 (λ o. holds_below 9 (λ n. field_fits b o n)) ≡ true
    at_b =
        holds_below-at 256 (λ b. holds_below 8 (λ o. holds_below 9 (λ n. field_fits b o n))) b
          field_table hb

    at_o : holds_below 9 (λ n. field_fits b o n) ≡ true
    at_o = holds_below-at 8 (λ o. holds_below 9 (λ n. field_fits b o n)) o at_b (omega arith)

    at_n : field_fits b o n ≡ true
    at_n = holds_below-at 9 (λ n. field_fits b o n) n at_o (omega arith)
