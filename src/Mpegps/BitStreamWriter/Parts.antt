-- ===== src/Mpegps/BitStreamWriter/Parts.antt =====
-- gb28181/mpegps/bitstream.go, the writer: the bits written so far, as whole bytes and the bits of a
-- byte begun, with room behind them that is all zeros.
use lalmax.Base.{
  append_assoc, All, IsByte, ℕ, zero, suc, ◌+◌, ◌-◌, ◌*◌, ◌/◌, ◌^◌, ◌≤◌, ◌<◌, ◌≡◌, refl, ap, ◌∙◌,
  inl, inr, arith, List, [], ◌∷◌, ◌++◌, length, length-append, replicate, ltb, if◌then◌else◌,
  Bool-cases,
}
use lalmax.Base.Outcome.{ok}
use lalmax.Mpegps.BitStreamWriter.{BitStreamWriter, expand_space}

abbrev pub zeros : ℕ → List ℕ
zeros m = replicate m 0

pub length-zeros : (m : ℕ) → length (zeros m) ≡ m
length-zeros zero = refl
length-zeros (suc m) = omega (arith, length-zeros m)

-- A byte begun with the `o` bits of `c`, and zeros behind it; nothing if there is no room.
unfoldable pub rest : ℕ → ℕ → ℕ → List ℕ
rest o c zero = []
rest o c (suc m) = (c * 2 ^ (8 - o)) ∷ zeros m

pub record IsWriter (pre : List ℕ) (o c room : ℕ) (w : BitStreamWriter) : Type 0 where
  pub bytes : w.bits ≡ pre ++ rest o c room
  pub byte_at : w.byteoffset ≡ length pre
  pub bit_at : w.bitsoffset ≡ o
  pub begun : o < 8
  pub small : c < 2 ^ o
  pub aligned : room ≡ 0 → o ≡ 0
  pub whole : All IsByte pre

replicate-append : (m k : ℕ) → zeros m ++ zeros k ≡ zeros (m + k)
replicate-append zero k = let e : 0 + k ≡ k = omega arith in rw e
replicate-append (suc m) k =
    let e : suc m + k ≡ suc (m + k) = omega arith in rw e (ap (◌∷◌ 0) (replicate-append m k))

none_begun : (c o : ℕ) → c < 2 ^ o → o ≡ 0 → c ≡ 0
none_begun c zero h e = omega arith
none_begun c (suc o) h e = absurd (omega arith)

rest-more :
    (o c room k : ℕ)
    → c < 2 ^ o
    → (room ≡ 0 → o ≡ 0)
    → rest o c room ++ zeros k ≡ rest o c (room + k)
unfolding rest
rest-more o c (suc m) k h a =
    let e : suc m + k ≡ suc (m + k) = omega arith in
    rw e (ap (◌∷◌ (c * 2 ^ (8 - o))) (replicate-append m k))
rest-more o c zero zero h a = refl
rest-more o c zero (suc k) h a =
    let e : 0 + suc k ≡ suc k = omega arith in
    let first : 0 ≡ c * 2 ^ (8 - o) =
      omega (arith, ap (λ (t : ℕ). t * 2 ^ (8 - o)) (none_begun c o h (a refl))) in
    rw e (ap (λ (t : ℕ). t ∷ zeros k) first)

length-rest : (o c room : ℕ) → length (rest o c room) ≡ room
unfolding rest
length-rest o c zero = refl
length-rest o c (suc m) = omega (arith, length-zeros m)

pub record Expanded (n : ℕ) (pre : List ℕ) (o c : ℕ) (w : BitStreamWriter) : Type 0 where
  pub room : ℕ
  pub after : BitStreamWriter
  pub runs : expand_space n w ≡ ok (tt, after)
  pub valid : IsWriter pre o c room after
  pub fits : o + n ≤ 8 * room

-- The length that `expandSpace` grows to.
abbrev grown : ℕ → ℕ → ℕ
grown n len = if ltb (len * 8) n then len + n / 8 + 1 else len * 2

grown-enough : (n p len : ℕ) → p ≤ len * 8 → n + p ≤ len * 8 + (grown n len - len) * 8
grown-enough n p len h = ground arith

start_fits : (p o room : ℕ) → o < 8 → (room ≡ 0 → o ≡ 0) → p * 8 + o ≤ (p + room) * 8
start_fits p o zero h a = omega (arith, a refl)
start_fits p o (suc room) h a = omega arith

-- `expandSpace` makes room for n bits.
pub expand_space-IsWriter :
    (n : ℕ) (pre : List ℕ) (o c room : ℕ) (w : BitStreamWriter)
    → IsWriter pre o c room w
    → Expanded n pre o c w
unfolding expand_space
expand_space-IsWriter n pre o c room w v =
    let len = length w.bits in
    let size : len ≡ length pre + room =
      ap length v.bytes
      ∙ length-append pre (rest o c room)
      ∙ ap (λ (t : ℕ). length pre + t) (length-rest o c room) in
    let k = grown n len - len in
    elim (Bool-cases (ltb (len * 8) (n + w.byteoffset * 8 + w.bitsoffset))) [
      | inl more ↦ record {
        room = room + k;
        after = record w { bits = w.bits ++ zeros k };
        runs = rw more;
        valid = record {
          bytes =
              ap (λ t. t ++ zeros k) v.bytes
              ∙ append_assoc pre (rest o c room) (zeros k)
              ∙ ap (◌++◌ pre) (rest-more o c room k v.small v.aligned);
          byte_at = v.byte_at;
          bit_at = v.bit_at;
          begun = v.begun;
          small = v.small;
          aligned = λ e. v.aligned (omega (arith, e));
          whole = v.whole;
        };
        fits = omega (
          arith,
          size,
          v.byte_at,
          grown-enough n (length pre * 8 + o) len
              (omega (arith, size, start_fits (length pre) o room v.begun v.aligned)),
        );
      }
      | inr enough ↦ record {
        room = room;
        after = w;
        runs = rw enough;
        valid = v;
        fits = ground (arith, size, v.byte_at, v.bit_at);
      }
    ]
