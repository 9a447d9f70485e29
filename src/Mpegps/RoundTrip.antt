-- ===== src/Mpegps/RoundTrip.antt =====
-- gb28181/mpegps/bitstream.go: what PutUint64 writes, GetBits reads.
use lalmax.Base.{
  append_assoc, ℕ, zero, suc, ◌+◌, ◌-◌, ◌*◌, ◌/◌, ◌%◌, ◌^◌, ◌≤◌, ◌<◌, ◌≡◌, refl, ap, sym, ◌∙◌,
  arith, true, List, [], ◌∷◌, ◌++◌, length, length-append, take, drop, take-append, drop-append,
  All, IsByte, leb,
}
use lalmax.Base.Outcome.{ok}
use lalmax.Mpegps.BitStream.{BitStream, new_bit_stream, get_bits}
use lalmax.Mpegps.BitStream.GetBits.{position, seek, IsReader, read_bits, get_bits-read_bits}
use lalmax.Mpegps.BitStreamWriter.{BitStreamWriter, put_uint64}
use lalmax.Mpegps.BitStreamWriter.Parts.{zeros, rest}
use lalmax.Mpegps.BitStreamWriter.Put.{HasBits, put_uint64-appends}
use lalmax.Mpegps.BitList.{
  all_bits, byte_bits, of_bits, of_bits_from, of_bits_from_sum, length-all_bits, pow_add,
}
use lalmax.Mpegps.BitList.BitsOf.{
  bits_of, bits_of-append, bits_of-byte, length-bits_of, bits_of-mod,
}
use native.Mathlib.Nat.{
  pow-suc, mod-lt, one-le-pow, mod-eq_of_lt, div-add-mod', div-lt_iff_lt-mul, mul-le-mul_right,
}

top_bit : (n v : ℕ) → v < 2 ^ suc n → v / 2 ^ n < 2
top_bit n v h = (div-lt_iff_lt-mul (one-le-pow n 2 (omega arith))).1 (omega (arith, pow-suc 2 n))

-- The bits of a number as a number.
of_bits-bits_of : (n v : ℕ) → v < 2 ^ n → of_bits (bits_of n v) ≡ v
unfolding bits_of of_bits_from
of_bits-bits_of zero v h = omega arith
of_bits-bits_of (suc n) v h =
    let top : v / 2 ^ n % 2 ≡ v / 2 ^ n = mod-eq_of_lt (top_bit n v h) in
    let lower : of_bits (bits_of n v) ≡ v % 2 ^ n =
      ap of_bits (sym (bits_of-mod n v))
      ∙ of_bits-bits_of n (v % 2 ^ n) (mod-lt v {m = 2 ^ n} (one-le-pow n 2 (omega arith))) in
    let start : 2 * 0 + v / 2 ^ n % 2 ≡ v / 2 ^ n = omega (arith, top) in
    ap (λ (t : ℕ). of_bits_from t (bits_of n v)) start
    ∙ (of_bits_from_sum (v / 2 ^ n) (bits_of n v)
        ∙ ap (λ (k : ℕ). v / 2 ^ n * 2 ^ k + of_bits (bits_of n v)) (length-bits_of n v)
        ∙ ap (λ (t : ℕ). v / 2 ^ n * 2 ^ n + t) lower
        ∙ div-add-mod' v (2 ^ n))

all_bits-append : (xs ys : List ℕ) → all_bits (xs ++ ys) ≡ all_bits xs ++ all_bits ys
unfolding all_bits
all_bits-append [] ys = refl
all_bits-append (x ∷ xs) ys = ap (λ t. byte_bits x ++ t) (all_bits-append xs ys)

-- The slice of a writer begins with the bits put into it.
record Begins (out : List ℕ) (bytes : List ℕ) : Type 0 where
  more : List ℕ
  parts : all_bits bytes ≡ out ++ more

begun_bits : (o c : ℕ) → o < 8 → byte_bits (c * 2 ^ (8 - o)) ≡ bits_of o c ++ bits_of (8 - o) 0
begun_bits o c h =
    let b = c * 2 ^ (8 - o) in
    let size : 8 ≡ o + (8 - o) = omega arith in
    let plain : b ≡ b + 0 = omega arith in
    sym (bits_of-byte b)
    ∙ ap (λ (t : ℕ). bits_of t b) size
    ∙ ap (bits_of (o + (8 - o))) plain
    ∙ bits_of-append o (8 - o) c 0 (one-le-pow (8 - o) 2 (omega arith))

rest-Begins : (o c room : ℕ) → o < 8 → (room ≡ 0 → o ≡ 0) → Begins (bits_of o c) (rest o c room)
unfolding rest all_bits bits_of
rest-Begins o c zero h a = record { more = []; parts = let start = a refl in rw start }
rest-Begins o c (suc m) h a = record {
  more = bits_of (8 - o) 0 ++ all_bits (zeros m);
  parts =
      ap (λ t. t ++ all_bits (zeros m)) (begun_bits o c h)
      ∙ append_assoc (bits_of o c) (bits_of (8 - o) 0) (all_bits (zeros m));
}

HasBits-Begins : (out : List ℕ) (w : BitStreamWriter) → HasBits out w → Begins out w.bits
HasBits-Begins out w h =
    let v = h.valid in
    let tail = rest-Begins h.o h.c h.room v.begun v.aligned in
    record {
      more = tail.more;
      parts =
          ap all_bits v.bytes
          ∙ all_bits-append h.pre (rest h.o h.c h.room)
          ∙ ap (λ t. all_bits h.pre ++ t) tail.parts
          ∙ sym (append_assoc (all_bits h.pre) (bits_of h.o h.c) tail.more)
          ∙ ap (λ t. t ++ tail.more) h.bits_put;
    }

-- The first bits, then the next ones.
middle : (xs ys zs : List ℕ) → take (length ys) (drop (length xs) ((xs ++ ys) ++ zs)) ≡ ys
middle xs ys zs = rw (append_assoc xs ys zs, drop-append xs (ys ++ zs)) (take-append ys zs)

All-append : (xs ys : List ℕ) → All IsByte xs → All IsByte ys → All IsByte (xs ++ ys)
All-append [] ys h k = k
All-append (x ∷ xs) ys h k = (h.0, All-append xs ys h.1 k)

zeros-IsByte : (m : ℕ) → All IsByte (zeros m)
zeros-IsByte zero = tt
zeros-IsByte (suc m) = (omega arith, zeros-IsByte m)

eight : (o : ℕ) → o < 8 → o + (8 - o) ≡ 8
eight o h = omega arith

begun-IsByte : (o c : ℕ) → o < 8 → c < 2 ^ o → IsByte (c * 2 ^ (8 - o))
begun-IsByte o c ho hc =
    let size : 2 ^ (o + (8 - o)) ≡ 2 ^ 8 = ap (λ (t : ℕ). 2 ^ t) (eight o ho) in
    omega (
      arith,
      size,
      pow_add o (8 - o),
      mul-le-mul_right {m = suc c} {n = 2 ^ o} (2 ^ (8 - o)) hc,
      one-le-pow (8 - o) 2 (omega arith),
    )

rest-IsByte : (o c room : ℕ) → o < 8 → c < 2 ^ o → All IsByte (rest o c room)
unfolding rest
rest-IsByte o c zero ho hc = tt
rest-IsByte o c (suc m) ho hc = (begun-IsByte o c ho hc, zeros-IsByte m)

HasBits-IsByte : (out : List ℕ) (w : BitStreamWriter) → HasBits out w → All IsByte w.bits
HasBits-IsByte out w h =
    let v = h.valid in
    rw v.bytes
      (All-append h.pre (rest h.o h.c h.room) v.whole (rest-IsByte h.o h.c h.room v.begun v.small))

total_bits :
    (xs ys more bytes : List ℕ)
    → all_bits bytes ≡ (xs ++ ys) ++ more
    → length xs + length ys + length more ≡ 8 * length bytes
total_bits xs ys more bytes parts = omega (
  arith,
  ap length parts,
  length-all_bits bytes,
  length-append (xs ++ ys) more,
  length-append xs ys,
)

-- Reading behind the first bits of a slice.
reads :
    (xs ys more bytes : List ℕ)
    → All IsByte bytes
    → all_bits bytes ≡ (xs ++ ys) ++ more
    → 0 < length ys
    → length ys ≤ 64
    → get_bits (length ys) (seek (length xs) (new_bit_stream bytes))
      ≡ ok (of_bits ys, seek (length xs + length ys) (new_bit_stream bytes))
unfolding read_bits seek IsReader new_bit_stream
reads xs ys more bytes hb parts some small =
    let s = seek (length xs) (new_bit_stream bytes) in
    let place : position s ≡ length xs = omega arith in
    let within : leb (position s + length ys) (8 * length bytes) ≡ true =
      ground (arith, place, total_bits xs ys more bytes parts) in
    get_bits-read_bits (length ys) s (omega arith, hb) some small
    ∙ rw (within, place, parts, middle xs ys more)

resized :
    (k n a b p : ℕ) (s t : BitStream)
    → k ≡ n
    → a ≡ b
    → get_bits k s ≡ ok (a, seek (p + k) t)
    → get_bits n s ≡ ok (b, seek (p + n) t)
resized k n a b p s t e f g = rw (sym e, sym f) g

-- A number of n bits is written and read back.
pub record ReadsBack (v n : ℕ) (out : List ℕ) (w : BitStreamWriter) : Type 0 where
  pub after : BitStreamWriter
  pub puts : put_uint64 v n w ≡ ok (tt, after)
  pub gets :
      get_bits n (seek (length out) (new_bit_stream after.bits))
      ≡ ok (v % 2 ^ n, seek (length out + n) (new_bit_stream after.bits))

-- For 0 < n and n at most 64: PutUint64(v, n) into a writer with the bits `out` returns, and
-- GetBits(n) on its slice, behind those bits, returns v modulo 2 ^ n with the cursor behind both.
pub put_uint64-get_bits :
    (v n : ℕ) (out : List ℕ) (w : BitStreamWriter)
    → HasBits out w
    → 0 < n
    → n ≤ 64
    → ReadsBack v n out w
put_uint64-get_bits v n out w h hn small =
    let put = put_uint64-appends v n out w h hn in
    let slice = HasBits-Begins (out ++ bits_of n v) put.after put.holds in
    let size = length-bits_of n v in
    let value : of_bits (bits_of n v) ≡ v % 2 ^ n =
      ap of_bits (sym (bits_of-mod n v))
      ∙ of_bits-bits_of n (v % 2 ^ n) (mod-lt v {m = 2 ^ n} (one-le-pow n 2 (omega arith))) in
    let read =
      reads out (bits_of n v) slice.more put.after.bits
        (HasBits-IsByte (out ++ bits_of n v) put.after put.holds) slice.parts (omega (arith, size))
        (omega (arith, size)) in
    record {
      after = put.after;
      puts = put.runs;
      gets = resized _ n _ _ (length out) _ _ size value read;
    }
