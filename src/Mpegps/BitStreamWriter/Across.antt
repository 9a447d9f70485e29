-- ===== src/Mpegps/BitStreamWriter/Across.antt =====
-- gb28181/mpegps/bitstream.go, PutUint64 where it leaves the byte.
use lalmax.Base.{
  append_assoc, append_nil, All, IsByte, ℕ, zero, suc, ◌+◌, ◌-◌, ◌*◌, ◌/◌, ◌%◌, ◌^◌, ◌≤◌, ◌<◌, ◌≡◌,
  refl, ap, sym, ◌∙◌, arith, true, List, [], ◌∷◌, ◌++◌, ltb, bit_and, bit_or, bit_or_fields,
  bit_and_mask, u8, shl, shr,
}
use lalmax.Base.Outcome.{Outcome}
use lalmax.Mpegps.BitStream.{bit_mask}
use lalmax.Mpegps.BitStreamWriter.{
  BitStreamWriter, or_at, advance_byte, set_bits_offset, put_whole_bytes, put_rest, put_across,
}
use lalmax.Mpegps.BitStreamWriter.Parts.{zeros, rest}
use lalmax.Mpegps.BitStreamWriter.InByte.{
  writer, Done, assign_at-writer, or_at-writer, one_on, low_bits, placed,
}
use lalmax.Mpegps.BitStreamWriter.Advance.{
  all_bits-snoc, rest-zeros, field-lt, grow_bits, Wrote, put_so_far, All-snoc, eight_bits, wider,
}
use lalmax.Mpegps.BitList.{all_bits, pow_add}
use lalmax.Mpegps.BitList.BitsOf.{bits_of, bits_of-split, bits_of-mod}
use native.Mathlib.Nat.{div-div-eq-div-mul}

-- Whole bytes are written.
record WroteBytes (out : List ℕ) (o x y room : ℕ) (r : Outcome (Unit {0} × BitStreamWriter))
    : Type 0 where
  pre : List ℕ
  runs : r ≡ Done (writer pre (zeros room) o x y)
  bits_put : all_bits pre ≡ out
  whole : All IsByte pre

-- `uint8(v>>(n-8)) & 0xFF`.
next_byte : (v n : ℕ) → bit_and (u8 (shr v (n - 8))) 0xFF ≡ v / 2 ^ (n - 8) % 2 ^ 8
next_byte v n = omega (arith, bit_and_mask 8 (u8 (shr v (n - 8))))

-- The bits of a whole byte and those of the bytes behind it.
split_bytes :
    (r n v : ℕ)
    → 8 * suc r ≤ n
    → bits_of (8 * suc r) (v / 2 ^ (n - 8 * suc r))
      ≡ bits_of 8 (v / 2 ^ (n - 8) % 2 ^ 8) ++ bits_of (8 * r) (v / 2 ^ (n - 8 - 8 * r))
split_bytes r n v h =
    let size : 8 * suc r ≡ 8 + 8 * r = omega arith in
    let shift : n - (8 + 8 * r) ≡ n - 8 - 8 * r = omega arith in
    let back : n - 8 ≡ n - 8 - 8 * r + 8 * r = omega arith in
    let top : v / 2 ^ (n - 8 - 8 * r) / 2 ^ (8 * r) ≡ v / 2 ^ (n - 8) =
      div-div-eq-div-mul v (2 ^ (n - 8 - 8 * r)) (2 ^ (8 * r))
      ∙ ap (λ (t : ℕ). v / t)
          (sym (pow_add (n - 8 - 8 * r) (8 * r)) ∙ ap (λ (t : ℕ). 2 ^ t) (sym back)) in
    rw (size, shift) (bits_of-split 8 (8 * r) (v / 2 ^ (n - 8 - 8 * r)))
    ∙ ap (λ t. t ++ bits_of (8 * r) (v / 2 ^ (n - 8 - 8 * r)))
        (ap (bits_of 8) top ∙ sym (bits_of-mod 8 (v / 2 ^ (n - 8))))

module _ (v o x y : ℕ) where
  put_whole_bytes-Wrote :
      (rounds n room : ℕ) (pre : List ℕ)
      → All IsByte pre
      → 8 * rounds ≤ n
      → WroteBytes
          (all_bits pre ++ bits_of (8 * rounds) (v / 2 ^ (n - 8 * rounds)))
          o
          x
          y
          room
          (put_whole_bytes rounds v n (writer pre (zeros (rounds + room)) o x y))
  unfolding put_whole_bytes bits_of
  put_whole_bytes-Wrote zero n room pre hp h = record {
    pre = pre;
    runs = let e : 0 + room ≡ room = omega arith in rw e;
    bits_put = sym (append_nil (all_bits pre));
    whole = hp;
  }
  put_whole_bytes-Wrote (suc rounds) n room pre hp h =
      let b = v / 2 ^ (n - 8) % 2 ^ 8 in
      let e : suc rounds + room ≡ suc (rounds + room) = omega arith in
      let later = bits_of (8 * rounds) (v / 2 ^ (n - 8 - 8 * rounds)) in
      let next =
        put_whole_bytes-Wrote rounds (n - 8) room (pre ++ (b ∷ []))
          (All-snoc pre b hp (field-lt 8 (v / 2 ^ (n - 8)))) (omega arith) in
      record {
        pre = next.pre;
        runs =
            rw
              (
                e,
                assign_at-writer pre (zeros (rounds + room)) 0 o x y
                    (bit_and (u8 (shr v (n - 8))) 0xFF),
                next_byte v n,
              )
              (ap (put_whole_bytes rounds v (n - 8)) (one_on pre (zeros (rounds + room)) b o x y)
                ∙ next.runs);
        bits_put =
            next.bits_put
            ∙ ap (λ t. t ++ later) (all_bits-snoc pre b)
            ∙ append_assoc (all_bits pre) (bits_of 8 b) later
            ∙ ap (λ t. all_bits pre ++ t) (sym (split_bytes rounds n v h));
        whole = next.whole;
      }

no_higher : (r f : ℕ) → 0 * 2 ^ r + f ≡ f
no_higher r f = omega arith

begun_byte :
    (r v : ℕ)
    → 0 < r
    → r < 8
    → bit_or 0 (u8 (shl (bit_and (u8 v) (bit_mask (r - 1))) (8 - r))) ≡ v % 2 ^ r * 2 ^ (8 - r)
begun_byte r v h k =
    ap (λ (t : ℕ). bit_or 0 (u8 (shl t (8 - r)))) (low_bits r v h (omega arith))
    ∙ placed 0 r 0 (v % 2 ^ r) (omega arith) (field-lt r v)
    ∙ (let z : 0 + r ≡ r = omega arith in rw (z, no_higher r (v % 2 ^ r)))

put_rest-Wrote :
    (v r m x y : ℕ) (pre : List ℕ)
    → All IsByte pre
    → r < 8
    → (0 < r → 0 < m)
    → Wrote (all_bits pre ++ bits_of r v) x y (put_rest v r (writer pre (zeros m) r x y))
unfolding put_rest rest bits_of
put_rest-Wrote v zero m x y pre hp lt h = record {
  pre = pre;
  o = 0;
  c = 0;
  room = m;
  runs = rw (rest-zeros m);
  begun = lt;
  small = omega arith;
  aligned = λ e. refl;
  whole = hp;
  bits_put = refl;
}
put_rest-Wrote v (suc r) zero x y pre hp lt h = absurd (omega (arith, h (omega arith)))
put_rest-Wrote v (suc r) (suc m) x y pre hp lt h = record {
  pre = pre;
  o = suc r;
  c = v % 2 ^ suc r;
  room = suc m;
  runs =
      let some_left : ltb 0 (suc r) ≡ true = ground arith in
      rw (
        some_left,
        or_at-writer pre (zeros m) 0 (suc r) x y
            (u8 (shl (bit_and (u8 v) (bit_mask (suc r - 1))) (8 - suc r))),
        begun_byte (suc r) v (omega arith) lt,
      );
  begun = lt;
  small = field-lt (suc r) v;
  aligned = λ e. absurd (omega arith);
  whole = hp;
  bits_put = ap (λ t. all_bits pre ++ t) (bits_of-mod (suc r) v);
}

put_across-steps :
    (v n : ℕ) (w w1 w2 : BitStreamWriter) (r : Outcome (Unit {0} × BitStreamWriter))
    → or_at w.byteoffset
        (bit_and (u8 (shr v (n - (8 - w.bitsoffset)))) (bit_mask (8 - w.bitsoffset - 1)))
        w
      ≡ Done w1
    → put_whole_bytes
        ((n - (8 - w.bitsoffset)) / 8)
        v
        (n - (8 - w.bitsoffset))
        (record w1 { byteoffset = w1.byteoffset + 1 })
      ≡ Done w2
    → put_rest v
        ((n - (8 - w.bitsoffset)) % 8)
        (record w2 { bitsoffset = (n - (8 - w.bitsoffset)) % 8 })
      ≡ r
    → put_across v n w ≡ r
unfolding put_across set_bits_offset advance_byte
put_across-steps v n w w1 w2 r a b c = rw (a, b, c)

-- The bits of the byte under the cursor, of the whole bytes and of the last one are those of v.
lower_parts :
    (l v : ℕ) → bits_of (8 * (l / 8)) (v / 2 ^ (l - 8 * (l / 8))) ++ bits_of (l % 8) v ≡ bits_of l v
lower_parts l v =
    let short : l - 8 * (l / 8) ≡ l % 8 = omega arith in
    let whole : 8 * (l / 8) + l % 8 ≡ l = omega arith in
    rw short (sym (bits_of-split (8 * (l / 8)) (l % 8) v) ∙ ap (λ (t : ℕ). bits_of t v) whole)

first_part :
    (pre : List ℕ) (o c k u : ℕ)
    → o + k ≡ 8
    → all_bits (pre ++ ((c * 2 ^ k + u % 2 ^ k) ∷ [])) ≡ put_so_far pre o c ++ bits_of k u
first_part pre o c k u e =
    all_bits-snoc pre (c * 2 ^ k + u % 2 ^ k)
    ∙ ap (λ (t : ℕ). all_bits pre ++ bits_of t (c * 2 ^ k + u % 2 ^ k)) (sym e)
    ∙ grow_bits pre o c k u

three_parts :
    (pre : List ℕ) (o c v n : ℕ)
    → o < 8
    → 8 < n + o
    → (all_bits (pre ++ ((c * 2 ^ (8 - o) + v / 2 ^ (n - (8 - o)) % 2 ^ (8 - o)) ∷ []))
          ++ bits_of (8 * ((n - (8 - o)) / 8)) (v / 2 ^ (n - (8 - o) - 8 * ((n - (8 - o)) / 8))))
        ++ bits_of ((n - (8 - o)) % 8) v
      ≡ put_so_far pre o c ++ bits_of n v
three_parts pre o c v n ho leaves =
    let l = n - (8 - o) in
    let first = all_bits (pre ++ ((c * 2 ^ (8 - o) + v / 2 ^ l % 2 ^ (8 - o)) ∷ [])) in
    let middle = bits_of (8 * (l / 8)) (v / 2 ^ (l - 8 * (l / 8))) in
    let size : 8 - o + l ≡ n = omega arith in
    append_assoc first middle (bits_of (l % 8) v)
    ∙ ap (λ t. first ++ t) (lower_parts l v)
    ∙ ap (λ t. t ++ bits_of l v) (first_part pre o c (8 - o) (v / 2 ^ l) (omega arith))
    ∙ append_assoc (put_so_far pre o c) (bits_of (8 - o) (v / 2 ^ l)) (bits_of l v)
    ∙ ap (λ t. put_so_far pre o c ++ t)
        (sym (bits_of-split (8 - o) l v) ∙ ap (λ (t : ℕ). bits_of t v) size)

module _ (pre : List ℕ) (o c m x y v n : ℕ) where
  abbrev left : ℕ
  left = n - (8 - o)

  pub put_across-Wrote :
      All IsByte pre
      → o < 8
      → c < 2 ^ o
      → 8 < n + o
      → o + n ≤ 8 * suc m
      → Wrote
          (put_so_far pre o c ++ bits_of n v)
          x
          y
          (put_across v n (writer pre ((c * 2 ^ (8 - o)) ∷ zeros m) o x y))
  put_across-Wrote hp ho hc leaves room =
      let f = v / 2 ^ left % 2 ^ (8 - o) in
      let byte = c * 2 ^ (8 - o) + f in
      let begun : bit_or (c * 2 ^ (8 - o)) (bit_and (u8 (shr v left)) (bit_mask (8 - o - 1)))
          ≡ byte =
        ap (bit_or (c * 2 ^ (8 - o))) (low_bits (8 - o) (v / 2 ^ left) (omega arith) (omega arith))
        ∙ bit_or_fields (8 - o) c f (field-lt (8 - o) (v / 2 ^ left)) in
      let spare : m ≡ left / 8 + (m - left / 8) = omega arith in
      let whole =
        put_whole_bytes-Wrote v o x y (left / 8) left (m - left / 8) (pre ++ (byte ∷ []))
          (All-snoc pre byte hp (
            eight_bits (o + (8 - o)) byte (omega arith)
              (wider o (8 - o) c f hc (field-lt (8 - o) (v / 2 ^ left)))))
          (omega arith) in
      let end =
        put_rest-Wrote v (left % 8) (m - left / 8) x y whole.pre whole.whole (omega arith)
          (λ h. omega (arith, h)) in
      record {
        pre = end.pre;
        o = end.o;
        c = end.c;
        room = end.room;
        runs =
            put_across-steps v n (writer pre ((c * 2 ^ (8 - o)) ∷ zeros m) o x y)
              (writer pre (byte ∷ zeros m) o x y) (writer whole.pre (zeros (m - left / 8)) o x y) _
              (or_at-writer pre (zeros m) (c * 2 ^ (8 - o)) o x y _
                ∙ ap (λ (t : ℕ). Done (writer pre (t ∷ zeros m) o x y)) begun)
              (ap (put_whole_bytes (left / 8) v left) (
                  one_on pre (zeros m) byte o x y
                  ∙ ap (λ (t : ℕ). writer (pre ++ (byte ∷ [])) (zeros t) o x y) spare)
                ∙ whole.runs)
              end.runs;
        begun = end.begun;
        small = end.small;
        aligned = end.aligned;
        whole = end.whole;
        bits_put =
            end.bits_put
            ∙ (ap (λ t. t ++ bits_of (left % 8) v) whole.bits_put
                ∙ three_parts pre o c v n (omega arith) (omega arith));
      }
