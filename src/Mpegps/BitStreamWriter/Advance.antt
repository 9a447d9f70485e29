-- ===== src/Mpegps/BitStreamWriter/Advance.antt =====
-- gb28181/mpegps/bitstream.go, PutUint64: the bits that its two branches put behind those written.
use lalmax.Base.{
  append_assoc, append_nil, All, IsByte, ℕ, zero, suc, ◌+◌, ◌-◌, ◌*◌, ◌%◌, ◌^◌, ◌≤◌, ◌<◌, ◌≡◌, refl,
  ap, sym, ◌∙◌, inl, inr, arith, false, List, [], ◌∷◌, ◌++◌, ◌==◌, ==_iff, Bool-cases, bit_and,
  bit_or, u8, shl,
}
use lalmax.Base.Outcome.{Outcome}
use lalmax.Mpegps.BitStream.{bit_mask}
use lalmax.Mpegps.BitStreamWriter.{BitStreamWriter, set_bits_offset, put_in_byte}
use lalmax.Mpegps.BitStreamWriter.Parts.{zeros, rest}
use lalmax.Mpegps.BitStreamWriter.InByte.{
  writer, Done, or_at-writer, advance_byte-writer, low_bits, placed,
}
use lalmax.Mpegps.BitList.{all_bits, byte_bits, pow_add}
use lalmax.Mpegps.BitList.BitsOf.{bits_of, bits_of-append, bits_of-mod, bits_of-byte}
use native.Mathlib.Nat.{mod-lt, one-le-pow, mul-le-mul_right}

pub all_bits-snoc :
    (pre : List ℕ) (b : ℕ) → all_bits (pre ++ (b ∷ [])) ≡ all_bits pre ++ bits_of 8 b
unfolding all_bits
all_bits-snoc [] b = append_nil (byte_bits b) ∙ sym (bits_of-byte b)
all_bits-snoc (x ∷ pre) b =
    ap (λ t. byte_bits x ++ t) (all_bits-snoc pre b)
    ∙ sym (append_assoc (byte_bits x) (all_bits pre) (bits_of 8 b))

pub rest-zeros : (m : ℕ) → rest 0 0 m ≡ zeros m
unfolding rest
rest-zeros zero = refl
rest-zeros (suc m) = refl

-- The bits written: whole bytes, and the o bits of c.
abbrev pub put_so_far : List ℕ → ℕ → ℕ → List ℕ
put_so_far pre o c = all_bits pre ++ bits_of o c

-- A writer that has the bits `out` behind it, with the marks x and y.
pub record Wrote (out : List ℕ) (x y : ℕ) (r : Outcome (Unit {0} × BitStreamWriter)) : Type 0 where
  pub pre : List ℕ
  pub o : ℕ
  pub c : ℕ
  pub room : ℕ
  pub runs : r ≡ Done (writer pre (rest o c room) o x y)
  pub begun : o < 8
  pub small : c < 2 ^ o
  pub aligned : room ≡ 0 → o ≡ 0
  pub whole : All IsByte pre
  pub bits_put : put_so_far pre o c ≡ out

pub field-lt : (n v : ℕ) → v % 2 ^ n < 2 ^ n
field-lt n v = mod-lt v {m = 2 ^ n} (one-le-pow n 2 (omega arith))

pub All-snoc : (pre : List ℕ) (b : ℕ) → All IsByte pre → IsByte b → All IsByte (pre ++ (b ∷ []))
All-snoc [] b h k = (k, tt)
All-snoc (x ∷ pre) b h k = (h.0, All-snoc pre b h.1 k)

pub wider : (o n c f : ℕ) → c < 2 ^ o → f < 2 ^ n → c * 2 ^ n + f < 2 ^ (o + n)
wider o n c f hc hf =
    omega (arith, pow_add o n, mul-le-mul_right {m = suc c} {n = 2 ^ o} (2 ^ n) hc)

pub grow_bits :
    (pre : List ℕ) (o c n v : ℕ)
    → put_so_far pre (o + n) (c * 2 ^ n + v % 2 ^ n) ≡ put_so_far pre o c ++ bits_of n v
grow_bits pre o c n v =
    ap (λ t. all_bits pre ++ t)
      (bits_of-append o n c (v % 2 ^ n) (field-lt n v)
        ∙ ap (λ t. bits_of o c ++ t) (bits_of-mod n v))
    ∙ sym (append_assoc (all_bits pre) (bits_of o c) (bits_of n v))

pub whole_byte :
    (pre : List ℕ) (k b : ℕ) → k ≡ 8 → put_so_far (pre ++ (b ∷ [])) 0 0 ≡ put_so_far pre k b
unfolding bits_of
whole_byte pre k b e =
    append_nil (all_bits (pre ++ (b ∷ [])))
    ∙ all_bits-snoc pre b
    ∙ ap (λ (t : ℕ). all_bits pre ++ bits_of t b) (sym e)

pub eight_bits : (k b : ℕ) → k ≡ 8 → b < 2 ^ k → IsByte b
eight_bits k b e h = let w : 2 ^ k ≡ 2 ^ 8 = ap (λ (t : ℕ). 2 ^ t) e in omega (arith, w)

full_byte : (k b : ℕ) → k ≡ 8 → b * 2 ^ (8 - k) ≡ b
full_byte k b e = let z : 8 - k ≡ 0 = omega arith in rw z (omega arith)

module _ (pre : List ℕ) (o c m x y : ℕ) where
  abbrev here : BitStreamWriter
  here = writer pre ((c * 2 ^ (8 - o)) ∷ zeros m) o x y

  pub put_in_byte-Wrote :
      (v n : ℕ)
      → All IsByte pre
      → o < 8
      → c < 2 ^ o
      → 0 < n
      → n + o ≤ 8
      → Wrote (put_so_far pre o c ++ bits_of n v) x y (put_in_byte v n here)
  unfolding put_in_byte set_bits_offset rest
  put_in_byte-Wrote v n hp ho hc hn fits =
      let f = v % 2 ^ n in
      let nz : (n == 0) ≡ false = ground arith in
      let byte =
        ap (λ (t : ℕ). bit_or (c * 2 ^ (8 - o)) (u8 (shl t (8 - o - n))))
          (low_bits n v hn (omega arith))
        ∙ placed o n c f fits (field-lt n v) in
      let stored =
        or_at-writer pre (zeros m) (c * 2 ^ (8 - o)) o x y
          (u8 (shl (bit_and (u8 v) (bit_mask (n - 1))) (8 - o - n))) in
      elim (Bool-cases (o + n == 8)) [
        | inl whole ↦ record {
          pre = pre ++ ((c * 2 ^ n + f) ∷ []);
          o = 0;
          c = 0;
          room = m;
          runs =
              let full : (c * 2 ^ n + f) * 2 ^ (8 - (o + n)) ≡ c * 2 ^ n + f =
                full_byte (o + n) (c * 2 ^ n + f) ((==_iff (o + n) 8).0 whole) in
              rw (nz, stored, whole, byte, full, rest-zeros m)
                (advance_byte-writer pre (zeros m) (c * 2 ^ n + f) 0 x y);
          begun = omega arith;
          small = omega arith;
          aligned = λ e. refl;
          whole = All-snoc pre (c * 2 ^ n + f) hp (
              eight_bits (o + n) (c * 2 ^ n + f) ((==_iff (o + n) 8).0 whole)
                (wider o n c f hc (field-lt n v)));
          bits_put =
              whole_byte pre (o + n) (c * 2 ^ n + f) ((==_iff (o + n) 8).0 whole)
              ∙ grow_bits pre o c n v;
        }
        | inr part ↦ record {
          pre = pre;
          o = o + n;
          c = c * 2 ^ n + f;
          room = suc m;
          runs = rw (nz, stored, part, byte);
          begun = ground arith;
          small = wider o n c f hc (field-lt n v);
          aligned = λ e. absurd (omega arith);
          whole = hp;
          bits_put = grow_bits pre o c n v;
        }
      ]
