-- ===== src/Mpegps/BitStream/Cursor.antt =====
-- gb28181/mpegps/bitstream.go: how SkipBits, UnRead and NextBits move the cursor.
use lalmax.Base.{
  ℕ, ◌+◌, ◌-◌, ◌*◌, ◌/◌, ◌%◌, ◌≤◌, ◌<◌, ◌≡◌, ap, ◌∙◌, inl, inr, ◌⊎◌, arith, length, take, drop, leb,
  ltb, ◌==◌, if◌then◌else◌, Bool-cases,
}
use lalmax.Base.Outcome.{Outcome, ok, panic}
use lalmax.Mpegps.BitStream.{BitStream, move_to, skip_bits, un_read, next_bits}
use lalmax.Mpegps.BitStream.GetBits.{
  position, seek, seek-move_to, IsReader, read_bits, get_bits-read_bits,
}
use lalmax.Mpegps.BitList.{all_bits, of_bits}

moved :
    (p : ℕ) (s : BitStream) (a b : ℕ)
    → a ≡ p / 8
    → b ≡ p % 8
    → ◌≡◌ {A = Outcome (Unit {0} × BitStream)} (ok (tt, move_to s a b)) (ok (tt, seek p s))
moved p s a b e f = ap (λ t. ok (tt, t)) (seek-move_to p s a b e f)

-- From a bit offset below 8, skipping n bits moves the cursor by n bits.
pub skip_bits-seek :
    (n : ℕ) (s : BitStream) → s.bits_offset < 8 → skip_bits n s ≡ ok (tt, seek (position s + n) s)
unfolding skip_bits
skip_bits-seek n s h = elim (Bool-cases (ltb (s.bits_offset + n % 8) 8)) [
  | inl stays ↦ rw stays (moved (position s + n) s _ _ (ground arith) (ground arith))
  | inr leaves ↦ rw leaves (moved (position s + n) s _ _ (ground arith) (ground arith))
]

-- The steps back that `UnRead` gets right: not from inside a byte to the start of an earlier one.
unfoldable pub IsExact : ℕ → BitStream → Type 0
IsExact n s =
    (s.bits_offset < 8) × (s.bits_offset < n → (n - s.bits_offset) % 8 ≡ 0 → s.bits_offset ≡ 0)

-- UnRead(n) moves the cursor back by n bits, where there are n bits before it and the step is exact:
-- the bit offset is below 8, and the step does not lead from inside a byte to the start of an earlier
-- one (n above the bit offset and congruent to it modulo 8, with an offset that is not 0).
pub un_read-seek :
    (n : ℕ) (s : BitStream)
    → n ≤ position s
    → IsExact n s
    → un_read n s ≡ ok (tt, seek (position s - n) s)
unfolding un_read IsExact
un_read-seek n s back (h, exact) = elim (Bool-cases (leb n s.bits_offset)) [
  | inl stays ↦ rw stays (moved (position s - n) s _ _ (ground arith) (ground arith))
  | inr leaves ↦ elim (Bool-cases (ltb s.bytes_offset ((n - s.bits_offset) / 8))) [
    | inl under ↦ absurd (ground arith)
    | inr over ↦ elim (Bool-cases ((n - s.bits_offset) % 8 == 0)) [
      | inl whole ↦
          let at_start : s.bits_offset ≡ 0 = exact (ground arith) (ground arith) in
          rw (leaves, over, whole) (moved (position s - n) s _ _ (ground arith) (ground arith))
      | inr part ↦ elim (Bool-cases (s.bytes_offset - (n - s.bits_offset) / 8 == 0)) [
        | inl none_left ↦ absurd (ground arith)
        | inr some_left ↦
            rw (leaves, over, part, some_left)
              (moved (position s - n) s _ _ (ground arith) (ground arith))
      ]
    ]
  ]
]

seek-back : (s : BitStream) (p : ℕ) → s.bits_offset < 8 → seek (position s) (seek p s) ≡ s
unfolding seek
seek-back s p h =
    let a : position s / 8 ≡ s.bytes_offset = omega arith in
    let b : position s % 8 ≡ s.bits_offset = omega arith in rw (a, b)

un_read-undo :
    (n : ℕ) (s : BitStream)
    → s.bits_offset < 8
    → (n ≤ 8) ⊎ (n % 8 ≡ 0)
    → un_read n (seek (position s + n) s) ≡ ok (tt, s)
unfolding seek IsExact
un_read-undo n s h size =
    let there = seek (position s + n) s in
    let far : n ≤ position there = omega arith in
    let exact : IsExact n there = (
      omega arith,
      λ shorter same. elim size [ inl few ↦ omega arith | inr whole ↦ omega arith ],
    ) in
    let place : position there - n ≡ position s = omega arith in
    un_read-seek n there far exact
    ∙ rw place (ap (λ t. ok (tt, t)) (seek-back s (position s + n) h))

-- For a bit offset below 8, bytes below 256, and n that is positive, at most 64, and at most 8 or a
-- multiple of 8: NextBits(n) is the next n bits, with the cursor where it was, or a panic where fewer
-- than n bits are left.
pub next_bits-keeps :
    (n : ℕ) (s : BitStream)
    → IsReader s
    → 0 < n
    → n ≤ 64
    → (n ≤ 8) ⊎ (n % 8 ≡ 0)
    → next_bits n s ≡ (
        if leb (position s + n) (8 * length s.bits)
        then ok (of_bits (take n (drop (position s) (all_bits s.bits))), s)
        else panic)
unfolding next_bits read_bits IsReader
next_bits-keeps n s h hn small size = elim (Bool-cases (leb (position s + n) (8 * length s.bits))) [
  | inl within ↦ rw (get_bits-read_bits n s h hn small, within) (rw (un_read-undo n s h.0 size))
  | inr past ↦ rw (get_bits-read_bits n s h hn small, past)
]
