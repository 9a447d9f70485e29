-- ===== src/Mpegps/BitStream/GetBits.antt =====
-- gb28181/mpegps/bitstream.go: what GetBits reads, where it stops, and when it panics.
use lalmax.Base.{
  ℕ, zero, suc, ◌+◌, ◌-◌, ◌*◌, ◌/◌, ◌%◌, ◌^◌, ◌≤◌, ◌<◌, ◌≡◌, ap, ◌∙◌, inl, inr, arith, bit_and,
  true, false, List, [], ◌∷◌, ◌++◌, length, length-drop, get_or, take, take_all, drop, All, IsByte,
  leb, ◌==◌, if◌then◌else◌, Bool-cases, shr,
}
use lalmax.Base.Outcome.{ok, panic, Stateful}
use lalmax.Mpegps.BitStream.{BitStream, bit_mask, get_in_byte, get_across, get_bits, move_to}
use lalmax.Mpegps.BitStream.GetLoop.{get_loop_lem, get_loop_past_end, small_field, byte_bits-IsBit}
use lalmax.Mpegps.BitList.{
  byte_bits, all_bits, of_bits_from, of_bits, of_bits_from-append, drop-all_bits, take-drop-append,
  drop_next, field_in_byte, IsBit,
}

-- The cursor as one number of bits from the start.
abbrev pub position : BitStream → ℕ
position s = 8 * s.bytes_offset + s.bits_offset

-- The cursor moved to bit p.
unfoldable pub seek : ℕ → BitStream → BitStream
unfolding move_to
seek p s = move_to s (p / 8) (p % 8)

unfoldable pub IsReader : BitStream → Type 0
IsReader s = (s.bits_offset < 8) × All IsByte s.bits

pub seek-move_to :
    (p : ℕ) (s : BitStream) (a b : ℕ) → a ≡ p / 8 → b ≡ p % 8 → move_to s a b ≡ seek p s
unfolding seek
seek-move_to p s a b e f = rw (e, f)

get_or-IsByte : (bs : List ℕ) (k : ℕ) → All IsByte bs → IsByte (get_or bs k 0)
get_or-IsByte [] k h = omega arith
get_or-IsByte (b ∷ bs) zero h = h.0
get_or-IsByte (b ∷ bs) (suc k) h = get_or-IsByte bs k h.1

-- The bits from a position on, from the byte that holds it.
bits_from :
    (k o : ℕ) (bs : List ℕ)
    → k < length bs
    → drop (8 * k + o) (all_bits bs)
      ≡ drop o (byte_bits (get_or bs k 0) ++ all_bits (drop (k + 1) bs))
unfolding all_bits
bits_from k o bs h = drop-all_bits k o bs ∙ ap (λ r. drop o (all_bits r)) (drop_next k bs h)

-- The rest of a byte and the bits behind it.
rest_of_byte :
    (o n : ℕ) (ys xs : List ℕ)
    → o ≤ length ys
    → length ys ≤ n + o
    → take n (drop o (ys ++ xs)) ≡ drop o ys ++ take (n + o - length ys) xs
rest_of_byte zero n [] xs h k = let e : n + 0 - 0 ≡ n = omega arith in rw e
rest_of_byte zero zero (y ∷ ys) xs h k = ground arith
rest_of_byte zero (suc n) (y ∷ ys) xs h k =
    let e : suc n + 0 - suc (length ys) ≡ n + 0 - length ys = omega arith in
    rw e (ap (◌∷◌ y) (rest_of_byte zero n ys xs (omega arith) (omega arith)))
rest_of_byte (suc o) n [] xs h k = ground arith
rest_of_byte (suc o) n (y ∷ ys) xs h k =
    let e : n + suc o - suc (length ys) ≡ n + o - length ys = omega arith in
    rw e (rest_of_byte o n ys xs (omega arith) (omega arith))

get_in_byte_lem :
    (n : ℕ) (s : BitStream)
    → IsReader s
    → 0 < n
    → n + s.bits_offset ≤ 8
    → s.bytes_offset < length s.bits
    → get_in_byte n s
      ≡ ok (of_bits (take n (drop (position s) (all_bits s.bits))), seek (position s + n) s)
unfolding get_in_byte IsReader seek
get_in_byte_lem n s (ho, hb) hn fits h =
    let b = get_or s.bits s.bytes_offset 0 in
    let nz : (n == 0) ≡ false = ground arith in
    let same =
      ap (take n) (bits_from s.bytes_offset s.bits_offset s.bits h)
      ∙ take-drop-append n s.bits_offset (byte_bits b) (all_bits (drop (s.bytes_offset + 1) s.bits))
          fits in
    let value_of = of_bits (take n (drop s.bits_offset (byte_bits b))) in
    let value = field_in_byte b s.bits_offset n (get_or-IsByte s.bits s.bytes_offset hb) hn fits in
    rw (nz, same, value)
      (elim (Bool-cases (s.bits_offset + n == 8)) [
        | inl whole ↦ rw whole (
            ap (λ t. ok (value_of, t))
              (seek-move_to (position s + n) s (s.bytes_offset + 1) 0 (ground arith)
                (ground arith)))
        | inr short ↦ rw short (
            ap (λ t. ok (value_of, t))
              (seek-move_to (position s + n) s s.bytes_offset (s.bits_offset + n) (ground arith)
                (ground arith)))
      ])

All-drop : (P : ℕ → Type 0) (n : ℕ) (xs : List ℕ) → All P xs → All P (drop n xs)
All-drop P zero xs h = h
All-drop P (suc n) [] h = h
All-drop P (suc n) (x ∷ xs) h = All-drop P n xs h.1

-- The bits that are left in the byte under the cursor.
first_bits :
    (b o : ℕ) → IsByte b → o < 8 → bit_and b (bit_mask (8 - o - 1)) ≡ of_bits (drop o (byte_bits b))
first_bits b o hb ho =
    let whole : b ≡ shr b (8 - o - (8 - o)) =
      let e : 8 - o - (8 - o) ≡ 0 = omega arith in rw e (omega arith) in
    let all : take (8 - o) (drop o (byte_bits b)) ≡ drop o (byte_bits b) =
      take_all (8 - o) (drop o (byte_bits b)) (omega (arith, length-drop o (byte_bits b))) in
    ap (λ t. bit_and t (bit_mask (8 - o - 1))) whole
    ∙ field_in_byte b o (8 - o) hb (omega arith) (omega arith)
    ∙ ap of_bits all

first_bits-lt : (b o : ℕ) → o ≤ 8 → of_bits (drop o (byte_bits b)) < 2 ^ (8 - o)
first_bits-lt b o h =
    small_field (8 - o) (drop o (byte_bits b)) (All-drop IsBit o (byte_bits b) (byte_bits-IsBit b))
      (length-drop o (byte_bits b))

get_across_lem :
    (n : ℕ) (s : BitStream)
    → IsReader s
    → n ≤ 64
    → 8 < n + s.bits_offset
    → position s + n ≤ 8 * length s.bits
    → get_across n s
      ≡ ok (of_bits (take n (drop (position s) (all_bits s.bits))), seek (position s + n) s)
unfolding get_across IsReader seek
get_across_lem n s (ho, hb) small leaves fits =
    let b = get_or s.bits s.bytes_offset 0 in
    let rest = drop (s.bytes_offset + 1) s.bits in
    let first = drop s.bits_offset (byte_bits b) in
    let here = bits_from s.bytes_offset s.bits_offset s.bits (omega arith) in
    let parts =
      rest_of_byte s.bits_offset n (byte_bits b) (all_bits rest) (omega arith) (omega arith) in
    let loop =
      get_loop_lem rest (n - (8 - s.bits_offset)) (of_bits first) (8 - s.bits_offset)
        (s.bytes_offset + 1) (All-drop IsByte (s.bytes_offset + 1) s.bits hb)
        (first_bits-lt b s.bits_offset (omega arith)) (omega arith)
        (omega (arith, length-drop (s.bytes_offset + 1) s.bits)) in
    let index : n + s.bits_offset - 8 ≡ n - (8 - s.bits_offset) = omega arith in
    let value : of_bits (take n (drop (position s) (all_bits s.bits)))
        ≡ of_bits_from (of_bits first) (take (n - (8 - s.bits_offset)) (all_bits rest)) =
      ap of_bits (ap (take n) here ∙ parts)
      ∙ of_bits_from-append 0 first (take (n + s.bits_offset - 8) (all_bits rest))
      ∙ ap (λ (k : ℕ). of_bits_from (of_bits first) (take k (all_bits rest))) index in
    rw (first_bits b s.bits_offset (get_or-IsByte s.bits s.bytes_offset hb) ho, loop, value)
      (ap
        (λ t. ok (of_bits_from (of_bits first) (take (n - (8 - s.bits_offset)) (all_bits rest)), t))
        (seek-move_to (position s + n) s _ _ (omega arith) (omega arith)))

get_across-past_end :
    (n : ℕ) (s : BitStream)
    → IsReader s
    → 8 < n + s.bits_offset
    → s.bytes_offset < length s.bits
    → 8 * length s.bits < position s + n
    → get_across n s ≡ panic
unfolding get_across IsReader
get_across-past_end n s (ho, hb) leaves inside past =
    let b = get_or s.bits s.bytes_offset 0 in
    let loop =
      get_loop_past_end (drop (s.bytes_offset + 1) s.bits) (n - (8 - s.bits_offset))
        (bit_and b (bit_mask (8 - s.bits_offset - 1))) (s.bytes_offset + 1)
        (omega (arith, length-drop (s.bytes_offset + 1) s.bits)) in
    rw loop

-- What `GetBits` promises: the next n bits as one number and a cursor n bits on, or a panic when
-- fewer than n are left.
unfoldable pub read_bits : ℕ → Stateful BitStream ℕ
unfolding seek
read_bits n s =
    if leb (position s + n) (8 * length s.bits)
    then ok (of_bits (take n (drop (position s) (all_bits s.bits))), seek (position s + n) s)
    else panic

-- For a bit offset below 8 and bytes below 256, reading n bits with 0 < n and n at most 64 does what
-- `read_bits` says: the next n bits and a cursor n bits on, or a panic where fewer are left.
pub get_bits-read_bits :
    (n : ℕ) (s : BitStream) → IsReader s → 0 < n → n ≤ 64 → get_bits n s ≡ read_bits n s
unfolding get_bits read_bits IsReader
get_bits-read_bits n s h hn small = elim (Bool-cases (leb (length s.bits) s.bytes_offset)) [
  | inl out ↦
      let no : leb (position s + n) (8 * length s.bits) ≡ false = ground arith in rw (out, no)
  | inr inside ↦ elim (Bool-cases (leb n (8 - s.bits_offset))) [
    | inl short ↦
        let yes : leb (position s + n) (8 * length s.bits) ≡ true = ground (arith, h.0) in
        rw (inside, short, yes) (get_in_byte_lem n s h hn (ground (arith, h.0)) (ground arith))
    | inr long ↦ elim (Bool-cases (leb (position s + n) (8 * length s.bits))) [
      | inl within ↦
          rw (inside, long, within) (get_across_lem n s h small (ground arith) (ground arith))
      | inr past ↦
          rw (inside, long, past)
            (get_across-past_end n s h (ground arith) (ground arith) (ground arith))
    ]
  ]
]
