-- ===== src/Mpegps/BitStream.antt =====
-- gb28181/mpegps/bitstream.go, the reader: a cursor of bits over a byte slice. Offsets are never
-- negative here: an operation whose Go offset would be negative comes to `below_zero`.
pub mod Cursor
pub mod GetBits
pub mod GetLoop
use lalmax.Base.{
  ℕ, zero, suc, ◌+◌, ◌-◌, ◌*◌, ◌/◌, ◌%◌, ◌^◌, bit_and, bit_or, Bool, true, false, ◌&&◌, List, [],
  ◌∷◌, ltb, leb, ◌==◌, if◌then◌else◌, length, get_or, take, drop, u8, u16, u32, u64, shr, shl,
}
use lalmax.Base.Int.{ℤ, pos, negsuc, sub_ℕ}
use lalmax.Base.Outcome.{
  Outcome, ok, panic, below_zero, stuck, then_outcome, Stateful, ◌>>=◌, return,
}

-- `BitMask[k]`, at an index in range.
abbrev pub bit_mask : ℕ → ℕ
bit_mask k = get_or (0x01 ∷ 0x03 ∷ 0x07 ∷ 0x0F ∷ 0x1F ∷ 0x3F ∷ 0x7F ∷ 0xFF ∷ []) k 0

pub record BitStream : Type 0 where
  pub bits : List ℕ
  pub bytes_offset : ℕ
  pub bits_offset : ℕ
  pub bits_mark : ℕ
  pub byte_mark : ℕ

unfoldable pub new_bit_stream : List ℕ → BitStream
new_bit_stream buf = record {
  bits = buf;
  bytes_offset = 0;
  bits_offset = 0;
  bits_mark = 0;
  byte_mark = 0;
}

-- The loop of `GetBits` over the bytes from `off` on: the value, and the offsets where it stops.
unfoldable pub get_loop : List ℕ → ℕ → ℕ → ℕ → Outcome (ℕ × ℕ × ℕ)
get_loop [] n ret off = if n == 0 then ok (ret, off, 0) else panic
get_loop (b ∷ rest) n ret off =
    let more = get_loop rest (n - 8) (bit_or (u64 (shl ret 8)) b) (off + 1) in
    if n == 0
    then ok (ret, off, 0)
    else if leb 8 n
    then more
    else ok (bit_or (u64 (shl ret n)) (bit_and (shr b (8 - n)) (bit_mask (n - 1))), off, n)

unfoldable pub move_to : BitStream → ℕ → ℕ → BitStream
move_to s byte bit = record s { bytes_offset = byte; bits_offset = bit }

-- The branch of `GetBits` that stays in one byte. For `n` zero `BitMask[n-1]` panics.
unfoldable pub get_in_byte : ℕ → Stateful BitStream ℕ
unfolding move_to
get_in_byte n s =
    let value =
      bit_and (shr (get_or s.bits s.bytes_offset 0) (8 - s.bits_offset - n)) (bit_mask (n - 1)) in
    if n == 0
    then panic
    else if s.bits_offset + n == 8
    then ok (value, move_to s (s.bytes_offset + 1) 0)
    else ok (value, move_to s s.bytes_offset (s.bits_offset + n))

-- The branch of `GetBits` that leaves the byte.
unfoldable pub get_across : ℕ → Stateful BitStream ℕ
unfolding move_to get_loop
get_across n s =
    let first = bit_and (get_or s.bits s.bytes_offset 0) (bit_mask (8 - s.bits_offset - 1)) in
    then_outcome
      (get_loop (drop (s.bytes_offset + 1) s.bits) (n - (8 - s.bits_offset)) first
        (s.bytes_offset + 1))
      (λ r. ok (r.0, move_to s r.1 r.2))

unfoldable pub get_bits : ℕ → Stateful BitStream ℕ
unfolding get_in_byte get_across
get_bits n s =
    if leb (length s.bits) s.bytes_offset
    then panic
    else if leb n (8 - s.bits_offset)
    then get_in_byte n s
    else get_across n s

unfoldable pub uint8 : ℕ → Stateful BitStream ℕ
unfolding get_bits
uint8 n = do v ← get_bits n; return (u8 v)

unfoldable pub uint16 : ℕ → Stateful BitStream ℕ
unfolding get_bits
uint16 n = do v ← get_bits n; return (u16 v)

unfoldable pub uint32 : ℕ → Stateful BitStream ℕ
unfolding get_bits
uint32 n = do v ← get_bits n; return (u32 v)

unfoldable pub get_bytes : ℕ → Stateful BitStream (List ℕ)
get_bytes n s =
    if ltb (length s.bits) (s.bytes_offset + n)
    then panic
    else if s.bits_offset == 0
    then ok (take n (drop s.bytes_offset s.bits), record s { bytes_offset = s.bytes_offset + n })
    else panic

unfoldable pub get_bit : Stateful BitStream ℕ
unfolding move_to
get_bit s =
    let bit = bit_and (shr (get_or s.bits s.bytes_offset 0) (7 - s.bits_offset)) 1 in
    if leb (length s.bits) s.bytes_offset
    then panic
    else if leb 8 (s.bits_offset + 1)
    then ok (bit, move_to s (s.bytes_offset + 1) 0)
    else ok (bit, move_to s s.bytes_offset (s.bits_offset + 1))

unfoldable pub skip_bits : ℕ → Stateful BitStream (Unit {0})
unfolding move_to
skip_bits n s =
    if ltb (s.bits_offset + n % 8) 8
    then ok (tt, move_to s (s.bytes_offset + n / 8) (s.bits_offset + n % 8))
    else ok (tt, move_to s (s.bytes_offset + n / 8 + 1) (s.bits_offset + n % 8 - 8))

-- `SkipBits` of a negative count -n: Go's `/` and `%` round towards zero.
unfoldable pub skip_back : ℕ → Stateful BitStream (Unit {0})
unfolding move_to
skip_back n s =
    if leb (n / 8) s.bytes_offset && leb (n % 8) s.bits_offset
    then ok (tt, move_to s (s.bytes_offset - n / 8) (s.bits_offset - n % 8))
    else below_zero

unfoldable pub skip_int : ℤ → Stateful BitStream (Unit {0})
unfolding skip_bits skip_back
skip_int (pos n) = skip_bits n
skip_int (negsuc n) = skip_back (n + 1)

unfoldable pub mark_dot : Stateful BitStream (Unit {0})
mark_dot s = ok (tt, record s { bits_mark = s.bits_offset; byte_mark = s.bytes_offset })

-- (bytesOffset - bytemark - 1) * 8 + bitsOffset + (8 - bitsmark), summed before it is subtracted.
unfoldable pub distance_from_mark_dot : BitStream → ℤ
distance_from_mark_dot s =
    sub_ℕ (s.bytes_offset * 8 + s.bits_offset) (s.byte_mark * 8 + s.bits_mark)

unfoldable pub remain_bytes : BitStream → ℤ
remain_bytes s =
    if ltb 0 s.bits_offset
    then sub_ℕ (length s.bits) (s.bytes_offset + 1)
    else sub_ℕ (length s.bits) s.bytes_offset

-- RemainBytes()*8 + 8 - bitsOffset, or RemainBytes()*8 at a byte's start.
unfoldable pub remain_bits : BitStream → ℤ
remain_bits s = sub_ℕ (length s.bits * 8) (s.bytes_offset * 8 + s.bits_offset)

-- A Go slice expression panics past the end.
unfoldable pub remain_data : Stateful BitStream (List ℕ)
remain_data s =
    if leb s.bytes_offset (length s.bits) then ok (drop s.bytes_offset s.bits, s) else panic

unfoldable pub byte_offset : BitStream → ℕ
byte_offset s = s.bytes_offset

unfoldable pub un_read : ℕ → Stateful BitStream (Unit {0})
unfolding move_to
un_read n s =
    let least = n - s.bits_offset in
    let byte = s.bytes_offset - least / 8 in
    if leb n s.bits_offset
    then ok (tt, move_to s s.bytes_offset (s.bits_offset - n))
    else if ltb s.bytes_offset (least / 8)
    then below_zero
    else if least % 8 == 0
    then ok (tt, move_to s byte s.bits_offset)
    else if byte == 0
    then below_zero
    else ok (tt, move_to s (byte - 1) (8 - least % 8))

unfoldable pub next_bits : ℕ → Stateful BitStream ℕ
unfolding get_bits un_read
next_bits n = do r ← get_bits n; _ ← un_read n; return r

unfoldable pub eos : BitStream → Bool
eos s = (s.bytes_offset == length s.bits) && (s.bits_offset == 0)

-- The zero bits before the first one bit, which is read too. Each round reads a bit, so the
-- number of bits left is fuel enough.
unfoldable pub leading_zeros : ℕ → ℕ → Stateful BitStream ℕ
unfolding get_bit
leading_zeros zero count s = stuck
leading_zeros (suc fuel) count s =
    then_outcome (get_bit s)
      (λ r. elim (r.0 == 0) [ true ↦ leading_zeros fuel (count + 1) r.1 | false ↦ ok (count, r.1) ])

unfoldable pub read_ue : Stateful BitStream ℕ
unfolding leading_zeros get_bits
read_ue s = then_outcome (leading_zeros (length s.bits * 8 + 1) 0 s) (λ r.
    if r.0 == 0
    then ok (0, r.1)
    else then_outcome (get_bits r.0 r.1)
        (λ q. ok ((u64 (shl 1 r.0) + 2 ^ 64 - 1 + q.0) % 2 ^ 64, q.1)))

-- `int64(x)` of a uint64 below 2^63 is that number; above, it is x - 2^64, and `/ 2` rounds to zero.
unfoldable pub signed_half : ℕ → ℤ
signed_half x = if ltb x (2 ^ 63) then pos (x / 2) else sub_ℕ 0 ((2 ^ 64 - x) / 2)

unfoldable pub read_se : Stateful BitStream ℤ
unfolding read_ue signed_half
read_se = do v ← read_ue; return (if v % 2 == 0 then sub_ℕ 0 (v / 2) else signed_half (u64 (v + 1)))
