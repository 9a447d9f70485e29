-- ===== src/Mpegps/BitStreamWriter.antt =====
-- gb28181/mpegps/bitstream.go, the writer: bits put behind one another into a growing slice.
pub mod Across
pub mod Advance
pub mod InByte
pub mod Parts
pub mod Put
use lalmax.Base.{
  ℕ, zero, suc, ◌+◌, ◌-◌, ◌*◌, ◌/◌, ◌%◌, bit_and, bit_or, List, ◌++◌, ltb, leb, ◌==◌, if◌then◌else◌,
  length, get_or, set, take, drop, replicate, u8, shr, shl,
}
use lalmax.Base.Int.{ℤ, sub_ℕ}
use lalmax.Base.Outcome.{ok, panic, Stateful, ◌>>◌, return}
use lalmax.Mpegps.BitStream.{bit_mask}

pub record BitStreamWriter : Type 0 where
  pub bits : List ℕ
  pub byteoffset : ℕ
  pub bitsoffset : ℕ
  pub bitsmark : ℕ
  pub bytemark : ℕ

unfoldable pub new_bit_stream_writer : ℕ → BitStreamWriter
new_bit_stream_writer n = record {
  bits = replicate n 0;
  byteoffset = 0;
  bitsoffset = 0;
  bitsmark = 0;
  bytemark = 0;
}

-- `(len-byteoffset-1)*8 + 8 - bitsoffset < n`, with the subtracted terms moved across.
unfoldable pub expand_space : ℕ → Stateful BitStreamWriter (Unit {0})
expand_space n w =
    let len = length w.bits in
    let newlen = if ltb (len * 8) n then len + n / 8 + 1 else len * 2 in
    if ltb (len * 8) (n + w.byteoffset * 8 + w.bitsoffset)
    then ok (tt, record w { bits = w.bits ++ replicate (newlen - len) 0 })
    else ok (tt, w)

-- `bits[i] = v` and `bits[i] |= v`, which panic out of range.
unfoldable pub assign_at : ℕ → ℕ → Stateful BitStreamWriter (Unit {0})
assign_at i v w =
    if ltb i (length w.bits) then ok (tt, record w { bits = set w.bits i v }) else panic

unfoldable pub or_at : ℕ → ℕ → Stateful BitStreamWriter (Unit {0})
unfolding assign_at
or_at i v w = assign_at i (bit_or (get_or w.bits i 0) v) w

unfoldable pub byte_offset : BitStreamWriter → ℕ
byte_offset w = w.byteoffset

unfoldable pub bit_offset : BitStreamWriter → ℕ
bit_offset w = w.bitsoffset

unfoldable pub mark_dot : Stateful BitStreamWriter (Unit {0})
mark_dot w = ok (tt, record w { bitsmark = w.bitsoffset; bytemark = w.byteoffset })

-- (byteoffset - bytemark - 1) * 8 + bitsoffset + (8 - bitsmark), summed before it is subtracted.
unfoldable pub distance_from_mark_dot : BitStreamWriter → ℤ
distance_from_mark_dot w = sub_ℕ (w.byteoffset * 8 + w.bitsoffset) (w.bytemark * 8 + w.bitsmark)

unfoldable pub advance_byte : Stateful BitStreamWriter (Unit {0})
advance_byte w = ok (tt, record w { byteoffset = w.byteoffset + 1 })

unfoldable pub store_byte : ℕ → Stateful BitStreamWriter (Unit {0})
unfolding or_at advance_byte
store_byte v w =
    if w.bitsoffset == 0
    then (do assign_at w.byteoffset v; advance_byte) w
    else (do
      or_at w.byteoffset (shr v w.bitsoffset)
      advance_byte
      assign_at (w.byteoffset + 1) (bit_and v (bit_mask (w.bitsoffset - 1))))
        w

unfoldable pub put_byte : ℕ → Stateful BitStreamWriter (Unit {0})
unfolding expand_space store_byte
put_byte v = do expand_space 8; store_byte v

-- `copy(dst[at:], v)`, which stops at the shorter of the two.
abbrev copy_at : ℕ → List ℕ → List ℕ → List ℕ
copy_at at v bits = take at bits ++ (take (length bits - at) v ++ drop (at + length v) bits)

unfoldable pub copy_in : List ℕ → Stateful BitStreamWriter (Unit {0})
copy_in v w =
    ok (tt, record w { bits = copy_at w.byteoffset v w.bits; byteoffset = w.byteoffset + length v })

unfoldable pub put_bytes : List ℕ → Stateful BitStreamWriter (Unit {0})
unfolding expand_space copy_in
put_bytes v w = if w.bitsoffset == 0 then (do expand_space (8 * length v); copy_in v) w else panic

unfoldable pub put_repet_loop : ℕ → ℕ → Stateful BitStreamWriter (Unit {0})
unfolding assign_at advance_byte
put_repet_loop zero v = return tt
put_repet_loop (suc n) v = do λ w. assign_at w.byteoffset v w; advance_byte; put_repet_loop n v

unfoldable pub put_repet_value : ℕ → ℕ → Stateful BitStreamWriter (Unit {0})
unfolding expand_space put_repet_loop
put_repet_value v n w =
    if w.bitsoffset == 0 then (do expand_space (8 * n); put_repet_loop n v) w else panic

-- The loop of `PutUint64`: `n / 8` rounds, each of which writes one whole byte.
unfoldable pub put_whole_bytes : ℕ → ℕ → ℕ → Stateful BitStreamWriter (Unit {0})
unfolding assign_at advance_byte
put_whole_bytes zero v n = return tt
put_whole_bytes (suc rounds) v n = do
  λ w. assign_at w.byteoffset (bit_and (u8 (shr v (n - 8))) 0xFF) w
  advance_byte
  put_whole_bytes rounds v (n - 8)

unfoldable pub set_bits_offset : ℕ → Stateful BitStreamWriter (Unit {0})
set_bits_offset k w = ok (tt, record w { bitsoffset = k })

-- The branch of `PutUint64` that stays in one byte. For `n` zero `BitMask[n-1]` panics.
unfoldable pub put_in_byte : ℕ → ℕ → Stateful BitStreamWriter (Unit {0})
unfolding or_at set_bits_offset advance_byte
put_in_byte v n w =
    if n == 0
    then panic
    else (do
      or_at w.byteoffset (u8 (shl (bit_and (u8 v) (bit_mask (n - 1))) (8 - w.bitsoffset - n)))
      (if w.bitsoffset + n == 8
          then (do set_bits_offset 0; advance_byte)
          else set_bits_offset (w.bitsoffset + n)))
        w

-- The last bits of `PutUint64`, fewer than eight.
unfoldable pub put_rest : ℕ → ℕ → Stateful BitStreamWriter (Unit {0})
unfolding or_at
put_rest v n w =
    if ltb 0 n
    then or_at w.byteoffset (u8 (shl (bit_and (u8 v) (bit_mask (n - 1))) (8 - n))) w
    else ok (tt, w)

-- The branch of `PutUint64` that leaves the byte.
unfoldable pub put_across : ℕ → ℕ → Stateful BitStreamWriter (Unit {0})
unfolding or_at advance_byte put_whole_bytes set_bits_offset put_rest
put_across v n w =
    let left = n - (8 - w.bitsoffset) in
    (do
      or_at w.byteoffset (bit_and (u8 (shr v left)) (bit_mask (8 - w.bitsoffset - 1)))
      advance_byte
      put_whole_bytes (left / 8) v left
      set_bits_offset (left % 8)
      put_rest v (left % 8))
      w

unfoldable pub put_uint64 : ℕ → ℕ → Stateful BitStreamWriter (Unit {0})
unfolding expand_space put_in_byte put_across
put_uint64 v n = do
  expand_space n
  λ w. if leb n (8 - w.bitsoffset) then put_in_byte v n w else put_across v n w

unfoldable pub put_uint8 : ℕ → ℕ → Stateful BitStreamWriter (Unit {0})
unfolding put_uint64
put_uint8 v n = put_uint64 v n

unfoldable pub put_uint16 : ℕ → ℕ → Stateful BitStreamWriter (Unit {0})
unfolding put_uint64
put_uint16 v n = put_uint64 v n

unfoldable pub put_uint32 : ℕ → ℕ → Stateful BitStreamWriter (Unit {0})
unfolding put_uint64
put_uint32 v n = put_uint64 v n

unfoldable pub set_byte : ℕ → ℕ → Stateful BitStreamWriter (Unit {0})
unfolding assign_at
set_byte v where_at = assign_at where_at v

-- Big-endian, through a slice that must lie inside `bits`.
unfoldable pub set_uint16 : ℕ → ℕ → Stateful BitStreamWriter (Unit {0})
set_uint16 v where_at w =
    if leb (where_at + 2) (length w.bits)
    then ok (tt, record w { bits = set (set w.bits where_at (u8 (shr v 8))) (where_at + 1) (u8 v) })
    else panic

unfoldable pub written : BitStreamWriter → List ℕ
written w =
    if w.byteoffset == length w.bits
    then w.bits
    else if ltb 0 w.bitsoffset
    then take (w.byteoffset + 1) w.bits
    else take w.byteoffset w.bits

unfoldable pub fill_remain_data : ℕ → BitStreamWriter → BitStreamWriter
fill_remain_data v w = record w {
  bits = take w.byteoffset w.bits ++ replicate (length w.bits - w.byteoffset) v;
  byteoffset = length w.bits;
  bitsoffset = 0;
}

unfoldable pub reset : BitStreamWriter → BitStreamWriter
reset w = record {
  bits = replicate (length w.bits) 0;
  byteoffset = 0;
  bitsoffset = 0;
  bitsmark = 0;
  bytemark = 0;
}
