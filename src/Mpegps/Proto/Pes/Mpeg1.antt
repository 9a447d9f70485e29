-- ===== src/Mpegps/Proto/Pes/Mpeg1.antt =====
-- gb28181/mpegps/pes_proto.go: PesPacket.DecodeMpeg1.
use lalmax.Base.{
  ℕ, zero, suc, ◌+◌, ◌-◌, ◌*◌, ◌/◌, bit_or, Option, none, some, length, take, ltb, ◌==◌, not, ◌&&◌,
  ◌||◌, if◌then◌else◌, u16, u64, shl,
}
use lalmax.Base.Int.{less, at_most, to_nat}
use lalmax.Base.Outcome.{stuck, Stateful, ◌>>=◌, ◌>>◌, return, query}
use lalmax.Mpegps.Error.{Error, need_more, parser_error}
use lalmax.Mpegps.BitStream.{
  BitStream, get_bits, uint8, uint16, skip_bits, skip_int, mark_dot, distance_from_mark_dot,
  remain_bytes, remain_bits, remain_data, un_read, next_bits,
}
use lalmax.Mpegps.Proto.PackHeader.{read_clock}
use lalmax.Mpegps.Proto.Pes.{PesPacket}

-- `for bs.NextBits(8) == 0xFF`. Each round skips a byte, so the bytes of the slice are fuel enough:
-- past the last of them `NextBits` panics.
unfoldable pub skip_stuffing : ℕ → Stateful BitStream (Unit {0})
unfolding next_bits skip_bits
skip_stuffing zero s = stuck
skip_stuffing (suc fuel) s =
    (do
      byte ← next_bits 8
      if byte == 0xFF then (do skip_bits 8; skip_stuffing fuel) else return tt)
      s

-- The DTS behind a PTS: no bits are skipped before it, and each later part replaces it by the PTS
-- with that part behind it.
unfoldable pub read_dts : PesPacket → Stateful BitStream PesPacket
unfolding get_bits skip_bits
read_dts p = do
  _ ← get_bits 3
  skip_bits 1
  _ ← get_bits 15
  skip_bits 1
  low ← get_bits 15
  skip_bits 1
  return (record p { dts = bit_or (u64 (shl p.pts 15)) low })

unfoldable pub read_stamps : PesPacket → Stateful BitStream (PesPacket × Option Error)
unfolding next_bits skip_bits read_clock read_dts
read_stamps p = do
  four ← next_bits 4
  if four == 0x02
      then (do skip_bits 4; clock ← read_clock; return (record p { pts = clock }, none))
      else (if four == 0x03
          then (do
            skip_bits 4
            clock ← read_clock
            p' ← read_dts (record p { pts = clock })
            return (p', none))
          else (do
            byte ← next_bits 8
            if byte == 0x0F
                then (do skip_bits 8; return (p, none))
                else return (p, some parser_error)))

unfoldable pub read_payload : PesPacket → Stateful BitStream (PesPacket × Option Error)
unfolding distance_from_mark_dot remain_bits remain_data skip_bits skip_int
read_payload p = do
  distance ← query distance_from_mark_dot
  let loc = u16 (to_nat distance / 8)
  if ltb p.pes_packet_length loc then return (p, some parser_error) else (do
    bits_left ← query remain_bits
    if p.pes_packet_length == 0 || at_most bits_left ((p.pes_packet_length - loc) * 8)
        then (do
          rest ← remain_data
          skip_int bits_left
          return (record p { pes_payload = rest }, none))
        else (do
          rest ← remain_data
          skip_bits ((p.pes_packet_length - loc) * 8)
          return (record p { pes_payload = take (p.pes_packet_length - loc) rest }, none)))

-- From the mark on.
unfoldable pub read_body : PesPacket → Stateful BitStream (PesPacket × Option Error)
unfolding mark_dot skip_stuffing next_bits skip_bits read_stamps read_payload
read_body p = do
  mark_dot
  bytes ← query (λ (s : BitStream). length s.bits)
  skip_stuffing (bytes + 1)
  two ← next_bits 2
  if two == 0x01 then skip_bits 16 else return tt
  r ← read_stamps p
  elim r.1 [ some e ↦ return (r.0, some e) | none ↦ read_payload r.0 ]

unfoldable pub decode_mpeg1 : PesPacket → Stateful BitStream (PesPacket × Option Error)
unfolding remain_bytes skip_bits uint8 uint16 un_read read_body
decode_mpeg1 p = do
  left ← query remain_bytes
  if less left 6 then return (p, some need_more) else (do
    skip_bits 24
    sid ← uint8 8
    packet_length ← uint16 16
    let p' = record p { stream_id = sid; pes_packet_length = packet_length }
    left' ← query remain_bytes
    if not (packet_length == 0) && less left' packet_length
        then (do un_read (6 * 8); return (p', some need_more))
        else read_body p')
