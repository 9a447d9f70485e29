-- ===== src/Mpegps/Proto/Pes/Decode.antt =====
-- gb28181/mpegps/pes_proto.go: PesPacket.Decode, for MPEG-2.
use lalmax.Base.{
  ℕ, ◌+◌, ◌-◌, ◌*◌, ◌%◌, ◌^◌, bit_and, bit_or, Option, none, some, take, ◌==◌, ◌||◌, if◌then◌else◌,
  u64, shl,
}
use lalmax.Base.Int.{less, at_most, to_nat, sub_ℕ}
use lalmax.Base.Outcome.{Stateful, ◌>>=◌, ◌>>◌, return, query}
use lalmax.Mpegps.Error.{Error, need_more}
use lalmax.Mpegps.BitStream.{
  BitStream, get_bits, uint8, uint16, uint32, skip_bits, skip_int, mark_dot, distance_from_mark_dot,
  remain_bytes, remain_bits, remain_data, un_read,
}
use lalmax.Mpegps.Proto.PackHeader.{read_clock}
use lalmax.Mpegps.Proto.Pes.{PesPacket}

-- The fixed part of the header, nine bytes.
unfoldable pub read_header : PesPacket → Stateful BitStream PesPacket
unfolding uint8 uint16 skip_bits
read_header p = do
  skip_bits 24
  sid ← uint8 8
  packet_length ← uint16 16
  skip_bits 2
  scrambling ← uint8 2
  priority ← uint8 1
  alignment ← uint8 1
  copyright_bit ← uint8 1
  original ← uint8 1
  pts_dts ← uint8 2
  escr ← uint8 1
  es_rate_bit ← uint8 1
  trick ← uint8 1
  copy_info ← uint8 1
  crc_bit ← uint8 1
  extension ← uint8 1
  header_data ← uint8 8
  return (record p {
    stream_id = sid;
    pes_packet_length = packet_length;
    pes_scrambling_control = scrambling;
    pes_priority = priority;
    data_alignment_indicator = alignment;
    copyright = copyright_bit;
    original_or_copy = original;
    pts_dts_flags = pts_dts;
    escr_flag = escr;
    es_rate_flag = es_rate_bit;
    dsm_trick_mode_flag = trick;
    additional_copy_info_flag = copy_info;
    pes_crc_flag = crc_bit;
    pes_extension_flag = extension;
    pes_header_data_length = header_data;
  })

unfoldable pub read_pts : PesPacket → Stateful BitStream PesPacket
unfolding skip_bits read_clock
read_pts p =
    if bit_and p.pts_dts_flags 0x02 == 0x02
    then (do skip_bits 4; clock ← read_clock; return (record p { pts = clock }))
    else return p

unfoldable pub read_dts : PesPacket → Stateful BitStream PesPacket
unfolding skip_bits read_clock
read_dts p =
    if bit_and p.pts_dts_flags 0x03 == 0x03
    then (do skip_bits 4; clock ← read_clock; return (record p { dts = clock }))
    else return (record p { dts = p.pts })

-- Each later part of the ESCR replaces the base by the PTS with that part behind it.
unfoldable pub read_escr : PesPacket → Stateful BitStream PesPacket
unfolding skip_bits get_bits uint16
read_escr p =
    if p.escr_flag == 1
    then (do
      skip_bits 2
      _ ← get_bits 3
      skip_bits 1
      _ ← get_bits 15
      skip_bits 1
      low ← get_bits 15
      skip_bits 1
      extension ← uint16 9
      skip_bits 1
      return (record p { escr_base = bit_or (u64 (shl p.pts 15)) low; escr_extension = extension }))
    else return p

unfoldable pub read_es_rate : PesPacket → Stateful BitStream PesPacket
unfolding skip_bits uint32
read_es_rate p =
    if p.es_rate_flag == 1
    then (do skip_bits 1; rate ← uint32 22; skip_bits 1; return (record p { es_rate = rate }))
    else return p

unfoldable pub read_trick : PesPacket → Stateful BitStream PesPacket
unfolding uint8
read_trick p =
    if p.dsm_trick_mode_flag == 1
    then (do
      control ← uint8 3
      value ← uint8 5
      return (record p { trick_mode_control = control; trick_value = value }))
    else return p

unfoldable pub read_copy_info : PesPacket → Stateful BitStream PesPacket
unfolding uint8
read_copy_info p =
    if p.additional_copy_info_flag == 1
    then (do info ← uint8 7; return (record p { additional_copy_info = info }))
    else return p

unfoldable pub read_crc : PesPacket → Stateful BitStream PesPacket
unfolding uint16
read_crc p =
    if p.pes_crc_flag == 1
    then (do crc ← uint16 16; return (record p { previous_pes_packet_crc = crc }))
    else return p

-- The optional fields, from the mark on.
unfoldable pub read_options : PesPacket → Stateful BitStream PesPacket
unfolding read_pts read_dts read_escr read_es_rate read_trick read_copy_info read_crc
read_options p = do
  p1 ← read_pts p
  p2 ← read_dts p1
  p3 ← read_escr p2
  p4 ← read_es_rate p3
  p5 ← read_trick p4
  p6 ← read_copy_info p5
  read_crc p6

-- `int(PesPacketLength - 3 - uint16(PesHeaderDataLength))`, a uint16 difference.
unfoldable pub data_len : PesPacket → ℕ
data_len p = (p.pes_packet_length + 2 * 2 ^ 16 - 3 - p.pes_header_data_length) % 2 ^ 16

unfoldable pub read_payload : PesPacket → Stateful BitStream (PesPacket × Option Error)
unfolding data_len remain_bytes remain_bits remain_data un_read skip_bits skip_int
read_payload p = do
  left ← query remain_bytes
  if less left (data_len p)
      then (do
        rest ← remain_data
        un_read ((9 + p.pes_header_data_length) * 8)
        return (record p { pes_payload = rest }, some need_more))
      else (if p.pes_packet_length == 0 || at_most left (data_len p)
          then (do
            rest ← remain_data
            bits_left ← query remain_bits
            skip_int bits_left
            return (record p { pes_payload = rest }, none))
          else (do
            rest ← remain_data
            skip_bits (data_len p * 8)
            return (record p { pes_payload = take (data_len p) rest }, none)))

-- The mark is behind the read position, so the distance is not negative; what is skipped is, where
-- the optional fields are longer than the header says.
unfoldable pub read_body : PesPacket → Stateful BitStream (PesPacket × Option Error)
unfolding mark_dot read_options distance_from_mark_dot skip_int read_payload
read_body p = do
  mark_dot
  p' ← read_options p
  loc ← query distance_from_mark_dot
  skip_int (sub_ℕ (p'.pes_header_data_length * 8) (to_nat loc))
  read_payload p'

unfoldable pub decode : PesPacket → Stateful BitStream (PesPacket × Option Error)
unfolding remain_bytes read_header un_read read_body
decode p = do
  left ← query remain_bytes
  if less left 9 then return (p, some need_more) else (do
    p' ← read_header p
    left' ← query remain_bytes
    if less left' p'.pes_header_data_length
        then (do un_read (9 * 8); return (p', some need_more))
        else read_body p')
