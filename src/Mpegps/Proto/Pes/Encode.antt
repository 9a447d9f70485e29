-- ===== src/Mpegps/Proto/Pes/Encode.antt =====
-- gb28181/mpegps/pes_proto.go: PesPacket.Encode.
use lalmax.Base.{ℕ, [], ◌∷◌, ◌==◌, if◌then◌else◌, shr}
use lalmax.Base.Outcome.{Stateful, ◌>>◌, return}
use lalmax.Mpegps.BitStreamWriter.{
  BitStreamWriter, put_byte, put_bytes, put_uint8, put_uint16, put_uint64,
}
use lalmax.Mpegps.Proto.Pes.{PesPacket}

-- A clock value in three parts, each followed by a marker bit.
unfoldable pub put_clock : ℕ → Stateful BitStreamWriter (Unit {0})
unfolding put_uint8 put_uint64
put_clock clock = do
  put_uint64 (shr clock 30) 3
  put_uint8 0x01 1
  put_uint64 (shr clock 15) 15
  put_uint8 0x01 1
  put_uint64 clock 15
  put_uint8 0x01 1

-- The fixed part of the header, nine bytes.
unfoldable pub put_header : PesPacket → Stateful BitStreamWriter (Unit {0})
unfolding put_bytes put_byte put_uint8 put_uint16
put_header p = do
  put_bytes (0x00 ∷ 0x00 ∷ 0x01 ∷ [])
  put_byte p.stream_id
  put_uint16 p.pes_packet_length 16
  put_uint8 0x02 2
  put_uint8 p.pes_scrambling_control 2
  put_uint8 p.pes_priority 1
  put_uint8 p.data_alignment_indicator 1
  put_uint8 p.copyright 1
  put_uint8 p.original_or_copy 1
  put_uint8 p.pts_dts_flags 2
  put_uint8 p.escr_flag 1
  put_uint8 p.es_rate_flag 1
  put_uint8 p.dsm_trick_mode_flag 1
  put_uint8 p.additional_copy_info_flag 1
  put_uint8 p.pes_crc_flag 1
  put_uint8 p.pes_extension_flag 1
  put_byte p.pes_header_data_length

unfoldable pub put_stamps : PesPacket → Stateful BitStreamWriter (Unit {0})
unfolding put_uint8 put_clock
put_stamps p =
    if p.pts_dts_flags == 0x02
    then (do put_uint8 0x02 4; put_clock p.pts)
    else if p.pts_dts_flags == 0x03
    then (do put_uint8 0x03 4; put_clock p.pts; put_uint8 0x01 4; put_clock p.dts)
    else return tt

unfoldable pub put_escr : PesPacket → Stateful BitStreamWriter (Unit {0})
unfolding put_uint8 put_clock
put_escr p = if p.escr_flag == 1 then (do put_uint8 0x03 2; put_clock p.escr_base) else return tt

unfoldable pub encode : PesPacket → Stateful BitStreamWriter (Unit {0})
unfolding put_header put_stamps put_escr put_bytes
encode p = do put_header p; put_stamps p; put_escr p; put_bytes p.pes_payload
