-- ===== src/Mpegps/Proto/Directory.antt =====
-- gb28181/mpegps/ps_proto.go: ProgramStreamDirectory and CommonPesPacket, whose bodies are skipped.
use lalmax.Base.{ℕ, ◌*◌, Option, none, some, ◌==◌, if◌then◌else◌}
use lalmax.Base.Int.{less}
use lalmax.Base.Outcome.{Stateful, ◌>>=◌, ◌>>◌, return, query}
use lalmax.Mpegps.Error.{Error, need_more, bad_directory_start}
use lalmax.Mpegps.BitStream.{BitStream, uint8, uint16, uint32, skip_bits, remain_bytes, un_read}

pub record ProgramStreamDirectory : Type 0 where
  pub pes_packet_length : ℕ

pub record CommonPesPacket : Type 0 where
  pub stream_id : ℕ
  pub pes_packet_length : ℕ

-- The tail that both decoders share: the length field and the body behind it.
unfoldable pub skip_body : Stateful BitStream (ℕ × Option Error)
unfolding uint16 remain_bytes un_read skip_bits
skip_body = do
  body ← uint16 16
  left ← query remain_bytes
  if less left body
      then (do un_read (6 * 8); return (body, some need_more))
      else (do skip_bits (body * 8); return (body, none))

unfoldable pub decode_directory :
    ProgramStreamDirectory → Stateful BitStream (ProgramStreamDirectory × Option Error)
unfolding uint32 skip_body
decode_directory psd = do
  left ← query remain_bytes
  if less left 6 then return (psd, some need_more) else (do
    code ← uint32 32
    if code == 0x000001FF
        then (do r ← skip_body; return (record psd { pes_packet_length = r.0 }, r.1))
        else return (psd, some bad_directory_start))

unfoldable pub decode_common_pes :
    CommonPesPacket → Stateful BitStream (CommonPesPacket × Option Error)
unfolding uint8 skip_bits skip_body
decode_common_pes pes = do
  left ← query remain_bytes
  if less left 6 then return (pes, some need_more) else (do
    skip_bits 24
    sid ← uint8 8
    r ← skip_body
    return (record pes { stream_id = sid; pes_packet_length = r.0 }, r.1))
