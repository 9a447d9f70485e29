-- ===== src/Mpegps/Proto/Pes.antt =====
-- gb28181/mpegps/pes_proto.go: PesPacket, with its codecs in the children.
pub mod Decode
pub mod Mpeg1
pub mod Encode
use lalmax.Base.{ℕ, List, [], ◌||◌, ◌==◌, if◌then◌else◌}

pub record PesPacket : Type 0 where
  pub stream_id : ℕ
  pub pes_packet_length : ℕ
  pub pes_scrambling_control : ℕ
  pub pes_priority : ℕ
  pub data_alignment_indicator : ℕ
  pub copyright : ℕ
  pub original_or_copy : ℕ
  pub pts_dts_flags : ℕ
  pub escr_flag : ℕ
  pub es_rate_flag : ℕ
  pub dsm_trick_mode_flag : ℕ
  pub additional_copy_info_flag : ℕ
  pub pes_crc_flag : ℕ
  pub pes_extension_flag : ℕ
  pub pes_header_data_length : ℕ
  pub pts : ℕ
  pub dts : ℕ
  pub escr_base : ℕ
  pub escr_extension : ℕ
  pub es_rate : ℕ
  pub trick_mode_control : ℕ
  pub trick_value : ℕ
  pub additional_copy_info : ℕ
  pub previous_pes_packet_crc : ℕ
  pub pes_payload : List ℕ

unfoldable pub new_pes_packet : PesPacket
new_pes_packet = record {
  stream_id = 0;
  pes_packet_length = 0;
  pes_scrambling_control = 0;
  pes_priority = 0;
  data_alignment_indicator = 0;
  copyright = 0;
  original_or_copy = 0;
  pts_dts_flags = 0;
  escr_flag = 0;
  es_rate_flag = 0;
  dsm_trick_mode_flag = 0;
  additional_copy_info_flag = 0;
  pes_crc_flag = 0;
  pes_extension_flag = 0;
  pes_header_data_length = 0;
  pts = 0;
  dts = 0;
  escr_base = 0;
  escr_extension = 0;
  es_rate = 0;
  trick_mode_control = 0;
  trick_value = 0;
  additional_copy_info = 0;
  previous_pes_packet_crc = 0;
  pes_payload = [];
}

abbrev pub pes_stream_private : ℕ
pes_stream_private = 0xBD

abbrev pub pes_stream_audio : ℕ
pes_stream_audio = 0xC0

abbrev pub pes_stream_video : ℕ
pes_stream_video = 0xE0

-- TsStreamAudioMpeg1, TsStreamAudioMpeg2, TsStreamAac; TsStreamH264, TsStreamH265.
unfoldable pub find_pes_id_by_stream_type : ℕ → ℕ
find_pes_id_by_stream_type cid =
    if cid == 0x0F || cid == 0x03 || cid == 0x04
    then pes_stream_audio
    else if cid == 0x1B || cid == 0x24
    then pes_stream_video
    else pes_stream_private
