-- ===== src/Fmp4/Message.antt =====
-- What fmp4 uses of lal's base.RtmpMsg. The messages and what is asked of one are a parameter.
use lalmax.Base.{ℕ, Bool, List}
use lalmax.Hook.Rtmp.{MsgType}

-- A video codec, or an audio codec, as far as the code tells them apart.
pub data Codec : Type 0 where
  avc hevc aac opus unknown : Codec

-- Times are in milliseconds.
pub record Message (M : Type 0) : Type 0 where
  pub msg_type : M → MsgType
  pub video_codec_id : M → Codec
  pub audio_codec_id : M → Codec
  pub dts : M → ℕ
  pub pts : M → ℕ
  pub cts : M → ℕ
  pub payload : M → List ℕ
  pub is_enhanced : M → Bool
  pub get_enchanced_hevc_nalu_index : M → ℕ
  pub is_video_key_nalu : M → Bool
  pub is_video_key_seq_header : M → Bool
  pub is_avc_key_seq_header : M → Bool
  pub is_avc_key_nalu : M → Bool
  pub is_hevc_key_nalu : M → Bool
  pub is_aac_seq_header : M → Bool
