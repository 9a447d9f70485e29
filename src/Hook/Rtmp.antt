-- ===== src/Hook/Rtmp.antt =====
-- What hook uses of lal's base.RtmpMsg. The messages and what is asked of one are a parameter.
use lalmax.Base.{Bool}

-- base.RtmpTypeId, as far as it is used.
pub data MsgType : Type 0 where
  metadata audio video other : MsgType

pub record Rtmp (M : Type 0) : Type 0 where
  pub msg_type : M → MsgType
  pub is_aac_seq_header : M → Bool
  -- The audio codec is G711A, G711U or Opus.
  pub is_plain_audio : M → Bool
  pub is_video_key_seq_header : M → Bool
  pub is_video_key_nalu : M → Bool
