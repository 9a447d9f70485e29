-- ===== src/Rtc/Unpacker.antt =====
-- rtc/unpacker.go: how received packets become frames. The reordering, the times and the decoders are
-- libraries': each packet that comes out of the reordering is a parameter with its time, if it has one,
-- and with what the decoder of its format gives.
use lalmax.Base.{ℕ, Bool, List, [], ◌∷◌, ◌++◌, Option, none, some, if◌then◌else◌, length, ◌==◌}
use lalmax.Base.Outcome.{Outcome, ok, panic, then_outcome}
use lalmax.Base.Text.{Text, text_eq, codes}
use lalmax.Rtc.Packer.{start_code4}

pub data PayloadType : Type 0 where
  avc g711a g711u opus hevc unset : PayloadType

pub data Decoder : Type 0 where
  h264 h265 opus_decoder : Decoder

pub record UnPacker : Type 0 where
  pub payload_type : PayloadType
  pub dec : Option Decoder

pub record AvPacket : Type 0 where
  pub payload_type : PayloadType
  pub timestamp : ℕ
  pub payload : List ℕ

-- A decoder's answer: a frame, not enough yet, or another error.
pub data Decoded : Type 0 where
  frame : List ℕ → Decoded
  need_more_frames failed : Decoded

-- What a library's decoder gives for a packet: NALUs or a payload, or an error.
pub record Arrived : Type 0 where
  pub pts : Option ℕ
  pub nalus : Option (List (List ℕ))
  pub payload : Option (List ℕ)

-- G711 has no decoder.
unfoldable pub new_un_packer : Text → UnPacker
unfolding text_eq
new_un_packer mime_type =
    if text_eq mime_type (codes "video/H264")
    then record { payload_type = PayloadType.avc; dec = some Decoder.h264 }
    else if text_eq mime_type (codes "audio/PCMA")
    then record { payload_type = PayloadType.g711a; dec = none }
    else if text_eq mime_type (codes "audio/PCMU")
    then record { payload_type = PayloadType.g711u; dec = none }
    else if text_eq mime_type (codes "audio/opus")
    then record { payload_type = PayloadType.opus; dec = some Decoder.opus_decoder }
    else if text_eq mime_type (codes "video/H265")
    then record { payload_type = PayloadType.hevc; dec = some Decoder.h265 }
    else record { payload_type = PayloadType.unset; dec = none }

-- NALUs behind start codes.
unfoldable pub join_nalus : List (List ℕ) → List ℕ
join_nalus [] = []
join_nalus (n ∷ rest) = start_code4 ++ (n ++ join_nalus rest)

unfoldable pub decode_nalus : Option (List (List ℕ)) → Decoded
unfolding join_nalus
decode_nalus none = need_more_frames
decode_nalus (some nalus) = if length nalus == 0 then failed else frame (join_nalus nalus)

unfoldable pub decode_payload : Option (List ℕ) → Decoded
decode_payload none = failed
decode_payload (some p) = frame p

-- Decode of a session without a decoder is a call of a nil interface.
unfoldable pub decode : Option Decoder → Arrived → Outcome Decoded
unfolding decode_nalus decode_payload
decode none a = panic
decode (some Decoder.h264) a = ok (decode_nalus a.nalus)
decode (some Decoder.h265) a = ok (decode_nalus a.nalus)
decode (some Decoder.opus_decoder) a = ok (decode_payload a.payload)

-- The packets that go to the channel.
unfoldable pub unpack_all : UnPacker → List Arrived → Outcome (List AvPacket)
unfolding decode
unpack_all un [] = ok []
unpack_all un (a ∷ rest) =
    let later = unpack_all un rest in
    elim a.pts [
      | none ↦ later
      | some pts ↦ then_outcome (decode un.dec a) (λ d. elim d [
        | frame p ↦ then_outcome later (λ ps.
            ok (record { payload_type = un.payload_type; timestamp = pts; payload = p } ∷ ps))
        | need_more_frames ↦ later
        | failed ↦ ok []
      ])
    ]

-- A loss drops what came out of the reordering with it.
unfoldable pub un_pack : UnPacker → Bool → List Arrived → Outcome (List AvPacket)
unfolding unpack_all
un_pack un lost packets = if lost then ok [] else unpack_all un packets
