-- ===== src/Mpegps/Verify.antt =====
-- gb28181/mpegps/util.go: guesses at the codec of a payload.
use lalmax.Base.{
  ℕ, zero, suc, ◌+◌, ◌-◌, ◌^◌, bit_and, bit_or, Bool, false, List, [], ◌∷◌, Option, none, some,
  length, get_or, drop, ltb, leb, ◌==◌, ◌&&◌, not, if◌then◌else◌, shr, shl,
}
use lalmax.Base.Outcome.{Outcome, ok, panic}

abbrev pub ps_stream_unknow : ℕ
ps_stream_unknow = 0xFF

abbrev pub ps_stream_aac : ℕ
ps_stream_aac = 0x0F

abbrev pub ps_stream_h264 : ℕ
ps_stream_h264 = 0x1B

abbrev pub ps_stream_h265 : ℕ
ps_stream_h265 = 0x24

abbrev pub ps_stream_g711a : ℕ
ps_stream_g711a = 0x90

abbrev pub ps_stream_g711u : ℕ
ps_stream_g711u = 0x91

pub data Codec : Type 0 where
  unknown h264 h265 h266 mpeg4 : Codec

-- The loop of `mpegH264FindNALU` at index `i`, over the bytes from there on: the index behind the
-- start code. It stops two bytes before the end.
unfoldable pub find_nalu_loop : List ℕ → ℕ → ℕ → Option ℕ
find_nalu_loop (b ∷ c ∷ d ∷ rest) i run =
    let more = find_nalu_loop (c ∷ d ∷ rest) (i + 1) (if b == 0 then run + 1 else 0) in
    if b == 0x01 && leb 2 run then some (i + 1) else more
find_nalu_loop _ i run = none

-- `none` is the error that no NALU is found.
unfoldable pub mpeg_h264_find_nalu : List ℕ → Option ℕ
unfolding find_nalu_loop
mpeg_h264_find_nalu bytes = find_nalu_loop bytes 0 0

-- The first two bytes of a NALU, from which a column of the table `h26x` is computed.
pub record NaluHead : Type 0 where
  pub first_byte : ℕ
  pub second_byte : ℕ

-- The loop that collects at most ten NALUs; `room` counts those still allowed. Both bytes are in
-- range, since the search stops two bytes before the end.
unfoldable pub collect_nalus : ℕ → List ℕ → List NaluHead
unfolding mpeg_h264_find_nalu
collect_nalus zero bytes = []
collect_nalus (suc room) bytes = elim (mpeg_h264_find_nalu bytes) [
  | none ↦ []
  | some n ↦
      let head : NaluHead = record {
        first_byte = get_or bytes n 0;
        second_byte = get_or bytes (n + 1) 0;
      } in
      if ltb (length bytes) (n + 1) then [] else head ∷ collect_nalus room (drop n bytes)
]

-- `flags &= ^(1 << t)`, in `width` bits.
unfoldable pub clear_flag : ℕ → ℕ → ℕ → ℕ
clear_flag width flags t = bit_and flags (2 ^ width - 1 - 2 ^ t)

pub record Flags : Type 0 where
  pub h264_flags : ℕ
  pub h265_flags : ℕ
  pub h266_flags : ℕ

unfoldable pub clear_flags : Flags → List NaluHead → Flags
unfolding clear_flag
clear_flags f [] = f
clear_flags f (n ∷ rest) =
    clear_flags
      (record f {
        h264_flags = clear_flag 32 f.h264_flags (bit_and n.first_byte 0x1F);
        h265_flags = clear_flag 64 f.h265_flags (bit_and (shr n.first_byte 1) 0x3F);
        h266_flags = clear_flag 32 f.h266_flags (bit_and (shr n.second_byte 3) 0x1F);
      })
      rest

-- Whether the first NALU, if any, is an MPEG-4 visual object sequence.
unfoldable pub is_vop : List NaluHead → Bool
is_vop [] = false
is_vop (n ∷ rest) = (n.first_byte == 0xB0) && (bit_and n.second_byte 0x30 == 0)

unfoldable pub judge : Flags → List NaluHead → Codec
unfolding is_vop
judge f nalus =
    if f.h264_flags == 0 && not (f.h265_flags == 0) && not (f.h266_flags == 0)
    then Codec.h264
    else if f.h265_flags == 0 && not (f.h264_flags == 0) && not (f.h266_flags == 0)
    then Codec.h265
    else if f.h266_flags == 0 && not (f.h264_flags == 0) && not (f.h265_flags == 0)
    then Codec.h266
    else if is_vop nalus
    then Codec.mpeg4
    else Codec.unknown

unfoldable pub mpeg_h26x_verify : List ℕ → Codec
unfolding collect_nalus clear_flags judge
mpeg_h26x_verify bytes =
    let nalus = collect_nalus 10 bytes in
    judge
      (clear_flags (record { h264_flags = 0x01A0; h265_flags = 0x7_0000_0000; h266_flags = 0xC000 })
        nalus)
      nalus

-- The frame length of an ADTS header.
unfoldable pub adts_length : List ℕ → ℕ
adts_length bytes =
    bit_or (bit_or (shl (bit_and (get_or bytes 3 0) 0x03) 11) (shl (get_or bytes 4 0) 3))
      (bit_and (shr (get_or bytes 5 0) 5) 0x07)

-- `data[0]` and then `data[1]` are read before the length is looked at.
unfoldable pub audio_verify : List ℕ → Outcome ℕ
unfolding adts_length
audio_verify [] = panic
audio_verify (a ∷ []) = if a == 0xFF then panic else ok ps_stream_g711a
audio_verify (a ∷ b ∷ rest) =
    if a == 0xFF
      && bit_and b 0xF0 == 0xF0
      && ltb 7 (length (a ∷ b ∷ rest))
      && length (a ∷ b ∷ rest) == adts_length (a ∷ b ∷ rest)
    then ok ps_stream_aac
    else ok ps_stream_g711a
