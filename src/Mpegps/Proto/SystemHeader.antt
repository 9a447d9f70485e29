-- ===== src/Mpegps/Proto/SystemHeader.antt =====
-- gb28181/mpegps/ps_proto.go: SystemHeader and ElementaryStream.
use lalmax.Base.{
  ℕ, zero, suc, ◌-◌, ◌*◌, ◌/◌, ◌%◌, List, [], ◌∷◌, ◌++◌, Option, none, some, ltb, ◌==◌, ◌||◌, not,
  if◌then◌else◌, u16,
}
use lalmax.Base.Int.{less, to_nat}
use lalmax.Base.Outcome.{Stateful, ◌>>=◌, ◌>>◌, return, query}
use lalmax.Mpegps.Error.{Error, need_more, parser_error, bad_system_start}
use lalmax.Mpegps.BitStream.{
  BitStream, get_bit, uint8, uint16, uint32, skip_bits, remain_bytes, un_read, next_bits,
}
use lalmax.Mpegps.BitStreamWriter.{
  BitStreamWriter, put_bytes, put_uint8, put_uint16, put_uint32, byte_offset, mark_dot,
  distance_from_mark_dot, set_uint16,
}

pub record ElementaryStream : Type 0 where
  pub stream_id : ℕ
  pub p_std_buffer_bound_scale : ℕ
  pub p_std_buffer_size_bound : ℕ

unfoldable pub new_elementary_stream : ℕ → ElementaryStream
new_elementary_stream sid = record {
  stream_id = sid;
  p_std_buffer_bound_scale = 0;
  p_std_buffer_size_bound = 0;
}

pub record SystemHeader : Type 0 where
  pub header_length : ℕ
  pub rate_bound : ℕ
  pub audio_bound : ℕ
  pub fixed_flag : ℕ
  pub csps_flag : ℕ
  pub system_audio_lock_flag : ℕ
  pub system_video_lock_flag : ℕ
  pub video_bound : ℕ
  pub packet_rate_restriction_flag : ℕ
  pub streams : List ElementaryStream

-- `new(SystemHeader)`.
abbrev pub new_system_header : SystemHeader
new_system_header = record {
  header_length = 0;
  rate_bound = 0;
  audio_bound = 0;
  fixed_flag = 0;
  csps_flag = 0;
  system_audio_lock_flag = 0;
  system_video_lock_flag = 0;
  video_bound = 0;
  packet_rate_restriction_flag = 0;
  streams = [];
}

unfoldable pub encode_streams : List ElementaryStream → Stateful BitStreamWriter (Unit {0})
unfolding put_uint8 put_uint16
encode_streams [] = return tt
encode_streams (s ∷ rest) = do
  put_uint8 s.stream_id 8
  put_uint8 3 2
  put_uint8 s.p_std_buffer_bound_scale 1
  put_uint16 s.p_std_buffer_size_bound 13
  encode_streams rest

-- The mark is behind the write position, so the distance is not negative.
unfoldable pub encode : SystemHeader → Stateful BitStreamWriter (Unit {0})
unfolding put_bytes put_uint8 put_uint16 put_uint32 byte_offset mark_dot distance_from_mark_dot
    set_uint16 encode_streams
encode sh = do
  put_bytes (0x00 ∷ 0x00 ∷ 0x01 ∷ 0xBB ∷ [])
  loc ← query byte_offset
  put_uint16 0 16
  mark_dot
  put_uint8 1 1
  put_uint32 sh.rate_bound 22
  put_uint8 1 1
  put_uint8 sh.audio_bound 6
  put_uint8 sh.fixed_flag 1
  put_uint8 sh.csps_flag 1
  put_uint8 sh.system_audio_lock_flag 1
  put_uint8 sh.system_video_lock_flag 1
  put_uint8 1 1
  put_uint8 sh.video_bound 5
  put_uint8 sh.packet_rate_restriction_flag 1
  put_uint8 0x7F 7
  encode_streams sh.streams
  distance ← query distance_from_mark_dot
  set_uint16 (u16 (to_nat distance / 8)) loc

unfoldable pub read_stream : Stateful BitStream ElementaryStream
unfolding uint8 uint16 skip_bits get_bit
read_stream = do
  sid ← uint8 8
  skip_bits 2
  scale ← get_bit
  size ← uint16 13
  let es = record (new_elementary_stream sid) {
    p_std_buffer_bound_scale = scale;
    p_std_buffer_size_bound = size;
  }
  return es

-- The loop over the streams: `least` falls by 3 in each round, from a multiple of 3, so the rounds
-- left count it. The result says how many are left.
unfoldable pub read_streams :
    ℕ → List ElementaryStream → Stateful BitStream (List ElementaryStream × ℕ)
unfolding next_bits read_stream
read_streams zero streams = return (streams, 0)
read_streams (suc rounds) streams = do
  more ← next_bits 1
  if more == 0x01
      then (do es ← read_stream; read_streams rounds (streams ++ (es ∷ [])))
      else return (streams, suc rounds)

-- Everything behind the length field.
unfoldable pub decode_body : SystemHeader → Stateful BitStream (SystemHeader × Option Error)
unfolding uint8 uint32 skip_bits read_streams
decode_body sh = do
  skip_bits 1
  rate ← uint32 22
  skip_bits 1
  audio ← uint8 6
  fixed ← uint8 1
  csps ← uint8 1
  audio_lock ← uint8 1
  video_lock ← uint8 1
  skip_bits 1
  video ← uint8 5
  restriction ← uint8 1
  skip_bits 7
  r ← read_streams ((sh.header_length - 6) / 3) []
  let sh' = record sh {
    rate_bound = rate;
    audio_bound = audio;
    fixed_flag = fixed;
    csps_flag = csps;
    system_audio_lock_flag = audio_lock;
    system_video_lock_flag = video_lock;
    video_bound = video;
    packet_rate_restriction_flag = restriction;
    streams = r.0;
  }
  return (sh', (if ltb 0 r.1 then some parser_error else none))

unfoldable pub decode_length : SystemHeader → Stateful BitStream (SystemHeader × Option Error)
unfolding uint16 remain_bytes un_read decode_body
decode_length sh = do
  length_field ← uint16 16
  let sh' = record sh { header_length = length_field }
  left ← query remain_bytes
  if less left length_field
      then (do un_read (6 * 8); return (sh', some need_more))
      else (if ltb length_field 6 || not ((length_field - 6) % 3 == 0)
          then return (sh', some parser_error)
          else decode_body sh')

unfoldable pub decode : SystemHeader → Stateful BitStream (SystemHeader × Option Error)
unfolding decode_length uint32
decode sh = do
  left ← query remain_bytes
  if less left 12 then return (sh, some need_more) else (do
    code ← uint32 32
    if code == 0x000001BB then decode_length sh else return (sh, some bad_system_start))
