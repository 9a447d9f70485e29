-- ===== src/Gb28181/Conn.antt =====
-- gb28181/mediaserver/conn.go: how a media connection cuts a buffer into PS packets, and what it does
-- with a frame of the demuxer. The calls of FeedAvPacket are a list in the state, oldest first.
pub mod Split
use lalmax.Base.{
  ℕ, zero, suc, ◌+◌, ◌-◌, ◌%◌, ◌^◌, Bool, true, false, List, [], ◌∷◌, ◌++◌, Option, none, some,
  length, get_or, ltb, leb, ◌==◌, ◌&&◌, ◌||◌, not, if◌then◌else◌,
}
use lalmax.Mpegps.Verify.{
  ps_stream_aac, ps_stream_h264, ps_stream_h265, ps_stream_g711a, ps_stream_g711u,
}

-- base.AvPacketPt, as far as it is used.
pub data PayloadType : Type 0 where
  aac g711a g711u avc hevc unknown : PayloadType

unfoldable pub get_payload_type : ℕ → PayloadType
get_payload_type cid =
    if cid == ps_stream_aac
    then PayloadType.aac
    else if cid == ps_stream_g711a
    then PayloadType.g711a
    else if cid == ps_stream_g711u
    then PayloadType.g711u
    else if cid == ps_stream_h264
    then PayloadType.avc
    else if cid == ps_stream_h265
    then PayloadType.hevc
    else PayloadType.unknown

unfoldable pub is_audio : PayloadType → Bool
is_audio PayloadType.aac = true
is_audio PayloadType.g711a = true
is_audio PayloadType.g711u = true
is_audio _ = false

pub record FrameClock : Type 0 where
  pub pts : ℕ
  pub dts : ℕ
  pub init_pts : ℕ
  pub init_dts : ℕ

-- The stamps are int64, here as the uint64 of the same bits.
pub record AvPacket : Type 0 where
  pub payload_type : PayloadType
  pub timestamp : ℕ
  pub pts : ℕ
  pub payload : List ℕ

-- `zero_times` is psPtsZeroTimes, with `none` for -1.
pub record Conn : Type 0 where
  pub video_frame : FrameClock
  pub audio_frame : FrameClock
  pub rtp_pts : ℕ
  pub zero_times : Option ℕ
  pub fed : List AvPacket

-- psPtsZeroTimes after a frame.
unfoldable pub count_zero : ℕ → Option ℕ → Option ℕ
count_zero pts none = none
count_zero pts (some n) = if pts == 0 then some (n + 1) else none

unfoldable pub over_ten : Option ℕ → Bool
over_ten none = false
over_ten (some n) = ltb 10 n

-- The stamps that a frame is given: the RTP time stamp for both, once too many were 0.
unfoldable pub stamps : ℕ → ℕ → Conn → ℕ × ℕ
unfolding count_zero over_ten
stamps pts dts c =
    if pts == 0 && over_ten (count_zero pts c.zero_times)
    then (c.rtp_pts, c.rtp_pts)
    else (pts, dts)

unfoldable pub start_clock : ℕ → ℕ → FrameClock → FrameClock
start_clock pts dts f = record f {
  init_pts = if f.init_pts == 0 then pts else f.init_pts;
  init_dts = if f.init_dts == 0 then dts else f.init_dts;
}

-- A difference of uint64.
unfoldable pub sub_u64 : ℕ → ℕ → ℕ
sub_u64 a b = (a + 2 ^ 64 - b) % 2 ^ 64

unfoldable pub feed_audio : PayloadType → List ℕ → ℕ → ℕ → Conn → Conn
unfolding start_clock sub_u64
feed_audio t frame pts dts c =
    let clock = start_clock pts dts c.audio_frame in
    record c {
      audio_frame = clock;
      fed =
          c.fed
          ++ (record {
            payload_type = t;
            timestamp = sub_u64 dts clock.init_dts;
            pts = sub_u64 pts clock.init_pts;
            payload = frame;
          }
              ∷ []);
    }

unfoldable pub feed_video : PayloadType → List ℕ → ℕ → ℕ → Conn → Conn
unfolding start_clock sub_u64
feed_video t frame pts dts c =
    let clock = start_clock pts dts c.video_frame in
    let clock' = record clock {
      pts = sub_u64 pts clock.init_pts;
      dts = sub_u64 dts clock.init_dts;
    } in
    record c {
      video_frame = clock';
      fed =
          c.fed
          ++ (record { payload_type = t; timestamp = clock'.dts; pts = clock'.pts; payload = frame }
              ∷ []);
    }

unfoldable pub feed_known : PayloadType → List ℕ → ℕ → ℕ → Conn → Conn
unfolding count_zero stamps is_audio feed_audio feed_video
feed_known t frame pts dts c =
    let (pts', dts') = stamps pts dts c in
    let c' = record c { zero_times = count_zero pts c.zero_times } in
    if is_audio t then feed_audio t frame pts' dts' c' else feed_video t frame pts' dts' c'

unfoldable pub on_frame : List ℕ → ℕ → ℕ → ℕ → Conn → Conn
unfolding get_payload_type feed_known
on_frame frame cid pts dts c = elim (get_payload_type cid) [
  | PayloadType.unknown ↦ c
  | t ↦ feed_known t frame pts dts c
]

-- Whether a slice begins with the start code of a pack header.
unfoldable pub is_pack_start : List ℕ → Bool
is_pack_start (a ∷ b ∷ c ∷ d ∷ rest) = (a == 0x00) && (b == 0x00) && (c == 0x01) && (d == 0xBA)
is_pack_start _ = false

-- The loop of `splitPsPackets`: what is behind the index, and the bytes since `start`.
unfoldable pub split_loop : List ℕ → List ℕ → List (List ℕ)
unfolding is_pack_start
split_loop current [] = current ∷ []
split_loop current (b ∷ rest) =
    let cut = current ∷ split_loop (b ∷ []) rest in
    let grown = split_loop (current ++ (b ∷ [])) rest in
    if is_pack_start (b ∷ rest) then cut else grown

-- At index 0 the loop does not cut.
unfoldable pub split_ps_packets : List ℕ → List (List ℕ)
unfolding split_loop
split_ps_packets [] = [] ∷ []
split_ps_packets (b ∷ rest) = split_loop (b ∷ []) rest

-- The test of `Demuxer` on the first four bytes of its buffer.
unfoldable pub is_invalid_ps : List ℕ → Bool
is_invalid_ps buf =
    not (get_or buf 0 0 == 0x00)
    && not (get_or buf 1 0 == 0x00)
    && not (get_or buf 2 0 == 0x01)
    && not (get_or buf 3 0 == 0xBA)

-- What `Demuxer` makes of what it is given: an error, or the packets handed to the demuxer. The
-- buffer stays as it is unless there are two packets at least; then the last one is kept.
pub record DemuxerStep : Type 0 where
  pub buffer : List ℕ
  pub inputs : List (List ℕ)
  pub invalid : Bool

unfoldable pub hand_over : List (List ℕ) → DemuxerStep → DemuxerStep
hand_over [] r = r
hand_over (p ∷ []) r = record r { buffer = p }
hand_over (p ∷ q ∷ rest) r = hand_over (q ∷ rest) (record r { inputs = r.inputs ++ (p ∷ []) })

unfoldable pub demuxer : List ℕ → List ℕ → DemuxerStep
unfolding is_invalid_ps split_ps_packets hand_over
demuxer buffer bytes =
    let buf = buffer ++ bytes in
    let idle : DemuxerStep = record { buffer = buf; inputs = []; invalid = false } in
    if ltb (length buf) 4
    then idle
    else if is_invalid_ps buf
    then record idle { invalid = true }
    else if leb (length (split_ps_packets buf)) 1
    then idle
    else hand_over (split_ps_packets buf) idle
