-- ===== src/Fmp4/HttpFmp4.antt =====
-- fmp4/http-fmp4/session.go: the fragments that a session sends. The three fields of each track are a
-- record; what is written to the connection is a list of fragments, oldest first. The MP4 boxes are
-- mp4ff's.
pub mod Fragments
pub mod Samples
use lalmax.Base.{
  ℕ, ◌+◌, ◌-◌, ◌%◌, ◌^◌, Bool, true, false, List, [], ◌∷◌, ◌++◌, Option, none, some, ltb, ◌==◌,
  if◌then◌else◌, length, drop, u32,
}
use lalmax.Base.Outcome.{Outcome, ok, panic, then_outcome}
use lalmax.Base.Text.{Text, codes}
use lalmax.Hook.Rtmp.{MsgType}
use lalmax.Fmp4.Message.{Codec, Message}

pub record Sample : Type 0 where
  pub payload : List ℕ
  pub decode_time : ℕ
  pub sync : Bool
  pub dur : ℕ
  pub composition_time_offset : ℕ

pub record Fragment : Type 0 where
  pub sequence_number : ℕ
  pub track_id : ℕ
  pub samples : List Sample

pub record Track : Type 0 where
  pub id : ℕ
  pub last_dts : ℕ
  pub fragment : Option Fragment

pub record HttpFmp4Session : Type 0 where
  pub video : Track
  pub audio : Track
  pub seq_number : ℕ
  pub sent : List Fragment

-- The time since the last message, modulo 2 ^ 32; none has been seen while the last time is 0.
unfoldable pub duration_of : ℕ → ℕ → ℕ
duration_of last dts = if last == 0 then 0 else (dts + 2 ^ 32 - last) % 2 ^ 32

-- A fragment of more than ten samples is sent.
unfoldable pub flush : Option Fragment → Option Fragment × List Fragment
flush none = (none, [])
flush (some f) = if ltb 10 (length f.samples) then (none, f ∷ []) else (some f, [])

-- A fragment that is open, or a new one with the next sequence number.
unfoldable pub open_fragment : ℕ → ℕ → Option Fragment → Fragment × ℕ
open_fragment seq id (some f) = (f, seq)
open_fragment seq id none =
    let n = u32 (seq + 1) in (record { sequence_number = n; track_id = id; samples = [] }, n)

unfoldable pub add_full_sample : Sample → Fragment → Fragment
add_full_sample x f = record f { samples = f.samples ++ (x ∷ []) }

-- A track with one sample more: the track, the fragments that are sent, the sequence number.
unfoldable pub feed_track : Sample → ℕ → Track → Track × List Fragment × ℕ
unfolding flush open_fragment add_full_sample
feed_track x seq t =
    let flushed = flush t.fragment in
    let opened = open_fragment seq t.id flushed.0 in
    (
      record t { last_dts = x.decode_time; fragment = some (add_full_sample x opened.0) },
      flushed.1,
      opened.1,
    )

unfoldable pub is_h26x : Codec → Bool
is_h26x Codec.avc = true
is_h26x Codec.hevc = true
is_h26x c = false

unfoldable pub is_aac : Codec → Bool
is_aac Codec.aac = true
is_aac c = false

module _ {M : Type 0} (i : Message M) where
  unfoldable pub video_index : M → ℕ
  video_index m = if i.is_enhanced m then i.get_enchanced_hevc_nalu_index m else 5

  unfoldable pub video_sample : Track → M → Sample
  unfolding duration_of video_index
  video_sample t m = record {
    payload = drop (video_index m) (i.payload m);
    decode_time = i.dts m;
    sync = i.is_video_key_nalu m;
    dur = duration_of t.last_dts (i.dts m);
    composition_time_offset = i.cts m;
  }

  unfoldable pub audio_sample : Track → M → Sample
  unfolding duration_of
  audio_sample t m = record {
    payload = drop 2 (i.payload m);
    decode_time = i.dts m;
    sync = false;
    dur = duration_of t.last_dts (i.dts m);
    composition_time_offset = 0;
  }

  -- A payload that is shorter than its head panics.
  unfoldable pub feed_video : M → HttpFmp4Session → Outcome HttpFmp4Session
  unfolding is_h26x video_index video_sample feed_track
  feed_video m s =
      if is_h26x (i.video_codec_id m)
      then (if ltb (length (i.payload m)) (video_index m)
          then panic
          else (let r = feed_track (video_sample s.video m) s.seq_number s.video in
              ok (record s { video = r.0; sent = s.sent ++ r.1; seq_number = r.2 })))
      else ok s

  unfoldable pub feed_audio : M → HttpFmp4Session → Outcome HttpFmp4Session
  unfolding is_aac audio_sample feed_track
  feed_audio m s =
      if is_aac (i.audio_codec_id m)
      then (if ltb (length (i.payload m)) 2
          then panic
          else (let r = feed_track (audio_sample s.audio m) s.seq_number s.audio in
              ok (record s { audio = r.0; sent = s.sent ++ r.1; seq_number = r.2 })))
      else ok s

  unfoldable pub on_msg : M → HttpFmp4Session → Outcome HttpFmp4Session
  unfolding feed_video feed_audio
  on_msg m s = elim (i.msg_type m) [
    | MsgType.audio ↦ feed_audio m s
    | MsgType.video ↦ feed_video m s
    | _ ↦ ok s
  ]

  unfoldable pub on_msgs : List M → HttpFmp4Session → Outcome HttpFmp4Session
  unfolding on_msg
  on_msgs [] s = ok s
  on_msgs (m ∷ ms) s = then_outcome (on_msg m s) (on_msgs ms)

-- What a request comes to: no answer, 404, or a session and the head of the answer.
pub data Started : Type 0 where
  gone not_found : Started
  started : HttpFmp4Session → Started

abbrev no_track : ℕ → Track
no_track id = record { id = id; last_dts = 0; fragment = none }

-- The tracks are numbered from 1 on, video first; 0 is the number of no track.
unfoldable pub new_http_fmp4_session : Bool → Bool → HttpFmp4Session
new_http_fmp4_session has_video has_audio = record {
  video = no_track (if has_video then 1 else 0);
  audio = no_track (if has_audio then (if has_video then 2 else 1) else 0);
  seq_number = 0;
  sent = [];
}

-- `asc_ok` is whether aac.NewAscContext reads an AAC header; it is asked for no other header.
unfoldable pub handle_session : Bool → Option Codec → Bool → Started
unfolding is_aac new_http_fmp4_session
handle_session has_video none asc_ok =
    if has_video then started (new_http_fmp4_session true false) else not_found
handle_session has_video (some c) asc_ok =
    if is_aac c
    then (if asc_ok then started (new_http_fmp4_session has_video true) else gone)
    else started (new_http_fmp4_session has_video true)

abbrev pub crlf : Text
crlf = 13 ∷ 10 ∷ []

-- "prevent response splitting"
unfoldable pub clean : Text → Text
clean [] = []
clean (b ∷ rest) = (if ltb 31 b then b else 32) ∷ clean rest

unfoldable pub header_lines : Text → List Text → Text
unfolding clean
header_lines k [] = []
header_lines k (v ∷ vs) = k ++ (codes ": " ++ (clean v ++ (crlf ++ header_lines k vs)))

unfoldable pub all_lines : List (Text × List Text) → Text
unfolding header_lines
all_lines [] = []
all_lines ((k, vs) ∷ rest) = header_lines k vs ++ all_lines rest

unfoldable pub write_http_header : List (Text × List Text) → Text
unfolding all_lines
write_http_header header = codes "HTTP/1.1 200 OK" ++ (crlf ++ (all_lines header ++ crlf))
