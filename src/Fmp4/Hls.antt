-- ===== src/Fmp4/Hls.antt =====
-- fmp4/hls/session.go: an HLS session. The muxer is gohlslib's: it is given
-- its tracks, is started, and then given samples, which are a list, oldest first. Times are in
-- milliseconds.
pub mod Waiting
pub mod Starting
pub mod Piling
use lalmax.Base.{
  ℕ, ◌+◌, ◌*◌, Bool, true, false, List, [], ◌∷◌, ◌++◌, Option, none, some, ltb, leb, ◌&&◌, ◌||◌,
  not, if◌then◌else◌, length, drop,
}
use lalmax.Base.Int.{ℤ, sub_ℕ}
use lalmax.Base.Outcome.{Outcome, ok, panic, then_outcome}
use lalmax.Base.Text.{Text}
use lalmax.Base.Dict.{load, store, delete, adjust}
use lalmax.Hook.Rtmp.{MsgType}
use lalmax.Fmp4.Message.{Codec, Message}

pub record Frame : Type 0 where
  pub ntp : ℕ
  pub pts : ℤ
  pub au : List (List ℕ)
  pub codec_type : Codec

pub data Track : Type 0 where
  h264 : List ℕ → List ℕ → Track
  h265 : List ℕ → List ℕ → List ℕ → Track
  mpeg4_audio : List ℕ → Track
  opus_audio : Track

-- The samples that the muxer is given, with the time, the time stamp and the parts.
pub data Sample : Type 0 where
  h26x mpeg4 opus_sample : ℕ → ℤ → List (List ℕ) → Sample

-- What is used of lal's avc and hevc, of mediacommon's AAC configuration, and whether the muxer starts
-- with its video track and its audio track.
pub record Library : Type 0 where
  pub split_nalu_avcc : List ℕ → Option (List (List ℕ))
  pub parse_sps_pps : List ℕ → List ℕ × List ℕ
  pub parse_vps_sps_pps : List ℕ → List ℕ × List ℕ × List ℕ
  pub reads_asc : List ℕ → Bool
  pub starts : Option Track → Option Track → Bool

-- A codec that is not known yet, -1 in Go, is `none`.
pub record HlsSession : Type 0 where
  pub video_track : Option Track
  pub audio_track : Option Track
  pub written : List Sample
  pub closed : Bool
  pub done : Bool
  pub frames : List Frame
  pub audio_codec_id : Option Codec
  pub video_codec_id : Option Codec
  pub max_msg_size : ℕ
  pub sps : List ℕ
  pub pps : List ℕ
  pub vps : List ℕ
  pub asc : List ℕ
  pub start_audio_pts : ℕ
  pub start_video_pts : ℕ
  pub audio_start_pts_filled : Bool
  pub video_start_pts_filled : Bool

unfoldable pub new_hls_session : HlsSession
new_hls_session = record {
  video_track = none;
  audio_track = none;
  written = [];
  closed = false;
  done = false;
  frames = [];
  audio_codec_id = none;
  video_codec_id = none;
  max_msg_size = 128;
  sps = [];
  pps = [];
  vps = [];
  asc = [];
  start_audio_pts = 0;
  start_video_pts = 0;
  audio_start_pts_filled = false;
  video_start_pts_filled = false;
}

-- `p[n:]`
unfoldable pub slice_from : ℕ → List ℕ → Outcome (List ℕ)
slice_from n p = if ltb (length p) n then panic else ok (drop n p)

unfoldable pub is_known : Option Codec → Bool
is_known none = false
is_known (some c) = true

unfoldable pub write : Sample → HlsSession → HlsSession
write x s = record s { written = s.written ++ (x ∷ []) }

unfoldable pub add_frame : Frame → HlsSession → HlsSession
add_frame f s = record s { frames = s.frames ++ (f ∷ []) }

-- The first time stamp of each kind is what later ones are counted from.
unfoldable pub fill_audio_start : ℕ → HlsSession → HlsSession
fill_audio_start dts s =
    if s.audio_start_pts_filled
    then s
    else record s { start_audio_pts = dts; audio_start_pts_filled = true }

unfoldable pub fill_video_start : ℕ → HlsSession → HlsSession
fill_video_start pts s =
    if s.video_start_pts_filled
    then s
    else record s { start_video_pts = pts; video_start_pts_filled = true }

unfoldable pub set_video_track : HlsSession → HlsSession
set_video_track s = elim s.video_codec_id [
  | some Codec.avc ↦ record s { video_track = some (h264 s.sps s.pps) }
  | some Codec.hevc ↦ record s { video_track = some (h265 s.vps s.sps s.pps) }
  | _ ↦ s
]

-- The samples of a frame that waited, for the codecs that are known.
unfoldable pub frame_samples : Option Codec → Option Codec → Frame → List Sample
unfolding is_known
frame_samples video audio f = elim f.codec_type [
  | Codec.avc ↦ if is_known video then h26x f.ntp f.pts f.au ∷ [] else []
  | Codec.hevc ↦ if is_known video then h26x f.ntp f.pts f.au ∷ [] else []
  | Codec.aac ↦ if is_known audio then mpeg4 f.ntp f.pts f.au ∷ [] else []
  | Codec.opus ↦ if is_known audio then opus_sample f.ntp f.pts f.au ∷ [] else []
  | Codec.unknown ↦ []
]

unfoldable pub write_frames : List Frame → HlsSession → HlsSession
unfolding frame_samples
write_frames [] s = s
write_frames (f ∷ fs) s =
    write_frames fs
      (record s { written = s.written ++ frame_samples s.video_codec_id s.audio_codec_id f })

module _ (lib : Library) where
  -- `none` where the AAC configuration cannot be read.
  unfoldable pub set_audio_track : HlsSession → Option HlsSession
  set_audio_track s = elim s.audio_codec_id [
    | some Codec.aac ↦
        if lib.reads_asc s.asc
        then some (record s { audio_track = some (mpeg4_audio s.asc) })
        else none
    | some Codec.opus ↦ some (record s { audio_track = some opus_audio })
    | _ ↦ some s
  ]

  unfoldable pub drain : HlsSession → HlsSession
  unfolding set_video_track set_audio_track write_frames
  drain s =
      let t = set_video_track s in
      elim (set_audio_track t) [
        | none ↦ t
        | some u ↦
            if lib.starts u.video_track u.audio_track
            then record (write_frames u.frames u) { done = true }
            else u
      ]

  -- The session is drained when both codecs are known, or when enough frames wait.
  unfoldable pub drain_if_due : HlsSession → HlsSession
  unfolding is_known drain
  drain_if_due s =
      if (is_known s.video_codec_id && is_known s.audio_codec_id)
        || leb s.max_msg_size (length s.frames)
      then drain s
      else s

  module _ {M : Type 0} (i : Message M) where
    unfoldable pub take_headers : M → HlsSession → HlsSession
    take_headers m s =
        if i.is_avc_key_seq_header m
        then (let r = lib.parse_sps_pps (i.payload m) in
            record s { video_codec_id = some (i.video_codec_id m); sps = r.0; pps = r.1 })
        else (let r = lib.parse_vps_sps_pps (i.payload m) in
            record s {
              video_codec_id = some (i.video_codec_id m);
              vps = r.0;
              sps = r.1;
              pps = r.2;
            })

    -- A key frame has the parameter sets in front.
    unfoldable pub access_unit : M → List (List ℕ) → HlsSession → List (List ℕ)
    access_unit m nals s =
        if i.is_avc_key_nalu m
        then s.sps ∷ s.pps ∷ nals
        else if i.is_hevc_key_nalu m
        then s.vps ∷ s.sps ∷ s.pps ∷ nals
        else nals

    unfoldable pub live_video : ℕ → M → HlsSession → Outcome HlsSession
    unfolding take_headers access_unit slice_from write
    live_video now m s =
        if i.is_video_key_seq_header m
        then ok (take_headers m s)
        else then_outcome (slice_from 5 (i.payload m)) (λ body. elim (lib.split_nalu_avcc body) [
          | none ↦ ok s
          | some nals ↦
              ok (write (h26x now (sub_ℕ (i.pts m) s.start_video_pts) (access_unit m nals s)) s)
        ])

    -- Any message that is no video, by the session's codec.
    unfoldable pub live_audio : ℕ → M → HlsSession → Outcome HlsSession
    unfolding slice_from write
    live_audio now m s =
        let pts = sub_ℕ (i.dts m) s.start_audio_pts in
        elim s.audio_codec_id [
          | some Codec.aac ↦
              then_outcome (slice_from 2 (i.payload m))
                (λ body. ok (write (mpeg4 now pts (body ∷ [])) s))
          | some Codec.opus ↦
              then_outcome (slice_from 1 (i.payload m))
                (λ body. ok (write (opus_sample now pts (body ∷ [])) s))
          | _ ↦ ok s
        ]

    -- Until the session is drained: false where OnMsg returns before it looks whether to drain.
    unfoldable pub wait_frame : ℕ → ℕ → Codec → M → HlsSession → Outcome (Bool × HlsSession)
    unfolding slice_from fill_audio_start add_frame
    wait_frame n now c m s = then_outcome (slice_from n (i.payload m)) (λ body.
        let t = fill_audio_start (i.dts m) s in
        ok (
          true,
          add_frame
              (record {
                ntp = now;
                pts = sub_ℕ (i.dts m) t.start_audio_pts;
                au = body ∷ [];
                codec_type = c;
              })
              t,
        ))

    unfoldable pub wait_audio : ℕ → M → HlsSession → Outcome (Bool × HlsSession)
    unfolding slice_from wait_frame
    wait_audio now m s =
        let t = record s { audio_codec_id = some (i.audio_codec_id m) } in
        elim (i.audio_codec_id m) [
          | Codec.aac ↦
              if i.is_aac_seq_header m
              then then_outcome (slice_from 2 (i.payload m))
                  (λ body. ok (true, record t { asc = body }))
              else wait_frame 2 now Codec.aac m t
          | Codec.opus ↦ wait_frame 1 now Codec.opus m t
          | _ ↦ ok (false, t)
        ]

    unfoldable pub wait_video : ℕ → M → HlsSession → Outcome (Bool × HlsSession)
    unfolding take_headers access_unit slice_from fill_video_start add_frame
    wait_video now m s =
        if i.is_video_key_seq_header m
        then ok (true, take_headers m s)
        else then_outcome (slice_from 5 (i.payload m)) (λ body. elim (lib.split_nalu_avcc body) [
          | none ↦ ok (false, s)
          | some nals ↦
              let t = fill_video_start (i.pts m) s in
              ok (
                true,
                add_frame
                    (record {
                      ntp = now;
                      pts = sub_ℕ (i.pts m) t.start_video_pts;
                      au = access_unit m nals t;
                      codec_type = i.video_codec_id m;
                    })
                    t,
              )
        ])

    unfoldable pub wait : ℕ → M → HlsSession → Outcome (Bool × HlsSession)
    unfolding wait_audio wait_video
    wait now m s = elim (i.msg_type m) [
      | MsgType.audio ↦ wait_audio now m s
      | MsgType.video ↦ wait_video now m s
      | _ ↦ ok (true, s)
    ]

    unfoldable pub live : ℕ → M → HlsSession → Outcome HlsSession
    unfolding live_audio live_video
    live now m s = elim (i.msg_type m) [
      | MsgType.video ↦ live_video now m s
      | _ ↦ live_audio now m s
    ]

    unfoldable pub on_msg : ℕ → M → HlsSession → Outcome HlsSession
    unfolding live wait drain_if_due
    on_msg now m s =
        if s.done
        then live now m s
        else then_outcome (wait now m s) (λ r. ok (if r.0 then drain_if_due r.1 else r.1))

    -- Each message with the time at which it comes.
    unfoldable pub on_msgs : List (ℕ × M) → HlsSession → Outcome HlsSession
    unfolding on_msg
    on_msgs [] s = ok s
    on_msgs ((now, m) ∷ ms) s = then_outcome (on_msg now m s) (on_msgs ms)

-- The muxer is closed if it was started.
unfoldable pub on_stop : HlsSession → HlsSession
on_stop s = if s.done then record s { closed = true } else s
