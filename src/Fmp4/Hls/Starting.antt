-- ===== src/Fmp4/Hls/Starting.antt =====
-- fmp4/hls/session.go: when draining a session works, by the codecs and parameters that it has.
use lalmax.Base.{
  ◌≡◌, refl, ◌∙◌, ◌⊎◌, inl, inr, Bool, true, false, Option, none, some, Bool-cases, ◌&&◌,
  if◌then◌else◌,
}
use lalmax.Fmp4.Message.{Codec}
use lalmax.Fmp4.Hls.{
  Track, h264, h265, mpeg4_audio, opus_audio, Library, HlsSession, set_video_track, set_audio_track,
  write_frames, drain,
}

-- The tracks that the muxer is given: one for a codec that it takes, and else the one it had.
abbrev pub video_of : Option Codec → HlsSession → Option Track
video_of (some Codec.avc) s = some (h264 s.sps s.pps)
video_of (some Codec.hevc) s = some (h265 s.vps s.sps s.pps)
video_of (some Codec.aac) s = s.video_track
video_of (some Codec.opus) s = s.video_track
video_of (some Codec.unknown) s = s.video_track
video_of none s = s.video_track

abbrev pub audio_of : Option Codec → HlsSession → Option Track
audio_of (some Codec.aac) s = some (mpeg4_audio s.asc)
audio_of (some Codec.opus) s = some opus_audio
audio_of (some Codec.avc) s = s.audio_track
audio_of (some Codec.hevc) s = s.audio_track
audio_of (some Codec.unknown) s = s.audio_track
audio_of none s = s.audio_track

-- AAC needs a configuration that can be read.
abbrev pub is_configured : Library → Option Codec → HlsSession → Bool
is_configured lib (some Codec.aac) s = lib.reads_asc s.asc
is_configured lib (some Codec.opus) s = true
is_configured lib (some Codec.avc) s = true
is_configured lib (some Codec.hevc) s = true
is_configured lib (some Codec.unknown) s = true
is_configured lib none s = true

unfoldable pub can_start : Library → HlsSession → Bool
can_start lib s =
    is_configured lib s.audio_codec_id s
    && lib.starts (video_of s.video_codec_id s) (audio_of s.audio_codec_id s)

abbrev with_video : HlsSession → HlsSession
with_video s = record s { video_track = video_of s.video_codec_id s }

abbrev with_both : HlsSession → HlsSession
with_both s = record (with_video s) { audio_track = audio_of s.audio_codec_id s }

module _ (s : HlsSession) where
  video_track_of :
      (o : Option Codec)
      → set_video_track (record s { video_codec_id = o })
        ≡ record s { video_codec_id = o; video_track = video_of o s }
  unfolding set_video_track
  video_track_of none = refl
  video_track_of (some Codec.avc) = refl
  video_track_of (some Codec.hevc) = refl
  video_track_of (some Codec.aac) = refl
  video_track_of (some Codec.opus) = refl
  video_track_of (some Codec.unknown) = refl

  audio_track_of :
      (lib : Library) (o : Option Codec)
      → set_audio_track lib (record s { audio_codec_id = o }) ≡ (
          if is_configured lib o s
          then some (record s { audio_codec_id = o; audio_track = audio_of o s })
          else none)
  unfolding set_audio_track
  audio_track_of lib none = refl
  audio_track_of lib (some Codec.avc) = refl
  audio_track_of lib (some Codec.hevc) = refl
  audio_track_of lib (some Codec.aac) = refl
  audio_track_of lib (some Codec.opus) = refl
  audio_track_of lib (some Codec.unknown) = refl

  -- Tracks that are set twice are the same.
  video_again :
      (o : Option Codec) (a : Option Track)
      → video_of o (record s { video_track = video_of o s; audio_track = a }) ≡ video_of o s
  video_again none a = refl
  video_again (some Codec.avc) a = refl
  video_again (some Codec.hevc) a = refl
  video_again (some Codec.aac) a = refl
  video_again (some Codec.opus) a = refl
  video_again (some Codec.unknown) a = refl

  audio_again :
      (o : Option Codec) (v : Option Track)
      → audio_of o (record s { audio_track = audio_of o s; video_track = v }) ≡ audio_of o s
  audio_again none v = refl
  audio_again (some Codec.avc) v = refl
  audio_again (some Codec.hevc) v = refl
  audio_again (some Codec.aac) v = refl
  audio_again (some Codec.opus) v = refl
  audio_again (some Codec.unknown) v = refl

  audio_apart :
      (o : Option Codec) (v : Option Track)
      → audio_of o (record s { video_track = v }) ≡ audio_of o s
  audio_apart none v = refl
  audio_apart (some Codec.avc) v = refl
  audio_apart (some Codec.hevc) v = refl
  audio_apart (some Codec.aac) v = refl
  audio_apart (some Codec.opus) v = refl
  audio_apart (some Codec.unknown) v = refl

  configured_apart :
      (lib : Library) (o : Option Codec) (v a : Option Track)
      → is_configured lib o (record s { video_track = v; audio_track = a }) ≡ is_configured lib o s
  configured_apart lib none v a = refl
  configured_apart lib (some Codec.avc) v a = refl
  configured_apart lib (some Codec.hevc) v a = refl
  configured_apart lib (some Codec.aac) v a = refl
  configured_apart lib (some Codec.opus) v a = refl
  configured_apart lib (some Codec.unknown) v a = refl

-- A session that could not be drained: it cannot be started, and its frames wait on.
pub record IsHeld (lib : Library) (s t : HlsSession) : Type 0 where
  pub held : can_start lib t ≡ false
  pub same_frames : t.frames ≡ s.frames
  pub same_done : t.done ≡ s.done
  pub same_max : t.max_msg_size ≡ s.max_msg_size

module _ (lib : Library) (s : HlsSession) where
  abbrev finish : HlsSession → Option HlsSession → HlsSession
  finish t o = elim o [
    | none ↦ t
    | some u ↦
        if lib.starts u.video_track u.audio_track
        then record (write_frames u.frames u) { done = true }
        else u
  ]

  drain-finish : drain lib s ≡ finish (set_video_track s) (set_audio_track lib (set_video_track s))
  unfolding drain
  drain-finish = refl

  video_set : set_video_track s ≡ with_video s
  video_set = video_track_of s s.video_codec_id

  audio_set :
      set_audio_track lib (with_video s)
      ≡ (if is_configured lib s.audio_codec_id s then some (with_both s) else none)
  audio_set =
      audio_track_of (with_video s) lib s.audio_codec_id
      ∙ rw
          (
            configured_apart s lib s.audio_codec_id (video_of s.video_codec_id s) s.audio_track,
            audio_apart s s.audio_codec_id (video_of s.video_codec_id s),
          )
          refl

  drain-unconfigured : is_configured lib s.audio_codec_id s ≡ false → drain lib s ≡ with_video s
  drain-unconfigured e = rw (drain-finish, video_set, audio_set, e) refl

  drain-configured :
      is_configured lib s.audio_codec_id s ≡ true
      → drain lib s ≡ (
          if lib.starts (video_of s.video_codec_id s) (audio_of s.audio_codec_id s)
          then record (write_frames s.frames (with_both s)) { done = true }
          else with_both s)
  drain-configured e = rw (drain-finish, video_set, audio_set, e) refl

  pub drain-cases : ((drain lib s).done ≡ true) ⊎ IsHeld lib s (drain lib s)
  unfolding can_start
  drain-cases = elim (Bool-cases (is_configured lib s.audio_codec_id s)) [
    | inl e ↦
        elim (Bool-cases (lib.starts (video_of s.video_codec_id s) (audio_of s.audio_codec_id s))) [
          | inl starts ↦ inl (rw (drain-configured e, starts) refl)
          | inr fails ↦ inr (
              rw (drain-configured e, fails)
                (record {
                  held =
                      rw
                        (
                          configured_apart s lib s.audio_codec_id (video_of s.video_codec_id s)
                              (audio_of s.audio_codec_id s),
                          e,
                          video_again s s.video_codec_id (audio_of s.audio_codec_id s),
                          audio_again s s.audio_codec_id (video_of s.video_codec_id s),
                          fails,
                        )
                        refl;
                  same_frames = refl;
                  same_done = refl;
                  same_max = refl;
                }))
        ]
    | inr e ↦ inr (
        rw (drain-unconfigured e) (record {
          held =
              rw
                (
                  configured_apart s lib s.audio_codec_id (video_of s.video_codec_id s)
                      s.audio_track,
                  e,
                )
                refl;
          same_frames = refl;
          same_done = refl;
          same_max = refl;
        }))
  ]
