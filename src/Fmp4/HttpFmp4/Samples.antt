-- ===== src/Fmp4/HttpFmp4/Samples.antt =====
-- fmp4/http-fmp4/session.go: what OnMsg makes of a sequence of messages.
use lalmax.Base.{
  ℕ, ◌≤◌, ◌≡◌, refl, ◌⊎◌, inl, inr, arith, false, List, [], ◌∷◌, Bool-cases, ltb, if◌then◌else◌,
  length, drop, All,
}
use lalmax.Base.Outcome.{ok}
use lalmax.Hook.Rtmp.{MsgType}
use lalmax.Fmp4.Message.{Message}
use lalmax.Fmp4.HttpFmp4.{
  Sample, HttpFmp4Session, duration_of, feed_track, is_h26x, is_aac, video_index, video_sample,
  audio_sample, feed_video, feed_audio, on_msg, on_msgs,
}
use lalmax.Fmp4.HttpFmp4.Fragments.{
  IsSound, IsFed, IsFed-then, nothing-IsFed, fed_video, fed_audio, fed_video-IsFed, fed_audio-IsFed,
}

MsgType-cases :
    (k : MsgType)
    → (k ≡ MsgType.video) ⊎ ((k ≡ MsgType.audio) ⊎ ((k ≡ MsgType.metadata) ⊎ (k ≡ MsgType.other)))
MsgType-cases MsgType.video = inl refl
MsgType-cases MsgType.audio = inr (inl refl)
MsgType-cases MsgType.metadata = inr (inr (inl refl))
MsgType-cases MsgType.other = inr (inr (inr refl))

module _ {M : Type 0} (i : Message M) where
  -- The samples of the messages, each with the time since the one before; the first has no time.
  abbrev pub video_samples : ℕ → List M → List Sample
  video_samples last [] = []
  video_samples last (m ∷ ms) = elim (i.msg_type m) [
    | MsgType.video ↦
        if is_h26x (i.video_codec_id m)
        then record {
          payload = drop (video_index i m) (i.payload m);
          decode_time = i.dts m;
          sync = i.is_video_key_nalu m;
          dur = duration_of last (i.dts m);
          composition_time_offset = i.cts m;
        }
          ∷ video_samples (i.dts m) ms
        else video_samples last ms
    | _ ↦ video_samples last ms
  ]

  abbrev pub audio_samples : ℕ → List M → List Sample
  audio_samples last [] = []
  audio_samples last (m ∷ ms) = elim (i.msg_type m) [
    | MsgType.audio ↦
        if is_aac (i.audio_codec_id m)
        then record {
          payload = drop 2 (i.payload m);
          decode_time = i.dts m;
          sync = false;
          dur = duration_of last (i.dts m);
          composition_time_offset = 0;
        }
          ∷ audio_samples (i.dts m) ms
        else audio_samples last ms
    | _ ↦ audio_samples last ms
  ]

  -- The payload has the bytes of its head.
  abbrev pub IsLong : M → Type 0
  IsLong m = (video_index i m ≤ length (i.payload m)) × (2 ≤ length (i.payload m))

  -- OnMsg does not panic, and each track has the samples of the messages.
  abbrev pub Feeds : List M → HttpFmp4Session → Type 0
  Feeds ms s =
      (t : HttpFmp4Session) × (on_msgs i ms s ≡ ok t)
      × IsFed (video_samples s.video.last_dts ms) (audio_samples s.audio.last_dts ms) s t

  -- A message that changes nothing.
  ignored :
      (m : M) (ms : List M) (s : HttpFmp4Session)
      → on_msg i m s ≡ ok s
      → video_samples s.video.last_dts (m ∷ ms) ≡ video_samples s.video.last_dts ms
      → audio_samples s.audio.last_dts (m ∷ ms) ≡ audio_samples s.audio.last_dts ms
      → Feeds ms s
      → Feeds (m ∷ ms) s
  unfolding on_msgs
  ignored m ms s step no_video no_audio (t, e, g) =
      (t, rw (on_msgs, step) e, rw (no_video, no_audio) g)

  video_Feeds :
      (m : M) (ms : List M) (s : HttpFmp4Session)
      → IsSound s
      → video_index i m ≤ length (i.payload m)
      → i.msg_type m ≡ MsgType.video
      → ((s' : HttpFmp4Session) → IsSound s' → Feeds ms s')
      → Feeds (m ∷ ms) s
  unfolding on_msgs on_msg feed_video feed_track video_sample
  video_Feeds m ms s h long v later =
      let head : ltb (length (i.payload m)) (video_index i m) ≡ false = ground arith in
      let quiet : audio_samples s.audio.last_dts (m ∷ ms) ≡ audio_samples s.audio.last_dts ms =
        rw (audio_samples, v) refl in
      elim (Bool-cases (is_h26x (i.video_codec_id m))) [
        | inl known ↦
            let x = video_sample i s.video m in
            let f = fed_video-IsFed x s h in
            let (t, e, g) = later (fed_video x s) f.sound in
            let step : on_msg i m s ≡ ok (fed_video x s) =
              rw (on_msg, v, feed_video, known, head) refl in
            let new : video_samples s.video.last_dts (m ∷ ms) ≡ x ∷ video_samples (i.dts m) ms =
              rw (video_samples, v, known) refl in
            (t, rw (on_msgs, step) e, rw (quiet, new) (IsFed-then (x ∷ []) [] _ _ s _ t f g))
        | inr strange ↦
            ignored m ms s (rw (on_msg, v, feed_video, strange) refl)
              (rw (video_samples, v, strange) refl) quiet (later s h)
      ]

  audio_Feeds :
      (m : M) (ms : List M) (s : HttpFmp4Session)
      → IsSound s
      → 2 ≤ length (i.payload m)
      → i.msg_type m ≡ MsgType.audio
      → ((s' : HttpFmp4Session) → IsSound s' → Feeds ms s')
      → Feeds (m ∷ ms) s
  unfolding on_msgs on_msg feed_audio feed_track audio_sample
  audio_Feeds m ms s h long a later =
      let two : ltb (length (i.payload m)) 2 ≡ false = ground arith in
      let quiet : video_samples s.video.last_dts (m ∷ ms) ≡ video_samples s.video.last_dts ms =
        rw (video_samples, a) refl in
      elim (Bool-cases (is_aac (i.audio_codec_id m))) [
        | inl known ↦
            let x = audio_sample i s.audio m in
            let f = fed_audio-IsFed x s h in
            let (t, e, g) = later (fed_audio x s) f.sound in
            let step : on_msg i m s ≡ ok (fed_audio x s) =
              rw (on_msg, a, feed_audio, known, two) refl in
            let new : audio_samples s.audio.last_dts (m ∷ ms) ≡ x ∷ audio_samples (i.dts m) ms =
              rw (audio_samples, a, known) refl in
            (t, rw (on_msgs, step) e, rw (quiet, new) (IsFed-then [] (x ∷ []) _ _ s _ t f g))
        | inr strange ↦
            ignored m ms s (rw (on_msg, a, feed_audio, strange) refl) quiet
              (rw (audio_samples, a, strange) refl) (later s h)
      ]

  -- From a session with sound tracks on, over any messages with whole payloads, OnMsg does not panic;
  -- each track then has in its fragments, in order, the samples it had and those of its messages, with
  -- their times and durations; a fragment that is sent has eleven samples.
  pub on_msgs-IsFed :
      (ms : List M) (s : HttpFmp4Session)
      → IsSound s
      → All IsLong ms
      → (t : HttpFmp4Session) × (on_msgs i ms s ≡ ok t)
        × IsFed (video_samples s.video.last_dts ms) (audio_samples s.audio.last_dts ms) s t
  unfolding on_msgs on_msg
  on_msgs-IsFed [] s h long = (s, refl, nothing-IsFed s h)
  on_msgs-IsFed (m ∷ ms) s h ((long_video, long_audio), rest) =
      let later : (s' : HttpFmp4Session) → IsSound s' → Feeds ms s' =
        λ s' h'. on_msgs-IsFed ms s' h' rest in
      elim (MsgType-cases (i.msg_type m)) [
        | inl v ↦ video_Feeds m ms s h long_video v later
        | inr (inl a) ↦ audio_Feeds m ms s h long_audio a later
        | inr (inr (inl k)) ↦
            ignored m ms s (rw (on_msg, k) refl) (rw (video_samples, k) refl)
              (rw (audio_samples, k) refl) (later s h)
        | inr (inr (inr k)) ↦
            ignored m ms s (rw (on_msg, k) refl) (rw (video_samples, k) refl)
              (rw (audio_samples, k) refl) (later s h)
      ]
