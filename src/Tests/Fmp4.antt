-- ===== src/Tests/Fmp4.antt =====
-- fmp4 at concrete inputs.
use lalmax.Base.{
  ℕ, ◌≡◌, ◌⊎◌, refl, inr, arith, Bool, true, false, List, [], ◌∷◌, Option, none, some, ltb, ◌||◌,
  if◌then◌else◌, length,
}
use lalmax.Base.Outcome.{ok}
use lalmax.Hook.Rtmp.{MsgType}
use lalmax.Fmp4.Message.{Codec, Message}
use lalmax.Fmp4.HttpFmp4.{HttpFmp4Session, new_http_fmp4_session}
use lalmax.Fmp4.HttpFmp4
use lalmax.Fmp4.HttpFmp4.Fragments.{IsSound, IsFed}
use lalmax.Fmp4.HttpFmp4.Samples.{video_samples, audio_samples, on_msgs-IsFed}
use lalmax.Fmp4.Hls.{Track, Library, HlsSession, new_hls_session}
use lalmax.Fmp4.Hls
use lalmax.Fmp4.Hls.Waiting.{IsShort, Gives}
use lalmax.Fmp4.Hls.Piling.{IsPiled, on_msgs-IsShort}

-- A message is its time; below 100 it is a video frame of AVC, else an audio frame of AAC.
abbrev at_time : Message ℕ
at_time = record {
  msg_type = λ m. if ltb m 100 then MsgType.video else MsgType.audio;
  video_codec_id = λ m. Codec.avc;
  audio_codec_id = λ m. Codec.aac;
  dts = λ m. m;
  pts = λ m. m;
  cts = λ m. 0;
  payload = λ m. 1 ∷ 2 ∷ 3 ∷ 4 ∷ 5 ∷ m ∷ [];
  is_enhanced = λ m. false;
  get_enchanced_hevc_nalu_index = λ m. 8;
  is_video_key_nalu = λ m. false;
  is_video_key_seq_header = λ m. false;
  is_avc_key_seq_header = λ m. false;
  is_avc_key_nalu = λ m. false;
  is_hevc_key_nalu = λ m. false;
  is_aac_seq_header = λ m. false;
}

abbrev times : List ℕ
times = 40 ∷ 110 ∷ 80 ∷ 120 ∷ []

abbrev session : HttpFmp4Session
session = new_http_fmp4_session true true

session-IsSound : IsSound session
unfolding new_http_fmp4_session
session-IsSound = record {
  apart = λ e. absurd (omega arith);
  own_video = tt;
  own_audio = tt;
  few_video = omega arith;
  few_audio = omega arith;
  full = tt;
}

on_msgs-IsFed_example :
    (t : HttpFmp4Session) × (HttpFmp4.on_msgs at_time times session ≡ ok t)
    × IsFed
        (video_samples at_time session.video.last_dts times)
        (audio_samples at_time session.audio.last_dts times)
        session
        t
unfolding HttpFmp4.video_index
on_msgs-IsFed_example = on_msgs-IsFed at_time times session session-IsSound (
  (omega arith, omega arith),
  ((omega arith, omega arith), ((omega arith, omega arith), ((omega arith, omega arith), tt))),
)

abbrev is_there : Option Track → Bool
is_there none = false
is_there (some _) = true

-- A muxer that wants a track, and a configuration that is not empty.
abbrev library : Library
library = record {
  split_nalu_avcc = λ b. some (b ∷ []);
  parse_sps_pps = λ p. (p, p);
  parse_vps_sps_pps = λ p. (p, p, p);
  reads_asc = λ asc. ltb 0 (length asc);
  starts = λ v a. is_there v || is_there a;
}

new_session-IsShort : IsShort new_hls_session
unfolding new_hls_session
new_session-IsShort = inr (refl, refl, omega arith)

abbrev timed : List (ℕ × ℕ)
timed = (1, 40) ∷ (2, 110) ∷ (3, 80) ∷ []

on_msgs-IsShort_example :
    Gives
      (λ t. IsShort t ⊎ IsPiled library at_time timed new_hls_session t)
      (Hls.on_msgs library at_time timed new_hls_session)
on_msgs-IsShort_example =
    on_msgs-IsShort library at_time timed new_hls_session
      (omega arith, (omega arith, (omega arith, tt))) new_session-IsShort
