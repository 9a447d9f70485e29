-- ===== src/Fmp4/Hls/Waiting.antt =====
-- fmp4/hls/session.go: how many frames wait for the muxer to start.
use lalmax.Base.{
  ℕ, ◌≤◌, ◌<◌, ◌≡◌, ◌⊎◌, refl, ap, ◌∙◌, inl, inr, arith, Bool, true, false, List, Option, none,
  some, Option-cases, Bool-cases, ltb, if◌then◌else◌, length, drop,
}
use lalmax.Base.Outcome.{Outcome, ok, then_outcome}
use lalmax.Hook.Rtmp.{MsgType}
use lalmax.Fmp4.Message.{Codec, Message}
use lalmax.Fmp4.Hls.{
  Library, HlsSession, slice_from, write, add_frame, fill_audio_start, fill_video_start,
  take_headers, live_video, live_audio, wait_frame, wait_audio, wait_video, wait, live,
}

-- The session is drained, or fewer frames wait than it takes.
abbrev pub IsShort : HlsSession → Type 0
IsShort s = (s.done ≡ true) ⊎ ((s.done ≡ false) × (s.max_msg_size ≡ 128) × (length s.frames < 128))

-- The outcome is a result with a property.
abbrev pub Gives : {A : Type 0} → (A → Type 0) → Outcome A → Type 0
Gives {A} P r = (a : A) × (r ≡ ok a) × P a

pub then_outcome-Gives :
    {A B : Type 0} (P : A → Type 0) (Q : B → Type 0) (r : Outcome A) (f : A → Outcome B)
    → Gives P r
    → ((a : A) → P a → Gives Q (f a))
    → Gives Q (then_outcome r f)
then_outcome-Gives P Q r f (a, e, p) k =
    let (b, e', q) = k a p in (b, ap (λ r. then_outcome r f) e ∙ e', q)

pub if_true : {A : Type 0} (b : Bool) (x y : A) → b ≡ true → (if b then x else y) ≡ x
if_true b x y e = rw e refl

pub if_false : {A : Type 0} (b : Bool) (x y : A) → b ≡ false → (if b then x else y) ≡ y
if_false b x y e = rw e refl

slice_from-Gives : (n : ℕ) (p : List ℕ) → n ≤ length p → Gives (λ b. b ≡ drop n p) (slice_from n p)
unfolding slice_from
slice_from-Gives n p long =
    let enough : ltb (length p) n ≡ false = ground arith in
    (drop n p, rw (slice_from, enough) refl, refl)

-- What waiting does: at most one frame more, and one only where OnMsg goes on to see whether to drain.
abbrev pub IsWaiting : HlsSession → Bool × HlsSession → Type 0
IsWaiting s r =
    (r.1.done ≡ s.done)
    × (r.1.max_msg_size ≡ s.max_msg_size)
    × ((r.0 ≡ true) ⊎ (length r.1.frames ≡ length s.frames))

fill_audio_start-IsWaiting : (dts : ℕ) (s : HlsSession) → IsWaiting s (true, fill_audio_start dts s)
unfolding fill_audio_start
fill_audio_start-IsWaiting dts s = elim (Bool-cases s.audio_start_pts_filled) [
  | inl filled ↦ rw (fill_audio_start, filled) (refl, refl, inl refl)
  | inr first ↦ rw (fill_audio_start, first) (refl, refl, inl refl)
]

fill_video_start-IsWaiting : (pts : ℕ) (s : HlsSession) → IsWaiting s (true, fill_video_start pts s)
unfolding fill_video_start
fill_video_start-IsWaiting pts s = elim (Bool-cases s.video_start_pts_filled) [
  | inl filled ↦ rw (fill_video_start, filled) (refl, refl, inl refl)
  | inr first ↦ rw (fill_video_start, first) (refl, refl, inl refl)
]

module _ (lib : Library) {M : Type 0} (i : Message M) where
  take_headers-IsWaiting : (m : M) (s : HlsSession) → IsWaiting s (true, take_headers lib i m s)
  unfolding take_headers
  take_headers-IsWaiting m s = elim (Bool-cases (i.is_avc_key_seq_header m)) [
    | inl avc ↦ rw (take_headers, avc) (refl, refl, inl refl)
    | inr hevc ↦ rw (take_headers, hevc) (refl, refl, inl refl)
  ]

  live_audio-Gives :
      (now : ℕ) (m : M) (s : HlsSession) (o : Option Codec)
      → s.audio_codec_id ≡ o
      → 5 ≤ length (i.payload m)
      → s.done ≡ true
      → Gives (λ t. t.done ≡ true) (live_audio lib i now m s)
  unfolding live_audio write
  live_audio-Gives now m s none e long done = rw (live_audio, e) (s, refl, done)
  live_audio-Gives now m s (some Codec.aac) e long done =
      rw (live_audio, e)
        (then_outcome-Gives (λ b. b ≡ drop 2 (i.payload m)) (λ t. t.done ≡ true)
          (slice_from 2 (i.payload m)) _ (slice_from-Gives 2 (i.payload m) (omega arith))
          (λ b same. (_, refl, done)))
  live_audio-Gives now m s (some Codec.opus) e long done =
      rw (live_audio, e)
        (then_outcome-Gives (λ b. b ≡ drop 1 (i.payload m)) (λ t. t.done ≡ true)
          (slice_from 1 (i.payload m)) _ (slice_from-Gives 1 (i.payload m) (omega arith))
          (λ b same. (_, refl, done)))
  live_audio-Gives now m s (some Codec.avc) e long done = rw (live_audio, e) (s, refl, done)
  live_audio-Gives now m s (some Codec.hevc) e long done = rw (live_audio, e) (s, refl, done)
  live_audio-Gives now m s (some Codec.unknown) e long done = rw (live_audio, e) (s, refl, done)

  live_video-Gives :
      (now : ℕ) (m : M) (s : HlsSession)
      → 5 ≤ length (i.payload m)
      → s.done ≡ true
      → Gives (λ t. t.done ≡ true) (live_video lib i now m s)
  unfolding live_video write
  live_video-Gives now m s long done = elim (Bool-cases (i.is_video_key_seq_header m)) [
    | inl header ↦
        rw (live_video, header)
          (take_headers lib i m s, refl, (take_headers-IsWaiting m s).0 ∙ done)
    | inr frame ↦
        rw (live_video, frame)
          (then_outcome-Gives (λ b. b ≡ drop 5 (i.payload m)) (λ t. t.done ≡ true)
            (slice_from 5 (i.payload m)) _ (slice_from-Gives 5 (i.payload m) long)
            (λ b same. elim (Option-cases (lib.split_nalu_avcc b)) [
              | inl bad ↦ rw bad (s, refl, done)
              | inr (nals, good) ↦ rw good (_, refl, done)
            ]))
  ]

  pub live-Gives :
      (now : ℕ) (m : M) (s : HlsSession) (k : MsgType)
      → i.msg_type m ≡ k
      → 5 ≤ length (i.payload m)
      → s.done ≡ true
      → Gives (λ t. t.done ≡ true) (live lib i now m s)
  unfolding live
  live-Gives now m s MsgType.video e long done = rw (live, e) (live_video-Gives now m s long done)
  live-Gives now m s MsgType.audio e long done =
      rw (live, e) (live_audio-Gives now m s s.audio_codec_id refl long done)
  live-Gives now m s MsgType.metadata e long done =
      rw (live, e) (live_audio-Gives now m s s.audio_codec_id refl long done)
  live-Gives now m s MsgType.other e long done =
      rw (live, e) (live_audio-Gives now m s s.audio_codec_id refl long done)

  wait_frame-Gives :
      (n now : ℕ) (c : Codec) (m : M) (s t : HlsSession)
      → n ≤ length (i.payload m)
      → IsWaiting s (true, t)
      → Gives (IsWaiting s) (wait_frame lib i n now c m t)
  unfolding wait_frame add_frame
  wait_frame-Gives n now c m s t long (done, max, _) =
      then_outcome-Gives (λ b. b ≡ drop n (i.payload m)) (IsWaiting s) (slice_from n (i.payload m))
        _ (slice_from-Gives n (i.payload m) long)
        (λ b same.
          let filled = fill_audio_start-IsWaiting (i.dts m) t in
          (_, refl, (filled.0 ∙ done, filled.1 ∙ max, inl refl)))

  abbrev heard : M → HlsSession → HlsSession
  heard m s = record s { audio_codec_id = some (i.audio_codec_id m) }

  wait_audio-Gives :
      (now : ℕ) (m : M) (s : HlsSession) (c : Codec)
      → i.audio_codec_id m ≡ c
      → 5 ≤ length (i.payload m)
      → Gives (IsWaiting s) (wait_audio lib i now m s)
  unfolding wait_audio
  wait_audio-Gives now m s Codec.aac e long = elim (Bool-cases (i.is_aac_seq_header m)) [
    | inl header ↦
        rw (wait_audio, e, header)
          (then_outcome-Gives (λ b. b ≡ drop 2 (i.payload m)) (IsWaiting s)
            (slice_from 2 (i.payload m)) _ (slice_from-Gives 2 (i.payload m) (omega arith))
            (λ b same. (_, refl, (refl, refl, inl refl))))
    | inr frame ↦
        rw (wait_audio, e, frame)
          (wait_frame-Gives 2 now Codec.aac m s (heard m s) (omega arith) (refl, refl, inl refl))
  ]
  wait_audio-Gives now m s Codec.opus e long =
      rw (wait_audio, e)
        (wait_frame-Gives 1 now Codec.opus m s (heard m s) (omega arith) (refl, refl, inl refl))
  wait_audio-Gives now m s Codec.avc e long = rw (wait_audio, e) (_, refl, (refl, refl, inr refl))
  wait_audio-Gives now m s Codec.hevc e long = rw (wait_audio, e) (_, refl, (refl, refl, inr refl))
  wait_audio-Gives now m s Codec.unknown e long =
      rw (wait_audio, e) (_, refl, (refl, refl, inr refl))

  wait_video-Gives :
      (now : ℕ) (m : M) (s : HlsSession)
      → 5 ≤ length (i.payload m)
      → Gives (IsWaiting s) (wait_video lib i now m s)
  unfolding wait_video add_frame
  wait_video-Gives now m s long = elim (Bool-cases (i.is_video_key_seq_header m)) [
    | inl header ↦
        rw (wait_video, header) ((true, take_headers lib i m s), refl, take_headers-IsWaiting m s)
    | inr frame ↦
        rw (wait_video, frame)
          (then_outcome-Gives (λ b. b ≡ drop 5 (i.payload m)) (IsWaiting s)
            (slice_from 5 (i.payload m)) _ (slice_from-Gives 5 (i.payload m) long)
            (λ b same. elim (Option-cases (lib.split_nalu_avcc b)) [
              | inl bad ↦ rw bad ((false, s), refl, (refl, refl, inr refl))
              | inr (nals, good) ↦
                  let filled = fill_video_start-IsWaiting (i.pts m) s in
                  rw good (_, refl, (filled.0, filled.1, inl refl))
            ]))
  ]

  pub wait-Gives :
      (now : ℕ) (m : M) (s : HlsSession) (k : MsgType)
      → i.msg_type m ≡ k
      → 5 ≤ length (i.payload m)
      → Gives (IsWaiting s) (wait lib i now m s)
  unfolding wait
  wait-Gives now m s MsgType.video e long = rw (wait, e) (wait_video-Gives now m s long)
  wait-Gives now m s MsgType.audio e long =
      rw (wait, e) (wait_audio-Gives now m s (i.audio_codec_id m) refl long)
  wait-Gives now m s MsgType.metadata e long =
      rw (wait, e) ((true, s), refl, (refl, refl, inl refl))
  wait-Gives now m s MsgType.other e long = rw (wait, e) ((true, s), refl, (refl, refl, inl refl))
