-- ===== src/Fmp4/HttpFmp4/Fragments.antt =====
-- fmp4/http-fmp4/session.go: no sample is lost or reordered, and how long a fragment is.
use lalmax.Base.{
  ℕ, ◌≤◌, ◌≡◌, ◌≢◌, refl, sym, ap, ◌∙◌, inl, inr, arith, true, false, List, [], ◌∷◌, ◌++◌, Option,
  none, some, Bool-cases, ltb, ◌==◌, if◌then◌else◌, length, length-append, append_assoc, append_nil,
  All,
}
use lalmax.Fmp4.HttpFmp4.{
  Sample, Fragment, Track, HttpFmp4Session, flush, open_fragment, add_full_sample, feed_track,
}

-- The samples of a track: those sent under its id, and those of its open fragment.
abbrev pub sent_samples : ℕ → List Fragment → List Sample
sent_samples id [] = []
sent_samples id (f ∷ fs) =
    if f.track_id == id then f.samples ++ sent_samples id fs else sent_samples id fs

abbrev pub open_samples : Option Fragment → List Sample
open_samples none = []
open_samples (some f) = f.samples

-- The open fragment is of the track.
abbrev pub IsOwnedBy : ℕ → Option Fragment → Type 0
IsOwnedBy id none = Unit
IsOwnedBy id (some f) = f.track_id ≡ id

abbrev pub IsOwn : Track → Type 0
IsOwn t = IsOwnedBy t.id t.fragment

sent_samples-append :
    (id : ℕ) (fs gs : List Fragment)
    → sent_samples id (fs ++ gs) ≡ sent_samples id fs ++ sent_samples id gs
sent_samples-append id [] gs = refl
sent_samples-append id (f ∷ fs) gs = elim (Bool-cases (f.track_id == id)) [
  | inl own ↦
      rw (own, sent_samples-append id fs gs)
        (sym (append_assoc f.samples (sent_samples id fs) (sent_samples id gs)))
  | inr other ↦ rw (other, sent_samples-append id fs gs) refl
]

-- What a track with one sample more comes to.
record FeedsTrack (x : Sample) (t : Track) (r : Track × List Fragment × ℕ) : Type 0 where
  id : r.0.id ≡ t.id
  last_dts : r.0.last_dts ≡ x.decode_time
  own : IsOwn r.0
  few : length (open_samples r.0.fragment) ≤ 11
  samples : sent_samples t.id r.1 ++ open_samples r.0.fragment ≡ open_samples t.fragment ++ (x ∷ [])
  others : (j : ℕ) → j ≢ t.id → sent_samples j r.1 ≡ []
  full : All (λ (f : Fragment). length f.samples ≡ 11) r.1

feed_track-FeedsTrack :
    (x : Sample) (seq : ℕ) (t : Track) (o : Option Fragment)
    → t.fragment ≡ o
    → IsOwn t
    → length (open_samples t.fragment) ≤ 11
    → FeedsTrack x t (feed_track x seq t)
unfolding feed_track flush open_fragment add_full_sample
feed_track-FeedsTrack x seq t none e own few = rw e (record {
  id = refl;
  last_dts = refl;
  own = refl;
  few = omega arith;
  samples = refl;
  others = λ j apart. refl;
  full = tt;
})
feed_track-FeedsTrack x seq t (some f) e own few =
    let id_of : f.track_id ≡ t.id = rw e at own in
    let size : length f.samples ≤ 11 = rw e at few in
    elim (Bool-cases (ltb 10 (length f.samples))) [
      | inl much ↦
          rw (e, much)
            (record {
              id = refl;
              last_dts = refl;
              own = refl;
              few = omega arith;
              samples =
                  let mine : (f.track_id == t.id) ≡ true = ground (arith, id_of) in
                  rw (mine, append_nil f.samples) refl;
              others = λ j apart.
                  let other : (f.track_id == j) ≡ false = ground (arith, id_of) in rw other refl;
              full = (ground (arith, size), tt);
            })
      | inr little ↦
          let at_most_ten : length f.samples ≤ 10 = ground arith in
          rw (e, little)
            (record {
              id = refl;
              last_dts = refl;
              own = rw e at own;
              few = omega (arith, length-append f.samples (x ∷ []), at_most_ten);
              samples = refl;
              others = λ j apart. refl;
              full = tt;
            })
    ]

abbrev pub samples_of : Track → HttpFmp4Session → List Sample
samples_of t s = sent_samples t.id s.sent ++ open_samples t.fragment

-- The two tracks differ, an open fragment is its track's and has at most eleven samples, and a
-- fragment that was sent has eleven.
pub record IsSound (s : HttpFmp4Session) : Type 0 where
  pub apart : s.video.id ≢ s.audio.id
  pub own_video : IsOwn s.video
  pub own_audio : IsOwn s.audio
  pub few_video : length (open_samples s.video.fragment) ≤ 11
  pub few_audio : length (open_samples s.audio.fragment) ≤ 11
  pub full : All (λ (f : Fragment). length f.samples ≡ 11) s.sent

-- From one session to a later one: what each track has more.
pub record IsFed (vs us : List Sample) (s t : HttpFmp4Session) : Type 0 where
  pub video_id : t.video.id ≡ s.video.id
  pub audio_id : t.audio.id ≡ s.audio.id
  pub sound : IsSound t
  pub video : samples_of t.video t ≡ samples_of s.video s ++ vs
  pub audio : samples_of t.audio t ≡ samples_of s.audio s ++ us

All-append : {A : Type 0} (P : A → Type 0) (xs ys : List A) → All P xs → All P ys → All P (xs ++ ys)
All-append P [] ys h k = k
All-append P (x ∷ xs) ys (p, h) k = (p, All-append P xs ys h k)

abbrev pub fed_video : Sample → HttpFmp4Session → HttpFmp4Session
fed_video x s =
    let r = feed_track x s.seq_number s.video in
    record s { video = r.0; sent = s.sent ++ r.1; seq_number = r.2 }

abbrev pub fed_audio : Sample → HttpFmp4Session → HttpFmp4Session
fed_audio x s =
    let r = feed_track x s.seq_number s.audio in
    record s { audio = r.0; sent = s.sent ++ r.1; seq_number = r.2 }

-- What the fed track holds, and what the other one holds.
fed_same :
    (x : Sample) (seq : ℕ) (t : Track) (sent : List Fragment)
    → IsOwn t
    → length (open_samples t.fragment) ≤ 11
    → let r = feed_track x seq t in
      sent_samples r.0.id (sent ++ r.1) ++ open_samples r.0.fragment
      ≡ (sent_samples t.id sent ++ open_samples t.fragment) ++ (x ∷ [])
fed_same x seq t sent own few =
    let r = feed_track x seq t in
    let f = feed_track-FeedsTrack x seq t t.fragment refl own few in
    rw
      (
        f.id,
        sent_samples-append t.id sent r.1,
        append_assoc (sent_samples t.id sent) (sent_samples t.id r.1) (open_samples r.0.fragment),
        f.samples,
      )
      (sym (append_assoc (sent_samples t.id sent) (open_samples t.fragment) (x ∷ [])))

fed_other :
    (x : Sample) (seq : ℕ) (t u : Track) (sent : List Fragment)
    → IsOwn t
    → length (open_samples t.fragment) ≤ 11
    → u.id ≢ t.id
    → sent_samples u.id (sent ++ (feed_track x seq t).1) ++ open_samples u.fragment
      ≡ (sent_samples u.id sent ++ open_samples u.fragment) ++ []
fed_other x seq t u sent own few apart =
    let r = feed_track x seq t in
    let f = feed_track-FeedsTrack x seq t t.fragment refl own few in
    rw
      (
        sent_samples-append u.id sent r.1,
        f.others u.id apart,
        append_nil (sent_samples u.id sent),
        append_nil (sent_samples u.id sent ++ open_samples u.fragment),
      )
      refl

pub fed_video-IsFed :
    (x : Sample) (s : HttpFmp4Session) → IsSound s → IsFed (x ∷ []) [] s (fed_video x s)
fed_video-IsFed x s h =
    let f =
      feed_track-FeedsTrack x s.seq_number s.video s.video.fragment refl h.own_video h.few_video in
    record {
      video_id = f.id;
      audio_id = refl;
      sound = record {
        apart = λ e. h.apart (sym f.id ∙ e);
        own_video = f.own;
        own_audio = h.own_audio;
        few_video = f.few;
        few_audio = h.few_audio;
        full = All-append (λ (g : Fragment). length g.samples ≡ 11) s.sent _ h.full f.full;
      };
      video = fed_same x s.seq_number s.video s.sent h.own_video h.few_video;
      audio =
          fed_other x s.seq_number s.video s.audio s.sent h.own_video h.few_video
            (λ e. h.apart (sym e));
    }

pub fed_audio-IsFed :
    (x : Sample) (s : HttpFmp4Session) → IsSound s → IsFed [] (x ∷ []) s (fed_audio x s)
fed_audio-IsFed x s h =
    let f =
      feed_track-FeedsTrack x s.seq_number s.audio s.audio.fragment refl h.own_audio h.few_audio in
    record {
      video_id = refl;
      audio_id = f.id;
      sound = record {
        apart = λ e. h.apart (e ∙ f.id);
        own_video = h.own_video;
        own_audio = f.own;
        few_video = h.few_video;
        few_audio = f.few;
        full = All-append (λ (g : Fragment). length g.samples ≡ 11) s.sent _ h.full f.full;
      };
      video = fed_other x s.seq_number s.audio s.video s.sent h.own_audio h.few_audio h.apart;
      audio = fed_same x s.seq_number s.audio s.sent h.own_audio h.few_audio;
    }

pub nothing-IsFed : (s : HttpFmp4Session) → IsSound s → IsFed [] [] s s
nothing-IsFed s h = record {
  video_id = refl;
  audio_id = refl;
  sound = h;
  video = sym (append_nil (samples_of s.video s));
  audio = sym (append_nil (samples_of s.audio s));
}

pub IsFed-then :
    (vs us vs' us' : List Sample) (s t u : HttpFmp4Session)
    → IsFed vs us s t
    → IsFed vs' us' t u
    → IsFed (vs ++ vs') (us ++ us') s u
IsFed-then vs us vs' us' s t u f g = record {
  video_id = g.video_id ∙ f.video_id;
  audio_id = g.audio_id ∙ f.audio_id;
  sound = g.sound;
  video = g.video ∙ (ap (λ l. l ++ vs') f.video ∙ append_assoc (samples_of s.video s) vs vs');
  audio = g.audio ∙ (ap (λ l. l ++ us') f.audio ∙ append_assoc (samples_of s.audio s) us us');
}
