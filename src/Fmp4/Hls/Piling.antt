-- ===== src/Fmp4/Hls/Piling.antt =====
-- fmp4/hls/session.go: how many frames wait, over any messages.
use lalmax.Base.{
  ℕ, ◌≤◌, ◌<◌, ◌≡◌, ◌⊎◌, refl, sym, ap, ◌∙◌, inl, inr, arith, true, false, List, [], ◌∷◌, ◌++◌,
  Bool-cases, leb, ◌&&◌, ◌||◌, length, All,
}
use lalmax.Base.Outcome.{ok, then_outcome}
use mathlib.Core.Path.{subst}
use lalmax.Fmp4.Message.{Message}
use lalmax.Fmp4.Hls.{Library, HlsSession, is_known, drain_if_due, wait, on_msg, on_msgs}
use lalmax.Fmp4.Hls.Starting.{can_start, drain-cases}
use lalmax.Fmp4.Hls.Waiting.{
  IsShort, IsWaiting, Gives, then_outcome-Gives, if_true, if_false, live-Gives, wait-Gives,
}

abbrev IsIdle : HlsSession → Type 0
IsIdle s = (s.done ≡ false) × (s.max_msg_size ≡ 128)

-- What a message makes of an idle session.
abbrev Next : Library → HlsSession → HlsSession → Type 0
Next lib s t =
    (t.done ≡ true)
    ⊎ (IsIdle t
        × ((length t.frames ≡ length s.frames)
            ⊎ ((length t.frames < 128) ⊎ (can_start lib t ≡ false))))

module _ (lib : Library) where
  drain_if_due-Next : (s t : HlsSession) → IsIdle t → Next lib s (drain_if_due lib t)
  unfolding drain_if_due
  drain_if_due-Next s t (idle, max) =
      let known = is_known t.video_codec_id && is_known t.audio_codec_id in
      elim (Bool-cases (known || leb t.max_msg_size (length t.frames))) [
        | inl due ↦
            rw (drain_if_due, due)
              (elim (drain-cases lib t) [
                | inl drained ↦ inl drained
                | inr h ↦ inr ((h.same_done ∙ idle, h.same_max ∙ max), inr (inr h.held))
              ])
        | inr early ↦ rw (drain_if_due, early) (inr ((idle, max), inr (inl (ground arith))))
      ]

  module _ {M : Type 0} (i : Message M) where
    on_msg-Next :
        (now : ℕ) (m : M) (s : HlsSession)
        → 5 ≤ length (i.payload m)
        → IsIdle s
        → Gives (Next lib s) (on_msg lib i now m s)
    unfolding on_msg
    on_msg-Next now m s long (idle, max) =
        subst (Gives (Next lib s)) (sym (if_false s.done _ _ idle)) (
          then_outcome-Gives (IsWaiting s) (Next lib s) (wait lib i now m s) _
            (wait-Gives lib i now m s (i.msg_type m) refl long)
            (λ r (same, kept, more). elim (Bool-cases r.0) [
              | inl on ↦ (
                drain_if_due lib r.1,
                rw on refl,
                drain_if_due-Next s r.1 (same ∙ idle, kept ∙ max),
              )
              | inr off ↦
                  let equal : length r.1.frames ≡ length s.frames = ground arith in
                  (r.1, rw off refl, inr ((same ∙ idle, kept ∙ max), inl equal))
            ]))

    on_msg-done :
        (now : ℕ) (m : M) (s : HlsSession)
        → 5 ≤ length (i.payload m)
        → s.done ≡ true
        → Gives (λ t. t.done ≡ true) (on_msg lib i now m s)
    unfolding on_msg
    on_msg-done now m s long done =
        let (t, e, d) = live-Gives lib i now m s (i.msg_type m) refl long done in
        (t, if_true s.done _ _ done ∙ e, d)

    on_msgs-done :
        (ms : List (ℕ × M)) (s : HlsSession)
        → All (λ (e : ℕ × M). 5 ≤ length (i.payload e.1)) ms
        → s.done ≡ true
        → Gives (λ t. t.done ≡ true) (on_msgs lib i ms s)
    unfolding on_msgs
    on_msgs-done [] s long d = (s, refl, d)
    on_msgs-done ((now, m) ∷ ms) s (l, long) d =
        then_outcome-Gives (λ t. t.done ≡ true) (λ t. t.done ≡ true) (on_msg lib i now m s)
          (on_msgs lib i ms) (on_msg-done now m s l d) (λ t d'. on_msgs-done ms t long d')

    -- After some of the messages the session could not be started, and as many frames wait now.
    pub record IsPiled (ms : List (ℕ × M)) (s t : HlsSession) : Type 0 where
      pub before : List (ℕ × M)
      pub after : List (ℕ × M)
      pub then_state : HlsSession
      pub whole : ms ≡ before ++ after
      pub ran : on_msgs lib i before s ≡ ok then_state
      pub stuck : can_start lib then_state ≡ false
      pub as_many : length t.frames ≡ length then_state.frames

    abbrev After : List (ℕ × M) → HlsSession → HlsSession → Type 0
    After ms s t = IsShort t ⊎ (IsPiled ms s t ⊎ (IsIdle t × (length t.frames ≡ length s.frames)))

    IsPiled-later :
        (now : ℕ) (m : M) (ms : List (ℕ × M)) (s u t : HlsSession)
        → on_msg lib i now m s ≡ ok u
        → IsPiled ms u t
        → IsPiled ((now, m) ∷ ms) s t
    unfolding on_msgs
    IsPiled-later now m ms s u t e p = record {
      before = (now, m) ∷ p.before;
      after = p.after;
      then_state = p.then_state;
      whole = ap (◌∷◌ (now, m)) p.whole;
      ran = ap (λ r. then_outcome r (on_msgs lib i p.before)) e ∙ p.ran;
      stuck = p.stuck;
      as_many = p.as_many;
    }

    IsPiled-now :
        (now : ℕ) (m : M) (ms : List (ℕ × M)) (s u t : HlsSession)
        → on_msg lib i now m s ≡ ok u
        → can_start lib u ≡ false
        → length t.frames ≡ length u.frames
        → IsPiled ((now, m) ∷ ms) s t
    unfolding on_msgs
    IsPiled-now now m ms s u t e stuck same = record {
      before = (now, m) ∷ [];
      after = ms;
      then_state = u;
      whole = refl;
      ran = ap (λ r. then_outcome r (on_msgs lib i [])) e;
      stuck = stuck;
      as_many = same;
    }

    After-step :
        (now : ℕ) (m : M) (ms : List (ℕ × M)) (s u t : HlsSession)
        → on_msg lib i now m s ≡ ok u
        → (length u.frames ≡ length s.frames)
          ⊎ ((length u.frames < 128) ⊎ (can_start lib u ≡ false))
        → After ms u t
        → After ((now, m) ∷ ms) s t
    After-step now m ms s u t e nx (inl short) = inl short
    After-step now m ms s u t e nx (inr (inl p)) = inr (inl (IsPiled-later now m ms s u t e p))
    After-step now m ms s u t e (inl same) (inr (inr (idle, eq))) = inr (inr (idle, eq ∙ same))
    After-step now m ms s u t e (inr (inl few)) (inr (inr (idle, eq))) =
        inl (inr (idle.0, idle.1, omega arith))
    After-step now m ms s u t e (inr (inr held)) (inr (inr (idle, eq))) =
        inr (inl (IsPiled-now now m ms s u t e held eq))

    on_msgs-After :
        (ms : List (ℕ × M)) (s : HlsSession)
        → All (λ (e : ℕ × M). 5 ≤ length (i.payload e.1)) ms
        → IsIdle s
        → Gives (After ms s) (on_msgs lib i ms s)
    unfolding on_msgs
    on_msgs-After [] s long idle = (s, refl, inr (inr (idle, refl)))
    on_msgs-After ((now, m) ∷ ms) s (l, long) idle =
        let (u, e, nx) = on_msg-Next now m s l idle in
        let path = ap (λ r. then_outcome r (on_msgs lib i ms)) e in
        elim nx [
          | inl done ↦ let (t, e', d) = on_msgs-done ms u long done in (t, path ∙ e', inl (inl d))
          | inr (idle', c) ↦
              let (t, e', a) = on_msgs-After ms u long idle' in
              (t, path ∙ e', After-step now m ms s u t e c a)
        ]

    -- Over any messages whose payloads have five bytes or more, whatever the libraries answer, OnMsg
    -- does not panic. A session that is drained, or has fewer than 128 frames waiting, is then drained
    -- or has fewer than 128 frames waiting; or else there was a message after which the session could
    -- not be started, since its AAC configuration cannot be read or the muxer refuses its tracks, and
    -- as many frames wait now as then.
    pub on_msgs-IsShort :
        (ms : List (ℕ × M)) (s : HlsSession)
        → All (λ (e : ℕ × M). 5 ≤ length (i.payload e.1)) ms
        → IsShort s
        → Gives (λ t. IsShort t ⊎ IsPiled ms s t) (on_msgs lib i ms s)
    on_msgs-IsShort ms s long (inl done) =
        let (t, e, d) = on_msgs-done ms s long done in (t, e, inl (inl d))
    on_msgs-IsShort ms s long (inr (idle, max, few)) =
        let (t, e, a) = on_msgs-After ms s long (idle, max) in (t, e, bounded t a)
      where
        bounded : (t : HlsSession) → After ms s t → IsShort t ⊎ IsPiled ms s t
        bounded t (inl short) = inl short
        bounded t (inr (inl p)) = inr p
        bounded t (inr (inr (still, same))) = inl (inr (still.0, still.1, omega arith))
