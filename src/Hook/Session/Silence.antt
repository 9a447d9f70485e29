-- ===== src/Hook/Session/Silence.antt =====
-- hook/hooksession.go: a consumer whose video has not started has been given no video message.
use lalmax.Base.{
  ◌≡◌, refl, arith, Bool, true, false, ◌&&◌, ◌||◌, not, List, [], ◌∷◌, ◌++◌, map, All,
}
use lalmax.Hook.Rtmp.{Rtmp, MsgType}
use lalmax.Hook.Session.{Consumer, HookSession, on_msg_consumer, on_msg}
use lalmax.Hook.Session.Sync.{
  is_video, is_audio, only_if, starts, delivered, on_msg_consumer-delivered,
}

unfoldable pub on_msgs : {M : Type 0} → Rtmp M → HookSession M → List M → HookSession M
unfolding on_msg
on_msgs rtmp s [] = s
on_msgs rtmp s (m ∷ ms) = on_msgs rtmp (on_msg rtmp s m) ms

module _ {M : Type 0} (rtmp : Rtmp M) where
  abbrev pub IsNotVideo : M → Type 0
  IsNotVideo m = is_video (rtmp.msg_type m) ≡ false

  unfoldable pub IsSilent : Consumer M → Type 0
  IsSilent c = c.has_send_video ≡ false → All IsNotVideo c.received

  All-append : (xs ys : List M) → All IsNotVideo xs → All IsNotVideo ys → All IsNotVideo (xs ++ ys)
  All-append [] ys h k = k
  All-append (x ∷ xs) ys h k = (h.0, All-append xs ys h.1 k)

  audio_is_not_video : (t : MsgType) → is_audio t ≡ true → is_video t ≡ false
  audio_is_not_video MsgType.audio h = refl
  audio_is_not_video MsgType.video h = ground arith
  audio_is_not_video MsgType.metadata h = refl
  audio_is_not_video MsgType.other h = refl

  only_if-NotVideo :
      (b : Bool) (m : M) → (b ≡ true → IsNotVideo m) → All IsNotVideo (only_if b (m ∷ []))
  only_if-NotVideo true m h = (h refl, tt)
  only_if-NotVideo false m h = tt

  first_false : (a b c : Bool) → a || b || c ≡ false → a ≡ false
  first_false a b c h = ground arith

  first_true : (a b : Bool) → a && b ≡ true → a ≡ true
  first_true a b h = ground arith

  delivered-NotVideo :
      (s : HookSession M) (m : M) (c : Consumer M)
      → starts rtmp s m c ≡ false
      → All IsNotVideo (delivered rtmp s m c)
  unfolding delivered
  delivered-NotVideo s m c h = rw h (
      only_if-NotVideo (is_audio (rtmp.msg_type m) && not s.has_video) m
        (λ e. audio_is_not_video (rtmp.msg_type m) (first_true _ _ e)))

  on_msg_consumer-IsSilent :
      (s : HookSession M) (m : M) (c : Consumer M)
      → IsSilent c
      → IsSilent (on_msg_consumer rtmp s m c)
  unfolding IsSilent starts
  on_msg_consumer-IsSilent s m c h = rw (on_msg_consumer-delivered rtmp s m c) (λ e.
      All-append c.received (delivered rtmp s m c) (h (first_false _ _ _ e))
        (delivered-NotVideo s m c e))

  map-IsSilent :
      (s : HookSession M) (m : M) (cs : List (Consumer M))
      → All IsSilent cs
      → All IsSilent (map (on_msg_consumer rtmp s m) cs)
  map-IsSilent s m [] h = tt
  map-IsSilent s m (c ∷ cs) h = (on_msg_consumer-IsSilent s m c h.0, map-IsSilent s m cs h.1)

  -- If every consumer whose video has not started has been given no video message, the same holds after
  -- any messages.
  pub on_msgs-IsSilent :
      (s : HookSession M) (ms : List M)
      → All IsSilent s.consumers
      → All IsSilent (on_msgs rtmp s ms).consumers
  unfolding on_msgs
  on_msgs-IsSilent s [] h = h
  on_msgs-IsSilent s (m ∷ ms) h =
      on_msgs-IsSilent (on_msg rtmp s m) ms (map-IsSilent s m s.consumers h)
