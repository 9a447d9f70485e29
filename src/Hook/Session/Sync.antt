-- ===== src/Hook/Session/Sync.antt =====
-- hook/hooksession.go: what a consumer is given for a message, and when its video starts.
use lalmax.Base.{
  append_assoc, append_nil, ◌≡◌, refl, ap, sym, inl, inr, Bool, true, false, ◌&&◌, ◌||◌, not, List,
  [], ◌∷◌, ◌++◌, ltb, if◌then◌else◌, Bool-cases,
}
use lalmax.Hook.Rtmp.{Rtmp, MsgType}
use lalmax.Hook.GopCache.{get_gop_count}
use lalmax.Hook.Session.{Consumer, HookSession, headers, all_gops, on_msg_consumer}

abbrev pub is_video : MsgType → Bool
is_video MsgType.video = true
is_video _ = false

abbrev pub is_audio : MsgType → Bool
is_audio MsgType.audio = true
is_audio _ = false

module _ {M : Type 0} where
  abbrev pub only_if : Bool → List M → List M
  only_if b xs = if b then xs else []

  module _ (rtmp : Rtmp M) where
    -- Whether a consumer has its video when a message has been handled.
    unfoldable pub starts : HookSession M → M → Consumer M → Bool
    starts s msg c =
        c.has_send_video
        || ltb 0 (get_gop_count s.gop_cache)
        || (is_video (rtmp.msg_type msg) && rtmp.is_video_key_nalu msg)

    -- What comes before the message itself when the video starts.
    unfoldable pub lead_in : HookSession M → Consumer M → List M
    lead_in s c =
        only_if (not c.has_send_video) (
          headers s.gop_cache ++ only_if (ltb 0 (get_gop_count s.gop_cache)) (all_gops s.gop_cache))

    -- The message itself: to a consumer with video, audio and video; to any other, the audio of a
    -- stream that has shown no video.
    unfoldable pub own : HookSession M → M → Bool → List M
    own s msg started =
        only_if
          (if started
            then is_video (rtmp.msg_type msg) || is_audio (rtmp.msg_type msg)
            else is_audio (rtmp.msg_type msg) && not s.has_video)
          (msg ∷ [])

    unfoldable pub delivered : HookSession M → M → Consumer M → List M
    unfolding starts lead_in own
    delivered s msg c = only_if (starts s msg c) (lead_in s c) ++ own s msg (starts s msg c)

  -- A consumer after a message, by the list that it was given and whether it has video.
  abbrev pub with_more : Consumer M → List M → Bool → Consumer M
  with_more c xs started = record c { received = c.received ++ xs; has_send_video = started }

  module _ (rtmp : Rtmp M) (s : HookSession M) (msg : M) (c : Consumer M) where
    -- The same interface with fixed answers about the one message.
    abbrev answers : MsgType → Bool → Rtmp M
    answers t k = record rtmp { msg_type = λ _. t; is_video_key_nalu = λ _. k }

    abbrev session : Bool → HookSession M
    session hv = record s { has_video = hv }

    abbrev consumer : Bool → Consumer M
    consumer hs = record c { has_send_video = hs }

    abbrev IsDelivered : MsgType → Bool → Bool → Bool → Type 0
    IsDelivered t k hv hs =
        on_msg_consumer (answers t k) (session hv) msg (consumer hs)
        ≡ with_more (consumer hs) (delivered (answers t k) (session hv) msg (consumer hs))
            (starts (answers t k) (session hv) msg (consumer hs))

    same_received :
        (xs ys : List M) (b : Bool)
        → xs ≡ ys
        → ◌≡◌ {A = Consumer M}
            (record c { received = xs; has_send_video = b })
            (record c { received = ys; has_send_video = b })
    same_received xs ys b e = ap (λ zs. record c { received = zs; has_send_video = b }) e

    has_video_sent : (t : MsgType) (k hv : Bool) → IsDelivered t k hv true
    unfolding on_msg_consumer delivered
    has_video_sent MsgType.video k hv = refl
    has_video_sent MsgType.audio k true = refl
    has_video_sent MsgType.audio k false = refl
    has_video_sent MsgType.metadata k hv = same_received _ _ true (sym (append_nil c.received))
    has_video_sent MsgType.other k hv = same_received _ _ true (sym (append_nil c.received))

    abbrev cached : List M
    cached = headers s.gop_cache ++ all_gops s.gop_cache

    no_video_sent-cached :
        (t : MsgType) (k hv : Bool)
        → ltb 0 (get_gop_count s.gop_cache) ≡ true
        → IsDelivered t k hv false
    unfolding on_msg_consumer delivered
    no_video_sent-cached MsgType.video k hv e =
        rw e (same_received _ _ true (append_assoc c.received cached (msg ∷ [])))
    no_video_sent-cached MsgType.audio k true e =
        rw e (same_received _ _ true (append_assoc c.received cached (msg ∷ [])))
    no_video_sent-cached MsgType.audio k false e =
        rw e (same_received _ _ true (append_assoc c.received cached (msg ∷ [])))
    no_video_sent-cached MsgType.metadata k hv e =
        rw e (same_received _ _ true (ap (◌++◌ c.received) (sym (append_nil cached))))
    no_video_sent-cached MsgType.other k hv e =
        rw e (same_received _ _ true (ap (◌++◌ c.received) (sym (append_nil cached))))

    no_video_sent-empty :
        (t : MsgType) (k hv : Bool)
        → ltb 0 (get_gop_count s.gop_cache) ≡ false
        → IsDelivered t k hv false
    unfolding on_msg_consumer delivered
    no_video_sent-empty MsgType.video true hv e = rw e (
        same_received _ _ true (
          ap (◌++◌ c.received)
            (ap (λ t. t ++ (msg ∷ [])) (sym (append_nil (headers s.gop_cache))))))
    no_video_sent-empty MsgType.video false hv e =
        rw e (same_received _ _ false (sym (append_nil c.received)))
    no_video_sent-empty MsgType.audio k true e =
        rw e (same_received _ _ false (sym (append_nil c.received)))
    no_video_sent-empty MsgType.audio k false e = rw e
    no_video_sent-empty MsgType.metadata k hv e =
        rw e (same_received _ _ false (sym (append_nil c.received)))
    no_video_sent-empty MsgType.other k hv e =
        rw e (same_received _ _ false (sym (append_nil c.received)))

    by_answers : (t : MsgType) (k hv hs : Bool) → IsDelivered t k hv hs
    by_answers t k hv true = has_video_sent t k hv
    by_answers t k hv false = elim (Bool-cases (ltb 0 (get_gop_count s.gop_cache))) [
      | inl e ↦ no_video_sent-cached t k hv e
      | inr e ↦ no_video_sent-empty t k hv e
    ]

  -- The same in terms of the session's own cache.
  pub on_msg_consumer-delivered :
      (rtmp : Rtmp M) (s : HookSession M) (msg : M) (c : Consumer M)
      → on_msg_consumer rtmp s msg c ≡ with_more c (delivered rtmp s msg c) (starts rtmp s msg c)
  unfolding on_msg_consumer delivered
  on_msg_consumer-delivered rtmp s msg c =
      by_answers rtmp s msg c (rtmp.msg_type msg) (rtmp.is_video_key_nalu msg) s.has_video
        c.has_send_video
