-- ===== src/Hook/Session/Given.antt =====
-- hook/hooksession.go: what OnMsg gives a consumer, by the messages that the stream had before. The
-- GOPs and the headers are read off the list of these messages, not off the cache.
use lalmax.Base.{
  ℕ, zero, suc, ◌+◌, ◌≤◌, ◌≡◌, refl, arith, Bool, true, false, List, [], ◌∷◌, ◌++◌, append_assoc,
  Option, none, some, ltb, ◌&&◌, ◌||◌, not, if◌then◌else◌, length, get_or,
}
use lalmax.Base.Int.{pos}
use mathlib.Core.List.{flatten}
use lalmax.Hook.Rtmp.{Rtmp}
use lalmax.Hook.GopCache.{
  GopCache, new_gop_cache, feed_new_gop, feed_last_gop, feed_ring, feed, get_gop_count,
}
use lalmax.Hook.GopCache.View.{view, length-view}
use lalmax.Hook.GopCache.Newest.{get_gop_data_at-view}
use lalmax.Hook.GopCache.Feed.{feeds, feeds_list, view-feeds_new}
use lalmax.Hook.Session.{
  Consumer, HookSession, headers, option_list, gops_from, all_gops, on_msg_consumer,
}
use lalmax.Hook.Session.Sync.{
  is_video, is_audio, only_if, lead_in, own, delivered, starts, with_more,
  on_msg_consumer-delivered,
}

module _ {M : Type 0} where
  -- The last message of a kind, or what there was before.
  unfoldable pub last_of : (M → Bool) → Option M → List M → Option M
  last_of kind o [] = o
  last_of kind o (m ∷ ms) = last_of kind (if kind m then some m else o) ms

  abbrev pub has_any : List (List M) → Bool
  has_any [] = false
  has_any (_ ∷ _) = true

  gather : ℕ → ℕ → List (List M) → List M
  gather zero at gs = []
  gather (suc n) at gs = get_or gs at [] ++ gather n (at + 1) gs

  gather-later :
      (n at : ℕ) (g : List M) (gs : List (List M)) → gather n (suc at) (g ∷ gs) ≡ gather n at gs
  unfolding gather
  gather-later zero at g gs = refl
  gather-later (suc n) at g gs =
      let e : suc at + 1 ≡ suc (at + 1) = omega arith in rw (e, gather-later n (at + 1) g gs) refl

  gather-flatten : (gs : List (List M)) → gather (length gs) 0 gs ≡ flatten gs
  unfolding gather flatten
  gather-flatten [] = refl
  gather-flatten (g ∷ gs) =
      let e : 0 + 1 ≡ suc 0 = refl in
      rw (e, gather-later (length gs) 0 g gs, gather-flatten gs) refl

  gops_from-gather : (n at : ℕ) (c : GopCache M) → gops_from n at c ≡ gather n at (view c)
  unfolding gops_from gather
  gops_from-gather zero at c = refl
  gops_from-gather (suc n) at c = rw (get_gop_data_at-view c at, gops_from-gather n (at + 1) c) refl

  all_gops-flatten : (c : GopCache M) → all_gops c ≡ flatten (view c)
  unfolding all_gops
  all_gops-flatten c =
      rw (gops_from-gather (get_gop_count c) 0 c, ← length-view c, gather-flatten (view c)) refl

  has_any-count : (c : GopCache M) → ltb 0 (get_gop_count c) ≡ has_any (view c)
  has_any-count c = rw (← length-view c) (has_any-length (view c))
    where
      has_any-length : (gs : List (List M)) → ltb 0 (length gs) ≡ has_any gs
      has_any-length [] = refl
      has_any-length (g ∷ gs) = ground arith

  only_if-has_any : (gs : List (List M)) → only_if (has_any gs) (flatten gs) ≡ flatten gs
  unfolding flatten
  only_if-has_any [] = refl
  only_if-has_any (g ∷ gs) = refl

  only_if-both : (a b : Bool) (xs : List M) → only_if a (only_if b xs) ≡ only_if (a && b) xs
  only_if-both true b xs = refl
  only_if-both false b xs = refl

  module _ (rtmp : Rtmp M) where
    abbrev pub is_video_header : M → Bool
    is_video_header m = is_video (rtmp.msg_type m) && rtmp.is_video_key_seq_header m

    -- G711 and Opus have no sequence header: each of their messages is taken for one.
    abbrev pub is_audio_header : M → Bool
    is_audio_header m =
        is_audio (rtmp.msg_type m) && (rtmp.is_aac_seq_header m || rtmp.is_plain_audio m)

    record Holds (v a : Option M) (c : GopCache M) : Type 0 where
      video_kept : c.videoheader ≡ v
      audio_kept : c.audioheader ≡ a

    feed_ring-Holds :
        (v a : Option M) (c : GopCache M) (m : M) → Holds v a c → Holds v a (feed_ring rtmp c m)
    unfolding feed_ring feed_new_gop feed_last_gop
    feed_ring-Holds v a c m h = record { video_kept = ground arith; audio_kept = ground arith }

    feed-Holds :
        (v a : Option M) (c : GopCache M) (m : M)
        → Holds v a c
        → Holds
            (if is_video_header m then some m else v)
            (if is_audio_header m then some m else a)
            (feed rtmp c m)
    unfolding feed
    feed-Holds v a c m h =
        let plain = feed_ring-Holds v a c m h in
        let kept =
          feed_ring-Holds v (some m) (record c { audioheader = some m }) m
            (record { video_kept = h.video_kept; audio_kept = refl }) in
        record { video_kept = ground arith; audio_kept = ground arith }

    feeds-Holds :
        (ms : List M) (v a : Option M) (c : GopCache M)
        → Holds v a c
        → Holds (last_of is_video_header v ms) (last_of is_audio_header a ms) (feeds rtmp ms c)
    unfolding feeds last_of
    feeds-Holds [] v a c h = h
    feeds-Holds (m ∷ ms) v a c h = feeds-Holds ms _ _ (feed rtmp c m) (feed-Holds v a c m h)

    -- Whether a consumer has its video when a message has been handled, and what it is given for it,
    -- where the cache takes up to `n` GOPs of up to `limit` frames and has had the messages `before`.
    module _ (n limit : ℕ) (before : List M) where
      unfoldable pub has_started : M → Consumer M → Bool
      has_started msg c =
          c.has_send_video
          || has_any (feeds_list rtmp n limit before [])
          || (is_video (rtmp.msg_type msg) && rtmp.is_video_key_nalu msg)

      unfoldable pub given : Bool → M → Consumer M → List M
      unfolding has_started last_of
      given has_video msg c =
          only_if (has_started msg c && not c.has_send_video) (
            option_list (last_of is_video_header none before)
            ++ (option_list (last_of is_audio_header none before)
                ++ flatten (feeds_list rtmp n limit before [])))
          ++ only_if
              (if has_started msg c
                then is_video (rtmp.msg_type msg) || is_audio (rtmp.msg_type msg)
                else is_audio (rtmp.msg_type msg) && not has_video)
              (msg ∷ [])

      new_feeds-Holds :
          Holds
            (last_of is_video_header none before)
            (last_of is_audio_header none before)
            (feeds rtmp before (new_gop_cache (pos n) limit))
      new_feeds-Holds =
          feeds-Holds before none none (new_gop_cache (pos n) limit)
            (unfold new_gop_cache in record { video_kept = refl; audio_kept = refl })

      module _ (s : HookSession M) (msg : M) (c : Consumer M) (h : 1 ≤ n)
          (fed : s.gop_cache ≡ feeds rtmp before (new_gop_cache (pos n) limit)) where
        starts-has_started : starts rtmp s msg c ≡ has_started msg c
        unfolding starts has_started
        starts-has_started =
            rw
              (
                fed,
                has_any-count (feeds rtmp before (new_gop_cache (pos n) limit)),
                view-feeds_new rtmp n limit before h,
              )
              refl

        delivered-given : delivered rtmp s msg c ≡ given s.has_video msg c
        unfolding delivered lead_in own given headers
        delivered-given =
            let cache : GopCache M = feeds rtmp before (new_gop_cache (pos n) limit) in
            let gs : List (List M) = feeds_list rtmp n limit before [] in
            rw
              (
                starts-has_started,
                fed,
                has_any-count cache,
                all_gops-flatten cache,
                view-feeds_new rtmp n limit before h,
                new_feeds-Holds.video_kept,
                new_feeds-Holds.audio_kept,
                only_if-has_any gs,
                only_if-both (has_started msg c) (not c.has_send_video),
                append_assoc (option_list (last_of is_video_header none before))
                    (option_list (last_of is_audio_header none before)) (flatten gs),
              )
              refl

        -- A session whose cache was made for `n` GOPs, `n` not 0, and has had the messages `before`,
        -- gives a consumer for the next message: if its video starts now, the last video header, the
        -- last audio header and all messages of the GOPs, oldest first, each read off `before`; then
        -- the message, if it is video or audio and the consumer has its video, or is audio and the
        -- stream has shown none. Its video starts if there is a GOP, or the message is a key frame.
        pub on_msg_consumer-given :
            on_msg_consumer rtmp s msg c ≡ with_more c (given s.has_video msg c) (has_started msg c)
        on_msg_consumer-given =
            rw (on_msg_consumer-delivered rtmp s msg c, starts-has_started, delivered-given) refl
