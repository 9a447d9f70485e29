-- ===== src/Hook/GopCache/Feed.antt =====
-- hook/gop_cache.go: the cache after any number of messages, against a plain list of GOPs.
use lalmax.Base.{
  ℕ, ◌+◌, ◌-◌, ◌≤◌, ◌<◌, ◌≡◌, refl, sym, ◌∙◌, arith, Bool, true, false, not, List, [], ◌∷◌, some,
  length, length-replicate, get_or, if◌then◌else◌,
}
use lalmax.Base.Int.{pos}
use lalmax.Hook.Rtmp.{Rtmp, MsgType}
use lalmax.Hook.GopCache.{
  GopCache, new_gop_cache, feed_new_gop, feed_last_gop, feed_ring, feed, get_gop_count,
  get_gop_data_at,
}
use lalmax.Hook.GopCache.View.{
  IsRing, view, push, length-view, count_facts, view-feed_new_gop, feed_new_gop-IsRing,
}
use lalmax.Hook.GopCache.Newest.{
  grow_last, view-feed_last_gop, feed_last_gop-IsRing, get_gop_data_at-view,
}
use native.Mathlib.Nat.{mod_self}

module _ {M : Type 0} (rtmp : Rtmp M) where
  -- Metadata and the sequence headers of AAC and of video do not go to the GOPs.
  unfoldable pub joins : M → Bool
  joins m = elim (rtmp.msg_type m) [
    | MsgType.metadata ↦ false
    | MsgType.audio ↦ not (rtmp.is_aac_seq_header m)
    | MsgType.video ↦ not (rtmp.is_video_key_seq_header m)
    | MsgType.other ↦ true
  ]

  -- The list of GOPs after a message: a key frame starts a GOP, and any other message that joins goes
  -- to the newest one.
  unfoldable pub feed_list : ℕ → ℕ → M → List (List M) → List (List M)
  unfolding joins grow_last
  feed_list cap limit m gs =
      if joins m
      then (if rtmp.is_video_key_nalu m then push cap (m ∷ []) gs else grow_last limit m gs)
      else gs

  unfoldable pub feeds_list : ℕ → ℕ → List M → List (List M) → List (List M)
  unfolding feed_list
  feeds_list cap limit [] gs = gs
  feeds_list cap limit (m ∷ ms) gs = feeds_list cap limit ms (feed_list cap limit m gs)

  unfoldable pub feeds : List M → GopCache M → GopCache M
  unfolding feed
  feeds [] c = c
  feeds (m ∷ ms) c = feeds ms (feed rtmp c m)

  view-feed_ring :
      (c : GopCache M) (m : M)
      → IsRing c
      → 1 < c.gop_size
      → view (feed_ring rtmp c m) ≡ (
          if rtmp.is_video_key_nalu m
          then push (c.gop_size - 1) (m ∷ []) (view c)
          else grow_last c.single_gop_max_frame_num m (view c))
  unfolding feed_ring
  view-feed_ring c m r big = ground (arith, view-feed_new_gop c m r big, view-feed_last_gop c m r)

  -- What stays as it is.
  record Keeps (c d : GopCache M) : Type 0 where
    size : d.gop_size ≡ c.gop_size
    limit : d.single_gop_max_frame_num ≡ c.single_gop_max_frame_num
    ring : IsRing d

  feed_ring-Keeps : (c : GopCache M) (m : M) → IsRing c → Keeps c (feed_ring rtmp c m)
  feed_ring-Keeps c m r = record {
    size = unfold feed_ring feed_new_gop feed_last_gop in ground arith;
    limit = unfold feed_ring feed_new_gop feed_last_gop in ground arith;
    ring =
        unfold feed_ring in ground (arith, feed_new_gop-IsRing c m r, feed_last_gop-IsRing c m r);
  }

  -- The cache with a message kept as audio header.
  abbrev with_audio : GopCache M → M → GopCache M
  with_audio c m = record c { audioheader = some m }

  with_audio-IsRing : (c : GopCache M) (m : M) → IsRing c → IsRing (with_audio c m)
  with_audio-IsRing c m r = record {
    slots_fit = r.slots_fit;
    first_in = r.first_in;
    last_in = r.last_in;
  }

  view-with_audio : (c : GopCache M) (m : M) → view (with_audio c m) ≡ view c
  unfolding view get_gop_count
  view-with_audio c m = refl

  view-feed :
      (c : GopCache M) (m : M)
      → IsRing c
      → 1 < c.gop_size
      → view (feed rtmp c m) ≡ feed_list (c.gop_size - 1) c.single_gop_max_frame_num m (view c)
  unfolding feed feed_list joins view get_gop_count
  view-feed c m r big = ground (
    arith,
    view-feed_ring c m r big,
    view-feed_ring (with_audio c m) m (with_audio-IsRing c m r) big,
  )

  feed-Keeps : (c : GopCache M) (m : M) → IsRing c → Keeps c (feed rtmp c m)
  feed-Keeps c m r =
      let k = feed_ring-Keeps c m r in
      let k' = feed_ring-Keeps (with_audio c m) m (with_audio-IsRing c m r) in
      record {
        size = unfold feed in ground (arith, k.size, k'.size);
        limit = unfold feed in ground (arith, k.limit, k'.limit);
        ring = unfold feed in ground (arith, k.ring, k'.ring, r);
      }

  -- From a cache in good order on, any messages keep the ring in step with the plain list.
  view-feeds :
      (ms : List M) (c : GopCache M)
      → IsRing c
      → 1 < c.gop_size
      → view (feeds ms c) ≡ feeds_list (c.gop_size - 1) c.single_gop_max_frame_num ms (view c)
  unfolding feeds feeds_list
  view-feeds [] c r big = refl
  view-feeds (m ∷ ms) c r big =
      let k = feed-Keeps c m r in
      view-feeds ms (feed rtmp c m) k.ring (rw k.size big)
      ∙ rw (view-feed c m r big, k.size, k.limit)

  feeds-IsRing : (ms : List M) (c : GopCache M) → IsRing c → IsRing (feeds ms c)
  unfolding feeds
  feeds-IsRing [] c r = r
  feeds-IsRing (m ∷ ms) c r = feeds-IsRing ms (feed rtmp c m) (feed-Keeps c m r).ring

  new-IsRing : (n limit : ℕ) → IsRing (new_gop_cache {M = M} (pos n) limit)
  unfolding new_gop_cache
  new-IsRing n limit = record {
    slots_fit = length-replicate (n + 1) [];
    first_in = omega arith;
    last_in = omega arith;
  }

  view-new : (n limit : ℕ) → view (new_gop_cache {M = M} (pos n) limit) ≡ []
  unfolding view new_gop_cache get_gop_count
  view-new n limit = let e : 0 + (n + 1) - 0 ≡ n + 1 = omega arith in rw (e, mod_self (n + 1))

  feeds-Keeps : (ms : List M) (c : GopCache M) → IsRing c → (feeds ms c).gop_size ≡ c.gop_size
  unfolding feeds
  feeds-Keeps [] c r = refl
  feeds-Keeps (m ∷ ms) c r =
      let k = feed-Keeps c m r in feeds-Keeps ms (feed rtmp c m) k.ring ∙ k.size

  pub view-feeds_new :
      (n limit : ℕ) (ms : List M)
      → 1 ≤ n
      → view (feeds ms (new_gop_cache (pos n) limit)) ≡ feeds_list n limit ms []
  unfolding new_gop_cache
  view-feeds_new n limit ms h =
      let e : n + 1 - 1 ≡ n = omega arith in
      view-feeds ms (new_gop_cache (pos n) limit) (new-IsRing n limit) (omega arith)
      ∙ rw (e, view-new n limit)

  -- A cache for `n` GOPs, `n` not 0, after any messages: what a reader is given at position `k` is
  -- entry `k` of the list that takes the same messages, in which a key frame starts a GOP and pushes
  -- the oldest one out where there are `n`; and the count is the length of that list, at most `n`.
  pub feeds-new :
      (n limit k : ℕ) (ms : List M)
      → 1 ≤ n
      → (get_gop_data_at (feeds ms (new_gop_cache (pos n) limit)) k
          ≡ get_or (feeds_list n limit ms []) k [])
        × (get_gop_count (feeds ms (new_gop_cache (pos n) limit))
            ≡ length (feeds_list n limit ms []))
        × (length (feeds_list n limit ms []) ≤ n)
  feeds-new n limit k ms h =
      let c : GopCache M = feeds ms (new_gop_cache (pos n) limit) in
      let e = view-feeds_new n limit ms h in
      let bound : get_gop_count c < c.gop_size =
        (count_facts c (feeds-IsRing ms _ (new-IsRing n limit))).0 in
      let size : c.gop_size ≡ n + 1 =
        feeds-Keeps ms (new_gop_cache (pos n) limit) (new-IsRing n limit)
        ∙ unfold new_gop_cache in refl in
      let count : length (feeds_list n limit ms []) ≡ get_gop_count c = rw (← e) (length-view c) in
      (rw (← e) (get_gop_data_at-view c k), sym count, omega arith)
