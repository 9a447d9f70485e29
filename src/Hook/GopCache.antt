-- ===== src/Hook/GopCache.antt =====
-- hook/gop_cache.go: a ring of groups of pictures, one slot of which is always free.
pub mod View
pub mod Newest
pub mod Feed
use lalmax.Base.{
  ℕ, zero, suc, ◌+◌, ◌-◌, ◌%◌, Bool, true, false, List, [], ◌∷◌, ◌++◌, Option, none, some, length,
  get_or, set, replicate, leb, ◌==◌, ◌||◌, ltb, if◌then◌else◌,
}
use lalmax.Base.Int.{ℤ, pos, negsuc}
use lalmax.Hook.Rtmp.{Rtmp, MsgType}

pub record GopCache (M : Type 0) : Type 0 where
  pub videoheader : Option M
  pub audioheader : Option M
  pub gop_size : ℕ
  pub single_gop_max_frame_num : ℕ
  pub gops : List (List M)
  pub first : ℕ
  pub last : ℕ

-- The frame limit is taken as not negative: a negative one compares as no length does, so that the
-- last GOP would not grow.
unfoldable pub new_gop_cache : {M : Type 0} → ℤ → ℕ → GopCache M
new_gop_cache gop_size limit =
    let num : ℕ = elim gop_size [ pos n ↦ n + 1 | negsuc _ ↦ 1 ] in
    record {
      videoheader = none;
      audioheader = none;
      gop_size = num;
      single_gop_max_frame_num = limit;
      gops = replicate num [];
      first = 0;
      last = 0;
    }

module _ {M : Type 0} where
  unfoldable pub is_gop_ring_full : GopCache M → Bool
  is_gop_ring_full c = (c.last + 1) % c.gop_size == c.first

  unfoldable pub is_gop_ring_empty : GopCache M → Bool
  is_gop_ring_empty c = c.first == c.last

  -- The slot at `last` is cleared and takes the message.
  unfoldable pub feed_new_gop : GopCache M → M → GopCache M
  unfolding is_gop_ring_full
  feed_new_gop c msg = record c {
    first = if is_gop_ring_full c then (c.first + 1) % c.gop_size else c.first;
    gops = set c.gops c.last (msg ∷ []);
    last = (c.last + 1) % c.gop_size;
  }

  -- `(last - 1 + gopSize) % gopSize`.
  unfoldable pub newest : GopCache M → ℕ
  newest c = (c.last + c.gop_size - 1) % c.gop_size

  unfoldable pub feed_last_gop : GopCache M → M → GopCache M
  unfolding is_gop_ring_empty newest
  feed_last_gop c msg =
      let gop = get_or c.gops (newest c) [] in
      if is_gop_ring_empty c
      then c
      else if c.single_gop_max_frame_num == 0 || leb (length gop) c.single_gop_max_frame_num
      then record c { gops = set c.gops (newest c) (gop ++ (msg ∷ [])) }
      else c

  unfoldable pub clear : GopCache M → GopCache M
  clear c = record c { first = 0; last = 0 }

  unfoldable pub get_gop_count : GopCache M → ℕ
  get_gop_count c = (c.last + c.gop_size - c.first) % c.gop_size

  -- At a position that is not negative. A nil slice is the empty list.
  unfoldable pub get_gop_data_at : GopCache M → ℕ → List M
  unfolding get_gop_count
  get_gop_data_at c at =
      if leb (get_gop_count c) at then [] else get_or c.gops ((c.first + at) % c.gop_size) []

  module _ (rtmp : Rtmp M) where
    unfoldable pub feed_ring : GopCache M → M → GopCache M
    unfolding feed_new_gop feed_last_gop
    feed_ring c msg =
        if ltb 1 c.gop_size
        then (if rtmp.is_video_key_nalu msg then feed_new_gop c msg else feed_last_gop c msg)
        else c

    unfoldable pub feed : GopCache M → M → GopCache M
    unfolding feed_ring
    feed c msg = elim (rtmp.msg_type msg) [
      | MsgType.metadata ↦ c
      | MsgType.audio ↦
          if rtmp.is_aac_seq_header msg
          then record c { audioheader = some msg }
          else if rtmp.is_plain_audio msg
          then feed_ring (record c { audioheader = some msg }) msg
          else feed_ring c msg
      | MsgType.video ↦
          if rtmp.is_video_key_seq_header msg
          then record c { videoheader = some msg }
          else feed_ring c msg
      | MsgType.other ↦ feed_ring c msg
    ]
