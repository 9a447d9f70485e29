-- ===== src/Tests/Hook.antt =====
-- hook at concrete inputs. A message is a number: below 100 audio, else video, from 200 on a key frame.
use lalmax.Base.{
  ℕ, ◌≤◌, ◌≡◌, ◌==◌, refl, arith, true, false, List, [], ◌∷◌, none, All, length, get_or, ltb, leb,
  if◌then◌else◌,
}
use mathlib.Core.List
use lalmax.Base.Int.{pos}
use lalmax.Hook.Rtmp.{Rtmp, MsgType}
use lalmax.Hook.GopCache.{new_gop_cache, get_gop_data_at, get_gop_count}
use lalmax.Hook.GopCache.Feed.{feeds, feeds_list, feeds-new}
use lalmax.Hook.Session.{Consumer, HookSession, on_msg_consumer}
use lalmax.Hook.Session.Sync.{with_more}
use lalmax.Hook.Session.Given.{given, has_started, on_msg_consumer-given}
use lalmax.Hook.Session.Silence.{IsSilent, on_msgs, on_msgs-IsSilent}

abbrev sample : Rtmp ℕ
sample = record {
  msg_type = λ m. if ltb m 100 then MsgType.audio else MsgType.video;
  is_aac_seq_header = λ m. false;
  is_plain_audio = λ m. false;
  is_video_key_seq_header = λ m. false;
  is_video_key_nalu = λ m. leb 200 m;
}

-- Three GOPs, of which a cache for two keeps the last.
abbrev stream : List ℕ
stream = 200 ∷ 100 ∷ 201 ∷ 7 ∷ 101 ∷ 202 ∷ 8 ∷ []

feeds-new_example :
    (get_gop_data_at (feeds sample stream (new_gop_cache (pos 2) 10)) 1
      ≡ get_or (feeds_list sample 2 10 stream []) 1 [])
    × (get_gop_count (feeds sample stream (new_gop_cache (pos 2) 10))
        ≡ length (feeds_list sample 2 10 stream []))
    × (length (feeds_list sample 2 10 stream []) ≤ 2)
feeds-new_example = feeds-new sample 2 10 1 stream (omega arith)

abbrev fresh : Consumer ℕ
fresh = record { consumer_id = "c"; has_send_video = false; received = []; stopped = false }

abbrev session : HookSession ℕ
session = record {
  stream_name = "s";
  consumers = fresh ∷ [];
  hls = none;
  gop_cache = new_gop_cache (pos 2) 10;
  has_video = false;
}

-- The same with sequence headers: 1 for audio, 150 for video.
abbrev headed : Rtmp ℕ
headed = record sample { is_aac_seq_header = λ m. m == 1; is_video_key_seq_header = λ m. m == 150 }

abbrev running : HookSession ℕ
running = record session {
  gop_cache = feeds headed (150 ∷ 1 ∷ stream) (new_gop_cache (pos 2) 10);
  has_video = true;
}

-- A late consumer: both headers, the two GOPs of the cache, and the message.
late_consumer :
    given headed 2 10 (150 ∷ 1 ∷ stream) true 9 fresh ≡ 150 ∷ 1 ∷ 201 ∷ 7 ∷ 101 ∷ 202 ∷ 8 ∷ 9 ∷ []
unfolding given feeds_list List.flatten
late_consumer = refl

on_msg_consumer-given_example :
    on_msg_consumer headed running 109 fresh
    ≡ with_more fresh
        (given headed 2 10 (150 ∷ 1 ∷ stream) true 109 fresh)
        (has_started headed 2 10 (150 ∷ 1 ∷ stream) 109 fresh)
on_msg_consumer-given_example =
    on_msg_consumer-given headed 2 10 (150 ∷ 1 ∷ stream) running 109 fresh (omega arith) refl

fresh-IsSilent : All (IsSilent sample) (fresh ∷ [])
unfolding IsSilent
fresh-IsSilent = (λ e. tt, tt)

on_msgs-IsSilent_example :
    All (IsSilent sample) (on_msgs sample session (7 ∷ 100 ∷ 8 ∷ [])).consumers
on_msgs-IsSilent_example = on_msgs-IsSilent sample session (7 ∷ 100 ∷ 8 ∷ []) fresh-IsSilent
