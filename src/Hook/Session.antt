-- ===== src/Hook/Session.antt =====
-- hook/hooksession.go and hook/hookmanager.go: the consumers of a stream, and the sessions by stream
-- name. A consumer's record holds the messages that its subscriber was given, oldest first.
pub mod Silence
pub mod Sync
pub mod Given
use lalmax.Base.{
  ℕ, zero, suc, ◌+◌, Bool, true, false, List, [], ◌∷◌, ◌++◌, map, Option, none, some, ltb, ◌&&◌,
  ◌||◌, not, if◌then◌else◌,
}
use Prim.Native.String.{String}
use text.Mathlib.Text.{◌==◌ as str_eq}
use lalmax.Hook.Rtmp.{Rtmp, MsgType}
use lalmax.Hook.GopCache.{GopCache, get_gop_count, get_gop_data_at, feed}

pub record Consumer (M : Type 0) : Type 0 where
  pub consumer_id : String
  pub has_send_video : Bool
  pub received : List M
  pub stopped : Bool

-- `hls` is what the HLS server was given for this stream, or `none` where there is no such server.
pub record HookSession (M : Type 0) : Type 0 where
  pub stream_name : String
  pub consumers : List (Consumer M)
  pub hls : Option (List M)
  pub gop_cache : GopCache M
  pub has_video : Bool

module _ {M : Type 0} where
  unfoldable pub give : List M → Consumer M → Consumer M
  give msgs c = record c { received = c.received ++ msgs }

  abbrev pub option_list : Option M → List M
  option_list none = []
  option_list (some m) = m ∷ []

  -- The sequence headers, video first.
  unfoldable pub headers : GopCache M → List M
  headers g = option_list g.videoheader ++ option_list g.audioheader

  -- The GOPs from position `at` on, `n` of them.
  unfoldable pub gops_from : ℕ → ℕ → GopCache M → List M
  unfolding get_gop_data_at
  gops_from zero at g = []
  gops_from (suc n) at g = get_gop_data_at g at ++ gops_from n (at + 1) g

  unfoldable pub all_gops : GopCache M → List M
  unfolding get_gop_count gops_from
  all_gops g = gops_from (get_gop_count g) 0 g

  -- A consumer that has had no video gets the headers and the cached GOPs, if there are any.
  unfoldable pub catch_up : GopCache M → Consumer M → Consumer M
  unfolding give headers all_gops get_gop_count
  catch_up g c =
      if not c.has_send_video && ltb 0 (get_gop_count g)
      then record (give (headers g ++ all_gops g) c) { has_send_video = true }
      else c

  module _ (rtmp : Rtmp M) where
    -- The message itself, to a consumer that has caught up.
    unfoldable pub forward : HookSession M → M → Consumer M → Consumer M
    unfolding give headers
    forward s msg c = elim (rtmp.msg_type msg) [
      | MsgType.video ↦
          if c.has_send_video
          then give (msg ∷ []) c
          else if rtmp.is_video_key_nalu msg
          then record (give (headers s.gop_cache ++ (msg ∷ [])) c) { has_send_video = true }
          else c
      | MsgType.audio ↦ if not s.has_video || c.has_send_video then give (msg ∷ []) c else c
      | _ ↦ c
    ]

    unfoldable pub on_msg_consumer : HookSession M → M → Consumer M → Consumer M
    unfolding catch_up forward
    on_msg_consumer s msg c = forward s msg (catch_up s.gop_cache c)

    unfoldable pub on_msg : HookSession M → M → HookSession M
    unfolding on_msg_consumer feed
    on_msg s msg = record s {
      hls = elim s.hls [ none ↦ none | some ms ↦ some (ms ++ (msg ∷ [])) ];
      consumers = map (on_msg_consumer s msg) s.consumers;
      has_video = s.has_video || rtmp.is_video_key_nalu msg;
      gop_cache = feed rtmp s.gop_cache msg;
    }

  abbrev stop_consumer : Consumer M → Consumer M
  stop_consumer c = record c { stopped = true }

  -- The subscribers are told; the session leaves the manager (`stop_session`).
  unfoldable pub on_stop : HookSession M → HookSession M
  on_stop s = record s { consumers = map stop_consumer s.consumers }

  unfoldable pub find_consumer : String → List (Consumer M) → Option (Consumer M)
  find_consumer id [] = none
  find_consumer id (c ∷ rest) = if str_eq c.consumer_id id then some c else find_consumer id rest

  -- `Store` and `Delete` of the map of consumers.
  unfoldable pub store_consumer : Consumer M → List (Consumer M) → List (Consumer M)
  store_consumer c [] = c ∷ []
  store_consumer c (d ∷ rest) =
      if str_eq d.consumer_id c.consumer_id then c ∷ rest else d ∷ store_consumer c rest

  unfoldable pub delete_consumer : String → List (Consumer M) → List (Consumer M)
  delete_consumer id [] = []
  delete_consumer id (d ∷ rest) =
      if str_eq d.consumer_id id then rest else d ∷ delete_consumer id rest

  unfoldable pub new_consumer : String → Consumer M
  new_consumer id = record {
    consumer_id = id;
    has_send_video = false;
    received = [];
    stopped = false;
  }

  unfoldable pub add_consumer : String → HookSession M → HookSession M
  unfolding store_consumer new_consumer
  add_consumer id s = record s { consumers = store_consumer (new_consumer id) s.consumers }

  unfoldable pub remove_consumer : String → HookSession M → HookSession M
  unfolding find_consumer delete_consumer
  remove_consumer id s = elim (find_consumer id s.consumers) [
    | none ↦ s
    | some _ ↦ record s { consumers = delete_consumer id s.consumers }
  ]

  -- The sessions by stream name, with the manager's Store, Delete and Load.
  unfoldable pub set_hook_session :
      String → HookSession M → List (String × HookSession M) → List (String × HookSession M)
  set_hook_session k s [] = (k, s) ∷ []
  set_hook_session k s ((j, t) ∷ rest) =
      if str_eq j k then (k, s) ∷ rest else (j, t) ∷ set_hook_session k s rest

  unfoldable pub remove_hook_session :
      String → List (String × HookSession M) → List (String × HookSession M)
  remove_hook_session k [] = []
  remove_hook_session k ((j, t) ∷ rest) =
      if str_eq j k then rest else (j, t) ∷ remove_hook_session k rest

  unfoldable pub get_hook_session : String → List (String × HookSession M) → Option (HookSession M)
  get_hook_session k [] = none
  get_hook_session k ((j, t) ∷ rest) = if str_eq j k then some t else get_hook_session k rest

  unfoldable pub stop_session :
      HookSession M → List (String × HookSession M) → List (String × HookSession M)
  unfolding remove_hook_session
  stop_session s sessions = remove_hook_session s.stream_name sessions
