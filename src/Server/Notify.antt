-- ===== src/Server/Notify.antt =====
-- server/http_notify.go: the notifications. What is told is a parameter, with its server id set; the
-- posts that have been made are a list, oldest first.
pub mod Queue
use lalmax.Base.{
  ℕ, Bool, true, false, List, [], ◌∷◌, ◌++◌, Option, none, some, ltb, ◌||◌, not, if◌then◌else◌,
  length,
}
use lalmax.Base.Text.{Text, text_eq}

pub record HttpNotifyConfig : Type 0 where
  pub enable : Bool
  pub on_server_start : Text
  pub on_update : Text
  pub on_pub_start : Text
  pub on_pub_stop : Text
  pub on_sub_start : Text
  pub on_sub_stop : Text
  pub on_relay_pull_start : Text
  pub on_relay_pull_stop : Text
  pub on_rtmp_connect : Text
  pub on_hls_make_ts : Text

-- The notifications that go through the first queue.
pub data Notice : Type 0 where
  server_start pub_start pub_stop sub_start sub_stop pull_start pull_stop rtmp_connect hls_make_ts :
      Notice

pub record PostTask (I : Type 0) : Type 0 where
  pub url : Text
  pub info : I

pub record HttpNotify (I : Type 0) : Type 0 where
  pub cfg : HttpNotifyConfig
  pub server_id : Text
  pub task_queue : List (PostTask I)
  pub notify_update_queue : List (PostTask I)
  pub posted : List (PostTask I)
  pub updates_posted : List (PostTask I)

abbrev pub max_task_len : ℕ
max_task_len = 1024

unfoldable pub url_of : HttpNotifyConfig → Notice → Text
url_of c Notice.server_start = c.on_server_start
url_of c Notice.pub_start = c.on_pub_start
url_of c Notice.pub_stop = c.on_pub_stop
url_of c Notice.sub_start = c.on_sub_start
url_of c Notice.sub_stop = c.on_sub_stop
url_of c Notice.pull_start = c.on_relay_pull_start
url_of c Notice.pull_stop = c.on_relay_pull_stop
url_of c Notice.rtmp_connect = c.on_rtmp_connect
url_of c Notice.hls_make_ts = c.on_hls_make_ts

-- A send to a full channel is given up.
unfoldable pub enqueue : {A : Type 0} → A → List A → List A
enqueue a q = if ltb (length q) max_task_len then q ++ (a ∷ []) else q

module _ {I : Type 0} where
  unfoldable pub new_http_notify : HttpNotifyConfig → Text → HttpNotify I
  new_http_notify cfg server_id = record {
    cfg = cfg;
    server_id = server_id;
    task_queue = [];
    notify_update_queue = [];
    posted = [];
    updates_posted = [];
  }

  -- Nothing is posted when notifications are off, or to no address.
  unfoldable pub is_off : Text → HttpNotify I → Bool
  unfolding text_eq
  is_off url h = not h.cfg.enable || text_eq url []

  unfoldable pub async_post : Text → I → HttpNotify I → HttpNotify I
  unfolding is_off enqueue
  async_post url info h =
      if is_off url h
      then h
      else record h { task_queue = enqueue (record { url = url; info = info }) h.task_queue }

  unfoldable pub notify_update_async_post : Text → I → HttpNotify I → HttpNotify I
  unfolding is_off enqueue
  notify_update_async_post url info h = if is_off url h then h else record h {
    notify_update_queue = enqueue (record { url = url; info = info }) h.notify_update_queue;
  }

  -- A task is received from a channel and posted.
  unfoldable pub take_task : List (PostTask I) → HttpNotify I → HttpNotify I
  take_task [] h = h
  take_task (t ∷ rest) h = record h { task_queue = rest; posted = h.posted ++ (t ∷ []) }

  unfoldable pub take_update : List (PostTask I) → HttpNotify I → HttpNotify I
  take_update [] h = h
  take_update (t ∷ rest) h = record h {
    notify_update_queue = rest;
    updates_posted = h.updates_posted ++ (t ∷ []);
  }

  -- One round of the two loops.
  unfoldable pub run_loop : HttpNotify I → HttpNotify I
  unfolding take_task
  run_loop h = take_task h.task_queue h

  unfoldable pub notify_update_run_loop : HttpNotify I → HttpNotify I
  unfolding take_update
  notify_update_run_loop h = take_update h.notify_update_queue h

  module _ (set_server_id : Text → I → I) where
    unfoldable pub notify : Notice → I → HttpNotify I → HttpNotify I
    unfolding url_of async_post
    notify n info h = async_post (url_of h.cfg n) (set_server_id h.server_id info) h

    -- `add_consumers` adds the consumers of the hook sessions to the groups.
    unfoldable pub notify_update : (I → I) → I → HttpNotify I → HttpNotify I
    unfolding notify_update_async_post
    notify_update add_consumers info h =
        notify_update_async_post h.cfg.on_update (add_consumers (set_server_id h.server_id info)) h
