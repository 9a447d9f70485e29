-- ===== src/Tests/Server.antt =====
-- server at concrete inputs.
use lalmax.Base.{◌≤◌, ◌≡◌, ◌⊎◌, arith, true, List, [], ◌∷◌, ◌++◌, length}
use lalmax.Base.Text.{Text, codes}
use lalmax.Server.Middle.{
  json, next, authentication_middleware, IsAllowed, authentication_middleware-IsAllowed,
}
use lalmax.Server.Notify.{
  HttpNotifyConfig, Notice, PostTask, HttpNotify, max_task_len, new_http_notify,
}
use lalmax.Server.Notify.Queue.{Event, told, round, IsSome, steps, tasks, steps-IsSome}

abbrev secrets : List Text
secrets = codes "xyz" ∷ codes "abc" ∷ []

authentication_middleware-IsAllowed_example :
    (IsAllowed secrets (codes "abc")
      × IsAllowed [] (codes "10.0.0.1")
      × (authentication_middleware secrets [] (codes "abc") (codes "10.0.0.1") ≡ next ∷ []))
    ⊎ ((¬ (IsAllowed secrets (codes "abc") × IsAllowed [] (codes "10.0.0.1")))
        × (authentication_middleware secrets [] (codes "abc") (codes "10.0.0.1")
            ≡ json 200 401 (codes "Unauthorized") ∷ []))
authentication_middleware-IsAllowed_example =
    authentication_middleware-IsAllowed secrets [] (codes "abc") (codes "10.0.0.1")

abbrev urls : HttpNotifyConfig
urls = record {
  enable = true;
  on_server_start = [];
  on_update = [];
  on_pub_start = codes "http://a/start";
  on_pub_stop = codes "http://a/stop";
  on_sub_start = [];
  on_sub_stop = [];
  on_relay_pull_start = [];
  on_relay_pull_stop = [];
  on_rtmp_connect = [];
  on_hls_make_ts = [];
}

abbrev same_info : Text → Text → Text
same_info id info = id ++ info

abbrev told_twice : List (Event Text)
told_twice =
    told Notice.pub_start (codes "one")
    ∷ round
    ∷ told Notice.sub_start (codes "two")
    ∷ told Notice.pub_stop (codes "three")
    ∷ []

abbrev silent : HttpNotify Text
silent = new_http_notify urls (codes "id")

nothing_waits : length silent.task_queue ≤ max_task_len
unfolding new_http_notify
nothing_waits = omega arith

steps-IsSome_example :
    (length (steps same_info told_twice silent).task_queue ≤ max_task_len)
    × ((new : List (PostTask Text)) × IsSome new
          (tasks same_info silent.cfg silent.server_id told_twice)
        × ((steps same_info told_twice silent).posted
              ++ (steps same_info told_twice silent).task_queue
            ≡ (silent.posted ++ silent.task_queue) ++ new))
steps-IsSome_example = steps-IsSome same_info told_twice silent nothing_waits
