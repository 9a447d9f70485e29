-- ===== src/Gb28181/Sip/Media/Starts.antt =====
-- gb28181/server.go: OnStartMediaServer and OnStopMediaServer as operations on the map of media servers.
use lalmax.Base.{◌≡◌, refl, inl, inr, Bool, true, false, Option, none, Option-cases, if◌then◌else◌}
use lalmax.Base.Text.{Text, text_eq, text_eq_refl}
use lalmax.Base.Dict.{load, load-store, load-delete}
use lalmax.Gb28181.Ports.{AvailConnPool, Acquired, got, net_error, stuck, acquire, listen_with_port}
use lalmax.Gb28181.Sip.Media.{
  is_tcp, media_server_key, pool_of, set_pool, begin_media, start_single, start_acquired,
  start_multi, on_start_media_server, on_stop_media_server,
}
use lalmax.Gb28181.Sip.Store.{MediaServer, Server, emit}

module _ {L : Type 0} where
  -- What a start comes to: the map holds under the key what is returned, and as before under any
  -- other; the devices and the configuration are as they were.
  pub record IsStart (key : Text) (s : Server L) (r : Option MediaServer × Server L) : Type 0 where
    pub found : load key r.1.media_server_map ≡ r.0
    pub others :
        (j : Text) → text_eq key j ≡ false → load j r.1.media_server_map ≡ load j s.media_server_map
    pub devices : r.1.devices ≡ s.devices
    pub conf : r.1.conf ≡ s.conf

  set_pool-IsStart :
      (tcp : Bool) (a : AvailConnPool L) (key : Text) (s : Server L)
      (r : Option MediaServer × Server L)
      → IsStart key (set_pool tcp a s) r
      → IsStart key s r
  unfolding set_pool
  set_pool-IsStart true a key s r h = record {
    found = h.found;
    others = h.others;
    devices = h.devices;
    conf = h.conf;
  }
  set_pool-IsStart false a key s r h = record {
    found = h.found;
    others = h.others;
    devices = h.devices;
    conf = h.conf;
  }

  begin_media-IsStart :
      (key : Text) (m : MediaServer) (s : Server L) → IsStart key s (begin_media key m s)
  unfolding begin_media emit
  begin_media-IsStart key m s = record {
    found = rw (load-store key key m s.media_server_map, text_eq_refl key) refl;
    others = λ j apart. rw (load-store key j m s.media_server_map, apart) refl;
    devices = refl;
    conf = refl;
  }

  nothing-IsStart :
      (key : Text) (s : Server L) → load key s.media_server_map ≡ none → IsStart key s (none, s)
  nothing-IsStart key s absent = record {
    found = absent;
    others = λ j apart. refl;
    devices = refl;
    conf = refl;
  }

  start_acquired-IsStart :
      (tcp : Bool) (key : Text) (a : Acquired L) (s : Server L)
      → load key s.media_server_map ≡ none
      → IsStart key s (start_acquired tcp key a s)
  unfolding start_acquired
  start_acquired-IsStart tcp key (got l port) s absent = begin_media-IsStart key _ s
  start_acquired-IsStart tcp key net_error s absent = nothing-IsStart key s absent
  start_acquired-IsStart tcp key stuck s absent = nothing-IsStart key s absent

  start_multi-IsStart :
      (tcp : Bool) (key : Text) (s : Server L)
      → load key s.media_server_map ≡ none
      → IsStart key s (start_multi tcp key s)
  unfolding start_multi set_pool
  start_multi-IsStart true key s absent =
      let r = acquire (pool_of true s) in
      set_pool-IsStart true r.1 key s _
        (start_acquired-IsStart true key r.0 (set_pool true r.1 s) absent)
  start_multi-IsStart false key s absent =
      let r = acquire (pool_of false s) in
      set_pool-IsStart false r.1 key s _
        (start_acquired-IsStart false key r.0 (set_pool false r.1 s) absent)

  start_single-IsStart :
      (tcp : Bool) (key : Text) (s : Server L)
      → load key s.media_server_map ≡ none
      → IsStart key s (start_single tcp key s)
  unfolding start_single
  start_single-IsStart tcp key s absent =
      elim (Option-cases (listen_with_port (pool_of tcp s) s.conf.listen_port)) [
        | inl busy ↦ rw (start_single, busy) (nothing-IsStart key s absent)
        | inr (l, free) ↦ rw (start_single, free) (begin_media-IsStart key _ s)
      ]

  choose-IsStart :
      (b : Bool) (key : Text) (s : Server L) (x y : Option MediaServer × Server L)
      → IsStart key s x
      → IsStart key s y
      → IsStart key s (if b then x else y)
  choose-IsStart true key s x y h k = h
  choose-IsStart false key s x y h k = k

  -- The map then holds under the key what OnStartMediaServer returns, a media server or none, and is
  -- as before under any other key; the devices and the configuration are as they were.
  pub on_start_media_server-IsStart :
      (net : Text) (single : Bool) (did cid : Text) (s : Server L)
      → IsStart
          (media_server_key (is_tcp net) single did cid s.conf.listen_port)
          s
          (on_start_media_server net single did cid s)
  unfolding on_start_media_server
  on_start_media_server-IsStart net single did cid s =
      let key = media_server_key (is_tcp net) single did cid s.conf.listen_port in
      elim (Option-cases (load key s.media_server_map)) [
        | inr (m, there) ↦
            rw (on_start_media_server, there)
              (record { found = there; others = λ j apart. refl; devices = refl; conf = refl })
        | inl absent ↦
            rw (on_start_media_server, absent)
              (choose-IsStart single key s (start_single (is_tcp net) key s)
                (start_multi (is_tcp net) key s) (start_single-IsStart (is_tcp net) key s absent)
                (start_multi-IsStart (is_tcp net) key s absent))
      ]

  -- What a stop comes to: the map holds nothing under the key, and as before under any other.
  pub record IsStop (key : Text) (s t : Server L) : Type 0 where
    pub absent : load key t.media_server_map ≡ none
    pub others :
        (j : Text) → text_eq key j ≡ false → load j t.media_server_map ≡ load j s.media_server_map
    pub devices : t.devices ≡ s.devices
    pub conf : t.conf ≡ s.conf

  pub on_stop_media_server-IsStop :
      (net : Text) (single : Bool) (did cid name : Text) (s : Server L)
      → IsStop
          (media_server_key (is_tcp net) single did cid s.conf.listen_port)
          s
          (on_stop_media_server net single did cid name s)
  unfolding on_stop_media_server emit
  on_stop_media_server-IsStop net single did cid name s =
      let key = media_server_key (is_tcp net) single did cid s.conf.listen_port in
      elim (Option-cases (load key s.media_server_map)) [
        | inl absent ↦
            rw (on_stop_media_server, absent)
              (record { absent = absent; others = λ j apart. refl; devices = refl; conf = refl })
        | inr (m, there) ↦
            rw (on_stop_media_server, there)
              (record {
                absent = rw (load-delete key key s.media_server_map, text_eq_refl key) refl;
                others = λ j apart. rw (load-delete key j s.media_server_map, apart) refl;
                devices = refl;
                conf = refl;
              })
      ]
