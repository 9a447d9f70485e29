-- ===== src/Gb28181/Sip/Media.antt =====
-- gb28181/server.go: the media servers. An error of the pool, and the model's own `stuck`, which
-- Acquire does not come to, give no media server.
pub mod Starts
use lalmax.Base.{
  ℕ, ◌+◌, ◌==◌, Bool, true, false, List, [], ◌++◌, Option, none, some, if◌then◌else◌, u16,
}
use lalmax.Base.Text.{Text, text_eq, codes, decimal}
use lalmax.Base.Dict.{load, store, delete}
use lalmax.Gb28181.Ports.{
  AvailConnPool, Acquired, got, net_error, stuck, acquire, listen_with_port, new_avail_conn_pool,
  with_listen_with_port,
}
use lalmax.Gb28181.Sip.Store.{
  Config, MediaServer, Server, Effect, start_media, close_conn, dispose_media, emit,
}

-- The source's defaults for what the configuration leaves open.
abbrev or_default : Text → Text → Text
or_default s d = if text_eq s [] then d else s

abbrev tcp_text : Text
tcp_text = codes "tcp"

unfoldable pub is_tcp : Text → Bool
unfolding text_eq
is_tcp net_work = text_eq net_work tcp_text

abbrev network_text : Bool → Text
network_text true = tcp_text
network_text false = codes "udp"

-- "%s%d" of the network and a port.
unfoldable pub port_key : Bool → ℕ → Text
unfolding decimal
port_key tcp port = network_text tcp ++ decimal port

-- The key of a media server: its port, or the device and the channel.
unfoldable pub media_server_key : Bool → Bool → Text → Text → ℕ → Text
unfolding port_key
media_server_key tcp single_port device_id channel_id listen_port =
    if single_port then port_key tcp listen_port else device_id ++ channel_id

unfoldable pub fill_config : Config → Config
unfolding text_eq
fill_config c = record c {
  sip_port = if c.sip_port == 0 then 5060 else c.sip_port;
  keepalive_interval = if c.keepalive_interval == 0 then 60 else c.keepalive_interval;
  serial = or_default c.serial (codes "34020000002000000001");
  realm = or_default c.realm (codes "3402000000");
  media_ip = or_default c.media_ip (codes "0.0.0.0");
  listen_port = if c.listen_port == 0 then 30000 else c.listen_port;
  multi_port_max_increment =
      if c.multi_port_max_increment == 0 then 3000 else c.multi_port_max_increment;
}

module _ {L : Type 0} where
  unfoldable pub pool_of : Bool → Server L → AvailConnPool L
  pool_of true s = s.tcp_avail_conn_pool
  pool_of false s = s.udp_avail_conn_pool

  unfoldable pub set_pool : Bool → AvailConnPool L → Server L → Server L
  set_pool true a s = record s { tcp_avail_conn_pool = a }
  set_pool false a s = record s { udp_avail_conn_pool = a }

  unfoldable pub begin_media : Text → MediaServer → Server L → Option MediaServer × Server L
  unfolding store emit
  begin_media key m s = (
    some m,
    emit (start_media m) (record s { media_server_map = store key m s.media_server_map }),
  )

  unfoldable pub start_single : Bool → Text → Server L → Option MediaServer × Server L
  unfolding pool_of listen_with_port begin_media port_key
  start_single tcp key s = elim (listen_with_port (pool_of tcp s) s.conf.listen_port) [
    | none ↦ (none, s)
    | some _ ↦
        begin_media key
          (record { listen_port = s.conf.listen_port; media_key = port_key tcp s.conf.listen_port })
          s
  ]

  unfoldable pub start_acquired :
      Bool → Text → Acquired L → Server L → Option MediaServer × Server L
  unfolding begin_media port_key
  start_acquired tcp key (got _ port) s =
      begin_media key (record { listen_port = port; media_key = port_key tcp port }) s
  start_acquired tcp key net_error s = (none, s)
  start_acquired tcp key stuck s = (none, s)

  unfoldable pub start_multi : Bool → Text → Server L → Option MediaServer × Server L
  unfolding pool_of set_pool acquire start_acquired
  start_multi tcp key s =
      let r = acquire (pool_of tcp s) in start_acquired tcp key r.0 (set_pool tcp r.1 s)

  unfoldable pub on_start_media_server :
      Text → Bool → Text → Text → Server L → Option MediaServer × Server L
  unfolding is_tcp media_server_key load start_single start_multi
  on_start_media_server net_work single_port device_id channel_id s =
      let key =
        media_server_key (is_tcp net_work) single_port device_id channel_id s.conf.listen_port in
      elim (load key s.media_server_map) [
        | some m ↦ (some m, s)
        | none ↦
            if single_port
            then start_single (is_tcp net_work) key s
            else start_multi (is_tcp net_work) key s
      ]

  unfoldable pub on_stop_media_server : Text → Bool → Text → Text → Text → Server L → Server L
  unfolding is_tcp media_server_key load delete emit
  on_stop_media_server net_work single_port device_id channel_id stream_name s =
      let key =
        media_server_key (is_tcp net_work) single_port device_id channel_id s.conf.listen_port in
      elim (load key s.media_server_map) [
        | none ↦ s
        | some m ↦
            emit (if single_port then close_conn m stream_name else dispose_media m)
              (record s { media_server_map = delete key s.media_server_map })
      ]

  -- The pool of the ports behind the listen port. `listen` is net.Listen.
  unfoldable pub new_pool : Config → (ℕ → Option L) → AvailConnPool L
  unfolding new_avail_conn_pool with_listen_with_port
  new_pool c listen =
      with_listen_with_port
        (new_avail_conn_pool (u16 (c.listen_port + 1))
          (u16 (c.listen_port + c.multi_port_max_increment)))
        listen

  unfoldable pub new_gb28181_server : Config → (ℕ → Option L) → (ℕ → Option L) → Server L
  unfolding fill_config new_pool
  new_gb28181_server conf listen_tcp listen_udp =
      let c = fill_config conf in
      record {
        conf = c;
        devices = [];
        device_nonce = [];
        device_register_count = [];
        media_server_map = [];
        udp_avail_conn_pool = new_pool c listen_udp;
        tcp_avail_conn_pool = new_pool c listen_tcp;
        effects = [];
      }
