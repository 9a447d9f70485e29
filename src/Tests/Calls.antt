-- ===== src/Tests/Calls.antt =====
-- gb28181: the calls, the checks and the events at concrete inputs.
use lalmax.Base.{ℕ, ◌+◌, ◌*◌, ◌==◌, ◌<◌, ◌≡◌, refl, Bool, true, false, List, [], ◌∷◌, none, some}
use lalmax.Base.Int.{pos}
use lalmax.Base.Outcome.{Outcome, ok}
use lalmax.Base.Text.{Text, codes, text_eq}
use lalmax.Base.Dict.{load}
use lalmax.Gb28181.Sip.Message.{MessageBody, on_message}
use lalmax.Gb28181.Sip.Media.{is_tcp, media_server_key, on_start_media_server}
use lalmax.Gb28181.Sip.Media.Starts.{IsStart, on_start_media_server-IsStart}
use lalmax.Gb28181.Sip.Invite.{no_options, can_invite}
use lalmax.Gb28181.Sip.Call.{find_channel, invite, bye}
use lalmax.Gb28181.Sip.Call.Ends.{IfOk, IsInvited, key_of, invite-IsInvited}
use lalmax.Gb28181.Sip.Call.Bye.{hung_up, device_after, bye_twice}
use lalmax.Gb28181.Sip.Watch.{status_check, get_device_infos}
use lalmax.Gb28181.Sip.Watch.Timeouts.{IsKept, status_check-IsKept, get_device_infos-recovered}
use lalmax.Gb28181.Sip.Run.{Codecs, Event, registers, messages, lists, run}
use lalmax.Gb28181.Sip.Keys.Register.{IsSound}
use lalmax.Gb28181.Sip.Keys.Message.{AllOk}
use lalmax.Gb28181.Sip.Keys.Run.{run-new-IsSound}
use lalmax.Gb28181.Sip.Media.{new_gb28181_server}
use lalmax.Gb28181.Sip.Store.{
  Server, Device, DeviceStatus, Channel, ChannelInfo, MediaInfo, sip_udp_svr, PlayInfo, Ack, Method,
  no_media_info, since, second,
}
use lalmax.Tests.Sip.{camera_id, settings, server_with, camera_address, request_with, mark}
use mathlib.Core.List.{Memᴰ}
use mathlib.Core.Option

abbrev play : PlayInfo
play = record {
  net_work = codes "udp";
  device_id = camera_id;
  channel_id = camera_id;
  stream_name = codes "cam";
  single_port = false;
  dump_file_name = [];
}

abbrev info_with : MediaInfo → ChannelInfo
info_with m = record {
  channel_id = camera_id;
  parent_id = camera_id;
  name = codes "door";
  manufacturer = [];
  model = [];
  owner = [];
  civil_code = [];
  address = [];
  port = pos 0;
  parental = pos 0;
  safety_way = pos 0;
  register_way = pos 0;
  secrecy = pos 0;
  status = codes "ON";
  longitude = [];
  latitude = [];
  stream_name = [];
  serial = [];
  media_info = m;
  sn = 0;
}

abbrev idle : Channel
idle = record {
  gps_time = 0;
  number = 0;
  ack_req = none;
  play_info = none;
  channel_info = info_with no_media_info;
}

abbrev last_ack : Ack
last_ack = record {
  call_id = codes "call";
  request = record {
    method = Method.ack;
    to_user = camera_id;
    to_host = codes "10.0.0.9:5060";
    seq_no = 7;
    destination = codes "10.0.0.9:5060";
    network = codes "udp";
    subject = [];
    body = [];
  };
}

abbrev busy : Channel
busy = record idle {
  ack_req = some last_ack;
  play_info = some play;
  channel_info = info_with (record no_media_info { is_invite = true; stream_name = codes "cam" });
}

abbrev camera_with : Channel → Device
camera_with c = record {
  id = camera_id;
  name = [];
  manufacturer = [];
  model = [];
  register_time = 0;
  update_time = 0;
  last_keepalive_at = 0;
  status = DeviceStatus.online;
  sn = 3;
  addr = camera_address;
  sip_ip = codes "10.0.0.1";
  media_ip = codes "10.0.0.2";
  net_addr = codes "10.0.0.9:5060";
  channel_map = (camera_id, c) ∷ [];
  subscriber_call_id = [];
  subscriber_timeout = 0;
  last_sync_time = 0;
  gps_time = 0;
  longitude = [];
  latitude = [];
  network = codes "udp";
  sip_svr = sip_udp_svr;
}

abbrev server_of : Channel → Server ℕ
server_of c = server_with ((camera_id, camera_with c) ∷ []) []

found : (c : Channel) → find_channel camera_id camera_id (server_of c) ≡ some (camera_with c, c)
unfolding find_channel load text_eq
found c = refl

on_start_media_server-IsStart_example :
    IsStart
      (media_server_key (is_tcp (codes "udp")) false camera_id camera_id 30000)
      (server_of idle)
      (on_start_media_server (codes "udp") false camera_id camera_id (server_of idle))
on_start_media_server-IsStart_example =
    on_start_media_server-IsStart (codes "udp") false camera_id camera_id (server_of idle)

invite-IsInvited_example :
    IfOk (IsInvited (key_of settings play camera_id camera_id) (codes "call") camera_id camera_id) (
      invite
        (codes "123456")
        (codes "call")
        no_options
        (codes "cam")
        play
        (some (200, []))
        camera_id
        camera_id
        (server_of idle))
invite-IsInvited_example =
    invite-IsInvited (codes "123456") (codes "call") no_options (codes "cam") play (some (200, []))
      camera_id camera_id (camera_with idle) idle (server_of idle) (found idle)

-- Ends with a code, without a panic.
abbrev ends_with : ℕ → Outcome (ℕ × Server ℕ) → Bool
ends_with code (ok r) = r.0 == code
ends_with code _ = false

accepted_call :
    ends_with 200 (
      invite
        (codes "123456")
        (codes "call")
        no_options
        (codes "cam")
        play
        (some (200, []))
        camera_id
        camera_id
        (server_of idle))
    ≡ true
unfolding invite
accepted_call = refl

refused_call :
    ends_with 486 (
      invite
        (codes "123456")
        (codes "call")
        no_options
        (codes "cam")
        play
        (some (486, []))
        camera_id
        camera_id
        (server_of idle))
    ≡ true
unfolding invite
refused_call = refl

bye_twice_example :
    let r = bye camera_id camera_id (camera_with busy) busy (server_of busy) in
    (r.0 ≡ true)
    × (find_channel camera_id camera_id r.1
        ≡ some (device_after camera_id (camera_with busy), hung_up busy))
    × ((bye camera_id camera_id (device_after camera_id (camera_with busy)) (hung_up busy) r.1).0
        ≡ false)
    × (can_invite (hung_up busy) ≡ false)
bye_twice_example =
    bye_twice camera_id camera_id (camera_with busy) busy last_ack (server_of busy) (found busy)
      refl refl

abbrev keepalive_body : Text → MessageBody
keepalive_body body = record {
  cmd_type = codes "Keepalive";
  device_name = [];
  manufacturer = [];
  model = [];
  device_list = [];
}

stored : load camera_id (server_of idle).devices ≡ some (camera_with idle)
unfolding load text_eq
stored = refl

get_device_infos-recovered_example :
    let t = (get_device_infos (server_of idle)).1 in
    (Option.map (λ d. d.status) (load camera_id t.devices) ≡ some DeviceStatus.offline)
    × ((u : Server ℕ) × (on_message keepalive_body 100 (request_with none []) t ≡ ok u)
        × ((e : Device) × (load camera_id u.devices ≡ some e)
            × (e.status ≡ DeviceStatus.register)
            × (e.media_ip ≡ codes "10.0.0.1")
            × (e.last_keepalive_at ≡ 100)
            × (e.net_addr ≡ codes "10.0.0.9:5060"))
        × ((v : Server ℕ) × (on_message keepalive_body 200 (request_with none []) u ≡ ok v)
            × (Option.map (λ d. d.status) (load camera_id v.devices) ≡ some DeviceStatus.online)))
get_device_infos-recovered_example =
    get_device_infos-recovered keepalive_body 100 200 (request_with none []) camera_address
      (camera_with idle) (server_of idle) refl refl stored

status_check-IsKept_example :
    ((k : Text) (d' : Device)
      → Memᴰ (k, d') (status_check (100 * second) (server_of idle)).devices
      → (d : Device) × Memᴰ (k, d) (server_of idle).devices × IsKept 60 (100 * second) d d')
    × ((k : Text) (d : Device)
        → Memᴰ (k, d) (server_of idle).devices
        → since (100 * second) d.last_keepalive_at < (60 * 3 + 1) * second
        → (d' : Device) × Memᴰ (k, d') (status_check (100 * second) (server_of idle)).devices
          × IsKept 60 (100 * second) d d')
status_check-IsKept_example = status_check-IsKept (100 * second) (server_of idle)

abbrev codecs : Codecs
codecs = record {
  md5_hex = mark;
  decode_message = keepalive_body;
  decode_notify = λ body. record {
    cmd_type = [];
    device_id = [];
    longitude = [];
    latitude = [];
    device_list = [];
  };
  encode = λ m. some m.ptz_cmd;
}

abbrev events : List Event
events =
    registers 100 (codes "abc") (request_with none [])
    ∷ messages 200 (request_with none [])
    ∷ lists
    ∷ []

run-new-IsSound_example :
    AllOk IsSound (run codecs events (new_gb28181_server settings (λ p. some p) (λ p. some p)))
run-new-IsSound_example = run-new-IsSound codecs settings (λ p. some p) (λ p. some p) events
