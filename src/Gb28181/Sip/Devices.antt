-- ===== src/Gb28181/Sip/Devices.antt =====
-- gb28181/device.go: a device's channels, and the requests that are sent to it.
use lalmax.Base.{
  ℕ, ◌+◌, ◌*◌, List, [], ◌∷◌, Option, none, some, ◌==◌, ltb, ◌&&◌, not, if◌then◌else◌, u32,
}
use lalmax.Base.Text.{Text, text_eq, split, codes}
use lalmax.Base.Dict.{load, store, delete, adjust}
use lalmax.Gb28181.Sip.Xml.{build_catalog_xml, build_device_info_xml}
use lalmax.Gb28181.Sip.Store.{
  ChannelInfo, no_media_info, Channel, Device, Method, Request, Effect, send, since, second,
}

-- CreateRequest of a device: the next sequence number, and a request to its address.
unfoldable pub create_request : Method → Text → Device → Request × Device
create_request method body d = (
  record {
    method = method;
    to_user = d.addr.user;
    to_host = d.addr.host;
    seq_no = u32 (d.sn + 1);
    destination = d.net_addr;
    network = d.network;
    subject = [];
    body = body;
  },
  record d { sn = d.sn + 1 },
)

-- `answer` is the status code of the response, or `none` where there is none.
abbrev code_of : Option ℕ → ℕ
code_of none = 408
code_of (some code) = code

unfoldable pub catalog : ℕ → Option ℕ → Device → ℕ × Device × Effect
unfolding create_request build_catalog_xml
catalog now answer d =
    let (r, d') = create_request Method.message (build_catalog_xml (d.sn + 1) d.id) d in
    (code_of answer, record d' { subscriber_timeout = now + 3600 * second }, send d.sip_svr r)

-- `call_id` is the one that CreateRequest made.
unfoldable pub subscribe : ℕ → Text → Option ℕ → Device → ℕ × Device × Effect
unfolding create_request build_catalog_xml
subscribe now call_id answer d =
    let (r, d') = create_request Method.subscribe (build_catalog_xml (d.sn + 1) d.id) d in
    let id : Text = elim answer [
      | none ↦ d.subscriber_call_id
      | some code ↦ if code == 200 then call_id else []
    ] in
    (
      code_of answer,
      record d' { subscriber_timeout = now + 3600 * second; subscriber_call_id = id },
      send d.sip_svr r,
    )

-- QueryDeviceInfo asks up to 95 times, until the answer is 200; `answers` are those it gets.
unfoldable pub query_device_info : List (Option ℕ) → Device → Device × List Effect
unfolding create_request build_device_info_xml
query_device_info [] d = (d, [])
query_device_info (answer ∷ rest) d =
    let (r, d') = create_request Method.message (build_device_info_xml (d.sn + 1) d.id) d in
    let more = query_device_info rest d' in
    if code_of answer == 200
    then (d', send d.sip_svr r ∷ [])
    else (more.0, send d.sip_svr r ∷ more.1)

unfoldable pub sync_channels : ℕ → Device → Device × List Effect
unfolding since catalog
sync_channels now d =
    if ltb (2 * second) (since now d.last_sync_time)
    then (let r = catalog now none (record d { last_sync_time = now }) in (r.1, r.2 ∷ []))
    else (d, [])

-- A channel that is there gets the new description whole; all else of it stays.
unfoldable pub add_or_update_channel : ChannelInfo → Device → Device
unfolding load store
add_or_update_channel info d =
    let channel : Channel = elim (load info.channel_id d.channel_map) [
      | some c ↦ record c { channel_info = info }
      | none ↦ record {
        gps_time = 0;
        number = 0;
        ack_req = none;
        play_info = none;
        channel_info = info;
      }
    ] in
    record d { channel_map = store info.channel_id channel d.channel_map }

abbrev last_or : Text → List Text → Text
last_or x [] = x
last_or x (y ∷ ys) = last_or y ys

unfoldable pub parent_id_of : ChannelInfo → Text
unfolding split
parent_id_of c = last_or [] (split c.parent_id b'/')

-- UpdateChannels of the device at `key`, in the map of all devices.
unfoldable pub update_own : Text → ChannelInfo → List (Text × Device) → List (Text × Device)
unfolding add_or_update_channel adjust
update_own key c = adjust key (λ d. add_or_update_channel (record c { parent_id = d.id }) d)

unfoldable pub update_channel : Text → ChannelInfo → List (Text × Device) → List (Text × Device)
unfolding load text_eq parent_id_of update_own adjust
update_channel key c devices = elim (load key devices) [
  | none ↦ devices
  | some d ↦
      if not (text_eq c.parent_id []) && not (text_eq d.id (parent_id_of c))
      then elim (load (parent_id_of c) devices) [
        | some parent ↦ adjust (parent_id_of c) (add_or_update_channel c) devices
        | none ↦ update_own key c devices
      ]
      else update_own key c devices
]

unfoldable pub update_channels :
    Text → List ChannelInfo → List (Text × Device) → List (Text × Device)
unfolding update_channel
update_channels key [] devices = devices
update_channels key (c ∷ rest) devices = update_channels key rest (update_channel key c devices)

abbrev pub on_status : Text
on_status = codes "ON"

abbrev pub off_status : Text
off_status = codes "OFF"

unfoldable pub set_status : Text → Channel → Channel
set_status status c = record c { channel_info = record c.channel_info { status = status } }

unfoldable pub channel_online : Text → Device → Device
unfolding set_status adjust
channel_online id d = record d { channel_map = adjust id (set_status on_status) d.channel_map }

unfoldable pub channel_offline : Text → Device → Device
unfolding set_status adjust
channel_offline id d = record d { channel_map = adjust id (set_status off_status) d.channel_map }

unfoldable pub delete_channel : Text → Device → Device
unfolding delete
delete_channel id d = record d { channel_map = delete id d.channel_map }

pub record NotifyMessage : Type 0 where
  pub channel_info : ChannelInfo
  pub event : Text

-- The description that ADD and UPDATE make: the notification's, without what belongs to the server.
unfoldable pub notified : NotifyMessage → ChannelInfo
notified v = record v.channel_info {
  stream_name = [];
  serial = [];
  media_info = no_media_info;
  sn = 0;
}

pub data ChannelEvent : Type 0 where
  turned_on turned_off video_lost defect added deleted updated other : ChannelEvent

unfoldable pub event_of : Text → ChannelEvent
unfolding text_eq
event_of e =
    if text_eq e on_status
    then turned_on
    else if text_eq e off_status
    then turned_off
    else if text_eq e (codes "VLOST")
    then video_lost
    else if text_eq e (codes "DEFECT")
    then defect
    else if text_eq e (codes "ADD")
    then added
    else if text_eq e (codes "DEL")
    then deleted
    else if text_eq e (codes "UPDATE")
    then updated
    else other

-- What one event does to the device at `key`, or to the parent that an update names.
unfoldable pub apply_event :
    Text → NotifyMessage → ChannelEvent → List (Text × Device) → List (Text × Device)
unfolding adjust channel_online channel_offline add_or_update_channel delete_channel update_channel
    notified
apply_event key v turned_on = adjust key (channel_online v.channel_info.channel_id)
apply_event key v turned_off = adjust key (channel_offline v.channel_info.channel_id)
apply_event key v video_lost = adjust key (channel_offline v.channel_info.channel_id)
apply_event key v defect = adjust key (channel_offline v.channel_info.channel_id)
apply_event key v added = adjust key (add_or_update_channel (notified v))
apply_event key v deleted = adjust key (delete_channel v.channel_info.channel_id)
apply_event key v updated = update_channel key (notified v)
apply_event key v other = λ devices. devices

unfoldable pub update_channel_status :
    Text → List NotifyMessage → List (Text × Device) → List (Text × Device)
unfolding event_of apply_event
update_channel_status key [] devices = devices
update_channel_status key (v ∷ rest) devices =
    update_channel_status key rest (apply_event key v (event_of v.event) devices)

-- The channel's position, or the device's where there is no such channel.
unfoldable pub update_channel_position : ℕ → Text → Text → Text → Device → Device
unfolding load adjust
update_channel_position now id lng lat d = elim (load id d.channel_map) [
  | some c ↦ record d {
    channel_map =
        adjust id
          (λ (c : Channel). record c {
            gps_time = now;
            channel_info = record c.channel_info { longitude = lng; latitude = lat };
          })
          d.channel_map;
  }
  | none ↦ record d { gps_time = now; longitude = lng; latitude = lat }
]
