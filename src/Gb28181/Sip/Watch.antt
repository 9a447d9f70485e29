-- ===== src/Gb28181/Sip/Watch.antt =====
-- gb28181/server.go: the periodic checks, and what the media servers and the HTTP interface ask. Go
-- visits its maps in no fixed order; here it is the order of the lists.
pub mod Timeouts
use lalmax.Base.{
  ℕ, ◌+◌, ◌*◌, ◌/◌, Bool, true, false, List, [], ◌∷◌, map, Option, none, some, ltb, ◌==◌, ◌||◌,
  if◌then◌else◌,
}
use lalmax.Base.Text.{Text, text_eq}
use lalmax.Base.Dict.{load, adjust, delete}
use lalmax.Gb28181.Sip.Devices.{off_status, set_status}
use lalmax.Gb28181.Sip.Register.{max_register_count, needs_password, sync_device}
use lalmax.Gb28181.Sip.Invite.{clear_media}
use lalmax.Gb28181.Sip.Call.{adjust_channel, bye}
use lalmax.Gb28181.Sip.Store.{MediaInfo, Channel, Device, DeviceStatus, Server, since, second}

-- The first channel for which a test holds, with its device and the keys of both.
unfoldable pub first_channel : (Channel → Bool) → List (Text × Channel) → Option (Text × Channel)
first_channel test [] = none
first_channel test ((k, c) ∷ rest) = if test c then some (k, c) else first_channel test rest

pub record Place : Type 0 where
  pub device_key : Text
  pub device : Device
  pub channel_key : Text
  pub channel : Channel

unfoldable pub first_place : (Channel → Bool) → List (Text × Device) → Option Place
unfolding first_channel
first_place test [] = none
first_place test ((k, d) ∷ rest) =
    let later = first_place test rest in
    elim (first_channel test d.channel_map) [
      | some (j, c) ↦ some (record { device_key = k; device = d; channel_key = j; channel = c })
      | none ↦ later
    ]

-- No keepalive for more than three intervals.
unfoldable pub is_dead : ℕ → ℕ → Device → Bool
unfolding since
is_dead interval now d = ltb (interval * 3) (since now d.last_keepalive_at / second)

-- No message for more than three heartbeats of 60 seconds.
unfoldable pub is_silent : ℕ → Device → Bool
unfolding since
is_silent now d = ltb (180 * second) (since now d.update_time)

unfoldable pub all_off : List (Text × Channel) → List (Text × Channel)
unfolding set_status
all_off = map (λ (e : Text × Channel). (e.0, set_status off_status e.1))

unfoldable pub check_device : ℕ → Device → Device
unfolding is_silent all_off
check_device now d =
    if is_silent now d
    then record d { status = DeviceStatus.offline; channel_map = all_off d.channel_map }
    else d

unfoldable pub check_devices : ℕ → ℕ → List (Text × Device) → List (Text × Device)
unfolding is_dead check_device
check_devices interval now [] = []
check_devices interval now ((k, d) ∷ rest) =
    let kept = check_devices interval now rest in
    if is_dead interval now d then kept else (k, check_device now d) ∷ kept

unfoldable pub unban : List (Text × ℕ) → List (Text × ℕ)
unban [] = []
unban ((k, n) ∷ rest) =
    let kept = unban rest in if ltb max_register_count n then kept else (k, n) ∷ kept

pub record ChannelItem : Type 0 where
  pub channel_id : Text
  pub name : Text
  pub manufacturer : Text
  pub owner : Text
  pub civil_code : Text
  pub address : Text
  pub status : Text
  pub longitude : Text
  pub latitude : Text
  pub stream_name : Text

unfoldable pub channel_item : Channel → ChannelItem
channel_item c =
    let i = c.channel_info in
    record {
      channel_id = i.channel_id;
      name = i.name;
      manufacturer = i.manufacturer;
      owner = i.owner;
      civil_code = i.civil_code;
      address = i.address;
      status = i.status;
      longitude = i.longitude;
      latitude = i.latitude;
      stream_name = i.stream_name;
    }

pub record DeviceItem : Type 0 where
  pub device_id : Text
  pub channels : List ChannelItem

unfoldable pub device_item : Device → DeviceItem
unfolding channel_item
device_item d = record {
  device_id = d.id;
  channels = map (λ (e : Text × Channel). channel_item e.1) d.channel_map;
}

unfoldable pub set_offline : Device → Device
set_offline d = record d { status = DeviceStatus.offline }

module _ {L : Type 0} where
  unfoldable pub check_ssrc : ℕ → Server L → Option MediaInfo
  unfolding first_place
  check_ssrc ssrc s = elim (first_place (λ c. c.channel_info.media_info.ssrc == ssrc) s.devices) [
    | none ↦ none
    | some p ↦ some p.channel.channel_info.media_info
  ]

  unfoldable pub get_media_info_by_key : Text → Server L → Option MediaInfo
  unfolding first_place text_eq
  get_media_info_by_key key s =
      elim (first_place (λ c. text_eq c.channel_info.media_info.media_key key) s.devices) [
        | none ↦ none
        | some p ↦ some p.channel.channel_info.media_info
      ]

  unfoldable pub notify_close : Text → Server L → Server L
  unfolding first_place text_eq bye adjust_channel clear_media
  notify_close stream_name s =
      elim (first_place (λ c. text_eq c.channel_info.media_info.stream_name stream_name)
        s.devices) [
          | none ↦ s
          | some p ↦ adjust_channel p.device_key p.channel_key clear_media (
              if p.channel.channel_info.media_info.is_invite
              then (bye p.device_key p.channel_key p.device p.channel s).1
              else s)
        ]

  unfoldable pub remove_ban_device : Server L → Server L
  unfolding unban
  remove_ban_device s = record s { device_register_count = unban s.device_register_count }

  -- The ban tick of startJob.
  unfoldable pub ban_tick : Server L → Server L
  unfolding needs_password remove_ban_device
  ban_tick s = if needs_password s then remove_ban_device s else s

  unfoldable pub status_check : ℕ → Server L → Server L
  unfolding check_devices
  status_check now s = record s { devices = check_devices s.conf.keepalive_interval now s.devices }

  unfoldable pub get_device_infos : Server L → List DeviceItem × Server L
  unfolding device_item set_offline
  get_device_infos s = (
    map (λ (e : Text × Device). device_item e.1) s.devices,
    record s { devices = map (λ (e : Text × Device). (e.0, set_offline e.1)) s.devices },
  )

  unfoldable pub sync_all : ℕ → List (Text × Device) → Server L → Server L
  unfolding sync_device
  sync_all now [] s = s
  sync_all now ((k, d) ∷ rest) s = sync_all now rest (sync_device now k s)

  unfoldable pub get_all_sync_channels : ℕ → Server L → Server L
  unfolding sync_all
  get_all_sync_channels now s = sync_all now s.devices s

  unfoldable pub get_sync_channels : ℕ → Text → Server L → Bool × Server L
  unfolding load sync_device
  get_sync_channels now id s = elim (load id s.devices) [
    | none ↦ (false, s)
    | some _ ↦ (true, sync_device now id s)
  ]
