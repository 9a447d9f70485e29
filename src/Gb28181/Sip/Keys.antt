-- ===== src/Gb28181/Sip/Keys.antt =====
-- gb28181: the maps of devices and channels are keyed by the ids of what they hold. The lemmas about
-- the operations on one device, and on the map of devices.
pub mod Register
pub mod Message
pub mod Calls
pub mod Handlers
pub mod Run
use lalmax.Base.{
  ℕ, ◌*◌, ◌≡◌, refl, inl, inr, Bool, true, false, List, [], ◌∷◌, map, Option, none, some,
  Option-cases, Bool-cases, if◌then◌else◌, ltb, not, ◌&&◌,
}
use lalmax.Base.Text.{Text, text_eq, codes}
use lalmax.Base.Dict.{
  load, store, delete, adjust, AllEntries, store-AllEntries, delete-AllEntries, adjust-AllEntries,
}
use lalmax.Gb28181.Sip.Devices.{
  NotifyMessage, notified, ChannelEvent, turned_on, turned_off, video_lost, defect, added, deleted,
  updated, other, event_of, apply_event, sync_channels, catalog, create_request,
  add_or_update_channel, update_own, update_channel, update_channels, parent_id_of, set_status,
  channel_online, channel_offline, delete_channel, update_channel_status, update_channel_position,
  on_status, off_status,
}
use lalmax.Gb28181.Sip.Watch.{is_dead, is_silent, all_off, check_device, check_devices, set_offline}
use lalmax.Gb28181.Sip.Store.{ChannelInfo, Channel, Device, DeviceStatus, since, second}

abbrev pub HasChannelKey : Text → Channel → Type 0
HasChannelKey j c = c.channel_info.channel_id ≡ j

abbrev pub HasKey : Text → Device → Type 0
HasKey k d = (d.id ≡ k) × AllEntries HasChannelKey d.channel_map

abbrev pub IsKeyed : List (Text × Device) → Type 0
IsKeyed = AllEntries HasKey

abbrev pub KeepsChannelKey : (Channel → Channel) → Type 0
KeepsChannelKey f = (j : Text) (c : Channel) → HasChannelKey j c → HasChannelKey j (f c)

abbrev pub KeepsKey : (Device → Device) → Type 0
KeepsKey f = (k : Text) (d : Device) → HasKey k d → HasKey k (f d)

pub sync_channels-KeepsKey : (now : ℕ) → KeepsKey (λ d. (sync_channels now d).0)
unfolding sync_channels catalog create_request
sync_channels-KeepsKey now k d h =
    elim (Bool-cases (ltb (2 * second) (since now d.last_sync_time))) [
      | inl due ↦ rw (sync_channels, due) h
      | inr early ↦ rw (sync_channels, early) h
    ]

add_or_update_channel-KeepsKey : (info : ChannelInfo) → KeepsKey (add_or_update_channel info)
unfolding add_or_update_channel
add_or_update_channel-KeepsKey info k d (same, all) =
    elim (Option-cases (load info.channel_id d.channel_map)) [
      | inl new ↦
          rw (add_or_update_channel, new)
            (same, store-AllEntries HasChannelKey info.channel_id _ d.channel_map all refl)
      | inr (c, old) ↦
          rw (add_or_update_channel, old)
            (same, store-AllEntries HasChannelKey info.channel_id _ d.channel_map all refl)
    ]

pub adjust_channel_map-KeepsKey :
    (id : Text) (f : Channel → Channel)
    → KeepsChannelKey f
    → KeepsKey (λ d. record d { channel_map = adjust id f d.channel_map })
adjust_channel_map-KeepsKey id f keep k d (same, all) =
    (same, adjust-AllEntries HasChannelKey id f d.channel_map keep all)

set_status-KeepsChannelKey : (t : Text) → KeepsChannelKey (set_status t)
unfolding set_status
set_status-KeepsChannelKey t j c h = h

channel_online-KeepsKey : (id : Text) → KeepsKey (channel_online id)
unfolding channel_online
channel_online-KeepsKey id =
    adjust_channel_map-KeepsKey id (set_status on_status) (set_status-KeepsChannelKey on_status)

channel_offline-KeepsKey : (id : Text) → KeepsKey (channel_offline id)
unfolding channel_offline
channel_offline-KeepsKey id =
    adjust_channel_map-KeepsKey id (set_status off_status) (set_status-KeepsChannelKey off_status)

delete_channel-KeepsKey : (id : Text) → KeepsKey (delete_channel id)
unfolding delete_channel
delete_channel-KeepsKey id k d (same, all) =
    (same, delete-AllEntries HasChannelKey id d.channel_map all)

pub update_channel_position-KeepsKey :
    (now : ℕ) (id lng lat : Text) → KeepsKey (update_channel_position now id lng lat)
unfolding update_channel_position
update_channel_position-KeepsKey now id lng lat k d (same, all) =
    elim (Option-cases (load id d.channel_map)) [
      | inl gone ↦ rw (update_channel_position, gone) (same, all)
      | inr (c, there) ↦
          rw (update_channel_position, there)
            (same, adjust-AllEntries HasChannelKey id _ d.channel_map (λ j c h. h) all)
    ]

all_off-AllEntries :
    (m : List (Text × Channel)) → AllEntries HasChannelKey m → AllEntries HasChannelKey (all_off m)
unfolding all_off set_status
all_off-AllEntries [] h = tt
all_off-AllEntries ((j, c) ∷ m) h = (h.0, all_off-AllEntries m h.1)

check_device-KeepsKey : (now : ℕ) → KeepsKey (check_device now)
unfolding check_device
check_device-KeepsKey now k d (same, all) = elim (Bool-cases (is_silent now d)) [
  | inl silent ↦ rw (check_device, silent) (same, all_off-AllEntries d.channel_map all)
  | inr heard ↦ rw (check_device, heard) (same, all)
]

pub adjust-IsKeyed :
    (k : Text) (f : Device → Device) (m : List (Text × Device))
    → KeepsKey f
    → IsKeyed m
    → IsKeyed (adjust k f m)
adjust-IsKeyed k f m keep h = adjust-AllEntries HasKey k f m keep h

pub check_devices-IsKeyed :
    (interval now : ℕ) (m : List (Text × Device))
    → IsKeyed m
    → IsKeyed (check_devices interval now m)
unfolding check_devices
check_devices-IsKeyed interval now [] h = tt
check_devices-IsKeyed interval now ((k, d) ∷ m) h = elim (Bool-cases (is_dead interval now d)) [
  | inl dead ↦ rw (check_devices, dead) (check_devices-IsKeyed interval now m h.1)
  | inr alive ↦
      rw (check_devices, alive)
        (check_device-KeepsKey now k d h.0, check_devices-IsKeyed interval now m h.1)
]

update_own-IsKeyed :
    (key : Text) (c : ChannelInfo) (m : List (Text × Device))
    → IsKeyed m
    → IsKeyed (update_own key c m)
unfolding update_own
update_own-IsKeyed key c m =
    adjust-IsKeyed key (λ d. add_or_update_channel (record c { parent_id = d.id }) d) m
      (λ k d. add_or_update_channel-KeepsKey (record c { parent_id = d.id }) k d)

update_channel-IsKeyed :
    (key : Text) (c : ChannelInfo) (m : List (Text × Device))
    → IsKeyed m
    → IsKeyed (update_channel key c m)
unfolding update_channel
update_channel-IsKeyed key c m h = elim (Option-cases (load key m)) [
  | inl gone ↦ rw (update_channel, gone) h
  | inr (d, there) ↦
      elim (Bool-cases (not (text_eq c.parent_id []) && not (text_eq d.id (parent_id_of c)))) [
        | inr own ↦ rw (update_channel, there, own) (update_own-IsKeyed key c m h)
        | inl elsewhere ↦ elim (Option-cases (load (parent_id_of c) m)) [
          | inl none_there ↦
              rw (update_channel, there, elsewhere, none_there) (update_own-IsKeyed key c m h)
          | inr (p, parent) ↦
              rw (update_channel, there, elsewhere, parent)
                (adjust-IsKeyed (parent_id_of c) (add_or_update_channel c) m
                  (add_or_update_channel-KeepsKey c) h)
        ]
      ]
]

pub update_channels-IsKeyed :
    (key : Text) (cs : List ChannelInfo) (m : List (Text × Device))
    → IsKeyed m
    → IsKeyed (update_channels key cs m)
unfolding update_channels
update_channels-IsKeyed key [] m h = h
update_channels-IsKeyed key (c ∷ cs) m h =
    update_channels-IsKeyed key cs (update_channel key c m) (update_channel-IsKeyed key c m h)

apply_event-IsKeyed :
    (key : Text) (v : NotifyMessage) (e : ChannelEvent) (m : List (Text × Device))
    → IsKeyed m
    → IsKeyed (apply_event key v e m)
unfolding apply_event
apply_event-IsKeyed key v turned_on m =
    adjust-IsKeyed key (channel_online v.channel_info.channel_id) m
      (channel_online-KeepsKey v.channel_info.channel_id)
apply_event-IsKeyed key v turned_off m =
    adjust-IsKeyed key (channel_offline v.channel_info.channel_id) m
      (channel_offline-KeepsKey v.channel_info.channel_id)
apply_event-IsKeyed key v video_lost m =
    adjust-IsKeyed key (channel_offline v.channel_info.channel_id) m
      (channel_offline-KeepsKey v.channel_info.channel_id)
apply_event-IsKeyed key v defect m =
    adjust-IsKeyed key (channel_offline v.channel_info.channel_id) m
      (channel_offline-KeepsKey v.channel_info.channel_id)
apply_event-IsKeyed key v added m =
    adjust-IsKeyed key (add_or_update_channel (notified v)) m
      (add_or_update_channel-KeepsKey (notified v))
apply_event-IsKeyed key v deleted m =
    adjust-IsKeyed key (delete_channel v.channel_info.channel_id) m
      (delete_channel-KeepsKey v.channel_info.channel_id)
apply_event-IsKeyed key v updated m = update_channel-IsKeyed key (notified v) m
apply_event-IsKeyed key v other m = λ h. h

pub update_channel_status-IsKeyed :
    (key : Text) (vs : List NotifyMessage) (m : List (Text × Device))
    → IsKeyed m
    → IsKeyed (update_channel_status key vs m)
unfolding update_channel_status
update_channel_status-IsKeyed key [] m h = h
update_channel_status-IsKeyed key (v ∷ vs) m h =
    update_channel_status-IsKeyed key vs (apply_event key v (event_of v.event) m)
      (apply_event-IsKeyed key v (event_of v.event) m h)
