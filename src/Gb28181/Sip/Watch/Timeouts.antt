-- ===== src/Gb28181/Sip/Watch/Timeouts.antt =====
-- gb28181/server.go: what statusCheck leaves, and how a device comes back after a listing.
use lalmax.Base.{
  ℕ, ◌+◌, ◌*◌, ◌≤◌, ◌<◌, ◌≡◌, refl, sym, ap, ◌∙◌, ◌⊎◌, inl, inr, arith, false, List, [], ◌∷◌, map,
  some, Bool-cases,
}
use lalmax.Base.Outcome.{ok}
use lalmax.Base.Text.{Text, text_eq_refl, codes}
use lalmax.Base.Dict.{load, adjust, load-adjust, AllEntries}
use lalmax.Gb28181.Sip.Devices.{off_status, set_status}
use lalmax.Gb28181.Sip.Register.{SipMessage, recover_device, update_source}
use lalmax.Gb28181.Sip.Message.{MessageBody, keepalive, command_of, wake, obey, on_message}
use lalmax.Gb28181.Sip.Watch.{
  is_dead, is_silent, all_off, check_device, check_devices, status_check, set_offline,
  get_device_infos,
}
use lalmax.Gb28181.Sip.Store.{Channel, Device, DeviceStatus, Address, Server, since, second, emit}
use mathlib.Core.List.{Memᴰ}
use mathlib.Core.List.Memᴰ
use mathlib.Core.Option
use mathlib.Core.Path.{subst}

-- A device after a check that kept it: its last keepalive is no more than three intervals old, in
-- whole seconds. It is as it was where its last message is 180 seconds old at most; else it is
-- offline, with the same channels, all off.
abbrev pub IsKept : ℕ → ℕ → Device → Device → Type 0
IsKept interval now d d' =
    (since now d.last_keepalive_at < (interval * 3 + 1) * second)
    × (((since now d.update_time ≤ 180 * second) × (d' ≡ d))
        ⊎ ((180 * second < since now d.update_time)
            × (d'.id ≡ d.id)
            × (d'.status ≡ DeviceStatus.offline)
            × (map (λ (e : Text × Channel). e.0) d'.channel_map
                ≡ map (λ (e : Text × Channel). e.0) d.channel_map)
            × AllEntries (λ k c. c.channel_info.status ≡ off_status) d'.channel_map))

all_off-keys :
    (m : List (Text × Channel))
    → map (λ (e : Text × Channel). e.0) (all_off m) ≡ map (λ (e : Text × Channel). e.0) m
unfolding all_off
all_off-keys [] = refl
all_off-keys ((k, c) ∷ m) = ap (k ∷◌) (all_off-keys m)

all_off-AllEntries :
    (m : List (Text × Channel)) → AllEntries (λ k c. c.channel_info.status ≡ off_status) (all_off m)
unfolding all_off set_status
all_off-AllEntries [] = tt
all_off-AllEntries ((k, c) ∷ m) = (refl, all_off-AllEntries m)

not_dead :
    (interval now : ℕ) (d : Device)
    → is_dead interval now d ≡ false
    → since now d.last_keepalive_at < (interval * 3 + 1) * second
unfolding is_dead
not_dead interval now d h = ground arith

well_of_recent :
    (interval now : ℕ) (d : Device)
    → since now d.last_keepalive_at < (interval * 3 + 1) * second
    → is_dead interval now d ≡ false
unfolding is_dead
well_of_recent interval now d h = ground arith

check_device-IsKept :
    (interval now : ℕ) (d : Device)
    → is_dead interval now d ≡ false
    → IsKept interval now d (check_device now d)
unfolding check_device is_silent
check_device-IsKept interval now d h = elim (Bool-cases (is_silent now d)) [
  | inl silent ↦ (
    not_dead interval now d h,
    rw silent (
        inr
          (ground arith, refl, refl, all_off-keys d.channel_map, all_off-AllEntries d.channel_map)),
  )
  | inr heard ↦ (not_dead interval now d h, inl (ground arith, rw heard refl))
]

-- Where the kept device comes from.
check_devices-from :
    (interval now : ℕ) (m : List (Text × Device)) (k : Text) (d' : Device)
    → Memᴰ (k, d') (check_devices interval now m)
    → (d : Device) × Memᴰ (k, d) m × IsKept interval now d d'
unfolding check_devices
check_devices-from interval now [] k d' h = absurd (Memᴰ.not-nil h)
check_devices-from interval now ((j, d) ∷ m) k d' h = elim (Bool-cases (is_dead interval now d)) [
  | inl dead ↦
      let (d0, at, kept) = check_devices-from interval now m k d' (rw dead at h) in
      (d0, Memᴰ.tail at, kept)
  | inr well ↦ elim (Memᴰ.cases_cons (rw well at h)) [
    | inl same ↦ (
      d,
      Memᴰ.head (ap (λ (e : Text × Device). (e.0, d)) same),
      subst (IsKept interval now d) (sym (ap (λ (e : Text × Device). e.1) same))
          (check_device-IsKept interval now d well),
    )
    | inr later ↦
        let (d0, at, kept) = check_devices-from interval now m k d' later in
        (d0, Memᴰ.tail at, kept)
  ]
]

check_devices-to :
    (interval now : ℕ) (m : List (Text × Device)) (k : Text) (d : Device)
    → Memᴰ (k, d) m
    → is_dead interval now d ≡ false
    → Memᴰ (k, check_device now d) (check_devices interval now m)
unfolding check_devices
check_devices-to interval now [] k d h well = absurd (Memᴰ.not-nil h)
check_devices-to interval now ((j, d0) ∷ m) k d h well = elim (Memᴰ.cases_cons h) [
  | inl same ↦
      let own : is_dead interval now d0 ≡ false =
        ap (is_dead interval now) (sym (ap (λ (e : Text × Device). e.1) same)) ∙ well in
      rw own (Memᴰ.head (ap (λ (e : Text × Device). (e.0, check_device now e.1)) same))
  | inr later ↦
      let rest = check_devices-to interval now m k d later well in
      elim (Bool-cases (is_dead interval now d0)) [
        | inl dead ↦ rw dead rest
        | inr other ↦ rw other (Memᴰ.tail rest)
      ]
]

load-map :
    (k : Text) (f : Device → Device) (m : List (Text × Device))
    → load k (map (λ (e : Text × Device). (e.0, f e.1)) m) ≡ Option.map f (load k m)
unfolding load
load-map k f [] = refl
load-map k f ((j, d) ∷ m) = ground (arith, load-map k f m)

module _ {L : Type 0} where
  -- A status check keeps the devices whose last keepalive is no more than three intervals old, in
  -- whole seconds, and no others; of these it leaves the ones with a message in the last 180 seconds
  -- as they are, and sets the others and all their channels offline.
  pub status_check-IsKept :
      (now : ℕ) (s : Server L)
      → ((k : Text) (d' : Device)
          → Memᴰ (k, d') (status_check now s).devices
          → (d : Device) × Memᴰ (k, d) s.devices × IsKept s.conf.keepalive_interval now d d')
        × ((k : Text) (d : Device)
            → Memᴰ (k, d) s.devices
            → since now d.last_keepalive_at < (s.conf.keepalive_interval * 3 + 1) * second
            → (d' : Device) × Memᴰ (k, d') (status_check now s).devices
              × IsKept s.conf.keepalive_interval now d d')
  unfolding status_check
  status_check-IsKept now s =
      let interval = s.conf.keepalive_interval in
      (
        λ k d' h. check_devices-from interval now s.devices k d' h,
        λ k d h fresh.
            let well = well_of_recent interval now d fresh in
            (
              check_device now d,
              check_devices-to interval now s.devices k d h well,
              check_device-IsKept interval now d well,
            ),
      )

  keepalive_step :
      (decode : Text → MessageBody) (now : ℕ) (req : SipMessage) (from : Address) (d : Device)
      (s : Server L)
      → req.from ≡ some from
      → (decode req.body).cmd_type ≡ codes "Keepalive"
      → load from.user s.devices ≡ some d
      → (u : Server L) × (on_message decode now req s ≡ ok u)
        × (load from.user u.devices
            ≡ some (record (wake now from req s d) { last_keepalive_at = now }))
  unfolding on_message obey command_of emit
  keepalive_step decode now req from d s sent alive there =
      let woken : Server L = record s {
        devices = adjust from.user (wake now from req s) s.devices;
      } in
      (
        obey now from.user d (decode req.body) keepalive woken,
        rw (on_message, sent, there, alive) refl,
        rw
            (
              load-adjust from.user from.user (λ d. record d { last_keepalive_at = now })
                  (adjust from.user (wake now from req s) s.devices),
              load-adjust from.user from.user (wake now from req s) s.devices,
              text_eq_refl from.user,
              there,
            )
            refl,
      )

  -- A listing of the devices sets each of them offline. A keepalive that comes next from a device
  -- recovers it: as registered, with the signalling address as its media address, at the time and
  -- from the source of the keepalive. The keepalive after it sets it online.
  pub get_device_infos-recovered :
      (decode : Text → MessageBody) (now later : ℕ) (req : SipMessage) (from : Address) (d : Device)
      (s : Server L)
      → req.from ≡ some from
      → (decode req.body).cmd_type ≡ codes "Keepalive"
      → load from.user s.devices ≡ some d
      → let t = (get_device_infos s).1 in
        (Option.map (λ d. d.status) (load from.user t.devices) ≡ some DeviceStatus.offline)
        × ((u : Server L) × (on_message decode now req t ≡ ok u)
            × ((e : Device) × (load from.user u.devices ≡ some e)
                × (e.status ≡ DeviceStatus.register)
                × (e.media_ip ≡ s.conf.sip_ip)
                × (e.last_keepalive_at ≡ now)
                × (e.net_addr ≡ req.source))
            × ((v : Server L) × (on_message decode later req u ≡ ok v)
                × (Option.map (λ d. d.status) (load from.user v.devices)
                    ≡ some DeviceStatus.online)))
  unfolding get_device_infos wake recover_device set_offline update_source
  get_device_infos-recovered decode now later req from d s sent alive there =
      let t = (get_device_infos s).1 in
      let off : load from.user t.devices ≡ some (set_offline d) =
        rw (load-map from.user set_offline s.devices, there) refl in
      let (u, first, held) = keepalive_step decode now req from (set_offline d) t sent alive off in
      let d1 = record (wake now from req t (set_offline d)) { last_keepalive_at = now } in
      let (v, second_, held') = keepalive_step decode later req from d1 u sent alive held in
      (
        ap (Option.map (λ d. d.status)) off,
        (
          u,
          first,
          (d1, held, refl, refl, refl, refl),
          (v, second_, ap (Option.map (λ d. d.status)) held'),
        ),
      )
