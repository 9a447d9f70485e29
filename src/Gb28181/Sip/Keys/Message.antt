-- ===== src/Gb28181/Sip/Keys/Message.antt =====
-- gb28181: the other messages of devices, the timers and the listing keep the server sound.
use lalmax.Base.{
  ℕ, ◌≡◌, refl, inl, inr, Bool, true, false, List, [], ◌∷◌, map, Option-cases, Bool-cases,
  if◌then◌else◌, ltb,
}
use lalmax.Base.Outcome.{Outcome, ok, panic, below_zero, stuck, then_outcome}
use lalmax.Base.Text.{Text, codes, text_eq}
use lalmax.Base.Dict.{load, adjust}
use lalmax.Gb28181.Sip.Keys.{
  HasKey, IsKeyed, KeepsKey, update_channel_position-KeepsKey, check_devices-IsKeyed,
  adjust-IsKeyed, update_channels-IsKeyed, update_channel_status-IsKeyed,
}
use lalmax.Gb28181.Sip.Keys.Register.{
  IsCounted, IsSound, recover_device-KeepsKey, store_device-IsSound, sync_device-IsSound,
}
use lalmax.Gb28181.Sip.Register.{
  SipMessage, max_register_count, needs_password, store_device, sync_device,
}
use lalmax.Gb28181.Sip.Message.{
  MessageBody, NotifyBody, Command, keepalive, catalog, device_info, alarm, unknown, command_of,
  wake, obey, quick_login, on_message, take_notice, on_notify,
}
use lalmax.Gb28181.Sip.Watch.{
  unban, ban_tick, remove_ban_device, status_check, set_offline, get_device_infos, sync_all,
  get_all_sync_channels, get_sync_channels,
}
use lalmax.Gb28181.Sip.Store.{Device, DeviceStatus, Address, Server, respond, emit}

-- What holds of a result, if there is one.
abbrev pub AllOk {κ} : {A : Type 0} → (A → Type κ) → Outcome A → Type κ
AllOk P (ok a) = P a
AllOk P panic = Unit
AllOk P below_zero = Unit
AllOk P stuck = Unit

pub then_outcome-AllOk {κ μ} :
    {A B : Type 0} (P : A → Type κ) (Q : B → Type μ) (r : Outcome A) (f : A → Outcome B)
    → AllOk P r
    → ((a : A) → P a → AllOk Q (f a))
    → AllOk Q (then_outcome r f)
then_outcome-AllOk P Q (ok a) f h k = k a h
then_outcome-AllOk P Q panic f h k = tt
then_outcome-AllOk P Q below_zero f h k = tt
then_outcome-AllOk P Q stuck f h k = tt

unban-IsCounted : (m : List (Text × ℕ)) → IsCounted m → IsCounted (unban m)
unfolding unban
unban-IsCounted [] h = tt
unban-IsCounted ((k, n) ∷ m) h = elim (Bool-cases (ltb max_register_count n)) [
  | inl many ↦ rw (unban, many) (unban-IsCounted m h.1)
  | inr few ↦ rw (unban, few) (h.0, unban-IsCounted m h.1)
]

offline-IsKeyed :
    (m : List (Text × Device))
    → IsKeyed m
    → IsKeyed (map (λ (e : Text × Device). (e.0, set_offline e.1)) m)
unfolding set_offline
offline-IsKeyed [] h = tt
offline-IsKeyed ((k, d) ∷ m) h = (h.0, offline-IsKeyed m h.1)

pub then_outcome-all {κ} :
    {A B : Type 0} (Q : B → Type κ) (r : Outcome A) (f : A → Outcome B)
    → ((a : A) → AllOk Q (f a))
    → AllOk Q (then_outcome r f)
then_outcome-all Q (ok a) f k = k a
then_outcome-all Q panic f k = tt
then_outcome-all Q below_zero f k = tt
then_outcome-all Q stuck f k = tt

module _ {L : Type 0} where
  wake-status :
      (now : ℕ) (from : Address) (req : SipMessage) (s : Server L) (status : DeviceStatus)
      (k : Text) (d : Device)
      → d.status ≡ status
      → HasKey k d
      → HasKey k (wake now from req s d)
  unfolding wake
  wake-status now from req s DeviceStatus.register k d e h = rw (wake, e) h
  wake-status now from req s DeviceStatus.recover k d e h =
      rw (wake, e) (recover_device-KeepsKey now from req s k d h)
  wake-status now from req s DeviceStatus.online k d e h = rw (wake, e) h
  wake-status now from req s DeviceStatus.offline k d e h =
      rw (wake, e) (recover_device-KeepsKey now from req s k d h)
  wake-status now from req s DeviceStatus.alarmed k d e h = rw (wake, e) h

  change-IsSound :
      (id : Text) (f : Device → Device) (s : Server L)
      → KeepsKey f
      → IsSound s
      → IsSound (record s { devices = adjust id f s.devices })
  change-IsSound id f s keep (keyed, counted) = (adjust-IsKeyed id f s.devices keep keyed, counted)

  obey-IsSound :
      (now : ℕ) (id : Text) (d : Device) (b : MessageBody) (c : Command) (s : Server L)
      → IsSound s
      → IsSound (obey now id d b c s)
  unfolding obey emit
  obey-IsSound now id d b keepalive s = change-IsSound id _ s (λ k d h. h)
  obey-IsSound now id d b catalog s =
      λ h. (update_channels-IsKeyed id b.device_list s.devices h.0, h.1)
  obey-IsSound now id d b device_info s = change-IsSound id _ s (λ k d h. h)
  obey-IsSound now id d b alarm s = change-IsSound id _ s (λ k d h. h)
  obey-IsSound now id d b unknown s = λ h. h

  pub choose-IsSound :
      (b : Bool) (s t : Server L) → IsSound s → IsSound t → IsSound (if b then s else t)
  choose-IsSound true s t h k = h
  choose-IsSound false s t h k = k

  quick_login-IsSound :
      (now : ℕ) (id : Text) (from : Address) (req : SipMessage) (c : Command) (s : Server L)
      → IsSound s
      → IsSound (quick_login now id from req c s)
  unfolding quick_login emit
  quick_login-IsSound now id from req keepalive s h =
      choose-IsSound s.conf.quick_login _ _
        (sync_device-IsSound now id
          (emit (respond 200 []) (record (store_device now id from req s) {
            devices =
                adjust id (λ d. record d { last_keepalive_at = now })
                  (store_device now id from req s).devices;
          }))
          (change-IsSound id (λ d. record d { last_keepalive_at = now })
            (store_device now id from req s) (λ k d h. h)
            (store_device-IsSound now id from req s h)))
        h
  quick_login-IsSound now id from req catalog s h = h
  quick_login-IsSound now id from req device_info s h = h
  quick_login-IsSound now id from req alarm s h = h
  quick_login-IsSound now id from req unknown s h = h

  pub on_message-IsSound :
      (decode : Text → MessageBody) (now : ℕ) (req : SipMessage) (s : Server L)
      → IsSound s
      → AllOk IsSound (on_message decode now req s)
  unfolding on_message
  on_message-IsSound decode now req s h = elim (Option-cases req.from) [
    | inl nobody ↦ rw (on_message, nobody) tt
    | inr (from, sender) ↦ elim (Option-cases (load from.user s.devices)) [
      | inl stranger ↦
          rw (on_message, sender, stranger)
            (quick_login-IsSound now from.user from req (command_of (decode req.body).cmd_type) s h)
      | inr (d, known) ↦
          rw (on_message, sender, known)
            (obey-IsSound now from.user d (decode req.body) (command_of (decode req.body).cmd_type)
              _
              (change-IsSound from.user (wake now from req s) s
                (λ k d. wake-status now from req s d.status k d refl) h))
    ]
  ]

  take_notice-IsSound :
      (now : ℕ) (id : Text) (b : NotifyBody) (s : Server L)
      → IsSound s
      → IsSound (take_notice now id b s)
  unfolding take_notice emit
  take_notice-IsSound now id b s h = elim (Bool-cases (text_eq b.cmd_type (codes "Catalog"))) [
    | inl cat ↦
        rw (take_notice, cat) (update_channel_status-IsKeyed id b.device_list s.devices h.0, h.1)
    | inr not_cat ↦ elim (Bool-cases (text_eq b.cmd_type (codes "MobilePosition"))) [
      | inl moved ↦
          rw (take_notice, not_cat, moved)
            (change-IsSound id _ s
              (update_channel_position-KeepsKey now b.device_id b.longitude b.latitude) h)
      | inr neither ↦ rw (take_notice, not_cat, neither) h
    ]
  ]

  pub on_notify-IsSound :
      (decode : Text → NotifyBody) (now : ℕ) (req : SipMessage) (s : Server L)
      → IsSound s
      → AllOk IsSound (on_notify decode now req s)
  unfolding on_notify emit
  on_notify-IsSound decode now req s h = elim (Option-cases req.from) [
    | inl nobody ↦ rw (on_notify, nobody) tt
    | inr (from, sender) ↦ elim (Option-cases (load from.user s.devices)) [
      | inl stranger ↦ rw (on_notify, sender, stranger) h
      | inr (d, known) ↦
          rw (on_notify, sender, known)
            (take_notice-IsSound now from.user (decode req.body) _
              (change-IsSound from.user (λ d. record d { update_time = now }) s (λ k d h. h) h))
    ]
  ]

  pub status_check-IsSound : (now : ℕ) (s : Server L) → IsSound s → IsSound (status_check now s)
  unfolding status_check
  status_check-IsSound now s h =
      (check_devices-IsKeyed s.conf.keepalive_interval now s.devices h.0, h.1)

  pub ban_tick-IsSound : (s : Server L) → IsSound s → IsSound (ban_tick s)
  unfolding ban_tick remove_ban_device
  ban_tick-IsSound s (keyed, counted) =
      choose-IsSound (needs_password s) (remove_ban_device s) s
        (keyed, unban-IsCounted s.device_register_count counted) (keyed, counted)

  pub get_device_infos-IsSound : (s : Server L) → IsSound s → IsSound (get_device_infos s).1
  unfolding get_device_infos
  get_device_infos-IsSound s (keyed, counted) = (offline-IsKeyed s.devices keyed, counted)

  sync_all-IsSound :
      (now : ℕ) (m : List (Text × Device)) (s : Server L) → IsSound s → IsSound (sync_all now m s)
  unfolding sync_all
  sync_all-IsSound now [] s h = h
  sync_all-IsSound now ((k, d) ∷ m) s h =
      sync_all-IsSound now m (sync_device now k s) (sync_device-IsSound now k s h)

  pub get_all_sync_channels-IsSound :
      (now : ℕ) (s : Server L) → IsSound s → IsSound (get_all_sync_channels now s)
  unfolding get_all_sync_channels
  get_all_sync_channels-IsSound now s h = sync_all-IsSound now s.devices s h

  pub get_sync_channels-IsSound :
      (now : ℕ) (id : Text) (s : Server L) → IsSound s → IsSound (get_sync_channels now id s).1
  unfolding get_sync_channels
  get_sync_channels-IsSound now id s h = elim (Option-cases (load id s.devices)) [
    | inl gone ↦ rw (get_sync_channels, gone) h
    | inr (d, there) ↦ rw (get_sync_channels, there) (sync_device-IsSound now id s h)
  ]
