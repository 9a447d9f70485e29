-- ===== src/Gb28181/Sip/Message.antt =====
-- gb28181/server.go: what devices send after they have registered. Decoding the XML of a body is a
-- parameter, which gives empty fields where the source logs an error. A request without a From header
-- panics.
use lalmax.Base.{ℕ, List, [], ◌∷◌, Option, none, some, if◌then◌else◌}
use lalmax.Base.Outcome.{Outcome, ok, panic}
use lalmax.Base.Text.{Text, text_eq, codes}
use lalmax.Base.Dict.{load, adjust}
use lalmax.Gb28181.Sip.Xml.{build_alarm_response_xml}
use lalmax.Gb28181.Sip.Devices.{
  NotifyMessage, update_channels, update_channel_status, update_channel_position,
}
use lalmax.Gb28181.Sip.Register.{SipMessage, store_device, recover_device, sync_device}
use lalmax.Gb28181.Sip.Invite.{get_call_id}
use lalmax.Gb28181.Sip.Call.{bye_clear}
use lalmax.Gb28181.Sip.Store.{
  ChannelInfo, Channel, Device, DeviceStatus, Address, Server, respond, emit,
}

pub record MessageBody : Type 0 where
  pub cmd_type : Text
  pub device_name : Text
  pub manufacturer : Text
  pub model : Text
  pub device_list : List ChannelInfo

pub record NotifyBody : Type 0 where
  pub cmd_type : Text
  pub device_id : Text
  pub longitude : Text
  pub latitude : Text
  pub device_list : List NotifyMessage

pub data Command : Type 0 where
  keepalive catalog device_info alarm unknown : Command

unfoldable pub command_of : Text → Command
unfolding text_eq
command_of t =
    if text_eq t (codes "Keepalive")
    then keepalive
    else if text_eq t (codes "Catalog")
    then catalog
    else if text_eq t (codes "DeviceInfo")
    then device_info
    else if text_eq t (codes "Alarm")
    then alarm
    else unknown

-- The first channel with the Call-ID; a channel without a call has the empty one.
unfoldable pub find_call : Text → List (Text × Channel) → Option (Text × Channel)
unfolding text_eq get_call_id
find_call id [] = none
find_call id ((k, c) ∷ rest) = if text_eq (get_call_id c) id then some (k, c) else find_call id rest

module _ {L : Type 0} where
  -- What the status of a device that sends a message becomes.
  unfoldable pub wake : ℕ → Address → SipMessage → Server L → Device → Device
  unfolding recover_device
  wake now from req s d =
      let d' : Device = elim d.status [
        | DeviceStatus.offline ↦ recover_device now from req s d
        | DeviceStatus.recover ↦ recover_device now from req s d
        | DeviceStatus.register ↦ record d { status = DeviceStatus.online }
        | _ ↦ d
      ] in
      record d' { update_time = now }

  abbrev change : Text → (Device → Device) → Server L → Server L
  change id f s = record s { devices = adjust id f s.devices }

  -- `d` is the device, whose id is in the answer to an alarm.
  unfoldable pub obey : ℕ → Text → Device → MessageBody → Command → Server L → Server L
  unfolding adjust update_channels build_alarm_response_xml emit
  obey now id d b keepalive s =
      emit (respond 200 []) (change id (λ d. record d { last_keepalive_at = now }) s)
  obey now id d b catalog s =
      emit (respond 200 []) (record s { devices = update_channels id b.device_list s.devices })
  obey now id d b device_info s = emit (respond 200 []) (
      change id
        (λ d. record d { name = b.device_name; manufacturer = b.manufacturer; model = b.model }) s)
  obey now id d b alarm s =
      emit (respond 200 (build_alarm_response_xml d.id))
        (change id (λ d. record d { status = DeviceStatus.alarmed }) s)
  obey now id d b unknown s = emit (respond 400 []) s

  abbrev not_found : Server L → Server L
  not_found s = emit (respond 400 []) s

  -- With quick login a keepalive of an unknown device registers it.
  unfoldable pub quick_login : ℕ → Text → Address → SipMessage → Command → Server L → Server L
  unfolding adjust emit store_device sync_device
  quick_login now id from req keepalive s =
      if s.conf.quick_login
      then sync_device now id (
          emit (respond 200 []) (
            change id (λ d. record d { last_keepalive_at = now }) (store_device now id from req s)))
      else not_found s
  quick_login now id from req _ s = not_found s

  unfoldable pub on_message : (Text → MessageBody) → ℕ → SipMessage → Server L → Outcome (Server L)
  unfolding load adjust command_of wake obey quick_login
  on_message decode now req s = elim req.from [
    | none ↦ panic
    | some from ↦
        let b = decode req.body in
        ok (elim (load from.user s.devices) [
          | none ↦ quick_login now from.user from req (command_of b.cmd_type) s
          | some d ↦
              obey now from.user d b (command_of b.cmd_type)
                (change from.user (wake now from req s) s)
        ])
  ]

  unfoldable pub take_notice : ℕ → Text → NotifyBody → Server L → Server L
  unfolding text_eq adjust update_channel_status update_channel_position emit
  take_notice now id b s =
      if text_eq b.cmd_type (codes "Catalog")
      then emit (respond 200 [])
          (record s { devices = update_channel_status id b.device_list s.devices })
      else if text_eq b.cmd_type (codes "MobilePosition")
      then emit (respond 200 [])
          (change id (update_channel_position now b.device_id b.longitude b.latitude) s)
      else emit (respond 400 []) s

  unfoldable pub on_notify : (Text → NotifyBody) → ℕ → SipMessage → Server L → Outcome (Server L)
  unfolding load adjust take_notice emit
  on_notify decode now req s = elim req.from [
    | none ↦ panic
    | some from ↦ ok (elim (load from.user s.devices) [
      | none ↦ not_found s
      | some d ↦
          take_notice now from.user (decode req.body)
            (change from.user (λ d. record d { update_time = now }) s)
    ])
  ]

  unfoldable pub clear_call : Text → Text → Server L → Server L
  unfolding load find_call bye_clear
  clear_call id call_id s = elim (load id s.devices) [
    | none ↦ s
    | some d ↦ elim (find_call call_id d.channel_map) [
      | none ↦ s
      | some (k, c) ↦ bye_clear id k d c s
    ]
  ]

  unfoldable pub on_bye : SipMessage → Server L → Outcome (Server L)
  unfolding clear_call emit
  on_bye req s = elim req.from [
    | none ↦ panic
    | some from ↦
        let call_id : Text = elim req.call_id [ none ↦ [] | some id ↦ id ] in
        ok (emit (respond 200 []) (clear_call from.user call_id s))
  ]
