-- ===== src/Gb28181/Sip/Http.antt =====
-- gb28181/http_logic.go: the HTTP interface. A request is `none` where its JSON cannot be read. The
-- replies of a handler are a list, oldest first; what a reply carries beside its code is left out.
use lalmax.Base.{
  ℕ, ◌*◌, Bool, true, false, List, [], ◌∷◌, ◌++◌, Option, none, some, length, ltb, leb, ◌==◌, ◌&&◌,
  ◌||◌, if◌then◌else◌, u8,
}
use lalmax.Base.Outcome.{Outcome, ok, then_outcome}
use lalmax.Base.Text.{Text, text_eq, codes}
use lalmax.Gb28181.Sip.Invite.{no_options}
use lalmax.Gb28181.Sip.Call.{find_channel, try_auto_invite, bye}
use lalmax.Gb28181.Sip.Control.{
  MessagePtz, PtzDirection, PtzZoom, PtzFi, PtzPreset, direction_command, zoom_command, fi_command,
  preset_command, stop_command, send_command,
}
use lalmax.Gb28181.Sip.Watch.{
  DeviceItem, get_device_infos, get_all_sync_channels, get_sync_channels,
}
use lalmax.Gb28181.Sip.Store.{PlayInfo, Server}

pub data ResCode : Type 0 where
  success invalid_param device_not_register device_stop_error : ResCode

-- A stream name, a request's or else the channel's id.
unfoldable pub stream_name_of : PlayInfo → Text
stream_name_of p = if length p.stream_name == 0 then p.channel_id else p.stream_name

unfoldable pub with_network : PlayInfo → PlayInfo
unfolding text_eq
with_network p =
    if text_eq p.net_work (codes "udp") || text_eq p.net_work (codes "tcp")
    then p
    else record p { net_work = codes "udp" }

-- A speed from 1 to 8.
unfoldable pub speed_replies : ℕ → List ResCode
speed_replies speed = if ltb 0 speed && leb speed 8 then [] else ResCode.invalid_param ∷ []

unfoldable pub point_replies : ℕ → List ResCode
point_replies point = if ltb 0 point && leb point 50 then [] else ResCode.invalid_param ∷ []

abbrev reply_of : Bool → ResCode
reply_of true = ResCode.success
reply_of false = ResCode.device_stop_error

-- The replies of a handler, and the server behind it.
abbrev pub Handled : Type 0 → Type 0
Handled L = Outcome (List ResCode × Server L)

module _ {L : Type 0} where
  -- `random` and `call_id` are made up for the invitation, `answer` is its answer.
  unfoldable pub start_play :
      Text → Text → Option (ℕ × Text) → Option PlayInfo → Server L → Handled L
  unfolding find_channel stream_name_of with_network try_auto_invite
  start_play random call_id answer request s = elim request [
    | none ↦ ok (ResCode.invalid_param ∷ [], s)
    | some p ↦ elim (find_channel p.device_id p.channel_id s) [
      | none ↦ ok (ResCode.device_not_register ∷ [], s)
      | some _ ↦
          then_outcome
            (try_auto_invite random call_id no_options (stream_name_of p) (with_network p) answer
              p.device_id p.channel_id s)
            (λ s'. ok (ResCode.success ∷ [], s'))
    ]
  ]

  unfoldable pub stop_play : Option PlayInfo → Server L → Handled L
  unfolding find_channel bye
  stop_play request s = elim request [
    | none ↦ ok (ResCode.invalid_param ∷ [], s)
    | some p ↦ elim (find_channel p.device_id p.channel_id s) [
      | none ↦ ok (ResCode.device_not_register ∷ [], s)
      | some (d, c) ↦ let r = bye p.device_id p.channel_id d c s in ok (reply_of r.0 ∷ [], r.1)
    ]
  ]

  unfoldable pub list_devices : Server L → List DeviceItem × Server L
  unfolding get_device_infos
  list_devices s = get_device_infos s

  unfoldable pub update_all_notify : ℕ → Server L → Handled L
  unfolding get_all_sync_channels
  update_all_notify now s = ok (ResCode.success ∷ [], get_all_sync_channels now s)

  unfoldable pub update_notify : ℕ → Option Text → Server L → Handled L
  unfolding get_sync_channels
  update_notify now request s = elim request [
    | none ↦ ok (ResCode.invalid_param ∷ [], s)
    | some id ↦
        let r = get_sync_channels now id s in
        ok ((if r.0 then ResCode.success else ResCode.device_not_register) ∷ [], r.1)
  ]

module _ {L : Type 0} (encode : MessagePtz → Option Text) where
  -- What the control handlers share: the replies so far, and the command for the channel, or `none`
  -- where there is no such command.
  unfoldable pub control :
      List ResCode → Text → Text → Option Text → Option ℕ → Server L → Handled L
  unfolding find_channel send_command
  control replies did cid cmd answer s = elim (find_channel did cid s) [
    | none ↦ ok (replies ++ (ResCode.device_not_register ∷ []), s)
    | some (d, c) ↦ elim cmd [
      | none ↦ ok (replies ++ (ResCode.device_stop_error ∷ []), s)
      | some text ↦
          then_outcome (send_command encode did cid cid text d c answer s)
            (λ r. ok (replies ++ (reply_of r.0 ∷ []), r.1))
    ]
  ]

  unfoldable pub ptz_direction : Option PtzDirection → Option ℕ → Server L → Handled L
  unfolding speed_replies direction_command control
  ptz_direction request answer s = elim request [
    | none ↦ ok (ResCode.invalid_param ∷ [], s)
    | some r ↦
        control (speed_replies r.speed) r.device_id r.channel_id
          (some (direction_command (record r { speed = u8 (r.speed * 25) }))) answer s
  ]

  unfoldable pub ptz_zoom : Option PtzZoom → Option ℕ → Server L → Handled L
  unfolding speed_replies zoom_command control
  ptz_zoom request answer s = elim request [
    | none ↦ ok (ResCode.invalid_param ∷ [], s)
    | some r ↦
        control (speed_replies r.speed) r.device_id r.channel_id
          (some (zoom_command (record r { speed = u8 (r.speed * 25) }))) answer s
  ]

  unfoldable pub ptz_fi : Option PtzFi → Option ℕ → Server L → Handled L
  unfolding speed_replies fi_command control
  ptz_fi request answer s = elim request [
    | none ↦ ok (ResCode.invalid_param ∷ [], s)
    | some r ↦
        control (speed_replies r.speed) r.device_id r.channel_id
          (some (fi_command (record r { speed = u8 (r.speed * 25) }))) answer s
  ]

  unfoldable pub ptz_preset : Option PtzPreset → Option ℕ → Server L → Handled L
  unfolding point_replies preset_command control
  ptz_preset request answer s = elim request [
    | none ↦ ok (ResCode.invalid_param ∷ [], s)
    | some r ↦ control (point_replies r.point) r.device_id r.channel_id (preset_command r) answer s
  ]

  unfoldable pub ptz_stop_all : Option (Text × Text) → Option ℕ → Server L → Handled L
  unfolding stop_command control
  ptz_stop_all request answer s = elim request [
    | none ↦ ok (ResCode.invalid_param ∷ [], s)
    | some (did, cid) ↦ control [] did cid (some stop_command) answer s
  ]
