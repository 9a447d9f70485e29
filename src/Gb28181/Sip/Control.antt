-- ===== src/Gb28181/Sip/Control.antt =====
-- gb28181/channel.go: the control commands of a channel. Encoding a message as XML is a parameter;
-- `none` is its error.
use lalmax.Base.{ℕ, ◌+◌, Bool, false, [], Option, none, some, ◌==◌, if◌then◌else◌, u32}
use lalmax.Base.Outcome.{Outcome, ok, then_outcome}
use lalmax.Base.Text.{Text, codes}
use lalmax.Gb28181.Ptz.{ptz_pack, fi_pack, preset_pack}
use lalmax.Gb28181.Sip.Invite.{channel_request}
use lalmax.Gb28181.Sip.Call.{adjust_device, adjust_channel}
use lalmax.Gb28181.Sip.Store.{Channel, Device, Method, Server, send, emit}

pub record MessagePtz : Type 0 where
  pub cmd_type : Text
  pub device_id : Text
  pub sn : ℕ
  pub ptz_cmd : Text

pub record PtzDirection : Type 0 where
  pub device_id : Text
  pub channel_id : Text
  pub up : Bool
  pub down : Bool
  pub left : Bool
  pub right : Bool
  pub speed : ℕ

pub record PtzZoom : Type 0 where
  pub device_id : Text
  pub channel_id : Text
  pub zoom_out : Bool
  pub zoom_in : Bool
  pub speed : ℕ

pub record PtzFi : Type 0 where
  pub device_id : Text
  pub channel_id : Text
  pub iris_in : Bool
  pub iris_out : Bool
  pub focus_near : Bool
  pub focus_far : Bool
  pub speed : ℕ

pub record PtzPreset : Type 0 where
  pub device_id : Text
  pub channel_id : Text
  pub cmd : ℕ
  pub point : ℕ

unfoldable pub direction_command : PtzDirection → Text
unfolding ptz_pack
direction_command r = ptz_pack (record {
  zoom_out = false;
  zoom_in = false;
  up = r.up;
  down = r.down;
  left = r.left;
  right = r.right;
  speed = r.speed;
})

unfoldable pub zoom_command : PtzZoom → Text
unfolding ptz_pack
zoom_command r = ptz_pack (record {
  zoom_out = r.zoom_out;
  zoom_in = r.zoom_in;
  up = false;
  down = false;
  left = false;
  right = false;
  speed = r.speed;
})

unfoldable pub fi_command : PtzFi → Text
unfolding fi_pack
fi_command r = fi_pack (record {
  iris_in = r.iris_in;
  iris_out = r.iris_out;
  focus_near = r.focus_near;
  focus_far = r.focus_far;
  speed = r.speed;
})

-- PresetEditPoint, PresetDelPoint and PresetCallPoint are 0, 1 and 2; no other command is known.
unfoldable pub preset_code : ℕ → Option ℕ
preset_code n =
    if n == 0 then some 0x81 else if n == 1 then some 0x83 else if n == 2 then some 0x82 else none

unfoldable pub preset_command : PtzPreset → Option Text
unfolding preset_code preset_pack
preset_command r = elim (preset_code r.cmd) [
  | none ↦ none
  | some code ↦ some (preset_pack (record { cmd = code; point = r.point }))
]

unfoldable pub stop_command : Text
unfolding ptz_pack
stop_command = ptz_pack (record {
  zoom_out = false;
  zoom_in = false;
  up = false;
  down = false;
  left = false;
  right = false;
  speed = 0;
})

module _ {L : Type 0} (encode : MessagePtz → Option Text) where
  -- sipMessage; `answer` is the code of the response. The result is false where there is an error.
  unfoldable pub sip_message :
      Text → Text → Device → Channel → Option ℕ → Server L → Outcome (Bool × Server L)
  unfolding channel_request adjust_device emit
  sip_message did xml d c answer s =
      then_outcome (channel_request s.conf Method.message [] xml d c) (λ r. ok (
        elim answer [ none ↦ false | some code ↦ code == 200 ],
        emit (send d.sip_svr r.0) (adjust_device did (λ d'. record d' { sn = r.1.sn }) s),
      ))

  -- The channel's next serial number, and the command in a message.
  unfoldable pub send_command :
      Text → Text → Text → Text → Device → Channel → Option ℕ → Server L → Outcome (Bool × Server L)
  unfolding adjust_channel sip_message
  send_command did cid device_id cmd d c answer s =
      let sn = u32 (c.channel_info.sn + 1) in
      let s' =
        adjust_channel did cid
          (λ c'. record c' { channel_info = record c'.channel_info { sn = sn } }) s in
      elim (encode (record {
        cmd_type = codes "DeviceControl";
        device_id = device_id;
        sn = sn;
        ptz_cmd = cmd;
      })) [ none ↦ ok (false, s') | some xml ↦ sip_message did xml d c answer s' ]
