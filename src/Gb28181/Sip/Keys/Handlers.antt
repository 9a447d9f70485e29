-- ===== src/Gb28181/Sip/Keys/Handlers.antt =====
-- gb28181: the ends of calls and the HTTP handlers keep the server sound.
use lalmax.Base.{
  ℕ, inl, inr, Bool, List, [], ◌∷◌, Option, none, some, Option-cases, if◌then◌else◌, u32, ◌+◌,
}
use lalmax.Base.Outcome.{ok}
use lalmax.Base.Text.{Text, codes, text_eq}
use lalmax.Base.Dict.{load}
use lalmax.Gb28181.Sip.Keys.Register.{IsSound}
use lalmax.Gb28181.Sip.Keys.Message.{
  AllOk, then_outcome-AllOk, then_outcome-all, get_sync_channels-IsSound, choose-IsSound,
}
use lalmax.Gb28181.Sip.Keys.Calls.{
  sn-IsSound, adjust_channel-IsSound, try_auto_invite-IsSound, bye_clear-IsSound,
  clear_media-IsSound, bye-IsSound,
}
use lalmax.Gb28181.Sip.Register.{SipMessage}
use lalmax.Gb28181.Sip.Message.{find_call, clear_call, on_bye}
use lalmax.Gb28181.Sip.Invite.{no_options, channel_request, clear_media}
use lalmax.Gb28181.Sip.Call.{find_channel, adjust_channel, try_auto_invite, bye}
use lalmax.Gb28181.Sip.Control.{MessagePtz, sip_message, send_command}
use lalmax.Gb28181.Sip.Watch.{Place, first_place, notify_close}
use lalmax.Gb28181.Sip.Http.{
  ResCode, stream_name_of, with_network, start_play, stop_play, update_notify, control,
}
use lalmax.Gb28181.Sip.Store.{PlayInfo, Channel, Device, Method, Server, emit}

module _ {L : Type 0} where
  clear_call-IsSound :
      (id call_id : Text) (s : Server L) → IsSound s → IsSound (clear_call id call_id s)
  unfolding clear_call
  clear_call-IsSound id call_id s h = elim (Option-cases (load id s.devices)) [
    | inl gone ↦ rw (clear_call, gone) h
    | inr (d, there) ↦ elim (Option-cases (find_call call_id d.channel_map)) [
      | inl no_call ↦ rw (clear_call, there, no_call) h
      | inr ((k, c), found) ↦ rw (clear_call, there, found) (bye_clear-IsSound id k d c s h)
    ]
  ]

  pub on_bye-IsSound : (req : SipMessage) (s : Server L) → IsSound s → AllOk IsSound (on_bye req s)
  unfolding on_bye emit
  on_bye-IsSound req s h = elim (Option-cases req.from) [
    | inl nobody ↦ rw (on_bye, nobody) tt
    | inr (from, sender) ↦
        rw (on_bye, sender)
          (clear_call-IsSound from.user (elim req.call_id [ none ↦ [] | some id ↦ id ]) s h)
  ]

  close-IsSound :
      (p : Place) (b : Bool) (s : Server L)
      → IsSound s
      → IsSound (
          adjust_channel p.device_key p.channel_key clear_media
            (if b then (bye p.device_key p.channel_key p.device p.channel s).1 else s))
  close-IsSound p b s h =
      clear_media-IsSound p.device_key p.channel_key
        (if b then (bye p.device_key p.channel_key p.device p.channel s).1 else s)
        (choose-IsSound b (bye p.device_key p.channel_key p.device p.channel s).1 s
          (bye-IsSound p.device_key p.channel_key p.device p.channel s h) h)

  pub notify_close-IsSound :
      (name : Text) (s : Server L) → IsSound s → IsSound (notify_close name s)
  unfolding notify_close
  notify_close-IsSound name s h =
      elim (Option-cases
        (first_place (λ c. text_eq c.channel_info.media_info.stream_name name) s.devices)) [
          | inl nowhere ↦ rw (notify_close, nowhere) h
          | inr (p, found) ↦
              rw (notify_close, found)
                (close-IsSound p p.channel.channel_info.media_info.is_invite s h)
        ]

  pub start_play-IsSound :
      (random call_id : Text) (answer : Option (ℕ × Text)) (p : Option PlayInfo) (s : Server L)
      → IsSound s
      → AllOk (λ t. IsSound t.1) (start_play random call_id answer p s)
  unfolding start_play
  start_play-IsSound random call_id answer none s h = h
  start_play-IsSound random call_id answer (some p) s h =
      elim (Option-cases (find_channel p.device_id p.channel_id s)) [
        | inl absent ↦ rw (start_play, absent) h
        | inr (dc, found) ↦
            rw (start_play, found)
              (then_outcome-AllOk IsSound (λ t. IsSound t.1)
                (try_auto_invite random call_id no_options (stream_name_of p) (with_network p)
                  answer p.device_id p.channel_id s)
                (λ s'. ok (ResCode.success ∷ [], s'))
                (try_auto_invite-IsSound random call_id no_options (stream_name_of p)
                  (with_network p) answer p.device_id p.channel_id s h)
                (λ s' k. k))
      ]

  pub stop_play-IsSound :
      (p : Option PlayInfo) (s : Server L) → IsSound s → AllOk (λ t. IsSound t.1) (stop_play p s)
  unfolding stop_play
  stop_play-IsSound none s h = h
  stop_play-IsSound (some p) s h = elim (Option-cases (find_channel p.device_id p.channel_id s)) [
    | inl absent ↦ rw (stop_play, absent) h
    | inr ((d, c), found) ↦ rw (stop_play, found) (bye-IsSound p.device_id p.channel_id d c s h)
  ]

  pub update_notify-IsSound :
      (now : ℕ) (id : Option Text) (s : Server L)
      → IsSound s
      → AllOk (λ t. IsSound t.1) (update_notify now id s)
  unfolding update_notify
  update_notify-IsSound now none s h = h
  update_notify-IsSound now (some id) s h = get_sync_channels-IsSound now id s h

  module _ (encode : MessagePtz → Option Text) where
    sip_message-IsSound :
        (did xml : Text) (d : Device) (c : Channel) (answer : Option ℕ) (s : Server L)
        → IsSound s
        → AllOk (λ t. IsSound t.1) (sip_message encode did xml d c answer s)
    unfolding sip_message emit
    sip_message-IsSound did xml d c answer s h =
        then_outcome-all (λ t. IsSound t.1) (channel_request s.conf Method.message [] xml d c) _
          (λ r. sn-IsSound did r.1.sn s h)

    send_command-IsSound :
        (did cid device_id cmd : Text) (d : Device) (c : Channel) (answer : Option ℕ) (s : Server L)
        → IsSound s
        → AllOk (λ t. IsSound t.1) (send_command encode did cid device_id cmd d c answer s)
    unfolding send_command
    send_command-IsSound did cid device_id cmd d c answer s h =
        let sn = u32 (c.channel_info.sn + 1) in
        let f : Channel → Channel =
          λ c'. record c' { channel_info = record c'.channel_info { sn = sn } } in
        let sound : IsSound (adjust_channel did cid f s) =
          adjust_channel-IsSound did cid f s (λ j c k. k) h in
        elim (Option-cases (
          encode (record {
            cmd_type = codes "DeviceControl";
            device_id = device_id;
            sn = sn;
            ptz_cmd = cmd;
          }))) [
            | inl unwritten ↦ rw (send_command, unwritten) sound
            | inr (xml, written) ↦
                rw (send_command, written)
                  (sip_message-IsSound did xml d c answer (adjust_channel did cid f s) sound)
          ]

    pub control-IsSound :
        (replies : List ResCode) (did cid : Text) (cmd : Option Text) (answer : Option ℕ)
        (s : Server L)
        → IsSound s
        → AllOk (λ t. IsSound t.1) (control encode replies did cid cmd answer s)
    unfolding control
    control-IsSound replies did cid cmd answer s h = elim (Option-cases (find_channel did cid s)) [
      | inl absent ↦ rw (control, absent) h
      | inr ((d, c), found) ↦ elim (Option-cases cmd) [
        | inl unknown ↦ rw (control, found, unknown) h
        | inr (text, known) ↦
            rw (control, found, known)
              (then_outcome-AllOk (λ t. IsSound t.1) (λ t. IsSound t.1)
                (send_command encode did cid cid text d c answer s) _
                (send_command-IsSound did cid cid text d c answer s h) (λ r k. k))
      ]
    ]
