-- ===== src/Gb28181/Sip/Keys/Run.antt =====
-- gb28181: whatever happens to the signalling server, it stays sound.
use lalmax.Base.{ℕ, ◌*◌, u8, List, [], ◌∷◌, Option, none, some}
use lalmax.Base.Outcome.{ok, then_outcome}
use lalmax.Base.Text.{Text}
use lalmax.Gb28181.Sip.Keys.Register.{IsSound, on_register-IsSound}
use lalmax.Gb28181.Sip.Keys.Message.{
  AllOk, then_outcome-AllOk, on_message-IsSound, on_notify-IsSound, status_check-IsSound,
  ban_tick-IsSound, get_device_infos-IsSound, get_all_sync_channels-IsSound,
}
use lalmax.Gb28181.Sip.Keys.Handlers.{
  on_bye-IsSound, notify_close-IsSound, start_play-IsSound, stop_play-IsSound,
  update_notify-IsSound, control-IsSound,
}
use lalmax.Gb28181.Sip.Control.{
  PtzDirection, PtzZoom, PtzFi, PtzPreset, direction_command, zoom_command, fi_command,
  preset_command, stop_command,
}
use lalmax.Gb28181.Sip.Http.{
  speed_replies, point_replies, Handled, start_play, stop_play, update_all_notify, update_notify,
  ptz_direction, ptz_zoom, ptz_fi, ptz_preset, ptz_stop_all,
}
use lalmax.Gb28181.Sip.Media.{new_gb28181_server}
use lalmax.Gb28181.Sip.Run.{
  Event, registers, messages, notifies, hangs_up, status_tick, ban_tick_due, media_closed, lists,
  plays, stops, syncs_all, syncs, directs, zooms, focuses, presets, halts, Codecs, handle, run,
}
use lalmax.Gb28181.Sip.Store.{Config, Server}

module _ {L : Type 0} (k : Codecs) where
  state_of-AllOk :
      (r : Handled L) → AllOk (λ t. IsSound t.1) r → AllOk IsSound (then_outcome r (λ t. ok t.1))
  state_of-AllOk r h = then_outcome-AllOk (λ t. IsSound t.1) IsSound r (λ t. ok t.1) h (λ t g. g)

  ptz_direction-IsSound :
      (r : Option PtzDirection) (answer : Option ℕ) (s : Server L)
      → IsSound s
      → AllOk (λ t. IsSound t.1) (ptz_direction k.encode r answer s)
  unfolding ptz_direction
  ptz_direction-IsSound none answer s h = h
  ptz_direction-IsSound (some r) answer s h =
      control-IsSound k.encode (speed_replies r.speed) r.device_id r.channel_id
        (some (direction_command (record r { speed = u8 (r.speed * 25) }))) answer s h

  ptz_zoom-IsSound :
      (r : Option PtzZoom) (answer : Option ℕ) (s : Server L)
      → IsSound s
      → AllOk (λ t. IsSound t.1) (ptz_zoom k.encode r answer s)
  unfolding ptz_zoom
  ptz_zoom-IsSound none answer s h = h
  ptz_zoom-IsSound (some r) answer s h =
      control-IsSound k.encode (speed_replies r.speed) r.device_id r.channel_id
        (some (zoom_command (record r { speed = u8 (r.speed * 25) }))) answer s h

  ptz_fi-IsSound :
      (r : Option PtzFi) (answer : Option ℕ) (s : Server L)
      → IsSound s
      → AllOk (λ t. IsSound t.1) (ptz_fi k.encode r answer s)
  unfolding ptz_fi
  ptz_fi-IsSound none answer s h = h
  ptz_fi-IsSound (some r) answer s h =
      control-IsSound k.encode (speed_replies r.speed) r.device_id r.channel_id
        (some (fi_command (record r { speed = u8 (r.speed * 25) }))) answer s h

  ptz_preset-IsSound :
      (r : Option PtzPreset) (answer : Option ℕ) (s : Server L)
      → IsSound s
      → AllOk (λ t. IsSound t.1) (ptz_preset k.encode r answer s)
  unfolding ptz_preset
  ptz_preset-IsSound none answer s h = h
  ptz_preset-IsSound (some r) answer s h =
      control-IsSound k.encode (point_replies r.point) r.device_id r.channel_id (preset_command r)
        answer s h

  ptz_stop_all-IsSound :
      (r : Option (Text × Text)) (answer : Option ℕ) (s : Server L)
      → IsSound s
      → AllOk (λ t. IsSound t.1) (ptz_stop_all k.encode r answer s)
  unfolding ptz_stop_all
  ptz_stop_all-IsSound none answer s h = h
  ptz_stop_all-IsSound (some (did, cid)) answer s h =
      control-IsSound k.encode [] did cid (some stop_command) answer s h

  handle-IsSound : (e : Event) (s : Server L) → IsSound s → AllOk IsSound (handle k e s)
  unfolding handle update_all_notify
  handle-IsSound (registers now random req) s h = on_register-IsSound k.md5_hex now random req s h
  handle-IsSound (messages now req) s h = on_message-IsSound k.decode_message now req s h
  handle-IsSound (notifies now req) s h = on_notify-IsSound k.decode_notify now req s h
  handle-IsSound (hangs_up req) s h = on_bye-IsSound req s h
  handle-IsSound (status_tick now) s h = status_check-IsSound now s h
  handle-IsSound ban_tick_due s h = ban_tick-IsSound s h
  handle-IsSound (media_closed name) s h = notify_close-IsSound name s h
  handle-IsSound lists s h = get_device_infos-IsSound s h
  handle-IsSound (plays random call_id answer p) s h =
      state_of-AllOk (start_play random call_id answer p s)
        (start_play-IsSound random call_id answer p s h)
  handle-IsSound (stops p) s h = state_of-AllOk (stop_play p s) (stop_play-IsSound p s h)
  handle-IsSound (syncs_all now) s h = get_all_sync_channels-IsSound now s h
  handle-IsSound (syncs now id) s h =
      state_of-AllOk (update_notify now id s) (update_notify-IsSound now id s h)
  handle-IsSound (directs r answer) s h =
      state_of-AllOk (ptz_direction k.encode r answer s) (ptz_direction-IsSound r answer s h)
  handle-IsSound (zooms r answer) s h =
      state_of-AllOk (ptz_zoom k.encode r answer s) (ptz_zoom-IsSound r answer s h)
  handle-IsSound (focuses r answer) s h =
      state_of-AllOk (ptz_fi k.encode r answer s) (ptz_fi-IsSound r answer s h)
  handle-IsSound (presets r answer) s h =
      state_of-AllOk (ptz_preset k.encode r answer s) (ptz_preset-IsSound r answer s h)
  handle-IsSound (halts r answer) s h =
      state_of-AllOk (ptz_stop_all k.encode r answer s) (ptz_stop_all-IsSound r answer s h)

  run-IsSound : (es : List Event) (s : Server L) → IsSound s → AllOk IsSound (run k es s)
  unfolding run
  run-IsSound [] s h = h
  run-IsSound (e ∷ es) s h =
      then_outcome-AllOk IsSound IsSound (handle k e s) (run k es) (handle-IsSound e s h)
        (λ t g. run-IsSound es t g)

  -- After any events from the start on, unless one panics, every device is stored under its own id and
  -- every channel under its own, and no device has more than four refusals.
  pub run-new-IsSound :
      (conf : Config) (listen_tcp listen_udp : ℕ → Option L) (es : List Event)
      → AllOk IsSound (run k es (new_gb28181_server conf listen_tcp listen_udp))
  unfolding new_gb28181_server
  run-new-IsSound conf listen_tcp listen_udp es =
      run-IsSound es (new_gb28181_server conf listen_tcp listen_udp) (tt, tt)
