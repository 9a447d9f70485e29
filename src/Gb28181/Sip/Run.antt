-- ===== src/Gb28181/Sip/Run.antt =====
-- gb28181: what can happen to the signalling server, as a sequence of events: the requests of devices,
-- the HTTP requests, the timers, and the end of a media connection. A panic ends the process.
use lalmax.Base.{ℕ, List, [], ◌∷◌, Option}
use lalmax.Base.Outcome.{Outcome, ok, then_outcome}
use lalmax.Base.Text.{Text}
use lalmax.Gb28181.Sip.Register.{SipMessage, on_register}
use lalmax.Gb28181.Sip.Message.{MessageBody, NotifyBody, on_message, on_notify, on_bye}
use lalmax.Gb28181.Sip.Control.{MessagePtz, PtzDirection, PtzZoom, PtzFi, PtzPreset}
use lalmax.Gb28181.Sip.Watch.{status_check, ban_tick, notify_close, get_device_infos}
use lalmax.Gb28181.Sip.Http.{
  Handled, start_play, stop_play, update_all_notify, update_notify, ptz_direction, ptz_zoom, ptz_fi,
  ptz_preset, ptz_stop_all,
}
use lalmax.Gb28181.Sip.Store.{PlayInfo, Server}

-- The times, the random texts and the answers that an event meets stand in it.
pub data Event : Type 0 where
  registers : ℕ → Text → SipMessage → Event
  messages : ℕ → SipMessage → Event
  notifies : ℕ → SipMessage → Event
  hangs_up : SipMessage → Event
  status_tick : ℕ → Event
  ban_tick_due : Event
  media_closed : Text → Event
  lists : Event
  plays : Text → Text → Option (ℕ × Text) → Option PlayInfo → Event
  stops : Option PlayInfo → Event
  syncs_all : ℕ → Event
  syncs : ℕ → Option Text → Event
  directs : Option PtzDirection → Option ℕ → Event
  zooms : Option PtzZoom → Option ℕ → Event
  focuses : Option PtzFi → Option ℕ → Event
  presets : Option PtzPreset → Option ℕ → Event
  halts : Option (Text × Text) → Option ℕ → Event

-- What the server does not implement: MD5, the reading of XML, and the writing of a command.
pub record Codecs : Type 0 where
  pub md5_hex : Text → Text
  pub decode_message : Text → MessageBody
  pub decode_notify : Text → NotifyBody
  pub encode : MessagePtz → Option Text

abbrev state_of : {L : Type 0} → Handled L → Outcome (Server L)
state_of h = then_outcome h (λ r. ok r.1)

module _ {L : Type 0} (k : Codecs) where
  unfoldable pub handle : Event → Server L → Outcome (Server L)
  unfolding on_register on_message on_notify on_bye status_check ban_tick notify_close
      get_device_infos start_play stop_play update_all_notify update_notify ptz_direction ptz_zoom
      ptz_fi ptz_preset ptz_stop_all
  handle (registers now random req) s = ok (on_register k.md5_hex now random req s)
  handle (messages now req) s = on_message k.decode_message now req s
  handle (notifies now req) s = on_notify k.decode_notify now req s
  handle (hangs_up req) s = on_bye req s
  handle (status_tick now) s = ok (status_check now s)
  handle ban_tick_due s = ok (ban_tick s)
  handle (media_closed name) s = ok (notify_close name s)
  handle lists s = ok (get_device_infos s).1
  handle (plays random call_id answer p) s = state_of (start_play random call_id answer p s)
  handle (stops p) s = state_of (stop_play p s)
  handle (syncs_all now) s = state_of (update_all_notify now s)
  handle (syncs now id) s = state_of (update_notify now id s)
  handle (directs r answer) s = state_of (ptz_direction k.encode r answer s)
  handle (zooms r answer) s = state_of (ptz_zoom k.encode r answer s)
  handle (focuses r answer) s = state_of (ptz_fi k.encode r answer s)
  handle (presets r answer) s = state_of (ptz_preset k.encode r answer s)
  handle (halts r answer) s = state_of (ptz_stop_all k.encode r answer s)

  unfoldable pub run : List Event → Server L → Outcome (Server L)
  unfolding handle
  run [] s = ok s
  run (e ∷ rest) s = then_outcome (handle e s) (run rest)
