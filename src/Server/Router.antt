-- ===== src/Server/Router.antt =====
-- server/router.go: the handlers of the HTTP interface. The servers that they call, lal's and the
-- others, are parameters, and so are the reading of JSON and lal's defaults.
use lalmax.Base.{ℕ, Bool, true, false, List, [], ◌∷◌, ◌++◌, map, Option, none, some, if◌then◌else◌}
use lalmax.Base.Text.{Text, text_eq, codes}

-- What a handler does that only passes a request on: it calls a server, answers with a status and
-- nothing else, or does nothing.
pub data Passed : Type 0 where
  calls : Passed
  status : ℕ → Passed
  nothing : Passed

-- HandleWHIP, HandleWHEP and HandleJessibuca, by method; the flag is whether there is an RTC server.
unfoldable pub handle_rtc : Bool → Text → Passed
unfolding text_eq
handle_rtc has_rtc method =
    if text_eq method (codes "POST")
    then (if has_rtc then calls else nothing)
    else if text_eq method (codes "DELETE")
    then status 200
    else nothing

-- HandleHls and HandleHttpFmp4.
unfoldable pub handle_or_not_found : Bool → Passed
handle_or_not_found has_server = if has_server then calls else status 404

unfoldable pub handle_onvif_pull : Bool → Passed
handle_onvif_pull has_onvif = if has_onvif then calls else nothing

-- A group of lal, as far as the code changes it.
pub record Group (S : Type 0) : Type 0 where
  pub stream_name : Text
  pub stat_subs : List S

pub data StatGroup (S : Type 0) : Type 0 where
  param_missing group_not_found : StatGroup S
  found : Group S → StatGroup S

module _ {S : Type 0} (consumers : Text → Option (List S)) where
  -- The consumers of the hook session of a name join the subscribers, if there is one.
  unfoldable pub add_consumers : Text → Group S → Group S
  add_consumers name g = elim (consumers name) [
    | none ↦ g
    | some cs ↦ record g { stat_subs = g.stat_subs ++ cs }
  ]

  unfoldable pub stat_group_handler : (Text → Option (Group S)) → Text → StatGroup S
  unfolding text_eq add_consumers
  stat_group_handler stat_group name =
      if text_eq name []
      then param_missing
      else elim (stat_group name) [ none ↦ group_not_found | some g ↦ found (add_consumers name g) ]

  unfoldable pub stat_all_group_handler : List (Group S) → List (Group S)
  unfolding add_consumers
  stat_all_group_handler = map (λ g. add_consumers g.stream_name g)

-- A request's body as JSON: which fields it has, and what it is read to.
pub record Json (I : Type 0) : Type 0 where
  pub exist : Text → Bool
  pub unmarshal : Option I

unfoldable pub has_all : (Text → Bool) → List Text → Bool
has_all exist [] = true
has_all exist (k ∷ ks) = if exist k then has_all exist ks else false

-- `none` is an error; the body is `none` where it cannot be read as JSON.
unfoldable pub unmarshal_request_json_body : {I : Type 0} → Option (Json I) → List Text → Option I
unfolding has_all
unmarshal_request_json_body none keys = none
unmarshal_request_json_body (some j) keys = if has_all j.exist keys then j.unmarshal else none

-- Whether the request has a field, where its body was read.
unfoldable pub json_exist : {I : Type 0} → Option (Json I) → Text → Bool
json_exist none k = false
json_exist (some j) k = j.exist k

pub record StartRelayPull : Type 0 where
  pub pull_timeout_ms : ℕ
  pub pull_retry_num : ℕ
  pub auto_stop_pull_after_no_out_ms : ℕ
  pub rtsp_mode : ℕ

-- A field that the request does not have gets its default.
unfoldable pub fill_start_relay_pull :
    (Text → Bool) → StartRelayPull → StartRelayPull → StartRelayPull
fill_start_relay_pull exist defaults info = record {
  pull_timeout_ms =
      if exist (codes "pull_timeout_ms") then info.pull_timeout_ms else defaults.pull_timeout_ms;
  pull_retry_num =
      if exist (codes "pull_retry_num") then info.pull_retry_num else defaults.pull_retry_num;
  auto_stop_pull_after_no_out_ms =
      if exist (codes "auto_stop_pull_after_no_out_ms")
      then info.auto_stop_pull_after_no_out_ms
      else defaults.auto_stop_pull_after_no_out_ms;
  rtsp_mode = if exist (codes "rtsp_mode") then info.rtsp_mode else defaults.rtsp_mode;
}

-- The request that lal is given, or `none` for the answer that a parameter is missing.
unfoldable pub ctrl_start_relay_pull_handler :
    StartRelayPull → Option (Json StartRelayPull) → Option StartRelayPull
unfolding unmarshal_request_json_body json_exist fill_start_relay_pull
ctrl_start_relay_pull_handler defaults body =
    elim (unmarshal_request_json_body body (codes "url" ∷ [])) [
      | none ↦ none
      | some info ↦ some (fill_start_relay_pull (json_exist body) defaults info)
    ]

unfoldable pub ctrl_stop_relay_pull_handler : Text → Option Text
unfolding text_eq
ctrl_stop_relay_pull_handler name = if text_eq name [] then none else some name

unfoldable pub ctrl_kick_session_handler : {I : Type 0} → Option (Json I) → Option I
unfolding unmarshal_request_json_body
ctrl_kick_session_handler body =
    unmarshal_request_json_body body (codes "stream_name" ∷ codes "session_id" ∷ [])

-- The time-out of a request that has none is lal's default.
unfoldable pub ctrl_start_rtp_pub_handler : {I : Type 0} → (I → I) → Option (Json I) → Option I
unfolding unmarshal_request_json_body json_exist
ctrl_start_rtp_pub_handler set_default_timeout body =
    elim (unmarshal_request_json_body body (codes "stream_name" ∷ [])) [
      | none ↦ none
      | some info ↦
          some (if json_exist body (codes "timeout_ms") then info else set_default_timeout info)
    ]
