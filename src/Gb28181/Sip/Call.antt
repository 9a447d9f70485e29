-- ===== src/Gb28181/Sip/Call.antt =====
-- gb28181/channel.go: inviting a channel, and the end of a call. A request and its answer are one step:
-- the answer, if there is one, is an argument.
pub mod Lookup
pub mod Ends
pub mod Bye
use lalmax.Base.{
  ℕ, ◌+◌, Bool, true, false, List, [], ◌∷◌, Option, none, some, ◌==◌, if◌then◌else◌, u32,
}
use lalmax.Base.Outcome.{Outcome, ok, then_outcome}
use lalmax.Base.Text.{Text, split_lines}
use lalmax.Base.Dict.{load, adjust}
use lalmax.Gb28181.Sip.Invite.{
  InviteOptions, create_ssrc, can_invite, begin_invite, channel_request, join_lines, sdp_info,
  subject_text, answer_lines, accepted, clear_media,
}
use lalmax.Gb28181.Sip.Media.{on_start_media_server, on_stop_media_server}
use lalmax.Gb28181.Sip.Store.{
  PlayInfo, Channel, Device, Method, Request, MediaServer, Server, send, emit,
}

module _ {L : Type 0} where
  unfoldable pub find_channel : Text → Text → Server L → Option (Device × Channel)
  unfolding load
  find_channel did cid s = elim (load did s.devices) [
    | none ↦ none
    | some d ↦ elim (load cid d.channel_map) [ none ↦ none | some c ↦ some (d, c) ]
  ]

  unfoldable pub adjust_device : Text → (Device → Device) → Server L → Server L
  unfolding adjust
  adjust_device did f s = record s { devices = adjust did f s.devices }

  unfoldable pub adjust_channel : Text → Text → (Channel → Channel) → Server L → Server L
  unfolding adjust_device adjust
  adjust_channel did cid f =
      adjust_device did (λ d. record d { channel_map = adjust cid f d.channel_map })

  -- The media server is stopped again, for no stream; then the code.
  unfoldable pub give_up : PlayInfo → Text → Text → ℕ → Server L → ℕ × Server L
  unfolding on_stop_media_server
  give_up p device_id channel_id code s =
      (code, on_stop_media_server p.net_work p.single_port device_id channel_id [] s)

  -- From the answer on; `none` is an error of the request.
  unfoldable pub finish_invite :
      Text
      → Text
      → PlayInfo
      → InviteOptions
      → MediaServer
      → Request
      → Text
      → Text
      → Device
      → Channel
      → Option (ℕ × Text)
      → Server L
      → Outcome (ℕ × Server L)
  unfolding give_up split_lines answer_lines adjust_channel accepted emit
  finish_invite call_id stream_name p o m r did cid d c answer s = elim answer [
    | none ↦ ok (give_up p d.id c.channel_info.channel_id 500 s)
    | some (code, body) ↦
        if code == 200
        then then_outcome (answer_lines (split_lines body) o) (λ o'. ok (
          200,
          emit (send d.sip_svr (record r { method = Method.ack; subject = []; body = [] }))
              (adjust_channel did cid (accepted call_id stream_name p o' m r) s),
        ))
        else ok (give_up p d.id c.channel_info.channel_id code s)
  ]

  -- With a media server: the request is sent.
  unfoldable pub send_invite :
      Text
      → Text
      → PlayInfo
      → InviteOptions
      → MediaServer
      → Text
      → Text
      → Device
      → Channel
      → Option (ℕ × Text)
      → Server L
      → Outcome (ℕ × Server L)
  unfolding channel_request sdp_info subject_text adjust_device finish_invite emit
  send_invite call_id stream_name p o m did cid d c answer s =
      let o' = record o { media_port = m.listen_port } in
      then_outcome
        (channel_request s.conf Method.invite (subject_text s.conf o' c)
          (join_lines (sdp_info o' p d c)) d c)
        (λ r.
          finish_invite call_id stream_name p o' m r.0 did cid d c answer
            (emit (send d.sip_svr r.0) (adjust_device did (λ d'. record d' { sn = r.1.sn }) s)))

  -- `random` and `call_id` are what RandNumString gives; an absent channel is the model's own case.
  unfoldable pub invite :
      Text
      → Text
      → InviteOptions
      → Text
      → PlayInfo
      → Option (ℕ × Text)
      → Text
      → Text
      → Server L
      → Outcome (ℕ × Server L)
  unfolding find_channel begin_invite create_ssrc adjust_channel on_start_media_server send_invite
  invite random call_id opt stream_name p answer did cid s = elim (find_channel did cid s) [
    | none ↦ ok (404, s)
    | some (d, c0) ↦
        let c = begin_invite random c0 in
        let o = create_ssrc c.channel_info.serial c.number opt in
        let r =
          on_start_media_server p.net_work p.single_port d.id c.channel_info.channel_id
            (adjust_channel did cid (begin_invite random) s) in
        elim r.0 [
          | none ↦ ok (404, r.1)
          | some m ↦ send_invite call_id stream_name p o m did cid d c answer r.1
        ]
  ]

  -- A failed invitation is only logged.
  unfoldable pub try_auto_invite :
      Text
      → Text
      → InviteOptions
      → Text
      → PlayInfo
      → Option (ℕ × Text)
      → Text
      → Text
      → Server L
      → Outcome (Server L)
  unfolding find_channel can_invite invite
  try_auto_invite random call_id opt stream_name p answer did cid s =
      elim (find_channel did cid s) [
        | none ↦ ok s
        | some (d, c) ↦
            if can_invite c
            then then_outcome (invite random call_id opt stream_name p answer did cid s)
                (λ r. ok r.1)
            else ok s
      ]

  unfoldable pub stop_media_server : Device → Channel → Server L → Server L
  unfolding on_stop_media_server
  stop_media_server d c s = elim c.play_info [
    | none ↦ s
    | some p ↦
        on_stop_media_server p.net_work p.single_port d.id c.channel_info.channel_id p.stream_name s
  ]

  unfoldable pub bye_clear : Text → Text → Device → Channel → Server L → Server L
  unfolding stop_media_server adjust_channel clear_media
  bye_clear did cid d c s =
      adjust_channel did cid (λ c'. clear_media (record c' { ack_req = none }))
        (stop_media_server d c s)

  -- The result is false where the channel has been closed.
  unfoldable pub bye : Text → Text → Device → Channel → Server L → Bool × Server L
  unfolding stop_media_server adjust_channel emit
  bye did cid d c s = elim c.ack_req [
    | none ↦ (false, stop_media_server d c s)
    | some a ↦ (
      true,
      stop_media_server d c (
          emit
            (send d.sip_svr
              (record a.request { method = Method.bye; seq_no = u32 (a.request.seq_no + 1) }))
            (adjust_channel did cid (λ c'. record c' { ack_req = none }) s)),
    )
  ]
