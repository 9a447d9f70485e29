-- ===== src/Gb28181/Sip/Keys/Calls.antt =====
-- gb28181: invitations, their ends and the control commands keep the server sound.
use lalmax.Base.{
  ℕ, inl, inr, Bool, true, false, [], Option, none, some, Option-cases, Bool-cases, if◌then◌else◌,
  ◌==◌,
}
use lalmax.Base.Outcome.{ok}
use lalmax.Base.Text.{Text, split_lines}
use lalmax.Base.Dict.{load}
use lalmax.Gb28181.Ports.{acquire, Acquired, got, net_error, stuck as out_of_fuel, listen_with_port}
use lalmax.Gb28181.Sip.Keys.{KeepsChannelKey, adjust-IsKeyed, adjust_channel_map-KeepsKey}
use lalmax.Gb28181.Sip.Keys.Register.{IsSound}
use lalmax.Gb28181.Sip.Keys.Message.{AllOk, then_outcome-AllOk, then_outcome-all}
use lalmax.Gb28181.Sip.Invite.{
  InviteOptions, create_ssrc, can_invite, begin_invite, channel_request, join_lines, sdp_info,
  subject_text, answer_lines, accepted, clear_media,
}
use lalmax.Gb28181.Sip.Media.{
  is_tcp, media_server_key, pool_of, set_pool, begin_media, start_single, start_acquired,
  start_multi, on_start_media_server, on_stop_media_server,
}
use lalmax.Gb28181.Sip.Call.{
  find_channel, adjust_device, adjust_channel, give_up, finish_invite, send_invite, invite,
  try_auto_invite, stop_media_server, bye_clear, bye,
}
use lalmax.Gb28181.Sip.Store.{
  PlayInfo, Channel, Device, Method, Request, MediaServer, Server, send, emit,
}

module _ {L : Type 0} where
  start_acquired-IsSound :
      (tcp : Bool) (key : Text) (a : Acquired L) (s : Server L)
      → IsSound s
      → IsSound (start_acquired tcp key a s).1
  unfolding start_acquired begin_media emit
  start_acquired-IsSound tcp key (got _ port) s h = h
  start_acquired-IsSound tcp key net_error s h = h
  start_acquired-IsSound tcp key out_of_fuel s h = h

  start_multi-IsSound :
      (tcp : Bool) (key : Text) (s : Server L) → IsSound s → IsSound (start_multi tcp key s).1
  unfolding start_multi set_pool
  start_multi-IsSound true key s h =
      start_acquired-IsSound true key (acquire (pool_of true s)).0 (set_pool true _ s) h
  start_multi-IsSound false key s h =
      start_acquired-IsSound false key (acquire (pool_of false s)).0 (set_pool false _ s) h

  start_single-IsSound :
      (tcp : Bool) (key : Text) (s : Server L) → IsSound s → IsSound (start_single tcp key s).1
  unfolding start_single begin_media emit
  start_single-IsSound tcp key s h =
      elim (Option-cases (listen_with_port (pool_of tcp s) s.conf.listen_port)) [
        | inl busy ↦ rw (start_single, busy) h
        | inr (l, free) ↦ rw (start_single, free) h
      ]

  start-IsSound :
      (single tcp : Bool) (key : Text) (s : Server L)
      → IsSound s
      → IsSound (if single then start_single tcp key s else start_multi tcp key s).1
  start-IsSound true tcp key s h = start_single-IsSound tcp key s h
  start-IsSound false tcp key s h = start_multi-IsSound tcp key s h

  on_start_media_server-IsSound :
      (net : Text) (single : Bool) (did cid : Text) (s : Server L)
      → IsSound s
      → IsSound (on_start_media_server net single did cid s).1
  unfolding on_start_media_server
  on_start_media_server-IsSound net single did cid s h =
      let key = media_server_key (is_tcp net) single did cid s.conf.listen_port in
      elim (Option-cases (load key s.media_server_map)) [
        | inr (m, there) ↦ rw (on_start_media_server, there) h
        | inl absent ↦
            rw (on_start_media_server, absent) (start-IsSound single (is_tcp net) key s h)
      ]

  on_stop_media_server-IsSound :
      (net : Text) (single : Bool) (did cid name : Text) (s : Server L)
      → IsSound s
      → IsSound (on_stop_media_server net single did cid name s)
  unfolding on_stop_media_server emit
  on_stop_media_server-IsSound net single did cid name s h =
      let key = media_server_key (is_tcp net) single did cid s.conf.listen_port in
      elim (Option-cases (load key s.media_server_map)) [
        | inl absent ↦ rw (on_stop_media_server, absent) h
        | inr (m, there) ↦ rw (on_stop_media_server, there) h
      ]

  pub adjust_channel-IsSound :
      (did cid : Text) (f : Channel → Channel) (s : Server L)
      → KeepsChannelKey f
      → IsSound s
      → IsSound (adjust_channel did cid f s)
  unfolding adjust_channel adjust_device
  adjust_channel-IsSound did cid f s keep (keyed, counted) =
      (adjust-IsKeyed did _ s.devices (adjust_channel_map-KeepsKey cid f keep) keyed, counted)

  accepted-IsSound :
      (call_id name : Text) (p : PlayInfo) (o : InviteOptions) (m : MediaServer) (r : Request)
      (did cid : Text) (s : Server L)
      → IsSound s
      → IsSound (adjust_channel did cid (accepted call_id name p o m r) s)
  unfolding accepted
  accepted-IsSound call_id name p o m r did cid s h =
      adjust_channel-IsSound did cid (accepted call_id name p o m r) s (λ j c k. k) h

  finish_invite-IsSound :
      (call_id name : Text) (p : PlayInfo) (o : InviteOptions) (m : MediaServer) (r : Request)
      (did cid : Text) (d : Device) (c : Channel) (answer : Option (ℕ × Text)) (s : Server L)
      → IsSound s
      → AllOk (λ t. IsSound t.1) (finish_invite call_id name p o m r did cid d c answer s)
  unfolding finish_invite give_up emit
  finish_invite-IsSound call_id name p o m r did cid d c none s h =
      on_stop_media_server-IsSound p.net_work p.single_port d.id c.channel_info.channel_id [] s h
  finish_invite-IsSound call_id name p o m r did cid d c (some (code, body)) s h =
      elim (Bool-cases (code == 200)) [
        | inr failed ↦
            rw (finish_invite, failed)
              (on_stop_media_server-IsSound p.net_work p.single_port d.id c.channel_info.channel_id
                [] s h)
        | inl fine ↦
            rw (finish_invite, fine)
              (then_outcome-all (λ t. IsSound t.1) (answer_lines (split_lines body) o) _
                (λ o'. accepted-IsSound call_id name p o' m r did cid s h))
      ]

  pub sn-IsSound :
      (did : Text) (n : ℕ) (s : Server L)
      → IsSound s
      → IsSound (adjust_device did (λ d. record d { sn = n }) s)
  unfolding adjust_device
  sn-IsSound did n s (keyed, counted) = (adjust-IsKeyed did _ s.devices (λ k d h. h) keyed, counted)

  send_invite-IsSound :
      (call_id name : Text) (p : PlayInfo) (o : InviteOptions) (m : MediaServer) (did cid : Text)
      (d : Device) (c : Channel) (answer : Option (ℕ × Text)) (s : Server L)
      → IsSound s
      → AllOk (λ t. IsSound t.1) (send_invite call_id name p o m did cid d c answer s)
  unfolding send_invite emit
  send_invite-IsSound call_id name p o m did cid d c answer s h =
      let o' = record o { media_port = m.listen_port } in
      then_outcome-all (λ t. IsSound t.1)
        (channel_request s.conf Method.invite (subject_text s.conf o' c)
          (join_lines (sdp_info o' p d c)) d c)
        _
        (λ r.
          finish_invite-IsSound call_id name p o' m r.0 did cid d c answer
            (emit (send d.sip_svr r.0) (adjust_device did (λ d'. record d' { sn = r.1.sn }) s))
            (sn-IsSound did r.1.sn s h))

  begin_invite-IsSound :
      (did cid random : Text) (s : Server L)
      → IsSound s
      → IsSound (adjust_channel did cid (begin_invite random) s)
  unfolding begin_invite
  begin_invite-IsSound did cid random s h =
      adjust_channel-IsSound did cid (begin_invite random) s (λ j c k. k) h

  invite-IsSound :
      (random call_id : Text) (opt : InviteOptions) (name : Text) (p : PlayInfo)
      (answer : Option (ℕ × Text)) (did cid : Text) (s : Server L)
      → IsSound s
      → AllOk (λ t. IsSound t.1) (invite random call_id opt name p answer did cid s)
  unfolding invite
  invite-IsSound random call_id opt name p answer did cid s h =
      elim (Option-cases (find_channel did cid s)) [
        | inl absent ↦ rw (invite, absent) h
        | inr ((d, c0), found) ↦
            let c = begin_invite random c0 in
            let s1 = adjust_channel did cid (begin_invite random) s in
            let started =
              on_start_media_server p.net_work p.single_port d.id c.channel_info.channel_id s1 in
            let sound : IsSound started.1 =
              on_start_media_server-IsSound p.net_work p.single_port d.id c.channel_info.channel_id
                s1 (begin_invite-IsSound did cid random s h) in
            rw (invite, found)
              (elim (Option-cases started.0) [
                | inl no_server ↦ rw no_server sound
                | inr (m, server) ↦ rw server (
                    send_invite-IsSound call_id name p
                      (create_ssrc c.channel_info.serial c.number opt) m did cid d c answer
                      started.1 sound)
              ])
      ]

  pub try_auto_invite-IsSound :
      (random call_id : Text) (opt : InviteOptions) (name : Text) (p : PlayInfo)
      (answer : Option (ℕ × Text)) (did cid : Text) (s : Server L)
      → IsSound s
      → AllOk IsSound (try_auto_invite random call_id opt name p answer did cid s)
  unfolding try_auto_invite
  try_auto_invite-IsSound random call_id opt name p answer did cid s h =
      elim (Option-cases (find_channel did cid s)) [
        | inl absent ↦ rw (try_auto_invite, absent) h
        | inr ((d, c), found) ↦ elim (Bool-cases (can_invite c)) [
          | inr busy ↦ rw (try_auto_invite, found, busy) h
          | inl free ↦
              rw (try_auto_invite, found, free)
                (then_outcome-AllOk (λ t. IsSound t.1) IsSound
                  (invite random call_id opt name p answer did cid s) (λ r. ok r.1)
                  (invite-IsSound random call_id opt name p answer did cid s h) (λ r k. k))
        ]
      ]

  stop_media_server-IsSound :
      (d : Device) (c : Channel) (s : Server L) → IsSound s → IsSound (stop_media_server d c s)
  unfolding stop_media_server
  stop_media_server-IsSound d c s h = elim (Option-cases c.play_info) [
    | inl idle ↦ rw (stop_media_server, idle) h
    | inr (p, playing) ↦
        rw (stop_media_server, playing)
          (on_stop_media_server-IsSound p.net_work p.single_port d.id c.channel_info.channel_id
            p.stream_name s h)
  ]

  pub bye_clear-IsSound :
      (did cid : Text) (d : Device) (c : Channel) (s : Server L)
      → IsSound s
      → IsSound (bye_clear did cid d c s)
  unfolding bye_clear clear_media
  bye_clear-IsSound did cid d c s h =
      adjust_channel-IsSound did cid (λ c'. clear_media (record c' { ack_req = none }))
        (stop_media_server d c s) (λ j c k. k) (stop_media_server-IsSound d c s h)

  pub clear_media-IsSound :
      (did cid : Text) (s : Server L) → IsSound s → IsSound (adjust_channel did cid clear_media s)
  unfolding clear_media
  clear_media-IsSound did cid s h = adjust_channel-IsSound did cid clear_media s (λ j c k. k) h

  pub bye-IsSound :
      (did cid : Text) (d : Device) (c : Channel) (s : Server L)
      → IsSound s
      → IsSound (bye did cid d c s).1
  unfolding bye emit
  bye-IsSound did cid d c s h = elim (Option-cases c.ack_req) [
    | inl closed ↦ rw (bye, closed) (stop_media_server-IsSound d c s h)
    | inr (a, called) ↦
        rw (bye, called)
          (stop_media_server-IsSound d c _
            (adjust_channel-IsSound did cid (λ c'. record c' { ack_req = none }) s (λ j c k. k) h))
  ]
