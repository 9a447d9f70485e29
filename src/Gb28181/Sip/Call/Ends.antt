-- ===== src/Gb28181/Sip/Call/Ends.antt =====
-- gb28181/channel.go: how an invitation ends.
use lalmax.Base.{
  ℕ, ◌≡◌, ◌≢◌, refl, sym, ◌∙◌, ◌⊎◌, inl, inr, arith, true, [], Option, none, some, Option-cases,
  Bool-cases, ◌==◌,
}
use lalmax.Base.Outcome.{Outcome, ok, panic, below_zero, stuck, then_outcome}
use lalmax.Base.Text.{Text, split_lines}
use lalmax.Base.Dict.{load, adjust}
use lalmax.Gb28181.Sip.Invite.{
  InviteOptions, create_ssrc, begin_invite, channel_request, join_lines, sdp_info, subject_text,
  answer_lines, accepted, get_call_id,
}
use lalmax.Gb28181.Sip.Media.{is_tcp, media_server_key, on_start_media_server}
use lalmax.Gb28181.Sip.Media.Starts.{on_start_media_server-IsStart, on_stop_media_server-IsStop}
use lalmax.Gb28181.Sip.Call.Lookup.{
  Holds, find_channel-Holds, Holds-find_channel, adjust_channel-Holds, sn-Holds, same_devices-Holds,
}
use lalmax.Gb28181.Sip.Call.{
  find_channel, adjust_device, adjust_channel, give_up, finish_invite, send_invite, invite,
}
use lalmax.Gb28181.Sip.Store.{
  PlayInfo, Channel, Device, Method, Request, Config, MediaServer, Server, send, emit,
}
use mathlib.Core.Path.{subst}

-- What holds of an outcome that is a result.
abbrev pub IfOk : {A : Type 0} → (A → Type 0) → Outcome A → Type 0
IfOk P (ok a) = P a
IfOk P panic = Unit
IfOk P below_zero = Unit
IfOk P stuck = Unit

then_outcome-IfOk :
    {A B : Type 0} (Q : B → Type 0) (r : Outcome A) (f : A → Outcome B)
    → ((a : A) → IfOk Q (f a))
    → IfOk Q (then_outcome r f)
then_outcome-IfOk Q (ok a) f k = k a
then_outcome-IfOk Q panic f k = tt
then_outcome-IfOk Q below_zero f k = tt
then_outcome-IfOk Q stuck f k = tt

-- The key of the media server for a play request to a channel.
abbrev pub key_of : Config → PlayInfo → Text → Text → Text
key_of conf p device_id channel_id =
    media_server_key (is_tcp p.net_work) p.single_port device_id channel_id conf.listen_port

module _ {L : Type 0} where
  -- The channel is in a call: it is marked as invited, has the call's id, and its media server runs.
  pub record InCall (key call_id did cid : Text) (t : Server L) : Type 0 where
    pub device : Device
    pub channel : Channel
    pub found : find_channel did cid t ≡ some (device, channel)
    pub invited : channel.channel_info.media_info.is_invite ≡ true
    pub call : get_call_id channel ≡ call_id
    pub media : (m : MediaServer) × (load key t.media_server_map ≡ some m)

  -- The two ends of an invitation: 200 and a call, or another code and no media server.
  abbrev pub IsInvited : Text → Text → Text → Text → ℕ × Server L → Type 0
  IsInvited key call_id did cid r =
      ((r.0 ≡ 200) × InCall key call_id did cid r.1)
      ⊎ ((r.0 ≢ 200) × (load key r.1.media_server_map ≡ none))

  module _ (call_id name : Text) (p : PlayInfo) (m : MediaServer) (did cid : Text) (d0 : Device)
      (c0 : Channel) where
    abbrev key_in : Server L → Text
    key_in s = key_of s.conf p d0.id c0.channel_info.channel_id

    give_up-IsInvited :
        (code : ℕ) (s : Server L)
        → code ≢ 200
        → IsInvited (key_in s) call_id did cid (give_up p d0.id c0.channel_info.channel_id code s)
    unfolding give_up
    give_up-IsInvited code s failed = inr (
      failed,
      (on_stop_media_server-IsStop p.net_work p.single_port d0.id c0.channel_info.channel_id []
          s).absent,
    )

    accepted-InCall :
        (o : InviteOptions) (r : Request) (d : Device) (c : Channel) (s : Server L)
        → Holds did cid d c s
        → load (key_in s) s.media_server_map ≡ some m
        → InCall (key_in s) call_id did cid (
            emit
              (send d0.sip_svr (record r { method = Method.ack; subject = []; body = [] }))
              (adjust_channel did cid (accepted call_id name p o m r) s))
    unfolding accepted emit get_call_id adjust_channel adjust_device
    accepted-InCall o r d c s holds runs = record {
      device = record d { channel_map = adjust cid (accepted call_id name p o m r) d.channel_map };
      channel = accepted call_id name p o m r c;
      found =
          Holds-find_channel did cid
            (record d { channel_map = adjust cid (accepted call_id name p o m r) d.channel_map })
            (accepted call_id name p o m r c) _
            (adjust_channel-Holds did cid (accepted call_id name p o m r) d c s holds);
      invited = refl;
      call = refl;
      media = (m, runs);
    }

    finish_invite-IsInvited :
        (o : InviteOptions) (r : Request) (d : Device) (c : Channel) (answer : Option (ℕ × Text))
        (s : Server L)
        → Holds did cid d c s
        → load (key_in s) s.media_server_map ≡ some m
        → IfOk
            (IsInvited (key_in s) call_id did cid)
            (finish_invite call_id name p o m r did cid d0 c0 answer s)
    unfolding finish_invite
    finish_invite-IsInvited o r d c none s holds runs =
        give_up-IsInvited 500 s (λ e. absurd (omega arith))
    finish_invite-IsInvited o r d c (some (code, body)) s holds runs =
        elim (Bool-cases (code == 200)) [
          | inr failed ↦ rw (finish_invite, failed) (give_up-IsInvited code s (λ e. ground arith))
          | inl fine ↦
              rw (finish_invite, fine)
                (then_outcome-IfOk (IsInvited (key_in s) call_id did cid)
                  (answer_lines (split_lines body) o) _
                  (λ o'. inl (refl, accepted-InCall o' r d c s holds runs)))
        ]

    send_invite-IsInvited :
        (o : InviteOptions) (d : Device) (c : Channel) (answer : Option (ℕ × Text)) (s : Server L)
        → Holds did cid d c s
        → load (key_in s) s.media_server_map ≡ some m
        → IfOk
            (IsInvited (key_in s) call_id did cid)
            (send_invite call_id name p o m did cid d0 c0 answer s)
    unfolding send_invite emit adjust_device
    send_invite-IsInvited o d c answer s holds runs =
        let o' = record o { media_port = m.listen_port } in
        then_outcome-IfOk (IsInvited (key_in s) call_id did cid)
          (channel_request s.conf Method.invite (subject_text s.conf o' c0)
            (join_lines (sdp_info o' p d0 c0)) d0 c0)
          _
          (λ r.
            finish_invite-IsInvited o' r.0 (record d { sn = r.1.sn }) c answer
              (emit (send d0.sip_svr r.0) (adjust_device did (λ d'. record d' { sn = r.1.sn }) s))
              (sn-Holds did cid r.1.sn d c s holds) runs)

  -- An invitation that does not panic ends with 200, the channel in a call and its media server in the
  -- map, or with another code and no media server under its key.
  pub invite-IsInvited :
      (random call_id : Text) (opt : InviteOptions) (name : Text) (p : PlayInfo)
      (answer : Option (ℕ × Text)) (did cid : Text) (d : Device) (c : Channel) (s : Server L)
      → find_channel did cid s ≡ some (d, c)
      → IfOk
          (IsInvited (key_of s.conf p d.id c.channel_info.channel_id) call_id did cid)
          (invite random call_id opt name p answer did cid s)
  unfolding invite begin_invite adjust_channel adjust_device
  invite-IsInvited random call_id opt name p answer did cid d c0 s found =
      let c = begin_invite random c0 in
      let s1 = adjust_channel did cid (begin_invite random) s in
      let id = c0.channel_info.channel_id in
      let started = on_start_media_server p.net_work p.single_port d.id id s1 in
      let start = on_start_media_server-IsStart p.net_work p.single_port d.id id s1 in
      let runs : load (key_of started.1.conf p d.id id) started.1.media_server_map ≡ started.0 =
        subst (λ conf. load (key_of conf p d.id id) started.1.media_server_map ≡ started.0)
          (sym start.conf) start.found in
      let d1 = record d { channel_map = adjust cid (begin_invite random) d.channel_map } in
      let holds : Holds did cid d1 c started.1 =
        same_devices-Holds did cid d1 c s1 started.1 start.devices (
          adjust_channel-Holds did cid (begin_invite random) d c0 s
            (find_channel-Holds did cid d c0 s found)) in
      rw (invite, found)
        (elim (Option-cases started.0) [
          | inl no_server ↦
              rw no_server (inr ((λ e. absurd (omega arith)), start.found ∙ no_server))
          | inr (m, server) ↦ rw server (
              subst
                (λ conf. IfOk (IsInvited (key_of conf p d.id id) call_id did cid) (
                  send_invite call_id name p (create_ssrc c.channel_info.serial c.number opt) m did
                    cid d c answer started.1))
                start.conf
                (send_invite-IsInvited call_id name p m did cid d c0
                  (create_ssrc c.channel_info.serial c.number opt) d1 c answer started.1 holds
                  (runs ∙ server)))
        ])
