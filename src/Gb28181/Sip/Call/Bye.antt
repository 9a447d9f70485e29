-- ===== src/Gb28181/Sip/Call/Bye.antt =====
-- gb28181/channel.go: what Bye leaves of a call.
use lalmax.Base.{
  ◌+◌, ◌≡◌, refl, inl, inr, Bool, true, false, none, some, Option-cases, u32, length, ◌==◌, ◌&&◌,
  ◌||◌, not, take, drop,
}
use lalmax.Base.Text.{Text, text_eq, codes}
use lalmax.Base.Dict.{adjust}
use lalmax.Gb28181.Sip.Invite.{can_invite, is_zero}
use lalmax.Gb28181.Sip.Devices.{off_status}
use lalmax.Gb28181.Sip.Media.Starts.{on_stop_media_server-IsStop}
use lalmax.Gb28181.Sip.Call.Lookup.{
  Holds, find_channel-Holds, Holds-find_channel, adjust_channel-Holds, same_devices-Holds,
}
use lalmax.Gb28181.Sip.Call.{find_channel, adjust_channel, stop_media_server, bye}
use lalmax.Gb28181.Sip.Store.{Channel, Device, Method, Ack, Server, send, emit}

-- What a call leaves when it has ended: no ACK, and all else of the channel.
abbrev pub hung_up : Channel → Channel
hung_up c = record c { ack_req = none }

abbrev pub device_after : Text → Device → Device
device_after cid d = record d { channel_map = adjust cid hung_up d.channel_map }

and_false : (a b c d : Bool) → (a && (b && (c && (false && d)))) ≡ false
and_false true true true d = refl
and_false true true false d = refl
and_false true false c d = refl
and_false false b c d = refl

-- The mark of an invitation is one of the tests.
invited_cannot : (c : Channel) → c.channel_info.media_info.is_invite ≡ true → can_invite c ≡ false
unfolding can_invite
invited_cannot c invited =
    let i = c.channel_info in
    rw invited (
      and_false (length i.channel_id == 20) (not (text_eq i.status off_status)) (is_zero i.parental)
        (text_eq (take 3 (drop 10 i.channel_id)) (codes "132")
          || text_eq (take 3 (drop 10 i.channel_id)) (codes "131")))

module _ {L : Type 0} where
  stop_media_server-devices :
      (d : Device) (c : Channel) (s : Server L) → (stop_media_server d c s).devices ≡ s.devices
  unfolding stop_media_server
  stop_media_server-devices d c s = elim (Option-cases c.play_info) [
    | inl idle ↦ rw (stop_media_server, idle) refl
    | inr (p, playing) ↦
        rw (stop_media_server, playing)
          (on_stop_media_server-IsStop p.net_work p.single_port d.id c.channel_info.channel_id
            p.stream_name s).devices
  ]

  -- On a channel that is stored, is in a call and is marked as invited, Bye succeeds and leaves it
  -- without a call, and all else of it as it was. Called again it fails, and the channel cannot be
  -- invited.
  pub bye_twice :
      (did cid : Text) (d : Device) (c : Channel) (a : Ack) (s : Server L)
      → find_channel did cid s ≡ some (d, c)
      → c.ack_req ≡ some a
      → c.channel_info.media_info.is_invite ≡ true
      → let r = bye did cid d c s in
        (r.0 ≡ true)
        × (find_channel did cid r.1 ≡ some (device_after cid d, hung_up c))
        × ((bye did cid (device_after cid d) (hung_up c) r.1).0 ≡ false)
        × (can_invite (hung_up c) ≡ false)
  unfolding bye can_invite emit
  bye_twice did cid d c a s found called invited =
      let s1 = adjust_channel did cid hung_up s in
      let r = record a.request { method = Method.bye; seq_no = u32 (a.request.seq_no + 1) } in
      let s2 = emit (send d.sip_svr r) s1 in
      let same : (stop_media_server d c s2).devices ≡ s2.devices =
        stop_media_server-devices d c s2 in
      let holds : Holds did cid (device_after cid d) (hung_up c) (stop_media_server d c s2) =
        same_devices-Holds did cid (device_after cid d) (hung_up c) s1 (stop_media_server d c s2)
          same
          (adjust_channel-Holds did cid hung_up d c s (find_channel-Holds did cid d c s found)) in
      let first : bye did cid d c s ≡ (true, stop_media_server d c s2) = rw (bye, called) refl in
      let second : (bye did cid (device_after cid d) (hung_up c) (bye did cid d c s).1).0 ≡ false =
        refl in
      rw first (
        refl,
        Holds-find_channel did cid (device_after cid d) (hung_up c) (stop_media_server d c s2)
            holds,
        second,
        invited_cannot (hung_up c) invited,
      )
