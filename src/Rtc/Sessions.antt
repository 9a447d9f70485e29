-- ===== src/Rtc/Sessions.antt =====
-- rtc/whepsession.go and rtc/jessibucasession.go: which messages a session takes, and how it sends
-- them. The tracks, the data channel and the packers are libraries'; an unbounded channel is a list.
use lalmax.Base.{
  ℕ, zero, suc, Bool, true, false, List, [], ◌∷◌, ◌++◌, Option, none, some, ltb, if◌then◌else◌,
  length, take, drop,
}
use lalmax.Hook.Rtmp.{MsgType}
use lalmax.Fmp4.Message.{Message}

-- A WHEP session; `video` and `audio` are what has been written to its tracks, `none` for no track.
pub record WhepSession (P M : Type 0) : Type 0 where
  pub video : Option (List P)
  pub audio : Option (List P)
  pub msg_chan : List M
  pub closed : Bool

unfoldable pub has_track : {A : Type 0} → Option A → Bool
has_track none = false
has_track (some a) = true

unfoldable pub write_rtp : {P : Type 0} → Option (List P) → Option (List P) → Option (List P)
write_rtp none pkts = none
write_rtp (some sent) none = some sent
write_rtp (some sent) (some pkts) = some (sent ++ pkts)

module _ {P M : Type 0} (i : Message M) where
  unfoldable pub put_msg : M → WhepSession P M → WhepSession P M
  put_msg m s = record s { msg_chan = s.msg_chan ++ (m ∷ []) }

  unfoldable pub whep_on_msg : M → WhepSession P M → WhepSession P M
  unfolding has_track put_msg
  whep_on_msg m s = elim (i.msg_type m) [
    | MsgType.audio ↦ if has_track s.audio then put_msg m s else s
    | MsgType.video ↦
        if i.is_video_key_seq_header m then s else if has_track s.video then put_msg m s else s
    | _ ↦ s
  ]

  -- The packers give packets, or `none` for an error or where there is no packer.
  unfoldable pub send :
      (M → Option (List P)) → (M → Option (List P)) → M → WhepSession P M → WhepSession P M
  unfolding write_rtp
  send encode_video encode_audio m s = elim (i.msg_type m) [
    | MsgType.audio ↦ record s { audio = write_rtp s.audio (encode_audio m) }
    | MsgType.video ↦ record s { video = write_rtp s.video (encode_video m) }
    | _ ↦ s
  ]

  -- A round of Run that receives from the channel of messages.
  unfoldable pub take_msg :
      (M → Option (List P)) → (M → Option (List P)) → List M → WhepSession P M → WhepSession P M
  unfolding send
  take_msg encode_video encode_audio [] s = s
  take_msg encode_video encode_audio (m ∷ rest) s =
      send encode_video encode_audio m (record s { msg_chan = rest })

module _ {M : Type 0} (i : Message M) where
  -- A session of Jessibuca takes audio and video while its data channel is there.
  unfoldable pub jessibuca_on_msg : Bool → M → List M → List M
  jessibuca_on_msg has_dc m chan = elim (i.msg_type m) [
    | MsgType.audio ↦ if has_dc then chan ++ (m ∷ []) else chan
    | MsgType.video ↦ if has_dc then chan ++ (m ∷ []) else chan
    | _ ↦ chan
  ]

-- The loop of chunkSlice; a chunk has a byte or more, so that the slice's length is fuel enough.
unfoldable pub chunk_loop : ℕ → ℕ → List ℕ → List (List ℕ)
chunk_loop size zero slice = []
chunk_loop size (suc fuel) slice =
    let later = chunk_loop size fuel (drop size slice) in
    if ltb 0 (length slice) then take size slice ∷ later else []

unfoldable pub chunk_slice : List ℕ → ℕ → List (List ℕ)
unfolding chunk_loop
chunk_slice slice size = chunk_loop size (length slice) slice
