-- ===== src/Srt/Subscriber.antt =====
-- srt/sub.go: what a subscriber's muxer is given, and how its packets are sent. The FLV demuxers and
-- the muxer are libraries': a demuxer gives frames for the payloads that it has been given so far, and
-- the writes of the muxer are a list, oldest first.
use lalmax.Base.{
  ℕ, ◌+◌, ◌-◌, ◌*◌, Bool, true, false, List, [], ◌∷◌, ◌++◌, Option, none, some, ltb, if◌then◌else◌,
  length,
}
use lalmax.Hook.Rtmp.{MsgType}
use lalmax.Fmp4.Message.{Message}
use lalmax.Srt.Publisher.{StreamType}

-- An elementary stream's frame, with its two times.
pub record Write : Type 0 where
  pub stream : StreamType
  pub frame : List ℕ
  pub pts : ℕ
  pub dts : ℕ

-- Video frames come with a composition time; false is an error.
pub record Demuxers : Type 0 where
  pub decode_video : List (List ℕ) → List (List ℕ × ℕ) × Bool
  pub decode_audio : List (List ℕ) → List (List ℕ) × Bool

-- A demuxer that there is has the payloads that it was given.
pub record Subscriber : Type 0 where
  pub has_init : Bool
  pub streams : List StreamType
  pub video_stream : StreamType
  pub video_demuxer : Option (List (List ℕ))
  pub audio_demuxer : Option (List (List ℕ))
  pub videodts : ℕ
  pub audiodts : ℕ
  pub writes : List Write

unfoldable pub write_video : List (List ℕ × ℕ) → Subscriber → Subscriber
write_video [] s = s
write_video ((b, cts) ∷ rest) s = write_video rest (record s {
  writes =
      s.writes
      ++ (record { stream = s.video_stream; frame = b; pts = s.videodts + cts; dts = s.videodts }
          ∷ []);
})

unfoldable pub write_audio : List (List ℕ) → Subscriber → Subscriber
write_audio [] s = s
write_audio (b ∷ rest) s = write_audio rest (record s {
  writes =
      s.writes
      ++ (record { stream = StreamType.aac; frame = b; pts = s.audiodts; dts = s.audiodts } ∷ []);
})

module _ (lib : Demuxers) where
  -- Decode, with the frames that it gives; false is an error. Without a demuxer nothing is done.
  unfoldable pub decode_video : List ℕ → Subscriber → Bool × Subscriber
  unfolding write_video
  decode_video payload s = elim s.video_demuxer [
    | none ↦ (true, s)
    | some given ↦
        let all = given ++ (payload ∷ []) in
        let r = lib.decode_video all in
        (r.1, write_video r.0 (record s { video_demuxer = some all }))
  ]

  unfoldable pub decode_audio : List ℕ → Subscriber → Bool × Subscriber
  unfolding write_audio
  decode_audio payload s = elim s.audio_demuxer [
    | none ↦ (true, s)
    | some given ↦
        let all = given ++ (payload ∷ []) in
        let r = lib.decode_audio all in
        (r.1, write_audio r.0 (record s { audio_demuxer = some all }))
  ]

  module _ {M : Type 0} (i : Message M) where
    -- The video header of the stream's session, if there is one; false where OnMsg returns.
    unfoldable pub init_video : Option M → Subscriber → Bool × Subscriber
    unfolding decode_video
    init_video none s = (true, s)
    init_video (some h) s =
        let stream : StreamType =
          if i.is_avc_key_seq_header h then StreamType.h264 else StreamType.h265 in
        decode_video (i.payload h) (record s {
          streams = s.streams ++ (stream ∷ []);
          video_stream = stream;
          video_demuxer = some [];
        })

    unfoldable pub init_audio : Option M → Subscriber → Bool × Subscriber
    unfolding decode_audio
    init_audio none s = (true, s)
    init_audio (some h) s =
        if i.is_aac_seq_header h
        then decode_audio (i.payload h)
            (record s { streams = s.streams ++ (StreamType.aac ∷ []); audio_demuxer = some [] })
        else (false, s)

    -- `headers` are the session's two, or `none` where there is no session.
    unfoldable pub init : Option (Option M × Option M) → Subscriber → Bool × Subscriber
    unfolding init_video init_audio
    init none s = (true, record s { has_init = true })
    init (some headers) s =
        let v = init_video headers.0 s in
        let a = init_audio headers.1 v.1 in
        if v.0 then (if a.0 then (true, record a.1 { has_init = true }) else a) else v

    unfoldable pub feed : M → Subscriber → Subscriber
    unfolding decode_video decode_audio
    feed m s = elim (i.msg_type m) [
      | MsgType.video ↦ (decode_video (i.payload m) (record s { videodts = i.dts m })).1
      | _ ↦ (decode_audio (i.payload m) (record s { audiodts = i.dts m })).1
    ]

    unfoldable pub on_msg : Option (Option M × Option M) → M → Subscriber → Subscriber
    unfolding init feed
    on_msg headers m s =
        if s.has_init then feed m s else (let r = init headers s in if r.0 then feed m r.1 else r.1)

abbrev pub ts_packet_size : ℕ
ts_packet_size = 188

-- The buffer of a subscriber's packets, and what has been written to the connection.
pub record SendBuffer : Type 0 where
  pub max_send_packet_size : ℕ
  pub send_buf : List ℕ
  pub written : List (List ℕ)

-- OnPacket of the muxer, while the connection takes what is written.
unfoldable pub on_packet : List ℕ → SendBuffer → SendBuffer
on_packet ts_packet b =
    if ltb ((b.max_send_packet_size - 1) * ts_packet_size) (length b.send_buf)
    then record b { written = b.written ++ (b.send_buf ∷ []); send_buf = ts_packet }
    else record b { send_buf = b.send_buf ++ ts_packet }
