-- ===== src/Srt/Publisher.antt =====
-- srt/pub.go: what a publisher feeds to lal of the frames of a transport stream. The demuxer, the
-- conversion of an ADTS header and its length are libraries'.
pub mod Frames
use lalmax.Base.{
  ℕ, zero, suc, ◌+◌, ◌*◌, ◌/◌, Bool, true, false, List, [], ◌∷◌, ◌++◌, Option, none, some, ltb, leb,
  ◌==◌, ◌&&◌, ◌||◌, not, if◌then◌else◌, length, drop, take, u64,
}
use lalmax.Base.Outcome.{Outcome, ok, panic, stuck, then_outcome}

pub data StreamType : Type 0 where
  aac h264 h265 other : StreamType

pub record AvPacket : Type 0 where
  pub payload_type : StreamType
  pub timestamp : ℕ
  pub pts : ℕ
  pub payload : List ℕ

-- What lal's session is fed.
pub data Fed : Type 0 where
  specific_config : List ℕ → Fed
  packet : AvPacket → Fed

pub record Publisher : Type 0 where
  pub found_audio : Bool
  pub audio_sample_rate : ℕ
  pub fed : List Fed

-- codec.ConvertADTSToASC with the sample rate of its index, and the length that
-- AdtsHeaderContext.Unpack reads.
pub record Adts : Type 0 where
  pub convert_to_asc : List ℕ → Option (List ℕ × ℕ)
  pub adts_length : List ℕ → ℕ

abbrev pub adts_header_length : ℕ
adts_header_length = 7

-- The time stamp of the next AAC frame; 0 stands for none so far.
unfoldable pub next_dts : ℕ → ℕ → ℕ → ℕ
next_dts rate dts pre = if pre == 0 then dts else u64 (pre + 1024000 / rate)

unfoldable pub aac_packet : ℕ → List ℕ → AvPacket
aac_packet t body = record { payload_type = StreamType.aac; timestamp = t; pts = t; payload = body }

-- What a round of the loop has behind it: the packet of a whole frame, before the later ones.
unfoldable pub put_packet : Bool → AvPacket → Outcome (List AvPacket) → Outcome (List AvPacket)
put_packet whole p later = then_outcome later (λ ps. ok (if whole then p ∷ ps else ps))

module _ (lib : Adts) where
  -- The loop over the ADTS frames: a division by a rate of 0 and a length below the header's panic.
  unfoldable pub adts_loop : ℕ → ℕ → ℕ → ℕ → List ℕ → Outcome (List AvPacket)
  unfolding next_dts aac_packet put_packet
  adts_loop zero rate dts pre frame = stuck
  adts_loop (suc fuel) rate dts pre frame =
      let t = next_dts rate dts pre in
      let n = lib.adts_length frame in
      let whole = leb n (length frame) in
      let later = adts_loop fuel rate dts t (if whole then drop n frame else frame) in
      if ltb adts_header_length (length frame)
      then (if (not (pre == 0) && rate == 0) || (whole && ltb n adts_header_length)
          then panic
          else put_packet whole (aac_packet t (drop adts_header_length (take n frame))) later)
      else ok []

  unfoldable pub feed_packets : List AvPacket → Publisher → Publisher
  feed_packets [] p = p
  feed_packets (a ∷ rest) p = feed_packets rest (record p { fed = p.fed ++ (packet a ∷ []) })

  -- The first AAC frame gives the configuration and the rate; `none` where it cannot be converted.
  unfoldable pub find_audio : List ℕ → Publisher → Option Publisher
  find_audio frame p = if p.found_audio then some p else elim (lib.convert_to_asc frame) [
    | none ↦ none
    | some (asc, rate) ↦ some (record {
      found_audio = true;
      audio_sample_rate = rate;
      fed = p.fed ++ (specific_config asc ∷ []);
    })
  ]

  unfoldable pub on_aac : ℕ → ℕ → List ℕ → Publisher → Outcome Publisher
  unfolding find_audio adts_loop feed_packets
  on_aac fuel dts frame p = elim (find_audio frame p) [
    | none ↦ ok p
    | some q ↦
        then_outcome (adts_loop fuel q.audio_sample_rate dts 0 frame) (λ ps. ok (feed_packets ps q))
  ]

  unfoldable pub feed_video : StreamType → ℕ → ℕ → List ℕ → Publisher → Publisher
  feed_video cid pts dts frame p = record p {
    fed =
        p.fed
        ++ (packet (record { payload_type = cid; timestamp = dts; pts = pts; payload = frame })
            ∷ []);
  }

  unfoldable pub on_frame : ℕ → StreamType → ℕ → ℕ → List ℕ → Publisher → Outcome Publisher
  unfolding on_aac feed_video
  on_frame fuel StreamType.aac pts dts frame p = on_aac fuel dts frame p
  on_frame fuel StreamType.h264 pts dts frame p = ok (feed_video StreamType.h264 pts dts frame p)
  on_frame fuel StreamType.h265 pts dts frame p = ok (feed_video StreamType.h265 pts dts frame p)
  on_frame fuel StreamType.other pts dts frame p = ok p
