-- ===== src/Mpegps/Muxer.antt =====
-- gb28181/mpegps/ps_muxer.go: PsMuxer. The calls of OnPacket are a list in the state, oldest first.
use lalmax.Base.{
  ℕ, zero, suc, ◌+◌, ◌-◌, ◌*◌, ◌%◌, ◌^◌, Bool, true, false, List, [], ◌∷◌, ◌++◌, Option, none, some,
  length, take, drop, leb, ◌==◌, ◌&&◌, ◌||◌, not, if◌then◌else◌, u8, u16, u64,
}
use lalmax.Base.Outcome.{Outcome, ok, panic, stuck, then_outcome, Stateful, ◌>>=◌, ◌>>◌, return}
use lalmax.Mpegps.Error.{Error, not_found}
use lalmax.Mpegps.Nalu.{NaluTypes}
use lalmax.Mpegps.StartCode.{split_frame}
use lalmax.Mpegps.Verify.{ps_stream_h264, ps_stream_h265}
use lalmax.Mpegps.BitStreamWriter.{BitStreamWriter, new_bit_stream_writer, written, reset}
use lalmax.Mpegps.Proto.PackHeader
use lalmax.Mpegps.Proto.PackHeader.{new_pack_header}
use lalmax.Mpegps.Proto.SystemHeader
use lalmax.Mpegps.Proto.SystemHeader.{
  SystemHeader, ElementaryStream, new_elementary_stream, new_system_header,
}
use lalmax.Mpegps.Proto.StreamMap
use lalmax.Mpegps.Proto.StreamMap.{
  ProgramStreamMap, ElementaryStreamElem, new_elementary_stream_elem, new_stream_map,
}
use lalmax.Mpegps.Proto.Pes.{PesPacket, new_pes_packet, pes_stream_audio, pes_stream_video}
use lalmax.Mpegps.Proto.Pes.Encode

abbrev h264_aud_nalu : List ℕ
h264_aud_nalu = 0x00 ∷ 0x00 ∷ 0x00 ∷ 0x01 ∷ 0x09 ∷ 0xF0 ∷ []

abbrev h265_aud_nalu : List ℕ
h265_aud_nalu = 0x00 ∷ 0x00 ∷ 0x00 ∷ 0x01 ∷ 0x46 ∷ 0x01 ∷ 0x50 ∷ []

pub record PsMuxer : Type 0 where
  pub system : SystemHeader
  pub psm : ProgramStreamMap
  pub firstframe : Bool
  pub packets : List (List ℕ × ℕ)

unfoldable pub new_ps_muxer : PsMuxer
new_ps_muxer = record {
  system = record new_system_header { rate_bound = 26234 };
  psm = record new_stream_map { current_next_indicator = 1; program_stream_map_version = 1 };
  firstframe = true;
  packets = [];
}

-- The changes that both branches of AddStream make, given the stream that they add.
unfoldable pub append_stream : ElementaryStream → ℕ → PsMuxer → PsMuxer
unfolding new_elementary_stream_elem
append_stream es cid m = record m {
  system = record (m.system) { streams = m.system.streams ++ (es ∷ []) };
  psm = record (m.psm) {
    stream_map = m.psm.stream_map ++ (new_elementary_stream_elem (u8 cid) es.stream_id ∷ []);
    program_stream_map_version = u8 (m.psm.program_stream_map_version + 1);
  };
}

unfoldable pub add_stream : ℕ → PsMuxer → ℕ × PsMuxer
unfolding new_elementary_stream append_stream
add_stream cid m =
    let video = record (new_elementary_stream (u8 (pes_stream_video + m.system.video_bound))) {
      p_std_buffer_bound_scale = 1;
      p_std_buffer_size_bound = 400;
    } in
    let audio = record (new_elementary_stream (u8 (pes_stream_audio + m.system.audio_bound))) {
      p_std_buffer_bound_scale = 0;
      p_std_buffer_size_bound = 32;
    } in
    let count_video = record m {
      system = record (m.system) { video_bound = u8 (m.system.video_bound + 1) };
    } in
    let count_audio = record m {
      system = record (m.system) { audio_bound = u8 (m.system.audio_bound + 1) };
    } in
    if cid == ps_stream_h265 || cid == ps_stream_h264
    then (video.stream_id, append_stream video cid count_video)
    else (audio.stream_id, append_stream audio cid count_audio)

unfoldable pub find_elem : ℕ → List ElementaryStreamElem → Option ElementaryStreamElem
find_elem sid [] = none
find_elem sid (e ∷ rest) = if e.elementary_stream_id == sid then some e else find_elem sid rest

-- What the scan of a frame's NALUs finds out.
pub record Scan : Type 0 where
  pub withaud : Bool
  pub idr_flag : Bool
  pub vcl : Bool

-- The callback for H.264 and for H.265, at a NALU's type: whether to go on.
unfoldable pub scan_avc : NaluTypes → ℕ → Scan → Bool × Scan
scan_avc lal t s =
    if t == lal.avc_aud
    then (false, record s { withaud = true })
    else if leb lal.avc_slice t && leb t lal.avc_idr_slice
    then (false, record s { idr_flag = s.idr_flag || t == lal.avc_idr_slice; vcl = true })
    else (true, s)

unfoldable pub scan_hevc : NaluTypes → ℕ → Scan → Bool × Scan
scan_hevc lal t s =
    let irap = leb lal.hevc_slice_bla_wlp t && leb t lal.hevc_slice_rsv_irap_vcl23 in
    if t == lal.hevc_aud
    then (false, record s { withaud = true })
    else if irap || leb lal.hevc_slice_trail_n t && leb t lal.hevc_slice_rasl_r
    then (false, record s { idr_flag = s.idr_flag || irap; vcl = true })
    else (true, s)

-- `nalu[0]` of an empty NALU panics.
unfoldable pub scan_nalu : NaluTypes → ℕ → List ℕ → Scan → Outcome (Bool × Scan)
unfolding scan_avc scan_hevc
scan_nalu lal stype [] s = panic
scan_nalu lal stype (b ∷ rest) s = ok (
    if stype == ps_stream_h264
    then scan_avc lal (lal.parse_avc b) s
    else scan_hevc lal (lal.parse_hevc b) s)

unfoldable pub scan_frame : NaluTypes → ℕ → List ℕ → Outcome Scan
unfolding split_frame scan_nalu
scan_frame lal stype frame =
    let start : Scan = record { withaud = false; idr_flag = false; vcl = false } in
    if stype == ps_stream_h264 || stype == ps_stream_h265
    then split_frame (scan_nalu lal stype) frame start
    else ok start

-- The access unit delimiter that goes before the first part of a frame.
unfoldable pub aud_of : ℕ → List ℕ
aud_of stype =
    if stype == ps_stream_h264
    then h264_aud_nalu
    else if stype == ps_stream_h265
    then h265_aud_nalu
    else []

unfoldable pub write_headers : Bool → ℕ → PsMuxer → Stateful BitStreamWriter PsMuxer
unfolding PackHeader.encode SystemHeader.encode StreamMap.encode
write_headers with_maps dts m = do
  PackHeader.encode (record new_pack_header {
    system_clock_reference_base = (dts + 2 ^ 64 - 3600) % 2 ^ 64;
    program_mux_rate = 6106;
  })
  if with_maps
      then (do
        SystemHeader.encode m.system
        psm' ← StreamMap.encode m.psm
        return (record m { psm = psm'; firstframe = false }))
      else return m

-- How many bytes of the frame go into the next packet behind a header of `peshdrlen` bytes, and the
-- PES_packet_length that goes with them.
unfoldable pub part_len : ℕ → ℕ → ℕ × ℕ
part_len peshdrlen frame_len =
    if leb 0xFFFF (peshdrlen + frame_len)
    then (0xFFFF - peshdrlen, 0xFFFF)
    else (frame_len, u16 (peshdrlen + frame_len))

module _ (sid stype pts dts : ℕ) (scan : Scan) where
  -- The packet of one round, which keeps the fields that an earlier round has set.
  unfoldable pub pes_of : Bool → List ℕ → PesPacket → PesPacket
  unfolding aud_of part_len
  pes_of first frame pkg =
      let aud = if first && not scan.withaud && scan.vcl then aud_of stype else [] in
      let part = part_len (13 + length aud) (length frame) in
      record pkg {
        stream_id = sid;
        pts_dts_flags = 0x03;
        pes_header_data_length = 10;
        pts = pts;
        dts = dts;
        data_alignment_indicator = if scan.idr_flag then 1 else pkg.data_alignment_indicator;
        pes_packet_length = part.1;
        pes_payload = aud ++ take part.0 frame;
      }

  -- The bytes of the frame that a round leaves.
  unfoldable pub rest_of : Bool → List ℕ → List ℕ
  unfolding aud_of part_len
  rest_of first frame =
      let aud = if first && not scan.withaud && scan.vcl then aud_of stype else [] in
      drop (part_len (13 + length aud) (length frame)).0 frame

  -- The loop over the parts of a frame; each round takes a byte at least, so the bytes of the frame
  -- are fuel enough.
  unfoldable pub write_parts :
      ℕ → Bool → List ℕ → PesPacket → BitStreamWriter → PsMuxer → Outcome PsMuxer
  unfolding pes_of rest_of Encode.encode written reset
  write_parts fuel first [] pkg w m = ok m
  write_parts zero first (b ∷ frame) pkg w m = stuck
  write_parts (suc fuel) first (b ∷ frame) pkg w m =
      let pkg' = pes_of first (b ∷ frame) pkg in
      then_outcome (Encode.encode pkg' w) (λ r.
        write_parts fuel false (rest_of first (b ∷ frame)) pkg' (reset r.1)
          (record m { packets = m.packets ++ ((written r.1, pts) ∷ []) }))

unfoldable pub write_frame : NaluTypes → ℕ → ℕ → List ℕ → ℕ → ℕ → PsMuxer → Outcome PsMuxer
unfolding scan_frame write_headers write_parts new_bit_stream_writer new_pes_packet
write_frame lal sid stype frame pts dts m = then_outcome (scan_frame lal stype frame) (λ scan.
    then_outcome
      (write_headers (m.firstframe || scan.idr_flag) (u64 (dts * 90)) m
        (new_bit_stream_writer 1024))
      (λ r.
        write_parts sid stype (u64 (pts * 90)) (u64 (dts * 90)) scan (length frame + 1) true frame
          new_pes_packet r.1 r.0))

unfoldable pub write : NaluTypes → ℕ → List ℕ → ℕ → ℕ → PsMuxer → Outcome (Option Error × PsMuxer)
unfolding find_elem write_frame
write lal sid frame pts dts m = elim (find_elem sid m.psm.stream_map) [
  | none ↦ ok (some not_found, m)
  | some e ↦
      if length frame == 0
      then ok (none, m)
      else then_outcome (write_frame lal sid e.stream_type frame pts dts m) (λ m'. ok (none, m'))
]
