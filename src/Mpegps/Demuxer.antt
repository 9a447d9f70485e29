-- ===== src/Mpegps/Demuxer.antt =====
-- gb28181/mpegps/ps_demuxer.go: the streams of a PsDemuxer, and what it does with a PES packet.
-- The calls of OnFrame are a list in the state, oldest first; OnPacket, for debugging, is nil.
pub mod Input
pub mod Nalus
pub mod ProgramEnd
use lalmax.Base.{
  ℕ, zero, suc, ◌+◌, ◌-◌, ◌/◌, bit_and, Bool, true, false, List, [], ◌∷◌, ◌++◌, Option, none, some,
  length, take, drop, ltb, ◌==◌, ◌&&◌, ◌||◌, not, if◌then◌else◌,
}
use lalmax.Base.Outcome.{Outcome, ok, stuck, then_outcome}
use lalmax.Mpegps.Nalu.{NaluTypes}
use lalmax.Mpegps.StartCode.{find_start_code, h264_nalu_type, h265_nalu_type}
use lalmax.Mpegps.Verify.{
  Codec, ps_stream_unknow, ps_stream_aac, ps_stream_h264, ps_stream_h265, ps_stream_g711a,
  ps_stream_g711u, mpeg_h26x_verify, audio_verify,
}
use lalmax.Mpegps.Proto.PackHeader.{PsPackHeader}
use lalmax.Mpegps.Proto.SystemHeader.{SystemHeader}
use lalmax.Mpegps.Proto.StreamMap.{ProgramStreamMap, ElementaryStreamElem}
use lalmax.Mpegps.Proto.Directory.{ProgramStreamDirectory, CommonPesPacket}
use lalmax.Mpegps.Proto.Pes.{PesPacket, pes_stream_audio, pes_stream_video}

pub record PsStream : Type 0 where
  pub sid : ℕ
  pub cid : ℕ
  pub pts : ℕ
  pub dts : ℕ
  pub stream_buf : List ℕ

unfoldable pub new_ps_stream : ℕ → ℕ → PsStream
new_ps_stream sid cid = record { sid = sid; cid = cid; pts = 0; dts = 0; stream_buf = [] }

pub record PsPacket : Type 0 where
  pub header : Option PsPackHeader
  pub system : Option SystemHeader
  pub psm : Option ProgramStreamMap
  pub psd : Option ProgramStreamDirectory
  pub comm_pes : Option CommonPesPacket
  pub pes : Option PesPacket

pub record Frame : Type 0 where
  pub payload : List ℕ
  pub cid : ℕ
  pub pts : ℕ
  pub dts : ℕ

-- `stream_map` is keyed by the `sid` of its entries.
pub record PsDemuxer : Type 0 where
  pub stream_map : List PsStream
  pub pkg : PsPacket
  pub mpeg1 : Bool
  pub cache : List ℕ
  pub verify_buf : List ℕ
  pub frames : List Frame

unfoldable pub new_ps_demuxer : PsDemuxer
new_ps_demuxer = record {
  stream_map = [];
  pkg = record {
    header = none;
    system = none;
    psm = none;
    psd = none;
    comm_pes = none;
    pes = none;
  };
  mpeg1 = false;
  cache = [];
  verify_buf = [];
  frames = [];
}

unfoldable pub find_stream : ℕ → List PsStream → Option PsStream
find_stream sid [] = none
find_stream sid (s ∷ rest) = if s.sid == sid then some s else find_stream sid rest

unfoldable pub store_stream : PsStream → List PsStream → List PsStream
store_stream s [] = s ∷ []
store_stream s (t ∷ rest) = if t.sid == s.sid then s ∷ rest else t ∷ store_stream s rest

unfoldable pub put_stream : PsStream → PsDemuxer → PsDemuxer
unfolding store_stream
put_stream s d = record d { stream_map = store_stream s d.stream_map }

unfoldable pub emit : List ℕ → ℕ → ℕ → ℕ → PsDemuxer → PsDemuxer
emit payload cid pts dts d = record d {
  frames =
      d.frames ++ (record { payload = payload; cid = cid; pts = pts / 90; dts = dts / 90 } ∷ []);
}

-- A stream map's entries are added, or change the codec of a stream that is there.
unfoldable pub learn_streams : List ElementaryStreamElem → PsDemuxer → PsDemuxer
unfolding find_stream put_stream new_ps_stream
learn_streams [] d = d
learn_streams (e ∷ rest) d =
    let known : PsStream = elim (find_stream e.elementary_stream_id d.stream_map) [
      | none ↦ new_ps_stream e.elementary_stream_id e.stream_type
      | some s ↦ record s { cid = e.stream_type }
    ] in
    learn_streams rest (put_stream known d)

-- Every stream with a buffer is handed over. Go visits its map in no fixed order.
unfoldable pub flush_streams : List PsStream → PsDemuxer → PsDemuxer
unfolding emit
flush_streams [] d = d
flush_streams (s ∷ rest) d =
    flush_streams rest
      (if length s.stream_buf == 0 then d else emit s.stream_buf s.cid s.pts s.dts d)

unfoldable pub flush : PsDemuxer → PsDemuxer
unfolding flush_streams
flush d = flush_streams d.stream_map d

unfoldable pub guess_codecid : PsStream → PesPacket → Outcome PsStream
unfolding audio_verify mpeg_h26x_verify
guess_codecid s pes =
    if bit_and s.sid 0xE0 == pes_stream_audio
    then then_outcome (audio_verify pes.pes_payload) (λ t. ok (record s { cid = t }))
    else if bit_and s.sid 0xE0 == pes_stream_video
    then elim (mpeg_h26x_verify s.stream_buf) [
      | Codec.h264 ↦ ok (record s { cid = ps_stream_h264 })
      | Codec.h265 ↦ ok (record s { cid = ps_stream_h265 })
      | _ ↦ ok s
    ]
    else ok s

unfoldable pub append_payload : PsStream → PesPacket → PsStream
append_payload s pes = record s { stream_buf = s.stream_buf ++ pes.pes_payload }

-- The stream starts again with the packet's payload and stamps.
unfoldable pub restart : PsStream → PesPacket → PsStream
restart s pes = record s { stream_buf = pes.pes_payload; pts = pes.pts; dts = pes.dts }

-- A stream of unknown codec keeps the payloads of its last time stamp.
unfoldable pub keep_unknown : PsStream → PesPacket → PsStream
unfolding append_payload
keep_unknown s pes =
    record (append_payload (if s.pts == pes.pts then s else record s { stream_buf = [] }) pes) {
      pts = pes.pts;
      dts = pes.dts;
    }

module _ (lal : NaluTypes) where
  -- Whether the NALU at the head of a buffer is an access unit delimiter.
  unfoldable pub is_aud : ℕ → List ℕ → Outcome Bool
  unfolding h264_nalu_type h265_nalu_type
  is_aud cid buf =
      if cid == ps_stream_h264
      then then_outcome (h264_nalu_type buf) (λ t. ok (t == lal.avc_aud))
      else then_outcome (h265_nalu_type buf) (λ t. ok (t == lal.hevc_aud))

  -- The loop of `demuxH26x` over the NALUs of the buffer, at a start code of `sc` bytes at `start`.
  -- Each round moves to a later start code, so the bytes of the buffer are fuel enough.
  unfoldable pub emit_nalus : ℕ → PsStream → ℕ → ℕ → PsDemuxer → Outcome PsDemuxer
  unfolding find_start_code is_aud emit
  emit_nalus zero s start sc d = stuck
  emit_nalus (suc fuel) s start sc d = elim (ltb start (length s.stream_buf)) [
    | false ↦ ok d
    | true ↦ then_outcome (find_start_code s.stream_buf (start + sc)) (λ next.
        let end : ℕ = elim next.0 [ some e ↦ e | none ↦ length s.stream_buf ] in
        then_outcome (is_aud s.cid (drop start s.stream_buf)) (λ aud.
          let nalu = take (end - start) (drop start s.stream_buf) in
          emit_nalus fuel s end next.1 (if aud then d else emit nalu s.cid s.pts s.dts d)))
  ]

  unfoldable pub demux_h26x : PsStream → PesPacket → PsDemuxer → Outcome PsDemuxer
  unfolding append_payload restart put_stream find_start_code emit_nalus
  demux_h26x s pes d =
      if s.pts == 0
      then ok (put_stream (record (append_payload s pes) { pts = pes.pts; dts = pes.dts }) d)
      else if s.pts == pes.pts || pes.pts == 0
      then ok (put_stream (append_payload s pes) d)
      else then_outcome (find_start_code s.stream_buf 0) (λ first.
        then_outcome
          (elim first.0 [
            | none ↦ ok d
            | some start ↦ emit_nalus (length s.stream_buf + 1) s start first.1 d
          ])
          (λ d'. ok (put_stream (restart s pes) d')))

  unfoldable pub demux_pespacket : PsStream → PesPacket → PsDemuxer → Outcome PsDemuxer
  unfolding emit demux_h26x keep_unknown put_stream
  demux_pespacket s pes d =
      if s.cid == ps_stream_aac || s.cid == ps_stream_g711a || s.cid == ps_stream_g711u
      then ok (emit pes.pes_payload s.cid pes.pts pes.dts (put_stream s d))
      else if s.cid == ps_stream_h264 || s.cid == ps_stream_h265
      then demux_h26x s pes d
      else if s.cid == ps_stream_unknow
      then ok (put_stream (keep_unknown s pes) d)
      else ok (put_stream s d)
