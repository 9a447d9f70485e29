-- ===== src/Mpegps/Demuxer/Input.antt =====
-- gb28181/mpegps/ps_demuxer.go: PsDemuxer.Input, the loop over the packets of a buffer.
use lalmax.Base.{
  ℕ, zero, suc, bit_and, Bool, true, false, List, [], ◌++◌, Option, none, some, length, take, drop,
  ltb, leb, ◌==◌, ◌&&◌, ◌||◌, if◌then◌else◌,
}
use lalmax.Base.Int.{pos, negsuc, less}
use lalmax.Base.Outcome.{Outcome, ok, panic, stuck, then_outcome}
use lalmax.Mpegps.Error.{Error, need_more, header_missing, is_mpeg_error, is_need_more}
use lalmax.Mpegps.BitStream.{
  BitStream, new_bit_stream, skip_bits, next_bits, remain_bytes, remain_bits, eos,
}
use lalmax.Mpegps.Nalu.{NaluTypes}
use lalmax.Mpegps.Verify.{
  Codec, ps_stream_unknow, ps_stream_h264, ps_stream_h265, mpeg_h26x_verify, audio_verify,
}
use lalmax.Mpegps.Proto.PackHeader.{PsPackHeader, new_pack_header}
use lalmax.Mpegps.Proto.PackHeader
use lalmax.Mpegps.Proto.SystemHeader.{new_system_header}
use lalmax.Mpegps.Proto.SystemHeader
use lalmax.Mpegps.Proto.StreamMap.{ProgramStreamMap, new_stream_map}
use lalmax.Mpegps.Proto.StreamMap
use lalmax.Mpegps.Proto.Directory.{decode_directory, decode_common_pes}
use lalmax.Mpegps.Proto.Pes.{PesPacket, new_pes_packet, pes_stream_audio, pes_stream_video}
use lalmax.Mpegps.Proto.Pes.Decode
use lalmax.Mpegps.Proto.Pes.Mpeg1.{decode_mpeg1}
use lalmax.Mpegps.Demuxer.{
  PsDemuxer, new_ps_stream, find_stream, put_stream, learn_streams, guess_codecid, demux_pespacket,
  append_payload,
}

-- A `new(T)` where the pointer is still nil.
abbrev or_new : {A : Type 0} → A → Option A → A
or_new d none = d
or_new d (some a) = a

-- What an iteration of the loop comes to: the loop goes on, or `Input` returns an error at once.
pub data Turn : Type 0 where
  goes_on : Option Error → BitStream → PsDemuxer → Turn
  returns : Error → PsDemuxer → Turn

unfoldable pub on_pack_header : BitStream → PsDemuxer → Outcome Turn
unfolding PackHeader.decode
on_pack_header bs d =
    then_outcome (PackHeader.decode (or_new new_pack_header d.pkg.header) bs) (λ r. ok (
      goes_on r.0.1 r.1
        (record d { pkg = record (d.pkg) { header = some r.0.0 }; mpeg1 = r.0.0.is_mpeg1 })))

unfoldable pub on_system_header : BitStream → PsDemuxer → Outcome Turn
unfolding SystemHeader.decode
on_system_header bs d = elim d.pkg.header [
  | none ↦ ok (returns header_missing d)
  | some _ ↦
      then_outcome (SystemHeader.decode (or_new new_system_header d.pkg.system) bs)
        (λ r. ok (goes_on r.0.1 r.1 (record d { pkg = record (d.pkg) { system = some r.0.0 } })))
]

unfoldable pub on_stream_map : BitStream → PsDemuxer → Outcome Turn
unfolding StreamMap.decode learn_streams
on_stream_map bs d = then_outcome (StreamMap.decode (or_new new_stream_map d.pkg.psm) bs) (λ r.
    let d' = record d { pkg = record (d.pkg) { psm = some r.0.0 } } in
    ok (goes_on r.0.1 r.1 (elim r.0.1 [ none ↦ learn_streams r.0.0.stream_map d' | some _ ↦ d' ])))

unfoldable pub on_common_pes : BitStream → PsDemuxer → Outcome Turn
unfolding decode_common_pes
on_common_pes bs d =
    then_outcome
      (decode_common_pes (or_new (record { stream_id = 0; pes_packet_length = 0 }) d.pkg.comm_pes)
        bs)
      (λ r. ok (goes_on r.0.1 r.1 (record d { pkg = record (d.pkg) { comm_pes = some r.0.0 } })))

unfoldable pub on_directory : BitStream → PsDemuxer → Outcome Turn
unfolding decode_directory
on_directory bs d =
    then_outcome (decode_directory (or_new (record { pes_packet_length = 0 }) d.pkg.psd) bs)
      (λ r. ok (goes_on r.0.1 r.1 (record d { pkg = record (d.pkg) { psd = some r.0.0 } })))

-- The prefixes 000001BD to 000001BF and 000001F0 to 000001FB.
unfoldable pub is_common_pes : ℕ → Bool
is_common_pes code = leb 0x1BD code && leb code 0x1BF || leb 0x1F0 code && leb code 0x1FB

unfoldable pub is_pes : ℕ → Bool
is_pes code = bit_and code 0xFFFFFFE0 == 0x000001C0 || bit_and code 0xFFFFFFE0 == 0x000001E0

-- `saveReseved`: the bytes not read yet become the cache.
unfoldable pub save_reserved : BitStream → PsDemuxer → Outcome PsDemuxer
unfolding remain_bytes
save_reserved bs d = elim (remain_bytes bs) [
  | pos n ↦ ok (record d { cache = take n (drop bs.bytes_offset bs.bits) })
  | negsuc _ ↦ panic
]

-- What follows the loop.
unfoldable pub finish : Option Error → PsDemuxer → Outcome (Option Error × PsDemuxer)
finish none d = ok (none, record d { cache = [] })
finish (some e) d = ok (some e, d)

-- The loop breaks on an error of the interface `Error`.
unfoldable pub stop_on : Error → BitStream → PsDemuxer → Outcome (Option Error × PsDemuxer)
unfolding is_need_more save_reserved finish
stop_on e bs d =
    then_outcome (if is_need_more e then save_reserved bs d else ok d) (finish (some e))

unfoldable pub must_stop : Option Error → Bool
unfolding is_mpeg_error
must_stop none = false
must_stop (some e) = is_mpeg_error e

unfoldable pub error_of : Option Error → Error
error_of none = need_more
error_of (some e) = e

module _ (lal : NaluTypes) where
  -- A video packet of a stream that no map announced, in MPEG-2.
  unfoldable pub verify_video : PesPacket → PsDemuxer → Outcome PsDemuxer
  unfolding mpeg_h26x_verify new_ps_stream demux_pespacket
  verify_video pes d =
      let kept = if ltb 256 (length d.verify_buf) then [] else d.verify_buf in
      let d' = record d { verify_buf = kept ++ pes.pes_payload } in
      elim (mpeg_h26x_verify (kept ++ pes.pes_payload)) [
        | Codec.h264 ↦ demux_pespacket lal (new_ps_stream pes_stream_video ps_stream_h264) pes d'
        | Codec.h265 ↦ demux_pespacket lal (new_ps_stream pes_stream_video ps_stream_h265) pes d'
        | _ ↦ ok d'
      ]

  -- A packet of a stream that is not in the map.
  unfoldable pub adopt_stream : PesPacket → PsDemuxer → Outcome PsDemuxer
  unfolding new_ps_stream append_payload put_stream verify_video find_stream audio_verify
      demux_pespacket
  adopt_stream pes d =
      if d.mpeg1
      then ok (
          put_stream
            (record (append_payload (new_ps_stream pes.stream_id ps_stream_unknow) pes) {
              pts = pes.pts;
              dts = pes.dts;
            })
            d)
      else if pes.stream_id == pes_stream_video
      then verify_video pes d
      else if pes.stream_id == pes_stream_audio
      then elim (find_stream pes_stream_video d.stream_map) [
        | none ↦ ok d
        | some _ ↦
            then_outcome (audio_verify pes.pes_payload)
              (λ t. demux_pespacket lal (new_ps_stream pes_stream_audio t) pes d)
      ]
      else ok d

  unfoldable pub take_pes : PesPacket → PsDemuxer → Outcome PsDemuxer
  unfolding find_stream guess_codecid demux_pespacket adopt_stream
  take_pes pes d = elim (find_stream pes.stream_id d.stream_map) [
    | none ↦ adopt_stream pes d
    | some s ↦
        if d.mpeg1 && s.cid == ps_stream_unknow
        then then_outcome (guess_codecid s pes) (λ s'. demux_pespacket lal s' pes d)
        else demux_pespacket lal s pes d
  ]

  unfoldable pub on_pes : BitStream → PsDemuxer → Outcome Turn
  unfolding new_pes_packet Decode.decode decode_mpeg1 take_pes
  on_pes bs d =
      let pes = or_new new_pes_packet d.pkg.pes in
      then_outcome (if d.mpeg1 then decode_mpeg1 pes bs else Decode.decode pes bs) (λ r.
        let d' = record d { pkg = record (d.pkg) { pes = some r.0.0 } } in
        elim r.0.1 [
          | some e ↦ ok (goes_on (some e) r.1 d')
          | none ↦ then_outcome (take_pes r.0.0 d') (λ d''. ok (goes_on none r.1 d''))
        ])

  -- The `switch` over the 32 bits that come next. `ret` is the error so far.
  unfoldable pub dispatch : Option Error → ℕ → BitStream → PsDemuxer → Outcome Turn
  unfolding on_pack_header on_system_header on_stream_map on_common_pes on_directory on_pes
      is_common_pes is_pes skip_bits
  dispatch ret code bs d =
      if code == 0x000001BA
      then on_pack_header bs d
      else if code == 0x000001BB
      then on_system_header bs d
      else if code == 0x000001BC
      then on_stream_map bs d
      else if is_common_pes code
      then on_common_pes bs d
      else if code == 0x000001FF
      then on_directory bs d
      else if code == 0x000001B9
      then ok (goes_on ret bs d)
      else if is_pes code
      then on_pes bs d
      else then_outcome (skip_bits 8 bs) (λ r. ok (goes_on ret r.1 d))

  unfoldable pub input_loop :
      ℕ → Option Error → BitStream → PsDemuxer → Outcome (Option Error × PsDemuxer)
  unfolding eos must_stop error_of stop_on remain_bits next_bits dispatch finish
  input_loop zero ret bs d = stuck
  input_loop (suc fuel) ret bs d = elim (eos bs) [
    | true ↦ finish ret d
    | false ↦ elim (must_stop ret) [
      | true ↦ stop_on (error_of ret) bs d
      | false ↦ elim (less (remain_bits bs) 32) [
        | true ↦ stop_on need_more bs d
        | false ↦ then_outcome (next_bits 32 bs) (λ r.
            then_outcome (dispatch ret r.0 r.1 d) (λ turn. elim turn [
              | goes_on ret' bs' d' ↦ input_loop fuel ret' bs' d'
              | returns e d' ↦ ok (some e, d')
            ]))
      ]
    ]
  ]

  -- The bytes behind a cache are appended to it. The fuel is the caller's.
  unfoldable pub input : ℕ → List ℕ → PsDemuxer → Outcome (Option Error × PsDemuxer)
  unfolding new_bit_stream input_loop
  input fuel bytes d =
      if ltb 0 (length d.cache)
      then input_loop fuel none (new_bit_stream (d.cache ++ bytes))
          (record d { cache = d.cache ++ bytes })
      else input_loop fuel none (new_bit_stream bytes) d
