-- ===== src/Tests/Mpegps.antt =====
-- gb28181/mpegps at concrete inputs.
use lalmax.Mpegps.StartCode.{split_frame}
use lalmax.Mpegps.StartCode.Ends.{Returns, split_frame-Returns}
use lalmax.Base.{
  ℕ, suc, Bool, true, false, List, ◌+◌, ◌*◌, ◌-◌, ◌%◌, ◌≡◌, refl, inl, arith, [], ◌∷◌, ◌++◌, length,
  get_or, take, drop, leb, if◌then◌else◌,
}
use lalmax.Base.Outcome.{Outcome, ok, panic, stuck}
use lalmax.Mpegps.BitStream.{BitStream, get_bits, un_read, next_bits, skip_bits}
use lalmax.Mpegps.BitStream.GetBits.{position, seek, IsReader, read_bits, get_bits-read_bits}
use lalmax.Mpegps.BitStream.Cursor.{IsExact, skip_bits-seek, un_read-seek, next_bits-keeps}
use lalmax.Mpegps.BitStreamWriter.{new_bit_stream_writer, put_uint64}
use lalmax.Mpegps.BitStreamWriter.Put.{Puts, put_uint64-appends, new-HasBits}
use lalmax.Mpegps.BitList.BitsOf.{bits_of}
use lalmax.Mpegps.RoundTrip.{ReadsBack, put_uint64-get_bits}
use lalmax.Mpegps.BitList.{all_bits, of_bits}
use lalmax.Mpegps.Crc.{crc32table}
use lalmax.Mpegps.Crc.Table.{remainder, crc32table-remainder}
use lalmax.Mpegps.Nalu.{NaluTypes}
use lalmax.Mpegps.Demuxer.{new_ps_demuxer, PsStream, demux_h26x}
use lalmax.Mpegps.Demuxer.Nalus.{ends_in_code, demux_h26x-Returns}
use lalmax.Mpegps.Proto.Pes.{PesPacket, new_pes_packet}
use lalmax.Mpegps.Demuxer.Input.{input}
use lalmax.Mpegps.Demuxer.ProgramEnd.{program_end, input-stuck}

-- Inside the first of three bytes.
abbrev cursor : BitStream
cursor = record {
  bits = 0xAB ∷ 0xCD ∷ 0xEF ∷ [];
  bytes_offset = 0;
  bits_offset = 4;
  bits_mark = 0;
  byte_mark = 0;
}

cursor-IsReader : IsReader cursor
unfolding IsReader
cursor-IsReader = (omega arith, (omega arith, (omega arith, (omega arith, tt))))

get_bits-read_bits_example : get_bits 11 cursor ≡ read_bits 11 cursor
get_bits-read_bits_example =
    get_bits-read_bits 11 cursor cursor-IsReader (omega arith) (omega arith)

skip_bits-seek_example : skip_bits 9 cursor ≡ ok (tt, seek (position cursor + 9) cursor)
skip_bits-seek_example = skip_bits-seek 9 cursor (omega arith)

-- Bit 5 of the last byte.
abbrev later : BitStream
later = record cursor { bytes_offset = 2; bits_offset = 5 }

later-IsExact : IsExact 12 later
unfolding IsExact
later-IsExact = (omega arith, λ shorter same. absurd (omega arith))

un_read-seek_example : un_read 12 later ≡ ok (tt, seek (position later - 12) later)
un_read-seek_example = un_read-seek 12 later (omega arith) later-IsExact

next_bits-keeps_example : next_bits 8 cursor ≡ (
    if leb (position cursor + 8) (8 * length cursor.bits)
    then ok (of_bits (take 8 (drop (position cursor) (all_bits cursor.bits))), cursor)
    else panic)
next_bits-keeps_example =
    next_bits-keeps 8 cursor cursor-IsReader (omega arith) (omega arith) (inl (omega arith))

crc32table-remainder_example : get_or crc32table 200 0 ≡ remainder 200
crc32table-remainder_example = crc32table-remainder 200 (omega arith)

-- lal's constants, and its masks as remainders.
abbrev lal : NaluTypes
lal = record {
  parse_avc = λ b. b % 32;
  avc_slice = 1;
  avc_idr_slice = 5;
  avc_aud = 9;
  parse_hevc = λ b. b;
  hevc_slice_trail_n = 0;
  hevc_slice_rasl_r = 9;
  hevc_slice_bla_wlp = 16;
  hevc_slice_rsv_irap_vcl23 = 23;
  hevc_aud = 35;
}

no_cache : new_ps_demuxer.cache ≡ []
unfolding new_ps_demuxer
no_cache = refl

input-stuck_example : input lal 1000 (program_end []) new_ps_demuxer ≡ stuck
input-stuck_example = input-stuck lal [] tt 1000 new_ps_demuxer no_cache

put_uint64-appends_example :
    Puts ([] ++ bits_of 12 0xABC) (put_uint64 0xABC 12 (new_bit_stream_writer 4))
put_uint64-appends_example =
    put_uint64-appends 0xABC 12 [] (new_bit_stream_writer 4) (new-HasBits 4) (omega arith)

put_uint64-get_bits_example : ReadsBack 0xABC 12 [] (new_bit_stream_writer 4)
put_uint64-get_bits_example =
    put_uint64-get_bits 0xABC 12 [] (new_bit_stream_writer 4) (new-HasBits 4) (omega arith)
      (omega arith)

-- Two NAL units, the first behind a code of four bytes.
abbrev two_nalus : List ℕ
two_nalus = 0 ∷ 0 ∷ 0 ∷ 1 ∷ 0x67 ∷ 0x42 ∷ 0 ∷ 0 ∷ 1 ∷ 0x68 ∷ []

-- A callback that counts the frames.
abbrev count : List ℕ → ℕ → Outcome (Bool × ℕ)
count xs n = ok (true, suc n)

count-Returns : (xs : List ℕ) (n : ℕ) → Returns (count xs n)
unfolding Returns
count-Returns xs n = tt

split_frame_two : split_frame count two_nalus 0 ≡ ok 2
unfolding split_frame
split_frame_two = refl

split_frame-Returns_example : Returns (split_frame count two_nalus 0)
split_frame-Returns_example = split_frame-Returns count count-Returns two_nalus 0

-- An H.264 stream with two NAL units in its buffer.
abbrev stream : PsStream
stream = record { sid = 0xE0; cid = 27; pts = 90; dts = 90; stream_buf = two_nalus }

-- A packet of the next time stamp.
abbrev next_pes : PesPacket
next_pes = record new_pes_packet { pts = 180; dts = 180; pes_payload = 0 ∷ 0 ∷ 1 ∷ 0x65 ∷ [] }

stream_open : ends_in_code stream.stream_buf ≡ false
unfolding ends_in_code
stream_open = refl

demux_h26x-Returns_example : Returns (demux_h26x lal stream next_pes new_ps_demuxer)
demux_h26x-Returns_example = demux_h26x-Returns lal stream next_pes new_ps_demuxer stream_open

-- With a start code at the buffer's end there is no byte to read a NALU type from.
demux_h26x_panic :
    demux_h26x lal
      (record stream { stream_buf = two_nalus ++ (0 ∷ 0 ∷ 1 ∷ []) })
      next_pes
      new_ps_demuxer
    ≡ panic
unfolding demux_h26x new_pes_packet
demux_h26x_panic = refl
