-- ===== src/Mpegps/Demuxer/ProgramEnd.antt =====
-- gb28181/mpegps/ps_demuxer.go: PsDemuxer.Input at an MPEG program end code.
use lalmax.Base.{
  ℕ, zero, suc, ◌*◌, ◌≡◌, refl, ◌∙◌, inr, arith, true, false, List, [], ◌∷◌, Option, none, length,
  All, IsByte, leb, ◌==◌, ◌&&◌,
}
use lalmax.Base.Int.{less}
use lalmax.Base.Outcome.{ok, stuck}
use lalmax.Mpegps.BitStream.{BitStream, new_bit_stream, next_bits, eos, remain_bits}
use lalmax.Mpegps.BitStream.GetBits.{IsReader}
use lalmax.Mpegps.BitStream.Cursor.{next_bits-keeps}
use lalmax.Mpegps.BitList.{all_bits, of_bits_from}
use lalmax.Mpegps.Nalu.{NaluTypes}
use lalmax.Mpegps.Error.{Error}
use lalmax.Mpegps.Demuxer.{PsDemuxer}
use lalmax.Mpegps.Demuxer.Input.{input_loop, input, dispatch, goes_on, must_stop}

abbrev pub program_end : List ℕ → List ℕ
program_end rest = 0x00 ∷ 0x00 ∷ 0x01 ∷ 0xB9 ∷ rest

IsReader-program_end :
    (rest : List ℕ) → All IsByte rest → IsReader (new_bit_stream (program_end rest))
unfolding IsReader new_bit_stream
IsReader-program_end rest h =
    (omega arith, (omega arith, (omega arith, (omega arith, (omega arith, h)))))

prefix_code :
    (rest : List ℕ)
    → All IsByte rest
    → next_bits 32 (new_bit_stream (program_end rest))
      ≡ ok (0x1B9, new_bit_stream (program_end rest))
unfolding new_bit_stream all_bits of_bits_from
prefix_code rest h =
    let enough : leb 32 (8 * length (program_end rest)) ≡ true = ground arith in
    next_bits-keeps 32 (new_bit_stream (program_end rest)) (IsReader-program_end rest h)
      (omega arith) (omega arith) (inr (omega arith))
    ∙ rw enough

-- A round of the loop that goes on.
turn :
    (lal : NaluTypes) (fuel : ℕ) (ret ret' : Option Error) (bs bs' bs'' : BitStream)
    (d d' : PsDemuxer) (code : ℕ)
    → eos bs ≡ false
    → must_stop ret ≡ false
    → less (remain_bits bs) 32 ≡ false
    → next_bits 32 bs ≡ ok (code, bs')
    → dispatch lal ret code bs' d ≡ ok (goes_on ret' bs'' d')
    → input_loop lal (suc fuel) ret bs d ≡ input_loop lal fuel ret' bs'' d'
unfolding input_loop eos
turn lal fuel ret ret' bs bs' bs'' d d' code more free enough look goes =
    let unread : (bs.bytes_offset == length bs.bits) && (bs.bits_offset == 0) ≡ false = more in
    rw (unread, input_loop) (rw (free, enough, look, goes))

module _ (lal : NaluTypes) (rest : List ℕ) (h : All IsByte rest) where
  abbrev at_end : BitStream
  at_end = new_bit_stream (program_end rest)

  not_eos : eos at_end ≡ false
  unfolding eos new_bit_stream
  not_eos = ground arith

  enough_bits : less (remain_bits at_end) 32 ≡ false
  unfolding remain_bits new_bit_stream
  enough_bits =
      let within : leb 0 (length (program_end rest) * 8) ≡ true = ground arith in
      rw within (ground arith)

  input_loop-stuck : (fuel : ℕ) (d : PsDemuxer) → input_loop lal fuel none at_end d ≡ stuck
  unfolding input_loop must_stop dispatch
  input_loop-stuck zero d = refl
  input_loop-stuck (suc fuel) d =
      turn lal fuel none none at_end at_end at_end d d 0x1B9 not_eos refl enough_bits
        (prefix_code rest h) refl
      ∙ input_loop-stuck fuel d

  -- With no cached bytes, a buffer of bytes below 256 that begins with 00 00 01 B9 is never done: for
  -- every number of rounds, Input runs out of it.
  pub input-stuck :
      (fuel : ℕ) (d : PsDemuxer) → d.cache ≡ [] → input lal fuel (program_end rest) d ≡ stuck
  unfolding input
  input-stuck fuel d empty = rw empty (input_loop-stuck fuel (record d { cache = [] }))
