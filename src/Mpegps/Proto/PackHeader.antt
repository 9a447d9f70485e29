-- ===== src/Mpegps/Proto/PackHeader.antt =====
-- gb28181/mpegps/ps_proto.go: PsPackHeader.
use lalmax.Base.{
  ℕ, ◌*◌, bit_or, Bool, true, false, [], ◌∷◌, Option, none, some, ◌==◌, if◌then◌else◌, u32, u64,
  shr, shl,
}
use lalmax.Base.Int.{less}
use lalmax.Base.Outcome.{Stateful, ◌>>=◌, ◌>>◌, return, query}
use lalmax.Mpegps.Error.{Error, need_more, parser_error, bad_pack_start}
use lalmax.Mpegps.BitStream.{
  BitStream, get_bits, uint8, uint16, uint32, skip_bits, remain_bytes, un_read, next_bits,
}
use lalmax.Mpegps.BitStreamWriter.{
  BitStreamWriter, put_bytes, put_uint8, put_uint16, put_uint32, put_uint64, put_repet_value,
}

pub record PsPackHeader : Type 0 where
  pub is_mpeg1 : Bool
  pub system_clock_reference_base : ℕ
  pub system_clock_reference_extension : ℕ
  pub program_mux_rate : ℕ
  pub pack_stuffing_length : ℕ

-- `new(PsPackHeader)`.
abbrev pub new_pack_header : PsPackHeader
new_pack_header = record {
  is_mpeg1 = false;
  system_clock_reference_base = 0;
  system_clock_reference_extension = 0;
  program_mux_rate = 0;
  pack_stuffing_length = 0;
}

-- The three parts of a clock value, each followed by a marker bit.
unfoldable pub read_clock : Stateful BitStream ℕ
unfolding get_bits skip_bits
read_clock = do
  high ← get_bits 3
  skip_bits 1
  middle ← get_bits 15
  skip_bits 1
  low ← get_bits 15
  skip_bits 1
  return (bit_or (u64 (shl (bit_or (u64 (shl high 15)) middle) 15)) low)

unfoldable pub end_stuffing : PsPackHeader → Stateful BitStream (PsPackHeader × Option Error)
unfolding remain_bytes un_read skip_bits
end_stuffing h = do
  left ← query remain_bytes
  if less left h.pack_stuffing_length
      then (do un_read (10 * 8); return (h, some need_more))
      else (do skip_bits (h.pack_stuffing_length * 8); return (h, none))

unfoldable pub decode_mpeg2 : PsPackHeader → Stateful BitStream (PsPackHeader × Option Error)
unfolding read_clock uint8 uint16 uint32 end_stuffing
decode_mpeg2 h = do
  skip_bits 2
  base ← read_clock
  extension ← uint16 9
  skip_bits 1
  rate ← uint32 22
  skip_bits 1
  skip_bits 1
  skip_bits 5
  stuffing ← uint8 3
  end_stuffing (record h {
    system_clock_reference_base = base;
    system_clock_reference_extension = extension;
    program_mux_rate = rate;
    pack_stuffing_length = stuffing;
  })

unfoldable pub decode_mpeg1 : PsPackHeader → Stateful BitStream (PsPackHeader × Option Error)
unfolding read_clock uint32
decode_mpeg1 h = do
  skip_bits 4
  base ← read_clock
  high ← uint32 7
  skip_bits 1
  low ← uint32 15
  skip_bits 1
  let rate = bit_or (u32 (shl high 15)) low
  let h' = record h {
    system_clock_reference_base = base;
    system_clock_reference_extension = 1;
    program_mux_rate = rate;
  }
  return (h', none)

-- The choice between the two versions, by the bits behind the start code.
unfoldable pub decode_version : PsPackHeader → Stateful BitStream (PsPackHeader × Option Error)
unfolding decode_mpeg1 decode_mpeg2 remain_bytes next_bits
decode_version h = do
  two ← next_bits 2
  if two == 0x01
      then (do
        left ← query remain_bytes
        if less left 10 then return (h, some need_more) else decode_mpeg2 h)
      else (do
        four ← next_bits 4
        if four == 0x02
            then (do
              left ← query remain_bytes
              if less left 8
                  then return (h, some need_more)
                  else decode_mpeg1 (record h { is_mpeg1 = true }))
            else return (h, some parser_error))

unfoldable pub decode : PsPackHeader → Stateful BitStream (PsPackHeader × Option Error)
unfolding decode_version uint32
decode h = do
  left ← query remain_bytes
  if less left 5 then return (h, some need_more) else (do
    code ← uint32 32
    if code == 0x000001BA then decode_version h else return (h, some bad_pack_start))

unfoldable pub encode : PsPackHeader → Stateful BitStreamWriter (Unit {0})
unfolding put_bytes put_uint8 put_uint16 put_uint32 put_uint64 put_repet_value
encode h = do
  put_bytes (0x00 ∷ 0x00 ∷ 0x01 ∷ 0xBA ∷ [])
  put_uint8 1 2
  put_uint64 (shr h.system_clock_reference_base 30) 3
  put_uint8 1 1
  put_uint64 (shr h.system_clock_reference_base 15) 15
  put_uint8 1 1
  put_uint64 h.system_clock_reference_base 15
  put_uint8 1 1
  put_uint16 h.system_clock_reference_extension 9
  put_uint8 1 1
  put_uint32 h.program_mux_rate 22
  put_uint8 1 1
  put_uint8 1 1
  put_uint8 0x1F 5
  put_uint8 h.pack_stuffing_length 3
  put_repet_value 0xFF h.pack_stuffing_length
