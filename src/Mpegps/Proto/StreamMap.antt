-- ===== src/Mpegps/Proto/StreamMap.antt =====
-- gb28181/mpegps/ps_proto.go: ProgramStreamMap and ElementaryStreamElem.
use lalmax.Base.{
  ℕ, zero, suc, ◌+◌, ◌-◌, ◌*◌, ◌/◌, ◌%◌, ◌^◌, List, [], ◌∷◌, ◌++◌, Option, none, some, length, take,
  drop, ltb, leb, ◌==◌, if◌then◌else◌, u8, u16, shr,
}
use lalmax.Base.Int.{less, to_nat}
use lalmax.Base.Outcome.{ok, panic, stuck, Stateful, ◌>>=◌, ◌>>◌, return, query}
use lalmax.Mpegps.Error.{Error, need_more, parser_error, bad_map_start, bad_map_id}
use lalmax.Mpegps.Crc.{calc_crc32}
use lalmax.Mpegps.BitStream.{BitStream, uint8, uint16, uint32, skip_bits, remain_bytes, un_read}
use lalmax.Mpegps.BitStreamWriter.{
  BitStreamWriter, put_bytes, put_uint8, put_uint16, byte_offset, mark_dot, distance_from_mark_dot,
  set_uint16, written,
}

pub record ElementaryStreamElem : Type 0 where
  pub stream_type : ℕ
  pub elementary_stream_id : ℕ
  pub elementary_stream_info_length : ℕ

unfoldable pub new_elementary_stream_elem : ℕ → ℕ → ElementaryStreamElem
new_elementary_stream_elem stype esid = record {
  stream_type = stype;
  elementary_stream_id = esid;
  elementary_stream_info_length = 0;
}

pub record ProgramStreamMap : Type 0 where
  pub map_stream_id : ℕ
  pub program_stream_map_length : ℕ
  pub current_next_indicator : ℕ
  pub program_stream_map_version : ℕ
  pub program_stream_info_length : ℕ
  pub elementary_stream_map_length : ℕ
  pub stream_map : List ElementaryStreamElem

-- `new(ProgramStreamMap)`.
abbrev pub new_stream_map : ProgramStreamMap
new_stream_map = record {
  map_stream_id = 0;
  program_stream_map_length = 0;
  current_next_indicator = 0;
  program_stream_map_version = 0;
  program_stream_info_length = 0;
  elementary_stream_map_length = 0;
  stream_map = [];
}

unfoldable pub encode_elems : List ElementaryStreamElem → Stateful BitStreamWriter (Unit {0})
unfolding put_uint8 put_uint16
encode_elems [] = return tt
encode_elems (e ∷ rest) = do
  put_uint8 e.stream_type 8
  put_uint8 e.elementary_stream_id 8
  put_uint16 0 16
  encode_elems rest

-- `binary.LittleEndian.PutUint32`.
unfoldable pub little_endian32 : ℕ → List ℕ
little_endian32 c = u8 c ∷ u8 (shr c 8) ∷ u8 (shr c 16) ∷ u8 (shr c 24) ∷ []

-- The slice of `Bits()` under the CRC begins `distance + 4` bytes before the write position.
unfoldable pub append_crc : ℕ → Stateful BitStreamWriter (Unit {0})
unfolding written calc_crc32 little_endian32 put_bytes
append_crc distance w =
    let start = w.byteoffset - distance - 4 in
    let covered = drop start (take w.byteoffset (written w)) in
    if leb (distance + 4) w.byteoffset
    then put_bytes (little_endian32 (calc_crc32 0xffffffff covered)) w
    else panic

-- `Encode` sets ElementaryStreamMapLength in its receiver.
unfoldable pub encode : ProgramStreamMap → Stateful BitStreamWriter ProgramStreamMap
unfolding put_bytes put_uint8 put_uint16 byte_offset mark_dot distance_from_mark_dot set_uint16
    encode_elems append_crc
encode psm = do
  put_bytes (0x00 ∷ 0x00 ∷ 0x01 ∷ 0xBC ∷ [])
  loc ← query byte_offset
  put_uint16 psm.elementary_stream_map_length 16
  mark_dot
  put_uint8 psm.current_next_indicator 1
  put_uint8 3 2
  put_uint8 psm.program_stream_map_version 5
  put_uint8 0x7F 7
  put_uint8 1 1
  put_uint16 0 16
  let map_length = u16 (length psm.stream_map * 4)
  put_uint16 map_length 16
  encode_elems psm.stream_map
  distance ← query distance_from_mark_dot
  set_uint16 (u16 (to_nat distance / 8 + 4)) loc
  append_crc (to_nat distance / 8)
  return (record psm { elementary_stream_map_length = map_length })

unfoldable pub read_elem : Stateful BitStream ElementaryStreamElem
unfolding uint8 uint16
read_elem = do
  stype ← uint8 8
  esid ← uint8 8
  info ← uint16 16
  let elem_read = record (new_elementary_stream_elem stype esid) {
    elementary_stream_info_length = info;
  }
  return elem_read

-- The loop over the elements, up to the count `total`: the elements, with the count reached, or
-- an error. Each round reads four bytes at least, so the bytes of the slice are fuel enough.
-- `4 + elem.ElementaryStreamInfoLength` is a uint16.
unfoldable pub read_elems :
    ℕ
    → ℕ
    → ℕ
    → List ElementaryStreamElem
    → Stateful BitStream (List ElementaryStreamElem × Option Error)
unfolding read_elem remain_bytes skip_bits
read_elems zero total i elems s = stuck
read_elems (suc fuel) total i elems s =
    if ltb i total
    then (do
      e ← read_elem
      left ← query remain_bytes
      if less left e.elementary_stream_info_length then return (elems, some parser_error) else (do
        skip_bits (e.elementary_stream_info_length * 8)
        read_elems fuel total (i + u16 (4 + e.elementary_stream_info_length)) (elems ++ (e ∷ []))))
        s
    else ok ((elems, (if i == total then none else some parser_error)), s)

unfoldable pub end_map : ProgramStreamMap → Stateful BitStream (ProgramStreamMap × Option Error)
unfolding remain_bytes un_read skip_bits read_elems
end_map psm = do
  left ← query remain_bytes
  if less left (psm.elementary_stream_map_length + 4)
      then (do un_read (12 * 8 + psm.program_stream_info_length * 8); return (psm, some need_more))
      else (do
        bytes ← query (λ (s : BitStream). length s.bits)
        r ← read_elems (bytes + 1) psm.elementary_stream_map_length 0 []
        let psm' = record psm { stream_map = r.0 }
        elim r.1 [ some e ↦ return (psm', some e) | none ↦ (do skip_bits 32; return (psm', none)) ])

-- From the fields behind the length on. The elementary stream map's own length field is read and
-- then replaced by what the other lengths leave, as a uint16.
unfoldable pub decode_body : ProgramStreamMap → Stateful BitStream (ProgramStreamMap × Option Error)
unfolding uint8 uint16 skip_bits remain_bytes un_read end_map
decode_body psm = do
  indicator ← uint8 1
  skip_bits 2
  version ← uint8 5
  skip_bits 8
  info ← uint16 16
  let psm' = record psm {
    current_next_indicator = indicator;
    program_stream_map_version = version;
    program_stream_info_length = info;
  }
  left ← query remain_bytes
  if less left (info + 2) then (do un_read (10 * 8); return (psm', some need_more)) else (do
    skip_bits (info * 8)
    _ ← uint16 16
    end_map (record psm' {
      elementary_stream_map_length =
          (psm.program_stream_map_length + 2 * 2 ^ 16 - info - 10) % 2 ^ 16;
    }))

unfoldable pub decode_length :
    ProgramStreamMap → Stateful BitStream (ProgramStreamMap × Option Error)
unfolding uint16 remain_bytes un_read decode_body
decode_length psm = do
  map_length ← uint16 16
  let psm' = record psm { program_stream_map_length = map_length }
  left ← query remain_bytes
  if less left map_length
      then (do un_read (6 * 8); return (psm', some need_more))
      else decode_body psm'

unfoldable pub decode : ProgramStreamMap → Stateful BitStream (ProgramStreamMap × Option Error)
unfolding uint8 uint32 remain_bytes decode_length
decode psm = do
  left ← query remain_bytes
  if less left 16 then return (psm, some need_more) else (do
    code ← uint32 24
    if code == 0x000001
        then (do
          sid ← uint8 8
          let psm' = record psm { map_stream_id = sid }
          if sid == 0xBC then decode_length psm' else return (psm', some bad_map_id))
        else return (psm, some bad_map_start))
