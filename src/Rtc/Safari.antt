-- ===== src/Rtc/Safari.antt =====
-- rtc/packer.go: SafariHEVCRtpEncoder, which cuts a frame into payloads and numbers its packets.
pub mod Bodies
pub mod Numbers
use lalmax.Base.{
  ℕ, zero, suc, ◌+◌, ◌-◌, ◌*◌, ◌/◌, ◌%◌, ◌^◌, Bool, true, false, List, [], ◌∷◌, ◌++◌, length, take,
  drop, ltb, ◌==◌, if◌then◌else◌, u16, u32,
}

abbrev pub max_payload_size : ℕ
max_payload_size = 1200

-- The first byte of a payload.
unfoldable pub payload_head : Bool → Bool → ℕ
payload_head key_frame at_start =
    if key_frame then (if at_start then 3 else 1) else (if at_start then 2 else 0)

unfoldable pub tmp_len : ℕ → ℕ → ℕ → ℕ
tmp_len reference_len remainder i = if ltb i remainder then reference_len + 1 else reference_len

module _ (key_frame : Bool) (split_num reference_len remainder : ℕ) where
  -- The loop from `i` down to 1, over the bytes from dataPos on.
  unfoldable pub payload_loop : ℕ → List ℕ → List (List ℕ)
  unfolding payload_head tmp_len
  payload_loop zero nalu = []
  payload_loop (suc i) nalu =
      let n = tmp_len reference_len remainder (suc i) in
      (payload_head key_frame (suc i == split_num) ∷ take n nalu) ∷ payload_loop i (drop n nalu)

unfoldable pub do_packet_nalu_for_safari_hevc : List ℕ → Bool → List (List ℕ)
unfolding payload_loop
do_packet_nalu_for_safari_hevc nalu key_frame =
    let split_num = length nalu / max_payload_size + 1 in
    payload_loop key_frame split_num (length nalu / split_num) (length nalu % split_num) split_num
      nalu

pub record RtpPacket : Type 0 where
  pub timestamp : ℕ
  pub marker : Bool
  pub sequence_number : ℕ
  pub payload : List ℕ

-- The packets of the payloads, and `seqId` after them. The last one is marked.
unfoldable pub number_packets : ℕ → ℕ → List (List ℕ) → List RtpPacket × ℕ
number_packets timestamp seq_id [] = ([], seq_id)
number_packets timestamp seq_id (p ∷ rest) =
    let more = number_packets timestamp (u16 (seq_id + 1)) rest in
    let packet : RtpPacket = record {
      timestamp = timestamp;
      marker = length rest == 0;
      sequence_number = seq_id;
      payload = p;
    } in
    (packet ∷ more.0, more.1)
