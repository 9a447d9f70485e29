-- ===== src/Tests/Rtc.antt =====
-- rtc at concrete inputs.
use lalmax.Base.{
  [], ◌∷◌, ◌^◌, get_elem?, arith, ℕ, ◌+◌, ◌-◌, ◌/◌, ◌%◌, ◌≤◌, ◌≡◌, min, true, List, All, length,
  replicate, take,
}
use lalmax.Rtc.Safari.Numbers.{numbered, number_packets_lem}
use mathlib.Core.Option
use lalmax.Rtc.Safari.{number_packets, do_packet_nalu_for_safari_hevc, max_payload_size}
use lalmax.Rtc.Safari.Bodies.{bodies, bodies-do_packet, do_packet-length}

-- A frame whose length is not a multiple of its two payloads.
abbrev odd : List ℕ
odd = replicate 1201 7

bodies-do_packet_example :
    bodies (do_packet_nalu_for_safari_hevc odd true)
    ≡ take (length odd - min 1 (length odd % (length odd / max_payload_size + 1))) odd
bodies-do_packet_example = bodies-do_packet odd true

do_packet-length_example :
    All (λ p. length p ≤ max_payload_size + 1) (do_packet_nalu_for_safari_hevc odd true)
do_packet-length_example = do_packet-length odd true

-- Two payloads, numbered across the end of the 16 bits.
abbrev payloads : List (List ℕ)
payloads = (3 ∷ 7 ∷ []) ∷ (1 ∷ 8 ∷ []) ∷ []

number_packets_lem_example :
    (get_elem? (number_packets 90 65535 payloads).0 1
      ≡ Option.map (numbered 90 65535 (length payloads) 1) (get_elem? payloads 1))
    × ((number_packets 90 65535 payloads).1 ≡ (65535 + length payloads) % 2 ^ 16)
number_packets_lem_example = number_packets_lem 90 65535 payloads 1 (omega arith)
