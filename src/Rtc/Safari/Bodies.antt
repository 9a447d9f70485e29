-- ===== src/Rtc/Safari/Bodies.antt =====
-- rtc/packer.go: what of a frame the payloads carry.
use lalmax.Base.{
  ℕ, zero, suc, ◌+◌, ◌-◌, ◌*◌, ◌/◌, ◌%◌, ◌≤◌, ◌<◌, ◌≡◌, arith, min, Bool, List, [], ◌∷◌, ◌++◌,
  length, take, drop, All, take-take-drop, length-take,
}
use lalmax.Rtc.Safari.{tmp_len, payload_loop, do_packet_nalu_for_safari_hevc, max_payload_size}
use native.Mathlib.Nat.{div-add-mod, mod-lt}

-- The payloads without their first bytes, one behind the other.
unfoldable pub bodies : List (List ℕ) → List ℕ
bodies [] = []
bodies ([] ∷ rest) = bodies rest
bodies ((h ∷ body) ∷ rest) = body ++ bodies rest

module _ (reference_len remainder : ℕ) where
  -- The bytes that the rounds from `i` on take.
  total : ℕ → ℕ
  total i = i * reference_len + min i (remainder - 1)

  total-zero : total 0 ≡ 0
  unfolding total
  total-zero = omega arith

  total-suc : (i : ℕ) → total (suc i) ≡ tmp_len reference_len remainder (suc i) + total i
  unfolding total tmp_len
  total-suc i = ground arith

  tmp_len-le : (i : ℕ) → tmp_len reference_len remainder i ≤ reference_len + 1
  unfolding tmp_len
  tmp_len-le i = ground arith

module _ (key_frame : Bool) (split_num reference_len remainder : ℕ) where
  bodies-payload_loop :
      (i : ℕ) (nalu : List ℕ)
      → bodies (payload_loop key_frame split_num reference_len remainder i nalu)
        ≡ take (total reference_len remainder i) nalu
  unfolding payload_loop bodies
  bodies-payload_loop zero nalu = rw (total-zero reference_len remainder)
  bodies-payload_loop (suc i) nalu = rw (
    total-suc reference_len remainder i,
    take-take-drop (tmp_len reference_len remainder (suc i)) (total reference_len remainder i) nalu,
    bodies-payload_loop i (drop (tmp_len reference_len remainder (suc i)) nalu),
  )

  payload_loop-length :
      (n : ℕ)
      → reference_len + 2 ≤ n
      → (i : ℕ) (nalu : List ℕ)
      → All (λ p. length p ≤ n) (payload_loop key_frame split_num reference_len remainder i nalu)
  unfolding payload_loop
  payload_loop-length n h zero nalu = tt
  payload_loop-length n h (suc i) nalu = (
    ground (
      arith,
      length-take (tmp_len reference_len remainder (suc i)) nalu,
      tmp_len-le reference_len remainder (suc i),
    ),
    payload_loop-length n h i (drop (tmp_len reference_len remainder (suc i)) nalu),
  )

total-split : (n d : ℕ) → 0 < d → total (n / d) (n % d) d ≡ n - min 1 (n % d)
unfolding total
total-split n d h = grind (arith, div-add-mod n d, mod-lt n {m = d})

-- The payloads of a frame, without their first bytes, are the frame itself where its length is a
-- multiple of the number of payloads; else they are the frame without its last byte.
pub bodies-do_packet :
    (nalu : List ℕ) (key_frame : Bool)
    → bodies (do_packet_nalu_for_safari_hevc nalu key_frame)
      ≡ take (length nalu - min 1 (length nalu % (length nalu / max_payload_size + 1))) nalu
unfolding do_packet_nalu_for_safari_hevc
bodies-do_packet nalu key_frame =
    let d = length nalu / max_payload_size + 1 in
    rw (
      bodies-payload_loop key_frame d (length nalu / d) (length nalu % d) d nalu,
      total-split (length nalu) d (omega arith),
    )

quotient_lt : (n : ℕ) → n / (n / 1200 + 1) < 1200
quotient_lt n = grind (arith, div-add-mod n (n / 1200 + 1), div-add-mod n 1200)

-- Every payload, its first byte included, has at most 1201 bytes.
pub do_packet-length :
    (nalu : List ℕ) (key_frame : Bool)
    → All (λ p. length p ≤ max_payload_size + 1) (do_packet_nalu_for_safari_hevc nalu key_frame)
unfolding do_packet_nalu_for_safari_hevc
do_packet-length nalu key_frame =
    let d = length nalu / max_payload_size + 1 in
    payload_loop-length key_frame d (length nalu / d) (length nalu % d) 1201
      (omega (arith, quotient_lt (length nalu))) d nalu
