-- ===== src/Srt/Publisher/Frames.antt =====
-- srt/pub.go: the loop over ADTS frames, on whole frames, and on one that is cut off.
use lalmax.Base.{
  ℕ, zero, suc, ◌≤◌, ◌<◌, ◌≡◌, ◌≢◌, refl, inl, inr, Bool-cases, arith, true, false, List, [], ◌∷◌,
  ◌++◌, append_assoc, ltb, leb, ◌==◌, length, length-append, drop, take-append, drop-append, All,
}
use lalmax.Base.Outcome.{ok, stuck}
use lalmax.Srt.Publisher.{
  AvPacket, Adts, adts_header_length, next_dts, aac_packet, put_packet, adts_loop,
}

abbrev pub join : List (List ℕ) → List ℕ
join [] = []
join (f ∷ fs) = f ++ join fs

module _ (lib : Adts) where
  -- A frame that is longer than its header, which gives its length whatever follows.
  abbrev pub IsWhole : List ℕ → Type 0
  IsWhole f =
      (adts_header_length < length f) × ((rest : List ℕ) → lib.adts_length (f ++ rest) ≡ length f)

  -- The packets of the frames: their bodies, each with its time stamp.
  abbrev pub packets : ℕ → ℕ → ℕ → List (List ℕ) → List AvPacket
  packets rate dts pre [] = []
  packets rate dts pre (f ∷ fs) =
      let t = next_dts rate dts pre in
      aac_packet t (drop adts_header_length f) ∷ packets rate dts t fs

  whole_step :
      (fuel rate dts pre : ℕ) (f rest : List ℕ)
      → rate ≢ 0
      → IsWhole f
      → adts_loop lib (suc fuel) rate dts pre (f ++ rest)
        ≡ put_packet true
            (aac_packet (next_dts rate dts pre) (drop adts_header_length f))
            (adts_loop lib fuel rate dts (next_dts rate dts pre) rest)
  unfolding adts_loop
  whole_step fuel rate dts pre f rest positive (long, size) =
      let more : ltb adts_header_length (length (f ++ rest)) ≡ true =
        ground (arith, length-append f rest) in
      let fits : leb (length f) (length (f ++ rest)) ≡ true =
        ground (arith, length-append f rest) in
      let enough : ltb (length f) adts_header_length ≡ false = ground arith in
      let some_rate : (rate == 0) ≡ false = ground (arith, positive) in
      rw
        (
          adts_loop,
          size rest,
          more,
          fits,
          enough,
          some_rate,
          take-append f rest,
          drop-append f rest,
        )
        (elim (Bool-cases (pre == 0)) [
          | inl none_yet ↦ rw none_yet refl
          | inr given ↦ rw given refl
        ])

  cut_step :
      (fuel rate dts pre : ℕ) (rest : List ℕ)
      → rate ≢ 0
      → adts_header_length < length rest
      → length rest < lib.adts_length rest
      → adts_loop lib fuel rate dts pre rest ≡ stuck
  unfolding adts_loop put_packet
  cut_step zero rate dts pre rest positive long cut = refl
  cut_step (suc fuel) rate dts pre rest positive long cut =
      let more : ltb adts_header_length (length rest) ≡ true = ground arith in
      let misfit : leb (lib.adts_length rest) (length rest) ≡ false = ground arith in
      let some_rate : (rate == 0) ≡ false = ground (arith, positive) in
      let again = cut_step fuel rate dts (next_dts rate dts pre) rest positive long cut in
      rw (adts_loop, more, misfit, some_rate, again)
        (elim (Bool-cases (pre == 0)) [
          | inl none_yet ↦ rw none_yet refl
          | inr given ↦ rw given refl
        ])

  -- A rest that is no longer than a header ends the loop.
  short_step :
      (fuel rate dts pre : ℕ) (rest : List ℕ)
      → length rest ≤ adts_header_length
      → adts_loop lib (suc fuel) rate dts pre rest ≡ ok []
  unfolding adts_loop
  short_step fuel rate dts pre rest short =
      let no_more : ltb adts_header_length (length rest) ≡ false = ground arith in
      rw (adts_loop, no_more) refl

  ends :
      (rounds rate dts pre : ℕ) (fs : List (List ℕ)) (rest : List ℕ)
      → rate ≢ 0
      → All IsWhole fs
      → length rest ≤ adts_header_length
      → length fs < rounds
      → adts_loop lib rounds rate dts pre (join fs ++ rest) ≡ ok (packets rate dts pre fs)
  unfolding put_packet
  ends zero rate dts pre fs rest positive whole short enough = absurd (omega arith)
  ends (suc n) rate dts pre [] rest positive whole short enough =
      short_step n rate dts pre rest short
  ends (suc n) rate dts pre (f ∷ fs) rest positive (first, whole) short enough =
      let t = next_dts rate dts pre in
      rw
        (
          append_assoc f (join fs) rest,
          whole_step n rate dts pre f (join fs ++ rest) positive first,
          ends n rate dts t fs rest positive whole short (omega arith),
        )
        refl

  hangs :
      (fuel rate dts pre : ℕ) (fs : List (List ℕ)) (rest : List ℕ)
      → rate ≢ 0
      → All IsWhole fs
      → adts_header_length < length rest
      → length rest < lib.adts_length rest
      → adts_loop lib fuel rate dts pre (join fs ++ rest) ≡ stuck
  unfolding adts_loop put_packet
  hangs fuel rate dts pre [] rest positive whole long cut =
      cut_step fuel rate dts pre rest positive long cut
  hangs zero rate dts pre (f ∷ fs) rest positive (first, whole) long cut = refl
  hangs (suc fuel) rate dts pre (f ∷ fs) rest positive (first, whole) long cut =
      let t = next_dts rate dts pre in
      rw
        (
          append_assoc f (join fs) rest,
          whole_step fuel rate dts pre f (join fs ++ rest) positive first,
          hangs fuel rate dts t fs rest positive whole long cut,
        )
        refl

  -- With a sample rate above 0, on whole ADTS frames and a rest that is no longer than a header, the
  -- loop ends, with more rounds than frames, and gives the body of each frame, in order, with its
  -- time stamp. On whole frames and a rest that is longer than a header and shorter than the length in
  -- its header, it makes no end, whatever the number of rounds.
  pub adts_loop-packets :
      (rate dts : ℕ) (fs : List (List ℕ)) (rest : List ℕ)
      → rate ≢ 0
      → All IsWhole fs
      → (length rest ≤ adts_header_length
          → (rounds : ℕ) → length fs < rounds
          → adts_loop lib rounds rate dts 0 (join fs ++ rest) ≡ ok (packets rate dts 0 fs))
        × (adts_header_length < length rest
            → length rest < lib.adts_length rest
            → (rounds : ℕ) → adts_loop lib rounds rate dts 0 (join fs ++ rest) ≡ stuck)
  adts_loop-packets rate dts fs rest positive whole = (
    λ short rounds enough. ends rounds rate dts 0 fs rest positive whole short enough,
    λ long cut rounds. hangs rounds rate dts 0 fs rest positive whole long cut,
  )
