-- ===== src/Mpegps/Demuxer/Nalus.antt =====
-- gb28181/mpegps/ps_demuxer.go: demuxH26x over the NALUs of a stream's buffer.
use lalmax.Base.{
  ℕ, zero, suc, ◌+◌, ◌-◌, ◌≤◌, ◌<◌, ◌≡◌, ◌∙◌, refl, ap, inl, inr, ◌⊎◌, arith, Bool, true, false,
  List, [], ◌∷◌, Option, none, some, length, length-drop, drop-drop, get_or, take, drop, ltb, leb,
  bit_and, shr, ◌==◌, ◌||◌, if◌then◌else◌, Bool-cases,
}
use lalmax.Base.Outcome.{ok}
use lalmax.Mpegps.Nalu.{NaluTypes}
use lalmax.Mpegps.StartCode.{
  is_code, index_code, place_code, find_start_code, nalu_byte, h264_nalu_type, h265_nalu_type,
}
use lalmax.Mpegps.StartCode.Ends.{
  Returns, then_outcome-Returns, Fits, index_code-Fits, IsPlace, find_start_code-IsPlace,
}
use lalmax.Mpegps.Demuxer.{
  PsStream, PsDemuxer, is_aud, emit, emit_nalus, demux_h26x, put_stream, restart,
}
use lalmax.Mpegps.Proto.Pes.{PesPacket}
use lalmax.Mpegps.Verify.{ps_stream_h264}
use mathlib.Core.Option

-- Whether the last three bytes are a start code.
unfoldable pub ends_in_code : List ℕ → Bool
unfolding is_code
ends_in_code xs = is_code (drop (length xs - 3) xs)

-- Where a code was found, there is one.
unfoldable IsFound : List ℕ → Option ℕ → Type 0
unfolding is_code
IsFound xs none = Unit {0}
IsFound xs (some i) = is_code (drop i xs) ≡ true

map-suc-IsFound :
    (b : ℕ) (xs : List ℕ) (o : Option ℕ) → IsFound xs o → IsFound (b ∷ xs) (Option.map suc o)
unfolding IsFound
map-suc-IsFound b xs none h = tt
map-suc-IsFound b xs (some i) h = h

index_code-IsFound : (xs : List ℕ) → IsFound xs (index_code xs)
unfolding index_code IsFound
index_code-IsFound [] = tt
index_code-IsFound (b ∷ rest) = elim (Bool-cases (is_code (b ∷ rest))) [
  | inl code ↦ rw code code
  | inr later ↦ rw later (map-suc-IsFound b rest (index_code rest) (index_code-IsFound rest))
]

-- A code found ends before the bytes do.
unfoldable IsBefore : ℕ → Option ℕ → Type 0
IsBefore n none = Unit {0}
IsBefore n (some i) = i + 3 < n

index_code-IsBefore :
    (xs : List ℕ) (o : Option ℕ)
    → IsFound xs o
    → Fits (length xs) o
    → ends_in_code xs ≡ false
    → IsBefore (length xs) o
unfolding IsFound Fits ends_in_code IsBefore
index_code-IsBefore xs none found fits open_end = tt
index_code-IsBefore xs (some i) found fits open_end = elim (Bool-cases (ltb (i + 3) (length xs))) [
  | inl before ↦ ground arith
  | inr ends ↦
      let last : length xs - 3 ≡ i = ground arith in
      let code : is_code (drop (length xs - 3) xs) ≡ true = rw last found in absurd (ground arith)
]

byte_after-Returns :
    (xs : List ℕ) (o : Option ℕ)
    → 3 ≤ length xs
    → IsBefore (length xs) o
    → find_start_code xs 0 ≡ ok (place_code xs 0 o)
    → Returns (nalu_byte xs)
unfolding nalu_byte place_code Returns IsBefore
byte_after-Returns xs none h before found =
    let short : ltb 2 (length xs) ≡ true = ground arith in rw (found, short) tt
byte_after-Returns xs (some zero) h before found =
    let short : ltb 3 (length xs) ≡ true = ground arith in rw (found, short) tt
byte_after-Returns xs (some (suc i)) h before found =
    let short3 : ltb (0 + suc i + 3) (length xs) ≡ true = ground arith in
    let short4 : ltb (0 + i + 4) (length xs) ≡ true = ground arith in
    elim (Bool-cases (get_or xs (0 + i) 0 == 0)) [
      | inl zeroed ↦
          let place : place_code xs 0 (some (suc i)) ≡ (some (0 + i), 4) = rw zeroed refl in
          rw (found ∙ ap ok place, short4) tt
      | inr other ↦
          let place : place_code xs 0 (some (suc i)) ≡ (some (0 + suc i), 3) = rw other refl in
          rw (found ∙ ap ok place, short3) tt
    ]

nalu_byte-Returns : (xs : List ℕ) → 3 ≤ length xs → ends_in_code xs ≡ false → Returns (nalu_byte xs)
unfolding find_start_code
nalu_byte-Returns xs h open_end =
    let within : leb 0 (length xs) ≡ true = ground arith in
    let fits : IsBefore (length xs) (index_code xs) =
      index_code-IsBefore xs (index_code xs) (index_code-IsFound xs) (index_code-Fits xs)
        open_end in
    byte_after-Returns xs (index_code xs) h fits (rw within refl)

ends_in_code-drop :
    (n : ℕ) (xs : List ℕ) → n + 3 ≤ length xs → ends_in_code (drop n xs) ≡ ends_in_code xs
unfolding ends_in_code
ends_in_code-drop n xs h =
    let same : n + (length xs - n - 3) ≡ length xs - 3 = omega arith in
    rw (length-drop n xs, drop-drop (length xs - n - 3) n xs, same) refl

module _ (lal : NaluTypes) where
  is_aud-Returns :
      (cid : ℕ) (xs : List ℕ)
      → 3 ≤ length xs
      → ends_in_code xs ≡ false
      → Returns (is_aud lal cid xs)
  unfolding is_aud h264_nalu_type h265_nalu_type Returns
  is_aud-Returns cid xs h open_end =
      let byte : Returns (nalu_byte xs) = nalu_byte-Returns xs h open_end in
      elim (Bool-cases (cid == ps_stream_h264)) [
        | inl avc ↦ rw avc (
            then_outcome-Returns (h264_nalu_type xs) (λ t. ok (t == lal.avc_aud))
              (then_outcome-Returns (nalu_byte xs) (λ b. ok (bit_and b 0x1F)) byte (λ b. tt))
              (λ t. tt))
        | inr hevc ↦ rw hevc (
            then_outcome-Returns (h265_nalu_type xs) (λ t. ok (t == lal.hevc_aud))
              (then_outcome-Returns (nalu_byte xs) (λ b. ok (bit_and (shr b 1) 0x3F)) byte
                (λ b. tt))
              (λ t. tt))
      ]

  abbrev IsRound : ℕ → List ℕ → ℕ → ℕ → Type 0
  IsRound fuel buf start sc =
      (length buf < fuel + start) × ((length buf ≡ start) ⊎ ((start + sc ≤ length buf) × (3 ≤ sc)))

  next-IsRound :
      (fuel : ℕ) (buf : List ℕ) (start sc : ℕ) (o : Option ℕ) (next : ℕ)
      → length buf < suc fuel + start
      → start + sc ≤ length buf
      → 3 ≤ sc
      → IsPlace (length buf) (start + sc) (o, next)
      → IsRound fuel buf (elim o [ some e ↦ e | none ↦ length buf ]) next
  unfolding IsPlace
  next-IsRound fuel buf start sc none next enough inside long place =
      let more : length buf < fuel + length buf = omega arith in (more, inl refl)
  next-IsRound fuel buf start sc (some end) next enough inside long (after, within, length3) =
      let more : length buf < fuel + end = omega arith in (more, inr (within, length3))

  emit_nalus-Returns :
      (fuel : ℕ) (s : PsStream) (start sc : ℕ) (d : PsDemuxer)
      → ends_in_code s.stream_buf ≡ false
      → IsRound fuel s.stream_buf start sc
      → Returns (emit_nalus lal fuel s start sc d)
  unfolding emit_nalus Returns
  emit_nalus-Returns zero s start sc d open_end (enough, inl over) = absurd (omega arith)
  emit_nalus-Returns zero s start sc d open_end (enough, inr (inside, long)) = absurd (omega arith)
  emit_nalus-Returns (suc fuel) s start sc d open_end (enough, inl over) =
      let done : ltb start (length s.stream_buf) ≡ false = ground arith in rw (emit_nalus, done) tt
  emit_nalus-Returns (suc fuel) s start sc d open_end (enough, inr (inside, long)) =
      let going : ltb start (length s.stream_buf) ≡ true = ground arith in
      let (r, found, place) = find_start_code-IsPlace s.stream_buf (start + sc) inside in
      let three : 3 ≤ length (drop start s.stream_buf) =
        rw (length-drop start s.stream_buf) (omega arith) in
      let rest : ends_in_code (drop start s.stream_buf) ≡ false =
        ends_in_code-drop start s.stream_buf (omega arith) ∙ open_end in
      let end : ℕ = elim r.0 [ some e ↦ e | none ↦ length s.stream_buf ] in
      let after : Bool → PsDemuxer = λ aud.
        if aud
        then d
        else emit (take (end - start) (drop start s.stream_buf)) s.cid s.pts s.dts d in
      rw (emit_nalus, going, found)
        (then_outcome-Returns (is_aud lal s.cid (drop start s.stream_buf))
          (λ aud. emit_nalus lal fuel s end r.1 (after aud))
          (is_aud-Returns s.cid (drop start s.stream_buf) three rest)
          (λ aud.
            emit_nalus-Returns fuel s end r.1 (after aud) open_end
              (next-IsRound fuel s.stream_buf start sc r.0 r.1 enough inside long place)))

  -- From the first start code on.
  first_nalu-Returns :
      (s : PsStream) (d : PsDemuxer) (o : Option ℕ) (sc : ℕ)
      → ends_in_code s.stream_buf ≡ false
      → IsPlace (length s.stream_buf) 0 (o, sc)
      → Returns {S = PsDemuxer} (elim o [
        | none ↦ ok d
        | some start ↦ emit_nalus lal (length s.stream_buf + 1) s start sc d
      ])
  unfolding Returns IsPlace
  first_nalu-Returns s d none sc open_end place = tt
  first_nalu-Returns s d (some start) sc open_end (after, inside, long) =
      let enough : length s.stream_buf < length s.stream_buf + 1 + start = omega arith in
      emit_nalus-Returns (length s.stream_buf + 1) s start sc d open_end
        (enough, inr (inside, long))

  -- Unless the stream's buffer ends in a start code, demuxH26x returns, for any packet.
  pub demux_h26x-Returns :
      (s : PsStream) (pes : PesPacket) (d : PsDemuxer)
      → ends_in_code s.stream_buf ≡ false
      → Returns (demux_h26x lal s pes d)
  unfolding demux_h26x Returns
  demux_h26x-Returns s pes d open_end =
      let (r, found, place) = find_start_code-IsPlace s.stream_buf 0 (omega arith) in
      elim (Bool-cases (s.pts == 0)) [
        | inl fresh ↦ rw (demux_h26x, fresh) tt
        | inr old ↦ elim (Bool-cases (s.pts == pes.pts || pes.pts == 0)) [
          | inl same ↦ rw (demux_h26x, old, same) tt
          | inr other ↦
              rw (demux_h26x, old, other, found)
                (then_outcome-Returns
                  (elim r.0 [
                    | none ↦ ok d
                    | some start ↦ emit_nalus lal (length s.stream_buf + 1) s start r.1 d
                  ])
                  (λ d'. ok (put_stream (restart s pes) d'))
                  (first_nalu-Returns s d r.0 r.1 open_end place) (λ d'. tt))
        ]
      ]
