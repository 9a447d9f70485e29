-- ===== src/Rtc/Packer.antt =====
-- rtc/packer.go: the encoders. The cutting of a payload into NALUs and their types are lal's, and so
-- are the packers of H.264 and of audio, whose packets come with whether pion reads them.
use lalmax.Base.{
  ℕ, ◌+◌, ◌-◌, ◌*◌, ◌%◌, ◌^◌, Bool, false, List, [], ◌∷◌, ◌++◌, Option, none, some, ltb, ◌==◌, ◌||◌,
  if◌then◌else◌, length, drop, get_or,
}
use lalmax.Base.Outcome.{Outcome, ok, panic, then_outcome}
use lalmax.Fmp4.Message.{Message}
use lalmax.Rtc.Safari.{RtpPacket, do_packet_nalu_for_safari_hevc, number_packets}

pub data PacketType : Type 0 where
  h264 pcma pcmu safari_hevc opus other : PacketType

-- What is used of lal: the NALUs of a payload, `none` for an error, and the kinds of a NALU by its
-- first byte.
pub record Nalus : Type 0 where
  pub iterate_nalu_avcc : List ℕ → Option (List (List ℕ))
  pub is_avc_sei : ℕ → Bool
  pub is_avc_idr : ℕ → Bool
  pub is_hevc_sei : ℕ → Bool
  pub is_hevc_irap : ℕ → Bool

abbrev pub start_code3 : List ℕ
start_code3 = 0 ∷ 0 ∷ 1 ∷ []

abbrev pub start_code4 : List ℕ
start_code4 = 0 ∷ 0 ∷ 0 ∷ 1 ∷ []

-- `p[n:]`
unfoldable pub slice_from : ℕ → List ℕ → Outcome (List ℕ)
slice_from n p = if ltb (length p) n then panic else ok (drop n p)

-- An error where nothing is left.
unfoldable pub some_packets : {P : Type 0} → List P → Option (List P)
some_packets [] = none
some_packets (p ∷ ps) = some (p ∷ ps)

-- The packets that pion reads.
unfoldable pub readable : {P : Type 0} → List (Option P) → List P
readable [] = []
readable (none ∷ rest) = readable rest
readable (some p ∷ rest) = p ∷ readable rest

module _ (lal : Nalus) where
  -- A NALU without a byte panics.
  unfoldable pub annexb_avc : List ℕ → List ℕ → List (List ℕ) → Outcome (List ℕ)
  annexb_avc sps pps [] = ok []
  annexb_avc sps pps (nal ∷ rest) =
      let later = annexb_avc sps pps rest in
      if length nal == 0
      then panic
      else if lal.is_avc_sei (get_or nal 0 0)
      then later
      else then_outcome later (λ out. ok (
          (if lal.is_avc_idr (get_or nal 0 0)
            then start_code3 ++ (sps ++ (start_code3 ++ pps))
            else [])
          ++ (start_code3 ++ (nal ++ out))))

  -- With whether a key frame is among the NALUs.
  unfoldable pub annexb_hevc : List ℕ → List ℕ → List ℕ → List (List ℕ) → Outcome (List ℕ × Bool)
  annexb_hevc vps sps pps [] = ok ([], false)
  annexb_hevc vps sps pps (nal ∷ rest) =
      let later = annexb_hevc vps sps pps rest in
      let irap = lal.is_hevc_irap (get_or nal 0 0) in
      if length nal == 0
      then panic
      else if lal.is_hevc_sei (get_or nal 0 0)
      then later
      else then_outcome later (λ r. ok (
        (if irap
              then start_code4 ++ (vps ++ (start_code4 ++ (sps ++ (start_code4 ++ pps))))
              else [])
            ++ (start_code4 ++ (nal ++ r.0)),
        irap || r.1,
      ))

  -- The packers of lal, by time stamp and payload; `none` is an error.
  module _ {P M : Type 0} (i : Message M) (pack : ℕ → List ℕ → List (Option P)) where
    unfoldable pub pack_readable : M → List ℕ → Option (List P)
    unfolding readable some_packets
    pack_readable m payload = some_packets (readable (pack (i.dts m) payload))

    unfoldable pub encode_h264 : List ℕ → List ℕ → M → Outcome (Option (List P))
    unfolding slice_from annexb_avc pack_readable
    encode_h264 sps pps m = then_outcome (slice_from 5 (i.payload m)) (λ body.
        elim (lal.iterate_nalu_avcc body) [
          | none ↦ ok none
          | some nals ↦
              then_outcome (annexb_avc sps pps nals)
                (λ out. ok (if length out == 0 then none else pack_readable m out))
        ])

    -- G711 and Opus: the payload behind its first byte.
    unfoldable pub encode_audio : M → Outcome (Option (List P))
    unfolding slice_from pack_readable
    encode_audio m = then_outcome (slice_from 1 (i.payload m)) (λ body. ok (pack_readable m body))

  pub record SafariHevcRtpEncoder : Type 0 where
    pub vps : List ℕ
    pub sps : List ℕ
    pub pps : List ℕ
    pub seq_id : ℕ
    pub ts_base : Option ℕ

  unfoldable pub set_base : ℕ → SafariHevcRtpEncoder → ℕ
  set_base dts e = elim e.ts_base [ none ↦ dts | some t ↦ t ]

  -- The time stamp counts from the first message's time, which may be later than this one's.
  unfoldable pub safari_timestamp : ℕ → ℕ → ℕ
  safari_timestamp base dts = (dts + 2 ^ 32 - base) % 2 ^ 32 * 90 % 2 ^ 32

  module _ {M : Type 0} (i : Message M) where
    unfoldable pub encode_safari :
        M → SafariHevcRtpEncoder → Outcome (Option (List RtpPacket) × SafariHevcRtpEncoder)
    unfolding set_base safari_timestamp slice_from annexb_hevc do_packet_nalu_for_safari_hevc
        number_packets some_packets
    encode_safari m e =
        let base = set_base (i.dts m) e in
        let e' : SafariHevcRtpEncoder = record e { ts_base = some base } in
        then_outcome (slice_from 5 (i.payload m)) (λ body. elim (lal.iterate_nalu_avcc body) [
          | none ↦ ok (none, e')
          | some nals ↦ then_outcome (annexb_hevc e.vps e.sps e.pps nals) (λ r.
              if length r.0 == 0
              then ok (none, e')
              else (let n =
                    number_packets (safari_timestamp base (i.dts m)) e.seq_id
                      (do_packet_nalu_for_safari_hevc r.0 r.1) in
                  ok (some_packets n.0, record e' { seq_id = n.1 })))
        ])
