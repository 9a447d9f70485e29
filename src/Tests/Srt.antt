-- ===== src/Tests/Srt.antt =====
-- srt at concrete inputs.
use lalmax.Base.{ℕ, ◌≤◌, ◌<◌, ◌≡◌, ◌≢◌, refl, arith, List, [], ◌∷◌, ◌++◌, some, All, length, get_or}
use lalmax.Base.Outcome.{ok, stuck}
use lalmax.Srt.Publisher.{Adts, adts_header_length, adts_loop}
use lalmax.Srt.Publisher.Frames.{join, IsWhole, packets, adts_loop-packets}

-- The length stands in byte 4.
abbrev byte_4 : Adts
byte_4 = record { convert_to_asc = λ f. some ([], 48000); adts_length = λ f. get_or f 4 0 }

abbrev frames : List (List ℕ)
frames =
    (255 ∷ 241 ∷ 80 ∷ 128 ∷ 9 ∷ 31 ∷ 252 ∷ 1 ∷ 2 ∷ [])
    ∷ (255 ∷ 241 ∷ 80 ∷ 128 ∷ 8 ∷ 31 ∷ 252 ∷ 3 ∷ [])
    ∷ []

abbrev cut_off : List ℕ
cut_off = 255 ∷ 241 ∷ 80 ∷ 128 ∷ 20 ∷ 31 ∷ 252 ∷ 4 ∷ []

frames-IsWhole : All (IsWhole byte_4) frames
frames-IsWhole = ((omega arith, λ rest. refl), ((omega arith, λ rest. refl), tt))

abbrev sample_rate : ℕ
sample_rate = 48000

some_rate : sample_rate ≢ 0
some_rate = λ e. absurd (omega arith)

adts_loop-packets_example :
    (length cut_off ≤ adts_header_length
      → (rounds : ℕ) → length frames < rounds
      → adts_loop byte_4 rounds sample_rate 90 0 (join frames ++ cut_off)
        ≡ ok (packets byte_4 sample_rate 90 0 frames))
    × (adts_header_length < length cut_off
        → length cut_off < byte_4.adts_length cut_off
        → (rounds : ℕ) → adts_loop byte_4 rounds sample_rate 90 0 (join frames ++ cut_off) ≡ stuck)
adts_loop-packets_example =
    adts_loop-packets byte_4 sample_rate 90 frames cut_off some_rate frames-IsWhole
