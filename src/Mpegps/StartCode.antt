-- ===== src/Mpegps/StartCode.antt =====
-- gb28181/mpegps/util.go: start codes of an Annex B stream. A Go index of -1 is `none`.
pub mod Ends
use lalmax.Base.{
  ℕ, zero, suc, ◌+◌, ◌-◌, bit_and, Bool, true, false, List, [], ◌∷◌, Option, none, some, length,
  get_or, take, drop, ltb, leb, ◌==◌, ◌&&◌, if◌then◌else◌, shr,
}
use mathlib.Core.Option
use lalmax.Base.Outcome.{Outcome, ok, panic, stuck, then_outcome}

abbrev pub start_code3 : ℕ
start_code3 = 3

abbrev pub start_code4 : ℕ
start_code4 = 4

-- Whether a slice begins with 00 00 01.
unfoldable pub is_code : List ℕ → Bool
is_code (a ∷ b ∷ c ∷ rest) = (a == 0) && (b == 0) && (c == 1)
is_code _ = false

-- `bytes.Index(s, {0, 0, 1})`.
unfoldable pub index_code : List ℕ → Option ℕ
unfolding is_code
index_code [] = none
index_code (b ∷ rest) =
    let later = Option.map suc (index_code rest) in if is_code (b ∷ rest) then some 0 else later

-- Where the code is and how long it is, from where it was found.
unfoldable pub place_code : List ℕ → ℕ → Option ℕ → Option ℕ × ℕ
place_code nalu offset none = (none, start_code3)
place_code nalu offset (some zero) = (some offset, start_code3)
place_code nalu offset (some (suc k)) =
    if get_or nalu (offset + k) 0 == 0
    then (some (offset + k), start_code4)
    else (some (offset + suc k), start_code3)

unfoldable pub find_start_code : List ℕ → ℕ → Outcome (Option ℕ × ℕ)
unfolding index_code place_code
find_start_code nalu offset =
    if leb offset (length nalu)
    then ok (place_code nalu offset (index_code (drop offset nalu)))
    else panic

abbrev slice : List ℕ → ℕ → ℕ → List ℕ
slice xs from to = take (to - from) (drop from xs)

module _ {S : Type 0} (on_frame : List ℕ → S → Outcome (Bool × S)) where
  -- The loop of `SplitFrame` at a start code of `sc` bytes at `beg`. The callback is a function on
  -- the variables that it changes. Each round moves to a later start code, so the bytes of the slice
  -- are fuel enough.
  unfoldable pub split_loop : ℕ → List ℕ → ℕ → ℕ → S → Outcome S
  unfolding find_start_code
  split_loop zero frames beg sc s = stuck
  split_loop (suc fuel) frames beg sc s = then_outcome (find_start_code frames (beg + sc)) (λ next.
      elim next.0 [
        | none ↦ then_outcome (on_frame (drop (beg + sc) frames) s) (λ r. ok r.1)
        | some end ↦
            then_outcome (on_frame (slice frames (beg + sc) end) s)
              (λ r. elim r.0 [ true ↦ split_loop fuel frames end next.1 r.1 | false ↦ ok r.1 ])
      ])

  unfoldable pub split_frame : List ℕ → S → Outcome S
  unfolding find_start_code split_loop
  split_frame frames s = then_outcome (find_start_code frames 0) (λ first. elim first.0 [
    | none ↦ ok s
    | some beg ↦ split_loop (length frames + 1) frames beg first.1 s
  ])

-- The byte behind the first start code. With no start code Go reads at -1 + 3.
unfoldable pub nalu_byte : List ℕ → Outcome ℕ
unfolding find_start_code
nalu_byte nalu = then_outcome (find_start_code nalu 0) (λ r.
    let at : ℕ = elim r.0 [ some loc ↦ loc + r.1 | none ↦ r.1 - 1 ] in
    if ltb at (length nalu) then ok (get_or nalu at 0) else panic)

unfoldable pub h264_nalu_type : List ℕ → Outcome ℕ
unfolding nalu_byte
h264_nalu_type nalu = then_outcome (nalu_byte nalu) (λ b. ok (bit_and b 0x1F))

unfoldable pub h265_nalu_type : List ℕ → Outcome ℕ
unfolding nalu_byte
h265_nalu_type nalu = then_outcome (nalu_byte nalu) (λ b. ok (bit_and (shr b 1) 0x3F))
