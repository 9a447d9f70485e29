-- ===== src/Mpegps/StartCode/Ends.antt =====
-- gb28181/mpegps/util.go: SplitFrame ends.
use lalmax.Base.{
  ℕ, zero, suc, ◌+◌, ◌-◌, ◌≤◌, ◌<◌, ◌≡◌, sym, inl, inr, arith, Bool, true, false, List, [], ◌∷◌,
  Option, none, some, length, length-drop, get_or, take, drop, leb, ◌==◌, Bool-cases,
}
use lalmax.Base.Outcome.{Outcome, ok, panic, below_zero, stuck, then_outcome}
use lalmax.Mpegps.StartCode.{
  is_code, index_code, place_code, find_start_code, split_loop, split_frame,
}
use mathlib.Core.Option

-- A call that ends with a result.
unfoldable pub Returns : {S : Type 0} → Outcome S → Type 0
Returns (ok s) = Unit {0}
Returns _ = ⊥

pub then_outcome-Returns :
    {A B : Type 0} (r : Outcome A) (f : A → Outcome B)
    → Returns r
    → ((a : A) → Returns (f a))
    → Returns (then_outcome r f)
unfolding Returns
then_outcome-Returns (ok a) f h k = k a
then_outcome-Returns panic f h k = absurd h
then_outcome-Returns below_zero f h k = absurd h
then_outcome-Returns stuck f h k = absurd h

-- What the callback's answer chooses: the next round, or the end.
go_on-Returns :
    {S : Type 0} (b : Bool) (r : Outcome S) (s : S)
    → Returns r
    → Returns (elim b [ true ↦ r | false ↦ ok s ])
unfolding Returns
go_on-Returns true r s h = h
go_on-Returns false r s h = tt

is_code-length : (xs : List ℕ) → is_code xs ≡ true → 3 ≤ length xs
unfolding is_code
is_code-length (a ∷ b ∷ c ∷ rest) h = omega arith
is_code-length [] h = absurd (ground arith)
is_code-length (_ ∷ []) h = absurd (ground arith)
is_code-length (_ ∷ _ ∷ []) h = absurd (ground arith)

-- A code found lies in the slice.
unfoldable pub Fits : ℕ → Option ℕ → Type 0
Fits n none = Unit {0}
Fits n (some i) = i + 3 ≤ n

map-suc-Fits : (n : ℕ) (o : Option ℕ) → Fits n o → Fits (suc n) (Option.map suc o)
unfolding Fits
map-suc-Fits n none h = tt
map-suc-Fits n (some i) h = omega arith

pub index_code-Fits : (xs : List ℕ) → Fits (length xs) (index_code xs)
unfolding index_code Fits
index_code-Fits [] = tt
index_code-Fits (b ∷ rest) = elim (Bool-cases (is_code (b ∷ rest))) [
  | inl code ↦ rw code (is_code-length (b ∷ rest) code)
  | inr later ↦ rw later (map-suc-Fits (length rest) (index_code rest) (index_code-Fits rest))
]

-- What `FindStartCode` gives from an offset on: nothing, or a code of three bytes at least that
-- begins there or later and lies in the slice.
unfoldable pub IsPlace : ℕ → ℕ → Option ℕ × ℕ → Type 0
IsPlace n offset (none, sc) = Unit {0}
IsPlace n offset (some e, sc) = (offset ≤ e) × (e + sc ≤ n) × (3 ≤ sc)

place_code-IsPlace :
    (nalu : List ℕ) (offset n : ℕ) (o : Option ℕ)
    → Fits (n - offset) o
    → offset ≤ n
    → IsPlace n offset (place_code nalu offset o)
unfolding place_code Fits IsPlace
place_code-IsPlace nalu offset n none h k = tt
place_code-IsPlace nalu offset n (some zero) h k = (omega arith, omega arith, omega arith)
place_code-IsPlace nalu offset n (some (suc i)) h k =
    elim (Bool-cases (get_or nalu (offset + i) 0 == 0)) [
      | inl zeroed ↦ rw zeroed (omega arith, omega arith, omega arith)
      | inr other ↦ rw other (omega arith, omega arith, omega arith)
    ]

pub find_start_code-IsPlace :
    (nalu : List ℕ) (offset : ℕ)
    → offset ≤ length nalu
    → (r : Option ℕ × ℕ) × (find_start_code nalu offset ≡ ok r) × IsPlace (length nalu) offset r
unfolding find_start_code Fits
find_start_code-IsPlace nalu offset h =
    let within : leb offset (length nalu) ≡ true = ground arith in
    let fits : Fits (length nalu - offset) (index_code (drop offset nalu)) =
      rw (sym (length-drop offset nalu)) (index_code-Fits (drop offset nalu)) in
    (
      place_code nalu offset (index_code (drop offset nalu)),
      rw within,
      place_code-IsPlace nalu offset (length nalu) (index_code (drop offset nalu)) fits h,
    )

module _ {S : Type 0} (on_frame : List ℕ → S → Outcome (Bool × S))
    (total : (xs : List ℕ) (s : S) → Returns (on_frame xs s)) where
  -- The loop's state at a start code, with fuel for the bytes behind it.
  abbrev IsRound : ℕ → List ℕ → ℕ → ℕ → Type 0
  IsRound fuel frames beg sc = (length frames < fuel + beg) × (beg + sc ≤ length frames) × (3 ≤ sc)

  -- A round returns when the next one does.
  round-Returns :
      (fuel : ℕ) (frames : List ℕ) (beg sc : ℕ) (s : S) (o : Option ℕ) (next : ℕ)
      → ((end : ℕ) (t : S)
          → IsRound fuel frames end next
          → Returns (split_loop on_frame fuel frames end next t))
      → find_start_code frames (beg + sc) ≡ ok (o, next)
      → IsPlace (length frames) (beg + sc) (o, next)
      → IsRound (suc fuel) frames beg sc
      → Returns (split_loop on_frame (suc fuel) frames beg sc s)
  unfolding split_loop Returns IsPlace
  round-Returns fuel frames beg sc s none next ih found place h = rw found (
      then_outcome-Returns (on_frame (drop (beg + sc) frames) s) (λ r. ok r.1)
        (total (drop (beg + sc) frames) s) (λ r. tt))
  round-Returns fuel frames beg sc s (some end) next ih found (after, inside, long) h =
      let enough : length frames < fuel + end = omega arith in
      rw found (
        then_outcome-Returns (on_frame (take (end - (beg + sc)) (drop (beg + sc) frames)) s)
          (λ r. elim r.0 [ true ↦ split_loop on_frame fuel frames end next r.1 | false ↦ ok r.1 ])
          (total (take (end - (beg + sc)) (drop (beg + sc) frames)) s)
          (λ r.
            go_on-Returns r.0 (split_loop on_frame fuel frames end next r.1) r.1
              (ih end r.1 (enough, inside, long))))

  split_loop-Returns :
      (fuel : ℕ) (frames : List ℕ) (beg sc : ℕ) (s : S)
      → IsRound fuel frames beg sc
      → Returns (split_loop on_frame fuel frames beg sc s)
  split_loop-Returns zero frames beg sc s h = absurd (omega arith)
  split_loop-Returns (suc fuel) frames beg sc s h =
      let (r, found, place) = find_start_code-IsPlace frames (beg + sc) h.1 in
      round-Returns fuel frames beg sc s r.0 r.1
        (λ end t g. split_loop-Returns fuel frames end r.1 t g) found place h

  -- From the first start code on.
  first-Returns :
      (frames : List ℕ) (s : S) (o : Option ℕ) (sc : ℕ)
      → find_start_code frames 0 ≡ ok (o, sc)
      → IsPlace (length frames) 0 (o, sc)
      → Returns (split_frame on_frame frames s)
  unfolding split_frame Returns IsPlace
  first-Returns frames s none sc found place = rw found tt
  first-Returns frames s (some beg) sc found (after, inside, long) =
      let enough : length frames < length frames + 1 + beg = omega arith in
      rw found (split_loop-Returns (length frames + 1) frames beg sc s (enough, inside, long))

  -- Where the callback always returns, SplitFrame returns.
  pub split_frame-Returns : (frames : List ℕ) (s : S) → Returns (split_frame on_frame frames s)
  split_frame-Returns frames s =
      let (r, found, place) = find_start_code-IsPlace frames 0 (omega arith) in
      first-Returns frames s r.0 r.1 found place
