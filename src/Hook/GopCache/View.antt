-- ===== src/Hook/GopCache/View.antt =====
-- hook/gop_cache.go: the ring as the list of its GOPs, oldest first.
use lalmax.Base.{
  ℕ, zero, suc, ◌+◌, ◌-◌, ◌*◌, ◌%◌, ◌≤◌, ◌<◌, ◌≡◌, refl, ap, ◌∙◌, ◌≢◌, ◌⊎◌, inl, inr, arith, true,
  false, List, [], ◌∷◌, ◌++◌, length, get_or, set, drop, leb, ◌==◌, if◌then◌else◌, length-set,
  get_or-set_self, get_or-set_ne, Bool-cases,
}
use lalmax.Hook.GopCache.{GopCache, is_gop_ring_full, feed_new_gop, get_gop_count}
use native.Mathlib.Decide.{dec_lt}
use native.Mathlib.Nat.{mod-eq_of_lt, mod-lt, mod-add-mod}

pub record IsRing {M : Type 0} (c : GopCache M) : Type 0 where
  pub slots_fit : length c.gops ≡ c.gop_size
  pub first_in : c.first < c.gop_size
  pub last_in : c.last < c.gop_size

pub mod_wrap : (i n : ℕ) → n ≤ i → i < 2 * n → i % n ≡ i - n
mod_wrap i n h k = grind arith

pub mod_plain : (i n : ℕ) → i < n → i % n ≡ i
mod_plain i n h = mod-eq_of_lt h

-- The sums of the ring's indices, with the wrap written out.
pub count_at :
    (l f s : ℕ)
    → l < s
    → f < s
    → ((f ≤ l) × ((l + s - f) % s ≡ l - f)) ⊎ ((l < f) × ((l + s - f) % s ≡ l + s - f))
count_at l f s hl hf = elim (dec_lt l f) [
  | yes lt ↦ inr (lt, mod_plain _ _ (omega arith))
  | no ge ↦ inl (omega arith, mod_wrap (l + s - f) s (omega arith) (omega arith) ∙ omega arith)
]

pub sum_at :
    (i k s : ℕ)
    → i < s
    → k ≤ s
    → ((i + k < s) × ((i + k) % s ≡ i + k)) ⊎ ((s ≤ i + k) × ((i + k) % s ≡ i + k - s))
sum_at i k s hi hk = elim (dec_lt (i + k) s) [
  | yes lt ↦ inl (lt, mod_plain _ _ lt)
  | no ge ↦ inr (omega arith, mod_wrap _ _ (omega arith) (omega arith))
]

module _ (l f s : ℕ) (hl : l < s) (hf : f < s) (big : 1 < s) where
  count_grows :
      (l + 1) % s ≢ f
      → (((l + 1) % s + s - f) % s ≡ (l + s - f) % s + 1) × ((l + s - f) % s + 1 < s)
  count_grows ne = omega (
    arith,
    count_at l f s hl hf,
    sum_at l 1 s hl (omega arith),
    count_at ((l + 1) % s) f s (mod-lt (l + 1) {m = s} (omega arith)) hf,
  )

  count_stays :
      (l + 1) % s ≡ f
      → (((l + 1) % s + s - (f + 1) % s) % s ≡ (l + s - f) % s) × ((l + s - f) % s + 1 ≡ s)
  count_stays e = omega (
    arith,
    count_at l f s hl hf,
    sum_at l 1 s hl (omega arith),
    sum_at f 1 s hf (omega arith),
    count_at ((l + 1) % s) ((f + 1) % s) s (mod-lt (l + 1) {m = s} (omega arith))
        (mod-lt (f + 1) {m = s} (omega arith)),
  )

module _ {M : Type 0} (size : ℕ) where
  -- `n` slots from index `i` on, round the ring.
  unfoldable pub slots : ℕ → ℕ → List (List M) → List (List M)
  slots zero i gs = []
  slots (suc n) i gs = get_or gs (i % size) [] ∷ slots n (i + 1) gs

  pub slots-snoc :
      (n i : ℕ) (gs : List (List M))
      → slots (suc n) i gs ≡ slots n i gs ++ (get_or gs ((i + n) % size) [] ∷ [])
  unfolding slots
  slots-snoc zero i gs = let e : i + 0 ≡ i = omega arith in rw e
  slots-snoc (suc n) i gs =
      let e : i + suc n ≡ i + 1 + n = omega arith in
      rw e (ap (◌∷◌ (get_or gs (i % size) [])) (slots-snoc n (i + 1) gs))

  -- A write outside the slots does not show.
  pub slots-set :
      (n i j : ℕ) (v : List M) (gs : List (List M))
      → ((k : ℕ) → k < n → j ≢ (i + k) % size)
      → slots n i (set gs j v) ≡ slots n i gs
  unfolding slots
  slots-set zero i j v gs h = refl
  slots-set (suc n) i j v gs h =
      let e : i + 0 ≡ i = omega arith in
      rw (
        get_or-set_ne gs j (i % size) v [] (rw e at (h 0 (omega arith))),
        slots-set n (i + 1) j v gs (λ k lt.
            let e' : i + suc k ≡ i + 1 + k = omega arith in rw e' at (h (suc k) (omega arith))),
      )

  slots-mod :
      (n i j : ℕ) (gs : List (List M))
      → ((k : ℕ) → (i + k) % size ≡ (j + k) % size)
      → slots n i gs ≡ slots n j gs
  unfolding slots
  slots-mod zero i j gs h = refl
  slots-mod (suc n) i j gs h =
      let ei : i + 0 ≡ i = omega arith in
      let ej : j + 0 ≡ j = omega arith in
      rw (
        (rw (ei, ej) at (h 0)),
        slots-mod n (i + 1) (j + 1) gs (λ k.
            let e : i + 1 + k ≡ i + suc k = omega arith in
            let e' : j + 1 + k ≡ j + suc k = omega arith in rw (e, e') (h (suc k))),
      )

  pub get_or-slots :
      (n i k : ℕ) (gs : List (List M))
      → get_or (slots n i gs) k [] ≡ (if leb n k then [] else get_or gs ((i + k) % size) [])
  unfolding slots
  get_or-slots zero i k gs = ground arith
  get_or-slots (suc n) i zero gs = let e : i + 0 ≡ i = omega arith in rw e (ground arith)
  get_or-slots (suc n) i (suc k) gs =
      let e : i + suc k ≡ i + 1 + k = omega arith in
      rw e (ground (arith, get_or-slots n (i + 1) k gs))

  length-slots : (n i : ℕ) (gs : List (List M)) → length (slots n i gs) ≡ n
  unfolding slots
  length-slots zero i gs = refl
  length-slots (suc n) i gs = ap suc (length-slots n (i + 1) gs)

module _ {M : Type 0} where
  -- The GOPs of the ring, oldest first.
  unfoldable pub view : GopCache M → List (List M)
  unfolding slots
  view c = slots c.gop_size (get_gop_count c) c.first c.gops

  -- A list of at most `cap` GOPs takes one more: the oldest one goes where there is no room.
  abbrev pub push : ℕ → List M → List (List M) → List (List M)
  push cap g gs = (if length gs == cap then drop 1 gs else gs) ++ (g ∷ [])

  pub length-view : (c : GopCache M) → length (view c) ≡ get_gop_count c
  unfolding view
  length-view c = length-slots c.gop_size (get_gop_count c) c.first c.gops

  pub count_facts :
      (c : GopCache M)
      → IsRing c
      → (get_gop_count c < c.gop_size) × ((c.first + get_gop_count c) % c.gop_size ≡ c.last)
  unfolding get_gop_count
  count_facts c r = omega (
    arith,
    count_at c.last c.first c.gop_size r.last_in r.first_in,
    sum_at c.first ((c.last + c.gop_size - c.first) % c.gop_size) c.gop_size r.first_in,
  )

  -- The slots of the view lie before `last`, so a write there does not show.
  view_misses_last :
      (c : GopCache M) (k : ℕ)
      → IsRing c
      → k < get_gop_count c
      → c.last ≢ (c.first + k) % c.gop_size
  unfolding get_gop_count
  view_misses_last c k r lt = omega (
    arith,
    count_at c.last c.first c.gop_size r.last_in r.first_in,
    sum_at c.first k c.gop_size r.first_in,
  )

  pub feed_new_gop-IsRing : (c : GopCache M) (m : M) → IsRing c → IsRing (feed_new_gop c m)
  unfolding feed_new_gop
  feed_new_gop-IsRing c m r = record {
    slots_fit = length-set c.gops c.last (m ∷ []) ∙ r.slots_fit;
    first_in = ground (arith, mod-lt (c.first + 1) {m = c.gop_size});
    last_in = ground (arith, mod-lt (c.last + 1) {m = c.gop_size});
  }

  pub get_or-set_in :
      (c : GopCache M) (i : ℕ) (g : List M)
      → IsRing c
      → i < c.gop_size
      → get_or (set c.gops i g) i [] ≡ g
  get_or-set_in c i g r h = get_or-set_self c.gops i g [] (omega (arith, r.slots_fit))

  -- A new GOP where there is room, and where there is none.
  view_grows :
      (c : GopCache M) (m : M)
      → IsRing c
      → 1 < c.gop_size
      → is_gop_ring_full c ≡ false
      → (view (feed_new_gop c m) ≡ view c ++ ((m ∷ []) ∷ [])) × (get_gop_count c + 1 < c.gop_size)
  unfolding view feed_new_gop get_gop_count is_gop_ring_full
  view_grows c m r big open_slot =
      let n = get_gop_count c in
      let (grown, room) =
        count_grows c.last c.first c.gop_size r.last_in r.first_in big (ground arith) in
      let add : n + 1 ≡ suc n = omega arith in
      (
        rw (
          open_slot,
          grown,
          add,
          slots-snoc c.gop_size n c.first (set c.gops c.last (m ∷ [])),
          slots-set c.gop_size n c.first c.last (m ∷ []) c.gops (λ k lt. view_misses_last c k r lt),
          (count_facts c r).1,
          get_or-set_in c c.last (m ∷ []) r r.last_in,
        ),
        room,
      )

  slots_stay :
      (c : GopCache M) (g : List M) (n : ℕ)
      → IsRing c
      → suc n ≡ get_gop_count c
      → slots c.gop_size (suc n) ((c.first + 1) % c.gop_size) (set c.gops c.last g)
        ≡ slots c.gop_size n (c.first + 1) c.gops ++ (g ∷ [])
  slots_stay c g n r e =
      let gs = set c.gops c.last g in
      let at_last : (c.first + 1 + n) % c.gop_size ≡ c.last =
        rw (shift n) (rw (← e) at ((count_facts c r).1)) in
      slots-mod c.gop_size (suc n) ((c.first + 1) % c.gop_size) (c.first + 1) gs
        (λ k. mod-add-mod (c.first + 1) c.gop_size k)
      ∙ rw (
        slots-snoc c.gop_size n (c.first + 1) gs,
        slots-set c.gop_size n (c.first + 1) c.last g c.gops
            (λ k lt. rw (shift k) (view_misses_last c (suc k) r (omega (arith, e)))),
        at_last,
        get_or-set_in c c.last g r r.last_in,
      )
    where
      shift : (k : ℕ) → c.first + 1 + k ≡ c.first + suc k
      shift k = omega arith

  view_stays :
      (c : GopCache M) (m : M)
      → IsRing c
      → 1 < c.gop_size
      → is_gop_ring_full c ≡ true
      → (view (feed_new_gop c m) ≡ drop 1 (view c) ++ ((m ∷ []) ∷ []))
        × (get_gop_count c + 1 ≡ c.gop_size)
  unfolding view feed_new_gop get_gop_count is_gop_ring_full slots
  view_stays c m r big full =
      let (stays, whole) =
        count_stays c.last c.first c.gop_size r.last_in r.first_in big (ground arith) in
      let n = c.gop_size - 2 in
      let e : suc n ≡ (c.last + c.gop_size - c.first) % c.gop_size = omega arith in
      (rw (full, stays, ← e) (slots_stay c (m ∷ []) n r e), whole)

  -- A new GOP pushes the oldest one out of a full ring, and else joins the others.
  pub view-feed_new_gop :
      (c : GopCache M) (m : M)
      → IsRing c
      → 1 < c.gop_size
      → view (feed_new_gop c m) ≡ push (c.gop_size - 1) (m ∷ []) (view c)
  view-feed_new_gop c m r big = elim (Bool-cases (is_gop_ring_full c)) [
    | inl full ↦ let (e, whole) = view_stays c m r big full in e ∙ ground (arith, length-view c)
    | inr open_slot ↦
        let (e, room) = view_grows c m r big open_slot in e ∙ ground (arith, length-view c)
  ]
