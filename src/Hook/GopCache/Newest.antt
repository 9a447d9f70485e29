-- ===== src/Hook/GopCache/Newest.antt =====
-- hook/gop_cache.go: a frame that joins the newest GOP, and reading the GOPs out.
use lalmax.Base.{
  ℕ, zero, suc, ◌+◌, ◌-◌, ◌%◌, ◌≤◌, ◌<◌, ◌≡◌, refl, ap, sym, ◌∙◌, ◌≢◌, ◌⊎◌, inl, inr, arith, Bool,
  true, false, List, [], ◌∷◌, ◌++◌, length, get_or, set, leb, ◌==◌, ◌||◌, if◌then◌else◌, length-set,
  Bool-cases,
}
use lalmax.Hook.GopCache.{
  GopCache, is_gop_ring_empty, newest, feed_last_gop, get_gop_count, get_gop_data_at,
}
use lalmax.Hook.GopCache.View.{
  IsRing, mod_wrap, mod_plain, count_at, sum_at, slots, slots-snoc, slots-set, get_or-slots, view,
  get_or-set_in,
}

module _ {M : Type 0} where
  -- The newest GOP takes a message, unless it is over the limit; 0 is no limit.
  unfoldable pub grow_last : ℕ → M → List (List M) → List (List M)
  grow_last limit m [] = []
  grow_last limit m (g ∷ []) =
      (if limit == 0 || leb (length g) limit then g ++ (m ∷ []) else g) ∷ []
  grow_last limit m (g ∷ h ∷ rest) = g ∷ grow_last limit m (h ∷ rest)

  grow_last-snoc :
      (limit : ℕ) (m : M) (gs : List (List M)) (g : List M)
      → grow_last limit m (gs ++ (g ∷ []))
        ≡ gs ++ ((if limit == 0 || leb (length g) limit then g ++ (m ∷ []) else g) ∷ [])
  unfolding grow_last
  grow_last-snoc limit m [] g = refl
  grow_last-snoc limit m (h ∷ []) g = refl
  grow_last-snoc limit m (h ∷ k ∷ gs) g = ap (◌∷◌ h) (grow_last-snoc limit m (k ∷ gs) g)

  newest_at :
      (c : GopCache M)
      → IsRing c
      → ((1 ≤ c.last) × (newest c ≡ c.last - 1)) ⊎ ((c.last ≡ 0) × (newest c ≡ c.gop_size - 1))
  unfolding newest
  newest_at c r = elim (Bool-cases (c.last == 0)) [
    | inl e ↦ inr (ground arith, mod_plain _ _ (ground (arith, r.last_in)) ∙ ground arith)
    | inr ne ↦ inl (
      ground arith,
      mod_wrap _ c.gop_size (ground arith) (ground (arith, r.last_in)) ∙ ground arith,
    )
  ]

  newest_facts :
      (c : GopCache M) (n : ℕ)
      → IsRing c
      → suc n ≡ get_gop_count c
      → ((c.first + n) % c.gop_size ≡ newest c)
        × (newest c < c.gop_size)
        × ((k : ℕ) → k < n → newest c ≢ (c.first + k) % c.gop_size)
  unfolding get_gop_count
  newest_facts c n r e = (
    omega (arith, newest_at c r, count, sum_at c.first n c.gop_size r.first_in),
    omega (arith, newest_at c r, r.last_in),
    λ k lt. omega (arith, newest_at c r, count, sum_at c.first k c.gop_size r.first_in),
  )
    where
      count :
          ((c.first ≤ c.last) × ((c.last + c.gop_size - c.first) % c.gop_size ≡ c.last - c.first))
          ⊎ ((c.last < c.first)
              × ((c.last + c.gop_size - c.first) % c.gop_size ≡ c.last + c.gop_size - c.first))
      count = count_at c.last c.first c.gop_size r.last_in r.first_in

  -- The view with its newest GOP apart.
  view-snoc :
      (c : GopCache M) (n : ℕ)
      → IsRing c
      → suc n ≡ get_gop_count c
      → view c ≡ slots c.gop_size n c.first c.gops ++ (get_or c.gops (newest c) [] ∷ [])
  unfolding view
  view-snoc c n r e = rw (← e, slots-snoc c.gop_size n c.first c.gops, (newest_facts c n r e).0)

  view-set-newest :
      (c : GopCache M) (n : ℕ) (g : List M)
      → IsRing c
      → suc n ≡ get_gop_count c
      → view (record c { gops = set c.gops (newest c) g })
        ≡ slots c.gop_size n c.first c.gops ++ (g ∷ [])
  unfolding view get_gop_count
  view-set-newest c n g r e =
      let (at, fits, misses) = newest_facts c n r e in
      rw (
        ← e,
        slots-snoc c.gop_size n c.first (set c.gops (newest c) g),
        slots-set c.gop_size n c.first (newest c) g c.gops misses,
        at,
        get_or-set_in c (newest c) g r fits,
      )

  -- Whether the newest GOP takes a frame.
  abbrev has_room : GopCache M → Bool
  has_room c =
      c.single_gop_max_frame_num == 0
      || leb (length (get_or c.gops (newest c) [])) c.single_gop_max_frame_num

  feed_last_gop_full : (c : GopCache M) (m : M) → has_room c ≡ false → feed_last_gop c m ≡ c
  unfolding feed_last_gop
  feed_last_gop_full c m h = ground arith

  feed_last_gop_room :
      (c : GopCache M) (m : M)
      → is_gop_ring_empty c ≡ false
      → has_room c ≡ true
      → feed_last_gop c m
        ≡ record c { gops = set c.gops (newest c) (get_or c.gops (newest c) [] ++ (m ∷ [])) }
  unfolding feed_last_gop
  feed_last_gop_room c m e h = ground arith

  feed_last_gop_empty :
      (c : GopCache M) (m : M) → is_gop_ring_empty c ≡ true → feed_last_gop c m ≡ c
  unfolding feed_last_gop
  feed_last_gop_empty c m e = rw e

  ring_empty : (c : GopCache M) → IsRing c → 0 ≡ get_gop_count c → is_gop_ring_empty c ≡ true
  unfolding get_gop_count is_gop_ring_empty
  ring_empty c r e = ground (arith, count_at c.last c.first c.gop_size r.last_in r.first_in)

  ring_not_empty :
      (c : GopCache M) (n : ℕ) → IsRing c → suc n ≡ get_gop_count c → is_gop_ring_empty c ≡ false
  unfolding get_gop_count is_gop_ring_empty
  ring_not_empty c n r e = ground (arith, count_at c.last c.first c.gop_size r.last_in r.first_in)

  view_empty : (c : GopCache M) → 0 ≡ get_gop_count c → view c ≡ []
  unfolding view slots
  view_empty c e = rw (← e)

  last_cases :
      (c : GopCache M) (m : M) (n : ℕ)
      → IsRing c
      → n ≡ get_gop_count c
      → view (feed_last_gop c m) ≡ grow_last c.single_gop_max_frame_num m (view c)
  unfolding grow_last
  last_cases c m zero r e = rw (feed_last_gop_empty c m (ring_empty c r e), view_empty c e)
  last_cases c m (suc n) r e = elim (Bool-cases (has_room c)) [
    | inl h ↦ rw (
      feed_last_gop_room c m (ring_not_empty c n r e) h,
      view-set-newest c n (get_or c.gops (newest c) [] ++ (m ∷ [])) r e,
      view-snoc c n r e,
      grow_last-snoc c.single_gop_max_frame_num m (slots c.gop_size n c.first c.gops)
          (get_or c.gops (newest c) []),
      h,
    )
    | inr h ↦ rw (
      feed_last_gop_full c m h,
      view-snoc c n r e,
      grow_last-snoc c.single_gop_max_frame_num m (slots c.gop_size n c.first c.gops)
          (get_or c.gops (newest c) []),
      h,
    )
  ]

  -- A frame that starts no GOP goes to the newest one.
  pub view-feed_last_gop :
      (c : GopCache M) (m : M)
      → IsRing c
      → view (feed_last_gop c m) ≡ grow_last c.single_gop_max_frame_num m (view c)
  view-feed_last_gop c m r = last_cases c m (get_gop_count c) r refl

  pub feed_last_gop-IsRing : (c : GopCache M) (m : M) → IsRing c → IsRing (feed_last_gop c m)
  unfolding feed_last_gop
  feed_last_gop-IsRing c m r =
      ground (arith, length-set c.gops (newest c) (get_or c.gops (newest c) [] ++ (m ∷ [])))

  -- What a reader of the cache is given at a position is the GOP there, oldest first.
  pub get_gop_data_at-view : (c : GopCache M) (k : ℕ) → get_gop_data_at c k ≡ get_or (view c) k []
  unfolding get_gop_data_at view
  get_gop_data_at-view c k = sym (get_or-slots c.gop_size (get_gop_count c) c.first k c.gops)
