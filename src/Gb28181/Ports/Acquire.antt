-- ===== src/Gb28181/Ports/Acquire.antt =====
-- gb28181/avail_conn_pool.go: what Acquire finds.
use lalmax.Base.{
  ℕ, zero, suc, ◌+◌, ◌-◌, ◌^◌, ◌≤◌, ◌<◌, ◌≡◌, refl, ◌⊎◌, inl, inr, arith, Bool, true, false, ◌&&◌,
  not, Option, none, some, Option-cases, ◌==◌,
}
use lalmax.Gb28181.Ports.{AvailConnPool, Acquired, got, net_error, next_port, acquire_loop, acquire}
use native.Mathlib.Decide.{dec_lt}

-- The range is one of uint16, and the next port to try lies in it.
pub record IsPool {L : Type 0} (a : AvailConnPool L) : Type 0 where
  pub low : a.min_port ≤ a.last_port
  pub high : a.last_port ≤ a.max_port
  pub width : a.max_port < 2 ^ 16

abbrev pub Result : Type 0 → Type 0
Result L = Acquired L × AvailConnPool L

module _ {L : Type 0} (a : AvailConnPool L) (f : ℕ → Option L) where
  -- A listener on a port of the range; the search goes on behind that port next time.
  pub record Found (r : Result L) : Type 0 where
    pub port : ℕ
    pub listener : L
    pub above : a.min_port ≤ port
    pub below : port ≤ a.max_port
    pub listens : f port ≡ some listener
    pub is_result : r ≡ (got listener port, record a { last_port = next_port a port })

  -- Or the error, the pool unchanged and no port of `S` usable.
  abbrev pub Search : (ℕ → Type 0) → Result L → Type 0
  Search S r = Found r ⊎ ((r ≡ (net_error, a)) × ((q : ℕ) → S q → f q ≡ none))

  next_port_in :
      (p : ℕ)
      → IsPool a
      → a.min_port ≤ p
      → p ≤ a.max_port
      → (a.min_port ≤ next_port a p) × (next_port a p ≤ a.max_port)
  unfolding next_port
  next_port_in p v lo hi = ground (arith, v.low, v.high, v.width)

  miss :
      (fuel : ℕ) (first : Bool) (p : ℕ)
      → a.on_listen_with_port ≡ some f
      → not first && p == a.last_port ≡ false
      → f p ≡ none
      → acquire_loop (suc fuel) a first p ≡ acquire_loop fuel a false (next_port a p)
  unfolding acquire_loop
  miss fuel first p e t h = ground arith

  hit :
      (fuel : ℕ) (first : Bool) (p : ℕ) (l : L)
      → a.on_listen_with_port ≡ some f
      → not first && p == a.last_port ≡ false
      → f p ≡ some l
      → acquire_loop (suc fuel) a first p ≡ (got l p, record a { last_port = next_port a p })
  unfolding acquire_loop
  hit fuel first p l e t h = ground arith

  -- One round: a port that can be used ends the search, and any other is left out of it.
  round :
      (S T : ℕ → Type 0) (fuel : ℕ) (first : Bool) (p : ℕ)
      → a.on_listen_with_port ≡ some f
      → not first && p == a.last_port ≡ false
      → a.min_port ≤ p
      → p ≤ a.max_port
      → ((q : ℕ) → S q → (q ≡ p) ⊎ T q)
      → Search T (acquire_loop fuel a false (next_port a p))
      → Search S (acquire_loop (suc fuel) a first p)
  round S T fuel first p e t lo hi split rest = elim (Option-cases (f p)) [
    | inl h ↦ rw (miss fuel first p e t h) (widen rest h)
    | inr (l, h) ↦ inl (record {
      port = p;
      listener = l;
      above = lo;
      below = hi;
      listens = h;
      is_result = hit fuel first p l e t h;
    })
  ]
    where
      widen : {r : Result L} → Search T r → f p ≡ none → Search S r
      widen (inl x) h = inl x
      widen (inr (same, fails)) h =
          inr (same, λ q s. elim (split q s) [ inl at ↦ rw at h | inr t' ↦ fails q t' ])

  -- The loop below the last port, down to it.
  below_last :
      (fuel p : ℕ)
      → a.on_listen_with_port ≡ some f
      → IsPool a
      → a.min_port ≤ p
      → p ≤ a.last_port
      → a.last_port - p < fuel
      → Search (λ q. (p ≤ q) × (q < a.last_port)) (acquire_loop fuel a false p)
  below_last zero p e v lo hi h = absurd (omega arith)
  below_last (suc fuel) p e v lo hi h = elim (dec_lt p a.last_port) [
    | yes lt ↦
        round (λ q. (p ≤ q) × (q < a.last_port)) (λ q. (p + 1 ≤ q) × (q < a.last_port)) fuel false p
          e (ground arith) lo (omega (arith, v.high)) (λ q s. ground arith)
          (rw (step_below p v lt)
            (below_last fuel (p + 1) e v (omega arith) (omega arith) (omega arith)))
    | no ge ↦ inr (stopped fuel p (omega arith), λ q s. absurd (omega arith))
  ]
    where
      step_below : (p : ℕ) → IsPool a → p < a.last_port → next_port a p ≡ p + 1
      step_below p v lt = unfold next_port in ground arith

      stopped : (fuel p : ℕ) → p ≡ a.last_port → acquire_loop (suc fuel) a false p ≡ (net_error, a)
      stopped fuel p e = unfold acquire_loop in ground arith

  step_up : (p : ℕ) → IsPool a → p < a.max_port → next_port a p ≡ p + 1
  unfolding next_port
  step_up p v lt = ground arith

  step_round : (p : ℕ) → p ≡ a.max_port → next_port a p ≡ a.min_port
  unfolding next_port
  step_round p e = ground arith

  abbrev Above : ℕ → ℕ → Type 0
  Above p q = ((p ≤ q) × (q ≤ a.max_port)) ⊎ ((a.min_port ≤ q) × (q < a.last_port))

  -- Where the search goes on behind a port from the last one up.
  go_on :
      (fuel p : ℕ) (first : Bool)
      → a.on_listen_with_port ≡ some f
      → IsPool a
      → not first && p == a.last_port ≡ false
      → a.last_port ≤ p
      → p ≤ a.max_port
      → (p < a.max_port → Search (Above (p + 1)) (acquire_loop fuel a false (p + 1)))
      → a.last_port - a.min_port < fuel
      → Search (Above p) (acquire_loop (suc fuel) a first p)
  go_on fuel p first e v t lo hi more enough = elim (dec_lt p a.max_port) [
    | yes lt ↦
        round (Above p) (Above (p + 1)) fuel first p e t (omega (arith, v.low)) hi
          (λ q s. ground arith) (rw (step_up p v lt) (more lt))
    | no ge ↦
        round (Above p) (λ q. (a.min_port ≤ q) × (q < a.last_port)) fuel first p e t
          (omega (arith, v.low)) hi (λ q s. ground arith)
          (rw (step_round p (omega arith))
            (below_last fuel a.min_port e v (omega arith) v.low (omega arith)))
  ]

  past_last :
      (fuel p : ℕ)
      → a.on_listen_with_port ≡ some f
      → IsPool a
      → a.last_port < p
      → p ≤ a.max_port
      → a.max_port - p + 1 + (a.last_port - a.min_port) < fuel
      → Search (Above p) (acquire_loop fuel a false p)
  past_last zero p e v lo hi h = absurd (omega arith)
  past_last (suc fuel) p e v lo hi h =
      go_on fuel p false e v (ground arith) (omega arith) hi
        (λ lt. past_last fuel (p + 1) e v (omega arith) (omega arith) (omega arith)) (omega arith)

  -- In a pool whose last port lies in its range, with a listen function f: Acquire returns a listener
  -- that f gives for a port of the range, and the search goes on behind that port next time; or it
  -- returns the error, the pool is unchanged, and f fails on every port of the range.
  pub acquire-Search :
      IsPool a
      → a.on_listen_with_port ≡ some f
      → Search (λ q. (a.min_port ≤ q) × (q ≤ a.max_port)) (acquire a)
  unfolding acquire
  acquire-Search v e = elim whole [
    | inl found ↦ inl found
    | inr (same, fails) ↦ inr (same, λ q s. fails q (split q s))
  ]
    where
      whole : Search (Above a.last_port) (acquire_loop (2 ^ 16 + 1) a true a.last_port)
      whole =
          go_on (2 ^ 16) a.last_port true e v refl (omega arith) v.high
            (λ lt.
              past_last (2 ^ 16) (a.last_port + 1) e v (omega arith) (omega arith)
                (omega (arith, v.low, v.width)))
            (omega (arith, v.high, v.width))

      split : (q : ℕ) → (a.min_port ≤ q) × (q ≤ a.max_port) → Above a.last_port q
      split q s = elim (dec_lt q a.last_port) [
        | yes lt ↦ inr (s.0, lt)
        | no ge ↦ inl (omega arith, s.1)
      ]

  -- With a listen function set, Acquire keeps the last port inside the range.
  pub acquire-IsPool : IsPool a → a.on_listen_with_port ≡ some f → IsPool (acquire a).1
  acquire-IsPool v e = elim (acquire-Search v e) [
    | inl found ↦ rw found.is_result (moved found)
    | inr (same, _) ↦ rw same v
  ]
    where
      moved :
          {r : Result L} (found : Found r)
          → IsPool (record a { last_port = next_port a found.port })
      moved found =
          let (lo, hi) = next_port_in found.port v found.above found.below in
          record { low = lo; high = hi; width = v.width }
