-- ===== src/Gb28181/Ports.antt =====
-- gb28181/avail_conn_pool.go: AvailConnPool, which looks for a port that can be listened on. The mutex
-- makes each call one step. The listen function is a parameter; it is `none` while it is not set,
-- and its result is `none` where the source has an error.
pub mod Acquire
use lalmax.Base.{
  ℕ, zero, suc, ◌+◌, ◌^◌, ◌%◌, Bool, true, false, ◌&&◌, not, Option, none, some, ◌==◌,
  if◌then◌else◌, u16,
}

pub record AvailConnPool (L : Type 0) : Type 0 where
  pub min_port : ℕ
  pub max_port : ℕ
  pub last_port : ℕ
  pub on_listen_with_port : Option (ℕ → Option L)

-- The results of `Acquire`: a listener and its port, or ErrNazaNet. `stuck` is the model's own: the
-- fuel of the loop ran out.
pub data Acquired (L : Type 0) : Type 0 where
  got : L → ℕ → Acquired L
  net_error : Acquired L
  stuck : Acquired L

module _ {L : Type 0} where
  unfoldable pub new_avail_conn_pool : ℕ → ℕ → AvailConnPool L
  new_avail_conn_pool min_port max_port = record {
    min_port = min_port;
    max_port = max_port;
    last_port = min_port;
    on_listen_with_port = none;
  }

  unfoldable pub with_listen_with_port : AvailConnPool L → (ℕ → Option L) → AvailConnPool L
  with_listen_with_port a f = record a { on_listen_with_port = some f }

  unfoldable pub next_port : AvailConnPool L → ℕ → ℕ
  next_port a p = if p == a.max_port then a.min_port else u16 (p + 1)

  unfoldable pub listen_with_port : AvailConnPool L → ℕ → Option L
  listen_with_port a p = elim a.on_listen_with_port [ none ↦ none | some f ↦ f p ]

  -- The loop of `Acquire`; `first` is loopFirstFlag.
  unfoldable pub acquire_loop : ℕ → AvailConnPool L → Bool → ℕ → Acquired L × AvailConnPool L
  unfolding next_port
  acquire_loop zero a first p = (stuck, a)
  acquire_loop (suc fuel) a first p = elim (not first && p == a.last_port) [
    | true ↦ (net_error, a)
    | false ↦ elim a.on_listen_with_port [
      | none ↦ (net_error, a)
      | some f ↦ elim (f p) [
        | none ↦ acquire_loop fuel a false (next_port a p)
        | some l ↦ (got l p, record a { last_port = next_port a p })
      ]
    ]
  ]

  -- There are 2^16 ports, and the loop returns to where it began.
  unfoldable pub acquire : AvailConnPool L → Acquired L × AvailConnPool L
  unfolding acquire_loop
  acquire a = acquire_loop (2 ^ 16 + 1) a true a.last_port

  -- `Peek` closes what it acquires; `close` says whether that succeeds. The port it returns is 0
  -- where `Acquire` fails.
  unfoldable pub peek : (L → Bool) → AvailConnPool L → (ℕ × Bool) × AvailConnPool L
  unfolding acquire
  peek close a =
      let r = acquire a in
      (elim r.0 [ got l p ↦ (p, close l) | net_error ↦ (0, false) | stuck ↦ (0, false) ], r.1)
