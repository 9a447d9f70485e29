-- ===== src/Server/Middle.antt =====
-- server/middle.go: the checks in front of the handlers.
use lalmax.Base.{
  ℕ, ◌≡◌, ◌↔◌, ◌⊎◌, refl, sym, inl, inr, arith, Bool, true, false, List, [], ◌∷◌, ltb, ◌==◌, ◌&&◌,
  not, if◌then◌else◌, length, Bool-cases,
}
use lalmax.Base.Text.{Text, text_eq, text_eq_iff, codes}
use mathlib.Core.List.{Memᴰ}
use mathlib.Core.List.Memᴰ

unfoldable pub contain_fn : List Text → Text → Bool
unfolding text_eq
contain_fn [] t = false
contain_fn (v ∷ ts) t = if text_eq v t then true else contain_fn ts t

unfoldable pub authentication : Text → Text → List Text → List Text → Bool
unfolding contain_fn
authentication req_token client_ip secrets ips =
    if ltb 0 (length secrets) && not (contain_fn secrets req_token)
    then false
    else if ltb 0 (length ips) && not (contain_fn ips client_ip)
    then false
    else true

-- What a middleware does to gin's context. A call of Abort would be another constructor: neither
-- branch of Authentication has one.
pub data Call : Type 0 where
  -- The status, and the error code and the text of the body.
  json : ℕ → ℕ → Text → Call
  next : Call

-- A request that fails the check is answered, and the middleware returns.
unfoldable pub authentication_middleware : List Text → List Text → Text → Text → List Call
unfolding authentication
authentication_middleware secrets ips req_token client_ip =
    if not (authentication req_token client_ip secrets ips)
    then json 200 401 (codes "Unauthorized") ∷ []
    else next ∷ []

-- The headers that Cors sets, and whether it ends the request.
unfoldable pub cors : Text → Text → List (Text × Text) × Bool
unfolding text_eq
cors method origin = (
  (codes "Access-Control-Allow-Origin", if length origin == 0 then codes "*" else origin)
      ∷ (codes "Access-Control-Allow-Methods", codes "POST, GET, OPTIONS, PUT, DELETE,UPDATE")
      ∷ (codes "Access-Control-Allow-Headers", codes "Content-Type,Access-Token")
      ∷ (codes "Access-Control-Allow-Credentials", codes "true")
      ∷ (codes "Cross-Origin-Resource-Policy", codes "cross-origin")
      ∷ [],
  text_eq method (codes "OPTIONS"),
)

contain_fn-Memᴰ : (ts : List Text) (t : Text) → (contain_fn ts t ≡ true) ↔ Memᴰ t ts
unfolding contain_fn
contain_fn-Memᴰ [] t = (λ e. absurd (ground arith), λ m. absurd (Memᴰ.not-nil m))
contain_fn-Memᴰ (v ∷ ts) t = elim (Bool-cases (text_eq v t)) [
  | inl same ↦ (λ e. Memᴰ.head (sym ((text_eq_iff v t).0 same)), λ m. rw same refl)
  | inr other ↦ (
    λ e. Memᴰ.tail ((contain_fn-Memᴰ ts t).0 (rw other at e)),
    λ m. elim (Memᴰ.cases_cons m) [
      | inl same ↦
          let eq : text_eq v t ≡ true = (text_eq_iff v t).1 (sym same) in absurd (ground arith)
      | inr later ↦ rw other ((contain_fn-Memᴰ ts t).1 later)
    ],
  )
]

-- An empty list lets everything pass.
abbrev pub IsAllowed : List Text → Text → Type 0
IsAllowed [] t = Unit
IsAllowed (v ∷ ts) t = Memᴰ t (v ∷ ts)

passes : List Text → Text → Bool
passes ts t = not (ltb 0 (length ts) && not (contain_fn ts t))

passes-IsAllowed : (ts : List Text) (t : Text) → (passes ts t ≡ true) ↔ IsAllowed ts t
unfolding passes
passes-IsAllowed [] t = (λ e. tt, λ a. refl)
passes-IsAllowed (v ∷ ts) t =
    let some_allowed : ltb 0 (length (v ∷ ts)) ≡ true = ground arith in
    elim (Bool-cases (contain_fn (v ∷ ts) t)) [
      | inl known ↦ (λ e. (contain_fn-Memᴰ (v ∷ ts) t).0 known, λ m. rw (known, some_allowed) refl)
      | inr unknown ↦ (
        λ e. absurd (ground (arith, rw unknown at e)),
        λ m.
            let known = (contain_fn-Memᴰ (v ∷ ts) t).1 m in absurd (ground (arith, known, unknown)),
      )
    ]

both_pass :
    (a b : Bool)
    → ((if a then false else if b then false else true) ≡ true) ↔ ((not a ≡ true) × (not b ≡ true))
both_pass true b = (λ e. absurd (ground arith), λ h. absurd (ground (arith, h.0)))
both_pass false true = (λ e. absurd (ground arith), λ h. absurd (ground (arith, h.1)))
both_pass false false = (λ e. (refl, refl), λ h. refl)

authentication-IsAllowed :
    (req_token client_ip : Text) (secrets ips : List Text)
    → (authentication req_token client_ip secrets ips ≡ true)
      ↔ (IsAllowed secrets req_token × IsAllowed ips client_ip)
unfolding authentication passes
authentication-IsAllowed token ip secrets ips =
    let split =
      both_pass (ltb 0 (length secrets) && not (contain_fn secrets token))
        (ltb 0 (length ips) && not (contain_fn ips ip)) in
    (
      λ e.
          let (s, a) = split.0 e in
          ((passes-IsAllowed secrets token).0 s, (passes-IsAllowed ips ip).0 a),
      λ h. split.1 ((passes-IsAllowed secrets token).1 h.0, (passes-IsAllowed ips ip).1 h.1),
    )

-- The middleware does nothing but call Next if the token is one of the secrets, or there are none, and
-- the address is one of the addresses, or there are none; and else nothing but answer 200 with the
-- error 401. So it never aborts: whether gin stops after a refusal is not decided here.
pub authentication_middleware-IsAllowed :
    (secrets ips : List Text) (req_token client_ip : Text)
    → (IsAllowed secrets req_token
        × IsAllowed ips client_ip
        × (authentication_middleware secrets ips req_token client_ip ≡ next ∷ []))
      ⊎ ((¬ (IsAllowed secrets req_token × IsAllowed ips client_ip))
          × (authentication_middleware secrets ips req_token client_ip
              ≡ json 200 401 (codes "Unauthorized") ∷ []))
unfolding authentication_middleware
authentication_middleware-IsAllowed secrets ips token ip =
    let exactly = authentication-IsAllowed token ip secrets ips in
    elim (Bool-cases (authentication token ip secrets ips)) [
      | inl allowed ↦
          let (s, a) = exactly.0 allowed in inl (s, a, rw (authentication_middleware, allowed) refl)
      | inr refused ↦ inr (
        λ h. let both = exactly.1 h in absurd (ground (arith, both, refused)),
        rw (authentication_middleware, refused) refl,
      )
    ]
