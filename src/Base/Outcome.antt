-- ===== src/Base/Outcome.antt =====
-- What a Go call can come to, and stateful calls over a state type.

-- `panic` is a run-time panic. `below_zero` is the model's own: an offset that Go would make
-- negative, which the offsets of the model, natural numbers, cannot hold.
pub data Outcome {ℓ} (A : Type ℓ) : Type ℓ where
  ok : A → Outcome A
  panic : Outcome A
  below_zero : Outcome A
  stuck : Outcome A

abbrev pub then_outcome {ℓ κ} : {A : Type ℓ} {B : Type κ} → Outcome A → (A → Outcome B) → Outcome B
then_outcome (ok a) f = f a
then_outcome panic f = panic
then_outcome below_zero f = below_zero
then_outcome stuck f = stuck

-- A method that changes its receiver `S` and returns an `A`.
abbrev pub Stateful : Type 0 → Type 0 → Type 0
Stateful S A = S → Outcome (A × S)

infixl 5 ◌>>=◌ ◌>>◌
abbrev pub ◌>>=◌ : {S A B : Type 0} → Stateful S A → (A → Stateful S B) → Stateful S B
◌>>=◌ m f s = then_outcome (m s) (λ r. f r.0 r.1)

abbrev pub ◌>>◌ : {S A B : Type 0} → Stateful S A → Stateful S B → Stateful S B
m >> k = m >>= λ _. k

abbrev pub return : {S A : Type 0} → A → Stateful S A
return a s = ok (a, s)

abbrev pub get_state : {S : Type 0} → Stateful S S
get_state s = ok (s, s)

-- A method that only looks.
abbrev pub query : {S A : Type 0} → (S → A) → Stateful S A
query f s = ok (f s, s)
