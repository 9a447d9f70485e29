-- ===== src/Gb28181/Sip/Register/Ban.antt =====
-- gb28181/server.go: a device that has given three wrong answers is not let in again.
use lalmax.Base.{
  ℕ, ◌+◌, ◌<◌, ◌≡◌, refl, ap, ◌∙◌, sym, inl, inr, arith, true, false, List, [], ◌∷◌, ◌++◌,
  append_assoc, append_nil, map, All, Option, none, some, Option-cases, Bool-cases, ltb,
}
use lalmax.Base.Int.{ℤ}
use lalmax.Base.Text.{Text, text_eq_refl}
use lalmax.Base.Dict.{load, load-store}
use lalmax.Gb28181.Sip.Auth.{Authorization}
use lalmax.Gb28181.Sip.Register.{
  SipMessage, max_register_count, register_count, is_verified, check_authorization, needs_password,
  set_count, on_checked, on_unauthorized, register_id, on_register,
}
use lalmax.Gb28181.Sip.Register.Guard.{IsComplete, on_register-register_id}
use lalmax.Gb28181.Sip.Register.Right.{IsRight, is_verified-IsRight}
use lalmax.Gb28181.Sip.Store.{Address, Server, Effect, respond, challenge, emit}

-- A request, with the time at which it comes and the nonce that is made up then.
pub record Attempt : Type 0 where
  pub now : ℕ
  pub random : Text
  pub req : SipMessage

abbrev pub IsFrom : Address → Attempt → Type 0
IsFrom from t = (seconds : ℤ) × IsComplete t.req from seconds

-- What a banned device is answered.
abbrev pub refusal : Text → Attempt → Effect
refusal nonce t = elim t.req.authorization [ none ↦ challenge nonce | some _ ↦ respond 403 [] ]

module _ {L : Type 0} (md5_hex : Text → Text) where
  unfoldable pub attempts : List Attempt → Server L → Server L
  unfolding on_register
  attempts [] s = s
  attempts (t ∷ ts) s = attempts ts (on_register md5_hex t.now t.random t.req s)

  -- A request with an authorization that is not the right answer.
  abbrev pub IsWrong : Text → Attempt → Server L → Type 0
  IsWrong id t s = (a : Authorization) × (t.req.authorization ≡ some a) × ¬ IsRight md5_hex id a s

  module _ (from : Address) where
    -- After a wrong answer: one refusal more, and a nonce that stays.
    record IsRefused (s t : Server L) : Type 0 where
      same_conf : t.conf ≡ s.conf
      same_devices : t.devices ≡ s.devices
      counted : register_count from.user t ≡ register_count from.user s + 1
      known : (n : Text) × (load from.user t.device_nonce ≡ some n)

    register_count-set_count :
        (n : ℕ) (s : Server L) → register_count from.user (set_count from.user n s) ≡ n
    unfolding register_count set_count
    register_count-set_count n s =
        rw
          (
            register_count,
            load-store from.user from.user n s.device_register_count,
            text_eq_refl from.user,
          )
          refl

    on_unauthorized-IsRefused :
        (random : Text) (s : Server L)
        → IsRefused s (
            on_unauthorized from.user random
              (set_count from.user (register_count from.user s + 1) s))
    unfolding emit set_count register_count on_unauthorized
    on_unauthorized-IsRefused random s =
        let k : ℕ = register_count from.user s + 1 in
        let counted = register_count-set_count k s in
        elim (Option-cases (load from.user s.device_nonce)) [
          | inl fresh ↦
              rw (on_unauthorized, fresh)
                (record {
                  same_conf = refl;
                  same_devices = refl;
                  counted = counted;
                  known = (
                    random,
                    rw
                        (
                          load-store from.user from.user random s.device_nonce,
                          text_eq_refl from.user,
                        )
                        refl,
                  );
                })
          | inr (n, stored) ↦
              rw (on_unauthorized, stored)
                (record {
                  same_conf = refl;
                  same_devices = refl;
                  counted = counted;
                  known = (n, stored);
                })
        ]

    wrong-IsRefused :
        (t : Attempt) (s : Server L)
        → IsFrom from t
        → needs_password s ≡ true
        → register_count from.user s < 4
        → IsWrong from.user t s
        → IsRefused s (on_register md5_hex t.now t.random t.req s)
    unfolding on_checked register_id check_authorization
    wrong-IsRefused t s (seconds, c) locked few (a, given, wrong) =
        let free : ltb max_register_count (register_count from.user s) ≡ false = ground arith in
        let bad : is_verified md5_hex from.user a s ≡ false =
          elim (Bool-cases (is_verified md5_hex from.user a s)) [
            | inl right ↦ absurd (wrong (is_verified-IsRight md5_hex from.user a s right))
            | inr e ↦ e
          ] in
        rw
          (
            on_register-register_id md5_hex t.now t.random t.req from seconds s c,
            register_id,
            locked,
            given,
            check_authorization,
            free,
            bad,
          )
          (on_unauthorized-IsRefused t.random s)

    module _ (n : Text) where
      record IsBanned (s : Server L) : Type 0 where
        locked : needs_password s ≡ true
        many : ltb max_register_count (register_count from.user s) ≡ true
        known : load from.user s.device_nonce ≡ some n

      emit-IsBanned : (e : Effect) (s : Server L) → IsBanned s → IsBanned (emit e s)
      unfolding emit needs_password register_count
      emit-IsBanned e s b = record { locked = b.locked; many = b.many; known = b.known }

      banned-refusal :
          (t : Attempt) (s : Server L)
          → (a : Option Authorization) → t.req.authorization ≡ a
          → IsFrom from t
          → IsBanned s
          → on_register md5_hex t.now t.random t.req s ≡ emit (refusal n t) s
      unfolding register_id on_checked
      banned-refusal t s none e (seconds, c) b =
          rw
            (
              on_register-register_id md5_hex t.now t.random t.req from seconds s c,
              register_id,
              b.locked,
              e,
              on_unauthorized,
              b.known,
            )
            refl
      banned-refusal t s (some a) e (seconds, c) b =
          rw
            (
              on_register-register_id md5_hex t.now t.random t.req from seconds s c,
              register_id,
              b.locked,
              e,
              check_authorization,
              b.many,
            )
            refl

      attempts-refusals :
          (ts : List Attempt) (s : Server L)
          → All (IsFrom from) ts
          → IsBanned s
          → attempts ts s ≡ record s { effects = s.effects ++ map (refusal n) ts }
      unfolding attempts emit
      attempts-refusals [] s h b = ap (λ es. record s { effects = es }) (sym (append_nil s.effects))
      attempts-refusals (t ∷ ts) s (h, hs) b =
          rw (banned-refusal t s t.req.authorization refl h b) (
            attempts-refusals ts (emit (refusal n t) s) hs (emit-IsBanned (refusal n t) s b)
            ∙ ap (λ es. record s { effects = es })
                (append_assoc s.effects (refusal n t ∷ []) (map (refusal n) ts)))

    -- With a password set, a device that has not been refused sends three complete requests with wrong
    -- answers, and then any complete requests, right answers among them. No device has been entered
    -- or changed by the three; and the later ones change nothing at all, and are each answered with
    -- 403, or with the stored nonce where they carry no authorization.
    pub attempts-banned :
        (w1 w2 w3 : Attempt) (ts : List Attempt) (s : Server L)
        → needs_password s ≡ true
        → load from.user s.device_register_count ≡ none
        → IsFrom from w1
        → IsFrom from w2
        → IsFrom from w3
        → IsWrong from.user w1 s
        → IsWrong from.user w2 (attempts (w1 ∷ []) s)
        → IsWrong from.user w3 (attempts (w1 ∷ w2 ∷ []) s)
        → All (IsFrom from) ts
        → let t = attempts (w1 ∷ w2 ∷ w3 ∷ []) s in
          (t.devices ≡ s.devices)
          × ((n : Text) × (load from.user t.device_nonce ≡ some n)
              × (attempts ts t ≡ record t { effects = t.effects ++ map (refusal n) ts }))
    unfolding attempts needs_password
    attempts-banned w1 w2 w3 ts s locked new f1 f2 f3 x1 x2 x3 fs =
        let one : register_count from.user s ≡ 1 = rw (register_count, new) refl in
        let s1 = on_register md5_hex w1.now w1.random w1.req s in
        let r1 = wrong-IsRefused w1 s f1 locked (omega (arith, one)) x1 in
        let l1 : needs_password s1 ≡ true = rw r1.same_conf locked in
        let s2 = on_register md5_hex w2.now w2.random w2.req s1 in
        let r2 = wrong-IsRefused w2 s1 f2 l1 (omega (arith, one, r1.counted)) x2 in
        let l2 : needs_password s2 ≡ true = rw r2.same_conf l1 in
        let s3 = on_register md5_hex w3.now w3.random w3.req s2 in
        let r3 = wrong-IsRefused w3 s2 f3 l2 (omega (arith, one, r1.counted, r2.counted)) x3 in
        let l3 : needs_password s3 ≡ true = rw r3.same_conf l2 in
        let (n, known) = r3.known in
        let four : register_count from.user s3 ≡ 4 =
          omega (arith, one, r1.counted, r2.counted, r3.counted) in
        let many : ltb max_register_count (register_count from.user s3) ≡ true = rw four refl in
        (
          r3.same_devices ∙ r2.same_devices ∙ r1.same_devices,
          (
            n,
            known,
            attempts-refusals n ts s3 fs (record { locked = l3; many = many; known = known }),
          ),
        )
