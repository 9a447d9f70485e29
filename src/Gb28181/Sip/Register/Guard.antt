-- ===== src/Gb28181/Sip/Register/Guard.antt =====
-- gb28181/server.go: what a registration needs, and what it is answered without it.
use lalmax.Base.{
  ℕ, ◌+◌, ◌≡◌, refl, ◌⊎◌, inl, inr, arith, Bool, true, false, [], ◌∷◌, ◌++◌, Option, none, some,
  Option-cases, Bool-cases, ltb, ◌==◌, length,
}
use lalmax.Base.Int.{ℤ}
use lalmax.Base.Text.{Text, parse_int}
use lalmax.Base.Dict.{load}
use lalmax.Gb28181.Sip.Auth.{Authorization}
use lalmax.Gb28181.Sip.Register.{
  is_zero, SipMessage, max_register_count, register_count, is_verified, check_authorization,
  needs_password, set_count, on_checked, on_unauthorized, register_id, on_register,
}
use lalmax.Gb28181.Sip.Register.Right.{IsAuthorized, is_verified-IsRight}
use lalmax.Gb28181.Sip.Store.{Address, Server, Effect, respond, challenge, emit}

-- A server that has the same devices, and has sent one refusal more.
pub record IsRefusal {L : Type 0} (s t : Server L) : Type 0 where
  pub devices : t.devices ≡ s.devices
  pub media_servers : t.media_server_map ≡ s.media_server_map
  pub answer :
      (e : Effect) × (t.effects ≡ s.effects ++ (e ∷ []))
      × ((e ≡ respond 403 []) ⊎ ((n : Text) × (e ≡ challenge n)))

-- What a request has to hold for the server to look at its authorization.
pub record IsComplete (req : SipMessage) (from : Address) (seconds : ℤ) : Type 0 where
  pub sender : req.from ≡ some from
  pub id_length : length from.user ≡ 20
  pub expires : (value : Text) × (req.expires ≡ some value) × (parse_int 32 value ≡ some seconds)

module _ {L : Type 0} (md5_hex : Text → Text) where
  on_unauthorized-IsRefusal :
      (id random : Text) (s t : Server L)
      → t.devices ≡ s.devices
      → t.media_server_map ≡ s.media_server_map
      → t.effects ≡ s.effects
      → IsRefusal s (on_unauthorized id random t)
  unfolding on_unauthorized emit
  on_unauthorized-IsRefusal id random s t d m e = elim (Option-cases (load id t.device_nonce)) [
    | inl fresh ↦
        rw (on_unauthorized, fresh)
          (record {
            devices = d;
            media_servers = m;
            answer = (challenge random, rw e refl, inr (random, refl));
          })
    | inr (n, known) ↦
        rw (on_unauthorized, known)
          (record {
            devices = d;
            media_servers = m;
            answer = (challenge n, rw e refl, inr (n, refl));
          })
  ]

  not_verified :
      (id : Text) (auth : Authorization) (s : Server L)
      → ltb max_register_count (register_count id s) ≡ false
      → ¬ IsAuthorized md5_hex id (some auth) s
      → is_verified md5_hex id auth s ≡ false
  not_verified id auth s few h = elim (Bool-cases (is_verified md5_hex id auth s)) [
    | inl right ↦ absurd (h (ground (arith, few), is_verified-IsRight md5_hex id auth s right))
    | inr wrong ↦ wrong
  ]

  register_id-IsRefusal :
      (now : ℕ) (random id : Text) (from : Address) (req : SipMessage) (gone : Bool) (s : Server L)
      → needs_password s ≡ true
      → (a : Option Authorization) → req.authorization ≡ a
      → ¬ IsAuthorized md5_hex id a s
      → IsRefusal s (register_id md5_hex now random id from req gone s)
  unfolding register_id on_checked
  register_id-IsRefusal now random id from req gone s locked none e h =
      rw (register_id, locked, e) (on_unauthorized-IsRefusal id random s s refl refl refl)
  register_id-IsRefusal now random id from req gone s locked (some auth) e h =
      elim (Bool-cases (ltb max_register_count (register_count id s))) [
        | inl many ↦
            rw (register_id, locked, e, check_authorization, many, on_checked, emit)
              (record {
                devices = refl;
                media_servers = refl;
                answer = (respond 403 [], refl, inl refl);
              })
        | inr few ↦
            let wrong : is_verified md5_hex id auth s ≡ false = not_verified id auth s few h in
            rw (register_id, locked, e, check_authorization, few, wrong, on_checked)
              (on_unauthorized-IsRefusal id random s (set_count id (register_count id s + 1) s) refl
                refl refl)
      ]

  pub on_register-register_id :
      (now : ℕ) (random : Text) (req : SipMessage) (from : Address) (seconds : ℤ) (s : Server L)
      → IsComplete req from seconds
      → on_register md5_hex now random req s
        ≡ register_id md5_hex now random from.user from req (is_zero seconds) s
  unfolding on_register
  on_register-register_id now random req from seconds s c =
      let (value, given, parsed) = c.expires in
      let twenty : (length from.user == 20) ≡ true = ground (arith, c.id_length) in
      rw (on_register, c.sender, given, parsed, twenty) refl

  -- With a password set, a complete request that holds no right answer to a nonce that the server has
  -- stored for the device, or comes after more than three refusals, changes no device and no media
  -- server, and is answered with 401 or 403. The right answer is the digest of RFC 2617 with no qop.
  pub on_register-IsRefusal :
      (now : ℕ) (random : Text) (req : SipMessage) (from : Address) (seconds : ℤ) (s : Server L)
      → IsComplete req from seconds
      → needs_password s ≡ true
      → ¬ IsAuthorized md5_hex from.user req.authorization s
      → IsRefusal s (on_register md5_hex now random req s)
  on_register-IsRefusal now random req from seconds s c locked wrong =
      rw (on_register-register_id now random req from seconds s c) (
        register_id-IsRefusal now random from.user from req (is_zero seconds) s locked
          req.authorization refl wrong)
