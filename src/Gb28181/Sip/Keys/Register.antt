-- ===== src/Gb28181/Sip/Keys/Register.antt =====
-- gb28181: a registration keeps the maps keyed, and no device gets more than four refusals.
use lalmax.Base.{
  ℕ, ◌+◌, ◌≤◌, refl, inl, inr, arith, Bool, true, false, List, [], Option-cases, Bool-cases, ltb,
  length, ◌==◌,
}
use lalmax.Base.Text.{Text, parse_int}
use lalmax.Base.Dict.{load, AllEntries, store-AllEntries, delete-AllEntries}
use lalmax.Gb28181.Sip.Auth.{Authorization}
use lalmax.Gb28181.Sip.Devices.{sync_channels}
use lalmax.Gb28181.Sip.Keys.{HasKey, IsKeyed, KeepsKey, sync_channels-KeepsKey, adjust-IsKeyed}
use lalmax.Gb28181.Sip.Register.{
  is_zero, SipMessage, Checked, banned, passed, refused, max_register_count, register_count,
  is_verified, check_authorization, set_count, needs_password, on_checked, on_pass, on_unauthorized,
  register_id, on_register, enter, store_device, new_device, update_source, recover_device,
  sync_device, forget,
}
use lalmax.Gb28181.Sip.Store.{Address, Server, respond, emit}

abbrev pub IsCounted : List (Text × ℕ) → Type 0
IsCounted = AllEntries (λ _ n. n ≤ max_register_count + 1)

-- Every device is stored under its id, every channel under its id, and no device has more than four
-- refusals.
abbrev pub IsSound : {L : Type 0} → Server L → Type 0
IsSound s = IsKeyed s.devices × IsCounted s.device_register_count

module _ {L : Type 0} where
  pub recover_device-KeepsKey :
      (now : ℕ) (from : Address) (req : SipMessage) (s : Server L)
      → KeepsKey (recover_device now from req s)
  unfolding recover_device update_source
  recover_device-KeepsKey now from req s k d h = h

  pub store_device-IsSound :
      (now : ℕ) (id : Text) (from : Address) (req : SipMessage) (s : Server L)
      → IsSound s
      → IsSound (store_device now id from req s)
  unfolding store_device new_device update_source
  store_device-IsSound now id from req s (keyed, counted) =
      elim (Option-cases (load id s.devices)) [
        | inl fresh ↦
            rw (store_device, fresh)
              (
                store-AllEntries HasKey id (new_device now id from req s) s.devices keyed
                    (refl, tt),
                counted,
              )
        | inr (d, known) ↦
            rw (store_device, known) (adjust-IsKeyed id _ s.devices (λ k d h. h) keyed, counted)
      ]

  enter-IsSound :
      (now : ℕ) (id : Text) (from : Address) (req : SipMessage) (s : Server L)
      → IsSound s
      → IsSound (enter now id from req s)
  unfolding enter
  enter-IsSound now id from req s (keyed, counted) = elim (Option-cases (load id s.devices)) [
    | inl fresh ↦ rw (enter, fresh) (store_device-IsSound now id from req s (keyed, counted))
    | inr (d, known) ↦
        rw (enter, known)
          (
            adjust-IsKeyed id (recover_device now from req s) s.devices
                (recover_device-KeepsKey now from req s) keyed,
            counted,
          )
  ]

  pub sync_device-IsSound :
      (now : ℕ) (id : Text) (s : Server L) → IsSound s → IsSound (sync_device now id s)
  unfolding sync_device
  sync_device-IsSound now id s (keyed, counted) = elim (Option-cases (load id s.devices)) [
    | inl gone ↦ rw (sync_device, gone) (keyed, counted)
    | inr (d, there) ↦
        rw (sync_device, there)
          (
            adjust-IsKeyed id (λ d. (sync_channels now d).0) s.devices (sync_channels-KeepsKey now)
                keyed,
            counted,
          )
  ]

  on_pass-IsSound :
      (now : ℕ) (id : Text) (from : Address) (req : SipMessage) (gone : Bool) (s : Server L)
      → IsSound s
      → IsSound (on_pass now id from req gone s)
  unfolding on_pass forget emit
  on_pass-IsSound now id from req true s (keyed, counted) =
      elim (Option-cases (load id s.devices)) [
        | inl fresh ↦ rw (on_pass, fresh) (keyed, counted)
        | inr (d, known) ↦
            rw (on_pass, known)
              (
                delete-AllEntries HasKey id s.devices keyed,
                delete-AllEntries (λ _ n. n ≤ max_register_count + 1) id s.device_register_count
                    counted,
              )
      ]
  on_pass-IsSound now id from req false s h =
      let t = enter-IsSound now id from req s h in
      sync_device-IsSound now id (emit (respond 200 []) (forget id (enter now id from req s))) (
        t.0,
        delete-AllEntries (λ _ n. n ≤ max_register_count + 1) id
            (enter now id from req s).device_register_count t.1,
      )

  on_unauthorized-IsSound :
      (id random : Text) (s : Server L) → IsSound s → IsSound (on_unauthorized id random s)
  unfolding on_unauthorized emit
  on_unauthorized-IsSound id random s h = elim (Option-cases (load id s.device_nonce)) [
    | inl fresh ↦ rw (on_unauthorized, fresh) h
    | inr (n, known) ↦ rw (on_unauthorized, known) h
  ]

  set_count-IsSound :
      (id : Text) (n : ℕ) (s : Server L)
      → n ≤ max_register_count + 1
      → IsSound s
      → IsSound (set_count id n s)
  unfolding set_count
  set_count-IsSound id n s few (keyed, counted) = (
    keyed,
    store-AllEntries (λ _ m. m ≤ max_register_count + 1) id n s.device_register_count counted few,
  )

  on_checked-IsSound :
      (now : ℕ) (random id : Text) (from : Address) (req : SipMessage) (gone : Bool) (c : Checked)
      (s : Server L)
      → IsSound s
      → IsSound (on_checked now random id from req gone (c, s))
  unfolding on_checked emit
  on_checked-IsSound now random id from req gone banned s h = h
  on_checked-IsSound now random id from req gone passed s h =
      on_pass-IsSound now id from req gone s h
  on_checked-IsSound now random id from req gone refused s h = on_unauthorized-IsSound id random s h

  module _ (md5_hex : Text → Text) where
    check_authorization-IsSound :
        (id : Text) (auth : Authorization) (s : Server L)
        → IsSound s
        → IsSound (check_authorization md5_hex id auth s).1
    unfolding check_authorization
    check_authorization-IsSound id auth s h =
        elim (Bool-cases (ltb max_register_count (register_count id s))) [
          | inl many ↦ rw (check_authorization, many) h
          | inr few ↦
              let low : register_count id s + 1 ≤ max_register_count + 1 = ground arith in
              elim (Bool-cases (is_verified md5_hex id auth s)) [
                | inl right ↦
                    rw (check_authorization, few, right)
                      (set_count-IsSound id (register_count id s) s (omega arith) h)
                | inr wrong ↦
                    rw (check_authorization, few, wrong)
                      (set_count-IsSound id (register_count id s + 1) s low h)
              ]
        ]

    register_id-IsSound :
        (now : ℕ) (random id : Text) (from : Address) (req : SipMessage) (gone : Bool)
        (s : Server L)
        → IsSound s
        → IsSound (register_id md5_hex now random id from req gone s)
    unfolding register_id
    register_id-IsSound now random id from req gone s h = elim (Bool-cases (needs_password s)) [
      | inr unlocked ↦
          rw (register_id, unlocked) (on_checked-IsSound now random id from req gone passed s h)
      | inl locked ↦ elim (Option-cases req.authorization) [
        | inl absent ↦
            rw (register_id, locked, absent)
              (on_checked-IsSound now random id from req gone refused s h)
        | inr (auth, given) ↦
            let r = check_authorization md5_hex id auth s in
            rw (register_id, locked, given)
              (on_checked-IsSound now random id from req gone r.0 r.1
                (check_authorization-IsSound id auth s h))
      ]
    ]

    pub on_register-IsSound :
        (now : ℕ) (random : Text) (req : SipMessage) (s : Server L)
        → IsSound s
        → IsSound (on_register md5_hex now random req s)
    unfolding on_register
    on_register-IsSound now random req s h = elim (Option-cases req.from) [
      | inl nobody ↦ rw (on_register, nobody) h
      | inr (from, sender) ↦ elim (Option-cases req.expires) [
        | inl no_value ↦ rw (on_register, sender, no_value) h
        | inr (value, given) ↦ elim (Option-cases (parse_int 32 value)) [
          | inl bad ↦ rw (on_register, sender, given, bad) h
          | inr (seconds, good) ↦ elim (Bool-cases (length from.user == 20)) [
            | inl twenty ↦
                rw (on_register, sender, given, good, twenty)
                  (register_id-IsSound now random from.user from req (is_zero seconds) s h)
            | inr wrong ↦ rw (on_register, sender, given, good, wrong) h
          ]
        ]
      ]
    ]
