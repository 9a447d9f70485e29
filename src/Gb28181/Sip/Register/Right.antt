-- ===== src/Gb28181/Sip/Register/Right.antt =====
-- gb28181/auth.go: when an answer to a nonce is right, written out from RFC 2617 with no qop.
use lalmax.Base.{
  ◌≤◌, ◌≡◌, sym, inl, inr, true, false, [], none, some, Option, Option-cases, ◌||◌, if◌then◌else◌,
  Bool-cases,
}
use lalmax.Base.Text.{Text, codes, text_eq, text_eq_iff}
use lalmax.Base.Dict.{load}
use lalmax.Gb28181.Sip.Auth.{Authorization, get_digest, verify, colon}
use lalmax.Gb28181.Sip.Register.{max_register_count, register_count, is_verified}
use lalmax.Gb28181.Sip.Store.{Server}

-- The answer to a nonce: the digest of the user, the realm, the password, the nonce and the URI.
unfoldable pub digest_answer : (Text → Text) → Text → Text → Text → Text → Text → Text
digest_answer md5_hex user realm password nonce uri = md5_hex (
    colon (md5_hex (colon user (colon realm password)))
      (colon nonce (md5_hex (colon (codes "REGISTER") uri))))

module _ {L : Type 0} where
  -- A camera may sign with its own id, and else with the configured user.
  abbrev pub user_of : Text → Authorization → Server L → Text
  user_of id a s = if text_eq a.username id then id else s.conf.username

  -- The server has sent the device a nonce, and the response is the answer to it.
  abbrev pub IsRight : (Text → Text) → Text → Authorization → Server L → Type 0
  IsRight md5_hex id a s =
      (nonce : Text) × (load id s.device_nonce ≡ some nonce)
      × (a.response
          ≡ digest_answer md5_hex (user_of id a s) s.conf.realm s.conf.password nonce a.uri)

  -- The right answer, from a device with no more than three refusals.
  abbrev pub IsAuthorized : (Text → Text) → Text → Option Authorization → Server L → Type 0
  IsAuthorized md5_hex id none s = ⊥
  IsAuthorized md5_hex id (some a) s =
      (register_count id s ≤ max_register_count) × IsRight md5_hex id a s

module _ (md5_hex : Text → Text) where
  verify-right :
      (user realm password nonce : Text) (a : Authorization)
      → verify md5_hex user password realm nonce a ≡ true
      → a.response ≡ digest_answer md5_hex user realm password nonce a.uri
  unfolding verify get_digest digest_answer
  verify-right user realm password nonce a e =
      elim (Bool-cases (
        text_eq (md5_hex (colon user (colon realm password))) []
        || text_eq (md5_hex (colon (codes "REGISTER") a.uri)) [])) [
          | inl bad ↦ let no : false ≡ true = rw (verify, bad) at e in absurd (cc)
          | inr good ↦ sym ((text_eq_iff _ _).0 (rw (verify, good) at e))
        ]

  pub is_verified-IsRight :
      {L : Type 0} (id : Text) (a : Authorization) (s : Server L)
      → is_verified md5_hex id a s ≡ true
      → IsRight md5_hex id a s
  unfolding is_verified
  is_verified-IsRight id a s e = elim (Option-cases (load id s.device_nonce)) [
    | inl unknown ↦ let no : false ≡ true = rw (is_verified, unknown) at e in absurd (cc)
    | inr (n, known) ↦ (
      n,
      known,
      verify-right (user_of id a s) s.conf.realm s.conf.password n a (rw (is_verified, known) at e),
    )
  ]
