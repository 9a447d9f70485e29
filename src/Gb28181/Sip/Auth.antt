-- ===== src/Gb28181/Sip/Auth.antt =====
-- gb28181/auth.go: the digest of a REGISTER request. MD5 in hexadecimal is a parameter.
use lalmax.Base.{Bool, false, [], ◌++◌, ◌||◌, if◌then◌else◌}
use lalmax.Base.Text.{Text, codes, text_eq}

-- What is read of an Authorization header. Its algorithm is left out: any is taken for MD5.
pub record Authorization : Type 0 where
  pub username : Text
  pub uri : Text
  pub response : Text

abbrev pub colon : Text → Text → Text
colon a b = a ++ (codes ":" ++ b)

module _ (md5_hex : Text → Text) where
  unfoldable pub get_digest : Text → Text
  get_digest raw = md5_hex raw

  unfoldable pub verify : Text → Text → Text → Text → Authorization → Bool
  unfolding get_digest text_eq
  verify username passwd realm nonce a =
      let r1 = get_digest (colon username (colon realm passwd)) in
      let r2 = get_digest (colon (codes "REGISTER") a.uri) in
      if text_eq r1 [] || text_eq r2 []
      then false
      else text_eq (get_digest (colon r1 (colon nonce r2))) a.response
