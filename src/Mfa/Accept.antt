-- ===== src/Mfa/Accept.antt =====
-- What a login with the second factor does, by cases.
use yg_license_server.Base.{
  ◌≡◌, refl, sym, subst, ap, ◌∙◌, Bool, true, false, Option, none, some, List,
}
use yg_license_server.Text.{Text}
use yg_license_server.Model.{AdminMfa}
use yg_license_server.Runtime.{Runtime}
use yg_license_server.Keystore.{decrypt_text}
use yg_license_server.Session.{Session, Exec, Error, Result, ok, err, lift, ◌>>=◌, commit}
use yg_license_server.Mfa.{
  stored_codes, has_code, remove_code, candidate, save_mfa, redeem, login_checked, login_with,
  login_row, verify_login,
}
use yg_license_server.Mfa.Machine.{IsSettled, Taken, on, factor_with, factor, HasSecret}

-- What a login does: a rejected code changes nothing, and an accepted one leaves the secret and, at
-- most, removes the code.
pub data LoginEnd (rt : Runtime) (code : Text) (s : Session) : Result Bool → Session → Type 0 where
  refused : LoginEnd rt code s (ok false) s
  raised : (e : Error) → LoginEnd rt code s (err e) s
  entered :
      (enc : Text) (hashes left : List Text) (t : Session)
      → IsSettled t
      → factor s.work.mfa ≡ on enc hashes
      → factor t.work.mfa ≡ on enc left
      → Taken rt code enc hashes left
      → LoginEnd rt code s (ok true) t

module _ (rt : Runtime) (code : Text) (s : Session) where
  LoginEnd-lift :
      (r : Result Text) (k : Text → Exec Bool)
      → ((secret : Text) → r ≡ ok secret → LoginEnd rt code s (k secret s).0 (k secret s).1)
      → LoginEnd rt code s (◌>>=◌ (lift r) k s).0 (◌>>=◌ (lift r) k s).1
  LoginEnd-lift (ok a) k next = next a refl
  LoginEnd-lift (err e) k next = LoginEnd.raised e

  -- a row that is enabled, with its secret
  module _ (row : AdminMfa) (enc : Text) (here : s.work.mfa ≡ some row)
      (holds : row.secret_encrypted ≡ some enc) (enabled : row.enabled ≡ true) where
    factor-on :
        (hashes : List Text) → factor_with row.enabled row.secret_encrypted hashes ≡ on enc hashes
    factor-on hashes =
        ap (λ b. factor_with b row.secret_encrypted hashes) enabled
        ∙ ap (λ x. factor_with true x hashes) holds

    has-secret : HasSecret row.enabled row.secret_encrypted
    has-secret =
        subst (λ x. HasSecret row.enabled x) (sym holds)
          (subst (λ b. HasSecret b (some enc)) (sym enabled) refl)

    factor-here : factor s.work.mfa ≡ on enc (stored_codes row.recovery_codes_hashed)
    factor-here = ap factor here ∙ factor-on (stored_codes row.recovery_codes_hashed)

    redeem-LoginEnd :
        (found : Bool)
        → has_code (candidate rt code) (stored_codes row.recovery_codes_hashed) ≡ found
        → LoginEnd rt code s
            (redeem rt row (candidate rt code) found s).0
            (redeem rt row (candidate rt code) found s).1
    unfolding redeem save_mfa commit
    redeem-LoginEnd false e = LoginEnd.refused
    redeem-LoginEnd true e =
        LoginEnd.entered enc (stored_codes row.recovery_codes_hashed)
          (remove_code (candidate rt code) (stored_codes row.recovery_codes_hashed)) _
          (refl, has-secret) factor-here
          (factor-on (remove_code (candidate rt code) (stored_codes row.recovery_codes_hashed)))
          (Taken.recovery e)

    login_checked-LoginEnd :
        (fit : Bool) (secret : Text)
        → decrypt_text rt enc ≡ ok secret
        → rt.totp_verify secret rt.now code ≡ fit
        → LoginEnd rt code s (login_checked rt code row fit s).0 (login_checked rt code row fit s).1
    unfolding login_checked save_mfa commit
    login_checked-LoginEnd false secret plain e =
        redeem-LoginEnd (has_code (candidate rt code) (stored_codes row.recovery_codes_hashed)) refl
    login_checked-LoginEnd true secret plain e =
        LoginEnd.entered enc (stored_codes row.recovery_codes_hashed)
          (stored_codes row.recovery_codes_hashed) _ (refl, has-secret) factor-here
          (factor-on (stored_codes row.recovery_codes_hashed)) (Taken.password (secret, plain, e))

  login_with-LoginEnd :
      (row : AdminMfa) (secret : Option Text) (enabled : Bool)
      → s.work.mfa ≡ some row
      → row.secret_encrypted ≡ secret
      → row.enabled ≡ enabled
      → LoginEnd rt code s
          (login_with rt code row enabled secret s).0
          (login_with rt code row enabled secret s).1
  unfolding login_with
  login_with-LoginEnd row secret false here holds e = LoginEnd.refused
  login_with-LoginEnd row none true here holds e = LoginEnd.refused
  login_with-LoginEnd row (some enc) true here holds e =
      LoginEnd-lift (decrypt_text rt enc)
        (λ secret. login_checked rt code row (rt.totp_verify secret rt.now code))
        λ secret plain.
          login_checked-LoginEnd row enc here holds e (rt.totp_verify secret rt.now code) secret
            plain refl

  login_row-LoginEnd :
      (found : Option AdminMfa)
      → s.work.mfa ≡ found
      → LoginEnd rt code s (login_row rt code found s).0 (login_row rt code found s).1
  unfolding login_row
  login_row-LoginEnd none here = LoginEnd.refused
  login_row-LoginEnd (some row) here =
      login_with-LoginEnd row row.secret_encrypted row.enabled here refl refl

  pub verify_login-LoginEnd :
      LoginEnd rt code s (verify_login rt code s).0 (verify_login rt code s).1
  unfolding verify_login
  verify_login-LoginEnd = login_row-LoginEnd s.work.mfa refl
