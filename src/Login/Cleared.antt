-- ===== src/Login/Cleared.antt =====
-- What a login request has shown where it is given a cookie.
use yg_license_server.Base.{
  all, ◌&&◌, ◌≡◌, refl, sym, subst, Bool, true, false, not, none, some, List, [],
}
use yg_license_server.Text.{Text, text_eq, nonempty, eq_of_text_eq}
use yg_license_server.Runtime.{Runtime}
use yg_license_server.Session.{
  Session, Exec, Result, ok, err, http_error, type_error, lift, ◌>>=◌, pure, raise_if, ◌>>◌,
}
use yg_license_server.Session.Hoare.{OnOk}
use yg_license_server.Mfa.{enabled_of, is_enabled}
use yg_license_server.Mfa.Machine.{on, factor, Taken}
use yg_license_server.Mfa.Accept.{LoginEnd, refused, raised, entered, verify_login-LoginEnd}
use yg_license_server.Login.{
  Cookies, Reply, redirect, Target, mfa_page, admin_page, login_page, login_invalid, mfa_invalid,
  session_secret, session_salt, pre_mfa_salt, cookie_data, new_cookie, first_factor, login_if,
  is_ascii, login, second_factor, login_mfa_if, login_mfa, pre_mfa_valid,
}

pub data LoginRequest : Type 0 where
  with_token : Text → LoginRequest
  with_code : Cookies → Text → LoginRequest

unfoldable pub answer : Runtime → LoginRequest → Exec Reply
unfolding login login_mfa
answer rt (LoginRequest.with_token token) = login rt token
answer rt (LoginRequest.with_code c code) = login_mfa rt c code

-- a cookie that the server signs now
abbrev pub signed : Runtime → Text → Text → Text
signed rt salt secret = rt.cookie_dumps secret salt (cookie_data rt)

-- The replies to a request, with what the request has shown.
pub data Answer (rt : Runtime) (s : Session) : LoginRequest → Reply → Type 0 where
  turned_away : {r : LoginRequest} (target : Target) → Answer rt s r (redirect target)
  asked_for_code :
      {token : Text} (secret : Text)
      → session_secret rt ≡ ok secret
      → (token ≡ rt.settings.admin_token) × (nonempty token ≡ true)
      → enabled_of s.work.mfa ≡ true
      → Answer rt s (LoginRequest.with_token token) (record {
        target = mfa_page;
        session = none;
        pre_mfa = some (signed rt pre_mfa_salt secret);
      })
  by_token :
      {token : Text} (secret : Text)
      → session_secret rt ≡ ok secret
      → (token ≡ rt.settings.admin_token) × (nonempty token ≡ true)
      → enabled_of s.work.mfa ≡ false
      → Answer rt s (LoginRequest.with_token token) (record {
        target = admin_page;
        session = some (signed rt session_salt secret);
        pre_mfa = none;
      })
  by_code :
      {c : Cookies} {code : Text} (secret : Text)
      → session_secret rt ≡ ok secret
      → pre_mfa_valid rt c ≡ ok true
      → (enc : Text) (hashes left : List Text) → factor s.work.mfa ≡ on enc hashes
      → Taken rt code enc hashes left
      → Answer rt s (LoginRequest.with_code c code) (record {
        target = admin_page;
        session = some (signed rt session_salt secret);
        pre_mfa = some [];
      })

module _ {B : Type 0} (Q : B → Type 0) where
  OnOk-lift :
      {A : Type 0} (r : Result A) (k : A → Exec B) (s : Session)
      → ((a : A) → r ≡ ok a → OnOk Q (k a s).0)
      → OnOk Q (◌>>=◌ (lift r) k s).0
  OnOk-lift (ok a) k s next = next a refl
  OnOk-lift (err e) k s next = tt

  OnOk-signed :
      (rt : Runtime) (salt : Text) (r : Result Text) (k : Text → Exec B) (s : Session)
      → session_secret rt ≡ r
      → ((secret : Text) → session_secret rt ≡ ok secret → OnOk Q (k (signed rt salt secret) s).0)
      → OnOk Q (◌>>=◌ (◌>>=◌ (lift r) (λ secret. pure (signed rt salt secret))) k s).0
  OnOk-signed rt salt (ok secret) k s e next = next secret e
  OnOk-signed rt salt (err x) k s e next = tt

module _ (rt : Runtime) (s : Session) where
  module _ (token : Text) where
    abbrev TokenAnswer : Reply → Type 0
    TokenAnswer = Answer rt s (LoginRequest.with_token token)

    first_factor-Answer :
        (token ≡ rt.settings.admin_token) × (nonempty token ≡ true)
        → (enabled : Bool) → enabled_of s.work.mfa ≡ enabled
        → OnOk TokenAnswer (first_factor rt enabled s).0
    unfolding first_factor new_cookie
    first_factor-Answer right true e =
        OnOk-signed TokenAnswer rt pre_mfa_salt (session_secret rt)
          (λ pre. pure (record { target = mfa_page; session = none; pre_mfa = some pre })) s refl
          λ secret known. Answer.asked_for_code secret known right e
    first_factor-Answer right false e =
        OnOk-signed TokenAnswer rt session_salt (session_secret rt)
          (λ cookie. pure (record { target = admin_page; session = some cookie; pre_mfa = none })) s
          refl λ secret known. Answer.by_token secret known right e

    login_if-Answer :
        nonempty rt.settings.admin_token ≡ true
        → (right : Bool) → text_eq token rt.settings.admin_token ≡ right
        → OnOk TokenAnswer (login_if rt right s).0
    unfolding login_if is_enabled
    login_if-Answer set false e = Answer.turned_away login_invalid
    login_if-Answer set true e =
        let same = eq_of_text_eq token rt.settings.admin_token e in
        first_factor-Answer (same, subst (λ x. nonempty x ≡ true) (sym same) set)
          (enabled_of s.work.mfa) refl

    login_set :
        (set plain : Bool)
        → nonempty rt.settings.admin_token ≡ set
        → OnOk TokenAnswer
            ((raise_if (not set) (http_error 503 "ADMIN_TOKEN not set")
                >> (raise_if (not plain) type_error
                    >> login_if rt (text_eq token rt.settings.admin_token)))
              s).0
    login_set false plain e = tt
    login_set true false e = tt
    login_set true true e = login_if-Answer e (text_eq token rt.settings.admin_token) refl

  module _ (c : Cookies) (code : Text) where
    abbrev CodeAnswer : Reply → Type 0
    CodeAnswer = Answer rt s (LoginRequest.with_code c code)

    second_factor-Answer :
        pre_mfa_valid rt c ≡ ok true
        → (r : Result Bool) (t : Session) → LoginEnd rt code s r t
        → OnOk CodeAnswer (◌>>=◌ (λ _. (r, t)) (second_factor rt) s).0
    unfolding second_factor new_cookie
    second_factor-Answer valid (ok false) t refused = Answer.turned_away mfa_invalid
    second_factor-Answer valid (err e) t (raised e') = tt
    second_factor-Answer valid (ok true) t (entered enc hashes left u settled was is taken) =
        OnOk-signed CodeAnswer rt session_salt (session_secret rt)
          (λ cookie.
            pure (record { target = admin_page; session = some cookie; pre_mfa = some [] }))
          u refl λ secret known. Answer.by_code secret known valid enc hashes left was taken

    login_mfa_if-Answer :
        (valid : Bool)
        → pre_mfa_valid rt c ≡ ok valid
        → OnOk CodeAnswer (login_mfa_if rt code valid s).0
    unfolding login_mfa_if
    login_mfa_if-Answer false e = Answer.turned_away login_page
    login_mfa_if-Answer true e = second_factor-Answer e _ _ (verify_login-LoginEnd rt code s)

  -- Whatever a login request is answered with, it has shown what the answer needs: a redirect needs
  -- nothing, and sets no cookie. The pre-MFA cookie needs the admin token, which is set, with the second
  -- factor on. A session cookie needs the token with the second factor off, or a valid pre-MFA cookie
  -- with a one-time password that fits the stored secret or a recovery code whose hash is stored. The
  -- cookies are those signed now under the two salts.
  pub answer-Answer : (r : LoginRequest) → OnOk (Answer rt s r) (answer rt r s).0
  unfolding answer login login_mfa
  answer-Answer (with_token token) =
      login_set token (nonempty rt.settings.admin_token)
        (all is_ascii token && all is_ascii rt.settings.admin_token) refl
  answer-Answer (with_code c code) =
      OnOk-lift (CodeAnswer c code) (pre_mfa_valid rt c) (login_mfa_if rt code) s
        (login_mfa_if-Answer c code)
