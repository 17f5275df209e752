-- ===== src/Login/Lifetime.antt =====
-- How long the cookies of a login hold, and what they open.
use yg_license_server.Base.{
  ℕ, ◌≡◌, refl, ap, ◌∙◌, subst, true, false, Option, none, some, ◌-◌, leb, if◌then◌else◌,
}
use yg_license_server.Text.{Text, nonempty, text_eq}
use yg_license_server.Model.{Json, Time}
use yg_license_server.Runtime.{Runtime}
use yg_license_server.Session.{Session, ok}
use yg_license_server.Session.Hoare.{OnOk}
use yg_license_server.Login.{
  Cookies, Reply, session_secret, session_salt, pre_mfa_salt, session_max_age_seconds, now_seconds,
  young, iat_of, cookie_fits, cookie_valid, cookie_data, login_data, logged_in,
}
use yg_license_server.Login.Cleared.{
  LoginRequest, answer, signed, Answer, turned_away, asked_for_code, by_token, by_code,
  answer-Answer,
}

-- itsdangerous, on the data of these cookies: a signature verifies under its own secret and salt, and
-- under no other salt, and a signed text is not empty
pub record IsSerializer (rt : Runtime) : Type 0 where
  pub undo :
      (secret salt : Text) (iat : ℕ)
      → rt.cookie_loads secret salt (rt.cookie_dumps secret salt (login_data iat))
        ≡ some (login_data iat)
  pub apart :
      (secret salt other : Text) (iat : ℕ)
      → text_eq salt other ≡ false
      → rt.cookie_loads secret salt (rt.cookie_dumps secret other (login_data iat)) ≡ none
  pub filled :
      (secret salt : Text) (iat : ℕ)
      → nonempty (rt.cookie_dumps secret salt (login_data iat)) ≡ true

-- a property of the cookie that a reply sets, if it sets one
abbrev pub OnCookie : (Text → Type 0) → Option Text → Type 0
OnCookie P none = Unit
OnCookie P (some cookie) = P cookie

-- a request with a text as its session cookie
abbrev pub as_session : Text → Cookies
as_session cookie = record { session = some cookie; pre_mfa = none }

abbrev at_time : Runtime → Time → Runtime
at_time rt later = record rt { now = later }

module _ (rt : Runtime) (later : Time) where
  logged_in-loads :
      (secret raw : Text) (value : Option Json)
      → nonempty raw ≡ true
      → session_secret rt ≡ ok secret
      → rt.cookie_loads secret session_salt raw ≡ value
      → logged_in (at_time rt later) (as_session raw)
        ≡ ok (young (now_seconds (at_time rt later)) session_max_age_seconds (iat_of value))
  unfolding logged_in cookie_valid session_secret
  logged_in-loads secret raw value filled known loaded =
      ap
        (λ b.
          if b
          then cookie_fits (at_time rt later) session_salt session_max_age_seconds raw
              (session_secret rt)
          else ok false)
        filled
      ∙ ap (cookie_fits (at_time rt later) session_salt session_max_age_seconds raw) known
      ∙ ap (λ v. ok (young (now_seconds (at_time rt later)) session_max_age_seconds (iat_of v)))
          loaded

  module _ (codec : IsSerializer rt) where
    Lasts : Text → Type 0
    Lasts cookie =
        logged_in (at_time rt later) (as_session cookie)
        ≡ ok (leb (now_seconds (at_time rt later) - now_seconds rt) session_max_age_seconds)

    OpensNothing : Text → Type 0
    OpensNothing cookie = logged_in (at_time rt later) (as_session cookie) ≡ ok false

    session-Lasts :
        (secret : Text) → session_secret rt ≡ ok secret → Lasts (signed rt session_salt secret)
    unfolding Lasts text_eq
    session-Lasts secret known =
        logged_in-loads secret (signed rt session_salt secret) (some (cookie_data rt))
          (codec.filled secret session_salt (now_seconds rt)) known
          (codec.undo secret session_salt (now_seconds rt))

    pre_mfa-OpensNothing :
        (secret : Text)
        → session_secret rt ≡ ok secret
        → OpensNothing (signed rt pre_mfa_salt secret)
    unfolding OpensNothing text_eq
    pre_mfa-OpensNothing secret known =
        logged_in-loads secret (signed rt pre_mfa_salt secret) none
          (codec.filled secret pre_mfa_salt (now_seconds rt)) known
          (codec.apart secret session_salt pre_mfa_salt (now_seconds rt) refl)

    Answer-lifetime :
        (s : Session) (r : LoginRequest) (reply : Reply)
        → Answer rt s r reply
        → OnCookie Lasts reply.session × OnCookie OpensNothing reply.pre_mfa
    unfolding OpensNothing logged_in cookie_valid
    Answer-lifetime s r reply (turned_away target) = (tt, tt)
    Answer-lifetime s r reply (asked_for_code secret known right enabled) =
        (tt, pre_mfa-OpensNothing secret known)
    Answer-lifetime s r reply (by_token secret known right enabled) =
        (session-Lasts secret known, tt)
    Answer-lifetime s r reply (by_code secret known valid enc hashes left was taken) =
        (session-Lasts secret known, refl)

-- With a serializer whose signatures verify under their own secret and salt only, the session cookie of
-- a login's reply opens the admin pages at a later time exactly if at most seven days have passed, in
-- whole seconds, and what the reply sets as the pre-MFA cookie never opens them.
pub logged_in-answer :
    (rt : Runtime) (later : Time) (r : LoginRequest) (s t : Session) (reply : Reply)
    → IsSerializer rt
    → answer rt r s ≡ (ok reply, t)
    → OnCookie
        (λ cookie.
          logged_in (record rt { now = later }) (as_session cookie)
          ≡ ok (
              leb
                (now_seconds (record rt { now = later }) - now_seconds rt)
                session_max_age_seconds))
        reply.session
      × OnCookie
          (λ pre. logged_in (record rt { now = later }) (as_session pre) ≡ ok false)
          reply.pre_mfa
unfolding Lasts OpensNothing
logged_in-answer rt later r s t reply codec e =
    Answer-lifetime rt later codec s r reply
      (subst (OnOk (Answer rt s r)) (ap (λ p. p.0) e) (answer-Answer rt s r))
