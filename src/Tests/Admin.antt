-- ===== src/Tests/Admin.antt =====
-- Examples for the second factor, the login, the rewrap script and the pages.
use yg_license_server.Base.{
  ℕ, ◌≡◌, ◌≢◌, ◌+◌, ◌-◌, inl, refl, ap, subst, arith, [], ◌∷◌, ◌++◌, true, false, some, none, List,
  Option, leb,
}
use yg_license_server.Text.{Text, codes, nonempty, strip, text_eq, starts_with}
use yg_license_server.Model.{AdminMfa, Time, days}
use yg_license_server.Runtime.{Runtime}
use yg_license_server.Keystore.{envelope_prefix, fernet, is_encrypted, decrypt_text}
use yg_license_server.Session.{Session, Result, ok}
use yg_license_server.Mfa.{has_code, verify_login, verify_enrol, codes_from}
use yg_license_server.Mfa.Machine.{on, factor, MfaCall, IsSettled, Run, called_all}
use yg_license_server.Mfa.Refine.{called_all-Run}
use yg_license_server.Mfa.Single.{IsDistinct, verify_login-once}
use yg_license_server.Mfa.Fresh.{verify_login-verify_enrol}
use yg_license_server.Session.Hoare.{OnOk}
use yg_license_server.Login.{
  Reply, admin_page, session_salt, login_data, logged_in, now_seconds, session_max_age_seconds,
}
use yg_license_server.Login.Cleared.{LoginRequest, answer, Answer, answer-Answer, signed}
use yg_license_server.Login.Lifetime.{IsSerializer, OnCookie, as_session, logged_in-answer}
use yg_license_server.Keystore.{encrypt_text}
use yg_license_server.Rewrap.{run_rewrap}
use yg_license_server.Rewrap.Kept.{IsBare, KeptRows}
use yg_license_server.Rewrap.Run.{run_rewrap-KeptRows, run_rewrap-unchanged}
use yg_license_server.Pagination.{Key, key_lt, encode_cursor, decode_cursor}
use yg_license_server.Pagination.Cursor.{IsCodec, decode_cursor-encode_cursor}
use yg_license_server.Pagination.Walk.{IsDescending, walk, walk-query}
use yg_license_server.Tests.Texts.{undone}
use yg_license_server.Tests.Samples.{rt, session, product, cookie_value}

-- a one-time password is the secret itself, and all random texts are alike
abbrev otp_rt : Runtime
otp_rt = record rt { token_hex = λ n. codes "aa" }

-- no one-time password is accepted
abbrev never_rt : Runtime
never_rt = record rt { totp_verify = λ secret now code. false }

abbrev enc : Text
enc = envelope_prefix ++ codes "ksec"

abbrev mfa_row : AdminMfa
mfa_row = record {
  enabled = true;
  secret_encrypted = some enc;
  recovery_codes_hashed = some (codes "c1" ∷ codes "c2" ∷ []);
  created_at = 0;
  last_used_at = none;
}

abbrev with_row : AdminMfa → Session
with_row row = record session {
  store = record (session.store) { mfa = some row };
  work = record (session.store) { mfa = some row };
}

abbrev mfa_session : Session
mfa_session = with_row mfa_row

abbrev pending_session : Session
pending_session = with_row (record mfa_row { enabled = false; recovery_codes_hashed = none })

abbrev calls : List (Runtime × MfaCall)
calls = (never_rt, MfaCall.login (codes "c1")) ∷ (rt, MfaCall.turn_off (codes "sec")) ∷ []

called_all-Run_example :
    Run calls
      (on enc (codes "c1" ∷ codes "c2" ∷ []))
      (factor (called_all calls mfa_session).store.mfa)
    × IsSettled (called_all calls mfa_session)
called_all-Run_example = called_all-Run calls mfa_session (refl, refl)

unfoldable left : Session
unfolding verify_login
left = (verify_login never_rt (codes "c1") mfa_session).1

redeemed : verify_login never_rt (codes "c1") mfa_session ≡ (ok true, left)
unfolding verify_login left decrypt_text starts_with text_eq strip
redeemed = refl

distinct : IsDistinct (codes "c1" ∷ codes "c2" ∷ [])
unfolding text_eq
distinct = (refl, (refl, tt))

verify_login-once_example :
    (verify_login
      (record never_rt { now = days 11 })
      (codes "c1")
      (called_all ((rt, MfaCall.login (codes "c2")) ∷ []) left)).0
    ≢ ok true
verify_login-once_example =
    verify_login-once never_rt (codes "c1") mfa_session left enc (codes "c1" ∷ codes "c2" ∷ [])
      ((rt, MfaCall.login (codes "c2")) ∷ []) (days 11) (λ secret at. refl) refl distinct redeemed
      (refl, tt)

unfoldable ten_codes : List Text
ten_codes = codes_from otp_rt 0 10

unfoldable enrolled : Session
unfolding verify_enrol
enrolled = (verify_enrol otp_rt (codes "sec") pending_session).1

confirmed : verify_enrol otp_rt (codes "sec") pending_session ≡ (ok (some ten_codes), enrolled)
unfolding verify_enrol enrolled ten_codes decrypt_text starts_with text_eq
confirmed = refl

bare : strip (codes "aa") ≡ codes "aa"
unfolding strip
bare = refl

found : has_code (codes "aa") ten_codes ≡ true
unfolding ten_codes text_eq
found = refl

verify_login-verify_enrol_example :
    (verify_login (record otp_rt { now = days 11 }) (codes "aa") enrolled).0 ≡ ok true
verify_login-verify_enrol_example =
    verify_login-verify_enrol otp_rt (codes "sec") (codes "aa") pending_session enrolled ten_codes
      (days 11) (λ x. refl) (λ n. bare) confirmed found

read_back : (salt : Text) (n : ℕ) → cookie_value (salt ++ n ∷ []) salt ≡ some (login_data n)
read_back [] n = refl
read_back (c ∷ salt) n = ground (arith, read_back salt n)

signed_filled : (salt : Text) (n : ℕ) → nonempty (salt ++ n ∷ []) ≡ true
signed_filled [] n = refl
signed_filled (c ∷ salt) n = refl

read_nothing : (salt : Text) → cookie_value [] salt ≡ none
read_nothing [] = refl
read_nothing (b ∷ salt) = refl

read_other :
    (salt other : Text) (n : ℕ)
    → text_eq salt other ≡ false
    → cookie_value (other ++ n ∷ []) salt ≡ none
unfolding text_eq
read_other [] [] n h = ground arith
read_other (b ∷ salt) [] n h = ground (arith, read_nothing salt)
read_other [] (a ∷ []) n h = refl
read_other [] (a ∷ b ∷ other) n h = refl
read_other (b ∷ salt) (a ∷ other) n h = ground (arith, read_other salt other n)

rt-IsSerializer : IsSerializer rt
rt-IsSerializer = record {
  undo = λ secret salt iat. read_back salt iat;
  apart = λ secret salt other iat h. read_other salt other iat h;
  filled = λ secret salt iat. signed_filled salt iat;
}

abbrev granted : Reply
granted = record {
  target = admin_page;
  session = some (signed rt session_salt (codes "s"));
  pre_mfa = none;
}

logged : answer rt (LoginRequest.with_token (codes "token")) session ≡ (ok granted, session)
unfolding answer text_eq
logged = refl

logged_in-answer_example :
    OnCookie
      (λ cookie.
        logged_in (record rt { now = days 11 }) (as_session cookie)
        ≡ ok (
            leb
              (now_seconds (record rt { now = days 11 }) - now_seconds rt)
              session_max_age_seconds))
      granted.session
    × OnCookie
        (λ pre. logged_in (record rt { now = days 11 }) (as_session pre) ≡ ok false)
        granted.pre_mfa
logged_in-answer_example =
    logged_in-answer rt (days 11) (LoginRequest.with_token (codes "token")) session session granted
      rt-IsSerializer logged

answer-Answer_example :
    OnOk
      (Answer rt session (LoginRequest.with_token (codes "token")))
      (answer rt (LoginRequest.with_token (codes "token")) session).0
answer-Answer_example = answer-Answer rt session (LoginRequest.with_token (codes "token"))

-- the script takes the sample product's secrets under the key
rewrapped : (run_rewrap rt false false session).0 ≡ 0
unfolding run_rewrap is_encrypted encrypt_text starts_with
rewrapped = refl

says_itself : {t u : Text} → ◌≡◌ {A = Result Text} (ok t) (ok u) → t ≡ u
says_itself e = cc

IsBare-pem : IsBare rt none (codes "pem")
unfolding decrypt_text starts_with
IsBare-pem plaintext e = subst (λ t. starts_with t envelope_prefix ≡ false) (says_itself e) refl

IsBare-wh : IsBare rt none (codes "wh")
unfolding decrypt_text starts_with
IsBare-wh plaintext e = subst (λ t. starts_with t envelope_prefix ≡ false) (says_itself e) refl

usable : fernet rt ≡ some (codes "k")
unfolding fernet
usable = refl

run_rewrap-KeptRows_example :
    KeptRows rt none (product ∷ []) (run_rewrap rt false false session).1.store.products
run_rewrap-KeptRows_example =
    run_rewrap-KeptRows rt false session (codes "k") undone usable (λ e. cc) refl
      ((IsBare-pem, IsBare-wh, tt), tt) rewrapped

run_rewrap-unchanged_example : (run_rewrap rt true false session).1.store ≡ session.store
run_rewrap-unchanged_example = run_rewrap-unchanged rt true false session (inl refl)

-- a creation time that is written as a character behind `|`
abbrev read_time : Text → Option Time
read_time (c ∷ []) = some (c - 125)
read_time _ = none

abbrev codec_rt : Runtime
codec_rt = record rt { isoformat = λ t. (t + 125) ∷ []; from_iso = read_time }

codec_rt-IsCodec : IsCodec codec_rt
codec_rt-IsCodec = record {
  iso = λ t. ap some (omega arith);
  iso_filled = λ t. refl;
  iso_plain = λ t. ground arith;
  b64 = λ s. refl;
  b64_filled = λ s h. h;
}

decode_cursor-encode_cursor_example :
    decode_cursor codec_rt (some (encode_cursor codec_rt 5 (codes "i"))) ≡ some (5, codes "i")
decode_cursor-encode_cursor_example =
    decode_cursor-encode_cursor codec_rt 5 (codes "i") codec_rt-IsCodec refl

-- three rows as their own keys, two of them at one time
abbrev keys : List Key
keys = (9, codes "a") ∷ (7, codes "b") ∷ (7, codes "a") ∷ []

descending : IsDescending (λ k. k) keys
unfolding key_lt
descending = ((refl, (refl, tt)), ((refl, tt), (tt, tt)))

walk-query_example : walk codec_rt (λ k. k) keys 2 4 none ≡ keys
walk-query_example =
    walk-query codec_rt (λ k. k) keys 2 codec_rt-IsCodec descending (refl, (refl, (refl, tt)))
      (omega arith)
