-- ===== src/Mfa/Machine.antt =====
-- The second factor as a state machine: off, waiting for the first password, or on, with the steps that
-- the operations of app/services/mfa.py are meant to take and the evidence that each of them needs.
use yg_license_server.Base.{
  ℕ, ◌≡◌, Bool, true, false, Option, none, some, List, [], ◌∷◌, map, is_some,
}
use yg_license_server.Text.{Text}
use yg_license_server.Model.{AdminMfa}
use yg_license_server.Runtime.{Runtime}
use yg_license_server.Keystore.{encrypt_text, decrypt_text}
use yg_license_server.Session.{Session, ok}
use yg_license_server.Mfa.{
  recovery_code_count, hash_code, codes_from, stored_codes, has_code, remove_code, candidate,
  start_enrol, verify_enrol, verify_login, disable, regen_recovery,
}

-- The secret is the stored one, and the codes are hashes.
pub data Factor : Type 0 where
  off : Factor
  pending : Text → Factor
  on : Text → List Text → Factor

abbrev pub factor_with : Bool → Option Text → List Text → Factor
factor_with enabled none codes = off
factor_with false (some enc) codes = pending enc
factor_with true (some enc) codes = on enc codes

-- what the row stands for
abbrev pub factor : Option AdminMfa → Factor
factor none = off
factor (some row) =
    factor_with row.enabled row.secret_encrypted (stored_codes row.recovery_codes_hashed)

-- a row that is enabled has a secret
abbrev pub HasSecret : Bool → Option Text → Type 0
HasSecret true secret = is_some secret ≡ true
HasSecret false secret = Unit

abbrev pub IsValidMfa : Option AdminMfa → Type 0
IsValidMfa none = Unit
IsValidMfa (some row) = HasSecret row.enabled row.secret_encrypted

-- nothing of the second factor is uncommitted, and the row is valid
abbrev pub IsSettled : Session → Type 0
IsSettled s = (s.store.mfa ≡ s.work.mfa) × IsValidMfa s.work.mfa

-- the one-time password fits the secret
abbrev pub Fits : Runtime → Text → Text → Type 0
Fits rt enc code =
    (secret : Text) × (decrypt_text rt enc ≡ ok secret) × (rt.totp_verify secret rt.now code ≡ true)

-- what a login accepts
pub data Accepted (rt : Runtime) (enc : Text) (hashes : List Text) (code : Text) : Type 0 where
  by_otp : Fits rt enc code → Accepted rt enc hashes code
  by_recovery : has_code (candidate rt code) hashes ≡ true → Accepted rt enc hashes code

-- what becomes of the hashes at an accepted login: a one-time password leaves them, a recovery code goes
pub data Taken (rt : Runtime) (code enc : Text) (hashes : List Text) : List Text → Type 0 where
  password : Fits rt enc code → Taken rt code enc hashes hashes
  recovery :
      has_code (candidate rt code) hashes ≡ true
      → Taken rt code enc hashes (remove_code (candidate rt code) hashes)

-- the hashes of fresh recovery codes
abbrev pub fresh_hashes : Runtime → ℕ → List Text
fresh_hashes rt n = map (hash_code rt) (codes_from rt n recovery_code_count)

pub data MfaCall : Type 0 where
  enrol : MfaCall
  confirm login turn_off regenerate : Text → MfaCall

-- One call from one state to the next.
pub data Step (rt : Runtime) : MfaCall → Factor → Factor → Type 0 where
  nothing : {call : MfaCall} {f : Factor} → Step rt call f f
  enrolled :
      {f : Factor} {enc : Text} (n : ℕ)
      → encrypt_text rt (rt.random_base32 n) ≡ ok enc
      → Step rt MfaCall.enrol f (Factor.pending enc)
  confirmed :
      {code enc : Text} (n : ℕ)
      → Fits rt enc code
      → Step rt (MfaCall.confirm code) (Factor.pending enc) (Factor.on enc (fresh_hashes rt n))
  redeemed :
      {code enc : Text} {hashes : List Text}
      → has_code (candidate rt code) hashes ≡ true
      → Step rt
          (MfaCall.login code)
          (Factor.on enc hashes)
          (Factor.on enc (remove_code (candidate rt code) hashes))
  turned_off :
      {code enc : Text} {hashes : List Text}
      → Accepted rt enc hashes code
      → Step rt (MfaCall.turn_off code) (Factor.on enc hashes) Factor.off
  renewed :
      {code enc : Text} {hashes : List Text} (n : ℕ)
      → Fits rt enc code
      → Step rt (MfaCall.regenerate code) (Factor.on enc hashes) (Factor.on enc (fresh_hashes rt n))

-- a sequence of calls, each at its own time and with its own settings
pub data Run : List (Runtime × MfaCall) → Factor → Factor → Type 0 where
  stop : {f : Factor} → Run [] f f
  go :
      {rt : Runtime} {call : MfaCall} {calls : List (Runtime × MfaCall)} {f g h : Factor}
      → Step rt call f g
      → Run calls g h
      → Run ((rt, call) ∷ calls) f h

-- the session behind a call, whatever the call answers or raises
unfoldable pub called : Runtime → MfaCall → Session → Session
unfolding start_enrol verify_enrol verify_login disable regen_recovery
called rt enrol s = (start_enrol rt s).1
called rt (confirm code) s = (verify_enrol rt code s).1
called rt (login code) s = (verify_login rt code s).1
called rt (turn_off code) s = (disable rt code s).1
called rt (regenerate code) s = (regen_recovery rt code s).1

unfoldable pub called_all : List (Runtime × MfaCall) → Session → Session
unfolding called
called_all [] s = s
called_all ((rt, call) ∷ calls) s = called_all calls (called rt call s)
