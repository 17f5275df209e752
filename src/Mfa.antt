-- ===== src/Mfa.antt =====
-- app/services/mfa.py: the second factor of the administrator. The row holds the list that the JSON text
-- of the recovery codes stands for. The provisioning URI and its QR code are functions of the secret and
-- left out.
pub mod Machine
pub mod Accept
pub mod Refine
pub mod Single
pub mod Fresh
use yg_license_server.Base.{
  ℕ, zero, suc, ◌+◌, Bool, true, false, not, Option, none, some, List, [], ◌∷◌, ◌++◌, any, map,
  if◌then◌else◌, is_some,
}
use yg_license_server.Text.{Text, strip, text_eq}
use yg_license_server.Model.{AdminMfa}
use yg_license_server.Runtime.{Runtime}
use yg_license_server.Keystore.{encrypt_secret, decrypt_text}
use yg_license_server.Session.{Session, Exec, ok, pure, gets, lift, ◌>>=◌, ◌>>◌, commit}

-- `RECOVERY_CODE_COUNT`
abbrev pub recovery_code_count : ℕ
recovery_code_count = 10

-- The row was added, or its attributes were set.
unfoldable pub save_mfa : AdminMfa → Exec Unit
save_mfa row s = (ok tt, record s { work = record (s.work) { mfa = some row } })

-- `_row`, and `get_state`
abbrev pub row_of : Session → Option AdminMfa
row_of s = s.work.mfa

-- `is_enabled`
abbrev pub enabled_of : Option AdminMfa → Bool
enabled_of none = false
enabled_of (some row) = row.enabled

unfoldable pub is_enabled : Exec Bool
is_enabled = gets (λ s. enabled_of (row_of s))

-- `pyotp.random_base32()`
unfoldable pub fresh_base32 : Runtime → Exec Text
fresh_base32 rt s = (ok (rt.random_base32 s.draws), record s { draws = suc s.draws })

-- `_hash`
abbrev pub hash_code : Runtime → Text → Text
hash_code rt code = rt.sha256 (rt.upper code)

abbrev pub codes_from : Runtime → ℕ → ℕ → List Text
codes_from rt start zero = []
codes_from rt start (suc n) = rt.upper (rt.token_hex start) ∷ codes_from rt (suc start) n

-- `_generate_recovery_codes`
unfoldable pub generate_recovery_codes : Runtime → Exec (List Text)
generate_recovery_codes rt s = (
  ok (codes_from rt s.draws recovery_code_count),
  record s { draws = s.draws + recovery_code_count },
)

-- the row of a new enrolment
abbrev pub enrolled_row : Runtime → Option Text → Option AdminMfa → AdminMfa
enrolled_row rt enc none = record {
  enabled = false;
  secret_encrypted = enc;
  recovery_codes_hashed = none;
  created_at = rt.now;
  last_used_at = none;
}
enrolled_row rt enc (some row) = record row {
  enabled = false;
  secret_encrypted = enc;
  recovery_codes_hashed = none;
}

-- the encrypted secret is stored on the row, new or not, with MFA off
unfoldable pub store_enrolment : Runtime → Text → Option Text → Exec Text
unfolding save_mfa commit
store_enrolment rt secret enc = do
  found ← gets row_of
  save_mfa (enrolled_row rt enc found)
  commit
  pure secret

-- `start_enrol`, which returns the plain secret
unfoldable pub start_enrol : Runtime → Exec Text
unfolding fresh_base32 encrypt_secret store_enrolment
start_enrol rt = do
  secret ← fresh_base32 rt
  enc ← lift (encrypt_secret rt (some secret))
  store_enrolment rt secret enc

-- fresh recovery codes are stored by their hashes and returned, with MFA enabled
unfoldable pub store_codes : Runtime → AdminMfa → Exec (Option (List Text))
unfolding generate_recovery_codes save_mfa commit
store_codes rt row = do
  codes ← generate_recovery_codes rt
  save_mfa (record row { enabled = true; recovery_codes_hashed = some (map (hash_code rt) codes) })
  commit
  pure (some codes)

-- the codes for a one-time password that fits
unfoldable pub codes_if : Runtime → AdminMfa → Bool → Exec (Option (List Text))
unfolding store_codes
codes_if rt row false = pure none
codes_if rt row true = store_codes rt row

unfoldable pub check_otp : Runtime → Text → AdminMfa → Text → Exec (Option (List Text))
unfolding codes_if
check_otp rt code row enc = do
  secret ← lift (decrypt_text rt enc)
  codes_if rt row (rt.totp_verify secret rt.now code)

unfoldable pub verify_enrol_with :
    Runtime → Text → AdminMfa → Option Text → Bool → Exec (Option (List Text))
unfolding check_otp
verify_enrol_with rt code row none enabled = pure none
verify_enrol_with rt code row (some enc) true = pure none
verify_enrol_with rt code row (some enc) false = check_otp rt code row enc

unfoldable pub verify_enrol_row : Runtime → Text → Option AdminMfa → Exec (Option (List Text))
unfolding verify_enrol_with
verify_enrol_row rt code none = pure none
verify_enrol_row rt code (some row) = verify_enrol_with rt code row row.secret_encrypted row.enabled

-- `verify_enrol`
unfoldable pub verify_enrol : Runtime → Text → Exec (Option (List Text))
unfolding verify_enrol_row
verify_enrol rt code = gets row_of >>= verify_enrol_row rt code

-- `json.loads(row.recovery_codes_hashed or "[]")`
abbrev pub stored_codes : Option (List Text) → List Text
stored_codes none = []
stored_codes (some codes) = codes

-- `candidate in stored`, and `stored.remove(candidate)`
abbrev pub has_code : Text → List Text → Bool
has_code c codes = any (text_eq c) codes

unfoldable pub remove_code : Text → List Text → List Text
remove_code c [] = []
remove_code c (d ∷ ds) = let rest = remove_code c ds in if text_eq c d then ds else d ∷ rest

-- the recovery code that a login redeems
unfoldable pub redeem : Runtime → AdminMfa → Text → Bool → Exec Bool
unfolding save_mfa commit remove_code
redeem rt row c false = pure false
redeem rt row c true = do
  save_mfa (record row {
    recovery_codes_hashed = some (remove_code c (stored_codes row.recovery_codes_hashed));
    last_used_at = some rt.now;
  })
  commit
  pure true

-- the hash that a recovery code is looked up by
abbrev pub candidate : Runtime → Text → Text
candidate rt code = hash_code rt (rt.upper (strip code))

unfoldable pub login_checked : Runtime → Text → AdminMfa → Bool → Exec Bool
unfolding save_mfa commit redeem
login_checked rt code row true = do
  save_mfa (record row { last_used_at = some rt.now })
  commit
  pure true
login_checked rt code row false =
    redeem rt row (candidate rt code)
      (has_code (candidate rt code) (stored_codes row.recovery_codes_hashed))

unfoldable pub login_with : Runtime → Text → AdminMfa → Bool → Option Text → Exec Bool
unfolding login_checked
login_with rt code row false secret = pure false
login_with rt code row true none = pure false
login_with rt code row true (some enc) = do
  secret ← lift (decrypt_text rt enc)
  login_checked rt code row (rt.totp_verify secret rt.now code)

unfoldable pub login_row : Runtime → Text → Option AdminMfa → Exec Bool
unfolding login_with
login_row rt code none = pure false
login_row rt code (some row) = login_with rt code row row.enabled row.secret_encrypted

-- `verify_login`
unfoldable pub verify_login : Runtime → Text → Exec Bool
unfolding login_row
verify_login rt code = gets row_of >>= login_row rt code

unfoldable pub clear : Option AdminMfa → Exec Bool
unfolding save_mfa commit
clear none = pure false
clear (some row) = do
  save_mfa (record row { enabled = false; secret_encrypted = none; recovery_codes_hashed = none })
  commit
  pure true

unfoldable pub clear_if : Bool → Exec Bool
unfolding clear
clear_if false = pure false
clear_if true = gets row_of >>= clear

-- `disable`
unfoldable pub disable : Runtime → Text → Exec Bool
unfolding verify_login clear_if
disable rt code = verify_login rt code >>= clear_if

unfoldable pub regen_with :
    Runtime → Text → AdminMfa → Bool → Option Text → Exec (Option (List Text))
unfolding check_otp
regen_with rt code row false secret = pure none
regen_with rt code row true none = pure none
regen_with rt code row true (some enc) = check_otp rt code row enc

unfoldable pub regen_row : Runtime → Text → Option AdminMfa → Exec (Option (List Text))
unfolding regen_with
regen_row rt code none = pure none
regen_row rt code (some row) = regen_with rt code row row.enabled row.secret_encrypted

-- `regen_recovery`. The row is enabled already where the codes are stored.
unfoldable pub regen_recovery : Runtime → Text → Exec (Option (List Text))
unfolding regen_row
regen_recovery rt code = gets row_of >>= regen_row rt code
