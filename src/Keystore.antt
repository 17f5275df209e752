-- ===== src/Keystore.antt =====
-- app/keystore.py: the envelope of the secrets that are stored, and its two keys.
pub mod RoundTrip
use yg_license_server.Base.{
  ℕ, Bool, true, false, Option, none, some, ◌++◌, if◌then◌else◌, ◌&&◌, length, drop,
}
use yg_license_server.Text.{Text, codes, nonempty, starts_with}
use yg_license_server.Runtime.{Runtime}
use yg_license_server.Session.{Result, ok, err, runtime_error}

-- `_PREFIX`
abbrev pub envelope_prefix : Text
envelope_prefix = codes "enc:v1:"

-- a key for a Fernet, or None where it is unset or malformed
abbrev pub usable_key : Runtime → Text → Option Text
usable_key rt key = if nonempty key && rt.is_fernet_key key then some key else none

-- `_fernet` and `_fernet_prev`
unfoldable pub fernet : Runtime → Option Text
fernet rt = usable_key rt rt.settings.key_encryption_key

unfoldable pub fernet_prev : Runtime → Option Text
fernet_prev rt = usable_key rt rt.settings.key_encryption_key_prev

-- `is_encrypted`
unfoldable pub is_encrypted : Text → Bool
is_encrypted stored = nonempty stored && starts_with stored envelope_prefix

-- `_decrypt_with`
unfoldable pub decrypt_with : Runtime → Text → Text → Result Text
decrypt_with rt key stored = elim (rt.fernet_decrypt key (drop (length envelope_prefix) stored)) [
  | none ↦ err runtime_error
  | some plaintext ↦ ok plaintext
]

-- `encrypt_secret` of a text that is not None
unfoldable pub encrypt_text : Runtime → Text → Result Text
unfolding is_encrypted fernet
encrypt_text rt plaintext = if is_encrypted plaintext then ok plaintext else elim (fernet rt) [
  | none ↦ if rt.settings.require_kek then err runtime_error else ok plaintext
  | some key ↦ ok (envelope_prefix ++ rt.fernet_encrypt key plaintext)
]

-- `encrypt_secret`
unfoldable pub encrypt_secret : Runtime → Option Text → Result (Option Text)
unfolding encrypt_text
encrypt_secret rt none = ok none
encrypt_secret rt (some plaintext) = elim (encrypt_text rt plaintext) [
  | ok stored ↦ ok (some stored)
  | err e ↦ err e
]

-- `decrypt_secret` of a text that is not None
unfoldable pub decrypt_text : Runtime → Text → Result Text
unfolding fernet decrypt_with
decrypt_text rt stored =
    if starts_with stored envelope_prefix
    then elim (fernet rt) [ none ↦ err runtime_error | some key ↦ decrypt_with rt key stored ]
    else ok stored

-- `decrypt_secret`
unfoldable pub decrypt_secret : Runtime → Option Text → Result (Option Text)
unfolding decrypt_text
decrypt_secret rt none = ok none
decrypt_secret rt (some stored) = elim (decrypt_text rt stored) [
  | ok plaintext ↦ ok (some plaintext)
  | err e ↦ err e
]
