-- ===== src/Keystore/RoundTrip.antt =====
-- What is encrypted comes back, what is encrypted is not wrapped twice, and no plaintext is stored
-- where the settings forbid it.
use yg_license_server.Base.{◌≡◌, refl, true, false, some, ◌++◌, arith, Option-cases, inl, inr}
use yg_license_server.Text.{Text, starts_with}
use yg_license_server.Runtime.{Runtime}
use yg_license_server.Session.{ok}
use yg_license_server.Keystore.{envelope_prefix, fernet, is_encrypted, encrypt_text, decrypt_text}

pub starts_with-envelope :
    (token : Text) → starts_with (envelope_prefix ++ token) envelope_prefix ≡ true
unfolding starts_with
starts_with-envelope token = refl

-- With Fernet undoing its own encryption under each key, what `encrypt_secret` stores for a text that is
-- not an envelope already is decrypted to that text under the same settings.
pub decrypt-encrypt :
    (rt : Runtime) (plaintext stored : Text)
    → ((key text : Text) → rt.fernet_decrypt key (rt.fernet_encrypt key text) ≡ some text)
    → starts_with plaintext envelope_prefix ≡ false
    → encrypt_text rt plaintext ≡ ok stored
    → decrypt_text rt stored ≡ ok plaintext
unfolding encrypt_text decrypt_text
decrypt-encrypt rt plaintext stored undo raw h = elim (Option-cases (fernet rt)) [
  | inl no_key ↦ ground arith
  | inr (key, e) ↦
      ground (arith, undo key plaintext, starts_with-envelope (rt.fernet_encrypt key plaintext))
]

-- Storing twice is storing once: an envelope is stored as it is.
pub encrypt-encrypt :
    (rt : Runtime) (plaintext stored : Text)
    → encrypt_text rt plaintext ≡ ok stored
    → encrypt_text rt stored ≡ ok stored
unfolding encrypt_text
encrypt-encrypt rt plaintext stored h = elim (Option-cases (fernet rt)) [
  | inl no_key ↦ ground arith
  | inr (key, e) ↦ ground (arith, starts_with-envelope (rt.fernet_encrypt key plaintext))
]

-- Where the settings require a key, whatever is stored is an envelope, also with the key unset or
-- malformed.
pub encrypt-IsEncrypted :
    (rt : Runtime) (plaintext stored : Text)
    → rt.settings.require_kek ≡ true
    → encrypt_text rt plaintext ≡ ok stored
    → is_encrypted stored ≡ true
unfolding encrypt_text
encrypt-IsEncrypted rt plaintext stored required h = elim (Option-cases (fernet rt)) [
  | inl no_key ↦ ground arith
  | inr (key, e) ↦ ground (arith, starts_with-envelope (rt.fernet_encrypt key plaintext))
]
