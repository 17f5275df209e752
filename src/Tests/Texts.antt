-- ===== src/Tests/Texts.antt =====
-- Examples for the keys, the envelopes and the bearer header.
use yg_license_server.Base.{
  ◌≡◌, ◌≤◌, ◌+◌, refl, ap, [], true, false, some, ◌∷◌, ◌++◌, arith, drop, length,
}
use yg_license_server.Text.{Text, codes, starts_with}
use yg_license_server.Session.{ok}
use yg_license_server.LicenseKeys.{make_display}
use yg_license_server.LicenseKeys.Display.{length-make_display}
use yg_license_server.Keystore.{envelope_prefix, is_encrypted, encrypt_text, decrypt_text}
use yg_license_server.Keystore.RoundTrip.{decrypt-encrypt, encrypt-IsEncrypted}
use yg_license_server.Tests.Samples.{rt}

-- one character for a key, so that it is dropped again
pub undone : (key text : Text) → some (drop (length key) (key ++ text)) ≡ some text
undone key text = ap some (dropped key)
  where
    dropped : (k : Text) → drop (length k) (k ++ text) ≡ text
    dropped [] = refl
    dropped (c ∷ k) = dropped k

abbrev stored : Text
stored = envelope_prefix ++ codes "kx"

stored_x : encrypt_text rt (codes "x") ≡ ok stored
unfolding encrypt_text starts_with
stored_x = refl

plain_x : starts_with (codes "x") envelope_prefix ≡ false
unfolding starts_with
plain_x = refl

decrypt-encrypt_example : decrypt_text rt stored ≡ ok (codes "x")
decrypt-encrypt_example = decrypt-encrypt rt (codes "x") stored undone plain_x stored_x

encrypt-IsEncrypted_example : is_encrypted stored ≡ true
encrypt-IsEncrypted_example = encrypt-IsEncrypted rt (codes "x") stored refl stored_x

length-make_display_example :
    length (make_display (codes "wt" ++ b'_' ∷ codes "0123456789ab")) ≤ length (codes "wt") + 12
length-make_display_example = length-make_display (codes "wt") (codes "0123456789ab") (omega arith)
