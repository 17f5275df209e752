-- ===== src/LicenseKeys.antt =====
-- app/license_keys.py: the stored hash of a license key and its display form.
pub mod Display
use yg_license_server.Base.{
  ℕ, Option, none, some, ◌∷◌, [], ◌++◌, List, Bool, ◌==◌, leb, length, take, drop, if◌then◌else◌,
  ◌-◌,
}
use yg_license_server.Text.{Text, nonempty, last_chars}
use yg_license_server.Runtime.{Runtime}
use yg_license_server.Session.{Result, ok, err, runtime_error}

-- `hash_key`: the keyed BLAKE2b digest, or RuntimeError with no pepper
unfoldable pub hash_key : Runtime → Text → Result Text
hash_key rt plaintext =
    if nonempty rt.settings.license_key_pepper
    then ok (rt.blake2b rt.settings.license_key_pepper plaintext)
    else err runtime_error

-- `s.partition(c)` where `c` occurs: the texts before and behind its first occurrence
unfoldable pub partition : ℕ → Text → Option (Text × Text)
partition c [] = none
partition c (d ∷ s) =
    let rest = partition c s in
    if d == c
    then some ([], s)
    else elim rest [ none ↦ none | some (before, behind) ↦ some (d ∷ before, behind) ]

-- the first six and the last four characters, with an ellipsis between them
abbrev pub shortened : Text → Text
shortened body = take 6 body ++ 0x2026 ∷ (if leb 10 (length body) then last_chars 4 body else body)

abbrev pub display_of : Option (Text × Text) → Text → Text
display_of none plaintext = shortened plaintext
display_of (some (prefix, body)) plaintext = prefix ++ b'_' ∷ shortened body

-- `make_display`
unfoldable pub make_display : Text → Text
unfolding partition
make_display plaintext = display_of (partition b'_' plaintext) plaintext
