-- ===== src/Rewrap.antt =====
-- app/scripts/rewrap_secrets.py: the secrets of all products are encrypted, or taken from the previous
-- key to the current one. The mode is the previous key, or none where the script only encrypts.
pub mod Kept
pub mod Run
use yg_license_server.Base.{
  ℕ, zero, suc, Bool, true, false, not, ◌||◌, Option, none, some, List, [], ◌∷◌, if◌then◌else◌,
  ◌==◌,
}
use yg_license_server.Text.{Text, nonempty, text_eq}
use yg_license_server.Model.{Product}
use yg_license_server.Runtime.{Runtime}
use yg_license_server.Session.{Session, Result, ok, err, Error, rollback, flushed}
use yg_license_server.Keystore.{is_encrypted, encrypt_text, decrypt_with, fernet_prev}

abbrev pub marked : Result Text → Result (Text × Bool)
marked (ok t) = ok (t, true)
marked (err e) = err e

abbrev pub encrypt_read : Runtime → Result Text → Result (Text × Bool)
encrypt_read rt (ok plaintext) = marked (encrypt_text rt plaintext)
encrypt_read rt (err e) = err e

-- `_rewrap_field` and `_rewrap_field_migrate` of a value that is not None
unfoldable pub rewrap_text : Runtime → Option Text → Text → Result (Text × Bool)
unfolding is_encrypted encrypt_text decrypt_with
rewrap_text rt none value =
    if is_encrypted value then ok (value, false) else marked (encrypt_text rt value)
rewrap_text rt (some prev) value =
    if is_encrypted value
    then encrypt_read rt (decrypt_with rt prev value)
    else marked (encrypt_text rt value)

abbrev pub optional : Result (Text × Bool) → Result (Option Text × Bool)
optional (ok (t, changed)) = ok (some t, changed)
optional (err e) = err e

-- the same of a value that may be None
unfoldable pub rewrap_field : Runtime → Option Text → Option Text → Result (Option Text × Bool)
unfolding rewrap_text
rewrap_field rt mode none = ok (none, false)
rewrap_field rt mode (some value) = optional (rewrap_text rt mode value)

-- the row with its three new values, if one of them changed
abbrev pub rewritten :
    Product
    → Result (Text × Bool)
    → Result (Option Text × Bool)
    → Result (Option Text × Bool)
    → Result (Product × Bool)
rewritten p (err e) ws ak = err e
rewritten p (ok priv) (err e) ak = err e
rewritten p (ok priv) (ok ws) (err e) = err e
rewritten p (ok (priv, priv_changed)) (ok (ws, ws_changed)) (ok (ak, ak_changed)) =
    if priv_changed || ws_changed || ak_changed
    then ok
        (record p { private_key_pem = priv; stripe_webhook_secret = ws; stripe_api_key = ak }, true)
    else ok (p, false)

-- the body of the loop
unfoldable pub rewrap_product : Runtime → Option Text → Product → Result (Product × Bool)
unfolding rewrap_text rewrap_field
rewrap_product rt mode p =
    rewritten p (rewrap_text rt mode p.private_key_pem)
      (rewrap_field rt mode p.stripe_webhook_secret) (rewrap_field rt mode p.stripe_api_key)

abbrev pub tallied : Bool → ℕ → ℕ
tallied true n = suc n
tallied false n = n

abbrev pub consed : Result (Product × Bool) → Result (List Product × ℕ) → Result (List Product × ℕ)
consed (err e) rest = err e
consed (ok p) (err e) = err e
consed (ok (p, changed)) (ok (ps, n)) = ok (p ∷ ps, tallied changed n)

-- the loop, with `total_changed`
unfoldable pub rewrap_products : Runtime → Option Text → List Product → Result (List Product × ℕ)
unfolding rewrap_product
rewrap_products rt mode [] = ok ([], 0)
rewrap_products rt mode (p ∷ ps) = consed (rewrap_product rt mode p) (rewrap_products rt mode ps)

-- the exit status, with the session closed
abbrev pub finish_run : Bool → Session → Result (List Product × ℕ) → ℕ × Session
finish_run dry_run s (err e) = (1, rollback s)
finish_run true s (ok result) = (0, rollback s)
finish_run false s (ok (rows, zero)) = (0, rollback s)
finish_run false s (ok (rows, suc n)) =
    let db = flushed (record s { work = record (s.work) { products = rows } }) in
    (0, record s { store = db; work = db; added = [] })

abbrev pub scan : Runtime → Bool → Option Text → Session → ℕ × Session
scan rt dry_run mode s = finish_run dry_run s (rewrap_products rt mode s.work.products)

abbrev pub migrate_from : Runtime → Bool → Option Text → Session → ℕ × Session
migrate_from rt dry_run none s = (2, s)
migrate_from rt dry_run (some prev) s = scan rt dry_run (some prev) s

unfoldable pub migrate : Runtime → Bool → Session → ℕ × Session
unfolding fernet_prev rewrap_products
migrate rt dry_run s =
    if not (nonempty rt.settings.key_encryption_key_prev)
    then (2, s)
    else if text_eq rt.settings.key_encryption_key_prev rt.settings.key_encryption_key
    then (0, s)
    else migrate_from rt dry_run (fernet_prev rt) s

-- `run`
unfoldable pub run_rewrap : Runtime → Bool → Bool → Session → ℕ × Session
unfolding migrate rewrap_products
run_rewrap rt dry_run migrate_from_prev s =
    if not (nonempty rt.settings.key_encryption_key)
    then (2, s)
    else if migrate_from_prev
    then migrate rt dry_run s
    else scan rt dry_run none s
