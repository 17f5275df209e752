-- ===== src/Check/Accept.antt =====
-- What an accepted check says of the license that its token is for.
use yg_license_server.Base.{
  get_by, ◌==◌, ◌≤◌, ◌+◌, ◌≡◌, refl, sym, ap, subst, ◌∙◌, Option, none, some, arith, find,
  find-test,
}
use yg_license_server.Text.{Text, text_eq, eq_of_text_eq}
use yg_license_server.Model.{or_empty, days, Product, License, EventType, Payload}
use yg_license_server.Runtime.{Runtime, Claims}
use yg_license_server.Keystore.{decrypt_text}
use yg_license_server.LicenseKeys.{hash_key}
use yg_license_server.Session.{
  Session, Exec, Result, ok, err, rejected, attribute_error, product_of, pure, gets, lift, or_raise,
  ◌>>=◌, ◌>>◌, add_event, commit,
}
use yg_license_server.Session.Hoare.{Ensures, OnOk, Ensures-bind, Ensures-or_raise}
use yg_license_server.Check.{
  sign_with, CheckArgs, CheckResult, validate, self_register_url, upsert_install, sign_license_jwt,
  claims_of, seconds, check_license,
}
use yg_license_server.Check.Terms.{
  product_rows, SameProducts, Terms, Usable, after_plain, after_lift, Plain-upsert_install,
  validate-Usable, self_register_url-Terms,
}

-- what an accepted check is for: the row whose hash is that of the key, which is usable, and a token of
-- its product's key for its terms and for the installation that asks
abbrev pub Granted : Runtime → CheckArgs → Session → CheckResult → Type 0
Granted rt a s r =
    (row : License) × (product : Product) × (claims : Claims) × (pem : Text) × (hash_key rt a.key
      ≡ ok row.key_hash)
    × (find (λ (l : License). text_eq l.key_hash row.key_hash) s.work.licenses ≡ some row)
    × Terms row r.license
    × Usable rt row
    × (find (λ (p : Product). p.id == row.product_id) s.work.products ≡ some product)
    × (decrypt_text rt product.private_key_pem ≡ ok pem)
    × (r.jwt ≡ rt.jwt_encode claims pem)
    × (claims.aud ≡ product.slug)
    × (claims.install_id ≡ a.install_id)
    × (claims.license_id ≡ row.id)
    × (claims.plan ≡ row.plan)
    × (claims.max_users ≡ row.max_users)
    × (claims.features ≡ or_empty row.features)
    × (claims.exp ≤ seconds row.valid_until)
    × (claims.exp ≤ seconds (rt.now + days rt.settings.jwt_ttl_days))

-- what is signed, and with what
signed-with :
    (rt : Runtime) (product : Product) (lic : License) (install_id token : Text)
    → sign_license_jwt rt product lic install_id ≡ ok token
    → (pem : Text) × (decrypt_text rt product.private_key_pem ≡ ok pem)
      × (token ≡ rt.jwt_encode (claims_of rt product lic install_id) pem)
unfolding sign_license_jwt
signed-with rt product lic install_id token h =
    opened (decrypt_text rt product.private_key_pem) refl h
  where
    opened :
        (r : Result Text)
        → decrypt_text rt product.private_key_pem ≡ r
        → sign_with rt (claims_of rt product lic install_id) r ≡ ok token
        → (pem : Text) × (decrypt_text rt product.private_key_pem ≡ ok pem)
          × (token ≡ rt.jwt_encode (claims_of rt product lic install_id) pem)
    opened (ok pem) e g = (pem, e, ground arith)
    opened (err x) e g = cc

-- The token of a license ends with the license at the latest, and no later than the time to live of
-- the settings from now on.
pub claims_of-exp :
    (rt : Runtime) (product : Product) (lic : License) (install_id : Text)
    → ((claims_of rt product lic install_id).exp ≤ seconds lic.valid_until)
      × ((claims_of rt product lic install_id).exp
          ≤ seconds (rt.now + days rt.settings.jwt_ttl_days))
unfolding claims_of
claims_of-exp rt product lic install_id = (omega arith, omega arith)

-- the parts of a check: behind the token, the product, the query for it, the URL, and the license's row
abbrev told : Runtime → CheckArgs → License → License → Text → Exec CheckResult
told rt a row lic token =
    add_event rt (some row.id) (some row.product_id) EventType.heartbeat
      (Payload.beat a.version a.install_id) none
    >> (commit >> pure (record { jwt = token; license = lic }))

abbrev signing : Runtime → CheckArgs → License → License → Product → Exec CheckResult
signing rt a row lic product =
    lift (sign_license_jwt rt product lic a.install_id) >>= told rt a row lic

abbrev owned : Runtime → CheckArgs → License → License → Option Product → Exec CheckResult
owned rt a row lic o = or_raise o attribute_error >>= signing rt a row lic

abbrev registered : Runtime → CheckArgs → License → License → Exec CheckResult
registered rt a row lic =
    upsert_install rt row.id a >> (gets (product_of row) >>= owned rt a row lic)

abbrev granting : Runtime → CheckArgs → License → Exec CheckResult
granting rt a row =
    validate rt row >> (self_register_url rt row a.public_url >>= registered rt a row)

module _ (rt : Runtime) (a : CheckArgs) (s : Session) where
  Granted-of :
      (key_hash token : Text) (row lic : License) (product : Product)
      → hash_key rt a.key ≡ ok key_hash
      → find (λ (l : License). text_eq l.key_hash key_hash) s.work.licenses ≡ some row
      → Usable rt row
      → Terms row lic
      → product_of row s ≡ some product
      → sign_license_jwt rt product lic a.install_id ≡ ok token
      → Granted rt a s (record { jwt = token; license = lic })
  unfolding claims_of
  Granted-of key_hash token row lic product h found u t owned signed =
      let own =
        eq_of_text_eq row.key_hash key_hash
          (find-test (λ (l : License). text_eq l.key_hash key_hash) s.work.licenses row found) in
      let (pem, opened, jwt) = signed-with rt product lic a.install_id token signed in
      (
        row,
        product,
        claims_of rt product lic a.install_id,
        pem,
        h ∙ ap ok (sym own),
        subst (λ k. find (λ (l : License). text_eq l.key_hash k) s.work.licenses ≡ some row)
            (sym own) found,
        t,
        u,
        owned,
        opened,
        jwt,
        refl,
        refl,
        t.0,
        t.4,
        t.5,
        ap or_empty t.6,
        subst (λ v. (claims_of rt product lic a.install_id).exp ≤ seconds v) t.3
            (claims_of-exp rt product lic a.install_id).0,
        (claims_of-exp rt product lic a.install_id).1,
      )

  abbrev Same : Session → Type 0
  Same = SameProducts (product_rows s)

  Ensures-product :
      (row : License) → Ensures Same (λ o. o ≡ product_of row s) (gets (product_of row))
  Ensures-product row = record {
    at = λ t h. (h, ap (get_by (λ (p : Product). p.id) row.product_id) h);
  }

  told-Granted :
      (row lic : License) (token : Text)
      → Granted rt a s (record { jwt = token; license = lic })
      → Ensures Same (Granted rt a s) (told rt a row lic token)
  unfolding add_event commit
  told-Granted row lic token good = record { at = λ t h. (h, good) }

  registered-Granted :
      (key_hash : Text) (row lic : License)
      → hash_key rt a.key ≡ ok key_hash
      → find (λ (l : License). text_eq l.key_hash key_hash) s.work.licenses ≡ some row
      → Usable rt row
      → Terms row lic
      → Ensures Same (Granted rt a s) (registered rt a row lic)
  registered-Granted key_hash row lic h found u t =
      after_plain (product_rows s) (upsert_install rt row.id a)
        (λ _. gets (product_of row) >>= owned rt a row lic)
        (Plain-upsert_install (product_rows s) rt row.id a)
        λ _. Ensures-bind (gets (product_of row)) (owned rt a row lic) (Ensures-product row) λ o e.
          Ensures-bind (or_raise o attribute_error) (signing rt a row lic)
            (Ensures-or_raise o attribute_error)
            λ product f.
              after_lift (product_rows s) (sign_license_jwt rt product lic a.install_id)
                (told rt a row lic)
                λ token signed.
                  told-Granted row lic token
                    (Granted-of key_hash token row lic product h found u t (sym e ∙ f) signed)

  granting-Granted :
      (key_hash : Text) (row : License)
      → hash_key rt a.key ≡ ok key_hash
      → find (λ (l : License). text_eq l.key_hash key_hash) s.work.licenses ≡ some row
      → Ensures Same (Granted rt a s) (granting rt a row)
  granting-Granted key_hash row h found =
      Ensures-bind (validate rt row)
        (λ _. self_register_url rt row a.public_url >>= registered rt a row)
        (validate-Usable (product_rows s) rt row)
        λ _ u.
          Ensures-bind (self_register_url rt row a.public_url) (registered rt a row)
            (self_register_url-Terms (product_rows s) rt row a.public_url)
            (λ lic t. registered-Granted key_hash row lic h found u t)

  from_row :
      (key_hash : Text) (o : Option License)
      → hash_key rt a.key ≡ ok key_hash
      → find (λ (l : License). text_eq l.key_hash key_hash) s.work.licenses ≡ o
      → OnOk (Granted rt a s) ((or_raise o (rejected "invalid_key" 401) >>= granting rt a) s).0
  from_row key_hash none h e = tt
  from_row key_hash (some row) h e = ((granting-Granted key_hash row h e).at s refl).1

  from_hash :
      (r : Result Text)
      → hash_key rt a.key ≡ r
      → OnOk
          (Granted rt a s)
          ((lift r >>= λ key_hash.
              gets (λ t. find (λ (l : License). text_eq l.key_hash key_hash) t.work.licenses)
              >>= λ o. or_raise o (rejected "invalid_key" 401) >>= granting rt a)
            s).0
  from_hash (err e) h = tt
  from_hash (ok key_hash) h =
      from_row key_hash (find (λ (l : License). text_eq l.key_hash key_hash) s.work.licenses) h refl

-- A check that is accepted is for the first license row of the session whose hash is that of the key.
-- This row is neither revoked nor disabled and is not behind its end, and the license that is returned
-- has its terms. The token is signed with the decrypted key of the row's product, for that product's slug,
-- the installation that asks, and the row's id, plan, users and features; it ends with the license at the
-- latest, and no later than the settings' time to live from now on.
pub check_license-Granted :
    (rt : Runtime) (a : CheckArgs) (s : Session) (r : CheckResult)
    → (check_license rt a s).0 ≡ ok r
    → Granted rt a s r
unfolding check_license
check_license-Granted rt a s r done =
    subst (OnOk (Granted rt a s)) done (from_hash rt a s (hash_key rt a.key) refl)
