-- ===== src/Check.antt =====
-- app/services/check.py: `check_license`, and the reply of `check` in app/routers/api.py.
pub mod Keep
pub mod HookSafe
pub mod AdminHook
pub mod Atomic
pub mod Terms
pub mod Accept
use yg_license_server.Base.{
  ℕ, ◌/◌, ◌+◌, Bool, not, ◌&&◌, ◌||◌, Option, none, some, [], ◌∷◌, ◌++◌, ltb, min, find, put_by,
  length, ◌==◌, if◌then◌else◌,
}
use yg_license_server.Text.{Text, strip, strip_right, nonempty, truthy, text_eq, text_opt_eq, codes}
use yg_license_server.Model.{
  RowId, Time, days, Product, License, Install, or_empty, disabled, revoked, admin, self, EventType,
  Payload,
}
use yg_license_server.Runtime.{Runtime, Claims}
use yg_license_server.Security.{is_safe_url_shape}
use yg_license_server.LicenseKeys.{hash_key}
use yg_license_server.Keystore.{decrypt_text}
use yg_license_server.Session.{
  Exec, Result, ok, err, rejected, attribute_error, pure, raise, gets, lift, or_raise, raise_if,
  ◌>>=◌, ◌>>◌, fresh_id, save_license, add_event, commit, product_of,
}
use yg_license_server.Webhooks.{generate_secret}
use yg_license_server.Licenses.{minted}

pub record CheckArgs : Type 0 where
  pub key : Text
  pub install_id : Text
  pub version : Text
  pub public_url : Option Text
  pub client_ip_hash : Option Text

-- the tests on the row, in the order of the code
unfoldable pub validate : Runtime → License → Exec Unit
validate rt lic = elim lic.status [
  | revoked ↦ raise (rejected "revoked" 401)
  | disabled ↦ raise (rejected "disabled" 401)
  | _ ↦ raise_if (ltb lic.valid_until rt.now) (rejected "expired" 401)
]

-- `public_url.strip().rstrip("/")`
abbrev pub candidate_of : Text → Text
candidate_of url = strip_right (λ c. c == b'/') (strip url)

-- an admin-set URL differs: it is kept, and the attempt recorded
unfoldable pub refuse_override : Runtime → License → Text → Exec License
unfolding add_event
refuse_override rt lic candidate = do
  add_event rt (some lic.id) (some lic.product_id) EventType.override_refused
      (Payload.refused candidate lic.webhook_url) (some (codes "service/check"))
  pure lic

-- a self-registered URL differs, or there is none: it is set, with a secret if there is none
unfoldable pub self_register : Runtime → License → Text → Exec License
unfolding add_event minted save_license
self_register rt lic candidate = do
  add_event rt (some lic.id) (some lic.product_id) EventType.self_registered
      (Payload.registered lic.webhook_url candidate) (some (codes "service/check"))
  secret ← minted rt (not (truthy lic.webhook_secret)) lic.webhook_secret
  let lic' : License = record lic {
    webhook_url = some candidate;
    webhook_url_source = self;
    webhook_secret = secret;
  }
  save_license lic'
  pure lic'

-- the URL is the same, and its secret is missing
unfoldable pub backfill : Runtime → License → Exec License
unfolding add_event generate_secret save_license
backfill rt lic = do
  secret ← generate_secret rt
  let lic' : License = record lic { webhook_secret = some secret }
  save_license lic'
  add_event rt (some lic.id) (some lic.product_id) EventType.secret_backfilled Payload.backfilled
      (some (codes "service/check"))
  pure lic'

-- the three branches behind the shape check of the candidate
unfoldable pub register_url : Runtime → License → Text → Exec License
unfolding refuse_override self_register backfill
register_url rt lic candidate =
    if not (text_opt_eq lic.webhook_url (some candidate))
    then elim lic.webhook_url_source [
      | admin ↦ refuse_override rt lic candidate
      | self ↦ self_register rt lic candidate
    ]
    else elim lic.webhook_url_source [
      | admin ↦ pure lic
      | self ↦ if truthy lic.webhook_secret then pure lic else backfill rt lic
    ]

-- the part about `public_url`
unfoldable pub self_register_url : Runtime → License → Option Text → Exec License
unfolding register_url
self_register_url rt lic none = pure lic
self_register_url rt lic (some url) =
    if nonempty (strip url)
    then (do
      raise_if
          (ltb 500 (length (candidate_of url))
            || not (is_safe_url_shape rt (candidate_of url) lic.allow_http_webhook))
          (rejected "invalid_public_url" 400)
      register_url rt lic (candidate_of url))
    else pure lic

abbrev pub same_install : RowId → Text → Install → Bool
same_install license_id install_id i = i.license_id == license_id && text_eq i.install_id install_id

abbrev pub seen : Runtime → RowId → CheckArgs → Option Install → Exec Unit
seen rt license_id a none = do
  id ← fresh_id
  let install : Install = record {
    id = id;
    license_id = license_id;
    install_id = a.install_id;
    version = a.version;
    last_seen_at = rt.now;
    ip_addr_hash = a.client_ip_hash;
  }
  λ s. (ok tt, record s { work = record (s.work) { installs = s.work.installs ++ install ∷ [] } })
seen rt license_id a (some old) =
    let install : Install = record old {
      version = a.version;
      last_seen_at = rt.now;
      ip_addr_hash = a.client_ip_hash;
    } in
    λ s. (
      ok tt,
      record s {
        work = record (s.work) {
          installs = put_by (λ (i : Install). i.id) install s.work.installs;
        };
      },
    )

-- the heartbeat of the installation
unfoldable pub upsert_install : Runtime → RowId → CheckArgs → Exec Unit
unfolding fresh_id
upsert_install rt license_id a = do
  found ← gets (λ s. find (same_install license_id a.install_id) s.work.installs)
  seen rt license_id a found

abbrev pub seconds : Time → ℕ
seconds t = t / 1_000_000

-- the claims of `sign_license_jwt` (app/signing.py)
unfoldable pub claims_of : Runtime → Product → License → Text → Claims
claims_of rt product lic install_id = record {
  iss = product.jwt_issuer;
  kid = product.id;
  aud = product.slug;
  iat = seconds rt.now;
  exp = seconds (min (rt.now + days rt.settings.jwt_ttl_days) lic.valid_until);
  license_id = lic.id;
  install_id = install_id;
  plan = lic.plan;
  max_users = lic.max_users;
  features = or_empty lic.features;
  valid_until = seconds lic.valid_until;
}

abbrev pub sign_with : Runtime → Claims → Result Text → Result Text
sign_with rt claims (ok key) = ok (rt.jwt_encode claims key)
sign_with rt claims (err e) = err e

-- `sign_license_jwt`
unfoldable pub sign_license_jwt : Runtime → Product → License → Text → Result Text
unfolding claims_of
sign_license_jwt rt product lic install_id =
    sign_with rt (claims_of rt product lic install_id) (decrypt_text rt product.private_key_pem)

pub record CheckResult : Type 0 where
  pub jwt : Text
  pub license : License

-- `check_license`
unfoldable pub check_license : Runtime → CheckArgs → Exec CheckResult
unfolding hash_key validate self_register_url upsert_install add_event commit
check_license rt a = do
  key_hash ← lift (hash_key rt a.key)
  lic ←
      or_raise (← gets (λ s. find (λ (l : License). text_eq l.key_hash key_hash) s.work.licenses))
        (rejected "invalid_key" 401)
  validate rt lic
  lic' ← self_register_url rt lic a.public_url
  upsert_install rt lic.id a
  product ← or_raise (← gets (product_of lic)) attribute_error
  token ← lift (sign_license_jwt rt product lic' a.install_id)
  add_event rt (some lic.id) (some lic.product_id) EventType.heartbeat
      (Payload.beat a.version a.install_id) none
  commit
  pure (record { jwt = token; license = lic' })

-- the secret that the reply of /v1/check carries
unfoldable pub echoed_secret : License → Option Text
echoed_secret lic = elim lic.webhook_url_source [ self ↦ lic.webhook_secret | admin ↦ none ]
