-- ===== src/Api.antt =====
-- app/routers/api.py: the JSON routes over the services. The listing of customers stands with the
-- customers, and the rows of a listing are the database's rows.
use yg_license_server.Base.{ℕ, Bool, true, not, Option, some, List, select, map, ◌==◌}
use yg_license_server.Text.{Text, codes, nonempty, truthy}
use yg_license_server.Model.{RowId, Time, Product, License, Status, Json, or_empty}
use yg_license_server.Runtime.{Runtime}
use yg_license_server.Security.{check_admin_bearer}
use yg_license_server.Session.{
  Session, Exec, Error, Result, ok, err, not_found, conflict, validation_failed, rejected,
  http_error, attribute_error, pure, gets, or_raise, raise_if, ◌>>=◌, ◌>>◌, product_of,
  load_license,
}
use yg_license_server.Pagination.{Page, Key, paginate, clamp_limit}
use yg_license_server.Products.{CreateArgs, create_product, get_product, license_count}
use yg_license_server.Customers.{newest_first}
use yg_license_server.Licenses.{IssueArgs, IssueResult, issue_license, revoke_license}
use yg_license_server.Webhooks.Queue.{Scheduler}
use yg_license_server.Check.{CheckArgs, check_license, echoed_secret}

-- `except … as e: raise HTTPException(…) from e`
abbrev pub raised_as : {A : Type 0} → (Error → Error) → Result A × Session → Result A × Session
raised_as f (ok a, s) = (ok a, s)
raised_as f (err e, s) = (err (f e), s)

abbrev pub mapped : {A : Type 0} → (Error → Error) → Exec A → Exec A
mapped f m s = raised_as f (m s)

-- the errors of a check, by their reason and status
abbrev pub check_error : Error → Error
check_error (rejected reason status) = http_error status reason
check_error e = e

-- `CheckOut`
pub record CheckOut : Type 0 where
  pub jwt : Text
  pub valid_until : Time
  pub features : Json
  pub max_users : ℕ
  pub license_id : RowId
  pub product : Text
  pub webhook_secret : Option Text

-- `check`
unfoldable pub check : Runtime → CheckArgs → Exec CheckOut
unfolding check_license echoed_secret
check rt args = do
  result ← mapped check_error (check_license rt args)
  p ← or_raise (← gets (product_of result.license)) attribute_error
  pure (record {
    jwt = result.jwt;
    valid_until = result.license.valid_until;
    features = or_empty result.license.features;
    max_users = result.license.max_users;
    license_id = result.license.id;
    product = p.slug;
    webhook_secret = echoed_secret result.license;
  })

abbrev pub lookup_error : Error → Error
lookup_error (not_found text) = http_error 404 "product not found"
lookup_error e = e

abbrev pub load_product : Text → Exec Product
load_product slug = mapped lookup_error (get_product slug)

-- `get_pubkey`
unfoldable pub get_pubkey : Text → Exec Text
unfolding get_product
get_pubkey slug = load_product slug >>= λ p. pure p.public_key_pem

-- `_require_admin`
unfoldable pub require_admin : Runtime → Option Text → Exec Unit
unfolding check_admin_bearer
require_admin rt authorization =
    raise_if (not (nonempty rt.settings.admin_token))
      (http_error 503 "admin disabled (ADMIN_TOKEN unset)")
    >> raise_if (not (check_admin_bearer rt authorization rt.settings.admin_token))
        (http_error 401 "invalid admin token")

abbrev pub create_error : Error → Error
create_error (validation_failed text) = http_error 400 text
create_error (conflict text) = http_error 409 text
create_error e = e

-- `admin_create_product`, which answers some columns of the row
unfoldable pub admin_create_product : Runtime → Option Text → CreateArgs → Exec Product
unfolding require_admin create_product
admin_create_product rt auth body =
    require_admin rt auth
    >> mapped create_error (create_product rt (record body { validate_format = true }))

-- `admin_get_product`: the row, whether Stripe is configured, and the number of licenses
unfoldable pub admin_get_product : Runtime → Option Text → Text → Exec (Product × Bool × ℕ)
unfolding require_admin get_product
admin_get_product rt auth slug = do
  require_admin rt auth
  p ← load_product slug
  n ← gets (license_count p.id)
  pure (p, truthy p.stripe_webhook_secret, n)

-- `list_products_with_counts`; rows created at one time come in any order, here by their ids
unfoldable pub list_products_with_counts : Runtime → Session → List (Product × ℕ)
unfolding newest_first
list_products_with_counts rt s =
    map (λ (p : Product). (p, license_count p.id s))
      (newest_first (λ (p : Product). (p.created_at, rt.id_text p.id)) s.work.products)

-- `admin_list_products`
unfoldable pub admin_list_products : Runtime → Option Text → Exec (List (Product × ℕ))
unfolding require_admin list_products_with_counts
admin_list_products rt auth = require_admin rt auth >> gets (list_products_with_counts rt)

-- `admin_issue`, which answers the new license and the product's slug
unfoldable pub admin_issue : Runtime → Option Text → Text → IssueArgs → Exec (IssueResult × Text)
unfolding require_admin get_product issue_license
admin_issue rt auth slug body = do
  require_admin rt auth
  p ← load_product slug
  result ← issue_license rt p (record body { note = some (codes "admin/issue"); send_email = true })
  pure (result, p.slug)

abbrev pub license_key : Runtime → License → Key
license_key rt l = (l.created_at, rt.id_text l.id)

-- the licenses of a product, newest first
unfoldable pub licenses_of : Runtime → RowId → Session → List License
unfolding newest_first
licenses_of rt id s =
    newest_first (license_key rt) (select (λ (l : License). l.product_id == id) s.work.licenses)

-- `admin_list_licenses`
unfoldable pub admin_list_licenses :
    Runtime → Option Text → Text → Option Text → Option Text → Exec (Page License)
unfolding require_admin get_product licenses_of paginate clamp_limit
admin_list_licenses rt auth slug cursor limit = do
  require_admin rt auth
  p ← load_product slug
  gets (λ s. paginate rt (license_key rt) (licenses_of rt p.id s) cursor (clamp_limit rt limit))

-- `admin_revoke`, with the webhook sent in the request
unfoldable pub admin_revoke : Runtime → Option Text → RowId → Exec (RowId × Status)
unfolding require_admin load_license revoke_license
admin_revoke rt auth lid = do
  require_admin rt auth
  lic ← load_license lid
  revoke_license rt lic (some (codes "admin/revoke")) Scheduler.inline
  pure (lic.id, Status.revoked)
