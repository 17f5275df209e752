-- ===== src/AdminLicenses.antt =====
-- app/routers/admin_ui/licenses.py: the handlers of the license forms and of the programmatic webhook
-- endpoint. A redirect to a product's page is the product's slug with what the query tells the page.
pub mod Requests
pub mod Handlers
pub mod Invariant
pub mod Guarded
use yg_license_server.Base.{
  ℕ, Bool, true, false, not, ◌&&◌, Option, none, some, List, [], ◌∷◌, any, find, select, length,
  ◌==◌, if◌then◌else◌,
}
use yg_license_server.Text.{Text, codes, strip, or_none, nonempty, text_eq}
use yg_license_server.Model.{RowId, Product, License, Json, Source}
use yg_license_server.Runtime.{Runtime}
use yg_license_server.Security.{check_admin_bearer}
use yg_license_server.Session.{
  Session, Exec, Error, Result, ok, err, http_error, validation_failed, unsafe, attribute_error,
  login_required, pure, gets, or_raise, raise, raise_if, ◌>>=◌, ◌>>◌, product_of,
}
use yg_license_server.Webhooks.Queue.{Scheduler}
use yg_license_server.Licenses.{
  IssueArgs, IssueResult, issue_license, EditArgs, EditResult, edit_license, parse_features,
  configure_webhook, convert_webhook_to_self, slug_of, set_status, revoke_license, disable_license,
  enable_license, delete_license, Snapshot, delete_licenses_bulk,
}

-- What `require_login` and `require_csrf` find of a form post.
pub record Caller : Type 0 where
  pub logged_in : Bool
  pub csrf_ok : Bool

-- the guards at the top of each form handler
unfoldable pub require : Caller → Exec Unit
require c =
    raise_if (not c.logged_in) login_required
    >> raise_if (not c.csrf_ok) (http_error 403 "invalid CSRF token")

-- `except (…) as e`: the errors of a test become values, the others go on
abbrev pub catch : {A : Type 0} → (Error → Bool) → Result A × Session → Result (Result A) × Session
catch p (ok a, s) = (ok (ok a), s)
catch p (err e, s) = (if p e then ok (err e) else err e, s)

abbrev pub caught : {A : Type 0} → (Error → Bool) → Exec A → Exec (Result A)
caught p m s = catch p (m s)

abbrev pub is_unsafe_url : Error → Bool
is_unsafe_url (unsafe _) = true
is_unsafe_url _ = false

abbrev pub is_invalid : Error → Bool
is_invalid (validation_failed _) = true
is_invalid _ = false

abbrev pub is_form_error : Error → Bool
is_form_error (validation_failed _) = true
is_form_error (unsafe _) = true
is_form_error _ = false

-- What the query of a redirect tells the product's page.
pub data Page : Type 0 where
  plain none_selected invalid_features : Page
  failure : Error → Page
  issued : RowId → Text → Page
  edited secret_shown : RowId → Page
  deleted : ℕ → Page

pub record Redirect : Type 0 where
  pub slug : Text
  pub page : Page

abbrev pub to_page : Text → Page → Redirect
to_page slug page = record { slug = slug; page = page }

-- `db.query(License).filter_by(id=lid).one_or_none()`, and 404 where there is none
abbrev pub load : RowId → Exec License
load lid = gets (λ s. find (λ (l : License). l.id == lid) s.work.licenses) >>= λ found.
    or_raise found (http_error 404 "Not Found")

-- `lic.product.slug`
abbrev pub slug_text : License → Exec Text
slug_text lic = gets (slug_of lic) >>= λ slug. or_raise slug attribute_error

abbrev pub find_product : Text → Exec Product
find_product slug =
    gets (λ s. find (λ (p : Product). text_eq p.slug slug) s.work.products) >>= λ found.
    or_raise found (http_error 404 "Not Found")

abbrev pub ticked : Text → Bool
ticked t = text_eq t (codes "1")

abbrev pub failure_or : {A : Type 0} → Text → (A → Page) → Result A → Redirect
failure_or slug page (ok a) = to_page slug (page a)
failure_or slug page (err e) = to_page slug (Page.failure e)

pub record IssueForm : Type 0 where
  pub email : Text
  pub customer_name : Text
  pub plan : Text
  pub max_users : ℕ
  pub valid_days : ℕ
  pub features_json : Text
  pub webhook_url : Text
  pub allow_http_webhook : Text

abbrev pub args_of : IssueForm → Json → IssueArgs
args_of f features = record {
  email = f.email;
  name = some f.customer_name;
  plan = f.plan;
  max_users = f.max_users;
  valid_days = f.valid_days;
  features = features;
  webhook_url = or_none f.webhook_url;
  allow_http_webhook = ticked f.allow_http_webhook;
  stripe_customer_id = none;
  note = some (codes "ui/issue");
  send_email = true;
}

unfoldable pub issue_with : Runtime → Text → Product → IssueForm → Option Json → Exec Redirect
unfolding issue_license
issue_with rt slug p f none = pure (to_page slug Page.invalid_features)
issue_with rt slug p f (some features) = do
  result ← caught is_form_error (issue_license rt p (args_of f features))
  pure (failure_or slug (λ (r : IssueResult). Page.issued r.license.id r.license.key) result)

-- `license_issue`
unfoldable pub license_issue : Runtime → Caller → Text → IssueForm → Exec Redirect
unfolding require issue_with
license_issue rt c slug f = do
  require c
  p ← find_product slug
  issue_with rt slug p f (parse_features rt f.features_json)

pub record EditForm : Type 0 where
  pub plan : Text
  pub max_users : ℕ
  pub valid_until : Text
  pub features_json : Text
  pub webhook_url : Text
  pub allow_http_webhook : Text
  pub rotate_secret : Text

abbrev pub edit_args_of : EditForm → EditArgs
edit_args_of f = record {
  plan = f.plan;
  max_users = f.max_users;
  valid_until_raw = f.valid_until;
  features_json = f.features_json;
  webhook_url = f.webhook_url;
  allow_http_webhook = some (ticked f.allow_http_webhook);
  rotate_secret = ticked f.rotate_secret;
  note = some (codes "ui/edit");
}

abbrev pub edit_page : RowId → Text → EditResult → Page
edit_page lid url r =
    if r.secret_changed && nonempty (strip url) then Page.secret_shown lid else Page.edited lid

-- `license_edit`
unfoldable pub license_edit : Runtime → Caller → RowId → EditForm → Exec Redirect
unfolding require edit_license
license_edit rt c lid f = do
  require c
  lic ← load lid
  result ← caught is_form_error (edit_license rt lic (edit_args_of f) Scheduler.background)
  slug ← slug_text lic
  pure (failure_or slug (edit_page lid f.webhook_url) result)

-- `license_webhook_update`
unfoldable pub license_webhook_update :
    Runtime → Caller → RowId → Text → Text → Text → Exec Redirect
unfolding require configure_webhook
license_webhook_update rt c lid webhook_url allow_http_webhook rotate_secret = do
  require c
  lic ← load lid
  result ← caught is_unsafe_url (
      configure_webhook rt lic (or_none (strip webhook_url)) (ticked rotate_secret) true
        Source.admin (some (ticked allow_http_webhook)) (some (codes "ui/webhook")))
  slug ← slug_text lic
  pure (failure_or slug (λ (l : License). Page.secret_shown lid) result)

pub record WebhookConfigIn : Type 0 where
  pub url : Text
  pub rotate : Bool
  pub allow_http : Option Bool

pub record WebhookConfigOut : Type 0 where
  pub webhook_url : Option Text
  pub webhook_secret : Option Text

-- `_require_admin_bearer`
unfoldable pub require_bearer : Runtime → Option Text → Exec Unit
unfolding check_admin_bearer
require_bearer rt authorization =
    raise_if (not (nonempty rt.settings.admin_token))
      (http_error 503 "admin disabled (ADMIN_TOKEN unset)")
    >> raise_if (not (check_admin_bearer rt authorization rt.settings.admin_token))
        (http_error 401 "invalid admin token")

abbrev pub config_out : Result License → Exec WebhookConfigOut
config_out (ok l) = pure (record { webhook_url = l.webhook_url; webhook_secret = l.webhook_secret })
config_out (err e) = raise (http_error 400 "unsafe webhook url")

-- `admin_api_webhook_set`
unfoldable pub admin_api_webhook_set :
    Runtime → Option Text → RowId → WebhookConfigIn → Exec WebhookConfigOut
unfolding require_bearer configure_webhook
admin_api_webhook_set rt authorization lid b = do
  require_bearer rt authorization
  lic ← load lid
  result ← caught is_unsafe_url (
      configure_webhook rt lic (or_none (strip b.url)) b.rotate false Source.admin b.allow_http
        (some (codes "api/webhook")))
  config_out result

-- `license_webhook_convert_to_self`
unfoldable pub license_webhook_convert_to_self : Runtime → Caller → RowId → Exec Redirect
unfolding require convert_webhook_to_self
license_webhook_convert_to_self rt c lid = do
  require c
  lic ← load lid
  result ← caught is_invalid (convert_webhook_to_self rt lic (some (codes "ui/convert-to-self")))
  slug ← slug_text lic
  pure (failure_or slug (λ (l : License). Page.secret_shown lid) result)

-- `license_revoke`, `license_disable`, `license_enable`
unfoldable pub license_revoke : Runtime → Caller → RowId → Exec Redirect
unfolding require revoke_license
license_revoke rt c lid = do
  require c
  lic ← load lid
  revoke_license rt lic (some (codes "ui/revoke")) Scheduler.background
  slug ← slug_text lic
  pure (to_page slug Page.plain)

unfoldable pub license_disable : Runtime → Caller → RowId → Exec Redirect
unfolding require disable_license
license_disable rt c lid = do
  require c
  lic ← load lid
  disable_license rt lic (some (codes "ui/disable")) Scheduler.background
  slug ← slug_text lic
  pure (to_page slug Page.plain)

unfoldable pub license_enable : Runtime → Caller → RowId → Exec Redirect
unfolding require enable_license
license_enable rt c lid = do
  require c
  lic ← load lid
  enable_license rt lic (some (codes "ui/enable")) Scheduler.background
  slug ← slug_text lic
  pure (to_page slug Page.plain)

-- `license_delete_one`
unfoldable pub license_delete_one : Runtime → Caller → RowId → Exec Redirect
unfolding require delete_license
license_delete_one rt c lid = do
  require c
  lic ← load lid
  slug ← slug_text lic
  delete_license rt lic Scheduler.background (some (codes "ui/delete"))
  pure (to_page slug (Page.deleted 1))

-- the rows of a product among those of the form
abbrev pub selected : Product → List RowId → License → Bool
selected p ids l = l.product_id == p.id && any (λ i. i == l.id) ids

unfoldable pub delete_selected : Runtime → Text → Product → List RowId → Exec Redirect
unfolding delete_licenses_bulk
delete_selected rt slug p [] = pure (to_page slug Page.none_selected)
delete_selected rt slug p (i ∷ ids) = do
  rows ← gets (λ s. select (selected p (i ∷ ids)) s.work.licenses)
  gone ← delete_licenses_bulk rt rows Scheduler.background (some (codes "ui/bulk-delete"))
  pure (to_page slug (Page.deleted (length gone)))

-- `licenses_bulk_delete`
unfoldable pub licenses_bulk_delete : Runtime → Caller → Text → List RowId → Exec Redirect
unfolding require delete_selected
licenses_bulk_delete rt c slug ids = do
  require c
  p ← find_product slug
  delete_selected rt slug p ids
