-- ===== src/AdminCatalog.antt =====
-- The form handlers of app/routers/admin_ui/products.py, presets.py and customers.py. A redirect back to a
-- page with `?error=` is the error that it reports; the pages themselves only render.
use yg_license_server.Base.{
  ℕ, ◌+◌, Bool, true, false, Option, none, some, List, [], ◌∷◌, any, find, select, ◌==◌,
}
use yg_license_server.Text.{Text, codes, or_none}
use yg_license_server.Model.{RowId, Product, Customer, FeaturePreset}
use yg_license_server.Runtime.{Runtime}
use yg_license_server.Session.{
  Session, Exec, Error, Result, ok, err, not_found, conflict, validation_failed, http_error, pure,
  gets, or_raise, ◌>>=◌, ◌>>◌,
}
use yg_license_server.Webhooks.Queue.{Scheduler}
use yg_license_server.Products.{
  CreateArgs, create_product, UpdateArgs, update_product, delete_product,
}
use yg_license_server.Customers.{CustomerForm, edit_customer}
use yg_license_server.Presets.{create_preset, update_preset, delete_presets}
use yg_license_server.AdminLicenses.{Caller, require, caught}
use yg_license_server.Api.{mapped}

-- `except (Conflict, ValidationFailed) as e`
abbrev pub is_refused : Error → Bool
is_refused (conflict text) = true
is_refused (validation_failed text) = true
is_refused _ = false

-- `except NotFound as e: raise HTTPException(status_code=404) from e`
abbrev pub missing_404 : Error → Error
missing_404 (not_found text) = http_error 404 "Not Found"
missing_404 e = e

-- what a handler answers: a redirect that reports an error, or the result
abbrev pub Answered : Type 0 → Type 0
Answered A = Result A

-- a call between the two `except` clauses
abbrev pub attempted : {A : Type 0} → Exec A → Exec (Answered A)
attempted m = mapped missing_404 (caught is_refused m)

-- the arguments of the form; `description or None` and `jwt_issuer or None`
abbrev pub form_args : Text → Text → Text → Text → Text → CreateArgs
form_args slug name key_prefix description jwt_issuer = record {
  slug = slug;
  name = name;
  key_prefix = key_prefix;
  description = or_none description;
  jwt_issuer = or_none jwt_issuer;
  stripe_webhook_secret = none;
  stripe_api_key = none;
  validate_format = true;
}

-- `product_create`, with the arguments of its form
unfoldable pub product_create : Runtime → Caller → CreateArgs → Exec (Answered Product)
unfolding require create_product
product_create rt c a = require c >> caught is_refused (create_product rt a)

-- `product_edit`; the form gives every field
unfoldable pub product_edit : Runtime → Caller → Text → UpdateArgs → Exec (Answered Product)
unfolding require update_product
product_edit rt c slug a = require c >> attempted (update_product rt slug a)

-- `product_delete_one`
unfoldable pub product_delete_one : Runtime → Caller → Text → Exec ℕ
unfolding require delete_product
product_delete_one rt c slug =
    require c >> mapped missing_404 (delete_product rt slug Scheduler.background)

abbrev pub is_missing : Error → Bool
is_missing (not_found text) = true
is_missing _ = false

abbrev pub count_deleted : Result ℕ → ℕ × ℕ → ℕ × ℕ
count_deleted (ok n) (products, licenses) = (products + 1, licenses + n)
count_deleted (err e) counts = counts

-- the loop over the slugs, with the two counts; a slug without a product is skipped
unfoldable pub delete_products : Runtime → List Text → ℕ × ℕ → Exec (ℕ × ℕ)
unfolding delete_product
delete_products rt [] counts = pure counts
delete_products rt (slug ∷ slugs) counts =
    caught is_missing (delete_product rt slug Scheduler.background) >>= λ result.
    delete_products rt slugs (count_deleted result counts)

-- `products_bulk_delete`; None where nothing is selected
unfoldable pub products_bulk_delete : Runtime → Caller → List Text → Exec (Option (ℕ × ℕ))
unfolding require delete_products
products_bulk_delete rt c [] = require c >> pure none
products_bulk_delete rt c (slug ∷ slugs) =
    require c >> (delete_products rt (slug ∷ slugs) (0, 0) >>= λ counts. pure (some counts))

pub record PresetForm : Type 0 where
  pub key : Text
  pub value_type : Text
  pub default_value : Text

abbrev pub preset_with : RowId → Session → Option FeaturePreset
preset_with id s = find (λ (f : FeaturePreset). f.id == id) s.work.presets

-- `preset_create`, with the product that the form names
unfoldable pub preset_create :
    Runtime → Caller → Option RowId → PresetForm → Exec (Answered FeaturePreset)
unfolding require create_preset
preset_create rt c product_id f =
    require c
    >> attempted (
        create_preset rt product_id f.key f.value_type f.default_value
          (some (codes "ui/preset-create")))

abbrev pub load_preset : RowId → Exec FeaturePreset
load_preset id = gets (preset_with id) >>= λ found. or_raise found (http_error 404 "Not Found")

-- `preset_edit`
unfoldable pub preset_edit : Runtime → Caller → RowId → PresetForm → Exec (Answered FeaturePreset)
unfolding require update_preset
preset_edit rt c id f = do
  require c
  preset ← load_preset id
  caught is_refused
      (update_preset rt preset f.key f.value_type f.default_value (some (codes "ui/preset-edit")))

-- `preset_delete_one`
unfoldable pub preset_delete_one : Runtime → Caller → RowId → Exec ℕ
unfolding require delete_presets
preset_delete_one rt c id = do
  require c
  preset ← load_preset id
  delete_presets rt (preset ∷ []) (some (codes "ui/preset-delete"))

abbrev pub delete_chosen : Runtime → List RowId → Exec (Option ℕ)
delete_chosen rt [] = pure none
delete_chosen rt (i ∷ ids) =
    gets (λ s. select (λ (f : FeaturePreset). any (λ j. j == f.id) (i ∷ ids)) s.work.presets)
    >>= λ rows. delete_presets rt rows (some (codes "ui/preset-bulk-delete")) >>= λ n. pure (some n)

-- `presets_bulk_delete`; None where nothing is selected
unfoldable pub presets_bulk_delete : Runtime → Caller → List RowId → Exec (Option ℕ)
unfolding require delete_presets
presets_bulk_delete rt c ids = require c >> delete_chosen rt ids

-- `customer_edit`
unfoldable pub customer_edit : Runtime → Caller → RowId → CustomerForm → Exec (Answered Customer)
unfolding require edit_customer
customer_edit rt c id f =
    require c >> attempted (edit_customer rt id f (some (codes "ui/customer-edit")))
