-- ===== src/Tests/Tables.antt =====
-- Examples for the tables of products and of presets, and the expiry warnings.
use yg_license_server.Base.{◌≡◌, refl, [], ◌∷◌, ◌++◌, true, false, some, none, List}
use yg_license_server.Text.{codes, starts_with, text_eq}
use yg_license_server.Model.{Product, License, days, active}
use yg_license_server.Runtime.{Runtime}
use yg_license_server.Keystore.{envelope_prefix, is_encrypted}
use yg_license_server.Session.{Session}
use yg_license_server.Webhooks.Queue.{Scheduler}
use yg_license_server.Products.{CreateArgs, UpdateArgs}
use yg_license_server.Products.Table.{IsValidTable}
use yg_license_server.Products.Valid.{ProductCall, product_calls, product_calls-IsValidTable}
use yg_license_server.Presets.{create_preset}
use yg_license_server.Presets.Made.{Made, create_preset-Made}
use yg_license_server.Maintenance.{run_warnings}
use yg_license_server.Maintenance.Warned.{run_warnings-run_warnings}
use yg_license_server.Tests.Samples.{rt, session, product, license}

abbrev sealed_product : Product
sealed_product = record product {
  private_key_pem = envelope_prefix ++ codes "kp";
  stripe_webhook_secret = some (envelope_prefix ++ codes "kw");
}

abbrev sealed_session : Session
sealed_session = record session {
  store = record (session.store) { products = sealed_product ∷ [] };
  work = record (session.store) { products = sealed_product ∷ [] };
}

abbrev create_args : CreateArgs
create_args = record {
  slug = codes "new";
  name = codes "New";
  key_prefix = codes "nw";
  description = none;
  jwt_issuer = none;
  stripe_webhook_secret = some (codes "s");
  stripe_api_key = none;
  validate_format = true;
}

abbrev update_args : UpdateArgs
update_args = record {
  new_slug = some (codes "old");
  name = none;
  key_prefix = none;
  jwt_issuer = some [];
  description = some [];
}

abbrev calls : List (Runtime × ProductCall)
calls =
    (rt, ProductCall.create create_args)
    ∷ (rt, ProductCall.update (codes "prod") update_args)
    ∷ (rt, ProductCall.delete (codes "new") Scheduler.inline)
    ∷ []

sealed_session-IsValidTable : IsValidTable sealed_session.store.products
unfolding is_encrypted starts_with
sealed_session-IsValidTable = (((refl, refl, tt), tt), (((λ e. refl), tt), tt))

product_calls-IsValidTable_example :
    IsValidTable (product_calls calls sealed_session).store.products
    × IsValidTable (product_calls calls sealed_session).work.products
product_calls-IsValidTable_example =
    product_calls-IsValidTable calls sealed_session (refl, (refl, (refl, tt)))
      (sealed_session-IsValidTable, sealed_session-IsValidTable)

-- the mails go out
abbrev mail_rt : Runtime
mail_rt = record rt { settings = record (rt.settings) { resend_api_key = codes "re" } }

-- a license with five days left
abbrev ending : License
ending = record license { valid_until = days 15; status = active }

abbrev ending_session : Session
ending_session = record session {
  store = record (session.store) { licenses = ending ∷ [] };
  work = record (session.store) { licenses = ending ∷ [] };
}

warned_once : (run_warnings mail_rt (7 ∷ 30 ∷ []) false ending_session).0 ≡ 0
unfolding run_warnings text_eq
warned_once = refl

run_warnings-run_warnings_example :
    run_warnings mail_rt
      (7 ∷ 30 ∷ [])
      false
      (run_warnings mail_rt (7 ∷ 30 ∷ []) false ending_session).1
    ≡ (0, (run_warnings mail_rt (7 ∷ 30 ∷ []) false ending_session).1)
run_warnings-run_warnings_example =
    run_warnings-run_warnings mail_rt (7 ∷ 30 ∷ []) ending_session (λ to key name. refl) refl refl
      warned_once

create_preset-Made_example :
    Made rt none session
      (create_preset rt none (codes " seats ") (codes "string") (codes "ten") none session)
create_preset-Made_example =
    create_preset-Made rt none (codes " seats ") (codes "string") (codes "ten") none session
