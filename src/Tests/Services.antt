-- ===== src/Tests/Services.antt =====
-- Examples for the services and for the Stripe webhook.
use yg_license_server.Base.{List, [], ◌∷◌, ◌≡◌, refl, true, false, none, some, arith}
use yg_license_server.Text.{codes, text_eq, strip, starts_with, ends_with}
use yg_license_server.Model.{License, Source, days}
use yg_license_server.Security.{is_safe_url_shape, is_safe_host}
use yg_license_server.Session.{Session, ok, err, http_error}
use yg_license_server.Session.Hoare.{Ensures, Always}
use yg_license_server.Keystore.{decrypt_text}
use yg_license_server.Licenses.{apply_webhook_config, edit_license, issue_license}
use yg_license_server.Licenses.Keep.{AllGood}
use yg_license_server.Licenses.HookSafe.{HookOk, apply_webhook_config-HookOk}
use yg_license_server.Licenses.HookServices.{edit_license-HookOk}
use yg_license_server.Licenses.HookRows.{issue_license-HookOk}
use yg_license_server.Webhooks.Queue.{Scheduler}
use yg_license_server.Check.{CheckResult, check_license, sign_license_jwt}
use yg_license_server.Check.{CheckArgs}
use yg_license_server.Check.Atomic.{check_license-failed}
use yg_license_server.Stripe.{extend_or_create}
use yg_license_server.Stripe.Extend.{extend_or_create-Paid, license_by, IsNewest, Paid}
use yg_license_server.Model.{RowId}
use yg_license_server.Base.{◌≢◌}
use yg_license_server.Session.{rejected}
use yg_license_server.Check.HookSafe.{check_license-HookOk}
use yg_license_server.Check.AdminHook.{AdminHook, check_license-AdminHook}
use yg_license_server.Check.Accept.{Granted, check_license-Granted}
use yg_license_server.Stripe.{StripePost, StripeReply, stripe_webhook, newest}
use yg_license_server.Stripe.Once.{
  Redelivered, at_time, after, stripe_webhook-once, stripe_webhook-atomic,
}
use yg_license_server.AdminLicenses.Guarded.{handle-refused}
use yg_license_server.AdminLicenses.Requests.{handle, Moment, Request, serve_all}
use yg_license_server.AdminLicenses.Invariant.{serve_all-HookOk}
use yg_license_server.Tests.Samples.{
  failing_rt, rt, session, customer, license, product, post, check_args, edit_args, issue_args,
}

abbrev paid_reply : StripeReply
paid_reply = record { type = codes "invoice.paid"; product = codes "prod"; duplicate = false }

paid_once : (stripe_webhook rt post session).0 ≡ ok paid_reply
unfolding stripe_webhook text_eq starts_with newest
paid_once = refl

-- the same payload a day later, with the signature of that day
abbrev later_post : StripePost
later_post = record post { signature = days 11 ∷ [] }

redelivered : Redelivered rt (days 11) post later_post
unfolding text_eq
redelivered secret event e = (ground arith, e)

stripe_webhook-once_example :
    stripe_webhook (at_time rt (days 11)) later_post (after rt post session)
    ≡ (ok (record paid_reply { duplicate = true }), after rt post session)
stripe_webhook-once_example =
    stripe_webhook-once rt (days 11) post later_post session paid_reply refl refl refl redelivered
      paid_once

abbrev unknown : StripePost
unknown = record post { slug = codes "other" }

unknown_fails : (stripe_webhook rt unknown session).0 ≡ err (http_error 404 "product not found")
unfolding stripe_webhook text_eq
unknown_fails = refl

stripe_webhook-atomic_example : (stripe_webhook rt unknown session).1.store ≡ session.store
stripe_webhook-atomic_example =
    stripe_webhook-atomic rt unknown session (http_error 404 "product not found") unknown_fails

abbrev accepted : CheckResult
accepted = record { jwt = codes "pem"; license = license }

check_accepted : (check_license rt check_args session).0 ≡ ok accepted
unfolding check_license text_eq strip is_safe_url_shape is_safe_host ends_with sign_license_jwt
    decrypt_text
check_accepted = refl

check_license-Granted_example : Granted rt check_args session accepted
check_license-Granted_example = check_license-Granted rt check_args session accepted check_accepted

check_license-AdminHook_example :
    AllGood
      (AdminHook 3 (some (codes "u")) (some (codes "s")))
      (check_license rt check_args session).1
check_license-AdminHook_example =
    check_license-AdminHook rt 3 (some (codes "u")) (some (codes "s")) check_args session
      (((λ _. (refl, refl, refl)), tt), ((λ _. (refl, refl, refl)), tt))

check_license-HookOk_example : Ensures (AllGood (HookOk rt)) Always (check_license rt check_args)
check_license-HookOk_example = check_license-HookOk rt check_args

license-HookOk : HookOk rt license
unfolding is_safe_url_shape is_safe_host text_eq ends_with
license-HookOk = (refl, refl)

edit_license-HookOk_example :
    Ensures (AllGood (HookOk rt)) Always (edit_license rt license edit_args Scheduler.inline)
edit_license-HookOk_example =
    edit_license-HookOk rt license edit_args Scheduler.inline license-HookOk

issue_license-HookOk_example :
    Ensures (AllGood (HookOk rt)) Always (issue_license rt product issue_args)
issue_license-HookOk_example = issue_license-HookOk rt product issue_args

apply_webhook_config-HookOk_example :
    Ensures
      (AllGood (HookOk rt))
      (HookOk rt)
      (apply_webhook_config rt license (some (codes "v")) false true Source.admin none)
apply_webhook_config-HookOk_example =
    apply_webhook_config-HookOk rt license (some (codes "v")) false true Source.admin none

abbrev requests : List (Moment × Request)
requests =
    (
      record { now = days 11; getaddrinfo = rt.getaddrinfo; post = failing_rt.post },
      Request.edit (record { logged_in = true; csrf_ok = true }) 3
          (record {
            plan = codes "pro";
            max_users = 20;
            valid_until = codes "2030-01-01";
            features_json = [];
            webhook_url = codes "v";
            allow_http_webhook = [];
            rotate_secret = [];
          }),
    )
    ∷ (
      record { now = days 12; getaddrinfo = rt.getaddrinfo; post = rt.post },
      Request.check check_args,
    )
    ∷ []

serve_all-HookOk_example : AllGood (HookOk rt) (serve_all rt requests session)
serve_all-HookOk_example =
    serve_all-HookOk rt requests session ((license-HookOk, tt), (license-HookOk, tt))

abbrev wrong_key : CheckArgs
wrong_key = record check_args { key = codes "Z" }

wrong_key_fails : (check_license rt wrong_key session).0 ≡ err (rejected "invalid_key" 401)
unfolding check_license text_eq
wrong_key_fails = refl

check_license-failed_example : (check_license rt wrong_key session).1.store ≡ session.store
check_license-failed_example =
    check_license-failed rt wrong_key session (rejected "invalid_key" 401) wrong_key_fails

-- a second license of the same customer for the same product, created later
abbrev newer : License
newer = record license { id = 4; created_at = 5 }

abbrev two_licenses : Session
two_licenses = record session { work = record (session.work) { licenses = license ∷ newer ∷ [] } }

extend_or_create-Paid_example :
    let t = (extend_or_create rt product (some (codes "cus")) none two_licenses).1 in
    (lic : License) × (row : License) × IsNewest customer product two_licenses.work.licenses lic
    × (license_by lic.id two_licenses ≡ some lic)
    × (license_by lic.id t ≡ some row)
    × Paid rt lic row
    × ((i : RowId) → i ≢ lic.id → license_by i t ≡ license_by i two_licenses)
unfolding text_eq
extend_or_create-Paid_example =
    extend_or_create-Paid rt product b'c' (codes "us") none customer license two_licenses
      (refl, (refl, tt)) refl refl refl refl

abbrev stranger : Request
stranger = Request.delete (record { logged_in = true; csrf_ok = false }) 3

handle-refused_example : (handle rt stranger session).1 ≡ session
handle-refused_example =
    handle-refused rt stranger (record { logged_in = true; csrf_ok = false }) session refl refl
