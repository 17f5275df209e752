-- ===== src/Licenses/Issue.antt =====
-- `issue_license`.
use yg_license_server.Base.{
  ℕ, ◌+◌, Bool, false, not, Option, none, some, List, [], ◌∷◌, ◌++◌, is_some, find,
}
use yg_license_server.Text.{Text, strip, or_none, text_eq, text_opt_eq}
use yg_license_server.Model.{
  RowId, days, Product, Customer, License, Json, active, admin, self, EventType, Payload,
}
use yg_license_server.Runtime.{Runtime}
use yg_license_server.Security.{is_safe_url_shape}
use yg_license_server.LicenseKeys.{hash_key, make_display}
use yg_license_server.Session.{
  Exec, ok, unsafe, pure, gets, lift, raise_if, when, ◌>>=◌, ◌>>◌, fresh_id, fresh_token, add_event,
  commit, insert_customer, insert_license,
}
use yg_license_server.Licenses.Hook.{minted}

-- the keyword arguments of `issue_license`; `features` with None already replaced
pub record IssueArgs : Type 0 where
  pub email : Text
  pub name : Option Text
  pub plan : Text
  pub max_users : ℕ
  pub valid_days : ℕ
  pub features : Json
  pub webhook_url : Option Text
  pub allow_http_webhook : Bool
  pub stripe_customer_id : Option Text
  pub note : Option Text
  pub send_email : Bool

pub record IssueResult : Type 0 where
  pub license : License
  pub customer : Customer

-- `(text or "").strip() or None`
abbrev pub clean : Option Text → Option Text
clean none = or_none (strip [])
clean (some t) = or_none (strip t)

-- the customer of an address, or of a Stripe id where that is given
abbrev pub find_customer : Option Text → Text → List Customer → Option Customer
find_customer none email = find (λ (c : Customer). text_eq c.email email)
find_customer (some i) email = find (λ (c : Customer). text_opt_eq c.stripe_customer_id (some i))

abbrev pub or_insert : Runtime → Option Text → Text → Option Text → Option Customer → Exec Customer
or_insert rt stripe email name (some c) = pure c
or_insert rt stripe email name none = insert_customer rt stripe email name

unfoldable pub resolve_customer : Runtime → IssueArgs → Exec Customer
unfolding insert_customer
resolve_customer rt a = do
  found ← gets (λ s. find_customer a.stripe_customer_id a.email s.work.customers)
  or_insert rt a.stripe_customer_id a.email (clean a.name) found

-- "key_prefix_token"
abbrev pub key_of : Text → Text → Text
key_of prefix token = prefix ++ b'_' ∷ token

abbrev pub is_unsafe : Runtime → Option Text → Bool → Bool
is_unsafe rt none flag = false
is_unsafe rt (some url) flag = not (is_safe_url_shape rt url flag)

-- `send_license_email`
unfoldable pub send_license_email : Text → Text → Text → Exec Unit
send_license_email to key product_name s = (
  ok tt,
  record s { mails = s.mails ++ record { to = to; key = key; product_name = product_name } ∷ [] },
)

-- `lic.id` of a license that is added and not yet flushed: the column's default is set by the INSERT
abbrev pub unflushed_id : Option RowId
unflushed_id = none

-- `issue_license`. The event is built before the flush.
unfoldable pub issue_license : Runtime → Product → IssueArgs → Exec IssueResult
unfolding resolve_customer minted fresh_token hash_key insert_license add_event commit
    send_license_email
issue_license rt product a = do
  cust ← resolve_customer rt a
  let url = clean a.webhook_url
  raise_if (is_unsafe rt url a.allow_http_webhook) (unsafe "unsafe webhook url")
  secret ← minted rt (is_some url) none
  token ← fresh_token rt
  let key = key_of product.key_prefix token
  key_hash ← lift (hash_key rt key)
  id ← fresh_id
  let lic : License = record {
    id = id;
    product_id = product.id;
    customer_id = cust.id;
    key = key;
    plan = a.plan;
    max_users = a.max_users;
    features = a.features;
    valid_until = rt.now + days a.valid_days;
    status = active;
    created_at = rt.now;
    webhook_url = url;
    webhook_secret = secret;
    webhook_url_source = elim url [ none ↦ self | some _ ↦ admin ];
    allow_http_webhook = a.allow_http_webhook;
    key_hash = key_hash;
    key_display = make_display key;
  }
  insert_license lic
  add_event rt unflushed_id (some product.id) EventType.issued (Payload.issued a.plan (is_some url))
      a.note
  commit
  when a.send_email (send_license_email cust.email key product.name)
  pure (record { license = lic; customer = cust })
