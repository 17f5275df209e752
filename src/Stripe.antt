-- ===== src/Stripe.antt =====
-- app/stripe_webhook.py: the webhook that Stripe posts to, one endpoint for each product.
pub mod Frame
pub mod Accept
pub mod Went
pub mod Once
pub mod Extend
use yg_license_server.Base.{
  ℕ, ◌+◌, Bool, true, false, not, ◌&&◌, Option, none, some, List, [], ◌∷◌, ◌++◌, is_some, find,
  select, max, ltb, ◌==◌, if◌then◌else◌,
}
use yg_license_server.Text.{Text, codes, truthy, text_eq, text_opt_eq}
use yg_license_server.Model.{
  RowId, Time, days, Product, Customer, License, ProcessedStripeEvent, Status, active, delinquent,
  revoked, Source, EventType, Payload, obj, end,
}
use yg_license_server.Runtime.{Runtime, StripeEvent}
use yg_license_server.LicenseKeys.{hash_key, make_display}
use yg_license_server.Keystore.{decrypt_secret}
use yg_license_server.Session.{
  Exec, Error, Result, ok, err, http_error, runtime_error, pure, raise, gets, lift, or_raise,
  raise_if, ◌>>=◌, ◌>>◌, fresh_id, fresh_token, add_event, flush, commit, rollback, save_license,
  insert_customer, insert_license,
}
use yg_license_server.Licenses.{send_license_email, key_of, unflushed_id}

-- `db.query(Customer).filter_by(stripe_customer_id=…).one_or_none()`
abbrev pub with_stripe_id : Text → Customer → Bool
with_stripe_id id c = text_opt_eq c.stripe_customer_id (some id)

-- the licenses that a Stripe customer has for a product
abbrev pub owned_by : Customer → Product → License → Bool
owned_by cust product l = l.customer_id == cust.id && l.product_id == product.id

abbrev later : License → Option License → License
later l none = l
later l (some m) = if ltb l.created_at m.created_at then m else l

-- `.order_by(License.created_at.desc()).first()`
unfoldable pub newest : List License → Option License
newest [] = none
newest (l ∷ ls) = some (later l (newest ls))

-- the license of a customer who has none for the product
unfoldable pub create_paid : Runtime → Product → Customer → Exec Unit
unfolding fresh_token hash_key fresh_id add_event send_license_email insert_license
create_paid rt product cust = do
  token ← fresh_token rt
  let key = key_of product.key_prefix token
  key_hash ← lift (hash_key rt key)
  id ← fresh_id
  let lic : License = record {
    id = id;
    product_id = product.id;
    customer_id = cust.id;
    key = key;
    plan = codes "standard";
    max_users = 10;
    features = obj end;
    valid_until = rt.now + days 30;
    status = active;
    created_at = rt.now;
    webhook_url = none;
    webhook_secret = none;
    webhook_url_source = Source.self;
    allow_http_webhook = false;
    key_hash = key_hash;
    key_display = make_display key;
  }
  add_event rt unflushed_id (some product.id) EventType.issued Payload.empty
      (some (codes "stripe invoice.paid"))
  send_license_email cust.email key product.name
  insert_license lic

-- 30 days behind the end of the license, or behind now if it has expired
abbrev pub extended : Runtime → License → License
extended rt lic = record lic { valid_until = max lic.valid_until rt.now + days 30; status = active }

unfoldable pub extend : Runtime → Product → License → Exec Unit
unfolding add_event save_license
extend rt product lic = do
  save_license (extended rt lic)
  add_event rt (some lic.id) (some product.id) EventType.extended
      (Payload.extended (extended rt lic).valid_until) none

-- the part of `_extend_or_create` behind the customer
unfoldable pub extend_newest : Runtime → Product → Customer → Option License → Exec Unit
unfolding create_paid extend
extend_newest rt product cust none = create_paid rt product cust
extend_newest rt product cust (some lic) = extend rt product lic

unfoldable pub pay_for : Runtime → Product → Customer → Exec Unit
unfolding extend_newest
pay_for rt product cust = do
  found ← gets (λ s. newest (select (owned_by cust product) s.work.licenses))
  extend_newest rt product cust found

-- the customer of an invoice, who is created if the invoice has an address
unfoldable pub pay_or_register :
    Runtime → Product → Text → Option Text → Option Customer → Exec Unit
unfolding pay_for insert_customer
pay_or_register rt product customer_id email (some cust) = pay_for rt product cust
pay_or_register rt product customer_id none none = pure tt
pay_or_register rt product customer_id (some []) none = pure tt
pay_or_register rt product customer_id (some (c ∷ email)) none = do
  cust ← insert_customer rt (some customer_id) (c ∷ email) none
  pay_for rt product cust

-- `_extend_or_create`
unfoldable pub extend_or_create : Runtime → Product → Option Text → Option Text → Exec Unit
unfolding pay_or_register
extend_or_create rt product none email = pure tt
extend_or_create rt product (some []) email = pure tt
extend_or_create rt product (some (c ∷ id)) email = do
  found ← gets (λ s. find (with_stripe_id (c ∷ id)) s.work.customers)
  pay_or_register rt product (c ∷ id) email found

-- the loop of `_mark_status` over the customer's licenses
unfoldable pub mark_each : Runtime → Product → Status → Text → List License → Exec Unit
unfolding add_event save_license
mark_each rt product status note [] = pure tt
mark_each rt product status note (lic ∷ lics) =
    let rest = mark_each rt product status note lics in
    if not (lic.product_id == product.id) then rest else (do
      save_license (record lic { status = status })
      add_event rt (some lic.id) (some product.id) (EventType.status status) Payload.empty
          (some note)
      rest)

unfoldable pub mark_customer : Runtime → Product → Status → Text → Option Customer → Exec Unit
unfolding mark_each
mark_customer rt product status note none = pure tt
mark_customer rt product status note (some cust) = do
  lics ← gets (λ s. select (λ (l : License). l.customer_id == cust.id) s.work.licenses)
  mark_each rt product status note lics

-- `_mark_status`
unfoldable pub mark_status : Runtime → Product → Option Text → Status → Text → Exec Unit
unfolding mark_customer
mark_status rt product none status note = pure tt
mark_status rt product (some []) status note = pure tt
mark_status rt product (some (c ∷ id)) status note = do
  found ← gets (λ s. find (with_stripe_id (c ∷ id)) s.work.customers)
  mark_customer rt product status note found

-- `_HANDLERS` with the three registered handlers; another type is ignored
unfoldable pub handle_event : Runtime → Product → StripeEvent → Exec Unit
unfolding extend_or_create mark_status
handle_event rt product event =
    if text_eq event.type (codes "invoice.paid")
    then extend_or_create rt product event.customer event.customer_email
    else if text_eq event.type (codes "invoice.payment_failed")
    then mark_status rt product event.customer delinquent event.type
    else if text_eq event.type (codes "customer.subscription.deleted")
    then mark_status rt product event.customer revoked event.type
    else pure tt

pub record StripeReply : Type 0 where
  pub type : Text
  pub product : Text
  pub duplicate : Bool

-- A post. `lost_race` says whether a concurrent delivery commits the event's id between the query
-- for it and the flush.
pub record StripePost : Type 0 where
  pub slug : Text
  pub payload : Text
  pub signature : Text
  pub lost_race : Bool

-- the claim of an event id
unfoldable pub claim : Runtime → Product → Text → Text → Exec Unit
claim rt product id type s = (
  ok tt,
  record s {
    work = record (s.work) {
      processed =
          s.work.processed
          ++ record { id = id; product_id = some product.id; type = type; processed_at = rt.now }
            ∷ [];
    };
  },
)

abbrev pub has_id : Text → ProcessedStripeEvent → Bool
has_id id e = text_eq e.id id

abbrev pub first_reply : Product → StripeEvent → StripeReply
first_reply product event = record { type = event.type; product = product.slug; duplicate = false }

-- the side effects and the commit
unfoldable pub process : Runtime → Product → StripeEvent → Exec StripeReply
unfolding handle_event commit
process rt product event = do
  handle_event rt product event
  commit
  pure (first_reply product event)

abbrev pub duplicate_reply : Product → StripeEvent → StripeReply
duplicate_reply product event = record {
  type = event.type;
  product = product.slug;
  duplicate = true;
}

-- the claim, which the flush refuses where the race was lost, and the effects
unfoldable pub claim_and_process : Runtime → Product → StripeEvent → Text → Bool → Exec StripeReply
unfolding claim flush process rollback
claim_and_process rt product event id true = λ s. (ok (duplicate_reply product event), rollback s)
claim_and_process rt product event id false = do
  claim rt product id event.type
  flush
  process rt product event

unfoldable pub process_if_new :
    Runtime → Product → StripeEvent → Text → Bool → Bool → Exec StripeReply
unfolding claim_and_process
process_if_new rt product event id lost_race true = pure (duplicate_reply product event)
process_if_new rt product event id lost_race false = claim_and_process rt product event id lost_race

-- `if not event_id: … else: …`
unfoldable pub process_by_id :
    Runtime → Product → StripeEvent → Bool → Option Text → Exec StripeReply
unfolding process_if_new process
process_by_id rt product event lost_race none = process rt product event
process_by_id rt product event lost_race (some []) = process rt product event
process_by_id rt product event lost_race (some (c ∷ id)) = do
  already ← gets (λ s. is_some (find (has_id (c ∷ id)) s.work.processed))
  process_if_new rt product event (c ∷ id) lost_race already

-- the part behind the signature
unfoldable pub process_once : Runtime → Product → StripeEvent → Bool → Exec StripeReply
unfolding process_by_id
process_once rt product event lost_race = process_by_id rt product event lost_race event.id

-- `except RuntimeError: raise HTTPException(503)`
abbrev pub readable : Result (Option Text) → Result (Option Text)
readable (ok secret) = ok secret
readable (err runtime_error) = err (http_error 503 "webhook secret unreadable")
readable (err e) = err e

-- `stripe_webhook`
unfoldable pub stripe_webhook : Runtime → StripePost → Exec StripeReply
unfolding decrypt_secret process_once
stripe_webhook rt post = do
  product ←
      or_raise (← gets (λ s. find (λ (p : Product). text_eq p.slug post.slug) s.work.products))
        (http_error 404 "product not found")
  raise_if (not (truthy product.stripe_webhook_secret))
      (http_error 503 "webhook secret not configured for product")
  secret ← lift (readable (decrypt_secret rt product.stripe_webhook_secret))
  event ←
      or_raise (rt.construct_event rt.now post.payload post.signature secret)
        (http_error 400 "invalid signature")
  process_once rt product event post.lost_race
