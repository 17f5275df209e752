-- ===== src/Stripe/Frame.antt =====
-- What the handlers of the Stripe events leave alone.
use yg_license_server.Base.{
  ◌≡◌, Bool, true, false, not, Option, none, some, List, [], ◌∷◌, if◌then◌else◌, ◌==◌,
}
use yg_license_server.Text.{Text, codes, text_eq}
use yg_license_server.Model.{
  RowId, Db, Product, Customer, License, Install, WebhookDelivery, ProcessedStripeEvent, Status,
  EventType, Payload, delinquent, revoked,
}
use yg_license_server.Runtime.{Runtime, StripeEvent}
use yg_license_server.Session.{
  Session, Exec, fresh_id, fresh_token, add_event, flush, save_license, insert_customer,
  append_customer, insert_license, append_license,
}
use yg_license_server.Session.Hoare.{Ensures, Always, Ensures-pure, Ensures-gets, Ensures-lift}
use yg_license_server.Licenses.{send_license_email}
use yg_license_server.Licenses.HookServices.{after_plain, raise_if-plain}
use yg_license_server.Stripe.{
  create_paid, extend, extend_newest, pay_for, pay_or_register, extend_or_create, mark_each,
  mark_customer, mark_status, handle_event,
}

-- what the handlers do not touch: the committed state, and four tables of the transaction
abbrev pub Rest : Type 0
Rest = Db × List Product × List Install × List WebhookDelivery × List ProcessedStripeEvent

abbrev pub rest_of : Session → Rest
rest_of s = (s.store, s.work.products, s.work.installs, s.work.deliveries, s.work.processed)

module _ (x : Rest) where
  abbrev Same : Session → Type 0
  Same s = rest_of s ≡ x

  abbrev Still : {A : Type 0} → Exec A → Type 0
  Still = Ensures Same Always

  Still-fresh_id : Still fresh_id
  unfolding fresh_id
  Still-fresh_id = record { at = λ s h. (h, tt) }

  Still-fresh_token : (rt : Runtime) → Still (fresh_token rt)
  unfolding fresh_token
  Still-fresh_token rt = record { at = λ s h. (h, tt) }

  Still-add_event :
      (rt : Runtime) (l p : Option RowId) (type : EventType) (payload : Payload)
      (note : Option Text)
      → Still (add_event rt l p type payload note)
  unfolding add_event
  Still-add_event rt l p type payload memo = record { at = λ s h. (h, tt) }

  Still-save_license : (lic : License) → Still (save_license lic)
  unfolding save_license
  Still-save_license lic = record { at = λ s h. (h, tt) }

  Still-send : (to key name : Text) → Still (send_license_email to key name)
  unfolding send_license_email
  Still-send to key name = record { at = λ s h. (h, tt) }

  Still-append_customer : (cust : Customer) → Still (append_customer cust)
  unfolding append_customer
  Still-append_customer cust = record { at = λ s h. (h, tt) }

  Still-append_license : (lic : License) → Still (append_license lic)
  unfolding append_license
  Still-append_license lic = record { at = λ s h. (h, tt) }

  Still-flush : Still flush
  unfolding flush
  Still-flush = record { at = λ s h. (h, tt) }

  Still-insert_customer :
      (rt : Runtime) (id : Option Text) (email : Text) (name : Option Text)
      → Still (insert_customer rt id email name)
  unfolding insert_customer
  Still-insert_customer rt id email name =
      search
        (
          after_plain, Still-fresh_id, Ensures-gets, raise_if-plain, Still-append_customer,
          Still-flush, Ensures-pure,
        )
        depth 12

  Still-insert_license : (lic : License) → Still (insert_license lic)
  unfolding insert_license
  Still-insert_license lic =
      search (after_plain, Ensures-gets, raise_if-plain, Still-append_license) depth 8

  Still-create_paid :
      (rt : Runtime) (product : Product) (cust : Customer) → Still (create_paid rt product cust)
  unfolding create_paid
  Still-create_paid rt product cust =
      search
        (
          after_plain, Still-fresh_token, Ensures-lift, Still-fresh_id, Still-add_event, Still-send,
          Still-insert_license,
        )
        depth 14

  Still-extend_newest :
      (rt : Runtime) (product : Product) (cust : Customer) (found : Option License)
      → Still (extend_newest rt product cust found)
  unfolding extend_newest extend
  Still-extend_newest rt product cust none = Still-create_paid rt product cust
  Still-extend_newest rt product cust (some lic) =
      search (after_plain, Still-save_license, Still-add_event) depth 6

  Still-pay_for :
      (rt : Runtime) (product : Product) (cust : Customer) → Still (pay_for rt product cust)
  unfolding pay_for
  Still-pay_for rt product cust = search (after_plain, Ensures-gets, Still-extend_newest) depth 6

  Still-pay_or_register :
      (rt : Runtime) (product : Product) (id : Text) (email : Option Text) (found : Option Customer)
      → Still (pay_or_register rt product id email found)
  unfolding pay_or_register
  Still-pay_or_register rt product id email (some cust) = Still-pay_for rt product cust
  Still-pay_or_register rt product id none none = Ensures-pure tt tt
  Still-pay_or_register rt product id (some []) none = Ensures-pure tt tt
  Still-pay_or_register rt product id (some (c ∷ email)) none =
      search (after_plain, Still-insert_customer, Still-pay_for) depth 6

  Still-extend_or_create :
      (rt : Runtime) (product : Product) (id email : Option Text)
      → Still (extend_or_create rt product id email)
  unfolding extend_or_create
  Still-extend_or_create rt product none email = Ensures-pure tt tt
  Still-extend_or_create rt product (some []) email = Ensures-pure tt tt
  Still-extend_or_create rt product (some (c ∷ id)) email =
      search (after_plain, Ensures-gets, Still-pay_or_register) depth 6

  choose : {A : Type 0} (b : Bool) (m k : Exec A) → Still m → Still k → Still (if b then m else k)
  choose true m k hm hk = hm
  choose false m k hm hk = hk

  Still-mark_each :
      (rt : Runtime) (product : Product) (status : Status) (note : Text) (lics : List License)
      → Still (mark_each rt product status note lics)
  unfolding mark_each
  Still-mark_each rt product status memo [] = Ensures-pure tt tt
  Still-mark_each rt product status memo (lic ∷ lics) =
      let rest = Still-mark_each rt product status memo lics in
      choose (not (lic.product_id == product.id)) (mark_each rt product status memo lics) _ rest (
        after_plain (save_license (record lic { status = status })) _
          (Still-save_license (record lic { status = status }))
          (λ _.
            after_plain
              (add_event rt (some lic.id) (some product.id) (EventType.status status) Payload.empty
                (some memo))
              (λ _. mark_each rt product status memo lics)
              (Still-add_event rt (some lic.id) (some product.id) (EventType.status status)
                Payload.empty (some memo))
              (λ _. rest)))

  Still-mark_customer :
      (rt : Runtime) (product : Product) (status : Status) (note : Text) (found : Option Customer)
      → Still (mark_customer rt product status note found)
  unfolding mark_customer
  Still-mark_customer rt product status memo none = Ensures-pure tt tt
  Still-mark_customer rt product status memo (some cust) =
      search (after_plain, Ensures-gets, Still-mark_each) depth 6

  Still-mark_status :
      (rt : Runtime) (product : Product) (id : Option Text) (status : Status) (note : Text)
      → Still (mark_status rt product id status note)
  unfolding mark_status
  Still-mark_status rt product none status memo = Ensures-pure tt tt
  Still-mark_status rt product (some []) status memo = Ensures-pure tt tt
  Still-mark_status rt product (some (c ∷ id)) status memo =
      search (after_plain, Ensures-gets, Still-mark_customer) depth 6

  -- No handler touches the committed state, the products, the installations, the deliveries or the
  -- table of processed events.
  pub Still-handle_event :
      (rt : Runtime) (product : Product) (event : StripeEvent)
      → Ensures (λ s. rest_of s ≡ x) Always (handle_event rt product event)
  unfolding handle_event
  Still-handle_event rt product event =
      choose (text_eq event.type (codes "invoice.paid")) _ _
        (Still-extend_or_create rt product event.customer event.customer_email)
        (choose (text_eq event.type (codes "invoice.payment_failed")) _ _
          (Still-mark_status rt product event.customer delinquent event.type)
          (choose (text_eq event.type (codes "customer.subscription.deleted")) _ _
            (Still-mark_status rt product event.customer revoked event.type) (Ensures-pure tt tt)))
