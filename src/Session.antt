-- ===== src/Session.antt =====
-- A request's SQLAlchemy session and the monad of the code that runs in it.
--
-- `store` is what the database has committed, `work` what the open transaction sees, and `added` the
-- events that were added and not yet flushed: the sessions of app/db.py have autoflush off, so a
-- bulk update does not reach them. An error leaves all three as they are; `close` drops what is not
-- committed. Ids, random tokens, mails and scheduled tasks are outside the transaction.
mod Monad
pub mod Hoare
pub mod Atomic
pub use Monad.*
use yg_license_server.Base.{
  ℕ, suc, Bool, false, Option, none, some, List, [], ◌∷◌, ◌++◌, map, if◌then◌else◌, ◌||◌, is_some,
  find, get_by, put_by, ◌==◌,
}
use yg_license_server.Text.{Text, text_eq, text_opt_eq, truthy, codes}
use yg_license_server.Model.{
  RowId, Db, Event, Product, Customer, License, Install, WebhookDelivery, EventType, Payload,
  autofill_subject,
}
use yg_license_server.Runtime.{Runtime}

-- `uuid.uuid4()`: a fresh id
unfoldable pub fresh_id : Exec RowId
fresh_id s = (ok s.next_id, record s { next_id = suc s.next_id })

-- `secrets.token_urlsafe(32)`
unfoldable pub fresh_token : Runtime → Exec Text
fresh_token rt s = (ok (rt.token_urlsafe s.draws), record s { draws = suc s.draws })

-- `db.add(Event(…))`
unfoldable pub add_event :
    Runtime → Option RowId → Option RowId → EventType → Payload → Option Text → Exec Unit
add_event rt license_id product_id type payload note s = (
  ok tt,
  record s {
    next_id = suc s.next_id;
    added =
        s.added
        ++ record {
          id = s.next_id;
          license_id = license_id;
          product_id = product_id;
          subject_kind = none;
          subject_id = none;
          type = type;
          payload = payload;
          created_at = rt.now;
          note = note;
        }
          ∷ [];
  },
)

abbrev pub flushed : Session → Db
flushed s = record (s.work) { events = s.work.events ++ map autofill_subject s.added }

-- `db.flush()`
unfoldable pub flush : Exec Unit
flush s = (ok tt, record s { work = flushed s; added = [] })

-- `db.commit()`
unfoldable pub commit : Exec Unit
commit s = (ok tt, record s { work = flushed s; store = flushed s; added = [] })

-- `db.rollback()`, and what the end of the request does
unfoldable pub rollback : Session → Session
rollback s = record s { work = s.store; added = [] }

-- An attribute of the license object was set.
unfoldable pub save_license : License → Exec Unit
save_license lic s = (
  ok tt,
  record s {
    work = record (s.work) { licenses = put_by (λ (l : License). l.id) lic s.work.licenses };
  },
)

abbrev text_taken : Option Text → Option Text → Bool
text_taken none b = false
text_taken (some a) b = text_opt_eq (some a) b

-- whether a unique column of the new customer is taken
abbrev pub customer_taken : Option Text → Text → List Customer → Bool
customer_taken stripe_customer_id email rows =
    is_some (find (λ (c : Customer). text_eq c.email email) rows)
    || is_some (find (λ (c : Customer). text_taken stripe_customer_id c.stripe_customer_id) rows)

unfoldable pub append_customer : Customer → Exec Unit
append_customer cust s =
    (ok tt, record s { work = record (s.work) { customers = s.work.customers ++ cust ∷ [] } })

-- `db.add(Customer(…)); db.flush()`, under the two unique columns
unfoldable pub insert_customer : Runtime → Option Text → Text → Option Text → Exec Customer
unfolding fresh_id append_customer flush
insert_customer rt stripe_customer_id email name = do
  id ← fresh_id
  let cust : Customer = record {
    id = id;
    stripe_customer_id = stripe_customer_id;
    email = email;
    name = name;
    created_at = rt.now;
  }
  rows ← gets (λ s. s.work.customers)
  raise_if (customer_taken stripe_customer_id email rows) integrity_error
  append_customer cust
  flush
  pure cust

unfoldable pub append_license : License → Exec Unit
append_license lic s =
    (ok tt, record s { work = record (s.work) { licenses = s.work.licenses ++ lic ∷ [] } })

-- whether a unique column of the new license is taken
abbrev pub key_taken : License → List License → Bool
key_taken lic rows =
    is_some (find (λ (l : License). text_eq l.key lic.key) rows)
    || is_some (find (λ (l : License). text_eq l.key_hash lic.key_hash) rows)

-- `db.add(lic)`, with the flush that inserts it, under the two unique columns
unfoldable pub insert_license : License → Exec Unit
unfolding append_license
insert_license lic = do
  rows ← gets (λ s. s.work.licenses)
  raise_if (key_taken lic rows) integrity_error
  append_license lic

-- the row that a relationship leads to
abbrev pub product_of : License → Session → Option Product
product_of lic s = get_by (λ (p : Product). p.id) lic.product_id s.work.products

abbrev pub customer_of : License → Session → Option Customer
customer_of lic s = get_by (λ (c : Customer). c.id) lic.customer_id s.work.customers

-- `db.query(License).filter_by(id=lid).one_or_none()`, and 404 where there is none
unfoldable pub load_license : RowId → Exec License
load_license id = do
  or_raise (← gets (λ s. get_by (λ (l : License). l.id) id s.work.licenses))
      (http_error 404 "license not found")
