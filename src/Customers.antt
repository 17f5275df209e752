-- ===== src/Customers.antt =====
-- app/services/customers.py: the edit of a customer and the pages of customers, with the edit handler of
-- app/routers/admin_ui/customers.py and the listing of app/routers/api.py.
use yg_license_server.Base.{
  ℕ, Bool, true, false, not, ◌&&◌, Option, none, some, List, [], ◌∷◌, if◌then◌else◌, find, select,
  length, put_by, ◌==◌, is_some, map,
}
use yg_license_server.Text.{Text, strip, or_none, nonempty, text_eq, text_opt_eq}
use yg_license_server.Model.{RowId, Customer, License, EventType, Payload}
use yg_license_server.Runtime.{Runtime}
use yg_license_server.Session.{
  Session, Exec, ok, conflict, not_found, validation_failed, integrity_error, pure, raise_if, gets,
  or_raise, ◌>>=◌, ◌>>◌, add_event, commit,
}
use yg_license_server.Pagination.{Page, Key, key_lt, paginate, clamp_limit}

-- An attribute of the customer's row was set.
unfoldable pub save_customer : Customer → Exec Unit
save_customer c s = (
  ok tt,
  record s {
    work = record (s.work) { customers = put_by (λ (d : Customer). d.id) c s.work.customers };
  },
)

-- another row with the address
abbrev pub email_clash : Text → RowId → Customer → Bool
email_clash email id c = text_eq c.email email && not (c.id == id)

-- another row with the Stripe id, which is unique
abbrev pub stripe_clash : Option Text → RowId → Customer → Bool
stripe_clash none id c = false
stripe_clash (some t) id c = text_opt_eq c.stripe_customer_id (some t) && not (c.id == id)

pub record CustomerForm : Type 0 where
  pub email : Text
  pub name : Text
  pub stripe_customer_id : Text

abbrev pub edited_customer : CustomerForm → Customer → Customer
edited_customer f c = record c {
  email = strip f.email;
  name = or_none (strip f.name);
  stripe_customer_id = or_none (strip f.stripe_customer_id);
}

-- the lookup of another owner, only for a new address
unfoldable pub check_email : Bool → Text → RowId → Exec Unit
check_email false email id = pure tt
check_email true email id = gets (λ s. find (email_clash email id) s.work.customers) >>= λ clash.
    raise_if (is_some clash) (conflict "email already used by another customer")

-- the commit, which fails where the Stripe id is taken
unfoldable pub commit_customer : Customer → Exec Unit
unfolding commit
commit_customer c =
    gets (λ s. find (stripe_clash c.stripe_customer_id c.id) s.work.customers) >>= λ clash.
    raise_if (is_some clash) integrity_error >> commit

-- `edit_customer`
unfoldable pub edit_customer : Runtime → RowId → CustomerForm → Option Text → Exec Customer
unfolding check_email save_customer add_event commit_customer
edit_customer rt id f memo = do
  c ←
      or_raise (← gets (λ s. find (λ (d : Customer). d.id == id) s.work.customers))
        (not_found "customer not found")
  raise_if (not (nonempty (strip f.email))) (validation_failed "email required")
  check_email (not (text_eq (strip f.email) c.email)) (strip f.email) id
  save_customer (edited_customer f c)
  add_event rt none none EventType.customer_edited (Payload.customer_changed c.id (strip f.email))
      memo
  commit_customer (edited_customer f c)
  pure (edited_customer f c)

-- rows in descending order of their keys
abbrev pub placed : {A : Type 0} → (A → Key) → A → List A → List A
placed key r [] = r ∷ []
placed key r (q ∷ qs) =
    let rest = placed key r qs in if key_lt (key r) (key q) then q ∷ rest else r ∷ q ∷ qs

-- `order_by(created_at.desc(), id.desc())`
unfoldable pub newest_first : {A : Type 0} → (A → Key) → List A → List A
unfolding key_lt
newest_first key [] = []
newest_first key (r ∷ rs) = placed key r (newest_first key rs)

abbrev pub customer_key : Runtime → Customer → Key
customer_key rt c = (c.created_at, rt.id_text c.id)

-- `func.count(License.id)` of the join
abbrev pub with_count : Session → Customer → Customer × ℕ
with_count s c = (c, length (select (λ (l : License). l.customer_id == c.id) s.work.licenses))

-- `_base_customers_with_counts_query`, which is `list_customers_with_counts` too
unfoldable pub customers_with_counts : Runtime → Session → List (Customer × ℕ)
unfolding newest_first
customers_with_counts rt s = map (with_count s) (newest_first (customer_key rt) s.work.customers)

-- `page_customers_with_counts`
unfoldable pub page_customers_with_counts :
    Runtime → Option Text → ℕ → Session → Page (Customer × ℕ)
unfolding customers_with_counts paginate
page_customers_with_counts rt cursor limit s =
    paginate rt (λ row. customer_key rt row.0) (customers_with_counts rt s) cursor limit

-- `admin_customers`, behind its guard
unfoldable pub admin_customers : Runtime → Option Text → Option Text → Session → Page (Customer × ℕ)
unfolding page_customers_with_counts clamp_limit
admin_customers rt cursor limit s = page_customers_with_counts rt cursor (clamp_limit rt limit) s
