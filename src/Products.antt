-- ===== src/Products.antt =====
-- app/services/products.py: the life of a product.
pub mod Keep
pub mod Table
pub mod Ends
pub mod Create
pub mod Delete
pub mod Update
pub mod Valid
use yg_license_server.Base.{
  ◌+◌, ℕ, Bool, true, false, not, ◌&&◌, ◌||◌, Option, none, some, List, [], ◌∷◌, ◌++◌,
  if◌then◌else◌, find, select, length, all, leb, ◌==◌, put_by, delete_by, delete_where,
  update_where, option_eq, is_some,
}
use yg_license_server.Text.{Text, codes, text_eq, text_opt_eq, or_none, nonempty, chop_newline}
use yg_license_server.Model.{
  RowId, Product, License, Event, FeaturePreset, EventType, Payload, Change, ProductField,
}
use yg_license_server.Runtime.{Runtime}
use yg_license_server.Keystore.{encrypt_text, encrypt_secret}
use yg_license_server.Session.{
  Session, Exec, ok, conflict, not_found, validation_failed, pure, raise_if, gets, lift, or_raise,
  ◌>>=◌, ◌>>◌, fresh_id, add_event, commit,
}
use yg_license_server.Webhooks.Queue.{Scheduler}
use yg_license_server.Licenses.{Snapshot, delete_all_in_tx, run_tasks}

abbrev pub is_digit : ℕ → Bool
is_digit c = leb b'0' c && leb c b'9'

abbrev pub is_lower : ℕ → Bool
is_lower c = leb b'a' c && leb c b'z'

abbrev pub slug_char : ℕ → Bool
slug_char c = is_lower c || is_digit c || c == b'-'

abbrev pub slug_first : Text → Bool
slug_first [] = false
slug_first (c ∷ rest) = (is_lower c || is_digit c) && all slug_char rest

-- `_SLUG_RE.match`, the `$` of which also stands before a final newline
abbrev pub slug_ok : Text → Bool
slug_ok t = slug_first (chop_newline t) && leb (length (chop_newline t)) 63

-- `_PREFIX_RE.match`
abbrev pub prefix_ok : Text → Bool
prefix_ok t =
    nonempty (chop_newline t)
    && all (λ c. is_lower c || is_digit c || c == b'_') (chop_newline t)
    && leb (length (chop_newline t)) 15

abbrev pub with_slug : Text → Session → Option Product
with_slug slug s = find (λ (p : Product). text_eq p.slug slug) s.work.products

pub record CreateArgs : Type 0 where
  pub slug : Text
  pub name : Text
  pub key_prefix : Text
  pub description : Option Text
  pub jwt_issuer : Option Text
  pub stripe_webhook_secret : Option Text
  pub stripe_api_key : Option Text
  pub validate_format : Bool

-- `a or None`, and `a or b`
abbrev pub none_if_empty : Option Text → Option Text
none_if_empty none = none
none_if_empty (some t) = or_none t

abbrev pub or_text : Option Text → Text → Text
or_text none b = b
or_text (some []) b = b
or_text (some (c ∷ t)) b = c ∷ t

-- `f"{slug}-license-server"`
abbrev pub default_issuer : Text → Text
default_issuer slug = slug ++ codes "-license-server"

unfoldable pub fresh_keypair : Runtime → Exec (Text × Text)
fresh_keypair rt s = (ok (rt.generate_keypair s.draws), record s { draws = s.draws + 1 })

unfoldable pub append_product : Product → Exec Unit
append_product p s =
    (ok tt, record s { work = record (s.work) { products = s.work.products ++ p ∷ [] } })

abbrev pub new_product :
    Runtime → CreateArgs → RowId → Text → Text → Option Text → Option Text → Product
new_product rt a id public private ws ak = record {
  id = id;
  slug = a.slug;
  name = a.name;
  description = none_if_empty a.description;
  public_key_pem = public;
  private_key_pem = private;
  key_prefix = a.key_prefix;
  stripe_webhook_secret = ws;
  stripe_api_key = ak;
  jwt_issuer = or_text a.jwt_issuer (default_issuer a.slug);
  created_at = rt.now;
}

-- the two patterns, where the caller wants them
unfoldable pub check_format : CreateArgs → Exec Unit
check_format a =
    raise_if (a.validate_format && not (slug_ok a.slug))
      (validation_failed "invalid slug (lowercase a-z0-9-, max 63)")
    >> raise_if (a.validate_format && not (prefix_ok a.key_prefix))
        (validation_failed "invalid key_prefix (lowercase a-z0-9_, max 15)")

-- no product has the slug
unfoldable pub ensure_free : Text → Exec Unit
ensure_free slug =
    gets (with_slug slug) >>= λ found. raise_if (is_some found) (conflict "slug already exists")

unfoldable pub insert_product : Runtime → CreateArgs → Product → Exec Product
unfolding append_product add_event commit
insert_product rt a p = do
  append_product p
  add_event rt none none EventType.product_created (Payload.product_made a.slug) none
  commit
  pure p

unfoldable pub make_product :
    Runtime → CreateArgs → Text → Text → Option Text → Option Text → Exec Product
unfolding fresh_id insert_product
make_product rt a public private ws ak =
    fresh_id >>= λ id. insert_product rt a (new_product rt a id public private ws ak)

-- the row with its secrets encrypted; the private key comes first in the pair
unfoldable pub seal_product : Runtime → CreateArgs → Text × Text → Exec Product
unfolding encrypt_text encrypt_secret make_product
seal_product rt a (private, public) = lift (encrypt_text rt private) >>= λ sealed.
    lift (encrypt_secret rt a.stripe_webhook_secret) >>= λ ws.
    lift (encrypt_secret rt a.stripe_api_key) >>= λ ak. make_product rt a public sealed ws ak

-- `create_product`. The event is built before the row has its id, so its product_id is None.
unfoldable pub create_product : Runtime → CreateArgs → Exec Product
unfolding check_format ensure_free fresh_keypair seal_product
create_product rt a =
    check_format a >> (ensure_free a.slug >> (fresh_keypair rt >>= seal_product rt a))

-- `get_product`
unfoldable pub get_product : Text → Exec Product
get_product slug = gets (with_slug slug) >>= λ found. or_raise found (not_found "product not found")

abbrev pub owned : RowId → License → Bool
owned id l = l.product_id == id

-- the update of the events, the deletion of the presets and of the row itself
unfoldable pub remove_product : Product → Exec Unit
remove_product p s = (
  ok tt,
  record s {
    work = record (s.work) {
      events =
          update_where (λ (e : Event). option_eq ◌==◌ e.product_id (some p.id))
            (λ e. record e { product_id = none }) s.work.events;
      presets =
          delete_where (λ (f : FeaturePreset). option_eq ◌==◌ f.product_id (some p.id))
            s.work.presets;
      products = delete_by (λ (q : Product). q.id) p.id s.work.products;
    };
  },
)

-- what follows the deletion of the licenses
unfoldable pub delete_rest :
    Runtime → Scheduler → Product → List License → List (Snapshot × Option RowId) → Exec ℕ
unfolding add_event remove_product commit run_tasks
delete_rest rt sched p rows pairs =
    add_event rt none none EventType.product_deleted
      (Payload.product_gone p.id p.slug p.name (length rows)) (some (codes "service/delete"))
    >> (remove_product p >> (commit >> (run_tasks rt sched pairs >> pure (length rows))))

unfoldable pub delete_found : Runtime → Scheduler → Product → Exec ℕ
unfolding delete_all_in_tx delete_rest
delete_found rt sched p = gets (λ s. select (owned p.id) s.work.licenses) >>= λ rows.
    delete_all_in_tx rt rows (some (codes "service/product-cascade"))
    >>= delete_rest rt sched p rows

-- `delete_product`, which answers the number of licenses. The update does not reach the events that the
-- same transaction added.
unfoldable pub delete_product : Runtime → Text → Scheduler → Exec ℕ
unfolding get_product delete_found
delete_product rt slug sched = get_product slug >>= delete_found rt sched

-- The arguments of an edit: None where a value is not given.
pub record UpdateArgs : Type 0 where
  pub new_slug : Option Text
  pub name : Option Text
  pub key_prefix : Option Text
  pub jwt_issuer : Option Text
  pub description : Option Text

abbrev pub is_empty : Option Text → Bool
is_empty none = false
is_empty (some t) = not (nonempty t)

abbrev pub given_or : Option Text → Text → Text
given_or none old = old
given_or (some t) old = t

-- a value is given and is another one
abbrev pub is_other : Option Text → Text → Bool
is_other none old = false
is_other (some t) old = not (text_eq t old)

abbrev pub target_issuer : Option Text → Text → Text → Text
target_issuer none slug old = old
target_issuer (some []) slug old = default_issuer slug
target_issuer (some (c ∷ t)) slug old = c ∷ t

abbrev pub target_description : Option Text → Option Text → Option Text
target_description none old = old
target_description (some t) old = or_none t

-- the row after the edit
abbrev pub edited_product : UpdateArgs → Product → Product
edited_product a p = record p {
  slug = given_or a.new_slug p.slug;
  name = given_or a.name p.name;
  key_prefix = given_or a.key_prefix p.key_prefix;
  jwt_issuer = target_issuer a.jwt_issuer (given_or a.new_slug p.slug) p.jwt_issuer;
  description = target_description a.description p.description;
}

abbrev pub change_of : ProductField → Option Text → Option Text → List Change
change_of field old new =
    if text_opt_eq new old then [] else record { field = field; old = old; new = new } ∷ []

-- `changes`
unfoldable pub changes_of : Product → Product → List Change
changes_of p q =
    change_of ProductField.slug_field (some p.slug) (some q.slug)
    ++ (change_of ProductField.name_field (some p.name) (some q.name)
        ++ (change_of ProductField.key_prefix_field (some p.key_prefix) (some q.key_prefix)
            ++ (change_of ProductField.jwt_issuer_field (some p.jwt_issuer) (some q.jwt_issuer)
                ++ change_of ProductField.description_field p.description q.description)))

-- The attributes of the product's row were set.
unfoldable pub save_product : Product → Exec Unit
save_product p s = (
  ok tt,
  record s {
    work = record (s.work) { products = put_by (λ (q : Product). q.id) p s.work.products };
  },
)

unfoldable pub apply_changes : Runtime → Text → Product → Product → List Change → Exec Product
unfolding save_product add_event commit
apply_changes rt slug p q [] = pure p
apply_changes rt slug p q (c ∷ cs) = do
  save_product q
  add_event rt none (some p.id) EventType.product_edited (Payload.product_changed slug (c ∷ cs))
      none
  commit
  pure q

-- the lookup of a new slug
unfoldable pub check_slug : Bool → Text → Exec Unit
unfolding ensure_free
check_slug false slug = pure tt
check_slug true slug =
    raise_if (not (slug_ok slug)) (validation_failed "invalid slug (lowercase a-z0-9-, max 63)")
    >> ensure_free slug

-- the fields that must not be empty
unfoldable pub check_required : UpdateArgs → Exec Unit
check_required a =
    raise_if (is_empty a.new_slug) (validation_failed "slug is required")
    >> raise_if (is_empty a.name) (validation_failed "name is required")
    >> raise_if (is_empty a.key_prefix) (validation_failed "key_prefix is required")

unfoldable pub check_prefix : UpdateArgs → Product → Exec Unit
check_prefix a p =
    raise_if
      (is_other a.key_prefix p.key_prefix && not (prefix_ok (given_or a.key_prefix p.key_prefix)))
      (validation_failed "invalid key_prefix (lowercase a-z0-9_, max 15)")

unfoldable pub update_found : Runtime → Text → UpdateArgs → Product → Exec Product
unfolding check_required check_slug check_prefix changes_of apply_changes
update_found rt slug a p =
    check_required a
    >> (check_slug (is_other a.new_slug p.slug) (given_or a.new_slug p.slug)
        >> (check_prefix a p
            >> apply_changes rt slug p (edited_product a p) (changes_of p (edited_product a p))))

-- `update_product`
unfoldable pub update_product : Runtime → Text → UpdateArgs → Exec Product
unfolding get_product update_found
update_product rt slug a = get_product slug >>= update_found rt slug a

-- `license_count`
abbrev pub license_count : RowId → Session → ℕ
license_count id s = length (select (owned id) s.work.licenses)
