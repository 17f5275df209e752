-- ===== src/Products/Create.antt =====
-- `create_product` keeps the table of products valid.
use yg_license_server.Base.{
  ◌≡◌, refl, Bool, true, false, Option, none, some, [], ◌∷◌, ◌++◌, All-append,
}
use yg_license_server.Text.{Text}
use yg_license_server.Model.{Product, EventType, Payload, RowId}
use yg_license_server.Runtime.{Runtime}
use yg_license_server.Keystore.{is_encrypted, encrypt_text, encrypt_secret}
use yg_license_server.Keystore.RoundTrip.{encrypt-IsEncrypted}
use yg_license_server.Session.{
  fresh_id, add_event, commit, Session, Exec, Error, Result, ok, err, pure, lift, raise_if, ◌>>=◌,
  ◌>>◌,
}
use yg_license_server.Session.Hoare.{Ensures, Always, OnOk}
use yg_license_server.Products.{
  seal_product, make_product, fresh_keypair, insert_product, check_format, ensure_free, CreateArgs,
  create_product, new_product, append_product,
}
use yg_license_server.Products.Keep.{Keeps, Keeps-commit}
use yg_license_server.Products.Table.{
  Agrees-fresh, IsSealed, IsValidTable, OptSealed, SlugsApart-append,
}
use yg_license_server.Products.Ends.{Ends, Ends-ensure_free, Free, Sound, Free-Sound, Ends-bind}

pub Keeps-check_format : (a : CreateArgs) → Keeps IsValidTable (check_format a)
unfolding check_format
Keeps-check_format a = record { at = λ s h. guarded_twice s h _ _ _ _ }
  where
    guarded_twice :
        (s : Session)
        → Sound s
        → (b c : Bool) (e f : Error)
        → Sound ((raise_if b e >> raise_if c f) s).1
          × OnOk Always ((raise_if b e >> raise_if c f) s).0
    guarded_twice s h true c e f = (h, tt)
    guarded_twice s h false true e f = (h, tt)
    guarded_twice s h false false e f = (h, tt)

pub record_made : Runtime → CreateArgs → Product → Exec Product
unfolding add_event commit
record_made rt a q = do
  add_event rt none none EventType.product_created (Payload.product_made a.slug) none
  commit
  pure q

pub record_made-Keeps :
    (rt : Runtime) (a : CreateArgs) (q : Product) → Keeps IsValidTable (record_made rt a q)
unfolding record_made
record_made-Keeps rt a q = search (Keeps-commit IsValidTable) depth 6

pub Ends-insert :
    (rt : Runtime) (a : CreateArgs) (q : Product)
    → IsSealed q
    → Ends (Free q.slug) (insert_product rt a q)
unfolding insert_product append_product record_made
Ends-insert rt a q sealed = record {
  at = λ s h.
      let table : IsValidTable (s.work.products ++ q ∷ []) = (
        All-append IsSealed s.work.products (q ∷ []) h.0.1.0 (sealed, tt),
        SlugsApart-append q s.work.products h.0.1.1 (Agrees-fresh q s.work.products h.1),
      ) in
      ((record_made-Keeps rt a q).at (append_product q s).1 (h.0.0, table)).0;
}

module _ (rt : Runtime) (required : rt.settings.require_kek ≡ true) (slug : Text) where
  pub Ensures-encrypt_text :
      (plaintext : Text)
      → Ensures (Free slug) (λ t. is_encrypted t ≡ true) (lift (encrypt_text rt plaintext))
  Ensures-encrypt_text plaintext = record {
    at = λ s h. (h, sealed (encrypt_text rt plaintext) refl);
  }
    where
      sealed :
          (r : Result Text) → encrypt_text rt plaintext ≡ r → OnOk (λ t. is_encrypted t ≡ true) r
      sealed (ok t) e = encrypt-IsEncrypted rt plaintext t required e
      sealed (err x) e = tt

  pub Ensures-encrypt_secret :
      (secret : Option Text) → Ensures (Free slug) OptSealed (lift (encrypt_secret rt secret))
  unfolding encrypt_secret
  Ensures-encrypt_secret none = record { at = λ s h. (h, tt) }
  Ensures-encrypt_secret (some plaintext) = record {
    at = λ s h. (h, sealed (encrypt_text rt plaintext) refl);
  }
    where
      sealed :
          (r : Result Text)
          → encrypt_text rt plaintext ≡ r
          → OnOk OptSealed (elim r [ ok stored ↦ ok (some stored) | err e ↦ err e ])
      sealed (ok t) e = encrypt-IsEncrypted rt plaintext t required e
      sealed (err x) e = tt

pub Free-fresh_keypair :
    (rt : Runtime) (slug : Text) → Ensures (Free slug) Always (fresh_keypair rt)
unfolding fresh_keypair
Free-fresh_keypair rt slug = record { at = λ s h. (h, tt) }

pub Free-fresh_id : (slug : Text) → Ensures (Free slug) Always fresh_id
unfolding fresh_id
Free-fresh_id slug = record { at = λ s h. (h, tt) }

pub after_check :
    {A : Type 0} (a : CreateArgs) (k : Unit → Exec A)
    → Ends Sound (k tt)
    → Ends Sound (check_format a >>= k)
after_check a k next = Ends-bind (λ s h. h) (check_format a) k (Keeps-check_format a) (λ _ _. next)

pub after-Free :
    {A B : Type 0} {Q : A → Type 0} (slug : Text) (m : Exec A) (f : A → Exec B)
    → Ensures (Free slug) Q m
    → ((a : A) → Q a → Ends (Free slug) (f a))
    → Ends (Free slug) (m >>= f)
after-Free slug m f first next = Ends-bind (Free-Sound slug) m f first next

pub Ends-new :
    (rt : Runtime) (a : CreateArgs) (id : RowId) (public private : Text) (ws ak : Option Text)
    → is_encrypted private ≡ true
    → OptSealed ws
    → OptSealed ak
    → Ends (Free a.slug) (insert_product rt a (new_product rt a id public private ws ak))
Ends-new rt a id public private ws ak h1 h2 h3 =
    Ends-insert rt a (new_product rt a id public private ws ak) (h1, h2, h3)

pub make_product-Ends :
    (rt : Runtime) (a : CreateArgs) (public private : Text) (ws ak : Option Text)
    → is_encrypted private ≡ true
    → OptSealed ws
    → OptSealed ak
    → Ends (Free a.slug) (make_product rt a public private ws ak)
unfolding make_product
make_product-Ends rt a public private ws ak h1 h2 h3 =
    after-Free a.slug fresh_id
      (λ id. insert_product rt a (new_product rt a id public private ws ak)) (Free-fresh_id a.slug)
      λ id _. Ends-new rt a id public private ws ak h1 h2 h3

pub seal_product-Ends :
    (rt : Runtime) (a : CreateArgs) (keys : Text × Text)
    → rt.settings.require_kek ≡ true
    → Ends (Free a.slug) (seal_product rt a keys)
unfolding seal_product
seal_product-Ends rt a (private, public) required =
    after-Free a.slug (lift (encrypt_text rt private))
      (λ sealed. lift (encrypt_secret rt a.stripe_webhook_secret) >>= λ ws.
        lift (encrypt_secret rt a.stripe_api_key) >>= λ ak. make_product rt a public sealed ws ak)
      (Ensures-encrypt_text rt required a.slug private)
      λ sealed h1.
        after-Free a.slug (lift (encrypt_secret rt a.stripe_webhook_secret))
          (λ ws. lift (encrypt_secret rt a.stripe_api_key) >>= λ ak.
            make_product rt a public sealed ws ak)
          (Ensures-encrypt_secret rt required a.slug a.stripe_webhook_secret)
          λ ws h2.
            after-Free a.slug (lift (encrypt_secret rt a.stripe_api_key))
              (λ ak. make_product rt a public sealed ws ak)
              (Ensures-encrypt_secret rt required a.slug a.stripe_api_key)
              λ ak h3. make_product-Ends rt a public sealed ws ak h1 h2 h3

pub create_product-Ends :
    (rt : Runtime) (a : CreateArgs)
    → rt.settings.require_kek ≡ true
    → Ends Sound (create_product rt a)
unfolding create_product
create_product-Ends rt a required =
    after_check a (λ _. ensure_free a.slug >> (fresh_keypair rt >>= seal_product rt a))
      (Ends-ensure_free a.slug (λ _. fresh_keypair rt >>= seal_product rt a)
        (after-Free a.slug (fresh_keypair rt) (seal_product rt a) (Free-fresh_keypair rt a.slug)
          λ keys _. seal_product-Ends rt a keys required))
