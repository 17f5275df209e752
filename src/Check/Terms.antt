-- ===== src/Check/Terms.antt =====
-- What the steps of a check keep: the table of products, and the terms of the license; and which licenses
-- pass its tests.
use yg_license_server.Base.{
  List, ◌≤◌, ◌≡◌, ◌≢◌, refl, ◌∙◌, Bool, true, false, not, Option, none, some, ltb, arith, find,
  if◌then◌else◌,
}
use yg_license_server.Text.{Text, strip, nonempty, truthy, text_opt_eq}
use yg_license_server.Model.{
  RowId, Install, Product, License, Source, admin, self, Status, active, delinquent, revoked,
  disabled, EventType, Payload,
}
use yg_license_server.Runtime.{Runtime}
use yg_license_server.Webhooks.{generate_secret}
use yg_license_server.Licenses.{minted}
use yg_license_server.Session.{
  Session, Exec, Error, Result, ok, err, rejected, pure, raise, lift, raise_if, ◌>>=◌, add_event,
  fresh_id, fresh_token, save_license,
}
use yg_license_server.Session.Hoare.{
  Ensures, Always, OnOk-Always, Ensures-pure, Ensures-bind, Ensures-raise,
}
use yg_license_server.Check.{
  same_install, seen, CheckArgs, candidate_of, validate, refuse_override, self_register, backfill,
  register_url, self_register_url, upsert_install,
}

abbrev pub product_rows : Session → List Product
product_rows s = s.work.products

-- the columns that say what the license grants
abbrev pub Terms : License → License → Type 0
Terms lic lic' =
    (lic'.id ≡ lic.id)
    × (lic'.key_hash ≡ lic.key_hash)
    × (lic'.status ≡ lic.status)
    × (lic'.valid_until ≡ lic.valid_until)
    × (lic'.plan ≡ lic.plan)
    × (lic'.max_users ≡ lic.max_users)
    × (lic'.features ≡ lic.features)

Terms-same : (lic : License) → Terms lic lic
Terms-same lic = (refl, refl, refl, refl, refl, refl, refl)

moved :
    (lic : License) (u : Text) (secret : Option Text)
    → Terms lic
        (record lic { webhook_url = some u; webhook_url_source = self; webhook_secret = secret })
moved lic u secret = (refl, refl, refl, refl, refl, refl, refl)

refilled :
    (lic : License) (secret : Option Text) → Terms lic (record lic { webhook_secret = secret })
refilled lic secret = (refl, refl, refl, refl, refl, refl, refl)

-- neither revoked nor disabled, and not behind its end
abbrev pub Usable : Runtime → License → Type 0
Usable rt lic = (lic.status ≢ revoked) × (lic.status ≢ disabled) × (rt.now ≤ lic.valid_until)

module _ (before : List Product) where
  -- the table of products is as before
  abbrev pub SameProducts : Session → Type 0
  SameProducts s = product_rows s ≡ before

  abbrev Plain : {A : Type 0} → Exec A → Type 0
  Plain = Ensures SameProducts Always

  plain :
      {A : Type 0} (m : Exec A) → ((s : Session) → product_rows (m s).1 ≡ product_rows s) → Plain m
  plain m same = record { at = λ s h. (same s ∙ h, OnOk-Always (m s).0) }

  pub after_plain :
      {A B : Type 0} {R : B → Type 0} (m : Exec A) (f : A → Exec B)
      → Plain m
      → ((a : A) → Ensures SameProducts R (f a))
      → Ensures SameProducts R (m >>= f)
  after_plain m f h next = Ensures-bind m f h (λ a _. next a)

  pub after_lift :
      {A B : Type 0} {R : B → Type 0} (r : Result A) (f : A → Exec B)
      → ((a : A) → r ≡ ok a → Ensures SameProducts R (f a))
      → Ensures SameProducts R (lift r >>= f)
  after_lift (ok a) f next = next a refl
  after_lift (err e) f next = Ensures-raise e

  Plain-add_event :
      (rt : Runtime) (l p : Option RowId) (type : EventType) (payload : Payload)
      (note : Option Text)
      → Plain (add_event rt l p type payload note)
  unfolding add_event
  Plain-add_event rt l p type payload note = plain (add_event rt l p type payload note) (λ s. refl)

  Plain-save_license : (lic : License) → Plain (save_license lic)
  unfolding save_license
  Plain-save_license lic = plain (save_license lic) (λ s. refl)

  Plain-generate_secret : (rt : Runtime) → Plain (generate_secret rt)
  unfolding generate_secret fresh_token
  Plain-generate_secret rt = plain (generate_secret rt) (λ s. refl)

  Plain-minted : (rt : Runtime) (b : Bool) (old : Option Text) → Plain (minted rt b old)
  unfolding minted generate_secret fresh_token
  Plain-minted rt true old = plain (minted rt true old) (λ s. refl)
  Plain-minted rt false old = plain (minted rt false old) (λ s. refl)

  pub Plain-upsert_install :
      (rt : Runtime) (id : RowId) (a : CheckArgs) → Plain (upsert_install rt id a)
  unfolding upsert_install fresh_id
  Plain-upsert_install rt id a =
      plain (upsert_install rt id a)
        (λ s. by_row s (find (same_install id a.install_id) s.work.installs))
    where
      by_row :
          (s : Session) (o : Option Install) → product_rows (seen rt id a o s).1 ≡ product_rows s
      by_row s none = refl
      by_row s (some old) = refl

  Plain-raise_if : (b : Bool) (e : Error) → Plain (raise_if b e)
  Plain-raise_if true e = Ensures-raise e
  Plain-raise_if false e = Ensures-pure tt tt

  abbrev KeepsTerms : License → Exec License → Type 0
  KeepsTerms lic = Ensures SameProducts (Terms lic)

  refuse-Terms :
      (rt : Runtime) (lic : License) (u : Text) → KeepsTerms lic (refuse_override rt lic u)
  unfolding refuse_override
  refuse-Terms rt lic u = search (after_plain, Plain-add_event, Ensures-pure, Terms-same) depth 6

  self_register-Terms :
      (rt : Runtime) (lic : License) (u : Text) → KeepsTerms lic (self_register rt lic u)
  unfolding self_register
  self_register-Terms rt lic u =
      search (after_plain, Plain-add_event, Plain-minted, Plain-save_license, Ensures-pure, moved)
        depth 10

  backfill-Terms : (rt : Runtime) (lic : License) → KeepsTerms lic (backfill rt lic)
  unfolding backfill
  backfill-Terms rt lic =
      search
        (
          after_plain, Plain-add_event, Plain-generate_secret, Plain-save_license, Ensures-pure,
          refilled,
        )
        depth 10

  branch :
      (lic : License) (source : Source) (m k : Exec License)
      → KeepsTerms lic m
      → KeepsTerms lic k
      → KeepsTerms lic (elim source [ admin ↦ m | self ↦ k ])
  branch lic admin m k hm hk = hm
  branch lic self m k hm hk = hk

  test :
      (lic : License) (b : Bool) (m k : Exec License)
      → KeepsTerms lic m
      → KeepsTerms lic k
      → KeepsTerms lic (if b then m else k)
  test lic true m k hm hk = hm
  test lic false m k hm hk = hk

  register_url-Terms :
      (rt : Runtime) (lic : License) (u : Text) → KeepsTerms lic (register_url rt lic u)
  unfolding register_url
  register_url-Terms rt lic u =
      let unchanged = Ensures-pure lic (Terms-same lic) in
      test lic (not (text_opt_eq lic.webhook_url (some u))) _ _
        (branch lic lic.webhook_url_source _ _ (refuse-Terms rt lic u)
          (self_register-Terms rt lic u))
        (branch lic lic.webhook_url_source _ _ unchanged
          (test lic (truthy lic.webhook_secret) _ _ unchanged (backfill-Terms rt lic)))

  pub self_register_url-Terms :
      (rt : Runtime) (lic : License) (url : Option Text)
      → KeepsTerms lic (self_register_url rt lic url)
  unfolding self_register_url
  self_register_url-Terms rt lic none = Ensures-pure lic (Terms-same lic)
  self_register_url-Terms rt lic (some u) =
      test lic (nonempty (strip u)) _ (pure lic)
        (after_plain _ _ (Plain-raise_if _ _) (λ _. register_url-Terms rt lic (candidate_of u)))
        (Ensures-pure lic (Terms-same lic))

  Ensures-late :
      {Q : Unit → Type 0} (b : Bool)
      → (b ≡ false → Q tt)
      → Ensures SameProducts Q (raise_if b (rejected "expired" 401))
  Ensures-late true q = Ensures-raise (rejected "expired" 401)
  Ensures-late false q = Ensures-pure tt (q refl)

  Usable-go :
      (rt : Runtime) (lic : License) (st : Status)
      → lic.status ≡ st
      → Ensures SameProducts
          (λ _. Usable rt lic)
          (elim st [
            | revoked ↦ raise (rejected "revoked" 401)
            | disabled ↦ raise (rejected "disabled" 401)
            | _ ↦ raise_if (ltb lic.valid_until rt.now) (rejected "expired" 401)
          ])
  Usable-go rt lic active e =
      Ensures-late (ltb lic.valid_until rt.now) (λ h. (ground arith, ground arith, ground arith))
  Usable-go rt lic delinquent e =
      Ensures-late (ltb lic.valid_until rt.now) (λ h. (ground arith, ground arith, ground arith))
  Usable-go rt lic disabled e = Ensures-raise (rejected "disabled" 401)
  Usable-go rt lic revoked e = Ensures-raise (rejected "revoked" 401)

  pub validate-Usable :
      (rt : Runtime) (lic : License) → Ensures SameProducts (λ _. Usable rt lic) (validate rt lic)
  unfolding validate
  validate-Usable rt lic = Usable-go rt lic lic.status refl
