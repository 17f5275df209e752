-- ===== src/Rewrap/Run.antt =====
-- A whole run of app/scripts/rewrap_secrets.py.
use yg_license_server.Base.{
  ℕ, zero, suc, ◌≡◌, ◌≢◌, ◌⊎◌, refl, sym, ap, ◌∙◌, subst, Bool, true, false, not, Option, none,
  some, List, [], ◌∷◌, arith, All, if◌then◌else◌, inl, inr,
}
use yg_license_server.Text.{Text, text_eq, nonempty}
use yg_license_server.Model.{Product}
use yg_license_server.Runtime.{Runtime}
use yg_license_server.Session.{Session, Result, ok, err, rollback}
use yg_license_server.Keystore.{fernet, fernet_prev}
use yg_license_server.Rewrap.{
  rewrap_text, rewrap_field, rewritten, rewrap_product, tallied, consed, rewrap_products,
  finish_run, scan, migrate_from, migrate, run_rewrap,
}
use yg_license_server.Rewrap.Kept.{
  IsBare, OnSecret, BareSecrets, KeptRow, KeptRows, KeptField, Done, DoneField, rewrap_text-Done,
  optional-DoneField, rewritten-KeptRow,
}

-- the row of one step, and that the step changed nothing if it says so
abbrev RowDone : Runtime → Option Text → Product → Product → Bool → Type 0
RowDone rt mode p q changed = KeptRow rt mode p q × (changed ≡ false → q ≡ p)

rewritten-unchanged :
    (p q : Product) (priv : Text) (ws ak : Option Text) (a b c changed : Bool)
    → rewritten p (ok (priv, a)) (ok (ws, b)) (ok (ak, c)) ≡ ok (q, changed)
    → changed ≡ false
    → q ≡ p
rewritten-unchanged p q priv ws ak true b c changed e quiet = cc
rewritten-unchanged p q priv ws ak false true c changed e quiet = cc
rewritten-unchanged p q priv ws ak false false true changed e quiet = cc
rewritten-unchanged p q priv ws ak false false false changed e quiet = cc

ok-rows :
    {r1 r2 : List Product} {m1 m2 : ℕ}
    → ◌≡◌ {A = Result (List Product × ℕ)} (ok (r1, m1)) (ok (r2, m2))
    → (r1 ≡ r2) × (m1 ≡ m2)
ok-rows h = (cc, cc)

tallied-zero : (b : Bool) (m : ℕ) → tallied b m ≡ 0 → (b ≡ false) × (m ≡ 0)
tallied-zero true m e = ground arith
tallied-zero false m e = (refl, e)

same_all :
    {p q : Product} {ps rows qs : List Product} {b : Bool} {m : ℕ}
    → q ∷ rows ≡ qs
    → (b ≡ false) × (m ≡ 0)
    → (b ≡ false → q ≡ p)
    → (m ≡ 0 → rows ≡ ps)
    → qs ≡ p ∷ ps
same_all {p} {rows = rows} is (unchanged, none_changed) same_row same_rows =
    sym is ∙ ap (λ x. x ∷ rows) (same_row unchanged) ∙ ap (λ x. p ∷ x) (same_rows none_changed)

module _ (rt : Runtime) (mode : Option Text) (key : Text)
    (undo : (key text : Text) → rt.fernet_decrypt key (rt.fernet_encrypt key text) ≡ some text)
    (usable : fernet rt ≡ some key) where
  rewrap_field-DoneField :
      (old new : Option Text) (changed : Bool)
      → OnSecret (IsBare rt mode) old
      → rewrap_field rt mode old ≡ ok (new, changed)
      → DoneField rt mode old new changed
  unfolding rewrap_field DoneField
  rewrap_field-DoneField none new changed bare h =
      (subst (KeptField rt mode none) (absent_is h) KeptField.absent, λ quiet. sym (absent_is h))
    where
      absent_is :
          ◌≡◌ {A = Result (Option Text × Bool)} (ok (none, false)) (ok (new, changed)) → none ≡ new
      absent_is e = cc
  rewrap_field-DoneField (some old) new changed bare h =
      optional-DoneField rt mode (rewrap_text rt mode old) old new changed
        (λ t b e. rewrap_text-Done rt key undo usable mode old t b bare e) h

  rewritten-RowDone :
      (p q : Product) (changed : Bool) (priv : Result (Text × Bool))
      (ws ak : Result (Option Text × Bool))
      → ((t : Text) (b : Bool) → priv ≡ ok (t, b) → Done rt mode p.private_key_pem t b)
      → ((t : Option Text) (b : Bool)
          → ws ≡ ok (t, b)
          → DoneField rt mode p.stripe_webhook_secret t b)
      → ((t : Option Text) (b : Bool) → ak ≡ ok (t, b) → DoneField rt mode p.stripe_api_key t b)
      → rewritten p priv ws ak ≡ ok (q, changed)
      → RowDone rt mode p q changed
  rewritten-RowDone p q changed (err x) ws ak f g h e = cc
  rewritten-RowDone p q changed (ok priv) (err x) ak f g h e = cc
  rewritten-RowDone p q changed (ok priv) (ok ws) (err x) f g h e = cc
  rewritten-RowDone p q changed (ok (priv, a)) (ok (ws, b)) (ok (ak, c)) f g h e = (
    rewritten-KeptRow rt mode p q priv ws ak a b c changed (f priv a refl) (g ws b refl)
        (h ak c refl) e,
    rewritten-unchanged p q priv ws ak a b c changed e,
  )

  rewrap_product-RowDone :
      (p q : Product) (changed : Bool)
      → BareSecrets rt mode p
      → rewrap_product rt mode p ≡ ok (q, changed)
      → RowDone rt mode p q changed
  unfolding rewrap_product
  rewrap_product-RowDone p q changed (b1, b2, b3) h =
      rewritten-RowDone p q changed (rewrap_text rt mode p.private_key_pem)
        (rewrap_field rt mode p.stripe_webhook_secret) (rewrap_field rt mode p.stripe_api_key)
        (λ t b e. rewrap_text-Done rt key undo usable mode p.private_key_pem t b b1 e)
        (λ t b e. rewrap_field-DoneField p.stripe_webhook_secret t b b2 e)
        (λ t b e. rewrap_field-DoneField p.stripe_api_key t b b3 e) h

  RowsDone : List Product → List Product → ℕ → Type 0
  RowsDone ps qs n = KeptRows rt mode ps qs × (n ≡ 0 → qs ≡ ps)

  consed-RowsDone :
      (p : Product) (ps qs : List Product) (n : ℕ) (r : Result (Product × Bool))
      (rest : Result (List Product × ℕ))
      → ((q : Product) (b : Bool) → r ≡ ok (q, b) → RowDone rt mode p q b)
      → ((rows : List Product) (m : ℕ) → rest ≡ ok (rows, m) → RowsDone ps rows m)
      → consed r rest ≡ ok (qs, n)
      → RowsDone (p ∷ ps) qs n
  unfolding RowsDone
  consed-RowsDone p ps qs n (err x) rest f g e = cc
  consed-RowsDone p ps qs n (ok q) (err x) f g e = cc
  consed-RowsDone p ps qs n (ok (q, b)) (ok (rows, m)) f g e =
      let (kept_row, same_row) = f q b refl in
      let (kept_rows, same_rows) = g rows m refl in
      let (is, count) = ok-rows e in
      (
        subst (KeptRows rt mode (p ∷ ps)) is (KeptRows.next_row kept_row kept_rows),
        λ quiet. same_all is (tallied-zero b m (count ∙ quiet)) same_row same_rows,
      )

  rewrap_products-RowsDone :
      (ps qs : List Product) (n : ℕ)
      → All (BareSecrets rt mode) ps
      → rewrap_products rt mode ps ≡ ok (qs, n)
      → RowsDone ps qs n
  unfolding RowsDone rewrap_products
  rewrap_products-RowsDone [] qs n bare h =
      let (is, count) = ok-rows h in
      (subst (KeptRows rt mode []) is KeptRows.no_rows, λ quiet. sym is)
  rewrap_products-RowsDone (p ∷ ps) qs n (bare, rest) h =
      consed-RowsDone p ps qs n (rewrap_product rt mode p) (rewrap_products rt mode ps)
        (λ q b e. rewrap_product-RowDone p q b bare e)
        (λ rows m e. rewrap_products-RowsDone ps rows m rest e) h

  finish_run-KeptRows :
      (ps : List Product) (s : Session) (r : Result (List Product × ℕ))
      → s.store.products ≡ ps
      → ((rows : List Product) (n : ℕ) → r ≡ ok (rows, n) → RowsDone ps rows n)
      → (finish_run false s r).0 ≡ 0
      → KeptRows rt mode ps (finish_run false s r).1.store.products
  unfolding RowsDone rollback
  finish_run-KeptRows ps s (err x) same done e = ground arith
  finish_run-KeptRows ps s (ok (rows, zero)) same done e =
      let (kept_rows, unchanged) = done rows 0 refl in
      subst (KeptRows rt mode ps) (unchanged refl ∙ sym same) kept_rows
  finish_run-KeptRows ps s (ok (rows, suc n)) same done e = (done rows (suc n) refl).0

-- the mode that the command line asks for
abbrev pub mode_of : Runtime → Bool → Option Text
mode_of rt false = none
mode_of rt true = fernet_prev rt

-- an exit with status 0 has kept the rows
abbrev Ends : Runtime → Option Text → List Product → ℕ × Session → Type 0
Ends rt mode ps out = out.0 ≡ 0 → KeptRows rt mode ps out.1.store.products

Ends-refused :
    (rt : Runtime) (mode : Option Text) (ps : List Product) (s : Session) (b : Bool)
    (out : ℕ × Session)
    → Ends rt mode ps out
    → Ends rt mode ps (if b then (2, s) else out)
Ends-refused rt mode ps s true out h e = ground arith
Ends-refused rt mode ps s false out h e = h e

Ends-other :
    (rt : Runtime) (mode : Option Text) (ps : List Product) (s : Session) (b : Bool)
    (out : ℕ × Session)
    → b ≡ false
    → Ends rt mode ps out
    → Ends rt mode ps (if b then (0, s) else out)
Ends-other rt mode ps s true out differ h e = cc
Ends-other rt mode ps s false out differ h e = h e

module _ (rt : Runtime) (key : Text)
    (undo : (key text : Text) → rt.fernet_decrypt key (rt.fernet_encrypt key text) ≡ some text)
    (usable : fernet rt ≡ some key) (s : Session) (clean : s.work ≡ s.store) where
  scan-Ends :
      (mode : Option Text)
      → All (BareSecrets rt mode) s.work.products
      → Ends rt mode s.work.products (scan rt false mode s)
  scan-Ends mode bare =
      finish_run-KeptRows rt mode key undo usable s.work.products s
        (rewrap_products rt mode s.work.products) (ap (λ db. db.products) (sym clean))
        (λ rows n. rewrap_products-RowsDone rt mode key undo usable s.work.products rows n bare)

  migrate_from-Ends :
      (mode : Option Text)
      → All (BareSecrets rt mode) s.work.products
      → Ends rt mode s.work.products (migrate_from rt false mode s)
  migrate_from-Ends none bare e = ground arith
  migrate_from-Ends (some prev) bare e = scan-Ends (some prev) bare e

  run_rewrap-Ends :
      (migrating : Bool)
      → (migrating ≡ true
          → text_eq rt.settings.key_encryption_key_prev rt.settings.key_encryption_key ≡ false)
      → All (BareSecrets rt (mode_of rt migrating)) s.work.products
      → Ends rt (mode_of rt migrating) s.work.products (run_rewrap rt false migrating s)
  unfolding run_rewrap migrate
  run_rewrap-Ends false other bare =
      Ends-refused rt none s.work.products s (not (nonempty rt.settings.key_encryption_key)) _
        (scan-Ends none bare)
  run_rewrap-Ends true other bare =
      Ends-refused rt (fernet_prev rt) s.work.products s
        (not (nonempty rt.settings.key_encryption_key)) _
        (Ends-refused rt (fernet_prev rt) s.work.products s
          (not (nonempty rt.settings.key_encryption_key_prev)) _
          (Ends-other rt (fernet_prev rt) s.work.products s
            (text_eq rt.settings.key_encryption_key_prev rt.settings.key_encryption_key) _
            (other refl) (migrate_from-Ends (fernet_prev rt) bare)))

-- With Fernet undoing its own encryption and a usable current key, a run that ends with status 0 and is
-- no dry run leaves, for every product of a session with nothing uncommitted, each secret committed as
-- an envelope that says under the current key what the old value said: read as the server reads it, or
-- under the previous key in a migration, which is usable and not the current one. No secret's plaintext
-- looks like an envelope itself. Nothing else of a product changes, and no row is added, lost or moved.
pub run_rewrap-KeptRows :
    (rt : Runtime) (migrating : Bool) (s : Session) (key : Text)
    → ((key text : Text) → rt.fernet_decrypt key (rt.fernet_encrypt key text) ≡ some text)
    → fernet rt ≡ some key
    → (migrating ≡ true
        → text_eq rt.settings.key_encryption_key_prev rt.settings.key_encryption_key ≡ false)
    → s.work ≡ s.store
    → All (BareSecrets rt (mode_of rt migrating)) s.store.products
    → (run_rewrap rt false migrating s).0 ≡ 0
    → KeptRows rt
        (mode_of rt migrating)
        s.store.products
        (run_rewrap rt false migrating s).1.store.products
run_rewrap-KeptRows rt migrating s key undo usable other clean bare e =
    let mode = mode_of rt migrating in
    subst (λ db. KeptRows rt mode db.products (run_rewrap rt false migrating s).1.store.products)
      clean
      (run_rewrap-Ends rt key undo usable s clean migrating other
        (subst (λ db. All (BareSecrets rt mode) db.products) (sym clean) bare) e)

module _ (s : Session) where
  finish_run-unchanged :
      (dry_run : Bool) (r : Result (List Product × ℕ))
      → (dry_run ≡ true) ⊎ ((finish_run dry_run s r).0 ≢ 0)
      → (finish_run dry_run s r).1.store ≡ s.store
  unfolding rollback
  finish_run-unchanged dry_run (err e) h = refl
  finish_run-unchanged true (ok result) h = refl
  finish_run-unchanged false (ok (rows, zero)) h = refl
  finish_run-unchanged false (ok (rows, suc n)) (inl dry) = cc
  finish_run-unchanged false (ok (rows, suc n)) (inr failed) = absurd (failed refl)

  migrate_from-unchanged :
      (rt : Runtime) (dry_run : Bool) (mode : Option Text)
      → (dry_run ≡ true) ⊎ ((migrate_from rt dry_run mode s).0 ≢ 0)
      → (migrate_from rt dry_run mode s).1.store ≡ s.store
  migrate_from-unchanged rt dry_run none h = refl
  migrate_from-unchanged rt dry_run (some prev) h =
      finish_run-unchanged dry_run (rewrap_products rt (some prev) s.work.products) h

  stopped :
      (dry_run b : Bool) (status : ℕ) (out : ℕ × Session)
      → ((dry_run ≡ true) ⊎ (out.0 ≢ 0) → out.1.store ≡ s.store)
      → (dry_run ≡ true) ⊎ ((if b then (status, s) else out).0 ≢ 0)
      → (if b then (status, s) else out).1.store ≡ s.store
  stopped dry_run true status out next h = refl
  stopped dry_run false status out next h = next h

-- A dry run, and a run that ends with another status than 0, commits nothing: an error at any row, such
-- as a value that the previous key does not decrypt, leaves every row as it was.
pub run_rewrap-unchanged :
    (rt : Runtime) (dry_run migrating : Bool) (s : Session)
    → (dry_run ≡ true) ⊎ ((run_rewrap rt dry_run migrating s).0 ≢ 0)
    → (run_rewrap rt dry_run migrating s).1.store ≡ s.store
unfolding run_rewrap migrate
run_rewrap-unchanged rt dry_run false s =
    stopped s dry_run (not (nonempty rt.settings.key_encryption_key)) 2 _
      (finish_run-unchanged s dry_run (rewrap_products rt none s.work.products))
run_rewrap-unchanged rt dry_run true s =
    stopped s dry_run (not (nonempty rt.settings.key_encryption_key)) 2 _ (
      stopped s dry_run (not (nonempty rt.settings.key_encryption_key_prev)) 2 _ (
        stopped s dry_run
          (text_eq rt.settings.key_encryption_key_prev rt.settings.key_encryption_key) 0 _
          (migrate_from-unchanged s rt dry_run (fernet_prev rt))))
