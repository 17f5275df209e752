-- ===== src/Rewrap/Kept.antt =====
-- A run of the script keeps what every secret says, under the current key.
use yg_license_server.Base.{
  ◌≡◌, refl, sym, ap, ◌∙◌, subst, Bool, true, false, Option, none, some, List, [], ◌∷◌, arith,
  if◌then◌else◌,
}
use yg_license_server.Text.{Text, starts_with}
use yg_license_server.Model.{Product}
use yg_license_server.Runtime.{Runtime}
use yg_license_server.Session.{Result, ok, err}
use yg_license_server.Keystore.{
  envelope_prefix, is_encrypted, encrypt_text, decrypt_with, decrypt_text, fernet,
}
use yg_license_server.Keystore.RoundTrip.{decrypt-encrypt, starts_with-envelope}
use yg_license_server.Rewrap.{rewrap_text, marked, encrypt_read, optional, rewritten}

-- what a stored value says before the run: in the mode without a key as the server reads it, and
-- otherwise under the previous key
abbrev pub says : Runtime → Option Text → Text → Result Text
says rt none value = decrypt_text rt value
says rt (some prev) value = if is_encrypted value then decrypt_with rt prev value else ok value

-- What a value says does not look like an envelope.
abbrev pub IsBare : Runtime → Option Text → Text → Type 0
IsBare rt mode value =
    (plaintext : Text)
    → says rt mode value ≡ ok plaintext
    → starts_with plaintext envelope_prefix ≡ false

abbrev pub OnSecret : (Text → Type 0) → Option Text → Type 0
OnSecret P none = Unit
OnSecret P (some value) = P value

abbrev pub BareSecrets : Runtime → Option Text → Product → Type 0
BareSecrets rt mode p =
    IsBare rt mode p.private_key_pem
    × OnSecret (IsBare rt mode) p.stripe_webhook_secret
    × OnSecret (IsBare rt mode) p.stripe_api_key

-- the new value is an envelope that says the same under the current key
abbrev pub KeptText : Runtime → Option Text → Text → Text → Type 0
KeptText rt mode old new = (is_encrypted new ≡ true) × (decrypt_text rt new ≡ says rt mode old)

pub data KeptField (rt : Runtime) (mode : Option Text) : Option Text → Option Text → Type 0 where
  absent : KeptField rt mode none none
  kept : {old new : Text} → KeptText rt mode old new → KeptField rt mode (some old) (some new)

-- the row is the same but for its three secrets
pub record KeptRow (rt : Runtime) (mode : Option Text) (p q : Product) : Type 0 where
  pub same : q ≡ record p {
    private_key_pem = q.private_key_pem;
    stripe_webhook_secret = q.stripe_webhook_secret;
    stripe_api_key = q.stripe_api_key;
  }
  pub priv : KeptText rt mode p.private_key_pem q.private_key_pem
  pub hook : KeptField rt mode p.stripe_webhook_secret q.stripe_webhook_secret
  pub api : KeptField rt mode p.stripe_api_key q.stripe_api_key

pub data KeptRows (rt : Runtime) (mode : Option Text) : List Product → List Product → Type 0 where
  no_rows : KeptRows rt mode [] []
  next_row :
      {p q : Product} {ps qs : List Product}
      → KeptRow rt mode p q
      → KeptRows rt mode ps qs
      → KeptRows rt mode (p ∷ ps) (q ∷ qs)

-- with a usable current key, whatever is stored is an envelope
encrypt-envelope :
    (rt : Runtime) (key plaintext stored : Text)
    → fernet rt ≡ some key
    → encrypt_text rt plaintext ≡ ok stored
    → is_encrypted stored ≡ true
unfolding encrypt_text
encrypt-envelope rt key plaintext stored e h =
    ground (arith, starts_with-envelope (rt.fernet_encrypt key plaintext))

module _ (rt : Runtime) (mode : Option Text) (key : Text)
    (undo : (key text : Text) → rt.fernet_decrypt key (rt.fernet_encrypt key text) ≡ some text)
    (usable : fernet rt ≡ some key) where
  encrypted-KeptText :
      (old plaintext new : Text)
      → says rt mode old ≡ ok plaintext
      → IsBare rt mode old
      → encrypt_text rt plaintext ≡ ok new
      → KeptText rt mode old new
  encrypted-KeptText old plaintext new e bare h = (
    encrypt-envelope rt key plaintext new usable h,
    decrypt-encrypt rt plaintext new undo (bare plaintext e) h ∙ sym e,
  )

-- a value that is no envelope is read as it is
decrypt-raw :
    (rt : Runtime) (value : Text) → is_encrypted value ≡ false → decrypt_text rt value ≡ ok value
unfolding is_encrypted decrypt_text starts_with
decrypt-raw rt [] e = refl
decrypt-raw rt (c ∷ value) e = ground (arith, e)

-- what a field's step has done, and that it changed nothing if it says so
unfoldable pub Done : Runtime → Option Text → Text → Text → Bool → Type 0
Done rt mode old new changed = KeptText rt mode old new × (changed ≡ false → new ≡ old)

ok-text : {t u : Text} {b c : Bool} → ◌≡◌ {A = Result (Text × Bool)} (ok (t, b)) (ok (u, c)) → t ≡ u
ok-text e = cc

marked-ok :
    (r : Result Text) (new : Text) (changed : Bool)
    → marked r ≡ ok (new, changed)
    → (r ≡ ok new) × (changed ≡ true)
marked-ok (ok t) new changed e = (cc, cc)
marked-ok (err x) new changed e = cc

module _ (rt : Runtime) (key : Text)
    (undo : (key text : Text) → rt.fernet_decrypt key (rt.fernet_encrypt key text) ≡ some text)
    (usable : fernet rt ≡ some key) where
  marked-Done :
      (mode : Option Text) (old plaintext new : Text) (changed : Bool)
      → says rt mode old ≡ ok plaintext
      → IsBare rt mode old
      → marked (encrypt_text rt plaintext) ≡ ok (new, changed)
      → Done rt mode old new changed
  unfolding Done
  marked-Done mode old plaintext new changed e bare h =
      let (stored, is) = marked-ok (encrypt_text rt plaintext) new changed h in
      (encrypted-KeptText rt mode key undo usable old plaintext new e bare stored, λ quiet. cc)

  encrypt_read-Done :
      (mode : Option Text) (r : Result Text) (old new : Text) (changed : Bool)
      → says rt mode old ≡ r
      → IsBare rt mode old
      → encrypt_read rt r ≡ ok (new, changed)
      → Done rt mode old new changed
  encrypt_read-Done mode (ok plaintext) old new changed e bare h =
      marked-Done mode old plaintext new changed e bare h
  encrypt_read-Done mode (err x) old new changed e bare h = cc

  -- the step, by whether the value is an envelope
  none-Done :
      (old new : Text) (changed encrypted : Bool)
      → is_encrypted old ≡ encrypted
      → IsBare rt none old
      → (if encrypted then ok (old, false) else marked (encrypt_text rt old)) ≡ ok (new, changed)
      → Done rt none old new changed
  unfolding Done
  none-Done old new changed true e bare h =
      let same = ok-text h in
      (
        (subst (λ x. is_encrypted x ≡ true) same e, ap (decrypt_text rt) (sym same)),
        λ quiet. sym same,
      )
  none-Done old new changed false e bare h =
      marked-Done none old old new changed (decrypt-raw rt old e) bare h

  prev-Done :
      (prev old new : Text) (changed encrypted : Bool)
      → is_encrypted old ≡ encrypted
      → IsBare rt (some prev) old
      → (if encrypted
          then encrypt_read rt (decrypt_with rt prev old)
          else marked (encrypt_text rt old))
        ≡ ok (new, changed)
      → Done rt (some prev) old new changed
  prev-Done prev old new changed true e bare h =
      encrypt_read-Done (some prev) (decrypt_with rt prev old) old new changed (ground (arith, e))
        bare h
  prev-Done prev old new changed false e bare h =
      marked-Done (some prev) old old new changed (ground (arith, e)) bare h

  pub rewrap_text-Done :
      (mode : Option Text) (old new : Text) (changed : Bool)
      → IsBare rt mode old
      → rewrap_text rt mode old ≡ ok (new, changed)
      → Done rt mode old new changed
  unfolding rewrap_text
  rewrap_text-Done none old new changed bare h =
      none-Done old new changed (is_encrypted old) refl bare h
  rewrap_text-Done (some prev) old new changed bare h =
      prev-Done prev old new changed (is_encrypted old) refl bare h

-- the same of a value that may be None
unfoldable pub DoneField : Runtime → Option Text → Option Text → Option Text → Bool → Type 0
DoneField rt mode old new changed = KeptField rt mode old new × (changed ≡ false → new ≡ old)

ok-row :
    {p q : Product} {b c : Bool} → ◌≡◌ {A = Result (Product × Bool)} (ok (p, b)) (ok (q, c)) → p ≡ q
ok-row e = cc

ok-field :
    {t u : Option Text} {b c : Bool}
    → ◌≡◌ {A = Result (Option Text × Bool)} (ok (t, b)) (ok (u, c))
    → (t ≡ u) × (b ≡ c)
ok-field e = (cc, cc)

module _ (rt : Runtime) (mode : Option Text) where
  pub optional-DoneField :
      (r : Result (Text × Bool)) (old : Text) (new : Option Text) (changed : Bool)
      → ((t : Text) (b : Bool) → r ≡ ok (t, b) → Done rt mode old t b)
      → optional r ≡ ok (new, changed)
      → DoneField rt mode (some old) new changed
  unfolding DoneField Done
  optional-DoneField (err x) old new changed step h = cc
  optional-DoneField (ok (t, b)) old new changed step h =
      let (is, flag) = ok-field h in
      let (kept_text, unchanged) = step t b refl in
      (
        subst (KeptField rt mode (some old)) is (KeptField.kept kept_text),
        λ quiet. sym is ∙ ap some (unchanged (flag ∙ quiet)),
      )

  KeptRow-set :
      (p : Product) (priv : Text) (ws ak : Option Text)
      → KeptText rt mode p.private_key_pem priv
      → KeptField rt mode p.stripe_webhook_secret ws
      → KeptField rt mode p.stripe_api_key ak
      → KeptRow rt mode p
          (record p { private_key_pem = priv; stripe_webhook_secret = ws; stripe_api_key = ak })
  KeptRow-set p priv ws ak a b c = record { same = refl; priv = a; hook = b; api = c }

  -- the row, by whether something changed
  pub rewritten-KeptRow :
      (p q : Product) (priv : Text) (ws ak : Option Text) (a b c changed : Bool)
      → Done rt mode p.private_key_pem priv a
      → DoneField rt mode p.stripe_webhook_secret ws b
      → DoneField rt mode p.stripe_api_key ak c
      → rewritten p (ok (priv, a)) (ok (ws, b)) (ok (ak, c)) ≡ ok (q, changed)
      → KeptRow rt mode p q
  unfolding DoneField Done
  rewritten-KeptRow p q priv ws ak true b c changed h1 h2 h3 e =
      subst (KeptRow rt mode p) (ok-row e) (KeptRow-set p priv ws ak h1.0 h2.0 h3.0)
  rewritten-KeptRow p q priv ws ak false true c changed h1 h2 h3 e =
      subst (KeptRow rt mode p) (ok-row e) (KeptRow-set p priv ws ak h1.0 h2.0 h3.0)
  rewritten-KeptRow p q priv ws ak false false true changed h1 h2 h3 e =
      subst (KeptRow rt mode p) (ok-row e) (KeptRow-set p priv ws ak h1.0 h2.0 h3.0)
  rewritten-KeptRow p q priv ws ak false false false changed h1 h2 h3 e =
      subst (KeptRow rt mode p) (ok-row e) (record {
        same = refl;
        priv = subst (KeptText rt mode p.private_key_pem) (h1.1 refl) h1.0;
        hook = subst (KeptField rt mode p.stripe_webhook_secret) (h2.1 refl) h2.0;
        api = subst (KeptField rt mode p.stripe_api_key) (h3.1 refl) h3.0;
      })
