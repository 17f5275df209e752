-- ===== src/Session/Monad.antt =====
-- The session's state, and the exceptions and effects of the code that runs in it.
use yg_license_server.Base.{ℕ, String, Bool, true, false, Option, none, some, List}
use yg_license_server.Text.{Text}
use yg_license_server.Model.{RowId, Db, Event}

-- The exceptions: those of app/services/errors.py and check.py with their arguments, an HTTP error,
-- the database's IntegrityError, LoginRequired, Python's RuntimeError, ValueError,
-- AttributeError, OverflowError and TypeError, and the InvalidURL of httpx.
pub data Error : Type 0 where
  not_found conflict validation_failed unsafe : String → Error
  rejected : String → ℕ → Error
  http_error : ℕ → String → Error
  integrity_error runtime_error value_error attribute_error login_required : Error
  overflow_error type_error url_error : Error

pub data Result {ℓ} (A : Type ℓ) : Type ℓ where
  ok : A → Result A
  err : Error → Result A

-- `send_license_email(to, key, product_name)`
pub record Mail : Type 0 where
  pub to : Text
  pub key : Text
  pub product_name : Text

pub record Session : Type 0 where
  pub store : Db
  pub work : Db
  pub added : List Event
  pub next_id : RowId
  pub draws : ℕ
  pub mails : List Mail
  -- the deliveries that a background task will attempt
  pub tasks : List RowId

abbrev pub Exec : Type 0 → Type 0
Exec A = Session → Result A × Session

module _ {A : Type 0} where
  abbrev pub pure : A → Exec A
  pure a s = (ok a, s)

  abbrev pub raise : Error → Exec A
  raise e s = (err e, s)

  abbrev pub gets : (Session → A) → Exec A
  gets f s = (ok (f s), s)

  abbrev pub lift : Result A → Exec A
  lift r s = (r, s)

  abbrev pub or_raise : Option A → Error → Exec A
  or_raise none e = raise e
  or_raise (some a) e = pure a

infixl 5 ◌>>=◌ ◌>>◌
abbrev pub ◌>>=◌ : {A B : Type 0} → Exec A → (A → Exec B) → Exec B
◌>>=◌ m f s = let (r, s') = m s in elim r [ ok a ↦ f a s' | err e ↦ (err e, s') ]

abbrev pub ◌>>◌ : {A B : Type 0} → Exec A → Exec B → Exec B
m >> k = m >>= λ _. k

-- `if test: raise e`
abbrev pub raise_if : Bool → Error → Exec Unit
raise_if true e = raise e
raise_if false e = pure tt

-- `if test: m`
abbrev pub when : Bool → Exec Unit → Exec Unit
when true m = m
when false m = pure tt
