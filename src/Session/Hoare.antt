-- ===== src/Session/Hoare.antt =====
-- What an action keeps true of its session, and what it ensures of its result. The rules follow the
-- ways to build an action.
use yg_license_server.Base.{◌≡◌, refl, Bool, true, false, Option, none, some}
use yg_license_server.Session.Monad.{
  Error, Result, ok, err, Session, Exec, pure, raise, gets, lift, or_raise, ◌>>=◌, raise_if,
}

-- `Q` of the result, if there is one
abbrev pub OnOk : {A : Type 0} → (A → Type 0) → Result A → Type 0
OnOk Q (ok a) = Q a
OnOk Q (err e) = Unit

-- From a session with `P`, `m` ends in one with `P`, also by an exception, and a result has `Q`.
pub record Ensures {A : Type 0} (P : Session → Type 0) (Q : A → Type 0) (m : Exec A) : Type 0 where
  pub at : (s : Session) → P s → P (m s).1 × OnOk Q (m s).0

abbrev pub Always : {A : Type 0} → A → Type 0
Always a = Unit

pub OnOk-Always : {A : Type 0} (r : Result A) → OnOk Always r
OnOk-Always (ok a) = tt
OnOk-Always (err e) = tt

module _ {P : Session → Type 0} {A : Type 0} where
  pub Ensures-pure : {Q : A → Type 0} (a : A) → Q a → Ensures P Q (pure a)
  Ensures-pure a q = record { at = λ s h. (h, q) }

  pub Ensures-raise : {Q : A → Type 0} (e : Error) → Ensures P Q (raise e)
  Ensures-raise e = record { at = λ s h. (h, tt) }

  pub Ensures-gets : (f : Session → A) → Ensures P Always (gets f)
  Ensures-gets f = record { at = λ s h. (h, tt) }

  pub Ensures-lift : (r : Result A) → Ensures P Always (lift r)
  Ensures-lift r = record { at = λ s h. (h, OnOk-Always r) }

  pub Ensures-or_raise : (o : Option A) (e : Error) → Ensures P (λ a. o ≡ some a) (or_raise o e)
  Ensures-or_raise none e = Ensures-raise e
  Ensures-or_raise (some a) e = Ensures-pure a refl

pub Ensures-raise_if :
    {P : Session → Type 0} (b : Bool) (e : Error) → Ensures P (λ _. b ≡ false) (raise_if b e)
Ensures-raise_if true e = Ensures-raise e
Ensures-raise_if false e = Ensures-pure tt refl

module _ {P : Session → Type 0} {A B : Type 0} {Q : A → Type 0} {R : B → Type 0} where
  continue :
      (r : Result A) (t : Session) (f : A → Exec B)
      → P t
      → OnOk Q r
      → ((a : A) → Q a → Ensures P R (f a))
      → P (◌>>=◌ (λ _. (r, t)) f t).1 × OnOk R (◌>>=◌ (λ _. (r, t)) f t).0
  continue (ok a) t f p q next = (next a q).at t p
  continue (err e) t f p q next = (p, tt)

  pub Ensures-bind :
      (m : Exec A) (f : A → Exec B)
      → Ensures P Q m
      → ((a : A) → Q a → Ensures P R (f a))
      → Ensures P R (m >>= f)
  Ensures-bind m f first next = record {
    at = λ s h. let (p, q) = first.at s h in continue (m s).0 (m s).1 f p q next;
  }
