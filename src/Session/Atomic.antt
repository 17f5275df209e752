-- ===== src/Session/Atomic.antt =====
-- Actions that leave the committed state alone, and actions that do so where they end in an error.
use yg_license_server.Base.{◌≡◌, arith, Bool, true, false, Option, if◌then◌else◌}
use yg_license_server.Text.{Text}
use yg_license_server.Model.{RowId, Db, License, EventType, Payload}
use yg_license_server.Runtime.{Runtime}
use yg_license_server.Session.{
  Session, Exec, Error, Result, ok, err, pure, ◌>>=◌, ◌>>◌, fresh_id, fresh_token, add_event,
  commit, save_license,
}
use yg_license_server.Session.Hoare.{Ensures, Always}

-- from a session whose committed state is `x`, an error leaves it so
pub record Atomic {A : Type 0} (x : Db) (m : Exec A) : Type 0 where
  pub at : (s : Session) → s.store ≡ x → (e : Error) → (m s).0 ≡ err e → (m s).1.store ≡ x

module _ (x : Db) where
  abbrev pub Uncommitted : {A : Type 0} → Exec A → Type 0
  Uncommitted = Ensures (λ s. s.store ≡ x) Always

  pub Uncommitted-fresh_id : Uncommitted fresh_id
  unfolding fresh_id
  Uncommitted-fresh_id = record { at = λ s h. (h, tt) }

  pub Uncommitted-fresh_token : (rt : Runtime) → Uncommitted (fresh_token rt)
  unfolding fresh_token
  Uncommitted-fresh_token rt = record { at = λ s h. (h, tt) }

  pub Uncommitted-add_event :
      (rt : Runtime) (l p : Option RowId) (type : EventType) (payload : Payload)
      (note : Option Text)
      → Uncommitted (add_event rt l p type payload note)
  unfolding add_event
  Uncommitted-add_event rt l p type payload memo = record { at = λ s h. (h, tt) }

  pub Uncommitted-save_license : (lic : License) → Uncommitted (save_license lic)
  unfolding save_license
  Uncommitted-save_license lic = record { at = λ s h. (h, tt) }

  pub Uncommitted-test :
      {A : Type 0} (b : Bool) (m k : Exec A)
      → Uncommitted m
      → Uncommitted k
      → Uncommitted (if b then m else k)
  Uncommitted-test true m k hm hk = hm
  Uncommitted-test false m k hm hk = hk

  module _ {A B : Type 0} where
    Atomic-continue :
        (r : Result A) (t : Session) (f : A → Exec B)
        → t.store ≡ x
        → ((a : A) → Atomic x (f a))
        → (e : Error) → (◌>>=◌ (λ _. (r, t)) f t).0 ≡ err e
        → (◌>>=◌ (λ _. (r, t)) f t).1.store ≡ x
    Atomic-continue (ok a) t f h next e failed = (next a).at t h e failed
    Atomic-continue (err e') t f h next e failed = h

    -- an action that commits nothing, and then an atomic one
    pub Atomic-bind :
        (m : Exec A) (f : A → Exec B)
        → Uncommitted m
        → ((a : A) → Atomic x (f a))
        → Atomic x (m >>= f)
    Atomic-bind m f first next = record {
      at = λ s h e failed. Atomic-continue (m s).0 (m s).1 f (first.at s h).0 next e failed;
    }

  -- a commit at the end raises nothing
  pub Atomic-commit : {A : Type 0} (a : A) → Atomic x (commit >> pure a)
  unfolding commit
  Atomic-commit a = record { at = λ s h e failed. ground arith }
