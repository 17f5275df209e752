-- ===== src/Products/Ends.antt =====
-- Actions that end with a valid table of products, from sessions with a free slug.
use yg_license_server.Base.{◌≡◌, refl, Option, none, some, is_some}
use yg_license_server.Text.{Text}
use yg_license_server.Model.{Product}
use yg_license_server.Session.{Session, Exec, conflict, Result, ok, err, raise_if, ◌>>=◌}
use yg_license_server.Session.Hoare.{Ensures, OnOk}
use yg_license_server.Products.{ensure_free, with_slug}
use yg_license_server.Products.Keep.{OnProducts, Keeps}
use yg_license_server.Products.Table.{IsValidTable}

-- from a session with `P`, an action ends with a valid table, also by an exception
pub record Ends {A : Type 0} (P : Session → Type 0) (m : Exec A) : Type 0 where
  pub at : (s : Session) → P s → OnProducts IsValidTable (m s).1

abbrev pub Sound : Session → Type 0
Sound = OnProducts IsValidTable

-- the same, with no product that has the slug
abbrev pub Free : Text → Session → Type 0
Free slug s = Sound s × (with_slug slug s ≡ none)

pub Keeps-Ends : {A : Type 0} (m : Exec A) → Keeps IsValidTable m → Ends Sound m
Keeps-Ends m h = record { at = λ s v. (h.at s v).0 }

module _ {P : Session → Type 0} (sound : (s : Session) → P s → Sound s) where
  module _ {A B : Type 0} {Q : A → Type 0} where
    Ends-continue :
        (r : Result A) (t : Session) (f : A → Exec B)
        → P t
        → OnOk Q r
        → ((a : A) → Q a → Ends P (f a))
        → Sound (◌>>=◌ (λ _. (r, t)) f t).1
    Ends-continue (ok a) t f p q next = (next a q).at t p
    Ends-continue (err e) t f p q next = sound t p

    pub Ends-bind :
        (m : Exec A) (f : A → Exec B)
        → Ensures P Q m
        → ((a : A) → Q a → Ends P (f a))
        → Ends P (m >>= f)
    Ends-bind m f first next = record {
      at = λ s h. let (p, q) = first.at s h in Ends-continue (m s).0 (m s).1 f p q next;
    }

pub Free-Sound : (slug : Text) (s : Session) → Free slug s → Sound s
Free-Sound slug s h = h.0

-- a slug that is looked up and found free
pub Ends-ensure_free :
    {A : Type 0} (slug : Text) (k : Unit → Exec A)
    → Ends (Free slug) (k tt)
    → Ends Sound (ensure_free slug >>= k)
unfolding ensure_free
Ends-ensure_free slug k next = record { at = λ s h. looked s h (with_slug slug s) refl }
  where
    looked :
        (s : Session)
        → Sound s
        → (found : Option Product) → with_slug slug s ≡ found
        → Sound ((raise_if (is_some found) (conflict "slug already exists") >>= k) s).1
    looked s h none free = next.at s (h, free)
    looked s h (some p) taken = h
