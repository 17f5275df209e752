-- ===== src/Maintenance/Later.antt =====
-- Passes of app/scripts/send_expiry_warnings.py over licenses for which nothing is left to do.
use yg_license_server.Base.{
  ℕ, ◌≡◌, ◌⊎◌, inl, inr, refl, sym, ap, ◌∙◌, subst, arith, Bool, true, false, Option, none, some,
  List, [], ◌∷◌, ◌++◌, any, if◌then◌else◌,
}
use yg_license_server.Text.{nonempty}
use yg_license_server.Model.{Event, License, Customer}
use yg_license_server.Runtime.{Runtime}
use yg_license_server.Session.{Session, ok, pure, customer_of}
use yg_license_server.Maintenance.{
  is_warning, already_warned, send_warning, warn_email, warn_unless, warn_at,
}

abbrev pub has_email : Option Customer → Bool
has_email none = false
has_email (some c) = nonempty c.email

-- nothing is left to do for the license
abbrev pub IsDone : Runtime → License → Option ℕ → Session → Type 0
IsDone rt lic none s = Unit
IsDone rt lic (some n) s =
    (already_warned rt lic.id n s ≡ true) ⊎ (has_email (customer_of lic s) ≡ false)

-- nothing uncommitted, the other tables as before, and events only added
pub record Later (s t : Session) : Type 0 where
  pub clean : t.store ≡ t.work
  pub flushed_all : t.added ≡ []
  pub licenses : t.work.licenses ≡ s.work.licenses
  pub customers : t.work.customers ≡ s.work.customers
  pub more : List Event
  pub events : t.work.events ≡ s.work.events ++ more

any-append_left :
    (p : Event → Bool) (xs ys : List Event) → any p xs ≡ true → any p (xs ++ ys) ≡ true
any-append_left p [] ys h = cc
any-append_left p (x ∷ xs) ys h = ground (arith, any-append_left p xs ys)

pub any-append_right :
    (p : Event → Bool) (xs : List Event) (y : Event) → p y ≡ true → any p (xs ++ y ∷ []) ≡ true
any-append_right p [] y h = ground (arith, h)
any-append_right p (x ∷ xs) y h = ground (arith, any-append_right p xs y h)

append_nil : (xs : List Event) → xs ++ [] ≡ xs
append_nil [] = refl
append_nil (x ∷ xs) = ap (λ l. x ∷ l) (append_nil xs)

append_assoc : (xs ys zs : List Event) → (xs ++ ys) ++ zs ≡ xs ++ (ys ++ zs)
append_assoc [] ys zs = refl
append_assoc (x ∷ xs) ys zs = ap (λ l. x ∷ l) (append_assoc xs ys zs)

pub Later-self : (s : Session) → s.store ≡ s.work → s.added ≡ [] → Later s s
Later-self s h g = record {
  clean = h;
  flushed_all = g;
  licenses = refl;
  customers = refl;
  more = [];
  events = sym (append_nil s.work.events);
}

pub Later-trans : (s t u : Session) → Later s t → Later t u → Later s u
Later-trans s t u a b = record {
  clean = b.clean;
  flushed_all = b.flushed_all;
  licenses = b.licenses ∙ a.licenses;
  customers = b.customers ∙ a.customers;
  more = a.more ++ b.more;
  events = b.events ∙ ap (λ l. l ++ b.more) a.events ∙ append_assoc s.work.events a.more b.more;
}

module _ (rt : Runtime) where
  pub Later-IsDone :
      (lic : License) (o : Option ℕ) (s t : Session)
      → Later s t
      → IsDone rt lic o s
      → IsDone rt lic o t
  unfolding already_warned
  Later-IsDone lic none s t later h = tt
  Later-IsDone lic (some n) s t later (inl h) = inl (
      subst (λ es. any (is_warning rt lic.id n) es ≡ true) (sym later.events)
        (any-append_left (is_warning rt lic.id n) s.work.events later.more h))
  Later-IsDone lic (some n) s t later (inr h) = inr (
      subst
        (λ cs.
          has_email (customer_of lic (record s { work = record (s.work) { customers = cs } }))
          ≡ false)
        (sym later.customers) h)

  -- a license for which nothing is left is passed over
  warn_email-none :
      (lic : License) (n : ℕ) (c : Option Customer) (s : Session)
      → has_email c ≡ false
      → warn_email rt false lic n c s ≡ (ok tt, s)
  warn_email-none lic n none s h = refl
  warn_email-none lic n (some c) s h =
      ap (λ b. (if b then send_warning rt false lic n c.email else pure tt) s) h

  warn_unless-none :
      (lic : License) (n : ℕ) (b : Bool) (s : Session)
      → has_email (customer_of lic s) ≡ false
      → warn_unless rt false lic n b s ≡ (ok tt, s)
  warn_unless-none lic n true s h = refl
  warn_unless-none lic n false s h = warn_email-none lic n (customer_of lic s) s h

  pub warn_at-IsDone :
      (lic : License) (o : Option ℕ) (s : Session)
      → IsDone rt lic o s
      → warn_at rt false lic o s ≡ (ok tt, s)
  warn_at-IsDone lic none s h = refl
  warn_at-IsDone lic (some n) s (inl h) = ap (λ b. warn_unless rt false lic n b s) h
  warn_at-IsDone lic (some n) s (inr h) = warn_unless-none lic n (already_warned rt lic.id n s) s h
