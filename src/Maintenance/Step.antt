-- ===== src/Maintenance/Step.antt =====
-- What app/scripts/send_expiry_warnings.py leaves of one license.
use yg_license_server.Base.{
  ℕ, ◌-◌, ◌≡◌, inl, inr, refl, sym, ap, ◌∙◌, subst, arith, Bool, true, false, Option, none, some,
  [], ◌∷◌, ◌++◌, any, map, if◌then◌else◌,
}
use yg_license_server.Text.{Text, codes, text_eq_refl, nonempty}
use yg_license_server.Model.{
  Event, EventType, Payload, License, Customer, Product, RowId, autofill_subject,
}
use yg_license_server.Runtime.{Runtime}
use yg_license_server.Session.{
  Session, Result, ok, err, pure, add_event, commit, product_of, customer_of,
}
use yg_license_server.Maintenance.{
  type_text, is_warning, already_warned, record_warning, warn_about, send_warning, warn_email,
  warn_unless, warn_at,
}
use yg_license_server.Maintenance.Later.{has_email, IsDone, Later, any-append_right, Later-self}

module _ (rt : Runtime) where
  module _ (sends : (to key name : Text) → rt.warning_sent to key name ≡ true) where
    -- the event that a warning leaves is one
    is_warning-added :
        (lic : License) (n : ℕ) (id : RowId) (at : _) (payload : Payload) (memo : Option Text)
        → is_warning rt lic.id n (
            autofill_subject (record {
              id = id;
              license_id = some lic.id;
              product_id = some lic.product_id;
              subject_kind = none;
              subject_id = none;
              type = EventType.expiry_warning n;
              payload = payload;
              created_at = at;
              note = memo;
            }))
          ≡ true
    unfolding is_warning autofill_subject
    is_warning-added lic n id at payload memo =
        ground (arith, text_eq_refl (type_text rt (EventType.expiry_warning n)))

    -- the event, before its insertion
    abbrev warning_event : License → ℕ → RowId → Event
    warning_event lic n id = record {
      id = id;
      license_id = some lic.id;
      product_id = some lic.product_id;
      subject_kind = none;
      subject_id = none;
      type = EventType.expiry_warning n;
      payload = Payload.warned (lic.valid_until - rt.now) n;
      created_at = rt.now;
      note = some (codes "auto/expiry-warning");
    }

    -- what one license leaves where nothing is raised
    unfoldable pub Stepped : License → Option ℕ → Session → Result (Unit {0}) × Session → Type 0
    Stepped lic o s (ok u, t) = Later s t × IsDone rt lic o t
    Stepped lic o s (err e, t) = Unit

    record_warning-Stepped :
        (lic : License) (n : ℕ) (b : Bool) (s : Session)
        → b ≡ true
        → s.store ≡ s.work
        → s.added ≡ []
        → Stepped lic (some n) s (record_warning rt lic n b s)
    unfolding Stepped record_warning add_event commit already_warned
    record_warning-Stepped lic n false s e clean flushed_all = cc
    record_warning-Stepped lic n true s e clean flushed_all =
        let new = autofill_subject (warning_event lic n s.next_id) in
        let same : (record_warning rt lic n true s).1.work.events ≡ s.work.events ++ new ∷ [] =
          ap (λ l. s.work.events ++ map autofill_subject (l ++ warning_event lic n s.next_id ∷ []))
            flushed_all in
        (
          record {
            clean = refl;
            flushed_all = refl;
            licenses = refl;
            customers = refl;
            more = new ∷ [];
            events = same;
          },
          inl (
              subst (λ es. any (is_warning rt lic.id n) es ≡ true) (sym same)
                (any-append_right (is_warning rt lic.id n) s.work.events new (
                  is_warning-added lic n s.next_id rt.now
                    (Payload.warned (lic.valid_until - rt.now) n)
                    (some (codes "auto/expiry-warning"))))),
        )

    warn_about-Stepped :
        (lic : License) (n : ℕ) (email : Text) (p : Option Product) (s : Session)
        → s.store ≡ s.work
        → s.added ≡ []
        → Stepped lic (some n) s (warn_about rt lic n email p s)
    unfolding Stepped
    warn_about-Stepped lic n email none s clean flushed_all = tt
    warn_about-Stepped lic n email (some p) s clean flushed_all =
        record_warning-Stepped lic n (rt.warning_sent email lic.key p.name) s
          (sends email lic.key p.name) clean flushed_all

    warn_email-Stepped :
        (lic : License) (n : ℕ) (c : Option Customer) (s : Session)
        → customer_of lic s ≡ c
        → s.store ≡ s.work
        → s.added ≡ []
        → Stepped lic (some n) s (warn_email rt false lic n c s)
    unfolding Stepped send_warning
    warn_email-Stepped lic n none s e clean flushed_all =
        (Later-self s clean flushed_all, inr (ap has_email e))
    warn_email-Stepped lic n (some c) s e clean flushed_all = mailed (nonempty c.email) refl
      where
        mailed :
            (b : Bool)
            → nonempty c.email ≡ b
            → Stepped lic
                (some n)
                s
                ((if b then send_warning rt false lic n c.email else pure tt) s)
        mailed true h = warn_about-Stepped lic n c.email (product_of lic s) s clean flushed_all
        mailed false h = (Later-self s clean flushed_all, inr (ap has_email e ∙ h))

    pub warn_at-Stepped :
        (lic : License) (o : Option ℕ) (s : Session)
        → s.store ≡ s.work
        → s.added ≡ []
        → Stepped lic o s (warn_at rt false lic o s)
    unfolding Stepped
    warn_at-Stepped lic none s clean flushed_all = (Later-self s clean flushed_all, tt)
    warn_at-Stepped lic (some n) s clean flushed_all = unless (already_warned rt lic.id n s) refl
      where
        unless :
            (b : Bool)
            → already_warned rt lic.id n s ≡ b
            → Stepped lic (some n) s (warn_unless rt false lic n b s)
        unless true h = (Later-self s clean flushed_all, inl h)
        unless false h = warn_email-Stepped lic n (customer_of lic s) s refl clean flushed_all
