-- ===== src/Stripe/Went.antt =====
-- The ways that an event behind the signature goes.
use yg_license_server.Base.{
  ℕ, ◌⊎◌, ◌≡◌, refl, ap, ◌∙◌, Bool, true, false, Option, none, some, [], ◌∷◌, is_some, find, inl,
  inr, arith,
}
use yg_license_server.Text.{Text, truthy}
use yg_license_server.Model.{Product}
use yg_license_server.Runtime.{Runtime, StripeEvent}
use yg_license_server.Session.{Session, Error, Result, ok, err, pure, ◌>>◌, flush, commit, rollback}
use yg_license_server.Stripe.{
  StripeReply, process_once, process_by_id, process_if_new, claim_and_process, process, claim,
  handle_event, has_id, duplicate_reply, first_reply,
}
use yg_license_server.Stripe.Frame.{rest_of, Still-handle_event}
use yg_license_server.Stripe.Accept.{bind-cases}

module _ (rt : Runtime) (product : Product) (event : StripeEvent) where
  -- the session behind the handler
  abbrev pub handled : Session → Session
  handled t = (handle_event rt product event t).1

  pub handled-rest : (t : Session) → rest_of (handled t) ≡ rest_of t
  handled-rest t = ((Still-handle_event (rest_of t) rt product event).at t refl).0

  pub process-cases :
      (t : Session)
      → ((e : Error) × (process rt product event t ≡ (err e, handled t)))
        ⊎ (process rt product event t ≡ (ok (first_reply product event), (commit (handled t)).1))
  unfolding process commit
  process-cases t =
      elim (bind-cases (handle_event rt product event)
        (λ _. commit >> pure (first_reply product event)) t) [
          | inl (e, f) ↦ inl (e, f)
          | inr (u, f) ↦ inr f
        ]

  pub process-atomic :
      (t : Session) (e : Error)
      → (process rt product event t).0 ≡ err e
      → (process rt product event t).1.store ≡ t.store
  process-atomic t e failed = elim (process-cases t) [
    | inl (e', f) ↦
        ap (λ (r : Result StripeReply × Session). r.1.store) f ∙ ap (λ r. r.0) (handled-rest t)
    | inr f ↦ ground arith
  ]

  -- the state in which the handler of a new event runs
  abbrev pub claimed : Text → Session → Session
  claimed id s = (flush (claim rt product id event.type s).1).1

  pub claimed-store : (id : Text) (s : Session) → (claimed id s).store ≡ s.store
  unfolding flush claim
  claimed-store id s = refl

  -- the four ways that an event behind the signature goes
  pub data Went (lost_race : Bool) (s : Session) : Type 0 where
    unclaimed :
        truthy event.id ≡ false
        → process_once rt product event lost_race s ≡ process rt product event s
        → Went lost_race s
    seen :
        (id : Text)
        → event.id ≡ some id
        → is_some (find (has_id id) s.work.processed) ≡ true
        → process_once rt product event lost_race s ≡ (ok (duplicate_reply product event), s)
        → Went lost_race s
    lost :
        (id : Text)
        → event.id ≡ some id
        → find (has_id id) s.work.processed ≡ none
        → lost_race ≡ true
        → process_once rt product event lost_race s
          ≡ (ok (duplicate_reply product event), rollback s)
        → Went lost_race s
    new :
        (id : Text)
        → event.id ≡ some id
        → find (has_id id) s.work.processed ≡ none
        → process_once rt product event lost_race s ≡ process rt product event (claimed id s)
        → Went lost_race s

  went-id :
      (lost_race already : Bool) (s : Session) (c : ℕ) (id : Text)
      → event.id ≡ some (c ∷ id)
      → is_some (find (has_id (c ∷ id)) s.work.processed) ≡ already
      → process_once rt product event lost_race s
        ≡ process_if_new rt product event (c ∷ id) lost_race already s
      → Went lost_race s
  unfolding process_if_new claim_and_process
  went-id lost_race true s c id e h f = Went.seen (c ∷ id) e h f
  went-id true false s c id e h f = Went.lost (c ∷ id) e (ground arith) refl f
  went-id false false s c id e h f = Went.new (c ∷ id) e (ground arith) f

  went-by :
      (lost_race : Bool) (s : Session) (o : Option Text)
      → event.id ≡ o
      → process_once rt product event lost_race s ≡ process_by_id rt product event lost_race o s
      → Went lost_race s
  unfolding process_by_id
  went-by lost_race s none e f = Went.unclaimed (ap truthy e) f
  went-by lost_race s (some []) e f = Went.unclaimed (ap truthy e) f
  went-by lost_race s (some (c ∷ id)) e f =
      went-id lost_race (is_some (find (has_id (c ∷ id)) s.work.processed)) s c id e refl f

  pub went : (lost_race : Bool) (s : Session) → Went lost_race s
  unfolding process_once
  went lost_race s = went-by lost_race s event.id refl refl
