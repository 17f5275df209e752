-- ===== src/Stripe/Once.antt =====
-- An event of Stripe takes effect once, and a post that fails changes nothing.
use yg_license_server.Base.{
  ◌≡◌, refl, sym, ap, subst, ◌∙◌, Bool, true, false, Option, none, some, List, [], ◌∷◌, ◌++◌,
  is_some, find, inl, inr, arith, find-append_none,
}
use yg_license_server.Text.{Text, truthy, text_eq, text_eq_refl}
use yg_license_server.Model.{Time, Product, ProcessedStripeEvent}
use yg_license_server.Runtime.{Runtime, StripeEvent}
use yg_license_server.Keystore.{decrypt_secret}
use yg_license_server.Session.{Session, Error, ok, err, flush, commit, rollback}
use yg_license_server.Stripe.{
  StripePost, StripeReply, stripe_webhook, process_once, claim, has_id, duplicate_reply,
  first_reply,
}
use yg_license_server.Stripe.Accept.{Accepted, Accepted-run, Accepted-or_Refused}
use yg_license_server.Stripe.Went.{
  handled, handled-rest, process-cases, claimed, claimed-store, Went, went, process-atomic,
}

module _ (rt : Runtime) (product : Product) (event : StripeEvent) where
  process_once-atomic :
      (lost_race : Bool) (s : Session) (e : Error)
      → (process_once rt product event lost_race s).0 ≡ err e
      → (process_once rt product event lost_race s).1.store ≡ s.store
  process_once-atomic lost_race s e failed = elim (went rt product event lost_race s) [
    | Went.unclaimed h f ↦
        subst (λ r. r.1.store ≡ s.store) (sym f)
          (process-atomic rt product event s e (ap (λ r. r.0) (sym f) ∙ failed))
    | Went.seen id i h f ↦ ap (λ r. r.1.store) f
    | Went.lost id' i' n l f ↦ ground arith
    | Went.new id i n f ↦
        subst (λ r. r.1.store ≡ s.store) (sym f)
          (process-atomic rt product event (claimed rt product event id s) e
              (ap (λ r. r.0) (sym f) ∙ failed)
            ∙ claimed-store rt product event id s)
  ]

-- Where a post is answered by an error, the database is as it was: no status was changed, no license
-- extended or created, and the event's id is not claimed, so Stripe's next delivery is processed.
pub stripe_webhook-atomic :
    (rt : Runtime) (post : StripePost) (s : Session) (e : Error)
    → (stripe_webhook rt post s).0 ≡ err e
    → (stripe_webhook rt post s).1.store ≡ s.store
stripe_webhook-atomic rt post s e failed = elim (Accepted-or_Refused rt post s) [
  | inr (e', f) ↦ ap (λ r. r.1.store) f
  | inl a ↦
      let f = Accepted-run rt post s a in
      subst (λ r. r.1.store ≡ s.store) (sym f)
        (process_once-atomic rt a.product a.event post.lost_race s e
          (ap (λ r. r.0) (sym f) ∙ failed))
]

-- the session behind a post, whatever answered it
abbrev pub after : Runtime → StripePost → Session → Session
after rt post s = rollback (stripe_webhook rt post s).1

-- the id in the table, and the products as before
abbrev IsClaimed : Text → Session → Session → Type 0
IsClaimed id s t =
    (is_some (find (has_id id) t.work.processed) ≡ true) × (t.work.products ≡ s.work.products)

claim-found :
    (id : Text) (rows : List ProcessedStripeEvent) (row : ProcessedStripeEvent)
    → row.id ≡ id
    → find (has_id id) rows ≡ none
    → is_some (find (has_id id) (rows ++ row ∷ [])) ≡ true
claim-found id rows row e n =
    rw (find-append_none (has_id id) rows (row ∷ []) n, e, text_eq_refl id) refl

module _ (rt : Runtime) (product : Product) (event : StripeEvent) where
  claimed-IsClaimed :
      (id : Text) (s : Session)
      → find (has_id id) s.work.processed ≡ none
      → IsClaimed id s
          (rollback (commit (handled rt product event (claimed rt product event id s))).1)
  unfolding flush claim commit rollback
  claimed-IsClaimed id s n =
      let same = handled-rest rt product event (claimed rt product event id s) in
      (
        subst (λ rows. is_some (find (has_id id) rows) ≡ true) (sym (ap (λ r. r.4) same))
            (claim-found id s.work.processed
              (record {
                id = id;
                product_id = some product.id;
                type = event.type;
                processed_at = rt.now;
              })
              refl n),
        ap (λ r. r.1) same,
      )

  -- Behind an event with an id that was answered without an error, its id is in the table.
  process_once-IsClaimed :
      (s : Session) (reply : StripeReply)
      → s.work ≡ s.store
      → truthy event.id ≡ true
      → (process_once rt product event false s).0 ≡ ok reply
      → (id : Text) × (event.id ≡ some id)
        × (reply ≡ record (first_reply product event) { duplicate = reply.duplicate })
        × IsClaimed id s (rollback (process_once rt product event false s).1)
  unfolding rollback
  process_once-IsClaimed s reply clean h done = elim (went rt product event false s) [
    | Went.unclaimed e f ↦ ground arith
    | Went.lost id' i' n l f ↦ ground arith
    | Went.seen id i found f ↦ (
      id,
      i,
      ground (arith, f, done),
      subst (λ r. IsClaimed id s (rollback r.1)) (sym f)
          (subst
            (λ db.
              (is_some (find (has_id id) db.processed) ≡ true) × (db.products ≡ s.work.products))
            clean (found, refl)),
    )
    | Went.new id i n f ↦ elim (process-cases rt product event (claimed rt product event id s)) [
      | inl (e, g) ↦ ground (arith, f, g, done)
      | inr g ↦ (
        id,
        i,
        ground (arith, f, g, done),
        subst (λ r. IsClaimed id s (rollback r.1)) (sym (f ∙ g)) (claimed-IsClaimed id s n),
      )
    ]
  ]

  -- An event whose id is in the table is answered as a duplicate.
  process_once-duplicate :
      (lost_race : Bool) (s : Session) (id : Text)
      → event.id ≡ some id
      → truthy event.id ≡ true
      → is_some (find (has_id id) s.work.processed) ≡ true
      → process_once rt product event lost_race s ≡ (ok (duplicate_reply product event), s)
  process_once-duplicate lost_race s id i h found = elim (went rt product event lost_race s) [
    | Went.unclaimed e f ↦ ground arith
    | Went.lost id' i' n l f ↦ ground arith
    | Went.seen id' i' found' f ↦ f
    | Went.new id' i' n f ↦ ground arith
  ]

-- the same process at another time
abbrev pub at_time : Runtime → Time → Runtime
at_time rt t = record rt { now = t }

-- A second post carries the event of a first, by a signature that is accepted at its own time, and the
-- event has an id.
abbrev pub Redelivered : Runtime → Time → StripePost → StripePost → Type 0
Redelivered rt t post post' =
    (secret : Option Text) (event : StripeEvent)
    → rt.construct_event rt.now post.payload post.signature secret ≡ some event
    → (truthy event.id ≡ true)
      × (rt.construct_event t post'.payload post'.signature secret ≡ some event)

again :
    (rt : Runtime) (t : Time) (post post' : StripePost) (s : Session) (a : Accepted rt post s)
    (s' : Session)
    → post'.slug ≡ post.slug
    → rt.construct_event t post'.payload post'.signature a.secret ≡ some a.event
    → s'.work.products ≡ s.work.products
    → Accepted (at_time rt t) post' s'
unfolding decrypt_secret
again rt t post post' s a s' slug signed same = record {
  product = a.product;
  secret = a.secret;
  event = a.event;
  found =
      ap (λ rows. find (λ (p : Product). text_eq p.slug post'.slug) rows) same
      ∙ ap (λ slug. find (λ (p : Product). text_eq p.slug slug) s.work.products) slug
      ∙ a.found;
  configured = a.configured;
  opened = a.opened;
  signed = signed;
}

after-run :
    (rt : Runtime) (post : StripePost) (s : Session) (a : Accepted rt post s)
    → post.lost_race ≡ false
    → after rt post s ≡ rollback (process_once rt a.product a.event false s).1
after-run rt post s a alone =
    ap (λ r. rollback r.1) (Accepted-run rt post s a)
    ∙ ap (λ race. rollback (process_once rt a.product a.event race s).1) alone

-- In a fresh session, a post whose event has an id, that is answered without an error and loses no race,
-- is answered the same way by a later post to the same product, but as a duplicate, if that one carries
-- the same event with a signature that is accepted at its own time; and the later post changes nothing:
-- no license is extended, created or marked again.
pub stripe_webhook-once :
    (rt : Runtime) (t : Time) (post post' : StripePost) (s : Session) (reply : StripeReply)
    → s.work ≡ s.store
    → post.lost_race ≡ false
    → post'.slug ≡ post.slug
    → Redelivered rt t post post'
    → (stripe_webhook rt post s).0 ≡ ok reply
    → stripe_webhook (at_time rt t) post' (after rt post s)
      ≡ (ok (record reply { duplicate = true }), after rt post s)
unfolding again
stripe_webhook-once rt t post post' s reply clean alone slug redelivered done =
    elim (Accepted-or_Refused rt post s) [
      | inr (e, f) ↦ ground arith
      | inl a ↦
          let (h, signed) = redelivered a.secret a.event a.signed in
          let run = Accepted-run rt post s a in
          let (id, i, r, (found, same)) =
            process_once-IsClaimed rt a.product a.event s reply clean h
              (ground (arith, run, alone, done)) in
          let s' = after rt post s in
          let claimed' = subst (IsClaimed id s) (sym (after-run rt post s a alone)) (found, same) in
          let b = again rt t post post' s a s' slug signed claimed'.1 in
          Accepted-run (at_time rt t) post' s' b
          ∙ process_once-duplicate (at_time rt t) a.product a.event post'.lost_race s' id i h
              claimed'.0
          ∙ ap (λ (rep : StripeReply). (ok (record rep { duplicate = true }), s')) (sym r)
    ]
