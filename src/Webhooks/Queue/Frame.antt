-- ===== src/Webhooks/Queue/Frame.antt =====
-- `try_deliver` on the whole session: which rows it leaves alone, and the invariant of the queue.
use yg_license_server.Base.{
  ◌<◌, ◌∙◌, ◌≡◌, ◌≢◌, refl, ap, Bool, true, false, Option, none, some, List, arith, All, find-test,
  All-find, All-update_where, get_by, get_by-put_by_ne, ==_iff, Option-cases, inl, inr, ◌==◌,
}
use yg_license_server.Text.{Text, nonempty}
use yg_license_server.Model.{RowId, License, WebhookDelivery, WebhookData, pending}
use yg_license_server.Runtime.{Runtime, UrlParts, invalid}
use yg_license_server.Session.{Session, ok, err, value_error}
use yg_license_server.Security.{is_safe_url_shape}
use yg_license_server.Webhooks.Send.{Outcome, raised, sent, deliver}
use yg_license_server.Webhooks.Ports.{deliver-bad_port}
use yg_license_server.Webhooks.Queue.Row.{
  Tried, broken, tried, max_attempts, settle, effective_allow_http, message_of, attempt,
}
use yg_license_server.Webhooks.Queue.{try_row, finish, try_deliver, save_delivery}
use yg_license_server.Webhooks.Queue.Attempts.{InSchedule, attempt-InSchedule}
use yg_license_server.Webhooks.Queue.Schedule.{pending-cases}

abbrev pub delivery_by : RowId → List WebhookDelivery → Option WebhookDelivery
delivery_by = get_by (λ (e : WebhookDelivery). e.id)

module _ (rt : Runtime) (s : Session) where
  try_row-pending :
      (d : WebhookDelivery)
      → d.status ≡ pending
      → try_row rt (some d) s ≡ finish (attempt rt s.work.licenses d) s
  try_row-pending d p = simp (p, try_row)

  try_row-settled :
      (d : WebhookDelivery) → d.status ≢ pending → try_row rt (some d) s ≡ (ok false, s)
  try_row-settled d p = ground arith

  finish-InSchedule :
      (t : Tried)
      → ((d' : WebhookDelivery) (done : Bool) → t ≡ tried d' done → InSchedule d')
      → All InSchedule s.work.deliveries
      → All InSchedule (finish t s).1.work.deliveries
  unfolding save_delivery
  finish-InSchedule (broken e) valid h = h
  finish-InSchedule (tried d done) valid h =
      All-update_where InSchedule (λ e. e.id == d.id) (λ _. d) s.work.deliveries
        (λ x _ _. valid d done refl) h

  try_row-InSchedule :
      (found : Option WebhookDelivery)
      → ((d : WebhookDelivery) → found ≡ some d → InSchedule d)
      → All InSchedule s.work.deliveries
      → All InSchedule (try_row rt found s).1.work.deliveries
  try_row-InSchedule none valid h = h
  try_row-InSchedule (some d) valid h = elim (pending-cases d.status) [
    | inr q ↦ rw (try_row-settled d q) h
    | inl p ↦ rw (try_row-pending d p) (
        finish-InSchedule (attempt rt s.work.licenses d)
          (λ d' done e.
            (attempt-InSchedule rt s.work.licenses d d' done (left p (valid d refl)) e).0)
          h)
  ]
    where
      left : d.status ≡ pending → InSchedule d → d.attempts < max_attempts
      left p v = ground arith

  -- If every row of the queue is within the schedule, then so is every row behind an attempt on any
  -- of them, also where the attempt raises.
  pub try_deliver-InSchedule :
      (id : RowId)
      → All InSchedule s.work.deliveries
      → All InSchedule (try_deliver rt id s).1.work.deliveries
  unfolding try_deliver
  try_deliver-InSchedule id h =
      try_row-InSchedule (delivery_by id s.work.deliveries)
        (λ d e. All-find InSchedule (λ r. r.id == id) s.work.deliveries d h e) h

  -- the tables that no attempt writes
  abbrev pub SameOthers : Session → Type 0
  SameOthers t =
      (t.store ≡ s.store)
      × (t.work.licenses ≡ s.work.licenses)
      × (t.work.events ≡ s.work.events)
      × (t.work.customers ≡ s.work.customers)
      × (t.work.products ≡ s.work.products)
      × (t.work.installs ≡ s.work.installs)
      × (t.work.processed ≡ s.work.processed)
      × (t.work.presets ≡ s.work.presets)
      × (t.work.mfa ≡ s.work.mfa)

  finish-frame :
      (t : Tried) (id j : RowId)
      → ((d' : WebhookDelivery) (done : Bool) → t ≡ tried d' done → d'.id ≡ id)
      → j ≢ id
      → SameOthers (finish t s).1
        × (delivery_by j (finish t s).1.work.deliveries ≡ delivery_by j s.work.deliveries)
  unfolding save_delivery
  finish-frame (broken e) id j own ne = ground arith
  finish-frame (tried d done) id j own ne = (
    ground arith,
    get_by-put_by_ne (λ (e : WebhookDelivery). e.id) d j s.work.deliveries
        (λ e. ne (e ∙ own d done refl)),
  )

  settle-id :
      (d : WebhookDelivery) (o : Outcome) (d' : WebhookDelivery) (done : Bool)
      → settle rt d o ≡ tried d' done
      → d'.id ≡ d.id
  unfolding settle
  settle-id d (raised e) d' done h = cc
  settle-id d (sent true status error) d' done h = ground arith
  settle-id d (sent false status error) d' done h = ground arith

  attempt-id :
      (licenses : List License) (d d' : WebhookDelivery) (done : Bool)
      → attempt rt licenses d ≡ tried d' done
      → d'.id ≡ d.id
  unfolding attempt
  attempt-id licenses d d' done h = elim (Option-cases (rt.loads d.payload_json)) [
    | inl undecoded ↦ ground arith
    | inr (payload, e) ↦
        settle-id d (deliver rt d.url (effective_allow_http licenses d) (message_of d payload)) d'
          done (rw (e, attempt) at h)
  ]

  try_row-frame :
      (found : Option WebhookDelivery) (id j : RowId)
      → ((d : WebhookDelivery) → found ≡ some d → d.id ≡ id)
      → j ≢ id
      → SameOthers (try_row rt found s).1
        × (delivery_by j (try_row rt found s).1.work.deliveries ≡ delivery_by j s.work.deliveries)
  try_row-frame none id j own ne = ground arith
  try_row-frame (some d) id j own ne = elim (pending-cases d.status) [
    | inr q ↦ rw (try_row-settled d q) (ground arith)
    | inl p ↦ rw (try_row-pending d p) (
        finish-frame (attempt rt s.work.licenses d) id j
          (λ d' done e. attempt-id s.work.licenses d d' done e ∙ own d refl) ne)
  ]

  -- An attempt on one delivery commits nothing, leaves every other table as it is, and leaves every
  -- other delivery as it is.
  pub try_deliver-frame :
      (id j : RowId)
      → j ≢ id
      → SameOthers (try_deliver rt id s).1
        × (delivery_by j (try_deliver rt id s).1.work.deliveries ≡ delivery_by j s.work.deliveries)
  unfolding try_deliver
  try_deliver-frame id j ne =
      try_row-frame (delivery_by id s.work.deliveries) id j
        (λ d e. (==_iff d.id id).0 (find-test (λ r. r.id == id) s.work.deliveries d e)) ne

  attempt-broken :
      (licenses : List License) (d : WebhookDelivery) (payload : WebhookData)
      → rt.loads d.payload_json ≡ some payload
      → deliver rt d.url (effective_allow_http licenses d) (message_of d payload)
        ≡ raised value_error
      → attempt rt licenses d ≡ broken value_error
  unfolding attempt settle
  attempt-broken licenses d payload decoded e = rw (decoded, attempt, e)

  -- A delivery whose URL has a safe shape, a host name and a port that cannot be read raises
  -- ValueError and changes nothing: its attempt is not even counted, so it stays pending and due.
  pub try_deliver-bad_port :
      (id : RowId) (d : WebhookDelivery) (payload : WebhookData) (parts : UrlParts) (host : Text)
      → delivery_by id s.work.deliveries ≡ some d
      → d.status ≡ pending
      → rt.loads d.payload_json ≡ some payload
      → is_safe_url_shape rt d.url (effective_allow_http s.work.licenses d) ≡ true
      → rt.urlsplit d.url ≡ some parts
      → parts.hostname ≡ some host
      → nonempty host ≡ true
      → parts.port ≡ invalid
      → try_deliver rt id s ≡ (err value_error, s)
  unfolding try_deliver
  try_deliver-bad_port id d payload parts host found p decoded safe e named filled bad =
      let allow_http = effective_allow_http s.work.licenses d in
      let e' =
        deliver-bad_port rt d.url allow_http (message_of d payload) parts host safe e named filled
          bad in
      rw found (
        try_row-pending d p
        ∙ ap (λ t. finish t s) (attempt-broken s.work.licenses d payload decoded e'))
