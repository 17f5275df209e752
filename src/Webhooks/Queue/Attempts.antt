-- ===== src/Webhooks/Queue/Attempts.antt =====
-- The life of one queued delivery: what each attempt does to its row, and that the schedule ends.
use yg_license_server.Base.{
  ℕ, ◌+◌, ◌≤◌, ◌<◌, ◌≡◌, refl, Bool, true, false, Option, none, some, List, arith, Option-cases,
  inl, inr, is_some,
}
use yg_license_server.Text.{Text}
use yg_license_server.Model.{License, WebhookDelivery, WebhookData, pending, delivered}
use yg_license_server.Runtime.{Runtime}
use yg_license_server.Webhooks.Send.{Outcome, raised, sent, deliver}
use yg_license_server.Webhooks.Sent.{IsSuccess, deliver-IsSuccess}
use yg_license_server.Webhooks.Queue.Row.{
  tried, max_attempts, backoff, settle, effective_allow_http, message_of, attempt,
}

-- A pending row has attempts left, and no row has had more than the schedule allows.
abbrev pub InSchedule : WebhookDelivery → Type 0
InSchedule d = elim d.status [ pending ↦ d.attempts < max_attempts | _ ↦ d.attempts ≤ max_attempts ]

-- the columns that identify a row and what it sends, which no attempt changes
abbrev pub SameMessage : WebhookDelivery → WebhookDelivery → Type 0
SameMessage d d' =
    (d'.id ≡ d.id)
    × (d'.url ≡ d.url)
    × (d'.secret ≡ d.secret)
    × (d'.event_type ≡ d.event_type)
    × (d'.payload_json ≡ d.payload_json)

module _ (rt : Runtime) (licenses : List License) (d : WebhookDelivery) where
  abbrev outcome : WebhookData → Outcome
  outcome payload = deliver rt d.url (effective_allow_http licenses d) (message_of d payload)

  -- An attempt counts itself and keeps the message. It keeps the row pending only with attempts
  -- left, and then schedules the next one later than now; it abandons the row with the last
  -- attempt or on a payload that does not decode.
  settle-InSchedule :
      (o : Outcome) (d' : WebhookDelivery) (done : Bool)
      → d.attempts < max_attempts
      → settle rt d o ≡ tried d' done
      → InSchedule d' × SameMessage d d' × (d'.attempts ≡ d.attempts + 1)
  unfolding settle
  settle-InSchedule (raised e) d' done left h = cc
  settle-InSchedule (sent true status error) d' done left h = ground arith
  settle-InSchedule (sent false status error) d' done left h = ground arith

  -- An attempt on a pending row that is within the schedule leaves it within the schedule, and
  -- changes neither what it sends nor where.
  pub attempt-InSchedule :
      (d' : WebhookDelivery) (done : Bool)
      → d.attempts < max_attempts
      → attempt rt licenses d ≡ tried d' done
      → InSchedule d' × SameMessage d d'
  unfolding attempt
  attempt-InSchedule d' done left h = elim (Option-cases (rt.loads d.payload_json)) [
    | inl undecoded ↦ ground arith
    | inr (payload, e) ↦
        let kept = settle-InSchedule (outcome payload) d' done left (rw (e, attempt) at h) in
        (kept.0, kept.1)
  ]

  abbrev Succeeded : WebhookDelivery → Type 0
  Succeeded d' =
      (d'.status ≡ delivered)
      × (d'.delivered_at ≡ some rt.now)
      × (d'.last_error ≡ none)
      × (d'.response_excerpt ≡ none)
      × ((n : ℕ) × (d'.response_status ≡ some n) × IsSuccess n)

  settle-Succeeded :
      (o : Outcome) (d' : WebhookDelivery)
      → ((status : Option ℕ) (error : Option Text)
          → o ≡ sent true status error
          → (n : ℕ) × (status ≡ some n) × IsSuccess n × (error ≡ none))
      → settle rt d o ≡ tried d' true
      → Succeeded d'
  unfolding settle
  settle-Succeeded (raised e) d' success h = cc
  settle-Succeeded (sent true status error) d' success h =
      let (n, e, range, quiet) = success status error refl in
      (ground arith, ground arith, ground arith, ground arith, (n, ground arith, range))
  settle-Succeeded (sent false status error) d' success h = ground arith

  -- An attempt reports success only if the receiver answered with a status from 200 to 299; the row
  -- is then delivered, with that status, the time of the attempt, and no error. Its excerpt of the
  -- response is empty.
  pub attempt-delivered :
      (d' : WebhookDelivery)
      → attempt rt licenses d ≡ tried d' true
      → (d'.status ≡ delivered)
        × (d'.delivered_at ≡ some rt.now)
        × (d'.last_error ≡ none)
        × (d'.response_excerpt ≡ none)
        × ((n : ℕ) × (d'.response_status ≡ some n) × IsSuccess n)
  unfolding attempt
  attempt-delivered d' h = elim (Option-cases (rt.loads d.payload_json)) [
    | inl undecoded ↦ absurd (cc (rw (undecoded, attempt) at h))
    | inr (payload, e) ↦
        settle-Succeeded (outcome payload) d'
          (λ status error f.
            (deliver-IsSuccess rt d.url (effective_allow_http licenses d) (message_of d payload)
              status error f).1)
          (rw (e, attempt) at h)
  ]

  settle-retried :
      (o : Outcome) (d' : WebhookDelivery) (done : Bool)
      → settle rt d o ≡ tried d' done
      → d'.status ≡ pending
      → d.status ≡ pending
      → (done ≡ false)
        × (d'.attempts ≡ d.attempts + 1)
        × (d'.attempts < max_attempts)
        × (d'.next_attempt_at ≡ rt.now + backoff d.attempts)
        × (is_some d'.last_error ≡ true)
  unfolding settle
  settle-retried (raised e) d' done h p q = cc
  settle-retried (sent true status error) d' done h p q = ground arith
  settle-retried (sent false status error) d' done h p q = ground arith

  -- A row that was pending and is pending behind an attempt has one attempt more and attempts left,
  -- holds an error, and is due again exactly as long after now as the schedule has at its old count.
  pub attempt-retried :
      (d' : WebhookDelivery) (done : Bool)
      → attempt rt licenses d ≡ tried d' done
      → d.status ≡ pending
      → d'.status ≡ pending
      → (done ≡ false)
        × (d'.attempts ≡ d.attempts + 1)
        × (d'.attempts < max_attempts)
        × (d'.next_attempt_at ≡ rt.now + backoff d.attempts)
        × (is_some d'.last_error ≡ true)
  unfolding attempt
  attempt-retried d' done h q p = elim (Option-cases (rt.loads d.payload_json)) [
    | inl undecoded ↦ ground arith
    | inr (payload, e) ↦ settle-retried (outcome payload) d' done (rw (e, attempt) at h) p q
  ]
