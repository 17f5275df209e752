-- ===== src/Webhooks/Queue/Row.antt =====
-- One attempt of `try_deliver` on a pending row, as a function of the row and of the licenses.
use yg_license_server.Base.{
  ℕ, zero, suc, ◌+◌, ◌-◌, Bool, true, false, Option, none, some, List, [], ◌∷◌, leb, take, is_some,
  get_by, if◌then◌else◌,
}
use yg_license_server.Text.{Text, codes, starts_with, or_none}
use yg_license_server.Model.{
  Time, License, WebhookDelivery, delivered, abandoned, WebhookData, minutes, hours,
}
use yg_license_server.Runtime.{Runtime}
use yg_license_server.Session.{Error}
use yg_license_server.Webhooks.Send.{Message, Outcome, raised, sent, deliver}

-- `BACKOFF_SCHEDULE` and `MAX_ATTEMPTS`
abbrev pub backoff_schedule : List Time
backoff_schedule = minutes 1 ∷ minutes 5 ∷ minutes 30 ∷ hours 2 ∷ hours 12 ∷ hours 24 ∷ []

abbrev pub max_attempts : ℕ
max_attempts = 7

abbrev nth_time : List Time → ℕ → Time
nth_time [] i = 0
nth_time (t ∷ ts) zero = t
nth_time (t ∷ ts) (suc i) = nth_time ts i

-- `BACKOFF_SCHEDULE[i]`, for an index in range
unfoldable pub backoff : ℕ → Time
backoff = nth_time backoff_schedule

-- The row behind an attempt, with whether it was delivered; or the exception of `deliver`.
pub data Tried : Type 0 where
  broken : Error → Tried
  tried : WebhookDelivery → Bool → Tried

-- `err or ""` and `err or "(no detail)"`
abbrev error_text : Option Text → Text
error_text none = []
error_text (some e) = e

abbrev error_detail : Text → Text
error_detail [] = codes "(no detail)"
error_detail (c ∷ s) = c ∷ s

-- the attempt is counted, and what the receiver answered is recorded
abbrev pub counted : Runtime → WebhookDelivery → Option ℕ → Option Text → WebhookDelivery
counted rt d status error = record d {
  attempts = d.attempts + 1;
  last_attempt_at = some rt.now;
  response_status = status;
  response_excerpt = if is_some status then or_none (take 500 (error_text error)) else none;
}

-- a failure: abandoned, or the next attempt is scheduled
unfoldable pub after_failure : Runtime → WebhookDelivery → Option Text → WebhookDelivery
after_failure rt d error =
    let detail : Option Text = some (take 500 (error_detail (error_text error))) in
    if leb max_attempts d.attempts
    then record d { last_error = detail; status = abandoned }
    else record d { last_error = detail; next_attempt_at = rt.now + backoff (d.attempts - 1) }

unfoldable pub settle : Runtime → WebhookDelivery → Outcome → Tried
unfolding after_failure
settle rt d (raised e) = broken e
settle rt d (sent true status error) =
    tried
      (record (counted rt d status error) {
        status = delivered;
        delivered_at = some rt.now;
        last_error = none;
      })
      true
settle rt d (sent false status error) =
    tried (after_failure rt (counted rt d status error) error) false

-- the flag of the live license, or what the stored URL's scheme tells
unfoldable pub effective_allow_http : List License → WebhookDelivery → Bool
unfolding starts_with
effective_allow_http licenses d = elim d.license_id [
  | none ↦ starts_with d.url (codes "http://")
  | some i ↦ elim (get_by (λ (l : License). l.id) i licenses) [
    | some lic ↦ lic.allow_http_webhook
    | none ↦ starts_with d.url (codes "http://")
  ]
]

abbrev pub message_of : WebhookDelivery → WebhookData → Message
message_of d payload = record {
  secret = d.secret;
  event_type = d.event_type;
  body = payload;
  event_id = d.id;
}

-- `try_deliver` from the decoding of the payload on
unfoldable pub attempt : Runtime → List License → WebhookDelivery → Tried
unfolding settle effective_allow_http
attempt rt licenses d = elim (rt.loads d.payload_json) [
  | none ↦
      tried (record d { status = abandoned; last_error = some (codes "payload_decode: ") }) false
  | some payload ↦
      settle rt d (deliver rt d.url (effective_allow_http licenses d) (message_of d payload))
]
