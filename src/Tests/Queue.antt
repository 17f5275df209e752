-- ===== src/Tests/Queue.antt =====
-- Examples for the delivery of webhooks and for the retry queue.
use yg_license_server.Base.{
  List, ◌++◌, min, ℕ, ◌≡◌, ◌<◌, ◌+◌, refl, true, false, Option, none, some, [], ◌∷◌, arith, All,
  length, is_some,
}
use yg_license_server.Text.{Text, codes, text_eq, ends_with}
use yg_license_server.Model.{WebhookDelivery, WebhookEvent, delivered, test_data, days, minutes}
use yg_license_server.Runtime.{UrlParts, HttpRequest, HttpReply, failed, replied}
use yg_license_server.Security.{
  Address, resolved, is_safe_url_shape, is_safe_host, resolve_safe_address, resolve_host,
  first_public, ip_is_private,
}
use yg_license_server.Security.Guard.{resolve_safe_address-public}
use yg_license_server.Session.{rollback}
use yg_license_server.Webhooks.{Message, sent, deliver, request_of, sign}
use yg_license_server.Webhooks.Sent.{
  IsSuccess, with_post, deliver-IsSuccess, deliver-public, request_of-signed,
}
use yg_license_server.Webhooks.Queue.{try_deliver}
use yg_license_server.Webhooks.Queue.{
  tried, max_attempts, backoff, settle, effective_allow_http, attempt,
}
use yg_license_server.Webhooks.Queue.Attempts.{InSchedule, attempt-delivered, attempt-retried}
use yg_license_server.Webhooks.Queue.Frame.{SameOthers, delivery_by, try_deliver-frame}
use yg_license_server.Webhooks.Retry.{due, run}
use mathlib.Core.List.{Perm}
use yg_license_server.Webhooks.Retry.Selection.{IsDue, IsSorted, due-selection}
use yg_license_server.Webhooks.Retry.Pass.{run-InSchedule, run-starved}
use yg_license_server.Tests.Samples.{
  rt, bad_rt, failing_rt, parts, bad_parts, session, license, row,
}

abbrev address : Address
address = record { ip = codes "9"; port = 443; scheme = codes "https"; host = codes "a.example" }

address_found : resolve_safe_address rt (codes "u") false ≡ resolved address
unfolding resolve_safe_address is_safe_url_shape is_safe_host text_eq ends_with resolve_host
    first_public ip_is_private
address_found = refl

resolve_safe_address-public_example :
    (is_safe_url_shape rt (codes "u") false ≡ true)
    × (ip_is_private rt (codes "9") ≡ false)
    × ((p : UrlParts) × (rt.urlsplit (codes "u") ≡ some p)
        × (p.hostname ≡ some (codes "a.example"))
        × (codes "https" ≡ p.scheme))
resolve_safe_address-public_example =
    resolve_safe_address-public rt (codes "u") false address address_found

abbrev message : Message
message = record {
  secret = codes "s";
  event_type = WebhookEvent.status_changed;
  body = test_data 1 [] [] [];
  event_id = 5;
}

message_sent : deliver rt (codes "u") false message ≡ sent true (some 200) none
unfolding deliver resolve_safe_address is_safe_url_shape is_safe_host text_eq ends_with resolve_host
    first_public ip_is_private
message_sent = refl

deliver-IsSuccess_example :
    (is_safe_url_shape rt (codes "u") false ≡ true)
    × ((n : ℕ) × (some 200 ≡ some n) × IsSuccess n × (◌≡◌ {A = Option Text} none none))
deliver-IsSuccess_example =
    deliver-IsSuccess rt (codes "u") false message (some 200) none message_sent

-- a client that fails for the private address
abbrev guarded_post : HttpRequest → HttpReply
guarded_post r = elim r.ip [ [] ↦ failed [] | _ ↦ replied 200 [] ]

same_answers : (r : HttpRequest) → ip_is_private rt r.ip ≡ false → rt.post r ≡ guarded_post r
unfolding ip_is_private
same_answers r h = by_ip r.ip h
  where
    by_ip :
        (ip : Text)
        → ip_is_private rt ip ≡ false
        → rt.post r ≡ elim ip [ [] ↦ failed [] | _ ↦ replied 200 [] ]
    by_ip [] h' = ground arith
    by_ip (c ∷ ip) h' = refl

deliver-public_example :
    deliver rt (codes "u") false message
    ≡ deliver (with_post rt guarded_post) (codes "u") false message
deliver-public_example = deliver-public rt guarded_post (codes "u") false message same_answers

request_of-signed_example :
    let r = request_of rt message address parts in
    (r.signature ≡ sign rt (codes "s") r.signed_at r.content)
    × (r.ip ≡ codes "9")
    × (r.event_id ≡ 5)
request_of-signed_example = request_of-signed rt message address parts

abbrev done_row : WebhookDelivery
done_row = record row {
  attempts = 1;
  status = delivered;
  last_attempt_at = some (days 10);
  delivered_at = some (days 10);
  response_status = some 200;
}

attempt_done : attempt rt (license ∷ []) row ≡ tried done_row true
unfolding attempt deliver resolve_safe_address is_safe_url_shape is_safe_host text_eq ends_with
    resolve_host first_public ip_is_private settle
attempt_done = refl

attempt-delivered_example :
    (delivered ≡ delivered)
    × (some (days 10) ≡ some rt.now)
    × (◌≡◌ {A = Option Text} none none)
    × (◌≡◌ {A = Option Text} none none)
    × ((n : ℕ) × (some 200 ≡ some n) × IsSuccess n)
attempt-delivered_example = attempt-delivered rt (license ∷ []) row done_row attempt_done

abbrev failed_row : WebhookDelivery
failed_row = record row {
  attempts = 1;
  last_attempt_at = some (days 10);
  next_attempt_at = days 10 + minutes 1;
  last_error = some (codes "no");
  response_status = some 500;
  response_excerpt = some (codes "no");
}

attempt_failed : attempt failing_rt (license ∷ []) row ≡ tried failed_row false
unfolding attempt deliver resolve_safe_address is_safe_url_shape is_safe_host text_eq ends_with
    resolve_host first_public ip_is_private settle backoff
attempt_failed = refl

attempt-retried_example :
    (false ≡ false)
    × (1 ≡ row.attempts + 1)
    × (1 < max_attempts)
    × (failed_row.next_attempt_at ≡ days 10 + backoff 0)
    × (is_some failed_row.last_error ≡ true)
attempt-retried_example =
    attempt-retried failing_rt (license ∷ []) row failed_row false attempt_failed refl refl

row-InSchedule : All InSchedule session.store.deliveries
row-InSchedule = ground arith

run-InSchedule_example : All InSchedule (run rt 200 session).1.store.deliveries
run-InSchedule_example = run-InSchedule rt 200 session row-InSchedule

due-selection_example :
    let chosen = due rt.now 200 session.store.deliveries in
    (rest : List WebhookDelivery) × (others : List WebhookDelivery) × Perm
      ((chosen ++ rest) ++ others)
      session.store.deliveries
    × All (IsDue rt.now) (chosen ++ rest)
    × All (λ d. ¬ IsDue rt.now d) others
    × IsSorted (chosen ++ rest)
    × (length chosen ≡ min 200 (length (chosen ++ rest)))
due-selection_example = due-selection rt.now 200 session.store.deliveries

due-row : due bad_rt.now 200 session.store.deliveries ≡ row ∷ []
unfolding due
due-row = refl

safe_shape : is_safe_url_shape bad_rt (codes "u") (effective_allow_http (license ∷ []) row) ≡ true
unfolding is_safe_url_shape is_safe_host text_eq ends_with effective_allow_http
safe_shape = refl

run-starved_example : run bad_rt 200 session ≡ (1, rollback session)
run-starved_example =
    run-starved bad_rt 200 session row [] (test_data 1 (codes "{}") (codes "{}") (codes "{}"))
      bad_parts (codes "a.example") due-row refl refl safe_shape refl refl refl refl

try_deliver-frame_example :
    SameOthers rt session (try_deliver rt 5 session).1
    × (delivery_by 6 (try_deliver rt 5 session).1.work.deliveries
        ≡ delivery_by 6 session.work.deliveries)
try_deliver-frame_example = try_deliver-frame rt session 5 6 (omega arith)
