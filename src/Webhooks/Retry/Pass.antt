-- ===== src/Webhooks/Retry/Pass.antt =====
-- A pass of the worker: what it keeps, and how one row can stop it.
use yg_license_server.Base.{
  ℕ, suc, ◌≡◌, sym, subst, ap, ◌∙◌, Bool, true, some, List, [], ◌∷◌, arith, All,
}
use yg_license_server.Model.{WebhookData, WebhookDelivery}
use yg_license_server.Runtime.{Runtime, UrlParts, invalid}
use yg_license_server.Text.{Text, nonempty}
use yg_license_server.Security.{is_safe_url_shape}
use yg_license_server.Webhooks.Queue.{effective_allow_http}
use yg_license_server.Session.{◌>>=◌, ◌>>◌, Session, Result, ok, err, value_error, commit, rollback}
use yg_license_server.Webhooks.Queue.{try_deliver}
use yg_license_server.Webhooks.Queue.Attempts.{InSchedule}
use yg_license_server.Webhooks.Queue.Frame.{
  try_deliver-InSchedule, try_deliver-frame, try_deliver-bad_port, delivery_by,
}
use yg_license_server.Webhooks.Retry.Selection.{IsDue, due-IsDue}
use yg_license_server.Webhooks.Retry.{added, due, finished, drain, run}

-- every row that is committed and every row that the transaction sees is within the schedule
abbrev BothInSchedule : Session → Type 0
BothInSchedule s = All InSchedule s.store.deliveries × All InSchedule s.work.deliveries

abbrev committed {ℓ} : {A : Type ℓ} → A × Session → List WebhookDelivery
committed (a, s) = s.store.deliveries

-- one round of the loop behind its attempt, whatever the attempt did
round-InSchedule :
    (rt : Runtime) (ds : List WebhookDelivery) (n : ℕ) (s : Session) (r : Result Bool) (t : Session)
    → BothInSchedule t
    → ((done : Bool) → All InSchedule (drain rt ds (added done n) (commit t).1).1.store.deliveries)
    → All InSchedule
        (committed (◌>>=◌ {B = ℕ} (λ _. (r, t)) (λ done. commit >> drain rt ds (added done n)) s))
unfolding drain
round-InSchedule rt ds n s (ok done) t h next = next done
round-InSchedule rt ds n s (err e) t h next = h.0

drain-InSchedule :
    (rt : Runtime) (ds : List WebhookDelivery) (n : ℕ) (s : Session)
    → BothInSchedule s
    → All InSchedule (drain rt ds n s).1.store.deliveries
unfolding drain
drain-InSchedule rt [] n s h = h.0
drain-InSchedule rt (d ∷ ds) n s h =
    let t = (try_deliver rt d.id s).1 in
    let kept = try_deliver-InSchedule rt s d.id h.1 in
    let same = (try_deliver-frame rt s d.id (suc d.id) (omega arith)).0.0 in
    round-InSchedule rt ds n s (try_deliver rt d.id s).0 t
      (subst (λ db. All InSchedule db.deliveries) (sym same) h.0, kept)
      (λ done. drain-InSchedule rt ds (added done n) (commit t).1 (kept, kept))

finished-InSchedule :
    (r : Result ℕ × Session)
    → All InSchedule r.1.store.deliveries
    → All InSchedule (finished r).1.store.deliveries
unfolding rollback
finished-InSchedule (ok sent, u) h = h
finished-InSchedule (err e, u) h = h

-- If every committed row is within the schedule, then so is every row that a pass leaves committed,
-- also where the pass is cut off by an exception.
pub run-InSchedule :
    (rt : Runtime) (limit : ℕ) (s : Session)
    → All InSchedule s.store.deliveries
    → All InSchedule (run rt limit s).1.store.deliveries
unfolding run
run-InSchedule rt limit s h =
    let chosen = due rt.now limit s.store.deliveries in
    finished-InSchedule (drain rt chosen 0 (rollback s))
      (drain-InSchedule rt chosen 0 (rollback s) (h, h))

drain-raised :
    (rt : Runtime) (s : Session) (d : WebhookDelivery) (ds : List WebhookDelivery)
    → try_deliver rt d.id s ≡ (err value_error, s)
    → drain rt (d ∷ ds) 0 s ≡ (err value_error, s)
unfolding drain
drain-raised rt s d ds raises = ground arith

run-raised :
    (rt : Runtime) (limit : ℕ) (s : Session) (d : WebhookDelivery) (ds : List WebhookDelivery)
    → due rt.now limit s.store.deliveries ≡ d ∷ ds
    → try_deliver rt d.id (rollback s) ≡ (err value_error, rollback s)
    → run rt limit s ≡ (1, rollback s)
unfolding run
run-raised rt limit s d ds first raises =
    ap (λ chosen. finished (drain rt chosen 0 (rollback s))) first
    ∙ ap finished (drain-raised rt (rollback s) d ds raises)

-- Where the earliest row that is due has a URL of a safe shape with a host name and a port that
-- cannot be read, a pass ends with status 1 and attempts no other row: the database is as before, so
-- the next pass meets the same row first.
pub run-starved :
    (rt : Runtime) (limit : ℕ) (s : Session) (d : WebhookDelivery) (ds : List WebhookDelivery)
    (payload : WebhookData) (parts : UrlParts) (host : Text)
    → due rt.now limit s.store.deliveries ≡ d ∷ ds
    → delivery_by d.id s.store.deliveries ≡ some d
    → rt.loads d.payload_json ≡ some payload
    → is_safe_url_shape rt d.url (effective_allow_http s.store.licenses d) ≡ true
    → rt.urlsplit d.url ≡ some parts
    → parts.hostname ≡ some host
    → nonempty host ≡ true
    → parts.port ≡ invalid
    → run rt limit s ≡ (1, rollback s)
unfolding rollback
run-starved rt limit s d ds payload parts host first found decoded safe e named filled bad =
    let selected = due-IsDue rt.now limit s.store.deliveries in
    let is_first = (subst (All (IsDue rt.now)) first selected).0 in
    run-raised rt limit s d ds first (
      try_deliver-bad_port rt (rollback s) d.id d payload parts host found is_first.0 decoded safe e
        named filled bad)
