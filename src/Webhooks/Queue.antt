-- ===== src/Webhooks/Queue.antt =====
-- The retry queue: `enqueue`, `try_deliver` and `attempt_in_fresh_session`.
mod Row
unfoldable pub use Row.*
pub mod Attempts
pub mod Schedule
pub mod Frame
use yg_license_server.Base.{
  ℕ, suc, ◌+◌, Bool, true, false, Option, none, some, List, [], ◌∷◌, ◌++◌, get_by, put_by,
}
use yg_license_server.Text.{Text}
use yg_license_server.Model.{
  RowId, Db, WebhookDelivery, DeliveryStatus, WebhookEvent, WebhookData, pending,
}
use yg_license_server.Runtime.{Runtime}
use yg_license_server.Session.{
  Session, Result, ok, err, Exec, pure, raise, gets, ◌>>=◌, ◌>>◌, fresh_id, flush, commit, rollback,
}

-- the new row of `enqueue`
abbrev pub queued :
    Runtime
    → RowId
    → Text
    → Text
    → WebhookEvent
    → WebhookData
    → Option RowId
    → Option RowId
    → WebhookDelivery
queued rt id url secret event_type payload license_id product_id = record {
  id = id;
  license_id = license_id;
  product_id = product_id;
  url = url;
  secret = secret;
  event_type = event_type;
  payload_json = rt.dumps payload;
  attempts = 0;
  status = pending;
  next_attempt_at = rt.now;
  last_attempt_at = none;
  delivered_at = none;
  last_error = none;
  response_status = none;
  response_excerpt = none;
  created_at = rt.now;
}

-- `db.add(WebhookDelivery(…))`
pub add_delivery : WebhookDelivery → Exec Unit
add_delivery d s =
    (ok tt, record s { work = record (s.work) { deliveries = s.work.deliveries ++ d ∷ [] } })

-- `enqueue`, which returns the id of the new row
unfoldable pub enqueue :
    Runtime → Text → Text → WebhookEvent → WebhookData → Option RowId → Option RowId → Exec RowId
unfolding fresh_id add_delivery flush
enqueue rt url secret event_type payload license_id product_id = do
  id ← fresh_id
  add_delivery (queued rt id url secret event_type payload license_id product_id)
  flush
  pure id

save_delivery : WebhookDelivery → Exec Unit
save_delivery d s = (
  ok tt,
  record s {
    work = record (s.work) {
      deliveries = put_by (λ (e : WebhookDelivery). e.id) d s.work.deliveries;
    };
  },
)

abbrev finish : Tried → Exec Bool
finish (broken e) = raise e
finish (tried d done) = save_delivery d >> pure done

abbrev try_row : Runtime → Option WebhookDelivery → Exec Bool
try_row rt none = pure false
try_row rt (some d) = elim d.status [
  | pending ↦ do licenses ← gets (λ s. s.work.licenses); finish (attempt rt licenses d)
  | _ ↦ pure false
]

-- `try_deliver`
unfoldable pub try_deliver : Runtime → RowId → Exec Bool
unfolding save_delivery attempt
try_deliver rt delivery_id = do
  found ← gets (λ s. get_by (λ (e : WebhookDelivery). e.id) delivery_id s.work.deliveries)
  try_row rt found

-- how the fresh session ends: with a commit, or with a rollback and the answer false
unfoldable pub closed : Result Bool × Session → Result Bool × Session
unfolding commit rollback
closed (ok done, s) = (ok done, (commit s).1)
closed (err e, s) = (ok false, rollback s)

-- `attempt_in_fresh_session`. It runs behind the commit of the caller, whose session then reads the
-- committed rows again.
unfoldable pub attempt_in_fresh_session : Runtime → RowId → Exec Bool
unfolding closed
attempt_in_fresh_session rt delivery_id s = closed (try_deliver rt delivery_id (rollback s))

-- The `schedule` argument of the services: None, or the background tasks of the request.
pub data Scheduler : Type 0 where
  inline background : Scheduler

-- `_run` of app/services/licenses.py with an attempt of a delivery, if there is one
unfoldable pub run_task : Runtime → Scheduler → Option RowId → Exec Unit
unfolding attempt_in_fresh_session
run_task rt sched none = pure tt
run_task rt inline (some id) = attempt_in_fresh_session rt id >> pure tt
run_task rt background (some id) = λ s. (ok tt, record s { tasks = s.tasks ++ id ∷ [] })
