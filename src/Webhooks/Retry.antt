-- ===== src/Webhooks/Retry.antt =====
-- `run` of app/scripts/retry_webhooks.py, the worker that a timer starts.
pub mod Selection
pub mod Pass
use yg_license_server.Base.{
  ℕ, zero, suc, ◌+◌, Bool, true, false, ◌&&◌, Option, none, some, List, [], ◌∷◌, leb, take, select,
  map, if◌then◌else◌,
}
use yg_license_server.Model.{
  RowId, Time, WebhookDelivery, DeliveryStatus, pending, delivered, abandoned,
}
use yg_license_server.Runtime.{Runtime}
use yg_license_server.Session.{Session, Result, ok, err, Exec, pure, ◌>>=◌, ◌>>◌, commit, rollback}
use yg_license_server.Webhooks.Queue.{try_deliver}

-- `WebhookDelivery.status == "pending"`
abbrev pub is_pending : WebhookDelivery → Bool
is_pending d = elim d.status [ pending ↦ true | _ ↦ false ]

-- `order_by(next_attempt_at)`, keeping the order of rows that are due at one time
unfoldable pub insert_due : WebhookDelivery → List WebhookDelivery → List WebhookDelivery
insert_due d [] = d ∷ []
insert_due d (e ∷ es) =
    if leb d.next_attempt_at e.next_attempt_at then d ∷ e ∷ es else e ∷ insert_due d es

unfoldable pub sort_due : List WebhookDelivery → List WebhookDelivery
unfolding insert_due
sort_due [] = []
sort_due (d ∷ ds) = insert_due d (sort_due ds)

abbrev pub is_due : Time → WebhookDelivery → Bool
is_due now d = is_pending d && leb d.next_attempt_at now

-- the query of the pass: the rows that are due, the earliest first
unfoldable pub due : Time → ℕ → List WebhookDelivery → List WebhookDelivery
unfolding sort_due
due now limit deliveries = take limit (sort_due (select (is_due now) deliveries))

abbrev added : Bool → ℕ → ℕ
added true n = suc n
added false n = n

-- the loop of the pass: one attempt and one commit for each row, counting what is delivered
unfoldable pub drain : Runtime → List WebhookDelivery → ℕ → Exec ℕ
unfolding commit
drain rt [] sent = pure sent
drain rt (d ∷ ds) sent = do done ← try_deliver rt d.id; commit; drain rt ds (added done sent)

abbrev finished : Result ℕ × Session → ℕ × Session
finished (ok sent, s) = (0, s)
finished (err e, s) = (1, rollback s)

-- `run`: the exit status, and the database behind the pass. An exception ends the pass: what is not
-- committed is rolled back, and the status is 1.
unfoldable pub run : Runtime → ℕ → Session → ℕ × Session
unfolding drain due rollback
run rt limit s = finished (drain rt (due rt.now limit s.store.deliveries) 0 (rollback s))
