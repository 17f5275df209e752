-- ===== src/Licenses/Delete.antt =====
-- `_delete_license_in_tx`, `delete_license` and `delete_licenses_bulk`.
use yg_license_server.Base.{
  Bool, Option, none, some, List, [], ◌∷◌, ◌==◌, delete_where, delete_by, update_where, option_eq,
}
use yg_license_server.Text.{Text}
use yg_license_server.Model.{
  RowId, License, Install, Event, EventType, Payload, WebhookEvent, delete_data,
}
use yg_license_server.Runtime.{Runtime}
use yg_license_server.Session.{
  Exec, ok, attribute_error, pure, gets, or_raise, ◌>>=◌, ◌>>◌, add_event, commit,
}
use yg_license_server.Webhooks.Queue.{Scheduler, run_task}
use yg_license_server.Licenses.Status.{hook_texts, enqueue_to, slug_of, email_of}

-- `_DeletedLicenseSnapshot`
pub record Snapshot : Type 0 where
  pub license_id : RowId
  pub key : Text
  pub product_slug : Text
  pub customer_email : Text
  pub webhook_url : Option Text
  pub webhook_secret : Option Text

abbrev pub refers_to : RowId → Event → Bool
refers_to id e = option_eq ◌==◌ e.license_id (some id)

-- the two bulk statements and the deletion of the row itself
unfoldable pub remove_license : License → Exec Unit
remove_license lic s = (
  ok tt,
  record s {
    work = record (s.work) {
      events = update_where (refers_to lic.id) (λ e. record e { license_id = none }) s.work.events;
      installs = delete_where (λ (i : Install). i.license_id == lic.id) s.work.installs;
      licenses = delete_by (λ (l : License). l.id) lic.id s.work.licenses;
    };
  },
)

-- `_delete_license_in_tx`: the snapshot, and the id of the delivery if there is one
unfoldable pub delete_license_in_tx :
    Runtime → License → Option Text → Exec (Snapshot × Option RowId)
unfolding add_event enqueue_to remove_license
delete_license_in_tx rt lic note = do
  slug ← or_raise (← gets (slug_of lic)) attribute_error
  email ← or_raise (← gets (email_of lic)) attribute_error
  add_event rt none (some lic.product_id) EventType.license_deleted
      (Payload.deleted lic.id lic.key slug email) note
  delivery ←
      enqueue_to rt (hook_texts lic.webhook_url lic.webhook_secret) WebhookEvent.deleted
        (delete_data lic.id lic.key slug email) none lic.product_id
  remove_license lic
  let snapshot : Snapshot = record {
    license_id = lic.id;
    key = lic.key;
    product_slug = slug;
    customer_email = email;
    webhook_url = lic.webhook_url;
    webhook_secret = lic.webhook_secret;
  }
  pure (snapshot, delivery)

-- `delete_license`
unfoldable pub delete_license : Runtime → License → Scheduler → Option Text → Exec Unit
unfolding delete_license_in_tx commit run_task
delete_license rt lic sched note = do
  (snapshot, delivery) ← delete_license_in_tx rt lic note
  commit
  run_task rt sched delivery

-- the deletions of `delete_licenses_bulk`, all in one transaction
unfoldable pub delete_all_in_tx :
    Runtime → List License → Option Text → Exec (List (Snapshot × Option RowId))
delete_all_in_tx rt [] _ = pure []
delete_all_in_tx rt (lic ∷ lics) note = do
  pair ← delete_license_in_tx rt lic note
  pairs ← delete_all_in_tx rt lics note
  pure (pair ∷ pairs)

unfoldable pub run_tasks : Runtime → Scheduler → List (Snapshot × Option RowId) → Exec Unit
unfolding run_task
run_tasks rt sched [] = pure tt
run_tasks rt sched ((snapshot, delivery) ∷ pairs) =
    run_task rt sched delivery >> run_tasks rt sched pairs

abbrev pub snapshots : List (Snapshot × Option RowId) → List Snapshot
snapshots [] = []
snapshots ((snapshot, delivery) ∷ pairs) = snapshot ∷ snapshots pairs

-- `delete_licenses_bulk`
unfoldable pub delete_licenses_bulk :
    Runtime → List License → Scheduler → Option Text → Exec (List Snapshot)
unfolding commit
delete_licenses_bulk rt lics sched note = do
  pairs ← delete_all_in_tx rt lics note
  commit
  run_tasks rt sched pairs
  pure (snapshots pairs)
