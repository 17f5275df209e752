-- ===== src/Licenses/Status.antt =====
-- `set_status` and the three transitions that call it.
use mathlib.Core.Option
use yg_license_server.Base.{Option, none, some, ◌∷◌}
use yg_license_server.Text.{Text}
use yg_license_server.Model.{
  RowId, Product, Customer, License, Status, active, disabled, revoked, EventType, Payload,
  WebhookEvent, WebhookData, status_data,
}
use yg_license_server.Runtime.{Runtime}
use yg_license_server.Session.{
  Session, Exec, pure, gets, ◌>>=◌, ◌>>◌, save_license, add_event, commit, product_of, customer_of,
}
use yg_license_server.Webhooks.Queue.{enqueue, Scheduler, run_task}

-- `lic.webhook_url and lic.webhook_secret`: both texts, where neither is None or empty
abbrev pub hook_texts : Option Text → Option Text → Option (Text × Text)
hook_texts (some (u ∷ url)) (some (c ∷ secret)) = some (u ∷ url, c ∷ secret)
hook_texts _ _ = none

abbrev pub hook_of : License → Option (Text × Text)
hook_of lic = hook_texts lic.webhook_url lic.webhook_secret

-- the delivery of an event of a license, if it has a webhook
unfoldable pub enqueue_to :
    Runtime
    → Option (Text × Text)
    → WebhookEvent
    → WebhookData
    → Option RowId
    → RowId
    → Exec (Option RowId)
unfolding enqueue
enqueue_to rt none event_type payload license_id product_id = pure none
enqueue_to rt (some (url, secret)) event_type payload license_id product_id = do
  id ← enqueue rt url secret event_type payload license_id (some product_id)
  pure (some id)

-- `lic.product.slug if lic.product else None` and the like
abbrev pub slug_of : License → Session → Option Text
slug_of lic s = Option.map (λ (p : Product). p.slug) (product_of lic s)

abbrev pub email_of : License → Session → Option Text
email_of lic s = Option.map (λ (c : Customer). c.email) (customer_of lic s)

-- `set_status`
unfoldable pub set_status : Runtime → License → Status → Option Text → Scheduler → Exec Unit
unfolding save_license add_event enqueue_to commit run_task
set_status rt lic new_status note sched = do
  save_license (record lic { status = new_status })
  add_event rt (some lic.id) (some lic.product_id) (EventType.status new_status) Payload.empty note
  slug ← gets (slug_of lic)
  email ← gets (email_of lic)
  delivery ←
      enqueue_to rt (hook_of lic) WebhookEvent.status_changed
        (status_data lic.id lic.key slug email lic.status new_status) (some lic.id) lic.product_id
  commit
  run_task rt sched delivery

-- `revoke_license`, `disable_license`, `enable_license`
unfoldable pub revoke_license : Runtime → License → Option Text → Scheduler → Exec Unit
unfolding set_status
revoke_license rt lic note sched = set_status rt lic revoked note sched

unfoldable pub disable_license : Runtime → License → Option Text → Scheduler → Exec Unit
unfolding set_status
disable_license rt lic note sched = set_status rt lic disabled note sched

unfoldable pub enable_license : Runtime → License → Option Text → Scheduler → Exec Unit
unfolding set_status
enable_license rt lic note sched = set_status rt lic active note sched
