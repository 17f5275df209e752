-- ===== src/Products/Keep.antt =====
-- A property of the table of products: the rules for the actions that the product services are made of.
use yg_license_server.Base.{sym, subst, suc, arith, Bool, Option, none, some, List, [], ◌∷◌}
use yg_license_server.Text.{Text}
use yg_license_server.Model.{RowId, Product, License, EventType, Payload, WebhookEvent, WebhookData}
use yg_license_server.Runtime.{Runtime}
use yg_license_server.Session.{
  Session, Exec, Result, ok, err, pure, or_raise, ◌>>=◌, rollback, fresh_id, add_event, commit,
}
use yg_license_server.Session.Hoare.{
  Ensures, Always, OnOk-Always, Ensures-pure, Ensures-raise, Ensures-bind, Ensures-gets,
}
use yg_license_server.Webhooks.Queue.{
  try_deliver, closed, attempt_in_fresh_session, run_task, Scheduler, inline, background,
}
use yg_license_server.Webhooks.Queue.Frame.{try_deliver-frame}
use yg_license_server.Licenses.{
  enqueue_to, Snapshot, remove_license, delete_license_in_tx, delete_all_in_tx, run_tasks,
}
use yg_license_server.Products.{fresh_keypair}

module _ (V : List Product → Type 0) where
  -- the property of the committed table and of the one that the transaction sees
  abbrev pub OnProducts : Session → Type 0
  OnProducts s = V s.store.products × V s.work.products

  abbrev pub Keeps : {A : Type 0} → Exec A → Type 0
  Keeps = Ensures OnProducts Always

  pub Keeps-fresh_id : Keeps fresh_id
  unfolding fresh_id
  Keeps-fresh_id = record { at = λ s h. (h, tt) }

  pub Keeps-fresh_keypair : (rt : Runtime) → Keeps (fresh_keypair rt)
  unfolding fresh_keypair
  Keeps-fresh_keypair rt = record { at = λ s h. (h, tt) }

  pub Keeps-commit : Keeps commit
  unfolding commit
  Keeps-commit = record { at = λ s h. ((h.1, h.1), tt) }

  pub Keeps-add_event :
      (rt : Runtime) (license_id product_id : Option RowId) (type : EventType) (payload : Payload)
      (memo : Option Text)
      → Keeps (add_event rt license_id product_id type payload memo)
  unfolding add_event
  Keeps-add_event rt license_id product_id type payload memo = record { at = λ s h. (h, tt) }

  pub Keeps-enqueue_to :
      (rt : Runtime) (hook : Option (Text × Text)) (event_type : WebhookEvent)
      (payload : WebhookData) (license_id : Option RowId) (product_id : RowId)
      → Keeps (enqueue_to rt hook event_type payload license_id product_id)
  unfolding enqueue_to
  Keeps-enqueue_to rt none event_type payload license_id product_id = record { at = λ s h. (h, tt) }
  Keeps-enqueue_to rt (some hook) event_type payload license_id product_id = record {
    at = λ s h. (h, tt);
  }

  pub Keeps-remove_license : (lic : License) → Keeps (remove_license lic)
  unfolding remove_license
  Keeps-remove_license lic = record { at = λ s h. (h, tt) }

  pub Keeps-or_raise : {A : Type 0} (o : Option A) (e : _) → Keeps (or_raise o e)
  Keeps-or_raise none e = Ensures-raise e
  Keeps-or_raise (some a) e = Ensures-pure a tt

  closed-OnProducts : (r : Result Bool × Session) → OnProducts r.1 → OnProducts (closed r).1
  unfolding closed
  closed-OnProducts (ok done, s) h = (h.1, h.1)
  closed-OnProducts (err e, s) h = (h.0, h.0)

  try_deliver-OnProducts :
      (rt : Runtime) (id : RowId) (s : Session) → OnProducts s → OnProducts (try_deliver rt id s).1
  try_deliver-OnProducts rt id s h =
      let same = (try_deliver-frame rt s id (suc id) (omega arith)).0 in
      (subst (λ db. V db.products) (sym same.0) h.0, subst V (sym same.4) h.1)

  pub Keeps-run_task :
      (rt : Runtime) (sched : Scheduler) (delivery : Option RowId)
      → Keeps (run_task rt sched delivery)
  unfolding run_task
  Keeps-run_task rt sched none = record { at = λ s h. (h, tt) }
  Keeps-run_task rt background (some id) = record { at = λ s h. (h, tt) }
  Keeps-run_task rt inline (some id) =
      Ensures-bind (attempt_in_fresh_session rt id) (λ _. pure tt) attempted
        (λ _ _. Ensures-pure tt tt)
    where
      attempted : Keeps (attempt_in_fresh_session rt id)
      attempted = record {
        at = λ s h. (
          closed-OnProducts (try_deliver rt id (rollback s))
              (try_deliver-OnProducts rt id (rollback s) (h.0, h.0)),
          OnOk-Always (attempt_in_fresh_session rt id s).0,
        );
      }

  -- two steps, of which the first tells nothing
  pub after-Keeps :
      {A B : Type 0} (m : Exec A) (f : A → Exec B)
      → Keeps m
      → ((a : A) → Keeps (f a))
      → Keeps (m >>= f)
  after-Keeps m f first next = Ensures-bind m f first (λ a _. next a)

  pub Keeps-delete_license_in_tx :
      (rt : Runtime) (lic : License) (memo : Option Text) → Keeps (delete_license_in_tx rt lic memo)
  unfolding delete_license_in_tx
  Keeps-delete_license_in_tx rt lic memo =
      search
        (
          after-Keeps, Ensures-gets, Keeps-or_raise, Keeps-add_event, Keeps-enqueue_to,
          Keeps-remove_license, Ensures-pure,
        )
        depth 12

  pub Keeps-delete_all_in_tx :
      (rt : Runtime) (lics : List License) (memo : Option Text)
      → Keeps (delete_all_in_tx rt lics memo)
  unfolding delete_all_in_tx
  Keeps-delete_all_in_tx rt [] memo = Ensures-pure [] tt
  Keeps-delete_all_in_tx rt (lic ∷ lics) memo =
      after-Keeps (delete_license_in_tx rt lic memo) _ (Keeps-delete_license_in_tx rt lic memo)
        λ pair.
          after-Keeps (delete_all_in_tx rt lics memo) _ (Keeps-delete_all_in_tx rt lics memo)
            λ pairs. Ensures-pure (pair ∷ pairs) tt

  pub Keeps-run_tasks :
      (rt : Runtime) (sched : Scheduler) (pairs : List (Snapshot × Option RowId))
      → Keeps (run_tasks rt sched pairs)
  unfolding run_tasks
  Keeps-run_tasks rt sched [] = Ensures-pure tt tt
  Keeps-run_tasks rt sched ((snapshot, delivery) ∷ pairs) =
      after-Keeps (run_task rt sched delivery) _ (Keeps-run_task rt sched delivery)
        λ _. Keeps-run_tasks rt sched pairs
