-- ===== src/Licenses/Keep.antt =====
-- Properties of every license row: the rules for the actions that the services are made of. A row
-- property is kept if every license that is saved or inserted has it.
use yg_license_server.Base.{
  suc, ◌≡◌, refl, sym, subst, Bool, true, Option, none, some, [], ◌∷◌, arith, All, All-append,
  All-find, find, All-update_where, All-delete_where, ◌==◌,
}
use yg_license_server.Text.{Text, nonempty}
use yg_license_server.Model.{
  RowId, License, Customer, WebhookEvent, WebhookData, EventType, Payload,
}
use yg_license_server.Runtime.{Runtime}
use yg_license_server.Session.{
  Session, Result, ok, err, Error, http_error, or_raise, load_license, Exec, pure, ◌>>=◌, add_event,
  flush, commit, rollback, save_license, gets, raise_if, integrity_error, append_license,
  append_customer, key_taken, insert_license,
}
use yg_license_server.Session.Hoare.{
  Ensures, Always, OnOk-Always, Ensures-pure, Ensures-raise, Ensures-bind, Ensures-gets,
  Ensures-raise_if,
}
use yg_license_server.Webhooks.{generate_secret}
use yg_license_server.Webhooks.Queue.{
  try_deliver, closed, attempt_in_fresh_session, run_task, Scheduler, inline, background,
}
use yg_license_server.Webhooks.Queue.Frame.{try_deliver-frame}
use yg_license_server.Licenses.Status.{enqueue_to}
use yg_license_server.Licenses.Delete.{remove_license}

module _ (Good : License → Type 0) where
  -- every license, committed or seen by the transaction, is good
  abbrev pub AllGood : Session → Type 0
  AllGood s = All Good s.store.licenses × All Good s.work.licenses

  pub Keep-save_license : (lic : License) → Good lic → Ensures AllGood Always (save_license lic)
  unfolding save_license
  Keep-save_license lic good = record {
    at = λ s h. (
      (
        h.0,
        All-update_where Good (λ l. l.id == lic.id) (λ _. lic) s.work.licenses (λ _ _ _. good) h.1,
      ),
      tt,
    );
  }

  Keep-append_license : (lic : License) → Good lic → Ensures AllGood Always (append_license lic)
  unfolding append_license
  Keep-append_license lic good = record {
    at = λ s h. ((h.0, All-append Good s.work.licenses (lic ∷ []) h.1 (good, tt)), tt);
  }

  pub Keep-insert_license : (lic : License) → Good lic → Ensures AllGood Always (insert_license lic)
  unfolding insert_license
  Keep-insert_license lic good =
      Ensures-bind (gets (λ s. s.work.licenses)) _ (Ensures-gets (λ s. s.work.licenses)) λ rows _.
        Ensures-bind (raise_if (key_taken lic rows) integrity_error) _
          (Ensures-raise_if (key_taken lic rows) integrity_error)
          λ _ _. Keep-append_license lic good

  pub Keep-remove_license : (lic : License) → Ensures AllGood Always (remove_license lic)
  unfolding remove_license
  Keep-remove_license lic = record {
    at = λ s h. ((h.0, All-delete_where Good (λ l. l.id == lic.id) s.work.licenses h.1), tt);
  }

  pub Keep-commit : Ensures AllGood Always commit
  unfolding commit
  Keep-commit = record { at = λ s h. ((h.1, h.1), tt) }

  pub Keep-flush : Ensures AllGood Always flush
  unfolding flush
  Keep-flush = record { at = λ s h. (h, tt) }

  pub Keep-add_event :
      (rt : Runtime) (license_id product_id : Option RowId) (type : EventType) (payload : Payload)
      (note : Option Text)
      → Ensures AllGood Always (add_event rt license_id product_id type payload note)
  unfolding add_event
  Keep-add_event rt license_id product_id type payload memo = record { at = λ s h. (h, tt) }

  pub Keep-generate_secret :
      (rt : Runtime) → Ensures AllGood (λ t. nonempty t ≡ true) (generate_secret rt)
  unfolding generate_secret
  Keep-generate_secret rt = record { at = λ s h. (h, refl) }

  pub Keep-enqueue_to :
      (rt : Runtime) (hook : Option (Text × Text)) (event_type : WebhookEvent)
      (payload : WebhookData) (license_id : Option RowId) (product_id : RowId)
      → Ensures AllGood Always (enqueue_to rt hook event_type payload license_id product_id)
  unfolding enqueue_to
  Keep-enqueue_to rt none event_type payload license_id product_id = record { at = λ s h. (h, tt) }
  Keep-enqueue_to rt (some hook) event_type payload license_id product_id = record {
    at = λ s h. (h, tt);
  }

  try_deliver-AllGood :
      (rt : Runtime) (id : RowId) (s : Session) → AllGood s → AllGood (try_deliver rt id s).1
  try_deliver-AllGood rt id s h =
      let same = (try_deliver-frame rt s id (suc id) (omega arith)).0 in
      (subst (λ db. All Good db.licenses) (sym same.0) h.0, subst (All Good) (sym same.1) h.1)

  closed-AllGood : (r : Result Bool × Session) → AllGood r.1 → AllGood (closed r).1
  unfolding closed
  closed-AllGood (ok done, s) h = (h.1, h.1)
  closed-AllGood (err e, s) h = (h.0, h.0)

  pub Keep-run_task :
      (rt : Runtime) (sched : Scheduler) (delivery : Option RowId)
      → Ensures AllGood Always (run_task rt sched delivery)
  unfolding run_task
  Keep-run_task rt sched none = record { at = λ s h. (h, tt) }
  Keep-run_task rt background (some id) = record { at = λ s h. (h, tt) }
  Keep-run_task rt inline (some id) =
      Ensures-bind (attempt_in_fresh_session rt id) (λ _. pure tt) attempted
        (λ _ _. Ensures-pure tt tt)
    where
      attempted : Ensures AllGood Always (attempt_in_fresh_session rt id)
      attempted = record {
        at = λ s h. (
          closed-AllGood (try_deliver rt id (rollback s))
              (try_deliver-AllGood rt id (rollback s) (h.0, h.0)),
          OnOk-Always (attempt_in_fresh_session rt id s).0,
        );
      }

  pub Keep-append_customer : (cust : Customer) → Ensures AllGood Always (append_customer cust)
  unfolding append_customer
  Keep-append_customer cust = record { at = λ s h. (h, tt) }

  Keep-found :
      (found : Option License) (e : Error)
      → ((lic : License) → found ≡ some lic → Good lic)
      → Ensures AllGood Good (or_raise found e)
  Keep-found none e good = Ensures-raise e
  Keep-found (some lic) e good = Ensures-pure lic (good lic refl)

  -- a query by a test on the row, with an error where there is none
  pub Keep-query :
      (p : License → Bool) (e : Error)
      → Ensures AllGood Good ((gets (λ s. find p s.work.licenses)) >>= λ found. or_raise found e)
  Keep-query p e = record {
    at = λ s h.
        (Keep-found (find p s.work.licenses) e
            (λ lic f. All-find Good p s.work.licenses lic h.1 f)).at
          s h;
  }

  pub Keep-load_license : (id : RowId) → Ensures AllGood Good (load_license id)
  unfolding load_license
  Keep-load_license id = Keep-query (λ l. l.id == id) (http_error 404 "license not found")

  -- the same, followed by the code that uses the row
  pub after_query :
      {B : Type 0} {R : B → Type 0} (p : License → Bool) (e : Error) (f : License → Exec B)
      → ((lic : License) → Good lic → Ensures AllGood R (f lic))
      → Ensures AllGood R (gets (λ s. find p s.work.licenses) >>= λ found. or_raise found e >>= f)
  after_query p e f next = record {
    at = λ s h.
        (Ensures-bind (or_raise (find p s.work.licenses) e) f
            (Keep-found (find p s.work.licenses) e
              (λ lic found. All-find Good p s.work.licenses lic h.1 found))
            next).at
          s h;
  }
