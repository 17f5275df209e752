-- ===== src/Licenses/HookRows.antt =====
-- The services that insert and delete licenses keep every license's webhook URL safe and its secret
-- present, also where they raise.
use yg_license_server.Base.{
  ◌≡◌, Bool, true, false, Option, none, some, List, [], ◌∷◌, is_some, arith,
}
use yg_license_server.Text.{Text, truthy}
use yg_license_server.Model.{RowId, License, Product, Customer}
use yg_license_server.Runtime.{Runtime}
use yg_license_server.Session.{
  Exec, Error, raise_if, when, ◌>>=◌, fresh_id, fresh_token, insert_customer,
}
use yg_license_server.Session.Hoare.{
  Ensures, Always, Ensures-pure, Ensures-bind, Ensures-gets, Ensures-lift, Ensures-raise_if,
}
use yg_license_server.Webhooks.Queue.{Scheduler, run_task}
use yg_license_server.Licenses.Hook.{minted}
use yg_license_server.Licenses.Issue.{
  IssueArgs, is_unsafe, or_insert, resolve_customer, send_license_email, issue_license,
}
use yg_license_server.Licenses.Delete.{
  Snapshot, delete_license_in_tx, delete_license, delete_all_in_tx, run_tasks, delete_licenses_bulk,
}
use yg_license_server.Licenses.Keep.{
  AllGood, Keep-insert_license, Keep-remove_license, Keep-commit, Keep-flush, Keep-add_event,
  Keep-append_customer, Keep-enqueue_to, Keep-run_task,
}
use yg_license_server.Licenses.HookSafe.{UrlOk, HookOk, minted-rule}
use yg_license_server.Licenses.HookServices.{Kept, after_plain, or_raise-plain, raise_if-plain}

module _ (rt : Runtime) where
  Keep-fresh_id : Kept rt fresh_id
  unfolding fresh_id
  Keep-fresh_id = record { at = λ s h. (h, tt) }

  Keep-fresh_token : Kept rt (fresh_token rt)
  unfolding fresh_token
  Keep-fresh_token = record { at = λ s h. (h, tt) }

  Keep-send_license_email : (to key name : Text) → Kept rt (send_license_email to key name)
  unfolding send_license_email
  Keep-send_license_email to key name = record { at = λ s h. (h, tt) }

  Keep-when : (b : Bool) (m : Exec Unit) → Kept rt m → Kept rt (when b m)
  Keep-when true m kept = kept
  Keep-when false m kept = Ensures-pure tt tt

  pub Keep-insert_customer :
      (stripe : Option Text) (email : Text) (name : Option Text)
      → Kept rt (insert_customer rt stripe email name)
  unfolding insert_customer
  Keep-insert_customer stripe email name =
      search
        (
          after_plain, Keep-fresh_id, Ensures-gets, raise_if-plain, Keep-append_customer,
          Keep-flush, Ensures-pure,
        )
        depth 12

  Keep-or_insert :
      (stripe : Option Text) (email : Text) (name : Option Text) (found : Option Customer)
      → Kept rt (or_insert rt stripe email name found)
  Keep-or_insert stripe email name none = Keep-insert_customer stripe email name
  Keep-or_insert stripe email name (some c) = Ensures-pure c tt

  Keep-resolve_customer : (a : IssueArgs) → Kept rt (resolve_customer rt a)
  unfolding resolve_customer
  Keep-resolve_customer a = search (after_plain, Ensures-gets, Keep-or_insert) depth 6

  -- the guard on the URL of a new license, and the secret that goes with it
  after_guard :
      {B : Type 0} {R : B → Type 0} (b : Bool) (e : Error) (f : Unit → Exec B)
      → (b ≡ false → Ensures (AllGood (HookOk rt)) R (f tt))
      → Ensures (AllGood (HookOk rt)) R (raise_if b e >>= f)
  after_guard b e f next = Ensures-bind (raise_if b e) f (Ensures-raise_if b e) (λ _ h. next h)

  after_mint :
      {B : Type 0} {R : B → Type 0} (url : Option Text) (flag : Bool) (f : Option Text → Exec B)
      → is_unsafe rt url flag ≡ false
      → ((secret : Option Text)
          → UrlOk rt url secret flag
          → Ensures (AllGood (HookOk rt)) R (f secret))
      → Ensures (AllGood (HookOk rt)) R (minted rt (is_some url) none >>= f)
  after_mint none flag f safe next =
      Ensures-bind (minted rt false none) f
        (minted-rule rt (λ _. Unit) rt false none (λ _ _. tt) (λ _. tt))
        (λ secret _. next secret tt)
  after_mint (some url) flag f safe next =
      Ensures-bind (minted rt true none) f
        (minted-rule rt (λ secret. truthy secret ≡ true) rt true none (λ t filled. filled)
          (λ e. ground arith))
        (λ secret filled. next secret (ground arith, filled))

  -- Issuing a license keeps every license's webhook URL safe and its secret present.
  pub issue_license-HookOk :
      (product : Product) (a : IssueArgs)
      → Ensures (AllGood (HookOk rt)) Always (issue_license rt product a)
  unfolding issue_license
  issue_license-HookOk product a =
      search
        (
          after_plain, after_guard, after_mint, Keep-resolve_customer, Keep-fresh_token,
          Keep-fresh_id, Ensures-lift, Keep-insert_license, Keep-add_event, Keep-commit, Keep-when,
          Keep-send_license_email, Ensures-pure,
        )
        depth 24

  Keep-delete_license_in_tx :
      (lic : License) (note : Option Text) → Kept rt (delete_license_in_tx rt lic note)
  unfolding delete_license_in_tx
  Keep-delete_license_in_tx lic memo =
      search
        (
          after_plain, Ensures-gets, or_raise-plain, Keep-add_event, Keep-enqueue_to,
          Keep-remove_license, Ensures-pure,
        )
        depth 16

  pub delete_license-HookOk :
      (lic : License) (sched : Scheduler) (note : Option Text)
      → Kept rt (delete_license rt lic sched note)
  unfolding delete_license
  delete_license-HookOk lic sched memo =
      search (after_plain, Keep-delete_license_in_tx, Keep-commit, Keep-run_task) depth 8

  Keep-delete_all_in_tx :
      (lics : List License) (note : Option Text) → Kept rt (delete_all_in_tx rt lics note)
  unfolding delete_all_in_tx
  Keep-delete_all_in_tx [] memo = Ensures-pure [] tt
  Keep-delete_all_in_tx (lic ∷ lics) memo =
      after_plain (delete_license_in_tx rt lic memo) _ (Keep-delete_license_in_tx lic memo) λ pair.
        after_plain (delete_all_in_tx rt lics memo) _ (Keep-delete_all_in_tx lics memo)
          λ pairs. Ensures-pure (pair ∷ pairs) tt

  Keep-run_tasks :
      (sched : Scheduler) (pairs : List (Snapshot × Option RowId))
      → Kept rt (run_tasks rt sched pairs)
  unfolding run_tasks
  Keep-run_tasks sched [] = Ensures-pure tt tt
  Keep-run_tasks sched ((snapshot, delivery) ∷ pairs) =
      after_plain (run_task rt sched delivery) _ (Keep-run_task (HookOk rt) rt sched delivery)
        (λ _. Keep-run_tasks sched pairs)

  pub delete_licenses_bulk-HookOk :
      (lics : List License) (sched : Scheduler) (note : Option Text)
      → Kept rt (delete_licenses_bulk rt lics sched note)
  unfolding delete_licenses_bulk
  delete_licenses_bulk-HookOk lics sched memo =
      search (after_plain, Keep-delete_all_in_tx, Keep-commit, Keep-run_tasks, Ensures-pure) depth
        10
