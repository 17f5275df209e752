-- ===== src/Licenses/HookServices.antt =====
-- Each service of app/services/licenses.py keeps every license's webhook URL safe and its secret
-- present, also where it raises.
use yg_license_server.Base.{◌≡◌, Bool, true, false, Option, none, some}
use yg_license_server.Text.{Text, nonempty}
use yg_license_server.Model.{License, Status, Source}
use yg_license_server.Runtime.{Runtime}
use yg_license_server.Session.{Session, Exec, Error, or_raise, raise_if, ◌>>=◌}
use yg_license_server.Session.Hoare.{
  Ensures, Always, Ensures-pure, Ensures-bind, Ensures-gets, Ensures-raise,
}
use yg_license_server.Webhooks.{generate_secret}
use yg_license_server.Webhooks.Queue.{Scheduler}
use yg_license_server.Licenses.Hook.{configure_webhook, convert_webhook_to_self}
use yg_license_server.Licenses.Status.{set_status}
use yg_license_server.Licenses.Edit.{EditArgs, edit_license}
use yg_license_server.Licenses.Keep.{
  AllGood, Keep-save_license, Keep-commit, Keep-add_event, Keep-generate_secret, Keep-enqueue_to,
  Keep-run_task,
}
use yg_license_server.Licenses.HookSafe.{HookOk, apply_webhook_config-HookOk}
use yg_license_server.Licenses.HookEdit.{healed, edit_webhook-HookOk}

-- Rules that follow a `do` block: the first action, then the rest.
module _ {A B : Type 0} {P : Session → Type 0} {R : B → Type 0} where
  pub after_plain :
      (m : Exec A) (f : A → Exec B)
      → Ensures P Always m
      → ((a : A) → Ensures P R (f a))
      → Ensures P R (m >>= f)
  after_plain m f first next = Ensures-bind m f first (λ a _. next a)

pub or_raise-plain :
    {P : Session → Type 0} {A : Type 0} (o : Option A) (e : Error) → Ensures P Always (or_raise o e)
or_raise-plain none e = Ensures-raise e
or_raise-plain (some a) e = Ensures-pure a tt

pub raise_if-plain : {P : Session → Type 0} (b : Bool) (e : Error) → Ensures P Always (raise_if b e)
raise_if-plain true e = Ensures-raise e
raise_if-plain false e = Ensures-pure tt tt

module _ (rt : Runtime) where
  abbrev pub Kept : {A : Type 0} → Exec A → Type 0
  Kept = Ensures (AllGood (HookOk rt)) Always

  pub set_status-HookOk :
      (lic : License) (new_status : Status) (note : Option Text) (sched : Scheduler)
      → HookOk rt lic
      → Kept (set_status rt lic new_status note sched)
  unfolding set_status
  set_status-HookOk lic new_status memo sched good =
      search
        (
          after_plain, Keep-save_license, Keep-add_event, Ensures-gets, Keep-enqueue_to,
          Keep-commit, Keep-run_task, good,
        )
        depth 12

  -- the same for an action that returns a license with the property, and for a new secret
  pub after_good :
      {B : Type 0} {R : B → Type 0} (m : Exec License) (f : License → Exec B)
      → Ensures (AllGood (HookOk rt)) (HookOk rt) m
      → ((lic : License) → HookOk rt lic → Ensures (AllGood (HookOk rt)) R (f lic))
      → Ensures (AllGood (HookOk rt)) R (m >>= f)
  after_good m f = Ensures-bind m f

  pub after_secret :
      {B : Type 0} {R : B → Type 0} (f : Text → Exec B)
      → ((t : Text) → nonempty t ≡ true → Ensures (AllGood (HookOk rt)) R (f t))
      → Ensures (AllGood (HookOk rt)) R (generate_secret rt >>= f)
  after_secret f = Ensures-bind (generate_secret rt) f (Keep-generate_secret (HookOk rt) rt)

  -- A form that edits a license keeps every license's webhook URL safe and its secret present,
  -- also where the edit is refused.
  pub edit_license-HookOk :
      (lic : License) (a : EditArgs) (sched : Scheduler)
      → HookOk rt lic
      → Kept (edit_license rt lic a sched)
  unfolding edit_license
  edit_license-HookOk lic a sched good =
      search
        (
          after_plain, after_good, edit_webhook-HookOk, or_raise-plain, Keep-save_license,
          Keep-add_event, Ensures-gets, Keep-enqueue_to, Keep-commit, Keep-run_task, Ensures-pure,
          good,
        )
        depth 20

  pub configure_webhook-HookOk :
      (lic : License) (url : Option Text) (rotate mint : Bool) (source : Source)
      (allow_http : Option Bool) (note : Option Text)
      → Ensures
          (AllGood (HookOk rt))
          (HookOk rt)
          (configure_webhook rt lic url rotate mint source allow_http note)
  unfolding configure_webhook
  configure_webhook-HookOk lic url rotate mint source allow_http memo =
      search
        (
          after_plain, after_good, apply_webhook_config-HookOk, Keep-add_event, Keep-commit,
          Ensures-pure,
        )
        depth 12

  pub convert_webhook_to_self-HookOk :
      (lic : License) (note : Option Text)
      → HookOk rt lic
      → Ensures (AllGood (HookOk rt)) (HookOk rt) (convert_webhook_to_self rt lic note)
  unfolding convert_webhook_to_self
  convert_webhook_to_self-HookOk lic memo good =
      search
        (
          after_plain, after_secret, raise_if-plain, healed, Keep-save_license, Keep-add_event,
          Keep-commit, Ensures-pure, good,
        )
        depth 16
