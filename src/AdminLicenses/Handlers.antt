-- ===== src/AdminLicenses/Handlers.antt =====
-- Each handler keeps every license's webhook URL safe and its secret present, also where it raises.
use yg_license_server.Base.{Bool, Option, none, some, List, [], ◌∷◌}
use yg_license_server.Text.{Text}
use yg_license_server.Model.{RowId, Product, License, Status, Json, Source}
use yg_license_server.Runtime.{Runtime}
use yg_license_server.Session.{
  Session, Exec, Error, Result, ok, err, http_error, gets, or_raise, ◌>>=◌,
}
use yg_license_server.Session.Hoare.{
  Ensures, OnOk-Always, Ensures-pure, Ensures-gets, Ensures-raise,
}
use yg_license_server.Webhooks.Queue.{Scheduler}
use yg_license_server.Licenses.{
  revoke_license, disable_license, enable_license, configure_webhook, convert_webhook_to_self,
}
use yg_license_server.Licenses.Keep.{AllGood, Keep-query}
use yg_license_server.Licenses.HookSafe.{HookOk}
use yg_license_server.Licenses.HookServices.{
  Kept, after_plain, after_good, or_raise-plain, raise_if-plain, set_status-HookOk,
  edit_license-HookOk, configure_webhook-HookOk, convert_webhook_to_self-HookOk,
}
use yg_license_server.Licenses.HookRows.{
  issue_license-HookOk, delete_license-HookOk, delete_licenses_bulk-HookOk,
}
use yg_license_server.AdminLicenses.{
  Caller, require, catch, caught, IssueForm, issue_with, license_issue, EditForm, license_edit,
  license_webhook_update, WebhookConfigIn, require_bearer, config_out, admin_api_webhook_set,
  license_webhook_convert_to_self, license_revoke, license_disable, license_enable,
  license_delete_one, delete_selected, licenses_bulk_delete,
}

module _ (rt : Runtime) where
  weaken :
      {A : Type 0} {Q : A → Type 0} (m : Exec A) → Ensures (AllGood (HookOk rt)) Q m → Kept rt m
  weaken m h = record { at = λ s g. ((h.at s g).0, OnOk-Always (m s).0) }

  catch-Kept :
      {A : Type 0} (p : Error → Bool) (r : Result A) (t : Session)
      → AllGood (HookOk rt) t
      → AllGood (HookOk rt) (catch p (r, t)).1
  catch-Kept p (ok a) t h = h
  catch-Kept p (err e) t h = h

  caught-Kept : {A : Type 0} (p : Error → Bool) (m : Exec A) → Kept rt m → Kept rt (caught p m)
  caught-Kept p m kept = record {
    at = λ s h. (catch-Kept p (m s).0 (m s).1 (kept.at s h).0, OnOk-Always (caught p m s).0);
  }

  require-Kept : (c : Caller) → Kept rt (require c)
  unfolding require
  require-Kept c = search (after_plain, raise_if-plain) depth 6

  require_bearer-Kept : (auth : Option Text) → Kept rt (require_bearer rt auth)
  unfolding require_bearer
  require_bearer-Kept auth = search (after_plain, raise_if-plain) depth 6

  gets_or_raise-Kept :
      {A : Type 0} (f : Session → Option A) (e : Error)
      → Kept rt (gets f >>= λ found. or_raise found e)
  gets_or_raise-Kept f e = search (after_plain, Ensures-gets, or_raise-plain) depth 6

  revoke-Kept :
      (lic : License) (note : Option Text) (sched : Scheduler)
      → HookOk rt lic
      → Kept rt (revoke_license rt lic note sched)
  unfolding revoke_license
  revoke-Kept lic memo sched good = set_status-HookOk rt lic Status.revoked memo sched good

  disable-Kept :
      (lic : License) (note : Option Text) (sched : Scheduler)
      → HookOk rt lic
      → Kept rt (disable_license rt lic note sched)
  unfolding disable_license
  disable-Kept lic memo sched good = set_status-HookOk rt lic Status.disabled memo sched good

  enable-Kept :
      (lic : License) (note : Option Text) (sched : Scheduler)
      → HookOk rt lic
      → Kept rt (enable_license rt lic note sched)
  unfolding enable_license
  enable-Kept lic memo sched good = set_status-HookOk rt lic Status.active memo sched good

  pub issue_with-Kept :
      (slug : Text) (p : Product) (f : IssueForm) (features : Option Json)
      → Kept rt (issue_with rt slug p f features)
  unfolding issue_with
  issue_with-Kept slug p f none = Ensures-pure _ tt
  issue_with-Kept slug p f (some features) =
      search (after_plain, caught-Kept, issue_license-HookOk, Ensures-pure) depth 8

  pub license_issue-Kept :
      (c : Caller) (slug : Text) (f : IssueForm) → Kept rt (license_issue rt c slug f)
  unfolding license_issue
  license_issue-Kept c slug f =
      search (after_plain, require-Kept, gets_or_raise-Kept, issue_with-Kept) depth 8

  pub license_edit-Kept :
      (c : Caller) (lid : RowId) (f : EditForm) → Kept rt (license_edit rt c lid f)
  unfolding license_edit
  license_edit-Kept c lid f =
      search
        (
          after_good, after_plain, Keep-query, require-Kept, gets_or_raise-Kept, caught-Kept,
          edit_license-HookOk, Ensures-pure,
        )
        depth 14

  webhook-Kept :
      (lic : License) (url : Option Text) (rotate mint : Bool) (source : Source)
      (allow_http : Option Bool) (note : Option Text)
      → Kept rt (configure_webhook rt lic url rotate mint source allow_http note)
  webhook-Kept lic url rotate mint source allow_http memo =
      weaken _ (configure_webhook-HookOk rt lic url rotate mint source allow_http memo)

  pub license_webhook_update-Kept :
      (c : Caller) (lid : RowId) (url http rotate : Text)
      → Kept rt (license_webhook_update rt c lid url http rotate)
  unfolding license_webhook_update
  license_webhook_update-Kept c lid url http rotate =
      search
        (
          after_good, after_plain, Keep-query, require-Kept, gets_or_raise-Kept, caught-Kept,
          webhook-Kept, Ensures-pure,
        )
        depth 14

  config_out-Kept : (r : Result License) → Kept rt (config_out r)
  config_out-Kept (ok l) = Ensures-pure _ tt
  config_out-Kept (err e) = Ensures-raise (http_error 400 "unsafe webhook url")

  pub admin_api_webhook_set-Kept :
      (auth : Option Text) (lid : RowId) (b : WebhookConfigIn)
      → Kept rt (admin_api_webhook_set rt auth lid b)
  unfolding admin_api_webhook_set
  admin_api_webhook_set-Kept auth lid b =
      search
        (
          after_good, after_plain, Keep-query, require_bearer-Kept, caught-Kept, webhook-Kept,
          config_out-Kept,
        )
        depth 14

  convert-Kept :
      (lic : License) (note : Option Text)
      → HookOk rt lic
      → Kept rt (convert_webhook_to_self rt lic note)
  convert-Kept lic memo good = weaken _ (convert_webhook_to_self-HookOk rt lic memo good)

  pub license_convert-Kept :
      (c : Caller) (lid : RowId) → Kept rt (license_webhook_convert_to_self rt c lid)
  unfolding license_webhook_convert_to_self
  license_convert-Kept c lid =
      search
        (
          after_good, after_plain, Keep-query, require-Kept, gets_or_raise-Kept, caught-Kept,
          convert-Kept, Ensures-pure,
        )
        depth 14

  pub license_revoke-Kept : (c : Caller) (lid : RowId) → Kept rt (license_revoke rt c lid)
  unfolding license_revoke
  license_revoke-Kept c lid =
      search
        (
          after_good, after_plain, Keep-query, require-Kept, gets_or_raise-Kept, revoke-Kept,
          Ensures-pure,
        )
        depth 14

  pub license_disable-Kept : (c : Caller) (lid : RowId) → Kept rt (license_disable rt c lid)
  unfolding license_disable
  license_disable-Kept c lid =
      search
        (
          after_good, after_plain, Keep-query, require-Kept, gets_or_raise-Kept, disable-Kept,
          Ensures-pure,
        )
        depth 14

  pub license_enable-Kept : (c : Caller) (lid : RowId) → Kept rt (license_enable rt c lid)
  unfolding license_enable
  license_enable-Kept c lid =
      search
        (
          after_good, after_plain, Keep-query, require-Kept, gets_or_raise-Kept, enable-Kept,
          Ensures-pure,
        )
        depth 14

  pub license_delete_one-Kept : (c : Caller) (lid : RowId) → Kept rt (license_delete_one rt c lid)
  unfolding license_delete_one
  license_delete_one-Kept c lid =
      search
        (
          after_good, after_plain, Keep-query, require-Kept, gets_or_raise-Kept,
          delete_license-HookOk, Ensures-pure,
        )
        depth 14

  delete_selected-Kept :
      (slug : Text) (p : Product) (ids : List RowId) → Kept rt (delete_selected rt slug p ids)
  unfolding delete_selected
  delete_selected-Kept slug p [] = Ensures-pure _ tt
  delete_selected-Kept slug p (i ∷ ids) =
      search (after_plain, Ensures-gets, delete_licenses_bulk-HookOk, Ensures-pure) depth 8

  pub licenses_bulk_delete-Kept :
      (c : Caller) (slug : Text) (ids : List RowId) → Kept rt (licenses_bulk_delete rt c slug ids)
  unfolding licenses_bulk_delete
  licenses_bulk_delete-Kept c slug ids =
      search (after_plain, require-Kept, gets_or_raise-Kept, delete_selected-Kept) depth 8
