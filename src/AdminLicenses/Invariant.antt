-- ===== src/AdminLicenses/Invariant.antt =====
-- The invariant of the license rows over every sequence of requests.
use yg_license_server.Base.{some, List, [], ◌∷◌}
use yg_license_server.Model.{RowId}
use yg_license_server.Runtime.{Runtime}
use yg_license_server.Security.{is_safe_url_shape, is_safe_host}
use yg_license_server.Session.{Session, Exec, pure, ◌>>◌, rollback}
use yg_license_server.Session.Hoare.{Ensures-pure}
use yg_license_server.Webhooks.Queue.{Scheduler, run_task}
use yg_license_server.Licenses.Keep.{AllGood, Keep-run_task}
use yg_license_server.Licenses.HookSafe.{HookOk}
use yg_license_server.Licenses.HookServices.{Kept, after_plain}
use yg_license_server.Check.HookSafe.{check_license-HookOk}
use yg_license_server.AdminLicenses.Requests.{
  Request, handle, run_background, serve, Moment, at_moment, serve_all,
}
use yg_license_server.AdminLicenses.Handlers.{
  license_issue-Kept, license_edit-Kept, license_webhook_update-Kept, admin_api_webhook_set-Kept,
  license_convert-Kept, license_revoke-Kept, license_disable-Kept, license_enable-Kept,
  license_delete_one-Kept, licenses_bulk_delete-Kept,
}

module _ (rt : Runtime) where
  done : {A : Type 0} (m : Exec A) → Kept rt m → Kept rt (m >> pure tt)
  done m kept = after_plain m (λ _. pure tt) kept (λ _. Ensures-pure tt tt)

  handle-Kept : (r : Request) → Kept rt (handle rt r)
  unfolding handle
  handle-Kept (Request.issue c slug f) = done _ (license_issue-Kept rt c slug f)
  handle-Kept (Request.edit c lid f) = done _ (license_edit-Kept rt c lid f)
  handle-Kept (Request.webhook c lid url http rotate) =
      done _ (license_webhook_update-Kept rt c lid url http rotate)
  handle-Kept (Request.api_webhook auth lid b) = done _ (admin_api_webhook_set-Kept rt auth lid b)
  handle-Kept (Request.convert c lid) = done _ (license_convert-Kept rt c lid)
  handle-Kept (Request.revoke c lid) = done _ (license_revoke-Kept rt c lid)
  handle-Kept (Request.disable c lid) = done _ (license_disable-Kept rt c lid)
  handle-Kept (Request.enable c lid) = done _ (license_enable-Kept rt c lid)
  handle-Kept (Request.delete c lid) = done _ (license_delete_one-Kept rt c lid)
  handle-Kept (Request.bulk_delete c slug ids) = done _ (licenses_bulk_delete-Kept rt c slug ids)
  handle-Kept (Request.check a) = done _ (check_license-HookOk rt a)

  run_background-Kept : (ids : List RowId) → Kept rt (run_background rt ids)
  unfolding run_background
  run_background-Kept [] = Ensures-pure tt tt
  run_background-Kept (id ∷ ids) =
      after_plain (run_task rt Scheduler.inline (some id)) (λ _. run_background rt ids)
        (Keep-run_task (HookOk rt) rt Scheduler.inline (some id)) (λ _. run_background-Kept ids)

  serve-HookOk :
      (r : Request) (s : Session) → AllGood (HookOk rt) s → AllGood (HookOk rt) (serve rt r s)
  unfolding serve rollback
  serve-HookOk r s h =
      let g = ((handle-Kept r).at s h).0 in
      let t = rollback (handle rt r s).1 in
      ((run_background-Kept t.tasks).at (record t { tasks = [] }) (g.0, g.0)).0

-- Whatever requests come in whatever order, each at its own time and with its own answers of DNS and of
-- the receivers: form posts with or without a login, posts to the webhook endpoint, and
-- checks. If every license's webhook URL passes the shape check under the license's own http flag and
-- has a signing secret, then so it is behind all of them.
pub serve_all-HookOk :
    (rt : Runtime) (rs : List (Moment × Request)) (s : Session)
    → AllGood (HookOk rt) s
    → AllGood (HookOk rt) (serve_all rt rs s)
unfolding serve_all is_safe_url_shape is_safe_host
serve_all-HookOk rt [] s h = h
serve_all-HookOk rt ((m, r) ∷ rs) s h =
    serve_all-HookOk rt rs (serve (at_moment rt m) r s) (serve-HookOk (at_moment rt m) r s h)
