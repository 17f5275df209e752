-- ===== src/AdminLicenses/Requests.antt =====
-- Requests to the server in any order: form posts, the programmatic webhook endpoint and checks, each at
-- its own moment, with its background tasks behind it.
use yg_license_server.Base.{ℕ, Option, some, List, [], ◌∷◌}
use yg_license_server.Text.{Text}
use yg_license_server.Model.{RowId, Time}
use yg_license_server.Runtime.{Lookup, Runtime, HttpRequest, HttpReply}
use yg_license_server.Session.{Session, Exec, pure, ◌>>◌, rollback}
use yg_license_server.Webhooks.Queue.{Scheduler, run_task}
use yg_license_server.Check.{CheckArgs, check_license}
use yg_license_server.AdminLicenses.{
  Caller, IssueForm, license_issue, EditForm, license_edit, license_webhook_update, WebhookConfigIn,
  admin_api_webhook_set, license_webhook_convert_to_self, license_revoke, license_disable,
  license_enable, license_delete_one, licenses_bulk_delete,
}

pub data Request : Type 0 where
  issue : Caller → Text → IssueForm → Request
  edit : Caller → RowId → EditForm → Request
  webhook : Caller → RowId → Text → Text → Text → Request
  api_webhook : Option Text → RowId → WebhookConfigIn → Request
  convert revoke disable enable delete : Caller → RowId → Request
  bulk_delete : Caller → Text → List RowId → Request
  check : CheckArgs → Request

-- the handler of a request; the reply does not matter here
unfoldable pub handle : Runtime → Request → Exec Unit
handle rt (Request.issue c slug f) = license_issue rt c slug f >> pure tt
handle rt (Request.edit c lid f) = license_edit rt c lid f >> pure tt
handle rt (Request.webhook c lid url http rotate) =
    license_webhook_update rt c lid url http rotate >> pure tt
handle rt (Request.api_webhook auth lid b) = admin_api_webhook_set rt auth lid b >> pure tt
handle rt (Request.convert c lid) = license_webhook_convert_to_self rt c lid >> pure tt
handle rt (Request.revoke c lid) = license_revoke rt c lid >> pure tt
handle rt (Request.disable c lid) = license_disable rt c lid >> pure tt
handle rt (Request.enable c lid) = license_enable rt c lid >> pure tt
handle rt (Request.delete c lid) = license_delete_one rt c lid >> pure tt
handle rt (Request.bulk_delete c slug ids) = licenses_bulk_delete rt c slug ids >> pure tt
handle rt (Request.check a) = check_license rt a >> pure tt

-- the background tasks of a request, each in a session of its own
unfoldable pub run_background : Runtime → List RowId → Exec Unit
unfolding run_task
run_background rt [] = pure tt
run_background rt (id ∷ ids) = run_task rt Scheduler.inline (some id) >> run_background rt ids

-- one request: its handler, the end of its session, and its background tasks
unfoldable pub serve : Runtime → Request → Session → Session
unfolding handle run_background rollback
serve rt r s =
    let t = rollback (handle rt r s).1 in (run_background rt t.tasks (record t { tasks = [] })).1

-- What differs from one request to the next: the time, the network and the receivers.
pub record Moment : Type 0 where
  pub now : Time
  pub getaddrinfo : Text → ℕ → Lookup
  pub post : HttpRequest → HttpReply

abbrev pub at_moment : Runtime → Moment → Runtime
at_moment rt m = record rt { now = m.now; getaddrinfo = m.getaddrinfo; post = m.post }

unfoldable pub serve_all : Runtime → List (Moment × Request) → Session → Session
unfolding serve
serve_all rt [] s = s
serve_all rt ((m, r) ∷ rs) s = serve_all rt rs (serve (at_moment rt m) r s)
