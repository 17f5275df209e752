-- ===== src/AdminLicenses/Guarded.antt =====
-- A form post without a login or with a wrong CSRF token has no effect.
use yg_license_server.Base.{◌≡◌, refl, ap, Bool, true, false, ◌&&◌, Option, none, some, arith}
use yg_license_server.Runtime.{Runtime}
use yg_license_server.Session.{Session, Exec, Error, err, http_error, login_required, pure, ◌>>=◌}
use yg_license_server.AdminLicenses.{
  Caller, require, license_issue, license_edit, license_webhook_update,
  license_webhook_convert_to_self, license_revoke, license_disable, license_enable,
  license_delete_one, licenses_bulk_delete,
}
use yg_license_server.AdminLicenses.Requests.{Request, handle}

-- who posts a form; the other requests have no session
abbrev pub caller_of : Request → Option Caller
caller_of (Request.issue c slug f) = some c
caller_of (Request.edit c lid f) = some c
caller_of (Request.webhook c lid url http rotate) = some c
caller_of (Request.api_webhook auth lid b) = none
caller_of (Request.convert c lid) = some c
caller_of (Request.revoke c lid) = some c
caller_of (Request.disable c lid) = some c
caller_of (Request.enable c lid) = some c
caller_of (Request.delete c lid) = some c
caller_of (Request.bulk_delete c slug ids) = some c
caller_of (Request.check a) = none

-- `m` ends in an error at once
record Fails {A : Type 0} (s : Session) (m : Exec A) : Type 0 where
  at : (e : Error) × (m s ≡ (err e, s))

-- the guards themselves
require-Fails :
    (l x : Bool) (s : Session)
    → (l && x) ≡ false
    → Fails s (require (record { logged_in = l; csrf_ok = x }))
unfolding require
require-Fails false x s h = record { at = (login_required, refl) }
require-Fails true false s h = record { at = (http_error 403 "invalid CSRF token", refl) }
require-Fails true true s h = ground arith

Fails-bind :
    {A B : Type 0} {s : Session} (m : Exec A) (f : A → Exec B) → Fails s m → Fails s (m >>= f)
Fails-bind {s = s} m f h = record { at = (h.at.0, ap (λ r. ◌>>=◌ (λ _. r) f s) h.at.1) }

Fails-idle : {A : Type 0} (s : Session) (m : Exec A) → Fails s m → (m s).1 ≡ s
Fails-idle s m h = ap (λ r. r.1) h.at.1

handle-Fails :
    (rt : Runtime) (r : Request) (c : Caller) (s : Session)
    → caller_of r ≡ some c
    → (c.logged_in && c.csrf_ok) ≡ false
    → Fails s (handle rt r)
unfolding handle license_issue license_edit license_webhook_update license_webhook_convert_to_self
    license_revoke license_disable license_enable license_delete_one licenses_bulk_delete
handle-Fails rt (Request.api_webhook auth lid b) c s e h = ground arith
handle-Fails rt (Request.check a) c s e h = ground arith
handle-Fails rt (Request.issue c' slug f) c s e h =
    let guards = require-Fails c'.logged_in c'.csrf_ok s (ground arith) in
    Fails-bind (license_issue rt c' slug f) (λ _. pure tt) (search (Fails-bind, guards) depth 4)
handle-Fails rt (Request.edit c' lid f) c s e h =
    let guards = require-Fails c'.logged_in c'.csrf_ok s (ground arith) in
    Fails-bind (license_edit rt c' lid f) (λ _. pure tt) (search (Fails-bind, guards) depth 4)
handle-Fails rt (Request.webhook c' lid url http rotate) c s e h =
    let guards = require-Fails c'.logged_in c'.csrf_ok s (ground arith) in
    Fails-bind (license_webhook_update rt c' lid url http rotate) (λ _. pure tt)
      (search (Fails-bind, guards) depth 4)
handle-Fails rt (Request.convert c' lid) c s e h =
    let guards = require-Fails c'.logged_in c'.csrf_ok s (ground arith) in
    Fails-bind (license_webhook_convert_to_self rt c' lid) (λ _. pure tt)
      (search (Fails-bind, guards) depth 4)
handle-Fails rt (Request.revoke c' lid) c s e h =
    let guards = require-Fails c'.logged_in c'.csrf_ok s (ground arith) in
    Fails-bind (license_revoke rt c' lid) (λ _. pure tt) (search (Fails-bind, guards) depth 4)
handle-Fails rt (Request.disable c' lid) c s e h =
    let guards = require-Fails c'.logged_in c'.csrf_ok s (ground arith) in
    Fails-bind (license_disable rt c' lid) (λ _. pure tt) (search (Fails-bind, guards) depth 4)
handle-Fails rt (Request.enable c' lid) c s e h =
    let guards = require-Fails c'.logged_in c'.csrf_ok s (ground arith) in
    Fails-bind (license_enable rt c' lid) (λ _. pure tt) (search (Fails-bind, guards) depth 4)
handle-Fails rt (Request.delete c' lid) c s e h =
    let guards = require-Fails c'.logged_in c'.csrf_ok s (ground arith) in
    Fails-bind (license_delete_one rt c' lid) (λ _. pure tt) (search (Fails-bind, guards) depth 4)
handle-Fails rt (Request.bulk_delete c' slug ids) c s e h =
    let guards = require-Fails c'.logged_in c'.csrf_ok s (ground arith) in
    Fails-bind (licenses_bulk_delete rt c' slug ids) (λ _. pure tt)
      (search (Fails-bind, guards) depth 4)

-- Whatever form is posted to the license pages: without a login, or with a token that does not fit, the
-- handler changes nothing in the session, so nothing in the database, and queues no delivery.
pub handle-refused :
    (rt : Runtime) (r : Request) (c : Caller) (s : Session)
    → caller_of r ≡ some c
    → (c.logged_in && c.csrf_ok) ≡ false
    → (handle rt r s).1 ≡ s
handle-refused rt r c s e h = Fails-idle s (handle rt r) (handle-Fails rt r c s e h)
