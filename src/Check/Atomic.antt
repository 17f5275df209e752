-- ===== src/Check/Atomic.antt =====
-- A check that is rejected, or fails otherwise, changes nothing.
use yg_license_server.Base.{
  ◌≡◌, refl, Bool, true, false, not, ◌||◌, Option, none, some, ltb, length,
}
use yg_license_server.Text.{Text, strip, nonempty, truthy, text_opt_eq}
use yg_license_server.Model.{
  RowId, Db, License, Install, Source, admin, self, Status, active, delinquent, disabled, revoked,
}
use yg_license_server.Runtime.{Runtime}
use yg_license_server.Security.{is_safe_url_shape}
use yg_license_server.Session.{Session, Exec, Error, err, rejected, pure, raise, raise_if, fresh_id}
use yg_license_server.Session.Hoare.{Ensures-pure, Ensures-gets, Ensures-lift, Ensures-raise}
use yg_license_server.Session.Atomic.{
  Atomic, Uncommitted, Uncommitted-add_event, Uncommitted-save_license, Uncommitted-test,
  Atomic-bind, Atomic-commit,
}
use yg_license_server.Webhooks.{generate_secret}
use yg_license_server.Licenses.{minted}
use yg_license_server.Licenses.HookServices.{after_plain, or_raise-plain, raise_if-plain}
use yg_license_server.Check.{
  CheckArgs, candidate_of, validate, refuse_override, self_register, backfill, register_url,
  self_register_url, seen, upsert_install, check_license,
}

module _ (rt : Runtime) (x : Db) where
  Uncommitted-generate_secret : Uncommitted x (generate_secret rt)
  unfolding generate_secret
  Uncommitted-generate_secret = record { at = λ s h. (h, tt) }

  Uncommitted-minted : (b : Bool) (old : Option Text) → Uncommitted x (minted rt b old)
  unfolding minted
  Uncommitted-minted true old =
      search (after_plain, Uncommitted-generate_secret, Ensures-pure) depth 6
  Uncommitted-minted false old = Ensures-pure old tt

  Uncommitted-refuse : (lic : License) (u : Text) → Uncommitted x (refuse_override rt lic u)
  unfolding refuse_override
  Uncommitted-refuse lic u = search (after_plain, Uncommitted-add_event, Ensures-pure) depth 6

  Uncommitted-self_register : (lic : License) (u : Text) → Uncommitted x (self_register rt lic u)
  unfolding self_register
  Uncommitted-self_register lic u =
      search
        (
          after_plain, Uncommitted-add_event, Uncommitted-minted, Uncommitted-save_license,
          Ensures-pure,
        )
        depth 12

  Uncommitted-backfill : (lic : License) → Uncommitted x (backfill rt lic)
  unfolding backfill
  Uncommitted-backfill lic =
      search
        (
          after_plain, Uncommitted-generate_secret, Uncommitted-add_event, Uncommitted-save_license,
          Ensures-pure,
        )
        depth 12

  Uncommitted-branch :
      (source : Source) (m k : Exec License)
      → Uncommitted x m
      → Uncommitted x k
      → Uncommitted x (elim source [ admin ↦ m | self ↦ k ])
  Uncommitted-branch admin m k hm hk = hm
  Uncommitted-branch self m k hm hk = hk

  Uncommitted-register_url : (lic : License) (u : Text) → Uncommitted x (register_url rt lic u)
  unfolding register_url
  Uncommitted-register_url lic u =
      let same = Ensures-pure lic tt in
      Uncommitted-test x (not (text_opt_eq lic.webhook_url (some u))) _ _
        (Uncommitted-branch lic.webhook_url_source _ _ (Uncommitted-refuse lic u)
          (Uncommitted-self_register lic u))
        (Uncommitted-branch lic.webhook_url_source _ _ same
          (Uncommitted-test x (truthy lic.webhook_secret) _ _ same (Uncommitted-backfill lic)))

  Uncommitted-self_register_url :
      (lic : License) (url : Option Text) → Uncommitted x (self_register_url rt lic url)
  unfolding self_register_url
  Uncommitted-self_register_url lic none = Ensures-pure lic tt
  Uncommitted-self_register_url lic (some u) =
      let bad =
        ltb 500 (length (candidate_of u))
        || not (is_safe_url_shape rt (candidate_of u) lic.allow_http_webhook) in
      Uncommitted-test x (nonempty (strip u)) _ (pure lic)
        (after_plain (raise_if bad (rejected "invalid_public_url" 400)) _
          (raise_if-plain bad (rejected "invalid_public_url" 400))
          (λ _. Uncommitted-register_url lic (candidate_of u)))
        (Ensures-pure lic tt)

  Uncommitted-validate : (lic : License) → Uncommitted x (validate rt lic)
  unfolding validate
  Uncommitted-validate lic = by_status lic.status
    where
      by_status :
          (st : Status)
          → Uncommitted x (elim st [
            | revoked ↦ raise (rejected "revoked" 401)
            | disabled ↦ raise (rejected "disabled" 401)
            | _ ↦ raise_if (ltb lic.valid_until rt.now) (rejected "expired" 401)
          ])
      by_status active = raise_if-plain (ltb lic.valid_until rt.now) (rejected "expired" 401)
      by_status delinquent = raise_if-plain (ltb lic.valid_until rt.now) (rejected "expired" 401)
      by_status revoked = Ensures-raise (rejected "revoked" 401)
      by_status disabled = Ensures-raise (rejected "disabled" 401)

  Uncommitted-seen :
      (id : RowId) (a : CheckArgs) (old : Option Install) → Uncommitted x (seen rt id a old)
  unfolding fresh_id
  Uncommitted-seen id a none = record { at = λ s h. (h, tt) }
  Uncommitted-seen id a (some old) = record { at = λ s h. (h, tt) }

  Uncommitted-upsert : (id : RowId) (a : CheckArgs) → Uncommitted x (upsert_install rt id a)
  unfolding upsert_install
  Uncommitted-upsert id a = search (after_plain, Ensures-gets, Uncommitted-seen) depth 6

  check_license-Atomic : (a : CheckArgs) → Atomic x (check_license rt a)
  unfolding check_license
  check_license-Atomic a =
      search
        (
          Atomic-commit, Atomic-bind, Ensures-lift, Ensures-gets, or_raise-plain,
          Uncommitted-validate, Uncommitted-self_register_url, Uncommitted-upsert,
          Uncommitted-add_event,
        )
        depth 24

-- A check that is answered by an error leaves the database as it is: no URL is registered, no secret
-- minted, no installation recorded and no event written.
pub check_license-failed :
    (rt : Runtime) (a : CheckArgs) (s : Session) (e : Error)
    → (check_license rt a s).0 ≡ err e
    → (check_license rt a s).1.store ≡ s.store
check_license-failed rt a s e failed = (check_license-Atomic rt s.store a).at s refl e failed
