-- ===== src/Check/Keep.antt =====
-- The parts of a check that keep a property of every license row, whichever it is, and the whole check
-- where its handling of the installation's URL keeps it.
use yg_license_server.Base.{Option, none, some, ltb}
use yg_license_server.Text.{Text}
use yg_license_server.Model.{RowId, License, Install, Status, active, delinquent, disabled, revoked}
use yg_license_server.Runtime.{Runtime}
use yg_license_server.Session.{Exec, rejected, raise, raise_if, ◌>>=◌, fresh_id}
use yg_license_server.Session.Hoare.{
  Ensures, Always, Ensures-bind, Ensures-gets, Ensures-lift, Ensures-raise,
}
use yg_license_server.Licenses.Keep.{AllGood, Keep-commit, Keep-add_event, after_query}
use yg_license_server.Licenses.HookServices.{after_plain, or_raise-plain, raise_if-plain}
use yg_license_server.Check.{
  CheckArgs, validate, self_register_url, seen, upsert_install, check_license,
}

module _ (rt : Runtime) (Good : License → Type 0) where
  abbrev Kept : {A : Type 0} → Exec A → Type 0
  Kept = Ensures (AllGood Good) Always

  Keep-validate : (lic : License) → Kept (validate rt lic)
  unfolding validate
  Keep-validate lic = by_status lic.status
    where
      by_status :
          (st : Status)
          → Kept (elim st [
            | revoked ↦ raise (rejected "revoked" 401)
            | disabled ↦ raise (rejected "disabled" 401)
            | _ ↦ raise_if (ltb lic.valid_until rt.now) (rejected "expired" 401)
          ])
      by_status active = raise_if-plain (ltb lic.valid_until rt.now) (rejected "expired" 401)
      by_status delinquent = raise_if-plain (ltb lic.valid_until rt.now) (rejected "expired" 401)
      by_status revoked = Ensures-raise (rejected "revoked" 401)
      by_status disabled = Ensures-raise (rejected "disabled" 401)

  Keep-seen : (id : RowId) (a : CheckArgs) (old : Option Install) → Kept (seen rt id a old)
  unfolding fresh_id
  Keep-seen id a none = record { at = λ s h. (h, tt) }
  Keep-seen id a (some old) = record { at = λ s h. (h, tt) }

  Keep-upsert_install : (id : RowId) (a : CheckArgs) → Kept (upsert_install rt id a)
  unfolding upsert_install
  Keep-upsert_install id a = search (after_plain, Ensures-gets, Keep-seen) depth 6

  after_row :
      {B : Type 0} {R : B → Type 0} (m : Exec License) (f : License → Exec B)
      → Ensures (AllGood Good) Good m
      → ((lic : License) → Good lic → Ensures (AllGood Good) R (f lic))
      → Ensures (AllGood Good) R (m >>= f)
  after_row m f = Ensures-bind m f

  -- A check keeps a property of every license if the handling of the URL does.
  pub Keep-check_license :
      ((lic : License) (url : Option Text)
        → Good lic
        → Ensures (AllGood Good) Good (self_register_url rt lic url))
      → (a : CheckArgs) → Ensures (AllGood Good) Always (check_license rt a)
  unfolding check_license
  Keep-check_license kept a =
      search
        (
          after_plain, after_query, after_row, kept, Ensures-lift, Ensures-gets, or_raise-plain,
          Keep-validate, Keep-upsert_install, Keep-add_event, Keep-commit,
        )
        depth 24
