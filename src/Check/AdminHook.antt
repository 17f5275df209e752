-- ===== src/Check/AdminHook.antt =====
-- A check never changes a webhook that the administrator set.
use yg_license_server.Base.{
  ◌≡◌, ◌≢◌, refl, Bool, true, false, not, ◌||◌, Option, none, some, ltb, length, arith,
  if◌then◌else◌,
}
use yg_license_server.Text.{Text, strip, nonempty, truthy, text_opt_eq}
use yg_license_server.Model.{RowId, License, Source, admin, self}
use yg_license_server.Runtime.{Runtime}
use yg_license_server.Security.{is_safe_url_shape}
use yg_license_server.Session.{Session, Exec, rejected, pure, raise_if}
use yg_license_server.Session.Hoare.{Ensures, Always, Ensures-pure, Ensures-bind}
use yg_license_server.Webhooks.{generate_secret}
use yg_license_server.Licenses.{minted}
use yg_license_server.Licenses.Keep.{
  AllGood, Keep-save_license, Keep-add_event, Keep-generate_secret,
}
use yg_license_server.Licenses.HookServices.{after_plain, raise_if-plain}
use yg_license_server.Check.{
  CheckArgs, candidate_of, refuse_override, self_register, backfill, register_url,
  self_register_url, check_license,
}
use yg_license_server.Check.Keep.{Keep-check_license}

-- every row of the license has this URL and this secret, both set by the administrator
abbrev pub AdminHook : RowId → Option Text → Option Text → License → Type 0
AdminHook id url secret l =
    l.id ≡ id → (l.webhook_url_source ≡ admin) × (l.webhook_url ≡ url) × (l.webhook_secret ≡ secret)

module _ (rt : Runtime) (id : RowId) (url secret : Option Text) where
  abbrev Good : License → Type 0
  Good = AdminHook id url secret

  abbrev Hooked : Exec License → Type 0
  Hooked = Ensures (AllGood Good) Good

  -- a row of another license, since this one is self-registered
  other : (lic : License) → lic.webhook_url_source ≡ self → Good lic → lic.id ≢ id
  other lic e good i = ground arith

  refuse-AdminHook :
      (lic : License) (candidate : Text) → Good lic → Hooked (refuse_override rt lic candidate)
  unfolding refuse_override
  refuse-AdminHook lic candidate good =
      search (after_plain, Keep-add_event, Ensures-pure, good) depth 6

  minted-AdminHook :
      (b : Bool) (old : Option Text) → Ensures (AllGood Good) Always (minted rt b old)
  unfolding minted
  minted-AdminHook true old =
      Ensures-bind (generate_secret rt) (λ t. pure (some t)) (Keep-generate_secret Good rt)
        (λ t _. Ensures-pure (some t) tt)
  minted-AdminHook false old = Ensures-pure old tt

  -- what is written into a self-registered row
  moved :
      (lic : License) (u : Option Text) (secret' : Option Text)
      → lic.id ≢ id
      → Good (record lic { webhook_url = u; webhook_url_source = self; webhook_secret = secret' })
  moved lic u secret' ne i = elim (ne i) [ ]

  refilled :
      (lic : License) (secret' : Option Text)
      → lic.id ≢ id
      → Good (record lic { webhook_secret = secret' })
  refilled lic secret' ne i = elim (ne i) [ ]

  self_register-AdminHook :
      (lic : License) (candidate : Text) → lic.id ≢ id → Hooked (self_register rt lic candidate)
  unfolding self_register
  self_register-AdminHook lic candidate ne =
      search
        (after_plain, Keep-add_event, minted-AdminHook, Keep-save_license, Ensures-pure, moved, ne)
        depth 12

  secret-AdminHook : Ensures (AllGood Good) Always (generate_secret rt)
  unfolding generate_secret
  secret-AdminHook = record { at = λ s h. (h, tt) }

  backfill-AdminHook : (lic : License) → lic.id ≢ id → Hooked (backfill rt lic)
  unfolding backfill
  backfill-AdminHook lic ne =
      search
        (
          after_plain, secret-AdminHook, Keep-save_license, Keep-add_event, Ensures-pure, refilled,
          ne,
        )
        depth 12

  by_source :
      (source : Source) (m k : Exec License)
      → (source ≡ admin → Hooked m)
      → (source ≡ self → Hooked k)
      → Hooked (elim source [ admin ↦ m | self ↦ k ])
  by_source admin m k hm hk = hm refl
  by_source self m k hm hk = hk refl

  test : (b : Bool) (m k : Exec License) → Hooked m → Hooked k → Hooked (if b then m else k)
  test true m k hm hk = hm
  test false m k hm hk = hk

  register_url-AdminHook :
      (lic : License) (candidate : Text) → Good lic → Hooked (register_url rt lic candidate)
  unfolding register_url
  register_url-AdminHook lic candidate good =
      test (not (text_opt_eq lic.webhook_url (some candidate))) _ _
        (by_source lic.webhook_url_source (refuse_override rt lic candidate)
          (self_register rt lic candidate) (λ _. refuse-AdminHook lic candidate good)
          (λ e. self_register-AdminHook lic candidate (other lic e good)))
        (by_source lic.webhook_url_source (pure lic)
          (if truthy lic.webhook_secret then pure lic else backfill rt lic)
          (λ _. Ensures-pure lic good)
          (λ e.
            test (truthy lic.webhook_secret) (pure lic) (backfill rt lic) (Ensures-pure lic good)
              (backfill-AdminHook lic (other lic e good))))

  self_register_url-AdminHook :
      (lic : License) (public_url : Option Text)
      → Good lic
      → Hooked (self_register_url rt lic public_url)
  unfolding self_register_url
  self_register_url-AdminHook lic none good = Ensures-pure lic good
  self_register_url-AdminHook lic (some u) good =
      let bad =
        ltb 500 (length (candidate_of u))
        || not (is_safe_url_shape rt (candidate_of u) lic.allow_http_webhook) in
      test (nonempty (strip u)) _ (pure lic)
        (after_plain (raise_if bad (rejected "invalid_public_url" 400)) _
          (raise_if-plain bad (rejected "invalid_public_url" 400))
          (λ _. register_url-AdminHook lic (candidate_of u) good))
        (Ensures-pure lic good)

-- Where every row with a license's id has a webhook that the administrator set, with one URL and one
-- secret, a check leaves all that as it is, in the transaction and in the database, whatever
-- URL the installation registers and whatever the check answers.
pub check_license-AdminHook :
    (rt : Runtime) (id : RowId) (url secret : Option Text) (a : CheckArgs) (s : Session)
    → AllGood (AdminHook id url secret) s
    → AllGood (AdminHook id url secret) (check_license rt a s).1
check_license-AdminHook rt id url secret a s good =
    ((Keep-check_license rt (AdminHook id url secret) (self_register_url-AdminHook rt id url secret)
        a).at
      s good).0
