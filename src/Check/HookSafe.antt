-- ===== src/Check/HookSafe.antt =====
-- A check keeps every license's webhook URL safe and its secret present, although the URL that it
-- stores comes from the installation.
use yg_license_server.Base.{
  ◌≡◌, Bool, true, false, not, ◌||◌, Option, none, some, ltb, length, arith, if◌then◌else◌,
}
use yg_license_server.Text.{Text, strip, nonempty, truthy, text_opt_eq}
use yg_license_server.Model.{License, Source, admin, self}
use yg_license_server.Runtime.{Runtime}
use yg_license_server.Security.{is_safe_url_shape}
use yg_license_server.Session.{Exec, rejected, pure, raise_if, ◌>>=◌}
use yg_license_server.Session.Hoare.{Ensures, Ensures-pure, Ensures-bind, Ensures-raise_if}
use yg_license_server.Licenses.{minted}
use yg_license_server.Licenses.Keep.{AllGood, Keep-save_license, Keep-add_event}
use yg_license_server.Licenses.HookSafe.{UrlOk, HookOk, minted-rule}
use yg_license_server.Licenses.HookEdit.{healed}
use yg_license_server.Licenses.HookServices.{Kept, after_plain, after_secret}
use yg_license_server.Check.{
  CheckArgs, candidate_of, refuse_override, self_register, backfill, register_url,
  self_register_url, check_license,
}
use yg_license_server.Check.Keep.{Keep-check_license}

module _ (rt : Runtime) where
  abbrev KeptHook : Exec License → Type 0
  KeptHook = Ensures (AllGood (HookOk rt)) (HookOk rt)

  refuse_override-HookOk :
      (lic : License) (candidate : Text)
      → HookOk rt lic
      → KeptHook (refuse_override rt lic candidate)
  unfolding refuse_override
  refuse_override-HookOk lic candidate good =
      search (after_plain, Keep-add_event, Ensures-pure, good) depth 6

  backfill-HookOk : (lic : License) → HookOk rt lic → KeptHook (backfill rt lic)
  unfolding backfill
  backfill-HookOk lic good =
      search
        (after_plain, after_secret, healed, Keep-save_license, Keep-add_event, Ensures-pure, good)
        depth 12

  -- a secret for a URL that passes the check
  after_mint :
      {B : Type 0} {R : B → Type 0} (url : Text) (secret : Option Text) (flag : Bool)
      (f : Option Text → Exec B)
      → is_safe_url_shape rt url flag ≡ true
      → ((s : Option Text) → UrlOk rt (some url) s flag → Ensures (AllGood (HookOk rt)) R (f s))
      → Ensures (AllGood (HookOk rt)) R (minted rt (not (truthy secret)) secret >>= f)
  after_mint url secret flag f safe next =
      Ensures-bind (minted rt (not (truthy secret)) secret) f
        (minted-rule rt (λ s. truthy s ≡ true) rt (not (truthy secret)) secret (λ t filled. filled)
          (λ e. ground arith))
        (λ s filled. next s (safe, filled))

  self_register-HookOk :
      (lic : License) (candidate : Text)
      → is_safe_url_shape rt candidate lic.allow_http_webhook ≡ true
      → KeptHook (self_register rt lic candidate)
  unfolding self_register
  self_register-HookOk lic candidate safe =
      search (after_plain, after_mint, Keep-save_license, Keep-add_event, Ensures-pure, safe) depth
        12

  branch :
      (source : Source) (m k : Exec License)
      → KeptHook m
      → KeptHook k
      → KeptHook (elim source [ admin ↦ m | self ↦ k ])
  branch admin m k hm hk = hm
  branch self m k hm hk = hk

  test : (b : Bool) (m k : Exec License) → KeptHook m → KeptHook k → KeptHook (if b then m else k)
  test true m k hm hk = hm
  test false m k hm hk = hk

  register_url-HookOk :
      (lic : License) (candidate : Text)
      → HookOk rt lic
      → is_safe_url_shape rt candidate lic.allow_http_webhook ≡ true
      → KeptHook (register_url rt lic candidate)
  unfolding register_url
  register_url-HookOk lic candidate good safe =
      test (not (text_opt_eq lic.webhook_url (some candidate))) _ _
        (branch lic.webhook_url_source (refuse_override rt lic candidate)
          (self_register rt lic candidate) (refuse_override-HookOk lic candidate good)
          (self_register-HookOk lic candidate safe))
        (branch lic.webhook_url_source (pure lic)
          (if truthy lic.webhook_secret then pure lic else backfill rt lic) (Ensures-pure lic good)
          (test (truthy lic.webhook_secret) (pure lic) (backfill rt lic) (Ensures-pure lic good)
            (backfill-HookOk lic good)))

  self_register_url-HookOk :
      (lic : License) (public_url : Option Text)
      → HookOk rt lic
      → KeptHook (self_register_url rt lic public_url)
  unfolding self_register_url
  self_register_url-HookOk lic none good = Ensures-pure lic good
  self_register_url-HookOk lic (some url) good =
      let bad =
        ltb 500 (length (candidate_of url))
        || not (is_safe_url_shape rt (candidate_of url) lic.allow_http_webhook) in
      test (nonempty (strip url)) _ (pure lic)
        (Ensures-bind (raise_if bad (rejected "invalid_public_url" 400)) _
          (Ensures-raise_if bad (rejected "invalid_public_url" 400))
          (λ _ h. register_url-HookOk lic (candidate_of url) good (ground arith)))
        (Ensures-pure lic good)

  -- A check keeps every license's webhook URL safe and its secret present, whatever URL the
  -- installation registers, also where the check is rejected.
  pub check_license-HookOk : (a : CheckArgs) → Kept rt (check_license rt a)
  check_license-HookOk = Keep-check_license rt (HookOk rt) self_register_url-HookOk
