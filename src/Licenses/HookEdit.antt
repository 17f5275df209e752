-- ===== src/Licenses/HookEdit.antt =====
-- The webhook part of an edit keeps the URL safe and its secret present.
use yg_license_server.Base.{
  ◌≡◌, sym, subst, Bool, true, false, not, ◌&&◌, ◌||◌, Option, none, some, arith, is_some,
  if◌then◌else◌, Bool-cases, inl, inr,
}
use yg_license_server.Text.{Text, nonempty, truthy, text_opt_eq, eq_of_text_opt_eq}
use yg_license_server.Model.{License, admin}
use yg_license_server.Runtime.{Runtime}
use yg_license_server.Security.{is_safe_url_shape}
use yg_license_server.Session.{unsafe, save_license}
use yg_license_server.Session.Hoare.{Ensures, Ensures-pure, Ensures-bind, Ensures-raise}
use yg_license_server.Licenses.Hook.{minted}
use yg_license_server.Licenses.Edit.{differs, toggle_http, keep_webhook, edit_webhook, EditArgs}
use yg_license_server.Licenses.Keep.{AllGood, Keep-save_license}
use yg_license_server.Licenses.HookSafe.{UrlOk, HookOk, minted-rule, apply_webhook_config-HookOk}

-- flipping the flag of a URL that passes the check under the new one, or not flipping it
UrlOk-flag :
    (rt : Runtime) (url : Text) (secret : Option Text) (old new : Bool)
    → (differs old new && not (is_safe_url_shape rt url new)) ≡ false
    → UrlOk rt (some url) secret old
    → UrlOk rt (some url) secret new
UrlOk-flag rt url secret true true h good = good
UrlOk-flag rt url secret false false h good = good
UrlOk-flag rt url secret true false h good = (ground arith, good.1)
UrlOk-flag rt url secret false true h good = (ground arith, good.1)

module _ (rt : Runtime) where
  toggle_some-HookOk :
      (lic : License) (u : Text) (flag : Bool)
      → UrlOk rt (some u) lic.webhook_secret lic.allow_http_webhook
      → lic.webhook_url ≡ some u
      → Ensures (AllGood (HookOk rt)) (HookOk rt) (toggle_http rt lic (some u) (some flag))
  unfolding toggle_http
  toggle_some-HookOk lic u flag good e =
      elim (Bool-cases (differs lic.allow_http_webhook flag && not (is_safe_url_shape rt u flag))) [
        | inl bad ↦ rw bad (Ensures-raise (unsafe "unsafe webhook url"))
        | inr fine ↦ rw fine (
            Ensures-pure (record lic { allow_http_webhook = flag })
              (subst (λ o. UrlOk rt o lic.webhook_secret flag) (sym e)
                (UrlOk-flag rt u lic.webhook_secret lic.allow_http_webhook flag fine good)))
      ]

  toggle_http-HookOk :
      (lic : License) (url : Option Text) (allow_http : Option Bool)
      → HookOk rt lic
      → lic.webhook_url ≡ url
      → Ensures (AllGood (HookOk rt)) (HookOk rt) (toggle_http rt lic url allow_http)
  unfolding toggle_http
  toggle_http-HookOk lic url none good e = Ensures-pure lic good
  toggle_http-HookOk lic none (some flag) good e =
      Ensures-pure (record lic { allow_http_webhook = flag })
        (subst (λ o. UrlOk rt o lic.webhook_secret flag) (sym e) tt)
  toggle_http-HookOk lic (some u) (some flag) good e =
      toggle_some-HookOk lic u flag
        (subst (λ o. UrlOk rt o lic.webhook_secret lic.allow_http_webhook) e good) e

  -- the secret that a save heals
  pub healed :
      (url secret : Option Text) (flag : Bool)
      → UrlOk rt url secret flag
      → (t : Text) → nonempty t ≡ true
      → UrlOk rt url (some t) flag
  healed none secret flag good t filled = tt
  healed (some u) secret flag good t filled = (good.0, filled)

  keep_webhook-HookOk :
      (lic : License) (url : Option Text) (allow_http : Option Bool)
      → HookOk rt lic
      → lic.webhook_url ≡ url
      → Ensures (AllGood (HookOk rt)) (HookOk rt) (keep_webhook rt lic url allow_http)
  unfolding keep_webhook
  keep_webhook-HookOk lic url allow_http good e =
      let flag = lic.allow_http_webhook in
      let mint = is_some url && not (truthy lic.webhook_secret) in
      Ensures-bind (minted rt mint lic.webhook_secret) _
        (minted-rule rt (λ secret. UrlOk rt lic.webhook_url secret flag) rt mint lic.webhook_secret
          (healed lic.webhook_url lic.webhook_secret flag good) (λ _. good))
        λ secret good'.
          let lic' : License = record lic { webhook_secret = secret } in
          Ensures-bind (save_license lic') _ (Keep-save_license (HookOk rt) lic' good') λ _ _.
            Ensures-bind (toggle_http rt lic' url allow_http) _
              (toggle_http-HookOk lic' url allow_http good' e)
              λ lic'' good''.
                Ensures-bind (save_license lic'') _ (Keep-save_license (HookOk rt) lic'' good'')
                  λ _ _. Ensures-pure lic'' good''

  -- The webhook part of an edit keeps the property of the license's URL, flag and secret, whether
  -- the URL is changed, the secret rotated, the flag flipped or a missing secret healed.
  pub edit_webhook-HookOk :
      (lic : License) (url : Option Text) (a : EditArgs)
      → HookOk rt lic
      → Ensures (AllGood (HookOk rt)) (HookOk rt) (edit_webhook rt lic url a)
  unfolding edit_webhook
  edit_webhook-HookOk lic url a good =
      elim (Bool-cases (not (text_opt_eq url lic.webhook_url) || a.rotate_secret)) [
        | inl write ↦ rw write (
            apply_webhook_config-HookOk rt lic url a.rotate_secret true
              (if not (text_opt_eq url lic.webhook_url) then admin else lic.webhook_url_source)
              a.allow_http_webhook)
        | inr keep ↦ rw keep (
            keep_webhook-HookOk lic url a.allow_http_webhook good
              (sym (eq_of_text_opt_eq url lic.webhook_url (ground arith))))
      ]
