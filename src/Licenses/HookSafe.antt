-- ===== src/Licenses/HookSafe.antt =====
-- Every webhook URL that a license holds passes the shape check under the license's own http flag, and
-- has a signing secret: the configuration functions establish it and the services keep it.
use yg_license_server.Base.{
  ◌≡◌, refl, Bool, true, false, not, ◌&&◌, ◌||◌, Option, none, some, [], ◌∷◌, arith,
}
use yg_license_server.Text.{Text, nonempty, truthy, text_opt_eq}
use yg_license_server.Model.{License, Source}
use yg_license_server.Runtime.{Runtime}
use yg_license_server.Security.{is_safe_url_shape}
use yg_license_server.Session.{Exec, pure, raise_if, unsafe, save_license}
use yg_license_server.Session.Hoare.{Ensures, Ensures-pure, Ensures-bind, Ensures-raise_if}
use yg_license_server.Webhooks.{generate_secret}
use yg_license_server.Licenses.Hook.{
  minted, flag_or, set_webhook, without_webhook, clear_webhook, apply_webhook_config,
}
use yg_license_server.Licenses.Keep.{AllGood, Keep-save_license, Keep-generate_secret}

-- the predicate by the four columns
abbrev pub UrlOk : Runtime → Option Text → Option Text → Bool → Type 0
UrlOk rt none secret flag = Unit
UrlOk rt (some url) secret flag = (is_safe_url_shape rt url flag ≡ true) × (truthy secret ≡ true)

abbrev pub HookOk : Runtime → License → Type 0
HookOk rt lic = UrlOk rt lic.webhook_url lic.webhook_secret lic.allow_http_webhook

module _ (rt : Runtime) where
  abbrev Hooked : {A : Type 0} → (A → Type 0) → Exec A → Type 0
  Hooked = Ensures (AllGood (HookOk rt))

  -- a secret is minted, which is never empty, or the old one is kept
  pub minted-rule :
      (Q : Option Text → Type 0) (rt' : Runtime) (mint : Bool) (old : Option Text)
      → ((t : Text) → nonempty t ≡ true → Q (some t))
      → (mint ≡ false → Q old)
      → Ensures (AllGood (HookOk rt)) Q (minted rt' mint old)
  unfolding minted
  minted-rule Q rt' true old fresh kept =
      Ensures-bind (generate_secret rt') (λ secret. pure (some secret))
        (Keep-generate_secret (HookOk rt) rt')
        (λ secret filled. Ensures-pure (some secret) (fresh secret filled))
  minted-rule Q rt' false old fresh kept = Ensures-pure old (kept refl)

  set_webhook-HookOk :
      (lic : License) (url : Text) (rotate mint : Bool) (source : Source) (allow_http : Option Bool)
      → Hooked (HookOk rt) (set_webhook rt lic url rotate mint source allow_http)
  unfolding set_webhook
  set_webhook-HookOk lic url rotate mint source allow_http =
      let flag = flag_or allow_http lic.allow_http_webhook in
      Ensures-bind (raise_if (not (is_safe_url_shape rt url flag)) (unsafe "unsafe webhook url")) _
        (Ensures-raise_if (not (is_safe_url_shape rt url flag)) (unsafe "unsafe webhook url"))
        λ _ safe.
          Ensures-bind
            (minted rt
              (rotate
                || not (truthy lic.webhook_secret)
                || (mint && not (text_opt_eq lic.webhook_url (some url))))
              lic.webhook_secret)
            _
            (minted-rule (λ secret. truthy secret ≡ true) rt
              (rotate
                || not (truthy lic.webhook_secret)
                || (mint && not (text_opt_eq lic.webhook_url (some url))))
              lic.webhook_secret (λ t filled. filled) (λ e. ground arith))
            λ secret filled.
              let lic' : License = record lic {
                webhook_secret = secret;
                webhook_url = some url;
                webhook_url_source = source;
                allow_http_webhook = flag;
              } in
              let good : HookOk rt lic' = (ground arith, filled) in
              Ensures-bind (save_license lic') (λ _. pure lic')
                (Keep-save_license (HookOk rt) lic' good) (λ _ _. Ensures-pure lic' good)

  clear_webhook-HookOk : (lic : License) → Hooked (HookOk rt) (clear_webhook lic)
  unfolding clear_webhook
  clear_webhook-HookOk lic =
      Ensures-bind (save_license (without_webhook lic)) (λ _. pure (without_webhook lic))
        (Keep-save_license (HookOk rt) (without_webhook lic) tt)
        (λ _ _. Ensures-pure (without_webhook lic) tt)

  -- Whatever the license was, `apply_webhook_config` either refuses the URL or leaves the license with
  -- no URL, or with one that passes the shape check under the flag that the license then has and
  -- with a signing secret; all other licenses keep that property.
  pub apply_webhook_config-HookOk :
      (lic : License) (url : Option Text) (rotate mint : Bool) (source : Source)
      (allow_http : Option Bool)
      → Ensures
          (AllGood (HookOk rt))
          (HookOk rt)
          (apply_webhook_config rt lic url rotate mint source allow_http)
  unfolding apply_webhook_config
  apply_webhook_config-HookOk lic none rotate mint source allow_http = clear_webhook-HookOk lic
  apply_webhook_config-HookOk lic (some []) rotate mint source allow_http = clear_webhook-HookOk lic
  apply_webhook_config-HookOk lic (some (c ∷ url)) rotate mint source allow_http =
      set_webhook-HookOk lic (c ∷ url) rotate mint source allow_http
