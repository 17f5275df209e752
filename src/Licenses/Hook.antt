-- ===== src/Licenses/Hook.antt =====
-- `apply_webhook_config`, `configure_webhook` and `convert_webhook_to_self`.
use yg_license_server.Base.{Bool, true, false, not, ◌&&◌, ◌||◌, Option, none, some, [], ◌∷◌}
use yg_license_server.Text.{Text, truthy, text_opt_eq}
use yg_license_server.Model.{License, Source, admin, self, EventType, Payload}
use yg_license_server.Runtime.{Runtime}
use yg_license_server.Security.{is_safe_url_shape}
use yg_license_server.Session.{
  Exec, unsafe, validation_failed, pure, raise_if, ◌>>=◌, ◌>>◌, save_license, add_event, commit,
}
use yg_license_server.Webhooks.{generate_secret}

-- the secret behind the choice to mint a new one
unfoldable pub minted : Runtime → Bool → Option Text → Exec (Option Text)
unfolding generate_secret
minted rt true old = do secret ← generate_secret rt; pure (some secret)
minted rt false old = pure old

-- `allow_http if allow_http is not None else bool(lic.allow_http_webhook)`
abbrev pub flag_or : Option Bool → Bool → Bool
flag_or none current = current
flag_or (some b) current = b

-- the part of `apply_webhook_config` for a URL that is not empty
unfoldable pub set_webhook :
    Runtime → License → Text → Bool → Bool → Source → Option Bool → Exec License
unfolding minted save_license
set_webhook rt lic url rotate mint_on_url_change source allow_http = do
  let flag = flag_or allow_http lic.allow_http_webhook
  raise_if (not (is_safe_url_shape rt url flag)) (unsafe "unsafe webhook url")
  secret ←
      minted rt
        (rotate
          || not (truthy lic.webhook_secret)
          || (mint_on_url_change && not (text_opt_eq lic.webhook_url (some url))))
        lic.webhook_secret
  let lic' : License = record lic {
    webhook_secret = secret;
    webhook_url = some url;
    webhook_url_source = source;
    allow_http_webhook = flag;
  }
  save_license lic'
  pure lic'

abbrev pub without_webhook : License → License
without_webhook lic = record lic {
  webhook_url = none;
  webhook_secret = none;
  webhook_url_source = self;
  allow_http_webhook = false;
}

-- the other part, for no URL
unfoldable pub clear_webhook : License → Exec License
unfolding save_license
clear_webhook lic = save_license (without_webhook lic) >> pure (without_webhook lic)

-- `apply_webhook_config`, which returns the license object as it leaves it
unfoldable pub apply_webhook_config :
    Runtime → License → Option Text → Bool → Bool → Source → Option Bool → Exec License
unfolding set_webhook clear_webhook
apply_webhook_config rt lic none rotate mint source allow_http = clear_webhook lic
apply_webhook_config rt lic (some []) rotate mint source allow_http = clear_webhook lic
apply_webhook_config rt lic (some (c ∷ url)) rotate mint source allow_http =
    set_webhook rt lic (c ∷ url) rotate mint source allow_http

-- `configure_webhook`, without `payload_extra`
unfoldable pub configure_webhook :
    Runtime
    → License
    → Option Text
    → Bool
    → Bool
    → Source
    → Option Bool
    → Option Text
    → Exec License
unfolding apply_webhook_config add_event commit
configure_webhook rt lic url rotate mint source allow_http note = do
  lic' ← apply_webhook_config rt lic url rotate mint source allow_http
  add_event rt (some lic.id) (some lic.product_id) EventType.webhook_updated
      (Payload.hook_set (truthy url)) note
  commit
  pure lic'

-- `convert_webhook_to_self`
unfoldable pub convert_webhook_to_self : Runtime → License → Option Text → Exec License
unfolding generate_secret add_event commit save_license
convert_webhook_to_self rt lic note = do
  raise_if (not (truthy lic.webhook_url)) (validation_failed "no webhook url to convert")
  raise_if (elim lic.webhook_url_source [ admin ↦ false | self ↦ true ])
      (validation_failed "already self-registered")
  secret ← generate_secret rt
  let lic' : License = record lic { webhook_url_source = self; webhook_secret = some secret }
  save_license lic'
  add_event rt (some lic.id) (some lic.product_id) EventType.webhook_converted_to_self
      (Payload.converted lic.webhook_url (truthy lic.webhook_secret)) note
  commit
  pure lic'
