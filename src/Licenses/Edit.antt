-- ===== src/Licenses/Edit.antt =====
-- `edit_license`.
use yg_license_server.Base.{
  ℕ, Bool, true, false, not, ◌&&◌, ◌||◌, Option, none, some, List, [], ◌∷◌, ◌++◌, ◌==◌, is_some,
  any, if◌then◌else◌,
}
use yg_license_server.Text.{Text, strip, or_none, nonempty, truthy, text_eq, text_opt_eq}
use yg_license_server.Model.{
  Time, License, Json, or_empty, obj, end, admin, EventType, Payload, EditField, WebhookEvent,
  update_data,
}
use yg_license_server.Runtime.{Runtime}
use yg_license_server.Security.{is_safe_url_shape}
use yg_license_server.Session.{
  Exec, unsafe, validation_failed, pure, raise, gets, or_raise, ◌>>=◌, ◌>>◌, save_license,
  add_event, commit,
}
use yg_license_server.Webhooks.Queue.{Scheduler, run_task}
use yg_license_server.Licenses.Hook.{minted, apply_webhook_config}
use yg_license_server.Licenses.Status.{hook_of, enqueue_to, slug_of, email_of}

-- the keyword arguments of `edit_license`
pub record EditArgs : Type 0 where
  pub plan : Text
  pub max_users : ℕ
  pub valid_until_raw : Text
  pub features_json : Text
  pub webhook_url : Text
  pub allow_http_webhook : Option Bool
  pub rotate_secret : Bool
  pub note : Option Text

pub record EditResult : Type 0 where
  pub changed_fields : List EditField
  pub secret_changed : Bool

-- a JSON value that is a dictionary
abbrev as_dict : Option Json → Option Json
as_dict (some (obj fields)) = some (obj fields)
as_dict _ = none

-- `features_json` as a dictionary; None where it is no JSON or another value
unfoldable pub parse_features : Runtime → Text → Option Json
parse_features rt features_json =
    if nonempty (strip features_json) then as_dict (rt.json_loads features_json) else some (obj end)

-- `valid_until_raw`, with or without a time of day
unfoldable pub parse_date : Runtime → Text → Option Time
parse_date rt raw = if any (λ c. c == b'T') raw then rt.from_iso raw else rt.from_date raw

abbrev pub unless : Bool → EditField → List EditField
unless true f = []
unless false f = f ∷ []

-- the columns that the form changes
unfoldable pub changed_fields : Runtime → License → EditArgs → Time → Json → List EditField
changed_fields rt lic a valid_until features =
    unless (text_eq lic.plan a.plan) EditField.plan
    ++ (unless (lic.max_users == a.max_users) EditField.max_users
        ++ (unless (lic.valid_until == valid_until) EditField.valid_until
            ++ unless (rt.json_eq (or_empty lic.features) features) EditField.features))

abbrev pub with_fields : License → EditArgs → Time → Json → License
with_fields lic a valid_until features = record lic {
  plan = a.plan;
  max_users = a.max_users;
  valid_until = valid_until;
  features = features;
}

-- `bool(a) != b`
abbrev pub differs : Bool → Bool → Bool
differs true b = not b
differs false b = b

-- `if allow_http is not None and bool(lic.allow_http_webhook) != allow_http: …`, for the URL
unfoldable pub toggle_http : Runtime → License → Option Text → Option Bool → Exec License
toggle_http rt lic url none = pure lic
toggle_http rt lic none (some flag) = pure (record lic { allow_http_webhook = flag })
toggle_http rt lic (some u) (some flag) =
    if differs lic.allow_http_webhook flag && not (is_safe_url_shape rt u flag)
    then raise (unsafe "unsafe webhook url")
    else pure (record lic { allow_http_webhook = flag })

-- the branch in which the URL is not changed and no rotation is asked for
unfoldable pub keep_webhook : Runtime → License → Option Text → Option Bool → Exec License
unfolding minted toggle_http save_license
keep_webhook rt lic url allow_http = do
  secret ← minted rt (is_some url && not (truthy lic.webhook_secret)) lic.webhook_secret
  save_license (record lic { webhook_secret = secret })
  lic' ← toggle_http rt (record lic { webhook_secret = secret }) url allow_http
  save_license lic'
  pure lic'

-- what the form does to the webhook
unfoldable pub edit_webhook : Runtime → License → Option Text → EditArgs → Exec License
unfolding keep_webhook apply_webhook_config
edit_webhook rt lic url a =
    let url_changed = not (text_opt_eq url lic.webhook_url) in
    if url_changed || a.rotate_secret
    then apply_webhook_config rt lic url a.rotate_secret true
        (if url_changed then admin else lic.webhook_url_source) a.allow_http_webhook
    else keep_webhook rt lic url a.allow_http_webhook

abbrev nonempty_list {ℓ} : {A : Type ℓ} → List A → Bool
nonempty_list [] = false
nonempty_list (x ∷ xs) = true

abbrev hook_if {ℓ} : {A : Type ℓ} → Bool → Option A → Option A
hook_if true o = o
hook_if false o = none

-- `edit_license`
unfoldable pub edit_license : Runtime → License → EditArgs → Scheduler → Exec EditResult
unfolding parse_features parse_date edit_webhook save_license add_event enqueue_to commit run_task
edit_license rt lic a sched = do
  features ←
      or_raise (parse_features rt a.features_json) (validation_failed "invalid features json")
  valid_until ← or_raise (parse_date rt a.valid_until_raw) (validation_failed "invalid valid_until")
  let changed = changed_fields rt lic a valid_until features
  let edited = with_fields lic a valid_until features
  save_license edited
  let url = or_none (strip a.webhook_url)
  lic' ← edit_webhook rt edited url a
  let secret_changed = not (text_opt_eq lic'.webhook_secret lic.webhook_secret)
  add_event rt (some lic.id) (some lic.product_id) EventType.license_edited
      (Payload.edited (is_some url) secret_changed) a.note
  slug ← gets (slug_of lic')
  email ← gets (email_of lic')
  delivery ←
      enqueue_to rt (hook_if (nonempty_list changed) (hook_of lic')) WebhookEvent.updated
        (update_data lic.id lic.key slug email lic.status changed) (some lic.id) lic.product_id
  commit
  run_task rt sched delivery
  pure (record { changed_fields = changed; secret_changed = secret_changed })
