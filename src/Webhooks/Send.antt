-- ===== src/Webhooks/Send.antt =====
-- `generate_secret`, `sign` and `deliver`.
use yg_license_server.Base.{
  ℕ, ◌/◌, Bool, true, false, ◌&&◌, Option, none, some, ◌++◌, ◌∷◌, [], leb, ltb, take, not,
  if◌then◌else◌,
}
use yg_license_server.Text.{Text, codes}
use yg_license_server.Model.{RowId, WebhookEvent, WebhookData}
use yg_license_server.Runtime.{
  Runtime, UrlParts, HttpRequest, HttpReply, invalid_url, failed, replied, Envelope,
}
use yg_license_server.Security.{
  Address, Resolution, refused, unreadable, resolved, is_safe_url_shape, resolve_safe_address,
}
use yg_license_server.Session.{Error, value_error, url_error, Exec, fresh_token, pure, ◌>>=◌}

abbrev pub secret_of : Text → Text
secret_of token = codes "whsec_" ++ token

-- `generate_secret`
unfoldable pub generate_secret : Runtime → Exec Text
unfolding fresh_token
generate_secret rt = do token ← fresh_token rt; pure (secret_of token)

-- `sign`
unfoldable pub sign : Runtime → Text → ℕ → Text → Text
sign rt secret timestamp body = rt.hmac_sha256 secret (rt.decimal timestamp ++ b'.' ∷ body)

-- How `deliver` ends: with its result, or with an exception, which is the ValueError of the resolution or
-- the InvalidURL of httpx.
pub data Outcome : Type 0 where
  raised : Error → Outcome
  sent : Bool → Option ℕ → Option Text → Outcome

-- the arguments of `deliver` that stand in the request
pub record Message : Type 0 where
  pub secret : Text
  pub event_type : WebhookEvent
  pub body : WebhookData
  pub event_id : RowId

abbrev pub or_slash : Text → Text
or_slash [] = codes "/"
or_slash (c ∷ s) = c ∷ s

-- `int(time.time())`
abbrev pub unix_time : Runtime → ℕ
unix_time rt = rt.now / 1_000_000

-- the body and the pinned request of a message to an address
unfoldable pub request_of : Runtime → Message → Address → UrlParts → HttpRequest
unfolding sign
request_of rt m a parts =
    let envelope : Envelope = record {
      id = m.event_id;
      type = m.event_type;
      created_at = unix_time rt;
      body = m.body;
    } in
    let content : Text = rt.dump_envelope envelope in
    record {
      scheme = a.scheme;
      ip = a.ip;
      port = a.port;
      path = or_slash parts.path;
      query = parts.query;
      host = a.host;
      content = content;
      event = m.event_type;
      event_id = m.event_id;
      signed_at = unix_time rt;
      signature = sign rt m.secret (unix_time rt) content;
    }

-- what `deliver` makes of the reply
unfoldable pub outcome_of : HttpReply → Outcome
outcome_of invalid_url = raised url_error
outcome_of (failed error) = sent false none (some error)
outcome_of (replied status text) =
    if leb 200 status && ltb status 300
    then sent true (some status) none
    else sent false (some status) (some (take 200 text))

unfoldable pub post_to : Runtime → Message → Address → Option UrlParts → Outcome
unfolding outcome_of
post_to rt m a none = sent false none (some (codes "refused:unsafe_url"))
post_to rt m a (some parts) = outcome_of (rt.post (request_of rt m a parts))

-- `deliver` behind the shape check
unfoldable pub send_to : Runtime → Text → Message → Resolution → Outcome
unfolding post_to
send_to rt url m refused = sent false none (some (codes "refused:unsafe_url"))
send_to rt url m unreadable = raised value_error
send_to rt url m (resolved a) = post_to rt m a (rt.urlsplit url)

-- `deliver`
unfoldable pub deliver : Runtime → Text → Bool → Message → Outcome
unfolding send_to
deliver rt url allow_http m =
    if not (is_safe_url_shape rt url allow_http)
    then sent false none (some (codes "refused:unsafe_url_shape"))
    else send_to rt url m (resolve_safe_address rt url allow_http)
