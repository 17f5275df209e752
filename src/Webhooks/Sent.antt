-- ===== src/Webhooks/Sent.antt =====
-- What `deliver` reports, to whom it connects, and what it sends.
use yg_license_server.Base.{
  ℕ, ◌≤◌, ◌<◌, ◌≡◌, refl, ap, Bool, true, false, Option, none, some, arith, Bool-cases, inl, inr,
}
use yg_license_server.Text.{Text}
use yg_license_server.Runtime.{
  Runtime, UrlParts, HttpRequest, HttpReply, invalid_url, failed, replied,
}
use yg_license_server.Security.{
  Address, Resolution, refused, unreadable, resolved, ip_is_private, is_safe_host,
  is_safe_url_shape, resolve_host, resolve_safe_address,
}
use yg_license_server.Security.Guard.{resolve_safe_address-public}
use yg_license_server.Webhooks.Send.{
  Message, sent, sign, request_of, outcome_of, post_to, send_to, deliver,
}

-- a status that the source takes for a success
abbrev pub IsSuccess : ℕ → Type 0
IsSuccess n = (200 ≤ n) × (n < 300)

outcome_of-IsSuccess :
    (reply : HttpReply) (status : Option ℕ) (error : Option Text)
    → outcome_of reply ≡ sent true status error
    → (n : ℕ) × (status ≡ some n) × IsSuccess n × (error ≡ none)
unfolding outcome_of
outcome_of-IsSuccess invalid_url status error h = cc
outcome_of-IsSuccess (failed e) status error h = cc
outcome_of-IsSuccess (replied n text) status error h = (n, ground arith, ground arith, ground arith)

post_to-IsSuccess :
    (rt : Runtime) (m : Message) (a : Address) (parts : Option UrlParts) (status : Option ℕ)
    (error : Option Text)
    → post_to rt m a parts ≡ sent true status error
    → (n : ℕ) × (status ≡ some n) × IsSuccess n × (error ≡ none)
unfolding post_to
post_to-IsSuccess rt m a none status error h = cc
post_to-IsSuccess rt m a (some parts) status error h =
    outcome_of-IsSuccess (rt.post (request_of rt m a parts)) status error h

send_to-IsSuccess :
    (rt : Runtime) (url : Text) (m : Message) (r : Resolution) (status : Option ℕ)
    (error : Option Text)
    → send_to rt url m r ≡ sent true status error
    → (n : ℕ) × (status ≡ some n) × IsSuccess n × (error ≡ none)
unfolding send_to
send_to-IsSuccess rt url m refused status error h = cc
send_to-IsSuccess rt url m unreadable status error h = cc
send_to-IsSuccess rt url m (resolved a) status error h =
    post_to-IsSuccess rt m a (rt.urlsplit url) status error h

-- A delivery counts as a success only on a status from 200 to 299, for a URL that passes the shape
-- check; the result then holds no text of the receiver.
pub deliver-IsSuccess :
    (rt : Runtime) (url : Text) (allow_http : Bool) (m : Message) (status : Option ℕ)
    (error : Option Text)
    → deliver rt url allow_http m ≡ sent true status error
    → (is_safe_url_shape rt url allow_http ≡ true)
      × ((n : ℕ) × (status ≡ some n) × IsSuccess n × (error ≡ none))
unfolding deliver
deliver-IsSuccess rt url allow_http m status error h =
    elim (Bool-cases (is_safe_url_shape rt url allow_http)) [
      | inr unsafe ↦ absurd (cc (rw unsafe at h))
      | inl safe ↦ (
        safe,
        send_to-IsSuccess rt url m (resolve_safe_address rt url allow_http) status error
            (rw safe at h),
      )
    ]

-- the runtime with another HTTP client
abbrev pub with_post : Runtime → (HttpRequest → HttpReply) → Runtime
with_post rt post = record rt { post = post }

module _ (rt : Runtime) (post : HttpRequest → HttpReply) where
  shape-with_post :
      (url : Text) (allow_http : Bool)
      → is_safe_url_shape (with_post rt post) url allow_http ≡ is_safe_url_shape rt url allow_http
  unfolding is_safe_url_shape is_safe_host
  shape-with_post url allow_http = refl

  resolve-with_post :
      (url : Text) (allow_http : Bool)
      → resolve_safe_address (with_post rt post) url allow_http
        ≡ resolve_safe_address rt url allow_http
  unfolding resolve_safe_address is_safe_url_shape is_safe_host resolve_host
  resolve-with_post url allow_http = refl

  module _ (same : (r : HttpRequest) → ip_is_private rt r.ip ≡ false → rt.post r ≡ post r) where
    post_to-with_post :
        (m : Message) (a : Address) (parts : Option UrlParts)
        → ip_is_private rt a.ip ≡ false
        → post_to rt m a parts ≡ post_to (with_post rt post) m a parts
    unfolding post_to request_of
    post_to-with_post m a none public = refl
    post_to-with_post m a (some parts) public =
        ap outcome_of (same (request_of rt m a parts) public)

    send_to-with_post :
        (url : Text) (m : Message) (r : Resolution)
        → ((a : Address) → r ≡ resolved a → ip_is_private rt a.ip ≡ false)
        → send_to rt url m r ≡ send_to (with_post rt post) url m r
    unfolding send_to
    send_to-with_post url m refused public = refl
    send_to-with_post url m unreadable public = refl
    send_to-with_post url m (resolved a) public =
        post_to-with_post m a (rt.urlsplit url) (public a refl)

-- A delivery depends on the HTTP client only by requests whose address is not private: two clients
-- that answer all those requests alike give one outcome. So none is sent to a private address.
pub deliver-public :
    (rt : Runtime) (post : HttpRequest → HttpReply) (url : Text) (allow_http : Bool) (m : Message)
    → ((r : HttpRequest) → ip_is_private rt r.ip ≡ false → rt.post r ≡ post r)
    → deliver rt url allow_http m ≡ deliver (with_post rt post) url allow_http m
unfolding deliver
deliver-public rt post url allow_http m same =
    let public = λ (a : Address) (e : resolve_safe_address rt url allow_http ≡ resolved a).
      (resolve_safe_address-public rt url allow_http a e).1 in
    rw (
      shape-with_post rt post url allow_http,
      resolve-with_post rt post url allow_http,
      send_to-with_post rt post same url m (resolve_safe_address rt url allow_http) public,
    )

-- Every request that a delivery posts is signed with the message's secret over the timestamp that
-- it carries, a dot and the very content that it carries.
pub request_of-signed :
    (rt : Runtime) (m : Message) (a : Address) (parts : UrlParts)
    → let r = request_of rt m a parts in
      (r.signature ≡ sign rt m.secret r.signed_at r.content)
      × (r.ip ≡ a.ip)
      × (r.event_id ≡ m.event_id)
unfolding request_of
request_of-signed rt m a parts = (refl, refl, refl)
