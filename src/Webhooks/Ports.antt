-- ===== src/Webhooks/Ports.antt =====
-- When `deliver` raises.
use yg_license_server.Base.{
  ℕ, ◌≡◌, ◌≢◌, refl, Bool, true, Option, none, some, arith, Option-cases, inl, inr,
}
use yg_license_server.Text.{Text, nonempty}
use yg_license_server.Runtime.{
  Runtime, UrlParts, Port, absent, invalid, number, Lookup, addresses, os_error, unicode_error,
  HttpRequest, HttpReply, invalid_url, failed, replied,
}
use yg_license_server.Session.{Error, value_error}
use yg_license_server.Security.{
  Address, Resolution, refused, unreadable, resolved, first_public, resolve_host, resolve_parts,
  resolve_safe_address, is_safe_url_shape, port_or_default,
}
use yg_license_server.Webhooks.Send.{
  Message, raised, or_slash, request_of, outcome_of, post_to, send_to, deliver,
}

-- Nothing about a URL raises: its port can be read, its host can be encoded for a lookup at every port,
-- and the HTTP client takes every request with its path and its query.
abbrev pub IsReadable : Runtime → Text → Type 0
IsReadable rt url =
    (parts : UrlParts)
    → rt.urlsplit url ≡ some parts
    → (parts.port ≢ invalid)
      × ((host : Text) (n : ℕ) → parts.hostname ≡ some host → rt.getaddrinfo host n ≢ unicode_error)
      × ((r : HttpRequest)
          → r.path ≡ or_slash parts.path
          → r.query ≡ parts.query
          → rt.post r ≢ invalid_url)

chosen-ne-unreadable :
    (rt : Runtime) (scheme : Text) (port : ℕ) (host : Text) (l : Lookup)
    → l ≢ unicode_error
    → (elim l [
      | os_error ↦ refused
      | unicode_error ↦ unreadable
      | addresses infos ↦ elim (first_public rt infos) [
        | none ↦ refused
        | some addr ↦ resolved (record { ip = addr; port = port; scheme = scheme; host = host })
      ]
    ])
      ≢ unreadable
chosen-ne-unreadable rt scheme port host os_error good h = cc
chosen-ne-unreadable rt scheme port host unicode_error good h = good refl
chosen-ne-unreadable rt scheme port host (addresses infos) good h =
    elim (Option-cases (first_public rt infos)) [
      | inl none_public ↦ ground arith
      | inr (addr, f) ↦ ground arith
    ]

resolve_host-ne-unreadable :
    (rt : Runtime) (scheme : Text) (port : ℕ) (host : Text)
    → rt.getaddrinfo host port ≢ unicode_error
    → resolve_host rt scheme port host ≢ unreadable
unfolding resolve_host
resolve_host-ne-unreadable rt scheme port host good h = elim (Option-cases (rt.ip_address host)) [
  | inr (flags, e) ↦ ground arith
  | inl named ↦
      chosen-ne-unreadable rt scheme port host (rt.getaddrinfo host port) good
        (rw (named, resolve_host) at h)
]

resolve_parts-ne-unreadable :
    (rt : Runtime) (scheme : Text) (port : Port) (hostname : Option Text)
    → port ≢ invalid
    → ((host : Text) (n : ℕ) → hostname ≡ some host → rt.getaddrinfo host n ≢ unicode_error)
    → resolve_parts rt scheme port hostname ≢ unreadable
resolve_parts-ne-unreadable rt scheme port none good encoded h = cc
resolve_parts-ne-unreadable rt scheme absent (some host) good encoded h = ground (
  arith,
  resolve_host-ne-unreadable rt scheme (port_or_default scheme 0) host
      (encoded host (port_or_default scheme 0) refl),
)
resolve_parts-ne-unreadable rt scheme invalid (some host) good encoded h = good refl
resolve_parts-ne-unreadable rt scheme (number n) (some host) good encoded h = ground (
  arith,
  resolve_host-ne-unreadable rt scheme (port_or_default scheme n) host
      (encoded host (port_or_default scheme n) refl),
)

resolve-ne-unreadable :
    (rt : Runtime) (url : Text) (allow_http : Bool)
    → IsReadable rt url
    → resolve_safe_address rt url allow_http ≢ unreadable
unfolding resolve_safe_address
resolve-ne-unreadable rt url allow_http good h = elim (Option-cases (rt.urlsplit url)) [
  | inl e ↦ ground arith
  | inr (parts, e) ↦ ground (
    arith,
    resolve_parts-ne-unreadable rt parts.scheme parts.port parts.hostname (good parts e).0
        (good parts e).1,
  )
]

outcome_of-ne-raised :
    (reply : HttpReply) (e : Error) → reply ≢ invalid_url → outcome_of reply ≢ raised e
unfolding outcome_of
outcome_of-ne-raised invalid_url e good h = good refl
outcome_of-ne-raised (failed t) e good h = cc
outcome_of-ne-raised (replied n t) e good h = ground arith

post_to-ne-raised :
    (rt : Runtime) (m : Message) (a : Address) (o : Option UrlParts) (e : Error)
    → ((parts : UrlParts)
        → o ≡ some parts
        → (r : HttpRequest) → r.path ≡ or_slash parts.path
        → r.query ≡ parts.query
        → rt.post r ≢ invalid_url)
    → post_to rt m a o ≢ raised e
unfolding post_to request_of
post_to-ne-raised rt m a none e good h = cc
post_to-ne-raised rt m a (some parts) e good h =
    outcome_of-ne-raised (rt.post (request_of rt m a parts)) e
      (good parts refl (request_of rt m a parts) refl refl) h

send_to-ne-raised :
    (rt : Runtime) (url : Text) (m : Message) (r : Resolution) (e : Error)
    → IsReadable rt url
    → r ≢ unreadable
    → send_to rt url m r ≢ raised e
unfolding send_to
send_to-ne-raised rt url m refused e readable good h = cc
send_to-ne-raised rt url m unreadable e readable good h = good refl
send_to-ne-raised rt url m (resolved a) e readable good h =
    post_to-ne-raised rt m a (rt.urlsplit url) e (λ parts f. (readable parts f).2) h

pub deliver-ne-raised :
    (rt : Runtime) (url : Text) (allow_http : Bool) (m : Message) (e : Error)
    → IsReadable rt url
    → deliver rt url allow_http m ≢ raised e
unfolding deliver
deliver-ne-raised rt url allow_http m e good h = ground (
  arith,
  send_to-ne-raised rt url m (resolve_safe_address rt url allow_http) e good
      (resolve-ne-unreadable rt url allow_http good),
)

-- A delivery to a URL of a safe shape whose host is read and whose port cannot be read raises,
-- whatever the receiver, the network and the flag.
pub deliver-bad_port :
    (rt : Runtime) (url : Text) (allow_http : Bool) (m : Message) (parts : UrlParts) (host : Text)
    → is_safe_url_shape rt url allow_http ≡ true
    → rt.urlsplit url ≡ some parts
    → parts.hostname ≡ some host
    → nonempty host ≡ true
    → parts.port ≡ invalid
    → deliver rt url allow_http m ≡ raised value_error
unfolding deliver resolve_safe_address
deliver-bad_port rt url allow_http m parts host safe e named filled bad =
    rw (safe, e, resolve_parts, named, bad, filled)
