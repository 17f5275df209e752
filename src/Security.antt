-- ===== src/Security.antt =====
-- app/security.py: the bearer and CSRF checks, and the SSRF guard of outbound URLs. The theorems are
-- in the modules below.
pub mod Guard
use yg_license_server.Base.{
  ℕ, zero, suc, Bool, true, false, not, ◌&&◌, ◌||◌, Option, none, some, List, [], ◌∷◌, ◌++◌, any,
  if◌then◌else◌, find,
}
use yg_license_server.Text.{Text, codes, text_eq, nonempty, ends_with}
use yg_license_server.Runtime.{
  Lookup, addresses, os_error, unicode_error, Runtime, UrlParts, Port, absent, invalid, number,
  IpFlags,
}

-- `_FORBIDDEN_HOST_SUFFIXES`
abbrev pub forbidden_host_suffixes : List Text
forbidden_host_suffixes =
    codes ".localhost"
    ∷ codes ".local"
    ∷ codes ".internal"
    ∷ codes ".lan"
    ∷ codes ".intranet"
    ∷ codes ".corp"
    ∷ codes ".home"
    ∷ codes ".private"
    ∷ []

-- `csrf_token`; the session cookie enters the message by its encoding
unfoldable pub csrf_token : Runtime → Text → Text → Text
csrf_token rt session_secret session_cookie =
    rt.hmac_sha256 session_secret (codes "csrf:" ++ rt.encode_replace session_cookie)

-- `check_csrf`; the second comparison runs only on texts of one length, and decides equality
unfoldable pub check_csrf : Runtime → Text → Text → Option Text → Bool
unfolding csrf_token
check_csrf rt session_secret session_cookie none = false
check_csrf rt session_secret session_cookie (some supplied) =
    if nonempty supplied
    then text_eq (csrf_token rt session_secret session_cookie) supplied
    else false

-- `check_admin_bearer`
unfoldable pub check_admin_bearer : Runtime → Option Text → Text → Bool
check_admin_bearer rt none admin_token = false
check_admin_bearer rt (some authorization) admin_token =
    if nonempty authorization && nonempty admin_token
    then text_eq (rt.encode_replace authorization)
        (rt.encode_replace (codes "Bearer " ++ admin_token))
    else false

abbrev pub flagged : IpFlags → Bool
flagged ip =
    ip.is_private || ip.is_loopback || ip.is_link_local || ip.is_multicast || ip.is_reserved
    || ip.is_unspecified

-- `_ip_is_private`
unfoldable pub ip_is_private : Runtime → Text → Bool
ip_is_private rt addr = elim (rt.ip_address addr) [ none ↦ false | some ip ↦ flagged ip ]

-- the part of `is_safe_url_shape` behind the scheme tests, for `parts.hostname`
unfoldable pub is_safe_host : Runtime → Option Text → Bool
unfolding ip_is_private
is_safe_host rt none = false
is_safe_host rt (some host) =
    if not (nonempty host)
    then false
    else if text_eq (rt.lower host) (codes "localhost")
        || any (ends_with (rt.lower host)) forbidden_host_suffixes
    then false
    else elim (rt.ip_address host) [ none ↦ true | some _ ↦ not (ip_is_private rt host) ]

-- `is_safe_url_shape`
unfoldable pub is_safe_url_shape : Runtime → Text → Bool → Bool
is_safe_url_shape rt url allow_http = elim (rt.urlsplit url) [
  | none ↦ false
  | some parts ↦
      if not (text_eq parts.scheme (codes "http") || text_eq parts.scheme (codes "https"))
      then false
      else if text_eq parts.scheme (codes "http") && not allow_http
      then false
      else is_safe_host rt parts.hostname
]

-- The four parts of `resolve_safe_address`'s result.
pub record Address : Type 0 where
  pub ip : Text
  pub port : ℕ
  pub scheme : Text
  pub host : Text

-- What `resolve_safe_address` does: reading `parts.port` may raise ValueError, and `getaddrinfo`
-- UnicodeError, which is one.
pub data Resolution : Type 0 where
  refused unreadable : Resolution
  resolved : Address → Resolution

-- `parts.port or (443 if parts.scheme == "https" else 80)`
abbrev pub port_or_default : Text → ℕ → ℕ
port_or_default scheme zero = if text_eq scheme (codes "https") then 443 else 80
port_or_default scheme (suc n) = suc n

-- the loop over the results of `getaddrinfo`
unfoldable pub first_public : Runtime → List Text → Option Text
unfolding ip_is_private
first_public rt = find (λ addr. not (ip_is_private rt addr))

-- the part of `resolve_safe_address` behind the port, for a host that is not empty
unfoldable pub resolve_host : Runtime → Text → ℕ → Text → Resolution
unfolding ip_is_private first_public
resolve_host rt scheme port host = elim (rt.ip_address host) [
  | some _ ↦
      if ip_is_private rt host
      then refused
      else resolved (record { ip = host; port = port; scheme = scheme; host = host })
  | none ↦ elim (rt.getaddrinfo host port) [
    | os_error ↦ refused
    | unicode_error ↦ unreadable
    | addresses infos ↦ elim (first_public rt infos) [
      | none ↦ refused
      | some addr ↦ resolved (record { ip = addr; port = port; scheme = scheme; host = host })
    ]
  ]
]

abbrev pub resolve_parts : Runtime → Text → Port → Option Text → Resolution
resolve_parts rt scheme port none = refused
resolve_parts rt scheme port (some host) = if not (nonempty host) then refused else elim port [
  | invalid ↦ unreadable
  | absent ↦ resolve_host rt scheme (port_or_default scheme 0) host
  | number n ↦ resolve_host rt scheme (port_or_default scheme n) host
]

-- `resolve_safe_address`
unfoldable pub resolve_safe_address : Runtime → Text → Bool → Resolution
resolve_safe_address rt url allow_http =
    if not (is_safe_url_shape rt url allow_http) then refused else elim (rt.urlsplit url) [
      | none ↦ refused
      | some parts ↦ resolve_parts rt parts.scheme parts.port parts.hostname
    ]
