-- ===== src/Security/Guard.antt =====
-- What `resolve_safe_address` guarantees of the address that a delivery connects to.
use yg_license_server.Base.{
  ℕ, ◌≡◌, Bool, true, false, not, Option, none, some, List, arith, find-test, Option-cases, inl,
  inr,
}
use yg_license_server.Text.{Text}
use yg_license_server.Runtime.{
  Lookup, addresses, os_error, unicode_error, Runtime, UrlParts, Port, absent, invalid, number,
}
use yg_license_server.Security.{
  Address, refused, unreadable, resolved, ip_is_private, is_safe_url_shape, port_or_default,
  first_public, resolve_host, resolve_parts, resolve_safe_address,
}

first_public-not_private :
    (rt : Runtime) (infos : List Text) (addr : Text)
    → first_public rt infos ≡ some addr
    → ip_is_private rt addr ≡ false
unfolding first_public
first_public-not_private rt infos addr h =
    ground (arith, find-test (λ a. not (ip_is_private rt a)) infos addr h)

resolve_host-public :
    (rt : Runtime) (scheme : Text) (port : ℕ) (host : Text) (a : Address)
    → resolve_host rt scheme port host ≡ resolved a
    → (ip_is_private rt a.ip ≡ false) × (a.host ≡ host) × (a.scheme ≡ scheme)
unfolding resolve_host
resolve_host-public rt scheme port host a h = elim (Option-cases (rt.ip_address host)) [
  | inr (flags, e) ↦ ground arith
  | inl named ↦ found (rt.getaddrinfo host port) (rw (named, resolve_host) at h)
]
  where
    found :
        (l : Lookup)
        → elim l [
          | os_error ↦ refused
          | unicode_error ↦ unreadable
          | addresses infos ↦ elim (first_public rt infos) [
            | none ↦ refused
            | some addr ↦ resolved (record { ip = addr; port = port; scheme = scheme; host = host })
          ]
        ]
          ≡ resolved a
        → (ip_is_private rt a.ip ≡ false) × (a.host ≡ host) × (a.scheme ≡ scheme)
    found os_error e = cc
    found unicode_error e = cc
    found (addresses infos) e = elim (Option-cases (first_public rt infos)) [
      | inl none_public ↦ ground arith
      | inr (addr, f) ↦ ground (arith, first_public-not_private rt infos addr f)
    ]

resolve_parts-public :
    (rt : Runtime) (scheme : Text) (port : Port) (hostname : Option Text) (a : Address)
    → resolve_parts rt scheme port hostname ≡ resolved a
    → (ip_is_private rt a.ip ≡ false) × (hostname ≡ some a.host) × (a.scheme ≡ scheme)
resolve_parts-public rt scheme port none a h = cc
resolve_parts-public rt scheme absent (some host) a h =
    ground (arith, resolve_host-public rt scheme (port_or_default scheme 0) host a)
resolve_parts-public rt scheme invalid (some host) a h = ground arith
resolve_parts-public rt scheme (number n) (some host) a h =
    ground (arith, resolve_host-public rt scheme (port_or_default scheme n) host a)

-- Where a delivery is given an address to connect to, the URL passes the shape check, the address is
-- not private, loopback, link-local, multicast, reserved or unspecified, and the scheme and the host
-- name are those of the URL.
pub resolve_safe_address-public :
    (rt : Runtime) (url : Text) (allow_http : Bool) (a : Address)
    → resolve_safe_address rt url allow_http ≡ resolved a
    → (is_safe_url_shape rt url allow_http ≡ true)
      × (ip_is_private rt a.ip ≡ false)
      × ((parts : UrlParts) × (rt.urlsplit url ≡ some parts)
          × (parts.hostname ≡ some a.host)
          × (a.scheme ≡ parts.scheme))
unfolding resolve_safe_address
resolve_safe_address-public rt url allow_http a h = elim (Option-cases (rt.urlsplit url)) [
  | inl e ↦ ground arith
  | inr (parts, e) ↦ (
    ground arith,
    ground (arith, resolve_parts-public rt parts.scheme parts.port parts.hostname a),
    (
      parts,
      e,
      ground (arith, resolve_parts-public rt parts.scheme parts.port parts.hostname a),
      ground (arith, resolve_parts-public rt parts.scheme parts.port parts.hostname a),
    ),
  )
]
