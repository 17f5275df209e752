-- ===== src/Runtime.antt =====
-- What the program calls and does not implement, as one record: the clock, the random tokens, the
-- hashes, the URL parser, the address tests, DNS, HTTP, JSON, Fernet and the JWT library. Every
-- function of the model takes it as an argument, so a theorem holds whatever they answer. It also
-- holds the settings of app/config.py that the modelled code reads.
use yg_license_server.Base.{ℕ, Bool, Option, List}
use yg_license_server.Text.{Text}
use yg_license_server.Model.{RowId, ℤ, Time, WebhookData, WebhookEvent, Json}

-- `Settings` of app/config.py
pub record Settings : Type 0 where
  pub admin_token : Text
  pub session_secret : Text
  pub jwt_ttl_days : ℕ
  pub resend_api_key : Text
  pub key_encryption_key : Text
  pub key_encryption_key_prev : Text
  pub require_kek : Bool
  pub license_key_pepper : Text

-- `parts.port`, which raises ValueError where the port is no number or is out of range
pub data Port : Type 0 where
  absent invalid : Port
  number : ℕ → Port

-- the result of `urlsplit`
pub record UrlParts : Type 0 where
  pub scheme : Text
  pub hostname : Option Text
  pub port : Port
  pub path : Text
  pub query : Text

-- the flags of an `ipaddress` object
pub record IpFlags : Type 0 where
  pub is_private : Bool
  pub is_loopback : Bool
  pub is_link_local : Bool
  pub is_multicast : Bool
  pub is_reserved : Bool
  pub is_unspecified : Bool

-- the JSON body that a webhook carries
pub record Envelope : Type 0 where
  pub id : RowId
  pub type : WebhookEvent
  pub created_at : ℕ
  pub body : WebhookData

-- A POST of `deliver`: the pinned URL by its parts, the Host header, the body and the headers.
pub record HttpRequest : Type 0 where
  pub scheme : Text
  pub ip : Text
  pub port : ℕ
  pub path : Text
  pub query : Text
  pub host : Text
  pub content : Text
  pub event : WebhookEvent
  pub event_id : RowId
  pub signed_at : ℕ
  pub signature : Text

-- What `getaddrinfo` does: OSError where the lookup fails, and UnicodeError, which is a ValueError, where
-- the host cannot be encoded, as with an empty label or one of more than 63 characters.
pub data Lookup : Type 0 where
  addresses : List Text → Lookup
  os_error unicode_error : Lookup

pub data HttpReply : Type 0 where
  -- an httpx.InvalidURL, which is no HTTPError
  invalid_url : HttpReply
  -- an httpx.HTTPError, with its text
  failed : Text → HttpReply
  replied : ℕ → Text → HttpReply

-- the claims that `sign_license_jwt` signs
pub record Claims : Type 0 where
  pub iss : Text
  pub kid : RowId
  pub aud : Text
  pub iat : ℕ
  pub exp : ℕ
  pub license_id : RowId
  pub install_id : Text
  pub plan : Text
  pub max_users : ℕ
  pub features : Json
  pub valid_until : ℕ

-- What the code reads of a Stripe event: `id`, `type`, and of `data.object` the customer's id and
-- address.
pub record StripeEvent : Type 0 where
  pub id : Option Text
  pub type : Text
  pub customer : Option Text
  pub customer_email : Option Text

pub record Runtime : Type 0 where
  pub settings : Settings
  pub now : Time
  -- the n-th result of `secrets.token_urlsafe(32)`
  pub token_urlsafe : ℕ → Text
  -- the key, then the message
  pub blake2b : Text → Text → Text
  pub hmac_sha256 : Text → Text → Text
  -- None where they raise ValueError
  pub urlsplit : Text → Option UrlParts
  pub ip_address : Text → Option IpFlags
  pub getaddrinfo : Text → ℕ → Lookup
  pub post : HttpRequest → HttpReply
  pub dumps : WebhookData → Text
  -- None on a decode error
  pub loads : Text → Option WebhookData
  pub dump_envelope : Envelope → Text
  -- `str` of a number
  pub decimal : ℕ → Text
  pub lower : Text → Text
  -- `s.encode("utf-8", "replace")`
  pub encode_replace : Text → Text
  -- None where the text is no JSON
  pub json_loads : Text → Option Json
  -- `==` of two JSON objects
  pub json_eq : Json → Json → Bool
  -- `datetime.fromisoformat` and `strptime(…, "%Y-%m-%d")`; None on ValueError
  pub from_iso : Text → Option Time
  pub from_date : Text → Option Time
  -- whether a text is a Fernet key; encryption, and decryption with None on InvalidToken
  pub is_fernet_key : Text → Bool
  pub fernet_encrypt : Text → Text → Text
  pub fernet_decrypt : Text → Text → Option Text
  -- the claims, then the private key
  pub jwt_encode : Claims → Text → Text
  -- `stripe.Webhook.construct_event` at a time, of the payload, the signature header and the secret; None
  -- on ValueError and SignatureVerificationError, also where the signature is too old
  pub construct_event : Time → Text → Text → Option Text → Option StripeEvent
  -- `datetime.isoformat()`, the inverse of which is `from_iso`, and the text of a row's id
  pub isoformat : Time → Text
  pub id_text : RowId → Text
  -- `urlsafe_b64encode(…).rstrip("=")` of a text, and its inverse with padding; None on ValueError
  pub b64_encode : Text → Text
  pub b64_decode : Text → Option Text
  -- `int(raw)`; None where it raises
  pub parse_int : Text → Option ℤ
  -- the n-th results of `pyotp.random_base32()`, `secrets.token_hex(6)` and `generate_keypair()`,
  -- the last with the private key first
  pub random_base32 : ℕ → Text
  pub token_hex : ℕ → Text
  pub generate_keypair : ℕ → Text × Text
  -- `pyotp.TOTP(secret).verify(code, valid_window=1)` at a time
  pub totp_verify : Text → Time → Text → Bool
  pub sha256 : Text → Text
  pub upper : Text → Text
  -- `URLSafeSerializer(secret, salt)`: `dumps`, and `loads` with None on BadSignature
  pub cookie_dumps : Text → Text → Json → Text
  pub cookie_loads : Text → Text → Text → Option Json
  -- `math.isfinite` of a float, and whether an int is too large for it
  pub too_large : ℕ → Bool
  pub is_finite : Text → Bool
  -- `send_expiry_warning_email`: whether Resend takes the mail, by its address, the key and the product
  pub warning_sent : Text → Text → Text → Bool
