-- ===== src/Tests/Samples.antt =====
-- A runtime, rows and sessions for the examples. The runtime parses every URL alike, has one private
-- address, the empty one, hashes by putting the key before the text, and encrypts the same way.
use yg_license_server.Base.{
  if◌then◌else◌, ℕ, ◌==◌, true, false, Option, none, some, [], ◌∷◌, ◌++◌, drop, length,
}
use yg_license_server.Text.{Text, codes, text_eq}
use yg_license_server.Model.{
  days, Product, Customer, License, WebhookDelivery, Db, empty_db, obj, end, active, Source,
  pending, delivered, pos, WebhookEvent, test_data, Json, field, int,
}
use yg_license_server.Runtime.{
  Runtime, Settings, UrlParts, IpFlags, addresses, replied, StripeEvent, absent, invalid,
}
use yg_license_server.Session.{Session}
use yg_license_server.Login.{login_data}
use yg_license_server.Stripe.{StripePost}
use yg_license_server.Check.{CheckArgs}
use yg_license_server.Licenses.{EditArgs, IssueArgs}

abbrev settings : Settings
settings = record {
  admin_token = codes "token";
  session_secret = codes "s";
  jwt_ttl_days = 7;
  resend_api_key = [];
  key_encryption_key = codes "k";
  key_encryption_key_prev = [];
  require_kek = true;
  license_key_pepper = codes "p";
}

abbrev pub parts : UrlParts
parts = record {
  scheme = codes "https";
  hostname = some (codes "a.example");
  port = absent;
  path = codes "/hook";
  query = [];
}

abbrev pub bad_parts : UrlParts
bad_parts = record parts { port = invalid }

abbrev private_flags : IpFlags
private_flags = record {
  is_private = true;
  is_loopback = false;
  is_link_local = false;
  is_multicast = false;
  is_reserved = false;
  is_unspecified = false;
}

abbrev ip_address : Text → Option IpFlags
ip_address [] = some private_flags
ip_address (c ∷ t) = none

abbrev pub paid : StripeEvent
paid = record {
  id = some (codes "evt");
  type = codes "invoice.paid";
  customer = some (codes "cus");
  customer_email = some (codes "c@x");
}

-- a cookie: its salt, and behind it the time that it was issued at
abbrev issued_at : Json → ℕ
issued_at (obj (field a x (field b (int n) end))) = n
issued_at _ = 0

abbrev pub cookie_value : Text → Text → Option Json
cookie_value (n ∷ []) [] = some (login_data n)
cookie_value (a ∷ t) (b ∷ salt) = let rest = cookie_value t salt in if a == b then rest else none
cookie_value _ _ = none

-- 10 days behind the epoch
abbrev pub rt : Runtime
rt = record {
  settings = settings;
  now = days 10;
  token_urlsafe = λ n. n ∷ [];
  blake2b = λ key text. key ++ text;
  hmac_sha256 = λ key text. key ++ text;
  urlsplit = λ _. some parts;
  ip_address = ip_address;
  getaddrinfo = λ host port. addresses ([] ∷ codes "9" ∷ []);
  post = λ r. replied 200 [];
  dumps = λ d. codes "{}";
  loads = λ t. some (test_data 1 t t t);
  dump_envelope = λ e. codes "{}";
  decimal = λ n. n ∷ [];
  lower = λ t. t;
  encode_replace = λ t. t;
  json_loads = λ t. some (obj end);
  json_eq = λ a b. true;
  from_iso = λ t. some (days 40);
  from_date = λ t. some (days 40);
  is_fernet_key = λ key. true;
  fernet_encrypt = λ key text. key ++ text;
  fernet_decrypt = λ key text. some (drop (length key) text);
  jwt_encode = λ claims key. key;
  construct_event =
      λ now payload signature secret. if text_eq signature (now ∷ []) then some paid else none;
  isoformat = λ t. t ∷ [];
  id_text = λ i. i ∷ [];
  b64_encode = λ t. t;
  b64_decode = λ t. some t;
  parse_int = λ t. some (pos 2);
  random_base32 = λ n. n ∷ [];
  token_hex = λ n. n ∷ [];
  generate_keypair = λ n. (n ∷ [], n ∷ []);
  totp_verify = λ secret now code. text_eq secret code;
  sha256 = λ t. t;
  upper = λ t. t;
  is_finite = λ t. true;
  too_large = λ n. false;
  warning_sent = λ to key name. true;
  cookie_dumps = λ secret salt j. salt ++ issued_at j ∷ [];
  cookie_loads = λ secret salt t. cookie_value t salt;
}

-- the same, with a port that cannot be read in every URL
abbrev pub bad_rt : Runtime
bad_rt = record rt { urlsplit = λ _. some bad_parts }

-- the same, with a receiver that answers 500
abbrev pub failing_rt : Runtime
failing_rt = record rt { post = λ r. replied 500 (codes "no") }

abbrev pub product : Product
product = record {
  id = 1;
  slug = codes "prod";
  name = codes "Prod";
  description = none;
  public_key_pem = [];
  private_key_pem = codes "pem";
  key_prefix = codes "pr";
  stripe_webhook_secret = some (codes "wh");
  stripe_api_key = none;
  jwt_issuer = codes "iss";
  created_at = 0;
}

abbrev pub customer : Customer
customer = record {
  id = 2;
  stripe_customer_id = some (codes "cus");
  email = codes "c@x";
  name = none;
  created_at = 0;
}

abbrev pub license : License
license = record {
  id = 3;
  product_id = 1;
  customer_id = 2;
  key = codes "K";
  plan = codes "standard";
  max_users = 10;
  features = obj end;
  valid_until = days 20;
  status = active;
  created_at = 0;
  webhook_url = some (codes "u");
  webhook_secret = some (codes "s");
  webhook_url_source = Source.admin;
  allow_http_webhook = false;
  key_hash = codes "pK";
  key_display = codes "K";
}

abbrev pub row : WebhookDelivery
row = record {
  id = 5;
  license_id = some 3;
  product_id = some 1;
  url = codes "u";
  secret = codes "s";
  event_type = WebhookEvent.status_changed;
  payload_json = codes "{}";
  attempts = 0;
  status = pending;
  next_attempt_at = days 10;
  last_attempt_at = none;
  delivered_at = none;
  last_error = none;
  response_status = none;
  response_excerpt = none;
  created_at = days 10;
}

abbrev pub settled_row : WebhookDelivery
settled_row = record row { id = 6; status = delivered }

abbrev pub db : Db
db = record empty_db {
  products = product ∷ [];
  customers = customer ∷ [];
  licenses = license ∷ [];
  deliveries = row ∷ settled_row ∷ [];
}

abbrev pub session : Session
session = record {
  store = db;
  work = db;
  added = [];
  next_id = 100;
  draws = 0;
  mails = [];
  tasks = [];
}

abbrev pub post : StripePost
post = record {
  slug = codes "prod";
  payload = codes "{}";
  signature = days 10 ∷ [];
  lost_race = false;
}

abbrev pub check_args : CheckArgs
check_args = record {
  key = codes "K";
  install_id = codes "i";
  version = codes "1";
  public_url = some (codes "https://b.example/");
  client_ip_hash = none;
}

abbrev pub edit_args : EditArgs
edit_args = record {
  plan = codes "pro";
  max_users = 20;
  valid_until_raw = codes "2030-01-01";
  features_json = [];
  webhook_url = codes "v";
  allow_http_webhook = some false;
  rotate_secret = false;
  note = none;
}

abbrev pub issue_args : IssueArgs
issue_args = record {
  email = codes "d@x";
  name = none;
  plan = codes "pro";
  max_users = 5;
  valid_days = 30;
  features = obj end;
  webhook_url = some (codes "v");
  allow_http_webhook = false;
  stripe_customer_id = none;
  note = none;
  send_email = true;
}
