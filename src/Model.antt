-- ===== src/Model.antt =====
-- The tables of app/models.py: one record for each mapped class, with its columns, and the closed
-- vocabularies of its CHECK constraints as enumerations. Row ids (uuid4 texts) are natural numbers,
-- and a datetime (naive UTC) is a number of microseconds.
mod Values
pub use Values.*
use yg_license_server.Base.{ℕ, ◌*◌, Bool, true, false, Option, none, some, List, []}
use yg_license_server.Text.{Text}

abbrev pub RowId : Type 0
RowId = ℕ

abbrev pub Time : Type 0
Time = ℕ

-- `timedelta(days=n)`
abbrev pub days : ℕ → Time
days n = n * 86_400_000_000

abbrev pub minutes : ℕ → Time
minutes n = n * 60_000_000

abbrev pub hours : ℕ → Time
hours n = n * 3_600_000_000

pub record Product : Type 0 where
  pub id : RowId
  pub slug : Text
  pub name : Text
  pub description : Option Text
  pub public_key_pem : Text
  pub private_key_pem : Text
  pub key_prefix : Text
  pub stripe_webhook_secret : Option Text
  pub stripe_api_key : Option Text
  pub jwt_issuer : Text
  pub created_at : Time

pub record Customer : Type 0 where
  pub id : RowId
  pub stripe_customer_id : Option Text
  pub email : Text
  pub name : Option Text
  pub created_at : Time

-- `max_users` is only stored and compared.
pub record License : Type 0 where
  pub id : RowId
  pub product_id : RowId
  pub customer_id : RowId
  pub key : Text
  pub plan : Text
  pub max_users : ℕ
  pub features : Json
  pub valid_until : Time
  pub status : Status
  pub created_at : Time
  pub webhook_url : Option Text
  pub webhook_secret : Option Text
  pub webhook_url_source : Source
  pub allow_http_webhook : Bool
  pub key_hash : Text
  pub key_display : Text

pub record Install : Type 0 where
  pub id : RowId
  pub license_id : RowId
  pub install_id : Text
  pub version : Text
  pub last_seen_at : Time
  pub ip_addr_hash : Option Text

pub record Event : Type 0 where
  pub id : RowId
  pub license_id : Option RowId
  pub product_id : Option RowId
  pub subject_kind : Option SubjectKind
  pub subject_id : Option RowId
  pub type : EventType
  pub payload : Payload
  pub created_at : Time
  pub note : Option Text

pub data DeliveryStatus : Type 0 where
  pending delivered abandoned : DeliveryStatus

pub record WebhookDelivery : Type 0 where
  pub id : RowId
  pub license_id : Option RowId
  pub product_id : Option RowId
  pub url : Text
  pub secret : Text
  pub event_type : WebhookEvent
  pub payload_json : Text
  pub attempts : ℕ
  pub status : DeliveryStatus
  pub next_attempt_at : Time
  pub last_attempt_at : Option Time
  pub delivered_at : Option Time
  pub last_error : Option Text
  pub response_status : Option ℕ
  pub response_excerpt : Option Text
  pub created_at : Time

pub record ProcessedStripeEvent : Type 0 where
  pub id : Text
  pub product_id : Option RowId
  pub type : Text
  pub processed_at : Time

-- The single row of `admin_mfa`. The stored code list is the list that its JSON text holds.
pub record AdminMfa : Type 0 where
  pub enabled : Bool
  pub secret_encrypted : Option Text
  pub recovery_codes_hashed : Option (List Text)
  pub created_at : Time
  pub last_used_at : Option Time

pub record FeaturePreset : Type 0 where
  pub id : RowId
  pub product_id : Option RowId
  pub key : Text
  pub value_type : ValueType
  pub default_value : Json
  pub created_at : Time

-- One state of the whole database. `admin_mfa` has at most one row.
pub record Db : Type 0 where
  pub products : List Product
  pub customers : List Customer
  pub licenses : List License
  pub installs : List Install
  pub events : List Event
  pub deliveries : List WebhookDelivery
  pub processed : List ProcessedStripeEvent
  pub presets : List FeaturePreset
  pub mfa : Option AdminMfa

abbrev pub empty_db : Db
empty_db = record {
  products = [];
  customers = [];
  licenses = [];
  installs = [];
  events = [];
  deliveries = [];
  processed = [];
  presets = [];
  mfa = none;
}

-- `_event_autofill_subject`: what the listener writes into an event before its insertion. An id is a
-- text that is never empty, so a column that is set is true in a test.
unfoldable pub autofill_subject : Event → Event
autofill_subject e = elim e.subject_id [
  | some i ↦ e
  | none ↦ elim e.license_id [
    | some i ↦ record e { subject_kind = some SubjectKind.license; subject_id = some i }
    | none ↦ elim e.product_id [
      | some i ↦ record e { subject_kind = some SubjectKind.product; subject_id = some i }
      | none ↦ elim (payload_license e.payload) [
        | some i ↦ record e { subject_kind = some SubjectKind.license; subject_id = some i }
        | none ↦ elim (payload_product e.payload) [
          | some i ↦ record e { subject_kind = some SubjectKind.product; subject_id = some i }
          | none ↦ e
        ]
      ]
    ]
  ]
]
