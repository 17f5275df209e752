-- ===== src/Model/Values.antt =====
-- The vocabularies and the JSON values that the rows hold. The dictionaries that the code builds as
-- event payloads and as webhook data have one constructor for each call site, its fields the
-- dictionary's values in their order; a license's `features` are any JSON value.
use yg_license_server.Base.{ℕ, zero, Bool, false, Option, none, some, List, []}
use yg_license_server.Text.{Text}

-- an int: `pos n` is n, and `negsuc n` is -1 - n
pub data ℤ : Type 0 where
  pos negsuc : ℕ → ℤ

-- `LICENSE_STATUSES`, the constraint `ck_licenses_status`
pub data Status : Type 0 where
  active delinquent disabled revoked : Status

-- the constraint `ck_licenses_webhook_url_source`
pub data Source : Type 0 where
  admin self : Source

pub data SubjectKind : Type 0 where
  license product : SubjectKind

-- The vocabulary of `ck_feature_presets_value_type`.
pub data ValueType : Type 0 where
  bool number string json : ValueType

-- A JSON value. A float is the text of its digits.
mutual
  pub data Json : Type 0 where
    null : Json
    bool : Bool → Json
    int : ℕ → Json
    float : Text → Json
    str : Text → Json
    arr : Items → Json
    obj : Fields → Json

  pub data Items : Type 0 where
    nil : Items
    cons : Json → Items → Items

  pub data Fields : Type 0 where
    end : Fields
    field : Text → Json → Fields → Fields

-- `Event.type`; `status new` is the text "status:" with the new status behind it.
pub data EventType : Type 0 where
  issued extended heartbeat : EventType
  status : Status → EventType
  license_edited license_deleted : EventType
  webhook_updated webhook_converted_to_self : EventType
  override_refused self_registered secret_backfilled : EventType
  product_created product_edited product_deleted customer_edited : EventType
  preset_created preset_updated preset_deleted : EventType
  expiry_warning : ℕ → EventType

-- A column of a product that an edit changes.
pub data ProductField : Type 0 where
  slug_field name_field key_prefix_field jwt_issuer_field description_field : ProductField

-- an entry of the `changes` of an edit: the old and the new value
pub record Change : Type 0 where
  pub field : ProductField
  pub old : Option Text
  pub new : Option Text

-- `Event.payload`. A warning keeps the time that is left, of which the code writes the days. A preset's
-- type is None where the event does not tell it, and the flag tells whether its scope is a product.
pub data Payload : Type 0 where
  empty : Payload
  issued : Text → Bool → Payload
  edited : Bool → Bool → Payload
  hook_set : Bool → Payload
  converted : Option Text → Bool → Payload
  deleted : ℕ → Text → Text → Text → Payload
  refused : Text → Option Text → Payload
  registered : Option Text → Text → Payload
  backfilled : Payload
  beat : Text → Text → Payload
  extended : ℕ → Payload
  product_gone : ℕ → Text → Text → ℕ → Payload
  product_made : Text → Payload
  product_changed : Text → List Change → Payload
  customer_changed : ℕ → Text → Payload
  preset_told : Text → Option ValueType → Bool → Payload
  warned : ℕ → ℕ → Payload
  other : Json → Payload

-- `payload.get("license_id")` and `payload.get("product_id")`
abbrev pub payload_license : Payload → Option ℕ
payload_license (Payload.deleted i key slug email) = some i
payload_license _ = none

abbrev pub payload_product : Payload → Option ℕ
payload_product (Payload.product_gone i slug name count) = some i
payload_product _ = none

-- `WebhookDelivery.event_type`
pub data WebhookEvent : Type 0 where
  status_changed updated deleted test : WebhookEvent

-- The columns of a license whose change `edit_license` reports.
pub data EditField : Type 0 where
  plan max_users valid_until features : EditField

-- `data` of a webhook: license id, key, product slug and customer e-mail, then what the event adds.
pub data WebhookData : Type 0 where
  status_data : ℕ → Text → Option Text → Option Text → Status → Status → WebhookData
  update_data : ℕ → Text → Option Text → Option Text → Status → List EditField → WebhookData
  delete_data : ℕ → Text → Text → Text → WebhookData
  test_data : ℕ → Text → Text → Text → WebhookData

-- `features or {}`: a value that is false in a test is replaced
abbrev pub or_empty : Json → Json
or_empty null = obj end
or_empty (bool false) = obj end
or_empty (int zero) = obj end
or_empty (str []) = obj end
or_empty (arr nil) = obj end
or_empty j = j
