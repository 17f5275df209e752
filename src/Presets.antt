-- ===== src/Presets.antt =====
-- app/services/presets.py: the feature presets.
pub mod Made
use yg_license_server.Base.{
  ℕ, Bool, true, false, not, ◌&&◌, ◌||◌, Option, none, some, List, [], ◌∷◌, ◌++◌, if◌then◌else◌,
  find, length, all, leb, put_by, delete_by, get_by, option_eq, ◌==◌, is_some,
}
use yg_license_server.Text.{Text, codes, strip, text_eq, nonempty, chop_newline}
use yg_license_server.Model.{RowId, Product, FeaturePreset, ValueType, Json, EventType, Payload}
use yg_license_server.Runtime.{Runtime}
use yg_license_server.Session.{
  Session, Exec, Result, ok, err, conflict, overflow_error, not_found, validation_failed, pure,
  raise_if, gets, lift, or_raise, ◌>>=◌, ◌>>◌, fresh_id, add_event, commit,
}

-- `value_type not in VALUE_TYPES`
unfoldable pub value_type_of : Text → Option ValueType
value_type_of t =
    if text_eq t (codes "bool")
    then some ValueType.bool
    else if text_eq t (codes "number")
    then some ValueType.number
    else if text_eq t (codes "string")
    then some ValueType.string
    else if text_eq t (codes "json")
    then some ValueType.json
    else none

abbrev pub key_char : ℕ → Bool
key_char c =
    (leb b'A' c && leb c b'Z')
    || (leb b'a' c && leb c b'z')
    || (leb b'0' c && leb c b'9')
    || c == b'_'
    || c == b'.'
    || c == b'-'

-- `_KEY_RE.match`
abbrev pub key_ok : Text → Bool
key_ok t =
    nonempty (chop_newline t) && all key_char (chop_newline t) && leb (length (chop_newline t)) 64

abbrev pub invalid_value : {A : Type 0} → Result A
invalid_value = err (validation_failed "invalid preset value")

abbrev pub parse_bool : Text → Result Json
parse_bool low =
    if text_eq low (codes "true") || text_eq low (codes "1") || text_eq low (codes "yes")
    then ok (Json.bool true)
    else if text_eq low (codes "false") || text_eq low (codes "0") || text_eq low (codes "no")
    then ok (Json.bool false)
    else invalid_value

-- a number that is finite; `math.isfinite` raises OverflowError on an int that no float holds
abbrev pub as_number : Runtime → Option Json → Result Json
as_number rt (some (Json.int n)) = if rt.too_large n then err overflow_error else ok (Json.int n)
as_number rt (some (Json.float t)) = if rt.is_finite t then ok (Json.float t) else invalid_value
as_number rt _ = invalid_value

abbrev pub as_json : Option Json → Result Json
as_json none = invalid_value
as_json (some j) = ok j

-- `parse_value`
unfoldable pub parse_value : Runtime → ValueType → Text → Result Json
unfolding strip
parse_value rt ValueType.bool raw = parse_bool (rt.lower (strip raw))
parse_value rt ValueType.number raw = as_number rt (rt.json_loads (strip raw))
parse_value rt ValueType.string raw = ok (Json.str raw)
parse_value rt ValueType.json raw = as_json (rt.json_loads (strip raw))

-- the preset of a scope with a key, another than the one that is left out
abbrev pub same_place : Option RowId → Text → Option RowId → FeaturePreset → Bool
same_place product_id key exclude f =
    option_eq ◌==◌ f.product_id product_id
    && text_eq f.key key
    && not (option_eq ◌==◌ (some f.id) exclude)

-- `_validate`
unfoldable pub validate_preset : Option RowId → Text → Option RowId → Exec Unit
validate_preset product_id key exclude =
    raise_if (not (key_ok key)) (validation_failed "invalid preset key")
    >> (gets (λ s. find (same_place product_id key exclude) s.work.presets) >>= λ found.
        raise_if (is_some found) (conflict "preset exists"))

-- `product_id is not None and db.get(Product, product_id) is None`
abbrev pub product_missing : Option RowId → Session → Bool
product_missing none s = false
product_missing (some id) s = not (is_some (get_by (λ (p : Product). p.id) id s.work.products))

unfoldable pub append_preset : FeaturePreset → Exec Unit
append_preset f s =
    (ok tt, record s { work = record (s.work) { presets = s.work.presets ++ f ∷ [] } })

unfoldable pub save_preset : FeaturePreset → Exec Unit
save_preset f s = (
  ok tt,
  record s {
    work = record (s.work) { presets = put_by (λ (g : FeaturePreset). g.id) f s.work.presets };
  },
)

abbrev pub known_type : Text → Exec ValueType
known_type value_type =
    or_raise (value_type_of value_type) (validation_failed "invalid preset type")

-- `create_preset`
unfoldable pub create_preset :
    Runtime → Option RowId → Text → Text → Text → Option Text → Exec FeaturePreset
unfolding value_type_of validate_preset parse_value fresh_id append_preset add_event commit
create_preset rt product_id key value_type default_raw memo = do
  type ← known_type value_type
  missing ← gets (product_missing product_id)
  raise_if missing (not_found "product not found")
  validate_preset product_id (strip key) none
  value ← lift (parse_value rt type default_raw)
  id ← fresh_id
  let preset : FeaturePreset = record {
    id = id;
    product_id = product_id;
    key = strip key;
    value_type = type;
    default_value = value;
    created_at = rt.now;
  }
  append_preset preset
  add_event rt none product_id EventType.preset_created
      (Payload.preset_told (strip key) (some type) (is_some product_id)) memo
  commit
  pure preset

-- `update_preset`
unfoldable pub update_preset :
    Runtime → FeaturePreset → Text → Text → Text → Option Text → Exec FeaturePreset
unfolding value_type_of validate_preset parse_value save_preset add_event commit
update_preset rt preset key value_type default_raw memo = do
  type ← known_type value_type
  validate_preset preset.product_id (strip key) (some preset.id)
  save_preset (record preset { key = strip key; value_type = type })
  value ← lift (parse_value rt type default_raw)
  let edited : FeaturePreset = record preset {
    key = strip key;
    value_type = type;
    default_value = value;
  }
  save_preset edited
  add_event rt none preset.product_id EventType.preset_updated
      (Payload.preset_told (strip key) (some type) (is_some preset.product_id)) memo
  commit
  pure edited

unfoldable pub remove_preset : FeaturePreset → Exec Unit
remove_preset f s = (
  ok tt,
  record s {
    work = record (s.work) {
      presets = delete_by (λ (g : FeaturePreset). g.id) f.id s.work.presets;
    };
  },
)

-- the loop of `delete_presets`
unfoldable pub delete_each : Runtime → List FeaturePreset → Option Text → Exec Unit
unfolding add_event remove_preset
delete_each rt [] memo = pure tt
delete_each rt (f ∷ fs) memo =
    add_event rt none f.product_id EventType.preset_deleted
      (Payload.preset_told f.key none (is_some f.product_id)) memo
    >> (remove_preset f >> delete_each rt fs memo)

-- `delete_presets`
unfoldable pub delete_presets : Runtime → List FeaturePreset → Option Text → Exec ℕ
unfolding delete_each commit
delete_presets rt presets memo = delete_each rt presets memo >> (commit >> pure (length presets))
