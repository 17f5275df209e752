-- ===== src/Presets/Made.antt =====
-- What `create_preset` of app/services/presets.py makes.
use yg_license_server.Base.{
  ◌≡◌, refl, Bool, true, false, Option, none, some, List, [], ◌∷◌, ◌++◌, is_some, find,
  if◌then◌else◌, All, not,
}
use yg_license_server.Text.{Text, strip}
use yg_license_server.Model.{RowId, FeaturePreset, ValueType, Json, EventType, Payload}
use yg_license_server.Runtime.{Runtime}
use yg_license_server.Session.{
  Session, Exec, Result, ok, err, conflict, overflow_error, not_found, validation_failed, pure,
  raise_if, gets, lift, or_raise, ◌>>=◌, ◌>>◌, fresh_id, add_event, commit,
}
use yg_license_server.Presets.{
  key_ok, parse_value, as_number, as_json, same_place, validate_preset, product_missing,
  append_preset, create_preset, value_type_of, invalid_value,
}

-- a value of a type
abbrev pub fits : Runtime → ValueType → Json → Bool
fits rt ValueType.bool (Json.bool b) = true
fits rt ValueType.number (Json.int n) = true
fits rt ValueType.number (Json.float t) = rt.is_finite t
fits rt ValueType.string (Json.str t) = true
fits rt ValueType.json j = true
fits rt _ _ = false

-- every value of a result is of the type
abbrev Typed : Runtime → ValueType → Result Json → Type 0
Typed rt type (ok j) = fits rt type j ≡ true
Typed rt type (err e) = Unit

Typed-as_number : (rt : Runtime) (o : Option Json) → Typed rt ValueType.number (as_number rt o)
Typed-as_number rt none = tt
Typed-as_number rt (some Json.null) = tt
Typed-as_number rt (some (Json.bool b)) = tt
Typed-as_number rt (some (Json.int n)) = in_range (rt.too_large n)
  where
    in_range :
        (b : Bool) → Typed rt ValueType.number (if b then err overflow_error else ok (Json.int n))
    in_range true = tt
    in_range false = refl
Typed-as_number rt (some (Json.float t)) = finite (rt.is_finite t) refl
  where
    finite :
        (b : Bool)
        → rt.is_finite t ≡ b
        → Typed rt ValueType.number (if b then ok (Json.float t) else invalid_value)
    finite true e = e
    finite false e = tt
Typed-as_number rt (some (Json.str t)) = tt
Typed-as_number rt (some (Json.arr xs)) = tt
Typed-as_number rt (some (Json.obj fs)) = tt

Typed-as_json : (rt : Runtime) (o : Option Json) → Typed rt ValueType.json (as_json o)
Typed-as_json rt none = tt
Typed-as_json rt (some j) = refl

Typed-choice :
    (rt : Runtime) (b c : Bool)
    → Typed rt ValueType.bool
        (if b then ok (Json.bool true) else if c then ok (Json.bool false) else invalid_value)
Typed-choice rt true c = refl
Typed-choice rt false true = refl
Typed-choice rt false false = tt

Typed-parse_value :
    (rt : Runtime) (type : ValueType) (raw : Text) → Typed rt type (parse_value rt type raw)
unfolding parse_value
Typed-parse_value rt ValueType.bool raw = Typed-choice rt _ _
Typed-parse_value rt ValueType.number raw = Typed-as_number rt (rt.json_loads (strip raw))
Typed-parse_value rt ValueType.string raw = refl
Typed-parse_value rt ValueType.json raw = Typed-as_json rt (rt.json_loads (strip raw))

-- no row of the table has the scope and the key
abbrev pub IsFree : Option RowId → Text → List FeaturePreset → Type 0
IsFree product_id key = All (λ g. same_place product_id key none g ≡ false)

IsFree-find :
    (product_id : Option RowId) (key : Text) (rows : List FeaturePreset)
    → find (same_place product_id key none) rows ≡ none
    → IsFree product_id key rows
IsFree-find product_id key [] h = tt
IsFree-find product_id key (g ∷ gs) h =
    split (same_place product_id key none g) refl h (IsFree-find product_id key gs)
  where
    split :
        (b : Bool)
        → same_place product_id key none g ≡ b
        → (if b then some g else find (same_place product_id key none) gs) ≡ none
        → (find (same_place product_id key none) gs ≡ none → IsFree product_id key gs)
        → IsFree product_id key (g ∷ gs)
    split true e i rest = cc
    split false e i rest = (e, rest i)

-- what a creation gives: a row with a valid key of a scope that had none, its value of its type,
-- committed at the end of the table
abbrev pub Made : Runtime → Option RowId → Session → Result FeaturePreset × Session → Type 0
Made rt product_id s (ok f, t) =
    (f.product_id ≡ product_id)
    × (key_ok f.key ≡ true)
    × (fits rt f.value_type f.default_value ≡ true)
    × IsFree product_id f.key s.work.presets
    × (t.work.presets ≡ s.work.presets ++ f ∷ [])
    × (t.store.presets ≡ s.work.presets ++ f ∷ [])
Made rt product_id s (err e, t) = t ≡ s

module _ (rt : Runtime) (product_id : Option RowId) (key default_raw : Text) (memo : Option Text)
    (s : Session) where
  insert : ValueType → Json → Exec FeaturePreset
  unfolding fresh_id append_preset add_event commit
  insert type value = do
    id ← fresh_id
    let preset : FeaturePreset = record {
      id = id;
      product_id = product_id;
      key = strip key;
      value_type = type;
      default_value = value;
      created_at = rt.now;
    }
    append_preset preset
    add_event rt none product_id EventType.preset_created
        (Payload.preset_told (strip key) (some type) (is_some product_id)) memo
    commit
    pure preset

  from_value :
      (type : ValueType)
      → key_ok (strip key) ≡ true
      → IsFree product_id (strip key) s.work.presets
      → (r : Result Json) → Typed rt type r
      → Made rt product_id s ((lift r >>= insert type) s)
  unfolding insert
  from_value type valid free (ok j) typed = (refl, valid, typed, free, refl, refl)
  from_value type valid free (err e) typed = refl

  from_lookup :
      (type : ValueType)
      → key_ok (strip key) ≡ true
      → (o : Option FeaturePreset)
      → find (same_place product_id (strip key) none) s.work.presets ≡ o
      → Made rt product_id s (
          (raise_if (is_some o) (conflict "preset exists")
              >> (lift (parse_value rt type default_raw) >>= insert type))
            s)
  from_lookup type valid none e =
      from_value type valid (IsFree-find product_id (strip key) s.work.presets e)
        (parse_value rt type default_raw) (Typed-parse_value rt type default_raw)
  from_lookup type valid (some g) e = refl

  from_key :
      (type : ValueType) (b : Bool)
      → key_ok (strip key) ≡ b
      → Made rt product_id s (
          ((raise_if (not b) (validation_failed "invalid preset key")
                >> (gets (λ t. find (same_place product_id (strip key) none) t.work.presets)
                    >>= λ o. raise_if (is_some o) (conflict "preset exists")))
              >> (lift (parse_value rt type default_raw) >>= insert type))
            s)
  from_key type true e =
      from_lookup type e (find (same_place product_id (strip key) none) s.work.presets) refl
  from_key type false e = refl

  from_product :
      (type : ValueType) (missing : Bool)
      → Made rt product_id s (
          (raise_if missing (not_found "product not found")
              >> (validate_preset product_id (strip key) none
                  >> (lift (parse_value rt type default_raw) >>= insert type)))
            s)
  unfolding validate_preset
  from_product type true = refl
  from_product type false = from_key type (key_ok (strip key)) refl

  from_type :
      (o : Option ValueType)
      → Made rt product_id s (
          (or_raise o (validation_failed "invalid preset type") >>= λ type.
          gets (product_missing product_id) >>= λ missing.
          raise_if missing (not_found "product not found")
          >> (validate_preset product_id (strip key) none
              >> (lift (parse_value rt type default_raw) >>= insert type)))
            s)
  from_type none = refl
  from_type (some type) = from_product type (product_missing product_id s)

-- In every session, `create_preset` either ends with an error and leaves the session as it was, or it
-- gives a preset of the scope asked for, with a valid key that no preset of the scope had and a value of
-- its type, and has committed the table with this row at its end.
pub create_preset-Made :
    (rt : Runtime) (product_id : Option RowId) (key value_type default_raw : Text)
    (memo : Option Text) (s : Session)
    → Made rt product_id s (create_preset rt product_id key value_type default_raw memo s)
unfolding create_preset insert
create_preset-Made rt product_id key value_type default_raw memo s =
    from_type rt product_id key default_raw memo s (value_type_of value_type)
