-- ===== src/Pagination.antt =====
-- app/pagination.py: pages of a query in descending order of creation time and id, with an opaque cursor.
pub mod Cursor
pub mod Walk
use yg_license_server.Base.{
  ℕ, suc, ◌-◌, Bool, true, false, ◌&&◌, ◌||◌, Option, none, some, List, [], ◌∷◌, ◌++◌, ltb, min,
  take, length, select, get_elem?, ◌==◌, if◌then◌else◌,
}
use yg_license_server.Text.{Text, nonempty}
use yg_license_server.Model.{Time, ℤ, pos, negsuc}
use yg_license_server.Runtime.{Runtime}
use yg_license_server.LicenseKeys.{partition}

-- `DEFAULT_LIMIT` and `MAX_LIMIT`
abbrev pub default_limit : ℕ
default_limit = 100

abbrev pub max_limit : ℕ
max_limit = 500

abbrev pub clamp_int : ℤ → ℕ
clamp_int (negsuc n) = default_limit
clamp_int (pos n) = if ltb n 1 then default_limit else min n max_limit

-- `clamp_limit` of a query parameter, with the default arguments
unfoldable pub clamp_limit : Runtime → Option Text → ℕ
clamp_limit rt none = default_limit
clamp_limit rt (some raw) = elim (rt.parse_int raw) [ none ↦ default_limit | some n ↦ clamp_int n ]

-- what a query is ordered by: the creation time and the text of the id
abbrev pub Key : Type 0
Key = Time × Text

-- `<` of two texts
unfoldable pub text_lt : Text → Text → Bool
text_lt [] [] = false
text_lt [] (d ∷ t) = true
text_lt (c ∷ s) [] = false
text_lt (c ∷ s) (d ∷ t) = let rest = text_lt s t in ltb c d || (c == d && rest)

-- `or_(created_col < ts, and_(created_col == ts, id_col < rid))`
unfoldable pub key_lt : Key → Key → Bool
unfolding text_lt
key_lt (created, id) (ts, rid) = ltb created ts || (created == ts && text_lt id rid)

-- `encode_cursor`
unfoldable pub encode_cursor : Runtime → Time → Text → Text
encode_cursor rt created id = rt.b64_encode (rt.isoformat created ++ b'|' ∷ id)

abbrev pub with_time : Option Time → Text → Option Key
with_time none id = none
with_time (some ts) id = some (ts, id)

-- the two parts of a decoded token; without a `|` the second is empty
abbrev pub parse_parts : Runtime → Option (Text × Text) → Option Key
parse_parts rt none = none
parse_parts rt (some ([], id)) = none
parse_parts rt (some (c ∷ ts, [])) = none
parse_parts rt (some (c ∷ ts, d ∷ id)) = with_time (rt.from_iso (c ∷ ts)) (d ∷ id)

abbrev pub parse_raw : Runtime → Option Text → Option Key
parse_raw rt none = none
parse_raw rt (some raw) = parse_parts rt (partition b'|' raw)

-- `decode_cursor`
unfoldable pub decode_cursor : Runtime → Option Text → Option Key
unfolding partition
decode_cursor rt none = none
decode_cursor rt (some []) = none
decode_cursor rt (some (c ∷ token)) = parse_raw rt (rt.b64_decode (c ∷ token))

-- `Page`
pub record Page (A : Type 0) : Type 0 where
  pub items : List A
  pub next_cursor : Option Text

module _ {A : Type 0} where
  -- the rows strictly behind a cursor
  abbrev pub behind : (A → Key) → Option Key → List A → List A
  behind key none query = query
  behind key (some k) query = select (λ r. key_lt (key r) k) query

  abbrev pub token_of : Runtime → (A → Key) → Option A → Option Text
  token_of rt key none = none
  token_of rt key (some r) = some (encode_cursor rt (key r).0 (key r).1)

  -- One row more than the limit is fetched, and stands for more pages. `rows[limit - 1]` with a limit of
  -- 0 is the last row, which is then the only one.
  abbrev pub page_of : Runtime → (A → Key) → ℕ → List A → Page A
  page_of rt key limit rows =
      if ltb limit (length rows)
      then record {
        items = take limit rows;
        next_cursor = token_of rt key (get_elem? rows (limit - 1));
      }
      else record { items = rows; next_cursor = none }

  -- `paginate` of a query that is the list of its rows in order, with a key function
  unfoldable pub paginate : Runtime → (A → Key) → List A → Option Text → ℕ → Page A
  unfolding decode_cursor encode_cursor key_lt
  paginate rt key query cursor limit =
      page_of rt key limit (take (suc limit) (behind key (decode_cursor rt cursor) query))
