-- ===== src/Pagination/Cursor.antt =====
-- The cursor round trip, and the order of the keys.
use yg_license_server.Base.{◌≡◌, refl, ap, ◌∙◌, true, false, some, [], ◌∷◌, ◌++◌, arith, any, ◌==◌}
use yg_license_server.Text.{Text, nonempty}
use yg_license_server.Model.{Time}
use yg_license_server.Runtime.{Runtime}
use yg_license_server.LicenseKeys.{partition}
use yg_license_server.Pagination.{
  Key, text_lt, key_lt, encode_cursor, decode_cursor, parse_raw, parse_parts, with_time,
}

-- What the code relies on: `fromisoformat` reads what `isoformat` writes, which is not empty and has no
-- `|`, and Base64 is undone, with an empty token for the empty text only.
pub record IsCodec (rt : Runtime) : Type 0 where
  pub iso : (t : Time) → rt.from_iso (rt.isoformat t) ≡ some t
  pub iso_filled : (t : Time) → nonempty (rt.isoformat t) ≡ true
  pub iso_plain : (t : Time) → any (λ c. c == b'|') (rt.isoformat t) ≡ false
  pub b64 : (s : Text) → rt.b64_decode (rt.b64_encode s) ≡ some s
  pub b64_filled : (s : Text) → nonempty s ≡ true → nonempty (rt.b64_encode s) ≡ true

partition-plain :
    (before behind : Text)
    → any (λ c. c == b'|') before ≡ false
    → partition b'|' (before ++ b'|' ∷ behind) ≡ some (before, behind)
unfolding partition
partition-plain [] behind h = refl
partition-plain (c ∷ before) behind h = ground (arith, partition-plain before behind)

parse_parts-filled :
    (rt : Runtime) (ts id : Text)
    → nonempty ts ≡ true
    → nonempty id ≡ true
    → parse_parts rt (some (ts, id)) ≡ with_time (rt.from_iso ts) id
parse_parts-filled rt [] id h g = ground arith
parse_parts-filled rt (c ∷ ts) [] h g = ground arith
parse_parts-filled rt (c ∷ ts) (d ∷ id) h g = refl

decode-filled :
    (rt : Runtime) (token : Text)
    → nonempty token ≡ true
    → decode_cursor rt (some token) ≡ parse_raw rt (rt.b64_decode token)
unfolding decode_cursor
decode-filled rt [] h = ground arith
decode-filled rt (c ∷ token) h = refl

append-filled : (s t : Text) → nonempty s ≡ true → nonempty (s ++ t) ≡ true
append-filled [] t h = ground arith
append-filled (c ∷ s) t h = refl

-- Decoding a cursor gives back the creation time and the id that it was made of, for an id that is not
-- empty.
pub decode_cursor-encode_cursor :
    (rt : Runtime) (created : Time) (id : Text)
    → IsCodec rt
    → nonempty id ≡ true
    → decode_cursor rt (some (encode_cursor rt created id)) ≡ some (created, id)
unfolding encode_cursor
decode_cursor-encode_cursor rt created id codec filled =
    let raw = rt.isoformat created ++ b'|' ∷ id in
    decode-filled rt (rt.b64_encode raw) (
      codec.b64_filled raw
        (append-filled (rt.isoformat created) (b'|' ∷ id) (codec.iso_filled created)))
    ∙ ap (parse_raw rt) (codec.b64 raw)
    ∙ ap (parse_parts rt) (partition-plain (rt.isoformat created) id (codec.iso_plain created))
    ∙ parse_parts-filled rt (rt.isoformat created) id (codec.iso_filled created) filled
    ∙ ap (λ t. with_time t id) (codec.iso created)

text_lt-asym : (s t : Text) → text_lt s t ≡ true → text_lt t s ≡ false
unfolding text_lt
text_lt-asym [] [] h = refl
text_lt-asym [] (d ∷ t) h = refl
text_lt-asym (c ∷ s) [] h = ground arith
text_lt-asym (c ∷ s) (d ∷ t) h = ground (arith, text_lt-asym s t)

text_lt_irrefl : (s : Text) → text_lt s s ≡ false
unfolding text_lt
text_lt_irrefl [] = refl
text_lt_irrefl (c ∷ s) = ground (arith, text_lt_irrefl s)

pub key_lt-asym : (a b : Key) → key_lt a b ≡ true → key_lt b a ≡ false
unfolding key_lt
key_lt-asym (t, s) (u, r) h = ground (arith, text_lt-asym s r)

pub key_lt_irrefl : (a : Key) → key_lt a a ≡ false
unfolding key_lt
key_lt_irrefl (t, s) = ground (arith, text_lt_irrefl s)
