-- ===== src/Pagination/Walk.antt =====
-- Following the cursors from page to page.
use yg_license_server.Base.{
  ℕ, zero, suc, ◌-◌, ◌≤◌, ◌<◌, ◌≡◌, refl, sym, ap, subst, ◌∙◌, true, false, Option, none, some,
  List, [], ◌∷◌, ◌++◌, arith, All, length, length-append, take, get_elem?, select, ltb, Bool-cases,
  inl, inr,
}
use yg_license_server.Text.{Text, nonempty}
use yg_license_server.Runtime.{Runtime}
use yg_license_server.Pagination.{
  Key, key_lt, Page, behind, token_of, page_of, paginate, decode_cursor,
}
use yg_license_server.Pagination.Cursor.{
  IsCodec, decode_cursor-encode_cursor, key_lt-asym, key_lt_irrefl,
}

module _ {A : Type 0} (key : A → Key) where
  -- each row is behind all before it
  abbrev pub IsDescending : List A → Type 0
  IsDescending [] = Unit
  IsDescending (x ∷ xs) = All (λ y. key_lt (key y) (key x) ≡ true) xs × IsDescending xs

  select-All :
      (k : Key) (xs : List A)
      → All (λ y. key_lt (key y) k ≡ true) xs
      → select (λ r. key_lt (key r) k) xs ≡ xs
  select-All k [] h = refl
  select-All k (x ∷ xs) h = ground (arith, select-All k xs h.1)

  All-at : (P : A → Type 0) (xs : List A) (y : A) (zs : List A) → All P (xs ++ y ∷ zs) → P y
  All-at P [] y zs h = h.0
  All-at P (x ∷ xs) y zs h = All-at P xs y zs h.1

  -- the rows behind a row are those that follow it
  select-behind :
      (xs : List A) (y : A) (zs : List A)
      → IsDescending (xs ++ y ∷ zs)
      → select (λ r. key_lt (key r) (key y)) (xs ++ y ∷ zs) ≡ zs
  select-behind [] y zs h = ground (arith, key_lt_irrefl (key y), select-All (key y) zs h.0)
  select-behind (x ∷ xs) y zs h = ground (
    arith,
    key_lt-asym (key y) (key x) (All-at (λ w. key_lt (key w) (key x) ≡ true) xs y zs h.0),
    select-behind xs y zs h.1,
  )

module _ {A : Type 0} where
  take-short : (n : ℕ) (xs : List A) → length xs ≤ n → take n xs ≡ xs
  take-short zero [] h = refl
  take-short zero (x ∷ xs) h = ground arith
  take-short (suc n) [] h = refl
  take-short (suc n) (x ∷ xs) h = ap (λ l. x ∷ l) (take-short n xs (omega (arith, h)))

  append_assoc : (xs ys zs : List A) → (xs ++ ys) ++ zs ≡ xs ++ (ys ++ zs)
  append_assoc [] ys zs = refl
  append_assoc (x ∷ xs) ys zs = ap (λ l. x ∷ l) (append_assoc xs ys zs)

  append_nil : (xs : List A) → xs ++ [] ≡ xs
  append_nil [] = refl
  append_nil (x ∷ xs) = ap (λ l. x ∷ l) (append_nil xs)

  shorter :
      (n : ℕ) (q xs : List A) (y z : A) (zs : List A)
      → q ≡ xs ++ y ∷ z ∷ zs
      → length q < suc n
      → length (z ∷ zs) < n
  shorter n q xs y z zs e h = omega (arith, h, ap length e, length-append xs (y ∷ z ∷ zs))

  -- a list cut behind its first rows, where more follow
  split :
      (k : ℕ) (q : List A)
      → suc k < length q
      → (xs : List A) × (y : A) × (z : A) × (zs : List A) × (q ≡ xs ++ y ∷ z ∷ zs) × (length xs ≡ k)
  split k [] h = ground arith
  split zero (x ∷ []) h = ground arith
  split zero (x ∷ z ∷ zs) h = ([], x, z, zs, refl, refl)
  split (suc k) (x ∷ q) h =
      let (xs, y, z, zs, e, n) = split k q (omega (arith, h)) in
      (x ∷ xs, y, z, zs, ap (λ l. x ∷ l) e, ap suc n)

  length-fetched :
      (xs : List A) (y z : A) (zs : List A)
      → length (take (suc (suc (length xs))) (xs ++ y ∷ z ∷ zs)) ≡ suc (suc (length xs))
  length-fetched [] y z zs = refl
  length-fetched (x ∷ xs) y z zs = ap suc (length-fetched xs y z zs)

  take-fetched :
      (xs : List A) (y z : A) (zs : List A)
      → take (suc (length xs)) (take (suc (suc (length xs))) (xs ++ y ∷ z ∷ zs)) ≡ xs ++ y ∷ []
  take-fetched [] y z zs = refl
  take-fetched (x ∷ xs) y z zs = ap (λ l. x ∷ l) (take-fetched xs y z zs)

  get_elem-fetched :
      (xs : List A) (y z : A) (zs : List A)
      → get_elem? (take (suc (suc (length xs))) (xs ++ y ∷ z ∷ zs)) (length xs) ≡ some y
  get_elem-fetched [] y z zs = refl
  get_elem-fetched (x ∷ xs) y z zs = get_elem-fetched xs y z zs

  page_of-last :
      (rt : Runtime) (key : A → Key) (limit : ℕ) (q : List A)
      → length q ≤ limit
      → page_of rt key limit (take (suc limit) q) ≡ record { items = q; next_cursor = none }
  page_of-last rt key limit q h =
      let e = take-short (suc limit) q (omega (arith, h)) in
      rw e (rw (not_more limit (length q) h) refl)
    where
      not_more : (m n : ℕ) → n ≤ m → ltb m n ≡ false
      not_more m n g = ground arith

  page_of-more :
      (rt : Runtime) (key : A → Key) (xs : List A) (y z : A) (zs : List A)
      → page_of rt key (suc (length xs)) (take (suc (suc (length xs))) (xs ++ y ∷ z ∷ zs))
        ≡ record { items = xs ++ y ∷ []; next_cursor = token_of rt key (some y) }
  page_of-more rt key xs y z zs =
      rw (length-fetched xs y z zs, take-fetched xs y z zs, less (length xs))
        (rw (get_elem-fetched xs y z zs, more (length xs)) refl)
    where
      more : (n : ℕ) → ltb (suc n) (suc (suc n)) ≡ true
      more n = ground arith

      less : (n : ℕ) → suc n - 1 ≡ n
      less n = omega arith

  -- the rows of a page, and of those behind its cursor if it has one
  abbrev follow : (Text → List A) → Page A → List A
  follow rest page = page.items ++ elim page.next_cursor [ none ↦ [] | some c ↦ rest c ]

module _ {A : Type 0} (rt : Runtime) (key : A → Key) (query : List A) (limit : ℕ) where
  -- the rows of all pages from a cursor on, for at most `n` pages
  unfoldable pub walk : ℕ → Option Text → List A
  unfolding paginate
  walk zero cursor = []
  walk (suc n) cursor =
      let rest = λ (c : Text). walk n (some c) in follow rest (paginate rt key query cursor limit)

  module _ (codec : IsCodec rt) (sorted : IsDescending key query)
      (named : All (λ r. nonempty (key r).1 ≡ true) query) where
    paginate-found :
        (cursor : Option Text) (q : List A)
        → behind key (decode_cursor rt cursor) query ≡ q
        → paginate rt key query cursor limit ≡ page_of rt key limit (take (suc limit) q)
    unfolding paginate
    paginate-found cursor q found = ap (λ rows. page_of rt key limit (take (suc limit) rows)) found

    -- the rows behind the cursor of a row
    behind-token :
        (before xs : List A) (y : A) (zs : List A)
        → query ≡ before ++ (xs ++ y ∷ zs)
        → behind key (decode_cursor rt (token_of rt key (some y))) query ≡ zs
    behind-token before xs y zs cut =
        let e = cut ∙ sym (append_assoc before xs (y ∷ zs)) in
        let filled =
          All-at key (λ r. nonempty (key r).1 ≡ true) (before ++ xs) y zs
            (subst (All (λ r. nonempty (key r).1 ≡ true)) e named) in
        ap (λ k. behind key k query)
          (decode_cursor-encode_cursor rt (key y).0 (key y).1 codec filled)
        ∙ ap (select (λ r. key_lt (key r) (key y))) e
        ∙ select-behind key (before ++ xs) y zs (subst (IsDescending key) e sorted)

    walk-rest :
        (n : ℕ) (cursor : Option Text) (before q : List A)
        → 1 ≤ limit
        → query ≡ before ++ q
        → behind key (decode_cursor rt cursor) query ≡ q
        → length q < n
        → walk n cursor ≡ q
    unfolding walk
    walk-rest zero cursor before q pos cut found enough = ground arith
    walk-rest (suc n) cursor before q pos cut found enough =
        let rest = λ (c : Text). walk n (some c) in
        elim (Bool-cases (ltb limit (length q))) [
          | inr last ↦
              ap (follow rest)
                (paginate-found cursor q found ∙ page_of-last rt key limit q (ground arith))
              ∙ append_nil q
          | inl more ↦
              let (xs, y, z, zs, e, n_xs) = split (limit - 1) q (ground arith) in
              let full : limit ≡ suc (length xs) = omega (arith, n_xs, pos) in
              let tail =
                walk-rest n (token_of rt key (some y)) (before ++ (xs ++ y ∷ [])) (z ∷ zs) pos
                  (cut
                    ∙ ap (λ l. before ++ l) (e ∙ sym (append_assoc xs (y ∷ []) (z ∷ zs)))
                    ∙ sym (append_assoc before (xs ++ y ∷ []) (z ∷ zs)))
                  (behind-token before xs y (z ∷ zs) (cut ∙ ap (λ l. before ++ l) e))
                  (shorter n q xs y z zs e enough) in
              ap (follow rest) (
                paginate-found cursor q found
                ∙ ap (λ l. page_of rt key l (take (suc l) q)) full
                ∙ ap (λ w. page_of rt key (suc (length xs)) (take (suc (suc (length xs))) w)) e
                ∙ page_of-more rt key xs y z zs)
              ∙ ap (λ l. (xs ++ y ∷ []) ++ l) tail
              ∙ append_assoc xs (y ∷ []) (z ∷ zs)
              ∙ sym e
        ]

-- From the first page on, the pages of a query in strictly descending order hold together each row of the
-- query once and in its order, at any limit of at least one; as many pages as the query has
-- rows, and one more, are enough.
pub walk-query :
    {A : Type 0} (rt : Runtime) (key : A → Key) (query : List A) (limit : ℕ)
    → IsCodec rt
    → IsDescending key query
    → All (λ r. nonempty (key r).1 ≡ true) query
    → 1 ≤ limit
    → walk rt key query limit (suc (length query)) none ≡ query
unfolding decode_cursor
walk-query rt key query limit codec sorted named pos =
    walk-rest rt key query limit codec sorted named (suc (length query)) none [] query pos refl refl
      (omega arith)
