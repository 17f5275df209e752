-- ===== src/Base/Tables.antt =====
-- A database table as the list of its rows in insertion order: queries by a test on the row, the
-- bulk updates and deletes of a query, and the rows by their primary key.
use Prim.Native.Nat.{ℕ}
use mathlib.Core.Path.{◌≡◌, refl, subst}
use mathlib.Core.Logic.{◌≢◌, inl, inr}
use mathlib.Core.Bool.{Bool, true, false}
use mathlib.Core.Option.{Option, none, some}
use mathlib.Core.List.{List, [], ◌∷◌, ◌++◌}
use native.Mathlib.Omega.{arith}
use yg_license_server.Base.Tests.{if◌then◌else◌, ◌==◌, Bool-cases}
use yg_license_server.Base.Lists.{All}

module _ {ℓ} {A : Type ℓ} where
  -- `query.filter(p).one_or_none()` and `.first()`
  abbrev pub find : (A → Bool) → List A → Option A
  find p [] = none
  find p (x ∷ xs) = if p x then some x else find p xs

  -- `query.filter(p).all()`
  abbrev pub select : (A → Bool) → List A → List A
  select p [] = []
  select p (x ∷ xs) = let rest = select p xs in if p x then x ∷ rest else rest

  -- `query.filter(p).update(...)`
  abbrev pub update_where : (A → Bool) → (A → A) → List A → List A
  update_where p f [] = []
  update_where p f (x ∷ xs) = (if p x then f x else x) ∷ update_where p f xs

  -- `query.filter(p).delete()`
  abbrev pub delete_where : (A → Bool) → List A → List A
  delete_where p [] = []
  delete_where p (x ∷ xs) = let rest = delete_where p xs in if p x then rest else x ∷ rest

  pub find-test : (p : A → Bool) (xs : List A) (x : A) → find p xs ≡ some x → p x ≡ true
  find-test p [] x h = cc
  find-test p (y ∷ ys) x h = ground (arith, find-test p ys x)

  pub find-append_none :
      (p : A → Bool) (xs ys : List A) → find p xs ≡ none → find p (xs ++ ys) ≡ find p ys
  find-append_none p [] ys h = refl
  find-append_none p (x ∷ xs) ys h = ground (arith, find-append_none p xs ys)

  pub find-append_some :
      (p : A → Bool) (xs ys : List A) (x : A) → find p xs ≡ some x → find p (xs ++ ys) ≡ some x
  find-append_some p [] ys x h = cc
  find-append_some p (y ∷ xs) ys x h = ground (arith, find-append_some p xs ys x)

  pub find-delete_where : (p : A → Bool) (xs : List A) → find p (delete_where p xs) ≡ none
  find-delete_where p [] = refl
  find-delete_where p (x ∷ xs) = ground (arith, find-delete_where p xs)

  -- The rows that survive a bulk delete are those that fail its test.
  pub delete_where-All : (p : A → Bool) (xs : List A) → All (λ x. p x ≡ false) (delete_where p xs)
  delete_where-All p [] = tt
  delete_where-All p (x ∷ xs) = ground (arith, delete_where-All p xs)

module _ {ℓ} {A : Type ℓ} (key : A → ℕ) where
  -- `db.query(T).filter_by(id=k).one_or_none()`
  abbrev pub get_by : ℕ → List A → Option A
  get_by k = find (λ r. key r == k)

  -- The row object with the key of `r` now holds `r`.
  abbrev pub put_by : A → List A → List A
  put_by r = update_where (λ q. key q == key r) (λ _. r)

  abbrev pub delete_by : ℕ → List A → List A
  delete_by k = delete_where (λ q. key q == k)

  pub get_by-put_by_self :
      (r old : A) (xs : List A)
      → get_by (key r) xs ≡ some old
      → get_by (key r) (put_by r xs) ≡ some r
  get_by-put_by_self r old [] h = cc
  get_by-put_by_self r old (x ∷ xs) h = ground (arith, get_by-put_by_self r old xs)

  pub get_by-put_by_ne :
      (r : A) (k : ℕ) (xs : List A) → k ≢ key r → get_by k (put_by r xs) ≡ get_by k xs
  get_by-put_by_ne r k [] h = refl
  get_by-put_by_ne r k (x ∷ xs) h = ground (arith, get_by-put_by_ne r k xs h)

  pub get_by-delete_by_ne :
      (k j : ℕ) (xs : List A) → j ≢ k → get_by j (delete_by k xs) ≡ get_by j xs
  get_by-delete_by_ne k j [] h = refl
  get_by-delete_by_ne k j (x ∷ xs) h = ground (arith, get_by-delete_by_ne k j xs h)

module _ {ℓ κ} {A : Type ℓ} (P : A → Type κ) where
  pub All-update_where :
      (p : A → Bool) (f : A → A) (xs : List A)
      → ((x : A) → P x → p x ≡ true → P (f x))
      → All P xs
      → All P (update_where p f xs)
  All-update_where p f [] keep h = tt
  All-update_where p f (x ∷ xs) keep (hx, h) = (updated (p x) refl, All-update_where p f xs keep h)
    where
      updated : (b : Bool) → p x ≡ b → P (if b then f x else x)
      updated true e = keep x hx e
      updated false e = hx

  pub All-find : (p : A → Bool) (xs : List A) (x : A) → All P xs → find p xs ≡ some x → P x
  All-find p [] x h e = cc
  All-find p (y ∷ ys) x (hy, h) e = elim (Bool-cases (p y)) [
    | inl here ↦ subst P (same here e) hy
    | inr later ↦ All-find p ys x h (ground arith)
  ]
    where
      same : p y ≡ true → (if p y then some y else find p ys) ≡ some x → y ≡ x
      same h f = ground arith

module _ {ℓ κ} {A : Type ℓ} (P : A → Type κ) where
  pub All-delete_where : (p : A → Bool) (xs : List A) → All P xs → All P (delete_where p xs)
  All-delete_where p [] h = tt
  All-delete_where p (x ∷ xs) (hx, h) = ground (arith, All-delete_where p xs h)
