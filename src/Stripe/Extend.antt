-- ===== src/Stripe/Extend.antt =====
-- What a paid invoice does to the licenses of its customer.
use yg_license_server.Base.{
  ℕ, ◌+◌, ◌*◌, ◌≤◌, ◌≡◌, ◌≢◌, refl, sym, subst, true, Option, none, some, List, [], ◌∷◌, max, arith,
  All, All-find, find, select, get_by, get_by-put_by_self, get_by-put_by_ne, ◌==◌, inl, inr, ltb,
  Bool-cases,
}
use yg_license_server.Text.{Text}
use yg_license_server.Model.{RowId, Product, Customer, License, active}
use yg_license_server.Runtime.{Runtime}
use yg_license_server.Session.{Session, save_license, add_event}
use yg_license_server.Stripe.{
  extend, extend_newest, extended, newest, later, owned_by, with_stripe_id, pay_for,
  pay_or_register, extend_or_create,
}

abbrev pub license_by : RowId → Session → Option License
license_by id s = get_by (λ (l : License). l.id) id s.work.licenses

-- a license of a customer for a product that none of theirs for it was created behind
abbrev pub IsNewest : Customer → Product → List License → License → Type 0
IsNewest cust product rows lic =
    (lic.customer_id ≡ cust.id)
    × (lic.product_id ≡ product.id)
    × All (λ l. l.customer_id ≡ cust.id → l.product_id ≡ product.id → l.created_at ≤ lic.created_at)
        rows

-- the row of a license that was paid for: thirty days, in microseconds, behind its end or behind now
abbrev pub Paid : Runtime → License → License → Type 0
Paid rt lic row =
    (row.status ≡ active)
    × (row.valid_until ≡ max lic.valid_until rt.now + 30 * 24 * 60 * 60 * 1_000_000)
    × (row.id ≡ lic.id)
    × (row.customer_id ≡ lic.customer_id)
    × (row.product_id ≡ lic.product_id)
    × (row.key ≡ lic.key)
    × (row.key_hash ≡ lic.key_hash)
    × (row.plan ≡ lic.plan)
    × (row.max_users ≡ lic.max_users)
    × (row.features ≡ lic.features)
    × (row.webhook_url ≡ lic.webhook_url)
    × (row.webhook_secret ≡ lic.webhook_secret)

extend-Paid :
    (rt : Runtime) (product : Product) (lic : License) (s : Session)
    → license_by lic.id s ≡ some lic
    → let t = (extend rt product lic s).1 in
      ((row : License) × (license_by lic.id t ≡ some row) × Paid rt lic row)
      × ((id : RowId) → id ≢ lic.id → license_by id t ≡ license_by id s)
unfolding extend save_license add_event
extend-Paid rt product lic s found = (
  (
    extended rt lic,
    get_by-put_by_self (λ (l : License). l.id) (extended rt lic) lic s.work.licenses found,
    (refl, omega arith, refl, refl, refl, refl, refl, refl, refl, refl, refl, refl),
  ),
  λ id ne. get_by-put_by_ne (λ (l : License). l.id) (extended rt lic) id s.work.licenses ne,
)

All-later :
    (P : License → Type 0) (l : License) (o : Option License)
    → P l
    → ((m : License) → o ≡ some m → P m)
    → P (later l o)
All-later P l none h hs = h
All-later P l (some m) h hs = elim (Bool-cases (ltb l.created_at m.created_at)) [
  | inl e ↦ rw e (hs m refl)
  | inr e ↦ rw e h
]

newest-All :
    (P : License → Type 0) (ls : List License) (lic : License)
    → All P ls
    → newest ls ≡ some lic
    → P lic
unfolding newest
newest-All P [] lic h e = cc
newest-All P (l ∷ ls) lic (h, hs) e =
    subst (λ (o : Option License). (m : License) → o ≡ some m → P m) e
      (λ m f.
        subst P (some-eq (later l (newest ls)) m f)
          (All-later P l (newest ls) h (λ m' g. newest-All P ls m' hs g)))
      lic refl
  where
    some-eq : (x y : License) → some x ≡ some y → x ≡ y
    some-eq x y f = cc

All-le :
    (m n : ℕ) (ls : List License)
    → m ≤ n
    → All (λ l. l.created_at ≤ m) ls
    → All (λ l. l.created_at ≤ n) ls
All-le m n [] le h = tt
All-le m n (l ∷ ls) le (h, hs) = (omega arith, All-le m n ls le hs)

later-latest :
    (l : License) (ls : List License) (o : Option License)
    → ((m : License) → o ≡ some m → All (λ x. x.created_at ≤ m.created_at) ls)
    → (o ≡ none → ls ≡ [])
    → All (λ x. x.created_at ≤ (later l o).created_at) (l ∷ ls)
later-latest l ls none hs empty =
    (omega arith, subst (All (λ x. x.created_at ≤ l.created_at)) (sym (empty refl)) tt)
later-latest l ls (some m) hs empty = elim (Bool-cases (ltb l.created_at m.created_at)) [
  | inl e ↦
      let same : later l (some m) ≡ m = rw e refl in
      subst (λ (x : License). All (λ y. y.created_at ≤ x.created_at) (l ∷ ls)) (sym same)
        (ground arith, hs m refl)
  | inr e ↦
      let same : later l (some m) ≡ l = rw e refl in
      subst (λ (x : License). All (λ y. y.created_at ≤ x.created_at) (l ∷ ls)) (sym same)
        (omega arith, All-le m.created_at l.created_at ls (ground arith) (hs m refl))
]

newest-none : (ls : List License) → newest ls ≡ none → ls ≡ []
unfolding newest
newest-none [] e = refl
newest-none (l ∷ ls) e = cc

newest-latest :
    (ls : List License) (lic : License)
    → newest ls ≡ some lic
    → All (λ l. l.created_at ≤ lic.created_at) ls
unfolding newest
newest-latest [] lic e = cc
newest-latest (l ∷ ls) lic e =
    subst (λ n. All (λ x. x.created_at ≤ n) (l ∷ ls)) (at_some e)
      (later-latest l ls (newest ls) (λ m f. newest-latest ls m f) (newest-none ls))
  where
    at_some :
        some (later l (newest ls)) ≡ some lic → (later l (newest ls)).created_at ≡ lic.created_at
    at_some f = cc

module _ (cust : Customer) (product : Product) where
  abbrev Owned : License → Type 0
  Owned l = (l.customer_id ≡ cust.id) × (l.product_id ≡ product.id)

  owned_by-Owned : (l : License) → owned_by cust product l ≡ true → Owned l
  owned_by-Owned l h = ground arith

  Owned-owned_by : (l : License) → Owned l → owned_by cust product l ≡ true
  Owned-owned_by l h = ground arith

  Owned-select : (ls : List License) → All Owned (select (owned_by cust product) ls)
  Owned-select [] = tt
  Owned-select (l ∷ ls) = elim (Bool-cases (owned_by cust product l)) [
    | inl e ↦ rw e (owned_by-Owned l e, Owned-select ls)
    | inr e ↦ rw e (Owned-select ls)
  ]

  All-of-select :
      (P : License → Type 0) (ls : List License)
      → All P (select (owned_by cust product) ls)
      → All (λ l. l.customer_id ≡ cust.id → l.product_id ≡ product.id → P l) ls
  All-of-select P [] h = tt
  All-of-select P (l ∷ ls) h = elim (Bool-cases (owned_by cust product l)) [
    | inl e ↦
        let h' : P l × All P (select (owned_by cust product) ls) = rw e at h in
        ((λ _ _. h'.0), All-of-select P ls h'.1)
    | inr e ↦
        let h' : All P (select (owned_by cust product) ls) = rw e at h in
        ((λ c d. absurd (cc (rw (Owned-owned_by l (c, d)) at e))), All-of-select P ls h')
  ]

  All-select :
      (P : License → Type 0) (ls : List License)
      → All P ls
      → All P (select (owned_by cust product) ls)
  All-select P [] h = tt
  All-select P (l ∷ ls) (h, hs) = elim (Bool-cases (owned_by cust product l)) [
    | inl e ↦ rw e (h, All-select P ls hs)
    | inr e ↦ rw e (All-select P ls hs)
  ]

-- Where the licenses have distinct ids and the Stripe customer of a paid invoice has a license for the
-- product, the one of them that was created last is made active and ends thirty days behind its old end
-- or behind now, whichever is later, so an early payment loses no day; what else it grants is kept, and
-- so is every other license.
pub extend_or_create-Paid :
    (rt : Runtime) (product : Product) (c : ℕ) (id : Text) (email : Option Text) (cust : Customer)
    (own : License) (s : Session)
    → All (λ (l : License). license_by l.id s ≡ some l) s.work.licenses
    → find (with_stripe_id (c ∷ id)) s.work.customers ≡ some cust
    → license_by own.id s ≡ some own
    → own.customer_id ≡ cust.id
    → own.product_id ≡ product.id
    → let t = (extend_or_create rt product (some (c ∷ id)) email s).1 in
      (lic : License) × (row : License) × IsNewest cust product s.work.licenses lic
      × (license_by lic.id s ≡ some lic)
      × (license_by lic.id t ≡ some row)
      × Paid rt lic row
      × ((i : RowId) → i ≢ lic.id → license_by i t ≡ license_by i s)
unfolding extend_or_create pay_or_register pay_for extend_newest
extend_or_create-Paid rt product c id email cust own s unique found mine of for =
    rw (found, pay_or_register, pay_for)
      (by_newest (newest (select (owned_by cust product) s.work.licenses)) refl)
  where
    by_newest :
        (o : Option License)
        → newest (select (owned_by cust product) s.work.licenses) ≡ o
        → let t = (extend_newest rt product cust o s).1 in
          (lic : License) × (row : License) × IsNewest cust product s.work.licenses lic
          × (license_by lic.id s ≡ some lic)
          × (license_by lic.id t ≡ some row)
          × Paid rt lic row
          × ((i : RowId) → i ≢ lic.id → license_by i t ≡ license_by i s)
    by_newest none e =
        let nothing : All (λ _. ⊥) (select (owned_by cust product) s.work.licenses) =
          subst (All (λ _. ⊥))
            (sym (newest-none (select (owned_by cust product) s.work.licenses) e)) tt in
        absurd (
          All-find (λ (l : License). l.customer_id ≡ cust.id → l.product_id ≡ product.id → ⊥)
            (λ (l : License). l.id == own.id) s.work.licenses own
            (All-of-select cust product (λ _. ⊥) s.work.licenses nothing) mine of for)
    by_newest (some lic) e =
        let chosen = select (owned_by cust product) s.work.licenses in
        let is_own =
          newest-All (Owned cust product) chosen lic (Owned-select cust product s.work.licenses)
            e in
        let stored =
          newest-All (λ (l : License). license_by l.id s ≡ some l) chosen lic
            (All-select cust product (λ (l : License). license_by l.id s ≡ some l) s.work.licenses
              unique)
            e in
        let ((row, at_row, paid), others) = extend-Paid rt product lic s stored in
        let latest =
          All-of-select cust product (λ l. l.created_at ≤ lic.created_at) s.work.licenses
            (newest-latest chosen lic e) in
        (lic, row, (is_own.0, is_own.1, latest), stored, at_row, paid, others)
