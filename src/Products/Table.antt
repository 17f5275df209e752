-- ===== src/Products/Table.antt =====
-- Tables of products in which a slug names one product and the secrets are envelopes.
use yg_license_server.Base.{
  ◌≡◌, refl, sym, ◌∙◌, subst, arith, Bool, true, false, Option, none, some, List, [], ◌∷◌, ◌++◌,
  All, All-append, All-update_where, All-delete_where, put_by, delete_by, find, ◌==◌,
}
use yg_license_server.Text.{Text, text_eq, eq_of_text_eq, text_eq_refl}
use yg_license_server.Model.{Product, RowId}
use yg_license_server.Keystore.{is_encrypted}
use yg_license_server.Products.{UpdateArgs, edited_product, is_other, given_or}

-- each secret that is set is an envelope
abbrev pub OptSealed : Option Text → Type 0
OptSealed none = Unit
OptSealed (some t) = is_encrypted t ≡ true

abbrev pub IsSealed : Product → Type 0
IsSealed p =
    (is_encrypted p.private_key_pem ≡ true)
    × OptSealed p.stripe_webhook_secret
    × OptSealed p.stripe_api_key

-- the two are one product if they have one slug
abbrev pub Agree : Product → Product → Type 0
Agree p q = p.slug ≡ q.slug → p.id ≡ q.id

abbrev pub SlugsApart : List Product → Type 0
SlugsApart ps = All (λ p. All (Agree p) ps) ps

abbrev pub IsValidTable : List Product → Type 0
IsValidTable ps = All IsSealed ps × SlugsApart ps

pub All-map :
    {P Q : Product → Type 0} (ps : List Product) → ((p : Product) → P p → Q p) → All P ps → All Q ps
All-map [] f h = tt
All-map (p ∷ ps) f h = (f p h.0, All-map ps f h.1)

pub All-both :
    (P Q : Product → Type 0) (ps : List Product) → All P ps → All Q ps → All (λ p. P p × Q p) ps
All-both P Q [] h g = tt
All-both P Q (p ∷ ps) h g = ((h.0, g.0), All-both P Q ps h.1 g.1)

-- a row that agrees with all rows of a table
abbrev pub Agrees : Product → List Product → Type 0
Agrees q ps = All (λ p. Agree p q) ps × All (Agree q) ps

pub SlugsApart-append :
    (q : Product) (ps : List Product) → SlugsApart ps → Agrees q ps → SlugsApart (ps ++ q ∷ [])
SlugsApart-append q ps h (left, right) =
    All-append (λ p. All (Agree p) (ps ++ q ∷ [])) ps (q ∷ [])
      (All-map ps (λ p g. All-append (Agree p) ps (q ∷ []) g.0 (g.1, tt))
        (All-both (λ p. All (Agree p) ps) (λ p. Agree p q) ps h left))
      (All-append (Agree q) ps (q ∷ []) right ((λ e. refl), tt), tt)

pub SlugsApart-put_by :
    (q : Product) (ps : List Product)
    → SlugsApart ps
    → Agrees q ps
    → SlugsApart (put_by (λ (p : Product). p.id) q ps)
SlugsApart-put_by q ps h (left, right) =
    All-update_where (λ p. All (Agree p) (put_by (λ (p : Product). p.id) q ps)) (λ p. p.id == q.id)
      (λ _. q) ps (λ p g e. put q right (λ e. refl))
      (All-map ps (λ p g. put p g.0 g.1)
        (All-both (λ p. All (Agree p) ps) (λ p. Agree p q) ps h left))
  where
    put :
        (p : Product)
        → All (Agree p) ps
        → Agree p q
        → All (Agree p) (put_by (λ (p : Product). p.id) q ps)
    put p g e = All-update_where (Agree p) (λ p. p.id == q.id) (λ _. q) ps (λ _ _ _. e) g

pub SlugsApart-delete_by :
    (k : RowId) (ps : List Product)
    → SlugsApart ps
    → SlugsApart (delete_by (λ (p : Product). p.id) k ps)
SlugsApart-delete_by k ps h =
    All-delete_where (λ p. All (Agree p) (delete_by (λ (p : Product). p.id) k ps)) (λ p. p.id == k)
      ps (All-map ps (λ p g. All-delete_where (Agree p) (λ p. p.id == k) ps g) h)

-- no row has the slug: a new row with it agrees with all
pub Agrees-fresh :
    (q : Product) (ps : List Product)
    → find (λ (p : Product). text_eq p.slug q.slug) ps ≡ none
    → Agrees q ps
Agrees-fresh q [] h = (tt, tt)
Agrees-fresh q (p ∷ ps) h =
    let (left, right) = Agrees-fresh q ps (ground arith) in
    (((λ e. clash e h), left), ((λ e. clash (sym e) h), right))
  where
    clash :
        {x y : RowId}
        → p.slug ≡ q.slug
        → find (λ (r : Product). text_eq r.slug q.slug) (p ∷ ps) ≡ none
        → x ≡ y
    clash e f =
        let same : text_eq p.slug q.slug ≡ true =
          subst (λ t. text_eq t q.slug ≡ true) (sym e) (text_eq_refl q.slug) in
        ground arith

-- the row that an edit of `p` gives agrees with the table, if its slug is the old one or free
pub Agrees-edited :
    (a : UpdateArgs) (p : Product) (ps : List Product)
    → All (Agree p) ps
    → (b : Bool) → is_other a.new_slug p.slug ≡ b
    → (b ≡ true → find (λ (r : Product). text_eq r.slug (given_or a.new_slug p.slug)) ps ≡ none)
    → Agrees (edited_product a p) ps
Agrees-edited a p ps right true e free = Agrees-fresh (edited_product a p) ps (free refl)
Agrees-edited a p ps right false e free =
    let same = same_slug a.new_slug p.slug e in
    (
      All-map ps (λ r h f. sym (h (sym (f ∙ same)))) right,
      All-map ps (λ r h f. h (sym same ∙ f)) right,
    )
  where
    same_slug : (new : Option Text) (old : Text) → is_other new old ≡ false → given_or new old ≡ old
    same_slug none old f = refl
    same_slug (some t) old f = eq_of_text_eq t old (ground (arith, f))
