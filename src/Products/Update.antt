-- ===== src/Products/Update.antt =====
-- `update_product` keeps the table of products valid.
use yg_license_server.Base.{
  ◌≡◌, refl, Bool, true, false, not, Option, none, some, List, [], ◌∷◌, All, All-find,
  All-update_where, put_by, ◌==◌, is_some,
}
use yg_license_server.Text.{Text, text_eq}
use yg_license_server.Model.{Product, Change}
use yg_license_server.Runtime.{Runtime}
use yg_license_server.Session.{
  add_event, commit, Session, Exec, Error, conflict, validation_failed, not_found, or_raise,
  raise_if, ◌>>=◌, ◌>>◌,
}
use yg_license_server.Session.Hoare.{Ensures, Always, OnOk}
use yg_license_server.Products.{
  slug_ok, update_found, check_required, check_prefix, ensure_free, UpdateArgs, update_product,
  get_product, check_slug, edited_product, changes_of, apply_changes, save_product, with_slug,
  is_other, given_or,
}
use yg_license_server.Products.Table.{
  Agree, Agrees, Agrees-edited, IsSealed, IsValidTable, SlugsApart-put_by,
}
use yg_license_server.Products.Ends.{Ends, Sound, Ends-bind}

module _ (rt : Runtime) (slug : Text) (a : UpdateArgs) (p : Product) where
  -- the row is one of the table's
  abbrev pub Found : Session → Type 0
  Found s = Sound s × IsSealed p × All (Agree p) s.work.products

  -- the edited row agrees with the table
  abbrev pub Ready : Session → Type 0
  Ready s = Sound s × IsSealed p × Agrees (edited_product a p) s.work.products

  pub Ready-Sound : (s : Session) → Ready s → Sound s
  Ready-Sound s h = h.0

  pub Found-Sound : (s : Session) → Found s → Sound s
  Found-Sound s h = h.0

  pub apply_changes-Ends :
      (changes : List Change) → Ends Ready (apply_changes rt slug p (edited_product a p) changes)
  unfolding apply_changes save_product add_event commit
  apply_changes-Ends [] = record { at = λ s h. h.0 }
  apply_changes-Ends (c ∷ cs) = record {
    at = λ s h.
        let q = edited_product a p in
        let table : IsValidTable (put_by (λ (r : Product). r.id) q s.work.products) = (
          All-update_where IsSealed (λ r. r.id == q.id) (λ _. q) s.work.products (λ _ _ _. h.1)
              h.0.1.0,
          SlugsApart-put_by q s.work.products h.0.1.1 h.2,
        ) in
        (table, table);
  }

  pub check_prefix-Ready : Ensures Ready Always (check_prefix a p)
  unfolding check_prefix
  check_prefix-Ready = record { at = λ s h. one s h _ _ }
    where
      one :
          (s : Session)
          → Ready s
          → (b : Bool) (e : Error) → Ready (raise_if b e s).1 × OnOk Always (raise_if b e s).0
      one s h true e = (h, tt)
      one s h false e = (h, tt)

  pub check_required-Found : Ensures Found Always (check_required a)
  unfolding check_required
  check_required-Found = record { at = λ s h. all_three s h _ _ _ _ _ _ }
    where
      all_three :
          (s : Session)
          → Found s
          → (b c d : Bool) (e f g : Error)
          → Found ((raise_if b e >> raise_if c f >> raise_if d g) s).1
            × OnOk Always ((raise_if b e >> raise_if c f >> raise_if d g) s).0
      all_three s h true c d e f g = (h, tt)
      all_three s h false true d e f g = (h, tt)
      all_three s h false false true e f g = (h, tt)
      all_three s h false false false e f g = (h, tt)

  pub check_slug-Ends :
      {A : Type 0} (k : Unit → Exec A) (b : Bool)
      → is_other a.new_slug p.slug ≡ b
      → Ends Ready (k tt)
      → Ends Found (check_slug b (given_or a.new_slug p.slug) >>= k)
  unfolding check_slug ensure_free
  check_slug-Ends k false e next = record {
    at = λ s h. next.at s (h.0, h.1, Agrees-edited a p s.work.products h.2 false e (λ f. cc));
  }
  check_slug-Ends k true e next = record {
    at = λ s h.
        let slug = given_or a.new_slug p.slug in
        passed s h (not (slug_ok slug))
          (validation_failed "invalid slug (lowercase a-z0-9-, max 63)") (ensure_free slug)
          (looked s h (with_slug slug s) refl);
  }
    where
      looked :
          (s : Session)
          → Found s
          → (found : Option Product) → with_slug (given_or a.new_slug p.slug) s ≡ found
          → Sound ((raise_if (is_some found) (conflict "slug already exists") >>= k) s).1
      looked s h none free =
          next.at s (h.0, h.1, Agrees-edited a p s.work.products h.2 true e (λ _. free))
      looked s h (some r) taken = h.0

      passed :
          (s : Session)
          → Found s
          → (b : Bool) (x : Error) (m : Exec Unit) → Sound ((m >>= k) s).1
          → Sound ((raise_if b x >> m >>= k) s).1
      passed s h true x m ends = h.0
      passed s h false x m ends = ends

  pub update_found-Ends : Ends Found (update_found rt slug a p)
  unfolding update_found
  update_found-Ends =
      let changes = changes_of p (edited_product a p) in
      let last = apply_changes rt slug p (edited_product a p) changes in
      Ends-bind Found-Sound (check_required a)
        (λ _.
          check_slug (is_other a.new_slug p.slug) (given_or a.new_slug p.slug)
          >> (check_prefix a p >> last))
        check_required-Found
        λ _ _.
          check_slug-Ends (λ _. check_prefix a p >> last) (is_other a.new_slug p.slug) refl
            (Ends-bind Ready-Sound (check_prefix a p) (λ _. last) check_prefix-Ready
              λ _ _. apply_changes-Ends changes)

pub update_product-Ends :
    (rt : Runtime) (slug : Text) (a : UpdateArgs) → Ends Sound (update_product rt slug a)
unfolding update_product get_product
update_product-Ends rt slug a = record { at = λ s h. looked s h (with_slug slug s) refl }
  where
    looked :
        (s : Session)
        → Sound s
        → (found : Option Product) → with_slug slug s ≡ found
        → Sound ((or_raise found (not_found "product not found") >>= update_found rt slug a) s).1
    looked s h none e = h
    looked s h (some p) e = (update_found-Ends rt slug a p).at s (
      h,
      All-find IsSealed (λ r. text_eq r.slug slug) s.work.products p h.1.0 e,
      All-find (λ r. All (Agree r) s.work.products) (λ r. text_eq r.slug slug) s.work.products p
          h.1.1 e,
    )
