-- ===== src/Products/Delete.antt =====
-- `delete_product` keeps the table of products valid.
use yg_license_server.Base.{Option, none, some, List, All-delete_where, select, length, ◌==◌}
use yg_license_server.Text.{Text, codes}
use yg_license_server.Model.{License, Product, EventType, Payload, RowId}
use yg_license_server.Runtime.{Runtime}
use yg_license_server.Session.{
  add_event, commit, Session, not_found, pure, gets, or_raise, ◌>>=◌, ◌>>◌,
}
use yg_license_server.Session.Hoare.{Always, OnOk, Ensures-pure, Ensures-gets}
use yg_license_server.Webhooks.Queue.{Scheduler}
use yg_license_server.Licenses.{Snapshot, delete_all_in_tx, run_tasks}
use yg_license_server.Products.{
  owned, delete_rest, delete_found, get_product, delete_product, remove_product, with_slug,
}
use yg_license_server.Products.Keep.{
  Keeps, Keeps-commit, Keeps-add_event, Keeps-delete_all_in_tx, Keeps-run_tasks, after-Keeps,
}
use yg_license_server.Products.Table.{IsSealed, IsValidTable, SlugsApart-delete_by}
use yg_license_server.Products.Ends.{Sound}

pub Keeps-remove_product : (p : Product) → Keeps IsValidTable (remove_product p)
unfolding remove_product
Keeps-remove_product p = record {
  at = λ s h. (
    (
      h.0,
      (
        All-delete_where IsSealed (λ q. q.id == p.id) s.work.products h.1.0,
        SlugsApart-delete_by p.id s.work.products h.1.1,
      ),
    ),
    tt,
  );
}

pub Keeps-get_product : (slug : Text) → Keeps IsValidTable (get_product slug)
unfolding get_product
Keeps-get_product slug = record { at = λ s h. found s h (with_slug slug s) }
  where
    found :
        (s : Session)
        → Sound s
        → (o : Option Product)
        → Sound (or_raise o (not_found "product not found") s).1
          × OnOk Always (or_raise o (not_found "product not found") s).0
    found s h none = (h, tt)
    found s h (some p) = (h, tt)

module _ (rt : Runtime) (sched : Scheduler) (p : Product) where
  pub delete_rest-Keeps :
      (rows : List License) (pairs : List (Snapshot × Option RowId))
      → Keeps IsValidTable (delete_rest rt sched p rows pairs)
  unfolding delete_rest
  delete_rest-Keeps rows pairs =
      after-Keeps IsValidTable
        (add_event rt none none EventType.product_deleted
          (Payload.product_gone p.id p.slug p.name (length rows)) (some (codes "service/delete")))
        (λ _. remove_product p >> (commit >> (run_tasks rt sched pairs >> pure (length rows))))
        (Keeps-add_event IsValidTable rt none none EventType.product_deleted
          (Payload.product_gone p.id p.slug p.name (length rows)) (some (codes "service/delete")))
        λ _.
          after-Keeps IsValidTable (remove_product p)
            (λ _. commit >> (run_tasks rt sched pairs >> pure (length rows)))
            (Keeps-remove_product p)
            λ _.
              after-Keeps IsValidTable commit (λ _. run_tasks rt sched pairs >> pure (length rows))
                (Keeps-commit IsValidTable)
                λ _.
                  after-Keeps IsValidTable (run_tasks rt sched pairs) (λ _. pure (length rows))
                    (Keeps-run_tasks IsValidTable rt sched pairs) λ _. Ensures-pure (length rows) tt

  pub delete_found-Keeps : Keeps IsValidTable (delete_found rt sched p)
  unfolding delete_found
  delete_found-Keeps =
      after-Keeps IsValidTable (gets (λ s. select (owned p.id) s.work.licenses))
        (λ rows.
          delete_all_in_tx rt rows (some (codes "service/product-cascade"))
          >>= delete_rest rt sched p rows)
        (Ensures-gets (λ s. select (owned p.id) s.work.licenses))
        λ rows.
          after-Keeps IsValidTable
            (delete_all_in_tx rt rows (some (codes "service/product-cascade")))
            (delete_rest rt sched p rows)
            (Keeps-delete_all_in_tx IsValidTable rt rows (some (codes "service/product-cascade")))
            (delete_rest-Keeps rows)

pub delete_product-Keeps :
    (rt : Runtime) (slug : Text) (sched : Scheduler)
    → Keeps IsValidTable (delete_product rt slug sched)
unfolding delete_product
delete_product-Keeps rt slug sched =
    after-Keeps IsValidTable (get_product slug) (delete_found rt sched) (Keeps-get_product slug)
      (λ p. delete_found-Keeps rt sched p)
