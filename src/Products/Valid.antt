-- ===== src/Products/Valid.antt =====
-- Sequences of calls of app/services/products.py keep the table of products valid.
use yg_license_server.Base.{◌≡◌, true, List, [], ◌∷◌, All}
use yg_license_server.Text.{Text}
use yg_license_server.Runtime.{Runtime}
use yg_license_server.Session.{Session}
use yg_license_server.Webhooks.Queue.{Scheduler}
use yg_license_server.Products.{
  CreateArgs, create_product, UpdateArgs, update_product, delete_product,
}
use yg_license_server.Products.Table.{IsValidTable}
use yg_license_server.Products.Ends.{Sound}
use yg_license_server.Products.Create.{create_product-Ends}
use yg_license_server.Products.Delete.{delete_product-Keeps}
use yg_license_server.Products.Update.{update_product-Ends}

pub data ProductCall : Type 0 where
  create : CreateArgs → ProductCall
  update : Text → UpdateArgs → ProductCall
  delete : Text → Scheduler → ProductCall

-- the session behind a call, also where it raised
unfoldable pub product_call : Runtime → ProductCall → Session → Session
unfolding create_product update_product delete_product
product_call rt (create a) s = (create_product rt a s).1
product_call rt (update slug a) s = (update_product rt slug a s).1
product_call rt (delete slug sched) s = (delete_product rt slug sched s).1

unfoldable pub product_calls : List (Runtime × ProductCall) → Session → Session
unfolding product_call
product_calls [] s = s
product_calls ((rt, call) ∷ calls) s = product_calls calls (product_call rt call s)

product_call-Sound :
    (rt : Runtime) (call : ProductCall) (s : Session)
    → rt.settings.require_kek ≡ true
    → Sound s
    → Sound (product_call rt call s)
unfolding product_call
product_call-Sound rt (create a) s required h = (create_product-Ends rt a required).at s h
product_call-Sound rt (update slug a) s required h = (update_product-Ends rt slug a).at s h
product_call-Sound rt (delete slug sched) s required h =
    ((delete_product-Keeps rt slug sched).at s h).0

-- Where the settings require a key, any sequence of product creations, edits and cascading deletions,
-- also ones that raise, keeps both the committed table of products and the open one valid: two products
-- with one slug are one product, and the private key and each Stripe secret that is set are envelopes.
pub product_calls-IsValidTable :
    (calls : List (Runtime × ProductCall)) (s : Session)
    → All (λ (rt, call). rt.settings.require_kek ≡ true) calls
    → IsValidTable s.store.products × IsValidTable s.work.products
    → IsValidTable (product_calls calls s).store.products
      × IsValidTable (product_calls calls s).work.products
unfolding product_calls
product_calls-IsValidTable [] s required h = h
product_calls-IsValidTable ((rt, call) ∷ calls) s (now, later) h =
    product_calls-IsValidTable calls (product_call rt call s) later
      (product_call-Sound rt call s now h)
