-- ===== src/Stripe/Accept.antt =====
-- The checks that a post passes, or is refused by.
use yg_license_server.Base.{
  ◌⊎◌, ◌≡◌, refl, true, Option, some, find, Bool-cases, Option-cases, inl, inr,
}
use yg_license_server.Text.{Text, truthy, text_eq}
use yg_license_server.Model.{Product}
use yg_license_server.Runtime.{Runtime, StripeEvent}
use yg_license_server.Keystore.{decrypt_secret}
use yg_license_server.Session.{Session, Exec, Error, Result, ok, err, http_error, ◌>>=◌}
use yg_license_server.Stripe.{StripePost, stripe_webhook, process_once, readable}

abbrev pub product_named : Text → Session → Option Product
product_named slug s = find (λ (p : Product). text_eq p.slug slug) s.work.products

-- the checks that a post passes
pub record Accepted (rt : Runtime) (post : StripePost) (s : Session) : Type 0 where
  pub product : Product
  pub secret : Option Text
  pub event : StripeEvent
  pub found : product_named post.slug s ≡ some product
  pub configured : truthy product.stripe_webhook_secret ≡ true
  pub opened : readable (decrypt_secret rt product.stripe_webhook_secret) ≡ ok secret
  pub signed : rt.construct_event rt.now post.payload post.signature secret ≡ some event

pub Accepted-run :
    (rt : Runtime) (post : StripePost) (s : Session) (a : Accepted rt post s)
    → stripe_webhook rt post s ≡ process_once rt a.product a.event post.lost_race s
unfolding stripe_webhook
Accepted-run rt post s a = simp (a.found, a.configured, a.opened, a.signed)

abbrev pub Refused : Runtime → StripePost → Session → Type 0
Refused rt post s = (e : Error) × (stripe_webhook rt post s ≡ (err e, s))

pub lift-cases : {A : Type 0} (r : Result A) → ((e : Error) × (r ≡ err e)) ⊎ ((a : A) × (r ≡ ok a))
lift-cases (err e) = inl (e, refl)
lift-cases (ok a) = inr (a, refl)

bind-go :
    {A B : Type 0} (r : Result A) (t : Session) (f : A → Exec B)
    → ((e : Error) × (◌>>=◌ (λ _. (r, t)) f t ≡ (err e, t)))
      ⊎ ((a : A) × (◌>>=◌ (λ _. (r, t)) f t ≡ f a t))
bind-go (err e) t f = inl (e, refl)
bind-go (ok a) t f = inr (a, refl)

pub bind-cases :
    {A B : Type 0} (m : Exec A) (f : A → Exec B) (s : Session)
    → ((e : Error) × ((m >>= f) s ≡ (err e, (m s).1))) ⊎ ((a : A) × ((m >>= f) s ≡ f a (m s).1))
bind-cases m f s = bind-go (m s).0 (m s).1 f

-- A post passes the checks, or is answered by an error before it touches anything.
pub Accepted-or_Refused :
    (rt : Runtime) (post : StripePost) (s : Session) → Accepted rt post s ⊎ Refused rt post s
unfolding stripe_webhook
Accepted-or_Refused rt post s = elim (Option-cases (product_named post.slug s)) [
  | inl f ↦ inr (http_error 404 "product not found", simp f)
  | inr (p, f) ↦ elim (Bool-cases (truthy p.stripe_webhook_secret)) [
    | inr c ↦ inr (http_error 503 "webhook secret not configured for product", simp (f, c))
    | inl c ↦ elim (lift-cases (readable (decrypt_secret rt p.stripe_webhook_secret))) [
      | inl (e, o) ↦ inr (e, simp (f, c, o))
      | inr (secret, o) ↦
          elim (Option-cases (rt.construct_event rt.now post.payload post.signature secret)) [
            | inl b ↦ inr (http_error 400 "invalid signature", simp (f, c, o, b))
            | inr (event, b) ↦ inl (record {
              product = p;
              secret = secret;
              event = event;
              found = f;
              configured = c;
              opened = o;
              signed = b;
            })
          ]
    ]
  ]
]
