-- ===== src/Webhooks/Retry/Selection.antt =====
-- What a pass selects: the earliest of the rows that are due, as many as its limit.
use yg_license_server.Base.{
  ℕ, zero, suc, ◌≤◌, ◌≡◌, refl, sym, subst, ap, Bool, true, not, List, [], ◌∷◌, ◌++◌, min, arith,
  leb, take, drop, select, All, length, inl, inr, Bool-cases, leb→le,
}
use mathlib.Core.List.{Perm, perm_middle}
use mathlib.Core.List.Perm
use yg_license_server.Model.{Time, WebhookDelivery, pending}
use yg_license_server.Webhooks.Retry.{insert_due, sort_due, is_due, due}

-- A row is due at a moment: it is pending, and its next attempt is not later.
abbrev pub IsDue : Time → WebhookDelivery → Type 0
IsDue now d = (d.status ≡ pending) × (d.next_attempt_at ≤ now)

-- The earlier rows come first.
abbrev pub IsSorted : List WebhookDelivery → Type 0
IsSorted [] = Unit
IsSorted (d ∷ ds) = All (λ e. d.next_attempt_at ≤ e.next_attempt_at) ds × IsSorted ds

module _ {ℓ} (P : WebhookDelivery → Type ℓ) where
  All-insert_due :
      (d : WebhookDelivery) (ds : List WebhookDelivery) → P d → All P ds → All P (insert_due d ds)
  unfolding insert_due
  All-insert_due d [] h hs = (h, tt)
  All-insert_due d (e ∷ es) h (he, hs) = ground (arith, All-insert_due d es h hs)

  All-sort_due : (ds : List WebhookDelivery) → All P ds → All P (sort_due ds)
  unfolding sort_due
  All-sort_due [] h = tt
  All-sort_due (d ∷ ds) (h, hs) = All-insert_due d (sort_due ds) h (All-sort_due ds hs)

  All-take : (n : ℕ) (ds : List WebhookDelivery) → All P ds → All P (take n ds)
  All-take zero ds h = tt
  All-take (suc n) [] h = tt
  All-take (suc n) (d ∷ ds) (h, hs) = (h, All-take n ds hs)

is_due-IsDue : (now : Time) (d : WebhookDelivery) → is_due now d ≡ true → IsDue now d
is_due-IsDue now d h = ground arith

All-weaken :
    (d e : WebhookDelivery) (es : List WebhookDelivery)
    → d.next_attempt_at ≤ e.next_attempt_at
    → All (λ x. e.next_attempt_at ≤ x.next_attempt_at) es
    → All (λ x. d.next_attempt_at ≤ x.next_attempt_at) es
All-weaken d e [] le h = tt
All-weaken d e (x ∷ xs) le (hx, h) = (omega arith, All-weaken d e xs le h)

IsDue-select : (now : Time) (ds : List WebhookDelivery) → All (IsDue now) (select (is_due now) ds)
IsDue-select now [] = tt
IsDue-select now (d ∷ ds) = ground (arith, IsDue-select now ds, is_due-IsDue now d)

IsSorted-insert_due :
    (d : WebhookDelivery) (ds : List WebhookDelivery) → IsSorted ds → IsSorted (insert_due d ds)
unfolding insert_due
IsSorted-insert_due d [] h = (tt, tt)
IsSorted-insert_due d (e ∷ es) (first, h) =
    elim (Bool-cases (leb d.next_attempt_at e.next_attempt_at)) [
      | inl le ↦ rw le (
        (
          leb→le d.next_attempt_at e.next_attempt_at le,
          All-weaken d e es (leb→le d.next_attempt_at e.next_attempt_at le) first,
        ),
        (first, h),
      )
      | inr gt ↦ rw gt (
        All-insert_due (λ x. e.next_attempt_at ≤ x.next_attempt_at) d es (ground arith) first,
        IsSorted-insert_due d es h,
      )
    ]

IsSorted-sort_due : (ds : List WebhookDelivery) → IsSorted (sort_due ds)
unfolding sort_due
IsSorted-sort_due [] = tt
IsSorted-sort_due (d ∷ ds) = IsSorted-insert_due d (sort_due ds) (IsSorted-sort_due ds)

module _ {ℓ} {A : Type ℓ} where
  take-append-drop : (n : ℕ) (xs : List A) → take n xs ++ drop n xs ≡ xs
  take-append-drop zero xs = refl
  take-append-drop (suc n) [] = refl
  take-append-drop (suc n) (x ∷ xs) = ap (◌∷◌ x) (take-append-drop n xs)

  length-take : (n : ℕ) (xs : List A) → length (take n xs) ≡ min n (length xs)
  length-take zero xs = omega arith
  length-take (suc n) [] = omega arith
  length-take (suc n) (x ∷ xs) = omega (arith, length-take n xs)

  -- the elements that pass a test, and those that do not
  Perm-select : (p : A → Bool) (xs : List A) → Perm (select p xs ++ select (λ x. not (p x)) xs) xs
  Perm-select p [] = Perm.rfl
  Perm-select p (x ∷ xs) = elim (Bool-cases (p x)) [
    | inl e ↦ rw e (Perm.cons x (Perm-select p xs))
    | inr e ↦ rw e (
        Perm.trans (perm_middle (select p xs) (select (λ y. not (p y)) xs))
          (Perm.cons x (Perm-select p xs)))
  ]

Perm-insert_due :
    (d : WebhookDelivery) (ds : List WebhookDelivery) → Perm (insert_due d ds) (d ∷ ds)
unfolding insert_due
Perm-insert_due d [] = Perm.rfl
Perm-insert_due d (e ∷ es) = elim (Bool-cases (leb d.next_attempt_at e.next_attempt_at)) [
  | inl le ↦ rw le Perm.rfl
  | inr gt ↦ rw gt (Perm.trans (Perm.cons e (Perm-insert_due d es)) (Perm.swap d e es))
]

Perm-sort_due : (ds : List WebhookDelivery) → Perm (sort_due ds) ds
unfolding sort_due
Perm-sort_due [] = Perm.rfl
Perm-sort_due (d ∷ ds) =
    Perm.trans (Perm-insert_due d (sort_due ds)) (Perm.cons d (Perm-sort_due ds))

is_due_complete : (now : Time) (d : WebhookDelivery) → IsDue now d → is_due now d ≡ true
is_due_complete now d h = ground arith

Late-select :
    (now : Time) (ds : List WebhookDelivery)
    → All (λ d. ¬ IsDue now d) (select (λ d. not (is_due now d)) ds)
Late-select now [] = tt
Late-select now (d ∷ ds) = elim (Bool-cases (is_due now d)) [
  | inl e ↦ rw e (Late-select now ds)
  | inr e ↦ rw e ((λ h. cc (rw (is_due_complete now d h) at e)), Late-select now ds)
]

pub due-IsDue :
    (now : Time) (limit : ℕ) (deliveries : List WebhookDelivery)
    → All (IsDue now) (due now limit deliveries)
unfolding due
due-IsDue now limit deliveries =
    let chosen = select (is_due now) deliveries in
    All-take (IsDue now) limit (sort_due chosen)
      (All-sort_due (IsDue now) chosen (IsDue-select now deliveries))

-- The rows of a table are, in some order, those that a pass selects, further rows that are due, and rows
-- that are not. The selected rows and the further ones behind them stand in the order in which they are
-- due, so none that is left out is due before one that is selected; and it selects as many as its limit,
-- or all that are due if they are fewer.
pub due-selection :
    (now : Time) (limit : ℕ) (deliveries : List WebhookDelivery)
    → (rest : List WebhookDelivery) × (others : List WebhookDelivery) × Perm
        ((due now limit deliveries ++ rest) ++ others)
        deliveries
      × All (IsDue now) (due now limit deliveries ++ rest)
      × All (λ d. ¬ IsDue now d) others
      × IsSorted (due now limit deliveries ++ rest)
      × (length (due now limit deliveries) ≡ min limit (length (due now limit deliveries ++ rest)))
unfolding due
due-selection now limit deliveries =
    let chosen = select (is_due now) deliveries in
    let others = select (λ d. not (is_due now d)) deliveries in
    let whole = sym (take-append-drop limit (sort_due chosen)) in
    (
      drop limit (sort_due chosen),
      others,
      subst (λ l. Perm (l ++ others) deliveries) whole
          (Perm.trans (Perm.append_right others (Perm-sort_due chosen))
            (Perm-select (is_due now) deliveries)),
      subst (All (IsDue now)) whole (All-sort_due (IsDue now) chosen (IsDue-select now deliveries)),
      Late-select now deliveries,
      subst IsSorted whole (IsSorted-sort_due chosen),
      subst (λ l. length (take limit (sort_due chosen)) ≡ min limit (length l)) whole
          (length-take limit (sort_due chosen)),
    )
