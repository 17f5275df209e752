-- ===== src/Webhooks/Queue/Schedule.antt =====
-- Repeated attempts end: the schedule has seven attempts.
use yg_license_server.Base.{
  ℕ, ◌-◌, ◌⊎◌, ◌≡◌, ◌≢◌, refl, false, Option, none, some, List, [], ◌∷◌, inl, inr,
}
use yg_license_server.Model.{
  License, WebhookDelivery, DeliveryStatus, pending, delivered, abandoned,
}
use yg_license_server.Runtime.{Runtime}
use yg_license_server.Webhooks.Queue.Row.{Tried, broken, tried, max_attempts, attempt}

-- `try_deliver` on a row, which does nothing unless it is pending
abbrev pub visit : Runtime → List License → WebhookDelivery → Tried
visit rt licenses d = elim d.status [ pending ↦ attempt rt licenses d | _ ↦ tried d false ]

abbrev go_on : (WebhookDelivery → Option WebhookDelivery) → Tried → Option WebhookDelivery
go_on next (broken e) = none
go_on next (tried d done) = next d

-- One visit in each of a list of moments; none where one raises.
unfoldable pub visits : List Runtime → List License → WebhookDelivery → Option WebhookDelivery
visits [] licenses d = some d
visits (rt ∷ rts) licenses d = go_on (visits rts licenses) (visit rt licenses d)

pub pending-cases : (st : DeliveryStatus) → (st ≡ pending) ⊎ (st ≢ pending)
pending-cases pending = inl refl
pending-cases delivered = inr (λ e. cc)
pending-cases abandoned = inr (λ e. cc)

-- the attempts that the schedule has left
abbrev remaining : WebhookDelivery → ℕ
remaining d = elim d.status [ pending ↦ max_attempts - d.attempts | _ ↦ 0 ]
