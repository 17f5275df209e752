-- ===== src/Maintenance.antt =====
-- app/scripts/prune_events.py and app/scripts/send_expiry_warnings.py. The types that the first is asked to
-- prune are those of the events themselves.
pub mod Later
pub mod Step
pub mod Warned
use yg_license_server.Base.{
  ℕ, zero, suc, ◌+◌, ◌-◌, Bool, true, false, not, ◌&&◌, ◌||◌, Option, none, some, List, [], ◌∷◌,
  ◌++◌, if◌then◌else◌, any, find, select, delete_where, leb, ltb, ◌==◌, option_eq, max,
}
use yg_license_server.Text.{Text, codes, text_eq, nonempty}
use yg_license_server.Model.{
  RowId, Time, days, Event, EventType, Payload, License, Product, Customer, Status,
}
use yg_license_server.Runtime.{Runtime}
use yg_license_server.Session.{
  Session, Exec, Result, ok, err, attribute_error, pure, gets, or_raise, raise, ◌>>=◌, ◌>>◌,
  rollback, add_event, commit, product_of, customer_of,
}

abbrev pub status_text : Status → Text
status_text Status.active = codes "active"
status_text Status.delinquent = codes "delinquent"
status_text Status.disabled = codes "disabled"
status_text Status.revoked = codes "revoked"

-- `Event.type`
unfoldable pub type_text : Runtime → EventType → Text
type_text rt EventType.issued = codes "issued"
type_text rt EventType.extended = codes "extended"
type_text rt EventType.heartbeat = codes "heartbeat"
type_text rt (EventType.status st) = codes "status:" ++ status_text st
type_text rt EventType.license_edited = codes "license:edited"
type_text rt EventType.license_deleted = codes "license:deleted"
type_text rt EventType.webhook_updated = codes "webhook:updated"
type_text rt EventType.webhook_converted_to_self = codes "webhook:converted_to_self"
type_text rt EventType.override_refused = codes "webhook:override_refused"
type_text rt EventType.self_registered = codes "webhook:self-registered"
type_text rt EventType.secret_backfilled = codes "webhook:secret_backfilled"
type_text rt EventType.product_created = codes "product:created"
type_text rt EventType.product_edited = codes "product:edited"
type_text rt EventType.product_deleted = codes "product:deleted"
type_text rt EventType.customer_edited = codes "customer:edited"
type_text rt EventType.preset_created = codes "preset:created"
type_text rt EventType.preset_updated = codes "preset:updated"
type_text rt EventType.preset_deleted = codes "preset:deleted"
type_text rt (EventType.expiry_warning n) = codes "expiry_warning:" ++ rt.decimal n

-- the filter of `run` of prune_events.py
unfoldable pub prunable : Runtime → List Text → Time → Event → Bool
unfolding type_text
prunable rt types cutoff e =
    any (λ t. text_eq t (type_text rt e.type)) types && ltb e.created_at cutoff

-- the deletion, and the commit of what is left
abbrev pub prune_now : Runtime → List Text → Time → Session → Session
prune_now rt types cutoff s =
    let db = record (s.work) { events = delete_where (prunable rt types cutoff) s.work.events } in
    record s { store = db; work = db; added = [] }

-- `run`: the exit status with the session that the script leaves
unfoldable pub run_prune : Runtime → ℕ → List Text → Bool → Session → ℕ × Session
unfolding prunable
run_prune rt zero types dry_run s = (2, s)
run_prune rt (suc n) [] dry_run s = (2, s)
run_prune rt (suc n) (t ∷ types) dry_run s =
    let cutoff = rt.now - days (suc n) in
    if dry_run || not (any (prunable rt (t ∷ types) cutoff) s.work.events)
    then (0, rollback s)
    else (0, prune_now rt (t ∷ types) cutoff s)

-- `sorted(thresholds)`
abbrev pub insert_sorted : ℕ → List ℕ → List ℕ
insert_sorted n [] = n ∷ []
insert_sorted n (m ∷ ms) = let rest = insert_sorted n ms in if leb n m then n ∷ m ∷ ms else m ∷ rest

unfoldable pub sorted : List ℕ → List ℕ
sorted [] = []
sorted (n ∷ ns) = insert_sorted n (sorted ns)

-- `_pick_threshold`, for the time that is left: a threshold of n days is reached with at most n days left
unfoldable pub pick_threshold : Time → List ℕ → Option ℕ
unfolding sorted
pick_threshold left thresholds = find (λ t. leb left (days t)) (sorted thresholds)

-- `max(thresholds)`, of a list that is not empty
abbrev pub max_of : List ℕ → ℕ
max_of [] = 0
max_of (n ∷ ns) = max n (max_of ns)

abbrev pub is_active : Status → Bool
is_active Status.active = true
is_active _ = false

-- the licenses of the window
abbrev pub in_window : Time → ℕ → License → Bool
in_window now max_threshold l =
    is_active l.status && leb l.valid_until (now + days max_threshold) && ltb now l.valid_until

-- the event of a warning
unfoldable pub is_warning : Runtime → RowId → ℕ → Event → Bool
unfolding type_text
is_warning rt id threshold e =
    option_eq ◌==◌ e.license_id (some id)
    && text_eq (type_text rt e.type) (type_text rt (EventType.expiry_warning threshold))

-- `_already_warned`
unfoldable pub already_warned : Runtime → RowId → ℕ → Session → Bool
unfolding is_warning
already_warned rt id threshold s = any (is_warning rt id threshold) s.work.events

-- the event of a mail that went out, by whether it did
unfoldable pub record_warning : Runtime → License → ℕ → Bool → Exec Unit
unfolding add_event commit
record_warning rt lic threshold false = pure tt
record_warning rt lic threshold true =
    add_event rt (some lic.id) (some lic.product_id) (EventType.expiry_warning threshold)
      (Payload.warned (lic.valid_until - rt.now) threshold) (some (codes "auto/expiry-warning"))
    >> commit

-- the mail, which goes out where Resend takes it
abbrev pub warn_about : Runtime → License → ℕ → Text → Option Product → Exec Unit
warn_about rt lic threshold email none = raise attribute_error
warn_about rt lic threshold email (some p) =
    record_warning rt lic threshold (rt.warning_sent email lic.key p.name)

-- the warning of one license
unfoldable pub send_warning : Runtime → Bool → License → ℕ → Text → Exec Unit
unfolding record_warning
send_warning rt true lic threshold email = pure tt
send_warning rt false lic threshold email =
    gets (product_of lic) >>= warn_about rt lic threshold email

abbrev pub warn_email : Runtime → Bool → License → ℕ → Option Customer → Exec Unit
warn_email rt dry_run lic threshold none = pure tt
warn_email rt dry_run lic threshold (some c) =
    if nonempty c.email then send_warning rt dry_run lic threshold c.email else pure tt

abbrev pub warn_unless : Runtime → Bool → License → ℕ → Bool → Exec Unit
warn_unless rt dry_run lic threshold true = pure tt
warn_unless rt dry_run lic threshold false =
    gets (customer_of lic) >>= warn_email rt dry_run lic threshold

abbrev pub warn_at : Runtime → Bool → License → Option ℕ → Exec Unit
warn_at rt dry_run lic none = pure tt
warn_at rt dry_run lic (some threshold) =
    gets (already_warned rt lic.id threshold) >>= warn_unless rt dry_run lic threshold

-- the loop
unfoldable pub warn_all : Runtime → List ℕ → Bool → List License → Exec Unit
unfolding pick_threshold already_warned send_warning
warn_all rt thresholds dry_run [] = pure tt
warn_all rt thresholds dry_run (lic ∷ lics) =
    warn_at rt dry_run lic (pick_threshold (lic.valid_until - rt.now) thresholds)
    >> warn_all rt thresholds dry_run lics

-- `except Exception: rollback`, and the end of the session
abbrev pub status_of : Result (Unit {0}) × Session → ℕ × Session
status_of (ok u, s) = (0, rollback s)
status_of (err e, s) = (1, rollback s)

-- the pass; on no thresholds `max` raises outside the `try`, and the process ends with status 1
abbrev pub warn_pass : Runtime → List ℕ → Bool → Session → ℕ × Session
warn_pass rt [] dry_run s = (1, s)
warn_pass rt (n ∷ ns) dry_run s =
    status_of
      (warn_all rt (n ∷ ns) dry_run (select (in_window rt.now (max_of (n ∷ ns))) s.work.licenses) s)

-- `run`: the exit status with the session that the script leaves
unfoldable pub run_warnings : Runtime → List ℕ → Bool → Session → ℕ × Session
unfolding warn_all
run_warnings rt thresholds dry_run s =
    if nonempty rt.settings.resend_api_key then warn_pass rt thresholds dry_run s else (0, s)
