-- ===== src/Maintenance/Warned.antt =====
-- A second run of app/scripts/send_expiry_warnings.py warns no one again.
use yg_license_server.Base.{
  ℕ, ◌-◌, ◌≡◌, refl, sym, ap, ◌∙◌, subst, arith, Bool, true, false, Option, List, [], ◌∷◌, All,
  select, if◌then◌else◌,
}
use yg_license_server.Text.{Text, nonempty}
use yg_license_server.Model.{License}
use yg_license_server.Runtime.{Runtime}
use yg_license_server.Session.{Session, Result, ok, err, ◌>>=◌, rollback}
use yg_license_server.Maintenance.{
  pick_threshold, max_of, in_window, warn_at, warn_all, status_of, warn_pass, run_warnings,
}
use yg_license_server.Maintenance.Later.{
  IsDone, Later, Later-self, Later-trans, Later-IsDone, warn_at-IsDone,
}
use yg_license_server.Maintenance.Step.{Stepped, warn_at-Stepped}

module _ (rt : Runtime) where
  module _ (sends : (to key name : Text) → rt.warning_sent to key name ≡ true) where
    module _ (thresholds : List ℕ) where
      abbrev picked : License → Option ℕ
      picked lic = pick_threshold (lic.valid_until - rt.now) thresholds

      abbrev AllDone : List License → Session → Type 0
      AllDone lics t = All (λ (lic : License). IsDone rt lic (picked lic) t) lics

      warn_all-AllDone :
          (lics : List License) (s : Session)
          → AllDone lics s
          → warn_all rt thresholds false lics s ≡ (ok tt, s)
      unfolding warn_all
      warn_all-AllDone [] s h = refl
      warn_all-AllDone (lic ∷ lics) s h =
          ap (λ r. ◌>>=◌ (λ _. r) (λ _. warn_all rt thresholds false lics) s)
            (warn_at-IsDone rt lic (picked lic) s h.0)
          ∙ warn_all-AllDone lics s h.1

      -- a whole pass that raised nothing
      Passed : List License → Session → Result (Unit {0}) × Session → Type 0
      Passed lics s (ok u, t) = Later s t × AllDone lics t
      Passed lics s (err e, t) = Unit

      warn_all-Passed :
          (lics : List License) (s : Session)
          → s.store ≡ s.work
          → s.added ≡ []
          → Passed lics s (warn_all rt thresholds false lics s)
      unfolding Passed warn_all Stepped
      warn_all-Passed [] s clean flushed_all = (Later-self s clean flushed_all, tt)
      warn_all-Passed (lic ∷ lics) s clean flushed_all =
          next (warn_at rt false lic (picked lic) s)
            (warn_at-Stepped rt sends lic (picked lic) s clean flushed_all)
            (λ t h g. warn_all-Passed lics t h g)
        where
          joined :
              (t : Session) (r : Result (Unit {0}) × Session)
              → Later s t
              → IsDone rt lic (picked lic) t
              → Passed lics t r
              → Passed (lic ∷ lics) s r
          joined t (ok u, v) first done (rest, all_done) = (
            Later-trans s t v first rest,
            (Later-IsDone rt lic (picked lic) t v rest done, all_done),
          )
          joined t (err e, v) first done rest = tt

          next :
              (r : Result (Unit {0}) × Session)
              → Stepped rt sends lic (picked lic) s r
              → ((t : Session)
                  → t.store ≡ t.work
                  → t.added ≡ []
                  → Passed lics t (warn_all rt thresholds false lics t))
              → Passed (lic ∷ lics) s (◌>>=◌ (λ _. r) (λ _. warn_all rt thresholds false lics) s)
          next (ok u, t) (first, done) rest =
              joined t (warn_all rt thresholds false lics t) first done
                (rest t first.clean first.flushed_all)
          next (err e, t) h rest = tt

      rows_of : Session → List License
      rows_of s = select (in_window rt.now (max_of thresholds)) s.work.licenses

      -- the second pass over the same rows
      second_pass :
          (s : Session) (r : Result (Unit {0}) × Session)
          → Passed (rows_of s) s r
          → (status_of r).0 ≡ 0
          → status_of (warn_all rt thresholds false (rows_of (status_of r).1) (status_of r).1)
            ≡ (0, (status_of r).1)
      unfolding Passed rows_of rollback
      second_pass s (err e, t) passed h = ground arith
      second_pass s (ok u, t) (later, done) h =
          let same : rollback t ≡ t =
            ap (λ db. record t { work = db; added = [] }) later.clean
            ∙ ap (λ es. record t { added = es }) (sym later.flushed_all) in
          let rows : rows_of s ≡ rows_of t =
            ap (select (in_window rt.now (max_of thresholds))) (sym later.licenses) in
          subst (λ x. status_of (warn_all rt thresholds false (rows_of x) x) ≡ (0, x)) (sym same)
            (ap status_of (warn_all-AllDone (rows_of t) t (subst (λ ls. AllDone ls t) rows done))
              ∙ ap (λ x. (0, x)) same)

-- Where Resend takes every mail, from a session with nothing uncommitted: after a run of the script that
-- ends with status 0 and is no dry run, a second run at the same time ends with status 0 too and leaves
-- the session as it was, so that it records no warning again.
pub run_warnings-run_warnings :
    (rt : Runtime) (thresholds : List ℕ) (s : Session)
    → ((to key name : Text) → rt.warning_sent to key name ≡ true)
    → s.store ≡ s.work
    → s.added ≡ []
    → (run_warnings rt thresholds false s).0 ≡ 0
    → run_warnings rt thresholds false (run_warnings rt thresholds false s).1
      ≡ (0, (run_warnings rt thresholds false s).1)
unfolding run_warnings rows_of
run_warnings-run_warnings rt thresholds s sends clean flushed_all h =
    again thresholds (nonempty rt.settings.resend_api_key) h
  where
    run_by : List ℕ → Bool → Session → ℕ × Session
    run_by ns b t = if b then warn_pass rt ns false t else (0, t)

    again :
        (ns : List ℕ) (b : Bool)
        → (run_by ns b s).0 ≡ 0
        → run_by ns b (run_by ns b s).1 ≡ (0, (run_by ns b s).1)
    again [] true e = ground arith
    again (n ∷ ns) true e =
        second_pass rt sends (n ∷ ns) s (warn_all rt (n ∷ ns) false (rows_of rt sends (n ∷ ns) s) s)
          (warn_all-Passed rt sends (n ∷ ns) (rows_of rt sends (n ∷ ns) s) s clean flushed_all) e
    again ns false e = refl
