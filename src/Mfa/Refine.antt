-- ===== src/Mfa/Refine.antt =====
-- The calls of app/services/mfa.py take the steps of the machine.
use yg_license_server.Base.{
  ℕ, suc, ◌≡◌, refl, sym, subst, ap, ◌∙◌, Bool, true, false, Option, none, some, List, [], ◌∷◌,
}
use yg_license_server.Text.{Text}
use yg_license_server.Model.{AdminMfa}
use yg_license_server.Runtime.{Runtime}
use yg_license_server.Keystore.{encrypt_secret, encrypt_text, decrypt_text}
use yg_license_server.Session.{Session, Exec, Result, ok, err, lift, ◌>>=◌, commit}
use yg_license_server.Mfa.{
  stored_codes, save_mfa, fresh_base32, generate_recovery_codes, enrolled_row, store_enrolment,
  start_enrol, store_codes, codes_if, check_otp, verify_enrol_with, verify_enrol_row, verify_enrol,
  clear, clear_if, disable, regen_with, regen_row, regen_recovery,
}
use yg_license_server.Mfa.Accept.{LoginEnd, refused, raised, entered, verify_login-LoginEnd}
use yg_license_server.Mfa.Machine.{
  IsSettled, Taken, password, recovery, Factor, off, pending, on, factor_with, factor, HasSecret,
  IsValidMfa, Fits, Accepted, by_otp, by_recovery, fresh_hashes, MfaCall, enrol, confirm, login,
  turn_off, regenerate, Step, Run, called, called_all,
}

-- from a state, an action ends settled and one step on
pub record Steps (rt : Runtime) (call : MfaCall) (f : Factor) (t : Session) : Type 0 where
  pub settled : IsSettled t
  pub step : Step rt call f (factor t.work.mfa)

stay :
    {rt : Runtime} {call : MfaCall} (s : Session)
    → IsSettled s
    → Steps rt call (factor s.work.mfa) s
stay s h = record { settled = h; step = Step.nothing }

module _ {rt : Runtime} {call : MfaCall} {f : Factor} where
  Steps-lift :
      {A B : Type 0} (r : Result A) (k : A → Exec B) (t : Session)
      → Steps rt call f t
      → ((a : A) → r ≡ ok a → Steps rt call f (k a t).1)
      → Steps rt call f (◌>>=◌ (lift r) k t).1
  Steps-lift (ok a) k t here next = next a refl
  Steps-lift (err e) k t here next = here

  Steps-test :
      {B : Type 0} (b : Bool) (k : Bool → Exec B) (t : Session)
      → (b ≡ true → Steps rt call f (k true t).1)
      → (b ≡ false → Steps rt call f (k false t).1)
      → Steps rt call f (k b t).1
  Steps-test true k t fit other = fit refl
  Steps-test false k t fit other = other refl

  -- the factor is another name of the one meant
  renamed : {g : Factor} (t : Session) → g ≡ f → Steps rt call f t → Steps rt call g t
  renamed t e h = subst (λ x. Steps rt call x t) (sym e) h

-- what is encrypted of a secret
encrypted :
    (r : Result Text) (enc : Option Text)
    → elim r [ ok stored ↦ ok (some stored) | err e ↦ err e ] ≡ ok enc
    → (t : Text) × (enc ≡ some t) × (r ≡ ok t)
encrypted (ok t) enc h = (t, cc, refl)
encrypted (err e) enc h = cc

-- the row of a new enrolment is pending
factor-enrolled_row :
    (rt : Runtime) (enc : Text) (found : Option AdminMfa)
    → factor (some (enrolled_row rt (some enc) found)) ≡ pending enc
factor-enrolled_row rt enc none = refl
factor-enrolled_row rt enc (some row) = refl

enrolled_row-IsValidMfa :
    (rt : Runtime) (enc : Option Text) (found : Option AdminMfa)
    → IsValidMfa (some (enrolled_row rt enc found))
enrolled_row-IsValidMfa rt enc none = tt
enrolled_row-IsValidMfa rt enc (some row) = tt

start_enrol-Steps :
    (rt : Runtime) (s : Session)
    → IsSettled s
    → Steps rt enrol (factor s.work.mfa) (start_enrol rt s).1
unfolding start_enrol fresh_base32 store_enrolment save_mfa commit encrypt_secret
start_enrol-Steps rt s h =
    Steps-lift (encrypt_secret rt (some (rt.random_base32 s.draws)))
      (store_enrolment rt (rt.random_base32 s.draws)) (record s { draws = suc s.draws })
      (stay (record s { draws = suc s.draws }) h)
      λ enc e.
        let (t, same, made) = encrypted (encrypt_text rt (rt.random_base32 s.draws)) enc e in
        record {
          settled = (refl, enrolled_row-IsValidMfa rt enc s.work.mfa);
          step =
              subst (λ x. Step rt enrol (factor s.work.mfa) x)
                (sym (
                  ap (λ x. factor (some (enrolled_row rt x s.work.mfa))) same
                  ∙ factor-enrolled_row rt t s.work.mfa))
                (Step.enrolled s.draws made);
        }

module _ (rt : Runtime) (call : MfaCall) (code enc : Text) where
  -- `check_otp` steps where a fitting password allows the step
  check_otp-Steps :
      {f : Factor} (row : AdminMfa) (s : Session)
      → IsSettled s
      → factor s.work.mfa ≡ f
      → row.secret_encrypted ≡ some enc
      → ((n : ℕ) → Fits rt enc code → Step rt call f (on enc (fresh_hashes rt n)))
      → Steps rt call f (check_otp rt code row enc s).1
  unfolding check_otp codes_if store_codes generate_recovery_codes save_mfa commit
  check_otp-Steps {f} row s h same holds next =
      Steps-lift (decrypt_text rt enc)
        (λ secret. codes_if rt row (rt.totp_verify secret rt.now code)) s here
        λ secret plain.
          Steps-test (rt.totp_verify secret rt.now code) (codes_if rt row) s
            (λ fit. record {
              settled = (refl, subst (HasSecret true) (sym holds) refl);
              step =
                  subst (Step rt call f)
                    (ap (λ x. factor_with true x (fresh_hashes rt s.draws)) (sym holds))
                    (next s.draws (secret, plain, fit));
            })
            (λ _. here)
    where
      here : Steps rt call f s
      here = subst (λ x. Steps rt call x s) same (stay s h)

module _ (rt : Runtime) (code : Text) where
  verify_enrol_with-Steps :
      (row : AdminMfa) (secret : Option Text) (enabled : Bool) (s : Session)
      → IsSettled s
      → row.secret_encrypted ≡ secret
      → factor s.work.mfa ≡ factor_with enabled secret (stored_codes row.recovery_codes_hashed)
      → Steps rt
          (confirm code)
          (factor s.work.mfa)
          (verify_enrol_with rt code row secret enabled s).1
  unfolding verify_enrol_with
  verify_enrol_with-Steps row none enabled s h holds same = stay s h
  verify_enrol_with-Steps row (some enc) true s h holds same = stay s h
  verify_enrol_with-Steps row (some enc) false s h holds same =
      renamed (check_otp rt code row enc s).1 same
        (check_otp-Steps rt (confirm code) code enc row s h same holds Step.confirmed)

  regen_with-Steps :
      (row : AdminMfa) (secret : Option Text) (enabled : Bool) (s : Session)
      → IsSettled s
      → row.secret_encrypted ≡ secret
      → factor s.work.mfa ≡ factor_with enabled secret (stored_codes row.recovery_codes_hashed)
      → Steps rt (regenerate code) (factor s.work.mfa) (regen_with rt code row enabled secret s).1
  unfolding regen_with
  regen_with-Steps row secret false s h holds same = stay s h
  regen_with-Steps row none true s h holds same = stay s h
  regen_with-Steps row (some enc) true s h holds same =
      renamed (check_otp rt code row enc s).1 same
        (check_otp-Steps rt (regenerate code) code enc row s h same holds Step.renewed)

  verify_enrol-Steps :
      (found : Option AdminMfa) (s : Session)
      → s.work.mfa ≡ found
      → IsSettled s
      → Steps rt (confirm code) (factor s.work.mfa) (verify_enrol_row rt code found s).1
  unfolding verify_enrol_row
  verify_enrol-Steps none s e h = stay s h
  verify_enrol-Steps (some row) s e h =
      verify_enrol_with-Steps row row.secret_encrypted row.enabled s h refl (ap factor e)

  regen_recovery-Steps :
      (found : Option AdminMfa) (s : Session)
      → s.work.mfa ≡ found
      → IsSettled s
      → Steps rt (regenerate code) (factor s.work.mfa) (regen_row rt code found s).1
  unfolding regen_row
  regen_recovery-Steps none s e h = stay s h
  regen_recovery-Steps (some row) s e h =
      regen_with-Steps row row.secret_encrypted row.enabled s h refl (ap factor e)

module _ {rt : Runtime} {code enc : Text} where
  step-taken :
      {hashes left : List Text}
      → Taken rt code enc hashes left
      → Step rt (login code) (on enc hashes) (on enc left)
  step-taken (password fit) = Step.nothing
  step-taken (recovery found) = Step.redeemed found

  accepted : {hashes left : List Text} → Taken rt code enc hashes left → Accepted rt enc hashes code
  accepted (password fit) = by_otp fit
  accepted (recovery found) = by_recovery found

module _ (rt : Runtime) (code : Text) (s : Session) where
  login-Steps :
      (r : Result Bool) (t : Session)
      → LoginEnd rt code s r t
      → IsSettled s
      → Steps rt (login code) (factor s.work.mfa) t
  login-Steps (ok false) t refused h = stay s h
  login-Steps (err e) t (raised e') h = stay s h
  login-Steps (ok true) t (entered enc hashes left u settled before after taken) h =
      renamed u before (record {
        settled = settled;
        step = subst (Step rt (login code) (on enc hashes)) (sym after) (step-taken taken);
      })

  clear-Steps :
      (found : Option AdminMfa) (enc : Text) (left : List Text) (t : Session) (f : Factor)
      → factor found ≡ on enc left
      → Step rt (turn_off code) f off
      → Steps rt (turn_off code) f (clear found t).1
  unfolding clear save_mfa commit
  clear-Steps none enc left t f on-left next = cc
  clear-Steps (some row) enc left t f on-left next = record { settled = (refl, tt); step = next }

  disable-Steps :
      (r : Result Bool) (t : Session)
      → LoginEnd rt code s r t
      → IsSettled s
      → Steps rt (turn_off code) (factor s.work.mfa) (◌>>=◌ (λ _. (r, t)) clear_if s).1
  unfolding clear_if
  disable-Steps (ok false) t refused h = stay s h
  disable-Steps (err e) t (raised e') h = stay s h
  disable-Steps (ok true) t (entered enc hashes left u settled before after taken) h =
      renamed (clear u.work.mfa u).1 before
        (clear-Steps u.work.mfa enc left u (on enc hashes) after (Step.turned_off (accepted taken)))

called-Steps :
    (rt : Runtime) (call : MfaCall) (s : Session)
    → IsSettled s
    → Steps rt call (factor s.work.mfa) (called rt call s)
unfolding called verify_enrol disable regen_recovery
called-Steps rt enrol s h = start_enrol-Steps rt s h
called-Steps rt (confirm code) s h = verify_enrol-Steps rt code s.work.mfa s refl h
called-Steps rt (login code) s h = login-Steps rt code s _ _ (verify_login-LoginEnd rt code s) h
called-Steps rt (turn_off code) s h =
    disable-Steps rt code s _ _ (verify_login-LoginEnd rt code s) h
called-Steps rt (regenerate code) s h = regen_recovery-Steps rt code s.work.mfa s refl h

-- From a session with nothing of the second factor uncommitted and with a valid row, any sequence of
-- calls, whatever they answer or raise, each at its own time and with its own settings, takes the
-- committed factor along a run of the state machine: the second factor is set up only by a password
-- that fits the pending secret, changes its codes only by redeeming one of them or by a fitting
-- password, and goes off only by an accepted code or by a new enrolment. The row stays valid and
-- nothing is left uncommitted.
pub called_all-Run :
    (calls : List (Runtime × MfaCall)) (s : Session)
    → IsSettled s
    → Run calls (factor s.store.mfa) (factor (called_all calls s).store.mfa)
      × IsSettled (called_all calls s)
unfolding called_all
called_all-Run [] s h = (Run.stop, h)
called_all-Run ((rt, call) ∷ calls) s h =
    let first = called-Steps rt call s h in
    let (rest, settled) = called_all-Run calls (called rt call s) first.settled in
    (
      Run.go
          (subst (λ x. Step rt call (factor x) (factor (called rt call s).store.mfa)) (sym h.0)
            (subst (λ x. Step rt call (factor s.work.mfa) (factor x)) (sym first.settled.0)
              first.step))
          rest,
      settled,
    )
