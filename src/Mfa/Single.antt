-- ===== src/Mfa/Single.antt =====
-- Recovery codes: each that an enrolment returns logs in, and none does so twice.
use yg_license_server.Base.{
  ◌≡◌, ◌≢◌, refl, sym, ap, ◌∙◌, subst, Bool, true, false, List, [], ◌∷◌, arith, All, Bool-cases,
  inl, inr,
}
use yg_license_server.Text.{Text, text_eq, eq_of_text_eq}
use yg_license_server.Model.{Time}
use yg_license_server.Runtime.{Runtime}
use yg_license_server.Session.{Session, Result, ok}
use yg_license_server.Mfa.{has_code, remove_code, candidate, verify_login}
use yg_license_server.Mfa.Machine.{
  Factor, off, pending, on, factor, Taken, password, recovery, IsSettled, MfaCall, enrol, confirm,
  login, turn_off, regenerate, Step, Run, called_all, nothing, enrolled, confirmed, redeemed,
  turned_off, renewed, stop, go,
}
use yg_license_server.Mfa.Refine.{called_all-Run}
use yg_license_server.Mfa.Accept.{LoginEnd, refused, raised, entered, verify_login-LoginEnd}

-- no hash stands twice
abbrev pub IsDistinct : List Text → Type 0
IsDistinct [] = Unit
IsDistinct (c ∷ cs) = (has_code c cs ≡ false) × IsDistinct cs

has_code-remove_code :
    (c : Text) (cs : List Text) → IsDistinct cs → has_code c (remove_code c cs) ≡ false
unfolding remove_code
has_code-remove_code c [] h = refl
has_code-remove_code c (d ∷ cs) h = elim (Bool-cases (text_eq c d)) [
  | inl same ↦ ground (arith, subst (λ x. has_code x cs ≡ false) (sym (eq_of_text_eq c d same)) h.0)
  | inr other ↦ ground (arith, has_code-remove_code c cs h.1)
]

on-injective : {a b : Text} {cs ds : List Text} → on a cs ≡ on b ds → cs ≡ ds
on-injective e = cc

module _ (rt : Runtime) (code : Text)
    (never : (secret : Text) (at : Time) → rt.totp_verify secret at code ≡ false) where
  -- a code that is no password was taken as a recovery code
  Taken-removed :
      (now : Time) {enc : Text} {hashes left : List Text}
      → Taken (record rt { now = now }) code enc hashes left
      → (has_code (candidate rt code) hashes ≡ true)
        × (left ≡ remove_code (candidate rt code) hashes)
  Taken-removed now (password (secret, plain, fit)) = ground (arith, never secret now)
  Taken-removed now (recovery found) = (found, refl)

  entered-removed :
      (now : Time) {s t : Session} (r : Result Bool) {enc : Text} {hashes : List Text}
      → LoginEnd (record rt { now = now }) code s r t
      → r ≡ ok true
      → factor s.work.mfa ≡ on enc hashes
      → (has_code (candidate rt code) hashes ≡ true)
        × IsSettled t
        × ((secret : Text) × (factor t.work.mfa
              ≡ on secret (remove_code (candidate rt code) hashes)))
  entered-removed now r refused e before = cc
  entered-removed now r (raised x) e before = cc
  entered-removed now r (entered enc hashes left t settled was is taken) e before =
      let (found, cut) = Taken-removed now taken in
      let same = on-injective (sym was ∙ before) in
      (
        subst (λ x. has_code (candidate rt code) x ≡ true) same found,
        settled,
        (enc, is ∙ ap (on enc) (cut ∙ ap (remove_code (candidate rt code)) same)),
      )

has_code-remove_other :
    (c d : Text) (cs : List Text) → has_code c cs ≡ false → has_code c (remove_code d cs) ≡ false
unfolding remove_code
has_code-remove_other c d [] h = refl
has_code-remove_other c d (x ∷ cs) h = ground (arith, has_code-remove_other c d cs)

-- the code is none of those that are stored
abbrev IsSpent : Text → Factor → Type 0
IsSpent c off = Unit
IsSpent c (pending enc) = Unit
IsSpent c (on enc hashes) = has_code c hashes ≡ false

-- the calls that make no recovery codes
abbrev pub makes_none : MfaCall → Bool
makes_none enrol = true
makes_none (confirm code) = false
makes_none (login code) = true
makes_none (turn_off code) = true
makes_none (regenerate code) = false

Step-IsSpent :
    {rt : Runtime} {call : MfaCall} {f g : Factor} (c : Text)
    → Step rt call f g
    → makes_none call ≡ true
    → IsSpent c f
    → IsSpent c g
Step-IsSpent c nothing e h = h
Step-IsSpent c (enrolled n made) e h = tt
Step-IsSpent c (confirmed n fit) e h = cc
Step-IsSpent c (redeemed found) e h = has_code-remove_other c _ _ h
Step-IsSpent c (turned_off evidence) e h = tt
Step-IsSpent c (renewed n fit) e h = cc

Run-IsSpent :
    {calls : List (Runtime × MfaCall)} {f g : Factor} (c : Text)
    → Run calls f g
    → All (λ (rt, call). makes_none call ≡ true) calls
    → IsSpent c f
    → IsSpent c g
Run-IsSpent c stop h spent = spent
Run-IsSpent c (go step rest) h spent = Run-IsSpent c rest h.1 (Step-IsSpent c step h.0 spent)

spent-refused :
    (rt : Runtime) (code : Text) (later : Time) {u v : Session} (r : Result Bool)
    → ((secret : Text) (at : Time) → rt.totp_verify secret at code ≡ false)
    → LoginEnd (record rt { now = later }) code u r v
    → IsSpent (candidate rt code) (factor u.work.mfa)
    → r ≢ ok true
spent-refused rt code later r never refused spent e = cc
spent-refused rt code later r never (raised x) spent e = cc
spent-refused rt code later r never (entered enc hashes left t settled was is taken) spent e =
    let gone = subst (IsSpent (candidate rt code)) was spent in
    let (found, cut) = Taken-removed rt code never later taken in cc

-- A text that is no one-time password at any time logs in at most once: where it was accepted from a
-- row with distinct hashes, it is refused at any later time, whatever logins, enrolments and attempts
-- to turn the second factor off lie between, until a confirmation or a regeneration makes new codes.
pub verify_login-once :
    (rt : Runtime) (code : Text) (s t : Session) (enc : Text) (hashes : List Text)
    (calls : List (Runtime × MfaCall)) (later : Time)
    → ((secret : Text) (at : Time) → rt.totp_verify secret at code ≡ false)
    → factor s.work.mfa ≡ on enc hashes
    → IsDistinct hashes
    → verify_login rt code s ≡ (ok true, t)
    → All (λ (rt', call). makes_none call ≡ true) calls
    → (verify_login (record rt { now = later }) code (called_all calls t)).0 ≢ ok true
verify_login-once rt code s t enc hashes calls later never before distinct first quiet again =
    let (found, settled, (secret, is)) =
      entered-removed rt code never rt.now (ok true) end-first refl before in
    let cand = candidate rt code in
    let (run, end) = called_all-Run calls t settled in
    spent-refused rt code later _ never
      (verify_login-LoginEnd (record rt { now = later }) code (called_all calls t))
      (subst (λ x. IsSpent cand (factor x)) end.0
        (Run-IsSpent cand run quiet (
          subst (λ x. IsSpent cand (factor x)) (sym settled.0)
            (subst (IsSpent cand) (sym is) (has_code-remove_code cand hashes distinct)))))
      again
  where
    end-first : LoginEnd rt code s (ok true) t
    end-first = subst (λ p. LoginEnd rt code s p.0 p.1) first (verify_login-LoginEnd rt code s)
