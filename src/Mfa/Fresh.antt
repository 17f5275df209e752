-- ===== src/Mfa/Fresh.antt =====
-- The recovery codes that an enrolment returns.
use yg_license_server.Base.{
  ℕ, zero, suc, ◌≡◌, refl, sym, ap, ◌∙◌, subst, Bool, true, false, Option, none, some, List, [],
  ◌∷◌, map, arith, Bool-cases, inl, inr,
}
use yg_license_server.Text.{Text, text_eq, eq_of_text_eq, text_eq_refl, strip}
use yg_license_server.Model.{Time, AdminMfa}
use yg_license_server.Runtime.{Runtime}
use yg_license_server.Keystore.{decrypt_text}
use yg_license_server.Session.{Session, Result, ok, err, lift, ◌>>=◌, commit}
use yg_license_server.Mfa.{
  recovery_code_count, save_mfa, generate_recovery_codes, hash_code, codes_from, store_codes,
  codes_if, check_otp, verify_enrol_with, verify_enrol_row, verify_enrol, stored_codes, has_code,
  candidate, redeem, login_checked, login_with, login_row, verify_login,
}

-- the row with fresh codes
abbrev with_codes : Runtime → AdminMfa → List Text → AdminMfa
with_codes rt row codes = record row {
  enabled = true;
  recovery_codes_hashed = some (map (hash_code rt) codes);
}

-- the session behind an enrolment that returned codes
record IsFresh (rt : Runtime) (codes : List Text) (t : Session) : Type 0 where
  row : AdminMfa
  enc : Text
  secret : Text
  draw : ℕ
  stored : t.work.mfa ≡ some (with_codes rt row codes)
  holds : row.secret_encrypted ≡ some enc
  plain : decrypt_text rt enc ≡ ok secret
  drawn : codes ≡ codes_from rt draw recovery_code_count

same_codes : {a b : List Text} → ok (some a) ≡ ok (some b) → a ≡ b
same_codes e = cc

module _ (rt : Runtime) (code : Text) (s t : Session) (codes : List Text) where
  codes_if-IsFresh :
      (row : AdminMfa) (enc secret : Text)
      → row.secret_encrypted ≡ some enc
      → decrypt_text rt enc ≡ ok secret
      → (fit : Bool) → codes_if rt row fit s ≡ (ok (some codes), t)
      → IsFresh rt codes t
  unfolding codes_if store_codes generate_recovery_codes save_mfa commit
  codes_if-IsFresh row enc secret holds plain false e = cc
  codes_if-IsFresh row enc secret holds plain true e =
      let drawn = same_codes (ap (λ p. p.0) e) in
      record {
        row = row;
        enc = enc;
        secret = secret;
        draw = s.draws;
        stored = sym (ap (λ p. p.1.work.mfa) e) ∙ ap (λ cs. some (with_codes rt row cs)) drawn;
        holds = holds;
        plain = plain;
        drawn = sym drawn;
      }

  check_otp-IsFresh :
      (row : AdminMfa) (enc : Text)
      → row.secret_encrypted ≡ some enc
      → (r : Result Text) → decrypt_text rt enc ≡ r
      → ◌>>=◌ (lift r) (λ secret. codes_if rt row (rt.totp_verify secret rt.now code)) s
        ≡ (ok (some codes), t)
      → IsFresh rt codes t
  check_otp-IsFresh row enc holds (err x) plain e = cc
  check_otp-IsFresh row enc holds (ok secret) plain e =
      codes_if-IsFresh row enc secret holds plain (rt.totp_verify secret rt.now code) e

  verify_enrol_with-IsFresh :
      (row : AdminMfa) (secret : Option Text) (enabled : Bool)
      → row.secret_encrypted ≡ secret
      → verify_enrol_with rt code row secret enabled s ≡ (ok (some codes), t)
      → IsFresh rt codes t
  unfolding verify_enrol_with check_otp
  verify_enrol_with-IsFresh row none enabled holds e = cc
  verify_enrol_with-IsFresh row (some enc) true holds e = cc
  verify_enrol_with-IsFresh row (some enc) false holds e =
      check_otp-IsFresh row enc holds (decrypt_text rt enc) refl e

  verify_enrol_row-IsFresh :
      (found : Option AdminMfa)
      → verify_enrol_row rt code found s ≡ (ok (some codes), t)
      → IsFresh rt codes t
  unfolding verify_enrol_row
  verify_enrol_row-IsFresh none e = cc
  verify_enrol_row-IsFresh (some row) e =
      verify_enrol_with-IsFresh row row.secret_encrypted row.enabled refl e

module _ (rt : Runtime) where
  -- a drawn code is hashed as it was stored
  candidate-codes_from :
      ((x : Text) → rt.upper (rt.upper x) ≡ rt.upper x)
      → ((n : ℕ) → strip (rt.upper (rt.token_hex n)) ≡ rt.upper (rt.token_hex n))
      → (c : Text) (start n : ℕ) → has_code c (codes_from rt start n) ≡ true
      → candidate rt c ≡ hash_code rt c
  candidate-codes_from twice bare c start zero h = cc
  candidate-codes_from twice bare c start (suc n) h =
      elim (Bool-cases (text_eq c (rt.upper (rt.token_hex start)))) [
        | inl same ↦
            subst (λ x. candidate rt x ≡ hash_code rt x) (sym (eq_of_text_eq c _ same))
              (ap rt.sha256 (ap rt.upper (ap rt.upper (bare start) ∙ twice (rt.token_hex start))))
        | inr other ↦ candidate-codes_from twice bare c (suc start) n (ground arith)
      ]

  has_code-map :
      (c : Text) (cs : List Text)
      → has_code c cs ≡ true
      → has_code (hash_code rt c) (map (hash_code rt) cs) ≡ true
  has_code-map c [] h = cc
  has_code-map c (d ∷ cs) h = elim (Bool-cases (text_eq c d)) [
    | inl same ↦ ground (
      arith,
      subst (λ x. text_eq (hash_code rt c) (hash_code rt x) ≡ true) (eq_of_text_eq c d same)
          (text_eq_refl (hash_code rt c)),
    )
    | inr other ↦ ground (arith, has_code-map c cs)
  ]

  module _ (c : Text) (s : Session) where
    login_checked-accepts :
        (row : AdminMfa) (fit : Bool)
        → has_code (candidate rt c) (stored_codes row.recovery_codes_hashed) ≡ true
        → (login_checked rt c row fit s).0 ≡ ok true
    unfolding login_checked redeem save_mfa commit
    login_checked-accepts row true h = refl
    login_checked-accepts row false h = ap (λ b. (redeem rt row (candidate rt c) b s).0) h

    login_with-accepts :
        (row : AdminMfa) (enc secret : Text)
        → decrypt_text rt enc ≡ ok secret
        → has_code (candidate rt c) (stored_codes row.recovery_codes_hashed) ≡ true
        → (login_with rt c row true (some enc) s).0 ≡ ok true
    unfolding login_with
    login_with-accepts row enc secret plain h =
        ap (λ r. (◌>>=◌ (lift r) (λ x. login_checked rt c row (rt.totp_verify x rt.now c)) s).0)
          plain
        ∙ login_checked-accepts row (rt.totp_verify secret rt.now c) h

decrypt-later :
    (rt : Runtime) (later : Time) (enc : Text)
    → decrypt_text (record rt { now = later }) enc ≡ decrypt_text rt enc
unfolding decrypt_text
decrypt-later rt later enc = refl

-- Where `upper` changes nothing the second time and no code has spaces around it, each recovery code
-- that a confirmed enrolment returns logs in at any later time.
pub verify_login-verify_enrol :
    (rt : Runtime) (code c : Text) (s t : Session) (codes : List Text) (later : Time)
    → ((x : Text) → rt.upper (rt.upper x) ≡ rt.upper x)
    → ((n : ℕ) → strip (rt.upper (rt.token_hex n)) ≡ rt.upper (rt.token_hex n))
    → verify_enrol rt code s ≡ (ok (some codes), t)
    → has_code c codes ≡ true
    → (verify_login (record rt { now = later }) c t).0 ≡ ok true
unfolding verify_enrol verify_login login_row
verify_login-verify_enrol rt code c s t codes later twice bare e h =
    let fresh = verify_enrol_row-IsFresh rt code s t codes s.work.mfa e in
    let row = with_codes rt fresh.row codes in
    let same =
      candidate-codes_from rt twice bare c fresh.draw recovery_code_count
        (subst (λ cs. has_code c cs ≡ true) fresh.drawn h) in
    ap (λ found. (login_row (record rt { now = later }) c found t).0) fresh.stored
    ∙ (ap (λ x. (login_with (record rt { now = later }) c row true x t).0) fresh.holds
        ∙ login_with-accepts (record rt { now = later }) c t row fresh.enc fresh.secret
            (decrypt-later rt later fresh.enc ∙ fresh.plain)
            (subst (λ x. has_code x (map (hash_code rt) codes) ≡ true) (sym same)
              (has_code-map rt c codes h)))
