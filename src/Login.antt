-- ===== src/Login.antt =====
-- The login of the administrator: app/routers/admin_ui/auth.py, the cookies of
-- app/routers/admin_ui/_deps.py, and the guarded handlers of app/routers/admin_ui/mfa.py. A reply keeps
-- the page that it redirects to and the cookies that it sets; a deleted cookie is an empty one.
pub mod Cleared
pub mod Lifetime
use yg_license_server.Base.{
  ℕ, ◌+◌, ◌-◌, ◌*◌, ◌/◌, Bool, true, false, not, ◌&&◌, ◌||◌, Option, none, some, List, [], all, leb,
  ltb, if◌then◌else◌,
}
use yg_license_server.Text.{Text, codes, text_eq, nonempty}
use yg_license_server.Model.{Json, int, obj, Fields, end, field}
use yg_license_server.Runtime.{Runtime}
use yg_license_server.Security.{check_csrf, csrf_token}
use yg_license_server.Session.{
  type_error, Exec, Result, ok, err, http_error, login_required, pure, raise, raise_if, lift, ◌>>=◌,
  ◌>>◌,
}
use yg_license_server.Mfa.{
  is_enabled, start_enrol, verify_enrol, verify_login, disable, regen_recovery,
}

-- `SESSION_MAX_AGE_SECONDS` and `PRE_MFA_MAX_AGE_SECONDS`
abbrev pub session_max_age_seconds : ℕ
session_max_age_seconds = 60 * 60 * 24 * 7

abbrev pub pre_mfa_max_age_seconds : ℕ
pre_mfa_max_age_seconds = 5 * 60

-- the salts of `serializer` and `pre_mfa_serializer`
abbrev pub session_salt : Text
session_salt = codes "admin-session"

abbrev pub pre_mfa_salt : Text
pre_mfa_salt = codes "admin-pre-mfa"

-- the two cookies of a request
pub record Cookies : Type 0 where
  pub session : Option Text
  pub pre_mfa : Option Text

-- `int(time.time())`
abbrev pub now_seconds : Runtime → ℕ
now_seconds rt = rt.now / 1_000_000

-- the secret of `serializer` and `pre_mfa_serializer`, or 503
unfoldable pub session_secret : Runtime → Result Text
session_secret rt =
    if nonempty rt.settings.session_secret
    then ok rt.settings.session_secret
    else err (http_error 503 "SESSION_SECRET not set")

-- `data.get(key)` of a dictionary
abbrev pub get_field : Text → Fields → Option Json
get_field key end = none
get_field key (field k j rest) = if text_eq k key then some j else get_field key rest

-- a value that is an int; a bool is one
abbrev pub as_int : Option Json → Option ℕ
as_int (some (int n)) = some n
as_int (some (Json.bool true)) = some 1
as_int (some (Json.bool false)) = some 0
as_int _ = none

-- `iat` of a cookie's data
abbrev pub iat_of : Option Json → Option ℕ
iat_of (some (obj fields)) = as_int (get_field (codes "iat") fields)
iat_of _ = none

-- A negative age, of a cookie from the future, counts as young in the source too.
abbrev pub young : ℕ → ℕ → Option ℕ → Bool
young now max_age none = false
young now max_age (some iat) = leb (now - iat) max_age

abbrev pub cookie_fits : Runtime → Text → ℕ → Text → Result Text → Result Bool
cookie_fits rt salt max_age raw (err e) = err e
cookie_fits rt salt max_age raw (ok secret) =
    ok (young (now_seconds rt) max_age (iat_of (rt.cookie_loads secret salt raw)))

-- what `logged_in` and `pre_mfa_valid` share
unfoldable pub cookie_valid : Runtime → Text → ℕ → Option Text → Result Bool
unfolding session_secret
cookie_valid rt salt max_age none = ok false
cookie_valid rt salt max_age (some raw) =
    if nonempty raw then cookie_fits rt salt max_age raw (session_secret rt) else ok false

-- `pre_mfa_valid`
unfoldable pub pre_mfa_valid : Runtime → Cookies → Result Bool
unfolding cookie_valid
pre_mfa_valid rt c = cookie_valid rt pre_mfa_salt pre_mfa_max_age_seconds c.pre_mfa

-- `logged_in`
unfoldable pub logged_in : Runtime → Cookies → Result Bool
unfolding cookie_valid
logged_in rt c = cookie_valid rt session_salt session_max_age_seconds c.session

-- `require_login`
unfoldable pub require_login : Runtime → Cookies → Exec Unit
unfolding logged_in
require_login rt c = lift (logged_in rt c) >>= λ known. raise_if (not known) login_required

-- `current_csrf_token`
unfoldable pub current_csrf_token : Runtime → Option Text → Option Text
unfolding csrf_token
current_csrf_token rt none = none
current_csrf_token rt (some raw) =
    if nonempty raw && nonempty rt.settings.session_secret
    then some (csrf_token rt rt.settings.session_secret raw)
    else none

unfoldable pub csrf_fits : Runtime → Option Text → Option Text → Bool
unfolding check_csrf
csrf_fits rt none supplied = false
csrf_fits rt (some raw) supplied =
    nonempty raw
    && nonempty rt.settings.session_secret
    && check_csrf rt rt.settings.session_secret raw supplied

-- `require_csrf`
unfoldable pub require_csrf : Runtime → Cookies → Option Text → Exec Unit
unfolding csrf_fits
require_csrf rt c supplied =
    raise_if (not (csrf_fits rt c.session supplied)) (http_error 403 "invalid CSRF token")

-- The page that a reply redirects to, or shows.
pub data Target : Type 0 where
  login_page login_invalid mfa_page mfa_invalid mfa_form admin_page : Target

-- A cookie that a reply sets, or deletes by an empty text.
pub record Reply : Type 0 where
  pub target : Target
  pub session : Option Text
  pub pre_mfa : Option Text

abbrev pub redirect : Target → Reply
redirect target = record { target = target; session = none; pre_mfa = none }

-- `{"ok": True, "iat": int(time.time())}`
abbrev pub login_data : ℕ → Json
login_data iat = obj (field (codes "ok") (Json.bool true) (field (codes "iat") (int iat) end))

abbrev pub cookie_data : Runtime → Json
cookie_data rt = login_data (now_seconds rt)

unfoldable pub new_cookie : Runtime → Text → Exec Text
unfolding session_secret
new_cookie rt salt =
    lift (session_secret rt) >>= λ secret. pure (rt.cookie_dumps secret salt (cookie_data rt))

-- the answer to the right token
unfoldable pub first_factor : Runtime → Bool → Exec Reply
unfolding new_cookie
first_factor rt true = new_cookie rt pre_mfa_salt >>= λ pre.
    pure (record { target = mfa_page; session = none; pre_mfa = some pre })
first_factor rt false = new_cookie rt session_salt >>= λ cookie.
    pure (record { target = admin_page; session = some cookie; pre_mfa = none })

unfoldable pub login_if : Runtime → Bool → Exec Reply
unfolding is_enabled first_factor
login_if rt false = pure (redirect login_invalid)
login_if rt true = is_enabled >>= first_factor rt

abbrev pub is_ascii : ℕ → Bool
is_ascii c = ltb c 128

-- `login`; `compare_digest` raises TypeError on a text that is not ASCII
unfoldable pub login : Runtime → Text → Exec Reply
unfolding login_if
login rt token =
    raise_if (not (nonempty rt.settings.admin_token)) (http_error 503 "ADMIN_TOKEN not set")
    >> (raise_if (not (all is_ascii token && all is_ascii rt.settings.admin_token)) type_error
        >> login_if rt (text_eq token rt.settings.admin_token))

-- `login_mfa_form`
unfoldable pub login_mfa_form : Runtime → Cookies → Exec Reply
unfolding pre_mfa_valid
login_mfa_form rt c =
    lift (pre_mfa_valid rt c) >>= λ valid. pure (redirect (if valid then mfa_form else login_page))

unfoldable pub second_factor : Runtime → Bool → Exec Reply
unfolding new_cookie
second_factor rt false = pure (redirect mfa_invalid)
second_factor rt true = new_cookie rt session_salt >>= λ cookie.
    pure (record { target = admin_page; session = some cookie; pre_mfa = some [] })

unfoldable pub login_mfa_if : Runtime → Text → Bool → Exec Reply
unfolding verify_login second_factor
login_mfa_if rt code false = pure (redirect login_page)
login_mfa_if rt code true = verify_login rt code >>= second_factor rt

-- `login_mfa`
unfoldable pub login_mfa : Runtime → Cookies → Text → Exec Reply
unfolding pre_mfa_valid login_mfa_if
login_mfa rt c code = lift (pre_mfa_valid rt c) >>= login_mfa_if rt code

-- `logout`
unfoldable pub logout : Runtime → Cookies → Option Text → Exec Reply
unfolding require_csrf
logout rt c supplied =
    require_csrf rt c supplied
    >> pure (record { target = login_page; session = some []; pre_mfa = some [] })

-- the guards of the handlers of app/routers/admin_ui/mfa.py
unfoldable pub guarded : {A : Type 0} → Runtime → Cookies → Option Text → Exec A → Exec A
unfolding require_login require_csrf
guarded rt c supplied m = require_login rt c >> require_csrf rt c supplied >> m

-- `mfa_enroll`, `mfa_verify_enroll`, `mfa_disable`, `mfa_regen_recovery`. The refusals answer 400.
unfoldable pub mfa_enroll : Runtime → Cookies → Option Text → Exec Text
unfolding guarded start_enrol
mfa_enroll rt c supplied = guarded rt c supplied (start_enrol rt)

unfoldable pub mfa_verify_enroll :
    Runtime → Cookies → Option Text → Text → Exec (Option (List Text))
unfolding guarded verify_enrol
mfa_verify_enroll rt c supplied code = guarded rt c supplied (verify_enrol rt code)

unfoldable pub mfa_disable : Runtime → Cookies → Option Text → Text → Exec Bool
unfolding guarded disable
mfa_disable rt c supplied code = guarded rt c supplied (disable rt code)

unfoldable pub mfa_regen_recovery :
    Runtime → Cookies → Option Text → Text → Exec (Option (List Text))
unfolding guarded regen_recovery
mfa_regen_recovery rt c supplied code = guarded rt c supplied (regen_recovery rt code)
