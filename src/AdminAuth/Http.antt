-- ===== src/AdminAuth/Http.antt =====
-- internal/handler/admin/auth.go: the endpoints of a session. A body that is no JSON is none, and a
-- field it lacks is the empty text.
use tsa_proxy.Common.{
  ℕ, String, Bool, ◌||◌, Option, none, some, List, [], length, ◌==◌, if◌then◌else◌, str_eq,
}
use tsa_proxy.ApiError.{
  Result, ok, failed, Answer, answer, refuse, err_admin_unauthorized, err_bad_request, err_internal,
  validation_error,
}
use tsa_proxy.Model.{Uuid}
use tsa_proxy.Auth.{Bytes}
use tsa_proxy.AdminUsers.{AdminUser, find_by_id, get_tenant_scope}
use tsa_proxy.AdminAuth.{
  Libraries, Replies, AuthState, LoginResult, totp_required, totp_setup_required, session, Outcome,
}
use tsa_proxy.AdminAuth.Admin.{AdminContext, get_admin_user_id}
use tsa_proxy.AdminAuth.Login.{login, verify_totp, refresh, logout}
use tsa_proxy.AdminAuth.Setup.{
  TotpSetup, setup_totp, enable_totp, setup_totp_with_token, complete_totp_setup,
}

pub data AuthBody : Type 0 where
  mfa_required : String → AuthBody
  setup_required : String → AuthBody
  tokens : String → ℕ → Uuid → String → String → List String → AuthBody
  renewed : String → AuthBody
  totp_secret : String → String → Option Bool → AuthBody
  enabled : AuthBody
  profile : AdminUser → List Uuid → AuthBody
  no_content : AuthBody

-- The reply, and the refresh cookie that it sets: the empty text clears it.
pub record Replied : Type 0 where
  pub body : Answer AuthBody
  pub set_cookie : Option String

abbrev pub Handled : Type 0
Handled = Replied × AuthState

unfoldable pub reject : AuthState → Handled
reject s = (record { body = refuse err_admin_unauthorized; set_cookie = none }, s)

unfoldable pub plain : Answer AuthBody → AuthState → Handled
plain body s = (record { body = body; set_cookie = none }, s)

unfoldable pub login_body : LoginResult → Replied
login_body (totp_required t) = record { body = answer (mfa_required t); set_cookie = none }
login_body (totp_setup_required t) = record { body = answer (setup_required t); set_cookie = none }
login_body (session l) = record {
  body =
      answer
        (tokens l.access_token l.expires_in l.user.id l.user.username l.user.email l.user.roles);
  set_cookie = some l.refresh_token;
}

unfoldable pub login_replied : Outcome LoginResult → Handled
unfolding login_body reject
login_replied (failed, s) = reject s
login_replied (ok l, s) = (login_body l, s)

-- The username and the password of the body, and the address of the request.
unfoldable pub handle_login :
    Libraries → Replies → String → Option (String × Bytes) → AuthState → Handled
unfolding login_replied plain login
handle_login lib r ip none s = plain (refuse err_bad_request) s
handle_login lib r ip (some (username, password)) s =
    if str_eq username "" || (length password == 0)
    then plain (refuse (validation_error "username, password: required")) s
    else login_replied (login lib r username password ip s)

unfoldable pub handle_verify_totp :
    Libraries → Replies → Option (String × String) → AuthState → Handled
unfolding login_replied plain verify_totp
handle_verify_totp lib r none s = plain (refuse err_bad_request) s
handle_verify_totp lib r (some (mfa_token, code)) s =
    if str_eq mfa_token "" || str_eq code ""
    then plain (refuse (validation_error "mfa_token, code: required")) s
    else login_replied (verify_totp lib r mfa_token code s)

unfoldable pub handle_complete_totp_setup :
    Libraries → Replies → Option (String × String) → AuthState → Handled
unfolding login_replied plain complete_totp_setup
handle_complete_totp_setup lib r none s = plain (refuse err_bad_request) s
handle_complete_totp_setup lib r (some (setup_token, code)) s =
    if str_eq setup_token "" || str_eq code ""
    then plain (refuse (validation_error "setup_token, code: required")) s
    else login_replied (complete_totp_setup lib r setup_token code s)

unfoldable pub setup_body : Option Bool → TotpSetup → AuthBody
setup_body flag setup = totp_secret setup.secret setup.qr_code_url flag

unfoldable pub setup_replied :
    Option Bool → Answer AuthBody → Result TotpSetup → AuthState → Handled
unfolding setup_body plain
setup_replied flag bad failed s = plain bad s
setup_replied flag bad (ok setup) s = plain (answer (setup_body flag setup)) s

unfoldable pub handle_setup_totp : Libraries → Replies → AdminContext → AuthState → Handled
unfolding get_admin_user_id reject setup_replied find_by_id setup_totp
handle_setup_totp lib r c s = elim (get_admin_user_id c) [
  | none ↦ reject s
  | some id ↦ elim (find_by_id r.user_reads id s.users) [
    | failed ↦ reject s
    | ok none ↦ reject s
    | ok (some user) ↦
        let (done, s') = setup_totp lib r id s in
        setup_replied (some user.totp_enabled) (refuse err_internal) done s'
  ]
]

unfoldable pub handle_setup_totp_for_login :
    Libraries → Replies → Option String → AuthState → Handled
unfolding plain setup_replied setup_totp_with_token
handle_setup_totp_for_login lib r none s =
    plain (refuse (validation_error "setup_token: required")) s
handle_setup_totp_for_login lib r (some setup_token) s =
    if str_eq setup_token ""
    then plain (refuse (validation_error "setup_token: required")) s
    else let (done, s') = setup_totp_with_token lib r setup_token s in
      setup_replied none (refuse err_admin_unauthorized) done s'

unfoldable pub enable_replied : Outcome Unit → Handled
unfolding plain reject
enable_replied (failed, s) = reject s
enable_replied (ok u, s) = plain (answer enabled) s

unfoldable pub handle_enable_totp :
    Libraries → Replies → AdminContext → Option String → AuthState → Handled
unfolding get_admin_user_id reject plain enable_totp enable_replied
handle_enable_totp lib r c body s = elim (get_admin_user_id c) [
  | none ↦ reject s
  | some id ↦ elim body [
    | none ↦ plain (refuse (validation_error "code: required")) s
    | some code ↦
        if str_eq code ""
        then plain (refuse (validation_error "code: required")) s
        else enable_replied (enable_totp lib r id code s)
  ]
]

-- The handlers that read the refresh cookie; one that is empty is as one that is missing.
unfoldable pub handle_logout : Replies → Option String → AuthState → Handled
unfolding logout
handle_logout r cookie s = (
  record { body = answer no_content; set_cookie = some "" },
  elim cookie [ none ↦ s | some token ↦ if str_eq token "" then s else logout r token s ],
)

unfoldable pub handle_refresh : Libraries → Replies → Option String → AuthState → Handled
unfolding reject plain refresh
handle_refresh lib r none s = reject s
handle_refresh lib r (some token) s =
    if str_eq token "" then reject s else elim (refresh lib r token s) [
      | failed ↦ reject s
      | ok access ↦ plain (answer (renewed access)) s
    ]

-- An error of the lookup of the scope leaves it empty. The names of the tenants are left out.
unfoldable pub profile_body : AdminUser → Result (List Uuid) → AuthBody
profile_body user failed = profile user []
profile_body user (ok scope) = profile user scope

unfoldable pub handle_me : Replies → Bool → AdminContext → AuthState → Handled
unfolding get_admin_user_id reject plain find_by_id get_tenant_scope profile_body
handle_me r scope_fails c s = elim (get_admin_user_id c) [
  | none ↦ reject s
  | some id ↦ elim (find_by_id r.user_reads id s.users) [
    | failed ↦ reject s
    | ok none ↦ reject s
    | ok (some user) ↦
        plain (answer (profile_body user (get_tenant_scope scope_fails user.id s.users))) s
  ]
]
