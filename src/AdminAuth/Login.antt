-- ===== src/AdminAuth/Login.antt =====
-- internal/service/auth/service.go: Login, VerifyTOTP, Refresh and Logout.
use tsa_proxy.Common.{String, not, Option, none, some, if◌then◌else◌}
use tsa_proxy.ApiError.{Result, ok, failed}
use tsa_proxy.Model.{Uuid}
use tsa_proxy.Auth.{Bytes}
use tsa_proxy.Password.{verify_argon2id}
use tsa_proxy.AdminUsers.{AdminUser, find_by_id, find_by_username}
use tsa_proxy.AdminAuth.{
  Libraries, Replies, AuthState, Outcome, LoginResult, totp_required, totp_setup_required, RedisKey,
  refresh_key, mfa_key, redis_get, redis_del, generate_access_token, generate_mfa_token,
  generate_setup_token, issue_tokens,
}

-- What a generator gave, as the reply of Login.
unfoldable pub login_reply :
    (String → LoginResult) → Result (String × AuthState) → AuthState → Outcome LoginResult
login_reply f failed s = (failed, s)
login_reply f (ok (token, s')) s = (ok (f token), s')

unfoldable pub login_second : Libraries → Replies → AdminUser → AuthState → Outcome LoginResult
unfolding login_reply generate_mfa_token generate_setup_token
login_second lib r user s =
    if user.totp_enabled
    then login_reply totp_required (generate_mfa_token lib r user.id s) s
    else login_reply totp_setup_required (generate_setup_token lib r user.id s) s

unfoldable pub login :
    Libraries → Replies → String → Bytes → String → AuthState → Outcome LoginResult
unfolding login_second find_by_username verify_argon2id
login lib r username password ip s = elim (find_by_username r.user_reads username s.users) [
  | failed ↦ (failed, s)
  | ok none ↦ (failed, s)
  | ok (some user) ↦
      if not user.is_active
      then (failed, s)
      else if not (verify_argon2id lib.argon user.password_hash password)
      then (failed, s)
      else login_second lib r user s
]

-- The user whom a stored identifier names, when active: the same steps in VerifyTOTP, Refresh and
-- resolveSetupToken.
unfoldable pub active_user : Replies → Uuid → AuthState → Option AdminUser
unfolding find_by_id
active_user r id s = elim (find_by_id r.user_reads id s.users) [
  | failed ↦ none
  | ok none ↦ none
  | ok (some user) ↦ if user.is_active then some user else none
]

unfoldable pub token_user : Libraries → Replies → RedisKey → AuthState → Option AdminUser
unfolding redis_get active_user
token_user lib r key s = elim (redis_get r key s) [
  | failed ↦ none
  | ok none ↦ none
  | ok (some text) ↦ elim (lib.codec.uuid_parse text) [ none ↦ none | some id ↦ active_user r id s ]
]

-- The token is used up before the session is issued.
unfoldable pub check_code :
    Libraries → Replies → AdminUser → String → String → String → AuthState → Outcome LoginResult
unfolding redis_del issue_tokens
check_code lib r user mfa_token code secret s =
    if not (lib.totp_validate code secret r.now)
    then (failed, s)
    else issue_tokens lib r user "" (redis_del r (mfa_key mfa_token) s)

unfoldable pub verify_code :
    Libraries → Replies → AdminUser → String → String → AuthState → Outcome LoginResult
unfolding check_code
verify_code lib r user mfa_token code s = elim user.totp_secret [
  | none ↦ (failed, s)
  | some secret ↦ check_code lib r user mfa_token code secret s
]

unfoldable pub verify_totp : Libraries → Replies → String → String → AuthState → Outcome LoginResult
unfolding token_user verify_code
verify_totp lib r mfa_token code s = elim (token_user lib r (mfa_key mfa_token) s) [
  | none ↦ (failed, s)
  | some user ↦ verify_code lib r user mfa_token code s
]

unfoldable pub refresh : Libraries → Replies → String → AuthState → Result String
unfolding token_user generate_access_token
refresh lib r refresh_token s = elim (token_user lib r (refresh_key refresh_token) s) [
  | none ↦ failed
  | some user ↦ elim (generate_access_token lib r user) [ none ↦ failed | some t ↦ ok t ]
]

unfoldable pub logout : Replies → String → AuthState → AuthState
unfolding redis_del
logout r refresh_token s = redis_del r (refresh_key refresh_token) s
