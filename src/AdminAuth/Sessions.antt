-- ===== src/AdminAuth/Sessions.antt =====
-- Runs of calls of the endpoints of internal/handler/admin/auth.go, in any order and with any
-- failures of the database, of Redis and of the random source: who can have a session at the end.
use tsa_proxy.Common.{String, Bool, Option, none, some, List, [], ◌∷◌, if◌then◌else◌}
use tsa_proxy.ApiError.{ok, failed}
use tsa_proxy.Auth.{Bytes}
use tsa_proxy.Password.{verify_argon2id}
use tsa_proxy.AdminUsers.{AdminUser, find_by_username}
use tsa_proxy.AdminAuth.{mfa_key, setup_key, AuthState, Libraries, Replies, redis_get}
use tsa_proxy.AdminAuth.Admin.{AdminContext}
use tsa_proxy.AdminAuth.Login.{token_user}
use tsa_proxy.AdminAuth.Setup.{user_pending_key}
use tsa_proxy.AdminAuth.Http.{
  handle_login, handle_verify_totp, handle_complete_totp_setup, handle_setup_totp,
  handle_setup_totp_for_login, handle_enable_totp, handle_logout, handle_refresh, handle_me,
}
use tsa_proxy.AdminAuth.Store.{Fact, password_ok, code_ok, note}

-- The endpoints with their parsed requests; a change of the table of users by another handler is a
-- call too.
pub data AuthCall : Type 0 where
  call_login : String → Option (String × Bytes) → AuthCall
  call_verify : Option (String × String) → AuthCall
  call_setup : AdminContext → AuthCall
  call_enable : AdminContext → Option String → AuthCall
  call_setup_for_login : Option String → AuthCall
  call_complete : Option (String × String) → AuthCall
  call_refresh : Option String → AuthCall
  call_logout : Option String → AuthCall
  call_me : Bool → AdminContext → AuthCall
  users_edited : List AdminUser → AuthCall

unfoldable pub after_call : Libraries → Replies → AuthCall → AuthState → AuthState
unfolding handle_login handle_verify_totp handle_complete_totp_setup handle_setup_totp
    handle_setup_totp_for_login handle_enable_totp handle_logout handle_refresh handle_me
after_call lib r (call_login ip body) s = (handle_login lib r ip body s).1
after_call lib r (call_verify body) s = (handle_verify_totp lib r body s).1
after_call lib r (call_setup c) s = (handle_setup_totp lib r c s).1
after_call lib r (call_enable c body) s = (handle_enable_totp lib r c body s).1
after_call lib r (call_setup_for_login body) s = (handle_setup_totp_for_login lib r body s).1
after_call lib r (call_complete body) s = (handle_complete_totp_setup lib r body s).1
after_call lib r (call_refresh cookie) s = (handle_refresh lib r cookie s).1
after_call lib r (call_logout cookie) s = (handle_logout r cookie s).1
after_call lib r (call_me fails c) s = (handle_me r fails c s).1
after_call lib r (users_edited users) s = record s { users = users }

-- What a call proves: that its password is right for the user of its username, or that its code is
-- valid for the secret of the user of its token, or for the secret that the user is setting up.
unfoldable pub fact_login : Libraries → Replies → String × Bytes → AuthState → Option Fact
unfolding find_by_username verify_argon2id
fact_login lib r (username, password) s = elim (find_by_username r.user_reads username s.users) [
  | failed ↦ none
  | ok none ↦ none
  | ok (some user) ↦
      if verify_argon2id lib.argon user.password_hash password
      then some (password_ok user.id)
      else none
]

unfoldable pub fact_code : Libraries → Replies → AdminUser → String → Option String → Option Fact
fact_code lib r user code none = none
fact_code lib r user code (some secret) =
    if lib.totp_validate code secret r.now then some (code_ok user.id) else none

unfoldable pub fact_verify : Libraries → Replies → String × String → AuthState → Option Fact
unfolding token_user fact_code
fact_verify lib r (t, code) s = elim (token_user lib r (mfa_key t) s) [
  | none ↦ none
  | some user ↦ fact_code lib r user code user.totp_secret
]

unfoldable pub fact_complete : Libraries → Replies → String × String → AuthState → Option Fact
unfolding token_user redis_get user_pending_key fact_code
fact_complete lib r (t, code) s = elim (token_user lib r (setup_key t) s) [
  | none ↦ none
  | some user ↦ elim (redis_get r (user_pending_key lib user.id) s) [
    | failed ↦ none
    | ok secret ↦ fact_code lib r user code secret
  ]
]

unfoldable pub fact_of : Libraries → Replies → AuthCall → AuthState → Option Fact
unfolding fact_login fact_verify fact_complete
fact_of lib r (call_login ip (some body)) s = fact_login lib r body s
fact_of lib r (call_verify (some body)) s = fact_verify lib r body s
fact_of lib r (call_complete (some body)) s = fact_complete lib r body s
fact_of lib r _ s = none

-- The facts and the state after the calls, the first of the list first.
unfoldable pub run_calls :
    Libraries → List (Replies × AuthCall) → List Fact → AuthState → List Fact × AuthState
unfolding after_call fact_of note
run_calls lib [] past s = (past, s)
run_calls lib ((r, call) ∷ calls) past s =
    run_calls lib calls (note (fact_of lib r call s) past) (after_call lib r call s)
