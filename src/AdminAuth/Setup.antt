-- ===== src/AdminAuth/Setup.antt =====
-- internal/service/auth/service.go: SetupTOTP, EnableTOTP, AdminResetTOTP, SetupTOTPWithToken and
-- CompleteTOTPSetup. The identifier that a token names is that of the row it finds.
use tsa_proxy.Common.{String, ◌*◌, Bool, not, true, false, Option, none, some, if◌then◌else◌}
use tsa_proxy.ApiError.{ok, failed}
use tsa_proxy.Model.{Uuid}
use tsa_proxy.AdminUsers.{update_totp}
use tsa_proxy.AdminAuth.{
  Libraries, Replies, AuthState, Outcome, LoginResult, RedisKey, setup_key, pending_key, redis_get,
  redis_set, redis_del, minute, issue_tokens,
}
use tsa_proxy.AdminAuth.Login.{token_user}

pub record TotpSetup : Type 0 where
  pub secret : String
  pub qr_code_url : String

unfoldable pub user_pending_key : Libraries → Uuid → RedisKey
user_pending_key lib id = pending_key (lib.codec.uuid_string id)

unfoldable pub setup_totp : Libraries → Replies → Uuid → AuthState → Outcome TotpSetup
unfolding user_pending_key redis_set
setup_totp lib r id s = elim r.totp_key [
  | none ↦ (failed, s)
  | some (secret, url) ↦ elim (redis_set r (user_pending_key lib id) secret (10 * minute) s) [
    | failed ↦ (failed, s)
    | ok s' ↦ (ok (record { secret = secret; qr_code_url = url }), s')
  ]
]

unfoldable pub save_totp : Replies → Uuid → Option String → Bool → AuthState → Outcome Unit
unfolding update_totp
save_totp r id secret enabled s = elim (update_totp r.update_fails id secret enabled s.users) [
  | failed ↦ (failed, s)
  | ok users ↦ (ok tt, record s { users = users })
]

unfoldable pub enable_totp : Libraries → Replies → Uuid → String → AuthState → Outcome Unit
unfolding user_pending_key redis_get redis_del save_totp
enable_totp lib r id code s = elim (redis_get r (user_pending_key lib id) s) [
  | failed ↦ (failed, s)
  | ok none ↦ (failed, s)
  | ok (some secret) ↦
      if not (lib.totp_validate code secret r.now)
      then (failed, s)
      else let (saved, s') = save_totp r id (some secret) true s in
        elim saved [
          | failed ↦ (failed, s')
          | ok u ↦ (ok u, redis_del r (user_pending_key lib id) s')
        ]
]

unfoldable pub admin_reset_totp : Replies → Uuid → AuthState → Outcome Unit
unfolding save_totp
admin_reset_totp r id s = save_totp r id none false s

unfoldable pub setup_totp_with_token : Libraries → Replies → String → AuthState → Outcome TotpSetup
unfolding token_user setup_totp
setup_totp_with_token lib r setup_token s = elim (token_user lib r (setup_key setup_token) s) [
  | none ↦ (failed, s)
  | some user ↦ setup_totp lib r user.id s
]

unfoldable pub complete_totp_setup :
    Libraries → Replies → String → String → AuthState → Outcome LoginResult
unfolding token_user enable_totp redis_del issue_tokens
complete_totp_setup lib r setup_token code s = elim (token_user lib r (setup_key setup_token) s) [
  | none ↦ (failed, s)
  | some user ↦
      let (enabled, s') = enable_totp lib r user.id code s in
      elim enabled [
        | failed ↦ (failed, s')
        | ok u ↦ issue_tokens lib r user "" (redis_del r (setup_key setup_token) s')
      ]
]
