-- ===== src/AdminAuth/Spent/Calls.antt =====
-- Runs of calls of the session endpoints after a token was exchanged for a session.
use tsa_proxy.Common.{
  String, Bool, ◌≡◌, refl, false, Option, none, some, List, [], ◌∷◌, All, Option-cases, inl, inr,
  if-holds, str_eq, length, ◌==◌, ◌||◌,
}
use tsa_proxy.ApiError.{ok, failed, Result-cases, refuse, err_internal, err_admin_unauthorized}
use tsa_proxy.Auth.{Bytes}
use tsa_proxy.AdminUsers.{find_by_id}
use tsa_proxy.AdminAuth.{RedisKey, refresh_key, key_eq, AuthState, Libraries, Replies, LoginResult}
use tsa_proxy.AdminAuth.Admin.{AdminContext, get_admin_user_id}
use tsa_proxy.AdminAuth.Login.{login, verify_totp, refresh, logout}
use tsa_proxy.AdminAuth.Setup.{setup_totp, enable_totp, setup_totp_with_token, complete_totp_setup}
use tsa_proxy.AdminAuth.Http.{
  plain, reject, Handled, handle_login, handle_verify_totp, handle_complete_totp_setup,
  handle_setup_totp, handle_setup_totp_for_login, handle_enable_totp, handle_logout, handle_refresh,
  handle_me,
}
use tsa_proxy.AdminAuth.Store.{Fact, note}
use tsa_proxy.AdminAuth.Kept.{login_replied-state, enable_replied-state, setup_replied-state}
use tsa_proxy.AdminAuth.Sessions.{
  AuthCall, call_login, call_verify, call_setup, call_enable, call_setup_for_login, call_complete,
  call_refresh, call_logout, call_me, users_edited, after_call, fact_of, run_calls,
}
use tsa_proxy.AdminAuth.SingleUse.{
  SecondStep, by_code, by_setup, step_key, second_step, step_gone, step_refused,
}
use tsa_proxy.AdminAuth.Spent.{
  IsApart, redis_del-IsGone, login-IsGone, verify_totp-IsGone, setup_totp-IsGone,
  enable_totp-IsGone, setup_with_token-IsGone, complete-IsGone,
}

module _ (k : RedisKey) (lib : Libraries) (r : Replies) (apart : IsApart k r) (s : AuthState)
    (gone : s.redis k ≡ none) where
  abbrev Leaves : Handled → Type 0
  Leaves h = h.1.redis k ≡ none

  handle_login-Leaves :
      (ip : String) (body : Option (String × Bytes)) → Leaves (handle_login lib r ip body s)
  unfolding handle_login plain
  handle_login-Leaves ip none = gone
  handle_login-Leaves ip (some (username, password)) =
      if-holds Leaves (str_eq username "" || (length password == 0)) _ _ gone (
        rw (login_replied-state (login lib r username password ip s))
          (login-IsGone k lib r apart username password ip s gone))

  handle_verify-Leaves :
      (body : Option (String × String)) → Leaves (handle_verify_totp lib r body s)
  unfolding handle_verify_totp plain
  handle_verify-Leaves none = gone
  handle_verify-Leaves (some (t, code)) = if-holds Leaves (str_eq t "" || str_eq code "") _ _ gone (
      rw (login_replied-state (verify_totp lib r t code s))
        (verify_totp-IsGone k lib r apart t code s gone))

  handle_complete-Leaves :
      (body : Option (String × String)) → Leaves (handle_complete_totp_setup lib r body s)
  unfolding handle_complete_totp_setup plain
  handle_complete-Leaves none = gone
  handle_complete-Leaves (some (t, code)) =
      if-holds Leaves (str_eq t "" || str_eq code "") _ _ gone (
        rw (login_replied-state (complete_totp_setup lib r t code s))
          (complete-IsGone k lib r apart t code s gone))

  handle_setup-Leaves : (c : AdminContext) → Leaves (handle_setup_totp lib r c s)
  unfolding handle_setup_totp reject
  handle_setup-Leaves c = elim (Option-cases (get_admin_user_id c)) [
    | inl e ↦ rw (handle_setup_totp, e) gone
    | inr (id, e) ↦ elim (Result-cases (find_by_id r.user_reads id s.users)) [
      | inl f ↦ rw (handle_setup_totp, e) (rw f gone)
      | inr (none, f) ↦ rw (handle_setup_totp, e) (rw f gone)
      | inr (some user, f) ↦
          rw (handle_setup_totp, e)
            (rw f (
              rw
                (setup_replied-state (some user.totp_enabled) (refuse err_internal)
                  (setup_totp lib r id s).0 (setup_totp lib r id s).1)
                (setup_totp-IsGone k lib r apart id s gone)))
    ]
  ]

  handle_setup_for_login-Leaves :
      (body : Option String) → Leaves (handle_setup_totp_for_login lib r body s)
  unfolding handle_setup_totp_for_login plain
  handle_setup_for_login-Leaves none = gone
  handle_setup_for_login-Leaves (some t) = if-holds Leaves (str_eq t "") _ _ gone (
      rw
        (setup_replied-state none (refuse err_admin_unauthorized)
          (setup_totp_with_token lib r t s).0 (setup_totp_with_token lib r t s).1)
        (setup_with_token-IsGone k lib r apart t s gone))

  handle_enable-Leaves :
      (c : AdminContext) (body : Option String) → Leaves (handle_enable_totp lib r c body s)
  unfolding handle_enable_totp reject plain
  handle_enable-Leaves c none = elim (Option-cases (get_admin_user_id c)) [
    | inl e ↦ rw (handle_enable_totp, e) gone
    | inr (id, e) ↦ rw (handle_enable_totp, e) gone
  ]
  handle_enable-Leaves c (some code) = elim (Option-cases (get_admin_user_id c)) [
    | inl e ↦ rw (handle_enable_totp, e) gone
    | inr (id, e) ↦
        rw (handle_enable_totp, e)
          (if-holds Leaves (str_eq code "") _ _ gone (
            rw (enable_replied-state (enable_totp lib r id code s))
              (enable_totp-IsGone k lib r apart id code s gone)))
  ]

  handle_refresh-Leaves : (cookie : Option String) → Leaves (handle_refresh lib r cookie s)
  unfolding handle_refresh reject plain
  handle_refresh-Leaves none = gone
  handle_refresh-Leaves (some t) =
      if-holds Leaves (str_eq t "") _ _ gone (elim (Result-cases (refresh lib r t s)) [
        | inl e ↦ rw e gone
        | inr (access, e) ↦ rw e gone
      ])

  handle_logout-Leaves : (cookie : Option String) → Leaves (handle_logout r cookie s)
  unfolding handle_logout logout
  handle_logout-Leaves none = gone
  handle_logout-Leaves (some t) =
      if-holds (λ (u : AuthState). u.redis k ≡ none) (str_eq t "") s _ gone
        (redis_del-IsGone k lib r apart (refresh_key t) s gone)

  handle_me-Leaves : (fails : Bool) (c : AdminContext) → Leaves (handle_me r fails c s)
  unfolding handle_me reject plain
  handle_me-Leaves fails c = elim (Option-cases (get_admin_user_id c)) [
    | inl e ↦ rw (handle_me, e) gone
    | inr (id, e) ↦ elim (Result-cases (find_by_id r.user_reads id s.users)) [
      | inl f ↦ rw (handle_me, e) (rw f gone)
      | inr (none, f) ↦ rw (handle_me, e) (rw f gone)
      | inr (some user, f) ↦ rw (handle_me, e) (rw f gone)
    ]
  ]

  after_call-gone : (call : AuthCall) → (after_call lib r call s).redis k ≡ none
  unfolding after_call
  after_call-gone (call_login ip body) = handle_login-Leaves ip body
  after_call-gone (call_verify body) = handle_verify-Leaves body
  after_call-gone (call_setup c) = handle_setup-Leaves c
  after_call-gone (call_enable c body) = handle_enable-Leaves c body
  after_call-gone (call_setup_for_login body) = handle_setup_for_login-Leaves body
  after_call-gone (call_complete body) = handle_complete-Leaves body
  after_call-gone (call_refresh cookie) = handle_refresh-Leaves cookie
  after_call-gone (call_logout cookie) = handle_logout-Leaves cookie
  after_call-gone (call_me fails c) = handle_me-Leaves fails c
  after_call-gone (users_edited users) = gone

-- The request does not draw the token anew.
abbrev pub IsFresh : String → Replies → Type 0
IsFresh t r = (drawn : String) → r.draw ≡ some drawn → str_eq t drawn ≡ false

step_key-IsApart :
    (step : SecondStep) (t : String) (r : Replies) → IsFresh t r → IsApart (step_key step t) r
unfolding key_eq
step_key-IsApart by_code t r fresh = record {
  refresh_apart = λ u. refl;
  pending_apart = λ u. refl;
  mfa_apart = fresh;
  setup_apart = λ u e. refl;
}
step_key-IsApart by_setup t r fresh = record {
  refresh_apart = λ u. refl;
  pending_apart = λ u. refl;
  mfa_apart = λ u e. refl;
  setup_apart = fresh;
}

run_calls-gone :
    (step : SecondStep) (t : String) (lib : Libraries) (calls : List (Replies × AuthCall))
    → All (λ c. IsFresh t c.0) calls
    → (past : List Fact) (s : AuthState) → s.redis (step_key step t) ≡ none
    → (run_calls lib calls past s).1.redis (step_key step t) ≡ none
unfolding run_calls
run_calls-gone step t lib [] fresh past s gone = gone
run_calls-gone step t lib ((r, call) ∷ calls) (fresh, more) past s gone =
    run_calls-gone step t lib calls more (note (fact_of lib r call s) past)
      (after_call lib r call s)
      (after_call-gone (step_key step t) lib r (step_key-IsApart step t r fresh) s gone call)

-- Where a token was exchanged for a session and Redis deleted it, the token is refused from then on:
-- after any calls of the session endpoints, whatever failed in them, none of which draws the same
-- token anew, it is refused with any code and with nothing changed.
pub second_step_once :
    (step : SecondStep) (lib : Libraries) (r : Replies) (t code : String) (s : AuthState)
    (l : LoginResult)
    → r.del_fails (step_key step t) ≡ false
    → (second_step step lib r t code s).0 ≡ ok l
    → (calls : List (Replies × AuthCall)) → All (λ c. IsFresh t c.0) calls
    → (past : List Fact) (r' : Replies) (code' : String)
    → let s' = (run_calls lib calls past (second_step step lib r t code s).1).1 in
      second_step step lib r' t code' s' ≡ (failed, s')
second_step_once step lib r t code s l up h calls fresh past r' code' =
    step_refused step lib r' t code' _
      (run_calls-gone step t lib calls fresh past _ (step_gone step lib r t code s l up h))
