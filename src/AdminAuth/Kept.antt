-- ===== src/AdminAuth/Kept.antt =====
-- Each call of the session endpoints keeps what the entries of Redis stand for.
use mathlib.Core.List.{Memᴰ}
use mathlib.Core.Option.{some-injective}
use tsa_proxy.Common.{
  String, ◌≡◌, refl, sym, Bool, true, Option, none, some, List, Option-cases, inl, inr, if-holds,
  str_eq, length, ◌==◌, ◌||◌,
}
use tsa_proxy.ApiError.{
  Result, ok, failed, Answer, Result-cases, refuse, err_internal, err_admin_unauthorized,
}
use tsa_proxy.Model.{Uuid}
use tsa_proxy.Auth.{Bytes}
use tsa_proxy.AdminUsers.{AdminUser, find_by_id}
use tsa_proxy.AdminAuth.{refresh_key, AuthState, Libraries, Replies, Outcome, LoginResult}
use tsa_proxy.AdminAuth.Admin.{AdminContext, get_admin_user_id}
use tsa_proxy.AdminAuth.Login.{login, verify_totp, refresh, logout}
use tsa_proxy.AdminAuth.Setup.{
  TotpSetup, setup_totp, enable_totp, setup_totp_with_token, complete_totp_setup,
}
use tsa_proxy.AdminAuth.Http.{
  AuthBody, plain, reject, Handled, login_replied, setup_replied, enable_replied, handle_login,
  handle_verify_totp, handle_complete_totp_setup, handle_setup_totp, handle_setup_totp_for_login,
  handle_enable_totp, handle_logout, handle_refresh, handle_me,
}
use tsa_proxy.AdminAuth.Store.{
  Fact, password_ok, code_ok, Has, AreBacked, AreBacked-redis_del, AreBacked-note, note,
}
use tsa_proxy.AdminAuth.Steps.{
  login-IsKept, verify_totp-IsKept, complete_totp_setup-IsKept, setup_totp-IsKept,
  setup_totp_with_token-IsKept, enable_totp-IsKept,
}
use tsa_proxy.AdminAuth.Sessions.{
  AuthCall, call_login, call_verify, call_setup, call_enable, call_setup_for_login, call_complete,
  call_refresh, call_logout, call_me, users_edited, after_call, fact_login, fact_code, fact_verify,
  fact_complete, fact_of,
}

pub login_replied-state : (o : Outcome LoginResult) → (login_replied o).1 ≡ o.1
unfolding login_replied reject
login_replied-state (failed, s) = refl
login_replied-state (ok l, s) = refl

pub enable_replied-state : (o : Outcome Unit) → (enable_replied o).1 ≡ o.1
unfolding enable_replied reject plain
enable_replied-state (failed, s) = refl
enable_replied-state (ok u, s) = refl

pub setup_replied-state :
    (flag : Option Bool) (bad : Answer AuthBody) (done : Result TotpSetup) (s : AuthState)
    → (setup_replied flag bad done s).1 ≡ s
unfolding setup_replied plain
setup_replied-state flag bad failed s = refl
setup_replied-state flag bad (ok setup) s = refl

Has-first : (f : Fact) (o : Option Fact) (past : List Fact) → o ≡ some f → Has f (note o past)
unfolding note
Has-first f none past h = cc
Has-first f (some g) past h = Memᴰ.head (sym (some-injective _ _ h))

module _ (lib : Libraries)
    (ids : (u : Uuid) → lib.codec.uuid_parse (lib.codec.uuid_string u) ≡ some u) (r : Replies)
    (s : AuthState) (past : List Fact) where
  abbrev Kept : Option Fact → Handled → Type 0
  Kept f h = AreBacked lib.codec (note f past) h.1

  login-Kept :
      (ip : String) (body : String × Bytes)
      → AreBacked lib.codec past s
      → Kept (fact_login lib r body s) (handle_login lib r ip (some body) s)
  unfolding handle_login fact_login plain
  login-Kept ip (username, password) inv =
      let fact = fact_login lib r (username, password) s in
      let inv' = AreBacked-note lib.codec fact past s inv in
      if-holds (Kept fact) (str_eq username "" || (length password == 0)) _ _ inv' (
        rw (login_replied-state (login lib r username password ip s)) (
          login-IsKept lib ids (note fact past) r username password ip s
            (λ user e v. Has-first (password_ok user.id) fact past (rw (fact_login, e) (rw v refl)))
            inv'))

  fact_code-some :
      (user : AdminUser) (code secret : String) (o : Option String)
      → o ≡ some secret
      → lib.totp_validate code secret r.now ≡ true
      → fact_code lib r user code o ≡ some (code_ok user.id)
  unfolding fact_code
  fact_code-some user code secret o e v = rw (e, fact_code, v) refl

  verify-Kept :
      (body : String × String)
      → AreBacked lib.codec past s
      → Kept (fact_verify lib r body s) (handle_verify_totp lib r (some body) s)
  unfolding handle_verify_totp fact_verify plain
  verify-Kept (t, code) inv =
      let fact = fact_verify lib r (t, code) s in
      let inv' = AreBacked-note lib.codec fact past s inv in
      if-holds (Kept fact) (str_eq t "" || str_eq code "") _ _ inv' (
        rw (login_replied-state (verify_totp lib r t code s)) (
          verify_totp-IsKept lib ids (note fact past) r t code s
            (λ user secret e f v.
              Has-first (code_ok user.id) fact past
                (rw (fact_verify, e) (fact_code-some user code secret user.totp_secret f v)))
            inv'))

  complete-Kept :
      (body : String × String)
      → AreBacked lib.codec past s
      → Kept (fact_complete lib r body s) (handle_complete_totp_setup lib r (some body) s)
  unfolding handle_complete_totp_setup fact_complete plain
  complete-Kept (t, code) inv =
      let fact = fact_complete lib r (t, code) s in
      let inv' = AreBacked-note lib.codec fact past s inv in
      if-holds (Kept fact) (str_eq t "" || str_eq code "") _ _ inv' (
        rw (login_replied-state (complete_totp_setup lib r t code s)) (
          complete_totp_setup-IsKept lib ids (note fact past) r t code s
            (λ user secret e g v.
              Has-first (code_ok user.id) fact past (
                rw (fact_complete, e)
                  (rw g (fact_code-some user code secret (some secret) refl v))))
            inv'))

  setup-Kept :
      (c : AdminContext) → AreBacked lib.codec past s → Kept none (handle_setup_totp lib r c s)
  unfolding handle_setup_totp reject note
  setup-Kept c inv = elim (Option-cases (get_admin_user_id c)) [
    | inl e ↦ rw (handle_setup_totp, e) inv
    | inr (id, e) ↦ elim (Result-cases (find_by_id r.user_reads id s.users)) [
      | inl f ↦ rw (handle_setup_totp, e) (rw f inv)
      | inr (none, f) ↦ rw (handle_setup_totp, e) (rw f inv)
      | inr (some user, f) ↦
          rw (handle_setup_totp, e)
            (rw f (
              rw
                (setup_replied-state (some user.totp_enabled) (refuse err_internal)
                  (setup_totp lib r id s).0 (setup_totp lib r id s).1)
                (setup_totp-IsKept lib ids past r id s inv)))
    ]
  ]

  setup_for_login-Kept :
      (body : Option String)
      → AreBacked lib.codec past s
      → Kept none (handle_setup_totp_for_login lib r body s)
  unfolding handle_setup_totp_for_login plain note
  setup_for_login-Kept none inv = inv
  setup_for_login-Kept (some t) inv = if-holds (Kept none) (str_eq t "") _ _ inv (
      rw
        (setup_replied-state none (refuse err_admin_unauthorized)
          (setup_totp_with_token lib r t s).0 (setup_totp_with_token lib r t s).1)
        (setup_totp_with_token-IsKept lib ids past r t s inv))

  enable-Kept :
      (c : AdminContext) (body : Option String)
      → AreBacked lib.codec past s
      → Kept none (handle_enable_totp lib r c body s)
  unfolding handle_enable_totp reject plain note
  enable-Kept c none inv = elim (Option-cases (get_admin_user_id c)) [
    | inl e ↦ rw (handle_enable_totp, e) inv
    | inr (id, e) ↦ rw (handle_enable_totp, e) inv
  ]
  enable-Kept c (some code) inv = elim (Option-cases (get_admin_user_id c)) [
    | inl e ↦ rw (handle_enable_totp, e) inv
    | inr (id, e) ↦
        rw (handle_enable_totp, e)
          (if-holds (Kept none) (str_eq code "") _ _ inv (
            rw (enable_replied-state (enable_totp lib r id code s))
              (enable_totp-IsKept lib ids past r id code s inv)))
  ]

  refresh-Kept :
      (cookie : Option String)
      → AreBacked lib.codec past s
      → Kept none (handle_refresh lib r cookie s)
  unfolding handle_refresh reject plain note
  refresh-Kept none inv = inv
  refresh-Kept (some t) inv =
      if-holds (Kept none) (str_eq t "") _ _ inv
        (elim (Result-cases (refresh lib r t s)) [ inl e ↦ rw e inv | inr (access, e) ↦ rw e inv ])

  logout-Kept :
      (cookie : Option String) → AreBacked lib.codec past s → Kept none (handle_logout r cookie s)
  unfolding handle_logout note logout
  logout-Kept none inv = inv
  logout-Kept (some t) inv =
      if-holds (AreBacked lib.codec past) (str_eq t "") s _ inv
        (AreBacked-redis_del lib.codec past r (refresh_key t) s inv)

  me-Kept :
      (fails : Bool) (c : AdminContext)
      → AreBacked lib.codec past s
      → Kept none (handle_me r fails c s)
  unfolding handle_me reject plain note
  me-Kept fails c inv = elim (Option-cases (get_admin_user_id c)) [
    | inl e ↦ rw (handle_me, e) inv
    | inr (id, e) ↦ elim (Result-cases (find_by_id r.user_reads id s.users)) [
      | inl f ↦ rw (handle_me, e) (rw f inv)
      | inr (none, f) ↦ rw (handle_me, e) (rw f inv)
      | inr (some user, f) ↦ rw (handle_me, e) (rw f inv)
    ]
  ]

  pub after_call-AreBacked :
      (call : AuthCall)
      → AreBacked lib.codec past s
      → AreBacked lib.codec (note (fact_of lib r call s) past) (after_call lib r call s)
  unfolding after_call fact_of handle_login handle_verify_totp handle_complete_totp_setup plain note
  after_call-AreBacked (call_login ip none) inv = inv
  after_call-AreBacked (call_login ip (some body)) inv = login-Kept ip body inv
  after_call-AreBacked (call_verify none) inv = inv
  after_call-AreBacked (call_verify (some body)) inv = verify-Kept body inv
  after_call-AreBacked (call_setup c) inv = setup-Kept c inv
  after_call-AreBacked (call_enable c body) inv = enable-Kept c body inv
  after_call-AreBacked (call_setup_for_login body) inv = setup_for_login-Kept body inv
  after_call-AreBacked (call_complete none) inv = inv
  after_call-AreBacked (call_complete (some body)) inv = complete-Kept body inv
  after_call-AreBacked (call_refresh cookie) inv = refresh-Kept cookie inv
  after_call-AreBacked (call_logout cookie) inv = logout-Kept cookie inv
  after_call-AreBacked (call_me fails c) inv = me-Kept fails c inv
  after_call-AreBacked (users_edited users) inv = inv
