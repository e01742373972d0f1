-- ===== src/AdminAuth/Steps.antt =====
-- Each step of a session keeps what the entries of Redis stand for.
use tsa_proxy.Common.{
  String, ◌*◌, ◌≡◌, refl, Bool, true, not, Option, none, some, List, Bool-cases, Option-cases, inl,
  inr, if-holds, str_eq,
}
use tsa_proxy.ApiError.{Result, ok, failed, Result-cases}
use tsa_proxy.Model.{Uuid}
use tsa_proxy.Auth.{Bytes}
use tsa_proxy.Password.{verify_argon2id}
use tsa_proxy.AdminUsers.{AdminUser, find_by_username, update_totp}
use tsa_proxy.AdminAuth.{
  refresh_key, mfa_key, setup_key, AuthState, Libraries, Replies, LoginResult, totp_required,
  totp_setup_required, redis_get, redis_del, redis_set, minute, update_login_info,
  generate_access_token, generate_mfa_token, generate_setup_token, generate_refresh_token,
  issue_tokens,
}
use tsa_proxy.AdminAuth.Login.{
  login_reply, login_second, login, token_user, check_code, verify_code, verify_totp,
}
use tsa_proxy.AdminAuth.Setup.{
  user_pending_key, setup_totp, save_totp, enable_totp, setup_totp_with_token, complete_totp_setup,
}
use tsa_proxy.AdminAuth.Store.{
  Fact, password_ok, code_ok, Has, IsBackedFor, AreBacked, AreBacked-redis_del, AreBacked-redis_set,
  AreBacked-store_token,
}
use tsa_proxy.AdminAuth.Proven.{token_user-IsBacked}

module _ (lib : Libraries)
    (ids : (u : Uuid) → lib.codec.uuid_parse (lib.codec.uuid_string u) ≡ some u) (past : List Fact)
    (r : Replies) where
  abbrev pub IsKept : {A : Type 0} → Result A × AuthState → Type 0
  IsKept o = AreBacked lib.codec past o.1

  AreBacked-update_login_info :
      (ip : String) (u : AdminUser) (s : AuthState)
      → AreBacked lib.codec past s
      → AreBacked lib.codec past (update_login_info ip u s)
  unfolding update_login_info
  AreBacked-update_login_info ip u s inv =
      if-holds (AreBacked lib.codec past) (str_eq ip "") _ _ inv inv

  pub issue_tokens-IsKept :
      (user : AdminUser) (ip : String) (s : AuthState)
      → IsBackedFor past (refresh_key "") user.id
      → AreBacked lib.codec past s
      → IsKept (issue_tokens lib r user ip s)
  unfolding issue_tokens generate_refresh_token
  issue_tokens-IsKept user ip s backed inv =
      elim (Option-cases (generate_access_token lib r user)) [
        | inl e ↦ rw (issue_tokens, e) inv
        | inr (access, e) ↦ elim (Result-cases (generate_refresh_token lib r user.id s)) [
          | inl f ↦ rw (issue_tokens, e) (rw f inv)
          | inr ((t, s'), f) ↦
              rw (issue_tokens, e)
                (rw f (
                  AreBacked-update_login_info ip user s' (
                    AreBacked-store_token past lib r refresh_key lib.refresh_ttl user.id s s' t
                      (ids user.id) (λ t. backed) inv f)))
        ]
      ]

  login_reply-IsKept :
      (f : String → LoginResult) (made : Result (String × AuthState)) (s : AuthState)
      → AreBacked lib.codec past s
      → ((t : String) (s' : AuthState) → made ≡ ok (t, s') → AreBacked lib.codec past s')
      → IsKept (login_reply f made s)
  unfolding login_reply
  login_reply-IsKept f failed s inv stored = inv
  login_reply-IsKept f (ok (t, s')) s inv stored = stored t s' refl

  pub login_second-IsKept :
      (user : AdminUser) (s : AuthState)
      → Has (password_ok user.id) past
      → AreBacked lib.codec past s
      → IsKept (login_second lib r user s)
  unfolding login_second generate_mfa_token generate_setup_token
  login_second-IsKept user s proven inv =
      if-holds IsKept user.totp_enabled _ _
        (login_reply-IsKept totp_required (generate_mfa_token lib r user.id s) s inv (λ t s'.
          AreBacked-store_token past lib r mfa_key (5 * minute) user.id s s' t (ids user.id)
            (λ t. proven) inv))
        (login_reply-IsKept totp_setup_required (generate_setup_token lib r user.id s) s inv
          (λ t s'.
            AreBacked-store_token past lib r setup_key (15 * minute) user.id s s' t (ids user.id)
              (λ t. proven) inv))

  pub setup_totp-IsKept :
      (id : Uuid) (s : AuthState) → AreBacked lib.codec past s → IsKept (setup_totp lib r id s)
  unfolding setup_totp user_pending_key
  setup_totp-IsKept id s inv = elim (Option-cases r.totp_key) [
    | inl e ↦ rw (setup_totp, e) inv
    | inr ((secret, url), e) ↦
        elim (Result-cases (redis_set r (user_pending_key lib id) secret (10 * minute) s)) [
          | inl f ↦ rw (setup_totp, e) (rw f inv)
          | inr (s', f) ↦
              rw (setup_totp, e)
                (rw f (
                  AreBacked-redis_set lib.codec past r (user_pending_key lib id) secret
                    (10 * minute) s s' (λ id p. tt) inv f))
        ]
  ]

  pub save_totp-IsKept :
      (id : Uuid) (secret : Option String) (enabled : Bool) (s : AuthState)
      → AreBacked lib.codec past s
      → IsKept (save_totp r id secret enabled s)
  unfolding save_totp
  save_totp-IsKept id secret enabled s inv =
      elim (Result-cases (update_totp r.update_fails id secret enabled s.users)) [
        | inl e ↦ rw (save_totp, e) inv
        | inr (users, e) ↦ rw (save_totp, e) inv
      ]

  pub setup_totp_with_token-IsKept :
      (t : String) (s : AuthState)
      → AreBacked lib.codec past s
      → IsKept (setup_totp_with_token lib r t s)
  unfolding setup_totp_with_token
  setup_totp_with_token-IsKept t s inv = elim (Option-cases (token_user lib r (setup_key t) s)) [
    | inl e ↦ rw (setup_totp_with_token, e) inv
    | inr (user, e) ↦ rw (setup_totp_with_token, e) (setup_totp-IsKept user.id s inv)
  ]

  pub enable_totp-IsKept :
      (id : Uuid) (code : String) (s : AuthState)
      → AreBacked lib.codec past s
      → IsKept (enable_totp lib r id code s)
  unfolding enable_totp
  enable_totp-IsKept id code s inv = elim (Result-cases (redis_get r (user_pending_key lib id) s)) [
    | inl e ↦ rw (enable_totp, e) inv
    | inr (none, e) ↦ rw (enable_totp, e) inv
    | inr (some secret, e) ↦
        rw (enable_totp, e)
          (if-holds IsKept (not (lib.totp_validate code secret r.now)) _ _ inv (
            let kept = save_totp-IsKept id (some secret) true s inv in
            elim (Result-cases (save_totp r id (some secret) true s).0) [
              | inl f ↦ rw f kept
              | inr (u, f) ↦
                  rw f (AreBacked-redis_del lib.codec past r (user_pending_key lib id) _ kept)
            ]))
  ]

  pub login-IsKept :
      (username : String) (password : Bytes) (ip : String) (s : AuthState)
      → ((user : AdminUser)
          → find_by_username r.user_reads username s.users ≡ ok (some user)
          → verify_argon2id lib.argon user.password_hash password ≡ true
          → Has (password_ok user.id) past)
      → AreBacked lib.codec past s
      → IsKept (login lib r username password ip s)
  unfolding login
  login-IsKept username password ip s proven inv =
      elim (Result-cases (find_by_username r.user_reads username s.users)) [
        | inl e ↦ rw (login, e) inv
        | inr (none, e) ↦ rw (login, e) inv
        | inr (some user, e) ↦
            rw (login, e)
              (if-holds IsKept (not user.is_active) _ _ inv
                (elim (Bool-cases (verify_argon2id lib.argon user.password_hash password)) [
                  | inl v ↦ rw v (login_second-IsKept user s (proven user e v) inv)
                  | inr v ↦ rw v inv
                ]))
      ]

  check_code-IsKept :
      (user : AdminUser) (t code secret : String) (s : AuthState)
      → Has (password_ok user.id) past
      → (lib.totp_validate code secret r.now ≡ true → Has (code_ok user.id) past)
      → AreBacked lib.codec past s
      → IsKept (check_code lib r user t code secret s)
  unfolding check_code
  check_code-IsKept user t code secret s known proven inv =
      elim (Bool-cases (lib.totp_validate code secret r.now)) [
        | inl v ↦
            rw (check_code, v)
              (issue_tokens-IsKept user "" (redis_del r (mfa_key t) s) (known, proven v)
                (AreBacked-redis_del lib.codec past r (mfa_key t) s inv))
        | inr v ↦ rw (check_code, v) inv
      ]

  -- A valid code takes a user from a password to a session.
  pub verify_totp-IsKept :
      (t code : String) (s : AuthState)
      → ((user : AdminUser) (secret : String)
          → token_user lib r (mfa_key t) s ≡ some user
          → user.totp_secret ≡ some secret
          → lib.totp_validate code secret r.now ≡ true
          → Has (code_ok user.id) past)
      → AreBacked lib.codec past s
      → IsKept (verify_totp lib r t code s)
  unfolding verify_totp verify_code
  verify_totp-IsKept t code s proven inv = elim (Option-cases (token_user lib r (mfa_key t) s)) [
    | inl e ↦ rw (verify_totp, e) inv
    | inr (user, e) ↦
        let known = token_user-IsBacked past lib r (mfa_key t) s user inv e in
        rw (verify_totp, e)
          (elim (Option-cases user.totp_secret) [
            | inl f ↦ simp (verify_code, f) inv
            | inr (secret, f) ↦
                simp (verify_code, f)
                  (check_code-IsKept user t code secret s known (proven user secret e f) inv)
          ])
  ]

  -- An activated code is one that was valid for the pending secret.
  enable_totp-valid :
      (id : Uuid) (code : String) (s : AuthState) (u : Unit)
      → (enable_totp lib r id code s).0 ≡ ok u
      → (secret : String) × ((redis_get r (user_pending_key lib id) s ≡ ok (some secret))
          × (lib.totp_validate code secret r.now ≡ true))
  unfolding enable_totp
  enable_totp-valid id code s u h = elim (Result-cases (redis_get r (user_pending_key lib id) s)) [
    | inl e ↦ let h' = (rw (enable_totp, e) at h) in cc
    | inr (none, e) ↦ let h' = (rw (enable_totp, e) at h) in cc
    | inr (some secret, e) ↦
        let h' = (rw (enable_totp, e) at h) in
        elim (Bool-cases (lib.totp_validate code secret r.now)) [
          | inl v ↦ (secret, (e, v))
          | inr v ↦ let h'' = (rw v at h') in cc
        ]
  ]

  pub complete_totp_setup-IsKept :
      (t code : String) (s : AuthState)
      → ((user : AdminUser) (secret : String)
          → token_user lib r (setup_key t) s ≡ some user
          → redis_get r (user_pending_key lib user.id) s ≡ ok (some secret)
          → lib.totp_validate code secret r.now ≡ true
          → Has (code_ok user.id) past)
      → AreBacked lib.codec past s
      → IsKept (complete_totp_setup lib r t code s)
  unfolding complete_totp_setup
  complete_totp_setup-IsKept t code s proven inv =
      elim (Option-cases (token_user lib r (setup_key t) s)) [
        | inl e ↦ rw (complete_totp_setup, e) inv
        | inr (user, e) ↦
            let known = token_user-IsBacked past lib r (setup_key t) s user inv e in
            let kept = enable_totp-IsKept user.id code s inv in
            rw (complete_totp_setup, e)
              (elim (Result-cases (enable_totp lib r user.id code s).0) [
                | inl f ↦ rw f kept
                | inr (u, f) ↦
                    let (secret, (g, v)) = enable_totp-valid user.id code s u f in
                    rw f (
                      issue_tokens-IsKept user "" (redis_del r (setup_key t) _)
                        (known, proven user secret e g v)
                        (AreBacked-redis_del lib.codec past r (setup_key t) _ kept))
              ])
      ]
