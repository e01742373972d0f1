-- ===== src/AdminAuth/Spent.antt =====
-- What the calls of the session endpoints do to the entry of a token that was exchanged: nothing
-- brings it back but a draw of the same token.
pub mod Calls
use tsa_proxy.Common.{
  String, ◌≡◌, refl, sym, ap, ◌∙◌, Bool, true, false, Option, none, some, List, [], ◌∷◌, All,
  Bool-cases, Option-cases, inl, inr, if-holds, str_eq, length, ◌==◌, ◌||◌, not, ◌*◌,
}
use tsa_proxy.ApiError.{
  Result, ok, failed, Result-cases, ok-injective, refuse, err_internal, err_admin_unauthorized,
}
use tsa_proxy.Model.{Uuid, Time}
use tsa_proxy.Auth.{Bytes}
use tsa_proxy.Password.{verify_argon2id}
use tsa_proxy.AdminUsers.{AdminUser, find_by_id, find_by_username, update_totp}
use tsa_proxy.AdminAuth.{
  RedisKey, refresh_key, mfa_key, setup_key, pending_key, key_eq, AuthState, Libraries, Replies,
  LoginResult, totp_required, totp_setup_required, put, redis_get, redis_set, redis_del, minute,
  store_token, generate_mfa_token, generate_setup_token, issue_tokens,
}
use tsa_proxy.AdminAuth.Admin.{AdminContext, get_admin_user_id}
use tsa_proxy.AdminAuth.Login.{
  login_reply, login_second, login, token_user, check_code, verify_code, verify_totp, refresh,
  logout,
}
use tsa_proxy.AdminAuth.Setup.{
  user_pending_key, setup_totp, save_totp, enable_totp, setup_totp_with_token, complete_totp_setup,
}
use tsa_proxy.AdminAuth.SingleUse.{issue_tokens_other}

-- A key of a token of the second step, and what a request may draw without bringing it back.
pub record IsApart (k : RedisKey) (r : Replies) : Type 0 where
  pub refresh_apart : (t : String) → key_eq k (refresh_key t) ≡ false
  pub pending_apart : (t : String) → key_eq k (pending_key t) ≡ false
  pub mfa_apart : (t : String) → r.draw ≡ some t → key_eq k (mfa_key t) ≡ false
  pub setup_apart : (t : String) → r.draw ≡ some t → key_eq k (setup_key t) ≡ false

module _ (k : RedisKey) (lib : Libraries) (r : Replies) (apart : IsApart k r) where
  abbrev pub IsGone : AuthState → Type 0
  IsGone s = s.redis k ≡ none

  abbrev pub LeavesGone : {A : Type 0} → A × AuthState → Type 0
  LeavesGone o = IsGone o.1

  pub redis_del-IsGone : (j : RedisKey) (s : AuthState) → IsGone s → IsGone (redis_del r j s)
  unfolding redis_del put
  redis_del-IsGone j s gone =
      if-holds IsGone (r.del_fails j) _ _ gone
        (if-holds (λ e. e ≡ none) (key_eq k j) none (s.redis k) refl gone)

  redis_set-IsGone :
      (j : RedisKey) (v : String) (ttl : Time) (s s' : AuthState)
      → key_eq k j ≡ false
      → redis_set r j v ttl s ≡ ok s'
      → IsGone s
      → IsGone s'
  unfolding redis_set put
  redis_set-IsGone j v ttl s s' other h gone = elim (Bool-cases (r.set_fails j)) [
    | inl d ↦ let h' = (rw (redis_set, d) at h) in cc
    | inr d ↦
        let h' = (rw (redis_set, d) at h) in
        let same = ap (λ p. p.redis k) (ok-injective h') in sym same ∙ (rw other gone)
  ]

  store_token-IsGone :
      (key : String → RedisKey) (ttl : Time) (id : Uuid) (s s' : AuthState) (token : String)
      → ((t : String) → r.draw ≡ some t → key_eq k (key t) ≡ false)
      → store_token lib r key ttl id s ≡ ok (token, s')
      → IsGone s
      → IsGone s'
  unfolding store_token
  store_token-IsGone key ttl id s s' token other h gone = elim (Option-cases r.draw) [
    | inl e ↦ let h' = (rw (store_token, e) at h) in cc
    | inr (t, e) ↦
        let h' = (rw (store_token, e) at h) in
        elim (Result-cases (redis_set r (key t) (lib.codec.uuid_string id) ttl s)) [
          | inl f ↦ let h'' = (rw f at h') in cc
          | inr (u, f) ↦
              let h'' = (rw f at h') in
              let kept = redis_set-IsGone (key t) _ ttl s u (other t e) f gone in
              let same = ap (λ p. p.1.redis k) (ok-injective h'') in sym same ∙ kept
        ]
  ]

  login_reply-IsGone :
      (f : String → LoginResult) (made : Result (String × AuthState)) (s : AuthState)
      → IsGone s
      → ((t : String) (s' : AuthState) → made ≡ ok (t, s') → IsGone s')
      → LeavesGone (login_reply f made s)
  unfolding login_reply
  login_reply-IsGone f failed s gone stored = gone
  login_reply-IsGone f (ok (t, s')) s gone stored = stored t s' refl

  pub login-IsGone :
      (username : String) (password : Bytes) (ip : String) (s : AuthState)
      → IsGone s
      → LeavesGone (login lib r username password ip s)
  unfolding login login_second generate_mfa_token generate_setup_token
  login-IsGone username password ip s gone =
      elim (Result-cases (find_by_username r.user_reads username s.users)) [
        | inl e ↦ rw (login, e) gone
        | inr (none, e) ↦ rw (login, e) gone
        | inr (some user, e) ↦
            rw (login, e)
              (if-holds LeavesGone (not user.is_active) _ _ gone (
                if-holds LeavesGone (not (verify_argon2id lib.argon user.password_hash password)) _
                  _ gone
                  (if-holds LeavesGone user.totp_enabled _ _
                    (login_reply-IsGone totp_required (generate_mfa_token lib r user.id s) s gone
                      (λ t s' h.
                        store_token-IsGone mfa_key (5 * minute) user.id s s' t apart.mfa_apart h
                          gone))
                    (login_reply-IsGone totp_setup_required (generate_setup_token lib r user.id s) s
                      gone
                      (λ t s' h.
                        store_token-IsGone setup_key (15 * minute) user.id s s' t apart.setup_apart
                          h gone)))))
      ]

  issue_tokens-IsGone :
      (user : AdminUser) (s : AuthState) → IsGone s → LeavesGone (issue_tokens lib r user "" s)
  issue_tokens-IsGone user s gone = issue_tokens_other k apart.refresh_apart lib r user s ∙ gone

  pub verify_totp-IsGone :
      (t code : String) (s : AuthState) → IsGone s → LeavesGone (verify_totp lib r t code s)
  unfolding verify_totp verify_code check_code
  verify_totp-IsGone t code s gone = elim (Option-cases (token_user lib r (mfa_key t) s)) [
    | inl e ↦ rw (verify_totp, e) gone
    | inr (user, e) ↦
        rw (verify_totp, e)
          (elim (Option-cases user.totp_secret) [
            | inl f ↦ simp (verify_code, f) gone
            | inr (secret, f) ↦
                simp (verify_code, f)
                  (if-holds LeavesGone (not (lib.totp_validate code secret r.now)) _ _ gone
                    (issue_tokens-IsGone user _ (redis_del-IsGone (mfa_key t) s gone)))
          ])
  ]

  pub setup_totp-IsGone :
      (id : Uuid) (s : AuthState) → IsGone s → LeavesGone (setup_totp lib r id s)
  unfolding setup_totp user_pending_key
  setup_totp-IsGone id s gone = elim (Option-cases r.totp_key) [
    | inl e ↦ rw (setup_totp, e) gone
    | inr ((secret, url), e) ↦
        rw (setup_totp, e)
          (elim (Result-cases (redis_set r (user_pending_key lib id) secret (10 * minute) s)) [
            | inl f ↦ rw f gone
            | inr (s', f) ↦
                rw f (redis_set-IsGone _ secret (10 * minute) s s' (apart.pending_apart _) f gone)
          ])
  ]

  save_totp-IsGone :
      (id : Uuid) (secret : Option String) (enabled : Bool) (s : AuthState)
      → IsGone s
      → LeavesGone (save_totp r id secret enabled s)
  unfolding save_totp
  save_totp-IsGone id secret enabled s gone =
      elim (Result-cases (update_totp r.update_fails id secret enabled s.users)) [
        | inl e ↦ rw (save_totp, e) gone
        | inr (users, e) ↦ rw (save_totp, e) gone
      ]

  pub enable_totp-IsGone :
      (id : Uuid) (code : String) (s : AuthState)
      → IsGone s
      → LeavesGone (enable_totp lib r id code s)
  unfolding enable_totp
  enable_totp-IsGone id code s gone =
      elim (Result-cases (redis_get r (user_pending_key lib id) s)) [
        | inl e ↦ rw (enable_totp, e) gone
        | inr (none, e) ↦ rw (enable_totp, e) gone
        | inr (some secret, e) ↦
            let saved = save_totp-IsGone id (some secret) true s gone in
            rw (enable_totp, e)
              (if-holds LeavesGone (not (lib.totp_validate code secret r.now)) _ _ gone
                (elim (Result-cases (save_totp r id (some secret) true s).0) [
                  | inl f ↦ rw f saved
                  | inr (u, f) ↦ rw f (redis_del-IsGone _ _ saved)
                ]))
      ]

  pub setup_with_token-IsGone :
      (t : String) (s : AuthState) → IsGone s → LeavesGone (setup_totp_with_token lib r t s)
  unfolding setup_totp_with_token
  setup_with_token-IsGone t s gone = elim (Option-cases (token_user lib r (setup_key t) s)) [
    | inl e ↦ rw (setup_totp_with_token, e) gone
    | inr (user, e) ↦ rw (setup_totp_with_token, e) (setup_totp-IsGone user.id s gone)
  ]

  pub complete-IsGone :
      (t code : String) (s : AuthState) → IsGone s → LeavesGone (complete_totp_setup lib r t code s)
  unfolding complete_totp_setup
  complete-IsGone t code s gone = elim (Option-cases (token_user lib r (setup_key t) s)) [
    | inl e ↦ rw (complete_totp_setup, e) gone
    | inr (user, e) ↦
        let enabled = enable_totp-IsGone user.id code s gone in
        rw (complete_totp_setup, e)
          (elim (Result-cases (enable_totp lib r user.id code s).0) [
            | inl f ↦ rw f enabled
            | inr (u, f) ↦
                rw f (issue_tokens-IsGone user _ (redis_del-IsGone (setup_key t) _ enabled))
          ])
  ]
