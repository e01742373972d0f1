-- ===== src/AdminAuth/SingleUse.antt =====
-- What an exchange for a session leaves of the tokens between the password and the code.
use tsa_proxy.Common.{
  String, ◌≡◌, refl, sym, ◌∙◌, ap, true, false, none, some, Bool-cases, Option-cases, inl, inr,
  eq_iff,
}
use tsa_proxy.ApiError.{ok, failed, Result-cases, ok-injective}
use tsa_proxy.Model.{Uuid}
use tsa_proxy.AdminUsers.{AdminUser}
use tsa_proxy.AdminAuth.{
  RedisKey, refresh_key, mfa_key, setup_key, pending_key, key_eq, AuthState, Libraries, Replies,
  Outcome, LoginResult, live, put, redis_get, redis_set, redis_del, store_token,
  generate_access_token, generate_refresh_token, update_login_info, issue_tokens,
}
use tsa_proxy.AdminAuth.Login.{token_user, check_code, verify_code, verify_totp}
use tsa_proxy.AdminAuth.Setup.{enable_totp, complete_totp_setup}

redis_get-none :
    (r : Replies) (k : RedisKey) (s : AuthState)
    → s.redis k ≡ none
    → (t : String) → redis_get r k s ≡ ok (some t)
    → ⊥
unfolding redis_get live
redis_get-none r k s gone t h = elim (Bool-cases (r.get_fails k)) [
  | inl d ↦ let h' = (rw d at h) in cc
  | inr d ↦ let h' = (rw (d, gone) at h) in cc
]

token_user-none :
    (lib : Libraries) (r : Replies) (k : RedisKey) (s : AuthState)
    → s.redis k ≡ none
    → token_user lib r k s ≡ none
unfolding token_user
token_user-none lib r k s gone = elim (Result-cases (redis_get r k s)) [
  | inl e ↦ rw (token_user, e) refl
  | inr (none, e) ↦ rw (token_user, e) refl
  | inr (some t, e) ↦ absurd (redis_get-none r k s gone t e)
]

key_eq_refl : (k : RedisKey) → key_eq k k ≡ true
unfolding key_eq
key_eq_refl (refresh_key a) = (eq_iff a a).1 refl
key_eq_refl (mfa_key a) = (eq_iff a a).1 refl
key_eq_refl (setup_key a) = (eq_iff a a).1 refl
key_eq_refl (pending_key a) = (eq_iff a a).1 refl

pub redis_del_gone :
    (r : Replies) (k : RedisKey) (s : AuthState)
    → r.del_fails k ≡ false
    → (redis_del r k s).redis k ≡ none
unfolding redis_del put
redis_del_gone r k s up = rw (redis_del, up) (rw (key_eq_refl k) refl)

-- A key that is not of a refresh token.
module _ (k : RedisKey) (other : (t : String) → key_eq k (refresh_key t) ≡ false) where
  store_token_other :
      (lib : Libraries) (r : Replies) (id : Uuid) (s s' : AuthState) (token : String)
      → generate_refresh_token lib r id s ≡ ok (token, s')
      → s'.redis k ≡ s.redis k
  unfolding generate_refresh_token store_token redis_set put
  store_token_other lib r id s s' token h = elim (Option-cases r.draw) [
    | inl e ↦ let h' = (rw (store_token, e) at h) in cc
    | inr (t, e) ↦
        let h' = (rw (store_token, e) at h) in
        elim (Bool-cases (r.set_fails (refresh_key t))) [
          | inl down ↦ let h'' = (rw down at h') in cc
          | inr up ↦
              let h'' = (rw up at h') in
              let same = ap (λ p. p.1.redis k) (ok-injective h'') in sym same ∙ (rw (other t) refl)
        ]
  ]

  pub issue_tokens_other :
      (lib : Libraries) (r : Replies) (user : AdminUser) (s : AuthState)
      → (issue_tokens lib r user "" s).1.redis k ≡ s.redis k
  unfolding issue_tokens update_login_info
  issue_tokens_other lib r user s = elim (Option-cases (generate_access_token lib r user)) [
    | inl e ↦ rw (issue_tokens, e) refl
    | inr (a, e) ↦ elim (Result-cases (generate_refresh_token lib r user.id s)) [
      | inl f ↦ rw (issue_tokens, e) (rw f refl)
      | inr ((t, s'), f) ↦ rw (issue_tokens, e) (rw f (store_token_other lib r user.id s s' t f))
    ]
  ]

-- The two ways from a token to a session.
pub data SecondStep : Type 0 where
  by_code by_setup : SecondStep

abbrev pub step_key : SecondStep → String → RedisKey
step_key by_code t = mfa_key t
step_key by_setup t = setup_key t

abbrev pub second_step :
    SecondStep → Libraries → Replies → String → String → AuthState → Outcome LoginResult
second_step by_code = verify_totp
second_step by_setup = complete_totp_setup

verify_totp_gone :
    (lib : Libraries) (r : Replies) (t code : String) (s : AuthState) (l : LoginResult)
    → r.del_fails (mfa_key t) ≡ false
    → (verify_totp lib r t code s).0 ≡ ok l
    → (verify_totp lib r t code s).1.redis (mfa_key t) ≡ none
unfolding verify_totp verify_code check_code key_eq
verify_totp_gone lib r t code s l up h = elim (Option-cases (token_user lib r (mfa_key t) s)) [
  | inl e ↦ let h' = (rw (verify_totp, e) at h) in cc
  | inr (user, e) ↦
      let h1 : (verify_code lib r user t code s).0 ≡ ok l = (rw (verify_totp, e) at h) in
      rw (verify_totp, e)
        (elim (Option-cases user.totp_secret) [
          | inl f ↦ let h2 = (simp (verify_code, f) at h1) in cc
          | inr (secret, f) ↦
              let h2 : (check_code lib r user t code secret s).0 ≡ ok l =
                (simp (verify_code, f) at h1) in
              simp (verify_code, f)
                (elim (Bool-cases (lib.totp_validate code secret r.now)) [
                  | inl v ↦
                      rw (check_code, v)
                        (issue_tokens_other (mfa_key t) (λ t. refl) lib r user
                            (redis_del r (mfa_key t) s)
                          ∙ redis_del_gone r (mfa_key t) s up)
                  | inr v ↦ let h3 = (rw (check_code, v) at h2) in cc
                ])
        ])
]

complete_totp_setup_gone :
    (lib : Libraries) (r : Replies) (t code : String) (s : AuthState) (l : LoginResult)
    → r.del_fails (setup_key t) ≡ false
    → (complete_totp_setup lib r t code s).0 ≡ ok l
    → (complete_totp_setup lib r t code s).1.redis (setup_key t) ≡ none
unfolding complete_totp_setup key_eq
complete_totp_setup_gone lib r t code s l up h =
    elim (Option-cases (token_user lib r (setup_key t) s)) [
      | inl e ↦ let h' = (rw (complete_totp_setup, e) at h) in cc
      | inr (user, e) ↦
          let h1 = (rw (complete_totp_setup, e) at h) in
          rw (complete_totp_setup, e)
            (elim (Result-cases (enable_totp lib r user.id code s).0) [
              | inl f ↦ let h2 = (rw f at h1) in cc
              | inr (u, f) ↦ rw f (
                  issue_tokens_other (setup_key t) (λ t. refl) lib r user
                    (redis_del r (setup_key t) (enable_totp lib r user.id code s).1)
                  ∙ redis_del_gone r (setup_key t) _ up)
            ])
    ]

pub step_gone :
    (step : SecondStep) (lib : Libraries) (r : Replies) (t code : String) (s : AuthState)
    (l : LoginResult)
    → r.del_fails (step_key step t) ≡ false
    → (second_step step lib r t code s).0 ≡ ok l
    → (second_step step lib r t code s).1.redis (step_key step t) ≡ none
step_gone by_code = verify_totp_gone
step_gone by_setup = complete_totp_setup_gone

pub step_refused :
    (step : SecondStep) (lib : Libraries) (r : Replies) (t code : String) (s : AuthState)
    → s.redis (step_key step t) ≡ none
    → second_step step lib r t code s ≡ (failed, s)
unfolding verify_totp complete_totp_setup
step_refused by_code lib r t code s gone =
    rw (verify_totp, token_user-none lib r (mfa_key t) s gone) refl
step_refused by_setup lib r t code s gone =
    rw (complete_totp_setup, token_user-none lib r (setup_key t) s gone) refl
