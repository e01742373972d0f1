-- ===== src/Tests/Sessions.antt =====
-- A login with a password and a code, and what its session can do.
use tsa_proxy.Common.{
  ℕ, ◌+◌, ◌*◌, ◌<◌, ◌≡◌, ◌↔◌, refl, sym, ap, String, Bool, true, false, ◌&&◌, none, some, List, [],
  ◌∷◌, ◌++◌, ◌==◌, ==_iff, if◌then◌else◌, str_eq, eq_iff, arith, Bool-cases, inl, inr,
}
use tsa_proxy.ApiError.{ok, failed, answer}
use tsa_proxy.Auth.{Bytes}
use tsa_proxy.Password.{
  argon_memory, argon_iterations, argon_parallelism, argon_key_len, parameters_text, hash_password,
  verify_argon2id, verify_parts, scan_hash, scan_iterations, scan_parallelism, scan_rest, scan_uint,
  scan_first, scan_digits, within, scan_text, some_token, scan_token, is_space, is_blank,
  skip_space, is_digit, expect, split_last, same_key, fold_diff, bor, bxor,
}
use tsa_proxy.Password.Scan.{verify_argon2id-hash_password}
use tsa_proxy.AdminUsers.{
  AdminUser, find_by_username, find_by_id, find_row, with_roles, is_row, has_username,
}
use tsa_proxy.AdminAuth.{
  mfa_key, AuthState, Libraries, Replies, AdminClaims, session, totp_required, access_claims,
  numeric_date, generate_access_token, Session, live, redis_get, redis_set, redis_del, put, key_eq,
  store_token, generate_mfa_token, generate_refresh_token, update_login_info, issue_tokens,
}
use tsa_proxy.AdminAuth.Admin.{bearer, require}
use tsa_proxy.AdminAuth.Login.{
  login, login_second, login_reply, verify_totp, verify_code, check_code, refresh, token_user,
  active_user,
}
use tsa_proxy.AdminAuth.Http.{handle_login, handle_verify_totp, login_replied, login_body}
use tsa_proxy.AdminAuth.Store.{Has, password_ok, code_ok}
use tsa_proxy.AdminAuth.Sessions.{AuthCall, call_login, call_verify, after_call, run_calls}
use tsa_proxy.AdminAuth.TwoFactors.{sessions_have_two_factors}
use tsa_proxy.AdminAuth.SingleUse.{by_code, second_step}
use tsa_proxy.AdminAuth.Spent.Calls.{IsFresh, second_step_once}
use mathlib.Core.Option.{some-injective}
use tsa_proxy.Password.Compare.{AreBytes}
use tsa_proxy.AdminAuth.Admitted.{IsUp, IsFaithful, CanLogin, password_and_code_admit}
use tsa_proxy.Tests.Encoding.{text_of, size, size-text_of}
use tsa_proxy.Tests.Guarding.{codec}
use tsa_proxy.Tests.Keys.{argon, argon-IsLawful, key_of, unhex, digit_value}

-- The password "pw", stored with a key of one byte.
abbrev password : Bytes
password = 112 ∷ 119 ∷ []

abbrev stored_hash : Bytes
stored_hash = parameters_text ++ (49 ∷ 49 ∷ 36 ∷ 55 ∷ 48 ∷ [])

abbrev user : AdminUser
user = record {
  id = 3;
  username = "ana";
  email = "ana@tsa.example";
  password_hash = stored_hash;
  is_active = true;
  totp_secret = some "secret";
  totp_enabled = true;
  roles = "admin" ∷ [];
  tenant_scope = [];
  is_deleted = false;
}

abbrev state : AuthState
state = record { users = user ∷ []; redis = λ _. none; logins = [] }

-- One hour of access, issued in second 60.
abbrev claims : AdminClaims
claims = record {
  subject = text_of 3;
  issued_at = 60;
  expires_at = 3660;
  issuer = "tsa-proxy";
  username = "ana";
  roles = "admin" ∷ [];
}

is_admin_only : List String → Bool
is_admin_only [] = false
is_admin_only (r ∷ []) = str_eq r "admin"
is_admin_only (r ∷ q ∷ rs) = false

is_claims : AdminClaims → Bool
is_claims c =
    (str_eq c.subject (text_of 3) && ((c.issued_at == 60) && (c.expires_at == 3660)))
    && (str_eq c.issuer "tsa-proxy" && (str_eq c.username "ana" && is_admin_only c.roles))

admin_only : (rs : List String) → is_admin_only rs ≡ true → rs ≡ "admin" ∷ []
unfolding is_admin_only
admin_only [] h = cc
admin_only (r ∷ []) h = ap (λ x. x ∷ []) ((eq_iff r "admin").0 h)
admin_only (r ∷ q ∷ rs) h = cc

both : (a b : Bool) → (a && b) ≡ true → (a ≡ true) × (b ≡ true)
both true true h = (refl, refl)
both true false h = cc
both false b h = cc

is_claims-claims : (c : AdminClaims) → is_claims c ≡ true → c ≡ claims
unfolding is_claims
is_claims-claims c h =
    let (l, r) = both _ _ h in
    let (s, d) = both _ _ l in
    let (i, e) = both _ _ d in
    let (q, n) = both _ _ r in
    let (u, g) = both _ _ n in
    let s' : c.subject ≡ text_of 3 = (eq_iff c.subject (text_of 3)).0 s in
    let i' : c.issued_at ≡ 60 = (==_iff c.issued_at 60).0 i in
    let e' : c.expires_at ≡ 3660 = (==_iff c.expires_at 3660).0 e in
    let q' : c.issuer ≡ "tsa-proxy" = (eq_iff c.issuer "tsa-proxy").0 q in
    let u' : c.username ≡ "ana" = (eq_iff c.username "ana").0 u in
    let g' : c.roles ≡ "admin" ∷ [] = admin_only c.roles g in rw (s', i', e', q', u', g') refl

read_back :
    (c : AdminClaims) (t : String)
    → (if is_claims c then some "access" else none) ≡ some t
    → some claims ≡ some c
read_back c t h = elim (Bool-cases (is_claims c)) [
  | inl e ↦ ap some (sym (is_claims-claims c e))
  | inr e ↦ let h' = (rw e at h) in cc
]

abbrev lib : Libraries
lib = record {
  codec = codec;
  argon = argon;
  totp_validate = λ code secret now. str_eq code "123456";
  jwt_sign = λ key c. if is_claims c then some "access" else none;
  jwt_parse = λ key now t. some claims;
  jwt_secret = "key";
  access_ttl = 3600000000000;
  refresh_ttl = 86400000000000;
}

-- The first request is in second 30, and the second in second 60.
abbrev replies : ℕ → String → Replies
replies second token = record {
  now = second * 1000000000;
  user_reads = record { row_fails = false; roles_fail = false };
  get_fails = λ _. false;
  set_fails = λ _. false;
  del_fails = λ _. false;
  update_fails = false;
  draw = some token;
  totp_key = none;
}

up : (second : ℕ) (token : String) → IsUp (replies second token)
up second token = record { gets = λ _. refl; sets = λ _. refl; dels = λ _. refl }

faithful : IsFaithful lib
unfolding numeric_date
faithful = record {
  ids = λ u. ap some (size-text_of u);
  reads = λ c t now signed early. read_back c t signed;
}

signed : generate_access_token lib (replies 60 "renew") user ≡ some "access"
unfolding generate_access_token access_claims numeric_date is_claims is_admin_only text_of
signed = refl

password_right : verify_argon2id argon stored_hash password ≡ true
unfolding verify_argon2id verify_parts scan_hash scan_iterations scan_parallelism scan_rest
    scan_uint scan_first scan_digits within scan_text some_token scan_token is_space is_blank
    skip_space is_digit expect split_last same_key fold_diff bor bxor key_of unhex digit_value
password_right = refl

can :
    CanLogin lib (replies 30 "mfa") (replies 60 "renew") state "ana" password user "secret" "123456"
unfolding find_by_username find_by_id find_row with_roles is_row has_username
can = record {
  by_name = refl;
  by_id = refl;
  is_active = refl;
  has_password = password_right;
  is_enabled = refl;
  has_secret = refl;
  has_code = refl;
  in_time = omega arith;
}

early : numeric_date 70000000000 < numeric_date (60000000000 + 3600000000000)
unfolding numeric_date
early = omega arith

abbrev the_login : Session
the_login = record {
  access_token = "access";
  refresh_token = "renew";
  expires_in = numeric_date 3600000000000;
  user = user;
}

password_and_code_admit_example :
    let (first, s') = login lib (replies 30 "mfa") "ana" password "203.0.113.5" state in
    (first ≡ ok (totp_required "mfa"))
    × (((verify_totp lib (replies 60 "renew") "mfa" "123456" s').0 ≡ ok (session the_login))
        × (require lib (replies 70 "") (bearer the_login.access_token)
            ≡ answer (record { admin_user = some 3; admin_roles = some ("admin" ∷ []) })))
password_and_code_admit_example =
    password_and_code_admit lib faithful (replies 30 "mfa") (replies 60 "renew") state "ana"
      password user "secret" "123456" can (up 30 "mfa") (up 60 "renew") "mfa" "renew" "access" refl
      refl signed "203.0.113.5" (replies 70 "") early

-- The same login by the endpoints.
abbrev calls : List (Replies × AuthCall)
calls =
    (replies 30 "mfa", call_login "203.0.113.5" (some ("ana", password)))
    ∷ (replies 60 "renew", call_verify (some ("mfa", "123456")))
    ∷ []

abbrev after_calls : AuthState
after_calls = (run_calls lib calls [] state).1

renewed_access : refresh lib (replies 60 "") "renew" after_calls ≡ ok "access"
unfolding refresh token_user redis_get live run_calls after_call handle_login handle_verify_totp
    login login_second login_reply login_replied verify_totp verify_code check_code issue_tokens
    generate_mfa_token generate_refresh_token store_token redis_set redis_del put key_eq active_user
    update_login_info generate_access_token access_claims numeric_date is_claims is_admin_only
    text_of find_by_username find_by_id find_row with_roles is_row has_username login_body size
    verify_argon2id verify_parts scan_hash scan_iterations scan_parallelism scan_rest scan_uint
    scan_first scan_digits within scan_text some_token scan_token is_space is_blank skip_space
    is_digit expect split_last same_key fold_diff bor bxor key_of unhex digit_value
renewed_access = refl

sessions_have_two_factors_example :
    (u : AdminUser) × ((generate_access_token lib (replies 60 "") u ≡ some "access")
      × (Has (password_ok u.id) (run_calls lib calls [] state).0
          × Has (code_ok u.id) (run_calls lib calls [] state).0))
sessions_have_two_factors_example =
    sessions_have_two_factors lib (λ u. ap some (size-text_of u)) calls state (λ k. refl)
      (replies 60 "") "renew" "access" renewed_access

-- The state in which the token for the code waits.
abbrev waiting : AuthState
waiting = record {
  users = user ∷ [];
  redis = λ k.
      if key_eq k (mfa_key "mfa")
      then some (record { value = text_of 3; expires_at = 330000000000 })
      else none;
  logins = [];
}

code_taken :
    (second_step by_code lib (replies 60 "renew") "mfa" "123456" waiting).0 ≡ ok (session the_login)
unfolding token_user redis_get live verify_totp verify_code check_code issue_tokens
    generate_refresh_token store_token redis_set redis_del put key_eq active_user update_login_info
    generate_access_token access_claims numeric_date is_claims is_admin_only text_of find_by_id
    find_row with_roles is_row size
code_taken = refl

-- A login that draws a token of its own.
abbrev later_calls : List (Replies × AuthCall)
later_calls = (replies 61 "other", call_login "" (some ("ana", password))) ∷ []

other_drawn : IsFresh "mfa" (replies 61 "other")
other_drawn drawn e = let same = some-injective _ _ e in rw (← same) refl

second_step_once_example :
    let used = (second_step by_code lib (replies 60 "renew") "mfa" "123456" waiting).1 in
    let s' = (run_calls lib later_calls [] used).1 in
    second_step by_code lib (replies 62 "again") "mfa" "123456" s' ≡ (failed, s')
second_step_once_example =
    second_step_once by_code lib (replies 60 "renew") "mfa" "123456" waiting (session the_login)
      refl code_taken later_calls (other_drawn, tt) [] (replies 62 "again") "123456"

abbrev salt : Bytes
salt = 17 ∷ []

salt_bytes : AreBytes salt
salt_bytes = (omega arith, tt)

abbrev key : Bytes → Bytes
key p = argon.id_key p salt argon_iterations argon_memory argon_parallelism argon_key_len

abbrev full_hash : Bytes
full_hash = parameters_text ++ (argon.encode salt ++ (36 ∷ argon.encode (key password)))

hashed : hash_password argon (some salt) password ≡ ok full_hash
unfolding hash_password
hashed = refl

verify_argon2id-hash_password_example :
    (verify_argon2id argon full_hash password ≡ true)
    × ((verify_argon2id argon full_hash (112 ∷ []) ≡ true) ↔ (key (112 ∷ []) ≡ key password))
verify_argon2id-hash_password_example =
    verify_argon2id-hash_password argon argon-IsLawful salt salt_bytes password (112 ∷ []) full_hash
      hashed
