-- ===== src/AdminAuth/Admitted.antt =====
-- From a password and a code to a request that the middleware of the administrators lets through.
use tsa_proxy.Common.{
  String, ◌≡◌, ◌+◌, ◌*◌, ◌<◌, refl, true, false, Option, some, ltb, eq_iff, arith,
}
use tsa_proxy.ApiError.{ok, answer}
use tsa_proxy.Model.{Uuid, Time}
use tsa_proxy.Auth.{Bytes}
use tsa_proxy.Password.{verify_argon2id}
use tsa_proxy.AdminUsers.{AdminUser, find_by_id, find_by_username}
use tsa_proxy.AdminAuth.{
  RedisKey, refresh_key, mfa_key, setup_key, pending_key, key_eq, Entry, AuthState, Libraries,
  Replies, AdminClaims, totp_required, session, Session, live, put, redis_get, redis_set, redis_del,
  minute, numeric_date, access_claims, generate_access_token, store_token, generate_mfa_token,
  generate_refresh_token, issue_tokens,
}
use tsa_proxy.AdminAuth.Admin.{bearer, require}
use tsa_proxy.AdminAuth.Login.{
  login, login_second, login_reply, active_user, token_user, check_code, verify_code, verify_totp,
}

-- The calls of a request all succeed.
pub record IsUp (r : Replies) : Type 0 where
  pub gets : (k : RedisKey) → r.get_fails k ≡ false
  pub sets : (k : RedisKey) → r.set_fails k ≡ false
  pub dels : (k : RedisKey) → r.del_fails k ≡ false

-- A signed token is read back until its second of expiry, and identifiers from their text.
pub record IsFaithful (lib : Libraries) : Type 0 where
  pub ids : (u : Uuid) → lib.codec.uuid_parse (lib.codec.uuid_string u) ≡ some u
  pub reads :
      (c : AdminClaims) (t : String) (now : Time)
      → lib.jwt_sign lib.jwt_secret c ≡ some t
      → numeric_date now < c.expires_at
      → lib.jwt_parse lib.jwt_secret now t ≡ some c

-- An active user with a second factor, the password, and the code at the time of the second call.
pub record CanLogin (lib : Libraries) (r r' : Replies) (s : AuthState) (username : String)
    (password : Bytes) (user : AdminUser) (secret code : String) : Type 0 where
  pub by_name : find_by_username r.user_reads username s.users ≡ ok (some user)
  pub by_id : find_by_id r'.user_reads user.id s.users ≡ ok (some user)
  pub is_active : user.is_active ≡ true
  pub has_password : verify_argon2id lib.argon user.password_hash password ≡ true
  pub is_enabled : user.totp_enabled ≡ true
  pub has_secret : user.totp_secret ≡ some secret
  pub has_code : lib.totp_validate code secret r'.now ≡ true
  pub in_time : r'.now < r.now + 5 * minute

key_eq_refl : (k : RedisKey) → key_eq k k ≡ true
unfolding key_eq
key_eq_refl (refresh_key a) = (eq_iff a a).1 refl
key_eq_refl (mfa_key a) = (eq_iff a a).1 refl
key_eq_refl (setup_key a) = (eq_iff a a).1 refl
key_eq_refl (pending_key a) = (eq_iff a a).1 refl

abbrev entry : String → Time → Option Entry
entry v t = some (record { value = v; expires_at = t })

store_token_up :
    (lib : Libraries) (r : Replies) (key : String → RedisKey) (ttl : Time) (id : Uuid)
    (s : AuthState) (t : String)
    → r.draw ≡ some t
    → r.set_fails (key t) ≡ false
    → store_token lib r key ttl id s
      ≡ ok (t, put (key t) (entry (lib.codec.uuid_string id) (r.now + ttl)) s)
unfolding store_token redis_set
store_token_up lib r key ttl id s t drawn up = rw (store_token, drawn) (rw up refl)

get_put :
    (r : Replies) (k : RedisKey) (v : String) (t : Time) (s : AuthState)
    → r.get_fails k ≡ false
    → r.now < t
    → redis_get r k (put k (entry v t) s) ≡ ok (some v)
unfolding redis_get put live
get_put r k v t s up early =
    let lt : ltb r.now t ≡ true = (ground (arith, early)) in
    rw (redis_get, up) (rw (put, key_eq_refl k) (rw lt refl))

active_user_found :
    (r : Replies) (s : AuthState) (user : AdminUser)
    → find_by_id r.user_reads user.id s.users ≡ ok (some user)
    → user.is_active ≡ true
    → active_user r user.id s ≡ some user
unfolding active_user
active_user_found r s user found active = rw (active_user, found) (simp active refl)

module _ (lib : Libraries) (law : IsFaithful lib) (r r' : Replies) (s : AuthState)
    (username : String) (password : Bytes) (user : AdminUser) (secret code : String)
    (can : CanLogin lib r r' s username password user secret code) (up : IsUp r) (up' : IsUp r')
    (mfa new_token access : String) (drawn : r.draw ≡ some mfa) (drawn' : r'.draw ≡ some new_token)
    (signed : generate_access_token lib r' user ≡ some access) where
  abbrev pub after_login : AuthState
  after_login =
      put (mfa_key mfa)
        (some (record { value = lib.codec.uuid_string user.id; expires_at = r.now + 5 * minute })) s

  login_reaches :
      (ip : String) → login lib r username password ip s ≡ (ok (totp_required mfa), after_login)
  unfolding login login_second login_reply generate_mfa_token
  login_reaches ip =
      rw (login, can.by_name)
        (simp (can.is_active, can.has_password)
          (simp (login_second, can.is_enabled)
            (rw
              (store_token_up lib r mfa_key (5 * minute) user.id s mfa drawn
                (up.sets (mfa_key mfa)))
              refl)))

  token_found : token_user lib r' (mfa_key mfa) after_login ≡ some user
  unfolding token_user put
  token_found =
      rw
        (
          token_user,
          get_put r' (mfa_key mfa) (lib.codec.uuid_string user.id) (r.now + 5 * minute) s
              (up'.gets (mfa_key mfa)) can.in_time,
        )
        (rw (law.ids user.id) (active_user_found r' s user can.by_id can.is_active))

  abbrev pub the_session : Session
  the_session = record {
    access_token = access;
    refresh_token = new_token;
    expires_in = numeric_date lib.access_ttl;
    user = user;
  }

  code_reaches : (verify_totp lib r' mfa code after_login).0 ≡ ok (session the_session)
  unfolding verify_totp verify_code check_code issue_tokens generate_refresh_token
  code_reaches =
      rw (verify_totp, token_found)
        (simp (verify_code, can.has_secret)
          (rw (check_code, can.has_code)
            (rw (issue_tokens, signed)
              (rw
                (store_token_up lib r' refresh_key lib.refresh_ttl user.id
                  (redis_del r' (mfa_key mfa) after_login) new_token drawn'
                  (up'.sets (refresh_key new_token)))
                refl))))

  admitted :
      (r'' : Replies)
      → numeric_date r''.now < numeric_date (r'.now + lib.access_ttl)
      → require lib r'' (bearer access)
        ≡ answer (record { admin_user = some user.id; admin_roles = some user.roles })
  unfolding require generate_access_token access_claims
  admitted r'' early =
      rw (require, law.reads (access_claims lib r'.now user) access r''.now signed early)
        (rw (law.ids user.id) refl)

  -- Where the database, Redis, the random source and the signature answer, an active user with a
  -- second factor who gives the right password, and within five minutes of it a code that is valid
  -- then, gets a token for the code, then a session, and the access token of the session passes
  -- the middleware, as this user with the roles of the user, until the second it expires in.
  pub password_and_code_admit :
      (ip : String) (r'' : Replies)
      → numeric_date r''.now < numeric_date (r'.now + lib.access_ttl)
      → let (first, s') = login lib r username password ip s in
        (first ≡ ok (totp_required mfa))
        × (((verify_totp lib r' mfa code s').0 ≡ ok (session the_session))
            × (require lib r'' (bearer the_session.access_token)
                ≡ answer (record { admin_user = some user.id; admin_roles = some user.roles })))
  password_and_code_admit ip r'' early =
      rw (login_reaches ip) (refl, (code_reaches, admitted r'' early))
