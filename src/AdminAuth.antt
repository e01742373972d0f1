-- ===== src/AdminAuth.antt =====
-- internal/service/auth/service.go: what the service keeps in Redis, and the tokens that it draws
-- and signs. A key of Redis is the constructor for the prefix its text starts with, and a call that
-- Redis fails gives an error and changes nothing. The steps of a session stand in Login and Setup,
-- the middleware of the administrators in Admin, and the handlers in Http.
use tsa_proxy.Common.{
  ℕ, String, ◌+◌, ◌*◌, ◌/◌, Bool, true, false, Option, none, some, List, [], ◌∷◌, ltb,
  if◌then◌else◌, str_eq,
}
use tsa_proxy.ApiError.{Result, ok, failed}
use tsa_proxy.Model.{Uuid, Time}
use tsa_proxy.Auth.{Codec}
use tsa_proxy.Password.{Argon}
use tsa_proxy.AdminUsers.{AdminUser, Reads}
pub mod Admin
pub mod Login
pub mod Setup
pub mod Http
pub mod Store
pub mod Proven
pub mod Steps
pub mod Sessions
pub mod SingleUse
pub mod Spent
pub mod Admitted
pub mod Kept
pub mod TwoFactors

-- "refresh:", "mfa:" and "totp_setup:" before a token, "totp_pending:" before a user's identifier.
pub data RedisKey : Type 0 where
  refresh_key : String → RedisKey
  mfa_key : String → RedisKey
  setup_key : String → RedisKey
  pending_key : String → RedisKey

unfoldable pub key_eq : RedisKey → RedisKey → Bool
key_eq (refresh_key a) (refresh_key b) = str_eq a b
key_eq (mfa_key a) (mfa_key b) = str_eq a b
key_eq (setup_key a) (setup_key b) = str_eq a b
key_eq (pending_key a) (pending_key b) = str_eq a b
key_eq _ _ = false

pub record Entry : Type 0 where
  pub value : String
  pub expires_at : Time

-- `logins` are the calls of UpdateLoginInfo.
pub record AuthState : Type 0 where
  pub users : List AdminUser
  pub redis : RedisKey → Option Entry
  pub logins : List (Uuid × String)

-- middleware.AdminClaims: dates in seconds.
pub record AdminClaims : Type 0 where
  pub subject : String
  pub issued_at : ℕ
  pub expires_at : ℕ
  pub issuer : String
  pub username : String
  pub roles : List String

-- The libraries and the configuration: totp.Validate by code, secret and time, and the signature
-- and the check of a JWT by secret, where the check is given the time too.
pub record Libraries : Type 0 where
  pub codec : Codec
  pub argon : Argon
  pub totp_validate : String → String → Time → Bool
  pub jwt_sign : String → AdminClaims → Option String
  pub jwt_parse : String → Time → String → Option AdminClaims
  pub jwt_secret : String
  pub access_ttl : Time
  pub refresh_ttl : Time

-- What the calls of one request meet. `draw` is the text of the random bytes, and `totp_key` what
-- totp.Generate gives.
pub record Replies : Type 0 where
  pub now : Time
  pub user_reads : Reads
  pub get_fails : RedisKey → Bool
  pub set_fails : RedisKey → Bool
  pub del_fails : RedisKey → Bool
  pub update_fails : Bool
  pub draw : Option String
  pub totp_key : Option (String × String)

-- An entry is gone when its time has come.
unfoldable pub live : Time → Option Entry → Option String
live now none = none
live now (some e) = if ltb now e.expires_at then some e.value else none

unfoldable pub redis_get : Replies → RedisKey → AuthState → Result (Option String)
unfolding live
redis_get r k s = if r.get_fails k then failed else ok (live r.now (s.redis k))

unfoldable pub put : RedisKey → Option Entry → AuthState → AuthState
unfolding key_eq
put k e s = record s { redis = λ j. if key_eq j k then e else s.redis j }

unfoldable pub redis_set : Replies → RedisKey → String → Time → AuthState → Result AuthState
unfolding put
redis_set r k value ttl s =
    if r.set_fails k
    then failed
    else ok (put k (some (record { value = value; expires_at = r.now + ttl })) s)

-- An error of a deletion is dropped by every caller.
unfoldable pub redis_del : Replies → RedisKey → AuthState → AuthState
unfolding put
redis_del r k s = if r.del_fails k then s else put k none s

abbrev pub minute : Time
minute = 60000000000

unfoldable pub numeric_date : Time → ℕ
numeric_date t = t / 1000000000

unfoldable pub access_claims : Libraries → Time → AdminUser → AdminClaims
unfolding numeric_date
access_claims lib now user = record {
  subject = lib.codec.uuid_string user.id;
  issued_at = numeric_date now;
  expires_at = numeric_date (now + lib.access_ttl);
  issuer = "tsa-proxy";
  username = user.username;
  roles = user.roles;
}

unfoldable pub generate_access_token : Libraries → Replies → AdminUser → Option String
unfolding access_claims
generate_access_token lib r user = lib.jwt_sign lib.jwt_secret (access_claims lib r.now user)

-- The end of the three generators below: the token stands for the user.
unfoldable pub store_token :
    Libraries
    → Replies
    → (String → RedisKey)
    → Time
    → Uuid
    → AuthState
    → Result (String × AuthState)
unfolding redis_set
store_token lib r key ttl id s = elim r.draw [
  | none ↦ failed
  | some token ↦ elim (redis_set r (key token) (lib.codec.uuid_string id) ttl s) [
    | failed ↦ failed
    | ok s' ↦ ok (token, s')
  ]
]

unfoldable pub generate_mfa_token :
    Libraries → Replies → Uuid → AuthState → Result (String × AuthState)
unfolding store_token
generate_mfa_token lib r id s = store_token lib r mfa_key (5 * minute) id s

unfoldable pub generate_setup_token :
    Libraries → Replies → Uuid → AuthState → Result (String × AuthState)
unfolding store_token
generate_setup_token lib r id s = store_token lib r setup_key (15 * minute) id s

unfoldable pub generate_refresh_token :
    Libraries → Replies → Uuid → AuthState → Result (String × AuthState)
unfolding store_token
generate_refresh_token lib r id s = store_token lib r refresh_key lib.refresh_ttl id s

pub record Session : Type 0 where
  pub access_token : String
  pub refresh_token : String
  pub expires_in : ℕ
  pub user : AdminUser

-- LoginResult, by the flag that is set: the fields that a case lacks are empty.
pub data LoginResult : Type 0 where
  totp_required : String → LoginResult
  totp_setup_required : String → LoginResult
  session : Session → LoginResult

abbrev pub Outcome : Type 0 → Type 0
Outcome A = Result A × AuthState

unfoldable pub update_login_info : String → AdminUser → AuthState → AuthState
update_login_info ip user s =
    if str_eq ip "" then s else record s { logins = (user.id, ip) ∷ s.logins }

unfoldable pub issue_tokens :
    Libraries → Replies → AdminUser → String → AuthState → Outcome LoginResult
unfolding generate_access_token generate_refresh_token update_login_info numeric_date
issue_tokens lib r user ip s = elim (generate_access_token lib r user) [
  | none ↦ (failed, s)
  | some access ↦ elim (generate_refresh_token lib r user.id s) [
    | failed ↦ (failed, s)
    | ok (refresh, s') ↦ (
      ok (
          session (record {
            access_token = access;
            refresh_token = refresh;
            expires_in = numeric_date lib.access_ttl;
            user = user;
          })),
      update_login_info ip user s',
    )
  ]
]
