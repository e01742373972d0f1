-- ===== src/AdminAuth/Proven.antt =====
-- Each step of a session keeps what the entries of Redis stand for.
use mathlib.Core.Option.{some-injective}
use tsa_proxy.Common.{
  String, ltb, ◌≡◌, sym, ◌∙◌, ap, true, none, some, List, Bool-cases, Option-cases, inl, inr,
  if-some,
}
use tsa_proxy.ApiError.{ok, Result-cases, ok-injective}
use tsa_proxy.Model.{Uuid}
use tsa_proxy.AdminUsers.{AdminUser, find_by_id}
use tsa_proxy.AdminUsers.Table.{find_by_id-id}
use tsa_proxy.AdminAuth.{RedisKey, Entry, AuthState, Libraries, Replies, live, redis_get}
use tsa_proxy.AdminAuth.Login.{active_user, token_user}
use tsa_proxy.AdminAuth.Store.{Fact, IsBackedFor, AreBacked}

active_user-id :
    (r : Replies) (id : Uuid) (s : AuthState) (u : AdminUser)
    → active_user r id s ≡ some u
    → u.id ≡ id
unfolding active_user
active_user-id r id s u h = elim (Result-cases (find_by_id r.user_reads id s.users)) [
  | inl e ↦ let h' = (rw (active_user, e) at h) in cc
  | inr (none, e) ↦ let h' = (rw (active_user, e) at h) in cc
  | inr (some v, e) ↦
      let h' = (rw (active_user, e) at h) in
      find_by_id-id r.user_reads id s.users u (e ∙ ap ok (if-some v.is_active (some v) h').1)
]

-- The entry whose text names the user that a token finds.
pub record Named (lib : Libraries) (r : Replies) (key : RedisKey) (s : AuthState) (u : AdminUser)
    : Type 0 where
  pub text : String
  pub stored : redis_get r key s ≡ ok (some text)
  pub names : lib.codec.uuid_parse text ≡ some u.id
  pub active : active_user r u.id s ≡ some u

pub token_user-Named :
    (lib : Libraries) (r : Replies) (key : RedisKey) (s : AuthState) (u : AdminUser)
    → token_user lib r key s ≡ some u
    → Named lib r key s u
unfolding token_user
token_user-Named lib r key s u h = elim (Result-cases (redis_get r key s)) [
  | inl e ↦ let h' = (rw (token_user, e) at h) in cc
  | inr (none, e) ↦ let h' = (rw (token_user, e) at h) in cc
  | inr (some text, e) ↦
      let h1 = (rw (token_user, e) at h) in
      elim (Option-cases (lib.codec.uuid_parse text)) [
        | inl f ↦ let h2 = (rw f at h1) in cc
        | inr (id, f) ↦
            let h2 : active_user r id s ≡ some u = (rw f at h1) in
            let same = active_user-id r id s u h2 in
            record {
              text = text;
              stored = e;
              names = f ∙ ap some (sym same);
              active = ap (λ i. active_user r i s) same ∙ h2;
            }
      ]
]

redis_get-entry :
    (r : Replies) (key : RedisKey) (s : AuthState) (text : String)
    → redis_get r key s ≡ ok (some text)
    → (e : Entry) × ((s.redis key ≡ some e) × ((e.value ≡ text) × (ltb r.now e.expires_at ≡ true)))
unfolding redis_get live
redis_get-entry r key s text h = elim (Bool-cases (r.get_fails key)) [
  | inl d ↦ let h' = (rw d at h) in cc
  | inr d ↦
      let h1 = (rw d at h) in
      elim (Option-cases (s.redis key)) [
        | inl f ↦ let h2 = (rw f at h1) in cc
        | inr (e, f) ↦
            let h2 = (rw f at h1) in
            elim (Bool-cases (ltb r.now e.expires_at)) [
              | inl l ↦
                  let h3 : ok (some e.value) ≡ ok (some text) = (rw l at h2) in
                  (e, (f, (some-injective _ _ (ok-injective h3), l)))
              | inr l ↦ let h3 = (rw l at h2) in cc
            ]
      ]
]

pub token_user-IsBacked :
    (past : List Fact) (lib : Libraries) (r : Replies) (key : RedisKey) (s : AuthState)
    (u : AdminUser)
    → AreBacked lib.codec past s
    → token_user lib r key s ≡ some u
    → IsBackedFor past key u.id
token_user-IsBacked past lib r key s u inv h =
    let n = token_user-Named lib r key s u h in
    let (e, (f, (v, l))) = redis_get-entry r key s n.text n.stored in
    inv key e f u.id (rw v n.names)
