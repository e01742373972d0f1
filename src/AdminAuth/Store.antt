-- ===== src/AdminAuth/Store.antt =====
-- What was proven in a run of calls, and what an entry of Redis stands for.
use mathlib.Core.List.{Memᴰ}
use mathlib.Core.Option.{some-injective}
use tsa_proxy.Common.{
  String, ◌≡◌, refl, sym, ◌∙◌, ap, true, Option, none, some, List, ◌∷◌, Bool-cases, Option-cases,
  inl, inr, eq_iff,
}
use tsa_proxy.ApiError.{ok, Result-cases, ok-injective}
use tsa_proxy.Model.{Uuid, Time}
use tsa_proxy.Auth.{Codec}
use tsa_proxy.AdminAuth.{
  RedisKey, refresh_key, mfa_key, setup_key, pending_key, key_eq, Entry, AuthState, Libraries,
  Replies, put, redis_set, redis_del, store_token,
}

-- A right password, or a valid code, that was presented for the user of the identifier.
pub data Fact : Type 0 where
  password_ok : Uuid → Fact
  code_ok : Uuid → Fact

key_eq-equal : (j k : RedisKey) → key_eq j k ≡ true → j ≡ k
unfolding key_eq
key_eq-equal (refresh_key a) (refresh_key b) h = ap refresh_key ((eq_iff a b).0 h)
key_eq-equal (mfa_key a) (mfa_key b) h = ap mfa_key ((eq_iff a b).0 h)
key_eq-equal (setup_key a) (setup_key b) h = ap setup_key ((eq_iff a b).0 h)
key_eq-equal (pending_key a) (pending_key b) h = ap pending_key ((eq_iff a b).0 h)
key_eq-equal _ _ h = cc

abbrev pub Has : Fact → List Fact → Type 0
Has f past = Memᴰ f past

-- A token after the password stands for a user whose password was presented, and a refresh token
-- for one whose code was presented as well: the user is the one whom the stored text names.
abbrev pub IsBackedFor : List Fact → RedisKey → Uuid → Type 0
IsBackedFor past (refresh_key t) id = Has (password_ok id) past × Has (code_ok id) past
IsBackedFor past (mfa_key t) id = Has (password_ok id) past
IsBackedFor past (setup_key t) id = Has (password_ok id) past
IsBackedFor past (pending_key t) id = Unit

abbrev pub IsBacked : Codec → List Fact → RedisKey → String → Type 0
IsBacked codec past k v = (id : Uuid) → codec.uuid_parse v ≡ some id → IsBackedFor past k id

abbrev pub AreBacked : Codec → List Fact → AuthState → Type 0
AreBacked codec past s =
    (k : RedisKey) (e : Entry) → s.redis k ≡ some e → IsBacked codec past k e.value

unfoldable pub note : Option Fact → List Fact → List Fact
note none past = past
note (some f) past = f ∷ past

pub Has-note :
    (f : Fact) (new : Option Fact) (past : List Fact) → Has f past → Has f (note new past)
unfolding note
Has-note f none past h = h
Has-note f (some g) past h = Memᴰ.tail h

IsBackedFor-note :
    (new : Option Fact) (past : List Fact) (k : RedisKey) (id : Uuid)
    → IsBackedFor past k id
    → IsBackedFor (note new past) k id
IsBackedFor-note new past (refresh_key t) id h =
    (Has-note (password_ok id) new past h.0, Has-note (code_ok id) new past h.1)
IsBackedFor-note new past (mfa_key t) id h = Has-note (password_ok id) new past h
IsBackedFor-note new past (setup_key t) id h = Has-note (password_ok id) new past h
IsBackedFor-note new past (pending_key t) id h = h

module _ (codec : Codec) where
  pub AreBacked-note :
      (new : Option Fact) (past : List Fact) (s : AuthState)
      → AreBacked codec past s
      → AreBacked codec (note new past) s
  AreBacked-note new past s inv k e h id p = IsBackedFor-note new past k id (inv k e h id p)

  pub AreBacked-put :
      (past : List Fact) (k : RedisKey) (new : Option Entry) (s : AuthState)
      → ((e : Entry) → new ≡ some e → IsBacked codec past k e.value)
      → AreBacked codec past s
      → AreBacked codec past (put k new s)
  unfolding put
  AreBacked-put past k new s fresh inv j e h = elim (Bool-cases (key_eq j k)) [
    | inl same ↦ let h' = (rw same at h) in rw (key_eq-equal j k same) (fresh e h')
    | inr other ↦ let h' = (rw other at h) in inv j e h'
  ]

  pub AreBacked-redis_del :
      (past : List Fact) (r : Replies) (k : RedisKey) (s : AuthState)
      → AreBacked codec past s
      → AreBacked codec past (redis_del r k s)
  unfolding redis_del
  AreBacked-redis_del past r k s inv = elim (Bool-cases (r.del_fails k)) [
    | inl down ↦ rw down inv
    | inr up ↦ rw up (AreBacked-put past k none s (λ e h. cc) inv)
  ]

  entry_value :
      (past : List Fact) (k : RedisKey) (v : String) (t : Time)
      → IsBacked codec past k v
      → (e : Entry) → some (record { value = v; expires_at = t }) ≡ some e
      → IsBacked codec past k e.value
  entry_value past k v t backed e h =
      let same : v ≡ e.value = ap (λ x. x.value) (some-injective _ _ h) in rw (sym same) backed

  pub AreBacked-redis_set :
      (past : List Fact) (r : Replies) (k : RedisKey) (v : String) (ttl : Time) (s s' : AuthState)
      → IsBacked codec past k v
      → AreBacked codec past s
      → redis_set r k v ttl s ≡ ok s'
      → AreBacked codec past s'
  unfolding redis_set
  AreBacked-redis_set past r k v ttl s s' backed inv done = elim (Bool-cases (r.set_fails k)) [
    | inl down ↦ let done' = (rw down at done) in cc
    | inr up ↦
        let done' = (rw up at done) in
        rw (sym (ok-injective done')) (AreBacked-put past k _ s (entry_value past k v _ backed) inv)
  ]

  -- An identifier comes back from its text.
  pub IsBacked-text :
      (past : List Fact) (k : RedisKey) (id : Uuid)
      → codec.uuid_parse (codec.uuid_string id) ≡ some id
      → IsBackedFor past k id
      → IsBacked codec past k (codec.uuid_string id)
  IsBacked-text past k id law backed id' p =
      let same : id ≡ id' = some-injective _ _ (sym law ∙ p) in rw (sym same) backed

pub AreBacked-store_token :
    (past : List Fact) (lib : Libraries) (r : Replies) (key : String → RedisKey) (ttl : Time)
    (id : Uuid) (s s' : AuthState) (token : String)
    → lib.codec.uuid_parse (lib.codec.uuid_string id) ≡ some id
    → ((t : String) → IsBackedFor past (key t) id)
    → AreBacked lib.codec past s
    → store_token lib r key ttl id s ≡ ok (token, s')
    → AreBacked lib.codec past s'
unfolding store_token
AreBacked-store_token past lib r key ttl id s s' token law backed inv done =
    elim (Option-cases r.draw) [
      | inl e ↦ let done' = (rw (store_token, e) at done) in cc
      | inr (t, e) ↦
          let d = (rw (store_token, e) at done) in
          elim (Result-cases (redis_set r (key t) (lib.codec.uuid_string id) ttl s)) [
            | inl f ↦ let d' = (rw f at d) in cc
            | inr (u, f) ↦
                let d' : ok (t, u) ≡ ok (token, s') = (rw f at d) in
                let same : u ≡ s' = ap (λ p. p.1) (ok-injective d') in
                AreBacked-redis_set lib.codec past r (key t) (lib.codec.uuid_string id) ttl s s'
                  (IsBacked-text lib.codec past (key t) id law (backed t)) inv (rw (f, same) refl)
          ]
    ]
