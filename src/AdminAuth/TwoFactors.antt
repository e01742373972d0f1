-- ===== src/AdminAuth/TwoFactors.antt =====
-- No call of the session endpoints makes a session without both factors.
use mathlib.Core.Option.{none-ne-some}
use tsa_proxy.Common.{String, ◌≡◌, sym, ◌∙◌, ap, none, some, List, [], ◌∷◌, Option-cases, inl, inr}
use tsa_proxy.ApiError.{ok, ok-injective}
use tsa_proxy.Model.{Uuid}
use tsa_proxy.AdminUsers.{AdminUser}
use tsa_proxy.AdminAuth.{
  RedisKey, refresh_key, AuthState, Libraries, Replies, generate_access_token,
}
use tsa_proxy.AdminAuth.Login.{token_user, refresh}
use tsa_proxy.AdminAuth.Store.{Fact, password_ok, code_ok, Has, AreBacked, note}
use tsa_proxy.AdminAuth.Proven.{token_user-IsBacked}
use tsa_proxy.AdminAuth.Sessions.{AuthCall, after_call, fact_of, run_calls}
use tsa_proxy.AdminAuth.Kept.{after_call-AreBacked}

module _ (lib : Libraries)
    (ids : (u : Uuid) → lib.codec.uuid_parse (lib.codec.uuid_string u) ≡ some u) where
  run_calls-AreBacked :
      (calls : List (Replies × AuthCall)) (past : List Fact) (s : AuthState)
      → AreBacked lib.codec past s
      → AreBacked lib.codec (run_calls lib calls past s).0 (run_calls lib calls past s).1
  unfolding run_calls
  run_calls-AreBacked [] past s inv = inv
  run_calls-AreBacked ((r, call) ∷ calls) past s inv =
      run_calls-AreBacked calls (note (fact_of lib r call s) past) (after_call lib r call s)
        (after_call-AreBacked lib ids r s past call inv)

-- After any calls of the session endpoints from a state without tokens, whatever failed on the way,
-- a refresh token for which an access token is given belongs to a user for whom both a right
-- password and a valid code were presented among those calls.
pub sessions_have_two_factors :
    (lib : Libraries) (ids : (u : Uuid) → lib.codec.uuid_parse (lib.codec.uuid_string u) ≡ some u)
    (calls : List (Replies × AuthCall)) (s : AuthState)
    → ((k : RedisKey) → s.redis k ≡ none)
    → (r : Replies) (t access : String)
    → let (past, s') = run_calls lib calls [] s in
      refresh lib r t s' ≡ ok access
      → (user : AdminUser) × ((generate_access_token lib r user ≡ some access)
          × (Has (password_ok user.id) past × Has (code_ok user.id) past))
unfolding refresh
sessions_have_two_factors lib ids calls s empty r t access h =
    let s' = (run_calls lib calls [] s).1 in
    let past = (run_calls lib calls [] s).0 in
    let inv =
      run_calls-AreBacked lib ids calls [] s
        (λ k e stored id p. absurd (none-ne-some e (sym (empty k) ∙ stored))) in
    elim (Option-cases (token_user lib r (refresh_key t) s')) [
      | inl e ↦ let h' = (rw (refresh, e) at h) in cc
      | inr (user, e) ↦
          let h' = (rw (refresh, e) at h) in
          elim (Option-cases (generate_access_token lib r user)) [
            | inl f ↦ let h'' = (rw f at h') in cc
            | inr (a, f) ↦
                let h'' : ok a ≡ ok access = (rw f at h') in
                (
                  user,
                  (
                    f ∙ ap some (ok-injective h''),
                    token_user-IsBacked past lib r (refresh_key t) s' user inv e,
                  ),
                )
          ]
    ]
