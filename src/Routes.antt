-- ===== src/Routes.antt =====
-- internal/server/router.go: the chain of middlewares before the handler of POST /api/v1/timestamp
-- (Global, Authenticate, Check, PerTenant, Handle). A middleware that refuses ends the request.
use tsa_proxy.Common.{ℕ, String, Option, none, some, List, [], ◌++◌}
use tsa_proxy.Common.Int.{ℤ}
use tsa_proxy.ApiError.{Result, Answer, answer, refuse}
use tsa_proxy.Model.{Uuid}
use tsa_proxy.RateLimit.{Redis, global, per_tenant}
use tsa_proxy.Auth.{Bytes, HttpRequest, Identity, AuthEffect}
use tsa_proxy.Auth.ApiKey.{KeyReplies, authenticate}
use tsa_proxy.IpAllowlist.{Net, IpRequest, IpEffect, check}
use tsa_proxy.Stamp.Effects.{Settings, Replies, Effect}
use tsa_proxy.Handler.{Post, Context, Reply, handle}
pub mod Guarded

-- One request with everything the chain reads about it.
pub record Call : Type 0 where
  pub http : HttpRequest
  pub post : Post
  pub second : ℕ
  pub global_rps : ℤ
  pub max_request_body : ℤ
  pub keys : KeyReplies
  pub cached_cidrs : Uuid → Result (List String)
  pub stored_cidrs : Uuid → Result (List String)
  pub replies : Replies

-- The answer, what each part leaves, and the counters after.
pub record Served (R : Redis) : Type 0 where
  pub reply : Answer Reply
  pub auth_effects : List AuthEffect
  pub ip_effects : List IpEffect
  pub effects : List Effect
  pub counters : R.State

unfoldable pub context_of : Identity → Context
context_of i = record {
  tenant = some i.tenant_id;
  credential = some i.credential_id;
  client_ip = some i.client_ip;
}

unfoldable pub ip_request_of : Call → Identity → IpRequest
ip_request_of call i = record {
  tenant = some i.tenant_id;
  context_ip = i.client_ip;
  real_ip = call.http.real_ip;
  cached = call.cached_cidrs;
  stored = call.stored_cidrs;
}

unfoldable pub limited : (R : Redis) → Settings → Call → Identity → R.State → Served R
unfolding context_of
limited R cfg call i s =
    let (limit, s') = per_tenant R (some i.tenant_id) (some i.burst_limit) s in
    elim limit.verdict [
      | refuse e ↦ record {
        reply = refuse e;
        auth_effects = [];
        ip_effects = [];
        effects = [];
        counters = s';
      }
      | answer _ ↦
          let (reply, es) =
            handle cfg call.max_request_body call.replies call.post (context_of i) in
          record { reply = reply; auth_effects = []; ip_effects = []; effects = es; counters = s' }
    ]

unfoldable pub checked : (R : Redis) → Net → Settings → Call → Identity → R.State → Served R
unfolding limited ip_request_of
checked R net cfg call i s =
    let (allowed, es) = check net (ip_request_of call i) in
    elim allowed [
      | refuse e ↦ record {
        reply = refuse e;
        auth_effects = [];
        ip_effects = es;
        effects = [];
        counters = s;
      }
      | answer _ ↦ record (limited R cfg call i s) { ip_effects = es }
    ]

unfoldable pub authenticated :
    (R : Redis) → Net → (Bytes → Bytes) → Settings → Call → R.State → Served R
unfolding checked
authenticated R net sha256 cfg call s =
    let (who, es) = authenticate sha256 call.http call.keys in
    elim who [
      | refuse e ↦ record {
        reply = refuse e;
        auth_effects = es;
        ip_effects = [];
        effects = [];
        counters = s;
      }
      | answer i ↦ record (checked R net cfg call i s) { auth_effects = es }
    ]

unfoldable pub serve_timestamp :
    (R : Redis) → Net → (Bytes → Bytes) → Settings → Call → R.State → Served R
unfolding authenticated
serve_timestamp R net sha256 cfg call s =
    let (limit, s') = global R call.second call.global_rps s in
    elim limit.verdict [
      | refuse e ↦ record {
        reply = refuse e;
        auth_effects = [];
        ip_effects = [];
        effects = [];
        counters = s';
      }
      | answer _ ↦ authenticated R net sha256 cfg call s'
    ]
