-- ===== src/Routes/Guarded.antt =====
-- Nothing reaches the flow of POST /api/v1/timestamp without passing the four middlewares.
use tsa_proxy.Common.{◌≡◌, refl, some, [], inl, inr}
use tsa_proxy.ApiError.{ApiError, answer, refuse, Answer-cases}
use tsa_proxy.RateLimit.{Redis, global, per_tenant}
use tsa_proxy.Auth.{Bytes, Identity}
use tsa_proxy.Auth.ApiKey.{authenticate}
use tsa_proxy.IpAllowlist.{Net, check}
use tsa_proxy.Stamp.Effects.{Settings}
use tsa_proxy.Handler.{handle}
use tsa_proxy.Routes.{
  Call, Served, context_of, ip_request_of, limited, checked, authenticated, serve_timestamp,
}

-- Either the request is refused and nothing of the flow is done; or every middleware lets it through,
-- and it is handled with the identity that the authentication found.
pub data IsGuarded (R : Redis) (net : Net) (sha256 : Bytes → Bytes) (cfg : Settings) (call : Call)
    (s : R.State) (served : Served R) : Type 0 where
  barred :
      (e : ApiError)
      → served.reply ≡ refuse e
      → served.effects ≡ []
      → IsGuarded R net sha256 cfg call s served
  passed :
      (i : Identity)
      → (global R call.second call.global_rps s).0.verdict ≡ answer tt
      → (authenticate sha256 call.http call.keys).0 ≡ answer i
      → (check net (ip_request_of call i)).0 ≡ answer tt
      → (per_tenant R
          (some i.tenant_id)
          (some i.burst_limit)
          (global R call.second call.global_rps s).1).0.verdict
        ≡ answer tt
      → served.reply ≡ (handle cfg call.max_request_body call.replies call.post (context_of i)).0
      → served.effects ≡ (handle cfg call.max_request_body call.replies call.post (context_of i)).1
      → IsGuarded R net sha256 cfg call s served

-- Whatever a request to /api/v1/timestamp carries and the stores reply: either it is refused and leaves
-- no effect of the flow, or Global, Authenticate, Check and PerTenant all let it through, the last
-- two for the tenant that Authenticate found, and it is answered as Handle answers for that identity.
pub serve_timestamp-IsGuarded :
    (R : Redis) (net : Net) (sha256 : Bytes → Bytes) (cfg : Settings) (call : Call) (s : R.State)
    → IsGuarded R net sha256 cfg call s (serve_timestamp R net sha256 cfg call s)
unfolding serve_timestamp authenticated checked limited
serve_timestamp-IsGuarded R net sha256 cfg call s =
    let s' = (global R call.second call.global_rps s).1 in
    elim (Answer-cases (global R call.second call.global_rps s).0.verdict) [
      | inl (e, no_rate) ↦
          barred e (rw (serve_timestamp, no_rate) refl) (rw (serve_timestamp, no_rate) refl)
      | inr (_, rate) ↦ elim (Answer-cases (authenticate sha256 call.http call.keys).0) [
        | inl (e, nobody) ↦
            barred e (rw (serve_timestamp, rate) (rw (authenticated, nobody) refl))
              (rw (serve_timestamp, rate) (rw (authenticated, nobody) refl))
        | inr (i, who) ↦ elim (Answer-cases (check net (ip_request_of call i)).0) [
          | inl (e, off) ↦
              barred e
                (rw (serve_timestamp, rate) (rw (authenticated, who) (rw (checked, off) refl)))
                (rw (serve_timestamp, rate) (rw (authenticated, who) (rw (checked, off) refl)))
          | inr (_, on) ↦
              elim (Answer-cases
                (per_tenant R (some i.tenant_id) (some i.burst_limit) s').0.verdict) [
                  | inl (e, burst) ↦
                      barred e
                        (rw (serve_timestamp, rate)
                          (rw (authenticated, who) (rw (checked, on) (rw (limited, burst) refl))))
                        (rw (serve_timestamp, rate)
                          (rw (authenticated, who) (rw (checked, on) (rw (limited, burst) refl))))
                  | inr (_, room) ↦
                      passed i rate who on room
                        (rw (serve_timestamp, rate)
                          (rw (authenticated, who) (rw (checked, on) (rw (limited, room) refl))))
                        (rw (serve_timestamp, rate)
                          (rw (authenticated, who) (rw (checked, on) (rw (limited, room) refl))))
                ]
        ]
      ]
    ]
