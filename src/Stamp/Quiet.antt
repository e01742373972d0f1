-- ===== src/Stamp/Quiet.antt =====
-- The writes of the aggregate and the requests to the upstream among the effects of a run, and the
-- parts of the flow that leave neither.
use tsa_proxy.Common.{ℕ, ◌+◌, ◌≡◌, refl, List, [], ◌∷◌, ◌++◌, arith}
use tsa_proxy.Model.{Uuid, UsageStatus}
use tsa_proxy.Upstream.Client.Cost.{count_posts}
use tsa_proxy.Stamp.Effects.{
  Request, Settings, Replies, Effect, call_upstream, upsert_monthly_aggregate, set_tenant_quota,
}
use tsa_proxy.Stamp.Usage.{Outcome, record_usage}
use tsa_proxy.Stamp.Process.{
  lookup_quota, get_cached_contracted, get_or_seed_consumed, choose_upstream,
}

-- The calls of UpsertMonthlyAggregate: for which tenant, and with which status.
abbrev pub upserts : List Effect → List (Uuid × UsageStatus)
upserts [] = []
upserts (upsert_monthly_aggregate t y m s l ∷ es) = (t, s) ∷ upserts es
upserts (_ ∷ es) = upserts es

-- How many requests the run sends to the upstream.
abbrev pub requests : List Effect → ℕ
requests [] = 0
requests (call_upstream trace ∷ es) = count_posts trace + requests es
requests (_ ∷ es) = requests es

pub upserts-append : (es fs : List Effect) → upserts (es ++ fs) ≡ upserts es ++ upserts fs
upserts-append [] fs = refl
upserts-append (upsert_monthly_aggregate t y m s l ∷ es) fs = rw (upserts-append es fs)
upserts-append (set_tenant_quota _ _ ∷ es) fs = upserts-append es fs
upserts-append (_ ∷ es) fs = upserts-append es fs

pub requests-append : (es fs : List Effect) → requests (es ++ fs) ≡ requests es + requests fs
requests-append [] fs = omega arith
requests-append (call_upstream trace ∷ es) fs = omega (arith, requests-append es fs)
requests-append (set_tenant_quota _ _ ∷ es) fs = requests-append es fs
requests-append (_ ∷ es) fs = requests-append es fs

-- The effects write no aggregate and send nothing to the upstream.
pub record IsQuiet (es : List Effect) : Type 0 where
  pub silent : upserts es ≡ []
  pub idle : requests es ≡ 0

pub lookup_quota-IsQuiet : (r : Replies) (req : Request) → IsQuiet (lookup_quota r req).1
unfolding lookup_quota
lookup_quota-IsQuiet r req = record { silent = ground arith; idle = ground arith }

pub contracted-IsQuiet : (r : Replies) (req : Request) → IsQuiet (get_cached_contracted r req).1
unfolding get_cached_contracted
contracted-IsQuiet r req = record { silent = ground arith; idle = ground arith }

pub consumed-IsQuiet : (r : Replies) (req : Request) → IsQuiet (get_or_seed_consumed r req).1
unfolding get_or_seed_consumed
consumed-IsQuiet r req = record { silent = ground arith; idle = ground arith }

pub choose_upstream-IsQuiet : (cfg : Settings) (r : Replies) → IsQuiet (choose_upstream cfg r).1
unfolding choose_upstream
choose_upstream-IsQuiet cfg r = record { silent = ground arith; idle = ground arith }

pub record_usage_effects :
    (r : Replies) (req : Request) (o : Outcome)
    → (upserts (record_usage r req o) ≡ (req.tenant_id, o.status) ∷ [])
      × (requests (record_usage r req o) ≡ 0)
unfolding record_usage
record_usage_effects r req o = (ground arith, ground arith)
