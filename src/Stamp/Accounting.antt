-- ===== src/Stamp/Accounting.antt =====
-- How each run of Process is accounted for.
use tsa_proxy.Common.{
  ℕ, ◌+◌, ◌≤◌, ◌≡◌, refl, Bool, true, false, ◌&&◌, Option, none, some, List, [], ◌∷◌, ◌++◌, arith,
  leb, ◌==◌, length, if◌then◌else◌, Bool-cases, inl, inr,
}
use tsa_proxy.ApiError.{
  ApiError, Answer, answer, refuse, err_internal, err_quota_exceeded, err_upstream_unavailable,
}
use tsa_proxy.Model.{Uuid, TenantQuota, TsaUpstream, UsageStatus, success, error, rejected}
use tsa_proxy.Upstream.Client.{send}
use tsa_proxy.Stamp.Effects.{Request, Stamped, Settings, Replies, Effect, Run, ◌>>=◌}
use tsa_proxy.Stamp.Usage.{record_usage}
use tsa_proxy.Stamp.Process.{
  lookup_quota, get_cached_contracted, get_or_seed_consumed, is_exhausted, quota_outcome, check_bag,
  choose_upstream, send_params, outcome_of, conclude, stamp, process, fall_back, failure_outcome,
  success_outcome, quota_outcome,
}
use tsa_proxy.Upstream.Client.Retries.{attempts, send-IsSettled}
use tsa_proxy.Stamp.Quiet.{
  upserts, requests, IsQuiet, upserts-append, requests-append, lookup_quota-IsQuiet,
  contracted-IsQuiet, consumed-IsQuiet, choose_upstream-IsQuiet, record_usage_effects,
}
use tsa_proxy.Stamp.Tables.{written, raised, written-consumption, unwritten}
use tsa_proxy.Bundles.{MonthlyAggregate, total_consumption}
use tsa_proxy.Upstream.Client.Cost.{count_posts, send_cost}

-- How many requests the upstream that the run chooses may get.
abbrev attempts_of : Answer TsaUpstream → ℕ
attempts_of (answer u) = attempts u.max_retries
attempts_of (refuse e) = 0

abbrev pub attempt_limit : Settings → Replies → ℕ
attempt_limit cfg r = attempts_of (choose_upstream cfg r).0

-- The ways a run for a tenant can end: what it answers, the writes of the aggregate that it calls
-- for, and how many requests it sends to the upstream, at most `limit`.
pub data Accounts (tenant : Uuid) (limit : ℕ)
    : Answer Stamped → List (Uuid × UsageStatus) → ℕ → Type 0 where
  stamped :
      (s : Stamped) (n : ℕ)
      → n ≤ limit
      → Accounts tenant limit (answer s) ((tenant, success) ∷ []) n
  upstream_failed :
      (n : ℕ)
      → n ≤ limit
      → Accounts tenant limit (refuse err_upstream_unavailable) ((tenant, error) ∷ []) n
  exhausted : Accounts tenant limit (refuse err_quota_exceeded) ((tenant, rejected) ∷ []) 0
  no_upstream : Accounts tenant limit (refuse err_upstream_unavailable) [] 0
  lookup_failed : Accounts tenant limit (refuse err_internal) [] 0

abbrev IsAccounted : Uuid → ℕ → Run Stamped → Type 0
IsAccounted tenant limit m = Accounts tenant limit m.0 (upserts m.1) (requests m.1)

-- Quiet effects before the rest of a run change nothing of its account.
IsAccounted-after :
    (tenant : Uuid) (limit : ℕ) (es : List Effect) (m : Run Stamped)
    → IsQuiet es
    → IsAccounted tenant limit m
    → IsAccounted tenant limit (m.0, es ++ m.1)
IsAccounted-after tenant limit es m q a =
    let sent : requests es + requests m.1 ≡ requests m.1 = omega (arith, q.idle) in
    rw (upserts-append es m.1, requests-append es m.1) (rw (q.silent, sent) a)

append-IsQuiet : (es fs : List Effect) → IsQuiet es → IsQuiet fs → IsQuiet (es ++ fs)
append-IsQuiet es fs p q = record {
  silent = rw (upserts-append es fs) (rw (p.silent) q.silent);
  idle = rw (requests-append es fs) (omega (arith, p.idle, q.idle));
}

-- From the call of the upstream on: its requests, and one record of how it went.
stamp-IsAccounted :
    (cfg : Settings) (r : Replies) (req : Request) (u : TsaUpstream)
    → IsAccounted req.tenant_id (attempts u.max_retries) (stamp cfg r req u)
unfolding stamp conclude outcome_of failure_outcome success_outcome send_params
stamp-IsAccounted cfg r req u =
    let p = send_params cfg r u in
    let sent = send r.exchange r.cancelled req.body p in
    let o = outcome_of r req sent.error sent.response in
    let n = count_posts sent.trace + 0 in
    let few : n ≤ attempts u.max_retries =
      omega (arith, (send_cost r.exchange r.cancelled req.body p).0) in
    rw ((record_usage_effects r req o).0, (record_usage_effects r req o).1)
      (elim (send-IsSettled r.exchange r.cancelled req.body p) [
        | inr (silent, (e, why)) ↦ rw (silent, why) (upstream_failed n few)
        | inl ((resp, got), fine) ↦ elim (Bool-cases (leb 500 resp.http_status)) [
          | inl bad ↦ rw (got, fine) (rw bad (upstream_failed n few))
          | inr good ↦ rw (got, fine) (rw good (stamped _ n few))
        ]
      ])

-- A quiet first part that can only refuse with an account of its own, before an accounted rest.
bind-IsAccounted {ℓ} :
    {A : Type ℓ} (tenant : Uuid) (limit : ℕ) (m : Run A) (f : A → Run Stamped)
    → IsQuiet m.1
    → ((e : ApiError) → m.0 ≡ refuse e → Accounts tenant limit (refuse e) [] 0)
    → ((a : A) → m.0 ≡ answer a → IsAccounted tenant limit (f a))
    → IsAccounted tenant limit (m >>= f)
bind-IsAccounted tenant limit (answer a, es) f q refused rest =
    IsAccounted-after tenant limit es (f a) q (rest a refl)
bind-IsAccounted tenant limit (refuse e, es) f q refused rest =
    rw (q.silent, q.idle) (refused e refl)

pub lookup_quota-refuse :
    (r : Replies) (req : Request) (e : ApiError)
    → (lookup_quota r req).0 ≡ refuse e
    → e ≡ err_internal
unfolding lookup_quota
lookup_quota-refuse r req e h = ground arith

pub choose_upstream-refuse :
    (cfg : Settings) (r : Replies) (e : ApiError)
    → (choose_upstream cfg r).0 ≡ refuse e
    → e ≡ err_upstream_unavailable
unfolding choose_upstream fall_back
choose_upstream-refuse cfg r e h = ground arith

-- The effects of an exhausted check: quiet reads, then the record.
reject_effects :
    (limit : ℕ) (es fs : List Effect) (r : Replies) (req : Request)
    → IsQuiet es
    → IsQuiet fs
    → IsAccounted req.tenant_id limit
        (refuse err_quota_exceeded, es ++ fs ++ record_usage r req (quota_outcome req))
unfolding quota_outcome
reject_effects limit es fs r req p q =
    let last = record_usage_effects r req (quota_outcome req) in
    let es' = record_usage r req (quota_outcome req) in
    IsAccounted-after req.tenant_id limit (es ++ fs) (refuse err_quota_exceeded, es')
      (append-IsQuiet es fs p q) (rw (last.0, last.1) exhausted)

check_bag-IsAccounted :
    (limit : ℕ) (r : Replies) (req : Request) (q : Option TenantQuota) (rest : Run Stamped)
    → IsAccounted req.tenant_id limit rest
    → IsAccounted req.tenant_id limit (check_bag r req q >>= λ _. rest)
unfolding check_bag
check_bag-IsAccounted limit r req none rest a = a
check_bag-IsAccounted limit r req (some q) rest a =
    let (contracted, es) = get_cached_contracted r req in
    let (consumed, fs) = get_or_seed_consumed r req in
    let quiet = contracted-IsQuiet r req in
    let quiet' = consumed-IsQuiet r req in
    elim (Bool-cases (is_exhausted consumed contracted)) [
      | inl out ↦ rw out (reject_effects limit es fs r req quiet quiet')
      | inr within ↦ rw within (
          IsAccounted-after req.tenant_id limit (es ++ fs) rest (append-IsQuiet es fs quiet quiet')
            a)
    ]

process-IsAccounted :
    (cfg : Settings) (r : Replies) (req : Request)
    → IsAccounted req.tenant_id (attempt_limit cfg r) (process cfg r req)
unfolding process
process-IsAccounted cfg r req =
    let t = req.tenant_id in
    let limit = attempt_limit cfg r in
    bind-IsAccounted t limit (lookup_quota r req) _ (lookup_quota-IsQuiet r req)
      (λ e h. rw (lookup_quota-refuse r req e h) lookup_failed)
      (λ q h. check_bag-IsAccounted limit r req q _ (
        bind-IsAccounted t limit (choose_upstream cfg r) _ (choose_upstream-IsQuiet cfg r)
          (λ e h. rw (choose_upstream-refuse cfg r e h) no_upstream)
          (λ u h. rw h (stamp-IsAccounted cfg r req u))))

-- The writes of an account are for its tenant.
Accounts-raised :
    {tenant limit n : ℕ} {a : Answer Stamped} {us : List (Uuid × UsageStatus)}
    → Accounts tenant limit a us n
    → (other : Uuid) → raised other us ≡ (if tenant == other then length us else 0)
Accounts-raised (stamped s n few) other = ground arith
Accounts-raised (upstream_failed n few) other = ground arith
Accounts-raised exhausted other = ground arith
Accounts-raised no_upstream other = ground arith
Accounts-raised lookup_failed other = ground arith

Accounts-consumption :
    (up : Bool) (tenant limit n other : ℕ) (a : Answer Stamped) (es : List Effect)
    (rows : List MonthlyAggregate)
    → Accounts tenant limit a (upserts es) n
    → total_consumption other (written up es rows)
      ≡ (if up && tenant == other then length (upserts es) else 0) + total_consumption other rows
Accounts-consumption true tenant limit n other a es rows account =
    rw (← Accounts-raised account other) (written-consumption other es rows)
Accounts-consumption false tenant limit n other a es rows account =
    rw (unwritten es rows) (omega arith)

-- Whatever the calls reply, a run of Process ends in one of five ways: it answers, and calls for one
-- write of `success` to the monthly aggregate; it refuses with upstream_unavailable, and calls for
-- one of `error`; both times it has sent at most MaxRetries + 1 requests to the upstream that it
-- chose; it refuses with quota_exceeded, and calls for one of `rejected`; or it refuses with
-- upstream_unavailable or internal_error, and calls for none; these send no request. If the
-- database carries that write out, the consumption of the tenant grows by the number of writes, one
-- or none; if it does not, it stays; and the consumption of the other tenants stays.
pub process-Accounts :
    (cfg : Settings) (r : Replies) (req : Request) (rows : List MonthlyAggregate) (other : Uuid)
    → let (a, es) = process cfg r req in
      Accounts req.tenant_id (attempt_limit cfg r) a (upserts es) (requests es)
      × (total_consumption other (written r.aggregate_written es rows)
          ≡ (if r.aggregate_written && req.tenant_id == other then length (upserts es) else 0)
            + total_consumption other rows)
process-Accounts cfg r req rows other =
    let account = process-IsAccounted cfg r req in
    (
      account,
      Accounts-consumption r.aggregate_written _ _ _ other _ (process cfg r req).1 rows account,
    )
