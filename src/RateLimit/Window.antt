-- ===== src/RateLimit/Window.antt =====
-- What the limiters let through in one window of a Redis that counts.
use tsa_proxy.Common.{
  ℕ, zero, suc, ◌+◌, ◌-◌, ◌≡◌, ◌≢◌, refl, min, Bool, true, false, Option, some, List, [], ◌∷◌, ◌==◌,
  ==_iff, if◌then◌else◌, Bool-cases, inl, inr, arith, ltb, ap, ◌∙◌,
}
use tsa_proxy.Common.Int.{ℤ, pos, negsuc, pos_part}
use tsa_proxy.ApiError.{ok, Answer, answer, refuse}
use tsa_proxy.Model.{Uuid}
use tsa_proxy.RateLimit.{
  Key, global_key, burst_key, Redis, counted, check_global, burst_script, check_tenant, limited_by,
  global, effective_limit, per_tenant,
}

-- Within a window: INCR adds one to its key alone and replies with the new value, EXPIRE changes no
-- value, and neither fails.
pub record IsCounting (R : Redis) : Type 0 where
  pub count : Key → R.State → ℕ
  pub reply : (k : Key) (s : R.State) → (R.incr k s).0 ≡ ok (suc (count k s))
  pub bumped : (k : Key) (s : R.State) → count k (R.incr k s).1 ≡ suc (count k s)
  pub others : (k l : Key) (s : R.State) → k ≢ l → count l (R.incr k s).1 ≡ count l s
  pub expires : (k : Key) (n : ℕ) (s : R.State) → (R.expire k n s).0 ≡ ok tt
  pub kept : (k l : Key) (n : ℕ) (s : R.State) → count l (R.expire k n s).1 ≡ count l s

abbrev pub is_answer {ℓ} : {A : Type ℓ} → Answer A → Bool
is_answer (answer a) = true
is_answer (refuse e) = false

abbrev pub as_ℕ : Bool → ℕ
as_ℕ true = 1
as_ℕ false = 0

-- How many requests of a tenant there are, and how many of them PerTenant passes on, in a sequence of
-- requests of any tenants.
abbrev pub requests_of : Uuid → List Uuid → ℕ
requests_of t [] = 0
requests_of t (u ∷ us) = as_ℕ (u == t) + requests_of t us

unfoldable pub passed_of : (R : Redis) → (Uuid → ℤ) → Uuid → List Uuid → R.State → ℕ
passed_of R burst t [] s = 0
passed_of R burst t (u ∷ us) s =
    let (r, s') = per_tenant R (some u) (some (burst u)) s in
    let rest = passed_of R burst t us s' in
    if u == t then as_ℕ (is_answer r.verdict) + rest else rest

unfoldable pub passed_global : (R : Redis) → ℕ → ℤ → ℕ → R.State → ℕ
passed_global R second rps zero s = 0
passed_global R second rps (suc n) s =
    as_ℕ (is_answer (global R second rps s).0.verdict)
    + passed_global R second rps n (global R second rps s).1

limited_verdict :
    (max : ℤ) (retry : ℕ) (records : Bool) (before : ℕ)
    → is_answer (limited_by max retry records (counted max (suc before))).verdict
      ≡ ltb before (pos_part max)
unfolding limited_by counted
limited_verdict max retry records before = ground arith

module _ (R : Redis) (law : IsCounting R) where
  script_reply : (k : Key) (s : R.State) → (burst_script R k s).0 ≡ ok (suc (law.count k s))
  unfolding burst_script
  script_reply k s =
      let after = (R.incr k s).1 in
      elim (Bool-cases (suc (law.count k s) == 1)) [
        | inl first ↦ rw (burst_script, law.reply k s) (rw first (rw (law.expires k 60 after) refl))
        | inr later ↦ rw (burst_script, law.reply k s) (rw later refl)
      ]

  script_count :
      (k l : Key) (s : R.State) → law.count l (burst_script R k s).1 ≡ law.count l (R.incr k s).1
  unfolding burst_script
  script_count k l s =
      let after = (R.incr k s).1 in
      elim (Bool-cases (suc (law.count k s) == 1)) [
        | inl first ↦ rw (burst_script, law.reply k s) (rw first (law.kept k l 60 after))
        | inr later ↦ rw (burst_script, law.reply k s) (rw later refl)
      ]

  global_count :
      (second : ℕ) (rps : ℤ) (s : R.State)
      → law.count (global_key second) (global R second rps s).1
        ≡ suc (law.count (global_key second) s)
  unfolding global check_global
  global_count second rps s =
      let k = global_key second in rw (law.kept k k 2 (R.incr k s).1) (law.bumped k s)

  global_verdict :
      (second : ℕ) (rps : ℤ) (s : R.State)
      → is_answer (global R second rps s).0.verdict
        ≡ ltb (law.count (global_key second) s) (pos_part rps)
  unfolding global check_global limited_by
  global_verdict second rps s =
      let k = global_key second in
      rw (law.reply k s) (rw (law.expires k 2 (R.incr k s).1) (ground arith))

  tenant_check :
      (u : Uuid) (l : ℤ) (s : R.State)
      → (check_tenant R u l s).0 ≡ counted l (suc (law.count (burst_key u) s))
  unfolding check_tenant
  tenant_check u l s = rw (check_tenant, script_reply (burst_key u) s) refl

  tenant_verdict :
      (u : Uuid) (l : ℤ) (s : R.State)
      → is_answer (per_tenant R (some u) (some l) s).0.verdict
        ≡ ltb (law.count (burst_key u) s) (pos_part (effective_limit (some l)))
  unfolding per_tenant
  tenant_verdict u l s =
      let limit = effective_limit (some l) in
      ap (λ c. is_answer (limited_by limit 60 true c).verdict) (tenant_check u limit s)
      ∙ limited_verdict limit 60 true (law.count (burst_key u) s)

  tenant_state :
      (u : Uuid) (l : Option ℤ) (s : R.State)
      → (per_tenant R (some u) l s).1 ≡ (burst_script R (burst_key u) s).1
  unfolding per_tenant check_tenant
  tenant_state u l s = refl

  tenant_count :
      (u : Uuid) (l : Option ℤ) (s : R.State)
      → law.count (burst_key u) (per_tenant R (some u) l s).1 ≡ suc (law.count (burst_key u) s)
  tenant_count u l s =
      let k = burst_key u in rw (tenant_state u l s, script_count k k s) (law.bumped k s)

  tenant_others :
      (t u : Uuid) (l : Option ℤ) (s : R.State)
      → (u == t) ≡ false
      → law.count (burst_key t) (per_tenant R (some u) l s).1 ≡ law.count (burst_key t) s
  tenant_others t u l s apart =
      let different : u ≢ t = ground arith in
      let keys : burst_key u ≢ burst_key t = λ same. different (cc (same)) in
      rw (tenant_state u l s, script_count (burst_key u) (burst_key t) s)
        (law.others (burst_key u) (burst_key t) s keys)

  passed_of_count :
      (burst : Uuid → ℤ) (t : Uuid) (us : List Uuid) (s : R.State)
      → passed_of R burst t us s
        ≡ min
            (requests_of t us)
            (pos_part (effective_limit (some (burst t))) - law.count (burst_key t) s)
  unfolding passed_of
  passed_of_count burst t [] s = omega arith
  passed_of_count burst t (u ∷ us) s =
      let s' = (per_tenant R (some u) (some (burst u)) s).1 in
      let rest = passed_of_count burst t us s' in
      elim (Bool-cases (u == t)) [
        | inl same ↦
            let e : u ≡ t = (==_iff u t).0 same in
            let verdict = tenant_verdict u (burst u) s in
            let count = tenant_count u (some (burst u)) s in
            let limit = pos_part (effective_limit (some (burst t))) in
            let verdict' : is_answer (per_tenant R (some u) (some (burst u)) s).0.verdict
                ≡ ltb (law.count (burst_key t) s) limit =
              cc (verdict, e) in
            let count' : law.count (burst_key t) s' ≡ suc (law.count (burst_key t) s) =
              cc (count, e) in
            rw (same, rest, verdict', count') (ground arith)
        | inr apart ↦ rw (apart, rest, tenant_others t u (some (burst u)) s apart) (omega arith)
      ]

  passed_global_count :
      (second : ℕ) (rps : ℤ) (n : ℕ) (s : R.State)
      → passed_global R second rps n s ≡ min n (pos_part rps - law.count (global_key second) s)
  unfolding passed_global
  passed_global_count second rps zero s = omega arith
  passed_global_count second rps (suc n) s =
      let s' = (global R second rps s).1 in
      rw
        (
          passed_global_count second rps n s',
          global_verdict second rps s,
          global_count second rps s,
        )
        (ground arith)

-- The limit of a tenant: 60 where none above zero is configured.
abbrev pub limit_of : ℤ → ℕ
limit_of burst = if pos_part burst == 0 then 60 else pos_part burst

effective_limit_lem : (burst : ℤ) → pos_part (effective_limit (some burst)) ≡ limit_of burst
unfolding effective_limit
effective_limit_lem (pos n) = ground arith
effective_limit_lem (negsuc n) = ground arith

-- PerTenant on a Redis that counts: of any sequence of requests that starts and ends in one window of
-- a tenant, in which other tenants' requests may stand anywhere, exactly the smaller of their number
-- and of the tenant's limit pass, where a limit that is not positive reads as 60.
pub per_tenant-window :
    (R : Redis) (law : IsCounting R) (burst : Uuid → ℤ) (t : Uuid) (us : List Uuid) (s : R.State)
    → law.count (burst_key t) s ≡ 0
    → passed_of R burst t us s ≡ min (requests_of t us) (limit_of (burst t))
per_tenant-window R law burst t us s fresh =
    rw (passed_of_count R law burst t us s, fresh) (omega (arith, effective_limit_lem (burst t)))

-- Global on a Redis that counts: of the requests of one second, exactly the smaller of their number
-- and of the configured rate pass, and none if the rate is negative.
pub global-window :
    (R : Redis) (law : IsCounting R) (second : ℕ) (rps : ℤ) (n : ℕ) (s : R.State)
    → law.count (global_key second) s ≡ 0
    → passed_global R second rps n s ≡ min n (pos_part rps)
global-window R law second rps n s fresh =
    rw (passed_global_count R law second rps n s, fresh) (omega arith)
