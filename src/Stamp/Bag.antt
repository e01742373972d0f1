-- ===== src/Stamp/Bag.antt =====
-- Requests of one tenant that overlap in Process: the check of the bundles reads the consumption, and
-- recordUsage adds to it later, in between or after the answer. The steps call the modelled parts of
-- Process; which of them stand beside each other is what go statements and requests leave open.
use tsa_proxy.Common.{
  ℕ, suc, ◌+◌, ◌≤◌, ◌<◌, ◌≡◌, ◌⊎◌, refl, inl, inr, Bool, true, false, some, List, Bool-cases,
  if◌then◌else◌, ◌==◌, arith,
}
use tsa_proxy.ApiError.{answer, refuse, err_quota_exceeded}
use tsa_proxy.Model.{Uuid, TenantQuota}
use tsa_proxy.Bundles.{MonthlyAggregate, total_consumption}
use tsa_proxy.Stamp.Effects.{Request, Replies, Settings}
use tsa_proxy.Stamp.Usage.{Outcome, record_usage}
use tsa_proxy.Stamp.Process.{
  get_cached_contracted, get_or_seed_consumed, is_exhausted, check_bag, process,
}
use tsa_proxy.Stamp.Quiet.{record_usage_effects}
use tsa_proxy.Stamp.Tables.{written, written-consumption, written-grows}

-- The table of the aggregates, with two counts that only the statement keeps: the requests of the
-- tenant that passed the check and are not in the table, and all that passed it.
pub record Bag : Type 0 where
  pub rows : List MonthlyAggregate
  pub unrecorded : ℕ
  pub admitted : ℕ

abbrev pub opened : List MonthlyAggregate → Bag
opened rows = record { rows = rows; unrecorded = 0; admitted = 0 }

abbrev pub consumed : Uuid → Bag → ℕ
consumed tenant b = total_consumption tenant b.rows

-- A check of the tenant that reads the totals of the moment and passes, where fewer than `width`
-- requests are unrecorded; recordUsage of one that passed, which leaves it unrecorded where the
-- write fails; a check of the tenant that refuses and records, whatever it reads; and a whole run of
-- Process for another tenant.
pub data Step (tenant : Uuid) (contracted width : ℕ) : Bag → Bag → Type 0 where
  admit :
      (b : Bag) (r : Replies) (req : Request) (q : TenantQuota)
      → req.tenant_id ≡ tenant
      → (get_cached_contracted r req).0 ≡ contracted
      → (get_or_seed_consumed r req).0 ≡ consumed tenant b
      → (check_bag r req (some q)).0 ≡ answer tt
      → b.unrecorded < width
      → Step tenant contracted width b
          (record b { unrecorded = suc b.unrecorded; admitted = suc b.admitted })
  record_admitted :
      (b : Bag) (r : Replies) (req : Request) (o : Outcome) (n : ℕ)
      → req.tenant_id ≡ tenant
      → b.unrecorded ≡ suc n
      → Step tenant contracted width b (record b {
        rows = written r.aggregate_written (record_usage r req o) b.rows;
        unrecorded = if r.aggregate_written then n else suc n;
      })
  refuse_request :
      (b : Bag) (r : Replies) (req : Request) (q : TenantQuota)
      → req.tenant_id ≡ tenant
      → (check_bag r req (some q)).0 ≡ refuse err_quota_exceeded
      → Step tenant contracted width b
          (record b { rows = written r.aggregate_written (check_bag r req (some q)).1 b.rows })
  serve_other :
      (b : Bag) (cfg : Settings) (r : Replies) (req : Request)
      → (req.tenant_id == tenant) ≡ false
      → Step tenant contracted width b
          (record b { rows = written r.aggregate_written (process cfg r req).1 b.rows })

pub data Reach (tenant : Uuid) (contracted width : ℕ) (s : Bag) : Bag → Type 0 where
  start : Reach tenant contracted width s s
  after :
      {t u : Bag}
      → Reach tenant contracted width s t
      → Step tenant contracted width t u
      → Reach tenant contracted width s u

passed_check :
    (r : Replies) (req : Request) (q : TenantQuota)
    → (check_bag r req (some q)).0 ≡ answer tt
    → is_exhausted (get_or_seed_consumed r req).0 (get_cached_contracted r req).0 ≡ false
unfolding check_bag
passed_check r req q h =
    elim (Bool-cases
      (is_exhausted (get_or_seed_consumed r req).0 (get_cached_contracted r req).0)) [
        | inl e ↦ let h' = (rw (check_bag, e) at h) in cc
        | inr e ↦ e
      ]

-- recordUsage moves one request of the tenant into the table, or none.
recorded_one :
    (up : Bool) (r : Replies) (req : Request) (o : Outcome) (tenant n : ℕ)
    (rows : List MonthlyAggregate)
    → req.tenant_id ≡ tenant
    → total_consumption tenant rows + suc n
      ≤ total_consumption tenant (written up (record_usage r req o) rows)
        + (if up then n else suc n)
recorded_one false r req o tenant n rows own =
    omega (arith, written-grows false tenant (record_usage r req o) rows)
recorded_one true r req o tenant n rows own =
    let grown = written-consumption tenant (record_usage r req o) rows in
    let grown' = (rw ((record_usage_effects r req o).0, own) at grown) in ground arith

-- What is kept: every request that passed is in the table or unrecorded, and the last one to pass
-- found room in the bundles.
record IsWithin (tenant : Uuid) (contracted width first : ℕ) (b : Bag) : Type 0 where
  counted : first + b.admitted ≤ consumed tenant b + b.unrecorded
  few : b.unrecorded ≤ width
  room : (b.admitted ≡ 0) ⊎ (first + b.admitted < contracted + width)

Step-IsWithin :
    {tenant : Uuid} {contracted width first : ℕ} {t u : Bag}
    → 0 < contracted
    → Step tenant contracted width t u
    → IsWithin tenant contracted width first t
    → IsWithin tenant contracted width first u
unfolding is_exhausted
Step-IsWithin pos (admit b r req q own total read passed fewer) w =
    let free = passed_check r req q passed in
    let free' = (rw (total, read) at free) in
    record {
      counted = omega (arith, w.counted);
      few = omega (arith, fewer);
      room = inr (ground (arith, w.counted, free', fewer, pos));
    }
Step-IsWithin {tenant} pos (record_admitted b r req o n own one) w =
    let moved = recorded_one r.aggregate_written r req o tenant n b.rows own in
    record {
      counted = omega (arith, w.counted, one, moved);
      few = ground (arith, w.few, one);
      room = w.room;
    }
Step-IsWithin {tenant} pos (refuse_request b r req q own full) w = record {
  counted = omega (
    arith,
    w.counted,
    written-grows r.aggregate_written tenant (check_bag r req (some q)).1 b.rows,
  );
  few = w.few;
  room = w.room;
}
Step-IsWithin {tenant} pos (serve_other b cfg r req other) w = record {
  counted =
      omega
        (arith, w.counted, written-grows r.aggregate_written tenant (process cfg r req).1 b.rows);
  few = w.few;
  room = w.room;
}

Reach-IsWithin :
    {tenant : Uuid} {contracted width : ℕ} {rows : List MonthlyAggregate} {b : Bag}
    → 0 < contracted
    → Reach tenant contracted width (opened rows) b
    → IsWithin tenant contracted width (total_consumption tenant rows) b
Reach-IsWithin pos start = record { counted = omega arith; few = omega arith; room = inl refl }
Reach-IsWithin pos (after run step) = Step-IsWithin pos step (Reach-IsWithin pos run)

-- Take a tenant with a quota row and a contracted total above 0 that does not change, from any table
-- on. However the tenant's requests overlap, and whatever other tenants do: if each check that
-- passes reads the consumption that the table has at its moment, and at no time more than `width`
-- requests have passed the check without being in the table, a failed write included, then either
-- none passes, or what was consumed before and the requests that pass exceed the contracted total by
-- less than `width`.
pub overlap_bound :
    (tenant : Uuid) (contracted width : ℕ) (rows : List MonthlyAggregate) (b : Bag)
    → 0 < contracted
    → Reach tenant contracted width (opened rows) b
    → (b.admitted ≡ 0) ⊎ (total_consumption tenant rows + b.admitted < contracted + width)
overlap_bound tenant contracted width rows b some_total run = (Reach-IsWithin some_total run).room
