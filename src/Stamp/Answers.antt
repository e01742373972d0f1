-- ===== src/Stamp/Answers.antt =====
-- When a run of Process answers, and when it refuses for the bundles.
use tsa_proxy.Common.{
  ℕ, ◌≤◌, ◌<◌, ◌≡◌, ◌≢◌, ◌↔◌, refl, true, false, Option, none, some, arith, leb, ap, Bool-cases,
  inl, inr,
}
use tsa_proxy.ApiError.{Answer, answer, refuse, err_quota_exceeded}
use tsa_proxy.Model.{TenantQuota, TsaUpstream}
use tsa_proxy.Upstream.Client.{Response, SendError, send, with_max_body}
use tsa_proxy.Upstream.Client.Retries.{attempts, FirstReply, send-FirstReply}
use tsa_proxy.Stamp.Effects.{Request, Stamped, Settings, Replies}
use tsa_proxy.Stamp.Process.{
  lookup_quota, get_cached_contracted, get_or_seed_consumed, is_exhausted, check_bag,
  choose_upstream, send_params, conclude, stamp, process,
}
use tsa_proxy.Upstream.Client.Retries.{send-IsSettled}
use tsa_proxy.Stamp.Effects.{bind_answers, bind_refuses}
use tsa_proxy.Stamp.Accounting.{lookup_quota-refuse, choose_upstream-refuse}

-- The tenant has a quota row, and the two totals that the run reads say that its bundles are used up.
pub record IsExhausted (r : Replies) (req : Request) : Type 0 where
  pub has_quota : (q : TenantQuota) × ((lookup_quota r req).0 ≡ answer (some q))
  pub has_bundles : 0 < (get_cached_contracted r req).0
  pub used_up : (get_cached_contracted r req).0 ≤ (get_or_seed_consumed r req).0

-- The result that Process builds of a reply.
abbrev pub stamped_by : Replies → Response → Stamped
stamped_by r resp = record {
  body = resp.body;
  upstream_status = resp.http_status;
  latency_ms = r.total_latency_ms;
  upstream_latency_ms = r.upstream_latency_ms;
}

-- The run passes the lookup and the bundles, chooses an upstream, and the first reply of it is no
-- server error; the stamped result is that reply.
pub record IsStamped (cfg : Settings) (r : Replies) (req : Request) (s : Stamped) : Type 0 where
  pub looked_up : (q : Option TenantQuota) × ((lookup_quota r req).0 ≡ answer q)
  pub has_room : ¬ IsExhausted r req
  pub upstream : TsaUpstream
  pub chosen : (choose_upstream cfg r).0 ≡ answer upstream
  pub reply : Response
  pub first :
      FirstReply r.exchange r.cancelled
        (with_max_body (send_params cfg r upstream))
        reply
        (attempts upstream.max_retries)
        0
  pub no_server_error : reply.http_status < 500
  pub same : s ≡ stamped_by r reply

is_exhausted_iff :
    (consumed contracted : ℕ)
    → (is_exhausted consumed contracted ≡ true) ↔ ((contracted ≤ consumed) × (0 < contracted))
unfolding is_exhausted
is_exhausted_iff consumed contracted = ground arith

check_bag_answers :
    (r : Replies) (req : Request) (q : TenantQuota)
    → ((check_bag r req (some q)).0 ≡ answer tt)
      ↔ (is_exhausted (get_or_seed_consumed r req).0 (get_cached_contracted r req).0 ≡ false)
unfolding check_bag
check_bag_answers r req q = ground arith

check_bag_refuses :
    (r : Replies) (req : Request) (q : TenantQuota)
    → ((check_bag r req (some q)).0 ≡ refuse err_quota_exceeded)
      ↔ (is_exhausted (get_or_seed_consumed r req).0 (get_cached_contracted r req).0 ≡ true)
unfolding check_bag
check_bag_refuses r req q = ground arith

abbrev refused_status {ℓ} : {A : Type ℓ} → Answer A → ℕ
refused_status (answer a) = 0
refused_status (refuse e) = e.status_code

other_status : (a b : ℕ) → a ≡ b → a ≢ b → ⊥
other_status a b same apart = apart same

conclude_no_quota :
    (r : Replies) (e : Option SendError) (resp : Option Response)
    → conclude r e resp ≢ refuse err_quota_exceeded
unfolding conclude
conclude_no_quota r (some e) resp h = other_status 502 429 (ap refused_status h) (omega arith)
conclude_no_quota r none none h = other_status 500 429 (ap refused_status h) (omega arith)
conclude_no_quota r none (some resp) h = elim (Bool-cases (leb 500 resp.http_status)) [
  | inl bad ↦ other_status 502 429 (ap refused_status (rw bad at h)) (omega arith)
  | inr good ↦ other_status 0 429 (ap refused_status (rw good at h)) (omega arith)
]

stamp_refuses_no_quota :
    (cfg : Settings) (r : Replies) (req : Request) (u : TsaUpstream)
    → (stamp cfg r req u).0 ≢ refuse err_quota_exceeded
unfolding stamp
stamp_refuses_no_quota cfg r req u =
    let sent = send r.exchange r.cancelled req.body (send_params cfg r u) in
    conclude_no_quota r sent.error sent.response

conclude_answers :
    (r : Replies) (e : Option SendError) (resp : Option Response) (s : Stamped)
    → conclude r e resp ≡ answer s
    → (got : Response) × (resp ≡ some got) × (got.http_status < 500) × (s ≡ stamped_by r got)
unfolding conclude
conclude_answers r (some e) resp s h = cc
conclude_answers r none none s h = cc
conclude_answers r none (some resp) s h = (resp, refl, ground arith, ground arith)

conclude_stamps :
    (r : Replies) (got : Response)
    → got.http_status < 500
    → conclude r none (some got) ≡ answer (stamped_by r got)
unfolding conclude
conclude_stamps r got lt = ground arith

-- A response without a server error, and no other way to answer.
stamp_answers :
    (cfg : Settings) (r : Replies) (req : Request) (u : TsaUpstream) (s : Stamped)
    → ((stamp cfg r req u).0 ≡ answer s) ↔ (
        (got : Response) × ((send r.exchange r.cancelled req.body (send_params cfg r u)).response
          ≡ some got)
        × (got.http_status < 500)
        × (s ≡ stamped_by r got))
unfolding stamp
stamp_answers cfg r req u s =
    let sent = send r.exchange r.cancelled req.body (send_params cfg r u) in
    (
      conclude_answers r sent.error sent.response s,
      λ (got, there, lt, same).
          elim (send-IsSettled r.exchange r.cancelled req.body (send_params cfg r u)) [
            | inl (_, fine) ↦ rw (there, fine, same) (conclude_stamps r got lt)
            | inr (gone, _) ↦ cc
          ],
    )

bag_refuses_iff :
    (r : Replies) (req : Request) (q : Option TenantQuota)
    → (lookup_quota r req).0 ≡ answer q
    → ((check_bag r req q).0 ≡ refuse err_quota_exceeded) ↔ IsExhausted r req
bag_refuses_iff r req none looked = (
  (λ h. unfold check_bag in cc),
  (λ x.
      let e : ◌≡◌ {A = Option TenantQuota} none (some x.has_quota.0) = cc (looked, x.has_quota.1) in
      cc),
)
bag_refuses_iff r req (some q) looked = (
  (λ h.
      let e = (is_exhausted_iff _ _).0 ((check_bag_refuses r req q).0 h) in
      record { has_quota = (q, looked); has_bundles = e.1; used_up = e.0 }),
  (λ x. (check_bag_refuses r req q).1 ((is_exhausted_iff _ _).1 (x.used_up, x.has_bundles))),
)

bag_answers_iff :
    (r : Replies) (req : Request) (q : Option TenantQuota)
    → (lookup_quota r req).0 ≡ answer q
    → ((check_bag r req q).0 ≡ answer tt) ↔ (¬ IsExhausted r req)
bag_answers_iff r req none looked = (
  (λ h x.
      let e : ◌≡◌ {A = Option TenantQuota} none (some x.has_quota.0) = cc (looked, x.has_quota.1) in
      cc),
  (λ x. unfold check_bag in refl),
)
bag_answers_iff r req (some q) looked =
    let refuses = bag_refuses_iff r req (some q) looked in
    let over = is_exhausted (get_or_seed_consumed r req).0 (get_cached_contracted r req).0 in
    (
      (λ h x.
          let e = (check_bag_refuses r req q).0 (refuses.1 x) in
          let f = (check_bag_answers r req q).0 h in cc (e, f)),
      (λ x. elim (Bool-cases over) [
        | inl e ↦ elim (x (refuses.0 ((check_bag_refuses r req q).1 e))) [ ]
        | inr e ↦ (check_bag_answers r req q).1 e
      ]),
    )

choose_upstream_no_quota :
    (cfg : Settings) (r : Replies) → (choose_upstream cfg r).0 ≢ refuse err_quota_exceeded
choose_upstream_no_quota cfg r h =
    other_status 429 502
      (ap (λ e. e.status_code) (choose_upstream-refuse cfg r err_quota_exceeded h)) (omega arith)

lookup_quota_no_quota :
    (r : Replies) (req : Request) → (lookup_quota r req).0 ≢ refuse err_quota_exceeded
lookup_quota_no_quota r req h =
    other_status 429 500 (ap (λ e. e.status_code) (lookup_quota-refuse r req err_quota_exceeded h))
      (omega arith)

-- Process refuses with quota_exceeded exactly if the tenant has a quota row and the totals that
-- the run reads say that more than no stamp is contracted and at least as many are consumed.
pub process-IsExhausted_iff :
    (cfg : Settings) (r : Replies) (req : Request)
    → ((process cfg r req).0 ≡ refuse err_quota_exceeded) ↔ IsExhausted r req
unfolding process
process-IsExhausted_iff cfg r req = (
  (λ h. elim ((bind_refuses (lookup_quota r req) _ err_quota_exceeded).0 h) [
    | inl e ↦ elim (lookup_quota_no_quota r req e) [ ]
    | inr (q, looked, h') ↦ elim ((bind_refuses (check_bag r req q) _ err_quota_exceeded).0 h') [
      | inl e ↦ (bag_refuses_iff r req q looked).0 e
      | inr (_, _, h'') ↦ elim ((bind_refuses (choose_upstream cfg r) _ err_quota_exceeded).0 h'') [
        | inl e ↦ elim (choose_upstream_no_quota cfg r e) [ ]
        | inr (u, _, e) ↦ elim (stamp_refuses_no_quota cfg r req u e) [ ]
      ]
    ]
  ]),
  (λ x. (bind_refuses (lookup_quota r req) _ err_quota_exceeded).1 (
      inr (
        some x.has_quota.0,
        x.has_quota.1,
        (bind_refuses (check_bag r req (some x.has_quota.0)) _ err_quota_exceeded).1
            (inl ((bag_refuses_iff r req (some x.has_quota.0) x.has_quota.1).1 x)),
      ))),
)

-- Process answers with a stamp exactly if the quota row can be looked up, the bundles are not used
-- up, there is an upstream, and the first reply that Send gets from it has a status below 500; the
-- stamp is then the body and status of that reply, also of one with a status of 4xx.
pub process-answer_iff :
    (cfg : Settings) (r : Replies) (req : Request) (s : Stamped)
    → ((process cfg r req).0 ≡ answer s) ↔ IsStamped cfg r req s
unfolding process send_params
process-answer_iff cfg r req s = (
  (λ h.
      let (q, looked, h1) = (bind_answers (lookup_quota r req) _ s).0 h in
      let (_, room, h2) = (bind_answers (check_bag r req q) _ s).0 h1 in
      let (u, chosen, h3) = (bind_answers (choose_upstream cfg r) _ s).0 h2 in
      let (got, sent, lt, same) = (stamp_answers cfg r req u s).0 h3 in
      record {
        looked_up = (q, looked);
        has_room = (bag_answers_iff r req q looked).0 room;
        upstream = u;
        chosen = chosen;
        reply = got;
        first = (send-FirstReply r.exchange r.cancelled req.body (send_params cfg r u) got).0 sent;
        no_server_error = lt;
        same = same;
      }),
  (λ x.
      let p = send_params cfg r x.upstream in
      let sent = (send-FirstReply r.exchange r.cancelled req.body p x.reply).1 x.first in
      let h3 =
        (stamp_answers cfg r req x.upstream s).1 (x.reply, sent, x.no_server_error, x.same) in
      let h2 =
        (bind_answers (choose_upstream cfg r) (stamp cfg r req) s).1 (x.upstream, x.chosen, h3) in
      let room = (bag_answers_iff r req x.looked_up.0 x.looked_up.1).1 x.has_room in
      let h1 = (bind_answers (check_bag r req x.looked_up.0) _ s).1 (tt, room, h2) in
      (bind_answers (lookup_quota r req) _ s).1 (x.looked_up.0, x.looked_up.1, h1)),
)
