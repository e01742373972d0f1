-- ===== src/Upstream/Client/Retries.antt =====
-- What Send returns: the first reply of the TSA, or an error.
use tsa_proxy.Common.{
  arith, ℕ, zero, suc, ◌≡◌, ◌≢◌, ◌↔◌, ◌⊎◌, refl, Bool, true, false, Option, none, some, List,
  Bool-cases, inl, inr,
}
use tsa_proxy.Common.Int.{ℤ, pos, negsuc, pos_part, ◌-ℤ◌}
use tsa_proxy.Upstream.Client.{
  Response, SendParams, Exchange, SendError, context_done, upstream_status, unavailable, Sent,
  do_request, is_cut, send_from, rounds, with_max_body, send,
}
use tsa_proxy.Upstream.Client.Steps.{do_request_cases, run, run_cut, run_reply, run_missed}

-- The first attempt from `attempt` on, of `left` attempts, that the TSA answers with `r`: no earlier
-- one is answered, and no wait up to it is cut short.
pub data FirstReply (exchange : ℕ → Exchange) (cancelled : ℕ → Bool) (p : SendParams) (r : Response)
    : ℕ → ℕ → Type 0 where
  now :
      {left attempt : ℕ}
      → is_cut cancelled attempt ≡ false
      → do_request p (exchange attempt) ≡ (some r, false)
      → FirstReply exchange cancelled p r (suc left) attempt
  later :
      {left attempt : ℕ}
      → is_cut cancelled attempt ≡ false
      → do_request p (exchange attempt) ≡ (none, true)
      → FirstReply exchange cancelled p r left (suc attempt)
      → FirstReply exchange cancelled p r (suc left) attempt

abbrev pub IsSettled : Sent → Type 0
IsSettled s =
    ((r : Response) × (s.response ≡ some r)) × (s.error ≡ none)
    ⊎ (s.response ≡ none) × ((e : SendError) × (s.error ≡ some e))

module _ (exchange : ℕ → Exchange) (cancelled : ℕ → Bool) (body : List ℕ) (p : SendParams) where
  FirstReply-sent :
      {r : Response} {left attempt : ℕ}
      → FirstReply exchange cancelled p r left attempt
      → (run exchange cancelled body p left attempt).response ≡ some r
  FirstReply-sent (now on e) = rw (run_reply exchange cancelled body p _ _ _ on e)
  FirstReply-sent (later on e f) =
      rw (run_missed exchange cancelled body p _ _ on e) (FirstReply-sent f)

  sent-FirstReply :
      (left attempt : ℕ) {r : Response}
      → (run exchange cancelled body p left attempt).response ≡ some r
      → FirstReply exchange cancelled p r left attempt
  sent-FirstReply zero attempt h = unfold send_from in cc
  sent-FirstReply (suc left) attempt {r} h = elim (Bool-cases (is_cut cancelled attempt)) [
    | inl cut ↦
        let e : ◌≡◌ {A = Option Response} none (some r) =
          (rw (run_cut exchange cancelled body p left attempt cut) at h) in
        cc
    | inr on ↦ elim (do_request_cases p (exchange attempt)) [
      | inl missed ↦ later on missed (
          sent-FirstReply left (suc attempt)
            (rw (run_missed exchange cancelled body p left attempt on missed) at h))
      | inr (r', got) ↦
          let e : some r' ≡ some r =
            (rw (run_reply exchange cancelled body p left attempt r' on got) at h) in
          now on (cc (got, e))
    ]
  ]

  -- The branch on a 4xx status is dead.
  run_no_status :
      (left attempt status : ℕ)
      → (run exchange cancelled body p left attempt).error ≢ some (upstream_status status)
  run_no_status zero attempt status h = unfold send_from in cc
  run_no_status (suc left) attempt status h = elim (Bool-cases (is_cut cancelled attempt)) [
    | inl cut ↦ let e = (rw (run_cut exchange cancelled body p left attempt cut) at h) in cc
    | inr on ↦ elim (do_request_cases p (exchange attempt)) [
      | inl missed ↦
          run_no_status left (suc attempt) status
            (rw (run_missed exchange cancelled body p left attempt on missed) at h)
      | inr (r', got) ↦
          let e = (rw (run_reply exchange cancelled body p left attempt r' on got) at h) in cc
    ]
  ]

  -- Every run ends with a response or with an error, and never with both.
  run_total : (left attempt : ℕ) → IsSettled (run exchange cancelled body p left attempt)
  run_total zero attempt = unfold send_from in inr (refl, (unavailable, refl))
  run_total (suc left) attempt = elim (Bool-cases (is_cut cancelled attempt)) [
    | inl cut ↦
        rw (run_cut exchange cancelled body p left attempt cut) (inr (refl, (context_done, refl)))
    | inr on ↦ elim (do_request_cases p (exchange attempt)) [
      | inl missed ↦
          rw (run_missed exchange cancelled body p left attempt on missed)
            (run_total left (suc attempt))
      | inr (r', got) ↦
          rw (run_reply exchange cancelled body p left attempt r' on got) (inl ((r', refl), refl))
    ]
  ]

-- MaxRetries + 1, and none if that is negative.
abbrev pub attempts : ℤ → ℕ
attempts max_retries = pos_part (max_retries -ℤ negsuc 0)

pub rounds-attempts : (max_retries : ℤ) → rounds max_retries ≡ attempts max_retries
unfolding rounds
rounds-attempts (pos n) = ground arith
rounds-attempts (negsuc n) = ground arith

-- Send returns a response exactly when an attempt within MaxRetries + 1 gets an HTTP reply, whatever
-- its status, while every earlier attempt got none and no wait up to it was cut short; it is the
-- reply of the first such attempt.
pub send-FirstReply :
    (exchange : ℕ → Exchange) (cancelled : ℕ → Bool) (body : List ℕ) (p : SendParams) (r : Response)
    → ((send exchange cancelled body p).response ≡ some r)
      ↔ FirstReply exchange cancelled (with_max_body p) r (attempts p.max_retries) 0
unfolding send
send-FirstReply exchange cancelled body p r = rw (← rounds-attempts p.max_retries) (
  sent-FirstReply exchange cancelled body (with_max_body p) (rounds p.max_retries) 0,
  FirstReply-sent exchange cancelled body (with_max_body p),
)

-- Send never reports the status of the TSA as an error: its branch on a 4xx status is dead.
pub send_no_status :
    (exchange : ℕ → Exchange) (cancelled : ℕ → Bool) (body : List ℕ) (p : SendParams) (status : ℕ)
    → (send exchange cancelled body p).error ≢ some (upstream_status status)
unfolding send
send_no_status exchange cancelled body p status =
    run_no_status exchange cancelled body (with_max_body p) (rounds p.max_retries) 0 status

-- Send always ends, with a response and no error, or with an error and no response.
pub send-IsSettled :
    (exchange : ℕ → Exchange) (cancelled : ℕ → Bool) (body : List ℕ) (p : SendParams)
    → IsSettled (send exchange cancelled body p)
unfolding send
send-IsSettled exchange cancelled body p =
    run_total exchange cancelled body (with_max_body p) (rounds p.max_retries) 0
