-- ===== src/Upstream/Client/Cost.antt =====
-- How many requests Send makes, and how long it waits.
use tsa_proxy.Common.{
  ℕ, zero, suc, ◌+◌, ◌*◌, ◌-◌, ◌≤◌, ◌≡◌, refl, Bool, List, [], ◌∷◌, ◌++◌, arith, Bool-cases, inl,
  inr,
}
use tsa_proxy.Upstream.Client.Retries.{attempts, rounds-attempts}
use tsa_proxy.Upstream.Client.{
  SendParams, Exchange, create_failed, transport_failed, read_failed, received, ClientEvent,
  wait_ms, post, posts_of, pause, is_cut, send_from, rounds, with_max_body, send,
}
use tsa_proxy.Upstream.Client.Steps.{do_request_cases, run, spent, run_cut, run_reply, run_missed}

abbrev pub count_posts : List ClientEvent → ℕ
count_posts [] = 0
count_posts (wait_ms n ∷ es) = count_posts es
count_posts (post q ∷ es) = suc (count_posts es)

abbrev pub total_wait : List ClientEvent → ℕ
total_wait [] = 0
total_wait (wait_ms n ∷ es) = n + total_wait es
total_wait (post q ∷ es) = total_wait es

count_posts-append :
    (es fs : List ClientEvent) → count_posts (es ++ fs) ≡ count_posts es + count_posts fs
count_posts-append [] fs = omega arith
count_posts-append (wait_ms n ∷ es) fs = count_posts-append es fs
count_posts-append (post q ∷ es) fs = omega (arith, count_posts-append es fs)

total_wait-append :
    (es fs : List ClientEvent) → total_wait (es ++ fs) ≡ total_wait es + total_wait fs
total_wait-append [] fs = omega arith
total_wait-append (wait_ms n ∷ es) fs = omega (arith, total_wait-append es fs)
total_wait-append (post q ∷ es) fs = total_wait-append es fs

-- A pause sends nothing, an attempt at most one request; only the pause waits.
pause_cost : (n : ℕ) → (count_posts (pause n) ≡ 0) × (total_wait (pause n) ≡ n * 200)
unfolding pause
pause_cost zero = (refl, omega arith)
pause_cost (suc n) = (refl, omega arith)

posts_cost :
    (body : List ℕ) (p : SendParams) (e : Exchange)
    → (count_posts (posts_of body p e) ≤ 1) × (total_wait (posts_of body p e) ≡ 0)
unfolding posts_of
posts_cost body p create_failed = (omega arith, refl)
posts_cost body p transport_failed = (omega arith, refl)
posts_cost body p read_failed = (omega arith, refl)
posts_cost body p (received status reply latency) = (omega arith, refl)

wait_bound :
    (w left attempt : ℕ)
    → w + 100 * left ≤ 100 * left * (2 * suc attempt + left)
    → attempt * 200 + w + 100 * suc left ≤ 100 * suc left * (2 * attempt + suc left)
wait_bound w left attempt h = omega arith

wait_bound_cut :
    (left attempt : ℕ) → attempt * 200 + 100 * suc left ≤ 100 * suc left * (2 * attempt + suc left)
wait_bound_cut left attempt = grind arith

wait_bound_last :
    (left attempt : ℕ)
    → attempt * 200 + 0 + 100 * suc left ≤ 100 * suc left * (2 * attempt + suc left)
wait_bound_last left attempt = omega (arith, wait_bound_cut left attempt)

module _ (exchange : ℕ → Exchange) (cancelled : ℕ → Bool) (body : List ℕ) (p : SendParams) where
  abbrev IsCheap : ℕ → ℕ → List ClientEvent → Type 0
  IsCheap left attempt es =
      (count_posts es ≤ left) × (total_wait es + 100 * left ≤ 100 * left * (2 * attempt + left))

  spent_cost :
      (attempt : ℕ) (es : List ClientEvent)
      → (count_posts (spent exchange cancelled body p attempt ++ es) ≤ 1 + count_posts es)
        × (total_wait (spent exchange cancelled body p attempt ++ es)
            ≡ attempt * 200 + total_wait es)
  spent_cost attempt es =
      let (c, w) = pause_cost attempt in
      let (c', w') = posts_cost body p (exchange attempt) in
      let a = count_posts-append (spent exchange cancelled body p attempt) es in
      let b = count_posts-append (pause attempt) (posts_of body p (exchange attempt)) in
      let d = total_wait-append (spent exchange cancelled body p attempt) es in
      let f = total_wait-append (pause attempt) (posts_of body p (exchange attempt)) in
      (omega arith, omega arith)

  run_cost :
      (left attempt : ℕ) → IsCheap left attempt (run exchange cancelled body p left attempt).trace
  run_cost zero attempt = unfold send_from in (omega arith, omega arith)
  run_cost (suc left) attempt = elim (Bool-cases (is_cut cancelled attempt)) [
    | inl cut ↦ rw (run_cut exchange cancelled body p left attempt cut) (
      omega (arith, pause_cost attempt),
      rw ((pause_cost attempt).1) (wait_bound_cut left attempt),
    )
    | inr on ↦ elim (do_request_cases p (exchange attempt)) [
      | inl missed ↦
          let (c, w) = run_cost left (suc attempt) in
          let (c', w') =
            spent_cost attempt (run exchange cancelled body p left (suc attempt)).trace in
          rw (run_missed exchange cancelled body p left attempt on missed)
            (omega arith, rw w' (wait_bound _ left attempt w))
      | inr (r', got) ↦
          let (c', w') = spent_cost attempt [] in
          rw (run_reply exchange cancelled body p left attempt r' on got)
            (omega arith, rw w' (wait_bound_last left attempt))
    ]
  ]

less_one_round : (w n : ℕ) → w + 100 * suc n ≤ 100 * suc n * suc n → w ≤ 100 * suc n * n
less_one_round w n h = omega arith

attempts_minus_one : (w n : ℕ) → w + 100 * n ≤ 100 * n * (2 * 0 + n) → w ≤ 100 * n * (n - 1)
attempts_minus_one w zero h = omega arith
attempts_minus_one w (suc n) h =
    let e : suc n - 1 ≡ n = omega arith in rw e (less_one_round w n (omega arith))

-- With MaxRetries + 1 = n attempts allowed (none, if MaxRetries is negative) Send makes at most n
-- requests, and its waits add up to at most 100 * n * (n - 1) milliseconds.
pub send_cost :
    (exchange : ℕ → Exchange) (cancelled : ℕ → Bool) (body : List ℕ) (p : SendParams)
    → (count_posts (send exchange cancelled body p).trace ≤ attempts p.max_retries)
      × (total_wait (send exchange cancelled body p).trace
          ≤ 100 * attempts p.max_retries * (attempts p.max_retries - 1))
unfolding send
send_cost exchange cancelled body p =
    let n = rounds p.max_retries in
    let (c, w) = run_cost exchange cancelled body (with_max_body p) n 0 in
    rw (← rounds-attempts p.max_retries) (c, attempts_minus_one _ n w)
