-- ===== src/Upstream/Client/Steps.antt =====
-- One round of the loop of Send, by what its attempt meets.
use tsa_proxy.Common.{
  ℕ, suc, ◌≡◌, ◌⊎◌, refl, Bool, true, false, none, some, List, [], ◌++◌, inl, inr,
}
use tsa_proxy.Upstream.Client.{
  Response, SendParams, Exchange, create_failed, transport_failed, read_failed, received,
  ClientEvent, context_done, Sent, also, do_request, posts_of, after_request, pause, is_cut,
  send_from, client_error,
}

-- An error comes with no response, so the branch on a 4xx status is dead.
pub do_request_cases :
    (p : SendParams) (e : Exchange)
    → (do_request p e ≡ (none, true)) ⊎ ((r : Response) × (do_request p e ≡ (some r, false)))
unfolding do_request
do_request_cases p create_failed = inl refl
do_request_cases p transport_failed = inl refl
do_request_cases p read_failed = inl refl
do_request_cases p (received status body latency) = inr (_, refl)

module _ (exchange : ℕ → Exchange) (cancelled : ℕ → Bool) (body : List ℕ) (p : SendParams) where
  abbrev pub run : ℕ → ℕ → Sent
  run = send_from exchange cancelled body p

  abbrev pub spent : ℕ → List ClientEvent
  spent attempt = pause attempt ++ posts_of body p (exchange attempt)

  pub run_cut :
      (left attempt : ℕ)
      → is_cut cancelled attempt ≡ true
      → run (suc left) attempt
        ≡ record { response = none; error = some context_done; trace = pause attempt }
  unfolding send_from
  run_cut left attempt cut = rw cut

  pub run_reply :
      (left attempt : ℕ) (r : Response)
      → is_cut cancelled attempt ≡ false
      → do_request p (exchange attempt) ≡ (some r, false)
      → run (suc left) attempt
        ≡ record { response = some r; error = none; trace = spent attempt ++ [] }
  unfolding send_from after_request
  run_reply left attempt r on got = rw (on, got)

  pub run_missed :
      (left attempt : ℕ)
      → is_cut cancelled attempt ≡ false
      → do_request p (exchange attempt) ≡ (none, true)
      → run (suc left) attempt ≡ also (spent attempt) (run left (suc attempt))
  unfolding send_from after_request client_error
  run_missed left attempt on missed = rw (on, missed)
