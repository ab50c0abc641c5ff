-- ===== src/Llm/Retry/Causes.antt =====
-- Why `doWithRetry` asks again, and what it reports in the end.
use mow.Prelude.{ℕ, zero, suc, ◌+◌, ◌-◌, ◌≤◌, ◌<◌, ◌≡◌, refl, ◌⊎◌, inl, inr, true, false, arith}
use mow.Llm.Retry.{
  RetryInfo, Reply, received, broken, World, Outcome, responded, context_error, not_replayable,
  out_of_fuel, first_byte_timeout, permanent, gave_up, stop, again, judge, round, Run, retry_loop,
  fuel_for, do_with_retry, retryable_status, response_header_timed_out, retryable_net_err,
}
use mow.Llm.Retry.Budget.{InBudget, Round-cases, round_again, clamped}

-- A reply that may be retried.
abbrev pub Transient : Reply → Type 0
Transient (received res) = retryable_status res.status ≡ true
Transient (broken e) = (response_header_timed_out e ≡ false) × (retryable_net_err e ≡ true)

-- What the outcome says of the last of `n` requests.
abbrev pub Reports : World → ℕ → Outcome → Type 0
Reports w n (responded res) = w.do_request (n - 1) ≡ received res
Reports w n (first_byte_timeout e) =
    (w.do_request (n - 1) ≡ broken e) × (response_header_timed_out e ≡ true)
Reports w n (permanent e) = (w.do_request (n - 1) ≡ broken e) × (retryable_net_err e ≡ false)
Reports w n (gave_up e) = (w.do_request (n - 1) ≡ broken e) × (retryable_net_err e ≡ true)
Reports w n _ = Unit

pub record IsExplained (w : World) (i : ℕ) (r : Run) : Type 0 where
  pub retried : (k : ℕ) → i ≤ k → k + 1 < r.requests → Transient (w.do_request k)
  pub reported : Reports w r.requests r.outcome

module _ (w : World) (attempts : ℕ) where
  judge-Transient :
      (i refused : ℕ) (r : Reply) (info : RetryInfo) (refused' : ℕ)
      → judge w attempts i refused r ≡ again info refused'
      → Transient r
  unfolding judge
  judge-Transient i refused (received res) info refused' h = ground arith
  judge-Transient i refused (broken e) info refused' h = ground arith

  round-Transient :
      (i refused wait : ℕ) (info : RetryInfo) (refused' : ℕ)
      → round w attempts i refused wait ≡ again info refused'
      → Transient (w.do_request i)
  unfolding round
  round-Transient i refused wait info refused' h =
      let step : judge w attempts i refused (w.do_request i) ≡ again info refused' = ground arith in
      judge-Transient i refused (w.do_request i) info refused' step

  judge-Reports :
      (i refused : ℕ) (r : Reply) (o : Outcome) (n : ℕ)
      → w.do_request i ≡ r
      → judge w attempts i refused r ≡ stop o n
      → (n ≤ i + 1) × Reports w n o
  unfolding judge
  judge-Reports i refused (received res) (responded r) n e h = ground arith
  judge-Reports i refused (received res) _ n e h = ground arith
  judge-Reports i refused (broken er) (first_byte_timeout x) n e h = ground arith
  judge-Reports i refused (broken er) (permanent x) n e h = ground arith
  judge-Reports i refused (broken er) (gave_up x) n e h = ground arith
  judge-Reports i refused (broken er) _ n e h = ground arith

  round-Reports :
      (i refused wait : ℕ) (o : Outcome) (n : ℕ)
      → round w attempts i refused wait ≡ stop o n
      → (n ≤ i + 1) × Reports w n o
  unfolding round
  round-Reports i refused wait context_error n h =
      (ground (arith, judge-Reports i refused (w.do_request i) context_error n refl), tt)
  round-Reports i refused wait not_replayable n h =
      (ground (arith, judge-Reports i refused (w.do_request i) not_replayable n refl), tt)
  round-Reports i refused wait out_of_fuel n h =
      (ground (arith, judge-Reports i refused (w.do_request i) out_of_fuel n refl), tt)
  round-Reports i refused wait o n h =
      judge-Reports i refused (w.do_request i) o n refl (ground arith)

  here_or_later : (i k : ℕ) → i ≤ k → (i ≡ k) ⊎ (i + 1 ≤ k)
  here_or_later i k h = ground arith

  retry_loop-IsExplained :
      (fuel i refused wait : ℕ)
      → fuel_for attempts ≤ fuel + i
      → InBudget attempts i refused
      → IsExplained w i (retry_loop w attempts fuel i refused wait)
  unfolding retry_loop
  retry_loop-IsExplained zero i refused wait m b =
      absurd (omega (arith, b.refused_capped, b.generic_capped))
  retry_loop-IsExplained (suc fuel) i refused wait m b =
      elim (Round-cases w attempts (round w attempts i refused wait)) [
        | inl (o, n, e) ↦
            let (few, said) = round-Reports i refused wait o n e in
            rw (e, retry_loop)
              (record { retried = λ k from to. absurd (omega arith); reported = said })
        | inr (info, r, e) ↦
            let rest =
              retry_loop-IsExplained fuel (i + 1) r info.delay (omega arith)
                (round_again w attempts i refused wait b e).0 in
            rw (e, retry_loop)
              (record {
                retried = λ k from to. elim (here_or_later i k from) [
                  | inl at ↦ rw (← at) (round-Transient i refused wait info r e)
                  | inr later ↦ rest.retried k later to
                ];
                reported = rest.reported;
              })
      ]

-- Every request but the last had a transient reply (so a first-byte timeout, a cancelled context,
-- an unknown host or a bad certificate is never asked again), and what is returned is the reply to
-- the last request, classified as its error says.
pub do_with_retry-IsExplained :
    (w : World) (attempts : ℕ) → IsExplained w 0 (do_with_retry w attempts)
unfolding do_with_retry
do_with_retry-IsExplained w attempts =
    retry_loop-IsExplained w (clamped attempts) (fuel_for (clamped attempts)) 0 0 0 (omega arith)
      (ground arith)
