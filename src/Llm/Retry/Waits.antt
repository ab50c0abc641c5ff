-- ===== src/Llm/Retry/Waits.antt =====
-- The waits of `doWithRetry` where no duration wraps around.
use mow.Prelude.{ℕ, zero, suc, ◌+◌, ◌-◌, ◌*◌, ◌≤◌, ◌<◌, ◌≡◌, inl, inr, none, some, arith, All}
use mow.Llm.Retry.{
  second, RetryInfo, Reply, received, broken, World, again, judge, round, retry_loop, fuel_for,
  do_with_retry,
}
use mow.Llm.Retry.Delays.{Fits, retry_delay_bounds, retry_delay_refused_bounds}
use mow.Llm.Retry.Budget.{InBudget, Round-cases, round_again, clamped}

-- The reply asks for no more seconds than a duration holds.
abbrev pub FitsReply : Reply → Type 0
FitsReply (received res) = Fits res.retry_after
FitsReply (broken e) = Unit

abbrev pub IsWait : RetryInfo → Type 0
IsWait info = (0 < info.delay) × (info.delay ≤ 30 * second)

module _ (w : World) (attempts : ℕ) where
  judge_waits :
      (i refused : ℕ) (r : Reply) {info : RetryInfo} {refused' : ℕ}
      → attempts ≤ 37
      → FitsReply r
      → judge w attempts i refused r ≡ again info refused'
      → InBudget attempts i refused
      → IsWait info
  unfolding judge
  judge_waits i refused (received res) few fits h b = ground (
    arith,
    λ (n : i - refused + 1 ≤ 36).
        retry_delay_bounds (i - refused + 1) (some res) (w.random i) n fits,
  )
  judge_waits i refused (broken e) few fits h b = ground (
    arith,
    λ (n : i - refused + 1 ≤ 36). retry_delay_bounds (i - refused + 1) none (w.random i) n tt,
    retry_delay_refused_bounds (refused + 1) (w.random i),
  )

  round_waits :
      (i refused wait : ℕ) {info : RetryInfo} {refused' : ℕ}
      → attempts ≤ 37
      → FitsReply (w.do_request i)
      → round w attempts i refused wait ≡ again info refused'
      → InBudget attempts i refused
      → IsWait info
  unfolding round
  round_waits i refused wait {info} {refused'} few fits h b =
      let step : judge w attempts i refused (w.do_request i) ≡ again info refused' = ground arith in
      judge_waits i refused (w.do_request i) few fits step b

  retry_loop_waits :
      (fuel i refused wait : ℕ)
      → attempts ≤ 37
      → ((k : ℕ) → FitsReply (w.do_request k))
      → InBudget attempts i refused
      → All IsWait (retry_loop w attempts fuel i refused wait).retries
  unfolding retry_loop
  retry_loop_waits zero i refused wait few fits b = tt
  retry_loop_waits (suc fuel) i refused wait few fits b =
      elim (Round-cases w attempts (round w attempts i refused wait)) [
        | inl (o, n, e) ↦ rw (e, retry_loop) tt
        | inr (info, k, e) ↦
            let first = round_waits i refused wait few (fits i) e b in
            let (b', _) = round_again w attempts i refused wait b e in
            let rest = retry_loop_waits fuel (i + 1) k info.delay few fits b' in
            rw (e, retry_loop) (first, rest)
      ]

-- Where at most 37 attempts are asked for, and no reply asks to retry after more seconds than a
-- duration holds, each wait that `doWithRetry` announces is positive and at most 30 s.
pub do_with_retry-waits :
    (w : World) (attempts : ℕ)
    → attempts ≤ 37
    → ((k : ℕ) → FitsReply (w.do_request k))
    → All IsWait (do_with_retry w attempts).retries
unfolding do_with_retry
do_with_retry-waits w attempts few fits =
    retry_loop_waits w (clamped attempts) (fuel_for (clamped attempts)) 0 0 0 (ground (arith, few))
      fits (ground arith)
