-- ===== src/Llm/Retry/Budget.antt =====
-- The two budgets of `doWithRetry`: how often it asks, and how long it waits.
use mow.Prelude.{
  ℕ, zero, suc, ◌+◌, ◌-◌, ◌*◌, ◌≤◌, ◌<◌, ◌≡◌, ◌≢◌, refl, ◌⊎◌, inl, inr, none, some, arith, All,
  true, ◌==◌, if◌then◌else◌,
}
use mow.Llm.Retry.{
  second, is_negative, max_conn_refused_attempts, unavailable, RetryInfo, Reply, received, broken,
  World, Outcome, out_of_fuel, Round, stop, again, judge, round, Run, retry_loop, fuel_for,
  do_with_retry,
}
use mow.Llm.Retry.Delays.{retry_delay_range, retry_delay_refused_bounds}

-- What the loop keeps between rounds: the connection-refused retries and the generic ones, each
-- within its budget.
pub record InBudget (attempts i refused : ℕ) : Type 0 where
  pub within : refused ≤ i
  pub refused_capped : refused ≤ max_conn_refused_attempts
  pub generic_capped : i - refused < attempts

-- A scheduled retry counts against one of the two budgets and is numbered by it. Its wait is no
-- longer than that kind may be, unless the duration has wrapped to a negative one.
pub record IsScheduled (attempts : ℕ) (info : RetryInfo) : Type 0 where
  pub numbered : 0 < info.attempt
  pub refused_kind :
      info.kind ≡ unavailable
      → (info.attempt ≤ max_conn_refused_attempts) × (0 < info.delay) × (info.delay ≤ 5 * second)
  pub generic_kind :
      info.kind ≢ unavailable
      → (info.attempt < attempts) × ((info.delay ≤ 30 * second) ⊎ (is_negative info.delay ≡ true))

module _ (w : World) (attempts : ℕ) where
  judge_again :
      (i refused : ℕ) (r : Reply) {info : RetryInfo} {refused' : ℕ}
      → InBudget attempts i refused
      → judge w attempts i refused r ≡ again info refused'
      → InBudget attempts (i + 1) refused' × IsScheduled attempts info
  unfolding judge
  judge_again i refused (received res) b h =
      ground (arith, retry_delay_range (i - refused + 1) (some res) (w.random i))
  judge_again i refused (broken e) b h = ground (
    arith,
    retry_delay_range (i - refused + 1) none (w.random i),
    retry_delay_refused_bounds (refused + 1) (w.random i),
  )

  pub round_again :
      (i refused wait : ℕ) {info : RetryInfo} {refused' : ℕ}
      → InBudget attempts i refused
      → round w attempts i refused wait ≡ again info refused'
      → InBudget attempts (i + 1) refused' × IsScheduled attempts info
  unfolding round
  round_again i refused wait {info} {refused'} b h =
      let step : judge w attempts i refused (w.do_request i) ≡ again info refused' = ground arith in
      judge_again i refused (w.do_request i) b step

  pub Round-cases :
      (r : Round)
      → ((o : Outcome) × (n : ℕ) × (r ≡ stop o n))
        ⊎ ((info : RetryInfo) × (refused' : ℕ) × (r ≡ again info refused'))
  Round-cases (stop o n) = inl (o, n, refl)
  Round-cases (again info k) = inr (info, k, refl)

  -- A round that returns has made its one request, or none.
  round_stop :
      (i refused wait : ℕ) {o : Outcome} {n : ℕ}
      → round w attempts i refused wait ≡ stop o n
      → (n ≤ i + 1) × (o ≢ out_of_fuel)
  unfolding round judge
  round_stop i refused wait h = ground arith

-- A run that returned, within the budgets.
pub record IsBounded (attempts : ℕ) (r : Run) : Type 0 where
  pub returned : r.outcome ≢ out_of_fuel
  pub requests_capped : r.requests ≤ attempts + max_conn_refused_attempts
  pub scheduled : All (IsScheduled attempts) r.retries

module _ (w : World) (attempts : ℕ) where
  retry_loop-IsBounded :
      (fuel i refused wait : ℕ)
      → InBudget attempts i refused
      → fuel_for attempts ≤ fuel + i
      → IsBounded attempts (retry_loop w attempts fuel i refused wait)
  unfolding retry_loop
  retry_loop-IsBounded zero i refused wait b m =
      absurd (omega (arith, b.refused_capped, b.generic_capped))
  retry_loop-IsBounded (suc fuel) i refused wait b m =
      elim (Round-cases w attempts (round w attempts i refused wait)) [
        | inl (o, n, e) ↦
            let (few, done) = round_stop w attempts i refused wait e in
            rw (e, retry_loop)
              (record {
                returned = done;
                requests_capped = omega (arith, b.refused_capped, b.generic_capped);
                scheduled = tt;
              })
        | inr (info, k, e) ↦
            let (b', s) = round_again w attempts i refused wait b e in
            let rest = retry_loop-IsBounded fuel (i + 1) k info.delay b' (omega arith) in
            rw (e, retry_loop)
              (record {
                returned = rest.returned;
                requests_capped = rest.requests_capped;
                scheduled = (s, rest.scheduled);
              })
      ]

abbrev pub clamped : ℕ → ℕ
clamped attempts = if attempts == 0 then 1 else attempts

-- Whatever the gateway, the context and the clock do, `doWithRetry` returns (it never runs out of
-- the fuel that the model gives it), after at most `attempts` generic requests and the twelve more
-- of the connection-refused budget. Each retry that it announces is numbered within its own budget.
-- One after a refused connection waits a positive time of at most 5 s; any other waits at most
-- 30 s, or for a negative time, which a duration that wraps around is.
pub do_with_retry-IsBounded :
    (w : World) (attempts : ℕ) → IsBounded (clamped attempts) (do_with_retry w attempts)
unfolding do_with_retry
do_with_retry-IsBounded w attempts =
    retry_loop-IsBounded w (clamped attempts) (fuel_for (clamped attempts)) 0 0 0 (ground arith)
      (omega arith)
