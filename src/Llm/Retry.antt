-- ===== src/Llm/Retry.antt =====
-- internal/llm/retry.go. Durations are nanoseconds, in 64-bit words. The transport, the context and the random
-- numbers are the `World` that the loop runs in.
pub mod Delays
pub mod Budget
pub mod Waits
pub mod Causes
use mow.Prelude.{
  ℕ, zero, suc, ◌+◌, ◌-◌, ◌*◌, ◌/◌, ◌%◌, ◌^◌, Bool, false, not, ◌&&◌, ◌||◌, List, [], ◌∷◌, Option,
  none, some, ltb, leb, ◌==◌, if◌then◌else◌, Str, codes, to_lower, contains, min,
}

abbrev pub second : ℕ
second = 1_000_000_000

-- `maxConnRefusedAttempts` and `connRefusedBaseDelay`.
abbrev pub max_conn_refused_attempts : ℕ
max_conn_refused_attempts = 12

abbrev pub conn_refused_base_delay : ℕ
conn_refused_base_delay = second

pub data RetryKind : Type 0 where
  busy unavailable network : RetryKind

pub record RetryInfo : Type 0 where
  pub attempt : ℕ
  pub delay : ℕ
  pub status : ℕ
  pub kind : RetryKind

-- What `errors.Is`, `errors.As` and `Error()` tell of a transport error.
pub record NetErr : Type 0 where
  pub is_conn_refused : Bool
  pub is_canceled : Bool
  pub is_deadline_exceeded : Bool
  pub is_dns_not_found : Bool
  pub is_certificate_error : Bool
  pub text : Str

-- The `Retry-After` header as `strconv.Atoi` and `http.ParseTime` read it; `seconds` carries 0 for a
-- number below, and `until` carries `time.Until`, 0 if that is past.
pub data RetryAfter : Type 0 where
  missing unreadable : RetryAfter
  seconds until : ℕ → RetryAfter

pub record Response : Type 0 where
  pub status : ℕ
  pub retry_after : RetryAfter

-- `serverRestarting`.
unfoldable pub server_restarting : NetErr → Bool
server_restarting e =
    let s = to_lower e.text in
    e.is_conn_refused
    || contains s (codes "connection refused")
    || contains s (codes "connection reset")
      && (contains s (codes "connect:") || contains s (codes "dial tcp"))

-- `responseHeaderTimedOut`.
unfoldable pub response_header_timed_out : NetErr → Bool
response_header_timed_out e =
    not e.is_canceled && contains (to_lower e.text) (codes "timeout awaiting response headers")

-- `retryableNetErr`.
unfoldable pub retryable_net_err : NetErr → Bool
retryable_net_err e =
    if e.is_canceled || e.is_deadline_exceeded
    then false
    else if contains e.text (codes "context canceled") || contains e.text (codes "context deadline")
    then false
    else if e.is_dns_not_found
    then false
    else not e.is_certificate_error

-- `retryableStatus`.
unfoldable pub retryable_status : ℕ → Bool
retryable_status code =
    code == 429 || code == 408 || code == 502 || code == 503 || code == 504 || leb 500 code

-- A `time.Duration` is the 64-bit word that holds it: one from 2^63 on is negative.
abbrev pub is_negative : ℕ → Bool
is_negative d = leb 9_223_372_036_854_775_808 d

-- A product of durations wraps around.
abbrev pub wrap : ℕ → ℕ
wrap d = d % 18_446_744_073_709_551_616

-- The duration of a float that is no less than 0: past the range the language leaves it open, and
-- amd64 gives the least duration.
abbrev pub of_float : ℕ → ℕ
of_float d = if is_negative d then 9_223_372_036_854_775_808 else d

-- The smaller of a duration and a positive one.
abbrev pub cap : ℕ → ℕ → ℕ
cap d most = if is_negative d then d else min d most

-- `withJitter`; `r` is the random number, before it is cut to the range.
unfoldable pub with_jitter : ℕ → ℕ → ℕ
with_jitter d r = if d == 0 || is_negative d then d else d + r % (d / 4 + 1)

-- `retryDelayRefused`.
unfoldable pub retry_delay_refused : ℕ → ℕ → ℕ
retry_delay_refused n r =
    let n' = if n == 0 then 1 else n in
    let d = conn_refused_base_delay * 2 ^ min (n' - 1) 2 in d + r % (d / 4)

-- The end of `retryDelay`: 200 ms, doubled for each attempt, up to 5 s, with jitter.
unfoldable pub backoff : ℕ → ℕ → ℕ
unfolding with_jitter
backoff attempt r =
    let n = if attempt == 0 then 1 else attempt in
    with_jitter (cap (of_float (200_000_000 * 2 ^ (n - 1))) (5 * second)) r

-- `retryDelay`.
unfoldable pub retry_delay : ℕ → Option Response → ℕ → ℕ
unfolding backoff
retry_delay attempt none r = backoff attempt r
retry_delay attempt (some res) r = elim res.retry_after [
  | missing ↦ backoff attempt r
  | unreadable ↦ backoff attempt r
  | seconds n ↦ if n == 0 then backoff attempt r else cap (wrap (n * second)) (30 * second)
  | until d ↦ if d == 0 then backoff attempt r else min d (30 * second)
]

pub data Reply : Type 0 where
  received : Response → Reply
  broken : NetErr → Reply

-- What the loop does not control, by the index of its round.
pub record World : Type 0 where
  pub do_request : ℕ → Reply  -- hc.Do
  pub context_done : ℕ → Bool  -- req.Context().Err() != nil at the top of the round
  pub done_in_wait : ℕ → ℕ → Bool  -- Done() comes before a timer of that duration
  pub rewinds : ℕ → Bool  -- rewindRequest(req) == nil
  pub random : ℕ → ℕ

-- How `doWithRetry` returns. `gave_up` is an error through `hostSafeTransport`.
pub data Outcome : Type 0 where
  responded : Response → Outcome
  context_error not_replayable out_of_fuel : Outcome
  first_byte_timeout permanent gave_up : NetErr → Outcome

-- A round of the loop returns, after so many requests in all, or schedules another one.
pub data Round : Type 0 where
  stop : Outcome → ℕ → Round
  again : RetryInfo → ℕ → Round

module _ (w : World) (attempts : ℕ) where
  -- What follows `hc.Do`; g = i - refused.
  unfoldable pub judge : ℕ → ℕ → Reply → Round
  judge i refused (broken e) =
      if response_header_timed_out e
      then stop (first_byte_timeout e) (i + 1)
      else if not (retryable_net_err e)
      then stop (permanent e) (i + 1)
      else if server_restarting e
      then (if ltb max_conn_refused_attempts (refused + 1)
          then stop (gave_up e) (i + 1)
          else again
              (record {
                attempt = refused + 1;
                delay = retry_delay_refused (refused + 1) (w.random i);
                status = 0;
                kind = unavailable;
              })
              (refused + 1))
      else if leb (attempts - 1) (i - refused)
      then stop (gave_up e) (i + 1)
      else again
          (record {
            attempt = i - refused + 1;
            delay = retry_delay (i - refused + 1) none (w.random i);
            status = 0;
            kind = network;
          })
          refused
  judge i refused (received res) =
      if retryable_status res.status && ltb (i - refused) (attempts - 1)
      then again
          (record {
            attempt = i - refused + 1;
            delay = retry_delay (i - refused + 1) (some res) (w.random i);
            status = res.status;
            kind = busy;
          })
          refused
      else stop (responded res) (i + 1)

  -- The duration that the round's timer is set to.
  abbrev timer : ℕ → ℕ → ℕ
  timer i wait = if wait == 0 || is_negative wait then retry_delay i none (w.random i) else wait

  -- One round: the context, the wait before every round but the first, and the request.
  unfoldable pub round : ℕ → ℕ → ℕ → Round
  unfolding judge
  round i refused wait =
      if w.context_done i
      then stop context_error i
      else if ltb 0 i && not (w.rewinds i)
      then stop not_replayable i
      else if ltb 0 i && w.done_in_wait i (timer i wait)
      then stop context_error i
      else judge i refused (w.do_request i)

pub record Run : Type 0 where
  pub outcome : Outcome
  pub requests : ℕ  -- how many times `hc.Do` was called
  pub retries : List RetryInfo  -- what `onRetry` was told, in order

unfoldable pub retry_loop : World → ℕ → ℕ → ℕ → ℕ → ℕ → Run
retry_loop w attempts zero i refused wait = record {
  outcome = out_of_fuel;
  requests = i;
  retries = [];
}
retry_loop w attempts (suc fuel) i refused wait = elim (round w attempts i refused wait) [
  | stop o n ↦ record { outcome = o; requests = n; retries = [] }
  | again info refused' ↦
      let rest = retry_loop w attempts fuel (i + 1) refused' info.delay in
      record rest { retries = info ∷ rest.retries }
]

-- As many rounds as the two budgets allow, and one more.
abbrev pub fuel_for : ℕ → ℕ
fuel_for attempts = attempts + max_conn_refused_attempts + 1

-- `doWithRetry`.
unfoldable pub do_with_retry : World → ℕ → Run
unfolding retry_loop
do_with_retry w attempts =
    let n = if attempts == 0 then 1 else attempts in retry_loop w n (fuel_for n) 0 0 0
