-- ===== src/Llm/Retry/Delays.antt =====
-- The bounds of every backoff.
use native.Mathlib.Nat.{pow-suc}
use mow.Prelude.{
  ℕ, zero, suc, ◌-◌, ◌*◌, ◌^◌, ◌≤◌, ◌<◌, ◌≡◌, ◌⊎◌, inl, inr, true, ap, Option, none, some, arith,
  min, ◌==◌, if◌then◌else◌,
}
use mow.Llm.Retry.{
  second, is_negative, RetryAfter, missing, unreadable, seconds, until, Response, cap, of_float,
  with_jitter, retry_delay_refused, backoff, retry_delay,
}

pow_pos : (n : ℕ) → 1 ≤ 2 ^ n
pow_pos zero = omega arith
pow_pos (suc n) = omega (arith, pow_pos n, pow-suc 2 n)

pow_monotone : (n m : ℕ) → n ≤ m → 2 ^ n ≤ 2 ^ m
pow_monotone zero m h = pow_pos m
pow_monotone (suc n) zero h = absurd (omega (arith, h))
pow_monotone (suc n) (suc m) h =
    omega (arith, pow_monotone n m (omega (arith, h)), pow-suc 2 n, pow-suc 2 m)

with_jitter_bounds : (d r : ℕ) → (d ≤ with_jitter d r) × (4 * with_jitter d r ≤ 5 * d)
unfolding with_jitter
with_jitter_bounds d r = ground arith

cap_bounds :
    (d most : ℕ)
    → 0 < d
    → 0 < most
    → d < 9_223_372_036_854_775_808
    → (0 < cap (of_float d) most) × (cap (of_float d) most ≤ most)
cap_bounds d most h k f = ground arith

cap_range : (d most : ℕ) → (cap d most ≤ most) ⊎ (is_negative (cap d most) ≡ true)
cap_range d most = ground arith

jitter_range :
    (d r : ℕ)
    → (d ≤ 5 * second) ⊎ (is_negative d ≡ true)
    → (with_jitter d r ≤ 30 * second) ⊎ (is_negative (with_jitter d r) ≡ true)
unfolding with_jitter
jitter_range d r (inl h) = inl (omega (arith, h, with_jitter_bounds d r))
jitter_range d r (inr h) = inr (ground (arith, h))

backoff_range :
    (attempt r : ℕ) → (backoff attempt r ≤ 30 * second) ⊎ (is_negative (backoff attempt r) ≡ true)
unfolding backoff
backoff_range attempt r =
    let n = if attempt == 0 then 1 else attempt in
    let d = of_float (200_000_000 * 2 ^ (n - 1)) in
    jitter_range (cap d (5 * second)) r (cap_range d (5 * second))

pub retry_delay_range :
    (attempt : ℕ) (res : Option Response) (r : ℕ)
    → (retry_delay attempt res r ≤ 30 * second) ⊎ (is_negative (retry_delay attempt res r) ≡ true)
unfolding retry_delay
retry_delay_range attempt none r = backoff_range attempt r
retry_delay_range attempt (some res) r = ground (arith, backoff_range attempt r)

-- The attempt up to which the doubled delay fits a duration.
abbrev pub max_fitting_attempt : ℕ
max_fitting_attempt = 36

backoff_bounds :
    (attempt r : ℕ)
    → attempt ≤ max_fitting_attempt
    → (0 < backoff attempt r) × (backoff attempt r ≤ 30 * second)
unfolding backoff
backoff_bounds attempt r fits =
    let n = if attempt == 0 then 1 else attempt in
    let few : n - 1 ≤ 35 = ground (arith, fits) in
    let small : 2 ^ (n - 1) ≤ 34_359_738_368 = pow_monotone (n - 1) 35 few in
    let d = cap (of_float (200_000_000 * 2 ^ (n - 1))) (5 * second) in
    let b =
      cap_bounds (200_000_000 * 2 ^ (n - 1)) (5 * second) (omega (arith, pow_pos (n - 1)))
        (omega arith) (omega (arith, small)) in
    omega (arith, b, with_jitter_bounds d r)

pow_capped : (n : ℕ) → (1 ≤ 2 ^ min n 2) × (2 ^ min n 2 ≤ 4)
pow_capped zero = omega arith
pow_capped (suc zero) = omega arith
pow_capped (suc (suc n)) =
    let e : min (suc (suc n)) 2 ≡ 2 = omega arith in omega (arith, ap (λ (k : ℕ). 2 ^ k) e)

pub retry_delay_refused_bounds :
    (n r : ℕ) → (0 < retry_delay_refused n r) × (retry_delay_refused n r ≤ 5 * second)
unfolding retry_delay_refused
retry_delay_refused_bounds n r =
    let n' = if n == 0 then 1 else n in omega (arith, pow_capped (n' - 1))

-- A number of seconds that fits a duration.
abbrev pub Fits : RetryAfter → Type 0
Fits (seconds n) = n * second < 9_223_372_036_854_775_808
Fits _ = Unit

abbrev FitsReply : Option Response → Type 0
FitsReply none = Unit
FitsReply (some res) = Fits res.retry_after

announced_bounds :
    (attempt status : ℕ) (ra : RetryAfter) (r : ℕ)
    → attempt ≤ max_fitting_attempt
    → Fits ra
    → (0 < retry_delay attempt (some (record { status = status; retry_after = ra })) r)
      × (retry_delay attempt (some (record { status = status; retry_after = ra })) r ≤ 30 * second)
unfolding retry_delay
announced_bounds attempt status missing r h f = backoff_bounds attempt r h
announced_bounds attempt status unreadable r h f = backoff_bounds attempt r h
announced_bounds attempt status (seconds n) r h f = ground (arith, f, backoff_bounds attempt r h)
announced_bounds attempt status (until d) r h f = ground (arith, backoff_bounds attempt r h)

pub retry_delay_bounds :
    (attempt : ℕ) (res : Option Response) (r : ℕ)
    → attempt ≤ max_fitting_attempt
    → FitsReply res
    → (0 < retry_delay attempt res r) × (retry_delay attempt res r ≤ 30 * second)
unfolding retry_delay
retry_delay_bounds attempt none r h f = backoff_bounds attempt r h
retry_delay_bounds attempt (some res) r h f =
    announced_bounds attempt res.status res.retry_after r h f
