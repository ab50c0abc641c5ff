-- ===== src/Goal/Run/Rounds.antt =====
-- The rounds of a goal run: what ends it, and what one step of it keeps.
use mow.Prelude.{
  ℕ, ◌+◌, ◌≤◌, ◌<◌, ◌≡◌, ◌≢◌, refl, ◌⊎◌, Bool, true, false, Option, none, some, arith, is_empty,
  max,
}
use mow.Goal.State.{running, done, failed, partial, blocked, State}
use mow.Goal.Run.{
  RunError, persist, context_error, goal_failed, retries_exhausted, goal_blocked, steps_exhausted,
  Loop, Finish, Round, stop, again, max_step_retries, max_transient_steps, max_turn_budget_steps,
  finish, go_on,
}

-- The status that a run without a failed save ends in.
abbrev pub Agrees : Option RunError → State → Type 0
Agrees none st = (st.status ≡ done) ⊎ (st.status ≡ partial)
Agrees (some context_error) st = st.status ≡ failed
Agrees (some goal_failed) st = st.status ≡ failed
Agrees (some goal_blocked) st = (st.status ≡ blocked) × (is_empty st.question ≡ false)
Agrees (some retries_exhausted) st = (st.status ≡ partial) × (max_step_retries < st.retry_count)
Agrees (some steps_exhausted) st = (st.status ≡ partial) × (st.max_steps ≤ st.step)
Agrees (some persist) st = Unit

-- The end of a run that may take so many steps from a state.
pub record IsEnd (st : State) (steps : ℕ) (f : Finish) : Type 0 where
  pub stepped : f.state.step ≤ st.step + steps
  pub same_cap : f.state.max_steps ≡ st.max_steps
  pub retries : f.state.retry_count ≤ max (max_step_retries + 1) (st.retry_count + 1)
  pub agrees : Agrees f.error f.state
  pub durable : f.error ≢ some persist → f.saved ≡ f.state

-- What the loop holds at the top of a pass.
pub record IsRunning (l : Loop) : Type 0 where
  pub is_running : l.state.status ≡ running
  pub is_saved : l.saved ≡ l.state
  pub transients_capped : l.transient_steps < max_transient_steps
  pub turns_capped : l.turn_budget_steps < max_turn_budget_steps

-- A pass ends the run, or takes one step of it.
abbrev pub Advances : State → Round → Type 0
Advances st (stop f) = IsEnd st 1 f
Advances st (again l) =
    (l.state.step ≡ st.step + 1)
    × (l.state.max_steps ≡ st.max_steps)
    × (l.state.retry_count ≤ max max_step_retries st.retry_count)
    × IsRunning l

-- The state behind the work of the pass.
pub record Took (st st' : State) : Type 0 where
  pub one : st'.step ≡ st.step + 1
  pub cap : st'.max_steps ≡ st.max_steps
  pub is_running : st'.status ≡ running
  pub retries : st'.retry_count ≤ max max_step_retries st.retry_count

pub finish-Advances :
    (b : Bool) (saved st st' : State) (e : Option RunError)
    → st'.step ≤ st.step + 1
    → st'.max_steps ≡ st.max_steps
    → st'.retry_count ≤ max (max_step_retries + 1) (st.retry_count + 1)
    → Agrees e st'
    → Advances st (finish b saved st' e)
finish-Advances true saved st st' e n m k a = record {
  stepped = n;
  same_cap = m;
  retries = k;
  agrees = a;
  durable = λ q. refl;
}
finish-Advances false saved st st' e n m k a = record {
  stepped = n;
  same_cap = m;
  retries = k;
  agrees = tt;
  durable = λ q. absurd (q refl);
}

pub go_on-Advances :
    (b : Bool) (saved st st' : State) (transients turns : ℕ)
    → Took st st'
    → transients < max_transient_steps
    → turns < max_turn_budget_steps
    → Advances st (go_on b saved st' transients turns)
go_on-Advances true saved st st' transients turns t h k = (
  t.one,
  t.cap,
  t.retries,
  record { is_running = t.is_running; is_saved = refl; transients_capped = h; turns_capped = k },
)
go_on-Advances false saved st st' transients turns t h k = record {
  stepped = omega (arith, t.one);
  same_cap = t.cap;
  retries = omega (arith, t.retries);
  agrees = tt;
  durable = λ k'. absurd (k' refl);
}
