-- ===== src/Goal/Run/Total.antt =====
-- The whole run of a goal, from `runState`'s first line to its return.
use mow.Prelude.{◌≡◌}
use mow.Goal.State.{State}

-- What `focus` leaves alone.
record IsFocused (st st' : State) : Type 0 where
  same_step : st'.step ≡ st.step
  same_cap : st'.max_steps ≡ st.max_steps
  same_status : st'.status ≡ st.status
  same_retries : st'.retry_count ≡ st.retry_count

-- What healing leaves alone.
record IsHealed (st st' : State) : Type 0 where
  same_step : st'.step ≡ st.step
  same_cap : st'.max_steps ≡ st.max_steps
  same_retries : st'.retry_count ≡ st.retry_count
