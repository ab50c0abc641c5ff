-- ===== src/Goal/Spec/Resume.antt =====
-- What a spec asks for, and what it may change of a goal that is stored already.
use mow.Prelude.{
  ◌≡◌, ◌≢◌, ◌⊎◌, Bool, true, false, Option, none, some, [], min, max, ◌==◌, if◌then◌else◌, is_empty,
  trim_space,
}
use mow.Goal.State.{pending, running, done, failed, blocked, State}
use mow.Goal.Spec.{Spec, validate_id}

-- What `NormalizeSpec` makes of a spec: its own id, where it has one; 16 steps where it asks for
-- none, and 64 at most; a width of 8 at most; the other budgets as they are.
pub record IsNormal (spec s : Spec) : Type 0 where
  pub has_id : validate_id s.id ≡ true
  pub own_id : is_empty (trim_space spec.id) ≡ false → s.id ≡ trim_space spec.id
  pub has_goal : is_empty s.goal ≡ false
  pub own_goal : s.goal ≡ trim_space spec.goal
  pub steps : s.max_steps ≡ (if spec.max_steps == 0 then 16 else min spec.max_steps 64)
  pub width : s.parallel_max ≡ min spec.parallel_max 8
  pub tokens : s.max_input_tokens ≡ spec.max_input_tokens
  pub clock : s.max_duration_ms ≡ spec.max_duration_ms

-- A goal that starts, with the budgets of the spec.
pub record IsStarted (s : Spec) (st : State) : Type 0 where
  pub same_id : st.id ≡ s.id
  pub same_goal : st.goal ≡ s.goal
  pub waits : st.status ≡ pending
  pub at_first_step : st.step ≡ 0
  pub no_plan : st.plan ≡ []
  pub no_facts : st.facts ≡ []
  pub steps : st.max_steps ≡ s.max_steps
  pub tokens : st.max_input_tokens ≡ s.max_input_tokens
  pub clock : st.max_duration_ms ≡ s.max_duration_ms

-- A stored goal that is taken up: its budgets are the greater ones (that of the steps where the
-- spec asks for steps), its progress is kept, and it can run.
pub record IsTakenUp (prev : State) (s : Spec) (raise : Bool) (st : State) : Type 0 where
  pub same_id : st.id ≡ prev.id
  pub steps_raised : raise ≡ true → st.max_steps ≡ max prev.max_steps s.max_steps
  pub steps_kept : raise ≡ false → st.max_steps ≡ prev.max_steps
  pub tokens : st.max_input_tokens ≡ max prev.max_input_tokens s.max_input_tokens
  pub clock : st.max_duration_ms ≡ max prev.max_duration_ms s.max_duration_ms
  pub same_step : st.step ≡ prev.step
  pub same_plan : st.plan ≡ prev.plan
  pub same_facts : st.facts ≡ prev.facts
  pub can_run : (st.status ≡ pending) ⊎ (st.status ≡ running) ⊎ (st.status ≡ failed)

-- What `RunSpec` makes of what is stored under the id: a new goal and a done one are started.
abbrev pub IsResumed : Option State → Spec → Bool → State → Type 0
IsResumed none s raise st = IsStarted s st
IsResumed (some prev) s raise st =
    (prev.status ≢ blocked)
    × (prev.status ≡ done → IsStarted s st)
    × (prev.status ≢ done → IsTakenUp prev s raise st)
