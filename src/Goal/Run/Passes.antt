-- ===== src/Goal/Run/Passes.antt =====
-- ext/goal/runner.go: `runState`. A pass of its loop is one function of the state and of what the
-- pass meets; the passes are indexed by the step that they take.
use mow.Prelude.{
  decimal, ℕ, zero, suc, ◌+◌, ◌-◌, Bool, true, false, not, ◌&&◌, List, [], ◌∷◌, ◌++◌, Option, none,
  some, ltb, leb, if◌then◌else◌, Str, codes, trim_space, is_empty,
}
use mow.Goal.State.{
  Status, running, done, partial, blocked, State, heal_stale_running, partial_summary_for, focus,
}
use mow.Goal.Run.{
  StepOutcome, unset, outcome_done, outcome_failed, reroute, retry_same, escalate, partial_stop,
  StepResult, StepError, max_turns, transient, fatal, Pass, persist, context_error, goal_failed,
  retries_exhausted, goal_blocked, steps_exhausted, Loop, Finish, Round, stop, again,
  max_transient_steps, max_turn_budget_steps, max_step_retries, finish, go_on, account,
  hard_budget_exceeded, adopt, over_budget, soft_failed, fail_with, record_step,
}

abbrev join_issues : Str → List Str → Str
join_issues s [] = s
join_issues s (t ∷ ts) = join_issues (s ++ codes "; " ++ t) ts

module _ (p : Pass) (saved : State) where
  -- The branch on a step's error.
  unfoldable pub on_error : State → StepResult → ℕ → ℕ → StepError → Round
  on_error st sr transients turns (max_turns why) =
      let st' = soft_failed st sr (p.notes sr) in
      if leb max_turn_budget_steps (turns + 1)
      then finish p.saves saved
          (fail_with st' (why ++ codes " (" ++ decimal (turns + 1) ++ codes " steps)"))
          (some goal_failed)
      else go_on p.saves saved st' 0 (turns + 1)
  on_error st sr transients turns (transient why) =
      let st' = soft_failed st sr (p.notes sr) in
      if leb max_transient_steps (transients + 1)
      then finish p.saves saved
          (fail_with st' (
            why
            ++ codes " ("
            ++ decimal (transients + 1)
            ++ codes " consecutive upstream failures)"))
          (some goal_failed)
      else if p.saves && p.cancelled_in_backoff
      then finish p.saves_cancelled st' (fail_with st' p.context_text) (some context_error)
      else go_on p.saves saved st' (transients + 1) 0
  on_error st sr transients turns (fatal why) =
      finish p.saves saved (record (fail_with st why) { last_reply = sr.text }) (some goal_failed)

  -- Router.
  abbrev pub routed : State → StepResult → StepOutcome
  routed st sr = elim (p.route st sr) [ unset ↦ sr.outcome | o ↦ o ]

  abbrev pub failing : State → List Str → State
  failing st [] = st
  failing st (s ∷ ss) = record st {
    verify_note = join_issues s ss;
    verification = (codes "failed", join_issues s ss);
  }

  abbrev pub is_escalate : StepOutcome → Bool
  is_escalate escalate = true
  is_escalate _ = false

  abbrev pub issues_of : State → StepResult → StepOutcome → List Str
  issues_of st sr o = if is_escalate o then [] else p.verify st (record sr { outcome = o })

  -- Verify, which may turn the outcome into a retry.
  unfoldable pub verified : State → StepResult → StepOutcome → State × StepOutcome
  verified st sr o =
      (failing st (issues_of st sr o), elim (issues_of st sr o) [ [] ↦ o | s ∷ ss ↦ retry_same ])

  abbrev pub give_up : State → Str → State
  give_up st why =
      let st' = record st { status = partial; error = why } in
      record st' { partial_summary = partial_summary_for st' }

  -- The switch on the outcome.
  unfoldable pub on_outcome : State → StepResult → StepOutcome → Round
  on_outcome st sr reroute =
      go_on p.saves saved (record st { retry_count = 0; status = running }) 0 0
  on_outcome st sr retry_same =
      let st' = record st { retry_count = st.retry_count + 1; status = running } in
      if ltb max_step_retries st'.retry_count
      then finish p.saves saved
          (give_up st'
            (codes "retried " ++ decimal st.retry_count ++ codes " times without progress"))
          (some retries_exhausted)
      else go_on p.saves saved st' 0 0
  on_outcome st sr escalate =
      finish p.saves saved
        (record st {
          status = blocked;
          question =
              if is_empty st.question
              then codes "A step escalated: " ++ trim_space st.summary
              else st.question;
          error = codes "waiting for human decision";
        })
        (some goal_blocked)
  on_outcome st sr partial_stop =
      finish p.saves saved (give_up st (codes "stopped partial by route")) none
  on_outcome st sr outcome_done =
      finish p.saves saved (record st { status = done; error = []; retry_count = 0 }) none
  on_outcome st sr outcome_failed =
      finish p.saves saved
        (fail_with st (if is_empty sr.reason then codes "model reported failure" else sr.reason))
        (some goal_failed)
  on_outcome st sr _ = go_on p.saves saved (record st { retry_count = 0 }) 0 0

  -- A step without an error.
  unfoldable pub on_success : State → StepResult → Round
  unfolding on_outcome verified record_step
  on_success st sr =
      let st' = record_step st sr (p.notes sr) in
      let (st'', o) = verified st' sr (routed st' sr) in on_outcome st'' sr o

  abbrev pub on_step : State → StepResult → ℕ → ℕ → Option StepError → Round
  on_step st sr transients turns none = on_success st sr
  on_step st sr transients turns (some e) = on_error st sr transients turns e

  -- What follows the work, whose step it counts.
  unfoldable pub on_result : State → ℕ → ℕ → StepResult → Option StepError → Round
  unfolding account hard_budget_exceeded adopt on_success on_error
  on_result st transients turns sr e =
      let st' = account st sr in
      elim (hard_budget_exceeded st' p.elapsed_ms p.duration_text) [
        | some why ↦ finish p.saves saved (over_budget st' sr why) none
        | none ↦ on_step (adopt st' sr) sr transients turns e
      ]

-- One pass of the loop.
unfoldable pub pass : Pass → Loop → Round
unfolding on_result focus
pass p l =
    if p.cancelled
    then finish p.saves l.saved (fail_with l.state p.context_text) (some context_error)
    else if not p.saves_focus
    then stop (record { state = focus l.state; saved = l.saved; error = some persist })
    else (let st = focus l.state in
        let (sr, e) = p.work st in on_result p st st l.transient_steps l.turn_budget_steps sr e)

abbrev pub exhausted : Loop → Bool → Finish
exhausted l saves =
    let st = record l.state {
      status = partial;
      error = codes "max steps " ++ decimal l.state.max_steps ++ codes " exceeded";
    } in
    let st' = record st { partial_summary = partial_summary_for st } in
    record {
      state = st';
      saved = if saves then st' else l.saved;
      error = if saves then some steps_exhausted else some persist;
    }

-- The loop, with the passes left: MaxSteps - Step.
unfoldable pub run_loop : (ℕ → Pass) → Bool → ℕ → Loop → Finish
unfolding pass
run_loop ps saves zero l = exhausted l saves
run_loop ps saves (suc left) l = elim (pass (ps l.state.step) l) [
  | stop f ↦ f
  | again l' ↦ run_loop ps saves left l'
]

-- What the start of a run meets.
pub record Start : Type 0 where
  pub host : Str
  pub process_id : ℕ
  pub alive : ℕ → Bool
  pub saves_healed : Bool
  pub saves_start : Bool
  pub saves_exhausted : Bool
  pub engine_session : Str

-- `setRunOwner` and what stands around it.
abbrev pub started : Start → State → State
started s st = record st {
  status = running;
  error = [];
  run_owner_pid = s.process_id;
  run_owner_host = s.host;
  session_id = if is_empty st.session_id then s.engine_session else st.session_id;
}

abbrev pub enter : Start → (ℕ → Pass) → State → State → Finish
enter s ps saved st =
    if s.saves_start
    then run_loop ps s.saves_exhausted (st.max_steps - st.step) (record {
      state = started s st;
      saved = started s st;
      transient_steps = 0;
      turn_budget_steps = 0;
    })
    else record { state = started s st; saved = saved; error = some persist }

-- A goal that is done already is left as it is.
abbrev pub unless_done : Start → (ℕ → Pass) → State → Status → Finish
unless_done s ps st done = record { state = st; saved = st; error = none }
unless_done s ps st _ = enter s ps st st

-- `runState` of a goal whose run lock is taken.
unfoldable pub run_state : Start → (ℕ → Pass) → State → Finish
unfolding run_loop heal_stale_running
run_state s ps st =
    let (st', healed) = heal_stale_running s.host s.alive st in
    if healed && not s.saves_healed
    then record { state = st'; saved = st; error = some persist }
    else unless_done s ps st' st'.status
