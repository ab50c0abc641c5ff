-- ===== src/Goal/Run.antt =====
-- ext/goal/runner.go: what the outer loop carries from pass to pass, and the changes of its state.
pub mod Passes
pub mod Rounds
pub mod Ends
pub mod Total
use mow.Prelude.{
  decimal, ℕ, ◌+◌, Bool, true, false, ◌&&◌, List, [], ◌∷◌, ◌++◌, Option, none, some, ltb, leb,
  if◌then◌else◌, Str, codes, str_eq, trim_space, is_empty,
}
use mow.Goal.Plan.{Plan, has_items}
use mow.Goal.Report.{Fact}
use mow.Goal.State.{failed, partial, State, bounded_text}

-- `StepOutcome`; `unset` is the empty string.
pub data StepOutcome : Type 0 where
  unset outcome_done outcome_failed proceed retry budget : StepOutcome
  reroute retry_same escalate partial_stop : StepOutcome

pub record StepResult : Type 0 where
  pub outcome : StepOutcome
  pub summary : Str
  pub reason : Str
  pub text : Str
  pub session_id : Str
  pub input_tokens : ℕ
  pub output_tokens : ℕ
  pub plan : Plan
  pub evidence : List Fact

-- The error of a step, by `errors.Is(err, mow.ErrAgentMaxTurns)` and then `isTransientLLM`, with
-- the text of `classifyStepError`.
pub data StepError : Type 0 where
  max_turns transient fatal : Str → StepError

-- What one pass meets.
pub record Pass : Type 0 where
  pub cancelled : Bool  -- ctx.Err() != nil at the top
  pub saves_focus : Bool  -- the save before the work
  pub work : State → StepResult × Option StepError
  pub elapsed_ms : ℕ  -- since StartedAt
  pub duration_text : ℕ → Str  -- Duration.String of so many milliseconds
  pub context_text : Str  -- ctx.Err().Error()
  pub notes : StepResult → Str  -- the step summaries made of the engine's messages
  pub route : State → StepResult → StepOutcome  -- Router, unset where it is nil
  pub verify : State → StepResult → List Str  -- Verify, none where it is nil
  pub saves : Bool  -- the save at the end
  pub cancelled_in_backoff : Bool
  pub saves_cancelled : Bool  -- the save after that

pub data RunError : Type 0 where
  persist context_error goal_failed retries_exhausted goal_blocked steps_exhausted : RunError

-- The state that the loop carries, the last one that it saved, and its two streaks.
pub record Loop : Type 0 where
  pub state : State
  pub saved : State
  pub transient_steps : ℕ
  pub turn_budget_steps : ℕ

-- How `runState` returns.
pub record Finish : Type 0 where
  pub state : State
  pub saved : State
  pub error : Option RunError

pub data Round : Type 0 where
  stop : Finish → Round
  again : Loop → Round

abbrev pub max_transient_steps : ℕ
max_transient_steps = 5

abbrev pub max_turn_budget_steps : ℕ
max_turn_budget_steps = 5

abbrev pub max_step_retries : ℕ
max_step_retries = 3

-- `r.save(st)` and a return.
abbrev pub finish : Bool → State → State → Option RunError → Round
finish true saved st e = stop (record { state = st; saved = st; error = e })
finish false saved st e = stop (record { state = st; saved = saved; error = some persist })

-- `r.save(st)` and the next pass.
abbrev pub go_on : Bool → State → State → ℕ → ℕ → Round
go_on true saved st transients turns =
    again
      (record { state = st; saved = st; transient_steps = transients; turn_budget_steps = turns })
go_on false saved st transients turns =
    stop (record { state = st; saved = saved; error = some persist })

-- The step count and the tokens of a step.
unfoldable pub account : State → StepResult → State
account st sr = record st {
  step = st.step + 1;
  input_tokens = st.input_tokens + sr.input_tokens;
  output_tokens = st.output_tokens + sr.output_tokens;
}

-- `hardBudgetExceeded`.
unfoldable pub hard_budget_exceeded : State → ℕ → (ℕ → Str) → Option Str
hard_budget_exceeded st elapsed duration_text =
    if ltb 0 st.max_input_tokens && leb st.max_input_tokens st.input_tokens
    then some (
        codes "input token budget exceeded ("
        ++ decimal st.input_tokens
        ++ codes "/"
        ++ decimal st.max_input_tokens
        ++ codes ")")
    else if ltb 0 st.max_duration_ms && leb st.max_duration_ms elapsed
    then some (
        codes "wall-clock budget exceeded ("
        ++ duration_text elapsed
        ++ codes "/"
        ++ duration_text st.max_duration_ms
        ++ codes ")")
    else none

-- The session and the checklist of a step within the budget.
unfoldable pub adopt : State → StepResult → State
adopt st sr = record st {
  session_id = if is_empty st.session_id then sr.session_id else st.session_id;
  plan = if has_items sr.plan then sr.plan else st.plan;
}

abbrev pub over_budget : State → StepResult → Str → State
over_budget st sr why = record st {
  last_reply = sr.text;
  summary = if is_empty st.summary then trim_space sr.text else st.summary;
  status = partial;
  partial_summary = why;
  error = why;
}

abbrev pub soft_failed : State → StepResult → Str → State
soft_failed st sr note = record st { last_reply = sr.text; summary = note; error = [] }

abbrev pub fail_with : State → Str → State
fail_with st why = record st { status = failed; error = why }

-- The loop on a step's evidence: a fact with the claim of an old one takes its place.
unfoldable pub note_fact : Fact → List Fact → List Fact
note_fact f [] = f ∷ []
note_fact f (g ∷ gs) =
    let rest = note_fact f gs in if str_eq g.claim f.claim then f ∷ gs else g ∷ rest

unfoldable pub note_facts : ℕ → List Fact → List Fact → List Fact
unfolding note_fact
note_facts step [] facts = facts
note_facts step (f ∷ fs) facts =
    let claim = trim_space f.claim in
    note_facts step fs (
      if is_empty claim
      then facts
      else note_fact (record f { claim = claim; produced_by_step = step }) facts)

unfoldable pub title_of : Str → Plan → Option Str
title_of id [] = none
title_of id (it ∷ p) = let rest = title_of id p in if str_eq it.id id then some it.title else rest

abbrev or_phase : Option Str → Str → Str
or_phase none old = old
or_phase (some title) old = bounded_text title 80

-- What a step without an error leaves in the state.
unfoldable pub record_step : State → StepResult → Str → State
unfolding note_facts title_of
record_step st sr note = record st {
  verify_note = [];
  verification = (codes "passed", []);
  last_reply = sr.text;
  summary = if is_empty sr.summary then note else sr.summary;
  facts = note_facts st.step sr.evidence st.facts;
  phase =
      if is_empty (trim_space st.current_item)
      then st.phase
      else or_phase (title_of (trim_space st.current_item) st.plan) st.phase;
}
