-- ===== src/Goal/Step.antt =====
-- ext/goal/executor.go: one step of the outer loop, and `ParseOutcome` of ext/goal/goal.go.
pub mod Gate
use mow.Prelude.{
  ℕ, Bool, not, ◌&&◌, ◌||◌, List, [], ◌∷◌, ◌++◌, Option, none, some, ◌==◌, if◌then◌else◌, Str,
  codes, length, drop, str_eq, trim_space, has_prefix, is_empty,
}
use mow.Goal.Plan.{has_items, all_done}
use mow.Goal.Report.{FinishSignal, Report, report_all, seed_plan, new_signal}
use mow.Goal.State.{State}
use mow.Goal.Run.{unset, outcome_done, outcome_failed, proceed, StepResult, StepError}

-- What `PromptWith` returns, and the reports that the model makes while it runs.
pub record Prompted : Type 0 where
  pub text : Str
  pub session_id : Str
  pub input_tokens : ℕ
  pub output_tokens : ℕ
  pub reports : List Report
  pub error : Option StepError

-- What a step's text says where no report says it: a summary, or a reason and a summary.
pub data TextOutcome : Type 0 where
  silent : TextOutcome
  says_done : Str → TextOutcome
  says_failed : Str → Str → TextOutcome

abbrev marker_done : Str
marker_done = codes "GOAL_DONE"

abbrev marker_failed : Str
marker_failed = codes "GOAL_FAILED:"

abbrev pub line_outcome : Str → TextOutcome
line_outcome line =
    if str_eq line marker_done || has_prefix line (marker_done ++ codes " ")
    then says_done []
    else if has_prefix line marker_failed
    then says_failed (trim_space (drop (length marker_failed) line)) []
    else silent

abbrev pub or_outcome : TextOutcome → TextOutcome → TextOutcome
or_outcome silent o = o
or_outcome o _ = o

-- The loop of `ParseOutcome` over the lines; the line read so far is kept last-first.
unfoldable pub scan_lines : Str → Str → TextOutcome
scan_lines [] line = line_outcome (trim_space line)
scan_lines (c ∷ s) line =
    let next = scan_lines s [] in
    let same = scan_lines s (line ++ c ∷ []) in
    if c == 10 then or_outcome (line_outcome (trim_space line)) next else same

-- `ParseOutcome`.
abbrev pub parse_outcome : Str → TextOutcome
parse_outcome text = scan_lines text []

-- The code points that are letters or digits, `ParseStatusJSON`, and `pickSummary` on the
-- engine's messages.
module _ (is_word : ℕ → Bool) (parse_status_json : Str → TextOutcome)
    (pick_summary : Str → Str → Str) where
  -- `resolveOutcomeText`.
  abbrev pub resolve_outcome_text : Str → TextOutcome
  resolve_outcome_text text = or_outcome (parse_status_json text) (parse_outcome text)

  -- The signal of `goal_report` when the prompt returns.
  unfoldable pub signal : State → Prompted → FinishSignal
  signal st p = report_all is_word (seed_plan new_signal st.plan) p.reports

  -- The result behind the signal: its checklist, if it has one.
  abbrev pub base : State → Prompted → FinishSignal → StepResult
  base st p f = record {
    outcome = unset;
    summary = f.summary;
    reason = [];
    text = p.text;
    session_id = p.session_id;
    input_tokens = p.input_tokens;
    output_tokens = p.output_tokens;
    plan = if f.plan_touched || has_items f.plan then f.plan else st.plan;
    evidence = f.evidence;
  }

  abbrev or_picked : StepResult → StepResult
  or_picked out = record out {
    summary = if is_empty out.summary then pick_summary [] out.text else out.summary;
  }

  -- The text's word, where no report was made.
  unfoldable pub by_text : StepResult → TextOutcome → StepResult
  by_text out silent = record out { outcome = proceed; summary = pick_summary [] out.text }
  by_text out (says_done summary) =
      let out' = record out { summary = pick_summary summary out.text } in
      if has_items out.plan && not (all_done out.plan)
      then record out' {
        outcome = proceed;
        summary =
            if is_empty out'.summary
            then codes "checklist incomplete — cannot finish yet"
            else out'.summary;
      }
      else record out' { outcome = outcome_done }
  by_text out (says_failed reason summary) = record out {
    outcome = outcome_failed;
    reason = reason;
    summary = pick_summary summary out.text;
  }

  unfoldable pub by_signal : StepResult → FinishSignal → StepResult
  unfolding by_text
  by_signal out f =
      if not (is_empty f.reject_done)
      then record out {
        outcome = proceed;
        summary = if is_empty out.summary then f.reject_done else out.summary;
      }
      else if f.done
      then record (or_picked out) { outcome = outcome_done }
      else if f.failed
      then record (or_picked out) { outcome = outcome_failed; reason = f.reason }
      else if f.cont || f.plan_touched
      then record (or_picked out) { outcome = proceed }
      else by_text out (resolve_outcome_text out.text)

  -- `RunStep`.
  unfoldable pub run_step : State → Prompted → StepResult × Option StepError
  unfolding signal by_signal
  run_step st p =
      let f = signal st p in
      let out = base st p f in
      elim p.error [ none ↦ (by_signal out f, none) | some e ↦ (out, some e) ]
