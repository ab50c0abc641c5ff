-- ===== src/Goal/Report.antt =====
-- ext/goal/finish.go: what `goal_report` records during a step, and `capEvidence` of
-- ext/goal/bounds.go. A confidence is only copied: it is a number of hundredths here.
pub mod Kept
use mow.Prelude.{
  ℕ, Bool, true, false, not, ◌&&◌, List, [], ◌∷◌, ◌++◌, any, take, if◌then◌else◌, Str, codes,
  str_eq, trim_space, to_lower, is_empty, Result, ok, err,
}
use mow.Goal.Plan.{PlanError, RawItem, Plan, has_items, all_done, set_item, replace_items}

pub record Fact : Type 0 where
  pub claim : Str
  pub source : Str
  pub confidence : ℕ
  pub produced_by_step : ℕ

-- `finishSignal`; `cont` is an explicit continue.
pub record FinishSignal : Type 0 where
  pub done : Bool
  pub failed : Bool
  pub cont : Bool
  pub reason : Str
  pub summary : Str
  pub plan : Plan
  pub plan_touched : Bool
  pub reject_done : Str
  pub evidence : List Fact

-- The arguments of `report`.
pub record Report : Type 0 where
  pub status : Str
  pub reason : Str
  pub summary : Str
  pub plan : List RawItem
  pub item_id : Str
  pub item_status : Str
  pub item_note : Str
  pub evidence : List Fact

abbrev pub max_evidence_per_report : ℕ
max_evidence_per_report = 32

-- `capEvidence`.
abbrev pub cap_evidence : List Fact → List Fact
cap_evidence facts = take max_evidence_per_report facts

-- The facts of a report that have a claim, trimmed.
unfoldable pub recorded : List Fact → List Fact
recorded [] = []
recorded (ev ∷ evs) =
    let rest = recorded evs in
    if is_empty (trim_space ev.claim)
    then rest
    else record {
      claim = trim_space ev.claim;
      source = trim_space ev.source;
      confidence = ev.confidence;
      produced_by_step = 0;
    }
      ∷ rest

-- The words that the switch on the status knows.
pub data Verdict : Type 0 where
  finished broke progress unknown : Verdict

abbrev one_of : Str → List Str → Bool
one_of s words = any (str_eq s) words

unfoldable pub verdict : Str → Verdict
verdict status =
    let s = to_lower (trim_space status) in
    if one_of s (codes "done" ∷ codes "complete" ∷ codes "success" ∷ [])
    then finished
    else if one_of s (codes "failed" ∷ codes "fail" ∷ codes "blocked" ∷ codes "error" ∷ [])
    then broke
    else if one_of s (codes "continue" ∷ codes "progress" ∷ codes "next" ∷ [] ∷ [])
    then progress
    else unknown

abbrev pub reject_text : Str
reject_text = codes "checklist incomplete — mark remaining items done or use status=continue"

abbrev pub touch : FinishSignal → Result PlanError Plan → FinishSignal
touch f (ok p) = record f { plan = p; plan_touched = true }
touch f (err e) = f

-- The last switch of `report`.
unfoldable pub settle : FinishSignal → Str → Verdict → FinishSignal
settle f reason finished =
    if has_items f.plan && not (all_done f.plan)
    then record f { reject_done = reject_text; done = false; failed = false; cont = true }
    else record f { done = true; failed = false; cont = false; reason = []; reject_done = [] }
settle f reason broke = record f {
  failed = true;
  done = false;
  cont = false;
  reason = trim_space reason;
  reject_done = [];
}
settle f reason progress = record f { cont = true; done = false; failed = false; reject_done = [] }
settle f reason unknown = f

module _ (is_word : ℕ → Bool) where
  -- The changes of `report` before the switch on the status.
  abbrev pub note_summary : FinishSignal → Str → FinishSignal
  note_summary f summary =
      if is_empty (trim_space summary) then f else record f { summary = trim_space summary }

  unfoldable pub apply_plan : FinishSignal → List RawItem → FinishSignal
  apply_plan f [] = f
  apply_plan f (it ∷ its) = touch f (replace_items is_word (it ∷ its))

  abbrev pub note_evidence : FinishSignal → List Fact → FinishSignal
  note_evidence f evs = record f { evidence = f.evidence ++ recorded (cap_evidence evs) }

  abbrev pub status_or_done : Str → Str
  status_or_done status = if is_empty (trim_space status) then codes "done" else trim_space status

  unfoldable pub apply_item : FinishSignal → Str → Str → Str → FinishSignal
  apply_item f id status note =
      if is_empty (trim_space id)
      then f
      else touch f (set_item (trim_space id) (status_or_done status) note f.plan)

  -- `report`.
  unfoldable pub report : FinishSignal → Report → FinishSignal
  unfolding recorded apply_plan apply_item settle verdict
  report f r =
      let f1 = note_summary f r.summary in
      let f2 = apply_plan f1 r.plan in
      let f3 = note_evidence f2 r.evidence in
      let f4 = apply_item f3 r.item_id r.item_status r.item_note in
      settle f4 r.reason (verdict r.status)

  -- The reports of one step, in the order of the calls.
  unfoldable pub report_all : FinishSignal → List Report → FinishSignal
  unfolding report
  report_all f [] = f
  report_all f (r ∷ rs) = report_all (report f r) rs

-- `seedPlan`.
abbrev pub seed_plan : FinishSignal → Plan → FinishSignal
seed_plan f p = if has_items p then record f { plan = p } else f

abbrev pub new_signal : FinishSignal
new_signal = record {
  done = false;
  failed = false;
  cont = false;
  reason = [];
  summary = [];
  plan = [];
  plan_touched = false;
  reject_done = [];
  evidence = [];
}
