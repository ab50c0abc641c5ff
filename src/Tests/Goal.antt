-- ===== src/Tests/Goal.antt =====
-- A goal of two items, worked in two steps.
use mow.Prelude.{
  ℕ, ◌+◌, ◌*◌, ◌≤◌, ◌≡◌, ◌≢◌, refl, str_eq, Bool, true, false, List, [], ◌∷◌, length, Option, none,
  some, arith, Str, codes, trim_space, to_lower, if◌then◌else◌,
}
use mow.Goal.Plan.{
  PlanItemStatus, pending, done, PlanItem, RawItem, Plan, all_done, set_item, replace_items,
  parse_status,
}
use mow.Goal.Plan.Ids.{Fresh, IsChecklist, IsUpdate, replace_items-IsChecklist, set_item-IsUpdate}
use mow.Goal.Report.{
  Report, new_signal, seed_plan, report, report_all, verdict, finished, unknown,
  max_evidence_per_report,
}
use mow.Goal.Report.Kept.{IsGated, report-IsGated, report_all-bounds}
use mow.Goal.State.{Status, State}
use mow.Goal.Run.{StepOutcome, unset, outcome_done, StepResult, StepError, Pass}
use mow.Goal.Run.Passes.{Start}
use mow.Goal.Spec.{Spec}
use mow.Goal.Step.{Prompted, TextOutcome, silent, run_step}
use mow.Goal.Step.Gate.{run_step-gate}
use mow.Goal.Parallel.{
  ParallelOutcome, parallel_width, max_parallel_width, pending_batch, join_parallel,
}
use mow.Goal.Parallel.Merge.{IsJoin, join_parallel-IsJoin, parallel_width-bounds}

abbrev is_word : ℕ → Bool
is_word c = true

abbrev item : Str → PlanItemStatus → PlanItem
item id st = record { id = id; title = id; status = st; note = []; worker = [] }

abbrev open_plan : Plan
open_plan = item (codes "a") done ∷ item (codes "b") pending ∷ []

abbrev raw_item : Str → Str → RawItem
raw_item id st = record { id = id; title = []; status = st; note = []; worker = [] }

abbrev listed : Plan
listed = item (codes "a") done ∷ item (codes "b") pending ∷ []

replace_items-IsChecklist_example : IsChecklist listed
unfolding replace_items to_lower trim_space str_eq
replace_items-IsChecklist_example =
    replace_items-IsChecklist is_word
      (raw_item (codes " a") (codes "Done") ∷ raw_item (codes "b") [] ∷ []) listed refl

set_item-IsUpdate_example :
    (st : PlanItemStatus) × (parse_status (codes "done") ≡ some st)
    × IsUpdate
        (trim_space (codes "b "))
        st
        []
        open_plan
        (item (codes "a") done ∷ item (codes "b") done ∷ [])
unfolding set_item trim_space to_lower str_eq
set_item-IsUpdate_example =
    set_item-IsUpdate (codes "b ") (codes "done") [] open_plan
      (item (codes "a") done ∷ item (codes "b") done ∷ []) refl

abbrev done_report : Report
done_report = record {
  status = codes "Done";
  reason = [];
  summary = codes "all written";
  plan = [];
  item_id = codes "b";
  item_status = codes "done";
  item_note = [];
  evidence = [];
}

finished-known : finished ≢ unknown
finished-known e = cc

report-IsGated_example : IsGated (report is_word (seed_plan new_signal open_plan) done_report)
unfolding verdict trim_space to_lower str_eq
report-IsGated_example =
    report-IsGated is_word (seed_plan new_signal open_plan) done_report finished-known

report_all-bounds_example :
    Fresh [] (report_all is_word (seed_plan new_signal open_plan) (done_report ∷ [])).plan
    × (length (report_all is_word (seed_plan new_signal open_plan) (done_report ∷ [])).evidence
        ≤ length (seed_plan new_signal open_plan).evidence
          + max_evidence_per_report * length (done_report ∷ []))
unfolding str_eq
report_all-bounds_example =
    report_all-bounds is_word (seed_plan new_signal open_plan) (done_report ∷ []) (refl, (refl, tt))

abbrev goal : State
goal = record {
  id = codes "g";
  goal = codes "write";
  workspace = codes "/w";
  status = Status.pending;
  step = 0;
  max_steps = 2;
  parallel_max = 2;
  session_id = [];
  last_reply = [];
  summary = [];
  facts = [];
  retry_count = 0;
  question = [];
  verify_note = [];
  phase = [];
  verification = ([], []);
  partial_summary = [];
  error = [];
  plan = item (codes "a") pending ∷ item (codes "b") pending ∷ [];
  current_item = [];
  input_tokens = 0;
  output_tokens = 0;
  max_input_tokens = 0;
  max_duration_ms = 0;
  run_owner_pid = 0;
  run_owner_host = [];
}

abbrev prompted : Prompted
prompted = record {
  text = codes "written";
  session_id = codes "s";
  input_tokens = 10;
  output_tokens = 5;
  reports = done_report ∷ [];
  error = none;
}

abbrev no_status : Str → TextOutcome
no_status text = silent

abbrev as_is : Str → Str → Str
as_is summary text = text

abbrev step_of : State → StepResult × Option StepError
step_of st = run_step is_word no_status as_is st prompted

abbrev quiet : ℕ → Pass
quiet n = record {
  cancelled = false;
  saves_focus = true;
  work = step_of;
  elapsed_ms = 0;
  duration_text = λ ms. [];
  context_text = [];
  notes = StepResult.text;
  route = λ st sr. unset;
  verify = λ st sr. [];
  saves = true;
  cancelled_in_backoff = false;
  saves_cancelled = true;
}

abbrev begin : Start
begin = record {
  host = codes "h";
  process_id = 7;
  alive = λ pid. false;
  saves_healed = true;
  saves_start = true;
  saves_exhausted = true;
  engine_session = codes "s";
}

abbrev half_done : State
half_done = record goal { plan = open_plan }

run_step-gate_example : all_done (run_step is_word no_status as_is half_done prompted).0.plan ≡ true
unfolding run_step trim_space to_lower str_eq verdict report_all set_item all_done
run_step-gate_example =
    run_step-gate is_word no_status as_is half_done prompted (finished-known, tt) refl

abbrev sub_step : PlanItem → StepOutcome → ParallelOutcome
sub_step it o = record {
  item = it;
  res = record {
    outcome = o;
    summary = codes "ok";
    reason = [];
    text = codes "ok";
    session_id = codes "s";
    input_tokens = 1;
    output_tokens = 1;
    plan = it ∷ [];
    evidence = [];
  };
  failed_with = false;
}

abbrev two_steps : List ParallelOutcome
two_steps =
    sub_step (item (codes "a") pending) outcome_done
    ∷ sub_step (item (codes "b") pending) outcome_done
    ∷ []

join_parallel-IsJoin_example : IsJoin goal two_steps (join_parallel goal two_steps)
join_parallel-IsJoin_example = join_parallel-IsJoin goal two_steps

parallel_width-bounds_example :
    (2 ≤ parallel_width true goal)
    × (parallel_width true goal ≤ max_parallel_width)
    × (parallel_width true goal ≤ goal.parallel_max)
    × (length (pending_batch goal.plan (parallel_width true goal)) ≡ parallel_width true goal)
unfolding parallel_width
parallel_width-bounds_example = parallel_width-bounds true goal (omega arith)

abbrev asked : Spec
asked = record {
  id = codes "g";
  goal = codes " write ";
  max_steps = 80;
  parallel_max = 0;
  max_input_tokens = 0;
  max_duration_ms = 0;
}

-- The one goal that is stored, under the id "g".
abbrev on_disk : Str → Option State
on_disk id = if str_eq id (codes "g") then some goal else none
