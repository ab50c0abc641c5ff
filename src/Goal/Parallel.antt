-- ===== src/Goal/Parallel.antt =====
-- ext/goal/parallel.go: the items that one step runs at once, and how their results join.
pub mod Merge
use mow.Prelude.{
  ℕ, ◌+◌, Bool, true, false, not, ◌&&◌, ◌||◌, List, [], ◌∷◌, ◌++◌, ltb, if◌then◌else◌, min, length,
  take, Str, codes, str_eq, trim_space, is_empty,
}
use mow.Goal.Plan.{
  PlanItemStatus, pending, done, failed, PlanItem, Plan, is_pending, all_done, or_text,
}
use mow.Goal.Report.{Fact}
use mow.Goal.State.{State, truncate_runes}
use mow.Goal.Run.{StepOutcome, outcome_done, outcome_failed, proceed, escalate, StepResult}

abbrev pub max_parallel_width : ℕ
max_parallel_width = 8

unfoldable pub pending_items : Plan → Plan
pending_items [] = []
pending_items (it ∷ p) =
    let rest = pending_items p in if is_pending it.status then it ∷ rest else rest

-- `parallelWidth`; the first argument says whether there is an engine factory.
unfoldable pub parallel_width : Bool → State → ℕ
unfolding pending_items
parallel_width false st = 0
parallel_width true st =
    let waiting = length (pending_items st.plan) in
    if ltb st.parallel_max 2 || ltb waiting 2
    then 0
    else min (min st.parallel_max max_parallel_width) waiting

-- `pendingBatch`; n is positive.
abbrev pub pending_batch : Plan → ℕ → Plan
pending_batch p n = take n (pending_items p)

-- `subState`.
abbrev pub sub_state : State → PlanItem → State
sub_state st it = record st {
  plan = record it { status = pending } ∷ [];
  current_item = it.id;
  verify_note = [];
  partial_summary = [];
  question = [];
  error = [];
}

-- `parallelOutcome`; of the error only whether there is one is read here.
pub record ParallelOutcome : Type 0 where
  pub item : PlanItem
  pub res : StepResult
  pub failed_with : Bool

-- The loop of `setParentItem`.
unfoldable pub set_parent : Str → PlanItemStatus → Str → Plan → Plan
set_parent id st note [] = []
set_parent id st note (it ∷ p) =
    let rest = set_parent id st note p in
    if str_eq it.id id
    then record it { status = st; note = or_text (trim_space note) it.note } ∷ p
    else it ∷ rest

unfoldable pub has_item : Str → Plan → Bool
has_item id [] = false
has_item id (it ∷ p) = str_eq it.id id || has_item id p

-- `setParentItem`, with whether the item existed.
unfoldable pub set_parent_item : Plan → Str → PlanItemStatus → Str → Plan × Bool
unfolding set_parent has_item
set_parent_item p raw st note =
    let id = trim_space raw in
    if is_empty id then (p, false) else (set_parent id st note p, has_item id p)

-- What the loop of `joinParallel` carries.
pub record Join : Type 0 where
  pub plan : Plan
  pub input_tokens : ℕ
  pub output_tokens : ℕ
  pub session_id : Str
  pub evidence : List Fact
  pub lines : List Str
  pub texts : List Str
  pub any_failed : Bool
  pub escalated : Bool
  pub any_done : Bool
  pub reason : Str
  pub question : Str

-- The item statuses of a sub-step land on the parent's checklist; with whether one did.
unfoldable pub land : Plan → Plan → Bool → Plan × Bool
unfolding set_parent_item
land p [] applied = (p, applied)
land p (it ∷ its) applied =
    let (p', found) = set_parent_item p it.id it.status it.note in
    if is_pending it.status then land p its applied else land p' its (applied || found)

abbrev or_default : Str → Str → Str
or_default s default = if is_empty s then default else s

-- The switch on a sub-step's outcome.
unfoldable pub count_outcome : ParallelOutcome → Bool → Join → StepOutcome → Join
unfolding set_parent_item
count_outcome s applied j outcome_failed = record j {
  any_failed = true;
  reason = or_default j.reason (
      or_default (trim_space s.res.reason)
        (codes "parallel item " ++ s.item.id ++ codes " failed"));
  plan = (set_parent_item j.plan s.item.id failed s.res.reason).0;
}
count_outcome s applied j outcome_done = record j {
  any_done = true;
  plan = if applied then j.plan else (set_parent_item j.plan s.item.id done []).0;
}
count_outcome s applied j escalate = record j {
  escalated = true;
  question = or_default j.question (
      or_default (trim_space s.res.summary)
        (codes "parallel item " ++ s.item.id ++ codes " escalated"));
}
count_outcome s applied j _ = j

abbrev pub with_text : ParallelOutcome → Join → Join
with_text s j = record j {
  lines =
      if s.failed_with || is_empty (trim_space s.res.summary)
      then j.lines
      else j.lines ++ (codes "[" ++ s.item.id ++ codes "] " ++ trim_space s.res.summary) ∷ [];
  texts =
      if s.failed_with || is_empty (trim_space s.res.text)
      then j.texts
      else j.texts ++ trim_space s.res.text ∷ [];
}

-- One pass of the loop.
unfoldable pub join_one : Join → ParallelOutcome → Join
unfolding land count_outcome
join_one j s =
    let (p, applied) = land j.plan s.res.plan false in
    let j' = record j {
      plan = p;
      input_tokens = j.input_tokens + s.res.input_tokens;
      output_tokens = j.output_tokens + s.res.output_tokens;
      session_id = or_default j.session_id s.res.session_id;
      evidence = j.evidence ++ s.res.evidence;
    } in
    with_text s (count_outcome s applied j' s.res.outcome)

unfoldable pub join_all : Join → List ParallelOutcome → Join
unfolding join_one
join_all j [] = j
join_all j (s ∷ ss) = join_all (join_one j s) ss

abbrev pub empty_join : Plan → Join
empty_join p = record {
  plan = p;
  input_tokens = 0;
  output_tokens = 0;
  session_id = [];
  evidence = [];
  lines = [];
  texts = [];
  any_failed = false;
  escalated = false;
  any_done = false;
  reason = [];
  question = [];
}

abbrev pub outcome_of : Join → StepOutcome
outcome_of j =
    if j.any_failed
    then outcome_failed
    else if j.escalated
    then escalate
    else if j.any_done && all_done j.plan
    then outcome_done
    else proceed

unfoldable pub join_with : Str → List Str → Str
join_with sep [] = []
join_with sep (s ∷ []) = s
join_with sep (s ∷ t ∷ ts) = s ++ sep ++ join_with sep (t ∷ ts)

-- `joinParallel`.
unfoldable pub join_parallel : State → List ParallelOutcome → StepResult
unfolding join_all join_with
join_parallel st subs =
    let j = join_all (empty_join st.plan) subs in
    let summary = truncate_runes (join_with (10 ∷ []) j.lines) 2000 in
    record {
      outcome = outcome_of j;
      summary =
          if not j.any_failed && j.escalated
          then truncate_runes (trim_space (j.question ++ 10 ∷ summary)) 2000
          else summary;
      reason = if j.any_failed then j.reason else [];
      text = join_with (10 ∷ 10 ∷ []) j.texts;
      session_id = j.session_id;
      input_tokens = j.input_tokens;
      output_tokens = j.output_tokens;
      plan = j.plan;
      evidence = j.evidence;
    }
