-- ===== src/Goal/Parallel/Merge.antt =====
-- What the parallel sub-steps are worth together.
use mow.Prelude.{
  ◌≤◌, ◌<◌, ◌≡◌, refl, ◌∙◌, ◌↔◌, Bool, true, false, ◌||◌, List, [], ◌∷◌, map, arith, any, length,
  length-take, Str, trim_space,
}
use mow.Goal.Plan.{PlanItemStatus, PlanItem, Plan, all_done}
use mow.Goal.State.{State}
use mow.Goal.Run.{StepOutcome, outcome_done, outcome_failed, escalate, StepResult}
use mow.Goal.Parallel.{
  max_parallel_width, pending_items, parallel_width, pending_batch, ParallelOutcome, set_parent,
  set_parent_item, Join, land, count_outcome, join_one, join_all, empty_join, join_parallel,
}

-- A step that runs items at once runs at least two and at most eight, no more than the goal asks
-- for, and as many pending items are there to run.
pub parallel_width-bounds :
    (factory : Bool) (st : State)
    → 0 < parallel_width factory st
    → (2 ≤ parallel_width factory st)
      × (parallel_width factory st ≤ max_parallel_width)
      × (parallel_width factory st ≤ st.parallel_max)
      × (length (pending_batch st.plan (parallel_width factory st)) ≡ parallel_width factory st)
unfolding parallel_width
parallel_width-bounds false st h = absurd (omega arith)
parallel_width-bounds true st h =
    ground (arith, length-take (parallel_width true st) (pending_items st.plan))

abbrev pub ids : Plan → List Str
ids p = map (λ it. PlanItem.id it) p

set_parent-ids :
    (id : Str) (st : PlanItemStatus) (note : Str) (p : Plan) → ids (set_parent id st note p) ≡ ids p
unfolding set_parent
set_parent-ids id st note [] = refl
set_parent-ids id st note (it ∷ p) = ground (arith, set_parent-ids id st note p)

set_parent_item-ids :
    (p : Plan) (raw : Str) (st : PlanItemStatus) (note : Str)
    → ids (set_parent_item p raw st note).0 ≡ ids p
unfolding set_parent_item
set_parent_item-ids p raw st note = ground (arith, set_parent-ids (trim_space raw) st note p)

land-ids : (p its : Plan) (applied : Bool) → ids (land p its applied).0 ≡ ids p
unfolding land
land-ids p [] applied = refl
land-ids p (it ∷ its) applied =
    let (p', found) = set_parent_item p it.id it.status it.note in
    ground (
      arith,
      land-ids p its applied,
      land-ids p' its (applied || found),
      set_parent_item-ids p it.id it.status it.note,
    )

abbrev pub is_failed : StepOutcome → Bool
is_failed outcome_failed = true
is_failed _ = false

abbrev pub is_escalated : StepOutcome → Bool
is_escalated escalate = true
is_escalated _ = false

abbrev pub is_finished : StepOutcome → Bool
is_finished outcome_done = true
is_finished _ = false

-- Some sub-step's outcome passes the test.
abbrev pub some_outcome : (StepOutcome → Bool) → List ParallelOutcome → Bool
some_outcome test subs = any (λ s. test (StepResult.outcome (ParallelOutcome.res s))) subs

-- What the loop adds to its flags, and keeps of the checklist's ids.
record Counts (j j' : Join) (failed escalated finished : Bool) : Type 0 where
  same_ids : ids j'.plan ≡ ids j.plan
  failures : j'.any_failed ≡ (j.any_failed || failed)
  escalations : j'.escalated ≡ (j.escalated || escalated)
  finishes : j'.any_done ≡ (j.any_done || finished)

count_outcome-Counts :
    (s : ParallelOutcome) (applied : Bool) (j : Join) (o : StepOutcome)
    → Counts j (count_outcome s applied j o) (is_failed o) (is_escalated o) (is_finished o)
unfolding count_outcome
count_outcome-Counts s applied j o = record {
  same_ids = ground (
    arith,
    set_parent_item-ids j.plan s.item.id PlanItemStatus.failed s.res.reason,
    set_parent_item-ids j.plan s.item.id PlanItemStatus.done [],
  );
  failures = ground arith;
  escalations = ground arith;
  finishes = ground arith;
}

join_one-Counts :
    (j : Join) (s : ParallelOutcome)
    → Counts j
        (join_one j s)
        (is_failed s.res.outcome)
        (is_escalated s.res.outcome)
        (is_finished s.res.outcome)
unfolding join_one
join_one-Counts j s =
    let c = count_outcome-Counts s (land j.plan s.res.plan false).1 _ s.res.outcome in
    record {
      same_ids = c.same_ids ∙ land-ids j.plan s.res.plan false;
      failures = c.failures;
      escalations = c.escalations;
      finishes = c.finishes;
    }

join_all-Counts :
    (j : Join) (subs : List ParallelOutcome)
    → Counts j
        (join_all j subs)
        (some_outcome is_failed subs)
        (some_outcome is_escalated subs)
        (some_outcome is_finished subs)
unfolding join_all
join_all-Counts j [] = record {
  same_ids = refl;
  failures = ground arith;
  escalations = ground arith;
  finishes = ground arith;
}
join_all-Counts j (s ∷ subs) =
    let c = join_one-Counts j s in
    let rest = join_all-Counts (join_one j s) subs in
    record {
      same_ids = rest.same_ids ∙ c.same_ids;
      failures = ground (arith, rest.failures, c.failures);
      escalations = ground (arith, rest.escalations, c.escalations);
      finishes = ground (arith, rest.finishes, c.finishes);
    }

-- What a join promises: a failure wins, then an escalation; it is done only when some sub-step was
-- and the whole checklist is; and it neither adds, drops nor reorders an item of the checklist.
pub record IsJoin (st : State) (subs : List ParallelOutcome) (out : StepResult) : Type 0 where
  pub fails : (out.outcome ≡ outcome_failed) ↔ (some_outcome is_failed subs ≡ true)
  pub escalates :
      (out.outcome ≡ escalate)
      ↔ ((some_outcome is_failed subs ≡ false) × (some_outcome is_escalated subs ≡ true))
  pub finishes :
      out.outcome ≡ outcome_done
      → (some_outcome is_finished subs ≡ true) × (all_done out.plan ≡ true)
  pub same_ids : ids out.plan ≡ ids st.plan

-- `joinParallel` does what a join promises, whatever the sub-steps returned.
pub join_parallel-IsJoin :
    (st : State) (subs : List ParallelOutcome) → IsJoin st subs (join_parallel st subs)
unfolding join_parallel
join_parallel-IsJoin st subs =
    let c = join_all-Counts (empty_join st.plan) subs in
    record {
      fails = ground (arith, c.failures);
      escalates = ground (arith, c.failures, c.escalations);
      finishes = λ h. ground (arith, c.failures, c.escalations, c.finishes);
      same_ids = c.same_ids;
    }
