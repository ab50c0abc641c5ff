-- ===== src/Goal/State.antt =====
-- ext/goal/goal.go: the durable state of a goal, and what ext/goal/bounds.go, records.go and
-- runner.go derive from it. Workers and times
-- are left out, but for the wall-clock budget, in milliseconds.
use mow.Prelude.{
  decimal, ℕ, ◌+◌, Bool, true, false, not, ◌&&◌, ◌||◌, List, [], ◌∷◌, ◌++◌, none, some, ltb, leb,
  ◌==◌, if◌then◌else◌, length, take, Str, codes, str_eq, trim_space, is_empty, contains,
}
use mow.Goal.Plan.{PlanItemStatus, Plan, next_pending}
use mow.Goal.Report.{Fact}

pub data Status : Type 0 where
  pending running done failed partial blocked : Status

pub record State : Type 0 where
  pub id : Str
  pub goal : Str
  pub workspace : Str
  pub status : Status
  pub step : ℕ
  pub max_steps : ℕ
  pub parallel_max : ℕ
  pub session_id : Str
  pub last_reply : Str
  pub summary : Str
  pub facts : List Fact
  pub retry_count : ℕ
  pub question : Str
  pub verify_note : Str
  pub phase : Str
  pub verification : Str × Str  -- status, note
  pub partial_summary : Str  -- Partial
  pub error : Str
  pub plan : Plan
  pub current_item : Str
  pub input_tokens : ℕ
  pub output_tokens : ℕ
  pub max_input_tokens : ℕ
  pub max_duration_ms : ℕ
  pub run_owner_pid : ℕ
  pub run_owner_host : Str

-- `truncateRunes`.
unfoldable pub truncate_runes : Str → ℕ → Str
truncate_runes raw n =
    let s = trim_space raw in if n == 0 || leb (length s) n then s else take n s ++ 0x2026 ∷ []

-- `applyMaxStepsRaise`.
unfoldable pub apply_max_steps_raise : State → ℕ → State
apply_max_steps_raise st raise =
    let st' = record st { max_steps = raise } in
    elim st.status [
      | failed ↦
          if leb raise st.max_steps
          then st
          else if contains (codes "max steps") st.error
          then record st' { error = []; status = pending }
          else st'
      | _ ↦ if leb raise st.max_steps then st else st'
    ]

-- `ownerAlive`: `host` is this machine, and `alive` what `processAlive` says of a pid.
abbrev pub owner_alive : Str → (ℕ → Bool) → State → Bool
owner_alive host alive st =
    if st.run_owner_pid == 0
    then false
    else if not (is_empty st.run_owner_host)
        && not (is_empty host)
        && not (str_eq st.run_owner_host host)
    then true
    else alive st.run_owner_pid

abbrev interrupted : Str
interrupted = codes "run interrupted (previous process exited)"

-- `healStaleRunning`, with whether it healed.
unfoldable pub heal_stale_running : Str → (ℕ → Bool) → State → State × Bool
heal_stale_running host alive st = elim st.status [
  | running ↦ if st.run_owner_pid == 0 || owner_alive host alive st then (st, false) else (
    record st {
      status = pending;
      error = if is_empty (trim_space st.error) then interrupted else st.error;
      run_owner_pid = 0;
      run_owner_host = [];
    },
    true,
  )
  | _ ↦ (st, false)
]

abbrev is_done : PlanItemStatus → Bool
is_done PlanItemStatus.done = true
is_done _ = false

unfoldable pub done_items : Plan → ℕ
done_items [] = 0
done_items (it ∷ p) = let n = done_items p in if is_done it.status then n + 1 else n

unfoldable pub missing_items : Plan → ℕ
missing_items [] = 0
missing_items (it ∷ p) = let n = missing_items p in if is_done it.status then n else n + 1

abbrev best_artifact : State → Str
best_artifact st =
    if is_empty (trim_space st.last_reply) then trim_space st.summary else trim_space st.last_reply

-- `PartialSummaryFor`.
unfoldable pub partial_summary_for : State → Str
unfolding done_items missing_items
partial_summary_for st =
    let d = done_items st.plan in
    let m = missing_items st.plan in
    let best = best_artifact st in
    let line =
      codes "done "
      ++ decimal d
      ++ codes "/"
      ++ decimal (d + m)
      ++ codes " items, "
      ++ decimal m
      ++ codes " missing" in
    if d == 0 && m == 0
    then codes "stopped at step "
      ++ decimal st.step
      ++ codes "/"
      ++ decimal st.max_steps
      ++ codes " after budget"
    else if is_empty best
    then line
    else line ++ codes " — best: " ++ truncate_runes best 80

-- `boundedText`.
abbrev pub bounded_text : Str → ℕ → Str
bounded_text s n = if ltb n (length s) then take n s ++ 0x2026 ∷ [] else s

-- `SetPhase` on the item that is next, and `CurrentItem`.
unfoldable pub focus : State → State
focus st = elim (next_pending st.plan) [
  | some it ↦ record st { current_item = it.id; phase = bounded_text it.title 80 }
  | none ↦ record st { current_item = []; phase = codes "planning" }
]
