-- ===== src/Goal/Spec.antt =====
-- ext/goal/goal.go: NormalizeSpec; ext/goal/runner.go: RunSpec, RunRaise and ResumeAnswer up to the
-- state that they hand to `runState`. A number that the code takes as absent at zero or below is a
-- natural number here; `now` is the text of the Unix time, a parameter.
pub mod Resume
use mow.Prelude.{
  ℕ, ◌+◌, Bool, true, not, ◌&&◌, ◌||◌, [], ◌∷◌, ◌++◌, Option, none, some, ltb, leb, ◌==◌,
  if◌then◌else◌, all, min, max, Str, codes, str_eq, trim_space, to_lower, is_empty, Result, ok, err,
  ◌>>=◌,
}
use mow.Goal.State.{Status, pending, done, partial, blocked, State, apply_max_steps_raise}
use mow.Goal.Parallel.{max_parallel_width}

pub record Spec : Type 0 where
  pub id : Str
  pub goal : Str
  pub max_steps : ℕ
  pub parallel_max : ℕ
  pub max_input_tokens : ℕ
  pub max_duration_ms : ℕ

pub data SpecError : Type 0 where
  empty_goal invalid_id empty_id no_answer not_found : SpecError
  goal_is_blocked not_blocked : State → SpecError

abbrev pub default_max_steps : ℕ
default_max_steps = 16

abbrev pub max_max_steps : ℕ
max_max_steps = 64

abbrev is_id_char : ℕ → Bool
is_id_char r =
    leb 97 r && leb r 122
    || leb 65 r && leb r 90
    || leb 48 r && leb r 57
    || r == 45
    || r == 95
    || r == 46

-- `validateID`: true where it returns nil.
unfoldable pub validate_id : Str → Bool
validate_id id =
    not (is_empty id)
    && not (str_eq id (codes "."))
    && not (str_eq id (codes ".."))
    && all is_id_char id

abbrev ends_in_dash : Str → Bool
ends_in_dash [] = true
ends_in_dash (c ∷ s) = c == 45

-- The loop of `slugID`; the slug is built last-first, of one byte each.
unfoldable pub slug_loop : Str → ℕ → Str → Str
slug_loop [] bytes b = b
slug_loop (r ∷ rs) bytes b =
    let wrote = leb 97 r && leb r 122 || leb 48 r && leb r 57 in
    let dash = not wrote && (r == 32 || r == 45 || r == 95) && not (ends_in_dash b) in
    let b' = if wrote then r ∷ b else if dash then 45 ∷ b else b in
    let bytes' = if wrote || dash then bytes + 1 else bytes in
    let rest = slug_loop rs bytes' b' in if leb 32 bytes' then b' else rest

abbrev drop_dash : Str → Str
drop_dash [] = []
drop_dash (c ∷ s) = if c == 45 then s else c ∷ s

abbrev reversed : Str → Str → Str
reversed [] s = s
reversed (c ∷ b) s = reversed b (c ∷ s)

module _ (now : Str) where
  -- `slugID`.
  unfoldable pub slug_id : Str → Str
  unfolding slug_loop
  slug_id goal =
      let s = reversed (drop_dash (slug_loop (to_lower goal) 0 [])) [] in
      if is_empty s then codes "goal-" ++ now else s

  abbrev spec_id : Spec → Str
  spec_id s = if is_empty (trim_space s.id) then slug_id (trim_space s.goal) else trim_space s.id

  -- `NormalizeSpec`.
  unfoldable pub normalize_spec : Spec → Result SpecError Spec
  unfolding slug_id validate_id
  normalize_spec s =
      if is_empty (trim_space s.goal)
      then err empty_goal
      else if not (validate_id (spec_id s))
      then err invalid_id
      else ok (record s {
        id = spec_id s;
        goal = trim_space s.goal;
        max_steps = min (if s.max_steps == 0 then default_max_steps else s.max_steps) max_max_steps;
        parallel_max = min s.parallel_max max_parallel_width;
      })

  -- The state of a new goal.
  abbrev pub fresh_state : Spec → Str → State
  fresh_state s workspace = record {
    id = s.id;
    goal = s.goal;
    workspace = workspace;
    status = pending;
    step = 0;
    max_steps = s.max_steps;
    parallel_max = s.parallel_max;
    session_id = [];
    last_reply = [];
    summary = [];
    facts = [];
    retry_count = 0;
    question = [];
    verify_note = [];
    phase = [];
    verification = ([], []);
    partial_summary = [];
    error = [];
    plan = [];
    current_item = [];
    input_tokens = 0;
    output_tokens = 0;
    max_input_tokens = s.max_input_tokens;
    max_duration_ms = s.max_duration_ms;
    run_owner_pid = 0;
    run_owner_host = [];
  }

  abbrev or_given : Str → Str → Str
  or_given old given = if is_empty (trim_space old) then given else old

  -- A partial stop is taken up where it stopped.
  abbrev pub reopened : State → State
  reopened st = elim st.status [
    | partial ↦ record st { status = pending; partial_summary = []; error = [] }
    | _ ↦ st
  ]

  -- The stored goal with what the spec asks for; `raise` says whether a budget was requested.
  unfoldable pub taken_up : State → Spec → Str → Bool → State
  taken_up prev s workspace raise =
      let st = reopened (record prev {
        goal = or_given prev.goal s.goal;
        workspace = or_given prev.workspace workspace;
      }) in
      let st' = if raise then apply_max_steps_raise st s.max_steps else st in
      record st' {
        parallel_max = if ltb 0 s.parallel_max then s.parallel_max else st'.parallel_max;
        max_input_tokens = max st'.max_input_tokens s.max_input_tokens;
        max_duration_ms = max st'.max_duration_ms s.max_duration_ms;
      }

  abbrev take_up : State → Spec → Str → Bool → Status → Result SpecError State
  take_up prev s workspace raise blocked = err (goal_is_blocked prev)
  take_up prev s workspace raise done = ok (fresh_state s workspace)
  take_up prev s workspace raise _ = ok (taken_up prev s workspace raise)

  abbrev pub resume_spec : Option State → Spec → Str → Bool → Result SpecError State
  resume_spec none s workspace raise = ok (fresh_state s workspace)
  resume_spec (some prev) s workspace raise = take_up prev s workspace raise prev.status

  -- `RunSpec` up to `runState`; `stored` is what the store holds under an id.
  unfoldable pub run_spec : (Str → Option State) → Str → Spec → Result SpecError State
  unfolding normalize_spec taken_up
  run_spec stored workspace spec = do
    s ← normalize_spec spec
    resume_spec (stored s.id) s workspace (ltb 0 spec.max_steps)

-- `ResumeAnswer` up to `runState`.
unfoldable pub resume_answer : (Str → Option State) → Str → Str → Result SpecError State
resume_answer stored raw_id raw_answer =
    let id = trim_space raw_id in
    let answer = trim_space raw_answer in
    let note = codes "[h: " ++ answer ++ codes "]" in
    if is_empty id || is_empty answer then err no_answer else elim (stored id) [
      | none ↦ err not_found
      | some st ↦ elim st.status [
        | blocked ↦ ok (record st {
          facts =
              st.facts
              ++ record {
                claim = codes "human decision: " ++ answer;
                source = [];
                confidence = 0;
                produced_by_step = st.step;
              }
                ∷ [];
          summary = if is_empty st.summary then note else st.summary ++ 10 ∷ note;
          question = [];
        })
        | _ ↦ err (not_blocked st)
      ]
    ]
