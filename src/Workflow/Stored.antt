-- ===== src/Workflow/Stored.antt =====
-- ext/workflow/workflow.go: `run` around its loop, for a new run and for a stored one.
use mow.Prelude.{
  Bool, true, false, not, ◌&&◌, ◌||◌, List, [], ◌∷◌, Option, none, some, if◌then◌else◌, map, Str,
  str_eq, Result, ok, err,
}
use mow.Workflow.{
  pending, succeeded, failed, blocked, phase_pending, Phase, Definition, validate_id,
  validate_definition, or_max, default_max_json_bytes,
}
use mow.Workflow.Run.{
  PhaseState, State, RunError, invalid, locked, not_found, already_exists, is_blocked, not_saved,
  World, Finish, bounded_json, is_prompt_kind, run_phases,
}

-- The state of a new run.
abbrev pub created : Str → Definition → Str → State
created id d input = record {
  id = id;
  definition = d.name;
  version = d.version;
  status = pending;
  current_phase = [];
  input = input;
  phases =
      map
        (λ p. record {
          id = Phase.id p;
          is_prompt = is_prompt_kind p.kind;
          status = phase_pending;
          attempts = 0;
          output = [];
          error_code = [];
        })
        d.phases;
}

abbrev bool_eq : Bool → Bool → Bool
bool_eq a b = if a then b else not b

unfoldable pub same_layout : List Phase → List PhaseState → Bool
same_layout [] [] = true
same_layout (p ∷ ps) (s ∷ ss) =
    str_eq s.id p.id && bool_eq s.is_prompt (is_prompt_kind p.kind) && same_layout ps ss
same_layout _ _ = false

abbrev pub returned : State → Option RunError → Finish
returned st e = record { state = st; saved = st; error = e; performed = [] }

abbrev pub start : World → Definition → State → State → Finish
start w d saved st =
    run_phases w (or_max d.max_bytes default_max_json_bytes) st [] d.phases st.phases saved st.input
      0

abbrev pub is_same_run : World → Definition → Str → State → Bool
is_same_run w d input st =
    str_eq st.definition d.name
    && str_eq st.version d.version
    && w.same_json st.input input
    && same_layout d.phases st.phases

-- What `run` does with a run that is stored already.
unfoldable pub run_stored : World → Definition → Str → Bool → State → Finish
unfolding run_phases same_layout
run_stored w d input false st = returned st (some already_exists)
run_stored w d input true st =
    if not (is_same_run w d input st) then returned st (some invalid) else elim st.status [
      | blocked ↦ returned st (some is_blocked)
      | succeeded ↦ returned st none
      | failed ↦ returned st none
      | _ ↦ start w d st st
    ]

-- `run`, where it gets as far as a state: its validation, its lock and its store come before.
unfoldable pub run : World → Str → Definition → Str → Bool → Result RunError Finish
unfolding run_stored
run w id d input resume =
    if not (validate_id id) || not (validate_definition d)
    then err invalid
    else if not (bounded_json w input (or_max d.max_bytes default_max_json_bytes))
    then err invalid
    else if not w.locks
    then err locked
    else elim w.load [
      | err e ↦ err e
      | ok (some st) ↦ ok (run_stored w d input resume st)
      | ok none ↦
          if resume
          then err not_found
          else if not w.saves_created
          then err not_saved
          else ok (start w d (created id d input) (created id d input))
    ]
