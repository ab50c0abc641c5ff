-- ===== src/Workflow/Run.antt =====
-- ext/workflow/workflow.go: a run of a definition. What the engine, the verifiers and the store
-- do is in `World`; times and events are left out.
use mow.Prelude.{
  ℕ, ◌+◌, Bool, true, false, not, ◌&&◌, List, [], ◌∷◌, ◌++◌, Option, none, some, leb, if◌then◌else◌,
  length, Str, codes, is_empty, Result, ok, err,
}
use mow.Workflow.{
  Status, pending, running, succeeded, failed, blocked, PhaseStatus, phase_running, phase_succeeded,
  phase_failed, phase_blocked, Phase, PhaseKind, prompt_phase, or_max, default_max_json_bytes,
}

pub record PhaseState : Type 0 where
  pub id : Str
  pub is_prompt : Bool  -- its Kind
  pub status : PhaseStatus
  pub attempts : ℕ
  pub output : Str
  pub error_code : Str

pub record State : Type 0 where
  pub id : Str
  pub definition : Str
  pub version : Str
  pub status : Status
  pub current_phase : Str
  pub input : Str
  pub phases : List PhaseState

pub data RunError : Type 0 where
  invalid locked not_readable not_found already_exists is_blocked not_saved phase_error : RunError

-- What a run meets; a phase is known by its index.
pub record World : Type 0 where
  pub locks : Bool
  pub load : Result RunError (Option State)  -- none: no such run
  pub is_json : Str → Bool  -- one JSON value and no more
  pub same_json : Str → Str → Bool  -- bytesEqualJSON
  pub perform : ℕ → Str → Result Str Str  -- the prompt or the verifier: an error code, or the output
  pub saves_created : Bool
  pub saves_running : ℕ → Bool
  pub saves_succeeded : ℕ → Bool
  pub saves_last : Bool  -- the save before the return

-- How a run returns, with the indices of the phases whose body it called.
pub record Finish : Type 0 where
  pub state : State
  pub saved : State
  pub error : Option RunError
  pub performed : List ℕ

-- `boundedJSON`: true where it returns no error.
abbrev pub bounded_json : World → Str → ℕ → Bool
bounded_json w raw max =
    not (is_empty raw) && leb (length raw) (or_max max default_max_json_bytes) && w.is_json raw

abbrev pub is_prompt_kind : PhaseKind → Bool
is_prompt_kind (prompt_phase s) = true
is_prompt_kind _ = false

-- `store.save(st)` and a return.
abbrev pub finish : Bool → State → State → Option RunError → List ℕ → Finish
finish true saved st e called = record { state = st; saved = st; error = e; performed = called }
finish false saved st e called = record {
  state = st;
  saved = saved;
  error = some not_saved;
  performed = called;
}

-- A phase is done, with its output, or the run returns.
pub data Round : Type 0 where
  stop : Finish → Round
  passed : PhaseState → Round

-- What the loop does with a phase of that status.
pub data Progress : Type 0 where
  finished cut_short to_do : Progress

abbrev pub progress : PhaseStatus → Progress
progress phase_succeeded = finished
progress phase_running = cut_short
progress _ = to_do

module _ (w : World) (max : ℕ) (st : State) where
  -- The run's state with this phase between those before and those after it.
  abbrev pub put : List PhaseState → PhaseState → List PhaseState → Status → Str → State
  put before ps after status current = record st {
    status = status;
    current_phase = current;
    phases = before ++ ps ∷ after;
  }

  -- `fail`.
  abbrev pub fail : List PhaseState → PhaseState → List PhaseState → State → Str → ℕ → Finish
  fail before ps after saved code i =
      finish w.saves_last saved
        (put before (record ps { status = phase_failed; error_code = code }) after failed ps.id)
        (some phase_error) (i ∷ [])

  abbrev pub judge :
      List PhaseState → PhaseState → List PhaseState → State → ℕ → ℕ → Result Str Str → Round
  judge before ps after saved limit i (err code) = stop (fail before ps after saved code i)
  judge before ps after saved limit i (ok raw) =
      if bounded_json w raw limit
      then passed (record ps { output = raw; status = phase_succeeded })
      else stop (fail before ps after saved (codes "invalid_phase_output") i)

  abbrev pub begun : PhaseState → PhaseState
  begun ps = record ps { status = phase_running; attempts = ps.attempts + 1; error_code = [] }

  -- The save of a phase that is done.
  abbrev pub commit : List PhaseState → List PhaseState → State → ℕ → Round → Round
  commit before after marked i (stop f) = stop f
  commit before after marked i (passed done) =
      if w.saves_succeeded i
      then passed done
      else stop (record {
        state = put before done after pending [];
        saved = marked;
        error = some not_saved;
        performed = i ∷ [];
      })

  -- The body of the loop for a phase that is neither done nor left running: the save that marks it
  -- running, its call, and the save of its output.
  unfoldable pub attempt :
      List PhaseState → Phase → PhaseState → List PhaseState → State → Str → ℕ → Round
  attempt before p ps after saved raw i =
      let marked = put before (begun ps) after running ps.id in
      if not (w.saves_running i)
      then stop (record { state = marked; saved = saved; error = some not_saved; performed = [] })
      else commit before after marked i
          (judge before (begun ps) after marked (or_max p.max_bytes max) i (w.perform i raw))

  abbrev pub interrupted : List PhaseState → PhaseState → List PhaseState → State → Finish
  interrupted before ps after saved =
      finish w.saves_last saved
        (put before
          (record ps { status = phase_blocked; error_code = codes "interrupted_uncertain_phase" })
          after blocked ps.id)
        (some is_blocked) []

  abbrev pub performing : ℕ → Finish → Finish
  performing i f = record f { performed = i ∷ f.performed }

  abbrev pub complete : List PhaseState → List PhaseState → State → Finish
  complete before after saved =
      finish w.saves_last saved
        (record st { status = succeeded; current_phase = []; phases = before ++ after }) none []

  -- The loop over the phases from the i-th on, with the states of those before it, the state that
  -- was saved last and the input of the next phase. A state with fewer phases than the definition,
  -- which the loop indexes out of range, gets here only past `same_layout`.
  unfoldable pub run_phases :
      List PhaseState → List Phase → List PhaseState → State → Str → ℕ → Finish
  unfolding attempt
  run_phases before (p ∷ ps) (s ∷ ss) saved raw i = elim (progress s.status) [
    | finished ↦ run_phases (before ++ s ∷ []) ps ss saved s.output (i + 1)
    | cut_short ↦ interrupted before s ss saved
    | to_do ↦ elim (attempt before p s ss saved raw i) [
      | stop f ↦ f
      | passed s' ↦
          performing i
            (run_phases (before ++ s' ∷ []) ps ss (put before s' ss pending []) s'.output (i + 1))
    ]
  ]
  run_phases before _ ss saved raw i = complete before ss saved
