-- ===== src/Workflow/Resume.antt =====
-- A new run, and a run that takes up what an earlier one left.
use mow.Prelude.{
  ℕ, ◌+◌, ◌≡◌, ◌≢◌, refl, Bool, true, false, List, [], ◌∷◌, ◌++◌, none, some, arith, All, Str,
  Bool-cases, inl, inr,
}
use mow.Workflow.{running, phase_running, Phase, Definition, or_max, default_max_json_bytes}
use mow.Workflow.Run.{PhaseState, State, World, Finish, finish, put, begun, run_phases, is_blocked}
use mow.Workflow.Stored.{same_layout, start, is_same_run, run_stored}
use mow.Workflow.Ends.{IsSucceeded, IsEnd, run_phases-IsEnd}

-- A run from its first phase on, whose state has the phases of the definition (as those of a new
-- run and of a resumed one do), ends: without an error it has succeeded and so has every phase, and
-- it is blocked or failed where its error says so. What it returns is what it saved last, unless
-- its error is a failed save. It calls the phases in order, none of them twice.
pub start-IsEnd :
    (w : World) (d : Definition) (saved st : State)
    → same_layout d.phases st.phases ≡ true
    → IsEnd [] 0 (start w d saved st)
start-IsEnd w d saved st l =
    run_phases-IsEnd w (or_max d.max_bytes default_max_json_bytes) st [] d.phases st.phases saved
      st.input 0 tt l

-- Nothing was called, and the run did not end well.
abbrev pub IsHeld : Finish → Type 0
IsHeld f = (f.performed ≡ []) × (f.error ≢ none)

finish-IsHeld : (b : Bool) (saved st : State) → IsHeld (finish b saved st (some is_blocked) [])
finish-IsHeld true saved st = (refl, λ e. cc)
finish-IsHeld false saved st = (refl, λ e. cc)

module _ (w : World) (max : ℕ) (st : State) where
  run_phases-IsHeld :
      (b before : List PhaseState) (ps : List Phase) (s : PhaseState) (after : List PhaseState)
      (saved : State) (raw : Str) (i : ℕ)
      → All IsSucceeded before
      → s.status ≡ phase_running
      → same_layout ps (before ++ s ∷ after) ≡ true
      → IsHeld (run_phases w max st b ps (before ++ s ∷ after) saved raw i)
  unfolding run_phases same_layout
  run_phases-IsHeld b [] [] s after saved raw i h r l = cc
  run_phases-IsHeld b [] (p ∷ ps) s after saved raw i h r l =
      rw (r, run_phases) (finish-IsHeld w.saves_last saved _)
  run_phases-IsHeld b (x ∷ before) [] s after saved raw i h r l = cc
  run_phases-IsHeld b (x ∷ before) (p ∷ ps) s after saved raw i h r l =
      rw (h.0, run_phases)
        (run_phases-IsHeld (b ++ x ∷ []) before ps s after saved x.output (i + 1) h.1 r
          (ground arith))

-- A run that is cut off while a phase's body runs, so that the store holds the state that marks the
-- phase as running behind phases that succeeded, is held: resuming it calls no phase and returns an
-- error, whatever the store, the engine and the verifiers do then.
pub resume-IsHeld :
    (w w' : World) (d : Definition) (input : Str) (max : ℕ) (st : State) (before : List PhaseState)
    (ps : PhaseState) (after : List PhaseState)
    → All IsSucceeded before
    → IsHeld
        (run_stored w' d input true (put w max st before (begun w max st ps) after running ps.id))
unfolding run_stored
resume-IsHeld w w' d input max st before ps after h =
    let marked : State = put w max st before (begun w max st ps) after running ps.id in
    elim (Bool-cases (is_same_run w' d input marked)) [
      | inr e ↦ rw e (refl, λ q. cc)
      | inl e ↦
          let same : same_layout d.phases marked.phases ≡ true = ground arith in
          rw e (
            run_phases-IsHeld w' (or_max d.max_bytes default_max_json_bytes) marked [] before
              d.phases (begun w max st ps) after marked st.input 0 h refl same)
    ]
