-- ===== src/Tests/Workflow.antt =====
-- A definition of two phases, the second of which was cut off.
use mow.Prelude.{str_eq, refl, true, false, [], ◌∷◌, none, Str, codes, ok}
use mow.Workflow.{
  pending, running, PhaseStatus, phase_pending, phase_succeeded, Phase, verify_phase, unset,
  Definition,
}
use mow.Workflow.Run.{PhaseState, State, World, begun, put}
use mow.Workflow.Stored.{same_layout, start, run_stored}
use mow.Workflow.Ends.{IsEnd}
use mow.Workflow.Resume.{IsHeld, start-IsEnd, resume-IsHeld}

abbrev phase : Str → Phase
phase id = record { id = id; kind = verify_phase; max_bytes = 0; effect = unset }

abbrev two_phases : Definition
two_phases = record {
  name = codes "d";
  version = codes "1";
  phases = phase (codes "p") ∷ phase (codes "q") ∷ [];
  max_bytes = 0;
}

abbrev phase_state : Str → PhaseStatus → PhaseState
phase_state id st = record {
  id = id;
  is_prompt = false;
  status = st;
  attempts = 0;
  output = codes "{}";
  error_code = [];
}

abbrev stored : State
stored = record {
  id = codes "r";
  definition = codes "d";
  version = codes "1";
  status = pending;
  current_phase = [];
  input = codes "{}";
  phases = phase_state (codes "p") phase_pending ∷ phase_state (codes "q") phase_pending ∷ [];
}

abbrev world : World
world = record {
  locks = true;
  load = ok none;
  is_json = λ _. true;
  same_json = λ _ _. true;
  perform = λ i raw. ok raw;
  saves_created = true;
  saves_running = λ i. true;
  saves_succeeded = λ i. true;
  saves_last = true;
}

start-IsEnd_example : IsEnd [] 0 (start world two_phases stored stored)
unfolding same_layout str_eq
start-IsEnd_example = start-IsEnd world two_phases stored stored refl

resume-IsHeld_example : IsHeld (
    run_stored world two_phases (codes "{}") true (
      put world 65536 stored
        (phase_state (codes "p") phase_succeeded ∷ [])
        (begun world 65536 stored (phase_state (codes "q") phase_pending))
        []
        running
        (codes "q")))
resume-IsHeld_example =
    resume-IsHeld world world two_phases (codes "{}") 65536 stored
      (phase_state (codes "p") phase_succeeded ∷ []) (phase_state (codes "q") phase_pending) []
      (refl, tt)
