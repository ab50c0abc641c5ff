-- ===== src/Agent/Loop/Run.antt =====
-- internal/agent/loop.go: `Run`, from the history that it starts with to its result.
use mow.Prelude.{
  ℕ, zero, suc, Bool, false, not, ◌&&◌, List, [], ◌∷◌, ◌++◌, Option, none, some, leb, ◌==◌,
  if◌then◌else◌, Str, codes, str_eq, trim_space, is_empty, decimal,
}
use mow.Agent.Messages.{Message, no_usage, plain, user_role, system_role, Err, max_turns, failure}
use mow.Agent.Loop.{Options, Pass, Loop, Finish, stop, again, failed}
use mow.Agent.Loop.Passes.{pass}

-- The system prompt goes in front of the messages that there are, or in place of the old one.
unfoldable pub refresh_system : Str → List Message → List Message
unfolding str_eq
refresh_system sys [] = plain system_role false sys ∷ []
refresh_system sys (m ∷ ms) =
    if is_empty sys
    then m ∷ ms
    else if str_eq m.role system_role
    then record m { content = sys } ∷ ms
    else plain system_role false sys ∷ m ∷ ms

-- The history that `Run` starts with.
unfoldable pub first_messages : Str → List Message → Str → List Message
unfolding refresh_system trim_space
first_messages system prior prompt =
    let sys = trim_space system in
    let before : List Message = elim prior [
      | [] ↦ if is_empty sys then [] else plain system_role false sys ∷ []
      | m ∷ ms ↦ refresh_system sys (m ∷ ms)
    ] in
    before ++ plain user_role false prompt ∷ []

-- The variables of `Run` before the loop.
abbrev pub start : List Message → Loop
start messages = record {
  turn = 0;
  messages = messages;
  usage = no_usage;
  last_input_tokens = 0;
  last_tool_fp = [];
  same_tool_fp = 0;
  seen = [];
  barren_runs = 0;
  truncated_batches = 0;
  finish_continuations = 0;
  overflow_retries = 0;
}

module _ (o : Options) (ps : ℕ → Pass) where
  abbrev pub err_max_turns : Err
  err_max_turns = record {
    kind = max_turns;
    text =
        codes "agent: max turns exceeded: "
        ++ decimal o.turn_limit
        ++ codes
            " (raise --max-turns / policy.max_turns, or set 0 for unlimited; prompt again keeps history)";
  }

  -- Whether the loop's condition fails.
  abbrev pub is_over : ℕ → Bool
  is_over turn = not (o.turn_limit == 0) && leb o.turn_limit turn

  -- The loop, on fuel; the i-th pass meets `ps i`.
  unfoldable pub run_loop : ℕ → ℕ → Loop → Option Finish
  unfolding pass
  run_loop zero i l = none
  run_loop (suc fuel) i l =
      let round : Option Finish = elim (pass o (ps i) l) [
        | stop f ↦ some f
        | again l' ↦ run_loop fuel (suc i) l'
      ] in
      if is_over l.turn then some (failed l err_max_turns) else round

  -- `Run`.
  unfoldable pub run : ℕ → Str → List Message → Str → Option Finish
  unfolding run_loop first_messages trim_space
  run fuel system prior prompt =
      if is_empty (trim_space prompt)
      then some (failed (start []) (failure (codes "agent: empty prompt")))
      else run_loop fuel 0 (start (first_messages system prior prompt))
