-- ===== src/Agent/Loop/Histories.antt =====
-- Whatever way a run ends, its history can be sent again.
use mow.Prelude.{
  fork, ℕ, zero, suc, ◌≡◌, refl, inl, inr, true, false, not, ◌&&◌, List, [], ◌∷◌, Option, none,
  some, ltb, ◌==◌, length, map, Str, is_empty, trim_space, Result-cases, Option-cases, Bool-cases,
  arith, str_eq,
}
use mathlib.Core.Path.{subst}
use mow.Agent.Messages.{
  ToolCall, Message, Err, is_tool, truncated, is_canceled, plain, system_role, user_role,
}
use mow.Agent.History.{Replayable, scan}
use mow.Agent.History.Blocks.{Replayable-append, IsBlock-one}
use mow.Agent.Think.{visible}
use mow.Agent.Loop.{
  Options, Pass, Loop, Finish, nudge, est_chars, before_finish, pre_model_hooks, spoken,
  is_context_overflow,
}
use mow.Agent.Loop.Turn.{final_answer, with_calls, on_reply, count_same, commit}
use mow.Agent.Loop.Passes.{on_overflow, on_error, call_model, gate, gate_event, adopt, pass}
use mow.Agent.Loop.Run.{refresh_system, first_messages, start, is_over, run_loop, run}
use mow.Agent.Loop.Total.{Round-cases}
use mow.Agent.Loop.Replay.{
  IsHonest, Replays, IsBlock-nudge, IsBlock-nudges, run_tools-Replays, cut_batch-Replays,
}

no_calls : (m : Message) → (length m.tool_calls == 0) ≡ true → m.tool_calls ≡ []
no_calls m e = go m.tool_calls e
  where
    go : (calls : List ToolCall) → (length calls == 0) ≡ true → calls ≡ []
    go [] e = refl
    go (tc ∷ calls) e = absurd (ground (arith, e))

module _ (o : Options) (p : Pass) (honest : IsHonest p) where
  final_answer-Replays :
      (m : Message) (l : Loop) → Replayable l.messages → Replays (final_answer o p l m)
  unfolding final_answer
  final_answer-Replays m l r =
      let text = trim_space m.content in
      fork Replays (is_empty text && truncated m) _ _ (λ e. r)
        (λ e. elim (Result-cases (before_finish p.before_finish text l.finish_continuations)) [
          | inl (x, h) ↦ rw h r
          | inr (more, h) ↦ rw h (
              fork Replays (is_empty more) _ _ (λ d. r)
                (λ d. Replayable-append l.messages _ r (IsBlock-nudge more)))
        ])

  on_reply-Replays :
      (l : Loop) (m : Message)
      → Replayable l.messages
      → is_tool m ≡ false
      → Replays (on_reply o p l m)
  unfolding on_reply with_calls is_tool
  on_reply-Replays l m r no_tool =
      let reply = record m { content = visible m.content } in
      let l' = commit o l reply in
      fork Replays (length m.tool_calls == 0) _ _
        (λ e.
          final_answer-Replays reply l' (
            Replayable-append l.messages (reply ∷ []) r (IsBlock-one reply no_tool (no_calls m e))))
        (λ e.
          fork Replays (truncated m) _ _
            (λ t.
              cut_batch-Replays o p reply honest l.messages r no_tool
                (record l' { finish_continuations = 0 }) refl)
            (λ t.
              run_tools-Replays o p reply honest l.messages r no_tool
                (count_same o (record l' { finish_continuations = 0 }) m.tool_calls) refl))

  on_overflow-Replays :
      (l : Loop) (send : List Message) (e : Err)
      → Replayable l.messages
      → Replays (on_overflow o p l send e)
  unfolding on_overflow
  on_overflow-Replays l send e r = elim (Result-cases (p.shrink l.messages send)) [
    | inl (x, h) ↦ rw (h, on_overflow) r
    | inr (s, h) ↦
        rw (h, on_overflow)
          (fork Replays (s.1 && ltb (est_chars s.0) (est_chars send)) _ _
            (λ d. honest.shrinks l.messages send s.0 s.1 h r) (λ d. r))
  ]

  on_error-Replays :
      (l : Loop) (send : List Message) (e : Err)
      → Replayable l.messages
      → Replays (on_error o p l send e)
  unfolding on_error
  on_error-Replays l send e r =
      let steers = map nudge (spoken p.steers_mid_call) in
      fork Replays (p.alive && is_canceled e && not (length steers == 0)) _ _
        (λ d.
          Replayable-append l.messages steers r
            (IsBlock-nudges (λ s. s) (spoken p.steers_mid_call)))
        (λ d.
          fork Replays (is_context_overflow e && ltb l.overflow_retries 2) _ _
            (λ x. on_overflow-Replays l send e r) (λ x. r))

  call_model-Replays :
      (l : Loop) (send : List Message) → Replayable l.messages → Replays (call_model o p l send)
  unfolding call_model
  call_model-Replays l send r = elim (Result-cases (p.chat send)) [
    | inl (e, h) ↦ rw (h, call_model) (on_error-Replays l send e r)
    | inr (m, h) ↦ rw (h, call_model) (on_reply-Replays l m r (honest.replies send m h))
  ]

  gate-Replays :
      (l : Loop) (send : List Message) → Replayable l.messages → Replays (gate o p l send)
  unfolding gate
  gate-Replays l send r = elim (Result-cases (pre_model_hooks p.pre_model (gate_event o l send))) [
    | inl (e, h) ↦ rw (h, gate) r
    | inr (none, h) ↦ rw (h, gate) (call_model-Replays l send r)
    | inr (some reason, h) ↦ rw (h, gate) r
  ]

  pass-Replays : (l : Loop) → Replayable l.messages → Replays (pass o p l)
  unfolding pass
  pass-Replays l r = elim (Option-cases p.cancelled) [
    | inr (e, x) ↦ rw (x, pass) r
    | inl x ↦ elim (Result-cases (p.compact l.messages)) [
      | inl (e, h) ↦ rw (x, h, pass) r
      | inr ((send, true), h) ↦
          rw (x, h, pass)
            (gate-Replays (adopt o l send true) send (honest.compacts l.messages send true h r))
      | inr ((send, false), h) ↦ rw (x, h, pass) (gate-Replays l send r)
    ]
  ]

-- The system prompt takes no part in the calls and their answers.
refresh_system-Replayable :
    (sys : Str) (ms : List Message) → Replayable ms → Replayable (refresh_system sys ms)
unfolding refresh_system scan is_tool str_eq
refresh_system-Replayable sys [] r = ([], refl)
refresh_system-Replayable sys (m ∷ ms) r = elim (Bool-cases (is_empty sys)) [
  | inl e ↦ rw e r
  | inr e ↦ elim (Bool-cases (str_eq m.role system_role)) [
    | inl s ↦ rw (e, s) r
    | inr s ↦ rw (e, s) r
  ]
]

first_messages-Replayable :
    (system : Str) (prior : List Message) (prompt : Str)
    → Replayable prior
    → Replayable (first_messages system prior prompt)
unfolding first_messages is_tool str_eq
first_messages-Replayable system [] prompt r =
    let sys = trim_space system in
    Replayable-append _ _
      (elim (Bool-cases (is_empty sys)) [
        | inl e ↦ rw e r
        | inr e ↦ rw e (
            Replayable-append [] (plain system_role false sys ∷ []) r
              (IsBlock-one (plain system_role false sys) refl refl))
      ])
      (IsBlock-one (plain user_role false prompt) refl refl)
first_messages-Replayable system (m ∷ ms) prompt r =
    Replayable-append _ _ (refresh_system-Replayable (trim_space system) (m ∷ ms) r)
      (IsBlock-one (plain user_role false prompt) refl refl)

-- What a run that is done leaves.
abbrev Leaves : Option Finish → Type 0
Leaves none = Unit
Leaves (some f) = Replayable f.messages

module _ (o : Options) (ps : ℕ → Pass) (honest : (i : ℕ) → IsHonest (ps i)) where
  run_loop-Leaves :
      (fuel i : ℕ) (l : Loop) → Replayable l.messages → Leaves (run_loop o ps fuel i l)
  unfolding run_loop
  run_loop-Leaves zero i l r = tt
  run_loop-Leaves (suc fuel) i l r = elim (Bool-cases (is_over o ps l.turn)) [
    | inl over ↦ rw over r
    | inr on ↦ elim (Round-cases (pass o (ps i) l)) [
      | inl (f, e) ↦ rw (on, e) (subst Replays e (pass-Replays o (ps i) (honest i) l r))
      | inr (l', e) ↦
          rw (on, e)
            (run_loop-Leaves fuel (suc i) l'
              (subst Replays e (pass-Replays o (ps i) (honest i) l r)))
    ]
  ]

  run-Leaves :
      (fuel : ℕ) (system : Str) (prior : List Message) (prompt : Str)
      → Replayable prior
      → Leaves (run o ps fuel system prior prompt)
  unfolding run scan
  run-Leaves fuel system prior prompt r = elim (Bool-cases (is_empty (trim_space prompt))) [
    | inl e ↦ rw e ([], refl)
    | inr e ↦ rw e (
        run_loop-Leaves fuel 0 (start (first_messages system prior prompt))
          (first_messages-Replayable system prior prompt r))
  ]

  -- Whatever way a run ends, by an answer, an error, a limit or the host, the history of its result
  -- can be sent again: each tool call in it is answered before the next message that is no tool
  -- result, and each tool result answers a call of the message before. The messages that it starts
  -- with are such a history, and each pass is honest.
  pub run-Replays :
      (fuel : ℕ) (system : Str) (prior : List Message) (prompt : Str) (f : Finish)
      → Replayable prior
      → run o ps fuel system prior prompt ≡ some f
      → Replayable f.messages
  run-Replays fuel system prior prompt f r e =
      subst Leaves e (run-Leaves fuel system prior prompt r)
