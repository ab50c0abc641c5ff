-- ===== src/Agent/Loop/Bounds.antt =====
-- The limits that the loop's counters keep, and what a pass that goes on moves.
use mow.Prelude.{
  fork, ℕ, ◌+◌, ◌≤◌, inl, inr, true, false, not, ◌&&◌, List, none, some, ltb, ◌==◌, if◌then◌else◌,
  length, map, Result-cases, Option-cases, length-map, arith,
}
use mow.Agent.Messages.{Message, Err, is_canceled}
use mow.Agent.Think.{visible}
use mow.Agent.Loop.{
  Options, Pass, Loop, nudge, est_chars, Round, stop, again, pre_model_hooks, spoken,
  is_context_overflow,
}
use mow.Agent.Loop.Turn.{on_reply, commit}
use mow.Agent.Loop.Passes.{on_overflow, on_error, call_model, gate, gate_event, adopt, pass}
use mow.Agent.Loop.Turned.{IsCounted, Turned, final_answer-Turned, with_calls-Turned}

-- How many turns a pass may give back to the steers of the host.
abbrev pub interrupts : Pass → ℕ
interrupts p = if length (spoken p.steers_mid_call) == 0 then 0 else 1

-- What a pass that goes on has moved. `advances` sets the turns and the retries that it used
-- against those of a call that was interrupted.
pub record Moves (turn retries cuts given_back : ℕ) (l : Loop) : Type 0 where
  pub turns : turn ≤ l.turn
  pub one_turn : l.turn ≤ turn + 1
  pub retries_kept : retries ≤ l.overflow_retries
  pub cuts_kept : cuts ≤ l.truncated_batches
  pub advances : turn + retries + 1 ≤ l.turn + l.overflow_retries + given_back
  pub counted : IsCounted l

abbrev pub Advances : ℕ → Loop → Round → Type 0
Advances given_back l (stop f) = Unit
Advances given_back l (again l') = Moves l.turn l.overflow_retries l.truncated_batches given_back l'

Turned-Advances :
    (n : ℕ) (l : Loop) (r : Round)
    → Turned l.turn l.overflow_retries l.truncated_batches r
    → Advances n l r
Turned-Advances given_back l (stop f) t = tt
Turned-Advances n l (again l') t = record {
  turns = omega (arith, t.0);
  one_turn = omega (arith, t.0);
  retries_kept = omega (arith, t.1);
  cuts_kept = t.2;
  advances = omega (arith, t.0, t.1);
  counted = t.3;
}

module _ (o : Options) (p : Pass) where
  pub on_reply-Advances :
      (l : Loop) (m : Message) → IsCounted l → Advances (interrupts p) l (on_reply o p l m)
  unfolding on_reply
  on_reply-Advances l m c =
      let reply = record m { content = visible m.content } in
      let l' = commit o l reply in
      let c' : IsCounted l' = record {
        continuations = c.continuations;
        cuts = c.cuts;
        retries = c.retries;
        barren = c.barren;
      } in
      Turned-Advances (interrupts p) l _ (
        fork (Turned l.turn l.overflow_retries l.truncated_batches) (length m.tool_calls == 0) _ _
          (λ e. final_answer-Turned o p reply l' c') (λ e. with_calls-Turned o p reply l' c'))

  on_overflow-Advances :
      (l : Loop) (send : List Message) (e : Err)
      → IsCounted l
      → l.overflow_retries + 1 ≤ 2
      → Advances (interrupts p) l (on_overflow o p l send e)
  unfolding on_overflow
  on_overflow-Advances l send e c room = elim (Result-cases (p.shrink l.messages send)) [
    | inl (x, h) ↦ rw (h, on_overflow) tt
    | inr (s, h) ↦
        rw (h, on_overflow)
          (fork (Advances (interrupts p) l) (s.1 && ltb (est_chars s.0) (est_chars send)) _ _
            (λ d. record {
              turns = omega arith;
              one_turn = omega arith;
              retries_kept = omega arith;
              cuts_kept = omega arith;
              advances = omega arith;
              counted = record {
                continuations = c.continuations;
                cuts = c.cuts;
                retries = room;
                barren = c.barren;
              };
            })
            (λ d. tt))
  ]

  on_error-Advances :
      (l : Loop) (send : List Message) (e : Err)
      → IsCounted l
      → Advances (interrupts p) l (on_error o p l send e)
  unfolding on_error
  on_error-Advances l send e c =
      let steers = map nudge (spoken p.steers_mid_call) in
      fork (Advances (interrupts p) l) (p.alive && is_canceled e && not (length steers == 0)) _ _
        (λ d. record {
          turns = omega arith;
          one_turn = omega arith;
          retries_kept = omega arith;
          cuts_kept = omega arith;
          advances = ground (arith, d, length-map (spoken p.steers_mid_call) nudge);
          counted = record {
            continuations = c.continuations;
            cuts = c.cuts;
            retries = c.retries;
            barren = c.barren;
          };
        })
        (λ d.
          fork (Advances (interrupts p) l) (is_context_overflow e && ltb l.overflow_retries 2) _ _
            (λ x. on_overflow-Advances l send e c (ground (arith, x))) (λ x. tt))

  call_model-Advances :
      (l : Loop) (send : List Message)
      → IsCounted l
      → Advances (interrupts p) l (call_model o p l send)
  unfolding call_model
  call_model-Advances l send c = elim (Result-cases (p.chat send)) [
    | inl (e, h) ↦ rw (h, call_model) (on_error-Advances l send e c)
    | inr (m, h) ↦ rw (h, call_model) (on_reply-Advances l m c)
  ]

  gate-Advances :
      (l : Loop) (send : List Message) → IsCounted l → Advances (interrupts p) l (gate o p l send)
  unfolding gate
  gate-Advances l send c = elim (Result-cases (pre_model_hooks p.pre_model (gate_event o l send))) [
    | inl (e, h) ↦ rw (h, gate) tt
    | inr (none, h) ↦ rw (h, gate) (call_model-Advances l send c)
    | inr (some reason, h) ↦ rw (h, gate) tt
  ]

  -- A pass that goes on from counters within their limits (8 continuations of an answer, 1 cut
  -- batch, 2 forced compactions, 19 barren batches) leaves them within; the turn stays or goes up by
  -- one, the cut batches and the forced compactions never go down, and unless the host interrupted
  -- the call the turn or the compactions go up.
  pub pass-Advances : (l : Loop) → IsCounted l → Advances (interrupts p) l (pass o p l)
  unfolding pass
  pass-Advances l c = elim (Option-cases p.cancelled) [
    | inr (e, x) ↦ rw (x, pass) tt
    | inl x ↦ elim (Result-cases (p.compact l.messages)) [
      | inl (e, h) ↦ rw (x, h, pass) tt
      | inr ((send, true), h) ↦
          rw (x, h, pass)
            (gate-Advances (adopt o l send true) send (record {
              continuations = c.continuations;
              cuts = c.cuts;
              retries = c.retries;
              barren = c.barren;
            }))
      | inr ((send, false), h) ↦ rw (x, h, pass) (gate-Advances l send c)
    ]
  ]
