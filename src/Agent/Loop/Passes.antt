-- ===== src/Agent/Loop/Passes.antt =====
-- internal/agent/loop.go: one pass of the loop of `Run`, up to the reply.
use mow.Prelude.{
  ◌+◌, Bool, not, ◌&&◌, List, ◌++◌, none, some, ltb, ◌==◌, if◌then◌else◌, length, map, Str, codes,
  trim_space, is_empty, ok, err,
}
use mow.Agent.Messages.{Message, Err, budget, is_canceled}
use mow.Agent.Loop.{
  Options, Pass, PreModelEvent, Loop, Round, stop, again, failed, add_messages, nudge,
  max_overflow_retries, is_context_overflow, est_chars, pre_model_hooks, spoken,
}
use mow.Agent.Loop.Turn.{on_reply}

module _ (o : Options) where
  -- The retry of a call that the provider found too long.
  unfoldable pub on_overflow : Pass → Loop → List Message → Err → Round
  unfolding est_chars
  on_overflow p l send e = elim (p.shrink l.messages send) [
    | err e' ↦ stop (failed l e)
    | ok (shrunk, did) ↦
        if did && ltb (est_chars shrunk) (est_chars send)
        then again (record l {
          messages = shrunk;
          last_input_tokens = 0;
          overflow_retries = l.overflow_retries + 1;
        })
        else stop (failed l e)
  ]

  -- What follows a call that failed: the steers, or the retry, on the same turn.
  unfoldable pub on_error : Pass → Loop → List Message → Err → Round
  unfolding on_overflow is_canceled spoken is_context_overflow
  on_error p l send e =
      let steers = map nudge (spoken p.steers_mid_call) in
      if p.alive && is_canceled e && not (length steers == 0)
      then again (add_messages l steers)
      else if is_context_overflow e && ltb l.overflow_retries max_overflow_retries
      then on_overflow p l send e
      else stop (failed l e)

  unfoldable pub call_model : Pass → Loop → List Message → Round
  unfolding on_error on_reply
  call_model p l send = elim (p.chat send) [ err e ↦ on_error p l send e | ok m ↦ on_reply o p l m ]

  abbrev pub err_budget : Str → Err
  err_budget reason =
      let why = trim_space reason in
      record {
        kind = budget;
        text =
            codes "agent: run budget exhausted: "
            ++ (if is_empty why then codes "stopped before the LLM call" else why);
      }

  abbrev pub gate_event : Loop → List Message → PreModelEvent
  gate_event l send = record {
    turn = l.turn + 1;
    usage = l.usage;
    sent_chars = est_chars send + o.tool_chars;
  }

  -- The gate before the call.
  unfoldable pub gate : Pass → Loop → List Message → Round
  unfolding call_model pre_model_hooks est_chars
  gate p l send = elim (pre_model_hooks p.pre_model (gate_event l send)) [
    | err e ↦ stop (failed l e)
    | ok (some reason) ↦
        stop (record (failed l (err_budget reason)) { stop_reason = codes "budget" })
    | ok none ↦ call_model p l send
  ]

  -- A history that was compacted is the one that goes on.
  abbrev pub adopt : Loop → List Message → Bool → Loop
  adopt l send compacted =
      if compacted then record l { messages = send; last_input_tokens = 0 } else l

  -- The body of the loop.
  unfoldable pub pass : Pass → Loop → Round
  unfolding gate
  pass p l = elim p.cancelled [
    | some e ↦ stop (failed l e)
    | none ↦ elim (p.compact l.messages) [
      | err e ↦ stop (failed l e)
      | ok (send, compacted) ↦ gate p (adopt l send compacted) send
    ]
  ]
