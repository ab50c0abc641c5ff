-- ===== src/Agent/Loop/Turn.antt =====
-- internal/agent/loop.go: one pass of the loop of `Run`, and the loop.
use mow.Prelude.{
  ℕ, ◌+◌, Bool, true, false, not, ◌&&◌, ◌||◌, List, [], ◌∷◌, ◌++◌, Option, none, some, ltb, leb,
  ◌==◌, if◌then◌else◌, length, map, any, Str, codes, str_eq, trim_space, is_empty, decimal, ok, err,
}
use mow.Agent.Messages.{
  ToolCall, Usage, add, Message, truncated, Err, stuck, reply_truncated, is_done,
}
use mow.Agent.Repair.{repair_tool_results}
use mow.Agent.Batch.{run_tool_batch}
use mow.Agent.Think.{visible}
use mow.Agent.Loop.{
  Options, Pass, Loop, Round, stop, again, failed, answer, add_messages, next_turn, nudge,
  max_truncated_batches, same_tool_warn_after, stall_limit, paragraphs, before_finish, decide_hooks,
  spoken, fingerprint,
}

-- `errTruncatedArgs`.
abbrev pub err_truncated_args : Str
err_truncated_args =
    codes
      "provider cut this tool call at its output limit; the arguments are incomplete and were NOT executed — re-issue with smaller arguments (e.g. edit a hunk instead of writing the whole file)"

abbrev advisory : Str
advisory =
    codes
      "Several tool batches returned only previously seen results. This is an advisory checkpoint, not a stop: if polling or retrying is necessary, continue with an appropriate wait; otherwise use the evidence collected or change strategy."

-- `sameToolWarnMessage`.
abbrev same_tool_warn_message : ℕ → Str
same_tool_warn_message n =
    codes "You repeated the same tool call(s) "
    ++ decimal n
    ++ codes
        " times. Use the evidence already collected. Make a targeted check only if it can change the conclusion; otherwise report findings and uncertainty. Do not change arguments merely to repeat the same investigation."

-- The fingerprint of the call with the id, as `evidenceSet.note` has it: the last such call's.
unfoldable pub call_fp : (Str → Str → Str) → List ToolCall → Str → Option Str
unfolding str_eq
call_fp normal_args [] id = none
call_fp normal_args (tc ∷ calls) id = elim (call_fp normal_args calls id) [
  | some fp ↦ some fp
  | none ↦
      if str_eq tc.id id
      then some (tc.name ++ codes "=" ++ normal_args tc.name tc.arguments)
      else none
]

abbrev or_empty : Option Str → Str
or_empty none = []
or_empty (some s) = s

module _ (o : Options) where
  -- `evidenceSet.note`: the keys seen, and whether one of them is new.
  unfoldable pub note_evidence : List ToolCall → List Message → List Str → List Str × Bool
  unfolding call_fp trim_space str_eq
  note_evidence calls [] seen = (seen, false)
  note_evidence calls (m ∷ ms) seen =
      let body = trim_space m.content in
      let key = or_empty (call_fp o.normal_args calls m.tool_call_id) ++ 0 ∷ o.hash body in
      let rest = note_evidence calls ms seen in
      let noted = note_evidence calls ms (key ∷ seen) in
      if is_empty body || any (str_eq key) seen then rest else (noted.0, true)

  -- The end of a turn: the hints in one message, then the steers.
  unfoldable pub end_turn : Pass → Loop → Str → Round
  unfolding trim_space
  end_turn p l inject =
      let hint =
        if leb same_tool_warn_after l.same_tool_fp
        then paragraphs (same_tool_warn_message l.same_tool_fp) inject
        else inject in
      let hints = if is_empty hint then [] else nudge hint ∷ [] in
      again (
        next_turn
          (add_messages l (hints ++ map (λ s. nudge (trim_space s)) (spoken p.steers_at_end))))

  -- After the stall test.
  unfoldable pub decide_turn : Pass → Loop → Message → List Message → Round
  unfolding end_turn decide_hooks
  decide_turn p l m results =
      elim (decide_hooks p.after_turn_decide m.content (p.explored m.tool_calls results)) [
        | err e ↦ stop (failed l e)
        | ok inject ↦ end_turn p l inject
      ]

  abbrev pub err_stuck : ℕ → Err
  err_stuck n = record {
    kind = stuck;
    text =
        codes "agent: stuck repeating tool calls: "
        ++ decimal n
        ++ codes " consecutive tool batches produced no new evidence";
  }

  -- The stall test, on a batch that brought nothing new.
  unfoldable pub barren : Pass → Loop → Message → List Message → Round
  unfolding decide_turn stall_limit
  barren p l m results =
      let runs = l.barren_runs + 1 in
      let limit = stall_limit m.tool_calls in
      let advice =
        if runs == same_tool_warn_after && ltb runs limit then nudge advisory ∷ [] else [] in
      let l' = record (add_messages l advice) { barren_runs = runs } in
      if leb limit runs
      then stop (answer l' m (some (err_stuck runs)))
      else decide_turn p l' m results

  unfoldable pub after_tools : Pass → Loop → Message → List Message → Round
  unfolding note_evidence barren decide_turn
  after_tools p l m results =
      let noted = note_evidence m.tool_calls results l.seen in
      let l' = record l { seen = noted.0 } in
      if noted.1
      then decide_turn p (record l' { barren_runs = 0 }) m results
      else barren p l' m results

  -- The batch of tool calls.
  unfoldable pub run_tools : Pass → Loop → Message → Round
  unfolding run_tool_batch after_tools is_done repair_tool_results
  run_tools p l m =
      let batch = run_tool_batch o.tools o.max_parallel_tools p.surroundings m.tool_calls in
      elim batch.1 [
        | none ↦ after_tools p (add_messages l batch.0) m batch.0
        | some e ↦
            if is_done e
            then stop (answer (add_messages l batch.0) m none)
            else stop
                (failed (add_messages l (repair_tool_results m.tool_calls batch.0 (some e.text))) e)
      ]

  abbrev same_fp : Loop → Str → Bool
  same_fp l fp = not (is_empty fp) && str_eq fp l.last_tool_fp

  -- The count of identical batches in a row.
  abbrev pub count_same : Loop → List ToolCall → Loop
  count_same l calls =
      let fp = fingerprint o.normal_args calls in
      let same = same_fp l fp in
      record l {
        same_tool_fp = if same then l.same_tool_fp + 1 else 1;
        last_tool_fp = if same then l.last_tool_fp else fp;
      }

  abbrev pub err_cut_arguments : ℕ → Err
  err_cut_arguments n = record {
    kind = reply_truncated;
    text =
        codes "agent: response truncated at token limit: provider truncated tool arguments "
        ++ decimal n
        ++ codes " turns running (raise llm.max_tokens)";
  }

  -- A reply whose tool calls were cut: none of them runs.
  unfoldable pub cut_batch : Loop → Message → Round
  unfolding repair_tool_results
  cut_batch l m =
      let cut = l.truncated_batches + 1 in
      let l' =
        record (add_messages l (repair_tool_results m.tool_calls [] (some err_truncated_args))) {
          truncated_batches = cut;
        } in
      if leb max_truncated_batches cut
      then stop (answer l' m (some (err_cut_arguments cut)))
      else again (next_turn l')

  abbrev pub err_empty_answer : Err
  err_empty_answer = record {
    kind = reply_truncated;
    text =
        codes
          "agent: response truncated at token limit: provider stopped at the token limit with no answer (raise llm.max_tokens)";
  }

  -- A reply without tool calls.
  unfoldable pub final_answer : Pass → Loop → Message → Round
  unfolding before_finish truncated trim_space
  final_answer p l m =
      let text = trim_space m.content in
      if is_empty text && truncated m
      then stop (answer l m (some err_empty_answer))
      else elim (before_finish p.before_finish text l.finish_continuations) [
        | err e ↦ stop (answer l m (some e))
        | ok more ↦
            if is_empty more
            then stop (answer l m none)
            else again (
                next_turn (record (add_messages l (nudge more ∷ [])) {
                  finish_continuations = l.finish_continuations + 1;
                }))
      ]

  -- The history with the reply in it.
  abbrev pub commit : Loop → Message → Loop
  commit l m =
      let billed = Usage.input_tokens m.usage in
      record (add_messages l (m ∷ [])) {
        usage = add l.usage m.usage;
        last_input_tokens = if billed == 0 then l.last_input_tokens else billed;
      }

  unfoldable pub with_calls : Pass → Loop → Message → Round
  unfolding cut_batch run_tools truncated
  with_calls p l m =
      let l' = record l { finish_continuations = 0 } in
      if truncated m then cut_batch l' m else run_tools p (count_same l' m.tool_calls) m

  -- What follows a reply.
  unfoldable pub on_reply : Pass → Loop → Message → Round
  unfolding final_answer with_calls
  on_reply p l reply =
      let m = record reply { content = visible reply.content } in
      let l' = commit l m in
      if length m.tool_calls == 0 then final_answer p l' m else with_calls p l' m
