-- ===== src/Agent/Batch/Complete.antt =====
-- `runToolBatch` and the repair of its result: no tool call of a reply is left without an answer.
use mow.Prelude.{
  ℕ, Bool, true, false, List, [], ◌∷◌, Option, none, some, ◌≡◌, ◌∙◌, refl, inl, inr, any, All,
  All-append, Str, codes, str_eq, Bool-cases, Option-cases, arith, if◌then◌else◌, ltb, ◌==◌, length,
}
use mow.Agent.Messages.{ToolCall, Message, is_tool, Err}
use mow.Agent.Repair.{answered, pads, placeholder, repair_tool_results}
use mow.Agent.Repair.Answers.{repair_tool_results-answers}
use mow.Agent.History.{ids_of}
use mow.Agent.History.Blocks.{IsResult}
use mow.Agent.Tools.{Tool}
use mow.Agent.Batch.{
  Batch, sequential_error, unless_cancelled, refused, too_many, sequential_batch_errors,
  Surroundings, dispatch, run_tool_batch, sequential_call, max_tool_calls_per_turn, nameless,
}
use mow.Agent.Batch.Answers.{
  IsOrderly, AllAnswered, IsComplete, IsResult-answer, AllAnswered-answer, IsResult-weaken,
  absurd_failure, run_tool_batch_sequential-IsComplete, gather_slots-IsComplete,
}

any-ids_of :
    (id : Str) (calls : List ToolCall)
    → any (λ tc. str_eq id (ToolCall.id tc)) calls ≡ any (str_eq id) (ids_of calls)
any-ids_of id [] = refl
any-ids_of id (tc ∷ calls) = rw (any-ids_of id calls) refl

pads-results :
    (reason : Option Str) (calls : List ToolCall) (seen : List Str)
    → All (IsResult (ids_of calls)) (pads reason calls seen)
unfolding pads is_tool str_eq
pads-results reason [] seen = tt
pads-results reason (tc ∷ calls) seen = elim (Bool-cases (any (str_eq tc.id) seen)) [
  | inl e ↦ rw e (IsResult-weaken tc.id (ids_of calls) _ (pads-results reason calls seen))
  | inr e ↦ rw e (
      IsResult-answer tc (ids_of calls) (placeholder reason tc) _ (refl, refl)
        (pads-results reason calls (tc.id ∷ seen)))
]

-- After the repair every call is answered, whatever was there.
pub repair_tool_results-IsComplete :
    (calls : List ToolCall) (out : List Message) (reason : Option Str) (e : Option Err)
    → All (IsResult (ids_of calls)) out
    → IsComplete (ids_of calls) (repair_tool_results calls out reason, e)
unfolding repair_tool_results
repair_tool_results-IsComplete calls out reason e h = record {
  results =
      All-append _ out (pads reason calls (answered out)) h
        (pads-results reason calls (answered out));
  settled =
      λ s id has. (repair_tool_results-answers reason calls out).0 id (any-ids_of id calls ∙ has);
}

sequential_batch_errors-results :
    (id name : Str) (calls : List ToolCall)
    → All (IsResult (ids_of calls)) (sequential_batch_errors id name calls)
      × AllAnswered (ids_of calls) (sequential_batch_errors id name calls)
unfolding sequential_batch_errors is_tool str_eq
sequential_batch_errors-results id name [] = (tt, λ x has. cc)
sequential_batch_errors-results id name (tc ∷ calls) =
    let (results, answers) = sequential_batch_errors-results id name calls in
    (
      IsResult-answer tc (ids_of calls) (sequential_error id name tc) _ (refl, refl) results,
      AllAnswered-answer tc (ids_of calls) (sequential_error id name tc) _ (refl, refl) answers,
    )

IsComplete-if :
    (ids : List Str) (b : Bool) (x y : Batch)
    → IsComplete ids x
    → IsComplete ids y
    → IsComplete ids (if b then x else y)
IsComplete-if ids true x y cx cy = cx
IsComplete-if ids false x y cx cy = cy

-- A batch that is refused as a whole.
refused-IsComplete :
    (calls : List ToolCall) (reason : Str) → IsComplete (ids_of calls) (refused calls reason)
refused-IsComplete calls reason = repair_tool_results-IsComplete calls [] (some reason) none tt

module _ (tools : List Tool) (max_parallel_tools : ℕ) (w : Surroundings) (o : IsOrderly w) where
  dispatch-IsComplete :
      (calls : List ToolCall)
      → IsComplete (ids_of calls) (dispatch tools max_parallel_tools w calls)
  unfolding dispatch
  dispatch-IsComplete calls =
      let rest =
        IsComplete-if (ids_of calls) _ _ _ (run_tool_batch_sequential-IsComplete tools w o calls)
          (gather_slots-IsComplete tools w o calls) in
      elim (Option-cases (sequential_call tools calls)) [
        | inl e ↦ rw (e, dispatch) rest
        | inr (tc, e) ↦
            let (results, answers) = sequential_batch_errors-results tc.id tc.name calls in
            rw (e, dispatch)
              (IsComplete-if (ids_of calls) _ _ _
                (record { results = results; settled = λ s. answers }) rest)
      ]

  unless_cancelled-IsComplete :
      (calls : List ToolCall)
      → IsComplete (ids_of calls) (unless_cancelled tools max_parallel_tools w calls)
  unfolding unless_cancelled
  unless_cancelled-IsComplete calls = elim (Option-cases w.at_start) [
    | inl e ↦ rw (e, unless_cancelled) (dispatch-IsComplete calls)
    | inr (e, s) ↦
        rw (s, unless_cancelled)
          (record { results = tt; settled = λ d. absurd (absurd_failure e (o.start e s) d) })
  ]

  -- The messages of a batch are results of its own calls; and where it meets no error, or ends the
  -- run with one, each of its calls has a result. The surroundings are orderly.
  pub run_tool_batch-IsComplete :
      (calls : List ToolCall)
      → IsComplete (ids_of calls) (run_tool_batch tools max_parallel_tools w calls)
  unfolding run_tool_batch
  run_tool_batch-IsComplete [] = record { results = tt; settled = λ s id has. cc }
  run_tool_batch-IsComplete (tc ∷ calls) =
      let all = tc ∷ calls in
      let some_call : (length all == 0) ≡ false = ground arith in
      rw some_call (
        IsComplete-if (ids_of all) (ltb max_tool_calls_per_turn (length all)) _ _
          (refused-IsComplete all (too_many all))
          (IsComplete-if (ids_of all) (any nameless all) _ _
            (refused-IsComplete all
              (codes "tool batch contains a call without id or function name"))
            (unless_cancelled-IsComplete all)))
