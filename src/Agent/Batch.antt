-- ===== src/Agent/Batch.antt =====
-- internal/agent/loop_tools.go, sequential.go and post_batch.go: the tool calls of one reply.
pub mod Answers
pub mod Complete
use mow.Prelude.{
  ℕ, suc, min, Bool, false, ◌||◌, List, [], ◌∷◌, ◌++◌, Option, none, some, ltb, ◌==◌, if◌then◌else◌,
  length, map, any, Str, codes, str_eq, trim_space, is_empty, decimal,
}
use mow.Agent.Messages.{ToolCall, Message, tool_result, Err, err_done}
use mow.Agent.Repair.{repair_tool_results}
use mow.Agent.Tools.{Tool}
use mow.Agent.Tools.Exec.{ToolSlot, soft, hard, find_tool}

abbrev pub max_tool_calls_per_turn : ℕ
max_tool_calls_per_turn = 64

-- The messages of the batch, and an error.
abbrev pub Batch : Type 0
Batch = List Message × Option Err

abbrev pub sequential_error : Str → Str → ToolCall → Message
sequential_error id name tc = tool_result tc.id tc.name (
    if str_eq tc.id id
    then codes "error: "
      ++ name
      ++ codes " must be called alone; ask first, then issue other tools after the answer"
    else codes "error: tool batch contained sequential tool "
      ++ name
      ++ codes "; no sibling tools were executed")

-- `sequentialBatchErrors`.
unfoldable pub sequential_batch_errors : Str → Str → List ToolCall → List Message
unfolding str_eq
sequential_batch_errors id name = map (sequential_error id name)

-- The notes of the batch's tools, each once.
unfoldable pub post_batch_notes : List Tool → List ToolCall → List Str → List Str
unfolding find_tool trim_space str_eq
post_batch_notes tools [] seen = []
post_batch_notes tools (tc ∷ calls) seen =
    let note : Str = elim (find_tool tools tc.name) [
      | none ↦ []
      | some t ↦ trim_space (Tool.post_batch_context t)
    ] in
    let skip = post_batch_notes tools calls seen in
    let more = post_batch_notes tools calls (note ∷ seen) in
    if is_empty note || any (str_eq note) seen then skip else note ∷ more

unfoldable pub join_notes : List Str → Str
join_notes [] = []
join_notes (n ∷ []) = n
join_notes (n ∷ m ∷ ns) = n ++ codes "\n" ++ join_notes (m ∷ ns)

-- The notes go to the end of the last message.
unfoldable pub to_last : Str → List Message → List Message
to_last note [] = []
to_last note (m ∷ []) = record m { content = m.content ++ codes "\n\n" ++ note } ∷ []
to_last note (m ∷ n ∷ ms) = m ∷ to_last note (n ∷ ms)

-- `appendPostBatchContext`.
unfoldable pub append_post_batch_context : List Tool → List ToolCall → List Message → List Message
unfolding post_batch_notes join_notes to_last
append_post_batch_context tools calls out = elim (post_batch_notes tools calls []) [
  | [] ↦ out
  | n ∷ ns ↦ to_last (join_notes (n ∷ ns)) out
]

module _ (cancelled : ℕ → Option Err) (exec : ToolCall → ToolSlot) (tools : List Tool) where
  -- The loop of `runToolBatchSequential`; `cancelled i` is what `ctx.Err()` answers before the i-th
  -- call. It returns the messages, whether a tool asked for the end, and an error.
  unfoldable pub one_by_one : ℕ → List ToolCall → List Message × Bool × Option Err
  one_by_one i [] = ([], false, none)
  one_by_one i (tc ∷ calls) =
      let rest = one_by_one (suc i) calls in
      elim (cancelled i) [
        | some e ↦ ([], false, some e)
        | none ↦ elim (exec tc) [
          | hard e ↦ ([], false, some e)
          | soft m done ↦ (m ∷ rest.0, done || rest.1, rest.2)
        ]
      ]

  unfoldable pub run_tool_batch_sequential : List ToolCall → Batch
  unfolding one_by_one append_post_batch_context
  run_tool_batch_sequential calls =
      let result = one_by_one 0 calls in
      elim result.2 [
        | some e ↦ (result.0, some e)
        | none ↦
            if result.1
            then (result.0, some err_done)
            else (append_post_batch_context tools calls result.0, none)
      ]

-- The messages of the slots that have one, in the order of the calls.
unfoldable pub soft_messages : List ToolSlot → List Message
soft_messages [] = []
soft_messages (soft m done ∷ slots) = m ∷ soft_messages slots
soft_messages (hard e ∷ slots) = soft_messages slots

unfoldable pub any_done : List ToolSlot → Bool
any_done [] = false
any_done (soft m done ∷ slots) = done || any_done slots
any_done (hard e ∷ slots) = any_done slots

-- `runToolBatchParallel`, once every call has its slot: `first` is the hard error that was
-- reported first, and `at_end` what `ctx.Err()` answers at the end.
unfoldable pub gather_slots :
    List Tool → List ToolCall → List ToolSlot → Option Err → Option Err → Batch
unfolding soft_messages any_done append_post_batch_context
gather_slots tools calls slots first at_end =
    let out = soft_messages slots in
    elim first [
      | some e ↦ (out, some e)
      | none ↦ elim at_end [
        | some e ↦ (out, some e)
        | none ↦ (
          append_post_batch_context tools calls out,
          if any_done slots then some err_done else none,
        )
      ]
    ]

-- A schedule of the parallel calls: the slot of each call, the hard error that was reported first,
-- and what `ctx.Err()` answers at the end.
pub record Schedule : Type 0 where
  pub slot : ToolCall → ToolSlot
  pub first : Option Err
  pub at_end : Option Err

-- What a batch meets: `ctx.Err()` at its start and before each call, what each call does, and the
-- schedule where the calls run at once.
pub record Surroundings : Type 0 where
  pub at_start : Option Err
  pub cancelled : ℕ → Option Err
  pub exec : ToolCall → ToolSlot
  pub schedule : Schedule

abbrev nameless : ToolCall → Bool
nameless tc = is_empty (trim_space tc.id) || is_empty (trim_space tc.name)

-- The first call of a sequential tool.
unfoldable pub sequential_call : List Tool → List ToolCall → Option ToolCall
unfolding find_tool
sequential_call tools [] = none
sequential_call tools (tc ∷ calls) =
    let later = sequential_call tools calls in
    elim (find_tool tools tc.name) [
      | none ↦ later
      | some t ↦ if Tool.sequential t then some tc else later
    ]

-- How many calls may run at once: `parallelLimit`, and each tool's own cap.
unfoldable pub cap_parallel : List Tool → List ToolCall → ℕ → ℕ
unfolding find_tool
cap_parallel tools [] limit = limit
cap_parallel tools (tc ∷ calls) limit = elim (find_tool tools tc.name) [
  | none ↦ cap_parallel tools calls limit
  | some t ↦
      cap_parallel tools calls
        (if Tool.max_parallel t == 0 then limit else min limit (Tool.max_parallel t))
]

abbrev parallel_limit : ℕ → ℕ
parallel_limit max_parallel_tools = if max_parallel_tools == 0 then 8 else max_parallel_tools

-- `runToolBatch` on calls that are well formed.
unfoldable pub dispatch : List Tool → ℕ → Surroundings → List ToolCall → Batch
unfolding run_tool_batch_sequential gather_slots cap_parallel sequential_call
dispatch tools max_parallel_tools w calls =
    let alone = length calls == 1 in
    let one = alone || cap_parallel tools calls (parallel_limit max_parallel_tools) == 1 in
    let rest =
      if one
      then run_tool_batch_sequential w.cancelled w.exec tools calls
      else gather_slots tools calls (map (Schedule.slot w.schedule) calls)
          (Schedule.first w.schedule) (Schedule.at_end w.schedule) in
    elim (sequential_call tools calls) [
      | none ↦ rest
      | some tc ↦
          if ltb 1 (length calls) then (sequential_batch_errors tc.id tc.name calls, none) else rest
    ]

unfoldable pub unless_cancelled : List Tool → ℕ → Surroundings → List ToolCall → Batch
unfolding dispatch
unless_cancelled tools max_parallel_tools w calls = elim w.at_start [
  | some e ↦ ([], some e)
  | none ↦ dispatch tools max_parallel_tools w calls
]

-- A batch that is refused as a whole.
abbrev pub refused : List ToolCall → Str → Batch
refused calls reason = (repair_tool_results calls [] (some reason), none)

abbrev pub too_many : List ToolCall → Str
too_many calls =
    codes "tool batch has "
    ++ decimal (length calls)
    ++ codes " calls; maximum is "
    ++ decimal max_tool_calls_per_turn

-- `runToolBatch`.
unfoldable pub run_tool_batch : List Tool → ℕ → Surroundings → List ToolCall → Batch
unfolding unless_cancelled repair_tool_results trim_space
run_tool_batch tools max_parallel_tools w calls =
    if length calls == 0
    then ([], none)
    else if ltb max_tool_calls_per_turn (length calls)
    then refused calls (too_many calls)
    else if any nameless calls
    then refused calls (codes "tool batch contains a call without id or function name")
    else unless_cancelled tools max_parallel_tools w calls
