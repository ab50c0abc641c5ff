-- ===== src/Tests/Loop.antt =====
-- A run of two turns: the model reads a file, then answers.
use mow.Prelude.{
  ℕ, ◌+◌, ◌≡◌, ◌≤◌, refl, max, Bool, true, false, List, [], ◌∷◌, Option, none, some, arith, length,
  replicate, Str, codes, str_eq, Result, ok,
}
use mathlib.Core.Path.{subst}
use mow.Agent.Messages.{ToolCall, Message, Err, is_tool, tool_result, plain, truncated}
use mow.Agent.Truncate.{truncated_marker, truncate_tool_result, untrusted_close, has_suffix, framed}
use mow.Agent.Truncate.Frames.{truncate_tool_result-bound, truncate_tool_result-stable}
use mow.Agent.Tools.{PreTool, Hooks, Tool, Context}
use mow.Agent.Tools.Exec.{ToolSlot, soft, find_tool, exec_one_tool}
use mow.Agent.Tools.Slots.{Holds, Keeps, exec_one_tool-slots}
use mow.Agent.History.{ids_of, Replayable, scan}
use mow.Agent.Batch.{Surroundings, run_tool_batch}
use mow.Agent.Batch.Answers.{IsOrderly, IsComplete, IsAnswer}
use mow.Agent.Batch.Complete.{run_tool_batch-IsComplete}
use mow.Agent.Loop.{Options, Pass, Loop, Finish, Round, stop, again, answer, next_turn, spoken}
use mow.Agent.Think.{visible}
use mow.Agent.Loop.Turn.{err_cut_arguments, on_reply, with_calls, cut_batch, run_tools, after_tools}
use mow.Agent.Loop.Passes.{pass, gate, call_model}
use mow.Agent.Loop.Run.{start, run}
use mow.Agent.Loop.Turned.{IsCounted}
use mow.Agent.Loop.Bounds.{interrupts, Advances, pass-Advances}
use mow.Agent.Loop.Total.{run-ends}
use mow.Agent.Loop.Cuts.{told, on_reply-cut_twice}
use mow.Agent.Loop.Replay.{IsHonest}
use mow.Agent.Loop.Histories.{run-Replays}

abbrev long_text : Str
long_text = replicate 420 b'a'

truncate_tool_result-bound_example :
    (length (truncate_tool_result long_text 30) ≤ max 30 21 + length truncated_marker)
    × (length long_text ≤ 30 → truncate_tool_result long_text 30 ≡ long_text)
    × (framed long_text ≡ true
        → has_suffix (truncate_tool_result long_text 30) untrusted_close ≡ true)
truncate_tool_result-bound_example = truncate_tool_result-bound long_text 30 (omega arith)

truncate_tool_result-stable_example :
    truncate_tool_result (truncate_tool_result long_text 400) 400
    ≡ truncate_tool_result long_text 400
truncate_tool_result-stable_example =
    truncate_tool_result-stable long_text 400 (omega arith) (omega arith)

abbrev read_call : ToolCall
read_call = record {
  id = codes "1";
  name = codes "read";
  arguments = codes "{}";
  thought_signature = [];
}

abbrev read_tool : Tool
read_tool = record {
  name = codes "read";
  exec = λ args. (codes "text", none);
  untrusted = false;
  sequential = false;
  max_parallel = 0;
  post_batch_context = [];
}

abbrev alive : Context
alive = record { at_start = none; after_exec = none }

abbrev allows : Str → Option Err
allows name = none

abbrev no_hooks : Hooks
no_hooks = record { pre_tool = []; post_tool = [] }

abbrev halting : PreTool
halting name args id = ok (record {
  deny = false;
  message = codes "stop here";
  args = [];
  rewrite_args = false;
  additional_context = [];
  halt = true;
})

abbrev halting_hooks : Hooks
halting_hooks = record { pre_tool = halting ∷ []; post_tool = [] }

abbrev halted_call : ToolSlot
halted_call =
    exec_one_tool (λ s. s) (λ n s. []) allows (read_tool ∷ []) halting_hooks [] 1000 alive read_call

exec_one_tool-slots_example :
    Holds read_call halted_call
    × Keeps (allows read_call.name) (find_tool (read_tool ∷ []) read_call.name) halted_call
exec_one_tool-slots_example =
    exec_one_tool-slots (λ s. s) (λ n s. []) allows (read_tool ∷ []) halting_hooks [] 1000 alive
      read_call

abbrev read_slot : ToolCall → ToolSlot
read_slot tc = soft (tool_result tc.id tc.name (codes "text")) false

read_slot-IsAnswer :
    (tc : ToolCall) (m : Message) (d : Bool) → read_slot tc ≡ soft m d → IsAnswer tc m
unfolding is_tool str_eq
read_slot-IsAnswer tc m d e =
    let h : Holds tc (soft m d) = subst (Holds tc) e (refl, refl, refl, refl) in (h.0, h.1)

abbrev surroundings : Surroundings
surroundings = record {
  at_start = none;
  cancelled = λ i. none;
  exec = read_slot;
  schedule = record { slot = read_slot; first = none; at_end = none };
}

surroundings-IsOrderly : IsOrderly surroundings
surroundings-IsOrderly = record {
  answers = read_slot-IsAnswer;
  failures = λ tc e h. absurd (cc);
  contexts = λ i e h. absurd (cc);
  start = λ e h. absurd (cc);
  slots = read_slot-IsAnswer;
  firsts = λ e h. absurd (cc);
  ends = λ e h. absurd (cc);
  complete = λ f a tc. (_, _, refl);
}

run_tool_batch-IsComplete_example :
    IsComplete
      (ids_of (read_call ∷ []))
      (run_tool_batch (read_tool ∷ []) 0 surroundings (read_call ∷ []))
run_tool_batch-IsComplete_example =
    run_tool_batch-IsComplete (read_tool ∷ []) 0 surroundings surroundings-IsOrderly
      (read_call ∷ [])

-- The model's replies: a call while no tool has answered, then the answer.
abbrev reply : List Message → Message
reply [] = plain (codes "assistant") false (codes "hello")
reply (m ∷ []) = record (plain (codes "assistant") false (codes "reading")) {
  tool_calls = read_call ∷ [];
}
reply (m ∷ n ∷ ms) = plain (codes "assistant") false (codes "the file says text")

abbrev replied : List Message → Result Err Message
replied ms = ok (reply ms)

-- No compaction.
abbrev kept : List Message → Result Err (List Message × Bool)
kept ms = ok (ms, false)

abbrev the_pass : Pass
the_pass = record {
  cancelled = none;
  compact = kept;
  pre_model = [];
  chat = replied;
  alive = true;
  steers_mid_call = [];
  shrink = λ ms sent. kept ms;
  before_finish = [];
  surroundings = surroundings;
  explored = λ calls results. [];
  after_turn_decide = [];
  steers_at_end = [];
}

abbrev options : Options
options = record {
  turn_limit = 3;
  tools = read_tool ∷ [];
  max_parallel_tools = 0;
  normal_args = λ name args. args;
  hash = λ s. s;
  tool_chars = 100;
}

start-IsCounted : IsCounted (start [])
start-IsCounted = record {
  continuations = omega arith;
  cuts = omega arith;
  retries = omega arith;
  barren = omega arith;
}

pass-Advances_example : Advances (interrupts the_pass) (start []) (pass options the_pass (start []))
pass-Advances_example = pass-Advances options the_pass (start []) start-IsCounted

never_steered : (i : ℕ) → 0 ≤ i → interrupts the_pass ≡ 0
unfolding spoken
never_steered i h = refl

run-ends_result :
    (f : Finish) × (run options (λ i. the_pass) 6 [] [] (codes "read the file") ≡ some f)
run-ends_result =
    run-ends options (λ i. the_pass) 0 (omega arith) never_steered 6 [] [] (codes "read the file")
      (omega arith)

run-ends_example :
    (f : Finish) × (run options (λ i. the_pass) 6 [] [] (codes "read the file") ≡ some f)
run-ends_example =
    run-ends options (λ i. the_pass) 0 (omega arith) never_steered 6 [] [] (codes "read the file")
      (omega arith)

reply-no_tool : (ms : List Message) (m : Message) → replied ms ≡ ok m → is_tool m ≡ false
unfolding is_tool str_eq
reply-no_tool [] m e = let same : reply [] ≡ m = cc in rw⁻¹ same refl
reply-no_tool (x ∷ []) m e = let same : reply (x ∷ []) ≡ m = cc in rw⁻¹ same refl
reply-no_tool (x ∷ y ∷ ms) m e = let same : reply (x ∷ y ∷ ms) ≡ m = cc in rw⁻¹ same refl

same-Replayable :
    (ms send : List Message) (did : Bool)
    → kept ms ≡ ok (send, did)
    → Replayable ms
    → Replayable send
same-Replayable ms send did e r = let same : ms ≡ send = cc in subst Replayable same r

the_pass-IsHonest : IsHonest the_pass
the_pass-IsHonest = record {
  compacts = same-Replayable;
  shrinks = λ ms sent. same-Replayable ms;
  replies = reply-no_tool;
  orderly = surroundings-IsOrderly;
}

run-Replays_example : Replayable (Finish.messages run-ends_result.0)
unfolding scan
run-Replays_example =
    run-Replays options (λ i. the_pass) (λ i. the_pass-IsHonest) 6 [] [] (codes "read the file")
      run-ends_result.0 ([], refl) run-ends_result.1

abbrev cut_reply : Message
cut_reply = record (reply (reply [] ∷ [])) { stop_reason = codes "length" }

abbrev reading : Pass
reading = record the_pass { chat = λ ms. ok (reply (reply [] ∷ [])) }

abbrev next_of : Round → Loop
next_of (again l) = l
next_of (stop f) = start []

-- The state behind the first cut reply, and behind a batch of tools that runs next.
abbrev told_once : Loop
told_once = next_turn (told options the_pass (start []) cut_reply)

abbrev worked : Loop
worked = next_of (pass options reading told_once)

on_reply-cut_twice_example :
    (told_once ≡ next_turn (told options the_pass (start []) cut_reply))
    × (on_reply options reading worked cut_reply
        ≡ stop (
            answer
              (told options reading worked cut_reply)
              (record cut_reply { content = visible cut_reply.content })
              (some (err_cut_arguments options (worked.truncated_batches + 1)))))
unfolding truncated str_eq on_reply with_calls cut_batch pass gate call_model run_tools after_tools
on_reply-cut_twice_example =
    on_reply-cut_twice options the_pass reading (reading ∷ []) (start []) told_once worked cut_reply
      cut_reply start-IsCounted refl refl refl (worked, refl, refl) refl refl
