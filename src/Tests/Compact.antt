-- ===== src/Tests/Compact.antt =====
-- A history of two turns, compacted to almost nothing, and a streak of six reads.
use mow.Prelude.{
  ◌+◌, ◌≤◌, ◌≡◌, ◌⊎◌, replicate, arith, refl, true, false, List, [], ◌∷◌, some, codes, str_eq,
}
use mow.Agent.Messages.{ToolCall, Message, plain, system_role, user_role, tool_result, is_tool}
use mow.Agent.History.{Replayable, scan}
use mow.Agent.Truncate.{cut_keeping_frame}
use mow.Agent.Compact.{Texts, compact_tiered, apply_compact}
use mow.Agent.Explore.{Batch, fresh, hints}
use mow.Agent.Explore.Hints.{IsStreak, explorations, hints-once}
use mow.Agent.Compact.Replay.{IsHeaded, apply_compact-Replayable}

abbrev texts : Texts
texts = record {
  collect_user_pins = λ all kept max_chars. [];
  format_task_anchor = λ pins. [];
  default_compact_stub = λ dropped kept pins. codes "[context compacted]";
  compact_snippet = λ s n. s;
}

abbrev bash_call : ToolCall
bash_call = record {
  id = codes "7";
  name = codes "bash";
  arguments = codes "{}";
  thought_signature = [];
}

abbrev history : List Message
history =
    plain system_role false (codes "You are a helpful agent, and this is a long prompt.")
    ∷ plain user_role false (codes "a first request that is long enough to be worth dropping")
    ∷ plain (codes "assistant") false (codes "a long answer to it, which is worth dropping as well")
    ∷ plain user_role false (codes "a second request that is long enough to be worth dropping")
    ∷ record (plain (codes "assistant") false []) { tool_calls = bash_call ∷ [] }
    ∷ tool_result (codes "7") (codes "bash") (codes "ok")
    ∷ plain user_role false (codes "go on")
    ∷ []

history-IsHeaded : IsHeaded history
history-IsHeaded = λ s. refl

history-Replayable : Replayable history
unfolding scan is_tool str_eq
history-Replayable = ([], refl)

apply_compact-Replayable_example : Replayable (compact_tiered texts history 40 [] 1000)
unfolding apply_compact cut_keeping_frame
apply_compact-Replayable_example =
    apply_compact-Replayable texts [] 1000 (some 40) history
      (compact_tiered texts history 40 [] 1000) true history-IsHeaded history-Replayable refl

abbrev read_batch : Batch
read_batch = record { now = 10; explored = 1; novel = 1; productive = false }

abbrev six_reads : List Batch
six_reads = replicate 6 read_batch

six_reads-IsStreak : IsStreak six_reads
six_reads-IsStreak = (refl, (refl, (refl, (refl, (refl, (refl, tt))))))

hints-once_example :
    (hints (fresh 0) six_reads ≤ 1)
    × ((hints (fresh 0) six_reads ≡ 1) ⊎ (0 + explorations six_reads ≤ 5))
hints-once_example = hints-once (fresh 0) six_reads refl (omega arith) six_reads-IsStreak
