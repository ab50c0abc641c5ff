-- ===== src/Tests/Agent.antt =====
-- A batch of two calls, one of them answered, a history with one message rewritten, and a reply with
-- inline thinking.
use mow.Prelude.{
  ℕ, ◌≡◌, ◌↔◌, true, All, List, [], ◌∷◌, ◌++◌, any, none, some, take, length, Str, codes, str_eq,
  trim_space, has_prefix, refl,
}
use mow.Agent.Messages.{ToolCall, Message, tool_result}
use mow.Agent.Think.{
  visible, extract, earliest_think_open, index_close_tag, closing_fence, index_of, first_line,
  ends_dark, ascii_lower,
}
use mow.Agent.Repair.{answered, repair_tool_results}
use mow.Agent.Repair.Answers.{Has, Fresh, IsAnswer, repair_tool_results-answers}
use mow.Agent.Drift.{Sent, DriftReport, note}
use mow.Agent.Drift.Prefix.{hashes, IsFirst, note-reports}

abbrev calls : List ToolCall
calls =
    record { id = codes "1"; name = codes "read"; arguments = []; thought_signature = [] }
    ∷ record { id = codes "2"; name = codes "bash"; arguments = []; thought_signature = [] }
    ∷ []

abbrev results : List Message
results = tool_result (codes "1") (codes "read") (codes "x") ∷ []

repair_tool_results-answers_example :
    ((id : Str)
      → any (λ tc. str_eq id (ToolCall.id tc)) calls ≡ true
      → Has id (answered (repair_tool_results calls results none)))
    × ((added : List Message) × (repair_tool_results calls results none ≡ results ++ added)
        × All (IsAnswer none calls) added
        × Fresh (answered results) (answered added))
repair_tool_results-answers_example = repair_tool_results-answers none calls results

abbrev sent : ℕ → Sent
sent h = record { hash = h; chars = 10; role = codes "user"; name = [] }

abbrev before : List Sent
before = sent 1 ∷ sent 2 ∷ []

abbrev now : List Sent
now = sent 1 ∷ sent 5 ∷ sent 3 ∷ []

note-reports_example :
    (((note 4 (some before) now).0 ≡ none)
      ↔ (take (length now) (hashes before) ≡ take (length before) (hashes now)))
    × ((d : DriftReport) → (note 4 (some before) now).0 ≡ some d → IsFirst before now 0 d)
note-reports_example = note-reports 4 before now

abbrev sample : Str
sample = codes "Look.<think>hidden</think>Now ```think\nmore\n```\ndone <Thought>cut"

visible-sample : visible sample ≡ codes "Look. Now done"
unfolding visible extract earliest_think_open index_close_tag closing_fence index_of first_line
    trim_space has_prefix ends_dark ascii_lower str_eq
visible-sample = refl
