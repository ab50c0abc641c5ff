-- ===== src/Agent/Repair.antt =====
-- internal/agent/repair.go: the placeholder results of the tool calls that were never answered.
pub mod Answers
use mow.Prelude.{
  not, List, [], ◌∷◌, ◌++◌, Option, none, some, if◌then◌else◌, any, Str, codes, str_eq,
}
use mow.Agent.Messages.{ToolCall, Message, tool_role, tool_result}

abbrev orphan_tool_result_prefix : Str
orphan_tool_result_prefix = codes "error: tool call did not complete"

-- The ids of `seen` that the results answer.
unfoldable pub answered : List Message → List Str
answered [] = []
answered (m ∷ ms) =
    let rest = answered ms in if str_eq m.role tool_role then m.tool_call_id ∷ rest else rest

abbrev content_for : Option Str → Str
content_for none = orphan_tool_result_prefix
content_for (some reason) = orphan_tool_result_prefix ++ codes ": " ++ reason

abbrev pub placeholder : Option Str → ToolCall → Message
placeholder reason tc = tool_result tc.id tc.name (content_for reason)

-- The loop over the calls, with the ids seen.
unfoldable pub pads : Option Str → List ToolCall → List Str → List Message
pads reason [] seen = []
pads reason (tc ∷ calls) seen =
    let skip = pads reason calls seen in
    let pad = placeholder reason tc ∷ pads reason calls (tc.id ∷ seen) in
    if any (str_eq tc.id) seen then skip else pad

-- `repairToolResults`.
unfoldable pub repair_tool_results : List ToolCall → List Message → Option Str → List Message
unfolding answered pads
repair_tool_results calls results reason = results ++ pads reason calls (answered results)
