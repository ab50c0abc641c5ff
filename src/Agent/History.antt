-- ===== src/Agent/History.antt =====
-- What a provider asks of a history, as the comments of internal/agent/loop.go and repair.go have
-- it: each tool call is answered before the next message that is no tool result, and each tool
-- result answers a call of the message before it.
pub mod Blocks
use mow.Prelude.{
  Bool, true, false, List, [], ◌∷◌, Option, none, some, ◌≡◌, if◌then◌else◌, any, Str, str_eq,
}
use mow.Agent.Messages.{ToolCall, Message, is_tool}

abbrev pub ids_of : List ToolCall → List Str
ids_of [] = []
ids_of (tc ∷ calls) = tc.id ∷ ids_of calls

unfoldable pub without : Str → List Str → List Str
unfolding str_eq
without id [] = []
without id (x ∷ xs) = let rest = without id xs in if str_eq x id then rest else x ∷ rest

-- Whether every list of calls is answered.
abbrev pub is_nil : List Str → Bool
is_nil [] = true
is_nil (x ∷ xs) = false

-- Reads a history with the ids of the last message's calls, and those still open.
unfoldable pub scan : List Str → List Str → List Message → Option (List Str × List Str)
unfolding is_tool without str_eq
scan ids left [] = some (ids, left)
scan ids left (m ∷ ms) =
    let answer = scan ids (without m.tool_call_id left) ms in
    let next = scan (ids_of m.tool_calls) (ids_of m.tool_calls) ms in
    if is_tool m
    then (if any (str_eq m.tool_call_id) ids then answer else none)
    else if is_nil left
    then next
    else none

-- The history can be sent again.
abbrev pub Replayable : List Message → Type 0
Replayable ms = (ids : List Str) × (scan [] [] ms ≡ some (ids, []))

-- The messages can follow any such history, and the whole is one again.
abbrev pub IsBlock : List Message → Type 0
IsBlock ms = (ids : List Str) → (ids' : List Str) × (scan ids [] ms ≡ some (ids', []))
