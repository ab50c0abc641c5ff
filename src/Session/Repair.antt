-- ===== src/Session/Repair.antt =====
-- internal/session/session.go: `repairToolCalls`, which makes a stored history one that can be sent
-- again, and the loaders that use it.
use mow.Prelude.{
  if◌then◌else◌, Bool, true, false, not, ◌&&◌, ◌||◌, List, [], ◌∷◌, ◌++◌, any, Str, codes, str_eq,
  is_empty, trim_space, Result, ok, ◌>>=◌,
}
use mow.Agent.Messages.{ToolCall, Message, is_tool, tool_role, tool_result}
use mow.Session.Log.{Bytes, Library}
use mow.Session.Replay.{Replay, is_headed, materialize, replay_file}

abbrev pub assistant_role : Str
assistant_role = codes "assistant"

-- A call with no id or name, unless it carries a signature.
unfoldable pub is_void : ToolCall → Bool
is_void tc =
    (is_empty (trim_space tc.id) || is_empty (trim_space tc.name))
    && is_empty (trim_space tc.thought_signature)

unfoldable pub clean_call : ToolCall → ToolCall
clean_call tc = record tc {
  id = trim_space tc.id;
  name = trim_space tc.name;
  arguments =
      (if is_empty (trim_space tc.arguments) && is_empty (trim_space tc.thought_signature)
        then codes "{}"
        else tc.arguments);
}

-- The loop over one message's calls, with the ids seen.
unfoldable pub clean_calls : List Str → List ToolCall → List ToolCall
clean_calls seen [] = []
clean_calls seen (tc ∷ calls) =
    let skip = clean_calls seen calls in
    let keep = clean_call tc ∷ clean_calls (trim_space tc.id ∷ seen) calls in
    if is_void tc || any (str_eq (trim_space tc.id)) seen then skip else keep

unfoldable pub call_ids : List ToolCall → List Str
call_ids [] = []
call_ids (tc ∷ calls) = tc.id ∷ call_ids calls

unfoldable pub is_caller : Message → Bool
is_caller m = str_eq m.role assistant_role && (elim m.tool_calls [ [] ↦ false | tc ∷ calls ↦ true ])

unfoldable pub clean_message : Message → Message
clean_message m = if is_caller m then record m { tool_calls = clean_calls [] m.tool_calls } else m

-- A result whose id no call before it has.
unfoldable pub is_orphan : List Str → Message → Bool
is_orphan valid m =
    str_eq m.role tool_role
    && not (is_empty m.tool_call_id)
    && not (any (str_eq m.tool_call_id) valid)

-- The valid ids after a message.
unfoldable pub valid_after : List Str → Message → List Str
valid_after valid m = if is_caller m then call_ids (clean_calls [] m.tool_calls) ++ valid else valid

-- The first loop.
unfoldable pub clean : List Str → List Message → List Message
clean valid [] = []
clean valid (m ∷ ms) =
    let rest = clean (valid_after valid m) ms in
    if is_orphan (valid_after valid m) m then rest else clean_message m ∷ rest

abbrev pub interrupted : Str
interrupted = codes "error: interrupted before a result was recorded (run cancelled or failed)"

-- Results for the calls that are not answered.
unfoldable pub gaps : List Str → List ToolCall → List Message
gaps answered [] = []
gaps answered (tc ∷ calls) =
    let rest = gaps answered calls in
    if is_empty tc.id || any (str_eq tc.id) answered
    then rest
    else tool_result tc.id tc.name interrupted ∷ rest

-- The second loop: `calls` are those of the last message that called, while its results follow, and
-- `answered` the ids of these results.
unfoldable pub fill : List ToolCall → List Str → List Message → List Message
fill calls answered [] = gaps answered calls
fill calls answered (m ∷ ms) =
    let more = m ∷ fill calls (m.tool_call_id ∷ answered) ms in
    let next = gaps answered calls ++ (m ∷ fill m.tool_calls [] ms) in
    let other = gaps answered calls ++ (m ∷ fill [] [] ms) in
    if is_tool m then more else if is_caller m then next else other

-- `repairToolCalls`.
unfoldable pub repair_tool_calls : List Message → List Message
repair_tool_calls msgs = fill [] [] (clean [] msgs)

-- What is returned at the end of `LoadMessages`.
unfoldable pub loaded : Replay → List Message
loaded r = if is_headed r.snapshot then repair_tool_calls r.snapshot else r.simple

-- `LoadMessages`.
unfoldable pub load_messages : Library → Bytes → Result Str (List Message)
load_messages lib file =
    replay_file lib file >>= (λ r. materialize lib r >>= (λ full. ok (loaded full)))
