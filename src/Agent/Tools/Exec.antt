-- ===== src/Agent/Tools/Exec.antt =====
-- internal/agent/loop_tools.go, soft_errors.go and untrusted.go: the slot of one tool call.
use mow.Prelude.{
  ℕ, zero, suc, ◌-◌, max, Bool, true, false, not, ◌&&◌, ◌||◌, List, [], ◌∷◌, ◌++◌, Option, none,
  some, leb, if◌then◌else◌, length, Str, codes, str_eq, trim_space, to_lower, is_empty, has_prefix,
  ok,
}
use mow.Agent.Messages.{ToolCall, Message, tool_result, Err, is_done, failure}
use mow.Agent.Truncate.{
  truncated_marker, truncate_tool_result, truncate_tool_result_spilled, untrusted_close, has_suffix,
}
use mow.Agent.Tools.{Hooks, Tool, PreTool, Context, run_tool}

-- `toolSlot`: a message, with whether the tool asked for the end, or a hard error.
pub data ToolSlot : Type 0 where
  soft : Message → Bool → ToolSlot
  hard : Err → ToolSlot

unfoldable pub is_soft : ToolSlot → Bool
is_soft (soft m d) = true
is_soft (hard e) = false

-- `softErrorTool`.
abbrev pub soft_error_tool : Str → Str → Tool
soft_error_tool name message = record {
  name = name;
  exec = λ args. ([], some (failure message));
  untrusted = false;
  sequential = false;
  max_parallel = 0;
  post_batch_context = [];
}

abbrev pub arguments_of : ToolCall → Str
arguments_of tc = if is_empty tc.arguments then codes "{}" else tc.arguments

-- The slot of `runPolicyDenied` and `runUnknownTool`: any error is hard.
unfoldable pub denied_slot : ToolCall → Str × Option Err → ToolSlot
denied_slot tc (out, some e) = hard e
denied_slot tc (out, none) = soft (tool_result tc.id tc.name out) false

-- The slot of `execOneTool`: `ErrDone` comes with the tool's result.
unfoldable pub exec_slot : ToolCall → Str × Option Err → ToolSlot
unfolding is_done
exec_slot tc (out, none) = soft (tool_result tc.id tc.name out) false
exec_slot tc (out, some e) = if is_done e then soft (tool_result tc.id tc.name out) true else hard e

abbrev pub policy_hook : Err → PreTool
policy_hook e name args id = ok (record {
  deny = true;
  message = e.text;
  args = [];
  rewrite_args = false;
  additional_context = [];
  halt = false;
})

-- `untrustedSource`.
abbrev pub untrusted_source : Tool → Str → Bool
untrusted_source tool name =
    let plain_name = to_lower (trim_space name) in
    tool.untrusted || str_eq plain_name (codes "bash") || str_eq plain_name (codes "delegate")

-- The last tool of the name, as the map of `Run` has it.
unfoldable pub find_tool : List Tool → Str → Option Tool
unfolding str_eq
find_tool [] name = none
find_tool (t ∷ ts) name = elim (find_tool ts name) [
  | some u ↦ some u
  | none ↦ if str_eq t.name name then some t else none
]

-- `strings.ReplaceAll`, with the characters of the last match still to pass over.
unfoldable pub replace_from : Str → Str → ℕ → Str → Str
unfolding has_prefix
replace_from old new skip [] = []
replace_from old new (suc skip) (c ∷ s) = replace_from old new skip s
replace_from old new zero (c ∷ s) =
    let matched = replace_from old new (length old - 1) s in
    let other = replace_from old new 0 s in
    if has_prefix (c ∷ s) old then new ++ matched else c ∷ other

module _ (quote : Str → Str) (spill : Str → Str → Str) where
  -- `WrapUntrusted`; `quote` is `%q`.
  unfoldable pub wrap_untrusted : Str → Str → Str → Str
  unfolding replace_from has_suffix
  wrap_untrusted nonce source body =
      let inner = replace_from untrusted_close (codes "<\\untrusted-output>") 0 body in
      codes "<untrusted-output source="
      ++ quote source
      ++ (if is_empty nonce then [] else codes " nonce=" ++ quote nonce)
      ++ codes ">\n"
      ++ inner
      ++ (if is_empty inner || not (has_suffix inner (codes "\n")) then codes "\n" else [])
      ++ untrusted_close

  -- The cap and the frame of `execOneTool`; `spill` is `spillToolResult`, with the empty path
  -- where nothing was written.
  unfoldable pub finalize : Str → ℕ → Tool → Str → Str → Str
  unfolding wrap_untrusted
  finalize nonce limit tool name s =
      let framed = untrusted_source tool name in
      let lim =
        if framed
        then max (limit - length (wrap_untrusted nonce name []) - length truncated_marker - 1) 1
        else limit in
      let path = spill name s in
      let cut =
        if leb (length s) lim
        then s
        else if is_empty path
        then truncate_tool_result s lim
        else truncate_tool_result_spilled s lim path in
      if framed && not (is_empty cut) then wrap_untrusted nonce name cut else cut

  -- `execOneTool`; `allow` is `AllowTool`, which answers an error for a tool that it refuses.
  unfoldable pub exec_one_tool :
      (Str → Option Err) → List Tool → Hooks → Str → ℕ → Context → ToolCall → ToolSlot
  unfolding run_tool exec_slot denied_slot find_tool finalize
  exec_one_tool allow tools hooks nonce limit ctx tc =
      let unknown = soft_error_tool tc.name (codes "unknown tool " ++ quote tc.name) in
      let cap : Str → Str = λ s. truncate_tool_result s limit in
      elim (allow tc.name) [
        | some e ↦
            let tool : Tool = elim (find_tool tools tc.name) [
              | some t ↦ t
              | none ↦ soft_error_tool tc.name []
            ] in
            denied_slot tc (
              run_tool ctx tool (record hooks { pre_tool = policy_hook e ∷ hooks.pre_tool }) tc.name
                tc.id (arguments_of tc) cap)
        | none ↦ elim (find_tool tools tc.name) [
          | none ↦ denied_slot tc (run_tool ctx unknown hooks tc.name tc.id (arguments_of tc) cap)
          | some tool ↦ exec_slot tc (
              run_tool ctx tool hooks tc.name tc.id (arguments_of tc)
                (finalize nonce limit tool tc.name))
        ]
      ]
