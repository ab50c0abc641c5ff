-- ===== src/Agent/Tools/Slots.antt =====
-- What one tool call leaves: a result of its own, or an error that the loop repairs.
use mow.Prelude.{
  ℕ, ◌≡◌, refl, inl, inr, true, false, List, [], Option, none, some, Str, Option-cases, Bool-cases,
  str_eq,
}
use mow.Agent.Messages.{ToolCall, is_tool, Err, is_done}
use mow.Agent.Tools.{Hooks, Tool, Context}
use mow.Agent.Tools.Exec.{ToolSlot, soft, hard, denied_slot, exec_slot, find_tool, exec_one_tool}

-- A message that the slot holds.
abbrev pub Holds : ToolCall → ToolSlot → Type 0
Holds tc (soft m d) =
    (is_tool m ≡ true) × (m.tool_call_id ≡ tc.id) × (m.name ≡ tc.name) × (m.tool_calls ≡ [])
Holds tc (hard e) = Unit

-- An error of the slot is no end of the run.
abbrev pub Fails : ToolSlot → Type 0
Fails (soft m d) = Unit
Fails (hard e) = is_done e ≡ false

denied_slot-Holds : (tc : ToolCall) (r : Str × Option Err) → Holds tc (denied_slot tc r)
unfolding denied_slot is_tool str_eq
denied_slot-Holds tc (out, none) = (refl, refl, refl, refl)
denied_slot-Holds tc (out, some e) = tt

exec_slot-Holds : (tc : ToolCall) (r : Str × Option Err) → Holds tc (exec_slot tc r)
unfolding exec_slot is_tool str_eq
exec_slot-Holds tc (out, none) = (refl, refl, refl, refl)
exec_slot-Holds tc (out, some e) = elim (Bool-cases (is_done e)) [
  | inl d ↦ rw d (refl, refl, refl, refl)
  | inr d ↦ rw d tt
]

exec_slot-Fails : (tc : ToolCall) (r : Str × Option Err) → Fails (exec_slot tc r)
unfolding exec_slot
exec_slot-Fails tc (out, none) = tt
exec_slot-Fails tc (out, some e) = elim (Bool-cases (is_done e)) [
  | inl d ↦ rw d tt
  | inr d ↦ rw d d
]

-- What is kept of an answer to the policy, and to the search for the tool: where the tool may run,
-- the slot ends no run by an error.
abbrev pub Keeps : Option Err → Option Tool → ToolSlot → Type 0
Keeps none (some tool) s = Fails s
Keeps _ _ s = Unit

module _ (quote : Str → Str) (spill : Str → Str → Str) (allow : Str → Option Err)
    (tools : List Tool) (hooks : Hooks) (nonce : Str) (limit : ℕ) (ctx : Context)
    (tc : ToolCall) where
  -- However the policy, the hooks and the tool answer, `execOneTool` leaves either a tool result with
  -- the id and the name of its call and no calls of its own, or a hard error. Where the policy
  -- allows the call and there is a tool of that name, the error is not `ErrDone`: a halt then
  -- leaves a result.
  pub exec_one_tool-slots :
      Holds tc (exec_one_tool quote spill allow tools hooks nonce limit ctx tc)
      × Keeps
          (allow tc.name)
          (find_tool tools tc.name)
          (exec_one_tool quote spill allow tools hooks nonce limit ctx tc)
  unfolding exec_one_tool
  exec_one_tool-slots = elim (Option-cases (allow tc.name)) [
    | inr (e, a) ↦ rw (a, exec_one_tool) (denied_slot-Holds tc _, tt)
    | inl a ↦ elim (Option-cases (find_tool tools tc.name)) [
      | inl f ↦ rw (a, f, exec_one_tool) (denied_slot-Holds tc _, tt)
      | inr (t, f) ↦ rw (a, f, exec_one_tool) (exec_slot-Holds tc _, exec_slot-Fails tc _)
    ]
  ]
