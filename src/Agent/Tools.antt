-- ===== src/Agent/Tools.antt =====
-- internal/agent/loop_tools.go and soft_errors.go: one tool call, from the policy's answer through
-- the hooks to the message that enters the history.
pub mod Exec
pub mod Slots
use mow.Prelude.{
  ℕ, Bool, false, not, ◌&&◌, ◌||◌, List, [], ◌∷◌, ◌++◌, Option, none, some, if◌then◌else◌, Str,
  codes, is_empty, Result, ok, err, ◌>>=◌,
}
use mow.Agent.Messages.{Err, is_done, err_done}

pub record PreToolDecision : Type 0 where
  pub deny : Bool
  pub message : Str
  pub args : Str
  pub rewrite_args : Bool
  pub additional_context : Str
  pub halt : Bool

-- `PreToolFunc`: the name, the arguments and the id of the call.
abbrev pub PreTool : Type 0
PreTool = Str → Str → Str → Result Err PreToolDecision

pub record PostToolEvent : Type 0 where
  pub name : Str
  pub args : Str
  pub tool_call_id : Str
  pub result : Str
  pub denied : Bool
  pub exec_err : Option Err

-- `PostToolFunc`: the result that replaces the one shown, where there is one.
abbrev pub PostTool : Type 0
PostTool = PostToolEvent → Result Err (Option Str)

pub record Hooks : Type 0 where
  pub pre_tool : List PreTool
  pub post_tool : List PostTool

-- `Tool`, with the optional methods that the loop looks for.
pub record Tool : Type 0 where
  pub name : Str
  pub exec : Str → Str × Option Err
  pub untrusted : Bool
  pub sequential : Bool
  pub max_parallel : ℕ
  pub post_batch_context : Str

-- What `ctx.Err()` answers before the call and after `Exec`.
pub record Context : Type 0 where
  pub at_start : Option Err
  pub after_exec : Option Err

-- `runTool`'s variables, once the hooks before the call have run.
pub record Decided : Type 0 where
  pub args : Str
  pub extra : Str
  pub denied : Bool
  pub halt : Bool
  pub deny_msg : Str

abbrev pub undecided : Str → Decided
undecided args = record { args = args; extra = []; denied = false; halt = false; deny_msg = [] }

abbrev joined : Str → Str → Str
joined extra more =
    if is_empty more then extra else if is_empty extra then more else extra ++ codes "\n" ++ more

-- What one decision does.
unfoldable pub decide : PreToolDecision → Decided → Decided
decide d so_far =
    let denies = d.deny || d.halt in
    record {
      args = if d.rewrite_args && not (is_empty d.args) then d.args else so_far.args;
      extra = joined so_far.extra d.additional_context;
      denied = denies || so_far.denied;
      halt = d.halt || so_far.halt;
      deny_msg =
          if denies
          then (if is_empty d.message then codes "denied by hook" else d.message)
          else so_far.deny_msg;
    }

unfoldable pub pre_hooks : List PreTool → Str → Str → Decided → Result Err Decided
unfolding decide
pre_hooks [] name id so_far = ok so_far
pre_hooks (h ∷ hs) name id so_far =
    h name so_far.args id >>= λ d. pre_hooks hs name id (decide d so_far)

unfoldable pub post_hooks : List PostTool → PostToolEvent → Result Err Str
post_hooks [] e = ok e.result
post_hooks (h ∷ hs) e = h e >>= λ d. elim d [
  | none ↦ post_hooks hs e
  | some r ↦ post_hooks hs (record e { result = r })
]

-- The text and the error of a call that ran, or was denied, with the error of `Exec`.
abbrev ran : Str × Option Err → Str × Option Err
ran (out, none) = (out, none)
ran (out, some e) = (if is_done e then out else codes "error: " ++ e.text, some e)

abbrev is_done_error : Option Err → Bool
is_done_error none = false
is_done_error (some e) = is_done e

abbrev with_extra : Str → Str → Str
with_extra extra out = if is_empty extra then out else extra ++ codes "\n" ++ out

abbrev pub denial : Decided → Str
denial d = with_extra d.extra (codes "error: " ++ d.deny_msg)

abbrev pub event_of : Str → Str → Decided → Str → Option Err → PostToolEvent
event_of name id d out exec_err = record {
  name = name;
  args = d.args;
  tool_call_id = id;
  result = out;
  denied = d.denied;
  exec_err = exec_err;
}

-- The end of `runTool`: the hooks after the call, and whether it ends the run.
unfoldable pub close : Hooks → Str → Str → Decided → Str → Option Err → Str × Option Err
unfolding post_hooks is_done
close hooks name id d out exec_err =
    elim (post_hooks hooks.post_tool (event_of name id d out exec_err)) [
      | err e ↦ ([], some e)
      | ok shown ↦ (shown, if is_done_error exec_err || d.halt then some err_done else none)
    ]

-- `runTool` after the hooks before the call.
unfoldable pub perform :
    Context → Tool → Hooks → Str → Str → (Str → Str) → Decided → Str × Option Err
unfolding close is_done
perform ctx tool hooks name id finalize d =
    if d.denied then close hooks name id d (denial d) none else elim ctx.after_exec [
      | some e ↦ ([], some e)
      | none ↦
          let result = ran (tool.exec d.args) in
          close hooks name id d (finalize (with_extra d.extra result.0)) result.1
    ]

-- `runTool`: the text that the model sees, and an error.
unfoldable pub run_tool : Context → Tool → Hooks → Str → Str → Str → (Str → Str) → Str × Option Err
unfolding pre_hooks perform
run_tool ctx tool hooks name id args finalize = elim ctx.at_start [
  | some e ↦ ([], some e)
  | none ↦ elim (pre_hooks hooks.pre_tool name id (undecided args)) [
    | err e ↦ ([], some e)
    | ok d ↦ perform ctx tool hooks name id finalize d
  ]
]
