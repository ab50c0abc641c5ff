-- ===== src/Agent/Loop.antt =====
-- internal/agent/loop.go, finish.go, overflow.go and repeat.go: the state of `Run` and what one pass
-- of its loop consults.
pub mod Turn
pub mod Passes
pub mod Run
pub mod Turned
pub mod Bounds
pub mod Total
pub mod Cuts
pub mod Replay
pub mod Histories
use mow.Prelude.{
  ℕ, ◌+◌, Bool, true, List, [], ◌∷◌, ◌++◌, Option, none, some, leb, if◌then◌else◌, length, any, all,
  Str, codes, str_eq, trim_space, to_lower, contains, is_empty, Result, ok, ◌>>=◌,
}
use mow.Agent.Messages.{ToolCall, Usage, Message, plain, user_role, Err}
use mow.Agent.Tools.{Tool}
use mow.Agent.Batch.{Surroundings}

-- The options that a run does not change, with the functions that it applies to texts:
-- `normal_args` is `normalizeArgsFP`, `hash` is SHA-256; `tool_chars` is the size of the tools'
-- definitions, and `turn_limit` 0 where there is no limit.
pub record Options : Type 0 where
  pub turn_limit : ℕ
  pub tools : List Tool
  pub max_parallel_tools : ℕ
  pub normal_args : Str → Str → Str
  pub hash : Str → Str
  pub tool_chars : ℕ

pub record PreModelEvent : Type 0 where
  pub turn : ℕ
  pub usage : Usage
  pub sent_chars : ℕ

-- What one pass meets. `compact` is `applyCompact`, and `shrink` the same with half of what was
-- sent as its limit; a decision of `pre_model` is the reason to stop, where there is one; `alive`
-- says that the run's context is not cancelled when a call has failed; the steers are those that
-- the host hands over after a cancelled call and at the turn's end; `explored` is the hint of the
-- exploration guard, empty where it has none.
pub record Pass : Type 0 where
  pub cancelled : Option Err
  pub compact : List Message → Result Err (List Message × Bool)
  pub pre_model : List (PreModelEvent → Result Err (Option Str))
  pub chat : List Message → Result Err Message
  pub alive : Bool
  pub steers_mid_call : List Str
  pub shrink : List Message → List Message → Result Err (List Message × Bool)
  pub before_finish : List (Str → ℕ → Result Err Str)
  pub surroundings : Surroundings
  pub explored : List ToolCall → List Message → Str
  pub after_turn_decide : List (Str → Result Err Str)
  pub steers_at_end : List Str

-- The variables of `Run`.
pub record Loop : Type 0 where
  pub turn : ℕ
  pub messages : List Message
  pub usage : Usage
  pub last_input_tokens : ℕ
  pub last_tool_fp : Str
  pub same_tool_fp : ℕ
  pub seen : List Str
  pub barren_runs : ℕ
  pub truncated_batches : ℕ
  pub finish_continuations : ℕ
  pub overflow_retries : ℕ

-- `Result`, with the error.
pub record Finish : Type 0 where
  pub text : Str
  pub messages : List Message
  pub usage : Usage
  pub stop_reason : Str
  pub error : Option Err

pub data Round : Type 0 where
  stop : Finish → Round
  again : Loop → Round

-- `Result{Messages: messages, Usage: usage}, err`.
abbrev pub failed : Loop → Err → Finish
failed l e = record {
  text = [];
  messages = l.messages;
  usage = l.usage;
  stop_reason = [];
  error = some e;
}

-- The result whose text is that of the last reply.
abbrev pub answer : Loop → Message → Option Err → Finish
answer l m e = record {
  text = trim_space m.content;
  messages = l.messages;
  usage = l.usage;
  stop_reason = m.stop_reason;
  error = e;
}

abbrev pub add_messages : Loop → List Message → Loop
add_messages l ms = record l { messages = l.messages ++ ms }

abbrev pub next_turn : Loop → Loop
next_turn l = record l { turn = l.turn + 1 }

-- A synthetic user message.
abbrev pub nudge : Str → Message
nudge = plain user_role true

-- The limits.
abbrev pub max_finish_continuations : ℕ
max_finish_continuations = 8

abbrev pub max_overflow_retries : ℕ
max_overflow_retries = 2

abbrev pub max_truncated_batches : ℕ
max_truncated_batches = 2

abbrev pub same_tool_warn_after : ℕ
same_tool_warn_after = 3

abbrev pub stall_barren_batches : ℕ
stall_barren_batches = 20

abbrev pub stall_delegate_batches : ℕ
stall_delegate_batches = 3

-- `stallLimit`.
unfoldable pub stall_limit : List ToolCall → ℕ
unfolding str_eq
stall_limit [] = stall_barren_batches
stall_limit (tc ∷ calls) =
    if all (λ c. str_eq (ToolCall.name c) (codes "delegate")) (tc ∷ calls)
    then stall_delegate_batches
    else stall_barren_batches

abbrev context_overflow_markers : List Str
context_overflow_markers =
    codes "context_length_exceeded"
    ∷ codes "maximum context length"
    ∷ codes "context length"
    ∷ codes "context window"
    ∷ codes "prompt is too long"
    ∷ codes "input is too long"
    ∷ codes "too many tokens"
    ∷ codes "exceeds the context"
    ∷ codes "request too large"
    ∷ []

-- `IsContextOverflow`.
unfoldable pub is_context_overflow : Err → Bool
unfolding contains to_lower
is_context_overflow e = any (contains (to_lower e.text)) context_overflow_markers

unfoldable pub calls_chars : List ToolCall → ℕ
calls_chars [] = 0
calls_chars (tc ∷ calls) = length tc.name + length tc.arguments + calls_chars calls

-- `EstChars`, on messages without parts.
unfoldable pub est_chars : List Message → ℕ
unfolding calls_chars
est_chars [] = 0
est_chars (m ∷ ms) = length m.content + length m.role + 8 + calls_chars m.tool_calls + est_chars ms

-- Two texts with a blank line between them, where both are there.
abbrev pub paragraphs : Str → Str → Str
paragraphs s t = if is_empty t then s else if is_empty s then t else s ++ codes "\n\n" ++ t

-- The loop of `beforeFinish`, from the text of the hooks before.
unfoldable pub ask_hooks : List (Str → ℕ → Result Err Str) → Str → ℕ → Str → Result Err Str
ask_hooks [] text continuations out = ok out
ask_hooks (h ∷ hs) text continuations out =
    h text continuations >>= λ more. ask_hooks hs text continuations (paragraphs out more)

-- `beforeFinish`.
unfoldable pub before_finish : List (Str → ℕ → Result Err Str) → Str → ℕ → Result Err Str
unfolding ask_hooks
before_finish hooks text continuations =
    if leb max_finish_continuations continuations
    then ok []
    else ask_hooks hooks text continuations []

-- The loop over `Hooks.AfterTurnDecide`.
unfoldable pub decide_hooks : List (Str → Result Err Str) → Str → Str → Result Err Str
decide_hooks [] text inject = ok inject
decide_hooks (h ∷ hs) text inject = h text >>= λ more. decide_hooks hs text (paragraphs inject more)

-- The loop over `Hooks.PreModel`: the first reason to stop.
unfoldable pub pre_model_hooks :
    List (PreModelEvent → Result Err (Option Str)) → PreModelEvent → Result Err (Option Str)
pre_model_hooks [] e = ok none
pre_model_hooks (h ∷ hs) e =
    h e >>= λ d. elim d [ some reason ↦ ok (some reason) | none ↦ pre_model_hooks hs e ]

-- The steers that are not blank.
unfoldable pub spoken : List Str → List Str
unfolding trim_space
spoken [] = []
spoken (s ∷ ss) = let rest = spoken ss in if is_empty (trim_space s) then rest else s ∷ rest

-- `toolCallFingerprint`.
unfoldable pub fingerprint : (Str → Str → Str) → List ToolCall → Str
fingerprint normal_args [] = []
fingerprint normal_args (tc ∷ []) = tc.name ++ codes "=" ++ normal_args tc.name tc.arguments
fingerprint normal_args (tc ∷ d ∷ calls) =
    tc.name
    ++ codes "="
    ++ normal_args tc.name tc.arguments
    ++ codes "|"
    ++ fingerprint normal_args (d ∷ calls)
