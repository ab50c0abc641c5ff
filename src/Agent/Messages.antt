-- ===== src/Agent/Messages.antt =====
-- internal/llm/openai.go: the messages of a history, cut down to what the tool loop reads, and the
-- errors of internal/agent. A `Message` has no Parts, ProviderCalls or Reasoning here, and a
-- `ToolCall` no Type or ItemID: the loop passes them on, and reads only the Parts, where it
-- counts characters.
use mow.Prelude.{ℕ, ◌+◌, Bool, true, false, ◌||◌, List, [], Str, codes, str_eq}

pub record ToolCall : Type 0 where
  pub id : Str
  pub name : Str
  pub arguments : Str
  pub thought_signature : Str

pub record Usage : Type 0 where
  pub input_tokens : ℕ
  pub output_tokens : ℕ
  pub cached_input_tokens : ℕ
  pub cache_write_input_tokens : ℕ
  pub sources_used : ℕ
  pub server_side_tool_calls : ℕ

abbrev pub no_usage : Usage
no_usage = record {
  input_tokens = 0;
  output_tokens = 0;
  cached_input_tokens = 0;
  cache_write_input_tokens = 0;
  sources_used = 0;
  server_side_tool_calls = 0;
}

-- `Usage.Add`.
abbrev pub add : Usage → Usage → Usage
add u o = record {
  input_tokens = u.input_tokens + o.input_tokens;
  output_tokens = u.output_tokens + o.output_tokens;
  cached_input_tokens = u.cached_input_tokens + o.cached_input_tokens;
  cache_write_input_tokens = u.cache_write_input_tokens + o.cache_write_input_tokens;
  sources_used = u.sources_used + o.sources_used;
  server_side_tool_calls = u.server_side_tool_calls + o.server_side_tool_calls;
}

pub record Message : Type 0 where
  pub role : Str
  pub content : Str
  pub tool_calls : List ToolCall
  pub tool_call_id : Str
  pub name : Str
  pub synthetic : Bool
  pub stop_reason : Str
  pub usage : Usage

abbrev pub tool_role : Str
tool_role = codes "tool"

abbrev pub user_role : Str
user_role = codes "user"

abbrev pub system_role : Str
system_role = codes "system"

unfoldable pub is_tool : Message → Bool
is_tool m = str_eq m.role tool_role

-- A message of a role with a text and nothing else.
abbrev pub plain : Str → Bool → Str → Message
plain role synthetic content = record {
  role = role;
  content = content;
  tool_calls = [];
  tool_call_id = [];
  name = [];
  synthetic = synthetic;
  stop_reason = [];
  usage = no_usage;
}

-- A tool result.
abbrev pub tool_result : Str → Str → Str → Message
tool_result id name content = record (plain tool_role false content) {
  tool_call_id = id;
  name = name;
}

-- `Message.Truncated`.
unfoldable pub truncated : Message → Bool
truncated m = str_eq m.stop_reason (codes "max_tokens") || str_eq m.stop_reason (codes "length")

-- What `errors.Is` finds in an error: one of the loop's own values, the context's, or neither.
pub data ErrKind : Type 0 where
  done : ErrKind
  stuck : ErrKind
  reply_truncated : ErrKind
  budget : ErrKind
  max_turns : ErrKind
  canceled : ErrKind
  other : ErrKind

pub record Err : Type 0 where
  pub kind : ErrKind
  pub text : Str

unfoldable pub is_done : Err → Bool
is_done e = elim e.kind [ done ↦ true | _ ↦ false ]

unfoldable pub is_canceled : Err → Bool
is_canceled e = elim e.kind [ canceled ↦ true | _ ↦ false ]

abbrev pub err_done : Err
err_done = record { kind = done; text = codes "agent: done" }

abbrev pub failure : Str → Err
failure text = record { kind = other; text = text }
