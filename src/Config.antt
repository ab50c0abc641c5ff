-- ===== src/Config.antt =====
-- internal/config/config.go and provider.go: the configuration, its data and defaults.
use mow.Prelude.{ℤ, pos, Bool, false, Option, none, List, [], ◌∷◌, Str, codes}
pub mod Merge
pub mod Project
pub mod Kept
pub mod Power

-- `LLMProviderProfile`.
pub record Profile : Type 0 where
  pub base_url : Str
  pub api_key : Str
  pub api_key_env : Str
  pub wire : Str
  pub headers : List (Str × Str)
  pub model : Str

-- `LLMConfig`. A price is only copied and compared with 0, so it is a whole number here.
pub record Llm : Type 0 where
  pub wire : Str
  pub wire_explicit : Bool
  pub base_url : Str
  pub api_key : Str
  pub api_key_env : Str
  pub model : Str
  pub effort : Str
  pub headers : List (Str × Str)
  pub stream : Bool
  pub max_tokens : ℤ
  pub prompt_cache : Option Str
  pub native_tools : List Str
  pub system_prefix : List Str
  pub system_prefix_models : List Str
  pub first_byte_timeout_sec : ℤ
  pub call_timeout_sec : ℤ
  pub context_window : ℤ
  pub input_price : ℤ
  pub output_price : ℤ
  pub provider : Str
  pub providers : List (Str × Profile)

pub record Tools : Type 0 where
  pub enable : List Str
  pub write : Bool
  pub shell : Bool
  pub hashline : Bool

pub record Policy : Type 0 where
  pub max_turns : ℤ
  pub bash_timeout_sec : ℤ
  pub max_bash_timeout_sec : ℤ
  pub sandbox : Str
  pub max_read_bytes : ℤ
  pub max_tool_result_chars : ℤ
  pub compact_at_tokens : ℤ
  pub compact_summary : Bool
  pub max_run_tokens : ℤ
  pub max_run_usd : ℤ
  pub max_parallel_tools : ℤ
  pub extra_roots : List Str
  pub extra_roots_read_only : List Str
  pub env_passthrough : List Str

pub record Skills : Type 0 where
  pub dirs : List Str
  pub selector : Option Bool
  pub explicit : List Str

-- `File`; the section of an extension is a text, empty for an empty node.
pub record File : Type 0 where
  pub workspace : Str
  pub llm : Llm
  pub tools : Tools
  pub policy : Policy
  pub session_dir : Str
  pub skills : Skills
  pub extensions : List (Str × Str)
  pub warnings : List Str

abbrev pub no_llm : Llm
no_llm = record {
  wire = [];
  wire_explicit = false;
  base_url = [];
  api_key = [];
  api_key_env = [];
  model = [];
  effort = [];
  headers = [];
  stream = false;
  max_tokens = pos 0;
  prompt_cache = none;
  native_tools = [];
  system_prefix = [];
  system_prefix_models = [];
  first_byte_timeout_sec = pos 0;
  call_timeout_sec = pos 0;
  context_window = pos 0;
  input_price = pos 0;
  output_price = pos 0;
  provider = [];
  providers = [];
}

-- `defaults`.
abbrev pub defaults : File
defaults = record {
  workspace = codes ".";
  llm = record no_llm {
    wire = codes "openai-chat-completions";
    api_key_env = codes "OPENAI_API_KEY";
  };
  tools = record {
    enable = codes "read" ∷ codes "glob" ∷ codes "grep" ∷ [];
    write = false;
    shell = false;
    hashline = false;
  };
  policy = record {
    max_turns = pos 0;
    bash_timeout_sec = pos 300;
    max_bash_timeout_sec = pos 900;
    sandbox = [];
    max_read_bytes = pos 524288;
    max_tool_result_chars = pos 24000;
    compact_at_tokens = pos 400000;
    compact_summary = false;
    max_run_tokens = pos 0;
    max_run_usd = pos 0;
    max_parallel_tools = pos 8;
    extra_roots = [];
    extra_roots_read_only = [];
    env_passthrough = [];
  };
  session_dir = [];
  skills = record { dirs = []; selector = none; explicit = [] };
  extensions = [];
  warnings = [];
}
