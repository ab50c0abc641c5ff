-- ===== src/Config/Merge.antt =====
-- internal/config/config.go and provider.go: `mergeOverlay`, which lays one configuration over
-- another.
use mow.Prelude.{
  ℤ, pos, is_positive, is_negative, if◌then◌else◌, any, not, ◌||◌, Option, none, some, List, [],
  ◌∷◌, ◌++◌, Str, str_eq, is_empty, trim_space,
}
use mow.Config.{Profile, Llm, Tools, Policy, Skills, File}

-- The loop of `mergeStringList`, with the texts seen.
unfoldable pub add_unique : List Str → List Str → List Str
add_unique seen [] = []
add_unique seen (s ∷ rest) =
    let t = trim_space s in
    let skip = add_unique seen rest in
    let keep = t ∷ add_unique (t ∷ seen) rest in
    if is_empty t || any (str_eq t) seen then skip else keep

-- `mergeStringList`.
unfoldable pub merge_string_list : List Str → List Str → List Str
merge_string_list base add = add_unique [] (base ++ add)

-- `m[k] = v`.
unfoldable pub put {ℓ} : {A : Type ℓ} → Str → A → List (Str × A) → List (Str × A)
put k v [] = (k, v) ∷ []
put k v ((j, w) ∷ rest) =
    let more = put k v rest in if str_eq k j then (k, v) ∷ rest else (j, w) ∷ more

-- `maps.Copy`.
unfoldable pub put_all {ℓ} : {A : Type ℓ} → List (Str × A) → List (Str × A) → List (Str × A)
put_all [] dst = dst
put_all ((k, v) ∷ rest) dst = put_all rest (put k v dst)

unfoldable pub put_providers : List (Str × Profile) → List (Str × Profile) → List (Str × Profile)
put_providers [] dst = dst
put_providers ((k, v) ∷ rest) dst =
    put_providers rest (if is_empty (trim_space k) then dst else put (trim_space k) v dst)

-- `mergeExtensions`: an empty section is passed over.
unfoldable pub merge_extensions : List (Str × Str) → List (Str × Str) → List (Str × Str)
merge_extensions [] dst = dst
merge_extensions ((name, node) ∷ rest) dst =
    merge_extensions rest (if is_empty node then dst else put name node dst)

-- A text that is given, trimmed; or the one before.
unfoldable pub trimmed_or : Str → Str → Str
trimmed_or dst text = let s = trim_space text in if is_empty s then dst else s

-- A text that is given, as it is; or the one before.
unfoldable pub text_or : Str → Str → Str
text_or dst text = if is_empty (trim_space text) then dst else text

unfoldable pub list_or {ℓ} : {A : Type ℓ} → List A → List A → List A
list_or dst [] = dst
list_or dst (x ∷ xs) = x ∷ xs

unfoldable pub option_or {ℓ} : {A : Type ℓ} → Option A → Option A → Option A
option_or dst none = dst
option_or dst (some v) = some v

unfoldable pub positive_or : ℤ → ℤ → ℤ
positive_or dst n = if is_positive n then n else dst

unfoldable pub nonzero_or : ℤ → ℤ → ℤ
nonzero_or dst n = if is_positive n || is_negative n then n else dst

-- A negative limit is none, which is 0.
unfoldable pub limit_or : ℤ → ℤ → ℤ
limit_or dst n = if is_positive n then n else if is_negative n then pos 0 else dst

unfoldable pub merged_list : List Str → List Str → List Str
merged_list dst [] = dst
merged_list dst (s ∷ add) = merge_string_list dst (s ∷ add)

-- `mergeLLM` and `mergeLLMProviders`.
unfoldable pub merge_llm : Llm → Llm → Llm
merge_llm dst o = record {
  wire = trimmed_or dst.wire o.wire;
  wire_explicit = not (is_empty (trim_space o.wire)) || dst.wire_explicit;
  base_url = trimmed_or dst.base_url o.base_url;
  api_key = trimmed_or dst.api_key o.api_key;
  api_key_env = trimmed_or dst.api_key_env o.api_key_env;
  model = trimmed_or dst.model o.model;
  effort = trimmed_or dst.effort o.effort;
  headers = put_all o.headers dst.headers;
  stream = dst.stream;
  max_tokens = positive_or dst.max_tokens o.max_tokens;
  prompt_cache = option_or dst.prompt_cache o.prompt_cache;
  native_tools = list_or dst.native_tools o.native_tools;
  system_prefix = list_or dst.system_prefix o.system_prefix;
  system_prefix_models = list_or dst.system_prefix_models o.system_prefix_models;
  first_byte_timeout_sec = nonzero_or dst.first_byte_timeout_sec o.first_byte_timeout_sec;
  call_timeout_sec = nonzero_or dst.call_timeout_sec o.call_timeout_sec;
  context_window = positive_or dst.context_window o.context_window;
  input_price = positive_or dst.input_price o.input_price;
  output_price = positive_or dst.output_price o.output_price;
  provider = trimmed_or dst.provider o.provider;
  providers = put_providers o.providers dst.providers;
}

unfoldable pub merge_policy : Policy → Policy → Policy
merge_policy dst o = record {
  max_turns = limit_or dst.max_turns o.max_turns;
  bash_timeout_sec = positive_or dst.bash_timeout_sec o.bash_timeout_sec;
  max_bash_timeout_sec = positive_or dst.max_bash_timeout_sec o.max_bash_timeout_sec;
  sandbox = trimmed_or dst.sandbox o.sandbox;
  max_read_bytes = positive_or dst.max_read_bytes o.max_read_bytes;
  max_tool_result_chars = positive_or dst.max_tool_result_chars o.max_tool_result_chars;
  compact_at_tokens = limit_or dst.compact_at_tokens o.compact_at_tokens;
  compact_summary = o.compact_summary || dst.compact_summary;
  max_run_tokens = positive_or dst.max_run_tokens o.max_run_tokens;
  max_run_usd = positive_or dst.max_run_usd o.max_run_usd;
  max_parallel_tools = positive_or dst.max_parallel_tools o.max_parallel_tools;
  extra_roots = merged_list dst.extra_roots o.extra_roots;
  extra_roots_read_only = merged_list dst.extra_roots_read_only o.extra_roots_read_only;
  env_passthrough = merged_list dst.env_passthrough o.env_passthrough;
}

unfoldable pub merge_tools : Tools → Tools → Tools
merge_tools dst o = record {
  enable = list_or dst.enable o.enable;
  write = o.write || dst.write;
  shell = o.shell || dst.shell;
  hashline = o.hashline || dst.hashline;
}

unfoldable pub merge_skills : Skills → Skills → Skills
merge_skills dst o = record {
  dirs = list_or dst.dirs o.dirs;
  selector = option_or dst.selector o.selector;
  explicit = merged_list dst.explicit o.explicit;
}

-- `mergeOverlay`.
unfoldable pub merge_overlay : File → File → File
merge_overlay dst o = record {
  workspace = text_or dst.workspace o.workspace;
  llm = record (merge_llm dst.llm o.llm) { stream = o.llm.stream || dst.llm.stream };
  tools = merge_tools dst.tools o.tools;
  policy = merge_policy dst.policy o.policy;
  session_dir = text_or dst.session_dir o.session_dir;
  skills = merge_skills dst.skills o.skills;
  extensions = merge_extensions o.extensions dst.extensions;
  warnings = dst.warnings;
}
