-- ===== src/Ext.antt =====
-- ext/ext.go: the registry that extension packs and hosts share.
use mow.Prelude.{
  ℕ, ◌==◌, if◌then◌else◌, Bool, ◌||◌, ℤ, pos, negsuc, Option, none, List, [], ◌∷◌, ◌++◌, Str, codes,
  str_eq, is_empty, trim_space, to_lower,
}
pub mod Setup
pub mod Engines
pub mod Counts
pub mod Begun
pub mod Failed
pub mod Owned

-- A tool: its name, and which one it is.
pub record Tool : Type 0 where
  pub name : Str
  pub identity : ℕ

-- `toolEntry`; generation 0 is static.
pub record ToolEntry : Type 0 where
  pub tool : Tool
  pub gen : ℕ

-- The lists of hooks of the registry.
pub data Point : Type 0 where
  pre_tool : Point
  post_tool : Point
  user_prompt : Point
  session_start : Point
  pre_compact : Point
  pre_model : Point
  after_turn : Point
  after_turn_decide : Point
  before_finish : Point
  stop : Point
  system_segment : Point

-- `hookEntry`, with the list that it stands in.
pub record HookEntry : Type 0 where
  pub point : Point
  pub hook : ℕ
  pub gen : ℕ
  pub source : Str

-- `ExtensionState`.
pub record Instance : Type 0 where
  pub name : Str
  pub kind : Str
  pub min_turns : ℕ
  pub enabled : Option Bool

pub record Registry : Type 0 where
  pub tools : List ToolEntry
  pub hooks : List HookEntry
  pub instances : List (Str × Instance)
  pub before_new_gen : ℕ
  pub before_new_active : Bool
  pub engine_refs : List (ℕ × ℕ)
  -- The generations that the release callbacks were run for, the last first.
  pub released : List ℕ

-- `currentRegGen`.
unfoldable pub current_gen : Registry → ℕ
current_gen r = if r.before_new_active then r.before_new_gen else 0

abbrev pub normal_name : Str → Str
normal_name name = to_lower (trim_space name)

-- The loop of `RegisterTool`: a tool with the name is replaced in its place.
unfoldable pub put_tool : ToolEntry → List ToolEntry → List ToolEntry
put_tool new [] = new ∷ []
put_tool new (e ∷ entries) =
    let more = put_tool new entries in
    if str_eq (normal_name e.tool.name) (normal_name new.tool.name) then new ∷ entries else e ∷ more

-- `RegisterTool`.
unfoldable pub register_tool : Registry → Tool → Registry
register_tool r t = record r { tools = put_tool (record { tool = t; gen = current_gen r }) r.tools }

-- `RegisterPreToolSource` and its like.
unfoldable pub register_hook : Registry → Point → Str → ℕ → Registry
register_hook r point source hook = record r {
  hooks =
      r.hooks ++ (record { point = point; hook = hook; gen = current_gen r; source = source } ∷ []);
}

-- `filterHookSource`.
unfoldable pub filter_hook_source : Str → List HookEntry → List HookEntry
filter_hook_source source [] = []
filter_hook_source source (e ∷ entries) =
    let rest = filter_hook_source source entries in
    if str_eq e.source source then rest else e ∷ rest

-- `ClearHookSource`.
unfoldable pub clear_hook_source : Registry → Str → Registry
clear_hook_source r source =
    if is_empty (trim_space source)
    then r
    else record r { hooks = filter_hook_source (trim_space source) r.hooks }

abbrev clamped : ℤ → ℕ
clamped (pos n) = n
clamped (negsuc n) = 0

unfoldable pub put_instance : Str → Instance → List (Str × Instance) → List (Str × Instance)
put_instance full i [] = (full, i) ∷ []
put_instance full i ((k, j) ∷ rest) =
    let more = put_instance full i rest in if str_eq k full then (k, i) ∷ rest else (k, j) ∷ more

-- `RegisterExtensionInstance`.
unfoldable pub register_extension_instance : Registry → Str → Str → ℤ → Registry
register_extension_instance r kind name min_turns = if is_empty name then r else record r {
  instances =
      put_instance (kind ++ codes ":" ++ name)
        (record {
          name = kind ++ codes ":" ++ name;
          kind = kind;
          min_turns = clamped min_turns;
          enabled = none;
        })
        r.instances;
}

abbrev pub equal_fold : Str → Str → Bool
equal_fold s t = str_eq (to_lower s) (to_lower t)

unfoldable pub without_kind : Str → List (Str × Instance) → List (Str × Instance)
without_kind kind [] = []
without_kind kind ((k, i) ∷ rest) =
    let more = without_kind kind rest in if equal_fold i.kind kind then more else (k, i) ∷ more

-- `ClearExtensionKind`.
unfoldable pub clear_extension_kind : Registry → Str → Registry
clear_extension_kind r kind =
    if is_empty (trim_space kind)
    then r
    else record r { instances = without_kind (trim_space kind) r.instances }

-- `keepHookGen`, and the test of `ToolsForEngine`.
unfoldable pub keep_gen : Registry → Bool → ℕ → Bool
keep_gen r load_user_config gen = load_user_config || gen == 0 || gen == r.before_new_gen

unfoldable pub kept_tools : Registry → Bool → List ToolEntry → List Tool
kept_tools r load_user_config [] = []
kept_tools r load_user_config (e ∷ entries) =
    let rest = kept_tools r load_user_config entries in
    if keep_gen r load_user_config e.gen then e.tool ∷ rest else rest

-- `ToolsForEngine`.
unfoldable pub tools_for_engine : Registry → Bool → List Tool
tools_for_engine r load_user_config = kept_tools r load_user_config r.tools
