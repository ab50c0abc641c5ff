-- ===== src/Config/Project.antt =====
-- internal/config/config.go: `mergeProjectFile`, which lays the configuration of a workspace over the
-- user's, with less privilege.
use mow.Prelude.{
  ℤ, pos, is_positive, less_than, if◌then◌else◌, any, Bool, false, not, ◌&&◌, ◌||◌, Option, none,
  some, List, [], ◌∷◌, ◌++◌, Str, codes, str_eq, is_empty, trim_space, to_lower, has_prefix, Result,
  err, ok,
}
use mow.Config.{File}
use mow.Config.Merge.{merge_string_list, merge_overlay}

-- `lowersTurnCap`.
unfoldable pub lowers_turn_cap : ℤ → ℤ → Bool
lowers_turn_cap overlay host =
    is_positive overlay && (not (is_positive host) || less_than overlay host)

-- The names that `dropProjectTools` drops.
abbrev pub power_tools : List Str
power_tools =
    codes "write"
    ∷ codes "edit"
    ∷ codes "apply_patch"
    ∷ codes "bash"
    ∷ codes "generate_image"
    ∷ codes "generate_speech"
    ∷ codes "generate_video"
    ∷ []

unfoldable pub is_power_tool : Str → Bool
is_power_tool t = any (str_eq (to_lower (trim_space t))) power_tools

-- `dropProjectTools`.
unfoldable pub drop_project_tools : List Str → List Str
drop_project_tools [] = []
drop_project_tools (t ∷ enable) =
    let rest = drop_project_tools enable in if is_power_tool t then rest else t ∷ rest

-- What the file system says of paths: `filepath.Abs`, `filepath.IsAbs`, `filepath.Join`,
-- `filepath.Clean` and `filepath.EvalSymlinks`; none is an error.
pub record Paths : Type 0 where
  pub abs : Str → Option Str
  pub is_abs : Str → Bool
  pub join : Str → Str → Str
  pub clean : Str → Str
  pub eval_symlinks : Str → Option Str

unfoldable pub resolved : Paths → Str → Option Str → Str
resolved paths p none = p
resolved paths p (some real) = real

-- The path cleaned, with its links followed where they can be.
unfoldable pub real_path : Paths → Str → Str
real_path paths p = resolved paths (paths.clean p) (paths.eval_symlinks (paths.clean p))

abbrev pub is_under : Str → Str → Bool
is_under root p = str_eq p root || has_prefix p (root ++ codes "/")

unfoldable pub kept_dir : Paths → Str → Option Str → Option Str
kept_dir paths root none = none
kept_dir paths root (some p) =
    if is_under root (real_path paths p) then some (real_path paths p) else none

unfoldable pub skill_dir : Paths → Str → Str → Option Str
skill_dir paths root dir =
    let d = trim_space dir in
    if is_empty d
    then none
    else kept_dir paths root (paths.abs (if paths.is_abs d then d else paths.join root d))

unfoldable pub add_dir : Option Str → List Str → List Str
add_dir none rest = rest
add_dir (some p) rest = p ∷ rest

unfoldable pub dirs_under : Paths → Str → List Str → List Str
dirs_under paths root [] = []
dirs_under paths root (dir ∷ dirs) = add_dir (skill_dir paths root dir) (dirs_under paths root dirs)

unfoldable pub dirs_under_real : Paths → Option Str → List Str → List Str
dirs_under_real paths none dirs = []
dirs_under_real paths (some root) dirs = dirs_under paths (real_path paths root) dirs

-- `skillDirsUnder`.
unfoldable pub skill_dirs_under : Paths → Str → List Str → List Str
skill_dirs_under paths workspace dirs =
    let ws = trim_space workspace in
    if is_empty ws then [] else dirs_under_real paths (paths.abs ws) dirs

-- `delete(overlay.Extensions, name)`.
unfoldable pub delete_section : Str → List (Str × Str) → List (Str × Str)
delete_section name [] = []
delete_section name ((k, v) ∷ rest) =
    let more = delete_section name rest in if str_eq k name then more else (k, v) ∷ more

-- The overlay with what a project may not set taken out, for the user's configuration `dst`.
unfoldable pub restricted : File → File → File
restricted dst o = record {
  workspace = [];
  llm = record o.llm {
    base_url = [];
    api_key = [];
    api_key_env = [];
    headers = [];
    provider = [];
    providers = [];
    wire = [];
    system_prefix = [];
    system_prefix_models = [];
    native_tools = [];
    first_byte_timeout_sec = pos 0;
    call_timeout_sec = pos 0;
    max_tokens = pos 0;
    prompt_cache = none;
    context_window = pos 0;
    input_price = pos 0;
    output_price = pos 0;
    model = [];
    effort = [];
    stream = false;
  };
  tools = record { enable = []; write = false; shell = false; hashline = false };
  policy = record o.policy {
    extra_roots = [];
    extra_roots_read_only = [];
    env_passthrough = [];
    sandbox = [];
    max_run_tokens = pos 0;
    max_run_usd = pos 0;
    compact_summary = false;
    max_turns =
        (if lowers_turn_cap o.policy.max_turns dst.policy.max_turns
          then o.policy.max_turns
          else pos 0);
    compact_at_tokens =
        (if lowers_turn_cap o.policy.compact_at_tokens dst.policy.compact_at_tokens
          then o.policy.compact_at_tokens
          else pos 0);
  };
  session_dir = [];
  skills = record { dirs = []; selector = none; explicit = [] };
  extensions = delete_section (codes "acp") (delete_section (codes "media") o.extensions);
  warnings = o.warnings;
}

unfoldable pub add_tools : List Str → List Str → List Str
add_tools enable [] = enable
add_tools enable (t ∷ more) = merge_string_list enable (t ∷ more)

unfoldable pub absolute : Paths → Str → Str
absolute paths ws = resolved paths ws (paths.abs ws)

unfoldable pub add_skills : Paths → Str → List Str → List Str → List Str
add_skills paths workspace dirs [] = dirs
add_skills paths workspace dirs (d ∷ more) =
    merge_string_list dirs (skill_dirs_under paths (absolute paths workspace) (d ∷ more))

-- `mergeProjectFile`, of an overlay that is read.
unfoldable pub merge_project : Paths → File → File → File
merge_project paths dst o =
    let merged = merge_overlay dst (restricted dst o) in
    record merged {
      tools = record merged.tools {
        enable = add_tools merged.tools.enable (drop_project_tools o.tools.enable);
      };
      skills = record merged.skills {
        dirs = add_skills paths merged.workspace merged.skills.dirs o.skills.dirs;
      };
    }

-- `mergeProjectFile`: a file that does not exist is no overlay; one that cannot be read changes
-- nothing.
unfoldable pub merge_project_file : Paths → File → Result Str (Option File) → Result Str File
merge_project_file paths dst (err e) = err e
merge_project_file paths dst (ok none) = ok dst
merge_project_file paths dst (ok (some o)) = ok (merge_project paths dst o)
