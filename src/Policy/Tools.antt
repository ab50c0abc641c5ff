-- ===== src/Policy/Tools.antt =====
-- internal/policy/policy.go: the tools that need a flag.
pub mod Gate
use mow.Prelude.{
  Bool, true, false, ◌||◌, Option, none, some, if◌then◌else◌, Str, codes, str_eq, to_lower,
  trim_space,
}

pub data PowerKind : Type 0 where
  write shell : PowerKind

-- The flags of `Policy` that `AllowTool` reads.
pub record Grants : Type 0 where
  pub allow_write : Bool
  pub allow_shell : Bool

-- `powerTools[name]`.
unfoldable pub power_tools : Str → Option PowerKind
power_tools name =
    if str_eq name (codes "write")
      || str_eq name (codes "edit")
      || str_eq name (codes "apply_patch")
    then some write
    else if str_eq name (codes "bash")
        || str_eq name (codes "proc_start")
        || str_eq name (codes "proc_stop")
    then some shell
    else none

-- `strings.ToLower(strings.TrimSpace(name))`.
abbrev pub normal : Str → Str
normal name = to_lower (trim_space name)

abbrev is_some : Option PowerKind → Bool
is_some none = false
is_some (some k) = true

-- `IsPowerTool`.
unfoldable pub is_power_tool : Str → Bool
is_power_tool name = is_some (power_tools (normal name))

abbrev pub granted : Grants → Option PowerKind → Bool
granted p none = true
granted p (some write) = p.allow_write
granted p (some shell) = p.allow_shell

-- `AllowTool`: true where it returns nil.
unfoldable pub allow_tool : Grants → Str → Bool
allow_tool p name = granted p (power_tools (normal name))
