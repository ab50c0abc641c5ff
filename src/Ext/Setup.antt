-- ===== src/Ext/Setup.antt =====
-- ext/ext.go: `BeginSetup`, in which the packs register what a new engine is to have.
use mow.Prelude.{
  ℕ, ◌+◌, ◌==◌, if◌then◌else◌, true, false, ℤ, Option, none, some, List, [], ◌∷◌, Str,
}
use mow.Ext.{
  Tool, ToolEntry, Point, HookEntry, Registry, register_tool, register_hook, clear_hook_source,
  register_extension_instance, clear_extension_kind,
}

-- One call that a callback makes of the registry.
pub data Call : Type 0 where
  tool : Tool → Call
  hook : Point → Str → ℕ → Call
  clear_source : Str → Call
  extension : Str → Str → ℤ → Call
  clear_kind : Str → Call

unfoldable pub apply_call : Registry → Call → Registry
apply_call r (tool t) = register_tool r t
apply_call r (hook point source h) = register_hook r point source h
apply_call r (clear_source source) = clear_hook_source r source
apply_call r (extension kind name min_turns) = register_extension_instance r kind name min_turns
apply_call r (clear_kind kind) = clear_extension_kind r kind

unfoldable pub apply_calls : Registry → List Call → Registry
apply_calls r [] = r
apply_calls r (c ∷ calls) = apply_calls (apply_call r c) calls

-- A callback of `RegisterBeforeNew`: the calls that it makes, and its error.
pub record Callback : Type 0 where
  pub calls : List Call
  pub error : Option Str

abbrev first_error : Option Str → Option Str → Option Str
first_error none e = e
first_error (some first) e = some first

-- Every callback runs; the first error is kept.
unfoldable pub run_callbacks : Registry → List Callback → Option Str → Registry × Option Str
run_callbacks r [] first = (r, first)
run_callbacks r (f ∷ callbacks) first =
    run_callbacks (apply_calls r f.calls) callbacks (first_error first f.error)

unfoldable pub tools_without : ℕ → List ToolEntry → List ToolEntry
tools_without gen [] = []
tools_without gen (e ∷ entries) =
    let rest = tools_without gen entries in if e.gen == gen then rest else e ∷ rest

-- `filterHookGeneration`.
unfoldable pub filter_hook_generation : ℕ → List HookEntry → List HookEntry
filter_hook_generation gen [] = []
filter_hook_generation gen (e ∷ entries) =
    let rest = filter_hook_generation gen entries in if e.gen == gen then rest else e ∷ rest

-- `before` is the registry when the setup began.
unfoldable pub end_setup : Registry → Registry × Option Str → Registry × Option Str
end_setup before (r, none) = (record r { before_new_active = false }, none)
end_setup before (r, some e) = (
  record r {
    tools = tools_without (before.before_new_gen + 1) r.tools;
    hooks = filter_hook_generation (before.before_new_gen + 1) r.hooks;
    instances = before.instances;
    before_new_active = false;
    released = (before.before_new_gen + 1) ∷ r.released;
  },
  some e,
)

abbrev pub opened : Registry → Registry
opened r = record r { before_new_gen = r.before_new_gen + 1; before_new_active = true }

-- `BeginSetup`.
unfoldable pub begin_setup : Registry → List Callback → Registry × Option Str
begin_setup r callbacks = end_setup r (run_callbacks (opened r) callbacks none)
