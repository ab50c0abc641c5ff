-- ===== src/Tests/Ext.antt =====
-- Engines over one registry: one is built, one fails to build, one setup fails.
use mow.Prelude.{true, false, some, none, [], ◌∷◌, ◌≡◌, refl, codes, All, List}
use mow.Ext.{Tool, ToolEntry, HookEntry, pre_tool}
use mow.Ext.Setup.{Callback, tool, hook, begin_setup, run_callbacks, end_setup}
use mow.Ext.Engines.{Step, constructs, closes, steps, no_engines, empty_registry}
use mow.Ext.Owned.{IsOwned, steps-IsOwned}
use mow.Ext.Failed.{begin_setup-failed}

abbrev search_tool : Tool
search_tool = record { name = codes "search"; identity = 7 }

abbrev pack : Callback
pack = record { calls = tool search_tool ∷ hook pre_tool (codes "cmdhook") 1 ∷ []; error = none }

abbrev broken : Callback
broken = record { calls = tool search_tool ∷ []; error = some (codes "no server") }

abbrev history : List Step
history =
    constructs (pack ∷ []) true
    ∷ constructs (pack ∷ []) false
    ∷ constructs (pack ∷ broken ∷ []) true
    ∷ closes 1
    ∷ []

steps-IsOwned_example : IsOwned (steps no_engines history)
steps-IsOwned_example = steps-IsOwned history

abbrev IsStatic : ToolEntry → Type 0
IsStatic e = e.gen ≡ 0

abbrev IsStaticHook : HookEntry → Type 0
IsStaticHook e = e.gen ≡ 0

begin_setup-failed_example :
    All IsStatic (begin_setup empty_registry (pack ∷ broken ∷ [])).0.tools
    × All IsStaticHook (begin_setup empty_registry (pack ∷ broken ∷ [])).0.hooks
    × ((begin_setup empty_registry (pack ∷ broken ∷ [])).0.instances ≡ [])
    × ((begin_setup empty_registry (pack ∷ broken ∷ [])).0.before_new_active ≡ false)
unfolding begin_setup run_callbacks end_setup
begin_setup-failed_example =
    begin_setup-failed IsStatic IsStaticHook empty_registry (pack ∷ broken ∷ []) (codes "no server")
      refl _ _
