-- ===== src/Ext/Failed.antt =====
-- A setup that fails leaves nothing behind.
use mow.Prelude.{
  ℕ, ◌+◌, ◌==◌, ==_iff, fork, Bool-cases, true, false, All, All-append, Option, none, some, List,
  [], ◌∷◌, ◌≡◌, ◌⊎◌, inl, inr, refl, Str, str_eq, is_empty, trim_space,
}
use mow.Ext.{
  ToolEntry, HookEntry, Registry, current_gen, normal_name, put_tool, register_tool, register_hook,
  filter_hook_source, clear_hook_source, register_extension_instance, clear_extension_kind,
}
use mow.Ext.Setup.{
  Call, tool, hook, clear_source, extension, clear_kind, apply_call, apply_calls, Callback,
  run_callbacks, tools_without, filter_hook_generation, end_setup, opened, begin_setup,
}

-- Of this generation, or as the predicate says.
abbrev NewOr : ℕ → (ToolEntry → Type 0) → ToolEntry → Type 0
NewOr gen P e = ((e.gen == gen) ≡ true) ⊎ P e

abbrev NewHookOr : ℕ → (HookEntry → Type 0) → HookEntry → Type 0
NewHookOr gen Q e = ((e.gen == gen) ≡ true) ⊎ Q e

put_tool-All :
    (P : ToolEntry → Type 0) (new : ToolEntry) (l : List ToolEntry)
    → P new
    → All P l
    → All P (put_tool new l)
unfolding put_tool
put_tool-All P new [] p all = (p, _)
put_tool-All P new (e ∷ l) p (q, all) =
    let ih = put_tool-All P new l p all in
    fork (All P) (str_eq (normal_name e.tool.name) (normal_name new.tool.name)) (new ∷ l)
      (e ∷ put_tool new l) (λ _. (p, all)) (λ _. (q, ih))

filter-All :
    (Q : HookEntry → Type 0) (source : Str) (l : List HookEntry)
    → All Q l
    → All Q (filter_hook_source source l)
unfolding filter_hook_source
filter-All Q source [] all = _
filter-All Q source (e ∷ l) (q, all) =
    let ih = filter-All Q source l all in
    fork (All Q) (str_eq e.source source) (filter_hook_source source l)
      (e ∷ filter_hook_source source l) (λ _. ih) (λ _. (q, ih))

tools_without-All :
    (P : ToolEntry → Type 0) (gen : ℕ) (l : List ToolEntry)
    → All (NewOr gen P) l
    → All P (tools_without gen l)
unfolding tools_without
tools_without-All P gen [] all = _
tools_without-All P gen (e ∷ l) (q, all) =
    let ih = tools_without-All P gen l all in
    fork (All P) (e.gen == gen) (tools_without gen l) (e ∷ tools_without gen l) (λ _. ih)
      (λ differs. (elim q [ inl same ↦ cc | inr p ↦ p ], ih))

filter_generation-All :
    (Q : HookEntry → Type 0) (gen : ℕ) (l : List HookEntry)
    → All (NewHookOr gen Q) l
    → All Q (filter_hook_generation gen l)
unfolding filter_hook_generation
filter_generation-All Q gen [] all = _
filter_generation-All Q gen (e ∷ l) (q, all) =
    let ih = filter_generation-All Q gen l all in
    fork (All Q) (e.gen == gen) (filter_hook_generation gen l) (e ∷ filter_hook_generation gen l)
      (λ _. ih) (λ differs. (elim q [ inl same ↦ cc | inr p ↦ p ], ih))

module _ (P : ToolEntry → Type 0) (Q : HookEntry → Type 0) (gen : ℕ) where
  -- While the setup runs.
  record Running (r : Registry) : Type 0 where
    active : r.before_new_active ≡ true
    at : r.before_new_gen ≡ gen
    tools : All (NewOr gen P) r.tools
    hooks : All (NewHookOr gen Q) r.hooks

  now_gen : (r : Registry) → Running r → (current_gen r == gen) ≡ true
  unfolding current_gen
  now_gen r run = rw run.active ((==_iff r.before_new_gen gen).1 run.at)

  apply_call-Running : (r : Registry) (c : Call) → Running r → Running (apply_call r c)
  unfolding apply_call register_tool register_hook clear_hook_source register_extension_instance
      clear_extension_kind
  apply_call-Running r (tool t) run = record {
    active = run.active;
    at = run.at;
    tools = put_tool-All (NewOr gen P) _ r.tools (inl (now_gen r run)) run.tools;
    hooks = run.hooks;
  }
  apply_call-Running r (hook point source h) run = record {
    active = run.active;
    at = run.at;
    tools = run.tools;
    hooks = All-append (NewHookOr gen Q) r.hooks _ run.hooks (inl (now_gen r run), _);
  }
  apply_call-Running r (clear_source source) run =
      elim (Bool-cases (is_empty (trim_space source))) [
        | inl e ↦ rw e run
        | inr e ↦ rw e (record {
          active = run.active;
          at = run.at;
          tools = run.tools;
          hooks = filter-All (NewHookOr gen Q) (trim_space source) r.hooks run.hooks;
        })
      ]
  apply_call-Running r (extension kind name min_turns) run = elim (Bool-cases (is_empty name)) [
    | inl e ↦ rw e run
    | inr e ↦
        rw e (record { active = run.active; at = run.at; tools = run.tools; hooks = run.hooks })
  ]
  apply_call-Running r (clear_kind kind) run = elim (Bool-cases (is_empty (trim_space kind))) [
    | inl e ↦ rw e run
    | inr e ↦
        rw e (record { active = run.active; at = run.at; tools = run.tools; hooks = run.hooks })
  ]

  apply_calls-Running :
      (r : Registry) (calls : List Call) → Running r → Running (apply_calls r calls)
  unfolding apply_calls
  apply_calls-Running r [] run = run
  apply_calls-Running r (c ∷ calls) run =
      apply_calls-Running (apply_call r c) calls (apply_call-Running r c run)

  run_callbacks-Running :
      (r : Registry) (callbacks : List Callback) (first : Option Str)
      → Running r
      → Running (run_callbacks r callbacks first).0
  unfolding run_callbacks
  run_callbacks-Running r [] first run = run
  run_callbacks-Running r (f ∷ callbacks) first run =
      run_callbacks-Running (apply_calls r f.calls) callbacks _ (apply_calls-Running r f.calls run)

-- The ended setup, of an error.
ended :
    (P : ToolEntry → Type 0) (Q : HookEntry → Type 0) (before : Registry)
    (mid : Registry × Option Str) (e : Str)
    → Running P Q (before.before_new_gen + 1) mid.0
    → (end_setup before mid).1 ≡ some e
    → All P (end_setup before mid).0.tools
      × All Q (end_setup before mid).0.hooks
      × ((end_setup before mid).0.instances ≡ before.instances)
      × ((end_setup before mid).0.before_new_active ≡ false)
unfolding end_setup
ended P Q before (r, none) e run failed = cc
ended P Q before (r, some first) e run failed = (
  tools_without-All P (before.before_new_gen + 1) r.tools run.tools,
  filter_generation-All Q (before.before_new_gen + 1) r.hooks run.hooks,
  refl,
  refl,
)

old_tools : (P : ToolEntry → Type 0) (gen : ℕ) (l : List ToolEntry) → All P l → All (NewOr gen P) l
old_tools P gen [] all = _
old_tools P gen (e ∷ l) (p, all) = (inr p, old_tools P gen l all)

old_hooks :
    (Q : HookEntry → Type 0) (gen : ℕ) (l : List HookEntry) → All Q l → All (NewHookOr gen Q) l
old_hooks Q gen [] all = _
old_hooks Q gen (e ∷ l) (q, all) = (inr q, old_hooks Q gen l all)

-- A setup that fails, whatever its callbacks registered, replaced or cleared, adds nothing: what
-- holds of every tool before it holds of every tool that is left, and likewise of the hooks; the
-- instances of extensions are as they were, and no setup is active.
pub begin_setup-failed :
    (P : ToolEntry → Type 0) (Q : HookEntry → Type 0) (before : Registry)
    (callbacks : List Callback) (e : Str)
    → (begin_setup before callbacks).1 ≡ some e
    → All P before.tools
    → All Q before.hooks
    → All P (begin_setup before callbacks).0.tools
      × All Q (begin_setup before callbacks).0.hooks
      × ((begin_setup before callbacks).0.instances ≡ before.instances)
      × ((begin_setup before callbacks).0.before_new_active ≡ false)
unfolding begin_setup
begin_setup-failed P Q before callbacks e failed tools hooks =
    ended P Q before (run_callbacks (opened before) callbacks none) e
      (run_callbacks-Running P Q (before.before_new_gen + 1) (opened before) callbacks none
        (record {
          active = refl;
          at = refl;
          tools = old_tools P (before.before_new_gen + 1) before.tools tools;
          hooks = old_hooks Q (before.before_new_gen + 1) before.hooks hooks;
        }))
      failed
