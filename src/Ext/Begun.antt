-- ===== src/Ext/Begun.antt =====
-- What a setup does to the generations of the registry.
use mow.Prelude.{
  ℕ, ◌+◌, Bool-cases, Option, none, some, List, [], ◌∷◌, ◌≡◌, inl, inr, refl, ◌∙◌, ap, Str,
  is_empty, trim_space,
}
use mow.Ext.{
  Registry, register_tool, register_hook, clear_hook_source, register_extension_instance,
  clear_extension_kind,
}
use mow.Ext.Setup.{
  Call, tool, hook, clear_source, extension, clear_kind, apply_call, apply_calls, Callback,
  run_callbacks, end_setup, opened, begin_setup,
}

-- What the calls of a setup leave alone.
pub record SameEngines (before after : Registry) : Type 0 where
  pub active : after.before_new_active ≡ before.before_new_active
  pub gen : after.before_new_gen ≡ before.before_new_gen
  pub refs : after.engine_refs ≡ before.engine_refs
  pub released : after.released ≡ before.released

pub SameEngines-refl : (r : Registry) → SameEngines r r
SameEngines-refl r = record { active = refl; gen = refl; refs = refl; released = refl }

pub SameEngines-trans : (a b c : Registry) → SameEngines a b → SameEngines b c → SameEngines a c
SameEngines-trans a b c s t = record {
  active = t.active ∙ s.active;
  gen = t.gen ∙ s.gen;
  refs = t.refs ∙ s.refs;
  released = t.released ∙ s.released;
}

pub apply_call-SameEngines : (r : Registry) (c : Call) → SameEngines r (apply_call r c)
unfolding apply_call register_tool register_hook clear_hook_source register_extension_instance
    clear_extension_kind
apply_call-SameEngines r (tool t) = record {
  active = refl;
  gen = refl;
  refs = refl;
  released = refl;
}
apply_call-SameEngines r (hook point source h) = record {
  active = refl;
  gen = refl;
  refs = refl;
  released = refl;
}
apply_call-SameEngines r (clear_source source) = elim (Bool-cases (is_empty (trim_space source))) [
  | inl e ↦ rw e (SameEngines-refl r)
  | inr e ↦ rw e (record { active = refl; gen = refl; refs = refl; released = refl })
]
apply_call-SameEngines r (extension kind name min_turns) = elim (Bool-cases (is_empty name)) [
  | inl e ↦ rw e (SameEngines-refl r)
  | inr e ↦ rw e (record { active = refl; gen = refl; refs = refl; released = refl })
]
apply_call-SameEngines r (clear_kind kind) = elim (Bool-cases (is_empty (trim_space kind))) [
  | inl e ↦ rw e (SameEngines-refl r)
  | inr e ↦ rw e (record { active = refl; gen = refl; refs = refl; released = refl })
]

pub apply_calls-SameEngines :
    (r : Registry) (calls : List Call) → SameEngines r (apply_calls r calls)
unfolding apply_calls
apply_calls-SameEngines r [] = SameEngines-refl r
apply_calls-SameEngines r (c ∷ calls) =
    SameEngines-trans r (apply_call r c) (apply_calls (apply_call r c) calls)
      (apply_call-SameEngines r c) (apply_calls-SameEngines (apply_call r c) calls)

pub run_callbacks-SameEngines :
    (r : Registry) (callbacks : List Callback) (first : Option Str)
    → SameEngines r (run_callbacks r callbacks first).0
unfolding run_callbacks
run_callbacks-SameEngines r [] first = SameEngines-refl r
run_callbacks-SameEngines r (f ∷ callbacks) first =
    SameEngines-trans r (apply_calls r f.calls) _ (apply_calls-SameEngines r f.calls)
      (run_callbacks-SameEngines (apply_calls r f.calls) callbacks _)

-- What a setup does to the generations: a new one, released at once where the setup fails.
pub record Begun (before : Registry) (out : Registry × Option Str) : Type 0 where
  pub gen : out.0.before_new_gen ≡ before.before_new_gen + 1
  pub refs : out.0.engine_refs ≡ before.engine_refs
  pub released : out.0.released ≡ elim out.1 as (λ _. List ℕ) [
    | none ↦ before.released
    | some e ↦ (before.before_new_gen + 1) ∷ before.released
  ]

pub end_setup-Begun :
    (before : Registry) (mid : Registry × Option Str)
    → SameEngines (opened before) mid.0
    → Begun before (end_setup before mid)
unfolding end_setup
end_setup-Begun before (r, none) same = record {
  gen = same.gen;
  refs = same.refs;
  released = same.released;
}
end_setup-Begun before (r, some e) same = record {
  gen = same.gen;
  refs = same.refs;
  released = ap (λ (l : List ℕ). (before.before_new_gen + 1) ∷ l) same.released;
}

pub begin_setup-Begun :
    (before : Registry) (callbacks : List Callback) → Begun before (begin_setup before callbacks)
unfolding begin_setup
begin_setup-Begun before callbacks =
    end_setup-Begun before _ (run_callbacks-SameEngines (opened before) callbacks none)
