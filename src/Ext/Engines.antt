-- ===== src/Ext/Engines.antt =====
-- ext/ext.go and internal/engine/engine.go: engines hold the generation of their setup.
use mow.Prelude.{
  ℕ, zero, suc, ◌+◌, ◌-◌, leb, ◌==◌, if◌then◌else◌, any, Bool, false, Option, none, some, List, [],
  ◌∷◌, Str,
}
use mow.Ext.{Registry}
use mow.Ext.Setup.{Callback, begin_setup}

unfoldable pub lookup_ref : ℕ → List (ℕ × ℕ) → Option ℕ
lookup_ref gen [] = none
lookup_ref gen ((g, n) ∷ refs) = let rest = lookup_ref gen refs in if g == gen then some n else rest

unfoldable pub put_ref : ℕ → ℕ → List (ℕ × ℕ) → List (ℕ × ℕ)
put_ref gen n [] = (gen, n) ∷ []
put_ref gen n ((g, k) ∷ refs) =
    let rest = put_ref gen n refs in if g == gen then (g, n) ∷ refs else (g, k) ∷ rest

unfoldable pub delete_ref : ℕ → List (ℕ × ℕ) → List (ℕ × ℕ)
delete_ref gen [] = []
delete_ref gen ((g, k) ∷ refs) =
    let rest = delete_ref gen refs in if g == gen then rest else (g, k) ∷ rest

unfoldable pub ref_count : Option ℕ → ℕ
ref_count none = 0
ref_count (some n) = n

-- `GenerationEngineRefs`.
unfoldable pub generation_engine_refs : Registry → ℕ → ℕ
generation_engine_refs r zero = 0
generation_engine_refs r (suc g) = ref_count (lookup_ref (suc g) r.engine_refs)

-- `NoteEngineGeneration`.
unfoldable pub note_engine_generation : Registry → ℕ → Registry
note_engine_generation r zero = r
note_engine_generation r (suc g) = record r {
  engine_refs = put_ref (suc g) (ref_count (lookup_ref (suc g) r.engine_refs) + 1) r.engine_refs;
}

-- The last reference runs the release callbacks.
unfoldable pub drop_ref : Registry → ℕ → Option ℕ → Registry
drop_ref r gen none = r
drop_ref r gen (some n) =
    if leb n 1
    then record r { engine_refs = delete_ref gen r.engine_refs; released = gen ∷ r.released }
    else record r { engine_refs = put_ref gen (n - 1) r.engine_refs }

-- `ReleaseEngineGeneration`.
unfoldable pub release_engine_generation : Registry → ℕ → Registry
release_engine_generation r zero = r
release_engine_generation r (suc g) = drop_ref r (suc g) (lookup_ref (suc g) r.engine_refs)

-- The registry, and the generations of the engines that are open.
pub record World : Type 0 where
  pub registry : Registry
  pub engines : List ℕ

unfoldable pub hold : World → Bool → Registry → World
hold w builds r =
    let noted = note_engine_generation r r.before_new_gen in
    if builds
    then record { registry = noted; engines = r.before_new_gen ∷ w.engines }
    else record w { registry = release_engine_generation noted r.before_new_gen }

unfoldable pub set_up : World → Bool → Registry × Option Str → World
set_up w builds (r, some e) = record w { registry = r }
set_up w builds (r, none) = hold w builds r

-- The construction of an engine: the setup, its generation held, and the rest, which may fail.
unfoldable pub construct : World → List Callback → Bool → World
construct w callbacks builds = set_up w builds (begin_setup w.registry callbacks)

unfoldable pub remove : ℕ → List ℕ → List ℕ
remove g [] = []
remove g (h ∷ rest) = let more = remove g rest in if h == g then rest else h ∷ more

-- An engine that is open is closed.
unfoldable pub close : World → ℕ → World
close w gen =
    if any (λ h. h == gen) w.engines
    then record {
      registry = release_engine_generation w.registry gen;
      engines = remove gen w.engines;
    }
    else w

pub data Step : Type 0 where
  constructs : List Callback → Bool → Step
  closes : ℕ → Step

unfoldable pub step : World → Step → World
step w (constructs callbacks builds) = construct w callbacks builds
step w (closes gen) = close w gen

unfoldable pub steps : World → List Step → World
steps w [] = w
steps w (s ∷ more) = steps (step w s) more

abbrev pub empty_registry : Registry
empty_registry = record {
  tools = [];
  hooks = [];
  instances = [];
  before_new_gen = 0;
  before_new_active = false;
  engine_refs = [];
  released = [];
}

abbrev pub no_engines : World
no_engines = record { registry = empty_registry; engines = [] }
