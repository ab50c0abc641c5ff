-- ===== src/Ext/Owned.antt =====
-- Every generation is held by one open engine, or was released once.
use mow.Prelude.{
  ℕ, zero, suc, ◌+◌, ◌≤◌, ◌==◌, ==_iff, if◌then◌else◌, fork, any, Bool-cases, Bool, true, false,
  Option, none, some, List, [], ◌∷◌, ◌≡◌, inl, inr, refl, sym, ◌∙◌, ap, Str, arith,
}
use mow.Ext.{Registry}
use mow.Ext.Engines.{
  lookup_ref, put_ref, delete_ref, ref_count, note_engine_generation, drop_ref,
  release_engine_generation, World, hold, set_up, construct, remove, close, Step, constructs,
  closes, step, steps, no_engines,
}
use mow.Ext.Counts.{
  lookup-put, lookup-delete, count-remove, count-found, below_one, count-cons, was_opened-none, hit,
  miss, was_opened-next, was_opened-new, was_opened-le, opened-positive, count, refs_for,
  was_opened,
}
use mow.Ext.Begun.{Begun, begin_setup-Begun}

-- The references are the open engines, and each generation that there was is held by one of them or
-- was released, once.
pub record IsOwned (w : World) : Type 0 where
  pub refs : (g : ℕ) → lookup_ref g w.registry.engine_refs ≡ refs_for (count g w.engines)
  pub once :
      (g : ℕ)
      → count g w.engines + count g w.registry.released ≡ was_opened g w.registry.before_new_gen

-- A generation that is new is not in use.
unused :
    (w : World)
    → IsOwned w
    → (count (w.registry.before_new_gen + 1) w.engines ≡ 0)
      × (count (w.registry.before_new_gen + 1) w.registry.released ≡ 0)
unused w owned =
    let sum = owned.once (w.registry.before_new_gen + 1) in
    let none_yet = was_opened-new w.registry.before_new_gen in (omega arith, omega arith)

failed-IsOwned :
    (w : World) (r : Registry)
    → IsOwned w
    → r.before_new_gen ≡ w.registry.before_new_gen + 1
    → r.engine_refs ≡ w.registry.engine_refs
    → r.released ≡ (w.registry.before_new_gen + 1) ∷ w.registry.released
    → IsOwned (record w { registry = r })
failed-IsOwned w r owned gen refs released = record {
  refs = λ g. ap (lookup_ref g) refs ∙ owned.refs g;
  once = λ g.
      let e : count g r.released
          ≡ (if w.registry.before_new_gen + 1 == g then 1 else 0) + count g w.registry.released =
        ap (count g) released ∙ count-cons g (w.registry.before_new_gen + 1) _ in
      let f : was_opened g r.before_new_gen
          ≡ was_opened g w.registry.before_new_gen
            + (if w.registry.before_new_gen + 1 == g then 1 else 0) =
        ap (was_opened g) gen ∙ was_opened-next g w.registry.before_new_gen in
      let h = owned.once g in omega arith;
}

noted :
    (r : Registry) (g : ℕ)
    → 1 ≤ g
    → note_engine_generation r g ≡ record r {
      engine_refs = put_ref g (ref_count (lookup_ref g r.engine_refs) + 1) r.engine_refs;
    }
unfolding note_engine_generation
noted r zero positive = absurd (below_one positive)
noted r (suc n) positive = refl

dropped :
    (r : Registry) (g : ℕ)
    → 1 ≤ g
    → release_engine_generation r g ≡ drop_ref r g (lookup_ref g r.engine_refs)
unfolding release_engine_generation
dropped r zero positive = absurd (below_one positive)
dropped r (suc n) positive = refl

-- The registry once the last reference to a generation is dropped.
abbrev freed : Registry → ℕ → Registry
freed r g = record r { engine_refs = delete_ref g r.engine_refs; released = g ∷ r.released }

drop_last :
    (r : Registry) (g : ℕ)
    → 1 ≤ g
    → lookup_ref g r.engine_refs ≡ some 1
    → release_engine_generation r g ≡ freed r g
unfolding drop_ref
drop_last r g positive held = dropped r g positive ∙ rw held refl

refs-freed :
    (refs : List (ℕ × ℕ)) (engines left : List ℕ) (g x : ℕ)
    → lookup_ref x refs ≡ refs_for (count x engines)
    → (g == x ≡ true → count x left ≡ 0)
    → (g == x ≡ false → count x left ≡ count x engines)
    → lookup_ref x (delete_ref g refs) ≡ refs_for (count x left)
unfolding refs_for
refs-freed refs engines left g x before same other =
    lookup-delete x g refs
    ∙ fork (λ (o : Option ℕ). o ≡ refs_for (count x left)) (g == x) none (lookup_ref x refs)
        (λ e. rw (same e) refl) (λ e. before ∙ ap refs_for (sym (other e)))

freed-IsOwned :
    (w : World) (g : ℕ)
    → IsOwned w
    → any (λ h. h == g) w.engines ≡ true
    → IsOwned (record { registry = freed w.registry g; engines = remove g w.engines })
freed-IsOwned w g owned found = record {
  refs = λ x.
      let removed = count-remove x g w.engines found in
      let sum = owned.once x in
      let most = was_opened-le x w.registry.before_new_gen in
      refs-freed w.registry.engine_refs w.engines (remove g w.engines) g x (owned.refs x)
        (λ e. let one = hit g x e in omega arith) (λ e. let nought = miss g x e in omega arith);
  once = λ x.
      let removed = count-remove x g w.engines found in
      let consed = count-cons x g w.registry.released in let sum = owned.once x in omega arith;
}

-- An engine that is closed gives its generation up.
close-IsOwned : (w : World) (g : ℕ) → IsOwned w → IsOwned (close w g)
unfolding close refs_for
close-IsOwned w g owned = elim (Bool-cases (any (λ h. h == g) w.engines)) [
  | inl found ↦ rw found (
      let sum = owned.once g in
      let least = count-found g w.engines found in
      let most = was_opened-le g w.registry.before_new_gen in
      let positive = opened-positive g w.registry.before_new_gen (omega arith) in
      let one : count g w.engines ≡ 1 = omega arith in
      rw (drop_last w.registry g positive (owned.refs g ∙ rw one refl))
        (freed-IsOwned w g owned found))
  | inr missing ↦ rw missing owned
]

-- What is known of a registry whose generation is new.
record IsFresh (w : World) (r : Registry) (n : ℕ) : Type 0 where
  positive : 1 ≤ n
  unheld : count n w.engines ≡ 0
  unreleased : count n w.registry.released ≡ 0
  gen :
      (g : ℕ)
      → was_opened g r.before_new_gen
        ≡ was_opened g w.registry.before_new_gen + (if n == g then 1 else 0)
  refs : r.engine_refs ≡ w.registry.engine_refs
  released : r.released ≡ w.registry.released

abbrev one_ref : Registry → ℕ → Registry
one_ref r n = record r { engine_refs = put_ref n 1 r.engine_refs }

looked_up : (r : Registry) (n : ℕ) → lookup_ref n (one_ref r n).engine_refs ≡ some 1
looked_up r n = lookup-put n n 1 r.engine_refs ∙ rw ((==_iff n n).1 refl) refl

note_new :
    (w : World) (r : Registry) (n : ℕ)
    → IsOwned w
    → IsFresh w r n
    → note_engine_generation r n ≡ one_ref r n
unfolding refs_for ref_count
note_new w r n owned fresh =
    let absent : lookup_ref n r.engine_refs ≡ none =
      ap (lookup_ref n) fresh.refs ∙ (owned.refs n ∙ ap refs_for fresh.unheld) in
    noted r n fresh.positive ∙ rw absent refl

built-IsOwned :
    (w : World) (r : Registry) (n : ℕ)
    → IsOwned w
    → IsFresh w r n
    → IsOwned (record { registry = one_ref r n; engines = n ∷ w.engines })
unfolding refs_for
built-IsOwned w r n owned fresh = record {
  refs = λ x.
      let consed = count-cons x n w.engines in
      lookup-put x n 1 r.engine_refs
      ∙ fork (λ (o : Option ℕ). o ≡ refs_for (count x (n ∷ w.engines))) (n == x) (some 1)
          (lookup_ref x r.engine_refs)
          (λ e.
            let same : n ≡ x = (==_iff n x).0 e in
            let one : count x (n ∷ w.engines) ≡ 1 =
              consed
              ∙ rw e (
                  ap (λ (k : ℕ). 1 + count k w.engines) (sym same)
                  ∙ ap (λ (k : ℕ). 1 + k) fresh.unheld) in
            rw one refl)
          (λ e.
            let as_before : count x (n ∷ w.engines) ≡ count x w.engines =
              consed ∙ rw e (omega arith) in
            ap (lookup_ref x) fresh.refs ∙ (owned.refs x ∙ ap refs_for (sym as_before)));
  once = λ x.
      let consed = count-cons x n w.engines in
      let sum = owned.once x in
      let gen = fresh.gen x in
      let same : count x r.released ≡ count x w.registry.released = ap (count x) fresh.released in
      omega arith;
}

-- The generation of an engine that could not be built is released.
unbuilt-IsOwned :
    (w : World) (r : Registry) (n : ℕ)
    → IsOwned w
    → IsFresh w r n
    → IsOwned (record w { registry = freed (one_ref r n) n })
unfolding refs_for
unbuilt-IsOwned w r n owned fresh = record {
  refs = λ x.
      lookup-delete x n (put_ref n 1 r.engine_refs)
      ∙ fork (λ (o : Option ℕ). o ≡ refs_for (count x w.engines)) (n == x) none
          (lookup_ref x (put_ref n 1 r.engine_refs))
          (λ e.
            let same : n ≡ x = (==_iff n x).0 e in
            let nought : count x w.engines ≡ 0 =
              ap (λ (k : ℕ). count k w.engines) (sym same) ∙ fresh.unheld in
            rw nought refl)
          (λ e.
            lookup-put x n 1 r.engine_refs ∙ rw e (ap (lookup_ref x) fresh.refs ∙ owned.refs x));
  once = λ x.
      let consed = count-cons x n r.released in
      let sum = owned.once x in
      let gen = fresh.gen x in
      let same : count x r.released ≡ count x w.registry.released = ap (count x) fresh.released in
      omega arith;
}

is_fresh :
    (w : World) (r : Registry)
    → IsOwned w
    → r.before_new_gen ≡ w.registry.before_new_gen + 1
    → r.engine_refs ≡ w.registry.engine_refs
    → r.released ≡ w.registry.released
    → IsFresh w r r.before_new_gen
is_fresh w r owned gen refs released =
    let (unheld, unreleased) = unused w owned in
    record {
      positive = omega arith;
      unheld = ap (λ (k : ℕ). count k w.engines) gen ∙ unheld;
      unreleased = ap (λ (k : ℕ). count k w.registry.released) gen ∙ unreleased;
      gen = λ g.
          ap (was_opened g) gen
          ∙ (was_opened-next g w.registry.before_new_gen
              ∙ ap (λ (k : ℕ). was_opened g w.registry.before_new_gen + (if k == g then 1 else 0))
                  (sym gen));
      refs = refs;
      released = released;
    }

held-IsOwned :
    (w : World) (r : Registry) (builds : Bool)
    → IsOwned w
    → r.before_new_gen ≡ w.registry.before_new_gen + 1
    → r.engine_refs ≡ w.registry.engine_refs
    → r.released ≡ w.registry.released
    → IsOwned (hold w builds r)
unfolding hold
held-IsOwned w r true owned gen refs released =
    let fresh = is_fresh w r owned gen refs released in
    rw (note_new w r r.before_new_gen owned fresh) (built-IsOwned w r r.before_new_gen owned fresh)
held-IsOwned w r false owned gen refs released =
    let fresh = is_fresh w r owned gen refs released in
    rw
      (
        note_new w r r.before_new_gen owned fresh,
        drop_last (one_ref r r.before_new_gen) r.before_new_gen fresh.positive
            (looked_up r r.before_new_gen),
      )
      (unbuilt-IsOwned w r r.before_new_gen owned fresh)

set_up-IsOwned :
    (w : World) (builds : Bool) (out : Registry × Option Str)
    → IsOwned w
    → Begun w.registry out
    → IsOwned (set_up w builds out)
unfolding set_up
set_up-IsOwned w builds (r, some e) owned begun =
    failed-IsOwned w r owned begun.gen begun.refs begun.released
set_up-IsOwned w builds (r, none) owned begun =
    held-IsOwned w r builds owned begun.gen begun.refs begun.released

step-IsOwned : (w : World) (s : Step) → IsOwned w → IsOwned (step w s)
unfolding step construct
step-IsOwned w (constructs callbacks builds) owned =
    set_up-IsOwned w builds _ owned (begin_setup-Begun w.registry callbacks)
step-IsOwned w (closes g) owned = close-IsOwned w g owned

run_steps_lem : (w : World) (more : List Step) → IsOwned w → IsOwned (steps w more)
unfolding steps
run_steps_lem w [] owned = owned
run_steps_lem w (s ∷ more) owned = run_steps_lem (step w s) more (step-IsOwned w s owned)

-- Whatever engines are constructed, with setups and constructions that succeed or fail, and closed:
-- each generation that a setup opened is held by exactly one open engine, or its release callbacks
-- were run exactly once, and never both; and the references counted are those of the open engines.
pub steps-IsOwned : (more : List Step) → IsOwned (steps no_engines more)
unfolding count was_opened refs_for lookup_ref
steps-IsOwned more =
    run_steps_lem no_engines more (record { refs = λ g. refl; once = λ g. was_opened-none g })
