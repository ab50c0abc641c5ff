-- ===== src/Tools/Diff/Marks.antt =====
-- The marks of the first loop of `buildHunks` cover every change.
use mow.Prelude.{
  ℕ, zero, suc, ◌+◌, ◌-◌, ◌≤◌, ◌<◌, ◌≡◌, refl, Bool, true, false, List, [], ◌∷◌, map, min, arith,
  length, get_or, if◌then◌else◌,
}
use mow.Tools.Diff.{OpKind, context, DiffOp, is_context, mark, mark_changes}

-- Every operation that is not marked is a context line.
abbrev pub Covers : List DiffOp → List Bool → Type 0
Covers [] keep = Unit
Covers (o ∷ os) [] = ⊥
Covers (o ∷ os) (k ∷ ks) = (k ≡ false → o.kind ≡ context) × Covers os ks

abbrev marked : List Bool → ℕ → Bool
marked keep n = get_or keep n false

length-mark : (lo hi j : ℕ) (keep : List Bool) → length (mark lo hi j keep) ≡ length keep
unfolding mark
length-mark lo hi j [] = refl
length-mark lo hi j (k ∷ ks) = omega (arith, length-mark lo hi (j + 1) ks)

length-mark_changes :
    (ctx last i : ℕ) (os : List DiffOp) (keep : List Bool)
    → length (mark_changes ctx last i os keep) ≡ length keep
unfolding mark_changes
length-mark_changes ctx last i [] keep = refl
length-mark_changes ctx last i (o ∷ os) keep = ground (
  arith,
  length-mark_changes ctx last (i + 1) os keep,
  length-mark_changes ctx last (i + 1) os (mark (i - ctx) (min last (i + ctx)) 0 keep),
  length-mark (i - ctx) (min last (i + ctx)) 0 keep,
)

mark_mono :
    (lo hi j : ℕ) (keep : List Bool) (n : ℕ)
    → marked keep n ≡ true
    → marked (mark lo hi j keep) n ≡ true
unfolding mark
mark_mono lo hi j [] n h = h
mark_mono lo hi j (k ∷ ks) zero h = ground arith
mark_mono lo hi j (k ∷ ks) (suc n) h = mark_mono lo hi (j + 1) ks n h

mark_sets :
    (lo hi j : ℕ) (keep : List Bool) (n : ℕ)
    → n < length keep
    → lo ≤ j + n
    → j + n ≤ hi
    → marked (mark lo hi j keep) n ≡ true
unfolding mark
mark_sets lo hi j [] n h a b = absurd (omega arith)
mark_sets lo hi j (k ∷ ks) zero h a b = ground arith
mark_sets lo hi j (k ∷ ks) (suc n) h a b =
    mark_sets lo hi (j + 1) ks n (omega arith) (omega arith) (omega arith)

mark_changes_mono :
    (ctx last i : ℕ) (os : List DiffOp) (keep : List Bool) (n : ℕ)
    → marked keep n ≡ true
    → marked (mark_changes ctx last i os keep) n ≡ true
unfolding mark_changes
mark_changes_mono ctx last i [] keep n h = h
mark_changes_mono ctx last i (o ∷ os) keep n h =
    mark_changes_mono ctx last (i + 1) os
      (if is_context o.kind then keep else mark (i - ctx) (min last (i + ctx)) 0 keep) n
      (ground (arith, mark_mono (i - ctx) (min last (i + ctx)) 0 keep n))

abbrev kind_at : List DiffOp → ℕ → OpKind
kind_at [] n = context
kind_at (o ∷ os) zero = o.kind
kind_at (o ∷ os) (suc n) = kind_at os n

mark_changes_sets :
    (ctx last i : ℕ) (os : List DiffOp) (keep : List Bool) (n : ℕ)
    → i + length os ≤ length keep
    → i + length os ≤ last + 1
    → is_context (kind_at os n) ≡ false
    → marked (mark_changes ctx last i os keep) (i + n) ≡ true
unfolding mark_changes
mark_changes_sets ctx last i [] keep n a b c = cc
mark_changes_sets ctx last i (o ∷ os) keep zero a b c = rw c (
    mark_changes_mono ctx last (i + 1) os (mark (i - ctx) (min last (i + ctx)) 0 keep) (i + 0) (
      mark_sets (i - ctx) (min last (i + ctx)) 0 keep (i + 0) (omega arith) (omega arith)
        (omega arith)))
mark_changes_sets ctx last i (o ∷ os) keep (suc n) a b c =
    let next = if is_context o.kind then keep else mark (i - ctx) (min last (i + ctx)) 0 keep in
    let size : length next ≡ length keep =
      ground (arith, length-mark (i - ctx) (min last (i + ctx)) 0 keep) in
    let found = mark_changes_sets ctx last (i + 1) os next n (omega arith) (omega arith) c in
    let here : i + 1 + n ≡ i + suc n = omega arith in rw here at found

Covers-marked :
    (os : List DiffOp) (keep : List Bool)
    → length os ≤ length keep
    → ((n : ℕ) → is_context (kind_at os n) ≡ false → marked keep n ≡ true)
    → Covers os keep
Covers-marked [] keep h all_marked = tt
Covers-marked (o ∷ os) [] h all_marked = absurd (omega arith)
Covers-marked (o ∷ os) (k ∷ ks) h all_marked =
    (λ e. ground (arith, all_marked 0), Covers-marked os ks (omega arith) (λ n. all_marked (suc n)))

length-unmarked : (os : List DiffOp) → length (map (λ (o : DiffOp). false) os) ≡ length os
length-unmarked [] = refl
length-unmarked (o ∷ os) = omega (arith, length-unmarked os)

-- With the marks that `buildHunks` starts from.
pub mark_changes-Covers :
    (ctx : ℕ) (os : List DiffOp)
    → Covers os (mark_changes ctx (length os - 1) 0 os (map (λ _. false) os))
mark_changes-Covers ctx os =
    Covers-marked os _
      (omega (
        arith,
        length-mark_changes ctx (length os - 1) 0 os (map (λ _. false) os),
        length-unmarked os,
      ))
      (λ n c.
        let here : 0 + n ≡ n = omega arith in
        rw here at (
          mark_changes_sets ctx (length os - 1) 0 os (map (λ _. false) os) n
            (omega (arith, length-unmarked os)) (omega arith) c))
