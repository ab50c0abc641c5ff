-- ===== src/Agent/Explore/Hints.antt =====
-- One hint for each streak of investigation, at its sixth round at the latest.
use mow.Prelude.{
  ℕ, ◌+◌, ◌≤◌, ◌≡◌, refl, ◌⊎◌, inl, inr, true, false, not, ◌&&◌, List, [], ◌∷◌, All, Bool-cases,
  arith, ◌==◌, if◌then◌else◌,
}
use mow.Agent.Explore.{Guard, Batch, counted, is_due, note, hints}

-- No batch of the streak does other work.
abbrev pub IsStreak : List Batch → Type 0
IsStreak = All (λ b. Batch.productive b ≡ false)

-- The batches that explore.
abbrev pub explorations : List Batch → ℕ
explorations [] = 0
explorations (b ∷ bs) = (if b.explored == 0 then 0 else 1) + explorations bs

hints-warned : (g : Guard) (bs : List Batch) → g.warned ≡ true → IsStreak bs → hints g bs ≡ 0
unfolding hints
hints-warned g [] w s = refl
hints-warned g (b ∷ bs) w s = elim (Bool-cases (b.explored == 0)) [
  | inl e ↦ rw (s.0, e, note) (omega (arith, hints-warned g bs w s.1))
  | inr e ↦
      let quiet : (not g.warned && is_due (counted g b) b.now) ≡ false = rw w refl in
      rw (s.0, e, quiet, note) (omega (arith, hints-warned (counted g b) bs w s.1))
]

-- Over a streak of batches none of which does other work, a guard that has not warned gives its
-- hint at most once, and exactly once if six rounds or more explore, counted from the start of the
-- guard.
pub hints-once :
    (g : Guard) (bs : List Batch)
    → g.warned ≡ false
    → g.rounds ≤ 5
    → IsStreak bs
    → (hints g bs ≤ 1) × ((hints g bs ≡ 1) ⊎ (g.rounds + explorations bs ≤ 5))
unfolding hints
hints-once g [] w r s = (omega arith, inr (omega (arith, r)))
hints-once g (b ∷ bs) w r s = elim (Bool-cases (b.explored == 0)) [
  | inl e ↦
      let later = hints-once g bs w r s.1 in
      rw (s.0, e, note)
        (
          omega (arith, later.0),
          elim later.1 [ inl h ↦ inl (omega (arith, h)) | inr h ↦ inr (omega (arith, h)) ],
        )
  | inr e ↦ elim (Bool-cases (is_due (counted g b) b.now)) [
    | inl due ↦
        let warns : (not g.warned && is_due (counted g b) b.now) ≡ true = rw (w, due) refl in
        let last = hints-warned (record (counted g b) { warned = true; low = 0 }) bs refl s.1 in
        rw (s.0, e, warns, note) (omega (arith, last), inl (omega (arith, last)))
    | inr early ↦
        let quiet : (not g.warned && is_due (counted g b) b.now) ≡ false = rw (w, early) refl in
        let later = hints-once (counted g b) bs w (ground (arith, early)) s.1 in
        rw (s.0, e, quiet, note)
          (
            omega (arith, later.0),
            elim later.1 [ inl h ↦ inl (omega (arith, h)) | inr h ↦ inr (omega (arith, h)) ],
          )
  ]
]
