-- ===== src/Agent/Explore.antt =====
-- internal/agent/exploration.go: the counters of the exploration guard.
pub mod Hints
use mow.Prelude.{
  ℕ, ◌+◌, ◌-◌, ◌*◌, Bool, true, false, not, ◌&&◌, ◌||◌, List, [], ◌∷◌, ltb, leb, ◌==◌,
  if◌then◌else◌,
}

-- The fields of `explorationGuard` that count; times are in seconds.
pub record Guard : Type 0 where
  pub started : ℕ
  pub rounds : ℕ
  pub low : ℕ
  pub warned : Bool

-- What `note` finds in one batch: when it is, how many calls explored, how many of them found
-- something new, and whether one did other work.
pub record Batch : Type 0 where
  pub now : ℕ
  pub explored : ℕ
  pub novel : ℕ
  pub productive : Bool

abbrev pub exploration_warn_rounds : ℕ
exploration_warn_rounds = 6

abbrev exploration_warn_time : ℕ
exploration_warn_time = 120

abbrev pub fresh : ℕ → Guard
fresh now = record { started = now; rounds = 0; low = 0; warned = false }

-- The guard after a batch that explored.
abbrev pub counted : Guard → Batch → Guard
counted g b = record g {
  rounds = g.rounds + 1;
  low = if ltb (b.novel * 2) b.explored then g.low + 1 else 0;
}

abbrev pub is_due : Guard → ℕ → Bool
is_due g now =
    leb exploration_warn_time (now - g.started)
    || leb exploration_warn_rounds g.rounds
    || leb 2 g.low

-- The end of `note`: the guard, and whether it gives its hint.
unfoldable pub note : Guard → Batch → Guard × Bool
note g b =
    let g' = counted g b in
    if b.productive
    then (fresh b.now, false)
    else if b.explored == 0
    then (g, false)
    else if not g.warned && is_due g' b.now
    then (record g' { warned = true; low = 0 }, true)
    else (g', false)

-- The hints over the batches of a run.
unfoldable pub hints : Guard → List Batch → ℕ
unfolding note
hints g [] = 0
hints g (b ∷ bs) = (if (note g b).1 then 1 else 0) + hints (note g b).0 bs
