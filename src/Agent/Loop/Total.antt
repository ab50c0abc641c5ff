-- ===== src/Agent/Loop/Total.antt =====
-- A run with a turn limit ends.
use mow.Prelude.{
  ℕ, zero, suc, ◌+◌, ◌-◌, ◌≤◌, ◌<◌, ◌≡◌, refl, ◌⊎◌, inl, inr, List, some, leb, Str, is_empty,
  trim_space, Bool-cases, arith,
}
use mathlib.Core.Path.{subst}
use mow.Agent.Messages.{Message}
use mow.Agent.Loop.{Options, Pass, Loop, Finish, Round, stop, again}
use mow.Agent.Loop.Passes.{pass}
use mow.Agent.Loop.Turned.{IsCounted}
use mow.Agent.Loop.Bounds.{interrupts, Moves, Advances, pass-Advances}
use mow.Agent.Loop.Run.{first_messages, start, is_over, run_loop, run}

pub Round-cases : (r : Round) → ((f : Finish) × (r ≡ stop f)) ⊎ ((l : Loop) × (r ≡ again l))
Round-cases (stop f) = inl (f, refl)
Round-cases (again l) = inr (l, refl)

interrupts-bound : (p : Pass) → interrupts p ≤ 1
interrupts-bound p = ground arith

module _ (o : Options) (ps : ℕ → Pass) (steered : ℕ) (limited : 0 < o.turn_limit)
    (quiet : (i : ℕ) → steered ≤ i → interrupts (ps i) ≡ 0) where
  -- What is left of the passes falls.
  lower :
      (i : ℕ) (l l' : Loop)
      → Moves l.turn l.overflow_retries l.truncated_batches (interrupts (ps i)) l'
      → l.turn < o.turn_limit
      → {fuel : ℕ} → (steered - i) + (o.turn_limit - l.turn) + (2 - l.overflow_retries) < suc fuel
      → (steered - suc i) + (o.turn_limit - l'.turn) + (2 - l'.overflow_retries) < fuel
  lower i l l' m before enough = elim (Bool-cases (leb steered i)) [
    | inl late ↦
        let after : steered ≤ i = ground (arith, late) in
        let none_given : interrupts (ps i) ≡ 0 = quiet i after in
        omega (
          arith, m.advances, m.turns, m.one_turn, m.retries_kept, m.counted.retries, none_given,
          after, before, enough,
        )
    | inr early ↦
        let before_last : i < steered = ground (arith, early) in
        omega (
          arith,
          m.advances,
          m.turns,
          m.one_turn,
          m.retries_kept,
          m.counted.retries,
          interrupts-bound (ps i),
          before_last,
          before,
          enough,
        )
  ]

  run_loop-ends :
      (fuel i : ℕ) (l : Loop)
      → IsCounted l
      → l.turn ≤ o.turn_limit
      → (steered - i) + (o.turn_limit - l.turn) + (2 - l.overflow_retries) < fuel
      → (f : Finish) × (run_loop o ps fuel i l ≡ some f)
  unfolding run_loop
  run_loop-ends zero i l c t enough = absurd (omega (arith, enough))
  run_loop-ends (suc fuel) i l c t enough = elim (Bool-cases (is_over o ps l.turn)) [
    | inl over ↦ rw over (_, refl)
    | inr on ↦ elim (Round-cases (pass o (ps i) l)) [
      | inl (f, e) ↦ rw (on, e) (f, refl)
      | inr (l', e) ↦
          let m : Moves l.turn l.overflow_retries l.truncated_batches (interrupts (ps i)) l' =
            subst (Advances (interrupts (ps i)) l) e (pass-Advances o (ps i) l c) in
          let before : l.turn < o.turn_limit = ground (arith, on, limited) in
          rw (on, e)
            (run_loop-ends fuel (suc i) l' m.counted (omega (arith, m.one_turn, before))
              (lower i l l' m before enough))
    ]
  ]

  -- A run with a turn limit ends, within as many passes as the limit, the two forced compactions
  -- and the passes in which the host may interrupt a call: from pass `steered` on it does not.
  pub run-ends :
      (fuel : ℕ) (system : Str) (prior : List Message) (prompt : Str)
      → steered + o.turn_limit + 2 < fuel
      → (f : Finish) × (run o ps fuel system prior prompt ≡ some f)
  unfolding run
  run-ends fuel system prior prompt enough = elim (Bool-cases (is_empty (trim_space prompt))) [
    | inl e ↦ rw e (_, refl)
    | inr e ↦ rw e (
        run_loop-ends fuel 0 (start (first_messages system prior prompt))
          (record {
            continuations = omega arith;
            cuts = omega arith;
            retries = omega arith;
            barren = omega arith;
          })
          (omega arith) (omega (arith, enough)))
  ]
