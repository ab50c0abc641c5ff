-- ===== src/Goal/Run/Ends.antt =====
-- What each branch of a pass of a goal run does with its steps, its saves and its status.
use mow.Prelude.{
  ℕ, ◌+◌, ◌<◌, ◌≡◌, refl, inl, inr, ◌&&◌, List, [], ◌∷◌, Option, none, some, arith, ltb, leb, Str,
  Bool-cases, Option-cases,
}
use mow.Goal.State.{running, State}
use mow.Goal.Run.{
  StepOutcome, unset, outcome_done, outcome_failed, proceed, retry, budget, reroute, retry_same,
  escalate, partial_stop, StepResult, StepError, max_turns, transient, fatal, Pass, context_error,
  goal_failed, retries_exhausted, goal_blocked, max_step_retries, max_transient_steps,
  max_turn_budget_steps, go_on, account, adopt, record_step, hard_budget_exceeded, soft_failed,
}
use mow.Goal.Run.Passes.{
  on_error, on_outcome, on_success, on_step, on_result, verified, routed, failing, issues_of,
}
use mow.Goal.Run.Rounds.{Advances, Took, finish-Advances, go_on-Advances}

module _ (p : Pass) (saved st : State) where
  carry_on :
      (st' : State)
      → Took st st'
      → Advances st (go_on p.saves saved (record st' { retry_count = 0 }) 0 0)
  carry_on st' t =
      go_on-Advances p.saves saved st _ 0 0
        (record {
          one = t.one;
          cap = t.cap;
          is_running = t.is_running;
          retries = omega (arith, t.retries);
        })
        (omega arith) (omega arith)

  softly : (st' : State) (sr : StepResult) → Took st st' → Took st (soft_failed st' sr (p.notes sr))
  softly st' sr t = record {
    one = t.one;
    cap = t.cap;
    is_running = t.is_running;
    retries = omega (arith, t.retries);
  }

  on_outcome-Advances :
      (st' : State) (sr : StepResult) (o : StepOutcome)
      → Took st st'
      → Advances st (on_outcome p saved st' sr o)
  unfolding on_outcome
  on_outcome-Advances st' sr reroute t =
      go_on-Advances p.saves saved st _ 0 0
        (record { one = t.one; cap = t.cap; is_running = refl; retries = omega arith })
        (omega arith) (omega arith)
  on_outcome-Advances st' sr retry_same t =
      elim (Bool-cases (ltb max_step_retries (st'.retry_count + 1))) [
        | inl e ↦ rw e (
            finish-Advances p.saves saved st _ (some retries_exhausted) (omega (arith, t.one)) t.cap
              (omega (arith, t.retries)) (refl, ground arith))
        | inr e ↦ rw e (
            go_on-Advances p.saves saved st _ 0 0
              (record { one = t.one; cap = t.cap; is_running = refl; retries = ground arith })
              (omega arith) (omega arith))
      ]
  on_outcome-Advances st' sr escalate t =
      finish-Advances p.saves saved st _ (some goal_blocked) (omega (arith, t.one)) t.cap
        (omega (arith, t.retries)) (refl, ground arith)
  on_outcome-Advances st' sr partial_stop t =
      finish-Advances p.saves saved st _ none (omega (arith, t.one)) t.cap
        (omega (arith, t.retries)) (inr refl)
  on_outcome-Advances st' sr outcome_done t =
      finish-Advances p.saves saved st _ none (omega (arith, t.one)) t.cap
        (omega (arith, t.retries)) (inl refl)
  on_outcome-Advances st' sr outcome_failed t =
      finish-Advances p.saves saved st _ (some goal_failed) (omega (arith, t.one)) t.cap
        (omega (arith, t.retries)) refl
  on_outcome-Advances st' sr unset t = carry_on st' t
  on_outcome-Advances st' sr proceed t = carry_on st' t
  on_outcome-Advances st' sr retry t = carry_on st' t
  on_outcome-Advances st' sr budget t = carry_on st' t

  failing-Took :
      (st' : State) (issues : List Str) → Took st st' → Took st (failing p saved st' issues)
  failing-Took st' [] t = t
  failing-Took st' (s ∷ ss) t = record {
    one = t.one;
    cap = t.cap;
    is_running = t.is_running;
    retries = omega (arith, t.retries);
  }

  verified-Took :
      (st' : State) (sr : StepResult) (o : StepOutcome)
      → Took st st'
      → Took st (verified p saved st' sr o).0
  unfolding verified
  verified-Took st' sr o t = failing-Took st' (issues_of p saved st' sr o) t

  on_success-Advances :
      (st' : State) (sr : StepResult) → Took st st' → Advances st (on_success p saved st' sr)
  unfolding on_success record_step
  on_success-Advances st' sr t =
      let kept : State = record_step st' sr (p.notes sr) in
      let o : StepOutcome = routed p saved kept sr in
      let took : Took st kept = record {
        one = t.one;
        cap = t.cap;
        is_running = t.is_running;
        retries = omega (arith, t.retries);
      } in
      on_outcome-Advances (verified p saved kept sr o).0 sr (verified p saved kept sr o).1
        (verified-Took kept sr o took)

  on_error-Advances :
      (st' : State) (sr : StepResult) (transients turns : ℕ) (e : StepError)
      → Took st st'
      → transients < max_transient_steps
      → turns < max_turn_budget_steps
      → Advances st (on_error p saved st' sr transients turns e)
  unfolding on_error
  on_error-Advances st' sr transients turns (max_turns why) t h k =
      elim (Bool-cases (leb max_turn_budget_steps (turns + 1))) [
        | inl e ↦ rw e (
            finish-Advances p.saves saved st _ (some goal_failed) (omega (arith, t.one)) t.cap
              (omega (arith, t.retries)) refl)
        | inr e ↦ rw e (
            go_on-Advances p.saves saved st _ 0 (turns + 1) (softly st' sr t) (omega arith)
              (ground arith))
      ]
  on_error-Advances st' sr transients turns (transient why) t h k =
      elim (Bool-cases (leb max_transient_steps (transients + 1))) [
        | inl e ↦ rw e (
            finish-Advances p.saves saved st _ (some goal_failed) (omega (arith, t.one)) t.cap
              (omega (arith, t.retries)) refl)
        | inr e ↦ elim (Bool-cases (p.saves && p.cancelled_in_backoff)) [
          | inl b ↦
              rw (e, b)
                (finish-Advances p.saves_cancelled _ st _ (some context_error)
                  (omega (arith, t.one)) t.cap (omega (arith, t.retries)) refl)
          | inr b ↦
              rw (e, b)
                (go_on-Advances p.saves saved st _ (transients + 1) 0 (softly st' sr t)
                  (ground arith) (omega arith))
        ]
      ]
  on_error-Advances st' sr transients turns (fatal why) t h k =
      finish-Advances p.saves saved st _ (some goal_failed) (omega (arith, t.one)) t.cap
        (omega (arith, t.retries)) refl

  on_step-Advances :
      (st' : State) (sr : StepResult) (transients turns : ℕ) (e : Option StepError)
      → Took st st'
      → transients < max_transient_steps
      → turns < max_turn_budget_steps
      → Advances st (on_step p saved st' sr transients turns e)
  on_step-Advances st' sr transients turns none t h k = on_success-Advances st' sr t
  on_step-Advances st' sr transients turns (some e) t h k =
      on_error-Advances st' sr transients turns e t h k

  pub on_result-Advances :
      (transients turns : ℕ) (sr : StepResult) (e : Option StepError)
      → st.status ≡ running
      → transients < max_transient_steps
      → turns < max_turn_budget_steps
      → Advances st (on_result p saved st transients turns sr e)
  unfolding on_result
  on_result-Advances transients turns sr e r h k =
      let took : Took st (adopt (account st sr) sr) = record {
        one = refl;
        cap = refl;
        is_running = r;
        retries = omega arith;
      } in
      elim (Option-cases (hard_budget_exceeded (account st sr) p.elapsed_ms p.duration_text)) [
        | inl q ↦ rw (q, on_result) (on_step-Advances _ sr transients turns e took h k)
        | inr (why, q) ↦
            rw (q, on_result)
              (finish-Advances p.saves saved st _ none (omega arith) refl (omega arith) (inr refl))
      ]
