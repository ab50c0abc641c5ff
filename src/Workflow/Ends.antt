-- ===== src/Workflow/Ends.antt =====
-- How a workflow run ends, and what a run does with the phases that an earlier one left.
use mathlib.Core.Path.{subst}
use mow.Prelude.{
  ℕ, ◌+◌, ◌≤◌, ◌≡◌, ◌≢◌, refl, ◌∙◌, ◌⊎◌, inl, inr, Bool, true, false, List, [], ◌∷◌, ◌++◌,
  append_assoc, Option, none, some, arith, All, All-append, Str, Bool-cases, Result, ok, err,
}
use mow.Workflow.{pending, running, succeeded, failed, blocked, phase_succeeded, Phase, or_max}
use mow.Workflow.Run.{
  PhaseState, State, RunError, is_blocked, not_saved, phase_error, World, Finish, bounded_json,
  finish, Round, stop, passed, put, judge, commit, begun, Progress, finished, cut_short, to_do,
  progress, attempt, performing, complete, run_phases,
}
use mow.Workflow.Stored.{same_layout}

abbrev pub IsSucceeded : PhaseState → Type 0
IsSucceeded s = s.status ≡ phase_succeeded

-- The status of a run by its error; a run that loads a state returns no other error.
abbrev pub Agrees : Option RunError → State → Type 0
Agrees none st = (st.status ≡ succeeded) × All IsSucceeded st.phases
Agrees (some is_blocked) st = st.status ≡ blocked
Agrees (some phase_error) st = st.status ≡ failed
Agrees (some not_saved) st = Unit
Agrees (some _) st = ⊥

-- The indices grow from i on: none is there twice.
abbrev pub Increasing : ℕ → List ℕ → Type 0
Increasing i [] = Unit
Increasing i (k ∷ ks) = (i ≤ k) × Increasing (k + 1) ks

Increasing-weaken : (i j : ℕ) (ks : List ℕ) → i ≤ j → Increasing j ks → Increasing i ks
Increasing-weaken i j [] h a = tt
Increasing-weaken i j (k ∷ ks) h a = (omega (arith, a.0), a.1)

-- The end of a run from the i-th phase on, behind the states of the phases before it.
pub record IsEnd (before : List PhaseState) (i : ℕ) (f : Finish) : Type 0 where
  pub agrees : Agrees f.error f.state
  pub durable : f.error ≢ some not_saved → f.saved ≡ f.state
  pub keeps : (rest : List PhaseState) × (f.state.phases ≡ before ++ rest)
  pub once : Increasing i f.performed

finish-IsEnd :
    (b : Bool) (saved st : State) (e : Option RunError) (called : List ℕ) (before : List PhaseState)
    (i : ℕ)
    → Agrees e st
    → ((rest : List PhaseState) × (st.phases ≡ before ++ rest))
    → Increasing i called
    → IsEnd before i (finish b saved st e called)
finish-IsEnd true saved st e called before i a k o = record {
  agrees = a;
  durable = λ h. refl;
  keeps = k;
  once = o;
}
finish-IsEnd false saved st e called before i a k o = record {
  agrees = tt;
  durable = λ h. absurd (h refl);
  keeps = k;
  once = o;
}

-- An attempt ends the run, or leaves a phase that succeeded.
abbrev Attempted : List PhaseState → ℕ → Round → Type 0
Attempted before i (stop f) = IsEnd before i f
Attempted before i (passed s) = IsSucceeded s

Round-cases : (r : Round) → ((f : Finish) × (r ≡ stop f)) ⊎ ((s : PhaseState) × (r ≡ passed s))
Round-cases (stop f) = inl (f, refl)
Round-cases (passed s) = inr (s, refl)

Progress-cases : (p : Progress) → (p ≡ finished) ⊎ (p ≡ cut_short) ⊎ (p ≡ to_do)
Progress-cases finished = inl refl
Progress-cases cut_short = inr (inl refl)
Progress-cases to_do = inr (inr refl)

module _ (w : World) (max : ℕ) (st : State) where
  judge-Attempted :
      (before : List PhaseState) (ps : PhaseState) (after : List PhaseState) (saved : State)
      (limit i : ℕ) (r : Result Str Str)
      → Attempted before i (judge w max st before ps after saved limit i r)
  judge-Attempted before ps after saved limit i (err code) =
      finish-IsEnd w.saves_last saved _ (some phase_error) (i ∷ []) before i refl (_, refl)
        (omega arith, tt)
  judge-Attempted before ps after saved limit i (ok raw) =
      elim (Bool-cases (bounded_json w raw limit)) [
        | inl e ↦ rw e refl
        | inr e ↦ rw e (
            finish-IsEnd w.saves_last saved _ (some phase_error) (i ∷ []) before i refl (_, refl)
              (omega arith, tt))
      ]

  commit-Attempted :
      (before after : List PhaseState) (marked : State) (i : ℕ) (r : Round)
      → Attempted before i r
      → Attempted before i (commit w max st before after marked i r)
  commit-Attempted before after marked i (stop f) a = a
  commit-Attempted before after marked i (passed s) a = elim (Bool-cases (w.saves_succeeded i)) [
    | inl e ↦ rw e a
    | inr e ↦ rw e (record {
      agrees = tt;
      durable = λ h. absurd (h refl);
      keeps = (_, refl);
      once = (omega arith, tt);
    })
  ]

  attempt-Attempted :
      (before : List PhaseState) (p : Phase) (ps : PhaseState) (after : List PhaseState)
      (saved : State) (raw : Str) (i : ℕ)
      → Attempted before i (attempt w max st before p ps after saved raw i)
  unfolding attempt
  attempt-Attempted before p ps after saved raw i =
      let ps' : PhaseState = begun w max st ps in
      let marked : State = put w max st before ps' after running ps.id in
      let limit : ℕ = or_max p.max_bytes max in
      elim (Bool-cases (w.saves_running i)) [
        | inr e ↦
            rw (e, attempt)
              (record { agrees = tt; durable = λ h. absurd (h refl); keeps = (_, refl); once = tt })
        | inl e ↦
            rw (e, attempt)
              (commit-Attempted before after marked i
                (judge w max st before ps' after marked limit i (w.perform i raw))
                (judge-Attempted before ps' after marked limit i (w.perform i raw)))
      ]

  complete-IsEnd :
      (before : List PhaseState) (saved : State) (i : ℕ)
      → All IsSucceeded before
      → IsEnd before i (complete w max st before [] saved)
  complete-IsEnd before saved i b =
      finish-IsEnd w.saves_last saved _ none [] before i
        (refl, All-append IsSucceeded before [] b tt) ([], refl) tt

  further :
      (before : List PhaseState) (s : PhaseState) (i : ℕ) (f : Finish)
      → IsEnd (before ++ s ∷ []) (i + 1) f
      → IsEnd before i f
  further before s i f e =
      let (rest, k) = e.keeps in
      record {
        agrees = e.agrees;
        durable = e.durable;
        keeps = (s ∷ rest, k ∙ append_assoc before (s ∷ []) rest);
        once = Increasing-weaken i (i + 1) f.performed (omega arith) e.once;
      }

  performing-IsEnd :
      (before : List PhaseState) (s : PhaseState) (i : ℕ) (f : Finish)
      → IsEnd (before ++ s ∷ []) (i + 1) f
      → IsEnd before i (performing w max st i f)
  performing-IsEnd before s i f e =
      let e' = further before s i f e in
      record {
        agrees = e'.agrees;
        durable = e'.durable;
        keeps = e'.keeps;
        once = (omega arith, e.once);
      }

  pub run_phases-IsEnd :
      (before : List PhaseState) (ps : List Phase) (ss : List PhaseState) (saved : State)
      (raw : Str) (i : ℕ)
      → All IsSucceeded before
      → same_layout ps ss ≡ true
      → IsEnd before i (run_phases w max st before ps ss saved raw i)
  unfolding run_phases same_layout
  run_phases-IsEnd before [] [] saved raw i b l = complete-IsEnd before saved i b
  run_phases-IsEnd before [] (s ∷ ss) saved raw i b l = cc
  run_phases-IsEnd before (p ∷ ps) [] saved raw i b l = cc
  run_phases-IsEnd before (p ∷ ps) (s ∷ ss) saved raw i b l =
      let l' : same_layout ps ss ≡ true = ground arith in
      elim (Progress-cases (progress s.status)) [
        | inl e ↦
            let done : IsSucceeded s = ground arith in
            rw (e, run_phases)
              (further before s i _ (
                run_phases-IsEnd (before ++ s ∷ []) ps ss saved s.output (i + 1)
                  (All-append IsSucceeded before (s ∷ []) b (done, tt)) l'))
        | inr (inl e) ↦
            rw (e, run_phases)
              (finish-IsEnd w.saves_last saved _ (some is_blocked) [] before i refl (_, refl) tt)
        | inr (inr e) ↦
            let a = attempt-Attempted before p s ss saved raw i in
            elim (Round-cases (attempt w max st before p s ss saved raw i)) [
              | inl (f, q) ↦
                  let end : IsEnd before i f = subst (Attempted before i) q a in
                  rw (e, q, run_phases) end
              | inr (s', q) ↦
                  let done : IsSucceeded s' = subst (Attempted before i) q a in
                  let rest =
                    run_phases-IsEnd (before ++ s' ∷ []) ps ss
                      (put w max st before s' ss pending []) s'.output (i + 1)
                      (All-append IsSucceeded before (s' ∷ []) b (done, tt)) l' in
                  rw (e, q, run_phases) (performing-IsEnd before s' i _ rest)
            ]
      ]
