-- ===== src/Goal/Step/Gate.antt =====
-- The gate of a step: it is done only with a checklist that is.
use mow.Prelude.{
  ℕ, ◌≡◌, ◌≢◌, refl, sym, ◌∙◌, inl, inr, Bool, true, false, not, ◌&&◌, ◌||◌, List, [], ◌∷◌, arith,
  All, if◌then◌else◌, Str, is_empty, trim_space, Bool-cases, Option-cases, Result, ok, err,
}
use mow.Goal.Plan.{Plan, RawItem, PlanError, has_items, all_done, replace_items, set_item}
use mow.Goal.Report.{
  FinishSignal, Report, unknown, verdict, settle, note_summary, note_evidence, status_or_done,
  apply_plan, apply_item, report, report_all, seed_plan, new_signal, touch,
}
use mow.Goal.Report.Kept.{IsGated, report-IsGated, settle-plan, open_gate}
use mow.Goal.State.{State}
use mow.Goal.Run.{outcome_done, StepResult}
use mow.Goal.Step.{
  Prompted, TextOutcome, silent, says_done, says_failed, resolve_outcome_text, signal, base,
  by_text, by_signal, run_step,
}

-- The status of the report is a word that `report` knows.
abbrev pub IsKnown : Report → Type 0
IsKnown r = verdict r.status ≢ unknown

-- A signal that no report has touched holds the checklist that it was seeded with.
abbrev Tracks : Plan → FinishSignal → Type 0
Tracks p f = f.plan_touched ≡ false → f.plan ≡ p

touch-Tracks :
    (p : Plan) (f : FinishSignal) (r : Result PlanError Plan) → Tracks p f → Tracks p (touch f r)
touch-Tracks p f (ok q) t = λ h. cc
touch-Tracks p f (err e) t = t

settle-touched :
    (f : FinishSignal) (reason : Str) (v : _) → (settle f reason v).plan_touched ≡ f.plan_touched
unfolding settle
settle-touched f reason v = ground arith

module _ (is_word : ℕ → Bool) where
  apply_plan-Tracks :
      (p : Plan) (f : FinishSignal) (items : List RawItem)
      → Tracks p f
      → Tracks p (apply_plan is_word f items)
  unfolding apply_plan
  apply_plan-Tracks p f [] t = t
  apply_plan-Tracks p f (it ∷ its) t = touch-Tracks p f (replace_items is_word (it ∷ its)) t

  apply_item-Tracks :
      (p : Plan) (f : FinishSignal) (id status note : Str)
      → Tracks p f
      → Tracks p (apply_item is_word f id status note)
  unfolding apply_item
  apply_item-Tracks p f id status note t = elim (Bool-cases (is_empty (trim_space id))) [
    | inl e ↦ rw e t
    | inr e ↦
        let set = set_item (trim_space id) (status_or_done is_word status) note f.plan in
        rw e (touch-Tracks p f set t)
  ]

  note_summary-Tracks :
      (p : Plan) (f : FinishSignal) (s : Str) → Tracks p f → Tracks p (note_summary is_word f s)
  note_summary-Tracks p f s t = elim (Bool-cases (is_empty (trim_space s))) [
    | inl e ↦ rw e t
    | inr e ↦ rw e t
  ]

  report-Tracks :
      (p : Plan) (f : FinishSignal) (r : Report) → Tracks p f → Tracks p (report is_word f r)
  unfolding report
  report-Tracks p f r t =
      let f1 = note_summary is_word f r.summary in
      let f2 = apply_plan is_word f1 r.plan in
      let f3 = note_evidence is_word f2 r.evidence in
      let f4 : FinishSignal = apply_item is_word f3 r.item_id r.item_status r.item_note in
      let t4 : Tracks p f4 =
        apply_item-Tracks p f3 r.item_id r.item_status r.item_note
          (apply_plan-Tracks p f1 r.plan (note_summary-Tracks p f r.summary t)) in
      λ h.
        settle-plan f4 r.reason (verdict r.status)
        ∙ t4 (sym (settle-touched f4 r.reason (verdict r.status)) ∙ h)

  -- What a step's signal holds after its reports.
  report_all-holds :
      (p : Plan) (f : FinishSignal) (rs : List Report)
      → IsGated f
      → Tracks p f
      → All IsKnown rs
      → IsGated (report_all is_word f rs) × Tracks p (report_all is_word f rs)
  unfolding report_all
  report_all-holds p f [] g t k = (g, t)
  report_all-holds p f (r ∷ rs) g t k =
      report_all-holds p (report is_word f r) rs (report-IsGated is_word f r k.0)
        (report-Tracks p f r t) k.1

  seed-holds : (p : Plan) → IsGated (seed_plan new_signal p)
  seed-holds [] = record { complete = λ h. cc; not_both = λ h. cc; rejected = λ h. absurd (h refl) }
  seed-holds (it ∷ p) = record {
    complete = λ h. cc;
    not_both = λ h. cc;
    rejected = λ h. absurd (h refl);
  }

  seed-Tracks : (p : Plan) → Tracks p (seed_plan new_signal p)
  seed-Tracks [] h = refl
  seed-Tracks (it ∷ p) h = refl

-- The checklist of the result.
base-all_done :
    (st_plan : Plan) (f : FinishSignal)
    → Tracks st_plan f
    → all_done f.plan ≡ true
    → all_done (if f.plan_touched || has_items f.plan then f.plan else st_plan) ≡ true
base-all_done q f t d = elim (Bool-cases f.plan_touched) [
  | inl e ↦ rw e d
  | inr e ↦ ground (arith, t e)
]

module _ (is_word : ℕ → Bool) (parse_status_json : Str → TextOutcome)
    (pick_summary : Str → Str → Str) where
  by_text-gate :
      (out : StepResult) (o : TextOutcome)
      → (by_text is_word parse_status_json pick_summary out o).outcome ≡ outcome_done
      → all_done (by_text is_word parse_status_json pick_summary out o).plan ≡ true
  unfolding by_text
  by_text-gate out silent h = cc
  by_text-gate out (says_failed r s) h = cc
  by_text-gate out (says_done s) h =
      elim (Bool-cases (has_items out.plan && not (all_done out.plan))) [
        | inl e ↦ ground arith
        | inr e ↦ rw e (open_gate out.plan e)
      ]

  by_signal-gate :
      (out : StepResult) (f : FinishSignal)
      → (f.done ≡ true → all_done out.plan ≡ true)
      → (by_signal is_word parse_status_json pick_summary out f).outcome ≡ outcome_done
      → all_done (by_signal is_word parse_status_json pick_summary out f).plan ≡ true
  unfolding by_signal
  by_signal-gate out f g h = elim (Bool-cases (not (is_empty f.reject_done))) [
    | inl a ↦ ground arith
    | inr a ↦ elim (Bool-cases f.done) [
      | inl b ↦ rw (a, b) (g b)
      | inr b ↦ elim (Bool-cases f.failed) [
        | inl c ↦ ground arith
        | inr c ↦ elim (Bool-cases (f.cont || f.plan_touched)) [
          | inl d ↦ ground arith
          | inr d ↦
              let o : TextOutcome =
                resolve_outcome_text is_word parse_status_json pick_summary out.text in
              let h' : (by_text is_word parse_status_json pick_summary out o).outcome
                  ≡ outcome_done =
                ground arith in
              rw (a, b, c, d) (by_text-gate out o h')
        ]
      ]
    ]
  ]

  -- A step whose reports all say a status that `report` knows is done only with a checklist whose
  -- every item is done or skipped, whether a report or the text says that it is done.
  pub run_step-gate :
      (st : State) (p : Prompted)
      → All IsKnown p.reports
      → (run_step is_word parse_status_json pick_summary st p).0.outcome ≡ outcome_done
      → all_done (run_step is_word parse_status_json pick_summary st p).0.plan ≡ true
  unfolding run_step signal
  run_step-gate st p k h =
      let f : FinishSignal = signal is_word parse_status_json pick_summary st p in
      let out : StepResult = base is_word parse_status_json pick_summary st p f in
      let (g, t) =
        report_all-holds is_word st.plan (seed_plan new_signal st.plan) p.reports
          (seed-holds is_word st.plan) (seed-Tracks is_word st.plan) k in
      elim (Option-cases p.error) [
        | inl e ↦
            let h' : (by_signal is_word parse_status_json pick_summary out f).outcome
                ≡ outcome_done =
              ground arith in
            rw (e, run_step)
              (by_signal-gate out f (λ d. base-all_done st.plan f t (g.complete d)) h')
        | inr (x, e) ↦ ground arith
      ]
