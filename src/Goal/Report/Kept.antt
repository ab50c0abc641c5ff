-- ===== src/Goal/Report/Kept.antt =====
-- What a step's reports keep: the gate on the checklist, its ids, and the evidence's bound.
use mathlib.Core.Path.{subst}
use mow.Prelude.{
  ℕ, ◌+◌, ◌*◌, ◌≤◌, ◌≡◌, ◌≢◌, refl, sym, inl, inr, Bool, true, false, not, ◌&&◌, List, [], ◌∷◌,
  ◌++◌, arith, length, length-append, length-take, Str, trim_space, is_empty, ok, Result-cases,
  Bool-cases,
}
use mow.Goal.Plan.{
  PlanItemStatus, PlanItem, RawItem, Plan, has_items, all_done, set_item, replace_items, update,
}
use mow.Goal.Plan.Ids.{Fresh, replace_items-IsChecklist, set_item-IsUpdate}
use mow.Goal.Report.{
  Fact, FinishSignal, Report, Verdict, finished, broke, progress, unknown, verdict, settle,
  recorded, cap_evidence, max_evidence_per_report, note_summary, apply_plan, status_or_done,
  apply_item, report, report_all,
}

-- One of the three ends of a step; and done only with no open item in the checklist.
pub record IsGated (f : FinishSignal) : Type 0 where
  pub complete : f.done ≡ true → all_done f.plan ≡ true
  pub not_both : f.done ≡ true → (f.failed ≡ false) × (f.cont ≡ false) × (f.reject_done ≡ [])
  pub rejected : f.reject_done ≢ [] → (f.done ≡ false) × (f.failed ≡ false) × (f.cont ≡ true)

pub open_gate : (p : Plan) → (has_items p && not (all_done p)) ≡ false → all_done p ≡ true
unfolding all_done
open_gate [] h = refl
open_gate (it ∷ p) h = ground arith

settle-IsGated :
    (f : FinishSignal) (reason : Str) (v : Verdict) → v ≢ unknown → IsGated (settle f reason v)
unfolding settle
settle-IsGated f reason finished k = elim (Bool-cases (has_items f.plan && not (all_done f.plan))) [
  | inl e ↦
      rw e (record { complete = λ h. cc; not_both = λ h. cc; rejected = λ h. (refl, refl, refl) })
  | inr e ↦ rw e (record {
    complete = λ h. open_gate f.plan e;
    not_both = λ h. (refl, refl, refl);
    rejected = λ h. absurd (h refl);
  })
]
settle-IsGated f reason broke k = record {
  complete = λ h. cc;
  not_both = λ h. cc;
  rejected = λ h. absurd (h refl);
}
settle-IsGated f reason progress k = record {
  complete = λ h. cc;
  not_both = λ h. cc;
  rejected = λ h. absurd (h refl);
}
settle-IsGated f reason unknown k = absurd (k refl)

Fresh-update :
    (seen : List Str) (before : Plan) (st : PlanItemStatus) (note : Str) (it : PlanItem)
    (after : Plan)
    → Fresh seen (before ++ it ∷ after)
    → Fresh seen (before ++ update st note it ∷ after)
Fresh-update seen [] st note it after h = h
Fresh-update seen (x ∷ before) st note it after h =
    (h.0, Fresh-update (x.id ∷ seen) before st note it after h.1)

set_item-Fresh :
    (id status note : Str) (p p' : Plan)
    → set_item id status note p ≡ ok p'
    → Fresh [] p
    → Fresh [] p'
set_item-Fresh id status note p p' h d =
    let (st, q, u) = set_item-IsUpdate id status note p p' h in
    subst (Fresh []) (sym u.is_now)
      (Fresh-update [] u.before st note u.item u.after (subst (Fresh []) u.was d))

recorded-length : (evs : List Fact) → length (recorded evs) ≤ length evs
unfolding recorded
recorded-length [] = omega arith
recorded-length (ev ∷ evs) = ground (arith, recorded-length evs)

pub settle-plan :
    (f : FinishSignal) (reason : Str) (v : Verdict) → (settle f reason v).plan ≡ f.plan
unfolding settle
settle-plan f reason v = ground arith

module _ (is_word : ℕ → Bool) where
  -- A report whose status is one of the words that `report` knows leaves a settled signal: it says
  -- done only when every item of the checklist is done or skipped, it never says done together
  -- with failed, with continue or with a rejection, and a rejected "done" counts as continue.
  pub report-IsGated :
      (f : FinishSignal) (r : Report) → verdict r.status ≢ unknown → IsGated (report is_word f r)
  unfolding report
  report-IsGated f r known = settle-IsGated _ r.reason (verdict r.status) known

  apply_plan-Fresh :
      (f : FinishSignal) (items : List RawItem)
      → Fresh [] f.plan
      → Fresh [] (apply_plan is_word f items).plan
  unfolding apply_plan
  apply_plan-Fresh f [] d = d
  apply_plan-Fresh f (it ∷ its) d = elim (Result-cases (replace_items is_word (it ∷ its))) [
    | inl (e, q) ↦ rw q d
    | inr (p, q) ↦ rw q (replace_items-IsChecklist is_word (it ∷ its) p q).distinct
  ]

  apply_item-Fresh :
      (f : FinishSignal) (id status note : Str)
      → Fresh [] f.plan
      → Fresh [] (apply_item is_word f id status note).plan
  unfolding apply_item
  apply_item-Fresh f id status note d = elim (Bool-cases (is_empty (trim_space id))) [
    | inl e ↦ rw e d
    | inr e ↦
        let call = set_item (trim_space id) (status_or_done is_word status) note f.plan in
        elim (Result-cases call) [
          | inl (x, q) ↦ rw (e, q) d
          | inr (p, q) ↦
              rw (e, q)
                (set_item-Fresh (trim_space id) (status_or_done is_word status) note f.plan p q d)
        ]
  ]

  note_summary-plan : (f : FinishSignal) (s : Str) → (note_summary is_word f s).plan ≡ f.plan
  note_summary-plan f s = ground arith

  report-Fresh :
      (f : FinishSignal) (r : Report) → Fresh [] f.plan → Fresh [] (report is_word f r).plan
  unfolding report
  report-Fresh f r d = subst (Fresh []) (sym (settle-plan _ r.reason (verdict r.status))) (
      apply_item-Fresh _ r.item_id r.item_status r.item_note
        (apply_plan-Fresh _ r.plan (subst (Fresh []) (sym (note_summary-plan f r.summary)) d)))

  same_evidence :
      (f : FinishSignal) (r : Report)
      → (report is_word f r).evidence ≡ f.evidence ++ recorded (cap_evidence r.evidence)
  unfolding report apply_plan apply_item settle
  same_evidence f r = ground arith

  report-length :
      (f : FinishSignal) (r : Report)
      → length (report is_word f r).evidence ≤ length f.evidence + max_evidence_per_report
  report-length f r = rw (same_evidence f r) (
      ground (
        arith,
        length-append f.evidence (recorded (cap_evidence r.evidence)),
        recorded-length (cap_evidence r.evidence),
        length-take max_evidence_per_report r.evidence,
      ))

  -- However many reports a step makes, and whatever they say, the ids of its checklist stay
  -- distinct, and each report adds at most 32 facts.
  pub report_all-bounds :
      (f : FinishSignal) (rs : List Report)
      → Fresh [] f.plan
      → Fresh [] (report_all is_word f rs).plan
        × (length (report_all is_word f rs).evidence
            ≤ length f.evidence + max_evidence_per_report * length rs)
  unfolding report_all
  report_all-bounds f [] d = (d, omega arith)
  report_all-bounds f (r ∷ rs) d =
      let (d', n) = report_all-bounds (report is_word f r) rs (report-Fresh f r d) in
      (d', omega (arith, n, report-length f r))
