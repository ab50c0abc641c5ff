-- ===== src/Agent/Batch/Answers.antt =====
-- A batch answers calls of its own only, and all of them where the loop goes on.
use mow.Prelude.{
  ℕ, suc, Bool, true, false, List, [], ◌∷◌, Option, none, some, ◌≡◌, ◌⊎◌, refl, inl, inr, map, any,
  All, All-map, Str, str_eq, str_eq_refl, Bool-cases, Option-cases, arith,
}
use mow.Agent.Messages.{ToolCall, Message, is_tool, Err, is_done}
use mow.Agent.Repair.{answered}
use mow.Agent.Repair.Answers.{Has}
use mow.Agent.History.{ids_of}
use mow.Agent.History.Blocks.{IsResult}
use mow.Agent.Tools.{Tool}
use mow.Agent.Tools.Exec.{ToolSlot, soft, hard}
use mow.Agent.Batch.{
  Batch, to_last, append_post_batch_context, post_batch_notes, join_notes, one_by_one,
  run_tool_batch_sequential, soft_messages, gather_slots, Schedule, Surroundings,
}

-- The message is a result of the call.
abbrev pub IsAnswer : ToolCall → Message → Type 0
IsAnswer tc m = (is_tool m ≡ true) × (m.tool_call_id ≡ tc.id)

-- The error does not end the run as a success.
abbrev pub IsFailure : Err → Type 0
IsFailure e = is_done e ≡ false

-- What the code that a batch calls keeps to: a result carries its call's id, no hard error and no
-- context error is `ErrDone`, and where the parallel calls met no hard error and the context is
-- alive, each of them has its result.
pub record IsOrderly (w : Surroundings) : Type 0 where
  pub answers : (tc : ToolCall) (m : Message) (d : Bool) → w.exec tc ≡ soft m d → IsAnswer tc m
  pub failures : (tc : ToolCall) (e : Err) → w.exec tc ≡ hard e → IsFailure e
  pub contexts : (i : ℕ) (e : Err) → w.cancelled i ≡ some e → IsFailure e
  pub start : (e : Err) → w.at_start ≡ some e → IsFailure e
  pub slots :
      (tc : ToolCall) (m : Message) (d : Bool)
      → Schedule.slot w.schedule tc ≡ soft m d
      → IsAnswer tc m
  pub firsts : (e : Err) → Schedule.first w.schedule ≡ some e → IsFailure e
  pub ends : (e : Err) → Schedule.at_end w.schedule ≡ some e → IsFailure e
  pub complete :
      Schedule.first w.schedule ≡ none
      → Schedule.at_end w.schedule ≡ none
      → (tc : ToolCall) → (m : Message) × (d : Bool) × (Schedule.slot w.schedule tc ≡ soft m d)

-- Each of the ids is answered.
abbrev pub AllAnswered : List Str → List Message → Type 0
AllAnswered ids out = (id : Str) → any (str_eq id) ids ≡ true → Has id (answered out)

-- The loop goes on, or ends as a success.
abbrev pub Settled : Option Err → Type 0
Settled none = Unit
Settled (some e) = is_done e ≡ true

-- What the loop relies on.
pub record IsComplete (ids : List Str) (b : Batch) : Type 0 where
  pub results : All (IsResult ids) b.0
  pub settled : Settled b.1 → AllAnswered ids b.0

pub IsResult-weaken :
    (x : Str) (ids : List Str) (out : List Message)
    → All (IsResult ids) out
    → All (IsResult (x ∷ ids)) out
IsResult-weaken x ids out h = All-map (λ m r. (r.0, ground (arith, r.1))) out h

-- An answer before the others.
pub IsResult-answer :
    (tc : ToolCall) (ids : List Str) (m : Message) (out : List Message)
    → IsAnswer tc m
    → All (IsResult ids) out
    → All (IsResult (tc.id ∷ ids)) (m ∷ out)
IsResult-answer tc ids m out a h =
    ((a.0, rw (a.1, str_eq_refl) refl), IsResult-weaken tc.id ids out h)

pub AllAnswered-answer :
    (tc : ToolCall) (ids : List Str) (m : Message) (out : List Message)
    → IsAnswer tc m
    → AllAnswered ids out
    → AllAnswered (tc.id ∷ ids) (m ∷ out)
unfolding answered is_tool
AllAnswered-answer tc ids m out a h id has = rw (a.0, a.1) (ground (arith, h id, has))

pub absurd_failure : (e : Err) → IsFailure e → is_done e ≡ true → ⊥
absurd_failure e f d = cc

ToolSlot-cases :
    (s : ToolSlot) → ((m : Message) × (d : Bool) × (s ≡ soft m d)) ⊎ ((e : Err) × (s ≡ hard e))
ToolSlot-cases (soft m d) = inl (m, d, refl)
ToolSlot-cases (hard e) = inr (e, refl)

-- The note at the end of the batch changes no id.
to_last-results :
    (ids : List Str) (note : Str) (out : List Message)
    → All (IsResult ids) out
    → All (IsResult ids) (to_last note out)
unfolding to_last is_tool
to_last-results ids note [] h = tt
to_last-results ids note (m ∷ []) h = h
to_last-results ids note (m ∷ n ∷ ms) h = (h.0, to_last-results ids note (n ∷ ms) h.1)

answered-to_last : (note : Str) (out : List Message) → answered (to_last note out) ≡ answered out
unfolding to_last answered
answered-to_last note [] = refl
answered-to_last note (m ∷ []) = refl
answered-to_last note (m ∷ n ∷ ms) = rw (answered-to_last note (n ∷ ms)) refl

-- The batch's own result, with the note.
IsComplete-note :
    (tools : List Tool) (calls : List ToolCall) (ids : List Str) (out : List Message)
    (e e' : Option Err)
    → (Settled e' → Settled e)
    → IsComplete ids (out, e)
    → IsComplete ids (append_post_batch_context tools calls out, e')
unfolding append_post_batch_context
IsComplete-note tools calls ids out e e' s c = go (post_batch_notes tools calls [])
  where
    go :
        (notes : List Str)
        → IsComplete ids (elim notes [ [] ↦ out | n ∷ ns ↦ to_last (join_notes (n ∷ ns)) out ], e')
    go [] = record { results = c.results; settled = λ x. c.settled (s x) }
    go (n ∷ ns) = record {
      results = to_last-results ids _ out c.results;
      settled = λ x id has. rw answered-to_last (c.settled (s x) id has);
    }

module _ (tools : List Tool) (w : Surroundings) (o : IsOrderly w) where
  one_by_one-results :
      (i : ℕ) (calls : List ToolCall)
      → All (IsResult (ids_of calls)) (one_by_one w.cancelled w.exec tools i calls).0
  unfolding one_by_one
  one_by_one-results i [] = tt
  one_by_one-results i (tc ∷ calls) = elim (Option-cases (w.cancelled i)) [
    | inr (e, c) ↦ rw (c, one_by_one) tt
    | inl c ↦ elim (ToolSlot-cases (w.exec tc)) [
      | inr (e, s) ↦ rw (c, s, one_by_one) tt
      | inl (m, d, s) ↦
          rw (c, s, one_by_one)
            (IsResult-answer tc (ids_of calls) m _ (o.answers tc m d s)
              (one_by_one-results (suc i) calls))
    ]
  ]

  one_by_one-Settled :
      (i : ℕ) (calls : List ToolCall)
      → Settled (one_by_one w.cancelled w.exec tools i calls).2
      → AllAnswered (ids_of calls) (one_by_one w.cancelled w.exec tools i calls).0
  unfolding one_by_one
  one_by_one-Settled i [] = λ s id has. cc
  one_by_one-Settled i (tc ∷ calls) = elim (Option-cases (w.cancelled i)) [
    | inr (e, c) ↦ rw (c, one_by_one) (λ s. absurd (absurd_failure e (o.contexts i e c) s))
    | inl c ↦ elim (ToolSlot-cases (w.exec tc)) [
      | inr (e, x) ↦ rw (c, x, one_by_one) (λ s. absurd (absurd_failure e (o.failures tc e x) s))
      | inl (m, d, x) ↦
          rw (c, x, one_by_one)
            (λ s.
              AllAnswered-answer tc (ids_of calls) m _ (o.answers tc m d x)
                (one_by_one-Settled (suc i) calls s))
    ]
  ]

  pub run_tool_batch_sequential-IsComplete :
      (calls : List ToolCall)
      → IsComplete (ids_of calls) (run_tool_batch_sequential w.cancelled w.exec tools calls)
  unfolding run_tool_batch_sequential
  run_tool_batch_sequential-IsComplete calls =
      let result = one_by_one w.cancelled w.exec tools 0 calls in
      let results = one_by_one-results 0 calls in
      let settled = one_by_one-Settled 0 calls in
      elim (Option-cases result.2) [
        | inr (e, r) ↦
            rw (r, run_tool_batch_sequential)
              (record { results = results; settled = (rw r at settled) })
        | inl r ↦
            let all_answered : AllAnswered (ids_of calls) result.0 = (rw r at settled) tt in
            elim (Bool-cases result.1) [
              | inl d ↦
                  rw (r, d, run_tool_batch_sequential)
                    (record { results = results; settled = λ s. all_answered })
              | inr d ↦
                  rw (r, d, run_tool_batch_sequential)
                    (IsComplete-note tools calls (ids_of calls) result.0 none none (λ s. s)
                      (record { results = results; settled = λ s. all_answered }))
            ]
      ]

  soft_messages-results :
      (calls : List ToolCall)
      → All (IsResult (ids_of calls)) (soft_messages (map (Schedule.slot w.schedule) calls))
  unfolding soft_messages
  soft_messages-results [] = tt
  soft_messages-results (tc ∷ calls) = elim (ToolSlot-cases (Schedule.slot w.schedule tc)) [
    | inl (m, d, s) ↦
        rw s
          (IsResult-answer tc (ids_of calls) m _ (o.slots tc m d s) (soft_messages-results calls))
    | inr (e, s) ↦ rw s (IsResult-weaken tc.id (ids_of calls) _ (soft_messages-results calls))
  ]

  soft_messages-answered :
      (calls : List ToolCall)
      → Schedule.first w.schedule ≡ none
      → Schedule.at_end w.schedule ≡ none
      → AllAnswered (ids_of calls) (soft_messages (map (Schedule.slot w.schedule) calls))
  unfolding soft_messages
  soft_messages-answered [] f a = λ id has. cc
  soft_messages-answered (tc ∷ calls) f a =
      let (m, d, s) = o.complete f a tc in
      rw s (
        AllAnswered-answer tc (ids_of calls) m _ (o.slots tc m d s)
          (soft_messages-answered calls f a))

  pub gather_slots-IsComplete :
      (calls : List ToolCall)
      → IsComplete (ids_of calls) (
          gather_slots tools calls
            (map (Schedule.slot w.schedule) calls)
            (Schedule.first w.schedule)
            (Schedule.at_end w.schedule))
  unfolding gather_slots
  gather_slots-IsComplete calls =
      let results = soft_messages-results calls in
      elim (Option-cases (Schedule.first w.schedule)) [
        | inr (e, f) ↦ rw f (record {
          results = results;
          settled = λ s. absurd (absurd_failure e (o.firsts e f) s);
        })
        | inl f ↦ elim (Option-cases (Schedule.at_end w.schedule)) [
          | inr (e, a) ↦
              rw (f, a)
                (record {
                  results = results;
                  settled = λ s. absurd (absurd_failure e (o.ends e a) s);
                })
          | inl a ↦
              rw (f, a)
                (IsComplete-note tools calls (ids_of calls) _ none _ (λ s. tt)
                  (record { results = results; settled = λ s. soft_messages-answered calls f a }))
        ]
      ]
