-- ===== src/Agent/Loop/Replay.antt =====
-- The turn after a reply: its tool calls are answered before anything else enters the history.
use mow.Prelude.{
  fork, ◌+◌, ◌≡◌, refl, inl, inr, Bool, true, false, List, [], ◌∷◌, ◌++◌, none, some, leb,
  if◌then◌else◌, map, append_assoc, Str, trim_space, ok, Result-cases, Option-cases, str_eq,
}
use mow.Agent.Messages.{Message, is_tool, is_done}
use mow.Agent.History.{ids_of, Replayable, IsBlock}
use mow.Agent.History.Blocks.{
  Replayable-append, IsBlock-append, IsBlock-nil, IsBlock-one, IsBlock-batch,
}
use mow.Agent.Batch.{Batch, run_tool_batch}
use mow.Agent.Batch.Answers.{IsOrderly, Settled, IsComplete}
use mow.Agent.Batch.Complete.{run_tool_batch-IsComplete, repair_tool_results-IsComplete}
use mow.Agent.Loop.{
  Options, Pass, Loop, Round, stop, again, nudge, add_messages, decide_hooks, spoken, stall_limit,
}
use mow.Agent.Loop.Turn.{
  err_truncated_args, end_turn, decide_turn, barren, after_tools, run_tools, cut_batch,
  note_evidence,
}

-- What a pass's surroundings keep to: compaction turns a history that can be sent into another, the
-- provider's reply is no tool result, and the tool calls are orderly.
pub record IsHonest (p : Pass) : Type 0 where
  pub compacts :
      (ms send : List Message) (did : Bool)
      → p.compact ms ≡ ok (send, did)
      → Replayable ms
      → Replayable send
  pub shrinks :
      (ms sent shrunk : List Message) (did : Bool)
      → p.shrink ms sent ≡ ok (shrunk, did)
      → Replayable ms
      → Replayable shrunk
  pub replies : (send : List Message) (m : Message) → p.chat send ≡ ok m → is_tool m ≡ false
  pub orderly : IsOrderly p.surroundings

abbrev pub Replays : Round → Type 0
Replays (stop f) = Replayable f.messages
Replays (again l) = Replayable l.messages

pub IsBlock-nudge : (s : Str) → IsBlock (nudge s ∷ [])
unfolding is_tool str_eq
IsBlock-nudge s = IsBlock-one (nudge s) refl refl

pub IsBlock-nudges : (f : Str → Str) (ss : List Str) → IsBlock (map (λ s. nudge (f s)) ss)
IsBlock-nudges f [] = IsBlock-nil
IsBlock-nudges f (s ∷ ss) =
    IsBlock-append (nudge (f s) ∷ []) (map (λ t. nudge (f t)) ss) (IsBlock-nudge (f s))
      (IsBlock-nudges f ss)

IsBlock-if :
    (b : Bool) (xs ys : List Message) → IsBlock xs → IsBlock ys → IsBlock (if b then xs else ys)
IsBlock-if true xs ys bx by = bx
IsBlock-if false xs ys bx by = by

-- A reply with calls, and the results that answer them.
batch-Replayable :
    (before : List Message) (m : Message) (b : Batch)
    → Replayable before
    → is_tool m ≡ false
    → IsComplete (ids_of m.tool_calls) b
    → Settled b.1
    → Replayable ((before ++ (m ∷ [])) ++ b.0)
batch-Replayable before m b r no_tool c s =
    rw (append_assoc before (m ∷ []) b.0)
      (Replayable-append before (m ∷ b.0) r (IsBlock-batch m b.0 no_tool c.results (c.settled s)))

module _ (o : Options) (p : Pass) (m : Message) where
  end_turn-Replays :
      (l : Loop) (inject : Str) → Replayable l.messages → Replays (end_turn o p l inject)
  unfolding end_turn
  end_turn-Replays l inject r = Replayable-append l.messages _ r (
      IsBlock-append _ _ (IsBlock-if _ _ _ IsBlock-nil (IsBlock-nudge _))
        (IsBlock-nudges trim_space (spoken p.steers_at_end)))

  decide_turn-Replays :
      (l : Loop) (results : List Message)
      → Replayable l.messages
      → Replays (decide_turn o p l m results)
  unfolding decide_turn
  decide_turn-Replays l results r =
      elim (Result-cases
        (decide_hooks p.after_turn_decide m.content (p.explored m.tool_calls results))) [
          | inl (e, h) ↦ rw (h, decide_turn) r
          | inr (inject, h) ↦ rw (h, decide_turn) (end_turn-Replays l inject r)
        ]

  barren-Replays :
      (l : Loop) (results : List Message) → Replayable l.messages → Replays (barren o p l m results)
  unfolding barren
  barren-Replays l results r =
      let advised =
        Replayable-append l.messages _ r (IsBlock-if _ _ _ (IsBlock-nudge _) IsBlock-nil) in
      fork Replays (leb (stall_limit m.tool_calls) (l.barren_runs + 1)) _ _ (λ e. advised)
        (λ e. decide_turn-Replays _ results advised)

  after_tools-Replays :
      (l : Loop) (results : List Message)
      → Replayable l.messages
      → Replays (after_tools o p l m results)
  unfolding after_tools
  after_tools-Replays l results r =
      let noted = note_evidence o m.tool_calls results l.seen in
      fork Replays noted.1 _ _
        (λ e. decide_turn-Replays (record l { seen = noted.0; barren_runs = 0 }) results r)
        (λ e. barren-Replays (record l { seen = noted.0 }) results r)

  module _ (honest : IsHonest p) (before : List Message) (r : Replayable before)
      (no_tool : is_tool m ≡ false) where
    pub run_tools-Replays :
        (l : Loop) → l.messages ≡ before ++ (m ∷ []) → Replays (run_tools o p l m)
    unfolding run_tools
    run_tools-Replays l e =
        let batch = run_tool_batch o.tools o.max_parallel_tools p.surroundings m.tool_calls in
        let c =
          run_tool_batch-IsComplete o.tools o.max_parallel_tools p.surroundings honest.orderly
            m.tool_calls in
        elim (Option-cases batch.1) [
          | inl x ↦
              rw (x, run_tools)
                (after_tools-Replays (add_messages l batch.0) batch.0
                  (rw e (batch-Replayable before m batch r no_tool c (rw x tt))))
          | inr (y, x) ↦
              rw (x, run_tools)
                (fork Replays (is_done y) _ _
                  (λ d. rw e (batch-Replayable before m batch r no_tool c (rw x d)))
                  (λ d. rw e (
                    batch-Replayable before m _ r no_tool
                      (repair_tool_results-IsComplete m.tool_calls batch.0 (some y.text) none
                        c.results)
                      tt)))
        ]

    pub cut_batch-Replays : (l : Loop) → l.messages ≡ before ++ (m ∷ []) → Replays (cut_batch o l m)
    unfolding cut_batch
    cut_batch-Replays l e =
        let done =
          batch-Replayable before m _ r no_tool
            (repair_tool_results-IsComplete m.tool_calls [] (some err_truncated_args) none tt) tt in
        fork Replays (leb 2 (l.truncated_batches + 1)) _ _ (λ x. rw e done) (λ x. rw e done)
