-- ===== src/Agent/Loop/Turned.antt =====
-- The limits that the counters of the loop keep through the turn that follows a reply.
use mow.Prelude.{
  fork, ℕ, ◌+◌, ◌≤◌, ◌≡◌, refl, inl, inr, false, ◌&&◌, List, [], ◌∷◌, leb, Str, is_empty,
  trim_space, Result, ok, Result-cases, Option-cases, Bool-cases, arith,
}
use mow.Agent.Messages.{ToolCall, Message, Err, truncated, is_done}
use mow.Agent.Batch.{run_tool_batch}
use mow.Agent.Loop.{
  Options, Pass, Loop, Round, stop, again, add_messages, before_finish, decide_hooks, stall_limit,
}
use mow.Agent.Loop.Turn.{
  end_turn, decide_turn, barren, after_tools, run_tools, cut_batch, final_answer, with_calls,
  note_evidence, count_same,
}

-- The counters' limits.
pub record IsCounted (l : Loop) : Type 0 where
  pub continuations : l.finish_continuations ≤ 8
  pub cuts : l.truncated_batches ≤ 1
  pub retries : l.overflow_retries ≤ 2
  pub barren : l.barren_runs ≤ 19

-- The turn is done: the next one starts with these counts.
abbrev pub Turned : ℕ → ℕ → ℕ → Round → Type 0
Turned turn retries cuts (stop f) = Unit
Turned turn retries cuts (again l) =
    (l.turn ≡ turn + 1)
    × (l.overflow_retries ≡ retries)
    × (cuts ≤ l.truncated_batches)
    × IsCounted l

stall_limit-bound : (calls : List ToolCall) → stall_limit calls ≤ 20
unfolding stall_limit
stall_limit-bound [] = omega arith
stall_limit-bound (tc ∷ calls) = ground arith

before_finish-room :
    (hooks : List (Str → ℕ → Result Err Str)) (text : Str) (n : ℕ) (more : Str)
    → before_finish hooks text n ≡ ok more
    → is_empty more ≡ false
    → n + 1 ≤ 8
unfolding before_finish
before_finish-room hooks text n more h some_text = elim (Bool-cases (leb 8 n)) [
  | inr room ↦ ground (arith, room)
  | inl full ↦ let nothing : ok [] ≡ ok more = (rw full at h) in ground (arith, nothing, some_text)
]

module _ (o : Options) (p : Pass) (m : Message) where
  end_turn-Turned :
      (l : Loop) (inject : Str)
      → IsCounted l
      → Turned l.turn l.overflow_retries l.truncated_batches (end_turn o p l inject)
  unfolding end_turn
  end_turn-Turned l inject c = (
    refl,
    refl,
    omega arith,
    record {
      continuations = c.continuations;
      cuts = c.cuts;
      retries = c.retries;
      barren = c.barren;
    },
  )

  decide_turn-Turned :
      (l : Loop) (results : List Message)
      → IsCounted l
      → Turned l.turn l.overflow_retries l.truncated_batches (decide_turn o p l m results)
  unfolding decide_turn
  decide_turn-Turned l results c =
      elim (Result-cases
        (decide_hooks p.after_turn_decide m.content (p.explored m.tool_calls results))) [
          | inl (e, h) ↦ rw (h, decide_turn) tt
          | inr (inject, h) ↦ rw (h, decide_turn) (end_turn-Turned l inject c)
        ]

  barren-Turned :
      (l : Loop) (results : List Message)
      → IsCounted l
      → Turned l.turn l.overflow_retries l.truncated_batches (barren o p l m results)
  unfolding barren
  barren-Turned l results c =
      fork (Turned l.turn l.overflow_retries l.truncated_batches)
        (leb (stall_limit m.tool_calls) (l.barren_runs + 1)) _ _ (λ e. tt)
        (λ e. decide_turn-Turned _ results (record {
          continuations = c.continuations;
          cuts = c.cuts;
          retries = c.retries;
          barren = ground (arith, e, stall_limit-bound m.tool_calls);
        }))

  after_tools-Turned :
      (l : Loop) (results : List Message)
      → IsCounted l
      → Turned l.turn l.overflow_retries l.truncated_batches (after_tools o p l m results)
  unfolding after_tools
  after_tools-Turned l results c =
      let noted = note_evidence o m.tool_calls results l.seen in
      fork (Turned l.turn l.overflow_retries l.truncated_batches) noted.1 _ _
        (λ e. decide_turn-Turned _ results (record {
          continuations = c.continuations;
          cuts = c.cuts;
          retries = c.retries;
          barren = omega arith;
        }))
        (λ e. barren-Turned _ results (record {
          continuations = c.continuations;
          cuts = c.cuts;
          retries = c.retries;
          barren = c.barren;
        }))

  run_tools-Turned :
      (l : Loop)
      → IsCounted l
      → Turned l.turn l.overflow_retries l.truncated_batches (run_tools o p l m)
  unfolding run_tools
  run_tools-Turned l c =
      let batch = run_tool_batch o.tools o.max_parallel_tools p.surroundings m.tool_calls in
      elim (Option-cases batch.1) [
        | inl e ↦
            rw (e, run_tools)
              (after_tools-Turned (add_messages l batch.0) batch.0 (record {
                continuations = c.continuations;
                cuts = c.cuts;
                retries = c.retries;
                barren = c.barren;
              }))
        | inr (x, e) ↦
            rw (e, run_tools)
              (fork (Turned l.turn l.overflow_retries l.truncated_batches) (is_done x) _ _ (λ d. tt)
                (λ d. tt))
      ]

  cut_batch-Turned :
      (l : Loop)
      → IsCounted l
      → Turned l.turn l.overflow_retries l.truncated_batches (cut_batch o l m)
  unfolding cut_batch
  cut_batch-Turned l c =
      fork (Turned l.turn l.overflow_retries l.truncated_batches) (leb 2 (l.truncated_batches + 1))
        _ _ (λ e. tt)
        (λ e. (
          refl,
          refl,
          omega arith,
          record {
            continuations = c.continuations;
            cuts = ground (arith, e);
            retries = c.retries;
            barren = c.barren;
          },
        ))

  pub final_answer-Turned :
      (l : Loop)
      → IsCounted l
      → Turned l.turn l.overflow_retries l.truncated_batches (final_answer o p l m)
  unfolding final_answer
  final_answer-Turned l c =
      let text = trim_space m.content in
      fork (Turned l.turn l.overflow_retries l.truncated_batches) (is_empty text && truncated m) _ _
        (λ e. tt)
        (λ e. elim (Result-cases (before_finish p.before_finish text l.finish_continuations)) [
          | inl (x, h) ↦ rw h tt
          | inr (more, h) ↦ rw h (
              fork (Turned l.turn l.overflow_retries l.truncated_batches) (is_empty more) _ _
                (λ d. tt)
                (λ d. (
                  refl,
                  refl,
                  omega arith,
                  record {
                    continuations =
                        before_finish-room p.before_finish text l.finish_continuations more h d;
                    cuts = c.cuts;
                    retries = c.retries;
                    barren = c.barren;
                  },
                )))
        ])

  pub with_calls-Turned :
      (l : Loop)
      → IsCounted l
      → Turned l.turn l.overflow_retries l.truncated_batches (with_calls o p l m)
  unfolding with_calls
  with_calls-Turned l c =
      let l' = record l { finish_continuations = 0 } in
      let c' : IsCounted l' = record {
        continuations = omega arith;
        cuts = c.cuts;
        retries = c.retries;
        barren = c.barren;
      } in
      fork (Turned l.turn l.overflow_retries l.truncated_batches) (truncated m) _ _
        (λ e. cut_batch-Turned l' c')
        (λ e. run_tools-Turned (count_same o l' m.tool_calls) (record {
          continuations = c'.continuations;
          cuts = c.cuts;
          retries = c.retries;
          barren = c.barren;
        }))
