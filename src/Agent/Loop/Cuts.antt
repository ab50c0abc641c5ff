-- ===== src/Agent/Loop/Cuts.antt =====
-- What becomes of a reply whose tool calls the provider cut.
use mathlib.Core.Path.{subst}
use mow.Prelude.{
  ◌+◌, ◌≤◌, ◌≡◌, refl, ap, ◌∙◌, inl, inr, true, false, List, [], ◌∷◌, some, leb, ◌==◌,
  if◌then◌else◌, length, arith, Bool-cases,
}
use mow.Agent.Messages.{Message, truncated}
use mow.Agent.Repair.{repair_tool_results}
use mow.Agent.Think.{visible}
use mow.Agent.Loop.{Options, Pass, Loop, stop, again, answer, add_messages, next_turn}
use mow.Agent.Loop.Turn.{
  err_truncated_args, err_cut_arguments, cut_batch, with_calls, on_reply, commit,
}
use mow.Agent.Loop.Passes.{pass}
use mow.Agent.Loop.Turned.{IsCounted}
use mow.Agent.Loop.Bounds.{interrupts, Advances, on_reply-Advances, pass-Advances}

module _ (o : Options) (p : Pass) (l : Loop) (m : Message) where
  -- The reply in the history, and an answer to each of its calls, saying that it did not run.
  abbrev pub told : Loop
  told =
      let reply = record m { content = visible m.content } in
      record (add_messages (commit o l reply)
        (repair_tool_results m.tool_calls [] (some err_truncated_args))) {
          finish_continuations = 0;
          truncated_batches = l.truncated_batches + 1;
        }

  on_reply-cut :
      (length m.tool_calls == 0) ≡ false
      → truncated m ≡ true
      → on_reply o p l m ≡ (
          if leb 2 (l.truncated_batches + 1)
          then stop (
              answer told
                (record m { content = visible m.content })
                (some (err_cut_arguments o (l.truncated_batches + 1))))
          else again (next_turn told))
  unfolding on_reply with_calls cut_batch truncated
  on_reply-cut calls cut = rw (calls, cut) refl

module _ (o : Options) where
  -- The passes, each of which goes on, lead from one state of the loop to another.
  abbrev pub Goes : List Pass → Loop → Loop → Type 0
  Goes [] l l' = l ≡ l'
  Goes (p ∷ ps) l l' = (l1 : Loop) × (pass o p l ≡ again l1) × Goes ps l1 l'

  Goes-cuts :
      (ps : List Pass) (l l' : Loop)
      → IsCounted l
      → Goes ps l l'
      → l.truncated_batches ≤ l'.truncated_batches
  Goes-cuts [] l l' c same =
      let e : l.truncated_batches ≡ l'.truncated_batches = ap Loop.truncated_batches same in
      omega arith
  Goes-cuts (p ∷ ps) l l' c (l1, e, g) =
      let a : Advances (interrupts p) l (again l1) =
        subst (Advances (interrupts p) l) e (pass-Advances o p l c) in
      omega (arith, a.cuts_kept, Goes-cuts ps l1 l' a.counted g)

  -- Where a reply with tool calls is cut at the token limit and the run goes on, it goes on to the
  -- next turn with an answer to each of the calls that says that none of them ran. After any passes
  -- that go on from there, the next such reply ends the run, with an error and an answer to each of
  -- its calls; so the passes between them, good batches of tools too, do not reset the count. The
  -- counters are within their limits before the first.
  pub on_reply-cut_twice :
      (p p' : Pass) (ps : List Pass) (l l1 l2 : Loop) (m m' : Message)
      → IsCounted l
      → (length m.tool_calls == 0) ≡ false
      → truncated m ≡ true
      → on_reply o p l m ≡ again l1
      → Goes ps l1 l2
      → (length m'.tool_calls == 0) ≡ false
      → truncated m' ≡ true
      → (l1 ≡ next_turn (told o p l m))
        × (on_reply o p' l2 m'
            ≡ stop (
                answer
                  (told o p' l2 m')
                  (record m' { content = visible m'.content })
                  (some (err_cut_arguments o (l2.truncated_batches + 1)))))
  on_reply-cut_twice p p' ps l l1 l2 m m' c calls cut goes ps' calls' cut' =
      let first = on_reply-cut o p l m calls cut in
      let second = on_reply-cut o p' l2 m' calls' cut' in
      let a : Advances (interrupts p) l (again l1) =
        subst (Advances (interrupts p) l) goes (on_reply-Advances o p l m c) in
      let kept = Goes-cuts ps l1 l2 a.counted ps' in
      elim (Bool-cases (leb 2 (l.truncated_batches + 1))) [
        | inl e ↦ let ends = (rw e at first) in cc
        | inr e ↦
            let on = (rw e at first) in
            let same : l1 ≡ next_turn (told o p l m) = cc in
            let one : l1.truncated_batches ≡ l.truncated_batches + 1 =
              ap Loop.truncated_batches same in
            let full : leb 2 (l2.truncated_batches + 1) ≡ true = ground (arith, one, kept) in
            (same, second ∙ (rw full refl))
      ]
