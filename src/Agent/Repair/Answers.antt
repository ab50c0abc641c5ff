-- ===== src/Agent/Repair/Answers.antt =====
-- After the repair every tool call has an answer.
use mow.Prelude.{
  ◌≡◌, refl, ◌∙◌, inl, inr, true, false, ◌||◌, List, [], ◌∷◌, ◌++◌, Option, arith, any, All, ◌&&◌,
  none, some, Str, codes, str_eq, str_eq→eq, str_eq_refl, Bool-cases,
}
use mow.Agent.Messages.{ToolCall, Message}
use mow.Agent.Repair.{answered, placeholder, pads, repair_tool_results}

-- The id is one of those.
abbrev pub Has : Str → List Str → Type 0
Has id ids = any (str_eq id) ids ≡ true

-- Each of the ids is there once, and none is one of those seen.
abbrev pub Fresh : List Str → List Str → Type 0
Fresh seen [] = Unit
Fresh seen (id ∷ ids) = (any (str_eq id) seen ≡ false) × Fresh (id ∷ seen) ids

answered-append :
    (id : Str) (ms ms' : List Message)
    → any (str_eq id) (answered (ms ++ ms'))
      ≡ (any (str_eq id) (answered ms) || any (str_eq id) (answered ms'))
unfolding answered
answered-append id [] ms' = refl
answered-append id (m ∷ ms) ms' = ground (arith, answered-append id ms ms')

module _ (reason : Option Str) where
  pads-Fresh :
      (calls : List ToolCall) (seen : List Str) → Fresh seen (answered (pads reason calls seen))
  unfolding answered pads str_eq
  pads-Fresh [] seen = tt
  pads-Fresh (tc ∷ calls) seen = elim (Bool-cases (any (str_eq tc.id) seen)) [
    | inl e ↦ rw e (pads-Fresh calls seen)
    | inr e ↦ rw e (e, pads-Fresh calls (tc.id ∷ seen))
  ]

  pads-Has :
      (id : Str) (calls : List ToolCall) (seen : List Str)
      → any (λ tc. str_eq id (ToolCall.id tc)) calls ≡ true
      → (any (str_eq id) seen || any (str_eq id) (answered (pads reason calls seen))) ≡ true
  unfolding answered pads str_eq
  pads-Has id [] seen h = cc
  pads-Has id (tc ∷ calls) seen h =
      ground (arith, str_eq→eq id tc.id, pads-Has id calls seen, pads-Has id calls (tc.id ∷ seen))

  -- What an added result says: that the call did not complete, with the reason where there is one.
  abbrev pub report : Option Str → Str
  report none = codes "error: tool call did not complete"
  report (some why) = codes "error: tool call did not complete: " ++ why

  -- A tool result, and nothing else, for one of those calls.
  pub record IsAnswer (calls : List ToolCall) (m : Message) : Type 0 where
    pub is_result : m.role ≡ codes "tool"
    pub answers : any (λ tc. str_eq m.tool_call_id tc.id && str_eq m.name tc.name) calls ≡ true
    pub reports : m.content ≡ report reason
    pub no_calls : m.tool_calls ≡ []

  IsAnswer-more :
      (tc : ToolCall) (calls : List ToolCall) (ms : List Message)
      → All (IsAnswer calls) ms
      → All (IsAnswer (tc ∷ calls)) ms
  IsAnswer-more tc calls [] all = tt
  IsAnswer-more tc calls (m ∷ ms) (a, all) = (
    record {
      is_result = a.is_result;
      answers = ground (arith, a.answers);
      reports = a.reports;
      no_calls = a.no_calls;
    },
    IsAnswer-more tc calls ms all,
  )

  placeholder-report : (r : Option Str) (tc : ToolCall) → (placeholder r tc).content ≡ report r
  placeholder-report none tc = refl
  placeholder-report (some why) tc = refl

  pads-IsAnswer :
      (calls : List ToolCall) (seen : List Str) → All (IsAnswer calls) (pads reason calls seen)
  unfolding pads
  pads-IsAnswer [] seen = tt
  pads-IsAnswer (tc ∷ calls) seen =
      let skip = IsAnswer-more tc calls _ (pads-IsAnswer calls seen) in
      let keep = IsAnswer-more tc calls _ (pads-IsAnswer calls (tc.id ∷ seen)) in
      let first : IsAnswer (tc ∷ calls) (placeholder reason tc) = record {
        is_result = refl;
        answers = rw (str_eq_refl tc.id, str_eq_refl tc.name) refl;
        reports = placeholder-report reason tc;
        no_calls = refl;
      } in
      elim (Bool-cases (any (str_eq tc.id) seen)) [ inl e ↦ rw e skip | inr e ↦ rw e (first, keep) ]

  -- Once a batch is repaired, each of its calls has a tool result. What was there stays as it was
  -- and where it was. All that is added behind it are tool results, each for one of the calls by
  -- its id and name, with the text that it did not complete (and why, where a reason is given);
  -- none is for an id that had a result, and no two are for one id.
  pub repair_tool_results-answers :
      (calls : List ToolCall) (results : List Message)
      → ((id : Str)
          → any (λ tc. str_eq id (ToolCall.id tc)) calls ≡ true
          → Has id (answered (repair_tool_results calls results reason)))
        × ((added : List Message) × (repair_tool_results calls results reason ≡ results ++ added)
            × All (IsAnswer calls) added
            × Fresh (answered results) (answered added))
  unfolding repair_tool_results
  repair_tool_results-answers calls results =
      let added = pads reason calls (answered results) in
      (
        λ id h. answered-append id results added ∙ pads-Has id calls (answered results) h,
        (added, refl, pads-IsAnswer calls (answered results), pads-Fresh calls (answered results)),
      )
