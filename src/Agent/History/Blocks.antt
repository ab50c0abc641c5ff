-- ===== src/Agent/History/Blocks.antt =====
-- The messages that can follow a history that can be sent again.
use mow.Prelude.{
  true, false, List, [], ◌∷◌, ◌++◌, Option, none, some, ◌≡◌, refl, inl, inr, any, All, All-map, Str,
  str_eq, str_eq→eq, str_eq_refl, ap, Bool-cases, arith,
}
use mow.Agent.Messages.{Message, is_tool}
use mow.Agent.Repair.{answered}
use mow.Agent.Repair.Answers.{Has}
use mow.Agent.History.{ids_of, without, scan, Replayable, IsBlock}

-- Reading on from where a reading ended.
scan_on : Option (List Str × List Str) → List Message → Option (List Str × List Str)
unfolding scan
scan_on none ms = none
scan_on (some (ids, left)) ms = scan ids left ms

scan-append :
    (ids left : List Str) (xs ys : List Message)
    → scan ids left (xs ++ ys) ≡ scan_on (scan ids left xs) ys
unfolding scan scan_on
scan-append ids left [] ys = refl
scan-append ids left (m ∷ ms) ys = ground (
  arith,
  scan-append ids (without m.tool_call_id left) ms ys,
  scan-append (ids_of m.tool_calls) (ids_of m.tool_calls) ms ys,
)

module _ (xs ys : List Message) where
  pub Replayable-append : Replayable xs → IsBlock ys → Replayable (xs ++ ys)
  unfolding scan_on
  Replayable-append (ids, e) b = let (ids', e') = b ids in (ids', rw (scan-append, e) e')

  pub IsBlock-append : IsBlock xs → IsBlock ys → IsBlock (xs ++ ys)
  unfolding scan_on
  IsBlock-append a b ids =
      let (ids', e) = a ids in let (ids'', e') = b ids' in (ids'', rw (scan-append, e) e')

pub IsBlock-nil : IsBlock []
unfolding scan
IsBlock-nil ids = (ids, refl)

-- A message that is no tool result and calls no tool.
pub IsBlock-one : (m : Message) → is_tool m ≡ false → m.tool_calls ≡ [] → IsBlock (m ∷ [])
unfolding scan
IsBlock-one m no_tool no_calls ids = ([], rw (no_tool, no_calls) refl)

-- The message answers one of the calls.
abbrev pub IsResult : List Str → Message → Type 0
IsResult ids m = (is_tool m ≡ true) × (any (str_eq m.tool_call_id) ids ≡ true)

-- The ids that the results leave open.
remaining : List Message → List Str → List Str
unfolding without
remaining [] left = left
remaining (m ∷ ms) left = remaining ms (without m.tool_call_id left)

scan-results :
    (ids left : List Str) (out : List Message)
    → All (IsResult ids) out
    → scan ids left out ≡ some (ids, remaining out left)
unfolding scan remaining
scan-results ids left [] h = refl
scan-results ids left (m ∷ ms) h =
    rw (h.0.0, h.0.1) (scan-results ids (without m.tool_call_id left) ms h.1)

without-Has :
    (id x : Str) (xs : List Str)
    → any (str_eq id) (without x xs) ≡ true
    → (any (str_eq id) xs ≡ true) × (str_eq id x ≡ false)
unfolding without
without-Has id x [] h = cc
without-Has id x (y ∷ ys) h = elim (Bool-cases (str_eq id y)) [
  | inl e ↦
      let same = ap (λ z. str_eq z x) (str_eq→eq id y e) in
      ground (arith, without-Has id x ys, same, e, h)
  | inr e ↦ ground (arith, without-Has id x ys, e, h)
]

remaining-nil :
    (out : List Message) (left : List Str)
    → ((id : Str) → any (str_eq id) left ≡ true → Has id (answered out))
    → All (λ m. is_tool m ≡ true) out
    → remaining out left ≡ []
unfolding remaining answered is_tool
remaining-nil [] [] h t = refl
remaining-nil [] (id ∷ left) h t = let bad : false ≡ true = h id (rw (str_eq_refl id) refl) in cc
remaining-nil (m ∷ ms) left h t =
    remaining-nil ms (without m.tool_call_id left)
      (λ id has.
        let (was, other) = without-Has id m.tool_call_id left has in
        let answers : Has id (answered (m ∷ ms)) = h id was in (rw (t.0, other) at answers))
      t.1

-- A message with tool calls, followed by results that answer each of them and no other.
pub IsBlock-batch :
    (m : Message) (out : List Message)
    → is_tool m ≡ false
    → All (IsResult (ids_of m.tool_calls)) out
    → ((id : Str) → any (str_eq id) (ids_of m.tool_calls) ≡ true → Has id (answered out))
    → IsBlock (m ∷ out)
unfolding scan
IsBlock-batch m out no_tool results all_answered ids =
    let calls = ids_of m.tool_calls in
    (
      calls,
      rw
          (
            no_tool,
            scan-results calls calls out results,
            remaining-nil out calls all_answered (All-map (λ n r. r.0) out results),
          )
          refl,
    )
