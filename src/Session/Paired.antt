-- ===== src/Session/Paired.antt =====
-- A history that is loaded can be sent: every call with an id has a result right after its message.
use mathlib.Core.Path.{subst}
use mow.Prelude.{
  append-nil, if◌then◌else◌, fork, Bool, true, false, ◌||◌, List, [], ◌∷◌, ◌++◌, ◌≡◌, refl, sym,
  any, All, Str, str_eq, str_eq→eq, str_eq_refl, is_empty, arith,
}
use mow.Agent.Messages.{ToolCall, Message, is_tool, tool_role, tool_result}
use mow.Session.Repair.{is_caller, clean, gaps, fill, repair_tool_calls, interrupted}

-- The ids of the results that a list begins with.
unfoldable pub lead : List Message → List Str
lead [] = []
lead (m ∷ ms) = let rest = lead ms in if is_tool m then m.tool_call_id ∷ rest else []

-- The call has a result among these ids, where it has an id.
abbrev pub IsAnswered : List Str → ToolCall → Type 0
IsAnswered ids tc = (is_empty tc.id || any (str_eq tc.id) ids) ≡ true

-- Every message's calls are answered by the results that follow it.
abbrev pub IsPaired : List Message → Type 0
IsPaired [] = Unit
IsPaired (m ∷ ms) = (is_caller m ≡ true → All (IsAnswered (lead ms)) m.tool_calls) × IsPaired ms

-- The call is answered among the ids seen, or among those that follow.
abbrev Covered : List Str → List Str → ToolCall → Type 0
Covered seen follow tc =
    (is_empty tc.id || (any (str_eq tc.id) seen || any (str_eq tc.id) follow)) ≡ true

All-Covered :
    (seen follow seen' follow' : List Str) (calls : List ToolCall)
    → ((tc : ToolCall) → Covered seen follow tc → Covered seen' follow' tc)
    → All (Covered seen follow) calls
    → All (Covered seen' follow') calls
All-Covered seen follow seen' follow' [] weaken all = _
All-Covered seen follow seen' follow' (tc ∷ calls) weaken (c, all) =
    (weaken tc c, All-Covered seen follow seen' follow' calls weaken all)

shuffle : (e b a f : Bool) → (e || ((b || a) || f)) ≡ true → (e || (a || (b || f))) ≡ true
shuffle e b a f h = ground arith

grow : (e a b f : Bool) → (e || (a || f)) ≡ true → (e || (a || (b || f))) ≡ true
grow e a b f h = ground arith

covered_now : (e a f : Bool) → (e || (a || (true || f))) ≡ true
covered_now e a f = ground arith

covered_before : (e a f : Bool) → (e || a) ≡ true → (e || (a || f)) ≡ true
covered_before e a f h = ground arith

lead-tool :
    (m : Message) (ms : List Message) → is_tool m ≡ true → lead (m ∷ ms) ≡ m.tool_call_id ∷ lead ms
unfolding lead
lead-tool m ms e = rw e refl

gap : ToolCall → Message
gap tc = tool_result tc.id tc.name interrupted

gap-is_tool : (tc : ToolCall) → is_tool (gap tc) ≡ true
unfolding gap is_tool str_eq
gap-is_tool tc = refl

gap-Covered :
    (seen : List Str) (tc : ToolCall) (ms : List Message) → Covered seen (tc.id ∷ lead ms) tc
gap-Covered seen tc ms =
    rw (str_eq_refl tc.id)
      (covered_now (is_empty tc.id) (any (str_eq tc.id) seen) (any (str_eq tc.id) (lead ms)))

-- The gaps that are filled answer the calls that were not.
gaps-Covered :
    (seen : List Str) (calls : List ToolCall) (more : List Message)
    → All (Covered seen (lead (gaps seen calls ++ more))) calls
unfolding gaps gap
gaps-Covered seen [] more = _
gaps-Covered seen (tc ∷ calls) more =
    let rest = gaps seen calls in
    let ih = gaps-Covered seen calls more in
    fork (λ (gs : List Message). All (Covered seen (lead (gs ++ more))) (tc ∷ calls))
      (is_empty tc.id || any (str_eq tc.id) seen) rest (gap tc ∷ rest)
      (λ e. (
        covered_before (is_empty tc.id) (any (str_eq tc.id) seen)
            (any (str_eq tc.id) (lead (rest ++ more))) e,
        ih,
      ))
      (λ _.
        subst (λ ids. All (Covered seen ids) (tc ∷ calls))
          (sym (lead-tool (gap tc) (rest ++ more) (gap-is_tool tc)))
          (
            gap-Covered seen tc (rest ++ more),
            All-Covered seen (lead (rest ++ more)) seen (tc.id ∷ lead (rest ++ more)) calls
                (λ c h.
                  grow (is_empty c.id) (any (str_eq c.id) seen) (str_eq c.id tc.id)
                    (any (str_eq c.id) (lead (rest ++ more))) h)
                ih,
          ))

tool-is_caller : (m : Message) → is_tool m ≡ true → is_caller m ≡ false
unfolding is_tool is_caller str_eq
tool-is_caller m e = let is : m.role ≡ tool_role = str_eq→eq m.role tool_role e in rw is refl

gaps-IsPaired :
    (seen : List Str) (calls : List ToolCall) (more : List Message)
    → IsPaired more
    → IsPaired (gaps seen calls ++ more)
unfolding gaps
gaps-IsPaired seen [] more paired = paired
gaps-IsPaired seen (tc ∷ calls) more paired =
    let ih = gaps-IsPaired seen calls more paired in
    fork (λ (gs : List Message). IsPaired (gs ++ more)) (is_empty tc.id || any (str_eq tc.id) seen)
      (gaps seen calls) (tool_result tc.id tc.name interrupted ∷ gaps seen calls) (λ _. ih)
      (λ _. ((λ _. _), ih))

-- The fork on the kind of the next message.
fill-cases :
    (P : List Message → Type 0) (calls : List ToolCall) (seen : List Str) (m : Message)
    (ms : List Message)
    → (is_tool m ≡ true → P (m ∷ fill calls (m.tool_call_id ∷ seen) ms))
    → (is_caller m ≡ true → P (gaps seen calls ++ (m ∷ fill m.tool_calls [] ms)))
    → (is_caller m ≡ false → P (gaps seen calls ++ (m ∷ fill [] [] ms)))
    → P (fill calls seen (m ∷ ms))
unfolding fill
fill-cases P calls seen m ms tool caller other =
    fork P (is_tool m) (m ∷ fill calls (m.tool_call_id ∷ seen) ms)
      (if is_caller m
        then gaps seen calls ++ (m ∷ fill m.tool_calls [] ms)
        else gaps seen calls ++ (m ∷ fill [] [] ms))
      tool
      (λ _.
        fork P (is_caller m) (gaps seen calls ++ (m ∷ fill m.tool_calls [] ms))
          (gaps seen calls ++ (m ∷ fill [] [] ms)) caller other)

fill-Covered :
    (calls : List ToolCall) (seen : List Str) (ms : List Message)
    → All (Covered seen (lead (fill calls seen ms))) calls
fill-Covered calls seen [] =
    unfold fill in
    subst (λ l. All (Covered seen (lead l)) calls) (append-nil (gaps seen calls))
      (gaps-Covered seen calls [])
fill-Covered calls seen (m ∷ ms) =
    fill-cases (λ l. All (Covered seen (lead l)) calls) calls seen m ms
      (λ e. rw (lead-tool m (fill calls (m.tool_call_id ∷ seen) ms) e) (
        All-Covered (m.tool_call_id ∷ seen) (lead (fill calls (m.tool_call_id ∷ seen) ms)) seen
          (m.tool_call_id ∷ lead (fill calls (m.tool_call_id ∷ seen) ms)) calls
          (λ tc h.
            shuffle (is_empty tc.id) (str_eq tc.id m.tool_call_id) (any (str_eq tc.id) seen)
              (any (str_eq tc.id) (lead (fill calls (m.tool_call_id ∷ seen) ms))) h)
          (fill-Covered calls (m.tool_call_id ∷ seen) ms)))
      (λ _. gaps-Covered seen calls (m ∷ fill m.tool_calls [] ms))
      (λ _. gaps-Covered seen calls (m ∷ fill [] [] ms))

fill-IsPaired :
    (calls : List ToolCall) (seen : List Str) (ms : List Message) → IsPaired (fill calls seen ms)
fill-IsPaired calls seen [] =
    unfold fill in subst IsPaired (append-nil (gaps seen calls)) (gaps-IsPaired seen calls [] _)
fill-IsPaired calls seen (m ∷ ms) =
    fill-cases IsPaired calls seen m ms
      (λ e. (
        (λ caller. let differs : is_caller m ≡ false = tool-is_caller m e in cc),
        fill-IsPaired calls (m.tool_call_id ∷ seen) ms,
      ))
      (λ _.
        gaps-IsPaired seen calls (m ∷ fill m.tool_calls [] ms)
          ((λ _. fill-Covered m.tool_calls [] ms), fill-IsPaired m.tool_calls [] ms))
      (λ plain.
        gaps-IsPaired seen calls (m ∷ fill [] [] ms) ((λ caller. cc), fill-IsPaired [] [] ms))

-- In the history that a session gives back, every tool call that has an id is answered by one of
-- the results that stand right after the message of the call.
pub repair_tool_calls-IsPaired : (ms : List Message) → IsPaired (repair_tool_calls ms)
unfolding repair_tool_calls
repair_tool_calls-IsPaired ms = fill-IsPaired [] [] (clean [] ms)
