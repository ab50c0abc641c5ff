-- ===== src/Agent/Compact/Snips.antt =====
-- internal/agent/compact.go: the cuts of the tool results of a history.
use mow.Prelude.{
  ℕ, zero, suc, ◌+◌, ◌-◌, ◌/◌, min, max, ◌&&◌, List, [], ◌∷◌, ltb, leb, ◌==◌, if◌then◌else◌, length,
  Str,
}
use mow.Agent.Messages.{Message, is_tool}
use mow.Agent.Truncate.{truncate_tool_result, snip_tool_result}
use mow.Agent.Loop.{est_chars}

abbrev pub default_max_tool_result_chars : ℕ
default_max_tool_result_chars = 24000

abbrev older_after_tool_msgs : ℕ
older_after_tool_msgs = 16

abbrev min_snipped_tool_chars : ℕ
min_snipped_tool_chars = 800

-- The loop of `trimAllToolResults`, with the number of tool results behind.
unfoldable pub trim_from_end : ℕ → ℕ → List Message → List Message × ℕ
unfolding is_tool
trim_from_end recent older [] = ([], 0)
trim_from_end recent older (m ∷ ms) =
    let rest = trim_from_end recent older ms in
    let lim = if ltb older_after_tool_msgs (rest.1 + 1) then older else recent in
    if is_tool m
    then (record m { content = truncate_tool_result m.content lim } ∷ rest.0, rest.1 + 1)
    else (m ∷ rest.0, rest.1)

-- `trimAllToolResults`.
unfoldable pub trim_all_tool_results : List Message → ℕ → ℕ → List Message
unfolding trim_from_end
trim_all_tool_results ms recent_max older_max =
    let recent = if recent_max == 0 then default_max_tool_result_chars else recent_max in
    let older = if older_max == 0 then recent / 2 else older_max in
    (trim_from_end recent older ms).0

-- `capToolResults`.
abbrev pub cap_tool_results : List Message → ℕ → List Message
cap_tool_results ms max_chars = trim_all_tool_results ms max_chars max_chars

-- The tool results that may be snipped: index and size.
unfoldable pub candidates : ℕ → List Message → List (ℕ × ℕ)
unfolding is_tool
candidates i [] = []
candidates i (m ∷ ms) =
    let rest = candidates (suc i) ms in
    if is_tool m && ltb min_snipped_tool_chars (length m.content)
    then (i, length m.content) ∷ rest
    else rest

-- `slices.SortStableFunc`, the longest first.
unfoldable pub insert_longest : ℕ × ℕ → List (ℕ × ℕ) → List (ℕ × ℕ)
insert_longest c [] = c ∷ []
insert_longest c (d ∷ ds) =
    let rest = insert_longest c ds in if ltb c.1 d.1 then d ∷ rest else c ∷ d ∷ ds

unfoldable pub longest_first : List (ℕ × ℕ) → List (ℕ × ℕ)
unfolding insert_longest
longest_first [] = []
longest_first (c ∷ cs) = insert_longest c (longest_first cs)

-- The i-th message with its content changed.
unfoldable pub at_index : (Str → Str) → ℕ → List Message → List Message
at_index f i [] = []
at_index f zero (m ∷ ms) = record m { content = f m.content } ∷ ms
at_index f (suc i) (m ∷ ms) = m ∷ at_index f i ms

-- The loop over the candidates; `need` is 0 where the code's is negative.
unfoldable pub snip_candidates : ℕ → List (ℕ × ℕ) → ℕ → List Message → List Message
unfolding at_index
snip_candidates max_tool_chars [] need out = out
snip_candidates max_tool_chars ((i, size) ∷ cs) need out =
    let limit = max max_tool_chars min_snipped_tool_chars in
    let capped = min size limit in
    let need_cap = max min_snipped_tool_chars (size - need) in
    let want = if ltb 0 need && ltb need_cap capped then need_cap else capped in
    let snip : Str → Str = λ s. snip_tool_result s want in
    let out' = at_index snip i out in
    let skip = snip_candidates max_tool_chars cs need out in
    let go_on = snip_candidates max_tool_chars cs (need - (est_chars out - est_chars out')) out' in
    if leb size want then skip else go_on

-- `snipLongestToolResults`.
unfoldable pub snip_longest_tool_results : List Message → ℕ → ℕ → List Message
unfolding candidates longest_first snip_candidates
snip_longest_tool_results ms target max_tool_chars =
    snip_candidates max_tool_chars (longest_first (candidates 0 ms)) (est_chars ms - target) ms
