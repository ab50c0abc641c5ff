-- ===== src/Agent/Compact.antt =====
-- internal/agent/compact.go and loop_tools.go: the compaction of a history that has grown too long.
pub mod Snips
pub mod Alike
pub mod Suffixes
pub mod Replay
use mow.Prelude.{
  ℕ, zero, suc, ◌+◌, ◌-◌, ◌/◌, min, max, Bool, true, false, ◌&&◌, ◌||◌, List, [], ◌∷◌, ◌++◌, Option,
  none, some, ltb, leb, ◌==◌, if◌then◌else◌, length, take, drop, Str, codes, str_eq, contains,
  is_empty, trim_space, Result, ok, ◌>>=◌,
}
use mow.Agent.Messages.{Message, is_tool, plain, user_role, system_role, Err}
use mow.Agent.Loop.{est_chars}
use mow.Agent.Compact.Snips.{
  default_max_tool_result_chars, trim_all_tool_results, cap_tool_results, snip_longest_tool_results,
}

-- `keepLastForBudget`.
abbrev keep_last_for_budget : ℕ → ℕ
keep_last_for_budget max_chars =
    if leb 1500000 max_chars
    then 64
    else if leb 500000 max_chars
    then 40
    else if leb 200000 max_chars
    then 28
    else if leb 50000 max_chars
    then 16
    else if leb 20000 max_chars
    then 10
    else if leb 8000 max_chars
    then 6
    else 4

-- The first loop of `alignKeepAtUser`, and the second.
unfoldable pub from_user : List Message → Option (List Message)
unfolding str_eq
from_user [] = none
from_user (m ∷ ms) =
    let rest = from_user ms in if str_eq m.role user_role then some (m ∷ ms) else rest

unfoldable pub past_tools : List Message → List Message
unfolding is_tool
past_tools [] = []
past_tools (m ∷ ms) = let rest = past_tools ms in if is_tool m then rest else m ∷ ms

-- `alignKeepAtUser`.
unfoldable pub align_keep_at_user : List Message → List Message
unfolding from_user past_tools
align_keep_at_user kept = elim (from_user kept) [ some ms ↦ ms | none ↦ past_tools kept ]

-- The texts that stand for what was dropped: `collectUserPins`, `formatTaskAnchor`,
-- `defaultCompactStub` and `compactSnippet`.
pub record Texts : Type 0 where
  pub collect_user_pins : List Message → List Message → ℕ → List Str
  pub format_task_anchor : List Str → Str
  pub default_compact_stub : List Message → List Message → List Str → Str
  pub compact_snippet : Str → ℕ → Str

abbrev pub is_anchor : Message → Bool
is_anchor m =
    str_eq m.role user_role
    && (contains m.content (codes "[task anchors")
        || contains m.content (codes "[context compacted"))

module _ (t : Texts) where
  -- One round of the loop of `shrinkAnchors`.
  unfoldable pub snip_anchors : ℕ → List Message → List Message
  unfolding str_eq contains
  snip_anchors lim [] = []
  snip_anchors lim (m ∷ ms) =
      let rest = snip_anchors lim ms in
      if is_anchor m
      then record m { content = t.compact_snippet m.content lim } ∷ rest
      else m ∷ rest

  -- `shrinkAnchors`.
  unfoldable pub shrink_anchors : List Message → ℕ → List Message
  unfolding snip_anchors est_chars
  shrink_anchors ms max_chars =
      let long = snip_anchors 1200 ms in
      let medium = snip_anchors 400 long in
      let short = snip_anchors 160 medium in
      if leb (est_chars long) max_chars
      then long
      else if leb (est_chars medium) max_chars
      then medium
      else short

  abbrev anchors : List Str → List Message
  anchors [] = []
  anchors (p ∷ ps) = plain user_role false (t.format_task_anchor (p ∷ ps)) ∷ []

  -- The history with the last `keep` messages, the anchors and the stub.
  unfoldable pub window : ℕ → Str → List Message → List Message → ℕ → List Message
  unfolding align_keep_at_user trim_space
  window max_chars summary system rest keep =
      let cut = length rest - keep in
      let kept = align_keep_at_user (drop cut rest) in
      let pins = t.collect_user_pins rest kept max_chars in
      let note = trim_space summary in
      let stub = if is_empty note then t.default_compact_stub (take cut rest) kept pins else note in
      system ++ anchors pins ++ (plain user_role false stub ∷ []) ++ kept

  -- What follows in the loop, until the history fits.
  unfoldable pub fit : ℕ → ℕ → List Message → List Message
  unfolding trim_all_tool_results shrink_anchors est_chars
  fit max_chars max_tool_chars out =
      let trimmed =
        if ltb max_chars (est_chars out)
        then trim_all_tool_results out (max_tool_chars / 3) 800
        else out in
      let small =
        if ltb max_chars (est_chars trimmed)
        then trim_all_tool_results trimmed 800 400
        else trimmed in
      if ltb max_chars (est_chars small) then shrink_anchors small max_chars else small

  abbrev pub clamp_keep : ℕ → ℕ → ℕ
  clamp_keep n keep = let k = max keep 2 in if leb n k then n - 1 else k

  abbrev pub next_keep : ℕ → ℕ
  next_keep k = max (if leb k (k / 2) then k - 2 else k / 2) 2

  -- The loop of `CompactOpts`, on fuel.
  unfoldable pub shrink_window :
      ℕ → ℕ → ℕ → Str → List Message → List Message → List Message → ℕ → List Message
  unfolding window fit trim_all_tool_results est_chars
  shrink_window zero max_chars max_tool_chars summary msgs system rest keep = []
  shrink_window (suc fuel) max_chars max_tool_chars summary msgs system rest keep =
      let k = clamp_keep (length rest) keep in
      let out = fit max_chars max_tool_chars (window max_chars summary system rest k) in
      let again =
        shrink_window fuel max_chars max_tool_chars summary msgs system rest (next_keep k) in
      if k == 0
      then trim_all_tool_results msgs (max_tool_chars / 2) (max_tool_chars / 4)
      else if leb (est_chars out) max_chars || leb k 2 || leb k (next_keep k)
      then out
      else again

  -- The system message, and the rest.
  unfoldable pub split_system : List Message → List Message × List Message
  unfolding str_eq
  split_system [] = ([], [])
  split_system (m ∷ ms) = if str_eq m.role system_role then (m ∷ [], ms) else ([], m ∷ ms)

  -- `CompactOpts`, where the trimmed history is still too long.
  unfoldable pub drop_turns : ℕ → ℕ → Str → List Message → List Message
  unfolding shrink_window split_system trim_all_tool_results
  drop_turns max_chars max_tool_chars summary msgs =
      let keep = min (keep_last_for_budget max_chars) (length msgs - 1) in
      let parts = split_system msgs in
      if leb (length parts.1) keep
      then trim_all_tool_results msgs (max_tool_chars / 2) (max_tool_chars / 4)
      else shrink_window (keep + 3) max_chars max_tool_chars summary msgs parts.0 parts.1 keep

  -- `CompactOpts`.
  unfoldable pub compact_opts : List Message → ℕ → Str → ℕ → List Message
  unfolding drop_turns trim_all_tool_results est_chars
  compact_opts ms max_chars summary max_tool_chars =
      let limit = if max_tool_chars == 0 then default_max_tool_result_chars else max_tool_chars in
      let msgs = trim_all_tool_results ms limit (limit / 2) in
      if max_chars == 0 || leb (est_chars ms) max_chars
      then trim_all_tool_results ms max_tool_chars (max_tool_chars / 2)
      else if leb (length ms) 3 || leb (est_chars msgs) max_chars
      then msgs
      else drop_turns max_chars limit summary msgs

  -- The messages of `CompactTiered`.
  unfoldable pub compact_tiered : List Message → ℕ → Str → ℕ → List Message
  unfolding snip_longest_tool_results compact_opts est_chars
  compact_tiered ms max_chars summary max_tool_chars =
      let limit = if max_tool_chars == 0 then default_max_tool_result_chars else max_tool_chars in
      let snipped = snip_longest_tool_results ms max_chars limit in
      if max_chars == 0 || leb (est_chars snipped) max_chars
      then snipped
      else compact_opts snipped max_chars summary limit

  -- The loop of `applyCompact` over the hooks: nothing where one of them skips, else the last
  -- summary that is not empty.
  unfoldable pub pre_compact :
      List (List Message → Result Err (Bool × Str)) → List Message → Str → Result Err (Option Str)
  pre_compact [] ms summary = ok (some summary)
  pre_compact (h ∷ hs) ms summary = h ms >>= λ d.
      if d.0 then ok none else pre_compact hs ms (if is_empty d.1 then summary else d.1)

  -- `applyCompact`; `target` is what its budgets make of the history, none where it fits.
  unfoldable pub apply_compact :
      List (List Message → Result Err (Bool × Str))
      → ℕ
      → Option ℕ
      → List Message
      → Result Err (List Message × Bool)
  unfolding compact_tiered pre_compact trim_all_tool_results est_chars
  apply_compact hooks tool_limit none ms = ok (cap_tool_results ms tool_limit, false)
  apply_compact hooks tool_limit (some target) ms =
      let probe = compact_tiered ms target [] tool_limit in
      if ltb (est_chars probe) (est_chars ms)
      then (pre_compact hooks ms [] >>= λ d. elim d [
        | none ↦ ok (cap_tool_results ms tool_limit, false)
        | some summary ↦
            ok (
              if is_empty summary then probe else compact_tiered ms target summary tool_limit,
              true,
            )
      ])
      else ok (probe, true)
