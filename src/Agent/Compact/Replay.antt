-- ===== src/Agent/Compact/Replay.antt =====
-- A history that is compacted can be sent again.
use mathlib.Core.Path.{subst}
use mow.Prelude.{
  ℕ, zero, suc, ◌-◌, ◌/◌, ◌<◌, ◌≡◌, refl, sym, ◌∙◌, inl, inr, Bool, true, false, ◌||◌, List, [],
  ◌∷◌, ◌++◌, Option, none, some, ltb, leb, ◌==◌, if◌then◌else◌, length, take, drop,
  take-append-drop, append_assoc, Str, is_empty, str_eq, str_eq→eq, Result, ok, err, Result-cases,
  Bool-cases, arith,
}
use mow.Agent.Messages.{Message, is_tool, plain, user_role, system_role, Err}
use mow.Agent.History.{scan, Replayable, IsBlock}
use mow.Agent.History.Blocks.{Replayable-append, IsBlock-nil, IsBlock-one}
use mow.Agent.Loop.{est_chars}
use mow.Agent.Compact.{
  Texts, window, fit, shrink_window, split_system, drop_turns, compact_opts, compact_tiered,
  pre_compact, apply_compact, anchors, clamp_keep, next_keep,
}
use mow.Agent.Compact.Snips.{trim_all_tool_results, snip_longest_tool_results}
use mow.Agent.Compact.Alike.{
  AreAlike, Replayable-AreAlike, trim_all_tool_results-AreAlike, snip_longest_tool_results-AreAlike,
  fit-AreAlike,
}
use mow.Agent.Compact.Suffixes.{align_keep_at_user-IsBlock}

-- A system message at the head calls no tools.
abbrev pub IsHeaded : List Message → Type 0
IsHeaded [] = Unit
IsHeaded (m ∷ ms) = str_eq m.role system_role ≡ true → m.tool_calls ≡ []

IsHeaded-AreAlike : (ms ns : List Message) → AreAlike ms ns → IsHeaded ms → IsHeaded ns
IsHeaded-AreAlike [] [] a h = tt
IsHeaded-AreAlike [] (n ∷ ns) a h = absurd a
IsHeaded-AreAlike (m ∷ ms) [] a h = tt
IsHeaded-AreAlike (m ∷ ms) (n ∷ ns) a h = λ s. a.0.1 ∙ h (rw (sym a.0.0) s)

Replayable-if :
    (b : Bool) (xs ys : List Message)
    → Replayable xs
    → Replayable ys
    → Replayable (if b then xs else ys)
Replayable-if true xs ys hx hy = hx
Replayable-if false xs ys hx hy = hy

split_system-Replayable :
    (t : Texts) (ms : List Message)
    → IsHeaded ms
    → Replayable ms
    → Replayable (split_system t ms).0 × Replayable ((split_system t ms).0 ++ (split_system t ms).1)
unfolding split_system scan is_tool str_eq
split_system-Replayable t [] h r = (([], refl), ([], refl))
split_system-Replayable t (m ∷ ms) h r = elim (Bool-cases (str_eq m.role system_role)) [
  | inl s ↦
      let no_tool : is_tool m ≡ false = rw (str_eq→eq m.role system_role s) refl in
      rw s (Replayable-append [] (m ∷ []) ([], refl) (IsBlock-one m no_tool (h s)), r)
  | inr s ↦ rw s (([], refl), r)
]

trimmed-Replayable :
    (ms : List Message) (recent older : ℕ)
    → Replayable ms
    → Replayable (trim_all_tool_results ms recent older)
trimmed-Replayable ms recent older =
    Replayable-AreAlike ms (trim_all_tool_results ms recent older)
      (trim_all_tool_results-AreAlike ms recent older)

-- What a compaction that succeeds sends.
abbrev Sends : Result Err (List Message × Bool) → Type 0
Sends (err e) = Unit
Sends (ok p) = Replayable p.0

if-congr {ℓ} :
    {A : Type ℓ} (b : Bool) (x y y' : A)
    → (b ≡ false → y ≡ y')
    → (if b then x else y) ≡ (if b then x else y')
if-congr true x y y' h = refl
if-congr false x y y' h = h refl

module _ (t : Texts) where
  next_keep-less :
      (b c : Bool) (n k fuel : ℕ)
      → (b || c || leb k (next_keep t k)) ≡ false
      → k < suc fuel
      → clamp_keep t n (next_keep t k) < fuel
  next_keep-less b c n k fuel h enough = ground (arith, h, enough)

  anchors-IsBlock : (pins : List Str) → IsBlock (anchors t pins)
  unfolding is_tool str_eq
  anchors-IsBlock [] = IsBlock-nil
  anchors-IsBlock (p ∷ ps) = IsBlock-one (plain user_role false _) refl refl

  window-Replayable :
      (max_chars : ℕ) (summary : Str) (system rest : List Message) (keep : ℕ)
      → Replayable system
      → Replayable (system ++ rest)
      → Replayable (window t max_chars summary system rest keep)
  unfolding window is_tool str_eq
  window-Replayable max_chars summary system rest keep head (ids, e) =
      let cut = length rest - keep in
      let kept =
        align_keep_at_user-IsBlock (system ++ take cut rest) (drop cut rest) ids
          (rw (append_assoc system (take cut rest) (drop cut rest), take-append-drop cut rest) e) in
      Replayable-append _ _
        (Replayable-append _ _ (Replayable-append system _ head (anchors-IsBlock _))
          (IsBlock-one (plain user_role false _) refl refl))
        kept

  module _ (max_chars max_tool_chars : ℕ) (summary : Str) (msgs system rest : List Message) where
    -- A round that goes on keeps fewer messages, so that more fuel changes nothing.
    shrink_window-fuel :
        (fuel keep : ℕ)
        → clamp_keep t (length rest) keep < fuel
        → shrink_window t (suc fuel) max_chars max_tool_chars summary msgs system rest keep
          ≡ shrink_window t fuel max_chars max_tool_chars summary msgs system rest keep
    unfolding shrink_window
    shrink_window-fuel zero keep h = absurd (omega (arith, h))
    shrink_window-fuel (suc fuel) keep h =
        let n = length rest in
        let k = clamp_keep t n keep in
        let out = fit t max_chars max_tool_chars (window t max_chars summary system rest k) in
        if-congr (k == 0) _ _ _ (λ z.
          if-congr (leb (est_chars out) max_chars || leb k 2 || leb k (next_keep t k)) out _ _ (λ c.
            shrink_window-fuel fuel (next_keep t k)
              (next_keep-less (leb (est_chars out) max_chars) (leb k 2) n k fuel c h)))

    shrink_window-Replayable :
        (fuel keep : ℕ)
        → Replayable msgs
        → Replayable system
        → Replayable (system ++ rest)
        → Replayable (shrink_window t fuel max_chars max_tool_chars summary msgs system rest keep)
    unfolding shrink_window scan
    shrink_window-Replayable zero keep r head whole = ([], refl)
    shrink_window-Replayable (suc fuel) keep r head whole =
        let k = clamp_keep t (length rest) keep in
        let shown = window t max_chars summary system rest k in
        let out = fit t max_chars max_tool_chars shown in
        Replayable-if (k == 0) _ _
          (trimmed-Replayable msgs (max_tool_chars / 2) (max_tool_chars / 4) r)
          (Replayable-if (leb (est_chars out) max_chars || leb k 2 || leb k (next_keep t k)) out _
            (Replayable-AreAlike shown out (fit-AreAlike t max_chars max_tool_chars shown)
              (window-Replayable max_chars summary system rest k head whole))
            (shrink_window-Replayable fuel (next_keep t k) r head whole))

  drop_turns-Replayable :
      (max_chars max_tool_chars : ℕ) (summary : Str) (msgs : List Message)
      → IsHeaded msgs
      → Replayable msgs
      → Replayable (drop_turns t max_chars max_tool_chars summary msgs)
  unfolding drop_turns
  drop_turns-Replayable max_chars max_tool_chars summary msgs h r =
      let (head, whole) = split_system-Replayable t msgs h r in
      Replayable-if _ _ _ (trimmed-Replayable msgs (max_tool_chars / 2) (max_tool_chars / 4) r)
        (shrink_window-Replayable max_chars max_tool_chars summary msgs _ _ _ _ r head whole)

  compact_opts-Replayable :
      (ms : List Message) (max_chars : ℕ) (summary : Str) (max_tool_chars : ℕ)
      → IsHeaded ms
      → Replayable ms
      → Replayable (compact_opts t ms max_chars summary max_tool_chars)
  unfolding compact_opts
  compact_opts-Replayable ms max_chars summary max_tool_chars h r =
      let limit = if max_tool_chars == 0 then 24000 else max_tool_chars in
      let msgs = trim_all_tool_results ms limit (limit / 2) in
      let alike = trim_all_tool_results-AreAlike ms limit (limit / 2) in
      let trimmed = trimmed-Replayable ms limit (limit / 2) r in
      Replayable-if (max_chars == 0 || leb (est_chars ms) max_chars) _ _
        (trimmed-Replayable ms max_tool_chars (max_tool_chars / 2) r)
        (Replayable-if (leb (length ms) 3 || leb (est_chars msgs) max_chars) msgs _ trimmed (
          drop_turns-Replayable max_chars limit summary msgs (IsHeaded-AreAlike ms msgs alike h)
            trimmed))

  compact_tiered-Replayable :
      (ms : List Message) (max_chars : ℕ) (summary : Str) (max_tool_chars : ℕ)
      → IsHeaded ms
      → Replayable ms
      → Replayable (compact_tiered t ms max_chars summary max_tool_chars)
  unfolding compact_tiered
  compact_tiered-Replayable ms max_chars summary max_tool_chars h r =
      let limit = if max_tool_chars == 0 then 24000 else max_tool_chars in
      let snipped = snip_longest_tool_results ms max_chars limit in
      let alike = snip_longest_tool_results-AreAlike ms max_chars limit in
      let safe = Replayable-AreAlike ms snipped alike r in
      Replayable-if (max_chars == 0 || leb (est_chars snipped) max_chars) snipped _ safe (
        compact_opts-Replayable snipped max_chars summary limit
          (IsHeaded-AreAlike ms snipped alike h) safe)

  apply_compact-Sends :
      (hooks : List (List Message → Result Err (Bool × Str))) (tool_limit : ℕ) (target : Option ℕ)
      (ms : List Message)
      → IsHeaded ms
      → Replayable ms
      → Sends (apply_compact t hooks tool_limit target ms)
  unfolding apply_compact
  apply_compact-Sends hooks tool_limit none ms h r = trimmed-Replayable ms tool_limit tool_limit r
  apply_compact-Sends hooks tool_limit (some target) ms h r =
      let probe = compact_tiered t ms target [] tool_limit in
      let probe_safe = compact_tiered-Replayable ms target [] tool_limit h r in
      elim (Bool-cases (ltb (est_chars probe) (est_chars ms))) [
        | inr e ↦ rw e probe_safe
        | inl e ↦ elim (Result-cases (pre_compact t hooks ms [])) [
          | inl (x, c) ↦ rw (e, c) tt
          | inr (none, c) ↦ rw (e, c) (trimmed-Replayable ms tool_limit tool_limit r)
          | inr (some summary, c) ↦
              rw (e, c)
                (Replayable-if (is_empty summary) probe _ probe_safe
                  (compact_tiered-Replayable ms target summary tool_limit h r))
        ]
      ]

  -- What `applyCompact` sends in place of a history that can be sent again can be sent too,
  -- whatever tier it needs and whatever the hooks say: each call that is kept is kept with its
  -- results, and no result without its call. A system message at the head calls no tools.
  pub apply_compact-Replayable :
      (hooks : List (List Message → Result Err (Bool × Str))) (tool_limit : ℕ) (target : Option ℕ)
      (ms send : List Message) (compacted : Bool)
      → IsHeaded ms
      → Replayable ms
      → apply_compact t hooks tool_limit target ms ≡ ok (send, compacted)
      → Replayable send
  apply_compact-Replayable hooks tool_limit target ms send compacted h r e =
      subst Sends e (apply_compact-Sends hooks tool_limit target ms h r)
