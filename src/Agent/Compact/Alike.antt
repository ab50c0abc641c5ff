-- ===== src/Agent/Compact/Alike.antt =====
-- What cuts and snips the texts of a history leaves its calls and their answers as they were.
use mow.Prelude.{
  ℕ, zero, suc, ◌-◌, ◌/◌, ◌≡◌, refl, ◌∙◌, inl, inr, Bool, true, false, List, [], ◌∷◌, ltb, leb,
  if◌then◌else◌, Str, Bool-cases,
}
use mow.Agent.Messages.{Message, is_tool}
use mow.Agent.History.{ids_of, without, scan, Replayable}
use mow.Agent.Loop.{est_chars}
use mow.Agent.Compact.{Texts, is_anchor, snip_anchors, shrink_anchors, fit}
use mow.Agent.Compact.Snips.{
  trim_from_end, trim_all_tool_results, at_index, snip_candidates, snip_longest_tool_results,
  candidates, longest_first,
}

-- The message but for its text.
abbrev pub IsAlike : Message → Message → Type 0
IsAlike m n = (n.role ≡ m.role) × (n.tool_calls ≡ m.tool_calls) × (n.tool_call_id ≡ m.tool_call_id)

abbrev pub AreAlike : List Message → List Message → Type 0
AreAlike [] [] = Unit
AreAlike [] (n ∷ ns) = ⊥
AreAlike (m ∷ ms) [] = ⊥
AreAlike (m ∷ ms) (n ∷ ns) = IsAlike m n × AreAlike ms ns

pub AreAlike-refl : (ms : List Message) → AreAlike ms ms
AreAlike-refl [] = tt
AreAlike-refl (m ∷ ms) = ((refl, refl, refl), AreAlike-refl ms)

pub AreAlike-trans : (ms ns os : List Message) → AreAlike ms ns → AreAlike ns os → AreAlike ms os
AreAlike-trans [] [] [] h k = tt
AreAlike-trans [] [] (o ∷ os) h k = k
AreAlike-trans [] (n ∷ ns) os h k = absurd h
AreAlike-trans (m ∷ ms) [] os h k = absurd h
AreAlike-trans (m ∷ ms) (n ∷ ns) [] h k = k
AreAlike-trans (m ∷ ms) (n ∷ ns) (o ∷ os) h k =
    ((k.0.0 ∙ h.0.0, k.0.1 ∙ h.0.1, k.0.2 ∙ h.0.2), AreAlike-trans ms ns os h.1 k.1)

scan-AreAlike :
    (ids left : List Str) (ms ns : List Message)
    → AreAlike ms ns
    → scan ids left ns ≡ scan ids left ms
unfolding scan is_tool
scan-AreAlike ids left [] [] h = refl
scan-AreAlike ids left [] (n ∷ ns) h = absurd h
scan-AreAlike ids left (m ∷ ms) [] h = absurd h
scan-AreAlike ids left (m ∷ ms) (n ∷ ns) h =
    rw
      (
        h.0.0,
        h.0.1,
        h.0.2,
        scan-AreAlike ids (without m.tool_call_id left) ms ns h.1,
        scan-AreAlike (ids_of m.tool_calls) (ids_of m.tool_calls) ms ns h.1,
      )
      refl

pub Replayable-AreAlike : (ms ns : List Message) → AreAlike ms ns → Replayable ms → Replayable ns
Replayable-AreAlike ms ns h (ids, e) = (ids, scan-AreAlike [] [] ms ns h ∙ e)

AreAlike-if :
    (b : Bool) (ms xs ys : List Message)
    → AreAlike ms xs
    → AreAlike ms ys
    → AreAlike ms (if b then xs else ys)
AreAlike-if true ms xs ys hx hy = hx
AreAlike-if false ms xs ys hx hy = hy

trim_from_end-AreAlike :
    (recent older : ℕ) (ms : List Message) → AreAlike ms (trim_from_end recent older ms).0
unfolding trim_from_end
trim_from_end-AreAlike recent older [] = tt
trim_from_end-AreAlike recent older (m ∷ ms) = elim (Bool-cases (is_tool m)) [
  | inl e ↦ rw e ((refl, refl, refl), trim_from_end-AreAlike recent older ms)
  | inr e ↦ rw e ((refl, refl, refl), trim_from_end-AreAlike recent older ms)
]

pub trim_all_tool_results-AreAlike :
    (ms : List Message) (recent older : ℕ) → AreAlike ms (trim_all_tool_results ms recent older)
unfolding trim_all_tool_results
trim_all_tool_results-AreAlike ms recent older = trim_from_end-AreAlike _ _ ms

at_index-AreAlike : (f : Str → Str) (i : ℕ) (ms : List Message) → AreAlike ms (at_index f i ms)
unfolding at_index
at_index-AreAlike f i [] = tt
at_index-AreAlike f zero (m ∷ ms) = ((refl, refl, refl), AreAlike-refl ms)
at_index-AreAlike f (suc i) (m ∷ ms) = ((refl, refl, refl), at_index-AreAlike f i ms)

snip_candidates-AreAlike :
    (limit : ℕ) (cs : List (ℕ × ℕ)) (need : ℕ) (out : List Message)
    → AreAlike out (snip_candidates limit cs need out)
unfolding snip_candidates
snip_candidates-AreAlike limit [] need out = AreAlike-refl out
snip_candidates-AreAlike limit (c ∷ cs) need out =
    AreAlike-if _ out _ _ (snip_candidates-AreAlike limit cs need out)
      (AreAlike-trans out _ _ (at_index-AreAlike _ c.0 out) (snip_candidates-AreAlike limit cs _ _))

pub snip_longest_tool_results-AreAlike :
    (ms : List Message) (target limit : ℕ) → AreAlike ms (snip_longest_tool_results ms target limit)
unfolding snip_longest_tool_results
snip_longest_tool_results-AreAlike ms target limit =
    snip_candidates-AreAlike limit (longest_first (candidates 0 ms)) (est_chars ms - target) ms

module _ (t : Texts) where
  snip_anchors-AreAlike : (lim : ℕ) (ms : List Message) → AreAlike ms (snip_anchors t lim ms)
  unfolding snip_anchors
  snip_anchors-AreAlike lim [] = tt
  snip_anchors-AreAlike lim (m ∷ ms) =
      let rest = snip_anchors-AreAlike lim ms in
      AreAlike-if (is_anchor m) (m ∷ ms)
        (record m { content = t.compact_snippet m.content lim } ∷ snip_anchors t lim ms)
        (m ∷ snip_anchors t lim ms) ((refl, refl, refl), rest) ((refl, refl, refl), rest)

  shrink_anchors-AreAlike :
      (ms : List Message) (max_chars : ℕ) → AreAlike ms (shrink_anchors t ms max_chars)
  unfolding shrink_anchors
  shrink_anchors-AreAlike ms max_chars =
      let long = snip_anchors t 1200 ms in
      let medium = snip_anchors t 400 long in
      let short = snip_anchors t 160 medium in
      let to_long = snip_anchors-AreAlike 1200 ms in
      let to_medium = AreAlike-trans ms long medium to_long (snip_anchors-AreAlike 400 long) in
      let to_short = AreAlike-trans ms medium short to_medium (snip_anchors-AreAlike 160 medium) in
      AreAlike-if (leb (est_chars long) max_chars) ms long _ to_long
        (AreAlike-if (leb (est_chars medium) max_chars) ms medium short to_medium to_short)

  pub fit-AreAlike :
      (max_chars max_tool_chars : ℕ) (out : List Message)
      → AreAlike out (fit t max_chars max_tool_chars out)
  unfolding fit
  fit-AreAlike max_chars max_tool_chars out =
      let trim = trim_all_tool_results out (max_tool_chars / 3) 800 in
      let trimmed = if ltb max_chars (est_chars out) then trim else out in
      let to_trimmed : AreAlike out trimmed =
        AreAlike-if (ltb max_chars (est_chars out)) out trim out
          (trim_all_tool_results-AreAlike out (max_tool_chars / 3) 800) (AreAlike-refl out) in
      let less = trim_all_tool_results trimmed 800 400 in
      let small = if ltb max_chars (est_chars trimmed) then less else trimmed in
      let to_small : AreAlike out small =
        AreAlike-if (ltb max_chars (est_chars trimmed)) out less trimmed
          (AreAlike-trans out trimmed less to_trimmed
            (trim_all_tool_results-AreAlike trimmed 800 400))
          to_trimmed in
      AreAlike-if (ltb max_chars (est_chars small)) out (shrink_anchors t small max_chars) small
        (AreAlike-trans out small (shrink_anchors t small max_chars) to_small
          (shrink_anchors-AreAlike small max_chars))
        to_small
