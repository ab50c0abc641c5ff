-- ===== src/Tools/Patch/Text.antt =====
-- The same on whole files: lines are split and joined without loss.
use mow.Prelude.{
  ℕ, ◌≡◌, ◌≢◌, refl, ap, ◌∙◌, List, [], ◌∷◌, ◌++◌, map, arith, if◌then◌else◌, Str, ok,
}
use mow.Tools.Diff.{build_hunks, diff_lines}
use mow.Tools.Patch.{
  newline, onto, split_lines, join_lines, ends_in_newline, trim_newline, file_lines, apply_hunks,
}
use mow.Tools.Patch.Hunks.{as_patch}
use mow.Tools.Patch.RoundTrip.{apply_from-diff_lines}

-- `split_lines` never returns an empty list, so the first case of `onto` is not reached.
join_lines-onto : (c : ℕ) (ls : List Str) → ls ≢ [] → join_lines (onto c ls) ≡ c ∷ join_lines ls
unfolding join_lines
join_lines-onto c [] h = absurd (h refl)
join_lines-onto c (l ∷ []) h = ground arith
join_lines-onto c (l ∷ m ∷ ls) h = ground arith

onto-ne-nil : (c : ℕ) (ls : List Str) → onto c ls ≢ []
onto-ne-nil c [] = ground arith
onto-ne-nil c (l ∷ ls) = ground arith

split_lines-ne-nil : (s : Str) → split_lines s ≢ []
unfolding split_lines
split_lines-ne-nil [] = ground arith
split_lines-ne-nil (c ∷ s) = onto-ne-nil c (split_lines s)

join_lines-split_lines : (s : Str) → join_lines (split_lines s) ≡ s
unfolding split_lines
join_lines-split_lines [] = unfold join_lines in refl
join_lines-split_lines (c ∷ s) =
    join_lines-onto c (split_lines s) (split_lines-ne-nil s) ∙ ap (◌∷◌ c) (join_lines-split_lines s)

-- The text of a file is its lines joined, with its last newline if it has one.
abbrev ending : Str → Str
ending s = if ends_in_newline s then newline ∷ [] else []

trim_newline-ending : (s : Str) → trim_newline s ++ ending s ≡ s
unfolding trim_newline ends_in_newline
trim_newline-ending [] = refl
trim_newline-ending (c ∷ []) = ground arith
trim_newline-ending (c ∷ d ∷ s) = ap (◌∷◌ c) (trim_newline-ending (d ∷ s))

join_lines-file_lines : (s : Str) → join_lines (file_lines s) ++ ending s ≡ s
unfolding file_lines
join_lines-file_lines [] = unfold join_lines ends_in_newline in refl
join_lines-file_lines (c ∷ s) =
    rw (join_lines-split_lines (trim_newline (c ∷ s))) (trim_newline-ending (c ∷ s))

-- For two texts that both end in a newline, or both do not, the hunks of the diff of their lines,
-- taken as a patch, are accepted by `applyHunks` on the old text, and it returns the new text
-- byte for byte.
pub apply_hunks-diff_lines :
    (old new : Str) (ctx : ℕ)
    → ends_in_newline old ≡ ends_in_newline new
    → apply_hunks old
        (map as_patch (build_hunks (diff_lines (file_lines old) (file_lines new)) ctx))
      ≡ ok new
unfolding apply_hunks
apply_hunks-diff_lines old new ctx same =
    rw (apply_from-diff_lines (file_lines old) (file_lines new) ctx, same)
      (ap ok (join_lines-file_lines new))
