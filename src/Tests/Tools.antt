-- ===== src/Tests/Tools.antt =====
-- Edits of small files.
use mow.Prelude.{◌≡◌, refl, List, [], ◌∷◌, map, ok, Str, codes}
use mow.Tools.Diff.{diff_lines, build_hunks}
use mow.Tools.Patch.{apply_hunks, file_lines, ends_in_newline}
use mow.Tools.Patch.Hunks.{as_patch}
use mow.Tools.Patch.Text.{apply_hunks-diff_lines}

abbrev old_text : Str
old_text = codes "a\nb\nc\nd\n"

abbrev new_text : Str
new_text = codes "a\nx\nc\ne\nd\n"

apply_hunks-diff_lines_example :
    apply_hunks old_text
      (map as_patch (build_hunks (diff_lines (file_lines old_text) (file_lines new_text)) 1))
    ≡ ok new_text
unfolding ends_in_newline
apply_hunks-diff_lines_example = apply_hunks-diff_lines old_text new_text 1 refl

abbrev old_lines : List Str
old_lines = codes "a" ∷ codes "b" ∷ codes "c" ∷ []

abbrev new_lines : List Str
new_lines = codes "a" ∷ codes "c" ∷ codes "d" ∷ []
