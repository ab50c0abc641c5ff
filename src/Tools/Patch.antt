-- ===== src/Tools/Patch.antt =====
-- internal/tools/apply_patch.go: `applyHunks`, with strings as lists of bytes.
pub mod Hunks
pub mod Held
pub mod RoundTrip
pub mod Text
use mow.Prelude.{
  ◌>>=◌, ℕ, ◌+◌, ◌-◌, Bool, false, not, ◌||◌, List, [], ◌∷◌, ◌++◌, Option, none, some, ltb, ◌==◌,
  if◌then◌else◌, length, take, drop, get_elem?, Str, str_eq, is_empty, Result, ok, err,
}

-- The refusals of `applyHunks`; a mismatch carries its line. `index_panic` is `line[0]` of an
-- empty hunk line, which `parseUnifiedPatch` never makes.
pub data PatchError : Type 0 where
  out_of_order count_mismatch index_panic : PatchError
  context_mismatch deletion_mismatch : ℕ → PatchError

pub record PatchHunk : Type 0 where
  pub old_start : ℕ
  pub old_count : ℕ
  pub new_start : ℕ
  pub new_count : ℕ
  pub lines : List Str

-- The variables of the loop over one hunk's lines.
pub record Cursor : Type 0 where
  pub pos : ℕ
  pub old_n : ℕ
  pub new_n : ℕ
  pub out : List Str

abbrev is_line : Option Str → Str → Bool
is_line none text = false
is_line (some l) text = str_eq l text

-- The `switch tag`; a line with another tag changes nothing.
unfoldable pub apply_line : List Str → Str → Cursor → Result PatchError Cursor
apply_line file [] s = err index_panic
apply_line file (tag ∷ text) s =
    if tag == b' '
    then (if is_line (get_elem? file s.pos) text
        then ok (record {
          pos = s.pos + 1;
          old_n = s.old_n + 1;
          new_n = s.new_n + 1;
          out = s.out ++ text ∷ [];
        })
        else err (context_mismatch (s.pos + 1)))
    else if tag == b'-'
    then (if is_line (get_elem? file s.pos) text
        then ok (record s { pos = s.pos + 1; old_n = s.old_n + 1 })
        else err (deletion_mismatch (s.pos + 1)))
    else if tag == b'+'
    then ok (record s { new_n = s.new_n + 1; out = s.out ++ text ∷ [] })
    else ok s

unfoldable pub apply_lines : List Str → List Str → Cursor → Result PatchError Cursor
unfolding apply_line
apply_lines file [] s = ok s
apply_lines file (line ∷ rest) s = do t ← apply_line file line s; apply_lines file rest t

-- The test after the loop over one hunk's lines.
abbrev pub check_counts : PatchHunk → Cursor → Result PatchError Cursor
check_counts h s =
    if not (s.old_n == h.old_count) || not (s.new_n == h.new_count)
    then err count_mismatch
    else ok s

-- One round of the loop over the hunks: the lines before the hunk, then the hunk. The test on
-- `start < cursor` is written without the subtraction.
unfoldable pub apply_hunk : List Str → ℕ → List Str → PatchHunk → Result PatchError Cursor
unfolding apply_lines
apply_hunk file cursor out h =
    let start = h.old_start - 1 in
    let before = out ++ take (start - cursor) (drop cursor file) in
    if ltb h.old_start (cursor + 1) || ltb (length file) start then err out_of_order else do
      s ← apply_lines file h.lines (record { pos = start; old_n = 0; new_n = 0; out = before })
      check_counts h s

unfoldable pub apply_from : List Str → ℕ → List Str → List PatchHunk → Result PatchError (List Str)
unfolding apply_hunk
apply_from file cursor out [] = ok (out ++ drop cursor file)
apply_from file cursor out (h ∷ hs) = do
  s ← apply_hunk file cursor out h
  apply_from file s.pos s.out hs

abbrev pub newline : ℕ
newline = b'\n'

-- One more character in front of the first line.
abbrev pub onto : ℕ → List Str → List Str
onto c [] = (c ∷ []) ∷ []
onto c (l ∷ ls) = if c == newline then [] ∷ l ∷ ls else (c ∷ l) ∷ ls

-- `strings.Split(s, "\n")`.
unfoldable pub split_lines : Str → List Str
split_lines [] = [] ∷ []
split_lines (c ∷ s) = onto c (split_lines s)

-- `strings.Join(lines, "\n")`.
unfoldable pub join_lines : List Str → Str
join_lines [] = []
join_lines (l ∷ []) = l
join_lines (l ∷ m ∷ ls) = l ++ (newline ∷ join_lines (m ∷ ls))

-- `strings.HasSuffix(s, "\n")` and `strings.TrimSuffix(s, "\n")`.
unfoldable pub ends_in_newline : Str → Bool
ends_in_newline [] = false
ends_in_newline (c ∷ []) = c == newline
ends_in_newline (c ∷ d ∷ s) = ends_in_newline (d ∷ s)

unfoldable pub trim_newline : Str → Str
trim_newline [] = []
trim_newline (c ∷ []) = if c == newline then [] else c ∷ []
trim_newline (c ∷ d ∷ s) = c ∷ trim_newline (d ∷ s)

unfoldable pub file_lines : Str → List Str
unfolding split_lines trim_newline
file_lines original = if is_empty original then [] else split_lines (trim_newline original)

unfoldable pub apply_hunks : Str → List PatchHunk → Result PatchError Str
unfolding apply_from file_lines join_lines ends_in_newline
apply_hunks original hunks = do
  lines ← apply_from (file_lines original) 0 [] hunks
  ok (join_lines lines ++ (if ends_in_newline original then newline ∷ [] else []))
