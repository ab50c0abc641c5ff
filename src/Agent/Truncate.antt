-- ===== src/Agent/Truncate.antt =====
-- internal/agent/compact.go: the cuts of one tool result. A text is here the list of its bytes.
pub mod Bounds
pub mod Frames
use mow.Prelude.{
  ℕ, zero, suc, ◌+◌, ◌-◌, ◌*◌, ◌/◌, max, Bool, not, ◌&&◌, ◌||◌, [], ◌∷◌, ◌++◌, Option, none, some,
  leb, ltb, ◌==◌, if◌then◌else◌, length, take, drop, get_or, Str, codes, has_prefix, decimal,
}

-- `strings.LastIndexByte` and `strings.IndexByte`, on a line feed.
unfoldable pub last_newline : Str → Option ℕ
last_newline [] = none
last_newline (c ∷ s) = elim (last_newline s) [
  | some i ↦ some (suc i)
  | none ↦ if c == 10 then some 0 else none
]

unfoldable pub first_newline : Str → Option ℕ
first_newline [] = none
first_newline (c ∷ s) =
    if c == 10 then some 0 else elim (first_newline s) [ some i ↦ some (suc i) | none ↦ none ]

-- `utf8.RuneStart`.
unfoldable pub rune_start : ℕ → Bool
rune_start b = not (leb 0x80 b && ltb b 0xC0)

-- `for cut > 0 && !utf8.RuneStart(s[cut]) { cut-- }`.
unfoldable pub back_to_rune : Str → ℕ → ℕ
unfolding rune_start
back_to_rune s zero = 0
back_to_rune s (suc cut) =
    let rest = back_to_rune s cut in if rune_start (get_or s (suc cut) 0) then suc cut else rest

-- `for start < len(s) && !utf8.RuneStart(s[start]) { start++ }`, as the bytes passed over.
unfoldable pub to_rune : Str → ℕ
unfolding rune_start
to_rune [] = 0
to_rune (c ∷ s) = let rest = to_rune s in if rune_start c then 0 else suc rest

abbrev ellipsis : Str
ellipsis = 0xE2 ∷ 0x80 ∷ 0xA6 ∷ []

abbrev pub truncated_marker : Str
truncated_marker = codes "\n" ++ ellipsis ++ codes "(truncated)"

abbrev pub snip_marker : Str
snip_marker = codes "\n" ++ ellipsis ++ codes "(snip)"

-- The cut at the last line feed of the first n bytes, where it stands in their last quarter.
unfoldable pub line_cut : Str → ℕ → ℕ
unfolding last_newline
line_cut s n = elim (last_newline (take n s)) [
  | none ↦ n
  | some i ↦ if ltb (n * 3 / 4) i then i else n
]

unfoldable pub truncate_tail : Str → ℕ → Str
unfolding back_to_rune line_cut
truncate_tail s max_chars = take (back_to_rune s (line_cut s max_chars)) s ++ truncated_marker

abbrev pub notice_rest : Str → Str
notice_rest extra =
    codes " chars elided from the middle; head and tail kept"
    ++ extra
    ++ codes ")"
    ++ ellipsis
    ++ codes "\n"

abbrev pub notice : Str → ℕ → Str → Str
notice s max_chars extra =
    codes "\n"
    ++ ellipsis
    ++ codes "(truncated: "
    ++ decimal (length s - max_chars)
    ++ notice_rest extra

-- Where the tail of the last n bytes starts.
unfoldable pub tail_start : Str → ℕ → ℕ
unfolding first_newline to_rune
tail_start s n =
    let start = length s - n in
    let from : ℕ = elim (first_newline (drop start s)) [
      | none ↦ start
      | some i ↦ if ltb i (n / 4) then start + i + 1 else start
    ] in
    from + to_rune (drop from s)

unfoldable pub truncate_middle_note : Str → Str → ℕ → Str
unfolding truncate_tail back_to_rune line_cut tail_start
truncate_middle_note extra s max_chars =
    let note = notice s max_chars extra in
    let room = max_chars - length note in
    let head = room / 4 in
    if ltb room 200
    then truncate_tail s max_chars
    else take (back_to_rune s (line_cut s head)) s ++ note ++ drop (tail_start s (room - head)) s

unfoldable pub snip_tail : Str → ℕ → Str
snip_tail s max_chars = take (max_chars - length snip_marker) s ++ snip_marker

abbrev pub untrusted_open : Str
untrusted_open = codes "<untrusted-output"

abbrev pub untrusted_close : Str
untrusted_close = codes "</untrusted-output>"

-- `strings.HasSuffix`.
unfoldable pub has_suffix : Str → Str → Bool
unfolding has_prefix
has_suffix s t = leb (length t) (length s) && has_prefix (drop (length s - length t) s) t

abbrev pub framed : Str → Bool
framed s = has_prefix s untrusted_open && has_suffix s untrusted_close

abbrev line_end : Str → Str
line_end s = if has_suffix s (codes "\n") then s else s ++ codes "\n"

-- `cutKeepingFrame`.
unfoldable pub cut_keeping_frame : (Str → ℕ → Str) → Str → ℕ → Str
unfolding has_suffix has_prefix
cut_keeping_frame cut s max_chars =
    let inner = take (length s - length untrusted_close) s in
    if max_chars == 0 || leb (length s) max_chars
    then s
    else if not (framed s)
    then cut s max_chars
    else line_end (cut inner (max (max_chars - length untrusted_close - 1) 1)) ++ untrusted_close

abbrev pub truncate_tool_result : Str → ℕ → Str
truncate_tool_result = cut_keeping_frame (truncate_middle_note [])

abbrev pub truncate_tool_result_spilled : Str → ℕ → Str → Str
truncate_tool_result_spilled s max_chars path =
    cut_keeping_frame
      (truncate_middle_note (codes "; full text: " ++ path ++ codes " (read with offset/limit)")) s
      max_chars

abbrev pub snip_tool_result : Str → ℕ → Str
snip_tool_result = cut_keeping_frame snip_tail
