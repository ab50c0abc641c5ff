-- ===== src/Agent/Think.antt =====
-- internal/agent/think.go: the inline thinking that is taken out of a reply. An index counts
-- characters here; it counts bytes there, and is used on the text that it was found in.
use mow.Prelude.{
  ℕ, zero, suc, ◌+◌, Bool, true, false, not, ◌&&◌, ◌||◌, List, [], ◌∷◌, ◌++◌, Option, none, some,
  ◌≡◌, refl, ltb, leb, ◌==◌, if◌then◌else◌, length, take, drop, map, Str, codes, str_eq, trim_space,
  has_prefix, is_empty,
}

-- The two tags of an entry of `thinkTagPairs`.
pub record TagPair : Type 0 where
  pub opening : Str
  pub closing : Str

abbrev pair : Str → Str → TagPair
pair a b = record { opening = a; closing = b }

abbrev fence : Str
fence = codes "```"

abbrev pub think_tag_pairs : List TagPair
think_tag_pairs =
    pair (codes "<think>") (codes "</think>")
    ∷ pair (codes "<thinking>") (codes "</thinking>")
    ∷ pair (codes "<redacted_thinking>") (codes "</redacted_thinking>")
    ∷ pair (codes "<thought>") (codes "</thought>")
    ∷ pair (codes "<reasoning>") (codes "</reasoning>")
    ∷ pair (codes "◁think▷") (codes "◁/think▷")
    ∷ pair (codes "<|thinking|>") (codes "<|/thinking|>")
    ∷ pair (codes "<|begin_of_thought|>") (codes "<|end_of_thought|>")
    ∷ pair (codes "```thinking") fence
    ∷ pair (codes "```think") fence
    ∷ pair (codes "```reasoning") fence
    ∷ []

-- `asciiLower`.
unfoldable pub ascii_lower : Str → Str
ascii_lower = map (λ c. if leb b'A' c && leb c b'Z' then c + 32 else c)

-- `strings.Index`.
unfoldable pub index_of : Str → Str → Option ℕ
unfolding has_prefix
index_of [] t = if has_prefix [] t then some 0 else none
index_of (c ∷ s) t =
    if has_prefix (c ∷ s) t
    then some 0
    else elim (index_of s t) [ some i ↦ some (suc i) | none ↦ none ]

-- The first of two matches; the one that was there before wins a tie.
abbrev earlier : Option (ℕ × TagPair) → Option (ℕ × TagPair) → Option (ℕ × TagPair)
earlier none b = b
earlier (some a) none = some a
earlier (some a) (some b) = if ltb b.0 a.0 then some b else some a

-- The loop of `earliestThinkOpen`.
unfoldable pub earliest_think_open :
    List TagPair → Str → Option (ℕ × TagPair) → Option (ℕ × TagPair)
unfolding index_of ascii_lower
earliest_think_open [] s best = best
earliest_think_open (p ∷ ps) s best =
    let found : Option (ℕ × TagPair) = elim (index_of (ascii_lower s) (ascii_lower p.opening)) [
      | some i ↦ some (i, p)
      | none ↦ none
    ] in
    earliest_think_open ps s (earlier best found)

-- `strings.TrimPrefix`.
abbrev trim_prefix : Str → Str → Str
trim_prefix s t = if has_prefix s t then drop (length t) s else s

abbrev trim_newline : Str → Str
trim_newline s = trim_prefix (trim_prefix s (codes "\n")) (codes "\r\n")

unfoldable pub first_line : Str → Str
first_line [] = []
first_line (c ∷ s) = let rest = first_line s in if c == 10 then [] else c ∷ rest

-- The loop of `indexCloseTag` over the fences, on fuel; `before` is the index of the text.
unfoldable pub closing_fence : ℕ → ℕ → Str → Option ℕ
unfolding index_of first_line trim_space
closing_fence zero before s = none
closing_fence (suc fuel) before s = elim (index_of s fence) [
  | none ↦ none
  | some j ↦
      let rest = drop (j + 3) s in
      elim (index_of rest fence) [
        | none ↦ if is_empty (trim_space (first_line rest)) then some (before + j) else none
        | some k ↦
            let after = closing_fence fuel (before + (j + 3 + k + 3)) (drop (k + 3) rest) in
            if is_empty (trim_space (first_line rest)) then some (before + j) else after
      ]
]

-- `indexCloseTag`.
unfoldable pub index_close_tag : Str → Str → Option ℕ
unfolding closing_fence index_of ascii_lower str_eq
index_close_tag s close_tag =
    if str_eq close_tag fence
    then closing_fence (length s) 0 s
    else index_of (ascii_lower s) (ascii_lower close_tag)

-- `isSpaceByte`.
abbrev is_space_byte : ℕ → Bool
is_space_byte c = c == 32 || c == 9 || c == 10 || c == 13

unfoldable pub ends_dark : Str → Bool
ends_dark [] = false
ends_dark (c ∷ []) = not (is_space_byte c)
ends_dark (c ∷ d ∷ s) = ends_dark (d ∷ s)

abbrev starts_dark : Str → Bool
starts_dark [] = false
starts_dark (c ∷ s) = not (is_space_byte c)

-- The seam guard.
abbrev seam : Str → Str → Str
seam vis rest = if ends_dark vis && starts_dark rest then vis ++ codes " " else vis

-- `extractThinking`.
pub record Extracted : Type 0 where
  pub visible : Str
  pub thinking : Str
  pub unclosed : Bool

-- The loop of `extractThinking`, on fuel.
unfoldable pub extract : ℕ → Str → Str → Str → Extracted
unfolding earliest_think_open index_close_tag ends_dark has_prefix
extract zero rest vis think = record { visible = vis; thinking = think; unclosed = false }
extract (suc fuel) rest vis think = elim (earliest_think_open think_tag_pairs rest none) [
  | none ↦ record { visible = vis ++ rest; thinking = think; unclosed = false }
  | some (i, p) ↦
      let vis' = vis ++ take i rest in
      let after = trim_newline (drop (i + length (TagPair.opening p)) rest) in
      elim (index_close_tag after (TagPair.closing p)) [
        | none ↦ record { visible = vis'; thinking = think ++ after; unclosed = true }
        | some j ↦
            let rest' = trim_newline (drop (j + length (TagPair.closing p)) after) in
            extract fuel rest' (seam vis' rest') (think ++ take j after)
      ]
]

-- Each round takes a tag off the text, so that its length is enough fuel.
abbrev pub extract_thinking : Str → Extracted
extract_thinking s = extract (suc (length s)) s [] []

-- What `Run` makes of the text of a reply.
unfoldable pub visible : Str → Str
unfolding extract trim_space
visible content =
    let e = extract_thinking content in
    if not (is_empty e.thinking) || e.unclosed then trim_space e.visible else content

-- A text in which no tag opens stays as it is.
pub visible-untagged : (s : Str) → earliest_think_open think_tag_pairs s none ≡ none → visible s ≡ s
unfolding visible extract
visible-untagged s h = rw (h, extract) refl
