-- ===== src/Session/Log.antt =====
-- internal/session/session.go: the lines of a session file, its events and the library functions
-- that read and write them.
use mow.Prelude.{
  ℤ, ℕ, ◌+◌, ◌==◌, if◌then◌else◌, Bool, Option, List, [], ◌∷◌, Str, Result, ok, ◌>>=◌, length,
}
use mow.Agent.Messages.{Message}

abbrev pub Bytes : Type 0
Bytes = List ℕ

abbrev pub newline : ℕ
newline = 10

-- `Event`, one line of the file.
pub record Event : Type 0 where
  pub kind : Str
  pub ts : ℕ
  pub role : Str
  pub content : Str
  pub model : Str
  pub wire : Str
  pub effort : Str
  pub allow_write : Option Bool
  pub allow_shell : Option Bool
  pub read_only : Option Bool
  pub message : Option Message
  pub messages : List Message
  pub base : Option ℤ

-- What `LoadMessages` decodes of a line: the messages stay raw.
pub record Entry : Type 0 where
  pub kind : Str
  pub role : Str
  pub content : Str
  pub message : Option Message
  pub messages : Bytes
  pub base : Option ℤ

-- The functions of Go's encoding/json, path/filepath and fmt that the package calls.
pub record Library : Type 0 where
  pub encode_messages : List Message → Result Str Bytes
  pub encode_event : Event → Result Str Bytes
  pub decode_entry : Bytes → Option Entry
  pub decode_messages : Bytes → Result Str (List Message)
  pub file_base : Str → Str
  pub file_join : Str → Str → Str
  -- `%q`.
  pub quote : Str → Str

unfoldable pub push : ℕ → List Bytes → List Bytes
push c [] = (c ∷ []) ∷ []
push c (line ∷ rest) = (c ∷ line) ∷ rest

-- What `ReadBytes('\n')` gives until the end: each line with its newline, the last one with or
-- without.
unfoldable pub lines : Bytes → List Bytes
lines [] = []
lines (c ∷ bytes) = let rest = lines bytes in if c == newline then (c ∷ []) ∷ rest else push c rest

module _ {ℓ} {S : Type ℓ} where
  unfoldable pub visit_all : (S → ℕ → Bytes → Result Str S) → S → ℕ → List Bytes → Result Str S
  visit_all visit s offset [] = ok s
  visit_all visit s offset (line ∷ rest) =
      visit s offset line >>= (λ next. visit_all visit next (offset + length line) rest)

  -- `scanLines`; a file that does not exist has no bytes.
  unfoldable pub scan_lines : (S → ℕ → Bytes → Result Str S) → S → Bytes → Result Str S
  scan_lines visit s file = visit_all visit s 0 (lines file)
