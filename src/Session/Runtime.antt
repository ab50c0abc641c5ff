-- ===== src/Session/Runtime.antt =====
-- internal/session/session.go: `LoadRuntime`, `LoadTranscriptEvents` and the first line that a user
-- wrote.
use mow.Prelude.{
  ℕ, if◌then◌else◌, Bool, true, false, not, ◌&&◌, ◌||◌, Option, none, some, List, [], ◌∷◌, ◌++◌,
  Str, str_eq, is_empty, trim_space, Result, ok,
}
use mow.Agent.Messages.{user_role}
use mow.Session.Log.{Bytes, Event, scan_lines}
use mow.Session.Store.{is_none, has_no_messages}
use mow.Session.Repair.{assistant_role}

-- What `LoadRuntime` decodes of a line.
pub record Setting : Type 0 where
  pub model : Str
  pub wire : Str
  pub effort : Str
  pub allow_write : Option Bool
  pub allow_shell : Option Bool
  pub read_only : Option Bool

-- `Runtime`.
pub record Runtime : Type 0 where
  pub model : Str
  pub wire : Str
  pub effort : Str
  pub allow_write : Bool
  pub allow_shell : Bool
  pub read_only : Bool
  pub has_policy : Bool

abbrev pub no_runtime : Runtime
no_runtime = record {
  model = [];
  wire = [];
  effort = [];
  allow_write = false;
  allow_shell = false;
  read_only = false;
  has_policy = false;
}

-- A text that is not blank replaces the one before it.
unfoldable pub carry : Str → Str → Str
carry last text = let v = trim_space text in if is_empty v then last else v

unfoldable pub carry_flag : Bool → Option Bool → Bool
carry_flag last none = last
carry_flag last (some flag) = flag

abbrev pub is_set : Option Bool → Bool
is_set none = false
is_set (some flag) = true

unfoldable pub note_setting : Runtime → Setting → Runtime
note_setting r s = record {
  model = carry r.model s.model;
  wire = carry r.wire s.wire;
  effort = carry r.effort s.effort;
  allow_write = carry_flag r.allow_write s.allow_write;
  allow_shell = carry_flag r.allow_shell s.allow_shell;
  read_only = carry_flag r.read_only s.read_only;
  has_policy = r.has_policy || is_set s.allow_write || is_set s.allow_shell || is_set s.read_only;
}

unfoldable pub note_line : (Bytes → Option Setting) → Runtime → ℕ → Bytes → Result Str Runtime
note_line decode r offset line = elim (decode line) [ none ↦ ok r | some s ↦ ok (note_setting r s) ]

-- `LoadRuntime`, with the decoding of a line.
unfoldable pub load_runtime : (Bytes → Option Setting) → Bytes → Result Str Runtime
load_runtime decode file = scan_lines (note_line decode) no_runtime file

-- A turn that a user interface shows: no message or history of its own, and some text.
unfoldable pub is_turn : Event → Bool
is_turn ev =
    is_none ev.message && has_no_messages ev.messages && not (is_empty (trim_space ev.content))

unfoldable pub note_turn :
    (Bytes → Option Str) → (Bytes → Option Event) → List Event → ℕ → Bytes → Result Str (List Event)
note_turn role decode turns offset line = elim (role line) [
  | none ↦ ok turns
  | some r ↦
      if str_eq r user_role || str_eq r assistant_role
      then elim (decode line) [
        | none ↦ ok turns
        | some ev ↦ ok (if is_turn ev then turns ++ (ev ∷ []) else turns)
      ]
      else ok turns
]

-- `LoadTranscriptEvents`, with the decoding of a line's role and of the line.
unfoldable pub load_transcript_events :
    (Bytes → Option Str) → (Bytes → Option Event) → Bytes → Result Str (List Event)
load_transcript_events role decode file = scan_lines (note_turn role decode) [] file
