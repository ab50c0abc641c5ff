-- ===== src/Session/Replay.antt =====
-- internal/session/session.go: `LoadMessages`, the history that a session file holds.
use mow.Prelude.{
  ℤ, pos, negsuc, same_int, ℕ, if◌then◌else◌, Bool, false, not, ◌&&◌, ◌||◌, Option, none, some,
  List, [], ◌∷◌, ◌++◌, Str, codes, str_eq, is_empty, trim_space, decimal, Result, err, ok, ◌>>=◌,
}
use mow.Agent.Messages.{Message, plain, user_role, system_role}
use mow.Session.Log.{Bytes, Entry, Library, scan_lines}

-- The variables of `LoadMessages`.
pub record Replay : Type 0 where
  pub simple : List Message
  pub snapshot : List Message
  pub pending : Bytes
  pub last_offset : ℤ

abbrev pub start : Replay
start = record { simple = []; snapshot = []; pending = []; last_offset = negsuc 0 }

abbrev pub delta_kind : Str
delta_kind = codes "delta"

-- `*ev.Base != lastOffset`.
unfoldable pub has_base : Option ℤ → ℤ → Bool
has_base none offset = false
has_base (some base) offset = same_int base offset

-- The first message is the system's.
unfoldable pub is_headed : List Message → Bool
is_headed [] = false
is_headed (m ∷ _) = str_eq m.role system_role

-- Messages that are neither absent nor empty.
unfoldable pub is_full : Bytes → Bool
is_full raw = not (is_empty raw || str_eq raw (codes "null") || str_eq raw (codes "[]"))

unfoldable pub materialize : Library → Replay → Result Str Replay
materialize lib r =
    if is_empty r.pending
    then ok r
    else lib.decode_messages r.pending >>= (λ ms. ok (record r { snapshot = ms; pending = [] }))

unfoldable pub apply_delta : Library → Replay → ℕ → Entry → Result Str Replay
apply_delta lib r offset e =
    if has_base e.base r.last_offset
    then materialize lib r >>= (λ m.
      lib.decode_messages e.messages
      >>= (λ suffix. ok (record m { snapshot = m.snapshot ++ suffix; last_offset = pos offset })))
    else err (codes "session: delta at " ++ decimal offset ++ codes " has no matching replay base")

-- One message of the older format.
unfoldable pub apply_message : Library → Replay → ℕ → Message → Result Str Replay
apply_message lib r offset m =
    if str_eq m.role system_role
    then ok (record r { pending = []; snapshot = m ∷ []; last_offset = pos offset })
    else materialize lib r >>= (λ (full : Replay). ok (record full {
      snapshot = (if is_headed full.snapshot then full.snapshot ++ (m ∷ []) else full.snapshot);
      last_offset = pos offset;
    }))

unfoldable pub apply_simple : Replay → Entry → Replay
apply_simple r e =
    if (str_eq e.role user_role || str_eq e.role (codes "assistant"))
      && not (is_empty (trim_space e.content))
    then record r { simple = r.simple ++ (plain e.role false e.content ∷ []) }
    else r

unfoldable pub apply_other : Library → Replay → ℕ → Entry → Option Message → Result Str Replay
apply_other lib r offset e none = ok (apply_simple r e)
apply_other lib r offset e (some m) = apply_message lib r offset m

unfoldable pub apply_entry : Library → Replay → ℕ → Entry → Result Str Replay
apply_entry lib r offset e =
    if str_eq e.kind delta_kind
    then apply_delta lib r offset e
    else if is_full e.messages
    then ok (record r { pending = e.messages; snapshot = []; last_offset = pos offset })
    else apply_other lib r offset e e.message

-- A line that is no event is passed over.
unfoldable pub apply_decoded : Library → Replay → ℕ → Option Entry → Result Str Replay
apply_decoded lib r offset none = ok r
apply_decoded lib r offset (some e) = apply_entry lib r offset e

unfoldable pub apply_line : Library → Replay → ℕ → Bytes → Result Str Replay
apply_line lib r offset line = apply_decoded lib r offset (lib.decode_entry line)

unfoldable pub replay_file : Library → Bytes → Result Str Replay
replay_file lib file = scan_lines (apply_line lib) start file
