-- ===== src/Session/Store.antt =====
-- internal/session/session.go: `Store`, which appends the events of a session to its file.
use mow.Prelude.{
  pos, ℕ, ◌-◌, ◌*◌, ltb, leb, ◌==◌, if◌then◌else◌, Bool, true, false, not, ◌&&◌, ◌||◌, Option, none,
  some, List, [], ◌∷◌, ◌++◌, Str, codes, str_eq, is_empty, has_prefix, all, Result, err, ok, length,
  take, drop, get_elem?,
}
use mow.Agent.Messages.{Message}
use mow.Session.Log.{Bytes, newline, Event, Library}
use mow.Session.Replay.{delta_kind}

pub record Store : Type 0 where
  pub dir : Str
  pub id : Str
  -- What `os.SameFile` compares, of the file last written.
  pub file : Option ℕ
  pub end : ℕ
  -- No bytes stand for nil.
  pub snapshot : Bytes
  pub snapshot_offset : ℕ
  pub snapshot_messages : ℕ
  pub checkpoint_bytes : ℕ

-- The session file, as the file system has it; an absent one is created empty.
pub record File : Type 0 where
  pub inode : ℕ
  pub bytes : Bytes

-- The system call that fails, if one does.
pub data Fault : Type 0 where
  sound : Fault
  -- MkdirAll, OpenFile or Stat.
  no_file : Str → Fault
  -- The read of the last byte.
  no_tail : Str → Fault
  -- The write of a newline.
  no_newline : Str → Fault
  -- The write of the record, after so many bytes.
  torn : ℕ → Str → Fault

-- What one call finds outside: the time, whether the lock was granted, and the fault.
pub record Turn : Type 0 where
  pub now : ℕ
  pub locked : Bool
  pub fault : Fault

-- The state after a call, and its error.
pub record Appended : Type 0 where
  pub store : Store
  pub log : File
  pub error : Option Str

abbrev pub snapshot_kind : Str
snapshot_kind = codes "snapshot"

abbrev pub is_id_char : ℕ → Bool
is_id_char r =
    (leb 97 r && leb r 122)
    || (leb 65 r && leb r 90)
    || (leb 48 r && leb r 57)
    || r == 45
    || r == 95
    || r == 46

abbrev invalid_id : Library → Str → Str
invalid_id lib id = codes "session: invalid id " ++ lib.quote id

-- `ValidateID`: the reason for a refusal.
unfoldable pub validate_id : Library → Str → Option Str
validate_id lib id =
    let refusal = invalid_id lib id ++ codes " (use letters, digits, '-', '_', '.')" in
    if is_empty id
    then some (codes "session: empty id")
    else if has_prefix id (codes ".")
    then some refusal
    else if all is_id_char id
    then none
    else some refusal

-- `Store.resolvedPath`.
unfoldable pub resolve_valid : Library → Store → Option Str → Result Str Str
resolve_valid lib s (some reason) = err reason
resolve_valid lib s none =
    if str_eq (lib.file_base s.id) s.id
    then ok (lib.file_join s.dir (s.id ++ codes ".jsonl"))
    else err (invalid_id lib s.id)

unfoldable pub resolved_path : Library → Store → Result Str Str
resolved_path lib s =
    if is_empty s.dir
    then err (codes "session: dir required")
    else resolve_valid lib s (validate_id lib s.id)

-- The file is the one last written, and has its size.
unfoldable pub is_current : Store → File → Bool
is_current s f =
    (elim s.file [ none ↦ false | some inode ↦ inode == f.inode ]) && s.end == length f.bytes

-- The cached history is dropped where someone else may have written.
unfoldable pub uncached : Turn → Store → File → Store
uncached t s f = if t.locked && is_current s f then s else record s { snapshot = [] }

unfoldable pub has_comma : Bytes → ℕ → Bool
has_comma bytes n = elim (get_elem? bytes n) [ none ↦ false | some c ↦ c == 44 ]

-- The history continues the cached one, and has not doubled since the last checkpoint.
unfoldable pub is_extension : Store → Bytes → ℕ → Bool
is_extension s snapshot n =
    let prefix = length s.snapshot - 1 in
    ltb (length snapshot) (2 * s.checkpoint_bytes)
    && ltb s.snapshot_messages n
    && ltb prefix (length snapshot)
    && has_comma snapshot prefix
    && str_eq (take prefix snapshot) (take prefix s.snapshot)

unfoldable pub as_delta : Store → Event → Event
as_delta s ev = record ev {
  kind = delta_kind;
  base = some (pos s.snapshot_offset);
  messages = drop s.snapshot_messages ev.messages;
}

-- The event that is written, for a history given as bytes.
unfoldable pub choose_event : Store → Event → Bytes → Event
choose_event s ev snapshot =
    if not (is_empty s.snapshot) && is_extension s snapshot (length ev.messages)
    then as_delta s ev
    else ev

unfoldable pub last_byte : Bytes → Option ℕ
last_byte [] = none
last_byte (c ∷ []) = some c
last_byte (_ ∷ d ∷ rest) = last_byte (d ∷ rest)

unfoldable pub is_sealed : Bytes → Bool
is_sealed bytes = elim (last_byte bytes) [ none ↦ true | some c ↦ c == newline ]

-- The bytes with the last line ended.
unfoldable pub sealed : Bytes → Bytes
sealed bytes = if is_sealed bytes then bytes else bytes ++ (newline ∷ [])

unfoldable pub stamped : Turn → Event → Event
stamped t ev = if ev.ts == 0 then record ev { ts = t.now } else ev

abbrev pub failed : Store → File → Str → Appended
failed s f e = record { store = s; log = f; error = some e }

-- The cache of a store that has written a history at an offset.
unfoldable pub cached : Store → Event → Bytes → ℕ → ℕ → Store
cached s ev snapshot offset n = record s {
  snapshot = snapshot;
  snapshot_offset = offset;
  snapshot_messages = n;
  checkpoint_bytes = (if str_eq ev.kind snapshot_kind then length snapshot else s.checkpoint_bytes);
}

unfoldable pub is_none : Option Message → Bool
is_none none = true
is_none (some m) = false

unfoldable pub has_no_messages : List Message → Bool
has_no_messages [] = true
has_no_messages (_ ∷ _) = false

-- After a record is written: `s` has no cached history, `previous` is the one it had.
unfoldable pub written : Store → Bytes → Event → Option Bytes → ℕ → ℕ → Store
written s previous ev (some snapshot) offset n = cached s ev snapshot offset n
written s previous ev none offset n =
    if is_none ev.message && has_no_messages ev.messages && not (str_eq ev.kind delta_kind)
    then record s { snapshot = previous }
    else s
