-- ===== src/Session/Append.antt =====
-- internal/session/session.go: `append`, which writes one event, and `AppendSnapshot`.
use mow.Prelude.{
  ℕ, ◌+◌, if◌then◌else◌, not, ◌&&◌, Option, none, some, [], ◌∷◌, ◌++◌, Str, str_eq, is_empty,
  Result, err, ok, List, length, take,
}
use mow.Agent.Messages.{Message}
use mow.Session.Log.{Bytes, newline, Event, Library}
use mow.Session.Store.{
  Store, File, Fault, no_file, no_tail, no_newline, torn, Turn, Appended, snapshot_kind,
  resolved_path, uncached, choose_event, is_sealed, sealed, stamped, failed, written,
  has_no_messages,
}

abbrev pub with_bytes : File → Bytes → File
with_bytes f bytes = record f { bytes = bytes }

-- The write of the encoded record, with its newline, at the end of the sealed file. `s` has no
-- cached history; `previous` is the one it had.
unfoldable pub write_record :
    Fault → Store → Bytes → File → Event → Option Bytes → ℕ → Bytes → Appended
write_record (torn k e) s previous f ev snapshot n raw =
    failed s (with_bytes f (f.bytes ++ take k raw)) e
write_record fault s previous f ev snapshot n raw =
    let offset = length f.bytes in
    record {
      store =
          written (record s { file = some f.inode; end = offset + length raw }) previous ev snapshot
            offset n;
      log = with_bytes f (f.bytes ++ raw);
      error = none;
    }

unfoldable pub write_encoded :
    Fault → Store → Bytes → File → Event → Option Bytes → ℕ → Result Str Bytes → Appended
write_encoded fault s previous f ev snapshot n (err e) = failed s f e
write_encoded fault s previous f ev snapshot n (ok raw) =
    write_record fault s previous f ev snapshot n (raw ++ (newline ∷ []))

unfoldable pub write_event : Library → Turn → Store → File → Event → Option Bytes → ℕ → Appended
write_event lib t s f ev snapshot n =
    write_encoded t.fault (record s { snapshot = [] }) s.snapshot (with_bytes f (sealed f.bytes))
      (stamped t ev) snapshot n (lib.encode_event (stamped t ev))

-- The last line is ended first: the read of the last byte and the write of a newline may fail.
unfoldable pub write_sealed :
    Fault → Library → Turn → Store → File → Event → Option Bytes → ℕ → Appended
write_sealed (no_tail e) lib t s f ev snapshot n =
    if is_empty f.bytes
    then write_event lib t s f ev snapshot n
    else failed (record s { snapshot = [] }) f e
write_sealed (no_newline e) lib t s f ev snapshot n =
    if is_sealed f.bytes
    then write_event lib t s f ev snapshot n
    else failed (record s { snapshot = [] }) f e
write_sealed _ lib t s f ev snapshot n = write_event lib t s f ev snapshot n

-- `s` has its cache checked against the file. A history that is the cached one is not written.
unfoldable pub append_checked : Library → Turn → Store → File → Event → Option Bytes → Appended
append_checked lib t s f ev none = write_sealed t.fault lib t s f ev none (length ev.messages)
append_checked lib t s f ev (some snapshot) =
    if not (is_empty s.snapshot) && str_eq snapshot s.snapshot
    then record { store = s; log = f; error = none }
    else write_sealed t.fault lib t s f (choose_event s ev snapshot) (some snapshot)
        (length ev.messages)

unfoldable pub open_log : Fault → Library → Turn → Store → File → Event → Option Bytes → Appended
open_log (no_file e) lib t s f ev snapshot = failed s f e
open_log _ lib t s f ev snapshot = append_checked lib t (uncached t s f) f ev snapshot

unfoldable pub append_resolved :
    Library → Turn → Store → File → Event → Option Bytes → Result Str Str → Appended
append_resolved lib t s f ev snapshot (err e) = failed s f e
append_resolved lib t s f ev snapshot (ok path) = open_log t.fault lib t s f ev snapshot

-- `append`.
unfoldable pub append : Library → Turn → Store → File → Event → Option Bytes → Appended
append lib t s f ev snapshot = append_resolved lib t s f ev snapshot (resolved_path lib s)

abbrev pub snapshot_event : List Message → Event
snapshot_event messages = record {
  kind = snapshot_kind;
  ts = 0;
  role = [];
  content = [];
  model = [];
  wire = [];
  effort = [];
  allow_write = none;
  allow_shell = none;
  read_only = none;
  message = none;
  messages = messages;
  base = none;
}

unfoldable pub append_encoded :
    Library → Turn → Store → File → List Message → Result Str Bytes → Appended
append_encoded lib t s f messages (err e) = failed s f e
append_encoded lib t s f messages (ok raw) = append lib t s f (snapshot_event messages) (some raw)

-- `AppendSnapshot`.
unfoldable pub append_snapshot : Library → Turn → Store → File → List Message → Appended
append_snapshot lib t s f messages =
    if has_no_messages messages
    then record { store = s; log = f; error = none }
    else append_encoded lib t s f messages (lib.encode_messages messages)
