-- ===== src/Session/Faults.antt =====
-- A save that finds a fault leaves a file that replays to the history before it or to its own.
use mathlib.Core.Path.{subst}
use mow.Prelude.{
  ℕ, fork, Bool, true, false, not, ◌&&◌, and_left, and_right, Option, some, List, [], ◌≡◌, refl,
  Str, str_eq, str_eq→eq, is_empty, Result, ok, err, length, All,
}
use mow.Agent.Messages.{Message}
use mow.Session.Log.{Bytes, Event, Library}
use mow.Session.Store.{
  Store, File, Turn, Appended, Fault, sound, no_file, no_tail, no_newline, torn, resolved_path,
  uncached, is_extension, as_delta, choose_event, is_sealed, sealed, stamped, has_no_messages,
  failed,
}
use mow.Session.Append.{
  write_record, write_encoded, write_event, write_sealed, append_checked, open_log, append_resolved,
  append, with_bytes, snapshot_event, append_encoded, append_snapshot,
}
use mow.Session.Replay.{Replay}
use mow.Session.Codec.{IsCodec, IsHistory}
use mow.Session.Coherence.{
  Caches, Coherent, uncached-Caches, Coherent-uncached, relocated, located-uncached,
}
use mow.Session.Deltas.{All-drop, Writes, delta-Writes, full-Writes}
use mow.Session.Saves.{write_lem, unchanged}
use mow.Session.Settled.{Settled, Saved-Settled, stopped, cleared}
use mow.Session.Torn.{torn_lem}

abbrev pub turn : ℕ → Bool → Fault → Turn
turn now locked fault = record { now = now; locked = locked; fault = fault }

-- The faults that do not tear a record.
unfoldable is_torn : Fault → Bool
is_torn (torn k e) = true
is_torn sound = false
is_torn (no_file e) = false
is_torn (no_tail e) = false
is_torn (no_newline e) = false

write_encoded-quiet :
    (fault : Fault) (s : Store) (previous : Bytes) (f : File) (ev : Event) (snapshot : Option Bytes)
    (n : ℕ) (encoding : Result Str Bytes)
    → is_torn fault ≡ false
    → write_encoded sound s previous f ev snapshot n encoding
      ≡ write_encoded fault s previous f ev snapshot n encoding
unfolding write_encoded write_record is_torn
write_encoded-quiet fault s previous f ev snapshot n (err e) quiet = refl
write_encoded-quiet sound s previous f ev snapshot n (ok raw) quiet = refl
write_encoded-quiet (no_file e) s previous f ev snapshot n (ok raw) quiet = refl
write_encoded-quiet (no_tail e) s previous f ev snapshot n (ok raw) quiet = refl
write_encoded-quiet (no_newline e) s previous f ev snapshot n (ok raw) quiet = refl
write_encoded-quiet (torn k e) s previous f ev snapshot n (ok raw) quiet = cc

is_false : (b : Bool) → not b ≡ true → b ≡ false
is_false false e = refl
is_false true e = cc

module _ {lib : Library} {element : Message → Bytes} {Kept : Message → Type 0}
    (codec : IsCodec lib element Kept) where
  quiet_settles :
      (path : Str) (fault : Fault) (s : Store) (previous : Bytes) (f : File) (r : Replay)
      (ev : Event) (ms : List Message) (snapshot : Bytes)
      → is_torn fault ≡ false
      → resolved_path lib s ≡ ok path
      → Coherent lib Kept s f r
      → lib.encode_messages ms ≡ ok snapshot
      → All Kept ms
      → IsHistory ev
      → All Kept ev.messages
      → Writes lib r f ms ev
      → Settled lib Kept path f r ms (
          write_encoded fault
            (record s { snapshot = [] })
            previous
            (with_bytes f (sealed f.bytes))
            ev
            (some snapshot)
            (length ms)
            (lib.encode_event ev))
  quiet_settles path fault s previous f r ev ms snapshot quiet located coherent encoded kept history
        kept_event writes =
      subst (λ out. Settled lib Kept path f r ms out)
        (write_encoded-quiet fault (record s { snapshot = [] }) previous
          (with_bytes f (sealed f.bytes)) ev (some snapshot) (length ms) (lib.encode_event ev)
          quiet)
        (Saved-Settled lib Kept path f r ms _ (
          write_lem codec (record s { snapshot = [] }) previous f r ev ms snapshot path
            (relocated lib s path located) coherent.replays encoded kept history kept_event writes))

  encoded_settles :
      (path : Str) (fault : Fault) (s : Store) (previous : Bytes) (f : File) (r : Replay)
      (ev : Event) (ms : List Message) (snapshot : Bytes)
      → resolved_path lib s ≡ ok path
      → Coherent lib Kept s f r
      → lib.encode_messages ms ≡ ok snapshot
      → All Kept ms
      → IsHistory ev
      → All Kept ev.messages
      → Writes lib r f ms ev
      → Settled lib Kept path f r ms (
          write_encoded fault
            (record s { snapshot = [] })
            previous
            (with_bytes f (sealed f.bytes))
            ev
            (some snapshot)
            (length ms)
            (lib.encode_event ev))
  encoded_settles path (torn k e) s previous f r ev ms snapshot located coherent encoded kept
        history kept_event writes =
      let (line, wrote) = codec.events ev history kept_event in
      let (next, applied, stands) = writes line wrote in
      unfold write_encoded write_record in
      rw wrote (
        torn_lem codec path s f r next ev ms e k line _ refl located coherent wrote applied
          stands.history)
  encoded_settles path fault s previous f r ev ms snapshot located coherent encoded kept history
        kept_event writes =
      quiet_settles path fault s previous f r ev ms snapshot (unfold is_torn in refl) located
        coherent encoded kept history kept_event writes

  sealed_settles :
      (path : Str) (now : ℕ) (locked : Bool) (fault : Fault) (s : Store) (f : File) (r : Replay)
      (ev : Event) (ms : List Message) (snapshot : Bytes)
      → resolved_path lib s ≡ ok path
      → Coherent lib Kept s f r
      → Settled lib Kept path f r ms
          (write_event lib (turn now locked fault) s f ev (some snapshot) (length ms))
      → Settled lib Kept path f r ms
          (write_sealed fault lib (turn now locked fault) s f ev (some snapshot) (length ms))
  unfolding write_sealed
  sealed_settles path now locked (no_tail e) s f r ev ms snapshot located coherent settled =
      fork (λ (out : Appended). Settled lib Kept path f r ms out) (is_empty f.bytes)
        (write_event lib (turn now locked (no_tail e)) s f ev (some snapshot) (length ms))
        (failed (record s { snapshot = [] }) f e) (λ _. settled)
        (λ _.
          stopped lib Kept path (record s { snapshot = [] }) f r ms e (relocated lib s path located)
            (cleared s f r coherent))
  sealed_settles path now locked (no_newline e) s f r ev ms snapshot located coherent settled =
      fork (λ (out : Appended). Settled lib Kept path f r ms out) (is_sealed f.bytes)
        (write_event lib (turn now locked (no_newline e)) s f ev (some snapshot) (length ms))
        (failed (record s { snapshot = [] }) f e) (λ _. settled)
        (λ _.
          stopped lib Kept path (record s { snapshot = [] }) f r ms e (relocated lib s path located)
            (cleared s f r coherent))
  sealed_settles path now locked sound s f r ev ms snapshot located coherent settled = settled
  sealed_settles path now locked (no_file e) s f r ev ms snapshot located coherent settled = settled
  sealed_settles path now locked (torn k e) s f r ev ms snapshot located coherent settled = settled

  checked_settles :
      (now : ℕ) (locked : Bool) (fault : Fault) (s : Store) (f : File) (r : Replay)
      (ms : List Message) (snapshot : Bytes) (path : Str)
      → resolved_path lib s ≡ ok path
      → Coherent lib Kept s f r
      → (is_empty s.snapshot ≡ false → Caches lib Kept s r)
      → has_no_messages ms ≡ false
      → lib.encode_messages ms ≡ ok snapshot
      → All Kept ms
      → Settled lib Kept path f r ms
          (append_checked lib (turn now locked fault) s f (snapshot_event ms) (some snapshot))
  unfolding append_checked write_event choose_event stamped as_delta
  checked_settles now locked fault s f r ms snapshot path located coherent cache filled encoded
        kept =
      fork (λ (out : Appended). Settled lib Kept path f r ms out)
        (not (is_empty s.snapshot) && str_eq snapshot s.snapshot) _ _
        (λ e. Saved-Settled lib Kept path f r ms _ (
          unchanged codec s f r ms snapshot path located coherent
            (cache (is_false _ (and_left _ _ e))) encoded kept (str_eq→eq _ _ (and_right _ _ e))))
        (λ _.
          fork
            (λ (ev : Event).
              Settled lib Kept path f r ms
                (write_sealed fault lib (turn now locked fault) s f ev (some snapshot) (length ms)))
            (not (is_empty s.snapshot) && is_extension s snapshot (length ms))
            (as_delta s (snapshot_event ms)) (snapshot_event ms)
            (λ e.
              sealed_settles path now locked fault s f r (as_delta s (snapshot_event ms)) ms
                snapshot located coherent
                (encoded_settles path fault s s.snapshot f r
                  (record (as_delta s (snapshot_event ms)) { ts = now }) ms snapshot located
                  coherent encoded kept (refl, refl, refl)
                  (All-drop Kept s.snapshot_messages ms kept)
                  (delta-Writes codec now s f r ms snapshot (cache (is_false _ (and_left _ _ e)))
                    encoded kept (and_right _ _ e))))
            (λ _.
              sealed_settles path now locked fault s f r (snapshot_event ms) ms snapshot located
                coherent
                (encoded_settles path fault s s.snapshot f r
                  (record (snapshot_event ms) { ts = now }) ms snapshot located coherent encoded
                  kept (refl, refl, refl) kept
                  (full-Writes codec now f r ms snapshot filled encoded kept))))

  opened_settles :
      (now : ℕ) (locked : Bool) (fault : Fault) (s : Store) (f : File) (r : Replay)
      (ms : List Message) (snapshot : Bytes) (path : Str)
      → resolved_path lib s ≡ ok path
      → Coherent lib Kept s f r
      → Settled lib Kept path f r ms (
          append_checked lib
            (turn now locked fault)
            (uncached (turn now locked fault) s f)
            f
            (snapshot_event ms)
            (some snapshot))
      → Settled lib Kept path f r ms
          (open_log fault lib (turn now locked fault) s f (snapshot_event ms) (some snapshot))
  unfolding open_log
  opened_settles now locked (no_file e) s f r ms snapshot path located coherent settled =
      stopped lib Kept path s f r ms e located coherent
  opened_settles now locked sound s f r ms snapshot path located coherent settled = settled
  opened_settles now locked (no_tail e) s f r ms snapshot path located coherent settled = settled
  opened_settles now locked (no_newline e) s f r ms snapshot path located coherent settled = settled
  opened_settles now locked (torn k e) s f r ms snapshot path located coherent settled = settled

  -- A save that may find any fault leaves a file that replays to its own history or to the one
  -- before; to its own where it reports no error. Every cache that was right is right after it, so
  -- that the next save of any host does as it should.
  pub append_snapshot-Settled :
      (now : ℕ) (locked : Bool) (fault : Fault) (s : Store) (f : File) (r : Replay)
      (ms : List Message) (path : Str)
      → resolved_path lib s ≡ ok path
      → Coherent lib Kept s f r
      → has_no_messages ms ≡ false
      → All Kept ms
      → Settled lib Kept path f r ms (append_snapshot lib (turn now locked fault) s f ms)
  unfolding append_snapshot append_encoded append append_resolved
  append_snapshot-Settled now locked fault s f r ms path located coherent filled kept =
      let (snapshot, encoded) = codec.parts ms kept in
      rw (filled, encoded, located)
        (opened_settles now locked fault s f r ms snapshot path located coherent (
          checked_settles now locked fault (uncached (turn now locked fault) s f) f r ms snapshot
            path (located-uncached lib (turn now locked fault) s f path located)
            (Coherent-uncached (turn now locked fault) s f r coherent)
            (uncached-Caches (turn now locked fault) s f r coherent) filled encoded kept))
