-- ===== src/Session/Saves.antt =====
-- `AppendSnapshot` leaves a file that replays to the history that it was given.
use mow.Prelude.{
  and_left, and_right, ℕ, fork, Bool, true, false, not, ◌&&◌, none, some, List, [], ◌∷◌, ◌++◌, ◌≡◌,
  refl, sym, ◌∙◌, ap, Str, str_eq, str_eq→eq, is_empty, ok, length, length-append, All, arith,
}
use mow.Agent.Messages.{Message}
use mow.Session.Log.{Bytes, newline, Event, Library}
use mow.Session.Store.{
  Store, File, Appended, sound, resolved_path, resolve_valid, uncached, is_extension, as_delta,
  choose_event, sealed, stamped, written, cached, has_no_messages,
}
use mow.Session.Append.{
  write_record, write_encoded, write_event, write_sealed, append_checked, open_log, append_resolved,
  append, with_bytes, snapshot_event, append_encoded, append_snapshot,
}
use mow.Session.Replay.{Replay, apply_decoded, replay_file}
use mow.Session.Lines.{IsFlat}
use mow.Session.Coherence.{
  Caches, Coherent, Saved, calm, sealed_le, Coherent-longer, uncached-Caches, Coherent-uncached,
  relocated, located-uncached,
}
use mow.Session.Deltas.{All-drop, Writes, delta-Writes, full-Writes}
use mow.Session.Codec.{IsCodec, IsHistory}
use mow.Session.Replayed.{StandsAt, replay-append}

is_false : (b : Bool) → not b ≡ true → b ≡ false
is_false false e = refl
is_false true e = cc

module _ {lib : Library} {element : Message → Bytes} {Kept : Message → Type 0}
    (codec : IsCodec lib element Kept) where
  -- The record that a history is written by.
  wrote_lem :
      (s : Store) (previous : Bytes) (f : File) (r next : Replay) (ev : Event) (ms : List Message)
      (snapshot line : Bytes) (path : Str)
      → resolved_path lib s ≡ ok path
      → IsFlat line
      → replay_file lib f.bytes ≡ ok r
      → lib.encode_messages ms ≡ ok snapshot
      → All Kept ms
      → apply_decoded lib r (length (sealed f.bytes)) (lib.decode_entry line) ≡ ok next
      → StandsAt lib next ms (length (sealed f.bytes))
      → Saved lib Kept path f r ms (
          write_record sound s previous
            (with_bytes f (sealed f.bytes))
            ev
            (some snapshot)
            (length ms)
            (line ++ (newline ∷ [])))
  unfolding write_record written cached resolved_path resolve_valid
  wrote_lem s previous f r next ev ms snapshot line path located flat replays encoded kept applied
        stands =
      let replayed : replay_file lib (sealed f.bytes ++ (line ++ (newline ∷ []))) ≡ ok next =
        replay-append codec f.bytes line flat ∙ rw replays applied in
      record {
        success = refl;
        located = located;
        next = next;
        history = stands.history;
        coherent = record {
          replays = replayed;
          bound = omega (arith, length-append (sealed f.bytes) (line ++ (newline ∷ [])));
          cache = λ _ _. record {
            history = ms;
            encoded = encoded;
            size = refl;
            kept = kept;
            stands = stands;
          };
        };
        others = Coherent-longer f (with_bytes f _) r next replayed (
            omega (
              arith,
              sealed_le f.bytes,
              length-append (sealed f.bytes) (line ++ (newline ∷ [])),
              length-append line (newline ∷ []),
            ));
      }

  pub write_lem :
      (s : Store) (previous : Bytes) (f : File) (r : Replay) (ev : Event) (ms : List Message)
      (snapshot : Bytes) (path : Str)
      → resolved_path lib s ≡ ok path
      → replay_file lib f.bytes ≡ ok r
      → lib.encode_messages ms ≡ ok snapshot
      → All Kept ms
      → IsHistory ev
      → All Kept ev.messages
      → Writes lib r f ms ev
      → Saved lib Kept path f r ms (
          write_encoded sound s previous
            (with_bytes f (sealed f.bytes))
            ev
            (some snapshot)
            (length ms)
            (lib.encode_event ev))
  unfolding write_encoded
  write_lem s previous f r ev ms snapshot path located replays encoded kept history kept_event
        writes =
      let (line, wrote) = codec.events ev history kept_event in
      let (next, applied, stands) = writes line wrote in
      rw wrote (
        wrote_lem s previous f r next ev ms snapshot line path located (codec.flat ev line wrote)
          replays encoded kept applied stands)

  -- A history that is not written, since it is the cached one.
  pub unchanged :
      (s : Store) (f : File) (r : Replay) (ms : List Message) (snapshot : Bytes) (path : Str)
      → resolved_path lib s ≡ ok path
      → Coherent lib Kept s f r
      → Caches lib Kept s r
      → lib.encode_messages ms ≡ ok snapshot
      → All Kept ms
      → snapshot ≡ s.snapshot
      → Saved lib Kept path f r ms (record { store = s; log = f; error = none })
  unchanged s f r ms snapshot path located coherent c encoded kept same = record {
    success = refl;
    located = located;
    next = r;
    history =
        c.stands.history
        ∙ (sym (codec.back c.history snapshot c.kept (c.encoded ∙ ap ok (sym same)))
            ∙ codec.back ms snapshot kept encoded);
    coherent = coherent;
    others = λ s c. c;
  }

  -- `append` of a history, on a cache that is right.
  checked_lem :
      (now : ℕ) (locked : Bool) (s : Store) (f : File) (r : Replay) (ms : List Message)
      (snapshot : Bytes) (path : Str)
      → resolved_path lib s ≡ ok path
      → Coherent lib Kept s f r
      → (is_empty s.snapshot ≡ false → Caches lib Kept s r)
      → has_no_messages ms ≡ false
      → lib.encode_messages ms ≡ ok snapshot
      → All Kept ms
      → Saved lib Kept path f r ms
          (append_checked lib (calm now locked) s f (snapshot_event ms) (some snapshot))
  unfolding append_checked write_sealed write_event choose_event stamped as_delta
  checked_lem now locked s f r ms snapshot path located coherent cache filled encoded kept =
      fork (λ (out : Appended). Saved lib Kept path f r ms out)
        (not (is_empty s.snapshot) && str_eq snapshot s.snapshot) _ _
        (λ e.
          unchanged s f r ms snapshot path located coherent (cache (is_false _ (and_left _ _ e)))
            encoded kept (str_eq→eq _ _ (and_right _ _ e)))
        (λ _.
          fork
            (λ (ev : Event).
              Saved lib Kept path f r ms
                (write_sealed sound lib (calm now locked) s f ev (some snapshot) (length ms)))
            (not (is_empty s.snapshot) && is_extension s snapshot (length ms))
            (as_delta s (snapshot_event ms)) (snapshot_event ms)
            (λ e.
              write_lem (record s { snapshot = [] }) s.snapshot f r
                (record (as_delta s (snapshot_event ms)) { ts = now }) ms snapshot path
                (relocated lib s path located) coherent.replays encoded kept (refl, refl, refl)
                (All-drop Kept s.snapshot_messages ms kept)
                (delta-Writes codec now s f r ms snapshot (cache (is_false _ (and_left _ _ e)))
                  encoded kept (and_right _ _ e)))
            (λ _.
              write_lem (record s { snapshot = [] }) s.snapshot f r
                (record (snapshot_event ms) { ts = now }) ms snapshot path
                (relocated lib s path located) coherent.replays encoded kept (refl, refl, refl) kept
                (full-Writes codec now f r ms snapshot filled encoded kept)))

  -- A history is saved by a call that finds no fault.
  pub append_snapshot_lem :
      (now : ℕ) (locked : Bool) (s : Store) (f : File) (r : Replay) (ms : List Message) (path : Str)
      → resolved_path lib s ≡ ok path
      → Coherent lib Kept s f r
      → has_no_messages ms ≡ false
      → All Kept ms
      → Saved lib Kept path f r ms (append_snapshot lib (calm now locked) s f ms)
  unfolding append_snapshot append_encoded append append_resolved open_log
  append_snapshot_lem now locked s f r ms path located coherent filled kept =
      let (snapshot, encoded) = codec.parts ms kept in
      rw (filled, encoded, located)
        (checked_lem now locked (uncached (calm now locked) s f) f r ms snapshot path
          (located-uncached lib (calm now locked) s f path located)
          (Coherent-uncached (calm now locked) s f r coherent)
          (uncached-Caches (calm now locked) s f r coherent) filled encoded kept)
