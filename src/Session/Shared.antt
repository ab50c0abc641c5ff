-- ===== src/Session/Shared.antt =====
-- A session file holds the history that was saved last, whichever host saved it.
use mow.Prelude.{
  ℕ, ◌==◌, if◌then◌else◌, fork, true, false, List, [], ◌∷◌, ◌≡◌, refl, Str, ok, All, arith,
}
use mow.Agent.Messages.{Message}
use mow.Session.Log.{Bytes, Library, lines, visit_all, scan_lines}
use mow.Session.Store.{Store, resolved_path, has_no_messages}
use mow.Session.Append.{append_snapshot}
use mow.Session.Replay.{Replay, start, is_headed, replay_file}
use mow.Session.Repair.{repair_tool_calls, loaded, load_messages}
use mow.Session.Codec.{IsCodec}
use mow.Session.Replayed.{current, materialize-current}
use mow.Session.Coherence.{Coherent, calm}
use mow.Session.Saves.{append_snapshot_lem}
use mow.Session.Writers.{Save, Hosts, new_store, new_hosts, settle, save, save_all, latest}

-- The file replays to a history, and every host's cache is right.
pub record Shares (lib : Library) (Kept : Message → Type 0) (path : Str) (w : Hosts)
    (ms : List Message) : Type 0 where
  pub replay : Replay
  pub history : current lib replay ≡ ok ms
  pub located : (host : ℕ) → resolved_path lib (w.stores host) ≡ ok path
  pub coherent : (host : ℕ) → Coherent lib Kept (w.stores host) w.log replay
  pub replays : replay_file lib w.log.bytes ≡ ok replay

-- A history that the codec keeps, with the system's message first.
abbrev pub IsSaved : (Message → Type 0) → Save → Type 0
IsSaved Kept v = (is_headed v.messages ≡ true) × All Kept v.messages

pub headed-filled : (ms : List Message) → is_headed ms ≡ true → has_no_messages ms ≡ false
unfolding is_headed has_no_messages
headed-filled [] e = cc
headed-filled (m ∷ ms) e = refl

module _ {lib : Library} {element : Message → Bytes} {Kept : Message → Type 0}
    (codec : IsCodec lib element Kept) where
  pub save-Shares :
      (path : Str) (v : Save) (w : Hosts) (ms : List Message)
      → IsSaved Kept v
      → Shares lib Kept path w ms
      → (next : Hosts) × (save lib v w ≡ ok next) × Shares lib Kept path next v.messages
  unfolding save settle
  save-Shares path v w ms (headed, kept) shares =
      let saved =
        append_snapshot_lem codec v.now v.locked (w.stores v.host) w.log shares.replay v.messages
          path (shares.located v.host) (shares.coherent v.host) (headed-filled v.messages headed)
          kept in
      let out = append_snapshot lib (calm v.now v.locked) (w.stores v.host) w.log v.messages in
      (
        record {
          stores = λ other. if other == v.host then out.store else w.stores other;
          log = out.log;
        },
        rw saved.success refl,
        record {
          replay = saved.next;
          history = saved.history;
          located = λ other.
              fork (λ (s : Store). resolved_path lib s ≡ ok path) (other == v.host) out.store
                (w.stores other) (λ _. saved.located) (λ _. shares.located other);
          coherent = λ other.
              fork (λ (s : Store). Coherent lib Kept s out.log saved.next) (other == v.host)
                out.store (w.stores other) (λ _. saved.coherent)
                (λ _. saved.others (w.stores other) (shares.coherent other));
          replays = saved.coherent.replays;
        },
      )

  save_all-Shares :
      (path : Str) (saves : List Save) (w : Hosts) (ms : List Message)
      → All (IsSaved Kept) saves
      → Shares lib Kept path w ms
      → (next : Hosts) × (save_all lib saves w ≡ ok next)
        × Shares lib Kept path next (latest ms saves)
  unfolding save_all latest
  save_all-Shares path [] w ms saved shares = (w, refl, shares)
  save_all-Shares path (v ∷ more) w ms (is_saved, saved) shares =
      let (next, done, after) = save-Shares path v w ms is_saved shares in
      let (last, finished, shared) = save_all-Shares path more next v.messages saved after in
      (last, (rw done finished), shared)

  latest-headed :
      (saves : List Save) (ms : List Message)
      → All (IsSaved Kept) saves
      → is_headed ms ≡ true
      → is_headed (latest ms saves) ≡ true
  unfolding latest
  latest-headed [] ms saved headed = headed
  latest-headed (v ∷ more) ms (is_saved, saved) headed =
      latest-headed more v.messages saved is_saved.0

  pub new_hosts-Shares :
      (dir id : Str) (inode : ℕ) (path : Str)
      → resolved_path lib (new_store dir id) ≡ ok path
      → Shares lib Kept path (new_hosts dir id inode) []
  unfolding replay_file scan_lines lines visit_all current
  new_hosts-Shares dir id inode path located = record {
    replay = start;
    history = refl;
    located = λ _. located;
    coherent = λ _. record { replays = refl; bound = omega arith; cache = λ e _. cc };
    replays = refl;
  }

  pub loads :
      (path : Str) (w : Hosts) (ms : List Message)
      → is_headed ms ≡ true
      → Shares lib Kept path w ms
      → load_messages lib w.log.bytes ≡ ok (repair_tool_calls ms)
  unfolding load_messages loaded
  loads path w ms headed shares =
      let (full, made, is, empty) = materialize-current lib shares.replay ms shares.history in
      rw (shares.replays, made) (rw (is, headed) refl)

  -- Hosts that share a new session file with a valid path, each with a store of its own, save
  -- histories one after the other, in any order, with or without the lock, and find no fault; each
  -- history begins with a system message and is kept by the JSON codec. Every save succeeds, and
  -- `LoadMessages` of the file then gives the history that was saved last, repaired.
  pub save_all-load :
      (dir id : Str) (inode : ℕ) (path : Str) (first : Save) (more : List Save)
      → resolved_path lib (new_store dir id) ≡ ok path
      → All (IsSaved Kept) (first ∷ more)
      → (w : Hosts) × (save_all lib (first ∷ more) (new_hosts dir id inode) ≡ ok w)
        × (load_messages lib w.log.bytes ≡ ok (repair_tool_calls (latest [] (first ∷ more))))
  unfolding latest
  save_all-load dir id inode path first more located saved =
      let (w, done, shares) =
        save_all-Shares path (first ∷ more) (new_hosts dir id inode) [] saved
          (new_hosts-Shares dir id inode path located) in
      (
        w,
        done,
        loads path w (latest first.messages more)
            (latest-headed more first.messages saved.1 saved.0.0) shares,
      )
