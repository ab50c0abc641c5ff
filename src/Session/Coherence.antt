-- ===== src/Session/Coherence.antt =====
-- When a store's cache of a session file is right, and what a saved history leaves.
use mow.Prelude.{
  and_right, ℕ, ◌≤◌, ◌<◌, ◌==◌, fork, Bool, true, false, ◌&&◌, none, some, List, [], ◌∷◌, ◌++◌, ◌≡◌,
  refl, Str, is_empty, ok, length, length-append, All, arith,
}
use mow.Agent.Messages.{Message}
use mow.Session.Log.{Bytes, newline, Library}
use mow.Session.Store.{
  Store, File, Turn, Appended, sound, resolved_path, resolve_valid, uncached, is_current, sealed,
  is_sealed,
}
use mow.Session.Replay.{Replay, replay_file}
use mow.Session.Replayed.{current, StandsAt}

-- The cached history is the one that the file replays to, at the record that wrote it.
pub record Caches (lib : Library) (Kept : Message → Type 0) (s : Store) (r : Replay) : Type 0 where
  pub history : List Message
  pub encoded : lib.encode_messages history ≡ ok s.snapshot
  pub size : length history ≡ s.snapshot_messages
  pub kept : All Kept history
  pub stands : StandsAt lib r history s.snapshot_offset

-- A store and a file that replays: a cache that would be used is right.
pub record Coherent (lib : Library) (Kept : Message → Type 0) (s : Store) (f : File) (r : Replay)
    : Type 0 where
  pub replays : replay_file lib f.bytes ≡ ok r
  pub bound : s.end ≤ length f.bytes
  pub cache : is_empty s.snapshot ≡ false → is_current s f ≡ true → Caches lib Kept s r

-- After a call: the file replays to the history, for this store and for each other one.
pub record Saved (lib : Library) (Kept : Message → Type 0) (path : Str) (f : File) (r : Replay)
    (ms : List Message) (out : Appended) : Type 0 where
  pub success : out.error ≡ none
  pub located : resolved_path lib out.store ≡ ok path
  pub next : Replay
  pub history : current lib next ≡ ok ms
  pub coherent : Coherent lib Kept out.store out.log next
  pub others : (s : Store) → Coherent lib Kept s f r → Coherent lib Kept s out.log next

pub sealed_le : (bytes : Bytes) → length bytes ≤ length (sealed bytes)
unfolding sealed
sealed_le bytes =
    fork (λ (b : Bytes). length bytes ≤ length b) (is_sealed bytes) bytes (bytes ++ (newline ∷ []))
      (λ _. omega arith) (λ _. omega (arith, length-append bytes (newline ∷ [])))

and_false : (b : Bool) → (b && false) ≡ false
and_false true = refl
and_false false = refl

-- A store that has not written the file's last bytes does not use its cache.
is_current-longer : (s : Store) (f : File) → s.end < length f.bytes → is_current s f ≡ false
unfolding is_current
is_current-longer s f less =
    let differs : (s.end == length f.bytes) ≡ false = ground arith in
    rw differs
      (elim s.file
        as (λ o.
          ((elim o as (λ _. Bool) [ none ↦ false | some inode ↦ inode == f.inode ]) && false)
          ≡ false) [ none ↦ refl | some inode ↦ and_false (inode == f.inode) ])

pub Coherent-longer :
    {lib : Library} {Kept : Message → Type 0} (f g : File) (r next : Replay)
    → replay_file lib g.bytes ≡ ok next
    → length f.bytes < length g.bytes
    → (s : Store) → Coherent lib Kept s f r
    → Coherent lib Kept s g next
Coherent-longer {lib} {Kept} f g r next replays longer s c =
    let bound = c.bound in
    record {
      replays = replays;
      bound = omega arith;
      cache = λ _ current.
          let stale : is_current s g ≡ false = is_current-longer s g (omega arith) in cc;
    }

-- A turn with no fault.
abbrev pub calm : ℕ → Bool → Turn
calm now locked = record { now = now; locked = locked; fault = sound }

module _ {lib : Library} {Kept : Message → Type 0} where
  pub uncached-Caches :
      (t : Turn) (s : Store) (f : File) (r : Replay)
      → Coherent lib Kept s f r
      → is_empty (uncached t s f).snapshot ≡ false
      → Caches lib Kept (uncached t s f) r
  unfolding uncached
  uncached-Caches t s f r c =
      fork (λ (u : Store). is_empty u.snapshot ≡ false → Caches lib Kept u r)
        (t.locked && is_current s f) s (record s { snapshot = [] })
        (λ e nonempty. c.cache nonempty (and_right t.locked _ e)) (λ e nonempty. cc)

  pub Coherent-uncached :
      (t : Turn) (s : Store) (f : File) (r : Replay)
      → Coherent lib Kept s f r
      → Coherent lib Kept (uncached t s f) f r
  unfolding uncached
  Coherent-uncached t s f r c =
      fork (λ (u : Store). Coherent lib Kept u f r) (t.locked && is_current s f) s
        (record s { snapshot = [] }) (λ _. c)
        (λ _. record { replays = c.replays; bound = c.bound; cache = λ e _. cc })

module _ (lib : Library) where
  pub relocated :
      (s : Store) (path : Str)
      → resolved_path lib s ≡ ok path
      → resolved_path lib (record s { snapshot = [] }) ≡ ok path
  unfolding resolved_path resolve_valid
  relocated s path located = located

  pub located-uncached :
      (t : Turn) (s : Store) (f : File) (path : Str)
      → resolved_path lib s ≡ ok path
      → resolved_path lib (uncached t s f) ≡ ok path
  unfolding uncached
  located-uncached t s f path located =
      fork (λ (u : Store). resolved_path lib u ≡ ok path) (t.locked && is_current s f) s
        (record s { snapshot = [] }) (λ _. located) (λ _. relocated s path located)
