-- ===== src/Session/Deltas.antt =====
-- A history that is written to a session file, whole or as what is new in it, replays to it.
use mathlib.Core.Path.{subst}
use mow.Prelude.{
  zero, suc, ℕ, ◌-◌, ◌<◌, true, false, List, [], ◌∷◌, ◌++◌, ◌≡◌, refl, sym, str_eq, ok, length,
  take, drop, drop-append, All, arith,
}
use mow.Agent.Messages.{Message}
use mow.Session.Log.{Bytes, Event, Library}
use mow.Session.Store.{Store, File, has_comma, is_extension, as_delta, sealed, has_no_messages}
use mow.Session.Append.{snapshot_event}
use mow.Session.Replay.{Replay, apply_decoded}
use mow.Session.Coherence.{Caches}
use mow.Session.Codec.{IsCodec, array_bytes}
use mow.Session.Arrays.{Extends, array-Extends}
use mow.Session.Replayed.{StandsAt, full_lem, delta_lem}

pub All-drop :
    (Kept : Message → Type 0) (n : ℕ) (ms : List Message) → All Kept ms → All Kept (drop n ms)
All-drop Kept zero ms kept = kept
All-drop Kept (suc n) [] kept = kept
All-drop Kept (suc n) (m ∷ ms) (k, kept) = All-drop Kept n ms kept

le-zero : (n : ℕ) → n < 0 → ⊥
le-zero n less = omega arith

has_no_messages-drop :
    (n : ℕ) (ms : List Message) → n < length ms → has_no_messages (drop n ms) ≡ false
unfolding has_no_messages
has_no_messages-drop n [] less = absurd (le-zero n less)
has_no_messages-drop zero (m ∷ ms) less = refl
has_no_messages-drop (suc n) (m ∷ ms) less = has_no_messages-drop n ms (omega arith)

Extends-drop :
    (old ms : List Message) (n : ℕ) → Extends old ms → length old ≡ n → old ++ drop n ms ≡ ms
unfolding Extends
Extends-drop old ms n (more, e) size = rw (sym size, e, drop-append old more) refl

is_extension-parts :
    (s : Store) (snapshot : Bytes) (n : ℕ)
    → is_extension s snapshot n ≡ true
    → (s.snapshot_messages < n)
      × (has_comma snapshot (length s.snapshot - 1) ≡ true)
      × (str_eq (take (length s.snapshot - 1) snapshot) (take (length s.snapshot - 1) s.snapshot)
          ≡ true)
unfolding is_extension
is_extension-parts s snapshot n e = (ground arith, ground arith, ground arith)

-- The record that is written for a history replays to it.
abbrev pub Writes : Library → Replay → File → List Message → Event → Type 0
Writes lib r f ms ev =
    (line : Bytes)
    → lib.encode_event ev ≡ ok line
    → (next : Replay) × (apply_decoded lib r (length (sealed f.bytes)) (lib.decode_entry line)
        ≡ ok next)
      × StandsAt lib next ms (length (sealed f.bytes))

module _ {lib : Library} {element : Message → Bytes} {Kept : Message → Type 0}
    (codec : IsCodec lib element Kept) where
  continues :
      (before after : Bytes) (old new : List Message)
      → All Kept old
      → All Kept new
      → before ≡ array_bytes element old
      → after ≡ array_bytes element new
      → has_comma after (length before - 1) ≡ true
      → str_eq (take (length before - 1) after) (take (length before - 1) before) ≡ true
      → Extends old new
  continues before after old new kept_old kept_new is_old is_new comma same =
      array-Extends element Kept codec.object codec.prefix_free old new kept_old kept_new
        (rw (sym is_old, sym is_new) comma) (rw (sym is_old, sym is_new) same)

  -- A history that continues the cached one is written as what is new in it.
  pub delta-Writes :
      (now : ℕ) (s : Store) (f : File) (r : Replay) (ms : List Message) (snapshot : Bytes)
      → Caches lib Kept s r
      → lib.encode_messages ms ≡ ok snapshot
      → All Kept ms
      → is_extension s snapshot (length ms) ≡ true
      → Writes lib r f ms (record (as_delta s (snapshot_event ms)) { ts = now })
  unfolding as_delta
  delta-Writes now s f r ms snapshot c encoded kept extends line wrote =
      let (longer, comma, same) = is_extension-parts s snapshot (length ms) extends in
      let extension =
        continues s.snapshot snapshot c.history ms c.kept kept
          (codec.array c.history s.snapshot c.encoded) (codec.array ms snapshot encoded) comma
          same in
      let rest : c.history ++ drop s.snapshot_messages ms ≡ ms =
        Extends-drop c.history ms s.snapshot_messages extension c.size in
      let (raw, parts) =
        codec.parts (drop s.snapshot_messages ms) (All-drop Kept s.snapshot_messages ms kept) in
      let (next, applied, stands) =
        delta_lem codec r s.snapshot_offset (length (sealed f.bytes)) c.history
          (record (as_delta s (snapshot_event ms)) { ts = now }) raw line c.stands
          (refl, refl, refl) (has_no_messages-drop s.snapshot_messages ms longer) refl refl parts
          (All-drop Kept s.snapshot_messages ms kept) wrote in
      (next, applied, subst (λ l. StandsAt lib next l (length (sealed f.bytes))) rest stands)

  pub full-Writes :
      (now : ℕ) (f : File) (r : Replay) (ms : List Message) (snapshot : Bytes)
      → has_no_messages ms ≡ false
      → lib.encode_messages ms ≡ ok snapshot
      → All Kept ms
      → Writes lib r f ms (record (snapshot_event ms) { ts = now })
  full-Writes now f r ms snapshot filled encoded kept line wrote =
      full_lem codec r (length (sealed f.bytes)) (record (snapshot_event ms) { ts = now }) snapshot
        line (refl, refl, refl) filled (unfold str_eq in refl) encoded kept wrote
