-- ===== src/Session/Settled.antt =====
-- internal/session/session.go: what a save that may have failed leaves.
use mow.Prelude.{none, List, [], ◌≡◌, ◌⊎◌, inl, inr, refl, Str, ok}
use mow.Agent.Messages.{Message}
use mow.Session.Log.{Library}
use mow.Session.Store.{Store, File, Appended, resolved_path, failed}
use mow.Session.Replay.{Replay}
use mow.Session.Replayed.{current}
use mow.Session.Coherence.{Coherent, Saved}

-- After a call that may have failed.
pub record Settled (lib : Library) (Kept : Message → Type 0) (path : Str) (f : File) (r : Replay)
    (ms : List Message) (out : Appended) : Type 0 where
  pub located : resolved_path lib out.store ≡ ok path
  pub next : Replay
  pub history : (current lib next ≡ ok ms) ⊎ (current lib next ≡ current lib r)
  pub acknowledged : out.error ≡ none → current lib next ≡ ok ms
  pub coherent : Coherent lib Kept out.store out.log next
  pub others : (s : Store) → Coherent lib Kept s f r → Coherent lib Kept s out.log next

pub Saved-Settled :
    (lib : Library) (Kept : Message → Type 0) (path : Str) (f : File) (r : Replay)
    (ms : List Message) (out : Appended)
    → Saved lib Kept path f r ms out
    → Settled lib Kept path f r ms out
Saved-Settled lib Kept path f r ms out saved = record {
  located = saved.located;
  next = saved.next;
  history = inl saved.history;
  acknowledged = λ _. saved.history;
  coherent = saved.coherent;
  others = saved.others;
}

-- A call that fails and leaves the file as it was.
pub stopped :
    (lib : Library) (Kept : Message → Type 0) (path : Str) (s : Store) (f : File) (r : Replay)
    (ms : List Message) (e : Str)
    → resolved_path lib s ≡ ok path
    → Coherent lib Kept s f r
    → Settled lib Kept path f r ms (failed s f e)
stopped lib Kept path s f r ms e located coherent = record {
  located = located;
  next = r;
  history = inr refl;
  acknowledged = λ no_error. cc;
  coherent = coherent;
  others = λ s c. c;
}

pub cleared :
    {lib : Library} {Kept : Message → Type 0} (s : Store) (f : File) (r : Replay)
    → Coherent lib Kept s f r
    → Coherent lib Kept (record s { snapshot = [] }) f r
cleared s f r c = record { replays = c.replays; bound = c.bound; cache = λ e _. cc }
