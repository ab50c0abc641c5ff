-- ===== src/Session/Writers.antt =====
-- internal/session/session.go: hosts that share one session file, each with a `Store` of its own,
-- and what the file is to hold.
use mow.Prelude.{
  ℕ, ◌==◌, if◌then◌else◌, Bool, true, false, Option, none, some, List, [], ◌∷◌, Str, Result, err,
  ok, ◌>>=◌,
}
use mow.Agent.Messages.{Message}
use mow.Session.Log.{Library}
use mow.Session.Store.{Store, File, Fault, Appended, sound}
use mow.Session.Append.{append_snapshot}

-- One host saves a history, with the lock or without it, and finds no fault.
pub record Save : Type 0 where
  pub host : ℕ
  pub now : ℕ
  pub locked : Bool
  pub messages : List Message

pub record Hosts : Type 0 where
  pub stores : ℕ → Store
  pub log : File

-- A store that has written nothing.
abbrev pub new_store : Str → Str → Store
new_store dir id = record {
  dir = dir;
  id = id;
  file = none;
  end = 0;
  snapshot = [];
  snapshot_offset = 0;
  snapshot_messages = 0;
  checkpoint_bytes = 0;
}

abbrev pub new_hosts : Str → Str → ℕ → Hosts
new_hosts dir id inode = record {
  stores = λ _. new_store dir id;
  log = record { inode = inode; bytes = [] };
}

unfoldable pub settle : Hosts → ℕ → Appended → Option Str → Result Str Hosts
settle w host out (some e) = err e
settle w host out none = ok (record {
  stores = λ other. if other == host then out.store else w.stores other;
  log = out.log;
})

-- One call: the others' stores are as they were.
unfoldable pub save : Library → Save → Hosts → Result Str Hosts
save lib v w =
    let out =
      append_snapshot lib (record { now = v.now; locked = v.locked; fault = sound })
        (w.stores v.host) w.log v.messages in
    settle w v.host out out.error

-- The calls in the order in which they have the file.
unfoldable pub save_all : Library → List Save → Hosts → Result Str Hosts
save_all lib [] w = ok w
save_all lib (v ∷ more) w = save lib v w >>= (λ next. save_all lib more next)

-- What the file is to hold: the history saved last.
unfoldable pub latest : List Message → List Save → List Message
latest ms [] = ms
latest ms (v ∷ more) = latest v.messages more

-- A save that may find a fault.
pub record Attempt : Type 0 where
  pub save : Save
  pub fault : Fault

unfoldable pub is_acknowledged : Option Str → Bool
is_acknowledged none = true
is_acknowledged (some e) = false

unfoldable pub attempted : Hosts → ℕ → Appended → Hosts × Bool
attempted w host out = (
  record { stores = λ other. if other == host then out.store else w.stores other; log = out.log },
  is_acknowledged out.error,
)

-- One call, and whether it reported no error.
unfoldable pub attempt : Library → Attempt → Hosts → Hosts × Bool
attempt lib a w = attempted w a.save.host (
    append_snapshot lib (record { now = a.save.now; locked = a.save.locked; fault = a.fault })
      (w.stores a.save.host) w.log a.save.messages)

-- The histories that the file may hold: the one saved last, and after an error also those before.
unfoldable pub candidates : List Message → List (List Message) → Bool → List (List Message)
candidates ms before true = ms ∷ []
candidates ms before false = ms ∷ before

unfoldable pub attempts :
    Library → List Attempt → Hosts → List (List Message) → Hosts × List (List Message)
attempts lib [] w before = (w, before)
attempts lib (a ∷ more) w before =
    attempts lib more (attempt lib a w).0 (candidates a.save.messages before (attempt lib a w).1)
