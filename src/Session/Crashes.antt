-- ===== src/Session/Crashes.antt =====
-- A session file stays readable whatever fails, and holds a history that was saved.
use mow.Prelude.{
  Option-cases, ℕ, ◌==◌, fork, Any, All, Bool, true, false, List, [], ◌∷◌, ◌≡◌, inl, inr, refl, sym,
  ◌∙◌, ap, Str, ok,
}
use mow.Agent.Messages.{Message}
use mow.Session.Log.{Bytes, Library}
use mow.Session.Store.{Store, Appended, resolved_path}
use mow.Session.Replay.{is_headed}
use mow.Session.Repair.{repair_tool_calls, load_messages}
use mow.Session.Codec.{IsCodec}
use mow.Session.Replayed.{current}
use mow.Session.Coherence.{Coherent}
use mow.Session.Settled.{Settled}
use mow.Session.Faults.{append_snapshot-Settled}
use mow.Session.Writers.{
  Save, Hosts, Attempt, new_store, new_hosts, save, is_acknowledged, attempted, attempt, candidates,
  attempts,
}
use mow.Session.Shared.{Shares, IsSaved, headed-filled, save-Shares, new_hosts-Shares, loads}

-- The file holds one of these histories.
record HoldsOne (lib : Library) (Kept : Message → Type 0) (path : Str) (w : Hosts)
    (histories : List (List Message)) : Type 0 where
  held : List Message
  shares : Shares lib Kept path w held
  headed : is_headed held ≡ true
  among : Any (λ ms. ms ≡ held) histories

newest :
    (ms : List Message) (before : List (List Message)) (b : Bool)
    → Any (λ m. m ≡ ms) (candidates ms before b)
unfolding candidates
newest ms before true = inl refl
newest ms before false = inl refl

older :
    (held ms : List Message) (before : List (List Message))
    → Any (λ m. m ≡ held) before
    → Any (λ m. m ≡ held) (candidates ms before false)
unfolding candidates
older held ms before among = inr among

module _ {lib : Library} {Kept : Message → Type 0} where
  after_lem :
      (path : Str) (v : Save) (w : Hosts) (held ms next_held : List Message) (out : Appended)
      (shares : Shares lib Kept path w held)
      (settled : Settled lib Kept path w.log shares.replay ms out)
      → current lib settled.next ≡ ok next_held
      → Shares lib Kept path (attempted w v.host out).0 next_held
  unfolding attempted
  after_lem path v w held ms next_held out shares settled history = record {
    replay = settled.next;
    history = history;
    located = λ other.
        fork (λ (s : Store). resolved_path lib s ≡ ok path) (other == v.host) out.store
          (w.stores other) (λ _. settled.located) (λ _. shares.located other);
    coherent = λ other.
        fork (λ (s : Store). Coherent lib Kept s out.log settled.next) (other == v.host) out.store
          (w.stores other) (λ _. settled.coherent)
          (λ _. settled.others (w.stores other) (shares.coherent other));
    replays = settled.coherent.replays;
  }

  HoldsOne-newest :
      (path : Str) (v : Save) (w : Hosts) (before : List (List Message)) (out : Appended)
      → is_headed v.messages ≡ true
      → (one : HoldsOne lib Kept path w before)
      → (settled : Settled lib Kept path w.log one.shares.replay v.messages out)
      → current lib settled.next ≡ ok v.messages
      → HoldsOne lib Kept path
          (attempted w v.host out).0
          (candidates v.messages before (attempted w v.host out).1)
  HoldsOne-newest path v w before out headed one settled history = record {
    held = v.messages;
    shares = after_lem path v w one.held v.messages v.messages out one.shares settled history;
    headed = headed;
    among = newest v.messages before _;
  }

  Settled-HoldsOne :
      (path : Str) (v : Save) (w : Hosts) (before : List (List Message)) (out : Appended)
      → is_headed v.messages ≡ true
      → (one : HoldsOne lib Kept path w before)
      → Settled lib Kept path w.log one.shares.replay v.messages out
      → HoldsOne lib Kept path
          (attempted w v.host out).0
          (candidates v.messages before (attempted w v.host out).1)
  Settled-HoldsOne path v w before out headed one settled = elim (Option-cases out.error) [
    | inl fine ↦ HoldsOne-newest path v w before out headed one settled (settled.acknowledged fine)
    | inr (e, failed) ↦ elim settled.history [
      | inl new ↦ HoldsOne-newest path v w before out headed one settled new
      | inr old ↦ record {
        held = one.held;
        shares =
            after_lem path v w one.held v.messages one.held out one.shares settled
              (old ∙ one.shares.history);
        headed = one.headed;
        among =
            unfold attempted is_acknowledged in
            rw failed (older one.held v.messages before one.among);
      }
    ]
  ]

module _ {lib : Library} {element : Message → Bytes} {Kept : Message → Type 0}
    (codec : IsCodec lib element Kept) where
  attempts-HoldsOne :
      (path : Str) (more : List Attempt) (w : Hosts) (before : List (List Message))
      → All (λ a. IsSaved Kept a.save) more
      → HoldsOne lib Kept path w before
      → HoldsOne lib Kept path (attempts lib more w before).0 (attempts lib more w before).1
  unfolding attempts attempt
  attempts-HoldsOne path [] w before saved one = one
  attempts-HoldsOne path (a ∷ more) w before ((headed, kept), saved) one =
      attempts-HoldsOne path more _ _ saved (
        Settled-HoldsOne path a.save w before _ headed one (
          append_snapshot-Settled codec a.save.now a.save.locked a.fault (w.stores a.save.host)
            w.log one.shares.replay a.save.messages path (one.shares.located a.save.host)
            (one.shares.coherent a.save.host) (headed-filled a.save.messages headed) kept))

  loads_one :
      (path : Str) (w : Hosts) (held : List Message) (histories : List (List Message))
      → load_messages lib w.log.bytes ≡ ok (repair_tool_calls held)
      → Any (λ ms. ms ≡ held) histories
      → Any (λ ms. load_messages lib w.log.bytes ≡ ok (repair_tool_calls ms)) histories
  loads_one path w held [] loaded among = among
  loads_one path w held (ms ∷ histories) loaded (inl same) =
      inl (loaded ∙ ap (λ (l : List Message). ok (repair_tool_calls l)) (sym same))
  loads_one path w held (ms ∷ histories) loaded (inr among) =
      inr (loads_one path w held histories loaded among)

  -- Once a first save has found no fault, hosts save histories to the shared file in any order, and
  -- any save may find any fault, a torn write of some bytes included; the path is valid, and each
  -- history begins with a system message and is kept by the JSON codec. `LoadMessages` of the file
  -- then succeeds, and gives, repaired, the history of the last call that reported no error or one
  -- that a call tried to save since.
  pub attempts-load :
      (dir id : Str) (inode : ℕ) (path : Str) (first : Save) (more : List Attempt)
      → resolved_path lib (new_store dir id) ≡ ok path
      → IsSaved Kept first
      → All (λ a. IsSaved Kept a.save) more
      → (w : Hosts) × (save lib first (new_hosts dir id inode) ≡ ok w)
        × Any
            (λ ms.
              load_messages lib (attempts lib more w (first.messages ∷ [])).0.log.bytes
              ≡ ok (repair_tool_calls ms))
            (attempts lib more w (first.messages ∷ [])).1
  attempts-load dir id inode path first more located is_saved saved =
      let (w, done, shares) =
        save-Shares codec path first (new_hosts dir id inode) [] is_saved
          (new_hosts-Shares codec dir id inode path located) in
      let one = attempts-HoldsOne path more w (first.messages ∷ []) saved (record {
        held = first.messages;
        shares = shares;
        headed = is_saved.0;
        among = inl refl;
      }) in
      (
        w,
        done,
        loads_one path (attempts lib more w (first.messages ∷ [])).0 one.held _
            (loads codec path _ one.held one.headed one.shares) one.among,
      )
