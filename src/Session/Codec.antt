-- ===== src/Session/Codec.antt =====
-- internal/session/session.go: what the package relies on of Go's encoding/json.
use mow.Prelude.{
  ℕ, ◌<◌, length, take, true, false, none, some, List, [], ◌∷◌, ◌++◌, ◌≡◌, str_eq, ok, All,
}
use mow.Agent.Messages.{Message}
use mow.Session.Log.{Bytes, newline, Event, Entry, Library}
use mow.Session.Lines.{IsFlat}
use mow.Session.Replay.{delta_kind}
use mow.Session.Store.{has_no_messages}

module _ {ℓ} {A : Type ℓ} where
  -- The elements of an array after the first, each after a comma, and its end.
  unfoldable pub tail_bytes : (A → Bytes) → List A → Bytes
  tail_bytes element [] = 93 ∷ []
  tail_bytes element (m ∷ ms) = 44 ∷ (element m ++ tail_bytes element ms)

  unfoldable pub item_bytes : (A → Bytes) → List A → Bytes
  item_bytes element [] = 93 ∷ []
  item_bytes element (m ∷ ms) = element m ++ tail_bytes element ms

  -- A JSON array.
  unfoldable pub array_bytes : (A → Bytes) → List A → Bytes
  array_bytes element ms = 91 ∷ item_bytes element ms

-- The part of an event that a line gives back, with the messages as bytes.
abbrev pub entry_of : Event → Bytes → Entry
entry_of ev raw = record {
  kind = ev.kind;
  role = ev.role;
  content = ev.content;
  message = ev.message;
  messages = raw;
  base = ev.base;
}

-- An event with no role, content or message of its own: one that carries a history.
abbrev pub IsHistory : Event → Type 0
IsHistory ev = (ev.role ≡ []) × (ev.content ≡ []) × (ev.message ≡ none)

-- The messages that are kept (those of valid UTF-8) come back as they were, and the encodings are
-- those of JSON.
pub record IsCodec (lib : Library) (element : Message → Bytes) (Kept : Message → Type 0)
    : Type 0 where
  -- A list is an array, and each element an object.
  pub array :
      (ms : List Message) (raw : Bytes)
      → lib.encode_messages ms ≡ ok raw
      → raw ≡ array_bytes element ms
  pub object : (m : Message) → (rest : Bytes) × (element m ≡ 123 ∷ rest)
  -- An object ends where its text does, and tells its message.
  pub prefix_free :
      (m n : Message) (r t : Bytes) → Kept m → Kept n → element m ++ r ≡ element n ++ t → m ≡ n
  pub back :
      (ms : List Message) (raw : Bytes)
      → All Kept ms
      → lib.encode_messages ms ≡ ok raw
      → lib.decode_messages raw ≡ ok ms
  -- The encoding of a part of a list succeeds.
  pub parts : (ms : List Message) → All Kept ms → (raw : Bytes) × (lib.encode_messages ms ≡ ok raw)
  -- The text of an event has no newline, and white space after it is not read.
  pub flat : (ev : Event) (line : Bytes) → lib.encode_event ev ≡ ok line → IsFlat line
  pub blind : (line : Bytes) → lib.decode_entry (line ++ (newline ∷ [])) ≡ lib.decode_entry line
  -- The encoding of an event with a history succeeds.
  pub events :
      (ev : Event)
      → IsHistory ev
      → All Kept ev.messages
      → (line : Bytes) × (lib.encode_event ev ≡ ok line)
  -- An event with a history comes back.
  pub full :
      (ev : Event) (raw line : Bytes)
      → IsHistory ev
      → has_no_messages ev.messages ≡ false
      → lib.encode_messages ev.messages ≡ ok raw
      → lib.encode_event ev ≡ ok line
      → lib.decode_entry line ≡ some (entry_of ev raw)
  -- A part of the text of an event is no JSON value.
  pub partial :
      (ev : Event) (line : Bytes) (n : ℕ)
      → lib.encode_event ev ≡ ok line
      → n < length line
      → lib.decode_entry (take n line) ≡ none
  -- An event with none comes back as one with none, of another kind than a delta.
  pub note :
      (ev : Event) (line : Bytes)
      → has_no_messages ev.messages ≡ true
      → ev.message ≡ none
      → str_eq ev.kind delta_kind ≡ false
      → lib.encode_event ev ≡ ok line
      → (e : Entry) × (lib.decode_entry line ≡ some e)
        × (str_eq e.kind delta_kind ≡ false)
        × (e.messages ≡ [])
        × (e.message ≡ none)
