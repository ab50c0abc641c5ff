-- ===== src/Tests/Codec.antt =====
-- A codec for the tests of sessions: two messages are kept, and the text of an event holds what a
-- replay reads.
pub mod Laws
use mow.Prelude.{
  ◌||◌, any, ℤ, pos, negsuc, ◌+◌, ◌-◌, ◌==◌, if◌then◌else◌, false, Option, none, some, List, [],
  ◌∷◌, ◌++◌, ◌≡◌, ◌⊎◌, Str, codes, str_eq, ok,
}
use mow.Agent.Messages.{Message, plain, system_role, user_role}
use mow.Session.Log.{Bytes, Event, Entry, Library}
use mow.Session.Codec.{array_bytes}

abbrev pub rules : Message
rules = plain system_role false (codes "rules")

abbrev pub greeting : Message
greeting = plain user_role false (codes "hello")

abbrev pub Kept : Message → Type 0
Kept m = (m ≡ rules) ⊎ (m ≡ greeting)

unfoldable pub element : Message → Bytes
unfolding str_eq
element m = 123 ∷ (if str_eq m.role system_role then 1 else 2) ∷ []

pub decode : Bytes → List Message
decode [] = []
decode (c ∷ rest) =
    let more = decode rest in
    if c == 1 then rules ∷ more else if c == 2 then greeting ∷ more else more

unfoldable shift : Str → Bytes
shift [] = 0 ∷ []
shift (c ∷ s) = (c + 200) ∷ shift s

unfoldable unshift : Bytes → Str × Bytes
unshift [] = ([], [])
unshift (c ∷ rest) =
    let more = unshift rest in if c == 0 then ([], rest) else ((c - 200) ∷ more.0, more.1)

unfoldable base_bytes : Option ℤ → Bytes
base_bytes none = 1 ∷ 0 ∷ []
base_bytes (some (pos n)) = 2 ∷ (n + 200) ∷ []
base_bytes (some (negsuc n)) = 3 ∷ (n + 200) ∷ []

unfoldable read_base : Bytes → Option ℤ × Bytes
read_base (tag ∷ n ∷ rest) = (
  if tag == 1 then none else if tag == 2 then some (pos (n - 200)) else some (negsuc (n - 200)),
  rest,
)
read_base _ = (none, [])

unfoldable messages_bytes : List Message → Bytes
messages_bytes [] = []
messages_bytes (m ∷ ms) = array_bytes element (m ∷ ms)

pub event_bytes : Event → Bytes
event_bytes ev = shift ev.kind ++ (base_bytes ev.base ++ messages_bytes ev.messages)

unfoldable strip : Bytes → Bytes
strip [] = []
strip (c ∷ rest) = let more = strip rest in if c == 10 || c == 125 then more else c ∷ more

abbrev read_entry : Str → Option ℤ × Bytes → Entry
read_entry kind (base, raw) = record {
  kind = kind;
  role = [];
  content = [];
  message = none;
  messages = raw;
  base = base;
}

abbrev read_kind : Str × Bytes → Entry
read_kind (kind, rest) = read_entry kind (read_base rest)

pub read : Bytes → Entry
read line = read_kind (unshift (strip line))

-- A text with no end is no event.
pub decode_line : Bytes → Option Entry
decode_line line = if any (λ c. c == 125) line then some (read line) else none

abbrev pub library : Library
library = record {
  encode_messages = λ ms. ok (array_bytes element ms);
  encode_event = λ ev. ok (event_bytes ev ++ (125 ∷ []));
  decode_entry = decode_line;
  decode_messages = λ raw. ok (decode raw);
  file_base = λ id. id;
  file_join = λ dir name. dir ++ codes "/" ++ name;
  quote = λ s. s;
}
