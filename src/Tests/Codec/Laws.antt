-- ===== src/Tests/Codec/Laws.antt =====
-- The codec of the tests has the laws of a codec.
use mathlib.Core.Path.{subst}
use mow.Prelude.{
  zero, suc, ◌<◌, ◌||◌, any, length, take, ℤ, pos, negsuc, ℕ, ◌+◌, ◌-◌, ◌==◌, fork, Bool, true,
  false, Option, none, some, List, [], ◌∷◌, ◌++◌, ◌≡◌, inl, inr, refl, sym, ap, ◌∙◌, Str, str_eq,
  Result, ok, All, All-append, arith,
}
use mow.Agent.Messages.{Message, plain, system_role}
use mow.Session.Log.{Bytes, newline, Event, Entry}
use mow.Session.Lines.{IsFlat}
use mow.Session.Replay.{delta_kind}
use mow.Session.Store.{has_no_messages}
use mow.Session.Codec.{tail_bytes, item_bytes, array_bytes, entry_of, IsHistory, IsCodec}
use mow.Tests.Codec.{
  Kept, element, decode, shift, unshift, base_bytes, read_base, messages_bytes, event_bytes, strip,
  read_entry, read, decode_line, library,
}

unshift-shift : (s : Str) (rest : Bytes) → unshift (shift s ++ rest) ≡ (s, rest)
unfolding shift unshift
unshift-shift [] rest = refl
unshift-shift (c ∷ s) rest =
    let apart : (c + 200 == 0) ≡ false = ground arith in
    let back : c + 200 - 200 ≡ c = omega arith in rw (apart, back, unshift-shift s rest) refl

read_base-base_bytes :
    (base : Option ℤ) (rest : Bytes) → read_base (base_bytes base ++ rest) ≡ (base, rest)
unfolding base_bytes read_base
read_base-base_bytes none rest = refl
read_base-base_bytes (some (pos n)) rest =
    let back : n + 200 - 200 ≡ n = omega arith in rw back refl
read_base-base_bytes (some (negsuc n)) rest =
    let back : n + 200 - 200 ≡ n = omega arith in rw back refl

-- Neither a newline nor the end of an event.
abbrev IsPlain : Bytes → Type 0
IsPlain bytes = All (λ (c : ℕ). (c == 10 || c == 125) ≡ false) bytes

strip-end : (line : Bytes) → strip (line ++ (125 ∷ [])) ≡ strip line
unfolding strip
strip-end [] = refl
strip-end (c ∷ rest) = rw (strip-end rest) refl

strip-flat : (line : Bytes) → IsPlain line → strip line ≡ line
unfolding strip
strip-flat [] flat = refl
strip-flat (c ∷ rest) (e, flat) = rw (e, strip-flat rest flat) refl

strip-newline : (line : Bytes) → strip (line ++ (newline ∷ [])) ≡ strip line
unfolding strip
strip-newline [] = refl
strip-newline (c ∷ rest) = rw (strip-newline rest) refl

Plain-append : (a b : Bytes) → IsPlain a → IsPlain b → IsPlain (a ++ b)
Plain-append = All-append (λ (c : ℕ). (c == 10 || c == 125) ≡ false)

shift-IsPlain : (s : Str) → IsPlain (shift s)
unfolding shift
shift-IsPlain [] = (refl, _)
shift-IsPlain (c ∷ s) = (ground arith, shift-IsPlain s)

base_bytes-IsPlain : (base : Option ℤ) → IsPlain (base_bytes base)
unfolding base_bytes
base_bytes-IsPlain none = (refl, (refl, _))
base_bytes-IsPlain (some (pos n)) = (refl, (ground arith, _))
base_bytes-IsPlain (some (negsuc n)) = (refl, (ground arith, _))

element-IsPlain : (m : Message) → IsPlain (element m)
unfolding element
element-IsPlain m = (
  refl,
  (
    fork (λ (c : ℕ). (c == 10 || c == 125) ≡ false) (str_eq m.role system_role) 1 2 (λ _. refl)
        (λ _. refl),
    _,
  ),
)

tail-IsPlain : (ms : List Message) → IsPlain (tail_bytes element ms)
unfolding tail_bytes
tail-IsPlain [] = (refl, _)
tail-IsPlain (m ∷ ms) = (refl, Plain-append (element m) _ (element-IsPlain m) (tail-IsPlain ms))

messages_bytes-IsPlain : (ms : List Message) → IsPlain (messages_bytes ms)
unfolding messages_bytes array_bytes item_bytes
messages_bytes-IsPlain [] = _
messages_bytes-IsPlain (m ∷ ms) =
    (refl, Plain-append (element m) _ (element-IsPlain m) (tail-IsPlain ms))

event_bytes-IsPlain : (ev : Event) → IsPlain (event_bytes ev)
unfolding event_bytes
event_bytes-IsPlain ev = Plain-append (shift ev.kind) _ (shift-IsPlain ev.kind) (
    Plain-append (base_bytes ev.base) _ (base_bytes-IsPlain ev.base)
      (messages_bytes-IsPlain ev.messages))

or_true : (b : Bool) → (b || true) ≡ true
or_true true = refl
or_true false = refl

any-end : (line : Bytes) → any (λ c. c == 125) (line ++ (125 ∷ [])) ≡ true
any-end [] = refl
any-end (c ∷ line) = rw (any-end line) (or_true (c == 125))

any-newline :
    (line : Bytes) → any (λ c. c == 125) (line ++ (newline ∷ [])) ≡ any (λ c. c == 125) line
any-newline [] = refl
any-newline (c ∷ line) = rw (any-newline line) refl

plain-parts :
    (c : ℕ) → (c == 10 || c == 125) ≡ false → ((c == newline) ≡ false) × ((c == 125) ≡ false)
plain-parts c e = (ground arith, ground arith)

plain-IsFlat : (line : Bytes) → IsPlain line → IsFlat (line ++ (125 ∷ []))
plain-IsFlat [] plain = (refl, _)
plain-IsFlat (c ∷ line) (e, plain) = ((plain-parts c e).0, plain-IsFlat line plain)

below_zero : (n : ℕ) → n < 0 → ⊥
below_zero n h = omega arith

-- A part of the text has no end.
any-take :
    (n : ℕ) (line : Bytes)
    → IsPlain line
    → n < length (line ++ (125 ∷ []))
    → any (λ c. c == 125) (take n (line ++ (125 ∷ []))) ≡ false
any-take zero line plain less = refl
any-take (suc n) [] plain less =
    let none_left : n < 0 = omega arith in absurd (below_zero n none_left)
any-take (suc n) (c ∷ line) (e, plain) less =
    rw ((plain-parts c e).1) (any-take n line plain (omega arith))

read-event_bytes :
    (ev : Event)
    → decode_line (event_bytes ev ++ (125 ∷ []))
      ≡ some (read_entry ev.kind (ev.base, messages_bytes ev.messages))
unfolding read decode_line
read-event_bytes ev =
    rw
      (
        any-end (event_bytes ev),
        strip-end (event_bytes ev),
        strip-flat (event_bytes ev) (event_bytes-IsPlain ev),
      )
      (unfold event_bytes in
        rw
          (
            unshift-shift ev.kind (base_bytes ev.base ++ messages_bytes ev.messages),
            read_base-base_bytes ev.base (messages_bytes ev.messages),
          )
          refl)

decode-element :
    (m : Message) (rest : Bytes) → Kept m → decode (element m ++ rest) ≡ m ∷ decode rest
unfolding decode element str_eq
decode-element m rest (inl e) = rw e refl
decode-element m rest (inr e) = rw e refl

decode-comma : (rest : Bytes) → decode (44 ∷ rest) ≡ decode rest
unfolding decode
decode-comma rest = refl

decode-tail : (ms : List Message) → All Kept ms → decode (tail_bytes element ms) ≡ ms
unfolding tail_bytes
decode-tail [] kept = unfold decode in refl
decode-tail (m ∷ ms) (k, kept) =
    decode-comma (element m ++ tail_bytes element ms)
    ∙ (decode-element m (tail_bytes element ms) k
        ∙ ap (λ (l : List Message). m ∷ l) (decode-tail ms kept))

decode-bracket : (rest : Bytes) → decode (91 ∷ rest) ≡ decode rest
unfolding decode
decode-bracket rest = refl

decode-array : (ms : List Message) → All Kept ms → decode (array_bytes element ms) ≡ ms
unfolding array_bytes item_bytes
decode-array [] kept = unfold decode in refl
decode-array (m ∷ ms) (k, kept) =
    decode-bracket (element m ++ tail_bytes element ms)
    ∙ (decode-element m (tail_bytes element ms) k
        ∙ ap (λ (l : List Message). m ∷ l) (decode-tail ms kept))

unfoldable is_first : Bytes → Bool
is_first (x ∷ c ∷ _) = c == 1
is_first _ = false

element-tells :
    (m n : Message) (r t : Bytes) → Kept m → Kept n → element m ++ r ≡ element n ++ t → m ≡ n
unfolding element str_eq is_first
element-tells m n r t (inl a) (inl b) e = a ∙ sym b
element-tells m n r t (inr a) (inr b) e = a ∙ sym b
element-tells m n r t (inl a) (inr b) e =
    let clash : is_first (element m ++ r) ≡ is_first (element n ++ t) = ap is_first e in
    let apart : true ≡ false = (rw (a, b) at clash) in cc
element-tells m n r t (inr a) (inl b) e =
    let clash : is_first (element m ++ r) ≡ is_first (element n ++ t) = ap is_first e in
    let apart : false ≡ true = (rw (a, b) at clash) in cc

messages_bytes-full :
    (ms : List Message) → has_no_messages ms ≡ false → messages_bytes ms ≡ array_bytes element ms
unfolding messages_bytes has_no_messages
messages_bytes-full [] filled = cc
messages_bytes-full (m ∷ ms) filled = refl

messages_bytes-empty : (ms : List Message) → has_no_messages ms ≡ true → messages_bytes ms ≡ []
unfolding messages_bytes has_no_messages
messages_bytes-empty [] empty = refl
messages_bytes-empty (m ∷ ms) empty = cc

ok-inj {ℓ} : {A : Type ℓ} {a b : A} → ◌≡◌ {A = Result Str A} (ok a) (ok b) → a ≡ b
ok-inj e = cc

full_entry :
    (ev : Event) (raw line : Bytes)
    → IsHistory ev
    → has_no_messages ev.messages ≡ false
    → library.encode_messages ev.messages ≡ ok raw
    → library.encode_event ev ≡ ok line
    → library.decode_entry line ≡ some (entry_of ev raw)
full_entry ev raw line (role, content, message) filled is_raw is_line =
    let same : messages_bytes ev.messages ≡ raw =
      messages_bytes-full ev.messages filled ∙ ok-inj is_raw in
    rw (sym (ok-inj is_line), read-event_bytes ev) (cc)

note_entry :
    (ev : Event) (line : Bytes)
    → has_no_messages ev.messages ≡ true
    → ev.message ≡ none
    → str_eq ev.kind delta_kind ≡ false
    → library.encode_event ev ≡ ok line
    → (e : Entry) × (library.decode_entry line ≡ some e)
      × (str_eq e.kind delta_kind ≡ false)
      × (e.messages ≡ [])
      × (e.message ≡ none)
note_entry ev line empty bare other is_line = (
  read_entry ev.kind (ev.base, messages_bytes ev.messages),
  rw (sym (ok-inj is_line)) (read-event_bytes ev),
  other,
  messages_bytes-empty ev.messages empty,
  refl,
)

element-object : (m : Message) → (rest : Bytes) × (element m ≡ 123 ∷ rest)
unfolding element
element-object m = (_, refl)

partial_entry :
    (ev : Event) (line : Bytes) (n : ℕ)
    → library.encode_event ev ≡ ok line
    → n < length line
    → library.decode_entry (take n line) ≡ none
unfolding decode_line
partial_entry ev line n is_line less =
    let is : event_bytes ev ++ (125 ∷ []) ≡ line = ok-inj is_line in
    let less' : n < length (event_bytes ev ++ (125 ∷ [])) = omega (arith, ap length is) in
    rw (sym is, any-take n (event_bytes ev) (event_bytes-IsPlain ev) less') refl

pub library-IsCodec : IsCodec library element Kept
library-IsCodec = record {
  array = λ ms raw e. sym (ok-inj e);
  object = element-object;
  prefix_free = element-tells;
  back = λ ms raw kept e. ap ok (ap decode (sym (ok-inj e)) ∙ decode-array ms kept);
  parts = λ ms kept. (array_bytes element ms, refl);
  flat =
      λ ev line e. subst IsFlat (ok-inj e) (plain-IsFlat (event_bytes ev) (event_bytes-IsPlain ev));
  blind = λ line. unfold decode_line read in rw (any-newline line, strip-newline line) refl;
  partial = partial_entry;
  events = λ ev history kept. (event_bytes ev ++ (125 ∷ []), refl);
  full = full_entry;
  note = note_entry;
}
