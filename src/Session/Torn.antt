-- ===== src/Session/Torn.antt =====
-- A record that is written in part.
use mathlib.Core.Path.{subst, fun_ext}
use mow.Prelude.{
  zero, suc, ℕ, ◌+◌, ◌<◌, fork, List, [], ◌∷◌, ◌++◌, ◌≡◌, ◌⊎◌, inl, inr, refl, sym, ◌∙◌, ap, Str,
  Result, ok, err, ◌>>=◌, length, take, length-append, append-nil, arith,
}
use mow.Agent.Messages.{Message}
use mow.Session.Log.{Bytes, newline, Event, Library, push, lines, visit_all, scan_lines}
use mow.Session.Store.{Store, File, resolved_path, is_sealed, sealed, failed}
use mow.Session.Append.{with_bytes}
use mow.Session.Replay.{Replay, start, apply_decoded, apply_line, replay_file}
use mow.Session.Lines.{
  IsFlat, lines-append, is_sealed-sealed, total-lines, visit_all-append, visit_all-sealed,
}
use mow.Session.Codec.{IsCodec}
use mow.Session.Replayed.{current, replay-append}
use mow.Session.Coherence.{Coherent, sealed_le, Coherent-longer, relocated}
use mow.Session.Settled.{Settled, stopped, cleared}

-- Bytes with no newline are one line.
lines-flat : (c : ℕ) (tail : Bytes) → IsFlat (c ∷ tail) → lines (c ∷ tail) ≡ (c ∷ tail) ∷ []
unfolding lines push
lines-flat c [] (e, flat) = rw e refl
lines-flat c (d ∷ tail) (e, flat) = rw (e, lines-flat d tail flat) refl

bind_ok : (a : Result Str Replay) → (a >>= (λ s. ok s)) ≡ a
bind_ok (err e) = refl
bind_ok (ok s) = refl

module _ {lib : Library} {element : Message → Bytes} {Kept : Message → Type 0}
    (codec : IsCodec lib element Kept) where
  blind_lem :
      (s : Replay) (offset : ℕ) (l : Bytes)
      → apply_line lib s offset (l ++ (newline ∷ [])) ≡ apply_line lib s offset l
  unfolding apply_line
  blind_lem s offset l = rw (codec.blind l) refl

  visit_tail :
      (c : ℕ) (tail : Bytes) (s : Replay) (offset : ℕ)
      → IsFlat (c ∷ tail)
      → visit_all (apply_line lib) s (0 + offset) (lines (c ∷ tail))
        ≡ apply_decoded lib s offset (lib.decode_entry (c ∷ tail))
  unfolding visit_all apply_line
  visit_tail c tail s offset flat =
      let zero_add : 0 + offset ≡ offset = omega arith in
      rw (lines-flat c tail flat, zero_add) (bind_ok _)

  -- The file with a line that was not ended.
  replay-tail :
      (file : Bytes) (c : ℕ) (tail : Bytes)
      → IsFlat (c ∷ tail)
      → replay_file lib (sealed file ++ (c ∷ tail)) ≡ (
          replay_file lib file
          >>= (λ r. apply_decoded lib r (length (sealed file)) (lib.decode_entry (c ∷ tail))))
  unfolding replay_file scan_lines
  replay-tail file c tail flat =
      rw
        (
          lines-append (sealed file) (c ∷ tail) (is_sealed-sealed file),
          visit_all-append (apply_line lib) (lines (sealed file)) (lines (c ∷ tail)) start 0,
          visit_all-sealed (apply_line lib) blind_lem file start 0,
          total-lines (sealed file),
        )
        (ap (λ (f : Replay → Result Str Replay). replay_file lib file >>= f)
          (fun_ext (λ next. visit_tail c tail next (length (sealed file)) flat)))

  replay-sealed : (file : Bytes) → replay_file lib (sealed file) ≡ replay_file lib file
  unfolding replay_file scan_lines
  replay-sealed file = visit_all-sealed (apply_line lib) blind_lem file start 0

-- What a torn write has written of a line.
take-cases :
    (k : ℕ) (line : Bytes)
    → ((k < length line) × (take k (line ++ (newline ∷ [])) ≡ take k line))
      ⊎ ((take k (line ++ (newline ∷ [])) ≡ line)
          ⊎ (take k (line ++ (newline ∷ [])) ≡ line ++ (newline ∷ [])))
take-cases zero [] = inr (inl refl)
take-cases (suc zero) [] = inr (inr refl)
take-cases (suc (suc k)) [] = inr (inr refl)
take-cases zero (c ∷ line) = inl (omega arith, refl)
take-cases (suc k) (c ∷ line) = elim (take-cases k line) [
  | inl (less, e) ↦ inl (omega arith, ap (λ (t : Bytes). c ∷ t) e)
  | inr (inl e) ↦ inr (inl (ap (λ (t : Bytes). c ∷ t) e))
  | inr (inr e) ↦ inr (inr (ap (λ (t : Bytes). c ∷ t) e))
]

All-take : (k : ℕ) (line : Bytes) → IsFlat line → IsFlat (take k line)
All-take zero line flat = _
All-take (suc k) [] flat = _
All-take (suc k) (c ∷ line) (e, flat) = (e, All-take k line flat)

module _ {lib : Library} {Kept : Message → Type 0} where
  -- A torn write of some bytes, where it is known what they replay to.
  some_written :
      (path : Str) (s : Store) (f : File) (r next : Replay) (ms : List Message) (e : Str) (c : ℕ)
      (tail : Bytes)
      → resolved_path lib s ≡ ok path
      → Coherent lib Kept s f r
      → replay_file lib (sealed f.bytes ++ (c ∷ tail)) ≡ ok next
      → (current lib next ≡ ok ms) ⊎ (current lib next ≡ current lib r)
      → Settled lib Kept path f r ms
          (failed (record s { snapshot = [] }) (with_bytes f (sealed f.bytes ++ (c ∷ tail))) e)
  some_written path s f r next ms e c tail located coherent replays history =
      let longer : length f.bytes < length (sealed f.bytes ++ (c ∷ tail)) =
        omega (arith, sealed_le f.bytes, length-append (sealed f.bytes) (c ∷ tail)) in
      let grown =
        Coherent-longer f (with_bytes f (sealed f.bytes ++ (c ∷ tail))) r next replays longer in
      record {
        located = relocated lib s path located;
        next = next;
        history = history;
        acknowledged = λ no_error. cc;
        coherent = grown (record s { snapshot = [] }) (cleared s f r coherent);
        others = grown;
      }

  -- A torn write of no bytes.
  nothing_written :
      (path : Str) (s : Store) (f : File) (r : Replay) (ms : List Message) (e : Str)
      → resolved_path lib s ≡ ok path
      → Coherent lib Kept s f r
      → replay_file lib (sealed f.bytes) ≡ ok r
      → Settled lib Kept path f r ms
          (failed (record s { snapshot = [] }) (with_bytes f (sealed f.bytes)) e)
  unfolding sealed
  nothing_written path s f r ms e located coherent =
      fork
        (λ (bytes : Bytes).
          replay_file lib bytes ≡ ok r
          → Settled lib Kept path f r ms
              (failed (record s { snapshot = [] }) (with_bytes f bytes) e))
        (is_sealed f.bytes) f.bytes (f.bytes ++ (newline ∷ []))
        (λ _ replays.
          stopped lib Kept path (record s { snapshot = [] }) f r ms e (relocated lib s path located)
            (cleared s f r coherent))
        (λ _ replays.
          let longer : length f.bytes < length (f.bytes ++ (newline ∷ [])) =
            omega (arith, length-append f.bytes (newline ∷ [])) in
          let grown =
            Coherent-longer f (with_bytes f (f.bytes ++ (newline ∷ []))) r r replays longer in
          record {
            located = relocated lib s path located;
            next = r;
            history = inr refl;
            acknowledged = λ no_error. cc;
            coherent = grown (record s { snapshot = [] }) (cleared s f r coherent);
            others = grown;
          })

module _ {lib : Library} {element : Message → Bytes} {Kept : Message → Type 0}
    (codec : IsCodec lib element Kept) where
  pub torn_lem :
      (path : Str) (s : Store) (f : File) (r next : Replay) (ev : Event) (ms : List Message)
      (e : Str) (k : ℕ) (line tail : Bytes)
      → take k (line ++ (newline ∷ [])) ≡ tail
      → resolved_path lib s ≡ ok path
      → Coherent lib Kept s f r
      → lib.encode_event ev ≡ ok line
      → apply_decoded lib r (length (sealed f.bytes)) (lib.decode_entry line) ≡ ok next
      → current lib next ≡ ok ms
      → Settled lib Kept path f r ms
          (failed (record s { snapshot = [] }) (with_bytes f (sealed f.bytes ++ tail)) e)
  unfolding apply_decoded
  torn_lem path s f r next ev ms e k line [] part located coherent wrote applied history =
      rw (append-nil (sealed f.bytes)) (
        nothing_written path s f r ms e located coherent
          (replay-sealed codec f.bytes ∙ coherent.replays))
  torn_lem path s f r next ev ms e k line (c ∷ tail) part located coherent wrote applied history =
      let flat = codec.flat ev line wrote in
      elim (take-cases k line) [
        | inl (less, same) ↦
            let is : take k line ≡ c ∷ tail = sym same ∙ part in
            some_written path s f r r ms e c tail located coherent
              (replay-tail codec f.bytes c tail (subst IsFlat is (All-take k line flat))
                ∙ rw (coherent.replays, sym is, codec.partial ev line k wrote less) refl)
              (inr refl)
        | inr (inl same) ↦
            let is : line ≡ c ∷ tail = sym same ∙ part in
            some_written path s f r next ms e c tail located coherent
              (replay-tail codec f.bytes c tail (subst IsFlat is flat)
                ∙ rw (coherent.replays, sym is) applied)
              (inl history)
        | inr (inr same) ↦
            let is : line ++ (newline ∷ []) ≡ c ∷ tail = sym same ∙ part in
            some_written path s f r next ms e c tail located coherent
              (rw (sym is) (replay-append codec f.bytes line flat ∙ rw coherent.replays applied))
              (inl history)
      ]
