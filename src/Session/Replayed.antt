-- ===== src/Session/Replayed.antt =====
-- What one more record does to the replay of a session file.
use mow.Prelude.{
  ℤ, pos, fork, arith, ==_iff, Option, ℕ, ◌+◌, Bool-cases, true, false, none, some, List, [], ◌∷◌,
  ◌++◌, ◌≡◌, refl, sym, ◌∙◌, inl, inr, ap, Str, str_eq, str_eq_refl, is_empty, Result, ok, err,
  ◌>>=◌, length, All, if◌then◌else◌,
}
use mathlib.Core.Path.{fun_ext}
use mow.Agent.Messages.{Message, plain}
use mow.Session.Log.{Bytes, newline, Event, Entry, Library, scan_lines, lines, visit_all}
use mow.Session.Store.{has_no_messages, sealed}
use mow.Session.Lines.{
  IsFlat, lines-append, lines-one, is_sealed-sealed, total-lines, visit_all-append,
  visit_all-sealed,
}
use mow.Session.Replay.{
  Replay, start, delta_kind, has_base, is_full, materialize, apply_entry, apply_delta, apply_other,
  apply_simple, apply_decoded, apply_line, replay_file,
}
use mow.Session.Codec.{IsCodec, IsHistory, array_bytes, item_bytes}

-- The history that a replay has come to.
unfoldable pub current : Library → Replay → Result Str (List Message)
current lib r = if is_empty r.pending then ok r.snapshot else lib.decode_messages r.pending

-- The replay has come to this history, at this offset.
pub record StandsAt (lib : Library) (r : Replay) (ms : List Message) (offset : ℕ) : Type 0 where
  pub history : current lib r ≡ ok ms
  pub place : r.last_offset ≡ pos offset

bind_ok : (a : Result Str Replay) → (a >>= (λ s. ok s)) ≡ a
bind_ok (err e) = refl
bind_ok (ok s) = refl

is_full-is_empty : (raw : Bytes) → is_full raw ≡ true → is_empty raw ≡ false
unfolding is_full
is_full-is_empty [] e = cc
is_full-is_empty (c ∷ raw) e = refl

ok-inj : {a b : List Message} → ◌≡◌ {A = Result Str (List Message)} (ok a) (ok b) → a ≡ b
ok-inj e = cc

pub materialize-current :
    (lib : Library) (r : Replay) (ms : List Message)
    → current lib r ≡ ok ms
    → (full : Replay) × (materialize lib r ≡ ok full)
      × (full.snapshot ≡ ms)
      × (is_empty full.pending ≡ true)
unfolding current materialize
materialize-current lib r ms h = elim (Bool-cases (is_empty r.pending)) [
  | inl e ↦ (r, (rw e refl), ok-inj (sym (rw e refl) ∙ h), e)
  | inr e ↦ (record r { snapshot = ms; pending = [] }, (rw (e, (rw e at h)) refl), refl, refl)
]

-- What a message of the simple format leaves alone.
kept_by_simple :
    (P : Replay → Type 0) (r : Replay) (e : Entry)
    → P r
    → P (record r { simple = r.simple ++ (plain e.role false e.content ∷ []) })
    → P (apply_simple r e)
unfolding apply_simple
kept_by_simple P r e same more = fork P _ _ _ (λ _. more) (λ _. same)

based :
    (base : Option ℤ) (last : ℤ) (n : ℕ)
    → base ≡ some (pos n)
    → last ≡ pos n
    → has_base base last ≡ true
unfolding has_base
based base last n on place = rw (on, place) ((==_iff n n).1 refl)

module _ {lib : Library} {element : Message → Bytes} {Kept : Message → Type 0}
    (codec : IsCodec lib element Kept) where
  line_blind :
      (s : Replay) (offset : ℕ) (l : Bytes)
      → apply_line lib s offset (l ++ (newline ∷ [])) ≡ apply_line lib s offset l
  unfolding apply_line
  line_blind s offset l = rw (codec.blind l) refl

  is_full-raw :
      (ms : List Message) (raw : Bytes)
      → has_no_messages ms ≡ false
      → lib.encode_messages ms ≡ ok raw
      → is_full raw ≡ true
  unfolding has_no_messages is_full array_bytes item_bytes str_eq
  is_full-raw [] raw filled e = cc
  is_full-raw (m ∷ ms) raw filled e = rw (codec.array (m ∷ ms) raw e, (codec.object m).1) refl

  visit_one :
      (s : Replay) (offset : ℕ) (raw : Bytes)
      → visit_all (apply_line lib) s (0 + offset) ((raw ++ (newline ∷ [])) ∷ [])
        ≡ apply_decoded lib s offset (lib.decode_entry raw)
  unfolding visit_all apply_line
  visit_one s offset raw =
      let zero_add : 0 + offset ≡ offset = omega arith in rw (codec.blind raw, zero_add) (bind_ok _)

  -- The file with a record is the file before, and then the record.
  pub replay-append :
      (file raw : Bytes)
      → IsFlat raw
      → replay_file lib (sealed file ++ (raw ++ (newline ∷ []))) ≡ (
          replay_file lib file
          >>= (λ r. apply_decoded lib r (length (sealed file)) (lib.decode_entry raw)))
  unfolding replay_file scan_lines
  replay-append file raw flat =
      rw
        (
          lines-append (sealed file) (raw ++ (newline ∷ [])) (is_sealed-sealed file),
          lines-one raw flat,
          visit_all-append (apply_line lib) (lines (sealed file)) ((raw ++ (newline ∷ [])) ∷ [])
              start 0,
          visit_all-sealed (apply_line lib) line_blind file start 0,
          total-lines (sealed file),
        )
        (ap (λ (f : Replay → Result Str Replay). replay_file lib file >>= f)
          (fun_ext (λ next. visit_one next (length (sealed file)) raw)))

  -- A checkpoint.
  pub full_lem :
      (r : Replay) (offset : ℕ) (ev : Event) (raw line : Bytes)
      → IsHistory ev
      → has_no_messages ev.messages ≡ false
      → str_eq ev.kind delta_kind ≡ false
      → lib.encode_messages ev.messages ≡ ok raw
      → All Kept ev.messages
      → lib.encode_event ev ≡ ok line
      → (next : Replay) × (apply_decoded lib r offset (lib.decode_entry line) ≡ ok next)
        × StandsAt lib next ev.messages offset
  unfolding apply_decoded apply_entry
  full_lem r offset ev raw line history filled other encoded kept wrote = (
    record r { pending = raw; snapshot = []; last_offset = pos offset },
    (rw
        (
          codec.full ev raw line history filled encoded wrote,
          other,
          is_full-raw ev.messages raw filled encoded,
        )
        refl),
    record {
      history =
          unfold current in
          rw (is_full-is_empty raw (is_full-raw ev.messages raw filled encoded))
            (codec.back ev.messages raw kept encoded);
      place = refl;
    },
  )

  -- A delta on the record before it.
  pub delta_lem :
      (r : Replay) (base offset : ℕ) (old : List Message) (ev : Event) (raw line : Bytes)
      → StandsAt lib r old base
      → IsHistory ev
      → has_no_messages ev.messages ≡ false
      → ev.kind ≡ delta_kind
      → ev.base ≡ some (pos base)
      → lib.encode_messages ev.messages ≡ ok raw
      → All Kept ev.messages
      → lib.encode_event ev ≡ ok line
      → (next : Replay) × (apply_decoded lib r offset (lib.decode_entry line) ≡ ok next)
        × StandsAt lib next (old ++ ev.messages) offset
  unfolding apply_decoded apply_entry apply_delta
  delta_lem r base offset old ev raw line stands history filled kind on encoded kept wrote =
      let (full, made, is_old, empty) = materialize-current lib r old stands.history in
      let is_base : has_base ev.base r.last_offset ≡ true =
        based ev.base r.last_offset base on stands.place in
      let is_delta : str_eq ev.kind delta_kind ≡ true =
        ap (λ (t : Str). str_eq t delta_kind) kind ∙ str_eq_refl delta_kind in
      (
        record full { snapshot = full.snapshot ++ ev.messages; last_offset = pos offset },
        (rw
            (
              codec.full ev raw line history filled encoded wrote,
              is_delta,
              is_base,
              made,
              codec.back ev.messages raw kept encoded,
            )
            refl),
        record { history = unfold current in rw (empty, is_old) refl; place = refl },
      )

  -- An event with no history of its own.
  pub note_lem :
      (r : Replay) (offset : ℕ) (ev : Event) (line : Bytes)
      → has_no_messages ev.messages ≡ true
      → ev.message ≡ none
      → str_eq ev.kind delta_kind ≡ false
      → lib.encode_event ev ≡ ok line
      → (next : Replay) × (apply_decoded lib r offset (lib.decode_entry line) ≡ ok next)
        × (current lib next ≡ current lib r)
        × (next.last_offset ≡ r.last_offset)
  unfolding apply_decoded apply_entry is_full apply_other
  note_lem r offset ev line empty bare other wrote =
      let (e, seen, kind, no_messages, no_message) = codec.note ev line empty bare other wrote in
      (
        apply_simple r e,
        (rw (seen, kind, no_messages, no_message) refl),
        kept_by_simple (λ s. current lib s ≡ current lib r) r e refl (unfold current in refl),
        kept_by_simple (λ s. s.last_offset ≡ r.last_offset) r e refl refl,
      )
