-- ===== src/Session/Lines.antt =====
-- The lines of a file that a record is added to.
use mow.Prelude.{
  sym, Result-cases, ℕ, ◌+◌, ◌==◌, if◌then◌else◌, Bool-cases, true, false, List, [], ◌∷◌, ◌++◌, ◌≡◌,
  refl, inl, inr, append_assoc, length, arith, Str, Result, ◌>>=◌, All, ap,
}
use mathlib.Core.Path.{fun_ext}
use mow.Session.Log.{Bytes, newline, push, lines, visit_all}
use mow.Session.Store.{last_byte, is_sealed, sealed}

unfoldable joined : ℕ → List Bytes → List Bytes
joined c ls = if c == newline then (c ∷ []) ∷ ls else push c ls

lines-cons : (c : ℕ) (bytes : Bytes) → lines (c ∷ bytes) ≡ joined c (lines bytes)
unfolding lines joined
lines-cons c bytes = refl

-- There are lines.
Lines : List Bytes → Type 0
Lines ls = (first : Bytes) × (rest : List Bytes) × (ls ≡ first ∷ rest)

joined-Lines : (c : ℕ) (ls : List Bytes) → Lines (joined c ls)
unfolding Lines joined push
joined-Lines c ls = elim (Bool-cases (c == newline)) [
  | inl e ↦ (c ∷ [], ls, (rw e refl))
  | inr e ↦
      elim ls
        as (λ ls.
          (first : Bytes) × (rest : List Bytes) × ((if c == newline
              then (c ∷ []) ∷ ls
              else push c ls)
            ≡ first ∷ rest)) [
              | [] ↦ (c ∷ [], [], (rw e refl))
              | line ∷ rest ↦ (c ∷ line, rest, (rw e refl))
            ]
]

joined-append : (c : ℕ) (a b : List Bytes) → Lines a → joined c (a ++ b) ≡ joined c a ++ b
unfolding joined push Lines
joined-append c [] b (first, rest, e) = cc
joined-append c (l ∷ a) b some_lines = elim (Bool-cases (c == newline)) [
  | inl e ↦ rw e refl
  | inr e ↦ rw e refl
]

-- Lines are read one after the other where the first part ends its last line.
pub lines-append : (a b : Bytes) → is_sealed a ≡ true → lines (a ++ b) ≡ lines a ++ lines b
unfolding is_sealed last_byte
lines-append [] b ends = unfold lines in refl
lines-append (c ∷ []) b ends = unfold lines joined in rw ends refl
lines-append (c ∷ d ∷ r) b ends =
    rw (lines-cons c (d ∷ r ++ b), lines-cons c (d ∷ r), lines-append (d ∷ r) b ends)
      (joined-append c (lines (d ∷ r)) (lines b) (rw (lines-cons d r) (joined-Lines d (lines r))))

-- Bytes with no newline.
abbrev pub IsFlat : Bytes → Type 0
IsFlat bytes = All (λ (c : ℕ). (c == newline) ≡ false) bytes

pub lines-one :
    (raw : Bytes) → IsFlat raw → lines (raw ++ (newline ∷ [])) ≡ (raw ++ (newline ∷ [])) ∷ []
unfolding joined push
lines-one [] flat = unfold lines in refl
lines-one (c ∷ raw) (e, flat) =
    rw (lines-cons c (raw ++ (newline ∷ [])), lines-one raw flat) (rw e refl)

-- The last line with its newline.
unfoldable mended : List Bytes → List Bytes
mended [] = []
mended (l ∷ []) = (l ++ (newline ∷ [])) ∷ []
mended (l ∷ m ∷ ls) = l ∷ mended (m ∷ ls)

mended-joined : (c : ℕ) (ls : List Bytes) → Lines ls → joined c (mended ls) ≡ mended (joined c ls)
unfolding joined push mended Lines
mended-joined c [] (first, rest, e) = cc
mended-joined c (l ∷ []) some_lines = elim (Bool-cases (c == newline)) [
  | inl e ↦ rw e refl
  | inr e ↦ rw e refl
]
mended-joined c (l ∷ m ∷ ls) some_lines = elim (Bool-cases (c == newline)) [
  | inl e ↦ rw e refl
  | inr e ↦ rw e refl
]

lines-mended : (a : Bytes) → is_sealed a ≡ false → lines (a ++ (newline ∷ [])) ≡ mended (lines a)
unfolding is_sealed last_byte
lines-mended [] torn = cc
lines-mended (c ∷ []) torn = unfold lines push mended in rw torn refl
lines-mended (c ∷ d ∷ r) torn =
    rw (lines-cons c (d ∷ r ++ (newline ∷ [])), lines-cons c (d ∷ r), lines-mended (d ∷ r) torn)
      (mended-joined c (lines (d ∷ r)) (rw (lines-cons d r) (joined-Lines d (lines r))))

sealed-is_sealed_tail : (a : Bytes) → is_sealed (a ++ (newline ∷ [])) ≡ true
unfolding is_sealed last_byte
sealed-is_sealed_tail [] = refl
sealed-is_sealed_tail (c ∷ []) = refl
sealed-is_sealed_tail (c ∷ d ∷ r) = sealed-is_sealed_tail (d ∷ r)

-- Sealing ends the last line.
pub is_sealed-sealed : (a : Bytes) → is_sealed (sealed a) ≡ true
unfolding sealed
is_sealed-sealed a = elim (Bool-cases (is_sealed a)) [
  | inl e ↦ rw e e
  | inr e ↦ rw e (sealed-is_sealed_tail a)
]

pub is_sealed-line : (a raw : Bytes) → is_sealed (a ++ (raw ++ (newline ∷ []))) ≡ true
is_sealed-line a raw =
    rw (sym (append_assoc a raw (newline ∷ []))) (sealed-is_sealed_tail (a ++ raw))

-- The number of bytes.
unfoldable pub total : List Bytes → ℕ
total [] = 0
total (l ∷ ls) = length l + total ls

total-push : (c : ℕ) (ls : List Bytes) → total (push c ls) ≡ 1 + total ls
unfolding total push
total-push c [] = refl
total-push c (l ∷ ls) = omega arith

total-joined : (c : ℕ) (ls : List Bytes) → total (joined c ls) ≡ 1 + total ls
unfolding total joined push
total-joined c ls = elim (Bool-cases (c == newline)) [
  | inl e ↦ rw e (omega arith)
  | inr e ↦ rw e (total-push c ls)
]

pub total-lines : (a : Bytes) → total (lines a) ≡ length a
total-lines [] = unfold lines total in refl
total-lines (c ∷ a) = rw (lines-cons c a, total-joined c (lines a)) (omega (arith, total-lines a))

module _ {ℓ} {S : Type ℓ} (visit : S → ℕ → Bytes → Result Str S) where
  pub visit_all-append :
      (a b : List Bytes) (s : S) (offset : ℕ)
      → visit_all visit s offset (a ++ b)
        ≡ (visit_all visit s offset a >>= (λ next. visit_all visit next (offset + total a) b))
  unfolding visit_all total
  visit_all-append [] b s offset = ap (λ (n : ℕ). visit_all visit s n b) (omega arith)
  visit_all-append (l ∷ a) b s offset = elim (Result-cases (visit s offset l)) [
    | inl (e, h) ↦ rw h refl
    | inr (next, h) ↦
        rw (h, visit_all-append a b next (offset + length l))
          (ap
            (λ (n : ℕ). visit_all visit next (offset + length l) a >>= (λ t. visit_all visit t n b))
            (omega arith))
  ]

  -- A newline after the last line changes nothing for a visitor that does not see it.
  visit_all-mended :
      ((s : S) (offset : ℕ) (l : Bytes) → visit s offset (l ++ (newline ∷ [])) ≡ visit s offset l)
      → (ls : List Bytes) (s : S) (offset : ℕ)
      → visit_all visit s offset (mended ls) ≡ visit_all visit s offset ls
  unfolding visit_all mended
  visit_all-mended blind [] s offset = refl
  visit_all-mended blind (l ∷ []) s offset = rw (blind s offset l) refl
  visit_all-mended blind (l ∷ m ∷ ls) s offset =
      ap (λ (f : S → Result Str S). visit s offset l >>= f)
        (fun_ext (λ next. visit_all-mended blind (m ∷ ls) next (offset + length l)))

  -- Ending the last line changes nothing.
  pub visit_all-sealed :
      ((s : S) (offset : ℕ) (l : Bytes) → visit s offset (l ++ (newline ∷ [])) ≡ visit s offset l)
      → (file : Bytes) (s : S) (offset : ℕ)
      → visit_all visit s offset (lines (sealed file)) ≡ visit_all visit s offset (lines file)
  unfolding sealed
  visit_all-sealed blind file s offset = elim (Bool-cases (is_sealed file)) [
    | inl e ↦ rw e refl
    | inr e ↦ rw (e, lines-mended file e) (visit_all-mended blind (lines file) s offset)
  ]
