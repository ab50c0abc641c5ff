-- ===== src/Tools/Patch/Held.antt =====
-- The hunk that the second loop of `buildHunks` is filling: what it has read, and what it will write.
use mow.Prelude.{
  ℕ, ◌+◌, ◌≤◌, ◌≡◌, refl, sym, ap, ◌∙◌, List, [], ◌∷◌, ◌++◌, map, Option, none, some, append-nil,
  append_assoc, arith, length, drop, Str, length-append,
}
use mow.Tools.Diff.{
  OpKind, context, delete, insert, DiffOp, op, Hunk, open_hunk, push, old_lines, new_lines,
}
use mow.Tools.Diff.Sides.{old_side, new_side, old_side-append, new_side-append}
use mow.Tools.Patch.{apply_from}
use mow.Tools.Patch.Hunks.{as_patch, StandsAt, apply_hunk-as_patch}

-- What an open hunk has read between `p0` and `p`, and what it will write.
abbrev pub Held : Option Hunk → List Str → List Str → Type 0
Held none p0 p = p ≡ p0
Held (some h) p0 p = (p ≡ p0 ++ old_side h.ops) × StandsAt h p0

abbrev pub pending : Option Hunk → List Str
pending none = []
pending (some h) = new_side h.ops

count-push :
    (k : OpKind) (x : Str) (os : List DiffOp)
    → (length (old_side (os ++ op k x ∷ [])) ≡ length (old_side os) + old_lines k)
      × (length (new_side (os ++ op k x ∷ [])) ≡ length (new_side os) + new_lines k)
count-push k x os =
    rw (old_side-append os (op k x ∷ []), new_side-append os (op k x ∷ [])) (sizes k)
  where
    sizes :
        (k : OpKind)
        → (length (old_side os ++ old_side (op k x ∷ [])) ≡ length (old_side os) + old_lines k)
          × (length (new_side os ++ new_side (op k x ∷ [])) ≡ length (new_side os) + new_lines k)
    sizes context =
        omega (arith, length-append (old_side os) (x ∷ []), length-append (new_side os) (x ∷ []))
    sizes delete =
        omega (arith, length-append (old_side os) (x ∷ []), length-append (new_side os) [])
    sizes insert =
        omega (arith, length-append (old_side os) [], length-append (new_side os) (x ∷ []))

push-StandsAt : (h : Hunk) (o : DiffOp) (p : List Str) → StandsAt h p → StandsAt (push h o) p
push-StandsAt h o p st = record {
  starts = st.starts;
  counts_old = omega (arith, st.counts_old, (count-push o.kind o.text h.ops).0);
  counts_new = omega (arith, st.counts_new, (count-push o.kind o.text h.ops).1);
}

-- What is held after one more operation.
pub Held-push :
    (h : Hunk) (o : DiffOp) (p0 p : List Str)
    → Held (some h) p0 p
    → Held (some (push h o)) p0 (p ++ old_side (o ∷ []))
Held-push h o p0 p (e, st) = (
  ap (λ (l : List Str). l ++ old_side (o ∷ [])) e
      ∙ append_assoc p0 (old_side h.ops) (old_side (o ∷ []))
      ∙ ap (λ (l : List Str). p0 ++ l) (sym (old_side-append h.ops (o ∷ []))),
  push-StandsAt h o p0 st,
)

pub Held-open :
    (o : DiffOp) (p : List Str) (old new : ℕ)
    → old ≡ length p + 1
    → Held (some (push (open_hunk old new) o)) p (p ++ old_side (o ∷ []))
Held-open o p old new e =
    Held-push (open_hunk old new) o p p
      (sym (append-nil p), record { starts = e; counts_old = refl; counts_new = refl })

-- The file behind one more operation.
pub file_behind :
    (file p : List Str) (o : DiffOp) (os : List DiffOp)
    → file ≡ p ++ old_side (o ∷ os)
    → file ≡ (p ++ old_side (o ∷ [])) ++ old_side os
file_behind file p o os e =
    e
    ∙ ap (λ (l : List Str). p ++ l) (old_side-append (o ∷ []) os)
    ∙ sym (append_assoc p (old_side (o ∷ [])) (old_side os))

pub length_behind :
    (k : OpKind) (x : Str) (p : List Str) (old : ℕ)
    → old ≡ length p + 1
    → old + old_lines k ≡ length (p ++ old_side (op k x ∷ [])) + 1
length_behind context x p old e = omega (arith, length-append p (x ∷ []))
length_behind delete x p old e = omega (arith, length-append p (x ∷ []))
length_behind insert x p old e = omega (arith, length-append p [])

-- An operation that no hunk holds is a context line, which both sides have.
pub context_sides :
    (k : OpKind) (x : Str)
    → k ≡ context
    → (old_side (op k x ∷ []) ≡ x ∷ []) × (new_side (op k x ∷ []) ≡ x ∷ [])
context_sides context x e = (refl, refl)
context_sides delete x e = cc
context_sides insert x e = cc

-- A finished hunk, and the lines behind it.
pub apply_from-hunk :
    (file : List Str) (cur : ℕ) (out : List Str) (h : Hunk) (hs : List Hunk) (p0 p rest : List Str)
    → file ≡ p ++ rest
    → Held (some h) p0 p
    → cur ≤ length p0
    → apply_from file cur out (map as_patch (h ∷ hs))
      ≡ apply_from file (length p) ((out ++ drop cur p0) ++ new_side h.ops) (map as_patch hs)
unfolding apply_from
apply_from-hunk file cur out h hs p0 p rest e (q, st) c =
    let whole : file ≡ p0 ++ (old_side h.ops ++ rest) =
      e ∙ ap (λ (l : List Str). l ++ rest) q ∙ append_assoc p0 (old_side h.ops) rest in
    let here : length p0 + length (old_side h.ops) ≡ length p =
      rw q (sym (length-append p0 (old_side h.ops))) in
    rw (apply_hunk-as_patch file cur out h p0 rest whole c st) (
      ap (λ (n : ℕ). apply_from file n ((out ++ drop cur p0) ++ new_side h.ops) (map as_patch hs))
        here)
